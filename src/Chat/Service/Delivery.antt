-- ===== src/Chat/Service/Delivery.antt =====
-- core/services/chat/src/services/chat.rs: what `dequeue_chat_packets` returns.
use peace.Base.{ℕ, ◌≡◌, refl, ap, ◌∙◌, arith}
use peace.Base.{inl, inr, some, List, [], ◌∷◌, ◌++◌}
use peace.Base.{Exec, done, panic, Exec-cases}
use peace.Base.Keys.{nat_eq, beq_refl}
use peace.Base.HashMap.{HashMap, insert}
use peace.Base.Outcome.{ok, panicked}
use peace.Chat.{Channel, BanchoChatExt}
use peace.Chat.Membership.{info_packets}
use peace.Chat.Service.{Reply, State, deref}
use peace.Chat.Service.Dequeue.{
  values, receive_notices, receive_all, send_infos, finish, remove_invalid, dequeue_at,
}
use peace.PacketsQueue.{dequeue_all_packets}
use peace.PacketsQueue.Flow.{joined, dequeue-joined}
use peace.Chat.Service.Infos.{Distinct, outstanding, infos_of, behind, send_infos-outstanding}
use peace.Chat.Service.Noticed.{AlikeExt, messages-Noticed, receive_notices_lem}
use peace.Chat.Service.Reading.{
  notices, messages, Apart, Told, Kept, Kept-trans, gone, receive_all_lem,
}

info_packets-Told : (c d : Channel) → Told c d → info_packets c ≡ info_packets d
unfolding info_packets
info_packets-Told c d told = ground (arith, told)

-- The infos depend on what a client is told of the channels.
pub send_infos-Told :
    (st' st : State) (updates : HashMap ℕ ℕ) (cs xs : List ℕ)
    → ((c : ℕ) → Told (st'.channel_at c) (st.channel_at c))
    → send_infos st' updates cs xs ≡ send_infos st updates cs xs
unfolding send_infos
send_infos-Told st' st updates [] xs told = refl
send_infos-Told st' st updates (c ∷ cs) xs told =
    let same = info_packets-Told (st'.channel_at c) (st.channel_at c) (told c) in
    let ch = st.channel_at c in
    elim (Exec-cases (info_packets ch)) [
      | inl bad ↦ ground (arith, told c, same, bad, send_infos-Told st' st updates cs xs told)
      | inr (packet, good) ↦ ground (
        arith,
        told c,
        same,
        good,
        send_infos-Told st' st updates cs xs told,
        send_infos-Told st' st (insert ch.id ch.updated_at updates) cs (xs ++ packet) told,
      )
    ]

-- What the client is told of the channels, behind the bytes `xs`.
abbrev pub with_infos : State → BanchoChatExt → List ℕ → Exec (List ℕ)
with_infos st ext xs =
    (send_infos st ext.receive_channel_updates (values st.channels.indexes.channel_id) xs).1

-- The answer of the call, where `q` are the bytes that wait in the session's own queue.
abbrev pub answer : Exec (List ℕ) → List ℕ → Reply (List ℕ)
answer panic q = panicked
answer (done xs) q = ok (xs ++ q)

finish_lem :
    (st : State) (a : ℕ) (ext : BanchoChatExt) (xs : List ℕ)
    → (finish st a ext xs).1 ≡ answer (with_infos st ext xs) (joined ext.packets_queue.queue)
unfolding finish dequeue_all_packets
finish_lem st a ext xs = elim (Exec-cases (with_infos st ext xs)) [
  | inl bad ↦ ground (arith, bad)
  | inr (more, good) ↦ ground (arith, good, dequeue-joined ext.packets_queue.queue [])
]

-- The infos, and so the answer, depend on what is told of the channels.
with_infos-Kept :
    (st' st : State) (a : ℕ) (ext' ext : BanchoChatExt) (xs : List ℕ)
    → Kept st' st a
    → AlikeExt ext' ext
    → answer (with_infos st' ext' xs) (joined ext'.packets_queue.queue)
      ≡ answer (with_infos st ext xs) (joined ext.packets_queue.queue)
with_infos-Kept st' st a ext' ext xs k (queue, updates) =
    let cs = values st.channels.indexes.channel_id in
    let same = send_infos-Told st' st ext.receive_channel_updates cs xs k.told in
    ground (arith, same, queue, updates, k.channels)

remove_invalid-Kept :
    (st : State) (a : ℕ) (invalid_channels : List ℕ)
    → Kept (remove_invalid st a invalid_channels) st a
unfolding remove_invalid
remove_invalid-Kept st a invalid_channels = record {
  channels = refl;
  base = ground (arith, beq_refl a);
  told = λ c. (refl, refl, refl, refl, refl);
}

-- How the call ends: the state and the bytes that its last part is given.
pub record Ending (st : State) (a : ℕ) (ext : BanchoChatExt) : Type 0 where
  pub before : State
  pub ext' : BanchoChatExt
  pub ended :
      dequeue_at st a
      ≡ finish before a ext' (
          joined (notices st (deref st a).user_id ext)
          ++ joined (messages st (deref st a).user_id (st.sessions a).joined_channels))
  pub kept : Kept before st a
  pub alike : AlikeExt ext' ext

pub dequeue_at-finish :
    (st : State) (a : ℕ) (ext : BanchoChatExt)
    → (st.sessions a).bancho_ext ≡ some ext
    → Apart (st.sessions a).joined_channels
    → Ending st a ext
unfolding dequeue_at
dequeue_at-finish st a ext found apart =
    let u = (deref st a).user_id in
    let js = (st.sessions a).joined_channels in
    let (ext', got, alike, n) = receive_notices_lem st a ext in
    let st1 = (receive_notices st a ext).0 in
    let xs = joined (notices st u ext) in
    let (all, kept) = receive_all_lem st1 a js xs [] apart in
    let st2 = (receive_all st1 a js xs []).0 in
    let st3 : State = remove_invalid st2 a ([] ++ gone st1 js) in
    let same = ap (λ b. messages st1 b.user_id js) n.kept.base ∙ messages-Noticed st1 st a u js n in
    let ys = joined (messages st1 (deref st1 a).user_id js) in
    let ended : dequeue_at st a ≡ finish st3 a ext' (xs ++ ys) = ground (arith, found, got, all) in
    record {
      before = st3;
      ext' = ext';
      ended = ended ∙ ap (λ ms. finish st3 a ext' (xs ++ joined ms)) same;
      kept =
          Kept-trans st3 st2 st a (remove_invalid-Kept st2 a ([] ++ gone st1 js))
            (Kept-trans st2 st1 st a kept n.kept);
      alike = alike;
    }

-- The answer, with the loop over the infos in it.
pub dequeue_at-answer :
    (st : State) (a : ℕ) (ext : BanchoChatExt)
    → (st.sessions a).bancho_ext ≡ some ext
    → Apart (st.sessions a).joined_channels
    → (dequeue_at st a).1
      ≡ answer
          (with_infos st ext (
            joined (notices st (deref st a).user_id ext)
            ++ joined (messages st (deref st a).user_id (st.sessions a).joined_channels)))
          (joined ext.packets_queue.queue)
dequeue_at-answer st a ext found apart =
    let u = (deref st a).user_id in
    let ys = joined (notices st u ext) ++ joined (messages st u (st.sessions a).joined_channels) in
    let e = dequeue_at-finish st a ext found apart in
    ap (λ r. r.1) e.ended
    ∙ finish_lem e.before a e.ext' ys
    ∙ with_infos-Kept e.before st a e.ext' ext ys e.kept e.alike

-- Where no channel is joined under two ids, and no two channels of the service have the same id, a
-- call for a session with a bancho client returns, in this order, the notices that its user has not
-- read, the messages of the joined channels that are still there and that the user has not read, the
-- infos of the channels that the session has never been told of or that have another time of update
-- than it was last told, and the packets that wait for the session; where one of these infos cannot
-- be packed, the call panics.
pub dequeue_at-messages :
    (st : State) (a : ℕ) (ext : BanchoChatExt)
    → (st.sessions a).bancho_ext ≡ some ext
    → Apart (st.sessions a).joined_channels
    → Distinct st (values st.channels.indexes.channel_id)
    → (dequeue_at st a).1
      ≡ answer
          (behind
            (joined (notices st (deref st a).user_id ext)
              ++ joined (messages st (deref st a).user_id (st.sessions a).joined_channels))
            (infos_of
              (outstanding st ext.receive_channel_updates (values st.channels.indexes.channel_id))))
          (joined ext.packets_queue.queue)
dequeue_at-messages st a ext found apart distinct =
    let u = (deref st a).user_id in
    let xs = joined (notices st u ext) ++ joined (messages st u (st.sessions a).joined_channels) in
    let cs = values st.channels.indexes.channel_id in
    dequeue_at-answer st a ext found apart
    ∙ ap (λ infos. answer infos (joined ext.packets_queue.queue))
        (send_infos-outstanding st ext.receive_channel_updates cs xs distinct)
