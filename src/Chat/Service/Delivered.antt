-- ===== src/Chat/Service/Delivered.antt =====
-- core/services/chat/src/services/chat.rs: a message to a channel reaches the users of the channel.
use peace.Base.{
  ℕ, ◌%◌, ◌^◌, ◌<◌, ◌≤◌, ◌==◌, length, false, true, ◌≡◌, refl, sym, ap, subst, ◌∙◌, if◌then◌else◌,
}
use peace.Base.{arith, Bool-cases, inl, inr}
use peace.Base.{some, List, [], ◌∷◌, ◌++◌, append-nil, append_assoc, done}
use peace.Base.Keys.{nat_eq, beq_refl}
use peace.Base.HashMap.{HashMap, get, insert as insert_entry}
use peace.Base.HashSet.{contains, from_iter}
use peace.Base.Outcome.{ok}
use peace.BanchoState.Service.Mail.{joined-middle}
use peace.Chat.{Channel, BanchoChatExt, JoinedChannel}
use peace.Chat.Membership.{info_packets}
use peace.Chat.Service.{State, deref, channel_is_alive}
use peace.Chat.Service.Calls.{send_to_channel}
use peace.Chat.Service.Dequeue.{values, is_told, send_infos, dequeue_at}
use peace.Chat.Service.Reading.{contents, notices, from_channel, messages, Apart}
use peace.Chat.Service.Delivery.{answer, dequeue_at-answer}
use peace.Chat.Service.Sent.{entry, pushed, send_to_channel-pushed, infos-pushed}
use peace.MessageQueue.{Message, skips, is_valid}
use peace.MessageQueue.Pushed.{unread-insert}
use peace.Packets.Ids.{as_u8, bancho_channel_info}
use peace.Packets.Items.{text, number}
use peace.Packets.Items.Encoding.{packet-frame, frame, encodings}
use peace.Packets.Server.Channels.{channel_info, send_message as pack_message}
use peace.PacketsQueue.{Packet}
use peace.PacketsQueue.Flow.{joined, joined-append}
use peace.Users.Store.{unwrap_or}

-- The bytes of a packet stand together in the bytes.
abbrev pub Contains : Packet → List ℕ → Type 0
Contains p ys = (before : List ℕ) × (after : List ℕ) × (ys ≡ before ++ p ++ after)

Contains-left : (p : Packet) (xs ys : List ℕ) → Contains p ys → Contains p (xs ++ ys)
Contains-left p xs ys (before, after, e) = (
  xs ++ before,
  after,
  ap (λ zs. xs ++ zs) (e ∙ append_assoc before p after)
      ∙ sym (append_assoc xs before (p ++ after))
      ∙ sym (append_assoc (xs ++ before) p after),
)

Contains-right : (p : Packet) (xs ys : List ℕ) → Contains p xs → Contains p (xs ++ ys)
Contains-right p xs ys (before, after, e) =
    (before, after ++ ys, ap (λ zs. zs ++ ys) e ∙ append_assoc (before ++ p) after ys)

contents-middle :
    (before after : List (ℕ × Message Packet ℕ)) (id : ℕ) (msg : Message Packet ℕ)
    (ps : List Packet)
    → contents (before ++ (id, msg) ∷ after) ++ ps
      ≡ contents before ++ msg.content ∷ (contents after ++ ps)
contents-middle [] after id msg ps = refl
contents-middle (m ∷ before) after id msg ps =
    ap (λ qs. m.1.content ∷ qs) (contents-middle before after id msg ps)

-- A channel whose texts can be packed.
abbrev pub Short : Channel → Type 0
Short ch = (length ch.name < 2 ^ 32) × (length (unwrap_or ch.description []) < 2 ^ 32)

info_packets-done : (ch : Channel) → Short ch → (packet : Packet) × (info_packets ch ≡ done packet)
unfolding info_packets channel_info
info_packets-done ch (name, title) =
    let values =
      text ch.name ∷ text (unwrap_or ch.description []) ∷ number 2 (ch.user_count % 2 ^ 16) ∷ [] in
    (
      frame (as_u8 bancho_channel_info) (encodings values),
      packet-frame bancho_channel_info values (name, (title, (tt, tt))),
    )

send_infos-done :
    (st : State) (updates : HashMap ℕ ℕ) (cs xs : List ℕ)
    → ((c : ℕ) → Short (st.channel_at c))
    → (rest : List ℕ) × ((send_infos st updates cs xs).1 ≡ done (xs ++ rest))
unfolding send_infos
send_infos-done st updates [] xs short = ([], ap done (sym (append-nil xs)))
send_infos-done st updates (c ∷ cs) xs short =
    let ch = st.channel_at c in
    let (packet, packed) = info_packets-done ch (short c) in
    elim (Bool-cases (is_told (get ch.id updates) ch.updated_at)) [
      | inl told ↦
          let (rest, e) = send_infos-done st updates cs xs short in (rest, ground (arith, told, e))
      | inr fresh ↦
          let (rest, e) =
            send_infos-done st (insert_entry ch.id ch.updated_at updates) cs (xs ++ packet) short in
          (packet ++ rest, ground (arith, fresh, packed, e, append_assoc xs packet rest))
    ]

skips-fresh :
    (reader sender from index : ℕ) (packet : Packet)
    → (sender == reader) ≡ false
    → from ≤ index
    → skips reader from (index, entry sender packet) ≡ false
unfolding skips is_valid contains from_iter
skips-fresh reader sender from index packet other young = ground (arith, other)

-- The message is among those of the joined channel.
from_channel-pushed :
    (st : State) (index sender reader c : ℕ) (packet : Packet) (j : JoinedChannel)
    (ps : List Packet)
    → (sender == reader) ≡ false
    → c ≡ j.ptr
    → j.message_index ≤ index
    → Contains packet (joined (from_channel (pushed st index sender c packet) reader j ++ ps))
from_channel-pushed st index sender reader c packet j ps other here young =
    let ms = (st.channel_at c).message_queue.messages in
    let (before, after, found) =
      unread-insert reader j.message_index index (entry sender packet) ms
        (skips-fresh reader sender j.message_index index packet other young) in
    let at : from_channel (pushed st index sender c packet) reader j
        ≡ contents (before ++ (index, entry sender packet) ∷ after) =
      ground (arith, here, found, beq_refl c) in
    (
      joined (contents before),
      joined (contents after ++ ps),
      ap (λ qs. joined (qs ++ ps)) at
          ∙ ap joined (contents-middle before after index (entry sender packet) ps)
          ∙ joined-middle [] (contents before) packet (contents after ++ ps),
    )

messages-pushed :
    (st : State) (index sender reader c id : ℕ) (packet : Packet) (j : JoinedChannel)
    (js : HashMap ℕ JoinedChannel)
    → (sender == reader) ≡ false
    → c ≡ j.ptr
    → channel_is_alive st c ≡ true
    → j.message_index ≤ index
    → get id js ≡ some j
    → Contains packet (joined (messages (pushed st index sender c packet) reader js))
unfolding messages get
messages-pushed st index sender reader c id packet j [] other here alive young found =
    ground (arith, found)
messages-pushed st index sender reader c id packet j ((k, i) ∷ js) other here alive young found =
    let st' = pushed st index sender c packet in
    let rest = messages st' reader js in
    elim (Bool-cases (k == id)) [
      | inl same ↦
          let e : i ≡ j = ground (arith, same, found) in
          let here' : c ≡ i.ptr = ground (arith, e, here) in
          let alive' : channel_is_alive st' i.ptr ≡ true =
            (unfold channel_is_alive in ground (arith, here', alive)) in
          let young' : i.message_index ≤ index = ground (arith, e, young) in
          rw alive' (from_channel-pushed st index sender reader c packet i rest other here' young')
      | inr k ↦
          let first = if channel_is_alive st' i.ptr then from_channel st' reader i else [] in
          let later : get id js ≡ some j = ground (arith, k, found) in
          subst (Contains packet) (sym (joined-append first rest)) (
            Contains-left packet (joined first) (joined rest) (
              messages-pushed st index sender reader c id packet j js other here alive young later))
    ]

-- Where a user has joined a channel that is there, no channel is joined under two ids, and the names
-- and descriptions of the channels have less than 2 ^ 32 bytes: a message that another user sends to
-- the channel, with an id that is not older than the user's index of the channel, stands in what the
-- next call returns for a session of the user with a bancho client.
pub send_to_channel-delivered :
    (st : State) (index a b c id : ℕ) (message : List ℕ) (packet : Packet) (ext : BanchoChatExt)
    (j : JoinedChannel)
    → (st.sessions b).bancho_ext ≡ some ext
    → Apart (st.sessions b).joined_channels
    → ((c : ℕ) → Short (st.channel_at c))
    → ((deref st a).user_id == (deref st b).user_id) ≡ false
    → get id (st.sessions b).joined_channels ≡ some j
    → c ≡ j.ptr
    → channel_is_alive st c ≡ true
    → j.message_index ≤ index
    → pack_message (deref st a).username message (st.channel_at c).name (deref st a).user_id
      ≡ done packet
    → (data' : List ℕ) × ((dequeue_at (send_to_channel st index a message c).0 b).1 ≡ ok data')
      × Contains packet data'
send_to_channel-delivered st index a b c id message packet ext j found apart short other joined_it
      here alive young packed =
    let u = (deref st a).user_id in
    let v = (deref st b).user_id in
    let st' = pushed st index u c packet in
    let js = (st.sessions b).joined_channels in
    let q = joined ext.packets_queue.queue in
    let told = joined (notices st v ext) in
    let xs = told ++ joined (messages st' v js) in
    let (rest, done_infos) =
      send_infos-done st ext.receive_channel_updates (values st.channels.indexes.channel_id) xs
        short in
    let there =
      Contains-left packet told (joined (messages st' v js))
        (messages-pushed st index u v c id packet j js other here alive young joined_it) in
    (
      xs ++ rest ++ q,
      ap (λ s. (dequeue_at s b).1) (send_to_channel-pushed st index a c message packet packed)
          ∙ dequeue_at-answer st' b ext found apart
          ∙ ap (λ r. answer r q) (infos-pushed st index u c packet ext xs ∙ done_infos),
      Contains-right packet (xs ++ rest) q (Contains-right packet xs rest there),
    )
