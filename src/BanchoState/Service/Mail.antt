-- ===== src/BanchoState/Service/Mail.antt =====
-- core/services/bancho_state/src/services/bancho_state.rs: a packet that is put in comes out of the
-- next call of `dequeue_bancho_packets`, for one user or for all, and comes out once.
use peace.BanchoState.Queries.{ok}
use peace.BanchoState.Service.{
  Notice, State, at_present, broadcast_bancho_packets, push_to, dequeue_at,
}
use peace.BanchoState.Service.Delivery.{waiting, packets_of, queued, dequeue_at-waiting}
use peace.Base.{ℕ, ◌==◌, ltb, ◌≤◌, Bool-cases, false, ◌≡◌, refl, sym, ap, ◌∙◌}
use peace.Base.{arith, inl, inr, none, List, [], ◌∷◌, ◌++◌, map, append-nil}
use peace.Base.{append_assoc}
use peace.Base.Keys.{nat_eq, beq_refl}
use peace.Base.BTreeMap.{insert}
use peace.Base.HashSet.{contains}
use peace.MessageQueue.{Message, skips, push_message, is_valid}
use peace.MessageQueue.Delivery.{unread}
use peace.PacketsQueue.{Packet, push_packet}
use peace.PacketsQueue.Flow.{joined, joined-append}
use peace.Users.Store.{UserIndexes}

joined-snoc : (ps : List Packet) (p : Packet) → joined (ps ++ p ∷ []) ≡ joined ps ++ p
unfolding joined
joined-snoc ps p = joined-append ps (p ∷ []) ∙ ap (λ xs. joined ps ++ xs) (append-nil p)

extends-push_to :
    (st : State) (a : ℕ) (p : Packet)
    → (queued (push_to st a p) a ≡ queued st a ++ p ∷ [])
      × (waiting (push_to st a p) a ≡ waiting st a)
unfolding push_to push_packet
extends-push_to st a p = ground (arith, beq_refl a)

-- A packet that is enqueued for a session comes out of the next call of `dequeue_bancho_packets` for
-- it, after the packets that were queued and before the notices.
pub push_to-dequeue_at :
    (st : State) (a : ℕ) (p : Packet)
    → (dequeue_at (push_to st a p) a).1
      ≡ ok (joined (queued st a) ++ p ++ joined (packets_of (waiting st a)))
push_to-dequeue_at st a p =
    let (queue, notices) = extends-push_to st a p in
    dequeue_at-waiting (push_to st a p) a
    ∙ ap (λ ps. ok (joined ps ++ joined (packets_of (waiting (push_to st a p) a)))) queue
    ∙ ap (λ ms. ok (joined (queued st a ++ p ∷ []) ++ joined (packets_of ms))) notices
    ∙ ap (λ xs. ok (xs ++ joined (packets_of (waiting st a)))) (joined-snoc (queued st a) p)

-- Where an entry is not skipped, it is among the unread ones once it is inserted.
unread-insert :
    (reader from id : ℕ) (msg : Message Notice ℕ) (x : UserIndexes ℕ)
    (ms : List (ℕ × Message Notice ℕ))
    → skips reader from (at_present x (id, msg)) ≡ false
    → (before after : List (ℕ × Message Notice ℕ)) × (unread reader from
          (map (at_present x) (insert id msg ms))
        ≡ before ++ at_present x (id, msg) ∷ after)
unfolding unread insert
unread-insert reader from id msg x [] fresh = ([], [], ground arith)
unread-insert reader from id msg x ((i, m) ∷ ms) fresh = elim (Bool-cases (ltb id i)) [
  | inl h ↦ ([], unread reader from (map (at_present x) ((i, m) ∷ ms)), ground arith)
  | inr h ↦ elim (Bool-cases (i == id)) [
    | inl k ↦ ([], unread reader from (map (at_present x) ms), ground arith)
    | inr k ↦
        let (before, after, ih) = unread-insert reader from id msg x ms fresh in
        elim (Bool-cases (skips reader from (at_present x (i, m)))) [
          | inl s ↦ (before, after, ground arith)
          | inr s ↦ (at_present x (i, m) ∷ before, after, ground arith)
        ]
  ]
]

pub packets_of-append :
    (before after : List (ℕ × Message Notice ℕ))
    → packets_of (before ++ after) ≡ packets_of before ++ packets_of after
packets_of-append [] after = refl
packets_of-append (m ∷ before) after =
    ap (λ ps. m.1.content.packet ∷ ps) (packets_of-append before after)

broadcast-fresh :
    (st : State) (a id : ℕ) (p : Packet)
    → (st.sessions a).extends.notify_index ≤ id
    → (before after : List (ℕ × Message Notice ℕ)) × (packets_of
          (waiting (broadcast_bancho_packets st id p) a)
        ≡ packets_of before ++ p ∷ packets_of after)
unfolding broadcast_bancho_packets push_message
broadcast-fresh st a id p young =
    let msg : Message Notice ℕ = record {
      content = record { packet = p; weak = none };
      has_read = [];
      validator = none;
    } in
    let x = st.user_sessions.indexes in
    let s = st.sessions a in
    let fresh : skips s.base.user_id s.extends.notify_index (at_present x (id, msg)) ≡ false =
      (unfold skips is_valid contains in ground arith) in
    let (before, after, found) =
      unread-insert s.base.user_id s.extends.notify_index id msg x st.notify_queue.messages fresh in
    (before, after, ap packets_of found ∙ packets_of-append before (at_present x (id, msg) ∷ after))

pub joined-middle :
    (xs : List ℕ) (ps : List Packet) (p : Packet) (qs : List Packet)
    → xs ++ joined (ps ++ p ∷ qs) ≡ xs ++ joined ps ++ p ++ joined qs
unfolding joined
joined-middle xs ps p qs =
    ap (λ ys. xs ++ ys) (joined-append ps (p ∷ qs))
    ∙ sym (append_assoc xs (joined ps) (p ++ joined qs))
    ∙ sym (append_assoc (xs ++ joined ps) p (joined qs))

-- A broadcast packet, whose id is not older than the notify index of a session, is among what the
-- next call of `dequeue_bancho_packets` for the session returns, whoever the user is and whatever
-- else the queue holds; the packets that were queued for the session come first.
pub broadcast-dequeue_at :
    (st : State) (a id : ℕ) (p : Packet)
    → (st.sessions a).extends.notify_index ≤ id
    → (before after : List ℕ) × ((dequeue_at (broadcast_bancho_packets st id p) a).1
        ≡ ok (joined (queued st a) ++ before ++ p ++ after))
unfolding broadcast_bancho_packets
broadcast-dequeue_at st a id p young =
    let (before, after, found) = broadcast-fresh st a id p young in
    let q = joined (queued st a) in
    (
      joined (packets_of before),
      joined (packets_of after),
      dequeue_at-waiting (broadcast_bancho_packets st id p) a
          ∙ ap (λ ps. ok (q ++ joined ps)) found
          ∙ ap ok (joined-middle q (packets_of before) p (packets_of after)),
    )
