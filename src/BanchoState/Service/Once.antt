-- ===== src/BanchoState/Service/Once.antt =====
-- core/services/bancho_state/src/services/bancho_state.rs: what a call of `dequeue_bancho_packets`
-- leaves for the user who made it, and for the others.
use peace.BanchoState.Session.{BanchoExtend, BanchoSession}
use peace.BanchoState.Queries.{ok}
use peace.BanchoState.Service.{
  Notice, State, current, at_present, set_extends, with_notices, dequeue_at,
}
use peace.BanchoState.Service.Delivery.{
  waiting, packets_of, queued, dequeue_at-waiting, sessions-write_session,
}
use peace.Base.{ℕ, ◌≤◌, ◌≡◌, refl, sym, ap, ◌∙◌, subst}
use peace.Base.{arith, ◌≢◌, none, List, [], ◌∷◌, ◌++◌, map, done}
use peace.Base.Keys.{nat_eq, beq_refl}
use peace.Base.HashSet.{contains-insert_key, contains-insert_other}
use peace.MessageQueue.{
  Message, Received, is_valid, skips, collect, nothing, receive_loop, receive_messages,
}
use peace.MessageQueue.Delivery.{unread, delivery, last_id, receive_messages-delivery}
use peace.PacketsQueue.{dequeue_all_packets}
use peace.PacketsQueue.Flow.{joined}
use peace.Users.Store.{UserIndexes}

abbrev Entries : Type 0
Entries = List (ℕ × Message Notice ℕ)

-- The notify index after the delivery of the entries.
abbrev pub index_after : ℕ → Entries → ℕ
index_after from [] = from
index_after from ((i, m) ∷ ms) = last_id i ms

-- What a call leaves in the state at `st`, for the entries that it delivers.
abbrev pub Left : State → ℕ → State → Entries → Type 0
Left st a st' ms =
    (st'.user_sessions ≡ st.user_sessions)
    × (st'.notify_queue ≡ st.notify_queue)
    × ((st'.sessions a).base ≡ (st.sessions a).base)
    × (queued st' a ≡ queued st a)
    × ((st'.sessions a).extends.notify_index ≡ index_after (st.sessions a).extends.notify_index ms)
    × ((b : ℕ) → b ≢ a → st'.sessions b ≡ st.sessions b)

pub sessions-set_extends :
    (st : State) (a b : ℕ) (e : BanchoExtend)
    → b ≢ a
    → (set_extends st a e).sessions b ≡ st.sessions b
sessions-set_extends st a b e h = ground arith

with_notices-Left :
    (st : State) (a : ℕ) (xs : List ℕ) (ms : Entries)
    → Left st a (with_notices st a xs (done (delivery ms))).0 ms
unfolding with_notices
with_notices-Left st a xs [] = (refl, refl, refl, refl, refl, λ b h. refl)
with_notices-Left st a xs ((i, m) ∷ ms) =
    let e = record (st.sessions a).extends { notify_index = last_id i ms } in
    let s : BanchoSession = record (st.sessions a) { extends = e } in
    let there = sessions-write_session st a s in
    (
      refl,
      refl,
      ap (λ s. s.base) there,
      ap (λ s. s.extends.packets_queue.queue) there,
      ap (λ s. s.extends.notify_index) there,
      λ b h. sessions-set_extends st a b e h,
    )

-- The state in which the notices are received: the queue of the session is empty.
abbrev pub drained : State → ℕ → State
drained st a =
    let s = st.sessions a in
    record (set_extends st a (record s.extends { packets_queue = record { queue = [] } })) {
      notify_queue = (receive_messages (current st) s.base.user_id s.extends.notify_index none).0;
    }

dequeue_at-drained :
    (st : State) (a : ℕ)
    → (dequeue_at st a).0
      ≡ (with_notices
          (drained st a)
          a
          (dequeue_all_packets (st.sessions a).extends.packets_queue).1
          (done (delivery (waiting st a)))).0
unfolding dequeue_at dequeue_all_packets
dequeue_at-drained st a =
    let s = st.sessions a in
    ap (λ r. (with_notices (drained st a) a (dequeue_all_packets s.extends.packets_queue).1 r).0)
      (receive_messages-delivery (current st) s.base.user_id s.extends.notify_index none)

-- What a call of `dequeue_at` leaves: no packet in the queue of the session, its notify index at the
-- last notice, its notices marked as read, and all else as it was.
pub dequeue_at-Left :
    (st : State) (a : ℕ) → Left (drained st a) a (dequeue_at st a).0 (waiting st a)
dequeue_at-Left st a =
    subst (λ st'. Left (drained st a) a st' (waiting st a)) (sym (dequeue_at-drained st a))
      (with_notices-Left (drained st a) a
        (dequeue_all_packets (st.sessions a).extends.packets_queue).1 (waiting st a))

-- The entries that a reader leaves, with the validators of a later call.
abbrev after_reader : UserIndexes ℕ → ℕ → ℕ → Entries → Received Notice → Entries
after_reader x reader from ms r =
    map (at_present x) (receive_loop reader from none (map (at_present x) ms) r).0

unread-again :
    (x : UserIndexes ℕ) (reader from from' : ℕ) (ms : Entries) (r : Received Notice)
    → from ≤ from'
    → unread reader from' (after_reader x reader from ms r) ≡ []
unfolding unread receive_loop collect skips is_valid
unread-again x reader from from' [] r h = refl
unread-again x reader from from' ((id, m) ∷ ms) r h = ground (
  arith,
  contains-insert_key m.has_read reader,
  unread-again x reader from from' ms r h,
  unread-again x reader from from' ms (collect none r (at_present x (id, m))) h,
)

unread-other :
    (x : UserIndexes ℕ) (reader other from from' : ℕ) (ms : Entries) (r : Received Notice)
    → other ≢ reader
    → packets_of (unread other from' (after_reader x reader from ms r))
      ≡ packets_of (unread other from' (map (at_present x) ms))
unfolding unread receive_loop collect skips is_valid
unread-other x reader other from from' [] r h = refl
unread-other x reader other from from' ((id, m) ∷ ms) r h = ground (
  arith,
  contains-insert_other m.has_read reader other h,
  unread-other x reader other from from' ms r h,
  unread-other x reader other from from' ms (collect none r (at_present x (id, m))) h,
)

-- The ids that are unread are not below the start, so the last of them is not either.
last_id-unread :
    (reader from id : ℕ) (ms : Entries) → from ≤ id → from ≤ last_id id (unread reader from ms)
unfolding last_id unread skips
last_id-unread reader from id [] h = h
last_id-unread reader from id ((i, m) ∷ ms) h =
    ground (arith, last_id-unread reader from id ms h, last_id-unread reader from i ms)

index_after-unread :
    (reader from : ℕ) (ms : Entries) → from ≤ index_after from (unread reader from ms)
unfolding unread skips
index_after-unread reader from [] = omega arith
index_after-unread reader from ((i, m) ∷ ms) =
    ground (arith, index_after-unread reader from ms, last_id-unread reader from i ms)

waiting-from :
    (st : State) (a : ℕ) (x : UserIndexes ℕ) (reader from : ℕ) (ms : Entries)
    → st.user_sessions.indexes ≡ x
    → (st.sessions a).base.user_id ≡ reader
    → (st.sessions a).extends.notify_index ≡ from
    → st.notify_queue.messages ≡ ms
    → waiting st a ≡ unread reader from (map (at_present x) ms)
waiting-from st a x reader from ms hx hr hf hm = cc

drained-own :
    (st : State) (a : ℕ)
    → (drained st a).sessions a ≡ record (st.sessions a) {
      extends = record (st.sessions a).extends { packets_queue = record { queue = [] } };
    }
drained-own st a = ground (arith, beq_refl a)

module _ (st : State) (a : ℕ) where
  abbrev user : ℕ
  user = (st.sessions a).base.user_id

  abbrev index : ℕ
  index = (st.sessions a).extends.notify_index

  -- Right after a call of `dequeue_bancho_packets` for a session, no notice is left for it.
  waiting-dequeue_at : waiting (dequeue_at st a).0 a ≡ []
  unfolding receive_messages
  waiting-dequeue_at =
      let (stored, queue, base, packets, last, others) = dequeue_at-Left st a in
      let own = drained-own st a in
      let x = st.user_sessions.indexes in
      let ms = st.notify_queue.messages in
      waiting-from (dequeue_at st a).0 a x user (index_after index (waiting st a))
        (receive_loop user index none (map (at_present x) ms) nothing).0
        (ap (λ s. s.indexes) stored) (ap (λ b. b.user_id) (base ∙ ap (λ s. s.base) own))
        (last ∙ ap (λ s. index_after s.extends.notify_index (waiting st a)) own)
        (ap (λ q. q.messages) queue)
      ∙ unread-again x user index (index_after index (waiting st a)) ms nothing
          (index_after-unread user index (map (at_present x) ms))

-- A second call of `dequeue_bancho_packets` for a session, right after a first one, returns nothing:
-- no packet and no notice comes twice.
pub dequeue_at-dequeue_at : (st : State) (a : ℕ) → (dequeue_at (dequeue_at st a).0 a).1 ≡ ok []
unfolding joined
dequeue_at-dequeue_at st a =
    let (stored, queue, base, packets, last, others) = dequeue_at-Left st a in
    dequeue_at-waiting (dequeue_at st a).0 a
    ∙ ap (λ ms. ok (joined (queued (dequeue_at st a).0 a) ++ joined (packets_of ms)))
        (waiting-dequeue_at st a)
    ∙ ap (λ ps. ok (joined ps ++ []))
        (packets ∙ ap (λ s. s.extends.packets_queue.queue) (drained-own st a))

-- What a session gets from `dequeue_bancho_packets` does not change when a session of another user
-- gets its packets first.
pub dequeue_at-others :
    (st : State) (a b : ℕ)
    → b ≢ a
    → (st.sessions b).base.user_id ≢ (st.sessions a).base.user_id
    → (dequeue_at (dequeue_at st a).0 b).1 ≡ (dequeue_at st b).1
unfolding receive_messages
dequeue_at-others st a b h k =
    let (stored, queue, base, packets, last, others) = dequeue_at-Left st a in
    let e = record (st.sessions a).extends { packets_queue = record { queue = [] } } in
    let kept = others b h ∙ sessions-set_extends st a b e h in
    let x = st.user_sessions.indexes in
    let ms = st.notify_queue.messages in
    let same =
      ap packets_of (
        waiting-from (dequeue_at st a).0 b x (user st b) (index st b)
          (receive_loop (user st a) (index st a) none (map (at_present x) ms) nothing).0
          (ap (λ s. s.indexes) stored) (ap (λ s. s.base.user_id) kept)
          (ap (λ s. s.extends.notify_index) kept) (ap (λ q. q.messages) queue))
      ∙ unread-other x (user st a) (user st b) (index st a) (index st b) ms nothing k in
    dequeue_at-waiting (dequeue_at st a).0 b
    ∙ ap
        (λ s. ok (
          joined s.extends.packets_queue.queue
          ++ joined (packets_of (waiting (dequeue_at st a).0 b))))
        kept
    ∙ ap (λ ps. ok (joined (queued st b) ++ joined ps)) same
    ∙ sym (dequeue_at-waiting st b)
