-- ===== src/BanchoState/Service/Liveness.antt =====
-- core/services/bancho_state/src/services/bancho_state.rs: a broadcast packet reaches each user who
-- asks for packets, whatever other calls come between.
use peace.BanchoState.Queries.{ok}
use peace.BanchoState.Service.{
  Notice, State, at_present, broadcast_bancho_packets, push_to, dequeue_at,
}
use peace.BanchoState.Service.Delivery.{packets_of, queued, dequeue_at-waiting}
use peace.BanchoState.Service.Mail.{joined-middle}
use peace.BanchoState.Service.Once.{dequeue_at-Left, sessions-set_extends}
use peace.Base.{ℕ, ◌==◌, ◌≤◌, Bool-cases, false, ◌≡◌, refl, sym, ap, ◌∙◌, subst}
use peace.Base.{arith, ◌≢◌, inl, inr, none, some, List, [], ◌∷◌, ◌++◌, map}
use peace.Base.Keys.{nat_eq}
use peace.Base.HashSet.{contains, contains-insert_other}
use peace.Base.BTreeMap.{get, insert}
use peace.MessageQueue.{
  Message, Received, is_valid, skips, collect, nothing, receive_loop, receive_messages,
  push_message, mark_readed,
}
use peace.MessageQueue.Delivery.{unread}
use peace.PacketsQueue.{Packet, push_packet}
use peace.PacketsQueue.Flow.{joined}
use peace.Users.Store.{UserIndexes}

abbrev Entries : Type 0
Entries = List (ℕ × Message Notice ℕ)

-- A call of the service, with the address of the session that it finds.
pub data Call : Type 0 where
  enqueue : ℕ → Packet → Call
  broadcast : ℕ → Packet → Call
  dequeue : ℕ → Call

unfoldable pub step : State → Call → State
step st (enqueue a p) = push_to st a p
step st (broadcast id p) = broadcast_bancho_packets st id p
step st (dequeue a) = (dequeue_at st a).0

unfoldable pub run : State → List Call → State
unfolding step
run st [] = st
run st (c ∷ cs) = run (step st c) cs

-- The call takes no packet of the session at `a`, and writes no message with the id `id`.
abbrev pub Spares : State → ℕ → ℕ → Call → Type 0
Spares st a id (enqueue b p) = Unit {0}
Spares st a id (broadcast j p) = j ≢ id
Spares st a id (dequeue b) = (a ≢ b) × ((st.sessions a).base.user_id ≢ (st.sessions b).base.user_id)

abbrev pub AllSpare : State → ℕ → ℕ → List Call → Type 0
AllSpare st a id [] = Unit {0}
AllSpare st a id (c ∷ cs) = Spares st a id c × AllSpare (step st c) a id cs

-- The packet stands in the queue under that id, for anyone, and `reader` has not read it.
abbrev Stands : Entries → ℕ → ℕ → Packet → Type 0
Stands ms reader id p =
    (msg : Message Notice ℕ) × (get id ms ≡ some msg)
    × (msg.content ≡ record { packet = p; weak = none })
    × (contains msg.has_read reader ≡ false)

abbrev Outstanding : State → ℕ → ℕ → Packet → Type 0
Outstanding st a id p =
    ((st.sessions a).extends.notify_index ≤ id)
    × Stands st.notify_queue.messages (st.sessions a).base.user_id id p

-- A message that stands in the queue is among the unread ones.
unread-get :
    (reader from id : ℕ) (p : Packet) (x : UserIndexes ℕ) (ms : Entries)
    → from ≤ id
    → Stands ms reader id p
    → (before after : List Packet) × (packets_of (unread reader from (map (at_present x) ms))
        ≡ before ++ p ∷ after)
unfolding unread get skips is_valid
unread-get reader from id p x [] h (msg, found, content, new) = absurd (ground arith)
unread-get reader from id p x ((i, m) ∷ ms) h (msg, found, content, new) =
    elim (Bool-cases (i == id)) [
      | inl k ↦ ([], packets_of (unread reader from (map (at_present x) ms)), ground arith)
      | inr k ↦
          let (before, after, ih) =
            unread-get reader from id p x ms h (msg, ground arith, content, new) in
          elim (Bool-cases (skips reader from (at_present x (i, m)))) [
            | inl s ↦ (before, after, ground arith)
            | inr s ↦ (m.content.packet ∷ before, after, ground arith)
          ]
    ]

get-insert_same : (ms : Entries) (id : ℕ) (m : Message Notice ℕ) → get id (insert id m ms) ≡ some m
unfolding get insert
get-insert_same [] id m = ground arith
get-insert_same ((i, w) ∷ ms) id m = ground (arith, get-insert_same ms id m)

get-insert_other :
    (ms : Entries) (id j : ℕ) (m : Message Notice ℕ) → j ≢ id → get id (insert j m ms) ≡ get id ms
unfolding get insert
get-insert_other [] id j m h = ground arith
get-insert_other ((i, w) ∷ ms) id j m h = ground (arith, get-insert_other ms id j m h)

Stands-insert :
    (ms : Entries) (reader id j : ℕ) (p : Packet) (m : Message Notice ℕ)
    → j ≢ id
    → Stands ms reader id p
    → Stands (insert j m ms) reader id p
Stands-insert ms reader id j p m h (msg, found, content, new) =
    (msg, get-insert_other ms id j m h ∙ found, content, new)

Stands-receive_loop :
    (x : UserIndexes ℕ) (reader other from id : ℕ) (p : Packet) (ms : Entries) (r : Received Notice)
    → other ≢ reader
    → Stands ms other id p
    → Stands (receive_loop reader from none (map (at_present x) ms) r).0 other id p
unfolding receive_loop collect get
Stands-receive_loop x reader other from id p [] r h (msg, found, content, new) =
    absurd (ground arith)
Stands-receive_loop x reader other from id p ((i, m) ∷ ms) r h (msg, found, content, new) =
    elim (Bool-cases (i == id)) [
      | inl k ↦
          let same : m ≡ msg = ground arith in
          elim (Bool-cases (skips reader from (at_present x (i, m)))) [
            | inl s ↦ ((at_present x (i, m)).1, ground arith, ground arith, ground arith)
            | inr s ↦
                let marked = mark_readed (at_present x (i, m)).1 reader in
                let unread_still = contains-insert_other m.has_read reader other h in
                (marked, ground arith, ground arith, ground (arith, unread_still))
          ]
      | inr k ↦
          let there : get id ms ≡ some msg = ground arith in
          elim (Bool-cases (skips reader from (at_present x (i, m)))) [
            | inl s ↦
                let ih =
                  Stands-receive_loop x reader other from id p ms r h (msg, there, content, new) in
                (ih.0, ground (arith, ih.1), ih.2, ih.3)
            | inr s ↦
                let ih =
                  Stands-receive_loop x reader other from id p ms
                    (collect none r (at_present x (i, m))) h (msg, there, content, new) in
                (ih.0, ground (arith, ih.1), ih.2, ih.3)
          ]
    ]

-- Only the notify index, the user and the messages matter.
Outstanding-from :
    (st st' : State) (a id : ℕ) (p : Packet)
    → (st'.sessions a).extends.notify_index ≡ (st.sessions a).extends.notify_index
    → (st'.sessions a).base.user_id ≡ (st.sessions a).base.user_id
    → (st.sessions a).extends.notify_index ≤ id
    → Stands st'.notify_queue.messages (st.sessions a).base.user_id id p
    → Outstanding st' a id p
Outstanding-from st st' a id p index user young (msg, found, content, new) =
    (omega arith, (msg, found, content, ap (λ u. contains msg.has_read u) user ∙ new))

Outstanding-broadcast :
    (st : State) (a id : ℕ) (p : Packet)
    → (st.sessions a).extends.notify_index ≤ id
    → Outstanding (broadcast_bancho_packets st id p) a id p
unfolding broadcast_bancho_packets push_message contains
Outstanding-broadcast st a id p h =
    let msg : Message Notice ℕ = record {
      content = record { packet = p; weak = none };
      has_read = [];
      validator = none;
    } in
    (h, (msg, get-insert_same st.notify_queue.messages id msg, refl, refl))

Outstanding-push_to :
    (st : State) (a b id : ℕ) (p q : Packet)
    → Outstanding st a id p
    → Outstanding (push_to st b q) a id p
unfolding push_to push_packet
Outstanding-push_to st a b id p q (young, stands) =
    Outstanding-from st (push_to st b q) a id p (ground arith) (ground arith) young stands

Outstanding-broadcast_other :
    (st : State) (a id j : ℕ) (p q : Packet)
    → j ≢ id
    → Outstanding st a id p
    → Outstanding (broadcast_bancho_packets st j q) a id p
unfolding broadcast_bancho_packets push_message
Outstanding-broadcast_other st a id j p q h (young, stands) =
    let msg : Message Notice ℕ = record {
      content = record { packet = q; weak = none };
      has_read = [];
      validator = none;
    } in
    (young, Stands-insert st.notify_queue.messages (st.sessions a).base.user_id id j p msg h stands)

Outstanding-dequeue_at :
    (st : State) (a b id : ℕ) (p : Packet)
    → a ≢ b
    → (st.sessions a).base.user_id ≢ (st.sessions b).base.user_id
    → Outstanding st a id p
    → Outstanding (dequeue_at st b).0 a id p
unfolding receive_messages
Outstanding-dequeue_at st a b id p h k (young, stands) =
    let (stored, queue, base, packets, last, others) = dequeue_at-Left st b in
    let e = record (st.sessions b).extends { packets_queue = record { queue = [] } } in
    let kept = others a h ∙ sessions-set_extends st b a e h in
    let s = st.sessions b in
    Outstanding-from st (dequeue_at st b).0 a id p (ap (λ s. s.extends.notify_index) kept)
      (ap (λ s. s.base.user_id) kept) young
      (subst (λ q. Stands q.messages (st.sessions a).base.user_id id p) (sym queue)
        (Stands-receive_loop st.user_sessions.indexes s.base.user_id (st.sessions a).base.user_id
          s.extends.notify_index id p st.notify_queue.messages nothing k stands))

Outstanding-step :
    (st : State) (a id : ℕ) (p : Packet) (c : Call)
    → Spares st a id c
    → Outstanding st a id p
    → Outstanding (step st c) a id p
unfolding step
Outstanding-step st a id p (enqueue b q) h o = Outstanding-push_to st a b id p q o
Outstanding-step st a id p (broadcast j q) h o = Outstanding-broadcast_other st a id j p q h o
Outstanding-step st a id p (dequeue b) h o = Outstanding-dequeue_at st a b id p h.0 h.1 o

Outstanding-run :
    (cs : List Call) (st : State) (a id : ℕ) (p : Packet)
    → AllSpare st a id cs
    → Outstanding st a id p
    → Outstanding (run st cs) a id p
unfolding run
Outstanding-run [] st a id p h o = o
Outstanding-run (c ∷ cs) st a id p h o =
    Outstanding-run cs (step st c) a id p h.1 (Outstanding-step st a id p c h.0 o)

-- A packet that is broadcast reaches a session that asks for its packets at any later time: whatever
-- packets are enqueued or broadcast and whichever sessions of other users take theirs in between,
-- the packet is among what the session's next call of `dequeue_bancho_packets` returns. The message
-- is not older than the notify index of the session, its id comes once, and no message is removed.
pub broadcast-run-dequeue_at :
    (st : State) (a id : ℕ) (p : Packet) (cs : List Call)
    → (st.sessions a).extends.notify_index ≤ id
    → AllSpare (broadcast_bancho_packets st id p) a id cs
    → (before after : List ℕ) × ((dequeue_at (run (broadcast_bancho_packets st id p) cs) a).1
        ≡ ok (before ++ p ++ after))
broadcast-run-dequeue_at st a id p cs young spare =
    let st' = run (broadcast_bancho_packets st id p) cs in
    let (h, stands) =
      Outstanding-run cs (broadcast_bancho_packets st id p) a id p spare
        (Outstanding-broadcast st a id p young) in
    let s = st'.sessions a in
    let (before, after, found) =
      unread-get s.base.user_id s.extends.notify_index id p st'.user_sessions.indexes
        st'.notify_queue.messages h stands in
    (
      joined (queued st' a) ++ joined before,
      joined after,
      dequeue_at-waiting st' a
          ∙ ap (λ ps. ok (joined (queued st' a) ++ joined ps)) found
          ∙ ap ok (joined-middle (joined (queued st' a)) before p after),
    )
