-- ===== src/BanchoState/Service/Delivery.antt =====
-- core/services/bancho_state/src/services/bancho_state.rs: what a user gets from a call of
-- `dequeue_bancho_packets`.
use peace.BanchoState.Session.{BanchoSession}
use peace.BanchoState.Queries.{ok}
use peace.BanchoState.Service.{
  Notice, State, current, write_session, set_extends, extend_all, with_notices, dequeue_at,
}
use peace.Base.{ℕ, ◌≡◌, refl, sym, ap, ◌∙◌, arith}
use peace.Base.{none, List, [], ◌∷◌, ◌++◌, map, append-nil, append_assoc, done}
use peace.Base.Keys.{nat_eq, beq_refl}
use peace.MessageQueue.{Message, receive_messages}
use peace.MessageQueue.Delivery.{unread, delivery, receive_messages-delivery}
use peace.PacketsQueue.{Packet, dequeue_all_packets}
use peace.PacketsQueue.Flow.{joined, dequeue-joined}

-- The entries of the notify queue that the session at an address still has to get.
abbrev pub waiting : State → ℕ → List (ℕ × Message Notice ℕ)
waiting st a =
    unread (st.sessions a).base.user_id (st.sessions a).extends.notify_index (current st).messages

abbrev pub packets_of : List (ℕ × Message Notice ℕ) → List Packet
packets_of = map (λ m. m.1.content.packet)

abbrev pub queued : State → ℕ → List Packet
queued st a = (st.sessions a).extends.packets_queue.queue

extend_all-joined :
    (xs : List ℕ) (ns : List Notice) → extend_all xs ns ≡ xs ++ joined (map (λ n. n.packet) ns)
unfolding extend_all joined
extend_all-joined xs [] = sym (append-nil xs)
extend_all-joined xs (n ∷ ns) =
    extend_all-joined (xs ++ n.packet) ns
    ∙ append_assoc xs n.packet (joined (map (λ n. n.packet) ns))

map_packets :
    (ms : List (ℕ × Message Notice ℕ))
    → map (λ n. n.packet) (map (λ x. x.1.content) ms) ≡ packets_of ms
map_packets [] = refl
map_packets (m ∷ ms) = ap (λ ps. m.1.content.packet ∷ ps) (map_packets ms)

with_notices-joined :
    (st : State) (a : ℕ) (xs : List ℕ) (ms : List (ℕ × Message Notice ℕ))
    → (with_notices st a xs (done (delivery ms))).1 ≡ ok (xs ++ joined (packets_of ms))
unfolding with_notices joined
with_notices-joined st a xs [] = ap ok (sym (append-nil xs))
with_notices-joined st a xs ((i, m) ∷ ms) = ap ok (
    extend_all-joined xs (m.content ∷ map (λ x. x.1.content) ms)
    ∙ ap (λ ps. xs ++ joined (m.content.packet ∷ ps)) (map_packets ms))

-- A call of `dequeue_bancho_packets` returns the packets that were queued for the session, and after
-- them the notices that its user has not read, in the order of their ids, which are valid and not
-- older than the notify index of the session.
pub dequeue_at-waiting :
    (st : State) (a : ℕ)
    → (dequeue_at st a).1 ≡ ok (joined (queued st a) ++ joined (packets_of (waiting st a)))
unfolding dequeue_at dequeue_all_packets
dequeue_at-waiting st a =
    let s = st.sessions a in
    let received = receive_messages (current st) s.base.user_id s.extends.notify_index none in
    let st' : State =
      record (set_extends st a (record s.extends { packets_queue = record { queue = [] } })) {
        notify_queue = received.0;
      } in
    let taken = (dequeue_all_packets s.extends.packets_queue).1 in
    ap (λ r. (with_notices st' a taken r).1)
      (receive_messages-delivery (current st) s.base.user_id s.extends.notify_index none)
    ∙ with_notices-joined st' a taken (waiting st a)
    ∙ ap (λ xs. ok (xs ++ joined (packets_of (waiting st a)))) (dequeue-joined (queued st a) [])

pub sessions-write_session :
    (st : State) (a : ℕ) (s : BanchoSession) → (write_session st a s).sessions a ≡ s
sessions-write_session st a s = ground (arith, beq_refl a)
