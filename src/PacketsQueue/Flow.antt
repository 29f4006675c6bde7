-- ===== src/PacketsQueue/Flow.antt =====
-- core/infra/packets/src/queue.rs: what goes in comes out, once and in order.
use peace.PacketsQueue.{Packet, PacketsQueue, new, push_packet, enqueue_packets}
use peace.PacketsQueue.{dequeue_packet, dequeue, dequeue_all_packets}
use peace.Base.{ℕ, ◌≡◌, refl, sym, ap, ◌∙◌, Option, none, some, List, [], ◌∷◌, ◌++◌}
use peace.Base.{append-nil, append_assoc}

-- A call of a method of the queue.
pub data Call : Type 0 where
  push : Packet → Call
  enqueue : List Packet → Call
  dequeue_one : Call
  dequeue_all : Call

unfoldable pub joined : List Packet → List ℕ
joined [] = []
joined (p ∷ ps) = p ++ joined ps

abbrev pub bytes_of : Option Packet → List ℕ
bytes_of none = []
bytes_of (some p) = p

-- The bytes that a call puts in, and what it leaves and gives out.
abbrev pub put_in : Call → List ℕ
put_in (push p) = p
put_in (enqueue ps) = joined ps
put_in dequeue_one = []
put_in dequeue_all = []

abbrev pub call : Call → PacketsQueue → PacketsQueue × List ℕ
call (push p) q = ((push_packet q p).0, [])
call (enqueue ps) q = ((enqueue_packets q ps).0, [])
call dequeue_one q = ((dequeue_packet q).0, bytes_of (dequeue_packet q).1)
call dequeue_all q = dequeue_all_packets q

unfoldable pub run : List Call → PacketsQueue → PacketsQueue × List ℕ
run [] q = (q, [])
run (c ∷ cs) q = let rest = run cs (call c q).0 in (rest.0, (call c q).1 ++ rest.1)

unfoldable pub all_put_in : List Call → List ℕ
all_put_in [] = []
all_put_in (c ∷ cs) = put_in c ++ all_put_in cs

pub joined-append : (ps qs : List Packet) → joined (ps ++ qs) ≡ joined ps ++ joined qs
unfolding joined
joined-append [] qs = refl
joined-append (p ∷ ps) qs =
    ap (λ xs. p ++ xs) (joined-append ps qs) ∙ sym (append_assoc p (joined ps) (joined qs))

pub dequeue-joined : (ps : List Packet) (buf : List ℕ) → dequeue ps buf ≡ buf ++ joined ps
unfolding dequeue joined
dequeue-joined [] buf = sym (append-nil buf)
dequeue-joined (p ∷ ps) buf = dequeue-joined ps (buf ++ p) ∙ append_assoc buf p (joined ps)

dequeue_new-flow :
    (ps : List Packet)
    → joined ps ≡ bytes_of (dequeue_packet (new ps)).1 ++ joined (dequeue_packet (new ps)).0.queue
unfolding dequeue_packet joined
dequeue_new-flow [] = refl
dequeue_new-flow (p ∷ ps) = refl

dequeue_all-flow :
    (q : PacketsQueue)
    → joined q.queue ++ [] ≡ (dequeue_all_packets q).1 ++ joined (dequeue_all_packets q).0.queue
unfolding dequeue_all_packets joined
dequeue_all-flow q = ap (λ xs. xs ++ []) (sym (dequeue-joined q.queue []))

call-flow :
    (c : Call) (q : PacketsQueue)
    → joined q.queue ++ put_in c ≡ (call c q).1 ++ joined (call c q).0.queue
unfolding push_packet enqueue_packets
call-flow (push p) q =
    sym (joined-append q.queue (p ∷ []) ∙ ap (λ xs. joined q.queue ++ xs) (last p))
  where
    last : (p : Packet) → joined (p ∷ []) ≡ p
    last p = unfold joined in append-nil p
call-flow (enqueue ps) q = sym (joined-append q.queue ps)
call-flow dequeue_one q = append-nil (joined q.queue) ∙ dequeue_new-flow q.queue
call-flow dequeue_all q = dequeue_all-flow q

-- In any sequence of calls, the bytes that were in the queue and the bytes of the packets that are
-- put in are, in this order, the bytes that come out and the bytes that stay: no packet is lost,
-- doubled or passed by another.
pub run-flow :
    (cs : List Call) (q : PacketsQueue)
    → joined q.queue ++ all_put_in cs ≡ (run cs q).1 ++ joined (run cs q).0.queue
unfolding run all_put_in
run-flow [] q = append-nil (joined q.queue)
run-flow (c ∷ cs) q =
    sym (append_assoc (joined q.queue) (put_in c) (all_put_in cs))
    ∙ ap (λ xs. xs ++ all_put_in cs) (call-flow c q)
    ∙ append_assoc (call c q).1 (joined (call c q).0.queue) (all_put_in cs)
    ∙ ap (λ xs. (call c q).1 ++ xs) (run-flow cs (call c q).0)
    ∙ sym (append_assoc (call c q).1 (run cs (call c q).0).1 (joined (run cs (call c q).0).0.queue))
