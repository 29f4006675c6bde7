-- ===== src/MessageQueue/Order.antt =====
-- lib/message_queue: `receive_messages` leaves the entries under their ids.
use peace.MessageQueue.{Message, Received}
use peace.MessageQueue.{collect, receive_loop}
use peace.Base.{ℕ, suc, arith}
use peace.Base.{Option, List, [], ◌∷◌}
use peace.Base.Keys.{Eq}
use peace.Base.BTreeMap.{Ascends}

module _ {T K : Type 0} ⦃e : Eq K⦄ where
  pub receive_loop-Ascends :
      (reader : K) (from : ℕ) (limit : Option ℕ) (ms : List (ℕ × Message T K)) (r : Received T)
      (k : ℕ)
      → Ascends k ms
      → Ascends k (receive_loop reader from limit ms r).0
  unfolding receive_loop
  receive_loop-Ascends reader from limit [] r k a = tt
  receive_loop-Ascends reader from limit ((id, msg) ∷ ms) r k a = ground (
    arith,
    receive_loop-Ascends reader from limit ms r (suc id) a.1,
    receive_loop-Ascends reader from limit ms (collect limit r (id, msg)) (suc id) a.1,
  )
