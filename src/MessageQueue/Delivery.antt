-- ===== src/MessageQueue/Delivery.antt =====
-- lib/message_queue: what `receive_messages` gives a reader, and that it gives it once.
use peace.MessageQueue.{Message, RawMessageQueue, Received, ReceivedMessages, skips}
use peace.MessageQueue.{push, collect, receive_loop, received_messages, nothing}
use peace.MessageQueue.{receive_messages}
use peace.Base.{ℕ, suc, ◌-◌, leb, if◌then◌else◌, Bool-cases, arith}
use peace.Base.{◌≡◌, refl, sym, ap, ◌∙◌, inl, inr}
use peace.Base.{Option, none, some, List, [], ◌∷◌, ◌++◌, map, take, drop, done}
use peace.Base.{append-nil, append_assoc}
use peace.Base.Keys.{Eq}

module _ {T K : Type 0} ⦃e : Eq K⦄ where
  -- The entries that a reader still has to get.
  unfoldable pub unread : K → ℕ → List (ℕ × Message T K) → List (ℕ × Message T K)
  unread reader from [] = []
  unread reader from (m ∷ ms) =
      if skips reader from m then unread reader from ms else m ∷ unread reader from ms

  -- What a call with that limit takes of them: one at least.
  abbrev pub within : Option ℕ → List (ℕ × Message T K) → List (ℕ × Message T K)
  within none ms = ms
  within (some n) ms = take (suc (n - 1)) ms

  abbrev pub beyond : Option ℕ → List (ℕ × Message T K) → List (ℕ × Message T K)
  beyond none ms = []
  beyond (some n) ms = drop (suc (n - 1)) ms

  unfoldable pub last_id : ℕ → List (ℕ × Message T K) → ℕ
  last_id id [] = id
  last_id id ((i, m) ∷ ms) = last_id i ms

  -- The contents of the entries in their order, with the id of the last one.
  abbrev pub delivery : List (ℕ × Message T K) → Option (ReceivedMessages T)
  delivery [] = none
  delivery ((i, m) ∷ ms) =
      some (record { messages = m.content ∷ map (λ x. x.1.content) ms; last_msg_id = last_id i ms })

  collect_all : Option ℕ → Received T → List (ℕ × Message T K) → Received T
  collect_all limit r [] = r
  collect_all limit r (m ∷ ms) = collect_all limit (collect limit r m) ms

  -- What is left to take after `n` of them.
  abbrev room : Option ℕ → ℕ → List (ℕ × Message T K) → List (ℕ × Message T K)
  room none n ms = ms
  room (some m) n ms = take (suc (m - suc n)) ms

  take_step :
      (m n : ℕ) (ms : List (ℕ × Message T K))
      → take (m - suc n) ms ≡ (if leb m (suc n) then [] else take (suc (m - suc (suc n))) ms)
  take_step m n ms = elim (Bool-cases (leb m (suc n))) [
    | inl h ↦
        let none_left : m - suc n ≡ 0 = ground arith in
        ground (arith, ap (λ k. take k ms) none_left)
    | inr h ↦
        let some_left : m - suc n ≡ suc (m - suc (suc n)) = ground arith in
        ground (arith, ap (λ k. take k ms) some_left)
  ]

  receive_loop-collect_all :
      (reader : K) (from : ℕ) (limit : Option ℕ) (ms : List (ℕ × Message T K)) (r : Received T)
      → (receive_loop reader from limit ms r).1
        ≡ collect_all limit r (room limit r.received_msg_count (unread reader from ms))
  unfolding receive_loop collect_all unread collect
  receive_loop-collect_all reader from none [] r = refl
  receive_loop-collect_all reader from (some m) [] r = refl
  receive_loop-collect_all reader from none ((id, msg) ∷ ms) r = ground (
    arith,
    receive_loop-collect_all reader from none ms r,
    receive_loop-collect_all reader from none ms (collect none r (id, msg)),
  )
  receive_loop-collect_all reader from (some m) ((id, msg) ∷ ms) r = ground (
    arith,
    take_step m r.received_msg_count (unread reader from ms),
    receive_loop-collect_all reader from (some m) ms r,
    receive_loop-collect_all reader from (some m) ms (collect (some m) r (id, msg)),
  )

  collect_all-some :
      (limit : Option ℕ) (r : Received T) (cs : List T) (id : ℕ) (ms : List (ℕ × Message T K))
      → r.messages ≡ some cs
      → r.last_msg_id ≡ some id
      → ((collect_all limit r ms).messages ≡ some (cs ++ map (λ x. x.1.content) ms))
        × ((collect_all limit r ms).last_msg_id ≡ some (last_id id ms))
  unfolding collect_all collect last_id
  collect_all-some limit r cs id [] h k = (h ∙ ap some (sym (append-nil cs)), k)
  collect_all-some limit r cs id ((i, m) ∷ ms) h k =
      let ih =
        collect_all-some limit (collect limit r (i, m)) (cs ++ m.content ∷ []) i ms
          (ap (λ o. push o m.content) h) refl in
      (ih.0 ∙ ap some (append_assoc cs (m.content ∷ []) (map (λ x. x.1.content) ms)), ih.1)

  received_messages-collect_all :
      (limit : Option ℕ) (ms : List (ℕ × Message T K))
      → received_messages (collect_all limit nothing ms) ≡ done (delivery ms)
  unfolding collect_all collect
  received_messages-collect_all limit [] = refl
  received_messages-collect_all limit ((i, m) ∷ ms) =
      let ih =
        collect_all-some limit (collect limit nothing (i, m)) (m.content ∷ []) i ms refl refl in
      ground (arith, ih.0, ih.1)

  pub receive_messages-delivery :
      (q : RawMessageQueue T K) (reader : K) (from : ℕ) (limit : Option ℕ)
      → (receive_messages q reader from limit).1
        ≡ done (delivery (within limit (unread reader from q.messages)))
  unfolding receive_messages
  receive_messages-delivery q reader from none =
      ap received_messages (receive_loop-collect_all reader from none q.messages nothing)
      ∙ received_messages-collect_all none (unread reader from q.messages)
  receive_messages-delivery q reader from (some m) =
      ap received_messages (receive_loop-collect_all reader from (some m) q.messages nothing)
      ∙ received_messages-collect_all (some m) (take (suc (m - 1)) (unread reader from q.messages))
