-- ===== src/MessageQueue/Once.antt =====
-- lib/message_queue: a reader gets a message once, and other readers still get it.
use peace.MessageQueue.{Message, RawMessageQueue, Received, is_valid, skips}
use peace.MessageQueue.{
  collect, receive_loop, nothing, received_messages, mark_readed, receive_messages,
}
use peace.MessageQueue.Delivery.{unread, beyond, delivery, receive_messages-delivery}
use peace.Base.{ℕ, suc, ◌-◌, leb, if◌then◌else◌, Bool-cases, arith}
use peace.Base.{true, ◌≡◌, refl, ap, ◌∙◌, ◌≢◌, inl, inr}
use peace.Base.{Option, none, some, List, [], ◌∷◌, drop, done}
use peace.Base.Keys.{Eq}
use peace.Base.HashSet.{contains-insert_key, contains-insert_other, insert_key}

module _ {T K : Type 0} ⦃e : Eq K⦄ where
  skips-mark_readed :
      (reader : K) (from id : ℕ) (msg : Message T K)
      → skips reader from (id, mark_readed msg reader) ≡ true
  unfolding skips
  skips-mark_readed reader from id msg = ground (arith, contains-insert_key msg.has_read reader)

  drop_step :
      (m n : ℕ) (ms : List (ℕ × Message T K))
      → drop (m - suc n) ms ≡ (if leb m (suc n) then ms else drop (suc (m - suc (suc n))) ms)
  drop_step m n ms = elim (Bool-cases (leb m (suc n))) [
    | inl h ↦
        let none_left : m - suc n ≡ 0 = ground arith in
        ground (arith, ap (λ k. drop k ms) none_left)
    | inr h ↦
        let some_left : m - suc n ≡ suc (m - suc (suc n)) = ground arith in
        ground (arith, ap (λ k. drop k ms) some_left)
  ]

  abbrev left : Option ℕ → ℕ → List (ℕ × Message T K) → List (ℕ × Message T K)
  left none n ms = []
  left (some m) n ms = drop (suc (m - suc n)) ms

  unread-receive_loop :
      (reader : K) (from : ℕ) (limit : Option ℕ) (ms : List (ℕ × Message T K)) (r : Received T)
      → unread reader from (receive_loop reader from limit ms r).0
        ≡ left limit r.received_msg_count (unread reader from ms)
  unfolding receive_loop unread collect
  unread-receive_loop reader from none [] r = refl
  unread-receive_loop reader from (some m) [] r = refl
  unread-receive_loop reader from none ((id, msg) ∷ ms) r = ground (
    arith,
    skips-mark_readed reader from id msg,
    unread-receive_loop reader from none ms r,
    unread-receive_loop reader from none ms (collect none r (id, msg)),
  )
  unread-receive_loop reader from (some m) ((id, msg) ∷ ms) r = ground (
    arith,
    skips-mark_readed reader from id msg,
    drop_step m r.received_msg_count (unread reader from ms),
    unread-receive_loop reader from (some m) ms r,
    unread-receive_loop reader from (some m) ms (collect (some m) r (id, msg)),
  )

  pub receive_messages-beyond :
      (q : RawMessageQueue T K) (reader : K) (from : ℕ) (limit : Option ℕ)
      → unread reader from (receive_messages q reader from limit).0.messages
        ≡ beyond limit (unread reader from q.messages)
  unfolding receive_messages
  receive_messages-beyond q reader from none =
      unread-receive_loop reader from none q.messages nothing
  receive_messages-beyond q reader from (some m) =
      unread-receive_loop reader from (some m) q.messages nothing

  -- A second call of `receive_messages` without a limit, right after a first one by the same reader
  -- and from the same id, returns `none`.
  pub receive_messages-receive_messages :
      (q : RawMessageQueue T K) (reader : K) (from : ℕ)
      → (receive_messages (receive_messages q reader from none).0 reader from none).1 ≡ done none
  receive_messages-receive_messages q reader from =
      let q' = (receive_messages q reader from none).0 in
      receive_messages-delivery q' reader from none
      ∙ ap (λ ms. done (delivery ms)) (receive_messages-beyond q reader from none)

  -- The validator does not look at who has read the message.
  abbrev pub Blind : List (ℕ × Message T K) → Type 0
  Blind [] = Unit {0}
  Blind ((id, msg) ∷ ms) =
      ((readers readers' : List K)
        → is_valid (record msg { has_read = readers })
          ≡ is_valid (record msg { has_read = readers' }))
      × Blind ms

  -- The entries of two lists that another reader cannot tell apart.
  abbrev Alike : K → ℕ → List (ℕ × Message T K) → List (ℕ × Message T K) → Type 0
  Alike reader from [] [] = Unit {0}
  Alike reader from [] (y ∷ ys) = ⊥
  Alike reader from (x ∷ xs) [] = ⊥
  Alike reader from (x ∷ xs) (y ∷ ys) =
      (x.0 ≡ y.0)
      × (x.1.content ≡ y.1.content)
      × (skips reader from x ≡ skips reader from y)
      × Alike reader from xs ys

  Alike-refl : (reader : K) (from : ℕ) (ms : List (ℕ × Message T K)) → Alike reader from ms ms
  Alike-refl reader from [] = tt
  Alike-refl reader from (m ∷ ms) = (refl, refl, refl, Alike-refl reader from ms)

  skips-mark_readed_other :
      (reader other : K) (from id : ℕ) (msg : Message T K)
      → other ≢ reader
      → ((readers readers' : List K)
          → is_valid (record msg { has_read = readers })
            ≡ is_valid (record msg { has_read = readers' }))
      → skips other from (id, mark_readed msg reader) ≡ skips other from (id, msg)
  unfolding skips
  skips-mark_readed_other reader other from id msg h blind =
      let same = contains-insert_other msg.has_read reader other h in
      let valid = blind (insert_key msg.has_read reader) msg.has_read in rw (same, valid) refl

  Alike-receive_loop :
      (reader other : K) (from from' : ℕ) (limit : Option ℕ) (ms : List (ℕ × Message T K))
      (r : Received T)
      → other ≢ reader
      → Blind ms
      → Alike other from' (receive_loop reader from limit ms r).0 ms
  unfolding receive_loop
  Alike-receive_loop reader other from from' limit [] r h b = tt
  Alike-receive_loop reader other from from' limit ((id, msg) ∷ ms) r h b = ground (
    arith,
    skips-mark_readed_other reader other from' id msg h b.0,
    Alike-refl other from' ms,
    Alike-receive_loop reader other from from' limit ms r h b.1,
    Alike-receive_loop reader other from from' limit ms (collect limit r (id, msg)) h b.1,
  )

  receive_loop-Alike :
      (other : K) (from : ℕ) (limit : Option ℕ) (ms ms' : List (ℕ × Message T K)) (r : Received T)
      → Alike other from ms ms'
      → (receive_loop other from limit ms r).1 ≡ (receive_loop other from limit ms' r).1
  unfolding receive_loop collect
  receive_loop-Alike other from limit [] [] r a = refl
  receive_loop-Alike other from limit [] (y ∷ ys) r a = absurd a
  receive_loop-Alike other from limit (x ∷ xs) [] r a = absurd a
  receive_loop-Alike other from limit ((i, x) ∷ xs) ((j, y) ∷ ys) r a = ground (
    arith,
    receive_loop-Alike other from limit xs ys r,
    receive_loop-Alike other from limit xs ys (collect limit r (i, x)),
  )

  -- What a reader gets does not change when another reader gets messages first, where no validator
  -- of the queue looks at who has read its message.
  pub receive_messages-others :
      (q : RawMessageQueue T K) (reader other : K) (from from' : ℕ) (limit limit' : Option ℕ)
      → other ≢ reader
      → Blind q.messages
      → (receive_messages (receive_messages q reader from limit).0 other from' limit').1
        ≡ (receive_messages q other from' limit').1
  unfolding receive_messages
  receive_messages-others q reader other from from' limit limit' h b = ap received_messages (
      receive_loop-Alike other from' limit' (receive_loop reader from limit q.messages nothing).0
        q.messages nothing
        (Alike-receive_loop reader other from from' limit q.messages nothing h b))
