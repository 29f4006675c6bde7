-- ===== src/MessageQueue/Pushed.antt =====
-- lib/message_queue: what a reader still has to get of a queue after a message was pushed.
use peace.Base.{ℕ, ◌==◌, ltb, Bool-cases, false, true, ◌≡◌, arith, inl, inr}
use peace.Base.{List, [], ◌∷◌, ◌++◌}
use peace.Base.Keys.{Eq}
use peace.Base.BTreeMap.{insert}
use peace.MessageQueue.{Message, skips}
use peace.MessageQueue.Delivery.{unread}

module _ {T K : Type 0} ⦃e : Eq K⦄ where
  -- No entry has the id.
  abbrev pub IsNew : ℕ → List (ℕ × Message T K) → Type 0
  IsNew id [] = Unit {0}
  IsNew id ((i, m) ∷ ms) = ((i == id) ≡ false) × IsNew id ms

  -- Where an entry is not skipped, it is among the unread ones once it is inserted.
  pub unread-insert :
      (reader : K) (from id : ℕ) (msg : Message T K) (ms : List (ℕ × Message T K))
      → skips reader from (id, msg) ≡ false
      → (before after : List (ℕ × Message T K)) × (unread reader from (insert id msg ms)
          ≡ before ++ (id, msg) ∷ after)
  unfolding unread insert
  unread-insert reader from id msg [] fresh = ([], [], ground arith)
  unread-insert reader from id msg ((i, m) ∷ ms) fresh = elim (Bool-cases (ltb id i)) [
    | inl h ↦ ([], unread reader from ((i, m) ∷ ms), ground arith)
    | inr h ↦ elim (Bool-cases (i == id)) [
      | inl k ↦ ([], unread reader from ms, ground arith)
      | inr k ↦
          let (before, after, ih) = unread-insert reader from id msg ms fresh in
          elim (Bool-cases (skips reader from (i, m))) [
            | inl s ↦ (before, after, ground arith)
            | inr s ↦ ((i, m) ∷ before, after, ground arith)
          ]
    ]
  ]

  -- Where it is skipped, the reader has to get what it had to get before.
  pub unread-insert_skipped :
      (reader : K) (from id : ℕ) (msg : Message T K) (ms : List (ℕ × Message T K))
      → skips reader from (id, msg) ≡ true
      → IsNew id ms
      → unread reader from (insert id msg ms) ≡ unread reader from ms
  unfolding unread insert
  unread-insert_skipped reader from id msg [] read new = ground arith
  unread-insert_skipped reader from id msg ((i, m) ∷ ms) read (other, new) =
      ground (arith, other, unread-insert_skipped reader from id msg ms read new)
