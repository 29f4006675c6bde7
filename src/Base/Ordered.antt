-- ===== src/Base/Ordered.antt =====
-- `BTreeMap` over the bit patterns of `i32`s: its entries in the order of their keys.
use Prim.Native.Nat.{ℕ, ◌+◌, ◌%◌}
use mathlib.Core.List.{[], ◌∷◌}
use peace.Base.Tests.{if◌then◌else◌, ltb, Bool-cases}
use mathlib.Core.Logic.{inl, inr}
use peace.Base.HashMap.{HashMap}
use peace.Base.Lists.{All}

-- The place of a bit pattern among the `i32`s, from the lowest on.
abbrev rank : ℕ → ℕ
rank k = (k + 2147483648) % 4294967296

module _ {V : Type 0} where
  unfoldable pub put : ℕ → V → HashMap ℕ V → HashMap ℕ V
  put k v [] = (k, v) ∷ []
  put k v ((j, w) ∷ m) =
      let rest = put k v m in if ltb (rank k) (rank j) then (k, v) ∷ (j, w) ∷ m else (j, w) ∷ rest

  unfoldable pub in_order : HashMap ℕ V → HashMap ℕ V
  unfolding put
  in_order [] = []
  in_order ((k, v) ∷ m) = put k v (in_order m)

  put-All :
      (P : ℕ × V → Type 0) (k : ℕ) (v : V) (m : HashMap ℕ V)
      → P (k, v)
      → All P m
      → All P (put k v m)
  unfolding put
  put-All P k v [] p ps = (p, tt)
  put-All P k v ((j, w) ∷ m) p (q, ps) = elim (Bool-cases (ltb (rank k) (rank j))) [
    | inl before ↦ rw (before, put) (p, (q, ps))
    | inr after ↦ rw (after, put) (q, put-All P k v m p ps)
  ]

  -- What holds of all entries holds of them in their order.
  pub in_order-All : (P : ℕ × V → Type 0) (m : HashMap ℕ V) → All P m → All P (in_order m)
  unfolding in_order
  in_order-All P [] ps = tt
  in_order-All P ((k, v) ∷ m) (p, ps) = put-All P k v (in_order m) p (in_order-All P m ps)
