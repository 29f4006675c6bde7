-- ===== src/Base/HashMap.antt =====
-- `HashMap`, and `BTreeMap` where the order of its keys plays no part: an association list.
use Prim.Native.Nat.{ℕ, ◌+◌}
use mathlib.Core.Path.{◌≡◌, refl, subst}
use mathlib.Core.Logic.{inl, inr}
use mathlib.Core.Bool.{Bool, true, false}
use mathlib.Core.Option.{Option, none, some}
use mathlib.Core.List.{List, [], ◌∷◌}
use native.Mathlib.Omega.{arith}
use mathlib.Core.Bool.{◌||◌}
use peace.Base.Tests.{if◌then◌else◌, ◌==◌, Bool-cases}
use peace.Base.Lists.{length}
use peace.Base.Keys.{Eq}

abbrev pub HashMap {ℓ} : Type ℓ → Type ℓ → Type ℓ
HashMap K V = List (K × V)

abbrev pub size_of {ℓ} : {V : Type ℓ} → Option V → ℕ
size_of none = 0
size_of (some v) = 1

module _ {ℓ} {K V : Type ℓ} ⦃e : Eq K⦄ where
  unfoldable pub get : K → HashMap K V → Option V
  get k [] = none
  get k ((j, v) ∷ m) = if e.beq j k then some v else get k m

  unfoldable pub insert : K → V → HashMap K V → HashMap K V
  insert k v [] = (k, v) ∷ []
  insert k v ((j, w) ∷ m) = if e.beq j k then (k, v) ∷ m else (j, w) ∷ insert k v m

  unfoldable pub remove : K → HashMap K V → HashMap K V
  remove k [] = []
  remove k ((j, w) ∷ m) = if e.beq j k then remove k m else (j, w) ∷ remove k m

  unfoldable pub contains_key : K → HashMap K V → Bool
  contains_key k m = elim (get k m) [ none ↦ false | some v ↦ true ]

  -- No key stands twice.
  abbrev pub IsMap : HashMap K V → Type ℓ
  IsMap [] = Unit {ℓ}
  IsMap ((j, w) ∷ m) = (get j m ≡ none) × IsMap m

  pub get-insert :
      (k j : K) (v : V) (m : HashMap K V)
      → get j (insert k v m) ≡ (if e.beq k j then some v else get j m)
  unfolding get insert
  get-insert k j v [] = refl
  get-insert k j v ((i, w) ∷ m) =
      ground (arith, e.beq_iff i k, e.beq_iff i j, e.beq_iff k j, get-insert k j v m)

  pub get-remove :
      (k j : K) (m : HashMap K V) → get j (remove k m) ≡ (if e.beq k j then none else get j m)
  unfolding get remove
  get-remove k j [] = ground arith
  get-remove k j ((i, w) ∷ m) =
      ground (arith, e.beq_iff i k, e.beq_iff i j, e.beq_iff k j, get-remove k j m)

  pub insert-IsMap : (k : K) (v : V) (m : HashMap K V) → IsMap m → IsMap (insert k v m)
  unfolding insert get
  insert-IsMap k v [] h = (refl, tt)
  insert-IsMap k v ((i, w) ∷ m) (fresh, h) = elim (Bool-cases (e.beq i k)) [
    | inl same ↦
        rw same (subst (λ (j : K). (get j m ≡ none) × IsMap m) ((e.beq_iff i k).0 same) (fresh, h))
    | inr other ↦ rw other (still_fresh other, insert-IsMap k v m h)
  ]
    where
      still_fresh : e.beq i k ≡ false → get i (insert k v m) ≡ none
      still_fresh other =
          rw (get-insert k i v m) (ground (arith, fresh, e.beq_iff i k, e.beq_iff k i))

  pub remove-IsMap : (k : K) (m : HashMap K V) → IsMap m → IsMap (remove k m)
  unfolding remove
  remove-IsMap k [] h = tt
  remove-IsMap k ((i, w) ∷ m) (fresh, h) = elim (Bool-cases (e.beq i k)) [
    | inl same ↦ rw same (remove-IsMap k m h)
    | inr other ↦ rw other (fresh_after, remove-IsMap k m h)
  ]
    where
      fresh_after : get i (remove k m) ≡ none
      fresh_after = rw (get-remove k i m) (ground (arith, fresh))

  pub length-insert :
      (k : K) (v : V) (m : HashMap K V) → length (insert k v m) + size_of (get k m) ≡ length m + 1
  unfolding insert get
  length-insert k v [] = omega arith
  length-insert k v ((i, w) ∷ m) = ground (arith, length-insert k v m)

  remove_absent : (k : K) (m : HashMap K V) → get k m ≡ none → remove k m ≡ m
  unfolding remove get
  remove_absent k [] h = refl
  remove_absent k ((i, w) ∷ m) h = ground (arith, remove_absent k m)

  pub length-remove :
      (k : K) (m : HashMap K V) → IsMap m → length (remove k m) + size_of (get k m) ≡ length m
  unfolding remove get
  length-remove k [] h = omega arith
  length-remove k ((i, w) ∷ m) (fresh, h) =
      ground (arith, e.beq_iff i k, remove_absent i m fresh, remove_absent k m, length-remove k m h)

-- An address is a value of the map.
unfoldable pub holds : {K : Type 0} → ℕ → HashMap K ℕ → Bool
holds a [] = false
holds a ((k, b) ∷ m) = (a == b) || holds a m
