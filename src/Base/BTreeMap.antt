-- ===== src/Base/BTreeMap.antt =====
-- `BTreeMap` over numbers: its entries in the order of their keys.
use Prim.Native.Nat.{ℕ, suc, ◌+◌, ◌≤◌, ◌<◌}
use mathlib.Core.Path.{◌≡◌, refl}
use mathlib.Core.Option.{Option, none, some}
use mathlib.Core.List.{List, [], ◌∷◌}
use native.Mathlib.Omega.{arith}
use peace.Base.Tests.{if◌then◌else◌, ltb, ◌==◌}
use peace.Base.Lists.{length}
use peace.Base.HashMap.{size_of}

module _ {ℓ} {V : Type ℓ} where
  unfoldable pub get : ℕ → List (ℕ × V) → Option V
  get k [] = none
  get k ((j, v) ∷ m) = if j == k then some v else get k m

  unfoldable pub insert : ℕ → V → List (ℕ × V) → List (ℕ × V)
  insert k v [] = (k, v) ∷ []
  insert k v ((j, w) ∷ m) =
      if ltb k j then (k, v) ∷ (j, w) ∷ m else if j == k then (k, v) ∷ m else (j, w) ∷ insert k v m

  unfoldable pub remove : ℕ → List (ℕ × V) → List (ℕ × V)
  remove k [] = []
  remove k ((j, w) ∷ m) = if j == k then m else (j, w) ∷ remove k m

  -- The keys ascend, from `lo` on.
  abbrev pub Ascends : ℕ → List (ℕ × V) → Type 0
  Ascends lo [] = Unit {0}
  Ascends lo ((j, w) ∷ m) = (lo ≤ j) × Ascends (suc j) m

  pub Ascends-mono : (lo lo' : ℕ) (m : List (ℕ × V)) → lo' ≤ lo → Ascends lo m → Ascends lo' m
  Ascends-mono lo lo' [] h a = tt
  Ascends-mono lo lo' ((j, w) ∷ m) h a = (omega arith, a.1)

  pub get_below : (k lo : ℕ) (m : List (ℕ × V)) → Ascends lo m → k < lo → get k m ≡ none
  unfolding get
  get_below k lo [] a h = refl
  get_below k lo ((j, w) ∷ m) a h = ground (arith, get_below k (suc j) m a.1)

  pub get-insert :
      (k j : ℕ) (v : V) (lo : ℕ) (m : List (ℕ × V))
      → Ascends lo m
      → get j (insert k v m) ≡ (if k == j then some v else get j m)
  unfolding get insert
  get-insert k j v lo [] a = ground arith
  get-insert k j v lo ((i, w) ∷ m) a = ground (arith, get-insert k j v (suc i) m a.1)

  pub get-remove :
      (k j lo : ℕ) (m : List (ℕ × V))
      → Ascends lo m
      → get j (remove k m) ≡ (if k == j then none else get j m)
  unfolding get remove
  get-remove k j lo [] a = ground arith
  get-remove k j lo ((i, w) ∷ m) a =
      ground (arith, get-remove k j (suc i) m a.1, get_below j (suc i) m a.1)

  pub insert-Ascends :
      (k : ℕ) (v : V) (lo : ℕ) (m : List (ℕ × V))
      → lo ≤ k
      → Ascends lo m
      → Ascends lo (insert k v m)
  unfolding insert
  insert-Ascends k v lo [] h a = (h, tt)
  insert-Ascends k v lo ((j, w) ∷ m) h a = ground (arith, insert-Ascends k v (suc j) m)

  pub remove-Ascends : (k lo : ℕ) (m : List (ℕ × V)) → Ascends lo m → Ascends lo (remove k m)
  unfolding remove
  remove-Ascends k lo [] a = tt
  remove-Ascends k lo ((j, w) ∷ m) a =
      ground (arith, remove-Ascends k (suc j) m a.1, Ascends-mono (suc j) lo m)

  pub length-remove :
      (k : ℕ) (m : List (ℕ × V)) → length (remove k m) + size_of (get k m) ≡ length m
  unfolding remove get
  length-remove k [] = omega arith
  length-remove k ((j, w) ∷ m) = ground (arith, length-remove k m)
