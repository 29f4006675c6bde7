-- ===== src/Base/HashSet.antt =====
-- `HashSet`: the keys in a list, each of them once.
use peace.Base.Tests.{if◌then◌else◌}
use peace.Base.Keys.{Eq, beq_refl}
use mathlib.Core.Path.{◌≡◌, refl}
use mathlib.Core.Logic.{◌≢◌}
use native.Mathlib.Omega.{arith}
use mathlib.Core.Bool.{Bool, true, false}
use mathlib.Core.List.{List, [], ◌∷◌}

module _ {K : Type 0} ⦃e : Eq K⦄ where
  unfoldable pub contains : List K → K → Bool
  contains [] k = false
  contains (x ∷ xs) k = if e.beq x k then true else contains xs k

  -- `HashSet::insert`
  abbrev pub insert_key : List K → K → List K
  insert_key xs k = if contains xs k then xs else k ∷ xs

  -- `HashSet::from_iter`
  unfoldable pub from_iter : List K → List K
  unfolding contains
  from_iter [] = []
  from_iter (k ∷ ks) = insert_key (from_iter ks) k

  pub contains-insert_key : (ks : List K) (k : K) → contains (insert_key ks k) k ≡ true
  unfolding contains
  contains-insert_key ks k = ground (arith, beq_refl k)

  pub contains-insert_other :
      (ks : List K) (k j : K) → j ≢ k → contains (insert_key ks k) j ≡ contains ks j
  unfolding contains
  contains-insert_other ks k j h = ground (arith, e.beq_iff k j)

  pub contains-from_iter : (ks : List K) (k : K) → contains (from_iter ks) k ≡ contains ks k
  unfolding contains from_iter
  contains-from_iter [] k = refl
  contains-from_iter (x ∷ xs) k = ground (arith, contains-from_iter xs k, e.beq_iff x k)
