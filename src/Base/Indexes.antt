-- ===== src/Base/Indexes.antt =====
-- Maps that index the same entries by several keys.
use Prim.Native.Nat.{ℕ}
use mathlib.Core.Path.{◌≡◌}
use mathlib.Core.Option.{none, some}
use native.Mathlib.Omega.{arith}
use peace.Base.Keys.{Eq, nat_eq, beq_refl}
use peace.Base.HashMap.{HashMap, get, insert, remove, get-insert, get-remove}

module _ {T K : Type 0} ⦃e : Eq K⦄ where
  -- `m'` has entries of `m` only.
  abbrev pub Sub : HashMap K T → HashMap K T → Type 0
  Sub m' m = (k : K) (s : T) → get k m' ≡ some s → get k m ≡ some s

  pub Sub-remove : (k : K) (m : HashMap K T) → Sub (remove k m) m
  Sub-remove k m j s h = ground (arith, get-remove k j m)

  pub gone-remove : (k : K) (m : HashMap K T) → get k (remove k m) ≡ none
  gone-remove k m = ground (arith, get-remove k k m, beq_refl k)

module _ {T K : Type 0} ⦃e : Eq K⦄ (user : T → ℕ) (key : T → K) where
  -- An entry stands under its own key, and it is the entry of its own id.
  abbrev pub Owned : HashMap K T → HashMap ℕ T → Type 0
  Owned m users = (k : K) (s : T) → get k m ≡ some s → (key s ≡ k) × (get (user s) users ≡ some s)

  pub Owned-add :
      (m : HashMap K T) (users : HashMap ℕ T) (item : T)
      → Owned m users
      → get (user item) users ≡ none
      → Owned (insert (key item) item m) (insert (user item) item users)
  Owned-add m users item o fresh k s h = ground (
    arith,
    e.beq_iff (key item) k,
    get-insert (key item) k item m,
    get-insert (user item) (user s) item users,
    o k s,
  )

  pub Owned-drop :
      (m m' : HashMap K T) (users : HashMap ℕ T) (s : T)
      → Owned m users
      → get (user s) users ≡ some s
      → Sub m' m
      → get (key s) m' ≡ none
      → Owned m' (remove (user s) users)
  Owned-drop m m' users s o there sub gone k t h =
      ground (arith, o k t (sub k t h), get-remove (user s) (user t) users, beq_refl (user t))
