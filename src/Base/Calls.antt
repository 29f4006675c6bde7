-- ===== src/Base/Calls.antt =====
-- A Rust call that returns, or panics.
use mathlib.Core.Path.{◌≡◌, refl}
use mathlib.Core.Logic.{◌⊎◌, inl, inr}

pub data Exec {ℓ} (A : Type ℓ) : Type ℓ where
  done : A → Exec A
  panic : Exec A

pub Exec-cases {ℓ} : {A : Type ℓ} (e : Exec A) → (e ≡ panic) ⊎ ((a : A) × (e ≡ done a))
Exec-cases panic = inl refl
Exec-cases (done a) = inr (a, refl)

infixl 5 ◌>>=◌
abbrev pub ◌>>=◌ {ℓ κ} : {A : Type ℓ} {B : Type κ} → Exec A → (A → Exec B) → Exec B
done a >>= f = f a
panic >>= f = panic
