-- ===== src/Base/Bits.antt =====
-- `&` and `|` of the machine words that the code uses, as arithmetic.
use Prim.Native.Nat.{
  ℕ, zero, suc, ◌+◌, ◌*◌, ◌/◌, ◌%◌, ◌^◌, ◌≤◌, ◌<◌, min, max, bit_and, bit_or, digits,
  bit_and-bitwise, bit_or-bitwise,
}
use mathlib.Core.Path.{◌≡◌, refl, ap}
use mathlib.Core.Bool.{Bool, true, ◌&&◌}
use native.Mathlib.Omega.{arith}
use native.Mathlib.Nat.{pow-suc}
use peace.Base.Tests.{◌==◌, ==_iff}

-- The binary recursion gives the same with any fuel that is at least its first number.
enough_fuel :
    (z : ℕ → ℕ) (f : ℕ → ℕ → ℕ) (k l a b : ℕ) → a ≤ k → a ≤ l → digits z f k a b ≡ digits z f l a b
enough_fuel z f zero zero a b hk hl = refl
enough_fuel z f zero (suc l) zero b hk hl = refl
enough_fuel z f zero (suc l) (suc a) b hk hl = absurd (omega arith)
enough_fuel z f (suc k) zero zero b hk hl = refl
enough_fuel z f (suc k) zero (suc a) b hk hl = absurd (omega arith)
enough_fuel z f (suc k) (suc l) zero b hk hl = refl
enough_fuel z f (suc k) (suc l) (suc a) b hk hl =
    rw (enough_fuel z f k l (suc a / 2) (b / 2) (omega arith) (omega arith))

-- The lowest digit of `&` and `|`, and the rest.
and_digit : (a b : ℕ) → bit_and a b ≡ bit_and (a / 2) (b / 2) * 2 + min (a % 2) (b % 2)
and_digit zero b = simp bit_and-bitwise (omega arith)
and_digit (suc a) b = simp bit_and-bitwise (
    omega (
      arith,
      enough_fuel (λ y. 0) min a (suc a / 2) (suc a / 2) (b / 2) (omega arith) (omega arith),
    ))

or_digit : (a b : ℕ) → bit_or a b ≡ bit_or (a / 2) (b / 2) * 2 + max (a % 2) (b % 2)
or_digit zero b = simp bit_or-bitwise (omega arith)
or_digit (suc a) b = simp bit_or-bitwise (
    omega (
      arith,
      enough_fuel (λ y. y) max a (suc a / 2) (suc a / 2) (b / 2) (omega arith) (omega arith),
    ))

and-zero_upto : (n a : ℕ) → a ≤ n → bit_and a 0 ≡ 0
and-zero_upto zero zero h = refl
and-zero_upto zero (suc a) h = absurd (omega arith)
and-zero_upto (suc n) zero h = refl
and-zero_upto (suc n) (suc a) h =
    omega (arith, and_digit (suc a) 0, and-zero_upto n (suc a / 2) (omega arith))

and_one : (a : ℕ) → bit_and a 1 ≡ a % 2
and_one a = omega (arith, and_digit a 1, and-zero_upto (a / 2) (a / 2) (omega arith))

and_31 : (a : ℕ) → bit_and a 31 ≡ a % 32
and_31 a = omega (
  arith,
  and_digit a 31,
  and_digit (a / 2) 15,
  and_digit (a / 2 / 2) 7,
  and_digit (a / 2 / 2 / 2) 3,
  and_one (a / 2 / 2 / 2 / 2),
)

-- `x & 0x7f` on a number of any width.
pub and_0x7f : (a : ℕ) → bit_and a 0x7f ≡ a % 128
and_0x7f a = omega (arith, and_digit a 0x7f, and_digit (a / 2) 63, and_31 (a / 2 / 2))

-- A table of the values below a bound, checked by evaluation.
every : ℕ → (ℕ → Bool) → Bool
every zero p = true
every (suc n) p = p n && every n p

every-lt : (n : ℕ) (p : ℕ → Bool) (x : ℕ) → every n p ≡ true → x < n → p x ≡ true
unfolding every
every-lt zero p x h lt = absurd (omega arith)
every-lt (suc n) p x h lt = ground (arith, every-lt n p x)

or_top_table : every 128 (λ x. bit_or x 0x80 == x + 128) ≡ true
unfolding every
or_top_table = refl

-- `x | 0x80` on seven bits.
pub or_0x80 : (x : ℕ) → x < 128 → bit_or x 0x80 ≡ x + 128
or_0x80 x h = (==_iff _ _).0 (every-lt 128 _ x or_top_table h)

and_top_table : every 256 (λ x. bit_and x 0x80 == x / 128 * 128) ≡ true
unfolding every
and_top_table = refl

-- `x & 0x80` on a byte.
pub and_0x80 : (x : ℕ) → x < 256 → bit_and x 0x80 ≡ x / 128 * 128
and_0x80 x h = (==_iff _ _).0 (every-lt 256 _ x and_top_table h)

zero-or : (b : ℕ) → bit_or 0 b ≡ b
zero-or b = bit_or-bitwise 0 b

shifted_half : (s g : ℕ) → g * 2 ^ suc s ≡ 2 * (g * 2 ^ s)
shifted_half s g = omega (arith, ap (λ (t : ℕ). g * t) (pow-suc 2 s))

-- `v | (g << s)` is a sum when `v` stands below bit `s`.
pub or_shifted : (s v g : ℕ) → v < 2 ^ s → bit_or v (g * 2 ^ s) ≡ v + g * 2 ^ s
or_shifted zero v g h = let e : v ≡ 0 = omega arith in rw e (omega (arith, zero-or (g * 2 ^ zero)))
or_shifted (suc s) v g h = omega (
  arith,
  or_digit v (g * 2 ^ suc s),
  shifted_half s g,
  pow-suc 2 s,
  ap (λ (t : ℕ). bit_or (v / 2) t) (halved s g),
  or_shifted s (v / 2) g (smaller s v h),
)
  where
    halved : (s g : ℕ) → g * 2 ^ suc s / 2 ≡ g * 2 ^ s
    halved s g = omega (arith, shifted_half s g)

    smaller : (s v : ℕ) → v < 2 ^ suc s → v / 2 < 2 ^ s
    smaller s v h = omega (arith, pow-suc 2 s)

-- `|` of two words of `k` bits is one.
pub or_bound : (k a b : ℕ) → a < 2 ^ k → b < 2 ^ k → bit_or a b < 2 ^ k
or_bound zero a b ha hb =
    let ea : a ≡ 0 = omega arith in let eb : b ≡ 0 = omega arith in rw (ea, eb) (omega arith)
or_bound (suc k) a b ha hb = omega (
  arith,
  pow-suc 2 k,
  or_digit a b,
  or_bound k (a / 2) (b / 2) (omega (arith, pow-suc 2 k)) (omega (arith, pow-suc 2 k)),
)
