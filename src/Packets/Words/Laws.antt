-- ===== src/Packets/Words/Laws.antt =====
-- Words to bytes and back.
use native.Mathlib.Nat.{pow-suc}
use peace.Base.{ℕ, zero, suc, ◌+◌, ◌*◌, ◌/◌, ◌%◌, ◌^◌, ◌<◌, ◌≡◌, refl, ap, arith}
use peace.Base.{List, [], ◌∷◌, length, All}
use peace.Packets.Words.{to_le_bytes, from_le_bytes, IsByte}

pub length-to_le_bytes : (n value : ℕ) → length (to_le_bytes n value) ≡ n
unfolding to_le_bytes
length-to_le_bytes zero value = refl
length-to_le_bytes (suc n) value = ap suc (length-to_le_bytes n (value / 256))

pub to_le_bytes-IsByte : (n value : ℕ) → All IsByte (to_le_bytes n value)
unfolding to_le_bytes
to_le_bytes-IsByte zero value = tt
to_le_bytes-IsByte (suc n) value = (omega arith, to_le_bytes-IsByte n (value / 256))

-- A word that fits its bytes is read back.
pub from_le_bytes-to_le_bytes :
    (n value : ℕ) → value < 256 ^ n → from_le_bytes (to_le_bytes n value) ≡ value
unfolding to_le_bytes from_le_bytes
from_le_bytes-to_le_bytes zero value h = omega arith
from_le_bytes-to_le_bytes (suc n) value h =
    omega (arith, from_le_bytes-to_le_bytes n (value / 256) (smaller n value h))
  where
    smaller : (n value : ℕ) → value < 256 ^ suc n → value / 256 < 256 ^ n
    smaller n value h = omega (arith, pow-suc 256 n)

-- Bytes are written back as they were read from little-endian words, and the word that they make
-- fits as many bytes.
pub to_le_bytes-from_le_bytes :
    (bytes : List ℕ)
    → All IsByte bytes
    → (to_le_bytes (length bytes) (from_le_bytes bytes) ≡ bytes)
      × (from_le_bytes bytes < 256 ^ length bytes)
unfolding to_le_bytes from_le_bytes
to_le_bytes-from_le_bytes [] h = (refl, omega arith)
to_le_bytes-from_le_bytes (byte ∷ bytes) (h, hs) =
    let (e, lt) = to_le_bytes-from_le_bytes bytes hs in
    (
      ground (arith, e, high byte (from_le_bytes bytes) h, low byte (from_le_bytes bytes) h),
      omega (arith, lt, pow-suc 256 (length bytes)),
    )
  where
    high : (b v : ℕ) → b < 256 → (b + 256 * v) / 256 ≡ v
    high b v h = omega arith

    low : (b v : ℕ) → b < 256 → (b + 256 * v) % 256 ≡ b
    low b v h = omega arith
