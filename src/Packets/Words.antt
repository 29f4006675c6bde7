-- ===== src/Packets/Words.antt =====
-- Little-endian words: `to_le_bytes` and `from_le_bytes` of the integer types. A word of `n` bytes
-- is a number below 256 ^ n; a signed one is its two's complement bit pattern.
pub mod Laws
use peace.Base.{ℕ, zero, suc, ◌+◌, ◌*◌, ◌/◌, ◌%◌, ◌^◌, ◌<◌, List, [], ◌∷◌, ◌++◌}

unfoldable pub to_le_bytes : ℕ → ℕ → List ℕ
to_le_bytes zero value = []
to_le_bytes (suc n) value = (value % 256) ∷ to_le_bytes n (value / 256)

-- The loop that writes the elements of an array, each of `n` bytes.
abbrev pub numbers_bytes : ℕ → List ℕ → List ℕ
numbers_bytes n [] = []
numbers_bytes n (x ∷ xs) = to_le_bytes n x ++ numbers_bytes n xs

unfoldable pub from_le_bytes : List ℕ → ℕ
from_le_bytes [] = 0
from_le_bytes (byte ∷ bytes) = byte + 256 * from_le_bytes bytes

abbrev pub IsByte : ℕ → Type 0
IsByte b = b < 256
