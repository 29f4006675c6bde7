-- ===== src/Packets/Utf8.antt =====
-- `std::str::from_utf8`: the byte sequences that Rust takes for a `str`. A text of the model is the
-- list of its bytes.
use peace.Base.{ℕ, zero, suc, ◌&&◌, leb, ◌==◌, if◌then◌else◌, Bool, true, false, Option, none, some}
use peace.Base.{List, [], ◌∷◌}

-- By the first byte of a character: how many bytes follow, and the range of the first of them.
unfoldable pub lead : ℕ → Option (ℕ × ℕ × ℕ)
lead b =
    if leb b 0x7f
    then some (0, 0x80, 0xbf)
    else if leb 0xc2 b && leb b 0xdf
    then some (1, 0x80, 0xbf)
    else if b == 0xe0
    then some (2, 0xa0, 0xbf)
    else if b == 0xed
    then some (2, 0x80, 0x9f)
    else if leb 0xe1 b && leb b 0xef
    then some (2, 0x80, 0xbf)
    else if b == 0xf0
    then some (3, 0x90, 0xbf)
    else if leb 0xf1 b && leb b 0xf3
    then some (3, 0x80, 0xbf)
    else if b == 0xf4
    then some (3, 0x80, 0x8f)
    else none

-- `need` more bytes of the current character are due, the next of them from `lo` to `hi`.
unfoldable pub utf8_from : ℕ → ℕ → ℕ → List ℕ → Bool
utf8_from zero lo hi [] = true
utf8_from (suc need) lo hi [] = false
utf8_from zero lo hi (b ∷ bytes) = elim (lead b) [
  | none ↦ false
  | some (need, lo', hi') ↦ utf8_from need lo' hi' bytes
]
utf8_from (suc need) lo hi (b ∷ bytes) = leb lo b && leb b hi && utf8_from need 0x80 0xbf bytes

unfoldable pub is_utf8 : List ℕ → Bool
unfolding utf8_from lead
is_utf8 bytes = utf8_from 0 0 0 bytes

unfoldable pub from_utf8 : List ℕ → Option (List ℕ)
unfolding is_utf8
from_utf8 bytes = if is_utf8 bytes then some bytes else none
