-- ===== src/Packets/Uleb/Decode.antt =====
-- What `uleb128_to_u32` reads.
use native.Mathlib.Nat.{pow-suc, div-add-mod}
use native.Mathlib.Numerals.{towards_suc}
use peace.Base.{ℕ, zero, suc, ◌+◌, ◌*◌, ◌/◌, ◌%◌, ◌^◌, ◌<◌, arith}
use peace.Base.{◌≡◌, ap, List, ◌∷◌, ◌++◌, length, Bool, some}
use peace.Base.{done}
use peace.Base.Bits.{and_0x7f, and_0x80, or_shifted}
use peace.Packets.Uleb.{shl, uleb128_to_u32_loop, uleb128_to_u32}
use peace.Packets.Uleb.Encode.{groups}

shl_fits :
    (checks : Bool) (x shift : ℕ)
    → shift < 32
    → x * 2 ^ shift < 2 ^ 32
    → shl checks x shift ≡ done (x * 2 ^ shift)
unfolding shl
shl_fits checks x shift h fits = ground arith

-- One round on a last byte, and on a byte with its top bit set over a group.
last_byte :
    (checks : Bool) (w : ℕ) (bytes : List ℕ) (val shift index : ℕ)
    → w < 128
    → shift < 32
    → val < 2 ^ shift
    → w * 2 ^ shift < 2 ^ 32
    → uleb128_to_u32_loop checks (w ∷ bytes) val shift index
      ≡ done (some (val + w * 2 ^ shift, index + 1))
unfolding uleb128_to_u32_loop
last_byte checks w bytes val shift index hw hs hv fits =
    ground (arith, and_0x80 w, shl_fits checks w shift hs fits, or_shifted shift val w hv)

inner_byte :
    (checks : Bool) (g : ℕ) (bytes : List ℕ) (val shift index : ℕ)
    → g < 128
    → shift < 32
    → val < 2 ^ shift
    → g * 2 ^ shift < 2 ^ 32
    → uleb128_to_u32_loop checks ((g + 128) ∷ bytes) val shift index
      ≡ uleb128_to_u32_loop checks bytes (val + g * 2 ^ shift) (shift + 7) (index + 1)
unfolding uleb128_to_u32_loop
inner_byte checks g bytes val shift index hg hs hv fits = ground (
  arith,
  and_0x80 (g + 128),
  and_0x7f (g + 128),
  shl_fits checks g shift hs fits,
  or_shifted shift val g hv,
)

seven_more : (s : ℕ) → 2 ^ (s + 7) ≡ 128 * 2 ^ s
seven_more s = simp towards_suc (omega arith)

-- The lowest group of `v` and the rest, at their places from bit `s` on.
at_places : (v s : ℕ) → v * 2 ^ s ≡ v % 128 * 2 ^ s + v / 128 * 2 ^ (s + 7)
at_places v s = omega (
  arith,
  ap (λ (t : ℕ). t * 2 ^ s) (div-add-mod v 128),
  ap (λ (t : ℕ). v / 128 * t) (seven_more s),
)

below_next : (val g s : ℕ) → val < 2 ^ s → g < 128 → val + g * 2 ^ s < 2 ^ (s + 7)
below_next val g s h hg = grind (arith, seven_more s)

smaller : (k v : ℕ) → v < 128 ^ suc (suc k) → v / 128 < 128 ^ suc k
smaller k v h = omega (arith, pow-suc 128 (suc k))

loop-groups :
    (checks : Bool) (k v : ℕ) (bytes : List ℕ) (val shift index : ℕ)
    → v < 128 ^ suc k
    → shift + 7 * k < 32
    → val < 2 ^ shift
    → val + v * 2 ^ shift < 2 ^ 32
    → uleb128_to_u32_loop checks (groups k v ++ bytes) val shift index
      ≡ done (some (val + v * 2 ^ shift, index + length (groups k v)))
unfolding groups
loop-groups checks zero v bytes val shift index hv hs hval fits =
    last_byte checks v bytes val shift index (omega arith) (omega arith) hval (omega arith)
loop-groups checks (suc k) v bytes val shift index hv hs hval fits = ground (
  arith,
  last_byte checks v bytes val shift index,
  at_places v shift,
  inner_byte checks (v % 128) (groups k (v / 128) ++ bytes) val shift index,
  below_next val (v % 128) shift hval,
  loop-groups checks k (v / 128) bytes (val + v % 128 * 2 ^ shift) (shift + 7) (index + 1)
      (smaller k v hv),
)

-- The decoder reads the groups of a `u32` back, whatever bytes follow them, in a build with
-- overflow checks and in one without, and says how many bytes they are.
pub uleb128_to_u32-groups :
    (checks : Bool) (v : ℕ) (bytes : List ℕ)
    → v < 2 ^ 32
    → uleb128_to_u32 checks (groups 4 v ++ bytes) ≡ done (some (v, length (groups 4 v)))
unfolding uleb128_to_u32
uleb128_to_u32-groups checks v bytes h =
    ground (arith, loop-groups checks 4 v bytes 0 0 0 (omega arith))
