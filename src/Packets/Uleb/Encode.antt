-- ===== src/Packets/Uleb/Encode.antt =====
-- What `u32_to_uleb128` writes.
use native.Mathlib.Nat.{pow-suc}
use peace.Base.{
  ℕ, zero, suc, ◌+◌, ◌/◌, ◌%◌, ◌^◌, ◌≤◌, ◌<◌, bit_and, bit_or, ltb, if◌then◌else◌, arith,
}
use peace.Base.{
  ◌≡◌, refl, ap, List, [], ◌∷◌, ◌++◌, append_assoc, length, set, take, length-append, done,
}
use peace.Base.Bits.{and_0x7f, or_0x80}
use peace.Packets.Uleb.{u32_to_uleb128_loop, u32_to_uleb128}

-- The groups of seven bits, lowest first, each but the last with its top bit set: the encoding of
-- a number below 128 ^ (k + 1).
unfoldable pub groups : ℕ → ℕ → List ℕ
groups zero v = v ∷ []
groups (suc k) v =
    let more = (v % 128 + 128) ∷ groups k (v / 128) in if ltb v 128 then v ∷ [] else more

abbrev pub zeros : ℕ → List ℕ
zeros zero = []
zeros (suc n) = 0 ∷ zeros n

-- The groups in an array of `k + 1` bytes.
pub padded : ℕ → ℕ → List ℕ
padded zero v = v ∷ []
padded (suc k) v =
    let more = (v % 128 + 128) ∷ padded k (v / 128) in if ltb v 128 then v ∷ zeros (suc k) else more

take-padded : (k v : ℕ) → take (length (groups k v)) (padded k v) ≡ groups k v
unfolding groups padded
take-padded zero v = refl
take-padded (suc k) v = ground (arith, take-padded k (v / 128))

length-zeros : (n : ℕ) → length (zeros n) ≡ n
length-zeros zero = refl
length-zeros (suc n) = ap suc (length-zeros n)

pub length-padded : (k v : ℕ) → length (padded k v) ≡ k + 1
unfolding padded
length-padded zero v = omega arith
length-padded (suc k) v = ground (arith, length-zeros (suc k), length-padded k (v / 128))

pub length-groups : (k v : ℕ) → (1 ≤ length (groups k v)) × (length (groups k v) ≤ k + 1)
unfolding groups
length-groups zero v = omega arith
length-groups (suc k) v = ground (arith, length-groups k (v / 128))

set-append : (xs ys : List ℕ) (x y : ℕ) → set (xs ++ (x ∷ ys)) (length xs) y ≡ xs ++ (y ∷ ys)
set-append [] ys x y = refl
set-append (z ∷ xs) ys x y = ap (◌∷◌ z) (set-append xs ys x y)

inner_group : (v : ℕ) → bit_or (bit_and v 0x7f) 0x80 % 256 ≡ v % 128 + 128
inner_group v = rw and_0x7f (omega (arith, or_0x80 (v % 128) (omega arith)))

smaller : (k v : ℕ) → v < 128 ^ suc (suc k) → v / 128 < 128 ^ suc k
smaller k v h = omega (arith, pow-suc 128 (suc k))

length-snoc : (front : List ℕ) (g : ℕ) → length (front ++ (g ∷ [])) ≡ length front + 1
length-snoc front g = omega (arith, length-append front (g ∷ []))

loop-groups :
    (k v : ℕ) (front : List ℕ)
    → v < 128 ^ suc k
    → u32_to_uleb128_loop (suc k) v (front ++ zeros (suc k)) (length front)
      ≡ done (front ++ padded k v, length front + length (groups k v))
unfolding u32_to_uleb128_loop groups padded
loop-groups zero v front h = ground (arith, set-append front [] 0 (v % 256))
loop-groups (suc k) v front h = ground (
  arith,
  set-append front (zeros (suc k)) 0 (v % 256),
  set-append front (zeros (suc k)) 0 (v % 128 + 128),
  inner_group v,
  length-snoc front (v % 128 + 128),
  append_assoc front ((v % 128 + 128) ∷ []) (zeros (suc k)),
  append_assoc front ((v % 128 + 128) ∷ []) (padded k (v / 128)),
  loop-groups k (v / 128) (front ++ ((v % 128 + 128) ∷ [])) (smaller k v h),
)

u32_to_uleb128_lem : (v : ℕ) → u32_to_uleb128 v ≡ u32_to_uleb128_loop 5 v ([] ++ zeros 5) 0
unfolding u32_to_uleb128
u32_to_uleb128_lem v = refl

-- On every `u32` the encoder returns, and its array holds from the start the groups of seven bits,
-- lowest first, which are one to five bytes, as many as it says.
pub u32_to_uleb128-groups :
    (v : ℕ)
    → v < 2 ^ 32
    → (u32_to_uleb128 v ≡ done (padded 4 v, length (groups 4 v)))
      × (take (length (groups 4 v)) (padded 4 v) ≡ groups 4 v)
      × (1 ≤ length (groups 4 v))
      × (length (groups 4 v) ≤ 5)
u32_to_uleb128-groups v h =
    let (lo, hi) = length-groups 4 v in
    (
      ground (arith, u32_to_uleb128_lem v, loop-groups 4 v [] (omega arith)),
      take-padded 4 v,
      lo,
      hi,
    )
