-- ===== src/Packets/Uleb/AnyInput.antt =====
-- `uleb128_to_u32` on any bytes, well formed or not.
use peace.Base.{ℕ, ◌+◌, ◌*◌, ◌^◌, ◌≤◌, ◌<◌, bit_and, bit_or, arith}
use peace.Base.{◌≡◌, refl, List, [], ◌∷◌, length, Bool, true, some, done, panic}
use peace.Base.{Exec, ◌⊎◌, inl, inr, Option, All, ◌==◌, Bool-cases}
use peace.Base.Bits.{or_bound, and_0x80}
use peace.Packets.Uleb.{shl, or_group, uleb128_to_u32_loop, uleb128_to_u32}

shl_bound : (checks : Bool) (x shift y : ℕ) → shl checks x shift ≡ done y → y < 2 ^ 32
unfolding shl
shl_bound checks x shift y e = ground arith

shl_panics :
    (checks : Bool) (x shift : ℕ) → shl checks x shift ≡ panic → (checks ≡ true) × (32 ≤ shift)
unfolding shl
shl_panics checks x shift e = ground arith

or_group-eq-done :
    (m : Exec ℕ) (val : ℕ) (next : ℕ → Exec (Option (ℕ × ℕ))) {r : Option (ℕ × ℕ)}
    → or_group m val next ≡ done r
    → (g : ℕ) × (m ≡ done g) × (next (bit_or val g) ≡ done r)
or_group-eq-done panic val next e = cc
or_group-eq-done (done g) val next e = (g, refl, e)

or_group-eq-panic :
    (m : Exec ℕ) (val : ℕ) (next : ℕ → Exec (Option (ℕ × ℕ)))
    → or_group m val next ≡ panic
    → (m ≡ panic) ⊎ ((g : ℕ) × (next (bit_or val g) ≡ panic))
or_group-eq-panic panic val next e = inl refl
or_group-eq-panic (done g) val next e = inr (g, e)

loop_bounds :
    (checks : Bool) (bytes : List ℕ) (val shift index v n : ℕ)
    → val < 2 ^ 32
    → uleb128_to_u32_loop checks bytes val shift index ≡ done (some (v, n))
    → (v < 2 ^ 32) × (index < n) × (n ≤ index + length bytes)
unfolding uleb128_to_u32_loop
loop_bounds checks [] val shift index v n h e = cc
loop_bounds checks (byte ∷ bytes) val shift index v n h e =
    elim (Bool-cases (bit_and byte 0x80 == 0)) [
      | inl last ↦
          let (g, s, r) = or_group-eq-done (shl checks byte shift) val _ (rw last at e) in
          ground (arith, r, or_bound 32 val g h (shl_bound checks byte shift g s))
      | inr inner ↦
          let (g, s, r) =
            or_group-eq-done (shl checks (bit_and byte 0x7f) shift) val _ (rw inner at e) in
          let low = or_bound 32 val g h (shl_bound checks (bit_and byte 0x7f) shift g s) in
          omega (arith, loop_bounds checks bytes (bit_or val g) (shift + 7) (index + 1) v n low r)
    ]

loop_panics :
    (checks : Bool) (bytes : List ℕ) (val shift index j : ℕ)
    → shift ≡ 7 * j
    → uleb128_to_u32_loop checks bytes val shift index ≡ panic
    → (checks ≡ true) × (6 ≤ j + length bytes)
unfolding uleb128_to_u32_loop
loop_panics checks [] val shift index j hs e = cc
loop_panics checks (byte ∷ bytes) val shift index j hs e =
    elim (Bool-cases (bit_and byte 0x80 == 0)) [
      | inl last ↦ elim (or_group-eq-panic (shl checks byte shift) val _ (rw last at e)) [
        | inl p ↦ ground (arith, shl_panics checks byte shift p)
        | inr (g, p) ↦ cc
      ]
      | inr inner ↦
          elim (or_group-eq-panic (shl checks (bit_and byte 0x7f) shift) val _ (rw inner at e)) [
            | inl p ↦ ground (arith, shl_panics checks (bit_and byte 0x7f) shift p)
            | inr (g, p) ↦
                let (c, k) =
                  loop_panics checks bytes (bit_or val g) (shift + 7) (index + 1) (j + 1)
                    (omega arith) p in
                (c, omega arith)
          ]
    ]

-- Whatever the bytes, a number that the decoder returns is a `u32`, and it was read from at least
-- one byte and from no more than there are.
pub uleb128_to_u32_bounds :
    (checks : Bool) (bytes : List ℕ) (v n : ℕ)
    → uleb128_to_u32 checks bytes ≡ done (some (v, n))
    → (v < 2 ^ 32) × (1 ≤ n) × (n ≤ length bytes)
unfolding uleb128_to_u32
uleb128_to_u32_bounds checks bytes v n e =
    omega (arith, loop_bounds checks bytes 0 0 0 v n (omega arith) e)

-- The decoder panics only in a build with overflow checks, and only on six bytes or more.
pub uleb128_to_u32_panics :
    (checks : Bool) (bytes : List ℕ)
    → uleb128_to_u32 checks bytes ≡ panic
    → (checks ≡ true) × (6 ≤ length bytes)
unfolding uleb128_to_u32
uleb128_to_u32_panics checks bytes e =
    let (c, k) = loop_panics checks bytes 0 0 0 0 (omega arith) e in (c, omega arith)

-- In a build with overflow checks the decoder panics on every input that begins with five bytes
-- with the top bit set and has a sixth byte.
pub uleb128_to_u32_overflow :
    (a b c d e f : ℕ) (bytes : List ℕ)
    → All (λ x. (128 ≤ x) × (x < 256)) (a ∷ b ∷ c ∷ d ∷ e ∷ [])
    → uleb128_to_u32 true (a ∷ b ∷ c ∷ d ∷ e ∷ f ∷ bytes) ≡ panic
unfolding uleb128_to_u32 shl
uleb128_to_u32_overflow a b c d e f bytes h =
    ground (arith, and_0x80 a, and_0x80 b, and_0x80 c, and_0x80 d, and_0x80 e)
