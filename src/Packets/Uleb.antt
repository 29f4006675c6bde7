-- ===== src/Packets/Uleb.antt =====
-- `u32_to_uleb128` and `uleb128_to_u32` of lib/bancho-packets/src/lib.rs.
pub mod Encode
pub mod Decode
pub mod AnyInput
use peace.Base.{
  ℕ, zero, suc, ◌+◌, ◌*◌, ◌/◌, ◌%◌, ◌^◌, ◌<◌, bit_and, bit_or, ltb, ◌==◌, if◌then◌else◌,
}
use peace.Base.{set, Bool, true, false, Option, none, some, List, [], ◌∷◌, Exec, done, panic}

-- The loop, with `room` places of `data` from `ptr` on: where there is none, the write to
-- `data[ptr]` that both the loop's body and its end make is out of range.
unfoldable pub u32_to_uleb128_loop : ℕ → ℕ → List ℕ → ℕ → Exec (List ℕ × ℕ)
u32_to_uleb128_loop zero unsigned data_ ptr = panic
u32_to_uleb128_loop (suc room) unsigned data_ ptr =
    let group = bit_or (bit_and unsigned 0x7f) 0x80 % 256 in
    let more = u32_to_uleb128_loop room (unsigned / 2 ^ 7) (set data_ ptr group) (ptr + 1) in
    if ltb unsigned 0x80 then done (set data_ ptr (unsigned % 256), ptr + 1) else more

unfoldable pub u32_to_uleb128 : ℕ → Exec (List ℕ × ℕ)
unfolding u32_to_uleb128_loop
u32_to_uleb128 unsigned = u32_to_uleb128_loop 5 unsigned (0 ∷ 0 ∷ 0 ∷ 0 ∷ 0 ∷ []) 0

-- `x << shift` on `u32`. A shift of 32 or more panics in a build with overflow checks, and uses
-- the shift modulo 32 in one without.
unfoldable pub shl : Bool → ℕ → ℕ → Exec ℕ
shl checks x shift =
    if ltb shift 32
    then done (x * 2 ^ shift % 2 ^ 32)
    else if checks
    then panic
    else done (x * 2 ^ (shift % 32) % 2 ^ 32)

-- One round's end: `val |= group << shift`, then `next`.
abbrev or_group : Exec ℕ → ℕ → (ℕ → Exec (Option (ℕ × ℕ))) → Exec (Option (ℕ × ℕ))
or_group panic val next = panic
or_group (done group) val next = next (bit_or val group)

-- The list is `uleb128_bytes` from `index` on.
unfoldable pub uleb128_to_u32_loop : Bool → List ℕ → ℕ → ℕ → ℕ → Exec (Option (ℕ × ℕ))
uleb128_to_u32_loop checks [] val shift index = done none
uleb128_to_u32_loop checks (byte ∷ bytes) val shift index =
    let more =
      or_group (shl checks (bit_and byte 0x7f) shift) val
        (λ v. uleb128_to_u32_loop checks bytes v (shift + 7) (index + 1)) in
    if bit_and byte 0x80 == 0
    then or_group (shl checks byte shift) val (λ v. done (some (v, index + 1)))
    else more

unfoldable pub uleb128_to_u32 : Bool → List ℕ → Exec (Option (ℕ × ℕ))
unfolding uleb128_to_u32_loop shl
uleb128_to_u32 checks uleb128_bytes = uleb128_to_u32_loop checks uleb128_bytes 0 0 0
