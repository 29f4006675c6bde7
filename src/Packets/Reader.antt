-- ===== src/Packets/Reader.antt =====
-- `PayloadReader` and the `BanchoPacketRead` impls of lib/bancho-packets/src/lib.rs. An index is an
-- unbounded number: `Reader.Bounds` says how little a read can raise it.
pub mod Reads
pub mod Bounds
pub mod Arrays
use peace.Base.{ℕ, zero, suc, ◌+◌, ◌-◌, ◌*◌, ◌^◌, ltb, leb, ◌==◌, if◌then◌else◌}
use peace.Base.{
  Bool, true, false, Option, none, some, List, [], ◌∷◌, length, drop, get_elem?, slice?,
}
use peace.Base.{Exec, done, panic}
use peace.Packets.Words.{from_le_bytes}
use peace.Packets.Uleb.{uleb128_to_u32}
use peace.Packets.Utf8.{from_utf8}

pub record PayloadReader : Type 0 where
  pub payload : List ℕ
  pub index : ℕ

-- `PayloadReader::new`
abbrev pub new : List ℕ → PayloadReader
new payload = record { payload = payload; index = 0 }

-- A read moves the reader on whether it finds a value or not; it may panic.
abbrev pub Read : Type 0 → Type 0
Read A = PayloadReader → Exec (Option A × PayloadReader)

-- What follows a read that is marked `?`.
abbrev pub and_then :
    {A B : Type 0}
    → (A → Read B)
    → Exec (Option A × PayloadReader)
    → Exec (Option B × PayloadReader)
and_then f panic = panic
and_then f (done (none, r)) = done (none, r)
and_then f (done (some a, r)) = f a r

infixl 5 ◌>>=◌ ◌>>◌
abbrev pub ◌>>=◌ : {A B : Type 0} → Read A → (A → Read B) → Read B
◌>>=◌ m f r = and_then f (m r)

abbrev pub ◌>>◌ : {B : Type 0} → Read (Unit {0}) → Read B → Read B
m >> k = m >>= λ _. k

abbrev pub pure : {A : Type 0} → A → Read A
pure a r = done (some a, r)

-- A fallible step that leaves the reader alone, such as `.ok()?`.
abbrev pub from_option : {A : Type 0} → Option A → Read A
from_option o r = done (o, r)

unfoldable pub increase_index : ℕ → Read (Unit {0})
increase_index offset r = done (some tt, record r { index = r.index + offset })

-- The new index less the length is the old one.
unfoldable pub next_with_length : ℕ → Read (List ℕ)
unfolding slice?
next_with_length n r = done (slice? r.index n r.payload, record r { index = r.index + n })

-- `payload.get(index..)`
abbrev pub rest_at : ℕ → List ℕ → Option (List ℕ)
rest_at i xs = if leb i (length xs) then some (drop i xs) else none

-- `self.index += length` for a number that was found.
abbrev pub after_uleb : PayloadReader → Exec (Option (ℕ × ℕ)) → Exec (Option ℕ × PayloadReader)
after_uleb r panic = panic
after_uleb r (done none) = done (none, r)
after_uleb r (done (some (val, n))) = done (some val, record r { index = r.index + n })

unfoldable pub read_uleb128 : Bool → Read ℕ
unfolding uleb128_to_u32
read_uleb128 checks r = elim (rest_at r.index r.payload) [
  | none ↦ done (none, r)
  | some bytes ↦ after_uleb r (uleb128_to_u32 checks bytes)
]

unfoldable pub peek : Read ℕ
peek r = done (get_elem? r.payload r.index, r)

-- `String`
unfoldable pub read_string : Bool → Read (List ℕ)
unfolding peek increase_index read_uleb128 next_with_length from_utf8
read_string checks = do
  tag ← peek
  from_option (if tag == 0xb then some tt else none)
  increase_index 1
  data_length ← read_uleb128 checks
  bytes ← next_with_length data_length
  from_option (from_utf8 bytes)

-- `i8, u8, i16, u16, i32, u32, i64, u64`, by their size in bytes.
unfoldable pub read_number : ℕ → Read ℕ
unfolding next_with_length from_le_bytes
read_number size = do bytes ← next_with_length size; pure (from_le_bytes bytes)

-- `bool`
unfoldable pub read_bool : Read Bool
unfolding read_number
read_bool = do n ← read_number 1; pure (n == 1)

-- `i16 as usize` extends the sign.
unfoldable pub i16_as_usize : ℕ → ℕ
i16_as_usize n = if ltb n (2 ^ 15) then n else 2 ^ 64 - 2 ^ 16 + n

-- `Vec::with_capacity` panics for more than `isize::MAX` bytes.
unfoldable pub with_capacity : ℕ → ℕ → Read (Unit {0})
with_capacity size count r = if ltb (count * size) (2 ^ 63) then done (some tt, r) else panic

-- The loop takes `size_of::<i32>()` bytes for each element, and an element of another size cannot
-- be made of four.
unfoldable pub read_numbers : ℕ → ℕ → Read (List ℕ)
unfolding next_with_length from_le_bytes
read_numbers size zero = pure []
read_numbers size (suc count) = do
  bytes ← next_with_length 4
  x ← from_option (if size == 4 then some (from_le_bytes bytes) else none)
  xs ← read_numbers size count
  pure (x ∷ xs)

-- `Vec` of numbers of `size` bytes.
unfoldable pub read_number_array : ℕ → Read (List ℕ)
unfolding next_with_length from_le_bytes i16_as_usize with_capacity read_numbers
read_number_array size = do
  length_data ← next_with_length 2
  let int_count = i16_as_usize (from_le_bytes length_data)
  with_capacity size int_count
  read_numbers size int_count
