-- ===== src/Packets/Items.antt =====
-- `BanchoPacketWrite`, `BanchoPacketLength` and the macros `data!` and `packet!` of
-- lib/bancho-packets/src/lib.rs. The items of a macro call are a list of typed values.
pub mod Encoding
use peace.Base.{ℕ, zero, suc, ◌+◌, ◌-◌, ◌*◌, ◌/◌, ◌%◌, ◌^◌, ltb, if◌then◌else◌, Bool, true, false}
use peace.Base.{
  Option, none, some, List, [], ◌∷◌, ◌++◌, length, slice?, set, Exec, done, panic, ◌>>=◌,
}
use peace.Packets.Words.{to_le_bytes, numbers_bytes}
use peace.Packets.Uleb.{u32_to_uleb128}
use peace.Packets.Ids.{PacketId, as_u8}

-- A number of the integer and float types by its size in bytes and its bit pattern; a `bool`;
-- bytes (`Vec<u8>`, `&[u8]`); a text (`&str`, `String`, `Cow<str>`); an array of numbers.
pub data Value : Type 0 where
  number : ℕ → ℕ → Value
  boolean : Bool → Value
  bytes : List ℕ → Value
  text : List ℕ → Value
  numbers : ℕ → List ℕ → Value

-- `&data[0..ptr]`
abbrev pub slice_to : List ℕ → ℕ → Exec (List ℕ)
slice_to data_ ptr = elim (slice? 0 ptr data_) [ none ↦ panic | some xs ↦ done xs ]

abbrev pub write_length : List ℕ → List ℕ × ℕ → List ℕ → Exec (List ℕ)
write_length s (data_, ptr) buf = do
  length_uleb128 ← slice_to data_ ptr
  done (buf ++ (0x0b ∷ (length_uleb128 ++ s)))

unfoldable pub write_text : List ℕ → List ℕ → Exec (List ℕ)
write_text s buf =
    if ltb 0 (length s)
    then (u32_to_uleb128 (length s % 2 ^ 32) >>= λ encoded. write_length s encoded buf)
    else done (buf ++ (0 ∷ []))

-- `write_into_buf`
unfoldable pub write_value : Value → List ℕ → Exec (List ℕ)
unfolding write_text to_le_bytes
write_value (number size v) buf = done (buf ++ to_le_bytes size v)
write_value (boolean b) buf = done (buf ++ ((if b then 1 else 0) ∷ []))
write_value (bytes xs) buf = done (buf ++ xs)
write_value (text s) buf = write_text s buf
write_value (numbers size xs) buf =
    done (buf ++ (to_le_bytes 2 (length xs % 2 ^ 16) ++ numbers_bytes size xs))

-- `packet_len`
unfoldable pub packet_len : Value → ℕ
packet_len (number size v) = size
packet_len (boolean b) = 1
packet_len (bytes xs) = length xs
packet_len (text s) = if ltb 0 (length s) then length s + 6 else 1
packet_len (numbers size xs) = 2 + size * length xs

unfoldable pub write_values : List Value → List ℕ → Exec (List ℕ)
unfolding write_value
write_values [] buf = done buf
write_values (v ∷ vs) buf = do buf' ← write_value v buf; write_values vs buf'

-- `data!`
unfoldable pub data_of : List Value → Exec (List ℕ)
unfolding write_values
data_of vs = write_values vs []

-- `packet[3]` to `packet[6]` become the four bytes of `n as i32`.
abbrev pub set_length : List ℕ → ℕ → List ℕ
set_length packet n =
    set (set (set (set packet 3 (n % 256)) 4 (n / 256 % 256)) 5 (n / 256 / 256 % 256)) 6
      (n / 256 / 256 / 256 % 256)

-- `new_empty_packet`
unfoldable pub new_empty_packet : PacketId → List ℕ
unfolding as_u8
new_empty_packet packet_id = as_u8 packet_id ∷ 0 ∷ 0 ∷ 0 ∷ 0 ∷ 0 ∷ 0 ∷ []

-- `packet!`
unfoldable pub packet : PacketId → List Value → Exec (List ℕ)
unfolding write_values new_empty_packet
packet packet_id vs = do
  buf ← write_values vs (new_empty_packet packet_id)
  done (set_length buf ((length buf - 7) % 2 ^ 32))
