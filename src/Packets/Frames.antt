-- ===== src/Packets/Frames.antt =====
-- `PacketReader` of lib/bancho-packets/src/lib.rs.
pub mod Reading
pub mod AnyInput
pub mod Written
use peace.Base.{
  ℕ, zero, suc, ◌+◌, ◌-◌, ltb, ◌==◌, if◌then◌else◌, Bool, true, false, Option, none, some,
}
use peace.Base.{List, [], ◌∷◌, length, slice?, Exec, done, panic, ◌>>=◌}
use peace.Packets.Words.{from_le_bytes}
use peace.Packets.Ids.{PacketId}
use peace.Packets.Ids

pub record Packet : Type 0 where
  pub id : PacketId
  pub payload : Option (List ℕ)

pub record PacketHeader : Type 0 where
  pub id : PacketId
  pub payload_length : ℕ

pub record PacketReader : Type 0 where
  pub buf : List ℕ
  pub ptr : ℕ

-- `PacketReader::new`
abbrev pub new : List ℕ → PacketReader
new buf = record { buf = buf; ptr = 0 }

-- `reset`
abbrev pub reset : PacketReader → PacketReader
reset r = record r { ptr = 0 }

-- `&xs[i..i + n]`, which panics where the slice is not there.
abbrev pub slice_at : ℕ → ℕ → List ℕ → Exec (List ℕ)
slice_at i n xs = elim (slice? i n xs) [ none ↦ panic | some ys ↦ done ys ]

unfoldable pub parse_header : List ℕ → Exec (Option PacketHeader)
unfolding from_le_bytes
parse_header [] = done none
parse_header (packet_id ∷ header) = do
  length_bytes ← slice_at 3 4 (packet_id ∷ header)
  done (some (record { id = Ids.new packet_id; payload_length = from_le_bytes length_bytes }))

-- The end of `next`, from the pointer behind the header on.
abbrev pub next_payload : PacketReader → Option PacketHeader → Exec (Option Packet × PacketReader)
next_payload r none = done (none, r)
next_payload r (some h) =
    if h.payload_length == 0
    then done (some (record { id = h.id; payload = none }), r)
    else done (
      some (record { id = h.id; payload = slice? r.ptr h.payload_length r.buf }),
      record r { ptr = r.ptr + h.payload_length },
    )

-- `Iterator::next`. With the pointer behind the buffer `self.buf.len() - self.ptr` panics in a
-- build with overflow checks; in one without it wraps, and the slice of the header panics.
unfoldable pub next : PacketReader → Exec (Option Packet × PacketReader)
next r =
    if ltb (length r.buf) r.ptr
    then panic
    else if ltb (length r.buf - r.ptr) 7
    then done (none, r)
    else (slice_at r.ptr 7 r.buf >>= λ header.
        parse_header header >>= λ h. next_payload (record r { ptr = r.ptr + 7 }) h)
