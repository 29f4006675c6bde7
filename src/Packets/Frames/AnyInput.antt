-- ===== src/Packets/Frames/AnyInput.antt =====
-- `PacketReader::next` on any buffer.
use peace.Base.{[], ℕ, ◌+◌, ◌^◌, ◌≤◌, ◌<◌, arith, ◌≡◌, refl, ◌⊎◌, inl, inr}
use peace.Base.{Bool-cases, ◌==◌, ◌∙◌, none, some, done, panic}
use peace.Base.{List, [], ◌∷◌, ◌++◌, length, length-append, slice?, slice?-eq-some}
use native.Mathlib.Decide.{dec_lt}
use peace.Packets.Words.{from_le_bytes}
use peace.Packets.Ids
use peace.Packets.Frames.{PacketReader, Packet, PacketHeader, parse_header, next_payload, next}
use peace.Packets.Frames.Reading.{reader_at, header_of, next-header, length-header_of}

parse_header_seven :
    (header : List ℕ)
    → length header ≡ 7
    → (h : PacketHeader) × (parse_header header ≡ done (some h))
unfolding parse_header
parse_header_seven [] e = absurd (omega arith)
parse_header_seven (packet_id ∷ header) e =
    let (bytes, hit, _) = slice?-eq-some 3 4 (packet_id ∷ header) (omega (arith, e)) in
    (record { id = Ids.new packet_id; payload_length = from_le_bytes bytes }, ground (arith, hit))

-- Where a header is left in the buffer, a packet is returned.
next_returns :
    (r : PacketReader)
    → r.ptr + 7 ≤ length r.buf
    → (h : PacketHeader) × (next r ≡ next_payload (record r { ptr = r.ptr + 7 }) (some h))
unfolding next
next_returns r h =
    let (header, hit, seven) = slice?-eq-some r.ptr 7 r.buf h in
    let (parsed, e) = parse_header_seven header seven in (parsed, ground (arith, hit, e))

next_payload_moves :
    (r : PacketReader) (h : PacketHeader)
    → (p : Packet) × (r' : PacketReader) × (next_payload r (some h) ≡ done (some p, r'))
      × (r'.buf ≡ r.buf)
      × (r.ptr ≤ r'.ptr)
next_payload_moves r h = elim (Bool-cases (h.payload_length == 0)) [
  | inl e ↦ (record { id = h.id; payload = none }, r, rw e, refl, omega arith)
  | inr e ↦ (
    record { id = h.id; payload = slice? r.ptr h.payload_length r.buf },
    record r { ptr = r.ptr + h.payload_length },
    rw e,
    refl,
    omega arith,
  )
]

-- What `next` does on any buffer: it panics where the pointer is past the end, returns nothing and
-- stays where fewer than seven bytes are left, and otherwise returns a packet and moves on by
-- seven bytes at least.
pub next_cases :
    (r : PacketReader)
    → ((length r.buf < r.ptr) × (next r ≡ panic))
      ⊎ ((r.ptr ≤ length r.buf) × (length r.buf < r.ptr + 7) × (next r ≡ done (none, r)))
      ⊎ ((p : Packet) × (r' : PacketReader) × (r.ptr + 7 ≤ length r.buf)
          × (next r ≡ done (some p, r'))
          × (r'.buf ≡ r.buf)
          × (r.ptr + 7 ≤ r'.ptr))
next_cases r = elim (dec_lt (length r.buf) r.ptr) [
  | yes past ↦ inl (past, unfold next in ground arith)
  | no inside ↦ elim (dec_lt (length r.buf) (r.ptr + 7)) [
    | yes few ↦ inr (inl (omega arith, few, unfold next in ground arith))
    | no enough ↦
        let (h, e) = next_returns r (omega arith) in
        let (p, r', f, same, moved) = next_payload_moves (record r { ptr = r.ptr + 7 }) h in
        inr (inr (p, r', omega arith, e ∙ f, same, moved))
  ]
]

size :
    (front rest : List ℕ) (id n : ℕ)
    → length (front ++ (header_of id n ++ rest)) ≡ length front + 7 + length rest
size front rest id n = omega (
  arith,
  length-append front (header_of id n ++ rest),
  length-append (header_of id n) rest,
  length-header_of id n,
)

beyond :
    (front rest : List ℕ) (id n : ℕ)
    → length rest < n
    → slice? (length front + 7) n (front ++ (header_of id n ++ rest)) ≡ none
unfolding slice?
beyond front rest id n short = ground (arith, size front rest id n)

-- A packet whose header claims more payload (less than 2 ^ 32 bytes) than the buffer holds is returned without a payload,
-- and the call of `next` after it panics.
pub next-truncated :
    (front rest : List ℕ) (id n : ℕ)
    → n < 2 ^ 32
    → length rest < n
    → (r : PacketReader) × (next (reader_at front (header_of id n ++ rest))
        ≡ done (some (record { id = Ids.new id; payload = none }), r))
      × (next r ≡ panic)
next-truncated front rest id n h short = (
  record { buf = front ++ (header_of id n ++ rest); ptr = length front + 7 + n },
  ground (arith, next-header front rest id n h, beyond front rest id n short),
  unfold next in ground (arith, size front rest id n),
)

-- At the end of the buffer nothing more is returned.
pub next-end : (front : List ℕ) → next (reader_at front []) ≡ done (none, reader_at front [])
unfolding next
next-end front = ground (arith, length-append front [])
