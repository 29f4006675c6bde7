-- ===== src/Packets/Frames/Reading.antt =====
-- `PacketReader` reads back the frames that `packet!` and `PacketBuilder` write.
use peace.Base.{ℕ, ◌+◌, ◌%◌, ◌^◌, ◌<◌, arith}
use peace.Base.{◌≡◌, refl, ◌∙◌, Option, none, some}
use peace.Base.{
  List, [], ◌∷◌, ◌++◌, append_assoc, append-nil, length, length-append, slice?, slice?-append, done,
}
use peace.Packets.Words.{to_le_bytes}
use peace.Packets.Words.Laws.{length-to_le_bytes}
use peace.Packets.Ids.{PacketId}
use peace.Packets.Ids
use peace.Packets.Items.Encoding.{frame}
use peace.Packets.Frames.{PacketReader, slice_at, parse_header, next_payload, next}

-- The reader of a buffer that has passed its front.
abbrev pub reader_at : List ℕ → List ℕ → PacketReader
reader_at front back = record { buf = front ++ back; ptr = length front }

abbrev pub payload_of : List ℕ → Option (List ℕ)
payload_of [] = none
payload_of (x ∷ xs) = some (x ∷ xs)

-- The header of a frame.
abbrev pub header_of : ℕ → ℕ → List ℕ
header_of id n = id ∷ 0 ∷ 0 ∷ to_le_bytes 4 n

pub length-header_of : (id n : ℕ) → length (header_of id n) ≡ 7
length-header_of id n = omega (arith, length-to_le_bytes 4 n)

slice_at-append :
    (xs ys zs : List ℕ) → slice_at (length xs) (length ys) (xs ++ (ys ++ zs)) ≡ done ys
slice_at-append xs ys zs = ground (arith, slice?-append xs ys zs)

parse_header-header_of :
    (id n : ℕ)
    → n < 2 ^ 32
    → parse_header (header_of id n) ≡ done (some (record { id = Ids.new id; payload_length = n }))
unfolding parse_header slice? to_le_bytes
parse_header-header_of id n h = ground arith

pub next-header :
    (front back : List ℕ) (id n : ℕ)
    → n < 2 ^ 32
    → next (reader_at front (header_of id n ++ back))
      ≡ next_payload
          (record { buf = front ++ (header_of id n ++ back); ptr = length front + 7 })
          (some (record { id = Ids.new id; payload_length = n }))
unfolding next
next-header front back id n h = ground (
  arith,
  slice_at-append front (header_of id n) back,
  length-header_of id n,
  parse_header-header_of id n h,
  length-append front (header_of id n ++ back),
  length-append (header_of id n) back,
)

next_payload-frame :
    (front payload back : List ℕ) (id : ℕ)
    → next_payload
        (record {
          buf = front ++ (header_of id (length payload) ++ (payload ++ back));
          ptr = length front + 7;
        })
        (some (record { id = Ids.new id; payload_length = length payload }))
      ≡ done (
        some (record { id = Ids.new id; payload = payload_of payload }),
        reader_at (front ++ (header_of id (length payload) ++ payload)) back,
      )
next_payload-frame front [] back id = ground (
  arith,
  append_assoc front (header_of id 0) back,
  length-append front (header_of id 0),
  length-header_of id 0,
  append-nil (to_le_bytes 4 0),
)
next_payload-frame front (x ∷ xs) back id =
    let header = header_of id (length (x ∷ xs)) in
    ground (
      arith,
      slice?-append (front ++ header) (x ∷ xs) back,
      append_assoc front header ((x ∷ xs) ++ back),
      append_assoc front (header ++ (x ∷ xs)) back,
      append_assoc header (x ∷ xs) back,
      length-append front header,
      length-append front (header ++ (x ∷ xs)),
      length-append header (x ∷ xs),
      length-header_of id (length (x ∷ xs)),
    )

frame_lem :
    (id : ℕ) (payload back : List ℕ)
    → length payload < 2 ^ 32
    → (frame id payload ≡ header_of id (length payload) ++ payload)
      × (frame id payload ++ back ≡ header_of id (length payload) ++ (payload ++ back))
unfolding frame
frame_lem id payload back h =
    let e : length payload % 2 ^ 32 ≡ length payload = omega arith in
    rw e (refl, append_assoc (header_of id (length payload)) payload back)

-- From wherever a frame with less than 2 ^ 32 bytes of payload stands in the buffer, `next` returns its packet, with the payload if that
-- is not empty, and leaves the pointer behind the frame.
pub next-frame :
    (front payload back : List ℕ) (id : ℕ)
    → length payload < 2 ^ 32
    → next (reader_at front (frame id payload ++ back))
      ≡ done (
        some (record { id = Ids.new id; payload = payload_of payload }),
        reader_at (front ++ frame id payload) back,
      )
next-frame front payload back id h =
    rw ((frame_lem id payload back h).1, (frame_lem id payload back h).0)
      (next-header front (payload ++ back) id (length payload) h
        ∙ next_payload-frame front payload back id)
