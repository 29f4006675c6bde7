-- ===== src/Packets/Items/Encoding.antt =====
-- What the writers append, as plain lists of bytes.
use peace.Base.{ℕ, ◌*◌, ◌%◌, ◌^◌, ◌≤◌, ◌<◌, if◌then◌else◌, arith}
use peace.Base.{
  ◌≡◌, refl, ap, ◌∙◌, List, [], ◌∷◌, ◌++◌, append_assoc, append-nil, length, length-append,
}
use peace.Base.{slice?, done, All}
use peace.Packets.Words.{to_le_bytes, numbers_bytes}
use peace.Packets.Words.Laws.{length-to_le_bytes}
use peace.Packets.Uleb.Encode.{groups, padded, length-groups, length-padded, u32_to_uleb128-groups}
use peace.Packets.Ids.{PacketId, as_u8}
use peace.Packets.Reader.Reads.{text_bytes}
use peace.Packets.Items.{
  Value, number, boolean, bytes, text, numbers, slice_to, write_text, write_value,
}
use peace.Packets.Items.{packet_len, write_values, new_empty_packet, packet}

-- A text is of less than 2 ^ 32 bytes. (A longer one would be written with its length cut off.)
abbrev pub Fits : Value → Type 0
Fits (text s) = length s < 2 ^ 32
Fits (number size v) = Unit {0}
Fits (boolean b) = Unit {0}
Fits (bytes xs) = Unit {0}
Fits (numbers size xs) = Unit {0}

unfoldable pub text_encoding : List ℕ → List ℕ
text_encoding [] = 0 ∷ []
text_encoding (c ∷ s) = text_bytes (c ∷ s)

unfoldable pub encoding : Value → List ℕ
encoding (number size v) = to_le_bytes size v
encoding (boolean b) = (if b then 1 else 0) ∷ []
encoding (bytes xs) = xs
encoding (text s) = text_encoding s
encoding (numbers size xs) = to_le_bytes 2 (length xs % 2 ^ 16) ++ numbers_bytes size xs

unfoldable pub encodings : List Value → List ℕ
encodings [] = []
encodings (v ∷ vs) = encoding v ++ encodings vs

slice_to-groups :
    (v : ℕ) → v < 2 ^ 32 → slice_to (padded 4 v) (length (groups 4 v)) ≡ done (groups 4 v)
unfolding slice?
slice_to-groups v h = ground (arith, u32_to_uleb128-groups v h, length-padded 4 v)

write_text-encoding :
    (s buf : List ℕ) → length s < 2 ^ 32 → write_text s buf ≡ done (buf ++ text_encoding s)
unfolding write_text text_encoding
write_text-encoding [] buf h = refl
write_text-encoding (c ∷ s) buf h =
    ground (arith, u32_to_uleb128-groups (length (c ∷ s)) h, slice_to-groups (length (c ∷ s)) h)

pub write_value-encoding :
    (v : Value) (buf : List ℕ) → Fits v → write_value v buf ≡ done (buf ++ encoding v)
unfolding write_value encoding
write_value-encoding (number size v) buf h = refl
write_value-encoding (boolean b) buf h = refl
write_value-encoding (bytes xs) buf h = refl
write_value-encoding (text s) buf h = write_text-encoding s buf h
write_value-encoding (numbers size xs) buf h = refl

-- Every list of values is written, behind what the buffer holds.
pub write_values-encodings :
    (vs : List Value) (buf : List ℕ)
    → All Fits vs
    → write_values vs buf ≡ done (buf ++ encodings vs)
unfolding write_values encodings
write_values-encodings [] buf h = rw append-nil
write_values-encodings (v ∷ vs) buf (hv, h) = rw (write_value-encoding v buf hv) (
    write_values-encodings vs (buf ++ encoding v) h
    ∙ ap done (append_assoc buf (encoding v) (encodings vs)))

-- A packet: its header, with the id and the payload's length, and the payload.
unfoldable pub frame : ℕ → List ℕ → List ℕ
frame id payload = id ∷ 0 ∷ 0 ∷ (to_le_bytes 4 (length payload % 2 ^ 32) ++ payload)

-- `packet!` returns on every list of values whose texts have less than 2 ^ 32 bytes, and what it
-- writes is the frame of their encodings.
pub packet-frame :
    (packet_id : PacketId) (vs : List Value)
    → All Fits vs
    → packet packet_id vs ≡ done (frame (as_u8 packet_id) (encodings vs))
unfolding packet frame to_le_bytes
packet-frame packet_id vs h =
    rw (write_values-encodings vs (new_empty_packet packet_id) h) (ground arith)

length-numbers_bytes : (n : ℕ) (xs : List ℕ) → length (numbers_bytes n xs) ≡ n * length xs
length-numbers_bytes n [] = omega arith
length-numbers_bytes n (x ∷ xs) = omega (
  arith,
  length-append (to_le_bytes n x) (numbers_bytes n xs),
  length-to_le_bytes n x,
  length-numbers_bytes n xs,
)

length-text_encoding : (s : List ℕ) → length (text_encoding s) ≤ packet_len (text s)
unfolding text_encoding packet_len
length-text_encoding [] = omega arith
length-text_encoding (c ∷ s) =
    ground
      (arith, length-groups 4 (length (c ∷ s)), length-append (groups 4 (length (c ∷ s))) (c ∷ s))

-- The capacity that `packet_len` reserves is enough for what is written, so a buffer never grows
-- on the way.
pub length-encoding-le : (v : Value) → length (encoding v) ≤ packet_len v
unfolding encoding packet_len
length-encoding-le (number size v) = omega (arith, length-to_le_bytes size v)
length-encoding-le (boolean b) = omega arith
length-encoding-le (bytes xs) = omega arith
length-encoding-le (text s) = length-text_encoding s
length-encoding-le (numbers size xs) = omega (
  arith,
  length-append (to_le_bytes 2 (length xs % 2 ^ 16)) (numbers_bytes size xs),
  length-to_le_bytes 2 (length xs % 2 ^ 16),
  length-numbers_bytes size xs,
)
