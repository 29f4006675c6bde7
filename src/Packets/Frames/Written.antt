-- ===== src/Packets/Frames/Written.antt =====
-- lib/bancho-packets/src/lib.rs: `PacketReader` on what `packet!` writes.
use peace.Base.{ℕ, ◌<◌, ◌^◌, ◌≡◌, some, List, [], length, done, All, append-nil}
use peace.Packets.Ids.{PacketId, as_u8}
use peace.Packets.Ids.RoundTrip.{new-as_u8}
use peace.Packets.Items.{Value, packet}
use peace.Packets.Items.Encoding.{Fits, frame, encodings, packet-frame}
use peace.Packets.Frames.{new, next}
use peace.Packets.Frames.Reading.{payload_of, next-frame}

-- Whatever packet `packet!` writes, of texts and a payload of less than 2 ^ 32 bytes, is read as one
-- packet with the same id and with the encodings of its values as the payload, and nothing is left
-- behind it.
pub packet-next :
    (id : PacketId) (vs : List Value)
    → All Fits vs
    → length (encodings vs) < 2 ^ 32
    → (buf : List ℕ) × (packet id vs ≡ done buf)
      × (next (new buf)
          ≡ done (
            some (record { id = id; payload = payload_of (encodings vs) }),
            record { buf = buf; ptr = length buf },
          ))
packet-next id vs fits short =
    let buf = frame (as_u8 id) (encodings vs) in
    (
      buf,
      packet-frame id vs fits,
      rw ((new-as_u8 id).0, append-nil) at (next-frame [] (encodings vs) [] (as_u8 id) short),
    )
