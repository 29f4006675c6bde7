-- ===== src/Packets/Structs/RoundTrip.antt =====
-- What a client packs, the server reads.
use peace.Base.{ℕ, ◌^◌, ◌<◌, ◌≡◌, refl, Bool, arith}
use peace.Base.{
  List, [], ◌∷◌, ◌++◌, append-nil, length, get_elem?-append, none, some, Exec, done, All,
}
use peace.Packets.Words.{to_le_bytes}
use peace.Packets.Ids.{
  PacketId, as_u8, osu_send_public_message, osu_send_private_message, osu_user_change_action,
}
use peace.Packets.Items.{Value, text, packet}
use peace.Packets.Items.Encoding.{encoding, encodings, text_encoding, frame, packet-frame, Fits}
use peace.Packets.Reader
use peace.Packets.Frames
use peace.Packets.Frames.Reading.{next-frame, payload_of}
use peace.Packets.Ids.RoundTrip.{new-as_u8}
use peace.Packets.Reader.{Read, PayloadReader, ◌>>=◌, pure, read_string, read_number, read_bool}
use peace.Packets.Reader.Reads.{Reads, at}
use peace.Packets.Structs.{
  BanchoMessage, read_bancho_message, ClientChangeAction, read_client_change_action,
}
use peace.Packets.Structs.{
  ScoreFrame, read_score_frame, score_frame_values, message_values, send_public_message,
}
use peace.Packets.Structs.{send_private_message, action_values, user_change_action}
use peace.Packets.Structs.Fields.{
  IsMessage, IsAction, IsScore, Reads-message, Reads-action, Reads-score_frame,
}

-- What `packet!` wrote is one packet with that id, and `m` reads `a` from its payload, all of it.
abbrev pub Delivers : {A : Type 0} → Exec (List ℕ) → PacketId → Read A → A → Type 0
Delivers e id m a =
    (buf payload : List ℕ) × (e ≡ done buf)
    × (Frames.next (Frames.new buf)
        ≡ done (
          some (record { id = id; payload = some payload }),
          record { buf = buf; ptr = length buf },
        ))
    × (m (Reader.new payload) ≡ done (some a, record { payload = payload; index = length payload }))

payload_of-pos : (xs : List ℕ) → 0 < length xs → payload_of xs ≡ some xs
payload_of-pos [] h = absurd (omega arith)
payload_of-pos (x ∷ xs) h = refl

next_whole :
    (id : PacketId) (xs : List ℕ)
    → 0 < length xs
    → length xs < 2 ^ 32
    → Frames.next (Frames.new (frame (as_u8 id) xs))
      ≡ done (
        some (record { id = id; payload = some xs }),
        record { buf = frame (as_u8 id) xs; ptr = length (frame (as_u8 id) xs) },
      )
next_whole id xs pos short = ground (
  arith,
  next-frame [] xs [] (as_u8 id) short,
  append-nil (frame (as_u8 id) xs),
  payload_of-pos xs pos,
  (new-as_u8 id).0,
)

Reads-whole :
    {A : Type 0} (m : Read A) (xs : List ℕ) (a : A)
    → Reads m xs a
    → m (Reader.new xs) ≡ done (some a, record { payload = xs; index = length xs })
Reads-whole m xs a h = rw append-nil at (h [] [])

packet-Delivers :
    {A : Type 0} (id : PacketId) (vs : List Value) (m : Read A) (a : A)
    → All Fits vs
    → 0 < length (encodings vs)
    → length (encodings vs) < 2 ^ 32
    → Reads m (encodings vs) a
    → Delivers (packet id vs) id m a
packet-Delivers id vs m a fits pos short reads = (
  frame (as_u8 id) (encodings vs),
  encodings vs,
  packet-frame id vs fits,
  next_whole id (encodings vs) pos short,
  Reads-whole m (encodings vs) a reads,
)

length-text : (s : List ℕ) (vs : List Value) → 0 < length (encodings (text s ∷ vs))
unfolding encodings encoding text_encoding
length-text [] vs = omega arith
length-text (c ∷ s) vs = omega arith

message-Fits : (m : BanchoMessage) → IsMessage m → All Fits (message_values m)
unfolding message_values
message-Fits m h = (h.sender.short, (h.content.short, (h.target.short, (tt, tt))))

message-length : (m : BanchoMessage) → 0 < length (encodings (message_values m))
unfolding message_values
message-length m = length-text m.sender _

action-Fits : (a : ClientChangeAction) → IsAction a → All Fits (action_values a)
unfolding action_values
action-Fits a h = (tt, (h.description.short, (h.beatmap_md5.short, (tt, (tt, (tt, tt))))))

action-length : (a : ClientChangeAction) → 0 < length (encodings (action_values a))
unfolding action_values encodings encoding to_le_bytes
action-length a = omega arith

-- A public or private chat message of non-empty UTF-8 texts and less than 2 ^ 32 bytes, packed by the client, is one packet of its
-- kind, and the server reads the same message from its payload, to the last byte.
pub send_message-read :
    (checks : Bool) (m : BanchoMessage)
    → IsMessage m
    → length (encodings (message_values m)) < 2 ^ 32
    → Delivers (send_public_message m) osu_send_public_message (read_bancho_message checks) m
      × Delivers (send_private_message m) osu_send_private_message (read_bancho_message checks) m
unfolding send_public_message send_private_message
send_message-read checks m h short = (
  packet-Delivers osu_send_public_message (message_values m) (read_bancho_message checks) m
      (message-Fits m h) (message-length m) short (Reads-message checks m h),
  packet-Delivers osu_send_private_message (message_values m) (read_bancho_message checks) m
      (message-Fits m h) (message-length m) short (Reads-message checks m h),
)

-- A change of a player's action with non-empty UTF-8 texts and less than 2 ^ 32 bytes, packed by the client, is one packet of its
-- kind, and the server reads the same action from its payload, to the last byte.
pub user_change_action-read :
    (checks : Bool) (a : ClientChangeAction)
    → IsAction a
    → length (encodings (action_values a)) < 2 ^ 32
    → Delivers (user_change_action a) osu_user_change_action (read_client_change_action checks) a
unfolding user_change_action
user_change_action-read checks a h short =
    packet-Delivers osu_user_change_action (action_values a) (read_client_change_action checks) a
      (action-Fits a h) (action-length a) short (Reads-action checks a h)

-- An empty text is not read back: the writer marks it by the byte 0, which the reader refuses, with
-- its index left at that byte.
pub read_string-empty :
    (checks : Bool) (front back : List ℕ)
    → read_string checks (at front (text_encoding [] ++ back)) ≡ done (none, at front (0 ∷ back))
unfolding read_string text_encoding
read_string-empty checks front back = rw (get_elem?-append front back 0)

-- A score frame whose fields fit their types is read back from the values that it is written as, to
-- the last byte.
pub score_frame-read :
    (f : ScoreFrame)
    → IsScore f
    → read_score_frame (Reader.new (encodings (score_frame_values f)))
      ≡ done (
        some f,
        record {
          payload = encodings (score_frame_values f);
          index = length (encodings (score_frame_values f));
        },
      )
score_frame-read f h = Reads-whole read_score_frame _ f (Reads-score_frame f h)
