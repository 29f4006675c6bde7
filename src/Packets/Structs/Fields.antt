-- ===== src/Packets/Structs/Fields.antt =====
-- The structures are read, field by field, from the values that they are written as.
use peace.Base.{ℕ, ◌^◌, ◌<◌, ◌≡◌, refl, Bool, true, arith, if◌then◌else◌}
use peace.Base.{List, [], ◌∷◌, length}
use peace.Packets.Words.{to_le_bytes}
use peace.Packets.Utf8.{is_utf8}
use peace.Packets.Items.{Value, number, boolean, text}
use peace.Packets.Items.Encoding.{encoding, encodings, text_encoding}
use peace.Packets.Reader.{Read, ◌>>=◌, pure, read_string, read_number, read_bool}
use peace.Packets.Reader.Reads.{
  Reads, Reads-bind, Reads-pure, Reads-string, Reads-number, Reads-bool, text_bytes,
}
use peace.Packets.Structs.{
  BanchoMessage, read_bancho_message, ClientChangeAction, read_client_change_action,
}
use peace.Packets.Structs.{ScoreFrame, read_score_frame, score_frame_values, message_values}
use peace.Packets.Structs.{action_values}

-- A Rust `str` of at least one byte and less than 2 ^ 32.
pub record IsText (s : List ℕ) : Type 0 where
  pub utf8 : is_utf8 s ≡ true
  pub nonempty : 0 < length s
  pub short : length s < 2 ^ 32

text_encoding_lem : (s : List ℕ) → 0 < length s → text_encoding s ≡ text_bytes s
unfolding text_encoding
text_encoding_lem [] h = absurd (omega arith)
text_encoding_lem (c ∷ s) h = refl

-- One value is read, and the rest of the values by what follows.
Reads-text_then :
    {B : Type 0} (checks : Bool) (s : List ℕ) (f : List ℕ → Read B) (vs : List Value) (b : B)
    → IsText s
    → Reads (f s) (encodings vs) b
    → Reads (read_string checks >>= f) (encodings (text s ∷ vs)) b
unfolding encodings encoding
Reads-text_then checks s f vs b t h = rw (text_encoding_lem s t.nonempty) (
    Reads-bind (read_string checks) f (text_bytes s) (encodings vs) s b
      (Reads-string checks s t.short t.utf8) h)

Reads-number_then :
    {B : Type 0} (n v : ℕ) (f : ℕ → Read B) (vs : List Value) (b : B)
    → v < 256 ^ n
    → Reads (f v) (encodings vs) b
    → Reads (read_number n >>= f) (encodings (number n v ∷ vs)) b
unfolding encodings encoding
Reads-number_then n v f vs b hv h =
    Reads-bind (read_number n) f (to_le_bytes n v) (encodings vs) v b (Reads-number n v hv) h

Reads-bool_then :
    {B : Type 0} (v : Bool) (f : Bool → Read B) (vs : List Value) (b : B)
    → Reads (f v) (encodings vs) b
    → Reads (read_bool >>= f) (encodings (boolean v ∷ vs)) b
unfolding encodings encoding
Reads-bool_then v f vs b h =
    Reads-bind read_bool f ((if v then 1 else 0) ∷ []) (encodings vs) v b (Reads-bool v) h

Reads-end : {A : Type 0} (a : A) → Reads (pure a) (encodings []) a
unfolding encodings
Reads-end a = Reads-pure a

pub record IsMessage (m : BanchoMessage) : Type 0 where
  pub sender : IsText m.sender
  pub content : IsText m.content
  pub target : IsText m.target
  pub sender_id : m.sender_id < 2 ^ 32

pub Reads-message :
    (checks : Bool) (m : BanchoMessage)
    → IsMessage m
    → Reads (read_bancho_message checks) (encodings (message_values m)) m
unfolding read_bancho_message message_values
Reads-message checks m h = Reads-text_then checks m.sender _ _ m h.sender (
    Reads-text_then checks m.content _ _ m h.content (
      Reads-text_then checks m.target _ _ m h.target
        (Reads-number_then 4 m.sender_id _ _ m (omega (arith, h.sender_id)) (Reads-end m))))

pub record IsAction (a : ClientChangeAction) : Type 0 where
  pub online_status : a.online_status < 256
  pub description : IsText a.description
  pub beatmap_md5 : IsText a.beatmap_md5
  pub mods : a.mods < 2 ^ 32
  pub mode : a.mode < 256
  pub beatmap_id : a.beatmap_id < 2 ^ 32

pub Reads-action :
    (checks : Bool) (a : ClientChangeAction)
    → IsAction a
    → Reads (read_client_change_action checks) (encodings (action_values a)) a
unfolding read_client_change_action action_values
Reads-action checks a h =
    Reads-number_then 1 a.online_status _ _ a (omega (arith, h.online_status)) (
      Reads-text_then checks a.description _ _ a h.description (
        Reads-text_then checks a.beatmap_md5 _ _ a h.beatmap_md5 (
          Reads-number_then 4 a.mods _ _ a (omega (arith, h.mods)) (
            Reads-number_then 1 a.mode _ _ a (omega (arith, h.mode)) (
              Reads-number_then 4 a.beatmap_id _ _ a (omega (arith, h.beatmap_id))
                (Reads-end a))))))

-- The fields of a score frame fit their types.
pub record IsScore (f : ScoreFrame) : Type 0 where
  pub timestamp : f.timestamp < 2 ^ 32
  pub id : f.id < 256
  pub n300 : f.n300 < 2 ^ 16
  pub n100 : f.n100 < 2 ^ 16
  pub n50 : f.n50 < 2 ^ 16
  pub geki : f.geki < 2 ^ 16
  pub katu : f.katu < 2 ^ 16
  pub miss : f.miss < 2 ^ 16
  pub score : f.score < 2 ^ 32
  pub combo : f.combo < 2 ^ 16
  pub max_combo : f.max_combo < 2 ^ 16
  pub hp : f.hp < 256
  pub tag_byte : f.tag_byte < 256

pub Reads-score_frame :
    (f : ScoreFrame) → IsScore f → Reads read_score_frame (encodings (score_frame_values f)) f
unfolding read_score_frame score_frame_values
Reads-score_frame f h = Reads-number_then 4 f.timestamp _ _ f h.timestamp (
    Reads-number_then 1 f.id _ _ f h.id (
      Reads-number_then 2 f.n300 _ _ f h.n300 (
        Reads-number_then 2 f.n100 _ _ f h.n100 (
          Reads-number_then 2 f.n50 _ _ f h.n50 (
            Reads-number_then 2 f.geki _ _ f h.geki (
              Reads-number_then 2 f.katu _ _ f h.katu (
                Reads-number_then 2 f.miss _ _ f h.miss (
                  Reads-number_then 4 f.score _ _ f h.score (
                    Reads-number_then 2 f.combo _ _ f h.combo (
                      Reads-number_then 2 f.max_combo _ _ f h.max_combo (
                        Reads-bool_then f.perfect _ _ f (
                          Reads-number_then 1 f.hp _ _ f h.hp (
                            Reads-number_then 1 f.tag_byte _ _ f h.tag_byte
                              (Reads-bool_then f.score_v2 _ _ f (Reads-end f)))))))))))))))
