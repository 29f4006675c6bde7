-- ===== src/Packets/Structs.antt =====
-- The structures of lib/bancho-packets/src/lib.rs with the derived `ReadPacket` and `WritePacket`,
-- and the client packets of client.rs that the server reads them from.
pub mod Fields
pub mod RoundTrip
use peace.Base.{ℕ, Bool, List, [], ◌∷◌, Exec}
use peace.Packets.Ids.{
  PacketId, osu_user_change_action, osu_send_public_message, osu_send_private_message,
}
use peace.Packets.Items.{Value, number, boolean, text, packet}
use peace.Packets.Reader.{Read, ◌>>=◌, pure, read_string, read_number, read_bool}

pub record BanchoMessage : Type 0 where
  pub sender : List ℕ
  pub content : List ℕ
  pub target : List ℕ
  pub sender_id : ℕ

unfoldable pub read_bancho_message : Bool → Read BanchoMessage
read_bancho_message checks = do
  sender ← read_string checks
  content ← read_string checks
  target ← read_string checks
  sender_id ← read_number 4
  pure (record { sender = sender; content = content; target = target; sender_id = sender_id })

pub record ClientChangeAction : Type 0 where
  pub online_status : ℕ
  pub description : List ℕ
  pub beatmap_md5 : List ℕ
  pub mods : ℕ
  pub mode : ℕ
  pub beatmap_id : ℕ

unfoldable pub read_client_change_action : Bool → Read ClientChangeAction
read_client_change_action checks = do
  online_status ← read_number 1
  description ← read_string checks
  beatmap_md5 ← read_string checks
  mods ← read_number 4
  mode ← read_number 1
  beatmap_id ← read_number 4
  pure (record {
    online_status = online_status;
    description = description;
    beatmap_md5 = beatmap_md5;
    mods = mods;
    mode = mode;
    beatmap_id = beatmap_id;
  })

pub record ScoreFrame : Type 0 where
  pub timestamp : ℕ
  pub id : ℕ
  pub n300 : ℕ
  pub n100 : ℕ
  pub n50 : ℕ
  pub geki : ℕ
  pub katu : ℕ
  pub miss : ℕ
  pub score : ℕ
  pub combo : ℕ
  pub max_combo : ℕ
  pub perfect : Bool
  pub hp : ℕ
  pub tag_byte : ℕ
  pub score_v2 : Bool

unfoldable pub read_score_frame : Read ScoreFrame
read_score_frame = do
  timestamp ← read_number 4
  id ← read_number 1
  n300 ← read_number 2
  n100 ← read_number 2
  n50 ← read_number 2
  geki ← read_number 2
  katu ← read_number 2
  miss ← read_number 2
  score ← read_number 4
  combo ← read_number 2
  max_combo ← read_number 2
  perfect ← read_bool
  hp ← read_number 1
  tag_byte ← read_number 1
  score_v2 ← read_bool
  pure (record {
    timestamp = timestamp;
    id = id;
    n300 = n300;
    n100 = n100;
    n50 = n50;
    geki = geki;
    katu = katu;
    miss = miss;
    score = score;
    combo = combo;
    max_combo = max_combo;
    perfect = perfect;
    hp = hp;
    tag_byte = tag_byte;
    score_v2 = score_v2;
  })

-- The derived `write_into_buf` of `ScoreFrame` writes these.
unfoldable pub score_frame_values : ScoreFrame → List Value
score_frame_values f =
    number 4 f.timestamp
    ∷ number 1 f.id
    ∷ number 2 f.n300
    ∷ number 2 f.n100
    ∷ number 2 f.n50
    ∷ number 2 f.geki
    ∷ number 2 f.katu
    ∷ number 2 f.miss
    ∷ number 4 f.score
    ∷ number 2 f.combo
    ∷ number 2 f.max_combo
    ∷ boolean f.perfect
    ∷ number 1 f.hp
    ∷ number 1 f.tag_byte
    ∷ boolean f.score_v2
    ∷ []

-- `client::SendPublicMessage`, `client::SendPrivateMessage` and `client::UserChangeAction`:
-- `pack`.
unfoldable pub message_values : BanchoMessage → List Value
message_values m = text m.sender ∷ text m.content ∷ text m.target ∷ number 4 m.sender_id ∷ []

pub send_public_message : BanchoMessage → Exec (List ℕ)
send_public_message m = packet osu_send_public_message (message_values m)

pub send_private_message : BanchoMessage → Exec (List ℕ)
send_private_message m = packet osu_send_private_message (message_values m)

unfoldable pub action_values : ClientChangeAction → List Value
action_values a =
    number 1 a.online_status
    ∷ text a.description
    ∷ text a.beatmap_md5
    ∷ number 4 a.mods
    ∷ number 1 a.mode
    ∷ number 4 a.beatmap_id
    ∷ []

pub user_change_action : ClientChangeAction → Exec (List ℕ)
user_change_action a = packet osu_user_change_action (action_values a)
