-- ===== src/Examples/Packets.antt =====
-- Runs of lib/bancho-packets on packets.
use peace.Packets.Utf8.{is_utf8}
use peace.Packets.Uleb.Encode.{groups}
use peace.Packets.Words.{to_le_bytes}
use peace.Base.{ℕ, ◌^◌, ◌<◌, ◌≡◌, refl, arith, true, false, some, none, List, [], ◌∷◌, length}
use peace.Base.{done}
use peace.Packets.Ids.{bancho_notification}
use peace.Packets.Ids.{osu_send_public_message, osu_send_private_message}
use peace.Packets.Server.{MatchData}
use peace.Packets.Server.Passwords.{IsMatch}
use peace.Packets.Items.{text, packet}
use peace.Packets.Items.Encoding.{encoding, encodings, text_encoding}
use peace.Packets.Frames
use peace.Packets.Frames.Written.{packet-next}
use peace.Packets.Frames.{Packet, PacketReader, next}
use peace.Packets.Frames.Reading.{payload_of}
use peace.Packets.Structs.{
  BanchoMessage, ClientChangeAction, ScoreFrame, message_values, action_values,
}
use peace.Packets.Structs.{send_public_message, send_private_message}
use peace.Packets.Structs.{read_bancho_message}
use peace.Packets.Structs.Fields.{IsText, IsMessage, IsAction, IsScore}
use peace.Packets.Structs.RoundTrip.{Delivers, send_message-read}

abbrev hello : List ℕ
hello = 104 ∷ 101 ∷ 108 ∷ 108 ∷ 111 ∷ []

hello-IsText : IsText hello
unfolding is_utf8
hello-IsText = record { utf8 = refl; nonempty = omega arith; short = omega arith }

abbrev three_bytes : PacketReader
three_bytes = record { buf = 4 ∷ 0 ∷ 0 ∷ []; ptr = 0 }

packet-next_example :
    (buf : List ℕ) × (packet bancho_notification (text hello ∷ []) ≡ done buf)
    × (next (Frames.new buf)
        ≡ done (
          some (record {
            id = bancho_notification;
            payload = payload_of (encodings (text hello ∷ []));
          }),
          record { buf = buf; ptr = length buf },
        ))
unfolding encodings encoding text_encoding groups
packet-next_example =
    packet-next bancho_notification (text hello ∷ []) (omega arith, tt) hello_packet_short
  where
    hello_packet_short : length (encodings (text hello ∷ [])) < 2 ^ 32
    hello_packet_short = omega arith

abbrev hello_message : BanchoMessage
hello_message = record { sender = hello; content = hello; target = hello; sender_id = 1009 }

hello-IsMessage : IsMessage hello_message
hello-IsMessage = record {
  sender = hello-IsText;
  content = hello-IsText;
  target = hello-IsText;
  sender_id = omega arith;
}

hello_short : length (encodings (message_values hello_message)) < 2 ^ 32
unfolding encodings encoding text_encoding message_values to_le_bytes groups
hello_short = omega arith

send_message-read_example :
    Delivers
      (send_public_message hello_message)
      osu_send_public_message
      (read_bancho_message true)
      hello_message
    × Delivers
        (send_private_message hello_message)
        osu_send_private_message
        (read_bancho_message true)
        hello_message
send_message-read_example = send_message-read true hello_message hello-IsMessage hello_short

abbrev pub an_action : ClientChangeAction
an_action = record {
  online_status = 2;
  description = hello;
  beatmap_md5 = hello;
  mods = 64;
  mode = 0;
  beatmap_id = 75;
}

pub action_short : length (encodings (action_values an_action)) < 2 ^ 32
unfolding encodings encoding text_encoding action_values to_le_bytes groups
action_short = omega arith

pub an_action-IsAction : IsAction an_action
an_action-IsAction = record {
  online_status = omega arith;
  description = hello-IsText;
  beatmap_md5 = hello-IsText;
  mods = omega arith;
  mode = omega arith;
  beatmap_id = omega arith;
}

abbrev a_frame : ScoreFrame
a_frame = record {
  timestamp = 1000;
  id = 1;
  n300 = 300;
  n100 = 10;
  n50 = 5;
  geki = 2;
  katu = 3;
  miss = 1;
  score = 1000000;
  combo = 200;
  max_combo = 250;
  perfect = false;
  hp = 180;
  tag_byte = 0;
  score_v2 = true;
}

a_frame-IsScore : IsScore a_frame
a_frame-IsScore = record {
  timestamp = omega arith;
  id = omega arith;
  n300 = omega arith;
  n100 = omega arith;
  n50 = omega arith;
  geki = omega arith;
  katu = omega arith;
  miss = omega arith;
  score = omega arith;
  combo = omega arith;
  max_combo = omega arith;
  hp = omega arith;
  tag_byte = omega arith;
}

abbrev a_match : MatchData
a_match = record {
  match_id = 1;
  in_progress = false;
  match_type = 0;
  play_mods = 0;
  match_name = hello;
  password = none;
  beatmap_name = hello;
  beatmap_id = 75;
  beatmap_md5 = hello;
  slot_status = 4 ∷ 1 ∷ [];
  slot_teams = 0 ∷ 0 ∷ [];
  slot_players = 1009 ∷ [];
  host_player_id = 1009;
  match_game_mode = 0;
  win_condition = 0;
  team_type = 0;
  freemods = false;
  player_mods = [];
  match_seed = 7;
}

a_match-IsMatch : IsMatch a_match
a_match-IsMatch = record {
  match_name = omega arith;
  beatmap_name = omega arith;
  beatmap_md5 = omega arith;
}
