-- ===== src/Packets/Server/Sessions.antt =====
-- Packets of lib/bancho-packets/src/server.rs about a session and its user.
use peace.Base.{ℕ, List, [], ◌∷◌, Exec}
use peace.Packets.Ids.{
  bancho_pong, bancho_version_update, bancho_get_attention, bancho_toggle_block_non_friend_dms,
  bancho_friends_list, bancho_protocol_version, bancho_monitor, bancho_silence_end,
  bancho_user_silenced, bancho_user_presence_single, bancho_user_presence_bundle,
  bancho_version_update_forced, bancho_switch_server, bancho_account_restricted,
  bancho_switch_tournament_server,
}
use peace.Packets.Ids
use peace.Packets.Items.{number, text, numbers, packet}

abbrev Text : Type 0
Text = List ℕ

unfoldable pub pong : Exec (List ℕ)
pong = packet bancho_pong []

unfoldable pub version_update : Exec (List ℕ)
version_update = packet bancho_version_update []

unfoldable pub get_attention : Exec (List ℕ)
get_attention = packet bancho_get_attention []

unfoldable pub toggle_block_non_friend_pm : Exec (List ℕ)
toggle_block_non_friend_pm = packet bancho_toggle_block_non_friend_dms []

unfoldable pub bancho_privileges : ℕ → Exec (List ℕ)
bancho_privileges privileges = packet Ids.bancho_privileges (number 4 privileges ∷ [])

unfoldable pub friends_list : List ℕ → Exec (List ℕ)
friends_list friends = packet bancho_friends_list (numbers 4 friends ∷ [])

unfoldable pub protocol_version : ℕ → Exec (List ℕ)
protocol_version version = packet bancho_protocol_version (number 4 version ∷ [])

unfoldable pub monitor : Exec (List ℕ)
monitor = packet bancho_monitor []

unfoldable pub bancho_restart : ℕ → Exec (List ℕ)
bancho_restart millis = packet Ids.bancho_restart (number 4 millis ∷ [])

unfoldable pub silence_end : ℕ → Exec (List ℕ)
silence_end duration = packet bancho_silence_end (number 4 duration ∷ [])

unfoldable pub user_silenced : ℕ → Exec (List ℕ)
user_silenced user_id = packet bancho_user_silenced (number 4 user_id ∷ [])

unfoldable pub user_presence_single : ℕ → Exec (List ℕ)
user_presence_single user_id = packet bancho_user_presence_single (number 4 user_id ∷ [])

unfoldable pub user_presence_bundle : List ℕ → Exec (List ℕ)
user_presence_bundle player_ids = packet bancho_user_presence_bundle (numbers 4 player_ids ∷ [])

unfoldable pub version_update_forced : Exec (List ℕ)
version_update_forced = packet bancho_version_update_forced []

unfoldable pub switch_server : ℕ → Exec (List ℕ)
switch_server time = packet bancho_switch_server (number 4 time ∷ [])

unfoldable pub account_restricted : Exec (List ℕ)
account_restricted = packet bancho_account_restricted []

unfoldable pub switch_tournament_server : Text → Exec (List ℕ)
switch_tournament_server ip = packet bancho_switch_tournament_server (text ip ∷ [])
