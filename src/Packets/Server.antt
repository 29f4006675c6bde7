-- ===== src/Packets/Server.antt =====
-- lib/bancho-packets/src/server.rs: the packets that the server sends, those whose fields are not
-- written one after the other as they are. The others are in the child modules.
pub mod Channels
pub mod Matches
pub mod Sessions
pub mod Login
pub mod Passwords
use peace.Base.{ℕ, zero, suc, ◌+◌, ◌-◌, ◌*◌, ◌/◌, ◌%◌, ◌^◌, ltb, Bool, true, false, if◌then◌else◌}
use peace.Base.{Option, none, some, List, [], ◌∷◌, ◌++◌, Exec, done, panic, ◌>>=◌}
use peace.Packets.Ids.{
  PacketId, bancho_user_login_reply, bancho_handle_irc_change_username, bancho_user_stats,
}
use peace.Packets.Ids.{
  bancho_user_logout, bancho_update_match, bancho_new_match, bancho_match_join_success,
}
use peace.Packets.Ids.{bancho_match_start, bancho_match_score_update, bancho_main_menu_icon}
use peace.Packets.Ids.{bancho_user_presence, bancho_user_dm_blocked}
use peace.Packets.Items.{Value, number, boolean, bytes, text, numbers, write_value, packet}
use peace.Packets.Structs.{ScoreFrame, score_frame_values}

abbrev pub Text : Type 0
Text = List ℕ

-- `LoginFailedReason`, with the bits of its `i32`
pub data LoginFailedReason : Type 0 where
  invalid_credentials : LoginFailedReason
  outdated_client : LoginFailedReason
  user_banned : LoginFailedReason
  multiaccount_detected : LoginFailedReason
  server_error : LoginFailedReason
  cutting_edge_multiplayer : LoginFailedReason
  account_password_rest : LoginFailedReason
  verification_required : LoginFailedReason

-- `reason as i32`
unfoldable pub as_i32 : LoginFailedReason → ℕ
as_i32 invalid_credentials = 2 ^ 32 - 1
as_i32 outdated_client = 2 ^ 32 - 2
as_i32 user_banned = 2 ^ 32 - 3
as_i32 multiaccount_detected = 2 ^ 32 - 4
as_i32 server_error = 2 ^ 32 - 5
as_i32 cutting_edge_multiplayer = 2 ^ 32 - 6
as_i32 account_password_rest = 2 ^ 32 - 7
as_i32 verification_required = 2 ^ 32 - 8

pub data LoginResult : Type 0 where
  success : ℕ → LoginResult
  failed : LoginFailedReason → LoginResult

-- `write_into_buf` of `LoginResult` writes this.
unfoldable pub login_value : LoginResult → Value
login_value (success user_id) = number 4 user_id
login_value (failed reason) = number 4 (as_i32 reason)

unfoldable pub login_reply : LoginResult → Exec (List ℕ)
login_reply login_result = packet bancho_user_login_reply (login_value login_result ∷ [])

unfoldable pub change_username : Text → Text → Exec (List ℕ)
change_username username_old username_new =
    packet bancho_handle_irc_change_username
      (text (username_old ++ (62 ∷ 62 ∷ 62 ∷ 62 ∷ []) ++ username_new) ∷ [])

pub record UserStats : Type 0 where
  pub user_id : ℕ
  pub online_status : ℕ
  pub description : Text
  pub beatmap_md5 : Text
  pub mods : ℕ
  pub mode : ℕ
  pub beatmap_id : ℕ
  pub ranked_score : ℕ
  pub accuracy : ℕ
  pub playcount : ℕ
  pub total_score : ℕ
  pub rank : ℕ
  pub pp : ℕ

-- `hundredth` is the division of an `f32` by `100f32`, on the bits of the float.
unfoldable pub user_stats : (ℕ → ℕ) → UserStats → Exec (List ℕ)
user_stats hundredth s = packet bancho_user_stats (
    number 4 s.user_id
    ∷ number 1 s.online_status
    ∷ text s.description
    ∷ text s.beatmap_md5
    ∷ number 4 s.mods
    ∷ number 1 s.mode
    ∷ number 4 s.beatmap_id
    ∷ number 8 s.ranked_score
    ∷ number 4 (hundredth s.accuracy)
    ∷ number 4 s.playcount
    ∷ number 8 s.total_score
    ∷ number 4 s.rank
    ∷ number 2 s.pp
    ∷ [])

unfoldable pub user_logout : ℕ → Exec (List ℕ)
user_logout user_id = packet bancho_user_logout (number 4 user_id ∷ number 1 0 ∷ [])

pub record MatchData : Type 0 where
  pub match_id : ℕ
  pub in_progress : Bool
  pub match_type : ℕ
  pub play_mods : ℕ
  pub match_name : Text
  pub password : Option Text
  pub beatmap_name : Text
  pub beatmap_id : ℕ
  pub beatmap_md5 : Text
  pub slot_status : List ℕ
  pub slot_teams : List ℕ
  pub slot_players : List ℕ
  pub host_player_id : ℕ
  pub match_game_mode : ℕ
  pub win_condition : ℕ
  pub team_type : ℕ
  pub freemods : Bool
  pub player_mods : List ℕ
  pub match_seed : ℕ

pub record MatchUpdate : Type 0 where
  pub match_data : MatchData
  pub send_password : Bool

-- `raw_password`
abbrev pub raw_password : Option Text → Bool → Exec (List ℕ)
raw_password none send_password = done (0 ∷ [])
raw_password (some password) send_password =
    if send_password then write_value (text password) [] else done (11 ∷ 0 ∷ [])

-- `write_into_buf` of `MatchUpdate` writes these, where `raw_password` returns.
unfoldable pub match_values : MatchUpdate → Exec (List Value)
match_values update = do
  let d = update.match_data
  raw ← raw_password d.password update.send_password
  done (
      number 2 (d.match_id % 2 ^ 16)
      ∷ boolean d.in_progress
      ∷ number 1 d.match_type
      ∷ number 4 d.play_mods
      ∷ text d.match_name
      ∷ bytes raw
      ∷ text d.beatmap_name
      ∷ number 4 d.beatmap_id
      ∷ text d.beatmap_md5
      ∷ bytes d.slot_status
      ∷ bytes d.slot_teams
      ∷ numbers 4 d.slot_players
      ∷ number 4 d.host_player_id
      ∷ number 1 d.match_game_mode
      ∷ number 1 d.win_condition
      ∷ number 1 d.team_type
      ∷ boolean d.freemods
      ∷ numbers 4 d.player_mods
      ∷ number 4 d.match_seed
      ∷ [])

abbrev pub match_packet : PacketId → MatchUpdate → Exec (List ℕ)
match_packet id update = do vs ← match_values update; packet id vs

unfoldable pub update_match : MatchData → Exec (List ℕ)
update_match match_data =
    match_packet bancho_update_match (record { match_data = match_data; send_password = false })

-- `MatchData` is written with its password.
unfoldable pub new_match : MatchData → Exec (List ℕ)
new_match match_data =
    match_packet bancho_new_match (record { match_data = match_data; send_password = true })

unfoldable pub match_join_success : MatchData → Exec (List ℕ)
match_join_success match_data =
    match_packet bancho_match_join_success
      (record { match_data = match_data; send_password = true })

unfoldable pub match_start : MatchData → Exec (List ℕ)
match_start match_data =
    match_packet bancho_match_start (record { match_data = match_data; send_password = true })

unfoldable pub match_score_update : ScoreFrame → Exec (List ℕ)
match_score_update scoreframe = packet bancho_match_score_update (score_frame_values scoreframe)

unfoldable pub main_menu_icon : Text → Text → Exec (List ℕ)
main_menu_icon image_url link_url =
    packet bancho_main_menu_icon (text (image_url ++ (124 ∷ []) ++ link_url) ∷ [])

pub record UserPresence : Type 0 where
  pub user_id : ℕ
  pub username : Text
  pub utc_offset : ℕ
  pub country_code : ℕ
  pub bancho_priv : ℕ
  pub longitude : ℕ
  pub latitude : ℕ
  pub rank : ℕ

-- `self.utc_offset + 24` of a `u8`: the sum panics in a build with overflow checks, and wraps around
-- in one without.
unfoldable pub user_presence : Bool → UserPresence → Exec (List ℕ)
user_presence checks p =
    if ltb 255 (p.utc_offset + 24) then (if checks then panic else written) else written
  where
    written : Exec (List ℕ)
    written = packet bancho_user_presence (
        number 4 p.user_id
        ∷ text p.username
        ∷ number 1 ((p.utc_offset + 24) % 256)
        ∷ number 1 p.country_code
        ∷ number 1 (p.bancho_priv % 256)
        ∷ number 4 p.longitude
        ∷ number 4 p.latitude
        ∷ number 4 p.rank
        ∷ [])

unfoldable pub user_dm_blocked : Text → Exec (List ℕ)
user_dm_blocked target =
    packet bancho_user_dm_blocked (text [] ∷ text [] ∷ text target ∷ number 4 0 ∷ [])

-- The code names `BANCHO_USER_DM_BLOCKED` here too.
unfoldable pub target_silenced : Text → Exec (List ℕ)
target_silenced target =
    packet bancho_user_dm_blocked (text [] ∷ text [] ∷ text target ∷ number 4 0 ∷ [])
