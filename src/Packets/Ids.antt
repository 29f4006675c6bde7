-- ===== src/Packets/Ids.antt =====
-- The packet ids: `PacketId` of lib/bancho-packets/src/lib.rs, with its numbers.
pub mod RoundTrip
use peace.Base.{ℕ, ◌==◌, Bool, true, false, if◌then◌else◌, Option, none, some, List, [], ◌∷◌}

pub data PacketId : Type 0 where
  osu_user_change_action osu_send_public_message osu_user_logout : PacketId
  osu_user_request_status_update osu_ping bancho_user_login_reply bancho_send_message : PacketId
  bancho_pong bancho_handle_irc_change_username bancho_handle_irc_quit bancho_user_stats : PacketId
  bancho_user_logout bancho_spectator_joined bancho_spectator_left bancho_spectate_frames : PacketId
  osu_spectate_start osu_spectate_stop osu_spectate_frames bancho_version_update : PacketId
  osu_error_report osu_spectate_cant bancho_spectator_cant_spectate bancho_get_attention : PacketId
  bancho_notification osu_send_private_message bancho_update_match bancho_new_match : PacketId
  bancho_disband_match osu_user_part_lobby osu_user_join_lobby osu_user_create_match : PacketId
  osu_user_join_match osu_user_part_match bancho_toggle_block_non_friend_dms : PacketId
  bancho_match_join_success bancho_match_join_fail osu_match_change_slot osu_user_match_ready :
      PacketId
  osu_match_lock osu_match_change_settings bancho_fellow_spectator_joined : PacketId
  bancho_fellow_spectator_left osu_match_start bancho_all_players_loaded bancho_match_start :
      PacketId
  osu_match_score_update bancho_match_score_update osu_match_complete : PacketId
  bancho_match_transfer_host osu_match_change_mods osu_match_load_complete : PacketId
  bancho_match_all_players_loaded osu_match_no_beatmap osu_match_not_ready osu_match_failed :
      PacketId
  bancho_match_player_failed bancho_match_complete osu_match_has_beatmap : PacketId
  osu_match_skip_request bancho_match_skip bancho_unauthorized osu_user_channel_join : PacketId
  bancho_channel_join_success bancho_channel_info bancho_channel_kick : PacketId
  bancho_channel_auto_join osu_beatmap_info_request bancho_beatmap_info_reply : PacketId
  osu_match_transfer_host bancho_privileges bancho_friends_list osu_user_friend_add : PacketId
  osu_user_friend_remove bancho_protocol_version bancho_main_menu_icon osu_match_change_team :
      PacketId
  osu_user_channel_part osu_user_receive_updates bancho_monitor bancho_match_player_skipped :
      PacketId
  osu_user_set_away_message bancho_user_presence osu_irc_only osu_user_stats_request : PacketId
  bancho_restart osu_match_invite bancho_match_invite bancho_channel_info_end : PacketId
  osu_match_change_password bancho_match_change_password bancho_silence_end : PacketId
  osu_tournament_match_info_request bancho_user_silenced bancho_user_presence_single : PacketId
  bancho_user_presence_bundle osu_user_presence_request osu_user_presence_request_all : PacketId
  osu_user_toggle_block_non_friend_dms bancho_user_dm_blocked bancho_target_is_silenced : PacketId
  bancho_version_update_forced bancho_switch_server bancho_account_restricted bancho_rtx : PacketId
  bancho_match_abort bancho_switch_tournament_server osu_tournament_join_match_channel : PacketId
  osu_tournament_leave_match_channel osu_unknown_packet : PacketId

-- `packet_id as u8`: the discriminants of the `#[repr(u8)]` enum.
unfoldable pub as_u8 : PacketId → ℕ
as_u8 osu_user_change_action = 0
as_u8 osu_send_public_message = 1
as_u8 osu_user_logout = 2
as_u8 osu_user_request_status_update = 3
as_u8 osu_ping = 4
as_u8 bancho_user_login_reply = 5
as_u8 bancho_send_message = 7
as_u8 bancho_pong = 8
as_u8 bancho_handle_irc_change_username = 9
as_u8 bancho_handle_irc_quit = 10
as_u8 bancho_user_stats = 11
as_u8 bancho_user_logout = 12
as_u8 bancho_spectator_joined = 13
as_u8 bancho_spectator_left = 14
as_u8 bancho_spectate_frames = 15
as_u8 osu_spectate_start = 16
as_u8 osu_spectate_stop = 17
as_u8 osu_spectate_frames = 18
as_u8 bancho_version_update = 19
as_u8 osu_error_report = 20
as_u8 osu_spectate_cant = 21
as_u8 bancho_spectator_cant_spectate = 22
as_u8 bancho_get_attention = 23
as_u8 bancho_notification = 24
as_u8 osu_send_private_message = 25
as_u8 bancho_update_match = 26
as_u8 bancho_new_match = 27
as_u8 bancho_disband_match = 28
as_u8 osu_user_part_lobby = 29
as_u8 osu_user_join_lobby = 30
as_u8 osu_user_create_match = 31
as_u8 osu_user_join_match = 32
as_u8 osu_user_part_match = 33
as_u8 bancho_toggle_block_non_friend_dms = 34
as_u8 bancho_match_join_success = 36
as_u8 bancho_match_join_fail = 37
as_u8 osu_match_change_slot = 38
as_u8 osu_user_match_ready = 39
as_u8 osu_match_lock = 40
as_u8 osu_match_change_settings = 41
as_u8 bancho_fellow_spectator_joined = 42
as_u8 bancho_fellow_spectator_left = 43
as_u8 osu_match_start = 44
as_u8 bancho_all_players_loaded = 45
as_u8 bancho_match_start = 46
as_u8 osu_match_score_update = 47
as_u8 bancho_match_score_update = 48
as_u8 osu_match_complete = 49
as_u8 bancho_match_transfer_host = 50
as_u8 osu_match_change_mods = 51
as_u8 osu_match_load_complete = 52
as_u8 bancho_match_all_players_loaded = 53
as_u8 osu_match_no_beatmap = 54
as_u8 osu_match_not_ready = 55
as_u8 osu_match_failed = 56
as_u8 bancho_match_player_failed = 57
as_u8 bancho_match_complete = 58
as_u8 osu_match_has_beatmap = 59
as_u8 osu_match_skip_request = 60
as_u8 bancho_match_skip = 61
as_u8 bancho_unauthorized = 62
as_u8 osu_user_channel_join = 63
as_u8 bancho_channel_join_success = 64
as_u8 bancho_channel_info = 65
as_u8 bancho_channel_kick = 66
as_u8 bancho_channel_auto_join = 67
as_u8 osu_beatmap_info_request = 68
as_u8 bancho_beatmap_info_reply = 69
as_u8 osu_match_transfer_host = 70
as_u8 bancho_privileges = 71
as_u8 bancho_friends_list = 72
as_u8 osu_user_friend_add = 73
as_u8 osu_user_friend_remove = 74
as_u8 bancho_protocol_version = 75
as_u8 bancho_main_menu_icon = 76
as_u8 osu_match_change_team = 77
as_u8 osu_user_channel_part = 78
as_u8 osu_user_receive_updates = 79
as_u8 bancho_monitor = 80
as_u8 bancho_match_player_skipped = 81
as_u8 osu_user_set_away_message = 82
as_u8 bancho_user_presence = 83
as_u8 osu_irc_only = 84
as_u8 osu_user_stats_request = 85
as_u8 bancho_restart = 86
as_u8 osu_match_invite = 87
as_u8 bancho_match_invite = 88
as_u8 bancho_channel_info_end = 89
as_u8 osu_match_change_password = 90
as_u8 bancho_match_change_password = 91
as_u8 bancho_silence_end = 92
as_u8 osu_tournament_match_info_request = 93
as_u8 bancho_user_silenced = 94
as_u8 bancho_user_presence_single = 95
as_u8 bancho_user_presence_bundle = 96
as_u8 osu_user_presence_request = 97
as_u8 osu_user_presence_request_all = 98
as_u8 osu_user_toggle_block_non_friend_dms = 99
as_u8 bancho_user_dm_blocked = 100
as_u8 bancho_target_is_silenced = 101
as_u8 bancho_version_update_forced = 102
as_u8 bancho_switch_server = 103
as_u8 bancho_account_restricted = 104
as_u8 bancho_rtx = 105
as_u8 bancho_match_abort = 106
as_u8 bancho_switch_tournament_server = 107
as_u8 osu_tournament_join_match_channel = 108
as_u8 osu_tournament_leave_match_channel = 109
as_u8 osu_unknown_packet = 255

-- Every variant, in the order of the declaration.
unfoldable pub variants : List PacketId
variants =
    osu_user_change_action ∷ osu_send_public_message ∷ osu_user_logout
    ∷ osu_user_request_status_update ∷ osu_ping ∷ bancho_user_login_reply ∷ bancho_send_message
    ∷ bancho_pong ∷ bancho_handle_irc_change_username ∷ bancho_handle_irc_quit ∷ bancho_user_stats
    ∷ bancho_user_logout ∷ bancho_spectator_joined ∷ bancho_spectator_left ∷ bancho_spectate_frames
    ∷ osu_spectate_start ∷ osu_spectate_stop ∷ osu_spectate_frames ∷ bancho_version_update
    ∷ osu_error_report ∷ osu_spectate_cant ∷ bancho_spectator_cant_spectate ∷ bancho_get_attention
    ∷ bancho_notification ∷ osu_send_private_message ∷ bancho_update_match ∷ bancho_new_match
    ∷ bancho_disband_match ∷ osu_user_part_lobby ∷ osu_user_join_lobby ∷ osu_user_create_match
    ∷ osu_user_join_match ∷ osu_user_part_match ∷ bancho_toggle_block_non_friend_dms
    ∷ bancho_match_join_success ∷ bancho_match_join_fail ∷ osu_match_change_slot
    ∷ osu_user_match_ready ∷ osu_match_lock ∷ osu_match_change_settings
    ∷ bancho_fellow_spectator_joined ∷ bancho_fellow_spectator_left ∷ osu_match_start
    ∷ bancho_all_players_loaded ∷ bancho_match_start ∷ osu_match_score_update
    ∷ bancho_match_score_update ∷ osu_match_complete ∷ bancho_match_transfer_host
    ∷ osu_match_change_mods ∷ osu_match_load_complete ∷ bancho_match_all_players_loaded
    ∷ osu_match_no_beatmap ∷ osu_match_not_ready ∷ osu_match_failed ∷ bancho_match_player_failed
    ∷ bancho_match_complete ∷ osu_match_has_beatmap ∷ osu_match_skip_request ∷ bancho_match_skip
    ∷ bancho_unauthorized ∷ osu_user_channel_join ∷ bancho_channel_join_success
    ∷ bancho_channel_info ∷ bancho_channel_kick ∷ bancho_channel_auto_join
    ∷ osu_beatmap_info_request ∷ bancho_beatmap_info_reply ∷ osu_match_transfer_host
    ∷ bancho_privileges ∷ bancho_friends_list ∷ osu_user_friend_add ∷ osu_user_friend_remove
    ∷ bancho_protocol_version ∷ bancho_main_menu_icon ∷ osu_match_change_team
    ∷ osu_user_channel_part ∷ osu_user_receive_updates ∷ bancho_monitor
    ∷ bancho_match_player_skipped ∷ osu_user_set_away_message ∷ bancho_user_presence ∷ osu_irc_only
    ∷ osu_user_stats_request ∷ bancho_restart ∷ osu_match_invite ∷ bancho_match_invite
    ∷ bancho_channel_info_end ∷ osu_match_change_password ∷ bancho_match_change_password
    ∷ bancho_silence_end ∷ osu_tournament_match_info_request ∷ bancho_user_silenced
    ∷ bancho_user_presence_single ∷ bancho_user_presence_bundle ∷ osu_user_presence_request
    ∷ osu_user_presence_request_all ∷ osu_user_toggle_block_non_friend_dms ∷ bancho_user_dm_blocked
    ∷ bancho_target_is_silenced ∷ bancho_version_update_forced ∷ bancho_switch_server
    ∷ bancho_account_restricted ∷ bancho_rtx ∷ bancho_match_abort ∷ bancho_switch_tournament_server
    ∷ osu_tournament_join_match_channel ∷ osu_tournament_leave_match_channel ∷ osu_unknown_packet
    ∷ []

unfoldable pub find_id : ℕ → List PacketId → Option PacketId
find_id value [] = none
find_id value (id ∷ ids) = if as_u8 id == value then some id else find_id value ids

-- `PacketId::try_from`, which the derive of `Primitive` writes: the variant with that number.
unfoldable pub try_from : ℕ → Option PacketId
unfolding variants find_id as_u8
try_from value = find_id value variants

-- `unwrap_or_default`: the default is `OSU_UNKNOWN_PACKET`.
abbrev pub or_unknown : Option PacketId → PacketId
or_unknown none = osu_unknown_packet
or_unknown (some id) = id

-- `PacketId::new`
unfoldable pub new : ℕ → PacketId
unfolding try_from
new value = or_unknown (try_from value)
