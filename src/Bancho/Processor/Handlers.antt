-- ===== src/Bancho/Processor/Handlers.antt =====
-- core/services/bancho/src/services/bancho/{service,packet_processor}.rs: one handler for each packet
-- that is implemented, and the choice between them.
use peace.BanchoState.Enums.{no_presences, filter_val, filter_from_i32}
use peace.BanchoState.Queries.{ok, err, panicked, RawUserQuery, raw_from}
use peace.BanchoState.Service.{Env}
use peace.BanchoState.Service.Presences.{
  batch_send_presences, batch_send_user_stats_packet, send_all_presences, send_user_stats_packet,
}
use peace.BanchoState.Service.Calls.{
  UpdateUserBanchoStatusRequest, update_user_bancho_status, update_presence_filter,
  delete_user_session,
}
use peace.Bancho.Batch.{completed, failed_with}
use peace.Base.{ℕ, suc, if◌then◌else◌, Bool, Option, none, some, List, map}
use peace.Base.{Exec, done, panic}
use peace.Base.Keys.{text_eq}
use peace.Packets.Ids.{PacketId}
use peace.Packets.Ids
use peace.Packets.Frames.{Packet}
use peace.Packets.Reader.{read_string, read_number, read_number_array}
use peace.Packets.Structs.{read_bancho_message, ClientChangeAction, read_client_change_action}
use peace.Users.{by_user_id, by_username}
use peace.Bancho.Processor.{
  unhandled_packet, bancho_service_error, to_channel, to_user, ChatService, World, HandledPacket,
  read_payload, spectator, multiplayer, with_payload, after_state, after_chat,
}

module _ {C : Type 0} (env : Env) (checks : Bool) (generate : ℕ → ℕ) (chat : ChatService C) where
  -- The id of the next message of the notify queue is taken.
  abbrev pub take_id : World C → World C
  take_id w = record w { messages = suc w.messages }

  unfoldable pub send_public_message :
      World C → ℕ → Option (List ℕ) → Exec (World C × HandledPacket)
  unfolding read_payload
  send_public_message w user_id payload =
      with_payload w (read_payload (read_bancho_message checks) payload) λ m.
        if text_eq.beq m.target spectator
        then panic
        else if text_eq.beq m.target multiplayer
        then panic
        else after_chat w
            (chat.send_message w.chat (by_user_id user_id) m.content (to_channel m.target))

  unfoldable pub send_private_message :
      World C → ℕ → Option (List ℕ) → Exec (World C × HandledPacket)
  unfolding read_payload
  send_private_message w user_id payload =
      with_payload w (read_payload (read_bancho_message checks) payload) λ m.
        after_chat w
          (chat.send_message w.chat (by_user_id user_id) m.content (to_user (by_username m.target)))

  unfoldable pub user_channel_join : World C → ℕ → Option (List ℕ) → Exec (World C × HandledPacket)
  unfolding read_payload
  user_channel_join w user_id payload =
      with_payload w (read_payload (read_string checks) payload)
        λ channel_name. after_chat w (chat.join_channel w.chat channel_name (by_user_id user_id))

  unfoldable pub user_channel_part : World C → ℕ → Option (List ℕ) → Exec (World C × HandledPacket)
  unfolding read_payload
  user_channel_part w user_id payload =
      with_payload w (read_payload (read_string checks) payload)
        λ channel_name. after_chat w (chat.leave_channel w.chat channel_name (by_user_id user_id))

  -- `UserQuery::UserId(user_id).into()`
  abbrev pub user_query : ℕ → RawUserQuery
  user_query user_id = raw_from env.ulids (by_user_id user_id)

  -- `request_status_update`
  unfoldable pub user_request_status_update : World C → ℕ → Exec (World C × HandledPacket)
  unfolding after_state
  user_request_status_update w user_id =
      let query = some (user_query user_id) in
      after_state w (send_user_stats_packet env w.bancho_state query query)

  -- `presence_request_all`
  unfoldable pub user_presence_request_all : World C → ℕ → Exec (World C × HandledPacket)
  unfolding after_state
  user_presence_request_all w user_id =
      after_state w (send_all_presences env w.bancho_state (some (user_query user_id)))

  -- `request_stats`
  unfoldable pub user_stats_request : World C → ℕ → Option (List ℕ) → Exec (World C × HandledPacket)
  unfolding read_payload after_state
  user_stats_request w user_id payload =
      with_payload w (read_payload (read_number_array 4) payload) λ request_users. after_state w (
        batch_send_user_stats_packet env w.bancho_state (map user_query request_users)
          (some (user_query user_id)))

  abbrev pub action_request : ℕ → ClientChangeAction → UpdateUserBanchoStatusRequest
  action_request user_id a = record {
    user_query = some (user_query user_id);
    online_status = a.online_status;
    description = a.description;
    beatmap_md5 = a.beatmap_md5;
    mods = a.mods;
    mode = a.mode;
    beatmap_id = a.beatmap_id;
  }

  -- `change_action`
  unfoldable pub user_change_action : World C → ℕ → Option (List ℕ) → Exec (World C × HandledPacket)
  unfolding read_payload after_state
  user_change_action w user_id payload =
      with_payload w (read_payload (read_client_change_action checks) payload) λ a.
        after_state (take_id w) (
          update_user_bancho_status env w.bancho_state (generate w.messages)
            (action_request user_id a))

  abbrev pub known_filter : ℕ → ℕ
  known_filter n = elim (filter_from_i32 n) [
    | none ↦ filter_val no_presences
    | some filter ↦ filter_val filter
  ]

  -- `receive_updates`
  unfoldable pub user_receive_updates :
      World C → ℕ → Option (List ℕ) → Exec (World C × HandledPacket)
  unfolding read_payload after_state
  user_receive_updates w user_id payload =
      with_payload w (read_payload (read_number 4) payload) λ n.
        after_state w
          (update_presence_filter env w.bancho_state (some (user_query user_id)) (known_filter n))

  -- `toggle_block_non_friend_dms`, which does nothing with what it is told.
  unfoldable pub user_toggle_block_non_friend_dms :
      World C → Option (List ℕ) → Exec (World C × HandledPacket)
  unfolding read_payload
  user_toggle_block_non_friend_dms w payload =
      with_payload w (read_payload (read_number 4) payload) λ n. done (w, completed none)

  -- The error of the chat service's `logout` is dropped.
  abbrev pub logged_out : World C → Exec (C × Option ℕ) → Exec (World C × HandledPacket)
  logged_out w panic = panic
  logged_out w (done (c, e)) = done (record w { chat = c }, completed none)

  unfoldable pub user_logout : World C → ℕ → Exec (World C × HandledPacket)
  user_logout w user_id =
      let query = by_user_id user_id in
      let (st, deleted) = delete_user_session env w.bancho_state (generate w.messages) query in
      let w' = record (take_id w) { bancho_state = st } in
      elim deleted [
        | panicked ↦ panic
        | err e ↦ done (w', failed_with (bancho_service_error e))
        | ok answer ↦ logged_out w' (chat.logout w.chat query)
      ]

  -- `request_presence`
  unfoldable pub user_presence_request :
      World C → ℕ → Option (List ℕ) → Exec (World C × HandledPacket)
  unfolding read_payload after_state
  user_presence_request w user_id payload =
      with_payload w (read_payload (read_number_array 4) payload) λ request_users. after_state w (
        batch_send_presences env w.bancho_state (map user_query request_users)
          (some (user_query user_id)))

  -- `process_bancho_packet`, by the id of the packet: `todo!()` panics.
  unfoldable pub dispatch :
      World C → ℕ → PacketId → Option (List ℕ) → Exec (World C × HandledPacket)
  dispatch w user_id Ids.osu_ping payload = done (w, completed none)
  dispatch w user_id Ids.osu_send_public_message payload = send_public_message w user_id payload
  dispatch w user_id Ids.osu_send_private_message payload = send_private_message w user_id payload
  dispatch w user_id Ids.osu_user_channel_join payload = user_channel_join w user_id payload
  dispatch w user_id Ids.osu_user_channel_part payload = user_channel_part w user_id payload
  dispatch w user_id Ids.osu_user_request_status_update payload =
      user_request_status_update w user_id
  dispatch w user_id Ids.osu_user_presence_request_all payload = user_presence_request_all w user_id
  dispatch w user_id Ids.osu_user_stats_request payload = user_stats_request w user_id payload
  dispatch w user_id Ids.osu_user_change_action payload = user_change_action w user_id payload
  dispatch w user_id Ids.osu_user_receive_updates payload = user_receive_updates w user_id payload
  dispatch w user_id Ids.osu_user_toggle_block_non_friend_dms payload =
      user_toggle_block_non_friend_dms w payload
  dispatch w user_id Ids.osu_user_logout payload = user_logout w user_id
  dispatch w user_id Ids.osu_user_presence_request payload = user_presence_request w user_id payload
  dispatch w user_id Ids.osu_user_friend_add payload = panic
  dispatch w user_id Ids.osu_user_friend_remove payload = panic
  dispatch w user_id Ids.osu_user_set_away_message payload = panic
  dispatch w user_id Ids.osu_spectate_start payload = panic
  dispatch w user_id Ids.osu_spectate_stop payload = panic
  dispatch w user_id Ids.osu_spectate_cant payload = panic
  dispatch w user_id Ids.osu_spectate_frames payload = panic
  dispatch w user_id Ids.osu_user_part_lobby payload = panic
  dispatch w user_id Ids.osu_user_join_lobby payload = panic
  dispatch w user_id Ids.osu_user_part_match payload = panic
  dispatch w user_id Ids.osu_user_match_ready payload = panic
  dispatch w user_id Ids.osu_user_create_match payload = panic
  dispatch w user_id Ids.osu_user_join_match payload = panic
  dispatch w user_id Ids.osu_match_start payload = panic
  dispatch w user_id Ids.osu_match_complete payload = panic
  dispatch w user_id Ids.osu_match_load_complete payload = panic
  dispatch w user_id Ids.osu_match_no_beatmap payload = panic
  dispatch w user_id Ids.osu_match_not_ready payload = panic
  dispatch w user_id Ids.osu_match_failed payload = panic
  dispatch w user_id Ids.osu_match_has_beatmap payload = panic
  dispatch w user_id Ids.osu_match_skip_request payload = panic
  dispatch w user_id Ids.osu_match_change_team payload = panic
  dispatch w user_id Ids.osu_match_change_slot payload = panic
  dispatch w user_id Ids.osu_match_lock payload = panic
  dispatch w user_id Ids.osu_match_change_settings payload = panic
  dispatch w user_id Ids.osu_match_score_update payload = panic
  dispatch w user_id Ids.osu_match_change_mods payload = panic
  dispatch w user_id Ids.osu_match_transfer_host payload = panic
  dispatch w user_id Ids.osu_match_invite payload = panic
  dispatch w user_id Ids.osu_match_change_password payload = panic
  dispatch w user_id Ids.osu_tournament_match_info_request payload = panic
  dispatch w user_id Ids.osu_tournament_join_match_channel payload = panic
  dispatch w user_id Ids.osu_tournament_leave_match_channel payload = panic
  dispatch w user_id id payload = done (w, failed_with (unhandled_packet id))

  unfoldable pub process_bancho_packet : ℕ → World C → Packet → Exec (World C × HandledPacket)
  unfolding dispatch
  process_bancho_packet user_id w packet = dispatch w user_id packet.id packet.payload
