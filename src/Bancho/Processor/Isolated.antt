-- ===== src/Bancho/Processor/Isolated.antt =====
-- core/services/bancho/src/services/bancho/service.rs: a packet of a client changes no session but
-- the one of its user, for the whole of `process_bancho_packet`.
use peace.BanchoState.Queries.{Reply, ok, err, panicked, Outcome-cases, ExecSuccess}
use peace.BanchoState.Info.{user_presence_packet, user_stats_packet}
use peace.BanchoState.Service.{Env, State}
use peace.BanchoState.Service.Presences.{batch_send_presences, batch_send_user_stats_packet}
use peace.BanchoState.Service.Calls.{delete_user_session}
use peace.Bancho.Batch.{completed, failed_with}
use peace.Bancho.Processor.{
  ProcessBanchoPacketError, unhandled_packet, ChatService, World, HandledPacket, read_payload,
  with_payload, after_state, after_chat, spectator, multiplayer,
}
use peace.Bancho.Processor.Handlers.{
  send_public_message, send_private_message, user_channel_join, user_channel_part,
  user_request_status_update, user_presence_request_all, user_stats_request, user_change_action,
  user_receive_updates, user_toggle_block_non_friend_dms, user_logout, user_presence_request,
  user_query, take_id, action_request, known_filter, dispatch, process_bancho_packet,
}
use peace.Bancho.Processor.Isolation.{
  Keeps, batch_send-Keeps, send_all_presences-Keeps, send_user_stats_packet-Keeps,
  update_user_bancho_status-Keeps, update_presence_filter-Keeps, delete_user_session-Keeps,
}
use peace.Base.{
  ℕ, Bool, true, false, if◌then◌else◌, ◌≡◌, ◌≢◌, ◌⊎◌, inl, inr, refl, arith, Option, none, some,
  List, map, Exec, done, panic, Exec-cases,
}
use peace.Base.Keys.{nat_eq, text_eq}
use peace.Base.HashMap.{get}
use peace.Packets.Ids.{PacketId}
use peace.Packets.Ids
use peace.Packets.Frames.{Packet}
use peace.Packets.Reader.{read_string, read_number, read_number_array}
use peace.Packets.Structs.{read_bancho_message, read_client_change_action}
use peace.Users.{by_user_id}

module _ {C : Type 0} where
  -- What a handler returns, if it does, has only the session of the user changed.
  abbrev Kept : ℕ → World C → Exec (World C × HandledPacket) → Type 0
  Kept u w r =
      (w' : World C) (handled : HandledPacket)
      → r ≡ done (w', handled)
      → Keeps u w.bancho_state w'.bancho_state

  with_payload-Kept :
      {A : Type 0} (u : ℕ) (w : World C) (read : Exec (A ⊎ ProcessBanchoPacketError))
      (handle : A → Exec (World C × HandledPacket))
      → ((a : A) → Kept u w (handle a))
      → Kept u w (with_payload w read handle)
  with_payload-Kept u w panic handle kept w' handled h b k = absurd (ground arith)
  with_payload-Kept u w (done (inr e)) handle kept w' handled h b k = ground arith
  with_payload-Kept u w (done (inl a)) handle kept w' handled h b k = kept a w' handled h b k

  after_state-Kept :
      (u : ℕ) (w : World C) (r : State × Reply ExecSuccess)
      → Keeps u w.bancho_state r.0
      → Kept u w (after_state w r)
  unfolding after_state
  after_state-Kept u w (st, ok answer) keeps w' handled h b k = ground (arith, keeps b k)
  after_state-Kept u w (st, err e) keeps w' handled h b k = ground (arith, keeps b k)
  after_state-Kept u w (st, panicked) keeps w' handled h b k = absurd (ground arith)

  after_chat-Kept : (u : ℕ) (w : World C) (r : Exec (C × Option ℕ)) → Kept u w (after_chat w r)
  after_chat-Kept u w panic w' handled h b k = absurd (ground arith)
  after_chat-Kept u w (done (c, none)) w' handled h b k = ground arith
  after_chat-Kept u w (done (c, some e)) w' handled h b k = ground arith

  unchanged-Kept : (u : ℕ) (w : World C) (x : HandledPacket) → Kept u w (done (w, x))
  unchanged-Kept u w x w' handled h b k = ground arith

  panic-Kept : (u : ℕ) (w : World C) → Kept u w panic
  panic-Kept u w w' handled h b k = absurd (ground arith)

  if-Kept :
      (u : ℕ) (w : World C) (t : Bool) (x y : Exec (World C × HandledPacket))
      → Kept u w x
      → Kept u w y
      → Kept u w (if t then x else y)
  if-Kept u w true x y kx ky = kx
  if-Kept u w false x y kx ky = ky

module _ {C : Type 0} (env : Env) (checks : Bool) (generate : ℕ → ℕ) (chat : ChatService C) where
  send_public_message-Kept :
      (u : ℕ) (w : World C) (payload : Option (List ℕ))
      → Kept u w (send_public_message env checks generate chat w u payload)
  unfolding send_public_message
  send_public_message-Kept u w payload =
      with_payload-Kept u w (read_payload (read_bancho_message checks) payload) _ λ m.
        if-Kept u w (text_eq.beq m.target spectator) panic _ (panic-Kept u w) (
          if-Kept u w (text_eq.beq m.target multiplayer) panic _ (panic-Kept u w)
            (after_chat-Kept u w _))

  send_private_message-Kept :
      (u : ℕ) (w : World C) (payload : Option (List ℕ))
      → Kept u w (send_private_message env checks generate chat w u payload)
  unfolding send_private_message
  send_private_message-Kept u w payload =
      with_payload-Kept u w (read_payload (read_bancho_message checks) payload) _
        λ m. after_chat-Kept u w _

  user_channel_join-Kept :
      (u : ℕ) (w : World C) (payload : Option (List ℕ))
      → Kept u w (user_channel_join env checks generate chat w u payload)
  unfolding user_channel_join
  user_channel_join-Kept u w payload =
      with_payload-Kept u w (read_payload (read_string checks) payload) _
        λ name. after_chat-Kept u w _

  user_channel_part-Kept :
      (u : ℕ) (w : World C) (payload : Option (List ℕ))
      → Kept u w (user_channel_part env checks generate chat w u payload)
  unfolding user_channel_part
  user_channel_part-Kept u w payload =
      with_payload-Kept u w (read_payload (read_string checks) payload) _
        λ name. after_chat-Kept u w _

  user_request_status_update-Kept :
      (u : ℕ) (w : World C) → Kept u w (user_request_status_update env checks generate chat w u)
  unfolding user_request_status_update
  user_request_status_update-Kept u w =
      after_state-Kept u w _ (send_user_stats_packet-Keeps env u w.bancho_state)

  user_presence_request_all-Kept :
      (u : ℕ) (w : World C) → Kept u w (user_presence_request_all env checks generate chat w u)
  unfolding user_presence_request_all
  user_presence_request_all-Kept u w =
      after_state-Kept u w _ (send_all_presences-Keeps env u w.bancho_state)

  user_stats_request-Kept :
      (u : ℕ) (w : World C) (payload : Option (List ℕ))
      → Kept u w (user_stats_request env checks generate chat w u payload)
  unfolding user_stats_request batch_send_user_stats_packet
  user_stats_request-Kept u w payload =
      with_payload-Kept u w (read_payload (read_number_array 4) payload) _ λ users.
        after_state-Kept u w _ (
          batch_send-Keeps env u (user_stats_packet env.floats) w.bancho_state
            (map (user_query env checks generate chat) users))

  user_change_action-Kept :
      (u : ℕ) (w : World C) (payload : Option (List ℕ))
      → Kept u w (user_change_action env checks generate chat w u payload)
  unfolding user_change_action
  user_change_action-Kept u w payload =
      with_payload-Kept u w (read_payload (read_client_change_action checks) payload) _ λ a.
        after_state-Kept u (take_id env checks generate chat w) _ (
          update_user_bancho_status-Keeps env u w.bancho_state (generate w.messages)
            (action_request env checks generate chat u a) refl)

  user_receive_updates-Kept :
      (u : ℕ) (w : World C) (payload : Option (List ℕ))
      → Kept u w (user_receive_updates env checks generate chat w u payload)
  unfolding user_receive_updates
  user_receive_updates-Kept u w payload =
      with_payload-Kept u w (read_payload (read_number 4) payload) _ λ n. after_state-Kept u w _ (
        update_presence_filter-Keeps env u w.bancho_state (known_filter env checks generate chat n))

  user_toggle_block_non_friend_dms-Kept :
      (u : ℕ) (w : World C) (payload : Option (List ℕ))
      → Kept u w (user_toggle_block_non_friend_dms env checks generate chat w payload)
  unfolding user_toggle_block_non_friend_dms
  user_toggle_block_non_friend_dms-Kept u w payload =
      with_payload-Kept u w (read_payload (read_number 4) payload) _
        λ n. unchanged-Kept u w (completed none)

  user_presence_request-Kept :
      (u : ℕ) (w : World C) (payload : Option (List ℕ))
      → Kept u w (user_presence_request env checks generate chat w u payload)
  unfolding user_presence_request batch_send_presences
  user_presence_request-Kept u w payload =
      with_payload-Kept u w (read_payload (read_number_array 4) payload) _ λ users.
        after_state-Kept u w _ (
          batch_send-Keeps env u (user_presence_packet env.floats) w.bancho_state
            (map (user_query env checks generate chat) users))

  user_logout-Kept : (u : ℕ) (w : World C) → Kept u w (user_logout env checks generate chat w u)
  unfolding user_logout
  user_logout-Kept u w w' handled h b k =
      let st = w.bancho_state in
      let query = by_user_id u in
      let id = generate w.messages in
      let keeps = delete_user_session-Keeps env u st id query b k in
      elim (Outcome-cases (delete_user_session env st id query).1) [
        | inl (answer, l) ↦ elim (Exec-cases (chat.logout w.chat query)) [
          | inl m ↦ absurd (ground (arith, h, l, m))
          | inr (out, m) ↦ ground (arith, h, l, m, keeps)
        ]
        | inr (inl (e, l)) ↦ ground (arith, h, l, keeps)
        | inr (inr l) ↦ absurd (ground (arith, h, l))
      ]

  dispatch-Kept :
      (u : ℕ) (w : World C) (id : PacketId) (payload : Option (List ℕ))
      → Kept u w (dispatch env checks generate chat w u id payload)
  unfolding dispatch
  dispatch-Kept u w Ids.osu_ping payload = unchanged-Kept u w (completed none)
  dispatch-Kept u w Ids.osu_send_public_message payload = send_public_message-Kept u w payload
  dispatch-Kept u w Ids.osu_send_private_message payload = send_private_message-Kept u w payload
  dispatch-Kept u w Ids.osu_user_channel_join payload = user_channel_join-Kept u w payload
  dispatch-Kept u w Ids.osu_user_channel_part payload = user_channel_part-Kept u w payload
  dispatch-Kept u w Ids.osu_user_request_status_update payload = user_request_status_update-Kept u w
  dispatch-Kept u w Ids.osu_user_presence_request_all payload = user_presence_request_all-Kept u w
  dispatch-Kept u w Ids.osu_user_stats_request payload = user_stats_request-Kept u w payload
  dispatch-Kept u w Ids.osu_user_change_action payload = user_change_action-Kept u w payload
  dispatch-Kept u w Ids.osu_user_receive_updates payload = user_receive_updates-Kept u w payload
  dispatch-Kept u w Ids.osu_user_toggle_block_non_friend_dms payload =
      user_toggle_block_non_friend_dms-Kept u w payload
  dispatch-Kept u w Ids.osu_user_logout payload = user_logout-Kept u w
  dispatch-Kept u w Ids.osu_user_presence_request payload = user_presence_request-Kept u w payload
  dispatch-Kept u w Ids.osu_user_friend_add payload = panic-Kept u w
  dispatch-Kept u w Ids.osu_user_friend_remove payload = panic-Kept u w
  dispatch-Kept u w Ids.osu_user_set_away_message payload = panic-Kept u w
  dispatch-Kept u w Ids.osu_spectate_start payload = panic-Kept u w
  dispatch-Kept u w Ids.osu_spectate_stop payload = panic-Kept u w
  dispatch-Kept u w Ids.osu_spectate_cant payload = panic-Kept u w
  dispatch-Kept u w Ids.osu_spectate_frames payload = panic-Kept u w
  dispatch-Kept u w Ids.osu_user_part_lobby payload = panic-Kept u w
  dispatch-Kept u w Ids.osu_user_join_lobby payload = panic-Kept u w
  dispatch-Kept u w Ids.osu_user_part_match payload = panic-Kept u w
  dispatch-Kept u w Ids.osu_user_match_ready payload = panic-Kept u w
  dispatch-Kept u w Ids.osu_user_create_match payload = panic-Kept u w
  dispatch-Kept u w Ids.osu_user_join_match payload = panic-Kept u w
  dispatch-Kept u w Ids.osu_match_start payload = panic-Kept u w
  dispatch-Kept u w Ids.osu_match_complete payload = panic-Kept u w
  dispatch-Kept u w Ids.osu_match_load_complete payload = panic-Kept u w
  dispatch-Kept u w Ids.osu_match_no_beatmap payload = panic-Kept u w
  dispatch-Kept u w Ids.osu_match_not_ready payload = panic-Kept u w
  dispatch-Kept u w Ids.osu_match_failed payload = panic-Kept u w
  dispatch-Kept u w Ids.osu_match_has_beatmap payload = panic-Kept u w
  dispatch-Kept u w Ids.osu_match_skip_request payload = panic-Kept u w
  dispatch-Kept u w Ids.osu_match_change_team payload = panic-Kept u w
  dispatch-Kept u w Ids.osu_match_change_slot payload = panic-Kept u w
  dispatch-Kept u w Ids.osu_match_lock payload = panic-Kept u w
  dispatch-Kept u w Ids.osu_match_change_settings payload = panic-Kept u w
  dispatch-Kept u w Ids.osu_match_score_update payload = panic-Kept u w
  dispatch-Kept u w Ids.osu_match_change_mods payload = panic-Kept u w
  dispatch-Kept u w Ids.osu_match_transfer_host payload = panic-Kept u w
  dispatch-Kept u w Ids.osu_match_invite payload = panic-Kept u w
  dispatch-Kept u w Ids.osu_match_change_password payload = panic-Kept u w
  dispatch-Kept u w Ids.osu_tournament_match_info_request payload = panic-Kept u w
  dispatch-Kept u w Ids.osu_tournament_join_match_channel payload = panic-Kept u w
  dispatch-Kept u w Ids.osu_tournament_leave_match_channel payload = panic-Kept u w
  dispatch-Kept u w id payload = unchanged-Kept u w (failed_with (unhandled_packet id))

  -- A packet of a client, of any kind and with any payload, changes no session but the one that stands
  -- under the user's id in the store: neither the queue, nor the status, nor any other field.
  pub process_bancho_packet-isolated :
      (u : ℕ) (w w' : World C) (packet : Packet) (handled : HandledPacket)
      → process_bancho_packet env checks generate chat u w packet ≡ done (w', handled)
      → (b : ℕ) → get u w.bancho_state.user_sessions.indexes.user_id ≢ some b
      → w'.bancho_state.sessions b ≡ w.bancho_state.sessions b
  unfolding process_bancho_packet
  process_bancho_packet-isolated u w w' packet handled h =
      dispatch-Kept u w packet.id packet.payload w' handled h
