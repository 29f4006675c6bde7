-- ===== src/Bancho/Processor/Todo.antt =====
-- core/services/bancho/src/services/bancho/service.rs: the packets whose processing is `todo!()`.
use peace.BanchoState.Service.{Env}
use peace.Bancho.Batch.{ran, batch_loop, batch_process_bancho_packets}
use peace.Bancho.Processor.{ChatService, World}
use peace.Bancho.Processor.Handlers.{dispatch, process_bancho_packet}
use peace.Base.{
  ℕ, ◌<◌, ◌^◌, Bool, true, false, ◌≡◌, refl, ap, ◌∙◌, arith, Option, List, [], ◌++◌, length, panic,
}
use peace.Packets.Ids.{PacketId, as_u8}
use peace.Packets.Ids
use peace.Packets.Ids.RoundTrip.{new-as_u8}
use peace.Packets.Frames.Reading.{next-frame, payload_of}
use peace.Packets.Items.Encoding.{frame}

-- The parts of the protocol that a client can ask for and that are not implemented: friends, away
-- messages, spectators, matches and tournaments.
unfoldable pub is_todo : PacketId → Bool
is_todo Ids.osu_user_friend_add = true
is_todo Ids.osu_user_friend_remove = true
is_todo Ids.osu_user_set_away_message = true
is_todo Ids.osu_spectate_start = true
is_todo Ids.osu_spectate_stop = true
is_todo Ids.osu_spectate_cant = true
is_todo Ids.osu_spectate_frames = true
is_todo Ids.osu_user_part_lobby = true
is_todo Ids.osu_user_join_lobby = true
is_todo Ids.osu_user_part_match = true
is_todo Ids.osu_user_match_ready = true
is_todo Ids.osu_user_create_match = true
is_todo Ids.osu_user_join_match = true
is_todo Ids.osu_match_start = true
is_todo Ids.osu_match_complete = true
is_todo Ids.osu_match_load_complete = true
is_todo Ids.osu_match_no_beatmap = true
is_todo Ids.osu_match_not_ready = true
is_todo Ids.osu_match_failed = true
is_todo Ids.osu_match_has_beatmap = true
is_todo Ids.osu_match_skip_request = true
is_todo Ids.osu_match_change_team = true
is_todo Ids.osu_match_change_slot = true
is_todo Ids.osu_match_lock = true
is_todo Ids.osu_match_change_settings = true
is_todo Ids.osu_match_score_update = true
is_todo Ids.osu_match_change_mods = true
is_todo Ids.osu_match_transfer_host = true
is_todo Ids.osu_match_invite = true
is_todo Ids.osu_match_change_password = true
is_todo Ids.osu_tournament_match_info_request = true
is_todo Ids.osu_tournament_join_match_channel = true
is_todo Ids.osu_tournament_leave_match_channel = true
is_todo id = false

module _ {C : Type 0} (env : Env) (checks : Bool) (generate : ℕ → ℕ) (chat : ChatService C) where
  dispatch-todo :
      (w : World C) (u : ℕ) (id : PacketId) (payload : Option (List ℕ))
      → is_todo id ≡ true
      → dispatch env checks generate chat w u id payload ≡ panic
  unfolding dispatch is_todo
  dispatch-todo w u Ids.osu_user_friend_add payload h = refl
  dispatch-todo w u Ids.osu_user_friend_remove payload h = refl
  dispatch-todo w u Ids.osu_user_set_away_message payload h = refl
  dispatch-todo w u Ids.osu_spectate_start payload h = refl
  dispatch-todo w u Ids.osu_spectate_stop payload h = refl
  dispatch-todo w u Ids.osu_spectate_cant payload h = refl
  dispatch-todo w u Ids.osu_spectate_frames payload h = refl
  dispatch-todo w u Ids.osu_user_part_lobby payload h = refl
  dispatch-todo w u Ids.osu_user_join_lobby payload h = refl
  dispatch-todo w u Ids.osu_user_part_match payload h = refl
  dispatch-todo w u Ids.osu_user_match_ready payload h = refl
  dispatch-todo w u Ids.osu_user_create_match payload h = refl
  dispatch-todo w u Ids.osu_user_join_match payload h = refl
  dispatch-todo w u Ids.osu_match_start payload h = refl
  dispatch-todo w u Ids.osu_match_complete payload h = refl
  dispatch-todo w u Ids.osu_match_load_complete payload h = refl
  dispatch-todo w u Ids.osu_match_no_beatmap payload h = refl
  dispatch-todo w u Ids.osu_match_not_ready payload h = refl
  dispatch-todo w u Ids.osu_match_failed payload h = refl
  dispatch-todo w u Ids.osu_match_has_beatmap payload h = refl
  dispatch-todo w u Ids.osu_match_skip_request payload h = refl
  dispatch-todo w u Ids.osu_match_change_team payload h = refl
  dispatch-todo w u Ids.osu_match_change_slot payload h = refl
  dispatch-todo w u Ids.osu_match_lock payload h = refl
  dispatch-todo w u Ids.osu_match_change_settings payload h = refl
  dispatch-todo w u Ids.osu_match_score_update payload h = refl
  dispatch-todo w u Ids.osu_match_change_mods payload h = refl
  dispatch-todo w u Ids.osu_match_transfer_host payload h = refl
  dispatch-todo w u Ids.osu_match_invite payload h = refl
  dispatch-todo w u Ids.osu_match_change_password payload h = refl
  dispatch-todo w u Ids.osu_tournament_match_info_request payload h = refl
  dispatch-todo w u Ids.osu_tournament_join_match_channel payload h = refl
  dispatch-todo w u Ids.osu_tournament_leave_match_channel payload h = refl
  dispatch-todo w u id payload h = absurd (ground arith)

  process-todo :
      (w : World C) (u : ℕ) (id : PacketId) (payload : Option (List ℕ))
      → is_todo id ≡ true
      → process_bancho_packet env checks generate chat u w
          (record { id = Ids.new (as_u8 id); payload = payload })
        ≡ panic
  unfolding process_bancho_packet
  process-todo w u id payload h =
      ap (λ i. dispatch env checks generate chat w u i payload) (new-as_u8 id).0
      ∙ dispatch-todo w u id payload h

  -- A batch that starts with a packet of a kind that is not implemented panics, whatever comes after it
  -- and whatever its payload of less than 2 ^ 32 bytes is.
  pub batch_process-todo :
      (w : World C) (u : ℕ) (id : PacketId) (payload rest : List ℕ)
      → is_todo id ≡ true
      → length payload < 2 ^ 32
      → batch_process_bancho_packets
          (process_bancho_packet env checks generate chat u)
          w
          (frame (as_u8 id) payload ++ rest)
        ≡ ran panic
  unfolding batch_process_bancho_packets batch_loop
  batch_process-todo w u id payload rest h short =
      rw (next-frame [] payload rest (as_u8 id) short, batch_loop)
        (rw (process-todo w u id (payload_of payload) h, batch_loop))
