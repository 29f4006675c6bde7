-- ===== src/Packets/Server/Matches.antt =====
-- Packets of lib/bancho-packets/src/server.rs about spectators and multiplayer matches. A packet is
-- what its `pack` writes; the fields are the numbers of their bits.
use peace.Base.{ℕ, List, [], ◌∷◌, Exec}
use peace.Packets.Ids.{
  bancho_spectator_joined, bancho_spectator_left, bancho_spectate_frames,
  bancho_spectator_cant_spectate, bancho_disband_match, bancho_match_join_fail,
  bancho_fellow_spectator_joined, bancho_fellow_spectator_left, bancho_match_transfer_host,
  bancho_match_all_players_loaded, bancho_match_player_failed, bancho_match_complete,
  bancho_match_skip, bancho_match_player_skipped, bancho_match_change_password, bancho_match_abort,
}
use peace.Packets.Items.{number, bytes, text, packet}

abbrev Text : Type 0
Text = List ℕ

unfoldable pub spectator_joined : ℕ → Exec (List ℕ)
spectator_joined user_id = packet bancho_spectator_joined (number 4 user_id ∷ [])

unfoldable pub spectator_left : ℕ → Exec (List ℕ)
spectator_left user_id = packet bancho_spectator_left (number 4 user_id ∷ [])

unfoldable pub spectator_frames : List ℕ → Exec (List ℕ)
spectator_frames frame_data = packet bancho_spectate_frames (bytes frame_data ∷ [])

unfoldable pub spectator_cant_spectate : ℕ → Exec (List ℕ)
spectator_cant_spectate user_id = packet bancho_spectator_cant_spectate (number 4 user_id ∷ [])

unfoldable pub disband_match : ℕ → Exec (List ℕ)
disband_match match_id = packet bancho_disband_match (number 4 match_id ∷ [])

unfoldable pub match_join_fail : Exec (List ℕ)
match_join_fail = packet bancho_match_join_fail []

unfoldable pub fellow_spectator_joined : ℕ → Exec (List ℕ)
fellow_spectator_joined user_id = packet bancho_fellow_spectator_joined (number 4 user_id ∷ [])

unfoldable pub fellow_spectator_left : ℕ → Exec (List ℕ)
fellow_spectator_left user_id = packet bancho_fellow_spectator_left (number 4 user_id ∷ [])

unfoldable pub match_transfer_host : Exec (List ℕ)
match_transfer_host = packet bancho_match_transfer_host []

unfoldable pub match_all_player_loaded : Exec (List ℕ)
match_all_player_loaded = packet bancho_match_all_players_loaded []

unfoldable pub match_player_failed : ℕ → Exec (List ℕ)
match_player_failed slot_id = packet bancho_match_player_failed (number 4 slot_id ∷ [])

unfoldable pub match_complete : Exec (List ℕ)
match_complete = packet bancho_match_complete []

unfoldable pub match_skip : Exec (List ℕ)
match_skip = packet bancho_match_skip []

unfoldable pub match_player_skipped : ℕ → Exec (List ℕ)
match_player_skipped slot_id = packet bancho_match_player_skipped (number 4 slot_id ∷ [])

unfoldable pub match_change_password : Text → Exec (List ℕ)
match_change_password password = packet bancho_match_change_password (text password ∷ [])

unfoldable pub match_abort : Exec (List ℕ)
match_abort = packet bancho_match_abort []
