-- ===== src/Packets/Server/Channels.antt =====
-- Packets of lib/bancho-packets/src/server.rs about channels, messages and notices.
use peace.Base.{ℕ, List, [], ◌∷◌, Exec}
use peace.Packets.Ids.{
  bancho_send_message, bancho_notification, bancho_channel_join_success, bancho_channel_info,
  bancho_channel_kick, bancho_channel_auto_join, bancho_channel_info_end, bancho_rtx,
}
use peace.Packets.Items.{number, text, packet}

abbrev Text : Type 0
Text = List ℕ

unfoldable pub send_message : Text → Text → Text → ℕ → Exec (List ℕ)
send_message sender content target sender_id =
    packet bancho_send_message (text sender ∷ text content ∷ text target ∷ number 4 sender_id ∷ [])

unfoldable pub notification : Text → Exec (List ℕ)
notification msg = packet bancho_notification (text msg ∷ [])

unfoldable pub channel_join : Text → Exec (List ℕ)
channel_join channel_name = packet bancho_channel_join_success (text channel_name ∷ [])

unfoldable pub channel_info : Text → Text → ℕ → Exec (List ℕ)
channel_info name title player_count =
    packet bancho_channel_info (text name ∷ text title ∷ number 2 player_count ∷ [])

unfoldable pub channel_kick : Text → Exec (List ℕ)
channel_kick channel_name = packet bancho_channel_kick (text channel_name ∷ [])

unfoldable pub channel_auto_join : Text → Text → ℕ → Exec (List ℕ)
channel_auto_join name title player_count =
    packet bancho_channel_auto_join (text name ∷ text title ∷ number 2 player_count ∷ [])

unfoldable pub channel_info_end : Exec (List ℕ)
channel_info_end = packet bancho_channel_info_end []

unfoldable pub rtx : Text → Exec (List ℕ)
rtx msg = packet bancho_rtx (text msg ∷ [])
