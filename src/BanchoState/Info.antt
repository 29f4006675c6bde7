-- ===== src/BanchoState/Info.antt =====
-- core/services/bancho_state/src/components.rs: the packets that tell clients about a session.
use peace.BanchoState.Enums.{
  GameMode, standard, taiko, fruits, mania, standard_relax, taiko_relax, fruits_relax,
  standard_autopilot, standard_score_v2, mode_val, status_val,
}
use peace.BanchoState.Session.{ModeStats, UserModeStatSets, BanchoSession}
use peace.Base.{ℕ, Bool, Option, none, some, ◌++◌, Exec, done, ◌>>=◌}
use peace.Packets.Server.{user_stats, user_presence}
use peace.PacketsQueue.{Packet}

-- The conversions of floats, on their bits: the division of an `f32` by 100, `f32 as i16` and
-- `f64 as f32`. `checks` says whether the build checks sums for overflow.
pub record Floats : Type 0 where
  pub hundredth : ℕ → ℕ
  pub as_i16 : ℕ → ℕ
  pub as_f32 : ℕ → ℕ
  pub checks : Bool

abbrev stats_of : UserModeStatSets → GameMode → Option ModeStats
stats_of stats standard = stats.standard
stats_of stats taiko = stats.taiko
stats_of stats fruits = stats.fruits
stats_of stats mania = stats.mania
stats_of stats standard_relax = stats.standard_relax
stats_of stats taiko_relax = stats.taiko_relax
stats_of stats fruits_relax = stats.fruits_relax
stats_of stats standard_autopilot = stats.standard_autopilot
stats_of stats standard_score_v2 = stats.standard_score_v2

unfoldable pub mode_stats : BanchoSession → Option ModeStats
mode_stats s = stats_of s.extends.mode_stat_sets s.extends.bancho_status.mode

-- `stats.map(..).unwrap_or_default()`, of a number and of the bits of a float
abbrev of_stats : Option ModeStats → (ModeStats → ℕ) → ℕ
of_stats none f = 0
of_stats (some s) f = f s

module _ (floats : Floats) where
  unfoldable pub user_stats_packet : BanchoSession → Exec Packet
  unfolding mode_stats
  user_stats_packet s =
      let status = s.extends.bancho_status in
      let stats = mode_stats s in
      user_stats floats.hundredth (record {
        user_id = s.base.user_id;
        online_status = status_val status.online_status;
        description = status.description;
        beatmap_md5 = status.beatmap_md5;
        mods = status.mods;
        mode = mode_val status.mode;
        beatmap_id = status.beatmap_id;
        ranked_score = of_stats stats (λ m. m.ranked_score);
        accuracy = of_stats stats (λ m. m.accuracy);
        playcount = of_stats stats (λ m. m.playcount);
        total_score = of_stats stats (λ m. m.total_score);
        rank = of_stats stats (λ m. m.rank);
        pp = of_stats stats (λ m. floats.as_i16 m.pp_v2);
      })

  unfoldable pub user_presence_packet : BanchoSession → Exec Packet
  unfolding mode_stats
  user_presence_packet s = user_presence floats.checks (record {
    user_id = s.base.user_id;
    username = s.base.username;
    utc_offset = s.extends.utc_offset;
    country_code = s.extends.country_code;
    bancho_priv = s.extends.bancho_privileges;
    longitude = floats.as_f32 s.extends.connection_info.location.longitude;
    latitude = floats.as_f32 s.extends.connection_info.location.latitude;
    rank = of_stats (mode_stats s) (λ m. m.rank);
  })

  unfoldable pub user_info_packets : BanchoSession → Exec Packet
  unfolding user_stats_packet user_presence_packet
  user_info_packets s = do
    info ← user_stats_packet s
    presence ← user_presence_packet s
    done (info ++ presence)
