-- ===== src/BanchoState/Session.antt =====
-- core/services/bancho_state/src/components.rs: the session of an online user, and the packets that
-- tell other clients about it. Its atomics are plain fields; who shares a session is written out in
-- `Service`. A float is the number of its bits.
use peace.BanchoState.Geoip.{ConnectionInfo}
use peace.BanchoState.Enums.{
  GameMode, standard, UserOnlineStatus, idle, PresenceFilter, no_presences,
}
use peace.Base.{ℕ, Bool, Option, none, some, List, []}
use peace.PacketsQueue.{Packet, PacketsQueue, new, from_bytes, from_packets, create_snapshot}
use peace.Users.{Text, BaseSession}

pub record ModeStats : Type 0 where
  pub rank : ℕ
  pub pp_v2 : ℕ
  pub accuracy : ℕ
  pub total_hits : ℕ
  pub total_score : ℕ
  pub ranked_score : ℕ
  pub playcount : ℕ
  pub playtime : ℕ
  pub max_combo : ℕ

pub record BanchoStatus : Type 0 where
  pub online_status : UserOnlineStatus
  pub description : Text
  pub beatmap_id : ℕ
  pub beatmap_md5 : Text
  pub mods : ℕ
  pub mode : GameMode

-- `update_all` sets every field.
unfoldable pub update_all :
    BanchoStatus → UserOnlineStatus → Text → ℕ → Text → ℕ → GameMode → BanchoStatus
update_all status online_status description beatmap_id beatmap_md5 mods mode = record {
  online_status = online_status;
  description = description;
  beatmap_id = beatmap_id;
  beatmap_md5 = beatmap_md5;
  mods = mods;
  mode = mode;
}

pub record UserModeStatSets : Type 0 where
  pub standard : Option ModeStats
  pub taiko : Option ModeStats
  pub fruits : Option ModeStats
  pub mania : Option ModeStats
  pub standard_relax : Option ModeStats
  pub taiko_relax : Option ModeStats
  pub fruits_relax : Option ModeStats
  pub standard_autopilot : Option ModeStats
  pub standard_score_v2 : Option ModeStats

pub record BanchoExtend : Type 0 where
  pub client_version : Text
  pub utc_offset : ℕ
  pub presence_filter : PresenceFilter
  pub display_city : Bool
  pub only_friend_pm_allowed : Bool
  pub bancho_status : BanchoStatus
  pub bancho_privileges : ℕ
  pub mode_stat_sets : UserModeStatSets
  pub packets_queue : PacketsQueue
  pub connection_info : ConnectionInfo
  pub country_code : ℕ
  pub notify_index : ℕ

pub record BanchoExtendData : Type 0 where
  pub client_version : Text
  pub utc_offset : ℕ
  pub presence_filter : PresenceFilter
  pub display_city : Bool
  pub only_friend_pm_allowed : Bool
  pub bancho_status : BanchoStatus
  pub bancho_privileges : ℕ
  pub mode_stat_sets : UserModeStatSets
  pub packets_queue : List Packet
  pub connection_info : ConnectionInfo
  pub country_code : ℕ
  pub notify_index : ℕ

-- The `Default`s that `..Default::default()` of `BanchoExtend::new` takes.
abbrev pub default_status : BanchoStatus
default_status = record {
  online_status = idle;
  description = [];
  beatmap_id = 0;
  beatmap_md5 = [];
  mods = 0;
  mode = standard;
}

abbrev pub no_stats : UserModeStatSets
no_stats = record {
  standard = none;
  taiko = none;
  fruits = none;
  mania = none;
  standard_relax = none;
  taiko_relax = none;
  fruits_relax = none;
  standard_autopilot = none;
  standard_score_v2 = none;
}

-- `initial_packets.map(PacketsQueue::from).unwrap_or_default()`
unfoldable pub initial_queue : Option Packet → PacketsQueue
initial_queue none = new []
initial_queue (some packets) = from_bytes packets

-- `BanchoExtend::new`. The default of the notify index is a new id, which is an argument.
unfoldable pub new_extend :
    Option Packet → Text → ℕ → Bool → Bool → ℕ → ConnectionInfo → ℕ → ℕ → BanchoExtend
unfolding initial_queue
new_extend initial_packets client_version utc_offset display_city only_friend_pm_allowed
      bancho_privileges connection_info country_code new_id =
    record {
      client_version = client_version;
      utc_offset = utc_offset;
      presence_filter = no_presences;
      display_city = display_city;
      only_friend_pm_allowed = only_friend_pm_allowed;
      bancho_status = default_status;
      bancho_privileges = bancho_privileges;
      mode_stat_sets = no_stats;
      packets_queue = initial_queue initial_packets;
      connection_info = connection_info;
      country_code = country_code;
      notify_index = new_id;
    }

-- `From<BanchoExtendData>`
unfoldable pub extend_from : BanchoExtendData → BanchoExtend
unfolding from_packets
extend_from d = record {
  client_version = d.client_version;
  utc_offset = d.utc_offset;
  presence_filter = d.presence_filter;
  display_city = d.display_city;
  only_friend_pm_allowed = d.only_friend_pm_allowed;
  bancho_status = d.bancho_status;
  bancho_privileges = d.bancho_privileges;
  mode_stat_sets = d.mode_stat_sets;
  packets_queue = from_packets d.packets_queue;
  connection_info = d.connection_info;
  country_code = d.country_code;
  notify_index = d.notify_index;
}

-- `create_snapshot`
unfoldable pub extend_snapshot : BanchoExtend → BanchoExtendData
unfolding create_snapshot
extend_snapshot e = record {
  client_version = e.client_version;
  utc_offset = e.utc_offset;
  presence_filter = e.presence_filter;
  display_city = e.display_city;
  only_friend_pm_allowed = e.only_friend_pm_allowed;
  bancho_status = e.bancho_status;
  bancho_privileges = e.bancho_privileges;
  mode_stat_sets = e.mode_stat_sets;
  packets_queue = create_snapshot e.packets_queue;
  connection_info = e.connection_info;
  country_code = e.country_code;
  notify_index = e.notify_index;
}

pub record BanchoSession : Type 0 where
  pub base : BaseSession
  pub extends : BanchoExtend

pub record BanchoSessionData : Type 0 where
  pub base : BaseSession
  pub extends : BanchoExtendData

-- `create_snapshot`, where `to_session_data` copies the fields of the base
unfoldable pub session_snapshot : BanchoSession → BanchoSessionData
unfolding extend_snapshot
session_snapshot s = record { base = s.base; extends = extend_snapshot s.extends }

-- `From<BanchoSessionData>`
unfoldable pub session_from : BanchoSessionData → BanchoSession
unfolding extend_from
session_from d = record { base = d.base; extends = extend_from d.extends }
