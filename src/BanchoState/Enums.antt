-- ===== src/BanchoState/Enums.antt =====
-- core/domain/bancho/src/lib.rs: the enums of a status, with the numbers that stand for them.
use peace.Base.{ℕ, ◌==◌, if◌then◌else◌, Option, none, some, List, [], ◌∷◌}

pub data GameMode : Type 0 where
  standard : GameMode
  taiko : GameMode
  fruits : GameMode
  mania : GameMode
  standard_relax : GameMode
  taiko_relax : GameMode
  fruits_relax : GameMode
  standard_autopilot : GameMode
  standard_score_v2 : GameMode

-- `GameMode::val`
unfoldable pub mode_val : GameMode → ℕ
mode_val standard = 0
mode_val taiko = 1
mode_val fruits = 2
mode_val mania = 3
mode_val standard_relax = 4
mode_val taiko_relax = 5
mode_val fruits_relax = 6
mode_val standard_autopilot = 8
mode_val standard_score_v2 = 12

-- `from_i32`, which `Primitive` derives: the first of the constructors with that value.
unfoldable first_with {ℓ} : {A : Type ℓ} → (A → ℕ) → List A → ℕ → Option A
first_with val [] n = none
first_with val (a ∷ as') n = if val a == n then some a else first_with val as' n

abbrev all_modes : List GameMode
all_modes =
    standard ∷ taiko ∷ fruits ∷ mania ∷ standard_relax ∷ taiko_relax ∷ fruits_relax
    ∷ standard_autopilot ∷ standard_score_v2 ∷ []

unfoldable pub mode_from_i32 : ℕ → Option GameMode
unfolding first_with mode_val
mode_from_i32 n = first_with mode_val all_modes n

pub data UserOnlineStatus : Type 0 where
  idle : UserOnlineStatus
  afk : UserOnlineStatus
  playing : UserOnlineStatus
  editing : UserOnlineStatus
  modding : UserOnlineStatus
  multiplayer : UserOnlineStatus
  watching : UserOnlineStatus
  unknown : UserOnlineStatus
  testing : UserOnlineStatus
  submitting : UserOnlineStatus
  paused : UserOnlineStatus
  lobby : UserOnlineStatus
  multiplaying : UserOnlineStatus
  direct : UserOnlineStatus

-- `UserOnlineStatus::val`
unfoldable pub status_val : UserOnlineStatus → ℕ
status_val idle = 0
status_val afk = 1
status_val playing = 2
status_val editing = 3
status_val modding = 4
status_val multiplayer = 5
status_val watching = 6
status_val unknown = 7
status_val testing = 8
status_val submitting = 9
status_val paused = 10
status_val lobby = 11
status_val multiplaying = 12
status_val direct = 13

abbrev all_statuses : List UserOnlineStatus
all_statuses =
    idle ∷ afk ∷ playing ∷ editing ∷ modding ∷ multiplayer ∷ watching ∷ unknown ∷ testing
    ∷ submitting ∷ paused ∷ lobby ∷ multiplaying ∷ direct ∷ []

unfoldable pub status_from_i32 : ℕ → Option UserOnlineStatus
unfolding first_with status_val
status_from_i32 n = first_with status_val all_statuses n

pub data PresenceFilter : Type 0 where
  no_presences : PresenceFilter
  all_presences : PresenceFilter
  friends : PresenceFilter

-- `PresenceFilter::val`
unfoldable pub filter_val : PresenceFilter → ℕ
filter_val no_presences = 0
filter_val all_presences = 1
filter_val friends = 2

unfoldable pub filter_from_i32 : ℕ → Option PresenceFilter
unfolding first_with filter_val
filter_from_i32 n = first_with filter_val (no_presences ∷ all_presences ∷ friends ∷ []) n
