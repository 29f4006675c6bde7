-- ===== src/Users.antt =====
-- core/infra/users/src/sessions.rs: a session, and the queries that name one. The names of a
-- session stand in atomics, but no code of the repository changes them, so they are plain fields.
pub mod Store
use peace.Base.{ℕ, ◌+◌, ◌%◌, ◌^◌, ltb, Bool, true, false, Option, none, some, List}
use peace.Base.Keys.{Eq, nat_eq, text_eq}

-- Texts are lists of bytes; an id, an `i32` or a `Ulid`, is the number of its bits.
abbrev pub Text : Type 0
Text = List ℕ

pub record BaseSession : Type 0 where
  pub id : ℕ
  pub user_id : ℕ
  pub username : Text
  pub username_unicode : Option Text
  pub privileges : ℕ
  pub created_at : ℕ
  pub last_active : ℕ

pub data UserQuery : Type 0 where
  by_session_id : ℕ → UserQuery
  by_user_id : ℕ → UserQuery
  by_username : Text → UserQuery
  by_username_unicode : Text → UserQuery

-- `is_deactive`, where the sum of the `u64`s wraps around.
unfoldable pub is_deactive : BaseSession → ℕ → ℕ → Bool
is_deactive s current_timestamp deadline =
    ltb ((s.last_active + deadline) % 2 ^ 64) current_timestamp

-- `session_is_target`
unfoldable pub session_is_target : BaseSession → UserQuery → Bool
session_is_target s (by_session_id t) = nat_eq.beq s.id t
session_is_target s (by_user_id t) = nat_eq.beq s.user_id t
session_is_target s (by_username t) = text_eq.beq s.username t
session_is_target s (by_username_unicode t) = elim s.username_unicode [
  | none ↦ false
  | some n ↦ text_eq.beq n t
]
