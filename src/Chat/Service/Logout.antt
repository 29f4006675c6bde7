-- ===== src/Chat/Service/Logout.antt =====
-- core/services/chat/src/services/chat.rs: `logout`. The calls of other clients are not running at the
-- same time, so that the locks are free when it starts.
use peace.BanchoState.Queries.{ExecSuccess, success}
use peace.Base.{ℕ, Bool, true, false, ◌&&◌, if◌then◌else◌, none, some, [], ◌∷◌}
use peace.Base.Keys.{nat_eq}
use peace.Base.HashMap.{HashMap}
use peace.Base.Outcome.{ok, err, panicked}
use peace.Chat.{JoinedChannel}
use peace.Chat.Membership.{leave}
use peace.Chat.Service.{
  Reply, Env, Fresh, State, deref, write_session, write_channel, channel_is_alive, bancho, lazer,
  web,
}
use peace.Chat.Service.Calls.{leave_at}
use peace.Users.{UserQuery}
use peace.Users.Store.{get_inner, delete}

-- How the call ends. `blocked` is a call that waits for a lock that it holds itself.
pub data Ended : Type 0 where
  replied : Reply ExecSuccess → Ended
  blocked : Ended

-- A `RwLock` of tokio, whose states are `L`: when nobody has it, after one more reader has got it, and
-- whether a writer gets it at once. A writer who does not get it waits until it is given back.
pub record RwLock (L : Type 0) : Type 0 where
  pub free : L
  pub read : L → L
  pub can_write : L → Bool

-- How a round of the loop ends: with the next one, with a wait for a lock, or with a panic.
pub data Progress : Type 0 where
  next : Progress
  waits : Progress
  panics : Progress

-- `leave_at` has no errors.
abbrev pub progress : Reply ExecSuccess → Progress
progress (ok success) = next
progress (err e) = next
progress panicked = panics

module _ {L : Type 0} (locks : RwLock L) where
  -- A round of the loop for a channel that is there, where `lock` is the state of the lock of
  -- `joined_channels`: `Channel::remove` takes the user out of the channel, and then needs that lock
  -- for writing. The rest is as it is where the user leaves the channel.
  unfoldable pub remove_locked : L → State → Fresh → ℕ → ℕ → State × Progress
  unfolding leave_at
  remove_locked lock st fresh a c =
      let left = leave_at st fresh a c in
      if locks.can_write lock
      then (left.0, progress left.1)
      else (write_channel st c (leave (st.channel_at c) (st.sessions a)), waits)

  -- The loop over the joined channels. A channel that is not there any more is passed over.
  unfoldable pub leave_loop : L → State → Fresh → ℕ → HashMap ℕ JoinedChannel → State × Progress
  unfolding remove_locked
  leave_loop lock st fresh a [] = (st, next)
  leave_loop lock st fresh a ((id, j) ∷ joined) = elim (channel_is_alive st j.ptr) [
    | false ↦ leave_loop lock st fresh a joined
    | true ↦
        let r = remove_locked lock st fresh a j.ptr in
        elim r.1 [
          | next ↦ leave_loop lock r.0 fresh a joined
          | waits ↦ (r.0, waits)
          | panics ↦ (r.0, panics)
        ]
  ]

  -- The loop, which holds the lock of `joined_channels` for reading to its end, and what is behind it.
  unfoldable pub leave_all : State → Fresh → ℕ → UserQuery → State × Ended
  unfolding leave_loop
  leave_all st fresh a query =
      let r = leave_loop (locks.read locks.free) st fresh a (st.sessions a).joined_channels in
      elim r.1 [
        | next ↦ (
          record r.0 { user_sessions = (delete (deref r.0) r.0.user_sessions query).0 },
          replied (ok success),
        )
        | waits ↦ (r.0, blocked)
        | panics ↦ (r.0, replied panicked)
      ]

module _ (env : Env) where
  unfoldable pub logout_bancho : State → ℕ → ℕ → State
  logout_bancho st a remove_platforms =
      if env.platforms.contains (st.sessions a).platforms bancho
        && env.platforms.contains remove_platforms bancho
      then write_session st a (record (st.sessions a) { bancho_ext = none })
      else st

  unfoldable pub logout : {L : Type 0} → RwLock L → State → Fresh → UserQuery → ℕ → State × Ended
  unfolding leave_all logout_bancho
  logout locks st fresh query remove_platforms = elim (get_inner st.user_sessions.indexes query) [
    | none ↦ (st, replied (ok success))
    | some a ↦
        let curr_platforms = (st.sessions a).platforms in
        let st' = logout_bancho st a remove_platforms in
        let platforms = env.platforms.and curr_platforms (env.platforms.not remove_platforms) in
        if env.platforms.contains curr_platforms lazer
          && env.platforms.contains remove_platforms lazer
        then (st', replied panicked)
        else if env.platforms.contains curr_platforms web
            && env.platforms.contains remove_platforms web
        then (st', replied panicked)
        else if env.platforms.is_none platforms
        then leave_all locks st' fresh a query
        else (
          write_session st' a (record (st'.sessions a) { platforms = platforms }),
          replied (ok success),
        )
  ]
