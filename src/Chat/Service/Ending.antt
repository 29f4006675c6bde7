-- ===== src/Chat/Service/Ending.antt =====
-- core/services/chat/src/services/chat.rs: how a logout from the last platform ends.
use peace.BanchoState.Queries.{ExecSuccess, success}
use peace.Base.Outcome.{ok, err, panicked}
use peace.Base.{◌≢◌, ℕ, ◌&&◌, false, true, Bool-cases, ◌≡◌, refl, arith, inl, inr, ◌⊎◌}
use peace.Base.{Bool, some, [], ◌∷◌}
use peace.Base.Keys.{nat_eq, beq_refl}
use peace.Base.HashMap.{HashMap, get}
use peace.Chat.{JoinedChannel}
use peace.Chat.Service.{Reply, Fresh, Env, State, deref, channel_is_alive, lazer, web}
use peace.Chat.Service.Logout.{
  RwLock, Progress, next, waits, panics, progress, blocked, remove_locked, leave_loop, leave_all,
  logout_bancho, logout,
}
use peace.Chat.Service.Calls.{leave_at}
use peace.Users.{UserQuery}
use peace.Users.Store.{get_inner}

module _ {L : Type 0} (locks : RwLock L) where
  -- What the loop leaves where it waits.
  record Waits (r : State × Progress) (st : State) : Type 0 where
    waiting : r.1 ≡ waits
    sessions : r.0.sessions ≡ st.sessions
    user_sessions : r.0.user_sessions ≡ st.user_sessions

  remove_locked-Waits :
      (lock : L) (st : State) (fresh : Fresh) (a c : ℕ)
      → locks.can_write lock ≡ false
      → Waits (remove_locked locks lock st fresh a c) st
  unfolding remove_locked
  remove_locked-Waits lock st fresh a c held = record {
    waiting = ground (arith, held);
    sessions = ground (arith, held);
    user_sessions = ground (arith, held);
  }

  -- Under a lock that is held, the loop waits at the first joined channel that is there.
  leave_loop-Waits :
      (lock : L) (st : State) (fresh : Fresh) (a id : ℕ) (j : JoinedChannel)
      (js : HashMap ℕ JoinedChannel)
      → locks.can_write lock ≡ false
      → get id js ≡ some j
      → channel_is_alive st j.ptr ≡ true
      → Waits (leave_loop locks lock st fresh a js) st
  unfolding leave_loop get
  leave_loop-Waits lock st fresh a id j [] held found alive = ground (arith, found)
  leave_loop-Waits lock st fresh a id j ((k, i) ∷ js) held found alive =
      elim (Bool-cases (channel_is_alive st i.ptr)) [
        | inl here ↦
            let w = remove_locked-Waits lock st fresh a i.ptr held in
            record {
              waiting = ground (arith, here, w.waiting);
              sessions = ground (arith, here, w.waiting, w.sessions);
              user_sessions = ground (arith, here, w.waiting, w.user_sessions);
            }
        | inr dead ↦
            let later : get id js ≡ some j = ground (arith, dead, found, alive) in
            let w = leave_loop-Waits lock st fresh a id j js held later alive in
            record {
              waiting = ground (arith, dead, w.waiting);
              sessions = ground (arith, dead, w.sessions);
              user_sessions = ground (arith, dead, w.user_sessions);
            }
      ]

  Progress-cases : (p : Progress) → p ≢ waits → (p ≡ next) ⊎ (p ≡ panics)
  Progress-cases next h = inl refl
  Progress-cases panics h = inr refl
  Progress-cases waits h = elim (h refl) [ ]

  progress-waits : (r : Reply ExecSuccess) → progress r ≢ waits
  progress-waits (ok success) e = ground (arith, e)
  progress-waits (err x) e = ground (arith, e)
  progress-waits panicked e = ground (arith, e)

  -- Under a lock that is free, the loop never waits.
  leave_loop-free :
      (lock : L) (st : State) (fresh : Fresh) (a : ℕ) (js : HashMap ℕ JoinedChannel)
      → locks.can_write lock ≡ true
      → (leave_loop locks lock st fresh a js).1 ≢ waits
  unfolding leave_loop remove_locked
  leave_loop-free lock st fresh a [] free e = ground (arith, e)
  leave_loop-free lock st fresh a ((k, i) ∷ js) free e =
      let r = leave_at st fresh a i.ptr in
      elim (Bool-cases (channel_is_alive st i.ptr)) [
        | inr dead ↦ leave_loop-free lock st fresh a js free (ground (arith, dead, e))
        | inl here ↦ elim (Progress-cases (progress r.1) (progress-waits r.1)) [
          | inl more ↦
              leave_loop-free lock r.0 fresh a js free (ground (arith, here, free, more, e))
          | inr bad ↦ ground (arith, here, free, bad, e)
        ]
      ]

module _ (env : Env) where
  -- The platforms that are left.
  abbrev pub left : State → ℕ → ℕ → ℕ
  left st a remove_platforms =
      env.platforms.and (st.sessions a).platforms (env.platforms.not remove_platforms)

  -- The session and the request have a platform in common.
  abbrev pub both_have : State → ℕ → ℕ → ℕ → Bool
  both_have st a remove_platforms platform =
      env.platforms.contains (st.sessions a).platforms platform
      && env.platforms.contains remove_platforms platform

  -- The bancho client may go; the rest of the session stays.
  logout_bancho-Kept :
      (st : State) (a remove_platforms : ℕ)
      → (((logout_bancho env st a remove_platforms).sessions a).joined_channels
          ≡ (st.sessions a).joined_channels)
        × ((logout_bancho env st a remove_platforms).user_sessions ≡ st.user_sessions)
        × ((logout_bancho env st a remove_platforms).channels ≡ st.channels)
        × (deref (logout_bancho env st a remove_platforms) a ≡ deref st a)
  unfolding logout_bancho
  logout_bancho-Kept st a remove_platforms = ground (arith, beq_refl a)

  -- A logout from the last platform (neither of the platforms whose logout is still to be written)
  -- of a user who has joined a channel that is there never ends, where a lock that is read is not
  -- given to a writer: the call waits for the lock of `joined_channels`, which it holds itself. The
  -- session is still in the store, with all the channels that it had joined. With that lock free, the
  -- loop over the channels would not wait, where a free lock is given to a writer.
  pub logout-blocked :
      {L : Type 0} (locks : RwLock L) (st : State) (fresh : Fresh) (query : UserQuery)
      (remove_platforms a id : ℕ) (j : JoinedChannel)
      → ((lock : L) → locks.can_write (locks.read lock) ≡ false)
      → locks.can_write locks.free ≡ true
      → get_inner st.user_sessions.indexes query ≡ some a
      → both_have st a remove_platforms lazer ≡ false
      → both_have st a remove_platforms web ≡ false
      → env.platforms.is_none (left st a remove_platforms) ≡ true
      → get id (st.sessions a).joined_channels ≡ some j
      → channel_is_alive st j.ptr ≡ true
      → ((logout env locks st fresh query remove_platforms).1 ≡ blocked)
        × ((logout env locks st fresh query remove_platforms).0.user_sessions ≡ st.user_sessions)
        × (((logout env locks st fresh query remove_platforms).0.sessions a).joined_channels
            ≡ (st.sessions a).joined_channels)
        × ((leave_loop locks locks.free
              (logout_bancho env st a remove_platforms)
              fresh
              a
              (st.sessions a).joined_channels).1
            ≢ waits)
  unfolding logout leave_all channel_is_alive
  logout-blocked locks st fresh query remove_platforms a id j reading writing found no_lazer no_web
        last joined_it alive =
      let st' = logout_bancho env st a remove_platforms in
      let js = (st.sessions a).joined_channels in
      let (joined, store, channels, base) = logout_bancho-Kept st a remove_platforms in
      let w =
        leave_loop-Waits locks (locks.read locks.free) st' fresh a id j js (reading locks.free)
          joined_it (ground (arith, channels, alive)) in
      (
        ground (arith, found, no_lazer, no_web, last, joined, w.waiting),
        ground (arith, found, no_lazer, no_web, last, joined, w.waiting, w.user_sessions, store),
        ground (arith, found, no_lazer, no_web, last, joined, w.waiting, w.sessions),
        leave_loop-free locks locks.free st' fresh a js writing,
      )
