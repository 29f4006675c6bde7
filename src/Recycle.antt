-- ===== src/Recycle.antt =====
-- core/services/bancho_state/src/services/background.rs: one round of the task that
-- `user_sessions_recycle_factory` makes. It looks through the sessions under the read lock of the
-- store, removes the deactive ones under the write lock, and then old messages of the notify queue.
pub mod Rounds
pub mod Notices
use peace.Base.{
  ℕ, ltb, Bool, true, false, if◌then◌else◌, Option, none, some, List, [], ◌∷◌, Exec, done, panic,
  ◌>>=◌,
}
use peace.Base.HashMap.{HashMap}
use peace.MessageQueue.{RawMessageQueue, remove_messages_before_id}
use peace.Users.{BaseSession, is_deactive}
use peace.Users.Store.{UserStore, delete_session}

-- What the look through the sessions has collected.
pub record Found (T : Type 0) : Type 0 where
  pub sessions_deactive : List T
  pub min_notify_msg_id : Option ℕ

-- `lazy_init!(min_notify_msg_id_in_all_users, ..)`
unfoldable pub lower : Option ℕ → ℕ → Option ℕ
lower none notify_index = some notify_index
lower (some val) notify_index = if ltb notify_index val then some notify_index else some val

module _ {T : Type 0} (deref : T → BaseSession) where
  -- `for session in sessions_deactive.iter()`
  unfoldable pub remove_sessions : List T → UserStore T → UserStore T
  remove_sessions [] store = store
  remove_sessions (session ∷ sessions) store =
      remove_sessions sessions (delete_session deref store session).0

unfoldable pub remove_read_messages :
    {M K : Type 0} → Option ℕ → RawMessageQueue M K → Exec (RawMessageQueue M K)
remove_read_messages none queue = done queue
remove_read_messages (some min_msg_id) queue = do
  (queue', removed) ← remove_messages_before_id queue min_msg_id
  done queue'

module _ {T : Type 0} (deref : T → BaseSession) (notify_index : T → ℕ) where
  -- `for session in user_sessions.values()`; the sessions are collected in the order of the map.
  unfoldable pub look_through : ℕ → ℕ → HashMap ℕ T → Option ℕ → Found T
  look_through now deadline [] lowest = record {
    sessions_deactive = [];
    min_notify_msg_id = lowest;
  }
  look_through now deadline ((id, session) ∷ users) lowest =
      let rest = look_through now deadline users (lower lowest (notify_index session)) in
      record {
        sessions_deactive =
            if is_deactive (deref session) now deadline
            then session ∷ rest.sessions_deactive
            else rest.sessions_deactive;
        min_notify_msg_id = rest.min_notify_msg_id;
      }

  -- A round in which no other caller comes between the locks.
  unfoldable pub recycle :
      {M K : Type 0}
      → ℕ
      → ℕ
      → UserStore T
      → RawMessageQueue M K
      → Exec (UserStore T × RawMessageQueue M K)
  recycle now deadline store queue = do
    let found = look_through now deadline store.indexes.user_id none
    let store' = remove_sessions deref found.sessions_deactive store
    queue' ← remove_read_messages found.min_notify_msg_id queue
    done (store', queue')
