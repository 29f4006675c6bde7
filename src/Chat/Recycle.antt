-- ===== src/Chat/Recycle.antt =====
-- core/services/chat/src/services/background.rs: one round of the tasks that
-- `user_sessions_recycle_factory` and `channel_messages_recycle_factory` make, where no other caller
-- comes between the locks. The one of `notify_messages_recycle_factory` is `recycle_notices`.
pub mod Lost
use peace.Base.{ℕ, ◌+◌, if◌then◌else◌, Option, none, some, List, [], ◌∷◌, Exec, done, ◌>>=◌}
use peace.Base.HashMap.{HashMap}
use peace.Chat.{Channel}
use peace.Chat.Service.{State, deref, write_channel}
use peace.Chat.Service.Dequeue.{values}
use peace.MessageQueue.{remove_invalid_messages, remove_messages_before_id}
use peace.Recycle.{Found, lower, remove_sessions, remove_read_messages}
use peace.Users.{is_deactive}

-- The least notify index so far and that of a session, if it has a bancho client.
unfoldable pub lower_to : State → ℕ → Option ℕ → Option ℕ
unfolding lower
lower_to st a lowest = elim (st.sessions a).bancho_ext [
  | none ↦ lowest
  | some ext ↦ lower lowest ext.notify_index
]

-- `for session in user_sessions.values()`
unfoldable pub look_through : State → ℕ → ℕ → HashMap ℕ ℕ → Option ℕ → Found ℕ
unfolding lower_to
look_through st now deadline [] lowest = record {
  sessions_deactive = [];
  min_notify_msg_id = lowest;
}
look_through st now deadline ((id, a) ∷ users) lowest =
    let rest = look_through st now deadline users (lower_to st a lowest) in
    record {
      sessions_deactive =
          if is_deactive (deref st a) now deadline
          then a ∷ rest.sessions_deactive
          else rest.sessions_deactive;
      min_notify_msg_id = rest.min_notify_msg_id;
    }

-- The sessions go out of the store; the channels that they have joined are left as they are.
unfoldable pub recycle_sessions : State → ℕ → ℕ → Exec State
unfolding look_through remove_sessions remove_read_messages
recycle_sessions st now deadline = do
  let found = look_through st now deadline st.user_sessions.indexes.user_id none
  let store = remove_sessions (deref st) found.sessions_deactive st.user_sessions
  queue ← remove_read_messages found.min_notify_msg_id st.notify_queue
  done (record st { user_sessions = store; notify_queue = queue })

-- A channel that nobody has read from yet is passed over. The number is that of the messages.
unfoldable pub recycle_channel : Channel → Exec (Channel × ℕ)
unfolding remove_invalid_messages remove_messages_before_id
recycle_channel ch = elim ch.min_msg_index [
  | none ↦ done (ch, 0)
  | some channel_min_msg_id ↦
      let valid = remove_invalid_messages ch.message_queue in
      remove_messages_before_id valid.0 channel_min_msg_id >>= λ left.
      done (record ch { message_queue = left.0 }, valid.1 + left.1)
]

unfoldable pub recycle_all : State → List ℕ → Exec (State × ℕ)
unfolding recycle_channel
recycle_all st [] = done (st, 0)
recycle_all st (c ∷ channels) = do
  (ch, n) ← recycle_channel (st.channel_at c)
  (st', rest) ← recycle_all (write_channel st c ch) channels
  done (st', n + rest)

unfoldable pub recycle_channels : State → Exec (State × ℕ)
unfolding recycle_all
recycle_channels st = recycle_all st (values st.channels.indexes.channel_id)
