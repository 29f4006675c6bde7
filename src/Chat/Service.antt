-- ===== src/Chat/Service.antt =====
-- core/services/chat/src/services/chat.rs: the state of the chat service, and the sessions that
-- calls make or find. The indexes hold addresses of sessions and channels, as they hold `Arc`s: a
-- change is seen under each key.
pub mod Calls
pub mod Logout
pub mod Dequeue
pub mod Public
pub mod Infos
pub mod Reading
pub mod Noticed
pub mod Delivery
pub mod Reported
pub mod Sent
pub mod Delivered
pub mod Joined
pub mod Ending
pub mod Stored
pub mod Loaded
pub mod Errors
use peace.BanchoState.Queries.{
  ConvertError, Ulids, RawUserQuery, into_user_query, ExecSuccess, success,
}
use peace.Base.{ℕ, suc, ◌%◌, ◌^◌, ◌==◌, ◌||◌, if◌then◌else◌, Bool}
use peace.Base.{Option, none, some, List, [], ◌∷◌, ◌++◌, Exec, done, panic}
use peace.Base.Keys.{nat_eq}
use peace.Base.HashMap.{HashMap, holds}
use peace.Base.Outcome.{Outcome, ok, err, panicked, ◌>>=◌, lift, map_err, ok_or}
use peace.Chat.{Channel, BanchoChatExt, ChatSession}
use peace.Chat.Channels.{ChannelIndexes, Channels, ChannelQuery, get_channel_inner}
use peace.Chat.Membership.{
  enter, note_joined, leave, forget_joined, join, remove_member, info_packets,
}
use peace.Chat.Queries.{
  RawChannelQuery, into_channel_query, RawChatMessageTarget, ChatMessageTarget, into_message_target,
  channel, user,
}
use peace.MessageQueue.{RawMessageQueue, push_message_excludes}
use peace.Packets.Server.Channels.{send_message as pack_message, channel_info_end}
use peace.PacketsQueue.{Packet, push_packet, new}
use peace.Users.{Text, BaseSession, UserQuery, by_session_id, by_user_id, by_username}
use peace.Users.{by_username_unicode}
use peace.Users.Store.{UserStore, get_inner, create}

-- `GetUserError` of core/repositories
pub data GetUserError : Type 0 where
  user_not_exists : GetUserError
  db_err : Text → GetUserError

-- The errors that the service makes itself.
pub data ChatError : Type 0 where
  get_user_error : GetUserError → ChatError
  invalid_argument : ChatError
  session_not_exists : ChatError
  convert_error : ConvertError → ChatError

abbrev pub Reply : Type 0 → Type 0
Reply A = Outcome ChatError A

-- The columns of a user's row that the service reads.
pub record User : Type 0 where
  pub id : ℕ
  pub name : Text
  pub name_unicode : Option Text

-- The users in the database.
pub record UsersRepository : Type 0 where
  pub get_user_by_id : ℕ → Outcome GetUserError User
  pub get_user_by_username : Text → Outcome GetUserError User
  pub get_user_by_username_unicode : Text → Outcome GetUserError User

-- What the `bitmask` macro makes of `Platform`.
pub record Platforms : Type 0 where
  pub contains : ℕ → ℕ → Bool
  pub and : ℕ → ℕ → ℕ
  pub not : ℕ → ℕ
  pub is_none : ℕ → Bool
  pub all : ℕ

abbrev pub bancho : ℕ
bancho = 1

abbrev pub lazer : ℕ
lazer = 2

abbrev pub web : ℕ
web = 3

pub record Env : Type 0 where
  pub ulids : Ulids
  pub users_repository : UsersRepository
  pub platforms : Platforms

-- The ids that a call generates, and its time.
pub record Fresh : Type 0 where
  pub id : ℕ
  pub index : ℕ
  pub now : ℕ

-- The next addresses are ones that no session or channel has had.
pub record State : Type 0 where
  pub user_sessions : UserStore ℕ
  pub sessions : ℕ → ChatSession
  pub next_session : ℕ
  pub channels : Channels ℕ
  pub channel_at : ℕ → Channel
  pub next_channel : ℕ
  pub notify_queue : RawMessageQueue Packet ℕ

-- `Deref` of the session at an address
abbrev pub deref : State → ℕ → BaseSession
deref st a = (st.sessions a).base

abbrev pub write_session : State → ℕ → ChatSession → State
write_session st a s = record st { sessions = λ b. if a == b then s else st.sessions b }

abbrev pub write_channel : State → ℕ → Channel → State
write_channel st c ch = record st { channel_at = λ b. if c == b then ch else st.channel_at b }

-- `ptr.load().upgrade().is_some()`: the indexes have the only strong pointers.
unfoldable pub channel_is_alive : State → ℕ → Bool
unfolding holds
channel_is_alive st c =
    holds c st.channels.indexes.channel_id
    || holds c st.channels.indexes.channel_name
    || holds c st.channels.indexes.public_channels

-- `?` between two parts of a call that change the state
abbrev pub and_then :
    {A B : Type 0} → State × Reply A → (State → A → State × Reply B) → State × Reply B
and_then (st, ok a) f = f st a
and_then (st, err e) f = (st, err e)
and_then (st, panicked) f = (st, panicked)

-- The packets about the public channels, in the order of the map, and the end.
unfoldable pub channel_packets : State → HashMap ℕ ℕ → Reply (List Packet)
channel_packets st [] = do packet ← lift channel_info_end; ok (packet ∷ [])
channel_packets st ((id, c) ∷ channels) = do
  packet ← lift (info_packets (st.channel_at c))
  packets ← channel_packets st channels
  ok (packet ∷ packets)

-- `ChatSession::new` of `ChatSessionExtend::new(platforms, bancho_chat_ext, None)`
unfoldable pub new_session :
    Fresh → ℕ → Text → Option Text → ℕ → ℕ → Option BanchoChatExt → ChatSession
new_session fresh user_id username username_unicode privileges platforms ext = record {
  base = record {
    id = fresh.id;
    user_id = user_id;
    username = username;
    username_unicode = username_unicode;
    privileges = privileges;
    created_at = fresh.now;
    last_active = fresh.now;
  };
  platforms = platforms;
  bancho_ext = ext;
  joined_channels = [];
  channel_count = 0;
}

-- `From<PacketsQueue>`
abbrev pub ext_from : ℕ → List Packet → BanchoChatExt
ext_from notify_index packets = record {
  packets_queue = new packets;
  notify_index = notify_index;
  receive_channel_updates = [];
}

-- `user_sessions.create`, of a session that is `Arc`ed at the address `next_session`
unfoldable pub store_session : State → ChatSession → State
store_session st session =
    let st' =
      write_session (record st { next_session = suc st.next_session }) st.next_session session in
    record st' { user_sessions = (create (deref st') st.user_sessions st.next_session).0 }

unfoldable pub update_active : State → ℕ → ℕ → State
update_active st a now =
    let s = st.sessions a in
    write_session st a (record s { base = record s.base { last_active = now } })

module _ (env : Env) where
  -- `login_inner`
  unfoldable pub login_inner : State → Fresh → ℕ → Text → Option Text → ℕ → ℕ → State × Reply ℕ
  unfolding store_session new_session
  login_inner st fresh user_id username username_unicode privileges platforms =
      let store = λ (ext : Option BanchoChatExt).
        store_session st
          (new_session fresh user_id username username_unicode privileges platforms ext) in
      if env.platforms.contains platforms bancho
      then elim (channel_packets st st.channels.indexes.public_channels) [
        | ok packets ↦ (store (some (ext_from fresh.index packets)), ok st.next_session)
        | err e ↦ (st, err e)
        | panicked ↦ (st, panicked)
      ]
      else (store none, ok st.next_session)

  -- The user that a query names; a session id names none.
  unfoldable pub user_of : UserQuery → Reply User
  user_of (by_session_id id) = err invalid_argument
  user_of (by_user_id id) = map_err get_user_error (env.users_repository.get_user_by_id id)
  user_of (by_username name) =
      map_err get_user_error (env.users_repository.get_user_by_username name)
  user_of (by_username_unicode name) =
      map_err get_user_error (env.users_repository.get_user_by_username_unicode name)

  unfoldable pub get_session : State → Fresh → UserQuery → Option ℕ → State × Reply ℕ
  unfolding update_active
  get_session st fresh query create_if_not_exists =
      elim (get_inner st.user_sessions.indexes query) [
        | some a ↦ (update_active st a fresh.now, ok a)
        | none ↦ elim create_if_not_exists [
          | none ↦ (st, err session_not_exists)
          | some platforms ↦
              and_then (st, user_of query)
                (λ st u. login_inner st fresh u.id u.name u.name_unicode 1 platforms)
        ]
      ]

  unfoldable pub login : State → Fresh → ℕ → Text → Option Text → ℕ → ℕ → State × Reply ExecSuccess
  login st fresh user_id username username_unicode privileges platforms =
      and_then (login_inner st fresh user_id username username_unicode privileges platforms)
        (λ st a. (st, ok success))
