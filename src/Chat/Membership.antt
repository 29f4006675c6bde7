-- ===== src/Chat/Membership.antt =====
-- core/services/chat/src/components.rs: `Channel::new`, `join` and `remove`, and their packets.
pub mod Counts
use peace.Base.{
  ℕ, ◌+◌, ◌-◌, ◌%◌, ◌^◌, Option, none, some, List, [], ◌∷◌, length, Exec, done, panic, ◌>>=◌,
}
use peace.Base.Keys.{Eq, nat_eq}
use peace.Base.HashMap.{HashMap, get, insert, remove}
use peace.Users.{Text, BaseSession}
use peace.Users.Store.{unwrap_or}
use peace.Chat.{Channel, ChannelType, ChatSession, JoinedChannel}
use peace.PacketsQueue.{PacketsQueue, push_packet}
use peace.Packets.Server.Channels.{channel_info, channel_join, channel_kick}

-- `fetch_add(1)` and `fetch_sub(1)` of a `U32`
abbrev pub add_one : ℕ → ℕ
add_one n = (n + 1) % 2 ^ 32

abbrev pub sub_one : ℕ → ℕ
sub_one n = (n + (2 ^ 32 - 1)) % 2 ^ 32

-- The map that the ids are collected into: an id that comes twice is one entry.
unfoldable pub collect_users : List ℕ → HashMap ℕ (Option ℕ) → HashMap ℕ (Option ℕ)
collect_users [] users = users
collect_users (id ∷ ids) users = collect_users ids (insert id none users)

-- `Channel::new`, at the time `now`
unfoldable pub new : ℕ → Text → ChannelType → Option Text → Option (List ℕ) → ℕ → Channel
new id name channel_type description users now = record {
  id = id;
  name = name;
  channel_type = channel_type;
  description = description;
  users = elim users [ none ↦ [] | some ids ↦ collect_users ids [] ];
  user_count = elim users [ none ↦ 0 | some ids ↦ length ids % 2 ^ 32 ];
  min_msg_index = none;
  message_queue = record { messages = [] };
  created_at = now;
  updated_at = now;
}

-- `info_packets`; the count becomes an `i16`
unfoldable pub info_packets : Channel → Exec (List ℕ)
info_packets channel =
    channel_info channel.name (unwrap_or channel.description []) (channel.user_count % 2 ^ 16)

unfoldable pub join_packets : Channel → Exec (List ℕ)
join_packets channel = channel_join channel.name

unfoldable pub kick_packets : Channel → Exec (List ℕ)
kick_packets channel = channel_kick channel.name

-- The channel after `users.entry(..).or_insert_with(..)`
unfoldable pub enter : Channel → ChatSession → Channel
enter channel session = elim (get session.base.user_id channel.users) [
  | some s ↦ channel
  | none ↦ record channel {
    users = insert session.base.user_id (some session.base.id) channel.users;
    user_count = add_one channel.user_count;
  }
]

-- The session after `joined_channels.entry(..).or_insert_with(..)`, for the channel at the address
-- `ptr`, at the time `now`. The default of a `Ulid` is a new id.
unfoldable pub note_joined : ChatSession → ℕ → ℕ → ℕ → ℕ → ChatSession
note_joined session channel_id ptr new_id now = elim (get channel_id session.joined_channels) [
  | some j ↦ session
  | none ↦ record session {
    joined_channels =
        insert channel_id (record { ptr = ptr; message_index = new_id; joined_time = now })
          session.joined_channels;
    channel_count = add_one session.channel_count;
  }
]

-- `users.remove(..)`
unfoldable pub leave : Channel → ChatSession → Channel
leave channel session = elim (get session.base.user_id channel.users) [
  | none ↦ channel
  | some s ↦ record channel {
    users = remove session.base.user_id channel.users;
    user_count = sub_one channel.user_count;
  }
]

-- `joined_channels.remove(..)`
unfoldable pub forget_joined : ChatSession → ℕ → ChatSession
forget_joined session channel_id = elim (get channel_id session.joined_channels) [
  | none ↦ session
  | some j ↦ record session {
    joined_channels = remove channel_id session.joined_channels;
    channel_count = sub_one session.channel_count;
  }
]

-- The notice to the bancho client, if the session has one.
unfoldable pub notify : ChatSession → Exec (List ℕ) → Exec ChatSession
notify session packets = elim session.bancho_ext [
  | none ↦ done session
  | some ext ↦ packets >>= λ packet. done (record session {
    bancho_ext = some (record ext { packets_queue = (push_packet ext.packets_queue packet).0 });
  })
]

-- `join`; the packets tell the name of the channel.
unfoldable pub join : ChatSession → Channel → ℕ → ℕ → ℕ → Exec (ChatSession × Channel)
join session channel ptr new_id now = do
  let channel' = enter channel session
  session' ← notify (note_joined session channel.id ptr new_id now) (join_packets channel')
  done (session', channel')

-- `remove`
unfoldable pub remove_member : ChatSession → Channel → Exec (ChatSession × Channel)
remove_member session channel = do
  let channel' = leave channel session
  session' ← notify (forget_joined session channel.id) (kick_packets channel')
  done (session', channel')
