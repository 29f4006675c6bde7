-- ===== src/Chat/Snapshot.antt =====
-- core/services/chat/src/{components,services/chat}.rs: the snapshot of the chat service, and the
-- service that is made of one.
pub mod Restored
use peace.Base.{ℕ, suc, ◌%◌, ◌^◌, length, Option, none, some, List, [], ◌∷◌, map}
use peace.Base.Keys.{nat_eq}
use peace.Base.HashMap.{HashMap, get, insert}
use peace.Chat.{Channel, ChannelType, ChatSession, BanchoChatExt, JoinedChannel}
use peace.Chat.Channels.{ChannelIndexes, add_channel, no_channels, from_indexes}
use peace.Chat.Service.{State, deref, write_session, write_channel}
use peace.Chat.Service.Dequeue.{values}
use peace.MessageQueue.{MessageData, create_snapshot, from_snapshot}
use peace.PacketsQueue.{Packet, from_packets, create_snapshot as queued}
use peace.Users.{Text, BaseSession}
use peace.Users.Store.{UserIndexes, new_indexes, add_session, from_indexes as store_from}

pub record JoinedChannelData : Type 0 where
  pub channel_id : ℕ
  pub message_index : ℕ
  pub joined_time : ℕ

pub record BanchoChatExtData : Type 0 where
  pub packets_queue : List Packet
  pub notify_index : ℕ

-- `BaseSessionData` has the fields of a `BaseSession`.
pub record ChatSessionData : Type 0 where
  pub base : BaseSession
  pub platforms : ℕ
  pub bancho_ext : Option BanchoChatExtData
  pub joined_channels : List JoinedChannelData

pub record ChannelData : Type 0 where
  pub id : ℕ
  pub name : Text
  pub channel_type : ChannelType
  pub description : Option Text
  pub users : List ℕ
  pub min_msg_index : Option ℕ
  pub message_queue : List (MessageData Packet ℕ)
  pub created_at : ℕ
  pub updated_at : ℕ

pub record ChatServiceSnapshot : Type 0 where
  pub user_sessions : List ChatSessionData
  pub notify_queue : List (MessageData Packet ℕ)
  pub channels : List ChannelData

-- `collect_joined_channels`
unfoldable pub collect_joined_channels : HashMap ℕ JoinedChannel → List JoinedChannelData
collect_joined_channels = map (λ entry. record {
  channel_id = entry.0;
  message_index = entry.1.message_index;
  joined_time = entry.1.joined_time;
})

-- `create_snapshot` of a bancho client and of a session
unfoldable pub ext_data : BanchoChatExt → BanchoChatExtData
unfolding queued
ext_data ext = record { packets_queue = queued ext.packets_queue; notify_index = ext.notify_index }

unfoldable pub session_data : ChatSession → ChatSessionData
unfolding collect_joined_channels ext_data
session_data s = record {
  base = s.base;
  platforms = s.platforms;
  bancho_ext = elim s.bancho_ext [ none ↦ none | some ext ↦ some (ext_data ext) ];
  joined_channels = collect_joined_channels s.joined_channels;
}

-- `ChannelData::from_channel`
unfoldable pub channel_data : Channel → ChannelData
unfolding create_snapshot
channel_data ch = record {
  id = ch.id;
  name = ch.name;
  channel_type = ch.channel_type;
  description = ch.description;
  users = map (λ entry. entry.0) ch.users;
  min_msg_index = ch.min_msg_index;
  message_queue = create_snapshot ch.message_queue;
  created_at = ch.created_at;
  updated_at = ch.updated_at;
}

unfoldable pub create_service_snapshot : State → ChatServiceSnapshot
unfolding session_data channel_data create_snapshot
create_service_snapshot st = record {
  user_sessions = map (λ a. session_data (st.sessions a)) (values st.user_sessions.indexes.user_id);
  notify_queue = create_snapshot st.notify_queue;
  channels = map (λ c. channel_data (st.channel_at c)) (values st.channels.indexes.channel_id);
}

-- The address of `Weak::new()`, at which no channel is made.
abbrev pub nowhere : ℕ
nowhere = 0

-- `HashMap::from_iter` of the joined channels, whose pointers point to nothing yet
unfoldable pub joined_from :
    List JoinedChannelData → HashMap ℕ JoinedChannel → HashMap ℕ JoinedChannel
joined_from [] joined_channels = joined_channels
joined_from (j ∷ js) joined_channels = joined_from js (
    insert j.channel_id
      (record { ptr = nowhere; message_index = j.message_index; joined_time = j.joined_time })
      joined_channels)

-- `From<BanchoChatExtData>`
unfoldable pub ext_from_data : BanchoChatExtData → BanchoChatExt
unfolding from_packets
ext_from_data d = record {
  packets_queue = from_packets d.packets_queue;
  notify_index = d.notify_index;
  receive_channel_updates = [];
}

-- `From<ChatSessionData>`
unfoldable pub session_from : ChatSessionData → ChatSession
unfolding joined_from ext_from_data
session_from d = record {
  base = d.base;
  platforms = d.platforms;
  bancho_ext = elim d.bancho_ext [ none ↦ none | some ext ↦ some (ext_from_data ext) ];
  joined_channels = joined_from d.joined_channels [];
  channel_count = length d.joined_channels % 2 ^ 32;
}

-- The sessions of the snapshot, each at an address of its own.
unfoldable pub add_sessions : State → UserIndexes ℕ → List ChatSessionData → State × UserIndexes ℕ
unfolding session_from add_session
add_sessions st indexes [] = (st, indexes)
add_sessions st indexes (u ∷ user_sessions) =
    let a = st.next_session in
    let st' = write_session (record st { next_session = suc a }) a (session_from u) in
    add_sessions st' (add_session (deref st') indexes a) user_sessions

-- The users of a channel, each with its session if it has one.
unfoldable pub users_from :
    State → UserIndexes ℕ → List ℕ → HashMap ℕ (Option ℕ) → HashMap ℕ (Option ℕ)
users_from st indexes [] users = users
users_from st indexes (user_id ∷ ids) users = users_from st indexes ids (
    insert user_id
      (elim (get user_id indexes.user_id) [ none ↦ none | some a ↦ some (deref st a).id ]) users)

unfoldable pub channel_from : State → UserIndexes ℕ → ChannelData → Channel
unfolding users_from from_snapshot
channel_from st indexes d = record {
  id = d.id;
  name = d.name;
  channel_type = d.channel_type;
  description = d.description;
  users = users_from st indexes d.users [];
  user_count = length d.users % 2 ^ 32;
  min_msg_index = d.min_msg_index;
  message_queue = from_snapshot d.message_queue;
  created_at = d.created_at;
  updated_at = d.updated_at;
}

-- `entry(..).and_modify(..).or_insert_with(..)`: the joined channel of a session points to the channel.
unfoldable pub link : ChatSession → ℕ → ℕ → ℕ → ℕ → ChatSession
link s channel_id c new_id now =
    let joined : JoinedChannel = elim (get channel_id s.joined_channels) [
      | some j ↦ record j { ptr = c }
      | none ↦ record { ptr = c; message_index = new_id; joined_time = now }
    ] in
    record s { joined_channels = insert channel_id joined s.joined_channels }

-- The loop over the users of a channel, where a new entry gets the id of `new_ids`.
unfoldable pub link_all :
    State → UserIndexes ℕ → (ℕ → ℕ → ℕ) → ℕ → ℕ → ℕ → HashMap ℕ (Option ℕ) → State
unfolding link
link_all st indexes new_ids channel_id c now [] = st
link_all st indexes new_ids channel_id c now ((user_id, s) ∷ users) =
    link_all
      (elim (get user_id indexes.user_id) [
        | none ↦ st
        | some a ↦ write_session st a (link (st.sessions a) channel_id c (new_ids c user_id) now)
      ])
      indexes new_ids channel_id c now users

unfoldable pub add_channels :
    State
    → UserIndexes ℕ
    → ChannelIndexes ℕ
    → (ℕ → ℕ → ℕ)
    → ℕ
    → List ChannelData
    → State × ChannelIndexes ℕ
unfolding channel_from link_all add_channel
add_channels st indexes x new_ids now [] = (st, x)
add_channels st indexes x new_ids now (d ∷ channels) =
    let c = st.next_channel in
    let ch = channel_from st indexes d in
    let st' = write_channel (record st { next_channel = suc c }) c ch in
    let linked = link_all st' indexes new_ids ch.id c now ch.users in
    add_channels linked indexes (add_channel linked.channel_at x c) new_ids now channels

-- `from_snapshot`; `heap` has what is at the addresses that nobody has, and the rest is replaced.
unfoldable pub service_from : State → (ℕ → ℕ → ℕ) → ℕ → ChatServiceSnapshot → State
unfolding add_sessions add_channels
service_from heap new_ids now snapshot =
    let sessions =
      add_sessions (record heap { next_channel = suc nowhere }) new_indexes
        snapshot.user_sessions in
    let channels = add_channels sessions.0 sessions.1 no_channels new_ids now snapshot.channels in
    record channels.0 {
      user_sessions = store_from sessions.1;
      channels = from_indexes channels.1;
      notify_queue = from_snapshot snapshot.notify_queue;
    }
