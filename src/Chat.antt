-- ===== src/Chat.antt =====
-- core/services/chat/src/components.rs: channels, and what a chat session knows of them. A time and
-- a `Ulid` are numbers; a weak pointer is the address of what it points to.
pub mod Channels
pub mod Membership
pub mod Queries
pub mod Service
pub mod Recycle
pub mod Snapshot
use peace.Base.{ℕ, Bool, true, false, Option, none, some, List}
use peace.Base.HashMap.{HashMap}
use peace.MessageQueue.{RawMessageQueue}
use peace.PacketsQueue.{PacketsQueue}
use peace.Users.{Text, BaseSession}

-- `ChannelType` of core/domain/chat/src/lib.rs
pub data ChannelType : Type 0 where
  private : ChannelType
  public : ChannelType
  group : ChannelType
  multiplayer : ChannelType
  spectator : ChannelType

-- `channel_type == ChannelType::Public`
abbrev pub is_public : ChannelType → Bool
is_public private = false
is_public public = true
is_public group = false
is_public multiplayer = false
is_public spectator = false

-- A user of the channel, by its id, has a session or, when the channel was made with it, none.
pub record Channel : Type 0 where
  pub id : ℕ
  pub name : Text
  pub channel_type : ChannelType
  pub description : Option Text
  pub users : HashMap ℕ (Option ℕ)
  pub user_count : ℕ
  pub min_msg_index : Option ℕ
  pub message_queue : RawMessageQueue (List ℕ) ℕ
  pub created_at : ℕ
  pub updated_at : ℕ

-- `ptr` is the address of the channel, which the code has a weak pointer to.
pub record JoinedChannel : Type 0 where
  pub ptr : ℕ
  pub message_index : ℕ
  pub joined_time : ℕ

-- `receive_channel_updates` has the time of the last change of each channel that was told.
pub record BanchoChatExt : Type 0 where
  pub packets_queue : PacketsQueue
  pub notify_index : ℕ
  pub receive_channel_updates : HashMap ℕ ℕ

-- `ChatSession` with the fields of its `ChatSessionExtend`; the platforms are the bits of an `i32`.
pub record ChatSession : Type 0 where
  pub base : BaseSession
  pub platforms : ℕ
  pub bancho_ext : Option BanchoChatExt
  pub joined_channels : HashMap ℕ JoinedChannel
  pub channel_count : ℕ
