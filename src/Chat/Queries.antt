-- ===== src/Chat/Queries.antt =====
-- core/pb/modules/chat/src/lib.rs: the query for a channel and the target of a message, in messages
-- of the RPC interface.
use peace.Base.{ℕ, ◌+◌, ◌-◌, ◌%◌, ◌^◌, ◌<◌, ◌≡◌, refl, ap, arith, ltb, if◌then◌else◌}
use peace.Base.{Option, none, some}
use peace.Base.Outcome.{Outcome, ok, ◌>>=◌, ok_or}
use peace.BanchoState.Queries.{ConvertError, decoding_error, invalid_params, Ulids}
use peace.Chat.Channels.{ChannelQuery, by_id, by_name}
use peace.Users.{Text, UserQuery, by_session_id, by_user_id, by_username, by_username_unicode}

pub data QueryType : Type 0 where
  channel_id : QueryType
  channel_name : QueryType

-- `query_type` is what the method of that name returns.
pub record RawChannelQuery : Type 0 where
  pub query_type : QueryType
  pub int_val : Option ℕ
  pub string_val : Option Text

-- `TryFrom<RawChannelQuery>`
unfoldable pub query_from : QueryType → Option ℕ → Option Text → Outcome ConvertError ChannelQuery
query_from channel_id int_val string_val = do id ← ok_or int_val invalid_params; ok (by_id id)
query_from channel_name int_val string_val = do
  name ← ok_or string_val invalid_params
  ok (by_name name)

unfoldable pub into_channel_query : RawChannelQuery → Outcome ConvertError ChannelQuery
unfolding query_from
into_channel_query raw = query_from raw.query_type raw.int_val raw.string_val

-- `From<ChannelQuery>`
unfoldable pub raw_query_from : ChannelQuery → RawChannelQuery
raw_query_from (by_id id) = record { query_type = channel_id; int_val = some id; string_val = none }
raw_query_from (by_name name) = record {
  query_type = channel_name;
  int_val = none;
  string_val = some name;
}

pub data ChatTarget : Type 0 where
  channel_id : ChatTarget
  channel_name : ChatTarget
  session_id : ChatTarget
  user_id : ChatTarget
  username : ChatTarget
  username_unicode : ChatTarget

pub data ChatMessageTarget : Type 0 where
  channel : ChannelQuery → ChatMessageTarget
  user : UserQuery → ChatMessageTarget

-- `target_type` is what the method of that name returns.
pub record RawChatMessageTarget : Type 0 where
  pub target_type : ChatTarget
  pub int_val : Option ℕ
  pub string_val : Option Text

-- `as u64` of an `i32`, by its bits, which extends the sign; and `as i32` of a `u64`
abbrev pub extend_sign : ℕ → ℕ
extend_sign n = if ltb n (2 ^ 31) then n else n + (2 ^ 64 - 2 ^ 32)

abbrev pub as_i32 : ℕ → ℕ
as_i32 n = n % 2 ^ 32

as_i32-extend_sign : (n : ℕ) → n < 2 ^ 32 → as_i32 (extend_sign n) ≡ n
as_i32-extend_sign n h = ground arith

module _ (ulids : Ulids) where
  -- `TryFrom<RawChatMessageTarget>`
  unfoldable pub target_from :
      ChatTarget → Option ℕ → Option Text → Outcome ConvertError ChatMessageTarget
  target_from channel_id int_val string_val = do
    id ← ok_or int_val invalid_params
    ok (channel (by_id id))
  target_from channel_name int_val string_val = do
    name ← ok_or string_val invalid_params
    ok (channel (by_name name))
  target_from session_id int_val string_val = do
    text ← ok_or string_val invalid_params
    id ← ok_or (ulids.from_str text) decoding_error
    ok (user (by_session_id id))
  target_from user_id int_val string_val = do
    id ← ok_or int_val invalid_params
    ok (user (by_user_id (as_i32 id)))
  target_from username int_val string_val = do
    name ← ok_or string_val invalid_params
    ok (user (by_username name))
  target_from username_unicode int_val string_val = do
    name ← ok_or string_val invalid_params
    ok (user (by_username_unicode name))

  unfoldable pub into_message_target : RawChatMessageTarget → Outcome ConvertError ChatMessageTarget
  unfolding target_from
  into_message_target raw = target_from raw.target_type raw.int_val raw.string_val

  -- `From<ChatMessageTarget>`
  unfoldable pub raw_target_from : ChatMessageTarget → RawChatMessageTarget
  raw_target_from (channel (by_id id)) = record {
    target_type = channel_id;
    int_val = some id;
    string_val = none;
  }
  raw_target_from (channel (by_name name)) = record {
    target_type = channel_name;
    int_val = none;
    string_val = some name;
  }
  raw_target_from (user (by_session_id id)) = record {
    target_type = session_id;
    int_val = none;
    string_val = some (ulids.to_string id);
  }
  raw_target_from (user (by_user_id id)) = record {
    target_type = user_id;
    int_val = some (extend_sign id);
    string_val = none;
  }
  raw_target_from (user (by_username name)) = record {
    target_type = username;
    int_val = none;
    string_val = some name;
  }
  raw_target_from (user (by_username_unicode name)) = record {
    target_type = username_unicode;
    int_val = none;
    string_val = some name;
  }

  -- The user id of a target, where it has one, is an `i32`.
  abbrev pub IsI32 : ChatMessageTarget → Type 0
  IsI32 (channel query) = Unit {0}
  IsI32 (user (by_session_id id)) = Unit {0}
  IsI32 (user (by_user_id id)) = id < 2 ^ 32
  IsI32 (user (by_username name)) = Unit {0}
  IsI32 (user (by_username_unicode name)) = Unit {0}

  -- Where the text of a `Ulid` is read back as that `Ulid`, and a user id has 32 bits, the target of
  -- a chat message that is written as an RPC message is read back as it was: negative user ids too.
  pub into_message_target-raw_target_from :
      ((id : ℕ) → ulids.from_str (ulids.to_string id) ≡ some id)
      → (target : ChatMessageTarget) → IsI32 target
      → into_message_target (raw_target_from target) ≡ ok target
  unfolding into_message_target target_from raw_target_from
  into_message_target-raw_target_from decodes (channel (by_id id)) h = refl
  into_message_target-raw_target_from decodes (channel (by_name name)) h = refl
  into_message_target-raw_target_from decodes (user (by_session_id id)) h =
      ground (arith, decodes id)
  into_message_target-raw_target_from decodes (user (by_user_id id)) h =
      ap (λ i. ok (user (by_user_id i))) (as_i32-extend_sign id h)
  into_message_target-raw_target_from decodes (user (by_username name)) h = refl
  into_message_target-raw_target_from decodes (user (by_username_unicode name)) h = refl
