-- ===== src/Chat/Channels.antt =====
-- core/services/chat/src/components.rs: `ChannelIndexes` and `Channels`. Each method runs under the
-- lock of the indexes. They hold `Arc`s: `deref` is the channel that one points to.
pub mod Indexed
use peace.Base.{
  ℕ, ◌+◌, ◌-◌, ◌%◌, ◌^◌, Bool, true, false, if◌then◌else◌, Option, none, some, List, [], length,
}
use peace.Base.Keys.{Eq, nat_eq, text_eq}
use peace.Base.HashMap.{HashMap, get, insert, remove, contains_key}
use peace.Users.{Text}
use peace.Users.Store.{or_else, add_one, sub_one}
use peace.Chat.{Channel, is_public}

pub record ChannelIndexes (T : Type 0) : Type 0 where
  pub channel_id : HashMap ℕ T
  pub channel_name : HashMap Text T
  pub public_channels : HashMap ℕ T

pub record Channels (T : Type 0) : Type 0 where
  pub indexes : ChannelIndexes T
  pub len : ℕ

pub data ChannelQuery : Type 0 where
  by_id : ℕ → ChannelQuery
  by_name : Text → ChannelQuery

module _ {T : Type 0} where
  -- `ChannelIndexes::default`
  abbrev pub no_channels : ChannelIndexes T
  no_channels = record { channel_id = []; channel_name = []; public_channels = [] }

  -- `ChannelIndexes::remove_channel`
  unfoldable pub remove_from_indexes : ChannelIndexes T → ℕ → Text → ChannelIndexes T × Option T
  remove_from_indexes x channel_id channel_name =
      let removed = or_else (get channel_id x.channel_id) none in
      let removed = or_else (get channel_name x.channel_name) removed in
      let removed = or_else (get channel_id x.public_channels) removed in
      (
        record {
          channel_id = remove channel_id x.channel_id;
          channel_name = remove channel_name x.channel_name;
          public_channels = remove channel_id x.public_channels;
        },
        removed,
      )

  -- `from_indexes`
  unfoldable pub from_indexes : ChannelIndexes T → Channels T
  from_indexes indexes = record { indexes = indexes; len = length indexes.channel_id }

  -- `remove_channel_inner`
  unfoldable pub remove_channel_inner : Channels T → ℕ → Text → Channels T × Option T
  remove_channel_inner channels channel_id channel_name =
      let r = remove_from_indexes channels.indexes channel_id channel_name in
      (
        record {
          indexes = r.0;
          len = elim r.1 [ none ↦ channels.len | some c ↦ sub_one channels.len ];
        },
        r.1,
      )

  -- `get_channel_inner`, and `get_channel` under the read lock
  unfoldable pub get_channel_inner : ChannelIndexes T → ChannelQuery → Option T
  get_channel_inner x (by_id channel_id) = get channel_id x.channel_id
  get_channel_inner x (by_name channel_name) = get channel_name x.channel_name

  unfoldable pub is_channel_exists : Channels T → ChannelQuery → Bool
  is_channel_exists channels (by_id channel_id) =
      contains_key channel_id channels.indexes.channel_id
  is_channel_exists channels (by_name channel_name) =
      contains_key channel_name channels.indexes.channel_name

  -- `clear_all_channels`
  unfoldable pub clear_all_channels : Channels T → Channels T
  clear_all_channels channels = record { indexes = no_channels; len = 0 }

module _ {T : Type 0} (deref : T → Channel) where
  -- `add_channel`
  unfoldable pub add_channel : ChannelIndexes T → T → ChannelIndexes T
  add_channel x channel = record {
    channel_id = insert (deref channel).id channel x.channel_id;
    channel_name = insert (deref channel).name channel x.channel_name;
    public_channels =
        if is_public (deref channel).channel_type
        then insert (deref channel).id channel x.public_channels
        else x.public_channels;
  }

  -- The end of `create_channel_inner`.
  abbrev pub added : Channels T → T → Channels T
  added channels channel = record {
    indexes = add_channel channels.indexes channel;
    len = add_one channels.len;
  }

  -- `create_channel_inner`
  unfoldable pub create_channel_inner : Channels T → T → Bool → Channels T
  create_channel_inner channels channel replace_if_exists =
      elim (get_channel_inner channels.indexes (by_id (deref channel).id)) [
        | none ↦ added channels channel
        | some old_channel ↦
            if replace_if_exists
            then added
                (remove_channel_inner channels (deref old_channel).id (deref old_channel).name).0
                channel
            else channels
      ]

  -- `create_channel` returns the new channel, also where the old one was kept.
  unfoldable pub create_channel : Channels T → T → Bool → Channels T × T
  create_channel channels channel replace_if_exists =
      (create_channel_inner channels channel replace_if_exists, channel)

  -- `remove_channel`
  unfoldable pub remove_channel : Channels T → ChannelQuery → Channels T × Option T
  remove_channel channels query = elim (get_channel_inner channels.indexes query) [
    | none ↦ (channels, none)
    | some channel ↦ remove_channel_inner channels (deref channel).id (deref channel).name
  ]
