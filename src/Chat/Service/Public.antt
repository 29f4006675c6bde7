-- ===== src/Chat/Service/Public.antt =====
-- core/services/chat/src/services/chat.rs: `load_public_channels` and `get_public_channels`.
use peace.BanchoState.Queries.{ExecSuccess, success}
use peace.Base.{ℕ, suc, false, Option, none, some, List, [], ◌∷◌, map}
use peace.Base.HashMap.{HashMap}
use peace.Chat.{Channel, ChannelType, public}
use peace.Chat.Channels.{create_channel_inner}
use peace.Chat.Membership.{new as new_channel}
use peace.Chat.Service.{State, write_channel}
use peace.Users.{Text}

pub record ChannelInfo : Type 0 where
  pub id : ℕ
  pub name : Text
  pub channel_type : ChannelType
  pub description : Option Text
  pub online_users : ℕ
  pub users : Option (List ℕ)

-- "#osu", "default channel", "#peace" and "peace channel"
abbrev pub osu : Text
osu = 35 ∷ 111 ∷ 115 ∷ 117 ∷ []

abbrev pub default_channel : Text
default_channel =
    100 ∷ 101 ∷ 102 ∷ 97 ∷ 117 ∷ 108 ∷ 116 ∷ 32 ∷ 99 ∷ 104 ∷ 97 ∷ 110 ∷ 110 ∷ 101 ∷ 108 ∷ []

abbrev pub peace_name : Text
peace_name = 35 ∷ 112 ∷ 101 ∷ 97 ∷ 99 ∷ 101 ∷ []

abbrev pub peace_channel : Text
peace_channel = 112 ∷ 101 ∷ 97 ∷ 99 ∷ 101 ∷ 32 ∷ 99 ∷ 104 ∷ 97 ∷ 110 ∷ 110 ∷ 101 ∷ 108 ∷ []

-- The channels that are made at a time.
abbrev pub public_channels : ℕ → List Channel
public_channels now =
    new_channel 0 osu public (some default_channel) none now
    ∷ new_channel 1 peace_name public (some peace_channel) none now
    ∷ []

-- `create_channel_inner` of a channel that is `Arc`ed at the address `next_channel`
unfoldable pub store_channel : State → Channel → State
store_channel st channel =
    let st' =
      write_channel (record st { next_channel = suc st.next_channel }) st.next_channel channel in
    record st' { channels = create_channel_inner st'.channel_at st'.channels st.next_channel false }

unfoldable pub store_all : State → List Channel → State
unfolding store_channel
store_all st [] = st
store_all st (channel ∷ channels) = store_all (store_channel st channel) channels

unfoldable pub load_public_channels : State → ℕ → State × ExecSuccess
unfolding store_all new_channel
load_public_channels st now = (store_all st (public_channels now), success)

unfoldable pub to_channel_info : Channel → ChannelInfo
to_channel_info ch = record {
  id = ch.id;
  name = ch.name;
  channel_type = ch.channel_type;
  description = ch.description;
  online_users = ch.user_count;
  users = none;
}

unfoldable pub infos_of : State → HashMap ℕ ℕ → List ChannelInfo
unfolding to_channel_info
infos_of st = map (λ entry. to_channel_info (st.channel_at entry.1))

unfoldable pub get_public_channels : State → List ChannelInfo
unfolding infos_of
get_public_channels st = infos_of st st.channels.indexes.public_channels
