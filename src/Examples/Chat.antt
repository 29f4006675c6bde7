-- ===== src/Examples/Chat.antt =====
-- Runs of core/services/chat/src/components.rs on one channel and one session.
use peace.Base.{ℕ, ◌≡◌, refl, arith, true, some, none, List, [], ◌∷◌, done}
use peace.Base.Keys.{nat_eq}
use peace.Base.HashMap.{contains_key, get}
use peace.Chat.{Channel, ChatSession, public}
use peace.Chat.Channels.{Channels, create_channel, remove_channel, by_name, no_channels}
use peace.Chat.Channels.Indexed.{Indexed, start, created, removed, Reachable-Indexed}
use peace.Chat.Membership.{new as new_channel, join}
use peace.Chat.Membership.Counts.{Agree, join-Agree}

abbrev osu : List ℕ
osu = 35 ∷ 111 ∷ 115 ∷ 117 ∷ []

abbrev osu_channel : Channel
osu_channel = new_channel 1 osu public none none 0

abbrev by_itself : Channel → Channel
by_itself c = c

abbrev one_channel : Channels Channel
one_channel =
    (create_channel by_itself (record { indexes = no_channels; len = 0 }) osu_channel true).0

Reachable-Indexed_example : Indexed by_itself (remove_channel by_itself one_channel (by_name osu)).0
Reachable-Indexed_example =
    Reachable-Indexed by_itself (remove_channel by_itself one_channel (by_name osu)).0 (
      removed one_channel (by_name osu)
        (created (record { indexes = no_channels; len = 0 }) osu_channel true start))

abbrev alice_session : ChatSession
alice_session = record {
  base = record {
    id = 11;
    user_id = 1;
    username = 97 ∷ [];
    username_unicode = none;
    privileges = 1;
    created_at = 0;
    last_active = 0;
  };
  platforms = 1;
  bancho_ext = some (record {
    packets_queue = record { queue = [] };
    notify_index = 0;
    receive_channel_updates = [];
  });
  joined_channels = [];
  channel_count = 0;
}

nobody-Agree : Agree alice_session osu_channel
unfolding new_channel contains_key get
nobody-Agree = record {
  both = refl;
  users = tt;
  joined = tt;
  user_count = refl;
  channel_count = refl;
}

join-Agree_example :
    (s : ChatSession) × (c : Channel) × (join alice_session osu_channel 0 5 7 ≡ done (s, c))
    × Agree s c
    × (contains_key alice_session.base.user_id c.users ≡ true)
unfolding new_channel
join-Agree_example = join-Agree alice_session osu_channel 0 5 7 (omega arith) nobody-Agree
