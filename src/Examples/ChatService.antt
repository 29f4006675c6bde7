-- ===== src/Examples/ChatService.antt =====
-- Runs of the chat service with the sessions of two users and a channel.
use peace.Base.{ℕ, ◌+◌, ◌-◌, zero, suc, ◌==◌, ◌≡◌, ◌≢◌, refl, arith, true, bit_and}
use peace.Base.{Option, none, some, List, [], ◌∷◌, ◌++◌, done}
use peace.Base.Keys.{nat_eq, text_eq}
use peace.Base.HashMap.{holds, get}
use peace.Base.Outcome.{ok, err, panicked}
use peace.BanchoState.Queries.{Ulids, success}
use peace.Chat.{ChatSession, JoinedChannel, BanchoChatExt, public}
use peace.Chat.Membership.{new as new_channel}
use peace.Chat.Queries.{
  user, into_message_target, raw_target_from, into_message_target-raw_target_from,
}
use peace.Chat.Service.{Reply, Env, Fresh, State, channel_is_alive, user_not_exists}
use peace.Chat.Service.Calls.{send_message, join_channel, leave_channel, join_at, send_to_channel}
use peace.Chat.Service.Dequeue.{dequeue_at, dequeue_chat_packets}
use peace.Chat.Service.Logout.{RwLock, logout, logout_bancho, leave_loop, waits, blocked}
use peace.Chat.Service.Public.{load_public_channels, osu, peace_name}
use peace.Base.{leb}
use peace.Base.BTreeMap.{get as get_message}
use peace.Base.HashSet.{contains}
use peace.MessageQueue.{Message, skips, is_valid}
use peace.MessageQueue.Delivery.{unread, last_id}
use peace.Chat.Service.{write_channel}
use peace.Chat.{Channel}
use peace.Chat.Recycle.{recycle_channel}
use peace.Chat.Recycle.Lost.{receive_channel-recycle_channel}
use peace.Chat.Service.Dequeue.{receive_channel}
use peace.Chat.Snapshot.{session_data, session_from, link_all}
use peace.Chat.Snapshot.Restored.{
  IsLinked, link_all-IsLinked, unlinked, untold, session_from-session_data,
}
use peace.Chat.Service.Reading.{notices, messages}
use peace.Chat.Service.Delivery.{answer, dequeue_at-messages}
use peace.Chat.Service.Infos.{outstanding, infos_of, behind}
use peace.Chat.Service.Sent.{send_to_channel-own}
use peace.Chat.Service.Delivered.{Contains}
use peace.Chat.Service.Joined.{join_at-send-dequeue}
use peace.Chat.Service.Ending.{logout-blocked}
use peace.Chat.Service.Stored.{IsGiven, Keeps, IsThere}
use peace.Chat.Service.Loaded.{first_channel, second_channel, load_public_channels-once}
use peace.Chat.Service.Errors.{IsAtomic, calls-IsAtomic}
use peace.Packets.Ids.{as_u8, bancho_send_message}
use peace.Packets.Items.{text, number}
use peace.Packets.Items.Encoding.{packet-frame, frame, encodings}
use peace.Packets.Server.Channels.{send_message as pack_message}
use peace.PacketsQueue.Flow.{joined}
use peace.Users.{Text, by_user_id}

abbrev from_text : List ℕ → Option ℕ
from_text [] = none
from_text (n ∷ ns) = some n

abbrev ulids : Ulids
ulids = record { from_str = from_text; to_string = λ n. n ∷ [] }

-- No user is in the database, and the platforms are bits of which a `u32` has 32.
abbrev env : Env
env = record {
  ulids = ulids;
  users_repository = record {
    get_user_by_id = λ id. err user_not_exists;
    get_user_by_username = λ name. err user_not_exists;
    get_user_by_username_unicode = λ name. err user_not_exists;
  };
  platforms = record {
    contains = λ p q. bit_and p q == q;
    and = bit_and;
    not = λ p. 4294967295 - p;
    is_none = λ p. p == 0;
    all = 4294967295;
  };
}

abbrev in_channel : JoinedChannel
in_channel = record { ptr = 0; message_index = 5; joined_time = 3 }

abbrev client : BanchoChatExt
client = record {
  packets_queue = record { queue = (9 ∷ []) ∷ [] };
  notify_index = 0;
  receive_channel_updates = [];
}

-- The session of a user who uses the bancho client.
abbrev session_of : ℕ → List (ℕ × JoinedChannel) → ChatSession
session_of user_id joined_channels = record {
  base = record {
    id = user_id + 20;
    user_id = user_id;
    username = 97 ∷ [];
    username_unicode = none;
    privileges = 1;
    created_at = 0;
    last_active = 0;
  };
  platforms = 1;
  bancho_ext = some client;
  joined_channels = joined_channels;
  channel_count = 0;
}

abbrev sessions : ℕ → ChatSession
sessions zero = session_of 7 ((1, in_channel) ∷ [])
sessions (suc n) = session_of 8 []

-- The users 7 and 8, at the addresses 0 and 1, and the channel 1, at the address 0, which the user 7
-- has joined.
abbrev two_users : State
two_users = record {
  user_sessions = record {
    indexes = record {
      session_id = (27, 0) ∷ (28, 1) ∷ [];
      user_id = (7, 0) ∷ (8, 1) ∷ [];
      username = [];
      username_unicode = [];
    };
    len = 2;
  };
  sessions = sessions;
  next_session = 2;
  channels = record {
    indexes = record {
      channel_id = (1, 0) ∷ [];
      channel_name = (35 ∷ [], 0) ∷ [];
      public_channels = (1, 0) ∷ [];
    };
    len = 1;
  };
  channel_at = λ c. new_channel 1 (35 ∷ []) public none (some (7 ∷ [])) 0;
  next_channel = 1;
  notify_queue = record { messages = [] };
}

abbrev fresh : Fresh
fresh = record { id = 40; index = 41; now = 10 }

-- A message of the user 7.
abbrev hello : List ℕ
hello = 104 ∷ 105 ∷ []

abbrev hello_packet : List ℕ
hello_packet =
    frame (as_u8 bancho_send_message)
      (encodings (text (97 ∷ []) ∷ text hello ∷ text (35 ∷ []) ∷ number 4 7 ∷ []))

hello_packed : pack_message (97 ∷ []) hello (35 ∷ []) 7 ≡ done hello_packet
unfolding pack_message
hello_packed =
    packet-frame bancho_send_message
      (text (97 ∷ []) ∷ text hello ∷ text (35 ∷ []) ∷ number 4 7 ∷ [])
      (omega arith, (omega arith, (omega arith, (tt, tt))))

alive : channel_is_alive two_users 0 ≡ true
unfolding channel_is_alive holds
alive = refl

dequeue_at-messages_example :
    (dequeue_at two_users 0).1
    ≡ answer
        (behind
          (joined (notices two_users 7 client)
            ++ joined (messages two_users 7 ((1, in_channel) ∷ [])))
          (infos_of (outstanding two_users [] (0 ∷ []))))
        (joined ((9 ∷ []) ∷ []))
dequeue_at-messages_example = dequeue_at-messages two_users 0 client refl (tt, tt) (tt, tt)

-- The answer of a call that returns bytes.
abbrev bytes_of : Reply (List ℕ) → List ℕ
bytes_of (ok bytes) = bytes
bytes_of (err e) = []
bytes_of panicked = []

into_message_target-raw_target_from_example :
    into_message_target ulids (raw_target_from ulids (user (by_user_id 4294967295)))
    ≡ ok (user (by_user_id 4294967295))
into_message_target-raw_target_from_example =
    into_message_target-raw_target_from ulids (λ id. refl) (user (by_user_id 4294967295))
      (omega arith)

-- A lock that counts its readers.
abbrev counting : RwLock ℕ
counting = record { free = 0; read = suc; can_write = λ readers. readers == 0 }

logout-blocked_example :
    ((logout env counting two_users fresh (by_user_id 7) 1).1 ≡ blocked)
    × ((logout env counting two_users fresh (by_user_id 7) 1).0.user_sessions
        ≡ two_users.user_sessions)
    × (((logout env counting two_users fresh (by_user_id 7) 1).0.sessions 0).joined_channels
        ≡ (1, in_channel) ∷ [])
    × ((leave_loop counting 0 (logout_bancho env two_users 0 1) fresh 0 ((1, in_channel) ∷ [])).1
        ≢ waits)
unfolding peace.Users.Store.get_inner get
logout-blocked_example =
    logout-blocked env counting two_users fresh (by_user_id 7) 1 0 1 in_channel
      (λ readers. ground arith) refl refl refl refl refl refl alive

abbrev loaded : State
loaded = (load_public_channels two_users 10).0

one_channel-IsGiven : IsGiven two_users
unfolding get
one_channel-IsGiven id c there = ground (arith, there)

-- The channel 1 is there under another name, and so stays what it is.
load_public_channels-once_example :
    Keeps loaded two_users
    × IsThere loaded two_users 0 (first_channel 10)
    × IsThere loaded two_users 1 (second_channel 10)
    × ((name : Text)
        → name ≢ osu
        → name ≢ peace_name
        → get name loaded.channels.indexes.channel_name
          ≡ get name two_users.channels.indexes.channel_name)
    × ((load_public_channels loaded 20).0.channels ≡ loaded.channels)
    × Keeps (load_public_channels loaded 20).0 loaded
load_public_channels-once_example = load_public_channels-once two_users 10 20 one_channel-IsGiven

calls-IsAtomic_example :
    IsAtomic two_users (send_message env two_users fresh none hello none)
    × IsAtomic two_users (join_channel env two_users fresh none none)
    × IsAtomic two_users (leave_channel env two_users fresh none none)
    × IsAtomic two_users (dequeue_chat_packets env two_users fresh (by_user_id 9))
calls-IsAtomic_example = calls-IsAtomic env two_users fresh none (by_user_id 9) none hello none

send_to_channel-own_example :
    (dequeue_at (send_to_channel two_users 41 0 hello 0).0 0).1 ≡ (dequeue_at two_users 0).1
unfolding new_channel
send_to_channel-own_example =
    send_to_channel-own two_users 41 0 0 hello hello_packet client refl (tt, tt) tt hello_packed

-- The user 8 joins the channel, and the user 7 sends a message to it.
join_at-send-dequeue_example :
    ((join_at two_users fresh 1 0).1 ≡ ok success)
    × (data' : List ℕ) × ((dequeue_at
          (send_to_channel (join_at two_users fresh 1 0).0 50 0 hello 0).0
          1).1
        ≡ ok data')
    × Contains hello_packet data'
unfolding new_channel get
join_at-send-dequeue_example =
    join_at-send-dequeue two_users fresh 0 1 0 50 hello hello_packet client refl refl tt tt
      (λ d. (omega arith, omega arith)) alive refl (omega arith) hello_packed

abbrev news : Message (List ℕ) ℕ
news = record { content = 3 ∷ []; has_read = 9 ∷ []; validator = none }

-- A message of the user 9 waits in the channel.
abbrev with_news : State
with_news =
    write_channel two_users 0
      (record (two_users.channel_at 0) { message_queue = record { messages = (6, news) ∷ [] } })

receive_channel-recycle_channel_example :
    (ch' : Channel) × (n : ℕ) × (recycle_channel
        ((receive_channel with_news 0 1 in_channel []).0.channel_at 0)
      ≡ done (ch', n))
    × ((k : ℕ) → leb k 6 ≡ true → get_message k ch'.message_queue.messages ≡ none)
unfolding new_channel unread last_id skips is_valid contains
receive_channel-recycle_channel_example =
    receive_channel-recycle_channel with_news 0 1 6 in_channel [] news [] refl (omega arith, tt)
      refl

session_from-session_data_example :
    ((session_from (session_data (sessions 0))).base ≡ (sessions 0).base)
    × ((session_from (session_data (sessions 0))).platforms ≡ 1)
    × ((session_from (session_data (sessions 0))).bancho_ext ≡ untold (some client))
    × ((session_from (session_data (sessions 0))).channel_count ≡ 1)
    × ((k : ℕ)
        → get k (session_from (session_data (sessions 0))).joined_channels
          ≡ unlinked (get k ((1, in_channel) ∷ [])))
unfolding get
session_from-session_data_example = session_from-session_data (sessions 0) (refl, tt)

link_all-IsLinked_example :
    IsLinked
      (link_all two_users two_users.user_sessions.indexes (λ c u. 60) 1 5 10 ((8, none) ∷ []))
      1
      1
      5
unfolding get
link_all-IsLinked_example =
    link_all-IsLinked two_users two_users.user_sessions.indexes (λ c u. 60) 8 1 1 5 10
      ((8, none) ∷ []) none refl refl
