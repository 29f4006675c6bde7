-- ===== src/Examples/Actions.antt =====
-- Runs of the processing of packets over two users.
use peace.Base.{
  ℕ, zero, suc, ◌+◌, ◌≤◌, ◌<◌, ◌^◌, ◌≡◌, ◌≢◌, refl, arith, Bool, true, false, Option, none, some,
  List, [], ◌∷◌, ◌++◌, length, Exec, done, panic,
}
use peace.Base.Keys.{nat_eq}
use peace.Base.HashMap.{get}
use peace.Base.BTreeMap.{get as get_message}
use peace.Bancho.Batch.{completed, ran, batch_completed, batch_process_bancho_packets}
use peace.Bancho.Processor.{ChatService, World, HandledPacket}
use peace.Bancho.Processor.Handlers.{process_bancho_packet, action_request}
use peace.Bancho.Processor.Isolated.{process_bancho_packet-isolated}
use peace.Bancho.Processor.Actions.{status_of, change_action-everyone}
use peace.Bancho.Processor.Todo.{is_todo, batch_process-todo}
use peace.BanchoState.Session.{new_extend}
use peace.BanchoState.Info.{user_stats_packet}
use peace.BanchoState.Queries.{ok}
use peace.BanchoState.Service.{State, dequeue_at}
use peace.BanchoState.Service.Calls.{changed}
use peace.Examples.BanchoState.{env, two_users}
use peace.Examples.Packets.{an_action, action_short, an_action-IsAction}
use peace.MessageQueue.{Message}
use peace.MessageQueue.Invalid.{if_valid}
use peace.Packets.Frames
use peace.Packets.Ids.{as_u8, osu_user_receive_updates, osu_user_friend_add}
use peace.Packets.Items.Encoding.{frame}
use peace.Packets.Structs
use peace.Packets.Structs.{ClientChangeAction, action_values}
use peace.Recycle.Notices.{recycle_notices, recycle_notices-get}

-- A chat service that does nothing.
abbrev quiet : ChatService ℕ
quiet = record {
  send_message = λ c u text target. done (c, none);
  join_channel = λ c name u. done (c, none);
  leave_channel = λ c name u. done (c, none);
  logout = λ c u. done (c, none);
}

abbrev generate : ℕ → ℕ
generate n = n + 9

abbrev world : World ℕ
world = record { bancho_state = two_users; chat = 0; messages = 0 }

abbrev filter_packet : Frames.Packet
filter_packet = record { id = osu_user_receive_updates; payload = some (1 ∷ 0 ∷ 0 ∷ 0 ∷ []) }

abbrev unwrapped : Exec (World ℕ × HandledPacket) → World ℕ
unwrapped panic = world
unwrapped (done (w, h)) = w

abbrev filtered : World ℕ
filtered = unwrapped (process_bancho_packet env false generate quiet 7 world filter_packet)

processed :
    process_bancho_packet env false generate quiet 7 world filter_packet
    ≡ done (filtered, completed none)
unfolding process_bancho_packet peace.Bancho.Processor.Handlers.user_receive_updates
    peace.Packets.Reader.read_number peace.BanchoState.Service.Calls.update_presence_filter
    peace.BanchoState.Enums.filter_from_i32 peace.BanchoState.Service.to_session
    peace.BanchoState.Queries.into_user_query peace.BanchoState.Queries.raw_from
    peace.BanchoState.Service.find peace.Users.Store.get_inner get
processed = refl

other_user : get 7 two_users.user_sessions.indexes.user_id ≢ some 1
unfolding get
other_user p = ground (arith, p)

process_bancho_packet-isolated_example : filtered.bancho_state.sessions 1 ≡ two_users.sessions 1
process_bancho_packet-isolated_example =
    process_bancho_packet-isolated env false generate quiet 7 world filtered filter_packet
      (completed none) processed 1 other_user

is_unfinished : is_todo osu_user_friend_add ≡ true
unfolding is_todo
is_unfinished = refl

batch_process-todo_example :
    batch_process_bancho_packets
      (process_bancho_packet env false generate quiet 7)
      world
      (frame (as_u8 osu_user_friend_add) (8 ∷ 0 ∷ 0 ∷ 0 ∷ []) ++ [])
    ≡ ran panic
batch_process-todo_example =
    batch_process-todo env false generate quiet world 7 osu_user_friend_add (8 ∷ 0 ∷ 0 ∷ 0 ∷ []) []
      is_unfinished (omega arith)

abbrev notice : ℕ → Message ℕ ℕ
notice n = record { content = n; has_read = []; validator = none }

-- Of three valid messages the first goes.
recycle_notices-get_example :
    get_message 3
      (recycle_notices
        (record { messages = (3, notice 10) ∷ (5, notice 20) ∷ (8, notice 30) ∷ [] })).0.messages
    ≡ if_valid (get_message 3 ((5, notice 20) ∷ (8, notice 30) ∷ []))
recycle_notices-get_example =
    recycle_notices-get 3 3 (notice 10) ((5, notice 20) ∷ (8, notice 30) ∷ [])
      (omega arith, (omega arith, (omega arith, tt)))

abbrev changed_state : State
changed_state = changed two_users 0 (action_request env false generate quiet 7 an_action)

abbrev bytes_of : Exec (List ℕ) → List ℕ
bytes_of panic = []
bytes_of (done p) = p

abbrev stats : List ℕ
stats = bytes_of (user_stats_packet env.floats (changed_state.sessions 0))

stats_packed : user_stats_packet env.floats (changed_state.sessions 0) ≡ done stats
unfolding user_stats_packet changed peace.Packets.Server.user_stats peace.Packets.Items.packet
    peace.Packets.Uleb.u32_to_uleb128 peace.Base.slice?
stats_packed = refl

sender_found : get 7 two_users.user_sessions.indexes.user_id ≡ some 0
unfolding get
sender_found = refl

index_below : (two_users.sessions 1).extends.notify_index ≤ generate 0
unfolding new_extend
index_below = omega arith

-- The user 7 changes its action, and the user 8 gets the stats packet.
change_action-everyone_example :
    (buf : List ℕ) × (w' : World ℕ) × (Structs.user_change_action an_action ≡ done buf)
    × (batch_process_bancho_packets (process_bancho_packet env false generate quiet 7) world buf
        ≡ ran (done (w', batch_completed none)))
    × ((w'.bancho_state.sessions 0).extends.bancho_status
        ≡ status_of env false generate quiet an_action)
    × ((before after : List ℕ) × ((dequeue_at w'.bancho_state 1).1 ≡ ok (before ++ stats ++ after)))
change_action-everyone_example =
    change_action-everyone env false generate quiet world 7 0 1 an_action stats an_action-IsAction
      action_short sender_found stats_packed index_below
