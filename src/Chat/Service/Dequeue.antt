-- ===== src/Chat/Service/Dequeue.antt =====
-- core/services/chat/src/services/chat.rs: `dequeue_chat_packets`.
use peace.Base.{
  Bool, true, false, ℕ, ltb, ◌==◌, if◌then◌else◌, Option, none, some, List, [], ◌∷◌, ◌++◌, map,
}
use peace.Base.{Exec, done, panic}
use peace.Base.Keys.{nat_eq}
use peace.Base.HashMap.{HashMap, get, insert, remove}
use peace.Base.Outcome.{ok, panicked}
use peace.Chat.{BanchoChatExt, JoinedChannel}
use peace.Chat.Membership.{info_packets}
use peace.Chat.Service.{
  Reply, Env, Fresh, State, deref, write_session, write_channel, channel_is_alive, and_then,
  get_session, bancho,
}
use peace.MessageQueue.{ReceivedMessages, receive_messages}
use peace.PacketsQueue.{Packet, dequeue, dequeue_all_packets}
use peace.Users.{UserQuery}

unfoldable pub set_ext : State → ℕ → BanchoChatExt → State
set_ext st a ext = write_session st a (record (st.sessions a) { bancho_ext = some ext })

abbrev pub values : HashMap ℕ ℕ → List ℕ
values = map (λ entry. entry.1)

-- The date that was told is the channel's.
abbrev pub is_told : Option ℕ → ℕ → Bool
is_told none updated_at = false
is_told (some date) updated_at = date == updated_at

-- `for packet in messages { data.extend(packet); }`, which is the loop of `dequeue`
abbrev pub extend_all : List Packet → List ℕ → List ℕ
extend_all = dequeue

unfoldable pub with_notices :
    State
    → ℕ
    → BanchoChatExt
    → Exec (Option (ReceivedMessages Packet))
    → State × Exec (BanchoChatExt × List ℕ)
unfolding set_ext
with_notices st a ext panic = (st, panic)
with_notices st a ext (done none) = (st, done (ext, []))
with_notices st a ext (done (some m)) =
    let ext' = record ext { notify_index = m.last_msg_id } in
    (set_ext st a ext', done (ext', extend_all m.messages []))

-- The messages of the notify queue: `bancho_ext` after it, and the bytes of their packets.
unfoldable pub receive_notices : State → ℕ → BanchoChatExt → State × Exec (BanchoChatExt × List ℕ)
unfolding receive_messages with_notices
receive_notices st a ext =
    let r = receive_messages st.notify_queue (deref st a).user_id ext.notify_index none in
    with_notices (record st { notify_queue = r.0 }) a ext r.1

-- `min_msg_index` after a message was read
abbrev pub lowered : Option ℕ → ℕ → Option ℕ
lowered none last_msg_id = some last_msg_id
lowered (some prev) last_msg_id = if ltb last_msg_id prev then some last_msg_id else some prev

-- The indexes of the channel and of the joined channel after the last message that was read.
unfoldable pub read_up_to : State → ℕ → ℕ → JoinedChannel → ℕ → State
read_up_to st a channel_id j last_msg_id =
    let ch = st.channel_at j.ptr in
    let s = st.sessions a in
    write_session
      (write_channel st j.ptr (record ch { min_msg_index = lowered ch.min_msg_index last_msg_id }))
      a
      (record s {
        joined_channels =
            insert channel_id (record j { message_index = last_msg_id }) s.joined_channels;
      })

unfoldable pub with_messages :
    State
    → ℕ
    → ℕ
    → JoinedChannel
    → List ℕ
    → Exec (Option (ReceivedMessages Packet))
    → State × Exec (List ℕ)
unfolding read_up_to
with_messages st a channel_id j data' panic = (st, panic)
with_messages st a channel_id j data' (done none) = (st, done data')
with_messages st a channel_id j data' (done (some m)) =
    (read_up_to st a channel_id j m.last_msg_id, done (extend_all m.messages data'))

-- The messages of a channel that the session has joined.
unfoldable pub receive_channel : State → ℕ → ℕ → JoinedChannel → List ℕ → State × Exec (List ℕ)
unfolding receive_messages with_messages
receive_channel st a channel_id j data' =
    let ch = st.channel_at j.ptr in
    let r = receive_messages ch.message_queue (deref st a).user_id j.message_index none in
    with_messages (write_channel st j.ptr (record ch { message_queue = r.0 })) a channel_id j data'
      r.1

-- The loop over the joined channels, with `data` and `invalid_channels`.
unfoldable pub receive_all :
    State → ℕ → HashMap ℕ JoinedChannel → List ℕ → List ℕ → State × Exec (List ℕ × List ℕ)
unfolding receive_channel
receive_all st a [] data' invalid_channels = (st, done (data', invalid_channels))
receive_all st a ((channel_id, j) ∷ joined) data' invalid_channels =
    elim (channel_is_alive st j.ptr) [
      | false ↦ receive_all st a joined data' (invalid_channels ++ channel_id ∷ [])
      | true ↦
          let r = receive_channel st a channel_id j data' in
          elim r.1 [
            | panic ↦ (r.0, panic)
            | done more ↦ receive_all r.0 a joined more invalid_channels
          ]
    ]

unfoldable pub remove_all : {V : Type 0} → List ℕ → HashMap ℕ V → HashMap ℕ V
remove_all [] m = m
remove_all (k ∷ ks) m = remove_all ks (remove k m)

-- The channels that are not there any more go; `channel_count` is left as it is.
unfoldable pub remove_invalid : State → ℕ → List ℕ → State
unfolding remove_all
remove_invalid st a invalid_channels =
    let s = st.sessions a in
    write_session st a
      (record s { joined_channels = remove_all invalid_channels s.joined_channels })

-- The channels whose time of update the session has not been told, with what it has been told then.
unfoldable pub send_infos : State → HashMap ℕ ℕ → List ℕ → List ℕ → HashMap ℕ ℕ × Exec (List ℕ)
send_infos st updates [] data' = (updates, done data')
send_infos st updates (c ∷ channels) data' =
    let ch = st.channel_at c in
    elim (is_told (get ch.id updates) ch.updated_at) [
      | true ↦ send_infos st updates channels data'
      | false ↦ elim (info_packets ch) [
        | panic ↦ (updates, panic)
        | done packet ↦
            send_infos st (insert ch.id ch.updated_at updates) channels (data' ++ packet)
      ]
    ]

-- The infos of all channels, and then the packets that wait for the session.
unfoldable pub finish : State → ℕ → BanchoChatExt → List ℕ → State × Reply (List ℕ)
unfolding dequeue_all_packets send_infos set_ext
finish st a ext data' =
    let infos =
      send_infos st ext.receive_channel_updates (values st.channels.indexes.channel_id) data' in
    let told = record ext { receive_channel_updates = infos.0 } in
    elim infos.1 [
      | panic ↦ (set_ext st a told, panicked)
      | done more ↦
          let taken = dequeue_all_packets ext.packets_queue in
          (set_ext st a (record told { packets_queue = taken.0 }), ok (more ++ taken.1))
    ]

-- The call for a session, which panics where the session has no bancho client, at `todo!()`.
unfoldable pub dequeue_at : State → ℕ → State × Reply (List ℕ)
unfolding receive_notices receive_all remove_invalid finish
dequeue_at st a = elim (st.sessions a).bancho_ext [
  | none ↦ (st, panicked)
  | some ext ↦
      let notices = receive_notices st a ext in
      elim notices.1 [
        | panic ↦ (notices.0, panicked)
        | done (ext', data') ↦
            let received = receive_all notices.0 a (st.sessions a).joined_channels data' [] in
            elim received.1 [
              | panic ↦ (received.0, panicked)
              | done (more, invalid_channels) ↦
                  finish (remove_invalid received.0 a invalid_channels) a ext' more
            ]
      ]
]

module _ (env : Env) where
  unfoldable pub dequeue_chat_packets : State → Fresh → UserQuery → State × Reply (List ℕ)
  unfolding dequeue_at
  dequeue_chat_packets st fresh query =
      and_then (get_session env st fresh query (some bancho)) dequeue_at
