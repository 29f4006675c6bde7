-- ===== src/BanchoState/Service.antt =====
-- core/services/bancho_state/src/services/bancho_state.rs: the state of the service, and the calls
-- that put packets in and take them out. The indexes of the store hold addresses of sessions, as
-- they hold `Arc`s: a change of a session is seen under each of its keys.
pub mod Presences
pub mod Users
pub mod Calls
pub mod Delivery
pub mod Mail
pub mod Once
pub mod Liveness
pub mod Errors
pub mod Targets
pub mod Sent
pub mod Login
pub mod Shards
use peace.BanchoState.Geoip
use peace.BanchoState.Session.{BanchoExtend, BanchoSession}
use peace.BanchoState.Info.{Floats}
use peace.BanchoState.Queries.{
  BanchoStateError, invalid_argument, session_not_exists, Reply, ok, err, panicked, ◌>>=◌, ok_or,
  RawUserQuery, Ulids, into_user_query, ExecSuccess, success, convert_error, map_err,
}
use peace.Base.{ℕ, ◌==◌, ◌||◌, if◌then◌else◌, Bool, true, false, Option, none, some, List, []}
use peace.Base.{◌∷◌, ◌++◌, map, Exec, done, panic}
use peace.Base.Keys.{Eq, nat_eq}
use peace.Base.HashMap.{holds}
use peace.MessageQueue.{Message, RawMessageQueue, ReceivedMessages, push_message, receive_messages}
use peace.PacketsQueue.{Packet, PacketsQueue, push_packet, dequeue_all_packets}
use peace.Users.{Text, BaseSession, UserQuery}
use peace.Users.Store.{UserIndexes, UserStore, get_inner}

-- What the service calls: the text of ids, and the signature service, whose calls can fail.
pub record Env : Type 0 where
  pub floats : Floats
  pub ulids : Ulids
  pub sign : Text → Option Text
  pub verify : Text → Text → Option Bool

-- A message of the notify queue, with the address that its validator has a `Weak` pointer to.
pub record Notice : Type 0 where
  pub packet : Packet
  pub weak : Option ℕ

-- `next` is an address that no session has had.
pub record State : Type 0 where
  pub user_sessions : UserStore ℕ
  pub sessions : ℕ → BanchoSession
  pub next : ℕ
  pub notify_queue : RawMessageQueue Notice ℕ

-- `Deref` of the session at an address
abbrev pub deref : State → ℕ → BaseSession
deref st a = (st.sessions a).base

abbrev pub write_session : State → ℕ → BanchoSession → State
write_session st a s = record st { sessions = λ b. if a == b then s else st.sessions b }

abbrev pub set_extends : State → ℕ → BanchoExtend → State
set_extends st a e = write_session st a (record (st.sessions a) { extends = e })

-- `weak.upgrade().is_some()`: between two calls, the indexes have the only strong pointers.
unfoldable pub is_alive : UserIndexes ℕ → ℕ → Bool
unfolding holds
is_alive x a =
    holds a x.user_id || holds a x.session_id || holds a x.username || holds a x.username_unicode

abbrev pub validator_of : UserIndexes ℕ → Option ℕ → Option (Notice → List ℕ → Bool)
validator_of x none = none
validator_of x (some a) = some (λ notice readers. is_alive x a)

-- A validator is a closure: it says what it says at the time of the call that asks it.
abbrev pub at_present : UserIndexes ℕ → ℕ × Message Notice ℕ → ℕ × Message Notice ℕ
at_present x (id, msg) = (id, record msg { validator = validator_of x msg.content.weak })

abbrev pub current : State → RawMessageQueue Notice ℕ
current st = record {
  messages = map (at_present st.user_sessions.indexes) st.notify_queue.messages;
}

-- `broadcast_bancho_packets`, where the message gets the id `id`
unfoldable pub broadcast_bancho_packets : State → ℕ → Packet → State
unfolding push_message
broadcast_bancho_packets st id packets = record st {
  notify_queue = push_message st.notify_queue id (record { packet = packets; weak = none }) none;
}

unfoldable pub push_to : State → ℕ → Packet → State
unfolding push_packet
push_to st a packet =
    let e = (st.sessions a).extends in
    set_extends st a (record e { packets_queue = (push_packet e.packets_queue packet).0 })

-- `for packet in messages { data.extend(packet); }`
unfoldable pub extend_all : List ℕ → List Notice → List ℕ
extend_all data' [] = data'
extend_all data' (n ∷ ns) = extend_all (data' ++ n.packet) ns

unfoldable pub with_notices :
    State → ℕ → List ℕ → Exec (Option (ReceivedMessages Notice)) → State × Reply (List ℕ)
unfolding extend_all
with_notices st a data' panic = (st, panicked)
with_notices st a data' (done none) = (st, ok data')
with_notices st a data' (done (some r)) = (
  set_extends st a (record (st.sessions a).extends { notify_index = r.last_msg_id }),
  ok (extend_all data' r.messages),
)

-- `dequeue_bancho_packets` of the session at an address
unfoldable pub dequeue_at : State → ℕ → State × Reply (List ℕ)
unfolding dequeue_all_packets receive_messages with_notices
dequeue_at st a =
    let s = st.sessions a in
    let taken = dequeue_all_packets s.extends.packets_queue in
    let received = receive_messages (current st) s.base.user_id s.extends.notify_index none in
    let st' = set_extends st a (record s.extends { packets_queue = taken.0 }) in
    with_notices (record st' { notify_queue = received.0 }) a taken.1 received.1

-- The session that a query finds.
unfoldable pub find : State → UserQuery → Reply ℕ
find st query = ok_or (get_inner st.user_sessions.indexes query) session_not_exists

module _ (env : Env) where
  -- `user_query.ok_or(InvalidArgument)?.into_user_query()?`
  unfoldable pub to_query : Option RawUserQuery → Reply UserQuery
  to_query user_query = do
    raw ← ok_or user_query invalid_argument
    map_err convert_error (into_user_query env.ulids raw)

  unfoldable pub to_session : State → Option RawUserQuery → Reply ℕ
  unfolding to_query
  to_session st user_query = do query ← to_query user_query; find st query

  unfoldable pub dequeue_bancho_packets : State → Option RawUserQuery → State × Reply (List ℕ)
  dequeue_bancho_packets st user_query = elim (to_session st user_query) [
    | ok a ↦ dequeue_at st a
    | err e ↦ (st, err e)
    | panicked ↦ (st, panicked)
  ]

  unfoldable pub enqueue_bancho_packets :
      State → Option RawUserQuery → Packet → State × Reply ExecSuccess
  enqueue_bancho_packets st user_query packets = elim (to_session st user_query) [
    | ok a ↦ (push_to st a packets, ok success)
    | err e ↦ (st, err e)
    | panicked ↦ (st, panicked)
  ]

  -- A query that finds no session is passed over; one that is no query ends the call.
  unfoldable pub batch_enqueue_bancho_packets :
      State → List RawUserQuery → Packet → State × Reply ExecSuccess
  batch_enqueue_bancho_packets st [] packets = (st, ok success)
  batch_enqueue_bancho_packets st (raw ∷ user_queries) packets =
      elim (into_user_query env.ulids raw) [
        | ok query ↦
            batch_enqueue_bancho_packets
              (elim (get_inner st.user_sessions.indexes query) [
                | none ↦ st
                | some a ↦ push_to st a packets
              ])
              user_queries packets
        | err e ↦ (st, err (convert_error e))
        | panicked ↦ (st, panicked)
      ]
