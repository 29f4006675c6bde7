-- ===== src/BanchoState/Service/Users.antt =====
-- core/services/bancho_state/src/services/{bancho_state,traits}.rs: the calls that create, delete,
-- change and read sessions.
use peace.BanchoState.Geoip.{RpcConnectionInfo, connection_info_from}
use peace.BanchoState.Session.{BanchoSession, new_extend}
use peace.BanchoState.Info.{Floats, user_info_packets}
use peace.BanchoState.Queries.{Reply, ok, err, panicked, ◌>>=◌, lift}
use peace.BanchoState.Service.{
  State, deref, write_session, set_extends, validator_of, broadcast_bancho_packets,
}
use peace.Base.{ℕ, zero, suc, ◌%◌, Bool}
use peace.Base.{Option, none, some, List, [], ◌∷◌, map, take, drop, length, done, panic}
use peace.Base.Keys.{nat_eq}
use peace.Base.HashMap.{HashMap}
use peace.Base.Ordered.{in_order}
use peace.MessageQueue.{push_message, push_message_excludes}
use peace.Packets.Server.{user_logout}
use peace.Packets.Server.Sessions.{user_presence_single, user_presence_bundle}
use peace.PacketsQueue.{Packet, enqueue_packets}
use peace.Users.{Text, UserQuery}
use peace.Users.Store.{create, delete}

-- `slice::chunks`, of chunks of `size` at least 1; the length of the list is fuel enough
unfoldable pub chunks : {A : Type 0} → ℕ → ℕ → List A → List (List A)
chunks size zero xs = []
chunks size (suc fuel) [] = []
chunks size (suc fuel) (x ∷ xs) = take size (x ∷ xs) ∷ chunks size fuel (drop size (x ∷ xs))

abbrev pub presence_shard_size : ℕ
presence_shard_size = 512

-- `UserPresenceBundle::pack` of each chunk.
unfoldable pub bundles : List (List ℕ) → Reply (List Packet)
bundles [] = ok []
bundles (shard ∷ shards) = do
  packet ← lift (user_presence_bundle shard)
  packets ← bundles shards
  ok (packet ∷ packets)

abbrev pub keys : HashMap ℕ ℕ → List ℕ
keys = map (λ entry. entry.0)

-- The packets that a new session gets: its own, and the ids of the users online.
unfoldable pub pending_packets : Floats → BanchoSession → List ℕ → Reply (List Packet)
unfolding bundles chunks
pending_packets floats session online_users = do
  session_info ← lift (user_info_packets floats session)
  shards ← bundles (chunks presence_shard_size (length online_users) online_users)
  ok (session_info ∷ shards)

-- `create`, of a session that is `Arc`ed at the address `next`; the notice about it gets the id `id`.
unfoldable pub announce : State → ℕ → ℕ → Packet → State
unfolding push_message_excludes
announce st a id packet = record st {
  notify_queue =
      push_message_excludes st.notify_queue id (record { packet = packet; weak = some a })
        ((deref st a).user_id ∷ []) (validator_of st.user_sessions.indexes (some a));
}

unfoldable pub add_pending : State → ℕ → List Packet → State
unfolding enqueue_packets
add_pending st a packets =
    let e = (st.sessions a).extends in
    set_extends st a (record e { packets_queue = (enqueue_packets e.packets_queue packets).0 })

unfoldable pub store_session : State → BanchoSession → State
store_session st session =
    let st' = write_session (record st { next = suc st.next }) st.next session in
    record st' { user_sessions = (create (deref st') st.user_sessions st.next).0 }

unfoldable pub create_session : Floats → State → ℕ → BanchoSession → State × Reply ℕ
unfolding store_session announce add_pending
create_session floats st id session =
    let a = st.next in
    let st' = store_session st session in
    elim (user_presence_single session.base.user_id) [
      | panic ↦ (st', panicked)
      | done packet ↦
          let announced = announce st' a id packet in
          elim (pending_packets floats session
            (keys (in_order announced.user_sessions.indexes.user_id))) [
              | ok packets ↦ (add_pending announced a packets, ok a)
              | err e ↦ (announced, err e)
              | panicked ↦ (announced, panicked)
            ]
    ]

pub record CreateUserSessionRequest : Type 0 where
  pub user_id : ℕ
  pub username : Text
  pub username_unicode : Option Text
  pub privileges : ℕ
  pub client_version : Text
  pub utc_offset : ℕ
  pub display_city : Bool
  pub only_friend_pm_allowed : Bool
  pub bancho_privileges : ℕ
  pub connection_info : Option RpcConnectionInfo
  pub country_code : ℕ

pub record CreateUserSessionResponse : Type 0 where
  pub session_id : Text
  pub signature : Text

-- What the system gives a new session: its id, its notify index and the time.
pub record Fresh : Type 0 where
  pub session_id : ℕ
  pub notify_index : ℕ
  pub notice_id : ℕ
  pub created_at : ℕ
  pub now : ℕ

-- `BanchoSession::new`
unfoldable pub new_session : CreateUserSessionRequest → RpcConnectionInfo → Fresh → BanchoSession
unfolding new_extend connection_info_from
new_session request info fresh = record {
  base = record {
    id = fresh.session_id;
    user_id = request.user_id;
    username = request.username;
    username_unicode = request.username_unicode;
    privileges = request.privileges;
    created_at = fresh.created_at;
    last_active = fresh.now;
  };
  extends =
      new_extend none request.client_version (request.utc_offset % 256) request.display_city
        request.only_friend_pm_allowed request.bancho_privileges (connection_info_from info)
        (request.country_code % 256) fresh.notify_index;
}

-- `delete` of the sessions service, which tells the others that the user has left
unfoldable pub delete_session : State → ℕ → UserQuery → State × Reply (Option ℕ)
unfolding push_message
delete_session st id query =
    let r = delete (deref st) st.user_sessions query in
    let st' = record st { user_sessions = r.0 } in
    elim r.1 [
      | none ↦ (st', ok none)
      | some a ↦ elim (user_logout (deref st a).user_id) [
        | panic ↦ (st', panicked)
        | done packet ↦ (broadcast_bancho_packets st' id packet, ok (some a))
      ]
    ]
