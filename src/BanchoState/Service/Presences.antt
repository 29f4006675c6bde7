-- ===== src/BanchoState/Service/Presences.antt =====
-- core/services/bancho_state/src/services/bancho_state.rs: the calls that send one user the presences
-- or the stats of others.
use peace.BanchoState.Session.{BanchoSession}
use peace.BanchoState.Info.{user_presence_packet, user_stats_packet}
use peace.BanchoState.Queries.{
  invalid_argument, Reply, ok, err, panicked, ◌>>=◌, lift, RawUserQuery, into_user_query, raw_from,
  convert_error, map_err, ExecSuccess, success,
}
use peace.BanchoState.Service.{Env, State, deref, to_query, to_session, enqueue_bancho_packets}
use peace.Base.{ℕ, true, false, Option, none, some, List, [], ◌∷◌, ◌++◌, Exec}
use peace.Base.HashMap.{HashMap}
use peace.Base.Ordered.{in_order}
use peace.PacketsQueue.{Packet}
use peace.Users.{UserQuery, session_is_target}
use peace.Users.Store.{get_inner}

module _ (pack : BanchoSession → Exec Packet) where
  -- What the packet of a session at an address adds to the packets that follow: nothing for the target.
  unfoldable pub add_session : State → UserQuery → ℕ → Reply Packet → Reply Packet
  add_session st to a rest = elim (session_is_target (deref st a) to) [
    | true ↦ rest
    | false ↦ (do packet ← lift (pack (st.sessions a)); packets ← rest; ok (packet ++ packets))
  ]

  -- The loop over `user_sessions.values()`.
  unfoldable pub gather_all : State → UserQuery → HashMap ℕ ℕ → Reply Packet
  unfolding add_session
  gather_all st to [] = ok []
  gather_all st to ((id, a) ∷ sessions) = add_session st to a (gather_all st to sessions)

module _ (env : Env) (pack : BanchoSession → Exec Packet) where
  -- The loop over the queries: one that finds no session is passed over.
  unfoldable pub gather : State → UserQuery → List RawUserQuery → Reply Packet
  unfolding add_session
  gather st to [] = ok []
  gather st to (raw_query ∷ user_queries) = do
    query ← map_err convert_error (into_user_query env.ulids raw_query)
    let rest = gather st to user_queries
    elim (get_inner st.user_sessions.indexes query) [
      | none ↦ rest
      | some a ↦ add_session pack st to a rest
    ]

-- `enqueue_bancho_packets` for the target, whose query is written as a message again.
unfoldable pub send_to : Env → State → UserQuery → Reply Packet → State × Reply ExecSuccess
send_to env st to (ok packets) =
    enqueue_bancho_packets env st (some (raw_from env.ulids to)) packets
send_to env st to (err e) = (st, err e)
send_to env st to panicked = (st, panicked)

module _ (env : Env) where
  unfoldable pub batch_send :
      (BanchoSession → Exec Packet)
      → State
      → List RawUserQuery
      → Option RawUserQuery
      → State × Reply ExecSuccess
  unfolding send_to
  batch_send pack st [] to = (st, ok success)
  batch_send pack st (raw_query ∷ user_queries) to = elim (to_query env to) [
    | ok query ↦ send_to env st query (gather env pack st query (raw_query ∷ user_queries))
    | err e ↦ (st, err e)
    | panicked ↦ (st, panicked)
  ]

  unfoldable pub batch_send_presences :
      State → List RawUserQuery → Option RawUserQuery → State × Reply ExecSuccess
  unfolding batch_send
  batch_send_presences = batch_send (user_presence_packet env.floats)

  unfoldable pub batch_send_user_stats_packet :
      State → List RawUserQuery → Option RawUserQuery → State × Reply ExecSuccess
  unfolding batch_send
  batch_send_user_stats_packet = batch_send (user_stats_packet env.floats)

  unfoldable pub send_all_presences : State → Option RawUserQuery → State × Reply ExecSuccess
  unfolding send_to in_order
  send_all_presences st to = elim (to_query env to) [
    | ok query ↦ send_to env st query (
        gather_all (user_presence_packet env.floats) st query
          (in_order st.user_sessions.indexes.user_id))
    | err e ↦ (st, err e)
    | panicked ↦ (st, panicked)
  ]

  -- Here `to` is read after the session that the packet is about.
  unfoldable pub send_user_stats_packet :
      State → Option RawUserQuery → Option RawUserQuery → State × Reply ExecSuccess
  send_user_stats_packet st user_query none = (st, err invalid_argument)
  send_user_stats_packet st user_query (some to) = elim (to_session env st user_query) [
    | ok a ↦ elim (lift (user_stats_packet env.floats (st.sessions a))) [
      | ok packets ↦ enqueue_bancho_packets env st (some to) packets
      | err e ↦ (st, err e)
      | panicked ↦ (st, panicked)
    ]
    | err e ↦ (st, err e)
    | panicked ↦ (st, panicked)
  ]
