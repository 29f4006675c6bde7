-- ===== src/BanchoState/Service/Errors.antt =====
-- core/services/bancho_state/src/services/bancho_state.rs: what a call that fails has changed.
use peace.Base.Ordered.{in_order}
use peace.BanchoState.Session.{BanchoSession}
use peace.BanchoState.Queries.{
  BanchoStateError, Reply, ok, err, panicked, Outcome-cases, RawUserQuery,
}
use peace.BanchoState.Info.{user_presence_packet, user_stats_packet}
use peace.BanchoState.Service.{Env, State, to_query, to_session, enqueue_bancho_packets}
use peace.BanchoState.Service.Presences.{
  gather, gather_all, send_to, batch_send, batch_send_presences, batch_send_user_stats_packet,
  send_all_presences, send_user_stats_packet,
}
use peace.Base.{◌≡◌, refl, arith, Option, none, some, List, [], ◌∷◌, Exec, Exec-cases, inl, inr}
use peace.PacketsQueue.{Packet}
use peace.Users.{UserQuery}

module _ (env : Env) where
  enqueue-Unchanged :
      (st : State) (user_query : Option RawUserQuery) (p : Packet) (e : BanchoStateError)
      → (enqueue_bancho_packets env st user_query p).1 ≡ err e
      → (enqueue_bancho_packets env st user_query p).0 ≡ st
  unfolding enqueue_bancho_packets
  enqueue-Unchanged st user_query p e h = ground arith

  send_to-Unchanged :
      (st : State) (to : UserQuery) (packets : Reply Packet) (e : BanchoStateError)
      → (send_to env st to packets).1 ≡ err e
      → (send_to env st to packets).0 ≡ st
  unfolding send_to
  send_to-Unchanged st to (ok p) e h = enqueue-Unchanged st _ p e h
  send_to-Unchanged st to (err x) e h = refl
  send_to-Unchanged st to panicked e h = refl

  batch_send-Unchanged :
      (pack : BanchoSession → Exec Packet) (st : State) (queries : List RawUserQuery)
      (to : Option RawUserQuery) (e : BanchoStateError)
      → (batch_send env pack st queries to).1 ≡ err e
      → (batch_send env pack st queries to).0 ≡ st
  unfolding batch_send
  batch_send-Unchanged pack st [] to e h = refl
  batch_send-Unchanged pack st (q ∷ qs) to e h = elim (Outcome-cases (to_query env to)) [
    | inl (query, k) ↦
        ground (arith, k, send_to-Unchanged st query (gather env pack st query (q ∷ qs)) e)
    | inr (inl (x, k)) ↦ ground (arith, k)
    | inr (inr k) ↦ ground (arith, k)
  ]

  send_all_presences-Unchanged :
      (st : State) (to : Option RawUserQuery) (e : BanchoStateError)
      → (send_all_presences env st to).1 ≡ err e
      → (send_all_presences env st to).0 ≡ st
  unfolding send_all_presences
  send_all_presences-Unchanged st to e h =
      let all = gather_all (user_presence_packet env.floats) st in
      elim (Outcome-cases (to_query env to)) [
        | inl (query, k) ↦ ground (
          arith,
          k,
          send_to-Unchanged st query (all query (in_order st.user_sessions.indexes.user_id)) e,
        )
        | inr (inl (x, k)) ↦ ground (arith, k)
        | inr (inr k) ↦ ground (arith, k)
      ]

  send_user_stats_packet-Unchanged :
      (st : State) (query to : Option RawUserQuery) (e : BanchoStateError)
      → (send_user_stats_packet env st query to).1 ≡ err e
      → (send_user_stats_packet env st query to).0 ≡ st
  unfolding send_user_stats_packet
  send_user_stats_packet-Unchanged st query none e h = refl
  send_user_stats_packet-Unchanged st query (some to) e h =
      elim (Outcome-cases (to_session env st query)) [
        | inl (a, k) ↦ elim (Exec-cases (user_stats_packet env.floats (st.sessions a))) [
          | inl l ↦ ground (arith, k, l)
          | inr (p, l) ↦ ground (arith, k, l, enqueue-Unchanged st (some to) p e)
        ]
        | inr (inl (x, k)) ↦ ground (arith, k)
        | inr (inr k) ↦ ground (arith, k)
      ]

  -- A call that sends presences or stats to one user, and one that enqueues packets for one session,
  -- changes nothing when it returns an error, whichever of its queries the error is about.
  pub sends-Unchanged :
      (st : State) (queries : List RawUserQuery) (query to : Option RawUserQuery) (p : Packet)
      (e : BanchoStateError)
      → ((batch_send_presences env st queries to).1 ≡ err e
          → (batch_send_presences env st queries to).0 ≡ st)
        × ((batch_send_user_stats_packet env st queries to).1 ≡ err e
            → (batch_send_user_stats_packet env st queries to).0 ≡ st)
        × ((send_all_presences env st to).1 ≡ err e → (send_all_presences env st to).0 ≡ st)
        × ((send_user_stats_packet env st query to).1 ≡ err e
            → (send_user_stats_packet env st query to).0 ≡ st)
        × ((enqueue_bancho_packets env st query p).1 ≡ err e
            → (enqueue_bancho_packets env st query p).0 ≡ st)
  unfolding batch_send_presences batch_send_user_stats_packet
  sends-Unchanged st queries query to p e = (
    batch_send-Unchanged (user_presence_packet env.floats) st queries to e,
    batch_send-Unchanged (user_stats_packet env.floats) st queries to e,
    send_all_presences-Unchanged st to e,
    send_user_stats_packet-Unchanged st query to e,
    enqueue-Unchanged st query p e,
  )
