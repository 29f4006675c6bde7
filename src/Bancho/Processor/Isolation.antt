-- ===== src/Bancho/Processor/Isolation.antt =====
-- core/services/bancho/src/services/bancho/service.rs: a packet of a client changes no session but
-- the one of its user.
use peace.BanchoState.Session.{BanchoSession}
use peace.BanchoState.Info.{user_presence_packet, user_stats_packet}
use peace.BanchoState.Queries.{
  session_not_exists, Reply, ok, err, panicked, Outcome-cases, RawUserQuery, raw_from,
  into_user_query, query_from,
}
use peace.BanchoState.Service.{
  Env, State, find, to_query, to_session, push_to, enqueue_bancho_packets, broadcast_bancho_packets,
}
use peace.BanchoState.Service.Presences.{
  gather, gather_all, send_to, batch_send, send_all_presences, send_user_stats_packet,
}
use peace.BanchoState.Service.Users.{delete_session}
use peace.BanchoState.Service.Calls.{
  UpdateUserBanchoStatusRequest, changed, update_user_bancho_status, update_presence_filter,
  delete_user_session,
}
use peace.Base.{ℕ, ◌≡◌, ◌≢◌, refl, arith, inl, inr, Option, none, some, Option-cases, List, [], ◌∷◌}
use peace.Base.{Exec, Exec-cases}
use peace.Base.Keys.{nat_eq}
use peace.Base.HashMap.{get}
use peace.Base.Ordered.{in_order}
use peace.PacketsQueue.{Packet}
use peace.Users.{UserQuery, by_user_id}
use peace.Users.Store.{get_inner}

-- No session changes but the one under that user id.
abbrev pub Keeps : ℕ → State → State → Type 0
Keeps u st st' =
    (b : ℕ) → get u st.user_sessions.indexes.user_id ≢ some b → st'.sessions b ≡ st.sessions b

module _ (env : Env) (u : ℕ) where
  abbrev pub query : Option RawUserQuery
  query = some (raw_from env.ulids (by_user_id u))

  pub to_session-get :
      (st : State)
      → to_session env st query ≡ elim (get u st.user_sessions.indexes.user_id) [
        | none ↦ err session_not_exists
        | some a ↦ ok a
      ]
  unfolding to_session to_query raw_from into_user_query query_from find get_inner
  to_session-get st = ground arith

  push_to-Keeps :
      (st : State) (a : ℕ) (p : Packet)
      → get u st.user_sessions.indexes.user_id ≡ some a
      → Keeps u st (push_to st a p)
  unfolding push_to
  push_to-Keeps st a p h b k = ground arith

  enqueue-Keeps : (st : State) (p : Packet) → Keeps u st (enqueue_bancho_packets env st query p).0
  unfolding enqueue_bancho_packets
  enqueue-Keeps st p b k = elim (Option-cases (get u st.user_sessions.indexes.user_id)) [
    | inl h ↦ ground (arith, to_session-get st, h)
    | inr (a, h) ↦ ground (arith, to_session-get st, h, push_to-Keeps st a p h b k)
  ]

  send_to-Keeps :
      (st : State) (packets : Reply Packet) → Keeps u st (send_to env st (by_user_id u) packets).0
  unfolding send_to
  send_to-Keeps st (ok packets) b k = enqueue-Keeps st packets b k
  send_to-Keeps st (err e) b k = refl
  send_to-Keeps st panicked b k = refl

  to_query-user_id : to_query env query ≡ ok (by_user_id u)
  unfolding to_query raw_from into_user_query query_from
  to_query-user_id = refl

  pub batch_send-Keeps :
      (pack : BanchoSession → Exec Packet) (st : State) (queries : List RawUserQuery)
      → Keeps u st (batch_send env pack st queries query).0
  unfolding batch_send
  batch_send-Keeps pack st [] b k = refl
  batch_send-Keeps pack st (q ∷ qs) b k =
      ground
        (arith, to_query-user_id, send_to-Keeps st (gather env pack st (by_user_id u) (q ∷ qs)) b k)

  pub send_all_presences-Keeps : (st : State) → Keeps u st (send_all_presences env st query).0
  unfolding send_all_presences
  send_all_presences-Keeps st b k =
      let all =
        gather_all (user_presence_packet env.floats) st (by_user_id u)
          (in_order st.user_sessions.indexes.user_id) in
      ground (arith, to_query-user_id, send_to-Keeps st all b k)

  pub send_user_stats_packet-Keeps :
      (st : State) → Keeps u st (send_user_stats_packet env st query query).0
  unfolding send_user_stats_packet
  send_user_stats_packet-Keeps st b k = elim (Outcome-cases (to_session env st query)) [
    | inl (a, h) ↦ elim (Exec-cases (user_stats_packet env.floats (st.sessions a))) [
      | inl l ↦ ground (arith, h, l)
      | inr (p, l) ↦ ground (arith, h, l, enqueue-Keeps st p b k)
    ]
    | inr (inl (e, h)) ↦ ground (arith, h)
    | inr (inr h) ↦ ground (arith, h)
  ]

  changed-Keeps :
      (st : State) (a : ℕ) (request : UpdateUserBanchoStatusRequest)
      → get u st.user_sessions.indexes.user_id ≡ some a
      → Keeps u st (changed st a request)
  unfolding changed
  changed-Keeps st a request h b k = ground arith

  pub update_user_bancho_status-Keeps :
      (st : State) (id : ℕ) (request : UpdateUserBanchoStatusRequest)
      → request.user_query ≡ query
      → Keeps u st (update_user_bancho_status env st id request).0
  unfolding update_user_bancho_status broadcast_bancho_packets
  update_user_bancho_status-Keeps st id request same b k =
      elim (Option-cases (get u st.user_sessions.indexes.user_id)) [
        | inl h ↦ ground (arith, to_session-get st, same, h)
        | inr (a, h) ↦ ground (arith, to_session-get st, same, h, changed-Keeps st a request h b k)
      ]

  pub update_presence_filter-Keeps :
      (st : State) (n : ℕ) → Keeps u st (update_presence_filter env st query n).0
  unfolding update_presence_filter
  update_presence_filter-Keeps st n b k =
      elim (Option-cases (get u st.user_sessions.indexes.user_id)) [
        | inl h ↦ ground (arith, to_session-get st, h)
        | inr (a, h) ↦ ground (arith, to_session-get st, h)
      ]

  pub delete_user_session-Keeps :
      (st : State) (id : ℕ) (q : UserQuery) → Keeps u st (delete_user_session env st id q).0
  unfolding delete_user_session delete_session broadcast_bancho_packets
  delete_user_session-Keeps st id q b k = ground arith
