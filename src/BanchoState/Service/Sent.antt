-- ===== src/BanchoState/Service/Sent.antt =====
-- core/services/bancho_state/src/services/bancho_state.rs: what the calls that send to one user, or to
-- many, put in their queues.
use peace.BanchoState.Session.{BanchoSession}
use peace.BanchoState.Info.{user_presence_packet}
use peace.BanchoState.Queries.{ok, RawUserQuery, into_user_query, into_user_query-raw_from, success}
use peace.BanchoState.Service.{
  Env, State, deref, find, push_to, to_query, to_session, enqueue_bancho_packets,
}
use peace.BanchoState.Service.Presences.{add_session, gather_all, send_to, send_all_presences}
use peace.Base.{
  inl, inr, Option-cases, ◌==◌, ◌++◌, ◌≢◌, ℕ, ◌≡◌, refl, arith, some, [], ◌∷◌, map, Exec, done,
}
use peace.Base.Keys.{nat_eq, text_eq, beq_refl}
use peace.Base.Ordered.{in_order, in_order-All}
use peace.Base.HashMap.{HashMap}
use peace.BanchoState.Service.Targets.{
  others, values, except, HasName, session_is_target-same, found-All, others-except,
}
use peace.PacketsQueue.{Packet, push_packet}
use peace.PacketsQueue.Flow.{joined}
use peace.Users.{UserQuery, session_is_target}
use peace.Users.Store.{get_inner}
use peace.Users.Store.Full.{IsFull}
use peace.Users.Store.Count.{Counted}

gather_all-others :
    (pack : BanchoSession → Exec Packet) (packets : ℕ → Packet) (st : State) (to : UserQuery)
    (sessions : HashMap ℕ ℕ)
    → ((a : ℕ) → pack (st.sessions a) ≡ done (packets a))
    → gather_all pack st to sessions ≡ ok (joined (map packets (others st to (values sessions))))
unfolding gather_all add_session others joined
gather_all-others pack packets st to [] packed = refl
gather_all-others pack packets st to ((id, a) ∷ sessions) packed =
    ground (arith, packed a, gather_all-others pack packets st to sessions packed)

-- The session with one more packet in its queue.
abbrev pub queued_at : BanchoSession → Packet → BanchoSession
queued_at s packet = record s {
  extends = record s.extends {
    packets_queue = record { queue = s.extends.packets_queue.queue ++ packet ∷ [] };
  };
}

find-get_inner :
    (st : State) (to : UserQuery) (a : ℕ)
    → find st to ≡ ok a
    → get_inner st.user_sessions.indexes to ≡ some a
unfolding find
find-get_inner st to a found = elim (Option-cases (get_inner st.user_sessions.indexes to)) [
  | inl absent ↦ ground (arith, absent, found)
  | inr (b, there) ↦ ground (arith, there, found)
]

push_to_lem :
    (st : State) (a : ℕ) (packet : Packet)
    → ((push_to st a packet).sessions a ≡ queued_at (st.sessions a) packet)
      × ((b : ℕ) → b ≢ a → (push_to st a packet).sessions b ≡ st.sessions b)
      × ((push_to st a packet).user_sessions ≡ st.user_sessions)
      × ((push_to st a packet).notify_queue ≡ st.notify_queue)
unfolding push_to push_packet
push_to_lem st a packet = (ground (arith, beq_refl a), λ b other. ground (arith, other), refl, refl)

module _ (env : Env) where
  send_to-push_to :
      (st : State) (to : UserQuery) (a : ℕ) (packets : Packet)
      → ((id : ℕ) → env.ulids.from_str (env.ulids.to_string id) ≡ some id)
      → find st to ≡ ok a
      → send_to env st to (ok packets) ≡ (push_to st a packets, ok success)
  unfolding send_to enqueue_bancho_packets to_session to_query
  send_to-push_to st to a packets decodes found =
      ground (arith, into_user_query-raw_from env.ulids decodes to, found)

  send_all_presences-push_to :
      (st : State) (raw : RawUserQuery) (to : UserQuery) (a : ℕ) (packets : ℕ → Packet)
      → ((id : ℕ) → env.ulids.from_str (env.ulids.to_string id) ≡ some id)
      → into_user_query env.ulids raw ≡ ok to
      → find st to ≡ ok a
      → ((b : ℕ) → user_presence_packet env.floats (st.sessions b) ≡ done (packets b))
      → send_all_presences env st (some raw) ≡ (
        push_to st a (
            joined
              (map packets (others st to (values (in_order st.user_sessions.indexes.user_id))))),
        ok success,
      )
  unfolding send_all_presences to_query
  send_all_presences-push_to st raw to a packets decodes query found packed =
      let x = in_order st.user_sessions.indexes.user_id in
      ground (
        arith,
        query,
        gather_all-others (user_presence_packet env.floats) packets st to x packed,
        send_to-push_to st to a (joined (map packets (others st to (values x)))) decodes found,
      )

  -- In a store whose indexes agree and are full, `send_all_presences` to a session `a` that the query
  -- finds, by a unicode name only if that is the session's own, adds one packet to the end of the
  -- queue of `a`: the presences of all sessions of the store but `a`, in the order of their user
  -- ids, one after the other. All else stays as it is. The presences have to be written without a
  -- panic, and the text of a `Ulid` has to be read back as that `Ulid`.
  pub send_all_presences-others :
      (st : State) (raw : RawUserQuery) (to : UserQuery) (a : ℕ) (packets : ℕ → Packet)
      → Counted (deref st) st.user_sessions
      → IsFull (deref st) st.user_sessions.indexes
      → ((id : ℕ) → env.ulids.from_str (env.ulids.to_string id) ≡ some id)
      → into_user_query env.ulids raw ≡ ok to
      → find st to ≡ ok a
      → HasName (deref st a) to
      → ((b : ℕ) → user_presence_packet env.floats (st.sessions b) ≡ done (packets b))
      → ((send_all_presences env st (some raw)).1 ≡ ok success)
        × ((send_all_presences env st (some raw)).0.sessions a
            ≡ queued_at (st.sessions a) (
                joined
                  (map packets (except a (values (in_order st.user_sessions.indexes.user_id))))))
        × ((b : ℕ) → b ≢ a → (send_all_presences env st (some raw)).0.sessions b ≡ st.sessions b)
        × ((send_all_presences env st (some raw)).0.user_sessions ≡ st.user_sessions)
        × ((send_all_presences env st (some raw)).0.notify_queue ≡ st.notify_queue)
  send_all_presences-others st raw to a packets counted full decodes query found named packed =
      let x = st.user_sessions.indexes in
      let packet = joined (map packets (except a (values (in_order x.user_id)))) in
      let there = find-get_inner st to a found in
      let is_right = λ (entry : ℕ × ℕ). session_is_target (deref st entry.1) to ≡ (entry.1 == a) in
      let same = others-except st to a (in_order x.user_id) (
        in_order-All is_right x.user_id (
          found-All is_right x.user_id counted.one_entry
            (λ k b h. session_is_target-same st to a k b counted.consistent full there named h))) in
      let sent = send_all_presences-push_to st raw to a packets decodes query found packed in
      let (here, elsewhere, store, notices) = push_to_lem st a packet in
      ground (arith, same, sent, here, elsewhere, store, notices)
