-- ===== src/BanchoState/Service/Login.antt =====
-- core/services/bancho_state/src/services/{bancho_state,traits}.rs: a user who logs in is online, with
-- a token that the service accepts.
use peace.BanchoState.Session.{BanchoSession}
use peace.BanchoState.Info.{Floats}
use peace.BanchoState.Queries.{Reply, ok, err, panicked, Outcome-cases}
use peace.BanchoState.Service.{Env, State, deref, find, write_session}
use peace.BanchoState.Service.Delivery.{sessions-write_session}
use peace.BanchoState.Service.Users.{
  CreateUserSessionRequest, CreateUserSessionResponse, Fresh, new_session, store_session, announce,
  add_pending, pending_packets, create_session, keys,
}
use peace.BanchoState.Service.Calls.{check_user_token, respond, create_user_session}
use peace.BanchoState.Token.{BanchoClientToken, content, encode_content}
use peace.Base.Ordered.{in_order}
use peace.Base.{ℕ, suc, true, ◌≡◌, refl, ap, ◌∙◌, arith, inl, inr, some, Exec-cases, Option-cases}
use peace.Base.Keys.{nat_eq, beq_refl}
use peace.Packets.Server.Sessions.{user_presence_single}
use peace.Users.{Text, UserQuery, by_session_id}
use peace.Users.Store.Lookups.{names, create-get_inner}

-- The session that is stored is found by its session id.
find-store_session :
    (st : State) (session : BanchoSession)
    → find (store_session st session) (by_session_id session.base.id) ≡ ok st.next
unfolding find store_session names
find-store_session st session =
    let st' : State = write_session (record st { next = suc st.next }) st.next session in
    let query = by_session_id session.base.id in
    let own = sessions-write_session (record st { next = suc st.next }) st.next session in
    let named : nat_eq.beq (deref st' st.next).id session.base.id ≡ true =
      (ap (λ s. nat_eq.beq s.base.id session.base.id) own ∙ beq_refl session.base.id) in
    let found = (create-get_inner (deref st') st.user_sessions st.next query).1 in
    ground (arith, named, found)

-- Where `create` returns an address, the session stands there, and the store is that of the insertion.
create_session-ok :
    (floats : Floats) (st : State) (id : ℕ) (session : BanchoSession) (a : ℕ)
    → (create_session floats st id session).1 ≡ ok a
    → (a ≡ st.next)
      × ((create_session floats st id session).0.user_sessions
          ≡ (store_session st session).user_sessions)
unfolding create_session announce add_pending
create_session-ok floats st id session a h =
    elim (Exec-cases (user_presence_single session.base.user_id)) [
      | inl k ↦ absurd (ground (arith, k))
      | inr (packet, k) ↦
          let x = (announce (store_session st session) st.next id packet).user_sessions.indexes in
          elim (Outcome-cases (pending_packets floats session (keys (in_order x.user_id)))) [
            | inl (packets, l) ↦ ground (arith, k, l)
            | inr (inl (e, l)) ↦ absurd (ground (arith, k, l))
            | inr (inr l) ↦ absurd (ground (arith, k, l))
          ]
    ]

find-from :
    (st st' : State) (query : UserQuery)
    → st'.user_sessions ≡ st.user_sessions
    → find st' query ≡ find st query
unfolding find
find-from st st' query same = cc

check-signed :
    (env : Env) (st : State) (now a : ℕ) (token : BanchoClientToken)
    → env.verify (content env.ulids.to_string token) token.signature ≡ some true
    → find st (by_session_id token.session_id) ≡ ok a
    → (check_user_token env st now token).1 ≡ ok true
unfolding check_user_token
check-signed env st now a token valid found = ground (arith, valid, found)

respond-ok :
    (env : Env) (fresh : Fresh) (request : CreateUserSessionRequest) (created : Reply ℕ)
    (response : CreateUserSessionResponse)
    → respond env fresh request created ≡ ok response
    → ((a : ℕ) × (created ≡ ok a))
      × (response.session_id ≡ env.ulids.to_string fresh.session_id)
      × (env.sign (encode_content request.user_id (env.ulids.to_string fresh.session_id))
          ≡ some response.signature)
unfolding respond
respond-ok env fresh request (ok a) response h =
    let text = encode_content request.user_id (env.ulids.to_string fresh.session_id) in
    elim (Option-cases (env.sign text)) [
      | inl k ↦ absurd (ground (arith, k))
      | inr (signature, k) ↦ ((a, refl), ground (arith, k), ground (arith, k))
    ]
respond-ok env fresh request (err e) response h = absurd (ground arith)
respond-ok env fresh request panicked response h = absurd (ground arith)

-- A call of `create_user_session` that returns a response has stored the session, with its id and
-- the signature of the token in the response.
create_user_session-ok :
    (env : Env) (st : State) (fresh : Fresh) (request : CreateUserSessionRequest)
    (response : CreateUserSessionResponse)
    → (create_user_session env st fresh request).1 ≡ ok response
    → (find (create_user_session env st fresh request).0 (by_session_id fresh.session_id)
        ≡ ok st.next)
      × (response.session_id ≡ env.ulids.to_string fresh.session_id)
      × (env.sign (encode_content request.user_id (env.ulids.to_string fresh.session_id))
          ≡ some response.signature)
unfolding create_user_session new_session
create_user_session-ok env st fresh request response h =
    elim (Option-cases request.connection_info) [
      | inl k ↦ absurd (ground (arith, k))
      | inr (info, k) ↦
          let session = new_session request info fresh in
          let r = create_session env.floats st fresh.notice_id session in
          let replied : respond env fresh request r.1 ≡ ok response = ground (arith, k, h) in
          let ((a, created), id, signed) = respond-ok env fresh request r.1 response replied in
          let (at, stored) = create_session-ok env.floats st fresh.notice_id session a created in
          let found =
            find-from (store_session st session) r.0 (by_session_id fresh.session_id) stored
            ∙ find-store_session st session in
          (ground (arith, k, found), id, signed)
    ]

-- The token that a client builds of the response to a successful `create_user_session` is accepted by
-- `check_user_token`, whatever the state before was, where the signature service accepts what it has
-- signed itself.
pub create_user_session-check_user_token :
    (env : Env) (st : State) (fresh : Fresh) (request : CreateUserSessionRequest)
    (response : CreateUserSessionResponse) (now : ℕ)
    → ((text signature : Text)
        → env.sign text ≡ some signature
        → env.verify text signature ≡ some true)
    → (create_user_session env st fresh request).1 ≡ ok response
    → (response.session_id ≡ env.ulids.to_string fresh.session_id)
      × ((check_user_token env (create_user_session env st fresh request).0 now (record {
        user_id = request.user_id;
        session_id = fresh.session_id;
        signature = response.signature;
      })).1
          ≡ ok true)
unfolding content encode_content
create_user_session-check_user_token env st fresh request response now accepts h =
    let (found, id, signed) = create_user_session-ok env st fresh request response h in
    let text = encode_content request.user_id (env.ulids.to_string fresh.session_id) in
    (
      id,
      check-signed env (create_user_session env st fresh request).0 now st.next
          (record {
            user_id = request.user_id;
            session_id = fresh.session_id;
            signature = response.signature;
          })
          (accepts text response.signature signed) found,
    )
