-- ===== src/BanchoState/Service/Calls.antt =====
-- core/services/bancho_state/src/services/bancho_state.rs: the calls of the service that create,
-- delete, change and read the session of a user.
use peace.BanchoState.Enums.{standard, idle, mode_from_i32, status_from_i32, filter_from_i32}
use peace.BanchoState.Session.{BanchoSessionData, update_all, session_from}
use peace.BanchoState.Info.{user_stats_packet}
use peace.BanchoState.Queries.{
  invalid_argument, session_not_exists, signature_error, invalid_connection_info, Reply, ok, err,
  panicked, ◌>>=◌, ok_or, RawUserQuery, ExecSuccess, success,
}
use peace.BanchoState.Service.{
  Env, State, deref, write_session, set_extends, broadcast_bancho_packets, find, to_session,
}
use peace.BanchoState.Service.Users.{
  CreateUserSessionRequest, CreateUserSessionResponse, Fresh, new_session, create_session,
  delete_session,
}
use peace.BanchoState.Token.{BanchoClientToken, content, encode_content}
use peace.Base.{ℕ, suc, ◌==◌, not, bit_and, Bool, true, false, if◌then◌else◌}
use peace.Base.{Option, none, some, List, [], ◌∷◌, done, panic}
use peace.Base.Keys.{nat_eq}
use peace.Users.{Text, UserQuery, by_session_id}
use peace.Users.Store.{UserIndexes, add_session}

pub record GetUserSessionResponse : Type 0 where
  pub session_id : Option Text
  pub user_id : Option ℕ
  pub username : Option Text
  pub username_unicode : Option Text

pub record UpdateUserBanchoStatusRequest : Type 0 where
  pub user_query : Option RawUserQuery
  pub online_status : ℕ
  pub description : Text
  pub beatmap_md5 : Text
  pub mods : ℕ
  pub mode : ℕ
  pub beatmap_id : ℕ

abbrev pub unwrap_or {ℓ} : {A : Type ℓ} → A → Option A → A
unwrap_or d none = d
unwrap_or d (some a) = a

-- `UserSessionFields`: the constructors are the bits from the lowest on.
abbrev pub session_id_field : ℕ
session_id_field = 1

abbrev pub user_id_field : ℕ
user_id_field = 2

abbrev pub username_field : ℕ
username_field = 4

abbrev pub username_unicode_field : ℕ
username_unicode_field = 8

abbrev intersects : ℕ → ℕ → Bool
intersects fields field = not (bit_and fields field == 0)

abbrev if_asked {ℓ} : {A : Type ℓ} → ℕ → ℕ → Option A → Option A
if_asked fields field value = if intersects fields field then value else none

unfoldable pub changed : State → ℕ → UpdateUserBanchoStatusRequest → State
unfolding update_all
changed st a request =
    let e = (st.sessions a).extends in
    set_extends st a (record e {
      bancho_status =
          update_all e.bancho_status (unwrap_or idle (status_from_i32 request.online_status))
            request.description request.beatmap_id request.beatmap_md5 request.mods
            (unwrap_or standard (mode_from_i32 request.mode));
    })

-- `update_active`
unfoldable pub update_active : State → ℕ → ℕ → State
update_active st a now =
    let s = st.sessions a in
    write_session st a (record s { base = record s.base { last_active = now } })

module _ (env : Env) where
  -- The stats packet that tells the others is the message `id` of the notify queue.
  unfoldable pub update_user_bancho_status :
      State → ℕ → UpdateUserBanchoStatusRequest → State × Reply ExecSuccess
  unfolding changed
  update_user_bancho_status st id request = elim (to_session env st request.user_query) [
    | ok a ↦
        let st' = changed st a request in
        elim (user_stats_packet env.floats (st'.sessions a)) [
          | done packets ↦ (broadcast_bancho_packets st' id packets, ok success)
          | panic ↦ (st', panicked)
        ]
    | err e ↦ (st, err e)
    | panicked ↦ (st, panicked)
  ]

  -- The filter is read before the query, and the query before the session.
  unfoldable pub update_presence_filter :
      State → Option RawUserQuery → ℕ → State × Reply ExecSuccess
  update_presence_filter st none presence_filter = (st, err invalid_argument)
  update_presence_filter st (some raw) presence_filter = elim (filter_from_i32 presence_filter) [
    | none ↦ (st, err invalid_argument)
    | some filter ↦ elim (to_session env st (some raw)) [
      | ok a ↦ (
        set_extends st a (record (st.sessions a).extends { presence_filter = filter }),
        ok success,
      )
      | err e ↦ (st, err e)
      | panicked ↦ (st, panicked)
    ]
  ]

  unfoldable pub get_user_session_with_fields :
      State → Option RawUserQuery → ℕ → Reply GetUserSessionResponse
  get_user_session_with_fields st user_query fields = do
    a ← to_session env st user_query
    ok (record {
      session_id = if_asked fields session_id_field (some (env.ulids.to_string (deref st a).id));
      user_id = if_asked fields user_id_field (some (deref st a).user_id);
      username = if_asked fields username_field (some (deref st a).username);
      username_unicode = if_asked fields username_unicode_field (deref st a).username_unicode;
    })

  unfoldable pub get_user_session : State → UserQuery → Reply GetUserSessionResponse
  get_user_session st query = do
    a ← find st query
    ok (record {
      session_id = some (env.ulids.to_string (deref st a).id);
      user_id = some (deref st a).user_id;
      username = some (deref st a).username;
      username_unicode = (deref st a).username_unicode;
    })

  -- The user id and the text of the session id.
  unfoldable pub is_user_online : State → UserQuery → Reply (ℕ × Text)
  is_user_online st query = do
    a ← find st query
    ok ((deref st a).user_id, env.ulids.to_string (deref st a).id)

  -- `true` is the `is_valid` of the response, which is never false.
  unfoldable pub check_user_token : State → ℕ → BanchoClientToken → State × Reply Bool
  check_user_token st now token =
      elim (env.verify (content env.ulids.to_string token) token.signature) [
        | none ↦ (st, err signature_error)
        | some false ↦ (st, err session_not_exists)
        | some true ↦ elim (find st (by_session_id token.session_id)) [
          | ok a ↦ (update_active st a now, ok true)
          | err e ↦ (st, err e)
          | panicked ↦ (st, panicked)
        ]
      ]

  -- The notice that the user has left is the message `id`.
  unfoldable pub delete_user_session : State → ℕ → UserQuery → State × Reply ExecSuccess
  delete_user_session st id query =
      let r = delete_session st id query in (r.0, r.1 >>= λ a. ok success)

  -- The response with the id and the signature of the token, for the session that `create` returned.
  unfoldable pub respond :
      Fresh → CreateUserSessionRequest → Reply ℕ → Reply CreateUserSessionResponse
  respond fresh request created = do
    a ← created
    let session_id = env.ulids.to_string fresh.session_id
    signature ← ok_or (env.sign (encode_content request.user_id session_id)) signature_error
    ok (record { session_id = session_id; signature = signature })

  unfoldable pub create_user_session :
      State → Fresh → CreateUserSessionRequest → State × Reply CreateUserSessionResponse
  unfolding respond
  create_user_session st fresh request = elim request.connection_info [
    | none ↦ (st, err invalid_connection_info)
    | some info ↦
        let r = create_session env.floats st fresh.notice_id (new_session request info fresh) in
        (r.0, respond fresh request r.1)
  ]

-- `from_snapshot`: the sessions of the snapshot, each at an address of its own.
unfoldable pub add_sessions : State → UserIndexes ℕ → List BanchoSessionData → State × UserIndexes ℕ
unfolding session_from
add_sessions st indexes [] = (st, indexes)
add_sessions st indexes (u ∷ user_sessions) =
    let a = st.next in
    let st' = write_session (record st { next = suc st.next }) a (session_from u) in
    add_sessions st' (add_session (deref st') indexes a) user_sessions
