-- ===== src/BanchoState/Queries.antt =====
-- core/pb/modules/bancho_state/src/lib.rs: the query for a user in a message of the RPC interface.
use peace.Base.{ℕ, ◌≡◌, refl, arith, Option, none, some}
pub use peace.Base.Outcome.{Outcome, ok, err, panicked, Outcome-cases, lift, ◌>>=◌, map_err, ok_or}
use peace.Users.{Text, UserQuery, by_session_id, by_user_id, by_username, by_username_unicode}

-- `ConvertError` of core/pb: what a message can have that is no query.
pub data ConvertError : Type 0 where
  decoding_error : ConvertError
  invalid_params : ConvertError

-- core/services/bancho_state/src/error.rs: the errors of the service.
pub data BanchoStateError : Type 0 where
  invalid_argument : BanchoStateError
  session_not_exists : BanchoStateError
  signature_error : BanchoStateError
  invalid_connection_info : BanchoStateError
  convert_error : ConvertError → BanchoStateError

-- What a call of the service comes to.
abbrev pub Reply {ℓ} : Type ℓ → Type ℓ
Reply A = Outcome BanchoStateError A

-- `ExecSuccess`, the answer of a call that has nothing to say.
pub data ExecSuccess : Type 0 where
  success : ExecSuccess

pub data QueryType : Type 0 where
  user_id : QueryType
  username : QueryType
  username_unicode : QueryType
  session_id : QueryType

-- `query_type` is what the method of that name returns, which is `user_id` for an unknown number.
pub record RawUserQuery : Type 0 where
  pub query_type : QueryType
  pub int_val : Option ℕ
  pub string_val : Option Text

-- The text of a `Ulid`, from the rusty_ulid crate.
pub record Ulids : Type 0 where
  pub from_str : Text → Option ℕ
  pub to_string : ℕ → Text

module _ (ulids : Ulids) where
  -- `try_from`
  unfoldable pub query_from : QueryType → Option ℕ → Option Text → Outcome ConvertError UserQuery
  query_from session_id int_val string_val = do
    text ← ok_or string_val invalid_params
    id ← ok_or (ulids.from_str text) decoding_error
    ok (by_session_id id)
  query_from user_id int_val string_val = do id ← ok_or int_val invalid_params; ok (by_user_id id)
  query_from username int_val string_val = do
    name ← ok_or string_val invalid_params
    ok (by_username name)
  query_from username_unicode int_val string_val = do
    name ← ok_or string_val invalid_params
    ok (by_username_unicode name)

  unfoldable pub into_user_query : RawUserQuery → Outcome ConvertError UserQuery
  unfolding query_from
  into_user_query raw = query_from raw.query_type raw.int_val raw.string_val

  -- `From<UserQuery>`
  unfoldable pub raw_from : UserQuery → RawUserQuery
  raw_from (by_session_id id) = record {
    query_type = session_id;
    int_val = none;
    string_val = some (ulids.to_string id);
  }
  raw_from (by_user_id id) = record { query_type = user_id; int_val = some id; string_val = none }
  raw_from (by_username name) = record {
    query_type = username;
    int_val = none;
    string_val = some name;
  }
  raw_from (by_username_unicode name) = record {
    query_type = username_unicode;
    int_val = none;
    string_val = some name;
  }

  -- Where the text of a `Ulid` is read back as that `Ulid`, a query that is written as a message is
  -- read back as it was.
  pub into_user_query-raw_from :
      ((id : ℕ) → ulids.from_str (ulids.to_string id) ≡ some id)
      → (query : UserQuery) → into_user_query (raw_from query) ≡ ok query
  unfolding into_user_query query_from raw_from
  into_user_query-raw_from decodes (by_session_id id) = ground (arith, decodes id)
  into_user_query-raw_from decodes (by_user_id id) = refl
  into_user_query-raw_from decodes (by_username name) = refl
  into_user_query-raw_from decodes (by_username_unicode name) = refl
