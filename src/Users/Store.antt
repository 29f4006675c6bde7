-- ===== src/Users/Store.antt =====
-- core/infra/users/src/users_store.rs: the sessions of a service under four keys, with their count.
-- Each method runs under the lock of the store. The maps are association lists, since the order of
-- their keys plays no part in the operations; `deref` is the session's `Deref` into `BaseSession`.
pub mod Owned
pub mod Count
pub mod Lookups
pub mod Full
use peace.Users.{
  Text, BaseSession, UserQuery, by_session_id, by_user_id, by_username, by_username_unicode,
}
use peace.Base.{
  ℕ, ◌+◌, ◌-◌, ◌%◌, ◌^◌, Bool, true, false, if◌then◌else◌, Option, none, some, List, [], length,
}
use peace.Base.Keys.{Eq, nat_eq, text_eq}
use peace.Base.HashMap.{HashMap, get, insert, remove, contains_key}

pub record UserIndexes (T : Type 0) : Type 0 where
  pub session_id : HashMap ℕ T
  pub user_id : HashMap ℕ T
  pub username : HashMap Text T
  pub username_unicode : HashMap Text T

pub record UserStore (T : Type 0) : Type 0 where
  pub indexes : UserIndexes T
  pub len : ℕ

-- `fetch_add(1)` and `fetch_sub(1)` of a 64-bit `Usize`
abbrev pub add_one : ℕ → ℕ
add_one n = (n + 1) % 2 ^ 64

abbrev pub sub_one : ℕ → ℕ
sub_one n = (n + (2 ^ 64 - 1)) % 2 ^ 64

abbrev pub or_else {ℓ} : {A : Type ℓ} → Option A → Option A → Option A
or_else none b = b
or_else (some a) b = some a

abbrev pub unwrap_or {ℓ} : {A : Type ℓ} → Option A → A → A
unwrap_or none a = a
unwrap_or (some a) b = a

module _ {T : Type 0} where
  abbrev pub new_indexes : UserIndexes T
  new_indexes = record { session_id = []; user_id = []; username = []; username_unicode = [] }

  -- `UserStore::new`
  abbrev pub new : UserStore T
  new = record { indexes = new_indexes; len = 0 }

  unfoldable pub from_indexes : UserIndexes T → UserStore T
  from_indexes indexes = record { indexes = indexes; len = length indexes.user_id }

  -- `raw_add_session`
  unfoldable pub raw_add_session : UserIndexes T → ℕ → Text → ℕ → Option Text → T → UserIndexes T
  raw_add_session indexes user_id username session_id username_unicode item = record {
    session_id = insert session_id item indexes.session_id;
    user_id = insert user_id item indexes.user_id;
    username = insert username item indexes.username;
    username_unicode = insert (unwrap_or username_unicode username) item indexes.username_unicode;
  }

  -- The entry that goes from `username_unicode`, and what is left: `and_then(..).or_else(..)`.
  unfoldable pub remove_unicode : HashMap Text T → Text → Option Text → Option T × HashMap Text T
  remove_unicode m username none = (get username m, remove username m)
  remove_unicode m username (some n) = elim (get n m) [
    | some s ↦ (some s, remove n m)
    | none ↦ (get username m, remove username m)
  ]

  -- `remove_session`
  unfoldable pub remove_session :
      UserIndexes T → ℕ → Text → ℕ → Option Text → UserIndexes T × Option T
  unfolding remove_unicode
  remove_session indexes user_id username session_id username_unicode =
      let unicode = remove_unicode indexes.username_unicode username username_unicode in
      let removed = or_else (get user_id indexes.user_id) none in
      let removed = or_else (get username indexes.username) removed in
      let removed = or_else (get session_id indexes.session_id) removed in
      (
        record {
          session_id = remove session_id indexes.session_id;
          user_id = remove user_id indexes.user_id;
          username = remove username indexes.username;
          username_unicode = unicode.1;
        },
        or_else unicode.0 removed,
      )

  -- `delete_inner`
  unfoldable pub delete_inner : UserStore T → ℕ → Text → ℕ → Option Text → UserStore T × Option T
  delete_inner store user_id username session_id username_unicode =
      let r = remove_session store.indexes user_id username session_id username_unicode in
      (
        record { indexes = r.0; len = elim r.1 [ none ↦ store.len | some s ↦ sub_one store.len ] },
        r.1,
      )

  -- `get_inner`, and `get` under the read lock
  unfoldable pub get_inner : UserIndexes T → UserQuery → Option T
  get_inner indexes (by_user_id user_id) = get user_id indexes.user_id
  get_inner indexes (by_username username) = get username indexes.username
  get_inner indexes (by_username_unicode username_unicode) =
      get username_unicode indexes.username_unicode
  get_inner indexes (by_session_id session_id) = get session_id indexes.session_id

  unfoldable pub exists : UserStore T → UserQuery → Bool
  exists store (by_user_id user_id) = contains_key user_id store.indexes.user_id
  exists store (by_username username) = contains_key username store.indexes.username
  exists store (by_username_unicode username_unicode) =
      contains_key username_unicode store.indexes.username_unicode
  exists store (by_session_id session_id) = contains_key session_id store.indexes.session_id

  -- `clear`
  unfoldable pub clear : UserStore T → UserStore T
  clear store = record { indexes = new_indexes; len = 0 }

module _ {T : Type 0} (deref : T → BaseSession) where
  abbrev pub unicode_key : T → Text
  unicode_key item = unwrap_or (deref item).username_unicode (deref item).username

  -- `add_session`
  unfoldable pub add_session : UserIndexes T → T → UserIndexes T
  add_session indexes item = record {
    session_id = insert (deref item).id item indexes.session_id;
    user_id = insert (deref item).user_id item indexes.user_id;
    username = insert (deref item).username item indexes.username;
    username_unicode = insert (unicode_key item) item indexes.username_unicode;
  }

  -- The call of `delete_inner` with the keys of a session.
  abbrev pub delete_session : UserStore T → T → UserStore T × Option T
  delete_session store s =
      delete_inner store (deref s).user_id (deref s).username (deref s).id
        (deref s).username_unicode

  unfoldable pub without_prev : UserStore T → T → UserStore T
  without_prev store item = elim (get_inner store.indexes (by_user_id (deref item).user_id)) [
    | none ↦ store
    | some prev ↦ (delete_session store prev).0
  ]

  -- `create`
  unfoldable pub create : UserStore T → T → UserStore T × T
  create store item =
      let store' = without_prev store item in
      (record { indexes = add_session store'.indexes item; len = add_one store'.len }, item)

  -- `delete`
  unfoldable pub delete : UserStore T → UserQuery → UserStore T × Option T
  delete store query = elim (get_inner store.indexes query) [
    | none ↦ (store, none)
    | some item ↦ delete_session store item
  ]
