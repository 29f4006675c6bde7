-- ===== src/Users/Store/Lookups.antt =====
-- core/infra/users/src/users_store.rs: what a lookup finds after `create` and `delete`.
use peace.Users.{
  BaseSession, UserQuery, by_session_id, by_user_id, by_username, by_username_unicode,
}
use peace.Users.Store.{UserIndexes, UserStore, remove_session, delete_inner}
use peace.Users.Store.{get_inner, unicode_key, add_session, without_prev, create, delete}
use peace.Users.Store.Owned.{Consistent, get_inner-user_id}
use peace.Users.Store.Owned.{create-Consistent, delete-Consistent}
use peace.Base.{ℕ, ◌≡◌, refl, ◌≢◌, Bool, if◌then◌else◌, arith}
use peace.Base.{some}
use peace.Base.Keys.{nat_eq, text_eq}
use peace.Base.HashMap.{get, remove, get-insert, get-remove}

module _ {T : Type 0} (deref : T → BaseSession) where
  -- The query by which the store files the session.
  unfoldable pub names : UserQuery → T → Bool
  names (by_session_id k) s = nat_eq.beq (deref s).id k
  names (by_user_id k) s = nat_eq.beq (deref s).user_id k
  names (by_username k) s = text_eq.beq (deref s).username k
  names (by_username_unicode k) s = text_eq.beq (unicode_key deref s) k

  get_inner-add_session :
      (x : UserIndexes T) (item : T) (query : UserQuery)
      → get_inner (add_session deref x item) query
        ≡ (if names query item then some item else get_inner x query)
  unfolding get_inner add_session names
  get_inner-add_session x item (by_session_id k) = get-insert (deref item).id k item x.session_id
  get_inner-add_session x item (by_user_id k) = get-insert (deref item).user_id k item x.user_id
  get_inner-add_session x item (by_username k) = get-insert (deref item).username k item x.username
  get_inner-add_session x item (by_username_unicode k) =
      get-insert (unicode_key deref item) k item x.username_unicode

  only_item :
      (x : UserIndexes T) (item s : T)
      → (deref s).user_id ≡ (deref item).user_id
      → get (deref s).user_id (add_session deref x item).user_id ≡ some s
      → s ≡ item
  unfolding add_session
  only_item x item s same there =
      ground (arith, get-insert (deref item).user_id (deref s).user_id item x.user_id, same, there)

  -- `create` returns the session, which is found from then on by its session id, its user id, its
  -- name and its unicode name. By any other key a query finds what is left of the store without the
  -- user's previous session.
  pub create-get_inner :
      (store : UserStore T) (item : T) (query : UserQuery)
      → ((create deref store item).1 ≡ item)
        × (get_inner (create deref store item).0.indexes query ≡ (
            if names query item
            then some item
            else get_inner (without_prev deref store item).indexes query))
  unfolding create
  create-get_inner store item query =
      (refl, get_inner-add_session (without_prev deref store item).indexes item query)

  -- After `create` in a consistent store, no query finds another session of the same user, whatever the names are.
  pub create-only :
      (store : UserStore T) (item s : T) (query : UserQuery)
      → Consistent deref store.indexes
      → get_inner (create deref store item).0.indexes query ≡ some s
      → (deref s).user_id ≡ (deref item).user_id
      → s ≡ item
  unfolding create
  create-only store item s query c h same =
      let x = (without_prev deref store item).indexes in
      let there =
        get_inner-user_id deref (add_session deref x item) query s
          (create-Consistent deref store item c) h in
      only_item x item s same there

  delete-maps :
      (store : UserStore T) (query : UserQuery) (s : T)
      → get_inner store.indexes query ≡ some s
      → ((delete deref store query).0.indexes.user_id
          ≡ remove (deref s).user_id store.indexes.user_id)
        × ((delete deref store query).0.indexes.session_id
            ≡ remove (deref s).id store.indexes.session_id)
  unfolding delete delete_inner remove_session
  delete-maps store query s h = rw (h, delete) (refl, refl)

  -- After `delete` found a session of a consistent store by a query, no query finds a session of that user any more.
  pub delete-gone :
      (store : UserStore T) (query other : UserQuery) (s t : T)
      → Consistent deref store.indexes
      → get_inner store.indexes query ≡ some s
      → get_inner (delete deref store query).0.indexes other ≡ some t
      → (deref t).user_id ≢ (deref s).user_id
  delete-gone store query other s t c found still same =
      let users = store.indexes.user_id in
      let (left, _) = delete-maps store query s found in
      let there =
        get_inner-user_id deref (delete deref store query).0.indexes other t
          (delete-Consistent deref store query c) still in
      ground (arith, left, there, same, get-remove (deref s).user_id (deref t).user_id users)

  -- After `delete` found a session by a query, the other users are found by their ids as before.
  pub delete-others :
      (store : UserStore T) (query : UserQuery) (s : T) (k : ℕ)
      → get_inner store.indexes query ≡ some s
      → k ≢ (deref s).user_id
      → get_inner (delete deref store query).0.indexes (by_user_id k)
        ≡ get_inner store.indexes (by_user_id k)
  unfolding get_inner
  delete-others store query s k found other =
      let (left, _) = delete-maps store query s found in
      ground (arith, left, other, get-remove (deref s).user_id k store.indexes.user_id)
