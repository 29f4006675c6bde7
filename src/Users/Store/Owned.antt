-- ===== src/Users/Store/Owned.antt =====
-- core/infra/users/src/users_store.rs: every entry belongs to its session.
use peace.Users.{
  Text, BaseSession, UserQuery, by_session_id, by_user_id, by_username, by_username_unicode,
}
use peace.Users.Store.{UserIndexes, UserStore, unwrap_or, remove_unicode, remove_session}
use peace.Users.Store.{
  delete_inner, get_inner, unicode_key, add_session, delete_session, without_prev,
}
use peace.Users.Store.{create, delete}
use peace.Base.{ℕ, ◌≡◌, subst, inl, inr, arith}
use peace.Base.{Option, none, some, Option-cases}
use peace.Base.Keys.{nat_eq, text_eq}
use peace.Base.HashMap.{HashMap, get, remove, get-remove}
use peace.Base.Indexes.{Owned, Sub, Owned-add, Owned-drop, Sub-remove, gone-remove}

module _ {T : Type 0} where
  Sub-remove_unicode :
      (m : HashMap Text T) (username : Text) (unicode : Option Text)
      → Sub (remove_unicode m username unicode).1 m
  unfolding remove_unicode
  Sub-remove_unicode m username none = Sub-remove username m
  Sub-remove_unicode m username (some n) = elim (Option-cases (get n m)) [
    | inl absent ↦ rw (absent, remove_unicode) (Sub-remove username m)
    | inr (t, found) ↦ rw (found, remove_unicode) (Sub-remove n m)
  ]

  gone-remove_unicode :
      (m : HashMap Text T) (username : Text) (unicode : Option Text)
      → get (unwrap_or unicode username) (remove_unicode m username unicode).1 ≡ none
  unfolding remove_unicode
  gone-remove_unicode m username none = gone-remove username m
  gone-remove_unicode m username (some n) = elim (Option-cases (get n m)) [
    | inl absent ↦ rw (absent, remove_unicode) (ground (arith, get-remove username n m, absent))
    | inr (t, found) ↦ rw (found, remove_unicode) (gone-remove n m)
  ]

module _ {T : Type 0} (deref : T → BaseSession) where
  abbrev pub user_key : T → ℕ
  user_key s = (deref s).user_id

  -- The entries of the four maps belong to their sessions.
  pub record Consistent (x : UserIndexes T) : Type 0 where
    pub session_id : Owned user_key (λ s. (deref s).id) x.session_id x.user_id
    pub user_id : Owned user_key user_key x.user_id x.user_id
    pub username : Owned user_key (λ s. (deref s).username) x.username x.user_id
    pub username_unicode : Owned user_key (unicode_key deref) x.username_unicode x.user_id

  pub delete_session-Consistent :
      (store : UserStore T) (s : T)
      → Consistent store.indexes
      → get (deref s).user_id store.indexes.user_id ≡ some s
      → Consistent (delete_session deref store s).0.indexes
  unfolding delete_inner remove_session
  delete_session-Consistent store s c h =
      let x = store.indexes in
      let d = deref s in
      record {
        session_id =
            Owned-drop user_key (λ t. (deref t).id) x.session_id (remove d.id x.session_id)
              x.user_id s c.session_id h (Sub-remove d.id x.session_id)
              (gone-remove d.id x.session_id);
        user_id =
            Owned-drop user_key user_key x.user_id (remove d.user_id x.user_id) x.user_id s
              c.user_id h (Sub-remove d.user_id x.user_id) (gone-remove d.user_id x.user_id);
        username =
            Owned-drop user_key (λ t. (deref t).username) x.username (remove d.username x.username)
              x.user_id s c.username h (Sub-remove d.username x.username)
              (gone-remove d.username x.username);
        username_unicode =
            Owned-drop user_key (unicode_key deref) x.username_unicode
              (remove_unicode x.username_unicode d.username d.username_unicode).1 x.user_id s
              c.username_unicode h
              (Sub-remove_unicode x.username_unicode d.username d.username_unicode)
              (gone-remove_unicode x.username_unicode d.username d.username_unicode);
      }

  pub get_inner-user_id :
      (x : UserIndexes T) (query : UserQuery) (s : T)
      → Consistent x
      → get_inner x query ≡ some s
      → get (deref s).user_id x.user_id ≡ some s
  unfolding get_inner
  get_inner-user_id x (by_user_id k) s c h = (c.user_id k s h).1
  get_inner-user_id x (by_username k) s c h = (c.username k s h).1
  get_inner-user_id x (by_username_unicode k) s c h = (c.username_unicode k s h).1
  get_inner-user_id x (by_session_id k) s c h = (c.session_id k s h).1

  pub without_prev-Consistent :
      (store : UserStore T) (item : T)
      → Consistent store.indexes
      → Consistent (without_prev deref store item).indexes
        × (get (deref item).user_id (without_prev deref store item).indexes.user_id ≡ none)
  unfolding get_inner without_prev delete_inner remove_session
  without_prev-Consistent store item c =
      elim (Option-cases (get (deref item).user_id store.indexes.user_id)) [
        | inl absent ↦ rw (absent, without_prev) (c, absent)
        | inr (prev, found) ↦
            let owner = c.user_id (deref item).user_id prev found in
            rw (found, without_prev)
              (
                delete_session-Consistent store prev c owner.1,
                subst (λ k. get k (remove (deref prev).user_id store.indexes.user_id) ≡ none)
                    owner.0 (gone-remove (deref prev).user_id store.indexes.user_id),
              )
      ]

  pub add_session-Consistent :
      (x : UserIndexes T) (item : T)
      → Consistent x
      → get (deref item).user_id x.user_id ≡ none
      → Consistent (add_session deref x item)
  unfolding add_session
  add_session-Consistent x item c fresh = record {
    session_id =
        Owned-add user_key (λ t. (deref t).id) x.session_id x.user_id item c.session_id fresh;
    user_id = Owned-add user_key user_key x.user_id x.user_id item c.user_id fresh;
    username =
        Owned-add user_key (λ t. (deref t).username) x.username x.user_id item c.username fresh;
    username_unicode =
        Owned-add user_key (unicode_key deref) x.username_unicode x.user_id item c.username_unicode
          fresh;
  }

  -- `create` keeps the store consistent, whatever names and ids the new session has.
  pub create-Consistent :
      (store : UserStore T) (item : T)
      → Consistent store.indexes
      → Consistent (create deref store item).0.indexes
  unfolding create
  create-Consistent store item c =
      let (c', fresh) = without_prev-Consistent store item c in
      add_session-Consistent (without_prev deref store item).indexes item c' fresh

  -- `delete` keeps the store consistent.
  pub delete-Consistent :
      (store : UserStore T) (query : UserQuery)
      → Consistent store.indexes
      → Consistent (delete deref store query).0.indexes
  unfolding delete
  delete-Consistent store query c = elim (Option-cases (get_inner store.indexes query)) [
    | inl absent ↦ rw (absent, delete) c
    | inr (s, found) ↦
        rw (found, delete)
          (delete_session-Consistent store s c (get_inner-user_id store.indexes query s c found))
  ]
