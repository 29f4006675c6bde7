-- ===== src/Users/Store/Full.antt =====
-- core/infra/users/src/users_store.rs: stores in which no two users share a name.
use peace.Users.{Text, BaseSession, UserQuery}
use peace.Users.Store.{
  UserIndexes, UserStore, unwrap_or, or_else, remove_unicode, remove_session, delete_inner,
}
use peace.Users.Store.{
  get_inner, unicode_key, add_session, delete_session, without_prev, create, delete,
}
use peace.Users.Store.Owned.{Consistent, get_inner-user_id, without_prev-Consistent}
use peace.Base.{ℕ, ◌≡◌, refl, sym, ap, ◌∙◌, subst, ◌≢◌, inl, inr, arith}
use peace.Base.{Option, none, some, Option-cases, Bool-cases}
use peace.Base.Keys.{Eq, nat_eq, text_eq, beq_refl}
use peace.Base.HashMap.{HashMap, get, insert, remove, get-insert, get-remove}
use peace.Base.Indexes.{Sub-remove}

module _ {T K : Type 0} ⦃e : Eq K⦄ where
  -- What is found where the key of a session is written.
  get-insert_own : (m : HashMap K T) (k : K) (s : T) → get k (insert k s m) ≡ some s
  get-insert_own m k s = ground (arith, get-insert k k s m, beq_refl k)

  get-insert_other :
      (m : HashMap K T) (j k : K) (item s : T)
      → get k m ≡ some s
      → k ≢ j
      → get k (insert j item m) ≡ some s
  get-insert_other m j k item s h other = ground (arith, get-insert j k item m, e.beq_iff j k)

module _ {T : Type 0} (deref : T → BaseSession) where
  -- The other three maps find every session that the user ids find.
  abbrev pub IsFull : UserIndexes T → Type 0
  IsFull x =
      (k : ℕ) (s : T)
      → get k x.user_id ≡ some s
      → (get (deref s).id x.session_id ≡ some s)
        × (get (deref s).username x.username ≡ some s)
        × (get (unicode_key deref s) x.username_unicode ≡ some s)

  -- The session has no id and no name of another user's session.
  abbrev pub IsFree : UserIndexes T → T → Type 0
  IsFree x item =
      (k : ℕ) (s : T)
      → get k x.user_id ≡ some s
      → (deref s).user_id ≢ (deref item).user_id
      → ((deref s).id ≢ (deref item).id)
        × ((deref s).username ≢ (deref item).username)
        × (unicode_key deref s ≢ unicode_key deref item)

  remove_unicode-found :
      (m : HashMap Text T) (username : Text) (unicode : Option Text) (s : T)
      → get (unwrap_or unicode username) m ≡ some s
      → remove_unicode m username unicode ≡ (some s, remove (unwrap_or unicode username) m)
  unfolding remove_unicode
  remove_unicode-found m username none s h = ap (λ o. (o, remove username m)) h
  remove_unicode-found m username (some n) s h = rw (h, remove_unicode) refl

  -- The keys of two users' sessions differ.
  different :
      (x : UserIndexes T) (s t : T) (k : ℕ)
      → Consistent deref x
      → IsFull x
      → get (deref s).user_id x.user_id ≡ some s
      → get k x.user_id ≡ some t
      → k ≢ (deref s).user_id
      → ((deref s).id ≢ (deref t).id)
        × ((deref s).username ≢ (deref t).username)
        × (unicode_key deref s ≢ unicode_key deref t)
  different x s t k c f hs ht other =
      let fs = f (deref s).user_id s hs in
      let ft = f k t ht in
      let id = (c.user_id k t ht).0 in
      (
        λ same. clash s t k id other (sym fs.0 ∙ ap (λ i. get i x.session_id) same ∙ ft.0),
        λ same. clash s t k id other (sym fs.1 ∙ ap (λ i. get i x.username) same ∙ ft.1),
        λ same. clash s t k id other (sym fs.2 ∙ ap (λ i. get i x.username_unicode) same ∙ ft.2),
      )
    where
      clash :
          (s t : T) (k : ℕ) → (deref t).user_id ≡ k → k ≢ (deref s).user_id → some s ≡ some t → ⊥
      clash s t k id other same = ground (arith, id, other, same)

  delete_session-IsFull :
      (store : UserStore T) (s : T)
      → Consistent deref store.indexes
      → IsFull store.indexes
      → get (deref s).user_id store.indexes.user_id ≡ some s
      → IsFull (delete_session deref store s).0.indexes
        × ((delete_session deref store s).1 ≡ some s)
  unfolding delete_inner remove_session
  delete_session-IsFull store s c f h =
      let x = store.indexes in
      let d = deref s in
      let unicode =
        remove_unicode-found x.username_unicode d.username d.username_unicode s
          (f d.user_id s h).2 in
      (
        λ k t there.
            let old : (get k x.user_id ≡ some t) × (k ≢ d.user_id) =
              ground (arith, get-remove d.user_id k x.user_id, there, beq_refl k) in
            let kept = f k t old.0 in
            let apart = different x s t k c f h old.0 old.1 in
            (
              ground (
                arith,
                get-remove d.id (deref t).id x.session_id,
                kept.0,
                apart.0,
                nat_eq.beq_iff d.id (deref t).id,
              ),
              ground (
                arith,
                get-remove d.username (deref t).username x.username,
                kept.1,
                apart.1,
                text_eq.beq_iff d.username (deref t).username,
              ),
              ap (λ p. get (unicode_key deref t) p.1) unicode
                  ∙ ground (
                    arith,
                    get-remove (unicode_key deref s) (unicode_key deref t) x.username_unicode,
                    kept.2,
                    apart.2,
                    text_eq.beq_iff (unicode_key deref s) (unicode_key deref t),
                  ),
            ),
        ap
            (λ p. or_else p.0 (
              or_else (get d.id x.session_id)
                (or_else (get d.username x.username) (or_else (get d.user_id x.user_id) none))))
            unicode,
      )

  without_prev-IsFull :
      (store : UserStore T) (item : T)
      → Consistent deref store.indexes
      → IsFull store.indexes
      → IsFull (without_prev deref store item).indexes
        × ((k : ℕ) (s : T)
            → get k (without_prev deref store item).indexes.user_id ≡ some s
            → get k store.indexes.user_id ≡ some s)
  unfolding without_prev get_inner delete_inner remove_session
  without_prev-IsFull store item c f =
      elim (Option-cases (get (deref item).user_id store.indexes.user_id)) [
        | inl absent ↦ rw (absent, without_prev) (f, λ k s h. h)
        | inr (prev, found) ↦
            let owner = c.user_id (deref item).user_id prev found in
            rw (found, without_prev)
              (
                (delete_session-IsFull store prev c f owner.1).0,
                Sub-remove (deref prev).user_id store.indexes.user_id,
              )
      ]

  add_session-IsFull :
      (x : UserIndexes T) (item : T)
      → Consistent deref x
      → IsFull x
      → get (deref item).user_id x.user_id ≡ none
      → IsFree x item
      → IsFull (add_session deref x item)
  unfolding add_session
  add_session-IsFull x item c f fresh free k s there =
      let d = deref item in
      elim (Bool-cases (nat_eq.beq d.user_id k)) [
        | inl same ↦
            let is_item : item ≡ s =
              ground (arith, get-insert d.user_id k item x.user_id, there, same) in
            subst
              (λ t.
                (get (deref t).id (insert d.id item x.session_id) ≡ some t)
                × (get (deref t).username (insert d.username item x.username) ≡ some t)
                × (get (unicode_key deref t)
                      (insert (unicode_key deref item) item x.username_unicode)
                    ≡ some t))
              is_item
              (
                get-insert_own x.session_id d.id item,
                get-insert_own x.username d.username item,
                get-insert_own x.username_unicode (unicode_key deref item) item,
              )
        | inr other ↦
            let old : get k x.user_id ≡ some s =
              ground (arith, get-insert d.user_id k item x.user_id, there, other) in
            let user = c.user_id k s old in
            let (no_id, no_name, no_unicode) = free k s old (λ same.
              ground (arith, user.1, fresh, subst (λ j. get j x.user_id ≡ some s) same user.1)) in
            let (id, name, unicode) = f k s old in
            (
              get-insert_other x.session_id d.id (deref s).id item s id no_id,
              get-insert_other x.username d.username (deref s).username item s name no_name,
              get-insert_other x.username_unicode (unicode_key deref item) (unicode_key deref s)
                  item s unicode no_unicode,
            )
      ]

  -- `create` keeps a consistent store full (each user's session is found by all its four keys), where the new session has no id and no name of another user.
  pub create-IsFull :
      (store : UserStore T) (item : T)
      → Consistent deref store.indexes
      → IsFull store.indexes
      → IsFree store.indexes item
      → IsFull (create deref store item).0.indexes
  unfolding create
  create-IsFull store item c f free =
      let x = (without_prev deref store item).indexes in
      let (c', fresh) = without_prev-Consistent deref store item c in
      let (f', sub) = without_prev-IsFull store item c f in
      add_session-IsFull x item c' f' fresh (λ k s there. free k s (sub k s there))

  -- `delete` leaves a consistent full store full, and returns the session that the query finds.
  pub delete-IsFull :
      (store : UserStore T) (query : UserQuery)
      → Consistent deref store.indexes
      → IsFull store.indexes
      → IsFull (delete deref store query).0.indexes
        × ((delete deref store query).1 ≡ get_inner store.indexes query)
  unfolding delete
  delete-IsFull store query c f = elim (Option-cases (get_inner store.indexes query)) [
    | inl absent ↦ rw (absent, delete) (f, refl)
    | inr (s, found) ↦
        rw (found, delete)
          (delete_session-IsFull store s c f
            (get_inner-user_id deref store.indexes query s c found))
  ]
