-- ===== src/Users/Store/Count.antt =====
-- core/infra/users/src/users_store.rs: `len` counts the users.
use peace.Users.{Text, BaseSession, UserQuery}
use peace.Users.Store.{
  UserIndexes, UserStore, or_else, new, new_indexes, from_indexes, remove_unicode, remove_session,
}
use peace.Users.Store.{
  delete_inner, get_inner, add_session, delete_session, without_prev, create, delete, clear,
}
use peace.Users.Store.Owned.{
  Consistent, create-Consistent, add_session-Consistent, without_prev-Consistent,
}
use peace.Users.Store.Owned.{get_inner-user_id, delete_session-Consistent}
use peace.Base.{ℕ, ◌+◌, ◌%◌, ◌^◌, ◌<◌, ◌≡◌, ◌≢◌, refl, inl, inr, arith, length, All, List, [], ◌∷◌}
use peace.Base.{Option, none, some, Option-cases}
use peace.Base.Keys.{nat_eq, text_eq}
use peace.Base.HashMap.{
  get, insert, remove, IsMap, get-insert, insert-IsMap, remove-IsMap, length-insert, length-remove,
}

module _ {T : Type 0} (deref : T → BaseSession) where
  -- The store is consistent, a user has one entry, and `len` is the number of users.
  pub record Counted (store : UserStore T) : Type 0 where
    pub consistent : Consistent deref store.indexes
    pub one_entry : IsMap store.indexes.user_id
    pub count : store.len ≡ length store.indexes.user_id % 2 ^ 64

  remove_session-some :
      (x : UserIndexes T) (k : ℕ) (n : Text) (id : ℕ) (u : Option Text) (s : T)
      → get k x.user_id ≡ some s
      → (t : T) × ((remove_session x k n id u).1 ≡ some t)
  unfolding remove_session
  remove_session-some x k n id u s h =
      rw (h, or_else)
        (later (remove_unicode x.username_unicode n u).0 (get id x.session_id) (get n x.username) s)
    where
      later :
          (a b c : Option T) (d : T)
          → (t : T) × (or_else a (or_else b (or_else c (some d))) ≡ some t)
      later (some a) b c d = (a, refl)
      later none (some b) c d = (b, refl)
      later none none (some c) d = (c, refl)
      later none none none d = (d, refl)

  delete_session-count :
      (store : UserStore T) (s : T)
      → IsMap store.indexes.user_id
      → store.len ≡ length store.indexes.user_id % 2 ^ 64
      → get (deref s).user_id store.indexes.user_id ≡ some s
      → IsMap (delete_session deref store s).0.indexes.user_id
        × ((delete_session deref store s).0.len
            ≡ length (delete_session deref store s).0.indexes.user_id % 2 ^ 64)
        × (length (delete_session deref store s).0.indexes.user_id + 1
            ≡ length store.indexes.user_id)
  unfolding delete_inner remove_session
  delete_session-count store s m n h =
      let d = deref s in
      let users = store.indexes.user_id in
      let shorter : length (remove d.user_id users) + 1 ≡ length users =
        ground (arith, length-remove d.user_id users m, h) in
      let (t, some_removed) =
        remove_session-some store.indexes d.user_id d.username d.id d.username_unicode s h in
      (
        remove-IsMap d.user_id users m,
        rw (some_removed, delete_session, delete_inner) (omega (arith, n, shorter)),
        shorter,
      )

  without_prev-count :
      (store : UserStore T) (item : T)
      → Counted store
      → IsMap (without_prev deref store item).indexes.user_id
        × ((without_prev deref store item).len
            ≡ length (without_prev deref store item).indexes.user_id % 2 ^ 64)
  unfolding without_prev get_inner
  without_prev-count store item c =
      elim (Option-cases (get (deref item).user_id store.indexes.user_id)) [
        | inl absent ↦ rw (absent, without_prev) (c.one_entry, c.count)
        | inr (prev, found) ↦
            let owner = c.consistent.user_id (deref item).user_id prev found in
            let r = delete_session-count store prev c.one_entry c.count owner.1 in
            rw (found, without_prev) (r.0, r.1)
      ]

  -- `create` keeps the store consistent, each user with one entry, and `len` the number of users,
  -- where the user had a session before and where not.
  pub create-Counted :
      (store : UserStore T) (item : T) → Counted store → Counted (create deref store item).0
  unfolding create add_session
  create-Counted store item c =
      let id = (deref item).user_id in
      let users = (without_prev deref store item).indexes.user_id in
      let (one, n) = without_prev-count store item c in
      let fresh = (without_prev-Consistent deref store item c.consistent).1 in
      let longer : length (insert id item users) ≡ length users + 1 =
        ground (arith, length-insert id item users, fresh) in
      record {
        consistent = create-Consistent deref store item c.consistent;
        one_entry = insert-IsMap id item users one;
        count = omega (arith, n, longer);
      }

  -- `delete` does the same, where it finds a session and where not.
  pub delete-Counted :
      (store : UserStore T) (query : UserQuery)
      → Counted store
      → Counted (delete deref store query).0
  unfolding delete
  delete-Counted store query c = elim (Option-cases (get_inner store.indexes query)) [
    | inl absent ↦ rw (absent, delete) c
    | inr (s, found) ↦
        let there = get_inner-user_id deref store.indexes query s c.consistent found in
        let r = delete_session-count store s c.one_entry c.count there in
        rw (found, delete)
          (record {
            consistent = delete_session-Consistent deref store s c.consistent there;
            one_entry = r.0;
            count = r.1;
          })
  ]

  new-Counted : Counted new
  unfolding get
  new-Counted = record {
    consistent = record {
      session_id = λ k s h. ground (arith, h);
      user_id = λ k s h. ground (arith, h);
      username = λ k s h. ground (arith, h);
      username_unicode = λ k s h. ground (arith, h);
    };
    one_entry = tt;
    count = refl;
  }

  -- The indexes with the sessions of a snapshot, which `from_indexes` makes a store of.
  unfoldable pub add_all : UserIndexes T → List T → UserIndexes T
  add_all x [] = x
  add_all x (item ∷ items) = add_all (add_session deref x item) items

  -- The sessions are of different users.
  abbrev pub Differ : List T → Type 0
  Differ [] = Unit {0}
  Differ (item ∷ items) =
      All (λ other. (deref item).user_id ≢ (deref other).user_id) items × Differ items

  abbrev IsAbsent : UserIndexes T → T → Type 0
  IsAbsent x item = get (deref item).user_id x.user_id ≡ none

  add_session-IsAbsent :
      (x : UserIndexes T) (item : T) (items : List T)
      → All (λ other. (deref item).user_id ≢ (deref other).user_id) items
      → All (IsAbsent x) items
      → All (IsAbsent (add_session deref x item)) items
  unfolding add_session
  add_session-IsAbsent x item [] differ absent = tt
  add_session-IsAbsent x item (other ∷ items) (d, differ) (a, absent) = (
    ground (
      arith,
      a,
      d,
      get-insert (deref item).user_id (deref other).user_id item x.user_id,
      nat_eq.beq_iff (deref item).user_id (deref other).user_id,
    ),
    add_session-IsAbsent x item items differ absent,
  )

  add_all-Consistent :
      (x : UserIndexes T) (items : List T)
      → Consistent deref x
      → IsMap x.user_id
      → Differ items
      → All (IsAbsent x) items
      → Consistent deref (add_all x items) × IsMap (add_all x items).user_id
  unfolding add_all add_session
  add_all-Consistent x [] c one differ absent = (c, one)
  add_all-Consistent x (item ∷ items) c one (d, differ) (a, absent) =
      add_all-Consistent (add_session deref x item) items (add_session-Consistent deref x item c a)
        (insert-IsMap (deref item).user_id item x.user_id one) differ
        (add_session-IsAbsent x item items d absent)

  new_indexes-IsAbsent : (items : List T) → All (IsAbsent new_indexes) items
  unfolding get
  new_indexes-IsAbsent [] = tt
  new_indexes-IsAbsent (item ∷ items) = (refl, new_indexes-IsAbsent items)

  -- The stores that come out of calls each of which is handed a session that the store has: of
  -- `create`, `delete` and `clear`, of `delete_inner` with the keys of a session that is in the store
  -- at that time, and of `from_indexes` with less than 2 ^ 64 sessions,
  -- of different users.
  pub data Serial : UserStore T → Type 0 where
    start : Serial new
    restored :
        (items : List T)
        → Differ items
        → length (add_all new_indexes items).user_id < 2 ^ 64
        → Serial (from_indexes (add_all new_indexes items))
    created : (store : UserStore T) (item : T) → Serial store → Serial (create deref store item).0
    deleted :
        (store : UserStore T) (query : UserQuery)
        → Serial store
        → Serial (delete deref store query).0
    removed :
        (store : UserStore T) (s : T)
        → Serial store
        → get (deref s).user_id store.indexes.user_id ≡ some s
        → Serial (delete_session deref store s).0
    cleared : (store : UserStore T) → Serial store → Serial (clear store)

  -- In every store that comes of a new or a restored one by `create`, `delete`, `clear` and calls of
  -- `delete_inner` for a session that is in the store: each entry of the four maps stands under its
  -- session's key and belongs to the session of that user id, each user has one entry, and `len` is
  -- the number of users. A `delete_inner` for a session that another call has replaced is not among
  -- these calls.
  pub Serial-Counted : (store : UserStore T) → Serial store → Counted store
  unfolding clear from_indexes
  Serial-Counted s start = new-Counted
  Serial-Counted s (restored items differ small) =
      let n = new-Counted in
      let (c, one) =
        add_all-Consistent new_indexes items n.consistent n.one_entry differ
          (new_indexes-IsAbsent items) in
      record { consistent = c; one_entry = one; count = omega (arith, small) }
  Serial-Counted s (created store item r) = create-Counted store item (Serial-Counted store r)
  Serial-Counted s (deleted store query r) = delete-Counted store query (Serial-Counted store r)
  Serial-Counted s (removed store item r there) =
      let c = Serial-Counted store r in
      let k = delete_session-count store item c.one_entry c.count there in
      record {
        consistent = delete_session-Consistent deref store item c.consistent there;
        one_entry = k.0;
        count = k.1;
      }
  Serial-Counted s (cleared store r) = new-Counted
