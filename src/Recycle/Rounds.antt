-- ===== src/Recycle/Rounds.antt =====
-- core/services/bancho_state/src/services/background.rs: what a round removes and what it keeps.
use peace.Base.{ℕ, ◌≤◌, ◌<◌, ◌==◌, ◌≡◌, refl, ap, ◌∙◌, subst, inl, inr, arith}
use peace.Base.{
  Bool, false, if◌then◌else◌, ◌||◌, Option, none, some, Bool-cases, List, [], ◌∷◌, done,
}
use peace.Base.Keys.{nat_eq, beq_refl}
use peace.Base.HashMap.{HashMap, get, remove, IsMap, get-remove}
use peace.Base.BTreeMap.{get as get_message}
use peace.MessageQueue.{RawMessageQueue}
use peace.MessageQueue.Removal.{IsOrdered}
use peace.MessageQueue.Invalid.{remove_messages_before_id-after_id}
use peace.Users.{BaseSession, is_deactive}
use peace.Users.Store.{UserStore, delete_session, delete_inner, remove_session}
use peace.Users.Store.Count.{Counted}
use peace.Recycle.{lower, look_through, remove_sessions, remove_read_messages, recycle}

module _ {T : Type 0} (deref : T → BaseSession) where
  -- The session, where it is not deactive.
  abbrev pub if_active : ℕ → ℕ → Option T → Option T
  if_active now deadline none = none
  if_active now deadline (some s) = if is_deactive (deref s) now deadline then none else some s

module _ {T : Type 0} (deref : T → BaseSession) (notify_index : T → ℕ) where
  abbrev user : T → ℕ
  user s = (deref s).user_id

  unfoldable listed : List T → ℕ → Bool
  listed [] k = false
  listed (s ∷ ss) k = user s == k || listed ss k

  delete_session-users :
      (store : UserStore T) (s : T)
      → (delete_session deref store s).0.indexes.user_id ≡ remove (user s) store.indexes.user_id
  unfolding delete_inner remove_session
  delete_session-users store s = refl

  get-remove_sessions :
      (ss : List T) (store : UserStore T) (k : ℕ)
      → get k (remove_sessions deref ss store).indexes.user_id
        ≡ (if listed ss k then none else get k store.indexes.user_id)
  unfolding remove_sessions listed
  get-remove_sessions [] store k = refl
  get-remove_sessions (s ∷ ss) store k = ground (
    arith,
    get-remove_sessions ss (delete_session deref store s).0 k,
    ap (get k) (delete_session-users store s),
    get-remove (user s) k store.indexes.user_id,
  )

  -- The sessions of a map stand under their user ids.
  abbrev Filed : HashMap ℕ T → Type 0
  Filed [] = Unit {0}
  Filed ((id, s) ∷ users) = (user s ≡ id) × Filed users

  filed :
      (users : HashMap ℕ T)
      → IsMap users
      → ((k : ℕ) (s : T) → get k users ≡ some s → user s ≡ k)
      → Filed users
  unfolding get
  filed [] one owned = tt
  filed ((id, s) ∷ users) (fresh, one) owned = (
    owned id s (ground (arith, beq_refl id)),
    filed users one (λ k t h. owned k t (ground (arith, h, fresh, nat_eq.beq_iff id k))),
  )

  listed-absent :
      (now deadline : ℕ) (users : HashMap ℕ T) (lowest : Option ℕ) (k : ℕ)
      → Filed users
      → get k users ≡ none
      → listed (look_through deref notify_index now deadline users lowest).sessions_deactive k
        ≡ false
  unfolding listed look_through get
  listed-absent now deadline [] lowest k f h = refl
  listed-absent now deadline ((id, s) ∷ users) lowest k f h =
      ground (arith, listed-absent now deadline users (lower lowest (notify_index s)) k f.1)

  get-look_through :
      (now deadline : ℕ) (users : HashMap ℕ T) (lowest : Option ℕ) (k : ℕ)
      → Filed users
      → IsMap users
      → (if listed (look_through deref notify_index now deadline users lowest).sessions_deactive k
          then none
          else get k users)
        ≡ if_active deref now deadline (get k users)
  unfolding listed look_through get
  get-look_through now deadline [] lowest k f one = refl
  get-look_through now deadline ((id, s) ∷ users) lowest k f (fresh, one) = ground (
    arith,
    get-look_through now deadline users (lower lowest (notify_index s)) k f.1 one,
    listed-absent now deadline users (lower lowest (notify_index s)) id f.1 fresh,
    f.0,
  )

  abbrev AtMost : Option ℕ → ℕ → Type 0
  AtMost none n = ⊥
  AtMost (some m) n = m ≤ n

  lower-AtMost : (lowest : Option ℕ) (x n : ℕ) → AtMost lowest n → AtMost (lower lowest x) n
  unfolding lower
  lower-AtMost none x n h = absurd h
  lower-AtMost (some v) x n h = ground arith

  lower-AtMost_new : (lowest : Option ℕ) (x : ℕ) → AtMost (lower lowest x) x
  unfolding lower
  lower-AtMost_new none x = omega arith
  lower-AtMost_new (some v) x = ground arith

  min-AtMost :
      (now deadline : ℕ) (users : HashMap ℕ T) (lowest : Option ℕ) (n : ℕ)
      → AtMost lowest n
      → AtMost (look_through deref notify_index now deadline users lowest).min_notify_msg_id n
  unfolding look_through
  min-AtMost now deadline [] lowest n h = h
  min-AtMost now deadline ((id, s) ∷ users) lowest n h =
      min-AtMost now deadline users (lower lowest (notify_index s)) n
        (lower-AtMost lowest (notify_index s) n h)

  min-session :
      (now deadline : ℕ) (users : HashMap ℕ T) (lowest : Option ℕ) (k : ℕ) (s : T)
      → get k users ≡ some s
      → AtMost
          (look_through deref notify_index now deadline users lowest).min_notify_msg_id
          (notify_index s)
  unfolding look_through get
  min-session now deadline [] lowest k s h = absurd (ground (arith, h))
  min-session now deadline ((id, t) ∷ users) lowest k s h = elim (Bool-cases (nat_eq.beq id k)) [
    | inl same ↦
        let it : t ≡ s = ground (arith, h, same) in
        subst
          (λ u.
            AtMost
              (look_through deref notify_index now deadline users
                (lower lowest (notify_index t))).min_notify_msg_id
              (notify_index u))
          it
          (min-AtMost now deadline users (lower lowest (notify_index t)) (notify_index t)
            (lower-AtMost_new lowest (notify_index t)))
    | inr other ↦
        min-session now deadline users (lower lowest (notify_index t)) k s
          (ground (arith, h, other))
  ]

  read_messages-removed :
      {M K : Type 0} (lowest : Option ℕ) (queue : RawMessageQueue M K)
      → IsOrdered queue
      → (queue' : RawMessageQueue M K) × (remove_read_messages lowest queue ≡ done queue')
        × ((n id : ℕ)
            → AtMost lowest n
            → n < id
            → get_message id queue'.messages ≡ get_message id queue.messages)
  unfolding remove_read_messages
  read_messages-removed none queue o = (queue, refl, λ n id h lt. refl)
  read_messages-removed (some m) queue o =
      let r = remove_messages_before_id-after_id queue m o in
      (r.0.0, rw r.2 refl, λ n id h lt. ground (arith, r.4 id))

  -- On a counted store and an ordered queue a round returns, and of the sessions under their user ids
  -- it keeps exactly those that are not deactive.
  pub recycle-sessions :
      {M K : Type 0} (now deadline : ℕ) (store : UserStore T) (queue : RawMessageQueue M K)
      → Counted deref store
      → IsOrdered queue
      → (store' : UserStore T) × (queue' : RawMessageQueue M K) × (recycle deref notify_index now
            deadline store queue
          ≡ done (store', queue'))
        × ((k : ℕ)
            → get k store'.indexes.user_id
              ≡ if_active deref now deadline (get k store.indexes.user_id))
  unfolding recycle
  recycle-sessions now deadline store queue c o =
      let users = store.indexes.user_id in
      let found = look_through deref notify_index now deadline users none in
      let r = read_messages-removed found.min_notify_msg_id queue o in
      let f = filed users c.one_entry (λ k s h. (c.consistent.user_id k s h).0) in
      (
        remove_sessions deref found.sessions_deactive store,
        r.0,
        rw r.1 refl,
        λ k.
            get-remove_sessions found.sessions_deactive store k
            ∙ get-look_through now deadline users none k f c.one_entry,
      )

  -- A round that returns on an ordered queue takes no message away that a session of the store has
  -- not received yet: the ones behind the session's index in the notify queue stay.
  pub recycle-messages :
      {M K : Type 0} (now deadline : ℕ) (store store' : UserStore T)
      (queue queue' : RawMessageQueue M K) (k id : ℕ) (s : T)
      → IsOrdered queue
      → recycle deref notify_index now deadline store queue ≡ done (store', queue')
      → get k store.indexes.user_id ≡ some s
      → notify_index s < id
      → get_message id queue'.messages ≡ get_message id queue.messages
  unfolding recycle
  recycle-messages now deadline store store' queue queue' k id s o e there lt =
      let found = look_through deref notify_index now deadline store.indexes.user_id none in
      let r = read_messages-removed found.min_notify_msg_id queue o in
      let kept =
        r.2 (notify_index s) id (min-session now deadline store.indexes.user_id none k s there)
          lt in
      ground (arith, r.1, e, kept)
