-- ===== src/BanchoState/Service/Targets.antt =====
-- core/services/bancho_state/src/services/bancho_state.rs: which sessions are the target of the calls
-- that send one user the presences of others.
use peace.BanchoState.Service.{State, deref}
use peace.Base.{
  inl, inr, ap, sym, ◌∙◌, none, Option-cases, Bool-cases, ◌==◌, ℕ, if◌then◌else◌, ◌≡◌, refl, arith,
  some, List, [], ◌∷◌, map,
}
use peace.Base.Keys.{Eq, nat_eq, text_eq, beq_refl}
use peace.Base.{All}
use peace.Base.HashMap.{HashMap, IsMap, get}
use peace.Users.{
  BaseSession, UserQuery, by_session_id, by_user_id, by_username, by_username_unicode,
  session_is_target,
}
use peace.Users.Store.{get_inner, unicode_key}
use peace.Users.Store.Owned.{Consistent}
use peace.Users.Store.Full.{IsFull}

-- The sessions of a list that are not the target of a query, in their order.
unfoldable pub others : State → UserQuery → List ℕ → List ℕ
others st to [] = []
others st to (a ∷ as') =
    if session_is_target (deref st a) to then others st to as' else a ∷ others st to as'

abbrev pub values : HashMap ℕ ℕ → List ℕ
values = map (λ entry. entry.1)

-- All but one address.
unfoldable pub except : ℕ → List ℕ → List ℕ
except a [] = []
except a (b ∷ bs) = if b == a then except a bs else b ∷ except a bs

-- A query for a unicode name asks for the session's own, not for the key of one that has none.
abbrev pub HasName : BaseSession → UserQuery → Type 0
HasName s (by_session_id id) = Unit {0}
HasName s (by_user_id id) = Unit {0}
HasName s (by_username name) = Unit {0}
HasName s (by_username_unicode name) = s.username_unicode ≡ some name

-- The session that a key finds in a map is the only one with that key that the map finds.
same_key :
    {K : Type 0} ⦃e : Eq K⦄ (key : ℕ → K) (m : HashMap K ℕ) (t : K) (a b : ℕ)
    → get t m ≡ some a
    → key a ≡ t
    → get (key b) m ≡ some b
    → e.beq (key b) t ≡ (b == a)
same_key ⦃e⦄ key m t a b found own there = elim (Bool-cases (b == a)) [
  | inl same ↦
      let b_a : b ≡ a = ground (arith, same) in rw same ((e.beq_iff (key b) t).1 (ap key b_a ∙ own))
  | inr other ↦ elim (Bool-cases (e.beq (key b) t)) [
    | inl clash ↦
        let key_t = (e.beq_iff (key b) t).0 clash in
        let both = sym there ∙ ap (λ k. get k m) key_t ∙ found in ground (arith, other, both)
    | inr fits ↦ fits ∙ sym other
  ]
]

-- A session of the store is the target of the query when it is the one that the query finds.
pub session_is_target-same :
    (st : State) (to : UserQuery) (a k b : ℕ)
    → Consistent (deref st) st.user_sessions.indexes
    → IsFull (deref st) st.user_sessions.indexes
    → get_inner st.user_sessions.indexes to ≡ some a
    → HasName (deref st a) to
    → get k st.user_sessions.indexes.user_id ≡ some b
    → session_is_target (deref st b) to ≡ (b == a)
unfolding session_is_target get_inner
session_is_target-same st (by_session_id id) a k b c f there named h =
    same_key (λ d. (deref st d).id) st.user_sessions.indexes.session_id id a b there
      (c.session_id id a there).0 (f k b h).0
session_is_target-same st (by_user_id id) a k b c f there named h =
    let own = c.user_id k b h in
    same_key (λ d. (deref st d).user_id) st.user_sessions.indexes.user_id id a b there
      (c.user_id id a there).0 own.1
session_is_target-same st (by_username name) a k b c f there named h =
    same_key (λ d. (deref st d).username) st.user_sessions.indexes.username name a b there
      (c.username name a there).0 (f k b h).1
session_is_target-same st (by_username_unicode name) a k b c f there named h =
    let test =
      same_key (unicode_key (deref st)) st.user_sessions.indexes.username_unicode name a b there
        (c.username_unicode name a there).0 (f k b h).2 in
    elim (Option-cases (deref st b).username_unicode) [
      | inl unnamed ↦ elim (Bool-cases (b == a)) [
        | inl same ↦
            let b_a : b ≡ a = ground (arith, same) in
            let clash : none ≡ some name =
              sym unnamed ∙ ap (λ d. (deref st d).username_unicode) b_a ∙ named in
            ground (arith, clash)
        | inr other ↦ ground (arith, unnamed, other)
      ]
      | inr (n, own) ↦ ground (arith, own, test)
    ]

-- What holds of each entry that a map finds holds of all its entries.
pub found-All :
    (P : ℕ × ℕ → Type 0) (m : HashMap ℕ ℕ)
    → IsMap m
    → ((k b : ℕ) → get k m ≡ some b → P (k, b))
    → All P m
unfolding get
found-All P [] one holds_there = tt
found-All P ((k, b) ∷ m) (fresh, one) holds_there = (
  holds_there k b (ground (arith, beq_refl k)),
  found-All P m one (λ j d h. holds_there j d (ground (arith, fresh, h))),
)

pub others-except :
    (st : State) (to : UserQuery) (a : ℕ) (m : HashMap ℕ ℕ)
    → All (λ entry. session_is_target (deref st entry.1) to ≡ (entry.1 == a)) m
    → others st to (values m) ≡ except a (values m)
unfolding others except
others-except st to a [] target = refl
others-except st to a ((k, b) ∷ m) (here, later) =
    ground (arith, here, others-except st to a m later)
