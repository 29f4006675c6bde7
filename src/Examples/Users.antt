-- ===== src/Examples/Users.antt =====
-- Runs of core/infra/users/src/users_store.rs on a store of two users.
use peace.Base.{ℕ, ◌≡◌, ◌≢◌, refl, subst, arith, some, none, [], ◌∷◌}
use peace.Base.HashMap.{get, insert, remove}
use peace.Base.Keys.{nat_eq, text_eq}
use peace.Users.{BaseSession, by_session_id, by_user_id, by_username}
use peace.Users.Store.{
  UserStore, new, create, delete, without_prev, get_inner, add_session, unicode_key, delete_inner,
  remove_session, remove_unicode,
}
use peace.Users.Store.Owned.{Consistent}
use peace.Users.Store.Count.{Counted, Serial, start, created, Serial-Counted}
use peace.Users.Store.Full.{IsFull, IsFree, create-IsFull, delete-IsFull}

abbrev deref : BaseSession → BaseSession
deref s = s

abbrev alice : BaseSession
alice = record {
  id = 11;
  user_id = 1;
  username = 97 ∷ [];
  username_unicode = none;
  privileges = 1;
  created_at = 0;
  last_active = 0;
}

abbrev bob : BaseSession
bob = record {
  id = 12;
  user_id = 2;
  username = 98 ∷ [];
  username_unicode = some (66 ∷ []);
  privileges = 1;
  created_at = 0;
  last_active = 0;
}

abbrev one_user : UserStore BaseSession
one_user = (create deref new alice).0

abbrev two_users : UserStore BaseSession
two_users = (create deref one_user bob).0

two_users-Serial : Serial deref two_users
two_users-Serial = created one_user bob (created new alice start)

Serial-Counted_example : Counted deref two_users
Serial-Counted_example = Serial-Counted deref two_users two_users-Serial

two_users-Consistent : Consistent deref two_users.indexes
two_users-Consistent = (Serial-Counted deref two_users two_users-Serial).consistent

one_user-Consistent : Consistent deref one_user.indexes
one_user-Consistent = (Serial-Counted deref one_user (created new alice start)).consistent

bob_found : get_inner two_users.indexes (by_session_id 12) ≡ some bob
unfolding create without_prev get_inner add_session get insert
bob_found = refl

alice_found : get_inner two_users.indexes (by_user_id 1) ≡ some alice
unfolding create without_prev get_inner add_session get insert
alice_found = refl

alice_left :
    get_inner (delete deref two_users (by_session_id 12)).0.indexes (by_user_id 1) ≡ some alice
unfolding create delete without_prev get_inner add_session get insert delete_inner remove_session
    remove_unicode remove
alice_left = refl

new-Consistent : Consistent deref (new {T = BaseSession}).indexes
new-Consistent = (Serial-Counted deref new start).consistent

new-IsFull : IsFull deref (new {T = BaseSession}).indexes
unfolding get
new-IsFull k s h = ground (arith, h)

new-IsFree : IsFree deref (new {T = BaseSession}).indexes alice
unfolding get
new-IsFree k s h = ground (arith, h)

one_user-IsFull : IsFull deref one_user.indexes
one_user-IsFull = create-IsFull deref new alice new-Consistent new-IsFull new-IsFree

only_alice : (k : ℕ) (s : BaseSession) → get k one_user.indexes.user_id ≡ some s → alice ≡ s
unfolding create without_prev get_inner add_session get insert
only_alice k s h = ground (arith, h)

bob-IsFree : IsFree deref one_user.indexes bob
bob-IsFree k s h other =
    subst
      (λ t.
        (t.id ≢ bob.id)
        × (t.username ≢ bob.username)
        × (unicode_key deref t ≢ unicode_key deref bob))
      (only_alice k s h) (λ e. ground (arith, e), λ e. ground (arith, e), λ e. ground (arith, e))

create-IsFull_example : IsFull deref two_users.indexes
create-IsFull_example =
    create-IsFull deref one_user bob one_user-Consistent one_user-IsFull bob-IsFree

delete-IsFull_example :
    IsFull deref (delete deref one_user (by_username (97 ∷ []))).0.indexes
    × ((delete deref one_user (by_username (97 ∷ []))).1
        ≡ get_inner one_user.indexes (by_username (97 ∷ [])))
delete-IsFull_example =
    delete-IsFull deref one_user (by_username (97 ∷ [])) one_user-Consistent one_user-IsFull
