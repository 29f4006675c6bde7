-- ===== src/Examples/Recycle.antt =====
-- Runs of the recycling of sessions on a store of one deactive session and a queue of two messages.
use peace.Base.{ℕ, ◌≡◌, refl, arith, none, some, [], ◌∷◌, done}
use peace.Base.Keys.{nat_eq}
use peace.Base.HashMap.{get, insert}
use peace.Base.BTreeMap.{get as get_message}
use peace.MessageQueue.{RawMessageQueue}
use peace.MessageQueue.Removal.{IsOrdered}
use peace.Users.{BaseSession}
use peace.Users.Store.{UserStore, new, create, without_prev, get_inner, add_session}
use peace.Users.Store.Count.{Counted, start, created, Serial-Counted}
use peace.Recycle.{recycle}
use peace.Recycle.Rounds.{if_active, recycle-sessions, recycle-messages}

abbrev deref : BaseSession → BaseSession
deref s = s

-- All have received the message 3.
abbrev notify_index : BaseSession → ℕ
notify_index s = 3

abbrev carol : BaseSession
carol = record {
  id = 11;
  user_id = 1;
  username = 99 ∷ [];
  username_unicode = none;
  privileges = 1;
  created_at = 0;
  last_active = 0;
}

abbrev carol_again : BaseSession
carol_again = record carol { id = 12; last_active = 20 }

abbrev store : UserStore BaseSession
store = (create deref new carol).0

store-Counted : Counted deref store
store-Counted = Serial-Counted deref store (created new carol start)

abbrev notices : RawMessageQueue ℕ ℕ
notices = record {
  messages =
      (3, record { content = 10; has_read = []; validator = none })
      ∷ (5, record { content = 20; has_read = []; validator = none })
      ∷ [];
}

notices-IsOrdered : IsOrdered notices
notices-IsOrdered = (omega arith, (omega arith, tt))

recycle-sessions_example :
    (store' : UserStore BaseSession) × (queue' : RawMessageQueue ℕ ℕ) × (recycle deref notify_index
        20 10 store notices
      ≡ done (store', queue'))
    × ((k : ℕ) → get k store'.indexes.user_id ≡ if_active deref 20 10 (get k store.indexes.user_id))
recycle-sessions_example =
    recycle-sessions deref notify_index 20 10 store notices store-Counted notices-IsOrdered

carol_found : get 1 store.indexes.user_id ≡ some carol
unfolding create without_prev get_inner add_session get insert
carol_found = refl

a_round :
    (store' : UserStore BaseSession) × (queue' : RawMessageQueue ℕ ℕ) × (recycle deref notify_index
        20 10 store notices
      ≡ done (store', queue'))
    × ((k : ℕ) → get k store'.indexes.user_id ≡ if_active deref 20 10 (get k store.indexes.user_id))
a_round = recycle-sessions deref notify_index 20 10 store notices store-Counted notices-IsOrdered

recycle-messages_example : get_message 5 a_round.1.messages ≡ get_message 5 notices.messages
recycle-messages_example =
    recycle-messages deref notify_index 20 10 store a_round.0 notices a_round.1 1 5 carol
      notices-IsOrdered a_round.2 carol_found (omega arith)
