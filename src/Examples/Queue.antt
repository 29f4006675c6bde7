-- ===== src/Examples/Queue.antt =====
-- Runs of lib/message_queue on a queue of two messages, the first one read by reader 7.
use peace.Base.{ℕ, ◌≡◌, refl, arith, Bool, leb}
use peace.Base.{some, none, List, [], ◌∷◌}
use peace.Base.Keys.{nat_eq}
use peace.MessageQueue.{RawMessageQueue, receive_messages}
use peace.MessageQueue.{is_valid}
use peace.MessageQueue.Once.{Blind, receive_messages-others}
use peace.MessageQueue.Removal.{IsOrdered}

abbrev small_only : ℕ → List ℕ → Bool
small_only content readers = leb content 20

abbrev two_messages : RawMessageQueue ℕ ℕ
two_messages = record {
  messages =
      (3, record { content = 10; has_read = 7 ∷ []; validator = none })
      ∷ (5, record { content = 20; has_read = []; validator = some small_only })
      ∷ [];
}

two_messages-IsOrdered : IsOrdered two_messages
two_messages-IsOrdered = (omega arith, (omega arith, tt))

receive_messages-others_example :
    (receive_messages (receive_messages two_messages 8 0 (some 1)).0 9 4 none).1
    ≡ (receive_messages two_messages 9 4 none).1
unfolding is_valid
receive_messages-others_example =
    receive_messages-others two_messages 8 9 0 4 (some 1) none (λ e. ground (arith, e)) blind
  where
    blind : Blind two_messages.messages
    blind = ((λ r r'. refl), ((λ r r'. refl), tt))
