-- ===== src/MessageQueue/Invalid.antt =====
-- lib/message_queue: `remove_invalid_messages` and the two removals from one end.
use peace.MessageQueue.{Message, RawMessageQueue, included, unbounded, is_valid}
use peace.MessageQueue.{remove_messages_before_id, remove_messages_after_id}
use peace.MessageQueue.{collect_invalid_mesages, remove_invalid_messages, invalid_ids}
use peace.MessageQueue.Removal.{
  IsOrdered, remove_messages-get, remove_messages_in_range-get, listed,
}
use peace.Base.{ℕ, suc, ◌<◌, leb, if◌then◌else◌, arith}
use peace.Base.{false, ◌≡◌, refl, ◌∙◌}
use peace.Base.{Option, none, some, List, [], ◌∷◌, done}
use peace.Base.BTreeMap.{get, Ascends, get_below}

module _ {T K : Type 0} where
  -- The message under an id, where it is valid.
  abbrev pub if_valid : Option (Message T K) → Option (Message T K)
  if_valid none = none
  if_valid (some m) = if is_valid m then some m else none

  pub listed_below :
      (k id : ℕ) (ms : List (ℕ × Message T K))
      → Ascends k ms
      → id < k
      → listed (invalid_ids ms) id ≡ false
  unfolding listed invalid_ids
  listed_below k id [] a h = refl
  listed_below k id ((i, m) ∷ ms) a h = ground (arith, listed_below (suc i) id ms a.1)

  pub get_invalid :
      (k id : ℕ) (ms : List (ℕ × Message T K))
      → Ascends k ms
      → (if listed (invalid_ids ms) id then none else get id ms) ≡ if_valid (get id ms)
  unfolding listed invalid_ids get
  get_invalid k id [] a = refl
  get_invalid k id ((i, m) ∷ ms) a = ground (
    arith,
    get_invalid (suc i) id ms a.1,
    get_below id (suc i) ms a.1,
    listed_below (suc i) id ms a.1,
  )

  -- `remove_invalid_messages` on an ordered queue keeps the valid messages as they are and takes away the others.
  pub remove_invalid_messages-get :
      (q : RawMessageQueue T K) (id : ℕ)
      → IsOrdered q
      → get id (remove_invalid_messages q).0.messages ≡ if_valid (get id q.messages)
  unfolding remove_invalid_messages collect_invalid_mesages
  remove_invalid_messages-get q id a =
      (remove_messages-get q (invalid_ids q.messages) a).1 id ∙ get_invalid 0 id q.messages a

  -- On an ordered queue `remove_messages_before_id` takes away the messages up to the id, the one of
  -- the id included, and `remove_messages_after_id` the ones from the id on, included too. Both
  -- return on every id.
  pub remove_messages_before_id-after_id :
      (q : RawMessageQueue T K) (msg_id : ℕ)
      → IsOrdered q
      → (before after : RawMessageQueue T K × ℕ) × (remove_messages_before_id q msg_id
          ≡ done before)
        × (remove_messages_after_id q msg_id ≡ done after)
        × ((id : ℕ)
            → get id before.0.messages ≡ (if leb id msg_id then none else get id q.messages))
        × ((id : ℕ) → get id after.0.messages ≡ (if leb msg_id id then none else get id q.messages))
  unfolding remove_messages_before_id remove_messages_after_id
  remove_messages_before_id-after_id q msg_id a =
      let before = remove_messages_in_range-get q unbounded (included msg_id) a refl in
      let after = remove_messages_in_range-get q (included msg_id) unbounded a refl in
      (
        (before.0, before.1),
        (after.0, after.1),
        before.2,
        after.2,
        before.4,
        λ id. ground (arith, after.4 id),
      )
