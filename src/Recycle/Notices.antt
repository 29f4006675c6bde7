-- ===== src/Recycle/Notices.antt =====
-- core/services/bancho_state/src/services/background.rs: one round of the task that
-- `notify_messages_recycle_factory` makes. It looks through the notify queue under the read lock,
-- and removes messages under the write lock.
use peace.Base.{ℕ, suc, not, if◌then◌else◌, ◌≡◌, sym, ap, ◌∙◌, arith}
use peace.Base.{Option, none, some, List, [], ◌∷◌, ◌++◌, append-nil, append_assoc}
use peace.Base.BTreeMap.{get, remove, Ascends-mono}
use peace.Base.Keys.{nat_eq, beq_refl}
use peace.MessageQueue.{
  Message, RawMessageQueue, is_valid, invalid_ids, remove_all, remove_messages,
}
use peace.MessageQueue.Removal.{IsOrdered, remove_messages-get}
use peace.MessageQueue.Invalid.{if_valid, get_invalid}

module _ {T K : Type 0} where
  -- `lazy_init!(invalid_messages => if !msg.is_valid() {..}, vec![*key])`: the list is made with the key of the first message in it, and the test is run for the messages after it.
  unfoldable pub collect_key : Option (List ℕ) → ℕ × Message T K → Option (List ℕ)
  collect_key none (key, msg) = some (key ∷ [])
  collect_key (some keys) (key, msg) =
      if not (is_valid msg) then some (keys ++ key ∷ []) else some keys

  unfoldable pub look_for_invalid : Option (List ℕ) → List (ℕ × Message T K) → Option (List ℕ)
  unfolding collect_key
  look_for_invalid invalid_messages [] = invalid_messages
  look_for_invalid invalid_messages (entry ∷ messages) =
      look_for_invalid (collect_key invalid_messages entry) messages

  -- A round in which no other caller comes between the locks, with the number that it logs.
  unfoldable pub recycle_notices : RawMessageQueue T K → RawMessageQueue T K × ℕ
  unfolding look_for_invalid
  recycle_notices queue = elim (look_for_invalid none queue.messages) [
    | none ↦ (queue, 0)
    | some invalid_messages ↦ remove_messages queue invalid_messages
  ]

  look_for_invalid-invalid_ids :
      (keys : List ℕ) (ms : List (ℕ × Message T K))
      → look_for_invalid (some keys) ms ≡ some (keys ++ invalid_ids ms)
  unfolding look_for_invalid collect_key invalid_ids
  look_for_invalid-invalid_ids keys [] = ap some (sym (append-nil keys))
  look_for_invalid-invalid_ids keys ((i, m) ∷ ms) = ground (
    arith,
    append_assoc keys (i ∷ []) (invalid_ids ms),
    look_for_invalid-invalid_ids keys ms,
    look_for_invalid-invalid_ids (keys ++ i ∷ []) ms,
  )

  -- The first message goes, and of the others the ones that are listed as invalid.
  recycle_notices-tail :
      (i : ℕ) (m : Message T K) (ms : List (ℕ × Message T K))
      → (recycle_notices (record { messages = (i, m) ∷ ms })).0.messages
        ≡ remove_all (invalid_ids ms) ms
  unfolding recycle_notices look_for_invalid collect_key remove_messages remove_all remove
  recycle_notices-tail i m ms = ground (arith, look_for_invalid-invalid_ids (i ∷ []) ms, beq_refl i)

  -- A round on an ordered queue takes away the invalid messages, and the oldest message, whether it is
  -- valid or not. All other messages stay as they are.
  pub recycle_notices-get :
      (i id : ℕ) (m : Message T K) (ms : List (ℕ × Message T K))
      → IsOrdered (record { messages = (i, m) ∷ ms })
      → get id (recycle_notices (record { messages = (i, m) ∷ ms })).0.messages
        ≡ if_valid (get id ms)
  unfolding remove_messages
  recycle_notices-get i id m ms ordered =
      let tail : RawMessageQueue T K = record { messages = ms } in
      let ordered' : IsOrdered tail = Ascends-mono (suc i) 0 ms (omega arith) ordered.1 in
      ap (get id) (recycle_notices-tail i m ms)
      ∙ (remove_messages-get tail (invalid_ids ms) ordered').1 id
      ∙ get_invalid 0 id ms ordered'
