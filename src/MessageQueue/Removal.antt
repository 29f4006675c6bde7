-- ===== src/MessageQueue/Removal.antt =====
-- lib/message_queue: pushing and removing, and the order of the ids.
use peace.MessageQueue.{Message, RawMessageQueue, Bound, above}
use peace.MessageQueue.{below, range_panics, remove_all}
use peace.MessageQueue.{remove_messages, ids_in, remove_messages_in_range}
use peace.Base.{ℕ, suc, ◌+◌, ◌≤◌, ◌==◌, if◌then◌else◌, arith}
use peace.Base.{Bool, true, false, ◌&&◌, ◌||◌, ◌≡◌, refl}
use peace.Base.{Option, none, some, List, [], ◌∷◌, length, done}
use peace.Base.BTreeMap.{get, remove, Ascends, get_below, get-remove}
use peace.Base.BTreeMap.{remove-Ascends}

unfoldable pub listed : List ℕ → ℕ → Bool
listed [] id = false
listed (x ∷ xs) id = x == id || listed xs id

abbrev Over : ℕ → List ℕ → Type 0
Over k [] = Unit {0}
Over k (id ∷ ids) = (k ≤ id) × Over k ids

Over-mono : (k k' : ℕ) (ids : List ℕ) → k' ≤ k → Over k ids → Over k' ids
Over-mono k k' [] h o = tt
Over-mono k k' (id ∷ ids) h o = (omega arith, Over-mono k k' ids h o.1)

module _ {T K : Type 0} where
  -- The messages stand in the order of their ids, each id once.
  abbrev pub IsOrdered : RawMessageQueue T K → Type 0
  IsOrdered q = Ascends 0 q.messages

  remove_all-Ascends :
      (ids : List ℕ) (ms : List (ℕ × Message T K)) → Ascends 0 ms → Ascends 0 (remove_all ids ms)
  unfolding remove_all
  remove_all-Ascends [] ms a = a
  remove_all-Ascends (id ∷ ids) ms a =
      remove_all-Ascends ids (remove id ms) (remove-Ascends id 0 ms a)

  get-remove_all :
      (ids : List ℕ) (ms : List (ℕ × Message T K)) (id : ℕ)
      → Ascends 0 ms
      → get id (remove_all ids ms) ≡ (if listed ids id then none else get id ms)
  unfolding remove_all listed
  get-remove_all [] ms id a = refl
  get-remove_all (x ∷ xs) ms id a =
      ground (
        arith,
        get-remove_all xs (remove x ms) id (remove-Ascends x 0 ms a),
        get-remove x id 0 ms a,
      )

  -- `remove_messages` takes away the messages of the given ids and no other, and returns how many
  -- ids it was given.
  pub remove_messages-get :
      (q : RawMessageQueue T K) (ids : List ℕ)
      → IsOrdered q
      → IsOrdered (remove_messages q ids).0
        × ((id : ℕ)
            → get id (remove_messages q ids).0.messages
              ≡ (if listed ids id then none else get id q.messages))
        × ((remove_messages q ids).1 ≡ length ids)
  unfolding remove_messages
  remove_messages-get q ids a =
      (remove_all-Ascends ids q.messages a, λ id. get-remove_all ids q.messages id a, refl)

  abbrev pub has : Option (Message T K) → Bool
  has none = false
  has (some m) = true

  listed-ids_in :
      (lo hi : Bound) (k id : ℕ) (ms : List (ℕ × Message T K))
      → Ascends k ms
      → listed (ids_in lo hi ms) id ≡ (above lo id && below hi id && has (get id ms))
  unfolding listed ids_in get
  listed-ids_in lo hi k id [] a = ground arith
  listed-ids_in lo hi k id ((i, m) ∷ ms) a =
      ground (arith, listed-ids_in lo hi (suc i) id ms a.1, get_below id (suc i) ms a.1)

  ids_in-Over :
      (lo hi : Bound) (k : ℕ) (ms : List (ℕ × Message T K))
      → Ascends k ms
      → Over k (ids_in lo hi ms)
  unfolding ids_in
  ids_in-Over lo hi k [] a = tt
  ids_in-Over lo hi k ((i, m) ∷ ms) a =
      ground (arith, ids_in-Over lo hi (suc i) ms a.1, Over-mono (suc i) k (ids_in lo hi ms))

  remove_all-Over :
      (i : ℕ) (m : Message T K) (ids : List ℕ) (ms : List (ℕ × Message T K))
      → Over (suc i) ids
      → remove_all ids ((i, m) ∷ ms) ≡ (i, m) ∷ remove_all ids ms
  unfolding remove_all remove
  remove_all-Over i m [] ms o = refl
  remove_all-Over i m (id ∷ ids) ms o = ground (arith, remove_all-Over i m ids (remove id ms) o.1)

  length-remove_all :
      (lo hi : Bound) (k : ℕ) (ms : List (ℕ × Message T K))
      → Ascends k ms
      → length (remove_all (ids_in lo hi ms) ms) + length (ids_in lo hi ms) ≡ length ms
  unfolding ids_in remove_all remove
  length-remove_all lo hi k [] a = refl
  length-remove_all lo hi k ((i, m) ∷ ms) a = ground (
    arith,
    length-remove_all lo hi (suc i) ms a.1,
    remove_all-Over i m (ids_in lo hi ms) ms (ids_in-Over lo hi (suc i) ms a.1),
  )

  -- On an ordered queue and a range that `BTreeMap` takes, `remove_messages_in_range` takes away the
  -- messages whose ids are in the range and no other, keeps the order, and returns how many it took.
  pub remove_messages_in_range-get :
      (q : RawMessageQueue T K) (lo hi : Bound)
      → IsOrdered q
      → range_panics lo hi ≡ false
      → (q' : RawMessageQueue T K) × (n : ℕ) × (remove_messages_in_range q lo hi ≡ done (q', n))
        × IsOrdered q'
        × ((id : ℕ)
            → get id q'.messages ≡ (if above lo id && below hi id then none else get id q.messages))
        × (length q'.messages + n ≡ length q.messages)
  unfolding remove_messages_in_range
  remove_messages_in_range-get q lo hi a h =
      let ids = ids_in lo hi q.messages in
      let r = remove_messages-get q ids a in
      let gone : (id : ℕ)
          → get id (remove_messages q ids).0.messages
            ≡ (if above lo id && below hi id then none else get id q.messages) =
        λ id. ground (arith, r.1 id, listed-ids_in lo hi 0 id q.messages a) in
      rw h (
        (remove_messages q ids).0,
        length ids,
        refl,
        r.0,
        gone,
        length-remove_all lo hi 0 q.messages a,
      )
