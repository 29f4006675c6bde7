-- ===== src/MessageQueue.antt =====
-- lib/message_queue: `Message` and `RawMessageQueue`. `MessageQueue` runs the same operations under
-- a lock. A message id is a number, as `Ulid` is a `u128` in the order of the numbers; the id that
-- `I::generate` returns is an argument.
pub mod Delivery
pub mod Once
pub mod Removal
pub mod Order
pub mod Invalid
pub mod Pushed
pub mod Snapshot
use peace.Base.{
  ℕ, zero, suc, ◌+◌, ltb, leb, ◌==◌, if◌then◌else◌, Bool, true, false, not, ◌&&◌, ◌||◌,
}
use peace.Base.{Option, none, some, List, [], ◌∷◌, ◌++◌, length, map, Exec, done, panic, ◌>>=◌}
use peace.Base.Keys.{Eq}
use peace.Base.HashSet.{contains, insert_key, from_iter}
use peace.Base.BTreeMap.{insert, remove}

-- `validator` is given the fields of the message that it can read.
pub record Message (T K : Type 0) : Type 0 where
  pub content : T
  pub has_read : List K
  pub validator : Option (T → List K → Bool)

pub record RawMessageQueue (T K : Type 0) : Type 0 where
  pub messages : List (ℕ × Message T K)

-- What the loop of `receive_messages` has collected: `messages`, `last_msg_id` and
-- `received_msg_count`.
pub record Received (T : Type 0) : Type 0 where
  pub messages : Option (List T)
  pub last_msg_id : Option ℕ
  pub received_msg_count : ℕ

pub record ReceivedMessages (T : Type 0) : Type 0 where
  pub messages : List T
  pub last_msg_id : ℕ

pub record MessageData (T K : Type 0) : Type 0 where
  pub msg_id : ℕ
  pub content : T
  pub has_read : List K
  pub has_validator : Bool

-- An end of a range of ids, as in `RangeBounds`.
pub data Bound : Type 0 where
  included : ℕ → Bound
  excluded : ℕ → Bound
  unbounded : Bound

abbrev pub above : Bound → ℕ → Bool
above (included a) id = leb a id
above (excluded a) id = ltb a id
above unbounded id = true

abbrev pub below : Bound → ℕ → Bool
below (included b) id = leb id b
below (excluded b) id = ltb id b
below unbounded id = true

-- `BTreeMap::range` panics where the start is behind the end, and where both ends exclude one id.
abbrev pub range_panics : Bound → Bound → Bool
range_panics (included a) (included b) = ltb b a
range_panics (included a) (excluded b) = ltb b a
range_panics (excluded a) (included b) = ltb b a
range_panics (excluded a) (excluded b) = leb b a
range_panics (included a) unbounded = false
range_panics (excluded a) unbounded = false
range_panics unbounded hi = false

module _ {T K : Type 0} where
  -- `is_valid`
  unfoldable pub is_valid : Message T K → Bool
  is_valid msg = elim msg.validator [
    | none ↦ true
    | some validator ↦ validator msg.content msg.has_read
  ]

  -- `push_message`
  unfoldable pub push_message :
      RawMessageQueue T K → ℕ → T → Option (T → List K → Bool) → RawMessageQueue T K
  unfolding insert
  push_message q id content validator = record {
    messages =
        insert id (record { content = content; has_read = []; validator = validator }) q.messages;
  }

  -- `remove_messages`: the count is that of the ids, whether they were there or not.
  unfoldable pub remove_all : List ℕ → List (ℕ × Message T K) → List (ℕ × Message T K)
  unfolding remove
  remove_all [] ms = ms
  remove_all (id ∷ ids) ms = remove_all ids (remove id ms)

  unfoldable pub remove_messages : RawMessageQueue T K → List ℕ → RawMessageQueue T K × ℕ
  unfolding remove_all
  remove_messages q ids = (record { messages = remove_all ids q.messages }, length ids)

  -- The keys of `self.messages.range(range)`.
  unfoldable pub ids_in : Bound → Bound → List (ℕ × Message T K) → List ℕ
  ids_in lo hi [] = []
  ids_in lo hi ((id, msg) ∷ ms) =
      if above lo id && below hi id then id ∷ ids_in lo hi ms else ids_in lo hi ms

  unfoldable pub remove_messages_in_range :
      RawMessageQueue T K → Bound → Bound → Exec (RawMessageQueue T K × ℕ)
  unfolding ids_in remove_messages
  remove_messages_in_range q lo hi =
      if range_panics lo hi then panic else done (remove_messages q (ids_in lo hi q.messages))

  unfoldable pub remove_messages_before_id :
      RawMessageQueue T K → ℕ → Exec (RawMessageQueue T K × ℕ)
  unfolding remove_messages_in_range
  remove_messages_before_id q msg_id = remove_messages_in_range q unbounded (included msg_id)

  unfoldable pub remove_messages_after_id : RawMessageQueue T K → ℕ → Exec (RawMessageQueue T K × ℕ)
  unfolding remove_messages_in_range
  remove_messages_after_id q msg_id = remove_messages_in_range q (included msg_id) unbounded

  unfoldable pub invalid_ids : List (ℕ × Message T K) → List ℕ
  invalid_ids [] = []
  invalid_ids ((id, msg) ∷ ms) = if not (is_valid msg) then id ∷ invalid_ids ms else invalid_ids ms

  unfoldable pub collect_invalid_mesages : RawMessageQueue T K → List ℕ
  unfolding invalid_ids is_valid
  collect_invalid_mesages q = invalid_ids q.messages

  unfoldable pub remove_invalid_messages : RawMessageQueue T K → RawMessageQueue T K × ℕ
  unfolding collect_invalid_mesages remove_messages
  remove_invalid_messages q = remove_messages q (collect_invalid_mesages q)

  unfoldable pub from_message : ℕ × Message T K → MessageData T K
  from_message (id, msg) = record {
    msg_id = id;
    content = msg.content;
    has_read = msg.has_read;
    has_validator = elim msg.validator [ none ↦ false | some validator ↦ true ];
  }

  unfoldable pub create_snapshot : RawMessageQueue T K → List (MessageData T K)
  unfolding from_message
  create_snapshot q = map from_message q.messages

abbrev pub counted : Option ℕ → ℕ → ℕ
counted none n = n
counted (some receive_count) n = suc n

abbrev pub is_enough : Option ℕ → ℕ → Bool
is_enough none n = false
is_enough (some receive_count) n = leb receive_count n

module _ {T : Type 0} where
  abbrev pub push : Option (List T) → T → Option (List T)
  push none content = some (content ∷ [])
  push (some contents) content = some (contents ++ content ∷ [])

  -- `last_msg_id.unwrap()`
  abbrev pub received_messages : Received T → Exec (Option (ReceivedMessages T))
  received_messages r = elim r.messages [
    | none ↦ done none
    | some contents ↦ elim r.last_msg_id [
      | none ↦ panic
      | some id ↦ done (some (record { messages = contents; last_msg_id = id }))
    ]
  ]

  abbrev pub nothing : Received T
  nothing = record { messages = none; last_msg_id = none; received_msg_count = 0 }

module _ {T K : Type 0} ⦃e : Eq K⦄ where
  unfoldable pub push_message_excludes :
      RawMessageQueue T K → ℕ → T → List K → Option (T → List K → Bool) → RawMessageQueue T K
  unfolding insert from_iter
  push_message_excludes q id content excludes validator = record {
    messages =
        insert id
          (record { content = content; has_read = from_iter excludes; validator = validator })
          q.messages;
  }

  abbrev pub is_readed : Message T K → K → Bool
  is_readed msg reader = contains msg.has_read reader

  abbrev pub mark_readed : Message T K → K → Message T K
  mark_readed msg reader = record msg { has_read = insert_key msg.has_read reader }

  -- The entries that the loop passes over: the ones before the range, and its two `continue`s.
  unfoldable pub skips : K → ℕ → ℕ × Message T K → Bool
  unfolding is_valid contains
  skips reader from_msg_id (id, msg) =
      ltb id from_msg_id || not (is_valid msg) || is_readed msg reader

  unfoldable pub collect : Option ℕ → Received T → ℕ × Message T K → Received T
  collect receive_count r (id, msg) = record {
    messages = push r.messages msg.content;
    last_msg_id = some id;
    received_msg_count = counted receive_count r.received_msg_count;
  }

  unfoldable pub receive_loop :
      K → ℕ → Option ℕ → List (ℕ × Message T K) → Received T → List (ℕ × Message T K) × Received T
  receive_loop reader from_msg_id receive_count [] r = ([], r)
  receive_loop reader from_msg_id receive_count ((id, msg) ∷ ms) r =
      elim (skips reader from_msg_id (id, msg)) [
        | true ↦
            let rest = receive_loop reader from_msg_id receive_count ms r in
            ((id, msg) ∷ rest.0, rest.1)
        | false ↦
            let received = collect receive_count r (id, msg) in
            elim (is_enough receive_count received.received_msg_count) [
              | true ↦ ((id, mark_readed msg reader) ∷ ms, received)
              | false ↦
                  let rest = receive_loop reader from_msg_id receive_count ms received in
                  ((id, mark_readed msg reader) ∷ rest.0, rest.1)
            ]
      ]

  unfoldable pub receive_messages :
      RawMessageQueue T K
      → K
      → ℕ
      → Option ℕ
      → RawMessageQueue T K × Exec (Option (ReceivedMessages T))
  unfolding receive_loop
  receive_messages q reader from_msg_id receive_count =
      let end = receive_loop reader from_msg_id receive_count q.messages nothing in
      (record { messages = end.0 }, received_messages end.1)

  -- `From<MessageData>` and `BTreeMap::from_iter`, where a later entry replaces an earlier one of its id.
  unfoldable pub message_from : MessageData T K → Message T K
  unfolding from_iter
  message_from d = record { content = d.content; has_read = from_iter d.has_read; validator = none }

  unfoldable pub insert_data :
      List (MessageData T K) → List (ℕ × Message T K) → List (ℕ × Message T K)
  unfolding insert message_from
  insert_data [] ms = ms
  insert_data (d ∷ ds) ms = insert_data ds (insert d.msg_id (message_from d) ms)

  unfoldable pub from_snapshot : List (MessageData T K) → RawMessageQueue T K
  unfolding insert_data
  from_snapshot ds = record { messages = insert_data ds [] }
