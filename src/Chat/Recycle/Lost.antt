-- ===== src/Chat/Recycle/Lost.antt =====
-- core/services/chat/src/services/{background,chat}.rs: the messages of a channel that a round takes
-- away. `min_msg_index` is what the first reader has read, and not what all have.
use peace.Base.{ℕ, ◌+◌, leb, true, if◌then◌else◌, ◌≡◌, sym, subst, arith}
use peace.Base.{none, some, List, ◌∷◌, done}
use peace.Base.Keys.{nat_eq, beq_refl}
use peace.Base.BTreeMap.{get}
use peace.Chat.{Channel, JoinedChannel}
use peace.Chat.Recycle.{recycle_channel}
use peace.Chat.Service.{State, deref, write_channel}
use peace.Chat.Service.Dequeue.{with_messages, receive_channel, read_up_to}
use peace.MessageQueue.{
  Message, nothing, receive_messages, remove_invalid_messages, collect_invalid_mesages,
}
use peace.MessageQueue.Delivery.{unread, last_id, delivery, receive_messages-delivery}
use peace.MessageQueue.Invalid.{
  if_valid, remove_invalid_messages-get, remove_messages_before_id-after_id,
}
use peace.MessageQueue.Order.{receive_loop-Ascends}
use peace.MessageQueue.Removal.{IsOrdered, remove_messages-get}
use peace.PacketsQueue.{Packet}

-- A round takes away the invalid messages and all up to the least index.
pub recycle_channel-get :
    (ch : Channel) (m : ℕ)
    → ch.min_msg_index ≡ some m
    → IsOrdered ch.message_queue
    → (ch' : Channel) × (n : ℕ) × (recycle_channel ch ≡ done (ch', n))
      × ((id : ℕ)
          → get id ch'.message_queue.messages
            ≡ (if leb id m then none else if_valid (get id ch.message_queue.messages)))
unfolding recycle_channel
recycle_channel-get ch m found ordered =
    let q = ch.message_queue in
    let valid = remove_invalid_messages q in
    let ordered' : IsOrdered valid.0 =
      (unfold remove_invalid_messages in
        (remove_messages-get q (collect_invalid_mesages q) ordered).0) in
    let (before, after, e, _, gone, _) = remove_messages_before_id-after_id valid.0 m ordered' in
    (
      record ch { message_queue = before.0 },
      valid.1 + before.1,
      ground (arith, found, e),
      λ id. ground (arith, gone id, remove_invalid_messages-get q id ordered),
    )

-- The channel after a user has read from it.
with_messages-channel :
    (st : State) (a id i : ℕ) (j : JoinedChannel) (xs : List ℕ) (msg : Message Packet ℕ)
    (ms : List (ℕ × Message Packet ℕ))
    → (st.channel_at j.ptr).min_msg_index ≡ none
    → (((with_messages st a id j xs (done (delivery ((i, msg) ∷ ms)))).0.channel_at
          j.ptr).min_msg_index
        ≡ some (last_id i ms))
      × (((with_messages st a id j xs (done (delivery ((i, msg) ∷ ms)))).0.channel_at
            j.ptr).message_queue
          ≡ (st.channel_at j.ptr).message_queue)
unfolding with_messages read_up_to
with_messages-channel st a id i j xs msg ms unset = ground (arith, unset, beq_refl j.ptr)

-- Where a channel with an ordered queue has no least index yet, and a user gets messages from it, of
-- which `last_id i ms` is the last id: the next round takes away every message up to that id, whether
-- the other users of the channel have read it or not.
pub receive_channel-recycle_channel :
    (st : State) (a id i : ℕ) (j : JoinedChannel) (xs : List ℕ) (msg : Message Packet ℕ)
    (ms : List (ℕ × Message Packet ℕ))
    → (st.channel_at j.ptr).min_msg_index ≡ none
    → IsOrdered (st.channel_at j.ptr).message_queue
    → unread (deref st a).user_id j.message_index (st.channel_at j.ptr).message_queue.messages
      ≡ (i, msg) ∷ ms
    → (ch' : Channel) × (n : ℕ) × (recycle_channel
          ((receive_channel st a id j xs).0.channel_at j.ptr)
        ≡ done (ch', n))
      × ((k : ℕ) → leb k (last_id i ms) ≡ true → get k ch'.message_queue.messages ≡ none)
unfolding receive_channel
receive_channel-recycle_channel st a id i j xs msg ms unset ordered waiting =
    let ch = st.channel_at j.ptr in
    let u = (deref st a).user_id in
    let r = receive_messages ch.message_queue u j.message_index none in
    let st' : State = write_channel st j.ptr (record ch { message_queue = r.0 }) in
    let given = receive_messages-delivery ch.message_queue u j.message_index none in
    let ordered' : IsOrdered r.0 =
      (unfold receive_messages in
        receive_loop-Ascends u j.message_index none ch.message_queue.messages nothing 0 ordered) in
    let (least, kept) =
      with_messages-channel st' a id i j xs msg ms (ground (arith, unset, beq_refl j.ptr)) in
    let read : (receive_channel st a id j xs).0
        ≡ (with_messages st' a id j xs (done (delivery ((i, msg) ∷ ms)))).0 =
      ground (arith, given, waiting) in
    let read_from = (receive_channel st a id j xs).0.channel_at j.ptr in
    let least' : read_from.min_msg_index ≡ some (last_id i ms) = ground (arith, read, least) in
    let queue : read_from.message_queue ≡ r.0 = ground (arith, read, kept, beq_refl j.ptr) in
    let (ch', n, e, gone) =
      recycle_channel-get read_from (last_id i ms) least' (subst IsOrdered (sym queue) ordered') in
    (ch', n, e, λ k below. ground (arith, gone k, below))
