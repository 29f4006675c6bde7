-- ===== src/Chat/Service/Sent.antt =====
-- core/services/chat/src/services/chat.rs: a message to a channel, from the call that sends it to
-- the calls that take it out.
use peace.Base.{ℕ, true, ◌≡◌, refl, sym, ap, ◌∙◌, arith}
use peace.Base.{none, some, List, [], ◌∷◌, ◌++◌, done}
use peace.Base.Keys.{nat_eq, beq_refl}
use peace.Base.BTreeMap.{insert}
use peace.Base.HashMap.{HashMap}
use peace.Base.HashSet.{contains, from_iter}
use peace.Chat.{BanchoChatExt, JoinedChannel}
use peace.Chat.Service.{State, deref, write_channel, channel_is_alive}
use peace.Chat.Service.Calls.{send_to_channel}
use peace.Chat.Service.Dequeue.{values, dequeue_at}
use peace.Chat.Service.Reading.{notices, messages, Apart}
use peace.Chat.Service.Delivery.{with_infos, answer, send_infos-Told, dequeue_at-answer}
use peace.MessageQueue.{Message, skips, is_valid, push_message_excludes}
use peace.MessageQueue.Pushed.{IsNew, unread-insert_skipped}
use peace.Packets.Server.Channels.{send_message as pack_message}
use peace.PacketsQueue.{Packet}
use peace.PacketsQueue.Flow.{joined}

-- The entry that `send_to_channel` pushes, and the state with it.
abbrev pub entry : ℕ → Packet → Message Packet ℕ
entry sender packet = record {
  content = packet;
  has_read = from_iter (sender ∷ []);
  validator = none;
}

abbrev pub pushed : State → ℕ → ℕ → ℕ → Packet → State
pushed st index sender c packet =
    let ch = st.channel_at c in
    write_channel st c (record ch {
      message_queue = record {
        messages = insert index (entry sender packet) ch.message_queue.messages;
      };
    })

pub send_to_channel-pushed :
    (st : State) (index a c : ℕ) (message : List ℕ) (packet : Packet)
    → pack_message (deref st a).username message (st.channel_at c).name (deref st a).user_id
      ≡ done packet
    → (send_to_channel st index a message c).0 ≡ pushed st index (deref st a).user_id c packet
unfolding send_to_channel push_message_excludes
send_to_channel-pushed st index a c message packet packed = ground (arith, packed)

-- The sender is a reader of the message from the start.
skips-own :
    (sender from index : ℕ) (packet : Packet)
    → skips sender from (index, entry sender packet) ≡ true
unfolding skips is_valid contains from_iter
skips-own sender from index packet = ground (arith, beq_refl sender)

messages-own :
    (st : State) (index sender c : ℕ) (packet : Packet) (js : HashMap ℕ JoinedChannel)
    → IsNew index (st.channel_at c).message_queue.messages
    → messages (pushed st index sender c packet) sender js ≡ messages st sender js
unfolding messages channel_is_alive
messages-own st index sender c packet [] new = refl
messages-own st index sender c packet ((id, j) ∷ js) new =
    let same =
      unread-insert_skipped sender j.message_index index (entry sender packet)
        (st.channel_at c).message_queue.messages (skips-own sender j.message_index index packet)
        new in
    ground (arith, same, messages-own st index sender c packet js new, nat_eq.beq_iff c j.ptr)

pub infos-pushed :
    (st : State) (index sender c : ℕ) (packet : Packet) (ext : BanchoChatExt) (xs : List ℕ)
    → with_infos (pushed st index sender c packet) ext xs ≡ with_infos st ext xs
infos-pushed st index sender c packet ext xs =
    ap (λ r. r.1)
      (send_infos-Told (pushed st index sender c packet) st ext.receive_channel_updates
        (values st.channels.indexes.channel_id) xs (λ b. ground arith))

-- Where no channel is joined under two ids, and the message has an id that the channel's queue does
-- not have, the sender of a message to a channel gets from the next call just what the call would
-- return without the message: a message never comes back to its sender.
pub send_to_channel-own :
    (st : State) (index a c : ℕ) (message : List ℕ) (packet : Packet) (ext : BanchoChatExt)
    → (st.sessions a).bancho_ext ≡ some ext
    → Apart (st.sessions a).joined_channels
    → IsNew index (st.channel_at c).message_queue.messages
    → pack_message (deref st a).username message (st.channel_at c).name (deref st a).user_id
      ≡ done packet
    → (dequeue_at (send_to_channel st index a message c).0 a).1 ≡ (dequeue_at st a).1
send_to_channel-own st index a c message packet ext found apart new packed =
    let u = (deref st a).user_id in
    let st' = pushed st index u c packet in
    let js = (st.sessions a).joined_channels in
    let q = joined ext.packets_queue.queue in
    let told = joined (notices st u ext) in
    ap (λ s. (dequeue_at s a).1) (send_to_channel-pushed st index a c message packet packed)
    ∙ dequeue_at-answer st' a ext found apart
    ∙ ap (λ ms. answer (with_infos st' ext (told ++ joined ms)) q)
        (messages-own st index u c packet js new)
    ∙ ap (λ r. answer r q)
        (infos-pushed st index u c packet ext (told ++ joined (messages st u js)))
    ∙ sym (dequeue_at-answer st a ext found apart)
