-- ===== src/Chat/Service/Reading.antt =====
-- core/services/chat/src/services/chat.rs: what `dequeue_chat_packets` reads of the channels
-- that a session has joined, and what it leaves of them.
use peace.Base.{ℕ, ◌==◌, if◌then◌else◌, false, true, Bool-cases, ◌≡◌, refl, sym, ap, ◌∙◌, arith}
use peace.Base.{inl, inr, none, List, [], ◌∷◌, ◌++◌, map, append-nil, append_assoc}
use peace.Base.{done}
use peace.Base.Keys.{nat_eq, beq_refl}
use peace.Base.HashMap.{HashMap}
use peace.Chat.{Channel, BanchoChatExt, JoinedChannel}
use peace.Chat.Service.{Reply, State, deref, write_channel, channel_is_alive}
use peace.Chat.Service.Dequeue.{
  values, extend_all, with_notices, receive_notices, with_messages, receive_channel, receive_all,
  send_infos, finish, remove_invalid, dequeue_at,
}
use peace.MessageQueue.{Message, receive_messages}
use peace.MessageQueue.Delivery.{unread, delivery, receive_messages-delivery}
use peace.PacketsQueue.{Packet}
use peace.PacketsQueue.Flow.{joined, joined-append, dequeue-joined}

abbrev pub contents : List (ℕ × Message Packet ℕ) → List Packet
contents = map (λ m. m.1.content)

-- The notices that a session still has to get.
abbrev pub notices : State → ℕ → BanchoChatExt → List Packet
notices st user_id ext = contents (unread user_id ext.notify_index st.notify_queue.messages)

-- The messages of a joined channel that a user still has to get.
abbrev pub from_channel : State → ℕ → JoinedChannel → List Packet
from_channel st user_id j =
    contents (unread user_id j.message_index (st.channel_at j.ptr).message_queue.messages)

-- Those of all joined channels that are there.
unfoldable pub messages : State → ℕ → HashMap ℕ JoinedChannel → List Packet
messages st user_id [] = []
messages st user_id ((id, j) ∷ joined_channels) =
    (if channel_is_alive st j.ptr then from_channel st user_id j else [])
    ++ messages st user_id joined_channels

-- No channel is joined under two ids.
abbrev pub NotIn : ℕ → HashMap ℕ JoinedChannel → Type 0
NotIn c [] = Unit {0}
NotIn c ((id, j) ∷ joined_channels) = ((c == j.ptr) ≡ false) × NotIn c joined_channels

abbrev pub Apart : HashMap ℕ JoinedChannel → Type 0
Apart [] = Unit {0}
Apart ((id, j) ∷ joined_channels) = NotIn j.ptr joined_channels × Apart joined_channels

-- Two channels that a client is told the same of.
abbrev pub Told : Channel → Channel → Type 0
Told c d =
    (c.id ≡ d.id)
    × (c.name ≡ d.name)
    × (c.description ≡ d.description)
    × (c.user_count ≡ d.user_count)
    × (c.updated_at ≡ d.updated_at)

-- What a part of the call leaves as it is.
pub record Kept (st' st : State) (a : ℕ) : Type 0 where
  pub channels : st'.channels ≡ st.channels
  pub base : deref st' a ≡ deref st a
  pub told : (c : ℕ) → Told (st'.channel_at c) (st.channel_at c)

with_messages-done :
    (st : State) (a id : ℕ) (j : JoinedChannel) (xs : List ℕ) (ms : List (ℕ × Message Packet ℕ))
    → (with_messages st a id j xs (done (delivery ms))).1 ≡ done (xs ++ joined (contents ms))
unfolding with_messages joined
with_messages-done st a id j xs [] = ap done (sym (append-nil xs))
with_messages-done st a id j xs ((i, m) ∷ ms) = ap done (dequeue-joined (contents ((i, m) ∷ ms)) xs)

with_messages-Kept :
    (st : State) (a id : ℕ) (j : JoinedChannel) (xs : List ℕ) (ms : List (ℕ × Message Packet ℕ))
    → Kept (with_messages st a id j xs (done (delivery ms))).0 st a
      × ((c : ℕ)
          → (j.ptr == c) ≡ false
          → (with_messages st a id j xs (done (delivery ms))).0.channel_at c ≡ st.channel_at c)
unfolding with_messages peace.Chat.Service.Dequeue.read_up_to
with_messages-Kept st a id j xs [] = (
  record { channels = refl; base = refl; told = λ c. (refl, refl, refl, refl, refl) },
  λ c h. refl,
)
with_messages-Kept st a id j xs ((i, m) ∷ ms) = (
  record { channels = refl; base = ground (arith, beq_refl a); told = λ c. ground arith },
  λ c h. ground (arith, h),
)

pub Kept-refl : (st : State) (a : ℕ) → Kept st st a
Kept-refl st a = record { channels = refl; base = refl; told = λ c. (refl, refl, refl, refl, refl) }

pub Kept-trans : (s t u : State) (a : ℕ) → Kept s t a → Kept t u a → Kept s u a
Kept-trans s t u a k l = record {
  channels = k.channels ∙ l.channels;
  base = k.base ∙ l.base;
  told = λ c. ground (arith, k.told c, l.told c);
}

-- The state with the readers of a channel's messages changed.
write_queue-Kept :
    (st : State) (a c : ℕ) (ms : List (ℕ × Message Packet ℕ))
    → Kept
        (write_channel st c (record (st.channel_at c) { message_queue = record { messages = ms } }))
        st
        a
write_queue-Kept st a c ms = record { channels = refl; base = refl; told = λ b. ground arith }

-- What `receive_channel` reads of a joined channel, and what it leaves.
receive_channel_lem :
    (st : State) (a id : ℕ) (j : JoinedChannel) (xs : List ℕ)
    → ((receive_channel st a id j xs).1
        ≡ done (xs ++ joined (from_channel st (deref st a).user_id j)))
      × Kept (receive_channel st a id j xs).0 st a
      × ((c : ℕ)
          → (j.ptr == c) ≡ false
          → (receive_channel st a id j xs).0.channel_at c ≡ st.channel_at c)
unfolding receive_channel
receive_channel_lem st a id j xs =
    let ch = st.channel_at j.ptr in
    let u = (deref st a).user_id in
    let ms = unread u j.message_index ch.message_queue.messages in
    let r = receive_messages ch.message_queue u j.message_index none in
    let st' : State = write_channel st j.ptr (record ch { message_queue = r.0 }) in
    let given = receive_messages-delivery ch.message_queue u j.message_index none in
    let (kept, others) = with_messages-Kept st' a id j xs ms in
    rw given (
      with_messages-done st' a id j xs ms,
      Kept-trans (with_messages st' a id j xs (done (delivery ms))).0 st' st a kept
          (write_queue-Kept st a j.ptr r.0.messages),
      λ c h. others c h ∙ ground (arith, h),
    )

NotIn-messages :
    (st' st : State) (user_id c : ℕ) (js : HashMap ℕ JoinedChannel)
    → st'.channels ≡ st.channels
    → ((b : ℕ) → (c == b) ≡ false → st'.channel_at b ≡ st.channel_at b)
    → NotIn c js
    → messages st' user_id js ≡ messages st user_id js
unfolding messages channel_is_alive
NotIn-messages st' st user_id c [] e others h = refl
NotIn-messages st' st user_id c ((id, j) ∷ js) e others (h, hs) =
    ground (arith, e, others j.ptr h, NotIn-messages st' st user_id c js e others hs)

-- The joined channels that are not there any more.
unfoldable pub gone : State → HashMap ℕ JoinedChannel → List ℕ
gone st [] = []
gone st ((id, j) ∷ js) = if channel_is_alive st j.ptr then gone st js else id ∷ gone st js

gone-Kept :
    (st' st : State) (js : HashMap ℕ JoinedChannel)
    → st'.channels ≡ st.channels
    → gone st' js ≡ gone st js
unfolding gone channel_is_alive
gone-Kept st' st [] e = refl
gone-Kept st' st ((id, j) ∷ js) e = ground (arith, e, gone-Kept st' st js e)

receive_all-alive :
    (st : State) (a id : ℕ) (j : JoinedChannel) (js : HashMap ℕ JoinedChannel)
    (xs more invalid : List ℕ)
    → channel_is_alive st j.ptr ≡ true
    → (receive_channel st a id j xs).1 ≡ done more
    → receive_all st a ((id, j) ∷ js) xs invalid
      ≡ receive_all (receive_channel st a id j xs).0 a js more invalid
unfolding receive_all
receive_all-alive st a id j js xs more invalid alive got = ground (arith, alive, got)

receive_all-dead :
    (st : State) (a id : ℕ) (j : JoinedChannel) (js : HashMap ℕ JoinedChannel) (xs invalid : List ℕ)
    → channel_is_alive st j.ptr ≡ false
    → receive_all st a ((id, j) ∷ js) xs invalid ≡ receive_all st a js xs (invalid ++ id ∷ [])
unfolding receive_all
receive_all-dead st a id j js xs invalid dead = ground (arith, dead)

joined-more :
    (xs : List ℕ) (ps qs : List Packet) → xs ++ joined ps ++ joined qs ≡ xs ++ joined (ps ++ qs)
joined-more xs ps qs =
    append_assoc xs (joined ps) (joined qs) ∙ ap (λ ys. xs ++ ys) (sym (joined-append ps qs))

pub receive_all_lem :
    (st : State) (a : ℕ) (js : HashMap ℕ JoinedChannel) (xs invalid : List ℕ)
    → Apart js
    → ((receive_all st a js xs invalid).1
        ≡ done (xs ++ joined (messages st (deref st a).user_id js), invalid ++ gone st js))
      × Kept (receive_all st a js xs invalid).0 st a
unfolding messages gone joined
receive_all_lem st a [] xs invalid apart =
    unfold receive_all in (ground (arith, append-nil xs, append-nil invalid), Kept-refl st a)
receive_all_lem st a ((id, j) ∷ js) xs invalid (notin, apart) =
    elim (Bool-cases (channel_is_alive st j.ptr)) [
      | inl alive ↦
          let u = (deref st a).user_id in
          let (got, kept, others) = receive_channel_lem st a id j xs in
          let st' = (receive_channel st a id j xs).0 in
          let more = xs ++ joined (from_channel st u j) in
          let (rest, kept') = receive_all_lem st' a js more invalid apart in
          let same = NotIn-messages st' st u j.ptr js kept.channels others notin in
          let user = ap (λ b. b.user_id) kept.base in
          rw (receive_all-alive st a id j js xs more invalid alive got, alive)
            (
              rest
                  ∙ ap (λ i. done (more ++ joined (messages st' i js), invalid ++ gone st' js)) user
                  ∙ ap (λ ms. done (more ++ joined ms, invalid ++ gone st' js)) same
                  ∙ ap (λ g. done (more ++ joined (messages st u js), invalid ++ g))
                      (gone-Kept st' st js kept.channels)
                  ∙ ap (λ ys. done (ys, invalid ++ gone st js))
                      (joined-more xs (from_channel st u j) (messages st u js)),
              Kept-trans (receive_all st' a js more invalid).0 st' st a kept' kept,
            )
      | inr dead ↦
          let (rest, kept) = receive_all_lem st a js xs (invalid ++ id ∷ []) apart in
          rw (receive_all-dead st a id j js xs invalid dead, dead)
            (
              rest
                  ∙ ap (λ g. done (xs ++ joined (messages st (deref st a).user_id js), g))
                      (append_assoc invalid (id ∷ []) (gone st js)),
              kept,
            )
    ]
