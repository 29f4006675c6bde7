-- ===== src/Chat/Service/Noticed.antt =====
-- core/services/chat/src/services/chat.rs: the notices that `dequeue_chat_packets` returns, and what
-- taking them leaves.
use peace.Base.{ℕ, ◌≡◌, refl, ap, arith}
use peace.Base.{none, List, [], ◌∷◌}
use peace.Base.{done}
use peace.Base.Keys.{nat_eq, beq_refl}
use peace.Base.HashMap.{HashMap}
use peace.Chat.{BanchoChatExt, JoinedChannel}
use peace.Chat.Service.{State, deref, channel_is_alive}
use peace.Chat.Service.Dequeue.{with_notices, receive_notices, set_ext}
use peace.MessageQueue.{Message, receive_messages}
use peace.MessageQueue.Delivery.{unread, last_id, delivery, receive_messages-delivery}
use peace.PacketsQueue.{Packet}
use peace.PacketsQueue.Flow.{joined, dequeue-joined}
use peace.Chat.Service.Reading.{contents, notices, messages, Kept, Kept-refl}

-- The bancho client after the notices: its index alone has changed.
abbrev pub AlikeExt : BanchoChatExt → BanchoChatExt → Type 0
AlikeExt x y =
    (x.packets_queue ≡ y.packets_queue) × (x.receive_channel_updates ≡ y.receive_channel_updates)

-- The state after the notices has the channels as they were.
pub record Noticed (st' st : State) (a : ℕ) : Type 0 where
  pub kept : Kept st' st a
  pub channel_at : st'.channel_at ≡ st.channel_at

pub messages-Noticed :
    (st' st : State) (a user_id : ℕ) (js : HashMap ℕ JoinedChannel)
    → Noticed st' st a
    → messages st' user_id js ≡ messages st user_id js
unfolding messages channel_is_alive
messages-Noticed st' st a user_id [] n = refl
messages-Noticed st' st a user_id ((id, j) ∷ js) n =
    ground (arith, n.kept.channels, n.channel_at, messages-Noticed st' st a user_id js n)

with_notices_lem :
    (st : State) (a : ℕ) (ext : BanchoChatExt) (ms : List (ℕ × Message Packet ℕ))
    → (ext' : BanchoChatExt) × ((with_notices st a ext (done (delivery ms))).1
        ≡ done (ext', joined (contents ms)))
      × AlikeExt ext' ext
      × Noticed (with_notices st a ext (done (delivery ms))).0 st a
unfolding with_notices joined
with_notices_lem st a ext [] =
    (ext, refl, (refl, refl), record { kept = Kept-refl st a; channel_at = refl })
with_notices_lem st a ext ((i, m) ∷ ms) = (
  record ext { notify_index = last_id i ms },
  ap (λ xs. done (record ext { notify_index = last_id i ms }, xs))
      (dequeue-joined (contents ((i, m) ∷ ms)) []),
  (refl, refl),
  record {
    kept = record {
      channels = refl;
      base = unfold set_ext in ground (arith, beq_refl a);
      told = λ c. unfold set_ext in (refl, refl, refl, refl, refl);
    };
    channel_at = unfold set_ext in refl;
  },
)

pub receive_notices_lem :
    (st : State) (a : ℕ) (ext : BanchoChatExt)
    → (ext' : BanchoChatExt) × ((receive_notices st a ext).1
        ≡ done (ext', joined (notices st (deref st a).user_id ext)))
      × AlikeExt ext' ext
      × Noticed (receive_notices st a ext).0 st a
unfolding receive_notices
receive_notices_lem st a ext =
    let u = (deref st a).user_id in
    let st' : State = record st {
      notify_queue = (receive_messages st.notify_queue u ext.notify_index none).0;
    } in
    let (ext', got, alike, n) =
      with_notices_lem st' a ext (unread u ext.notify_index st.notify_queue.messages) in
    rw (receive_messages-delivery st.notify_queue u ext.notify_index none) (
      ext',
      got,
      alike,
      record {
        kept = record { channels = n.kept.channels; base = n.kept.base; told = n.kept.told };
        channel_at = n.channel_at;
      },
    )
