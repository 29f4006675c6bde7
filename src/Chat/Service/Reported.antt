-- ===== src/Chat/Service/Reported.antt =====
-- core/services/chat/src/services/chat.rs: what `dequeue_chat_packets` notes down for the next call.
use peace.Base.{ℕ, ◌≡◌}
use peace.Base.{some, []}
use peace.Base.HashMap.{HashMap}
use peace.Chat.{BanchoChatExt}
use peace.Chat.Channels.{Channels}
use peace.Chat.Service.{State}
use peace.Chat.Service.Dequeue.{values}
use peace.Chat.Service.Infos.{outstanding}

-- The client of a session has been told all that there is to tell: no channel is one that it has to
-- be told of, and no packet waits for it.
abbrev pub IsInformed : State → ℕ → Type 0
IsInformed st a =
    (ext : BanchoChatExt) × ((st.sessions a).bancho_ext ≡ some ext)
    × (outstanding st ext.receive_channel_updates (values st.channels.indexes.channel_id) ≡ [])
    × (ext.packets_queue.queue ≡ [])
