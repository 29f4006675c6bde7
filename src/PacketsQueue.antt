-- ===== src/PacketsQueue.antt =====
-- core/infra/packets/src/queue.rs: `PacketsQueue`, the packets that wait for a session. Each method
-- runs under the lock of the queue, which the caller of a `dequeue` may hold already.
pub mod Flow
use peace.Base.{ℕ, Option, none, some, List, [], ◌∷◌, ◌++◌, length}

-- A packet is its bytes.
abbrev pub Packet : Type 0
Packet = List ℕ

pub record PacketsQueue : Type 0 where
  pub queue : List Packet

-- `PacketsQueue::new`
abbrev pub new : List Packet → PacketsQueue
new packets = record { queue = packets }

-- `From<Vec<Packet>>`
unfoldable pub push_all : List Packet → List Packet → List Packet
push_all [] queue = queue
push_all (p ∷ packets) queue = push_all packets (queue ++ p ∷ [])

unfoldable pub from_packets : List Packet → PacketsQueue
unfolding push_all
from_packets packets = new (push_all packets [])

-- `From<Vec<u8>>`
abbrev pub from_bytes : Packet → PacketsQueue
from_bytes packets = new (packets ∷ [])

unfoldable pub queued_packets : PacketsQueue → ℕ
queued_packets q = length q.queue

unfoldable pub push_packet : PacketsQueue → Packet → PacketsQueue × ℕ
push_packet q packet =
    let queue = q.queue ++ packet ∷ [] in (record { queue = queue }, length queue)

unfoldable pub enqueue_packets : PacketsQueue → List Packet → PacketsQueue × ℕ
enqueue_packets q packets =
    let queue = q.queue ++ packets in (record { queue = queue }, length queue)

unfoldable pub dequeue_packet : PacketsQueue → PacketsQueue × Option Packet
dequeue_packet q = elim q.queue [
  | [] ↦ (q, none)
  | packet ∷ queue ↦ (record { queue = queue }, some packet)
]

-- `while let Some(packet) = queue_lock.pop_front() { buf.extend(packet); }`
unfoldable pub dequeue : List Packet → List ℕ → List ℕ
dequeue [] buf = buf
dequeue (packet ∷ queue) buf = dequeue queue (buf ++ packet)

unfoldable pub dequeue_all_packets : PacketsQueue → PacketsQueue × List ℕ
unfolding dequeue
dequeue_all_packets q = (record { queue = [] }, dequeue q.queue [])

unfoldable pub create_snapshot : PacketsQueue → List Packet
create_snapshot q = q.queue
