-- ===== src/Packets/Builder.antt =====
-- `PacketBuilder` of lib/bancho-packets/src/lib.rs.
use peace.Base.{ℕ, List, [], ◌∷◌, ◌++◌}
use peace.Packets.Ids.{PacketId}
use peace.Packets.Items.{new_empty_packet}

pub record PacketBuilder : Type 0 where
  pub buffer : List ℕ

-- `PacketBuilder::new`
abbrev pub new : PacketBuilder
new = record { buffer = [] }

abbrev pub with_packet_id : PacketId → PacketBuilder
with_packet_id packet_id = record { buffer = new_empty_packet packet_id }

-- `add_ref`, and `add`, which returns the builder.
unfoldable pub add : PacketBuilder → List ℕ → PacketBuilder
add b packet = record { buffer = b.buffer ++ packet }

-- `add_batch_ref`, `add_batch`
unfoldable pub add_batch : PacketBuilder → List (List ℕ) → PacketBuilder
unfolding add
add_batch b [] = b
add_batch b (p ∷ packets) = add_batch (add b p) packets

-- `from_batch`
abbrev pub from_batch : List (List ℕ) → PacketBuilder
from_batch packets = add_batch new packets

abbrev pub build : PacketBuilder → List ℕ
build b = b.buffer
