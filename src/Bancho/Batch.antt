-- ===== src/Bancho/Batch.antt =====
-- `batch_process_bancho_packets` of core/services/bancho/src/services/bancho/service.rs. What
-- `process_bancho_packet` does with one packet is a parameter, over the state `S` of the services
-- that it calls; it may panic, as the packets that are still `todo!()` do.
pub mod Runs
use peace.Base.{ℕ, zero, suc, ◌+◌, ◌==◌, if◌then◌else◌, Bool, true, false, Option, none, some}
use peace.Base.{List, [], ◌∷◌, ◌++◌, length, Exec, done, panic}
use peace.Packets.Frames.{Packet, PacketReader, next}
use peace.Packets.Frames

-- `Result<HandleCompleted, E>`, by the packets of the success.
pub data Handled (E : Type 0) : Type 0 where
  completed : Option (List ℕ) → Handled E
  failed_with : E → Handled E

pub record Tally : Type 0 where
  pub processed : ℕ
  pub failed : ℕ
  pub builder : Option (List ℕ)

-- `lazy_init!(builder => builder.extend(packets), PacketBuilder::from(packets))`
abbrev pub extend_builder : Option (List ℕ) → List ℕ → Option (List ℕ)
extend_builder none packets = some packets
extend_builder (some buffer) packets = some (buffer ++ packets)

-- The loop's body, after the packet was processed.
unfoldable pub tally : {E : Type 0} → Handled E → Tally → Tally
tally (completed none) t = record t { processed = t.processed + 1 }
tally (completed (some packets)) t = record t {
  processed = t.processed + 1;
  builder = extend_builder t.builder packets;
}
tally (failed_with err) t = record t { processed = t.processed + 1; failed = t.failed + 1 }

-- A run with fuel: out of it, or what the code does.
pub data Run {ℓ} (A : Type ℓ) : Type ℓ where
  out_of_fuel : Run A
  ran : Exec A → Run A

pub data BatchResult : Type 0 where
  batch_completed : Option (List ℕ) → BatchResult
  failed_to_process_all : BatchResult

-- `if failed == processed`, and the answer.
unfoldable pub finish : Tally → BatchResult
finish t = if t.failed == t.processed then failed_to_process_all else batch_completed t.builder

abbrev pub start : Tally
start = record { processed = 0; failed = 0; builder = none }

module _ {S E : Type 0} (process : S → Packet → Exec (S × Handled E)) where
  -- `for packet in reader`
  unfoldable pub batch_loop : ℕ → S → PacketReader → Tally → Run (S × Tally)
  batch_loop zero s reader t = out_of_fuel
  batch_loop (suc fuel) s reader t = elim (next reader) [
    | panic ↦ ran panic
    | done (none, _) ↦ ran (done (s, t))
    | done (some packet, reader') ↦ elim (process s packet) [
      | panic ↦ ran panic
      | done (s', handled) ↦ batch_loop fuel s' reader' (tally handled t)
    ]
  ]

  abbrev pub finished : Run (S × Tally) → Run (S × BatchResult)
  finished out_of_fuel = out_of_fuel
  finished (ran panic) = ran panic
  finished (ran (done (s, t))) = ran (done (s, finish t))

  -- Each packet takes seven bytes at least, so one round for each byte and one more are enough.
  unfoldable pub batch_process_bancho_packets : S → List ℕ → Run (S × BatchResult)
  unfolding batch_loop
  batch_process_bancho_packets s packets =
      finished (batch_loop (suc (length packets)) s (Frames.new packets) start)
