-- ===== src/Examples/Batch.antt =====
-- A run of a batch of two packets, where the packets are counted, and one of a packet queue.
use peace.Base.{ℕ, ◌+◌, ◌≡◌, ◌≢◌, arith, some, List, [], ◌∷◌, ◌++◌, Exec, done, panic}
use peace.Packets.Frames.{Packet}
use peace.Packets.Frames.Reading.{header_of}
use peace.Packets.Builder
use peace.PacketsQueue.{new as queue_of}
use peace.PacketsQueue.Flow.{joined as joined_packets, push, dequeue_one, all_put_in, run, run-flow}
use peace.Bancho.Batch.{
  Handled, completed, out_of_fuel, ran, start, finished, batch_process_bancho_packets,
}
use peace.Bancho.Batch.Runs.{batch_process-ends, process_all, frames, packets_of, joined}
use peace.Bancho.Batch.Runs.{batch_process-frames, batch_process-truncated}

abbrev counting : ℕ → Packet → Exec (ℕ × Handled ℕ)
counting n packet = done (n + 1, completed (some (4 ∷ [])))

abbrev two_packets : List (ℕ × List ℕ)
two_packets = (4, []) ∷ (79, 1 ∷ 0 ∷ 0 ∷ 0 ∷ []) ∷ []

batch_process-ends_example :
    batch_process_bancho_packets counting 0 (4 ∷ 0 ∷ 0 ∷ 9 ∷ 0 ∷ 0 ∷ 0 ∷ []) ≢ out_of_fuel
batch_process-ends_example = batch_process-ends counting 0 (4 ∷ 0 ∷ 0 ∷ 9 ∷ 0 ∷ 0 ∷ 0 ∷ [])

batch_process-frames_example :
    batch_process_bancho_packets counting 0
      (Builder.build (Builder.from_batch (frames two_packets)))
    ≡ finished counting (ran (process_all counting 0 (packets_of two_packets) start))
batch_process-frames_example =
    batch_process-frames counting two_packets 0 (omega arith, (omega arith, tt))

batch_process-truncated_example :
    batch_process_bancho_packets counting 0
      (joined (frames two_packets) ++ (header_of 4 9 ++ (1 ∷ [])))
    ≡ ran panic
batch_process-truncated_example =
    batch_process-truncated counting two_packets 0 (1 ∷ []) 4 9 (omega arith, (omega arith, tt))
      (omega arith) (omega arith)

run-flow_example :
    joined_packets ((1 ∷ []) ∷ []) ++ all_put_in (push (2 ∷ 3 ∷ []) ∷ dequeue_one ∷ [])
    ≡ (run (push (2 ∷ 3 ∷ []) ∷ dequeue_one ∷ []) (queue_of ((1 ∷ []) ∷ []))).1
      ++ joined_packets
          (run (push (2 ∷ 3 ∷ []) ∷ dequeue_one ∷ []) (queue_of ((1 ∷ []) ∷ []))).0.queue
run-flow_example = run-flow (push (2 ∷ 3 ∷ []) ∷ dequeue_one ∷ []) (queue_of ((1 ∷ []) ∷ []))
