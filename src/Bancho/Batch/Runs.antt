-- ===== src/Bancho/Batch/Runs.antt =====
-- The batch ends, and takes the packets of a builder in their order.
use peace.Base.{ℕ, zero, suc, ◌+◌, ◌^◌, ◌<◌, arith, ◌≡◌, ◌≢◌, refl, sym, ap, ◌∙◌, inl, inr}
use peace.Base.{none, Exec, done, panic, All, append-nil, append_assoc}
use peace.Base.{List, [], ◌∷◌, ◌++◌, length, length-append, Exec-cases}
use peace.Packets.Ids
use peace.Packets.Frames
use peace.Packets.Frames.{Packet, PacketReader, next}
use peace.Packets.Frames.Reading.{reader_at, header_of, length-header_of, payload_of, next-frame}
use peace.Packets.Frames.AnyInput.{next_cases, next-end, next-truncated}
use peace.Packets.Items.Encoding.{frame}
use peace.Packets.Builder
use peace.Bancho.Batch.{Handled, Tally, tally, Run, out_of_fuel, ran}
use peace.Bancho.Batch.{start, finished, batch_loop, batch_process_bancho_packets}

module _ {S E : Type 0} (process : S → Packet → Exec (S × Handled E)) where
  loop_ends :
      (fuel : ℕ) (s : S) (reader : PacketReader) (t : Tally)
      → 0 < fuel
      → length reader.buf < reader.ptr + fuel
      → batch_loop process fuel s reader t ≢ out_of_fuel
  unfolding batch_loop
  loop_ends zero s reader t pos h = absurd (omega arith)
  loop_ends (suc fuel) s reader t pos h = elim (next_cases reader) [
    | inl (_, e) ↦ rw (e, batch_loop) (λ p. cc)
    | inr (inl (_, _, e)) ↦ rw (e, batch_loop) (λ p. cc)
    | inr (inr (packet, reader', left, e, same, moved)) ↦
        rw (e, batch_loop)
          (elim (Exec-cases (process s packet)) [
            | inl f ↦ rw (f, batch_loop) (λ p. cc)
            | inr ((s', handled), f) ↦
                rw (f, batch_loop)
                  (loop_ends fuel s' reader' (tally handled t) (omega arith) (ground (arith, same)))
          ])
  ]

  finished-ne : (r : Run (S × Tally)) → r ≢ out_of_fuel → finished process r ≢ out_of_fuel
  finished-ne out_of_fuel h = absurd (h refl)
  finished-ne (ran panic) h = λ p. cc
  finished-ne (ran (done (s, t))) h = λ p. cc

  -- The batch ends on every buffer: it returns or panics, and never waits for more packets than
  -- the buffer can hold.
  pub batch_process-ends :
      (s : S) (packets : List ℕ) → batch_process_bancho_packets process s packets ≢ out_of_fuel
  unfolding batch_process_bancho_packets
  batch_process-ends s packets =
      finished-ne _
        (loop_ends (suc (length packets)) s (Frames.new packets) start (omega arith) (omega arith))

  -- The packets one after the other.
  pub process_all : S → List Packet → Tally → Exec (S × Tally)
  process_all s [] t = done (s, t)
  process_all s (packet ∷ packets) t = elim (process s packet) [
    | panic ↦ panic
    | done (s', handled) ↦ process_all s' packets (tally handled t)
  ]

-- The frames of packets given by their ids and payloads, and the packets that they are read as.
pub frames : List (ℕ × List ℕ) → List (List ℕ)
frames [] = []
frames ((id, payload) ∷ ps) = frame id payload ∷ frames ps

pub packets_of : List (ℕ × List ℕ) → List Packet
packets_of [] = []
packets_of ((id, payload) ∷ ps) =
    record { id = Ids.new id; payload = payload_of payload } ∷ packets_of ps

pub joined : List (List ℕ) → List ℕ
joined [] = []
joined (xs ∷ xss) = xs ++ joined xss

add_batch-joined :
    (xss : List (List ℕ)) (b : Builder.PacketBuilder)
    → (Builder.add_batch b xss).buffer ≡ b.buffer ++ joined xss
unfolding Builder.add_batch joined
add_batch-joined [] b = sym (append-nil b.buffer)
add_batch-joined (xs ∷ xss) b =
    add_batch-joined xss (Builder.add b xs) ∙ append_assoc b.buffer xs (joined xss)

length-frame : (id : ℕ) (payload : List ℕ) → 0 < length (frame id payload)
unfolding frame
length-frame id payload = omega arith

module _ {S E : Type 0} (process : S → Packet → Exec (S × Handled E)) where
  loop-frames :
      (ps : List (ℕ × List ℕ)) (fuel : ℕ) (s : S) (front : List ℕ) (t : Tally)
      → All (λ p. length p.1 < 2 ^ 32) ps
      → length (joined (frames ps)) < fuel
      → batch_loop process fuel s (reader_at front (joined (frames ps))) t
        ≡ ran (process_all process s (packets_of ps) t)
  unfolding batch_loop process_all packets_of frames joined
  loop-frames [] zero s front t h hf = absurd (omega arith)
  loop-frames [] (suc fuel) s front t h hf = rw (next-end front, batch_loop)
  loop-frames ((id, payload) ∷ ps) zero s front t h hf = absurd (omega arith)
  loop-frames ((id, payload) ∷ ps) (suc fuel) s front t (hp, h) hf =
      rw (next-frame front payload (joined (frames ps)) id hp, batch_loop)
        (elim (Exec-cases (process s (record { id = Ids.new id; payload = payload_of payload }))) [
          | inl f ↦ rw (f, process_all)
          | inr ((s', handled), f) ↦
              rw (f, process_all)
                (loop-frames ps fuel s' (front ++ frame id payload) (tally handled t) h (
                  omega (
                    arith,
                    length-append (frame id payload) (joined (frames ps)),
                    length-frame id payload,
                  )))
        ])

  -- What a `PacketBuilder` joined from the frames of packets (each of less than 2 ^ 32 bytes of
  -- payload) is processed as these packets, each
  -- once, in their order, up to one whose processing panics.
  pub batch_process-frames :
      (ps : List (ℕ × List ℕ)) (s : S)
      → All (λ p. length p.1 < 2 ^ 32) ps
      → batch_process_bancho_packets process s (Builder.build (Builder.from_batch (frames ps)))
        ≡ finished process (ran (process_all process s (packets_of ps) start))
  unfolding batch_process_bancho_packets
  batch_process-frames ps s h = rw (add_batch-joined (frames ps) Builder.new) (
      ap (finished process)
        (loop-frames ps (suc (length (joined (frames ps)))) s [] start h (omega arith)))

module _ {S E : Type 0} (process : S → Packet → Exec (S × Handled E)) where
  loop-truncated :
      (ps : List (ℕ × List ℕ)) (fuel : ℕ) (s : S) (front rest : List ℕ) (id n : ℕ) (t : Tally)
      → All (λ p. length p.1 < 2 ^ 32) ps
      → n < 2 ^ 32
      → length rest < n
      → length (joined (frames ps)) + 1 < fuel
      → batch_loop process fuel s
          (reader_at front (joined (frames ps) ++ (header_of id n ++ rest)))
          t
        ≡ ran panic
  unfolding batch_loop frames joined
  loop-truncated ps zero s front rest id n t h hn short hf = absurd (omega arith)
  loop-truncated [] (suc zero) s front rest id n t h hn short hf = absurd (omega arith)
  loop-truncated [] (suc (suc fuel)) s front rest id n t h hn short hf =
      let (r, first, second) = next-truncated front rest id n hn short in
      rw (first, batch_loop)
        (elim (Exec-cases (process s (record { id = Ids.new id; payload = none }))) [
          | inl f ↦ rw (f, batch_loop) refl
          | inr ((s', handled), f) ↦ rw (f, batch_loop) (rw (second, batch_loop))
        ])
  loop-truncated ((i, payload) ∷ ps) (suc fuel) s front rest id n t (hp, h) hn short hf =
      let back = joined (frames ps) ++ (header_of id n ++ rest) in
      rw (append_assoc (frame i payload) (joined (frames ps)) (header_of id n ++ rest)) (
        rw (next-frame front payload back i hp, batch_loop)
          (elim (Exec-cases (process s (record { id = Ids.new i; payload = payload_of payload }))) [
            | inl f ↦ rw (f, batch_loop) refl
            | inr ((s', handled), f) ↦
                rw (f, batch_loop)
                  (loop-truncated ps fuel s' (front ++ frame i payload) rest id n (tally handled t)
                    h hn short
                    (omega (
                      arith,
                      length-append (frame i payload) (joined (frames ps)),
                      length-frame i payload,
                    )))
          ]))

  -- A client that ends its packets with one whose header claims more payload than follows makes
  -- the whole batch panic, whatever the processing of packets does.
  pub batch_process-truncated :
      (ps : List (ℕ × List ℕ)) (s : S) (rest : List ℕ) (id n : ℕ)
      → All (λ p. length p.1 < 2 ^ 32) ps
      → n < 2 ^ 32
      → length rest < n
      → batch_process_bancho_packets process s (joined (frames ps) ++ (header_of id n ++ rest))
        ≡ ran panic
  unfolding batch_process_bancho_packets
  batch_process-truncated ps s rest id n h hn short = ap (finished process) (
      loop-truncated ps (suc (length (joined (frames ps) ++ (header_of id n ++ rest)))) s [] rest id
        n start h hn short
        (omega (
          arith,
          length-append (joined (frames ps)) (header_of id n ++ rest),
          length-append (header_of id n) rest,
          length-header_of id n,
        )))
