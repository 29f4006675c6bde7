-- ===== src/Bancho/Processor/Actions.antt =====
-- core/services/bancho/src/services/bancho/service.rs: the way of a change of action from the bytes
-- that a client sends to the packets that every other client gets.
use peace.BanchoState.Enums.{standard, idle, mode_from_i32, status_from_i32}
use peace.BanchoState.Session.{BanchoStatus, update_all}
use peace.BanchoState.Info.{user_stats_packet}
use peace.BanchoState.Queries.{ok}
use peace.BanchoState.Service.{Env, broadcast_bancho_packets, dequeue_at}
use peace.BanchoState.Service.Delivery.{queued}
use peace.BanchoState.Service.Mail.{broadcast-dequeue_at}
use peace.BanchoState.Service.Calls.{changed, update_user_bancho_status, unwrap_or}
use peace.Bancho.Batch.{
  Handled, completed, ran, batch_completed, batch_loop, tally, finish, batch_process_bancho_packets,
}
use peace.Bancho.Processor.{ChatService, World, read_payload, after_state}
use peace.Bancho.Processor.Handlers.{
  user_change_action, action_request, take_id, dispatch, process_bancho_packet,
}
use peace.Bancho.Processor.Isolation.{to_session-get}
use peace.Base.{
  ℕ, suc, ◌≤◌, ◌<◌, ◌^◌, Bool, ◌≡◌, arith, none, some, List, [], ◌∷◌, ◌++◌, length, append-nil,
  subst, Exec, done,
}
use peace.Base.Keys.{nat_eq, beq_refl}
use peace.Base.HashMap.{get}
use peace.Packets.Ids.{osu_user_change_action}
use peace.Packets.Frames
use peace.Packets.Frames.{PacketReader, next}
use peace.Packets.Frames.AnyInput.{next-end}
use peace.Packets.Reader
use peace.Packets.Items.Encoding.{encodings}
use peace.Packets.Structs
use peace.Packets.Structs.{ClientChangeAction, action_values, read_client_change_action}
use peace.Packets.Structs.Fields.{IsAction}
use peace.Packets.Structs.RoundTrip.{user_change_action-read}
use peace.PacketsQueue.{Packet}
use peace.PacketsQueue.Flow.{joined}

-- A buffer that is one packet is processed as that packet.
batch-one :
    {S E : Type 0} (process : S → Frames.Packet → Exec (S × Handled E)) (s s' : S)
    (packet : Frames.Packet) (buf : List ℕ)
    → next (Frames.new buf) ≡ done (some packet, record { buf = buf; ptr = length buf })
    → process s packet ≡ done (s', completed none)
    → batch_process_bancho_packets process s buf ≡ ran (done (s', batch_completed none))
unfolding batch_process_bancho_packets batch_loop finish tally
batch-one process s s' packet [] one handled = absurd (ground (arith, one, next-end []))
batch-one process s s' packet (x ∷ xs) one handled =
    let last : next (record { buf = x ∷ xs; ptr = length (x ∷ xs) })
        ≡ done (none, record { buf = x ∷ xs; ptr = length (x ∷ xs) }) =
      subst
        (λ ys.
          next (record { buf = ys; ptr = length (x ∷ xs) })
          ≡ done (none, record { buf = ys; ptr = length (x ∷ xs) }))
        (append-nil (x ∷ xs)) (next-end (x ∷ xs)) in
    rw (one, batch_loop) (rw (handled, batch_loop) (rw (last, batch_loop)))

module _ {C : Type 0} (env : Env) (checks : Bool) (generate : ℕ → ℕ) (chat : ChatService C) where
  -- The state after the change, with the stats told to all.
  abbrev pub told : World C → ℕ → ℕ → ClientChangeAction → Packet → World C
  told w u a action stats = record w {
    bancho_state =
        broadcast_bancho_packets
          (changed w.bancho_state a (action_request env checks generate chat u action))
          (generate w.messages) stats;
    messages = suc w.messages;
  }

  change_action-told :
      (w : World C) (u a : ℕ) (action : ClientChangeAction) (stats : Packet)
      → get u w.bancho_state.user_sessions.indexes.user_id ≡ some a
      → user_stats_packet env.floats
          ((changed w.bancho_state a (action_request env checks generate chat u action)).sessions a)
        ≡ done stats
      → after_state (take_id env checks generate chat w) (
          update_user_bancho_status env w.bancho_state
            (generate w.messages)
            (action_request env checks generate chat u action))
        ≡ done (told w u a action stats, completed none)
  unfolding after_state update_user_bancho_status
  change_action-told w u a action stats found packed =
      ground (arith, to_session-get env u w.bancho_state, found, packed)

  -- The status that a change of action sets; an unknown number stands for the default.
  abbrev pub status_of : ClientChangeAction → BanchoStatus
  status_of action = record {
    online_status = unwrap_or idle (status_from_i32 action.online_status);
    description = action.description;
    beatmap_id = action.beatmap_id;
    beatmap_md5 = action.beatmap_md5;
    mods = action.mods;
    mode = unwrap_or standard (mode_from_i32 action.mode);
  }

  changed-status :
      (w : World C) (u a b : ℕ) (action : ClientChangeAction)
      → (((changed w.bancho_state a (action_request env checks generate chat u action)).sessions
            a).extends.bancho_status
          ≡ status_of action)
        × (((changed w.bancho_state a (action_request env checks generate chat u action)).sessions
              b).extends.notify_index
            ≡ (w.bancho_state.sessions b).extends.notify_index)
  unfolding changed update_all
  changed-status w u a b action = (ground (arith, beq_refl a), ground arith)

  user_change_action-told :
      (w : World C) (u a : ℕ) (action : ClientChangeAction) (stats : Packet) (payload : List ℕ)
      → read_client_change_action checks (Reader.new payload)
        ≡ done (some action, record { payload = payload; index = length payload })
      → get u w.bancho_state.user_sessions.indexes.user_id ≡ some a
      → user_stats_packet env.floats
          ((changed w.bancho_state a (action_request env checks generate chat u action)).sessions a)
        ≡ done stats
      → process_bancho_packet env checks generate chat u w
          (record { id = osu_user_change_action; payload = some payload })
        ≡ done (told w u a action stats, completed none)
  unfolding process_bancho_packet dispatch user_change_action read_payload
  user_change_action-told w u a action stats payload read found packed =
      ground (arith, read, change_action-told w u a action stats found packed)

  -- A change of action that a client packs, of non-empty UTF-8 texts and less than 2 ^ 32 bytes, goes
  -- all the way: the batch of its bytes completes, the session under the user's id has the new
  -- status, and the stats packet of the changed session is among what the next call of
  -- `dequeue_bancho_packets` returns for any session whose notify index is not above the id of the
  -- message. The stats packet has to be written without a panic.
  pub change_action-everyone :
      (w : World C) (u a b : ℕ) (action : ClientChangeAction) (stats : Packet)
      → IsAction action
      → length (encodings (action_values action)) < 2 ^ 32
      → get u w.bancho_state.user_sessions.indexes.user_id ≡ some a
      → user_stats_packet env.floats
          ((changed w.bancho_state a (action_request env checks generate chat u action)).sessions a)
        ≡ done stats
      → (w.bancho_state.sessions b).extends.notify_index ≤ generate w.messages
      → (buf : List ℕ) × (w' : World C) × (Structs.user_change_action action ≡ done buf)
        × (batch_process_bancho_packets (process_bancho_packet env checks generate chat u) w buf
            ≡ ran (done (w', batch_completed none)))
        × ((w'.bancho_state.sessions a).extends.bancho_status ≡ status_of action)
        × ((before after : List ℕ) × ((dequeue_at w'.bancho_state b).1
              ≡ ok (before ++ stats ++ after)))
  unfolding broadcast_bancho_packets
  change_action-everyone w u a b action stats valid short found packed young =
      let (buf, payload, sent, one, read) = user_change_action-read checks action valid short in
      let packet : Frames.Packet = record { id = osu_user_change_action; payload = some payload } in
      let handled = user_change_action-told w u a action stats payload read found packed in
      let st = changed w.bancho_state a (action_request env checks generate chat u action) in
      let (status, index) = changed-status w u a b action in
      let (before, after, got) =
        broadcast-dequeue_at st b (generate w.messages) stats (omega (arith, index, young)) in
      (
        buf,
        told w u a action stats,
        sent,
        batch-one (process_bancho_packet env checks generate chat u) w (told w u a action stats)
            packet buf one handled,
        status,
        (joined (queued st b) ++ before, after, got),
      )
