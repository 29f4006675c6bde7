-- ===== src/Bancho/Processor.antt =====
-- core/services/bancho/src/services/bancho/{service,packet_processor}.rs: what the service does with
-- one packet of a client. It calls the bancho state service, which is modelled, and the chat
-- service, which is a parameter.
pub mod Handlers
pub mod Isolation
pub mod Isolated
pub mod Actions
pub mod Todo
use peace.BanchoState.Enums.{no_presences, filter_val, filter_from_i32}
use peace.BanchoState.Queries.{
  BanchoStateError, Reply, ok, err, panicked, RawUserQuery, ExecSuccess, raw_from,
}
use peace.BanchoState.Service.{Env, State}
use peace.BanchoState.Service.Presences.{
  batch_send_presences, batch_send_user_stats_packet, send_all_presences, send_user_stats_packet,
}
use peace.BanchoState.Service.Calls.{
  UpdateUserBanchoStatusRequest, update_user_bancho_status, update_presence_filter,
  delete_user_session,
}
use peace.Bancho.Batch.{Handled, completed, failed_with}
use peace.Base.{
  ℕ, suc, ◌==◌, if◌then◌else◌, Bool, Option, none, some, List, [], ◌∷◌, map, ◌⊎◌, inl, inr,
}
use peace.Base.{Exec, done, panic, ◌>>=◌}
use peace.Base.Keys.{text_eq}
use peace.Packets.Ids.{PacketId}
use peace.Packets.Ids
use peace.Packets.Frames.{Packet}
use peace.Packets.Reader.{Read, new, read_string, read_number, read_number_array}
use peace.Packets.Structs.{
  BanchoMessage, read_bancho_message, ClientChangeAction, read_client_change_action,
}
use peace.Users.{Text, UserQuery, by_user_id, by_username}

-- `ProcessBanchoPacketError`; an error of the chat service is the number that stands for it.
pub data ProcessBanchoPacketError : Type 0 where
  packet_payload_not_exists : ProcessBanchoPacketError
  invalid_packet_payload : ProcessBanchoPacketError
  unhandled_packet : PacketId → ProcessBanchoPacketError
  bancho_service_error : BanchoStateError → ProcessBanchoPacketError
  chat_error : ℕ → ProcessBanchoPacketError

-- `ChatMessageTarget`
pub data ChatMessageTarget : Type 0 where
  to_channel : Text → ChatMessageTarget
  to_user : UserQuery → ChatMessageTarget

-- The calls of the chat service, over its state: each may panic, or return an error.
pub record ChatService (C : Type 0) : Type 0 where
  pub send_message : C → UserQuery → Text → ChatMessageTarget → Exec (C × Option ℕ)
  pub join_channel : C → Text → UserQuery → Exec (C × Option ℕ)
  pub leave_channel : C → Text → UserQuery → Exec (C × Option ℕ)
  pub logout : C → UserQuery → Exec (C × Option ℕ)

-- The state that the service calls change. `messages` counts the ids that were generated for
-- messages of the notify queue.
pub record World (C : Type 0) : Type 0 where
  pub bancho_state : State
  pub chat : C
  pub messages : ℕ

abbrev pub HandledPacket : Type 0
HandledPacket = Handled ProcessBanchoPacketError

-- `PayloadReader::new(payload.ok_or(..)?).read::<A>().ok_or(..)?`
unfoldable pub read_payload :
    {A : Type 0} → Read A → Option (List ℕ) → Exec (A ⊎ ProcessBanchoPacketError)
read_payload read none = done (inr packet_payload_not_exists)
read_payload read (some payload) = elim (read (new payload)) [
  | panic ↦ panic
  | done (none, reader) ↦ done (inr invalid_packet_payload)
  | done (some a, reader) ↦ done (inl a)
]

-- The texts `#spectator` and `#multiplayer`
abbrev pub spectator : Text
spectator = 35 ∷ 115 ∷ 112 ∷ 101 ∷ 99 ∷ 116 ∷ 97 ∷ 116 ∷ 111 ∷ 114 ∷ []

abbrev pub multiplayer : Text
multiplayer = 35 ∷ 109 ∷ 117 ∷ 108 ∷ 116 ∷ 105 ∷ 112 ∷ 108 ∷ 97 ∷ 121 ∷ 101 ∷ 114 ∷ []

module _ {C : Type 0} where
  -- The rest of a handler, on what was read, or its error.
  abbrev pub with_payload :
      {A : Type 0}
      → World C
      → Exec (A ⊎ ProcessBanchoPacketError)
      → (A → Exec (World C × HandledPacket))
      → Exec (World C × HandledPacket)
  with_payload w panic handle = panic
  with_payload w (done (inr e)) handle = done (w, failed_with e)
  with_payload w (done (inl a)) handle = handle a

  -- The answer to a call of the bancho state service.
  unfoldable pub after_state : World C → State × Reply ExecSuccess → Exec (World C × HandledPacket)
  after_state w (st, ok answer) = done (record w { bancho_state = st }, completed none)
  after_state w (st, err e) =
      done (record w { bancho_state = st }, failed_with (bancho_service_error e))
  after_state w (st, panicked) = panic

  abbrev pub after_chat : World C → Exec (C × Option ℕ) → Exec (World C × HandledPacket)
  after_chat w panic = panic
  after_chat w (done (c, none)) = done (record w { chat = c }, completed none)
  after_chat w (done (c, some e)) = done (record w { chat = c }, failed_with (chat_error e))
