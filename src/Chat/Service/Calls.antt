-- ===== src/Chat/Service/Calls.antt =====
-- core/services/chat/src/services/chat.rs: the calls that join and leave channels and send messages.
use peace.BanchoState.Queries.{RawUserQuery, into_user_query, ExecSuccess, success}
use peace.Base.{ℕ}
use peace.Base.{Option, none, some, [], ◌∷◌, done, panic}
use peace.Base.Keys.{nat_eq}
use peace.Base.Outcome.{ok, err, panicked, ◌>>=◌, map_err, ok_or}
use peace.Chat.{Channel, ChatSession}
use peace.Chat.Channels.{ChannelQuery, get_channel_inner}
use peace.Chat.Membership.{enter, note_joined, leave, forget_joined, join, remove_member}
use peace.Chat.Queries.{
  RawChannelQuery, into_channel_query, RawChatMessageTarget, ChatMessageTarget, into_message_target,
  channel, user,
}
use peace.MessageQueue.{push_message_excludes}
use peace.Packets.Server.Channels.{send_message as pack_message}
use peace.PacketsQueue.{push_packet}
use peace.Users.{Text, UserQuery}
use peace.Chat.Service.{
  Reply, Env, Fresh, State, deref, write_session, write_channel, and_then, get_session,
  invalid_argument, convert_error,
}

-- The end of `join_channel` and `leave_channel`: the channel's time of update is set.
abbrev pub put_back : State → ℕ → ℕ → ℕ → ChatSession × Channel → State
put_back st a c now (s, ch) =
    write_channel (write_session st a s) c (record ch { updated_at = now })

-- `Channel::join` and the update. A panic comes after the changes, where the packet is made.
unfoldable pub join_at : State → Fresh → ℕ → ℕ → State × Reply ExecSuccess
join_at st fresh a c =
    let s = st.sessions a in
    let ch = st.channel_at c in
    elim (join s ch c fresh.index fresh.now) [
      | done r ↦ (put_back st a c fresh.now r, ok success)
      | panic ↦ (
        write_channel (write_session st a (note_joined s ch.id c fresh.index fresh.now)) c
            (enter ch s),
        panicked,
      )
    ]

-- `Channel::remove` and the update
unfoldable pub leave_at : State → Fresh → ℕ → ℕ → State × Reply ExecSuccess
leave_at st fresh a c =
    let s = st.sessions a in
    let ch = st.channel_at c in
    elim (remove_member s ch) [
      | done r ↦ (put_back st a c fresh.now r, ok success)
      | panic ↦
          (write_channel (write_session st a (forget_joined s ch.id)) c (leave ch s), panicked)
    ]

-- `ok_or(InvalidArgument)?` and `into_channel_query()?`
unfoldable pub to_channel_query : Option RawChannelQuery → Reply ChannelQuery
to_channel_query raw = do
  query ← ok_or raw invalid_argument
  map_err convert_error (into_channel_query query)

-- The message gets the id `index`; its sender is among its readers from the start.
unfoldable pub send_to_channel : State → ℕ → ℕ → Text → ℕ → State × Reply ExecSuccess
unfolding push_message_excludes
send_to_channel st index a message c =
    let ch = st.channel_at c in
    elim (pack_message (deref st a).username message ch.name (deref st a).user_id) [
      | panic ↦ (st, panicked)
      | done packet ↦ (
        write_channel st c (record ch {
          message_queue =
              push_message_excludes ch.message_queue index packet ((deref st a).user_id ∷ []) none;
        }),
        ok success,
      )
    ]

-- The message goes to the bancho client of the target, if it has one.
unfoldable pub send_to_user : State → ℕ → Text → ℕ → State × Reply ExecSuccess
send_to_user st a message target =
    let s = st.sessions target in
    elim s.bancho_ext [
      | none ↦ (st, ok success)
      | some ext ↦
          elim (pack_message (deref st a).username message s.base.username (deref st a).user_id) [
            | panic ↦ (st, panicked)
            | done packet ↦ (
              write_session st target (record s {
                bancho_ext =
                    some (record ext { packets_queue = (push_packet ext.packets_queue packet).0 });
              }),
              ok success,
            )
          ]
    ]

module _ (env : Env) where
  -- `ok_or(InvalidArgument)?` and `into_user_query()?`, `into_message_target()?`
  unfoldable pub to_user_query : Option RawUserQuery → Reply UserQuery
  to_user_query raw = do
    query ← ok_or raw invalid_argument
    map_err convert_error (into_user_query env.ulids query)

  unfoldable pub to_target : Option RawChatMessageTarget → Reply ChatMessageTarget
  to_target raw = do
    target ← ok_or raw invalid_argument
    map_err convert_error (into_message_target env.ulids target)

  -- A message to a channel or a user that is not there panics, at `todo!()`.
  unfoldable pub deliver : State → Fresh → ℕ → Text → ChatMessageTarget → State × Reply ExecSuccess
  deliver st fresh a message (channel query) = elim (get_channel_inner st.channels.indexes query) [
    | none ↦ (st, panicked)
    | some c ↦ send_to_channel st fresh.index a message c
  ]
  deliver st fresh a message (user query) =
      let r = get_session env st fresh query none in
      elim r.1 [
        | ok target ↦ send_to_user r.0 a message target
        | err e ↦ (r.0, panicked)
        | panicked ↦ (r.0, panicked)
      ]

  -- `send_message`, whose response is the same for every message
  unfoldable pub send_message :
      State
      → Fresh
      → Option RawUserQuery
      → Text
      → Option RawChatMessageTarget
      → State × Reply ExecSuccess
  send_message st fresh sender message target =
      and_then (st, to_user_query sender)
        (λ st sender_query.
          and_then (st, to_target target)
            (λ st to.
              and_then (get_session env st fresh sender_query (some env.platforms.all))
                (λ st a. deliver st fresh a message to)))

  -- The call with a session and a channel, which panics where there is no such channel.
  unfoldable pub with_channel :
      (State → Fresh → ℕ → ℕ → State × Reply ExecSuccess)
      → State
      → Fresh
      → Option RawChannelQuery
      → Option RawUserQuery
      → State × Reply ExecSuccess
  with_channel act st fresh channel_query user_query =
      and_then (st, to_user_query user_query)
        (λ st query.
          and_then (st, to_channel_query channel_query)
            (λ st of_channel.
              and_then (get_session env st fresh query (some env.platforms.all)) (λ st a.
                elim (get_channel_inner st.channels.indexes of_channel) [
                  | none ↦ (st, panicked)
                  | some c ↦ act st fresh a c
                ])))

  unfoldable pub join_channel :
      State → Fresh → Option RawChannelQuery → Option RawUserQuery → State × Reply ExecSuccess
  join_channel = with_channel join_at

  unfoldable pub leave_channel :
      State → Fresh → Option RawChannelQuery → Option RawUserQuery → State × Reply ExecSuccess
  leave_channel = with_channel leave_at
