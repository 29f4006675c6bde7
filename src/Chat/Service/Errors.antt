-- ===== src/Chat/Service/Errors.antt =====
-- core/services/chat/src/services/chat.rs: what a call that fails has changed, and whom a new login
-- is found by.
use peace.Base.{ℕ, ◌≡◌, refl, arith, inl, inr}
use peace.Base.{Option, none, some, Option-cases}
use peace.Base.Keys.{nat_eq}
use peace.Base.Outcome.{ok, err, panicked}
use peace.BanchoState.Queries.{RawUserQuery, ExecSuccess}
use peace.Chat.Channels.{get_channel_inner}
use peace.Chat.Queries.{RawChannelQuery, RawChatMessageTarget, ChatMessageTarget, channel, user}
use peace.Chat.Service.{
  Reply, ChatError, Env, Fresh, State, bancho, and_then, login_inner, user_of, get_session, User,
}
use peace.Chat.Service.Calls.{
  to_user_query, to_channel_query, to_target, join_at, leave_at, send_to_channel, send_to_user,
  deliver, send_message, with_channel, join_channel, leave_channel,
}
use peace.Chat.Service.Dequeue.{finish, dequeue_at, dequeue_chat_packets}
use peace.Users.{Text, UserQuery}
use peace.Users.Store.{get_inner}

-- The call fails.
abbrev pub Fails : {A : Type 0} → State × Reply A → Type 0
Fails {A} r = (e : ChatError) × (r.1 ≡ err e)

-- A call that fails has left the state as it was.
abbrev pub IsAtomic : {A : Type 0} → State → State × Reply A → Type 0
IsAtomic {A} st r = (e : ChatError) → r.1 ≡ err e → r.0 ≡ st

-- A call that never fails, where it does not panic.
abbrev NeverFails : {A : Type 0} → State × Reply A → Type 0
NeverFails {A} r = (e : ChatError) → r.1 ≡ err e → ⊥

and_then-IsAtomic :
    {A B : Type 0} (st : State) (r : State × Reply A) (f : State → A → State × Reply B)
    → IsAtomic st r
    → ((st' : State) (a : A) → NeverFails (f st' a))
    → IsAtomic st (and_then r f)
and_then-IsAtomic st (st', ok a) f h never e fails = elim (never st' a e fails) [ ]
and_then-IsAtomic st (st', err x) f h never e fails = h x refl
and_then-IsAtomic st (st', panicked) f h never e fails = ground (arith, fails)

-- Behind a part that changes nothing.
after-IsAtomic :
    {A B : Type 0} (st : State) (r : Reply A) (f : State → A → State × Reply B)
    → ((a : A) → IsAtomic st (f st a))
    → IsAtomic st (and_then (st, r) f)
after-IsAtomic st (ok a) f h e fails = h a e fails
after-IsAtomic st (err x) f h e fails = refl
after-IsAtomic st panicked f h e fails = refl

module _ (env : Env) where
  login_inner-IsAtomic :
      (st : State) (fresh : Fresh) (user_id : ℕ) (username : Text) (username_unicode : Option Text)
      (privileges platforms : ℕ)
      → IsAtomic st
          (login_inner env st fresh user_id username username_unicode privileges platforms)
  unfolding login_inner
  login_inner-IsAtomic st fresh user_id username username_unicode privileges platforms e fails =
      ground (arith, fails)

  get_session-IsAtomic :
      (st : State) (fresh : Fresh) (query : UserQuery) (create_if_not_exists : Option ℕ)
      → IsAtomic st (get_session env st fresh query create_if_not_exists)
  unfolding get_session
  get_session-IsAtomic st fresh query (some platforms) e fails =
      elim (Option-cases (get_inner st.user_sessions.indexes query)) [
        | inl absent ↦
            let f = λ (s : State) (u : User).
              login_inner env s fresh u.id u.name u.name_unicode 1 platforms in
            let atomic =
              after-IsAtomic st (user_of env query) f
                (λ u. login_inner-IsAtomic st fresh u.id u.name u.name_unicode 1 platforms) in
            ground (arith, absent, fails, atomic e)
        | inr (a, found) ↦ ground (arith, found, fails)
      ]
  get_session-IsAtomic st fresh query none e fails =
      elim (Option-cases (get_inner st.user_sessions.indexes query)) [
        | inl absent ↦ ground (arith, absent, fails)
        | inr (a, found) ↦ ground (arith, found, fails)
      ]

  send_to_channel-never :
      (st : State) (index a : ℕ) (message : Text) (c : ℕ)
      → NeverFails (send_to_channel st index a message c)
  unfolding send_to_channel
  send_to_channel-never st index a message c e fails = ground (arith, fails)

  deliver-never :
      (st : State) (fresh : Fresh) (a : ℕ) (message : Text) (target : ChatMessageTarget)
      → NeverFails (deliver env st fresh a message target)
  unfolding deliver send_to_channel send_to_user
  deliver-never st fresh a message (channel query) e fails = ground (arith, fails)
  deliver-never st fresh a message (user query) e fails = ground (arith, fails)

  join_at-never : (st : State) (fresh : Fresh) (a c : ℕ) → NeverFails (join_at st fresh a c)
  unfolding join_at
  join_at-never st fresh a c e fails = ground (arith, fails)

  leave_at-never : (st : State) (fresh : Fresh) (a c : ℕ) → NeverFails (leave_at st fresh a c)
  unfolding leave_at
  leave_at-never st fresh a c e fails = ground (arith, fails)

  dequeue_at-never : (st : State) (a : ℕ) → NeverFails (dequeue_at st a)
  unfolding dequeue_at finish
  dequeue_at-never st a e fails = ground (arith, fails)

  send_message-IsAtomic :
      (st : State) (fresh : Fresh) (sender : Option RawUserQuery) (message : Text)
      (target : Option RawChatMessageTarget)
      → IsAtomic st (send_message env st fresh sender message target)
  unfolding send_message
  send_message-IsAtomic st fresh sender message target =
      after-IsAtomic st (to_user_query env sender) _ (λ query.
        after-IsAtomic st (to_target env target) _ (λ to.
          and_then-IsAtomic st (get_session env st fresh query (some env.platforms.all)) _
            (get_session-IsAtomic st fresh query (some env.platforms.all))
            (λ st' a. deliver-never st' fresh a message to)))

  with_channel-IsAtomic :
      (act : State → Fresh → ℕ → ℕ → State × Reply ExecSuccess) (st : State) (fresh : Fresh)
      (channel_query : Option RawChannelQuery) (user_query : Option RawUserQuery)
      → ((st' : State) (a c : ℕ) → NeverFails (act st' fresh a c))
      → IsAtomic st (with_channel env act st fresh channel_query user_query)
  unfolding with_channel
  with_channel-IsAtomic act st fresh channel_query user_query never =
      after-IsAtomic st (to_user_query env user_query) _ (λ query.
        after-IsAtomic st (to_channel_query channel_query) _ (λ to.
          and_then-IsAtomic st (get_session env st fresh query (some env.platforms.all)) _
            (get_session-IsAtomic st fresh query (some env.platforms.all))
            (λ st' a e fails. acted st' a (get_channel_inner st'.channels.indexes to) e fails)))
    where
      acted :
          (st' : State) (a : ℕ) (found : Option ℕ)
          → NeverFails {A = ExecSuccess}
              (elim found [ none ↦ (st', panicked) | some c ↦ act st' fresh a c ])
      acted st' a none e fails = ground (arith, fails)
      acted st' a (some c) e fails = never st' a c e fails

  -- A call of `send_message`, `join_channel`, `leave_channel` or `dequeue_chat_packets` that returns
  -- an error has changed nothing: it has made no session, sent nothing and taken nothing out.
  pub calls-IsAtomic :
      (st : State) (fresh : Fresh) (user_query : Option RawUserQuery) (query : UserQuery)
      (channel_query : Option RawChannelQuery) (message : Text)
      (target : Option RawChatMessageTarget)
      → IsAtomic st (send_message env st fresh user_query message target)
        × IsAtomic st (join_channel env st fresh channel_query user_query)
        × IsAtomic st (leave_channel env st fresh channel_query user_query)
        × IsAtomic st (dequeue_chat_packets env st fresh query)
  unfolding join_channel leave_channel dequeue_chat_packets
  calls-IsAtomic st fresh user_query query channel_query message target = (
    send_message-IsAtomic st fresh user_query message target,
    with_channel-IsAtomic join_at st fresh channel_query user_query
        (λ st' a c. join_at-never st' fresh a c),
    with_channel-IsAtomic leave_at st fresh channel_query user_query
        (λ st' a c. leave_at-never st' fresh a c),
    and_then-IsAtomic st (get_session env st fresh query (some bancho)) dequeue_at
        (get_session-IsAtomic st fresh query (some bancho)) dequeue_at-never,
  )
