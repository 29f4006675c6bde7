-- ===== src/Chat/Snapshot/Restored.antt =====
-- core/services/chat/src/{components,services/chat}.rs: what comes back from a snapshot.
use peace.Base.{ℕ, ◌==◌, ◌%◌, ◌^◌, length, Bool-cases, ◌≡◌, refl, sym, ap}
use peace.Base.{◌∙◌, arith, inl, inr, Option-cases, Option, none, some, List, [], ◌∷◌, ◌++◌}
use peace.Base.{append-nil, append_assoc}
use peace.Base.Keys.{nat_eq, beq_refl}
use peace.Base.HashMap.{HashMap, get, insert, IsMap, get-insert}
use peace.Chat.{ChatSession, BanchoChatExt, JoinedChannel}
use peace.Chat.Service.{State, write_session}
use peace.Chat.Snapshot.{
  collect_joined_channels, ext_data, session_data, nowhere, joined_from, ext_from_data,
  session_from, link, link_all,
}
use peace.PacketsQueue.{Packet, push_all, from_packets}
use peace.Users.Store.{UserIndexes}

-- The joined channel of a session points to the channel at the address `c`.
abbrev pub IsLinked : State → ℕ → ℕ → ℕ → Type 0
IsLinked st a channel_id c =
    (j : JoinedChannel) × (get channel_id (st.sessions a).joined_channels ≡ some j) × (j.ptr ≡ c)

-- The step of the loop for one user.
abbrev step : State → UserIndexes ℕ → ℕ → ℕ → ℕ → ℕ → ℕ → State
step st indexes user_id channel_id c new_id now = elim (get user_id indexes.user_id) [
  | none ↦ st
  | some a ↦ write_session st a (link (st.sessions a) channel_id c new_id now)
]

link-joined :
    (s : ChatSession) (channel_id c new_id now : ℕ)
    → (j : JoinedChannel) × (get channel_id (link s channel_id c new_id now).joined_channels
        ≡ some j)
      × (j.ptr ≡ c)
unfolding link
link-joined s channel_id c new_id now =
    let joined : JoinedChannel = elim (get channel_id s.joined_channels) [
      | some j ↦ record j { ptr = c }
      | none ↦ record { ptr = c; message_index = new_id; joined_time = now }
    ] in
    (
      joined,
      ground
          (arith, get-insert channel_id channel_id joined s.joined_channels, beq_refl channel_id),
      elim (Option-cases (get channel_id s.joined_channels)) [
        | inl absent ↦ ground (arith, absent)
        | inr (j, found) ↦ ground (arith, found)
      ],
    )

write-IsLinked :
    (st : State) (a b channel_id c new_id now : ℕ)
    → IsLinked st b channel_id c
    → IsLinked (write_session st a (link (st.sessions a) channel_id c new_id now)) b channel_id c
write-IsLinked st a b channel_id c new_id now (j, found, here) = elim (Bool-cases (a == b)) [
  | inl same ↦
      let (i, there, at) = link-joined (st.sessions a) channel_id c new_id now in
      (i, ground (arith, same, there), at)
  | inr other ↦ (j, ground (arith, other, found), here)
]

step-IsLinked :
    (st : State) (indexes : UserIndexes ℕ) (user_id b channel_id c new_id now : ℕ)
    → IsLinked st b channel_id c
    → IsLinked (step st indexes user_id channel_id c new_id now) b channel_id c
step-IsLinked st indexes user_id b channel_id c new_id now linked =
    elim (Option-cases (get user_id indexes.user_id)) [
      | inl absent ↦ rw (absent, step) linked
      | inr (a, found) ↦ rw (found, step) (write-IsLinked st a b channel_id c new_id now linked)
    ]

step-links :
    (st : State) (indexes : UserIndexes ℕ) (user_id a channel_id c new_id now : ℕ)
    → get user_id indexes.user_id ≡ some a
    → IsLinked (step st indexes user_id channel_id c new_id now) a channel_id c
step-links st indexes user_id a channel_id c new_id now found =
    let (i, there, at) = link-joined (st.sessions a) channel_id c new_id now in
    rw (found, step) (i, ground (arith, beq_refl a, there), at)

link_all-keeps :
    (st : State) (indexes : UserIndexes ℕ) (new_ids : ℕ → ℕ → ℕ) (a channel_id c now : ℕ)
    (users : HashMap ℕ (Option ℕ))
    → IsLinked st a channel_id c
    → IsLinked (link_all st indexes new_ids channel_id c now users) a channel_id c
unfolding link_all
link_all-keeps st indexes new_ids a channel_id c now [] linked = linked
link_all-keeps st indexes new_ids a channel_id c now ((user_id, s) ∷ users) linked =
    link_all-keeps (step st indexes user_id channel_id c (new_ids c user_id) now) indexes new_ids a
      channel_id c now users
      (step-IsLinked st indexes user_id a channel_id c (new_ids c user_id) now linked)

-- After the loop over the users of a channel, the session of each of them, where it has one, has
-- joined the channel, and its pointer, which a snapshot does not keep, points to the channel.
pub link_all-IsLinked :
    (st : State) (indexes : UserIndexes ℕ) (new_ids : ℕ → ℕ → ℕ) (user_id a channel_id c now : ℕ)
    (users : HashMap ℕ (Option ℕ)) (s : Option ℕ)
    → get user_id users ≡ some s
    → get user_id indexes.user_id ≡ some a
    → IsLinked (link_all st indexes new_ids channel_id c now users) a channel_id c
unfolding link_all get
link_all-IsLinked st indexes new_ids user_id a channel_id c now [] s there found =
    ground (arith, there)
link_all-IsLinked st indexes new_ids user_id a channel_id c now ((k, t) ∷ users) s there found =
    let st' = step st indexes k channel_id c (new_ids c k) now in
    elim (Bool-cases (k == user_id)) [
      | inl same ↦
          let found' : get k indexes.user_id ≡ some a =
            ground (arith, found, nat_eq.beq_iff k user_id, same) in
          link_all-keeps st' indexes new_ids a channel_id c now users
            (step-links st indexes k a channel_id c (new_ids c k) now found')
      | inr other ↦
          let later : get user_id users ≡ some s = ground (arith, there, other) in
          link_all-IsLinked st' indexes new_ids user_id a channel_id c now users s later found
    ]

-- A joined channel as it comes back: its pointer points to nothing.
abbrev pub unlinked : Option JoinedChannel → Option JoinedChannel
unlinked none = none
unlinked (some j) = some (record j { ptr = nowhere })

joined_from-get :
    (js acc : HashMap ℕ JoinedChannel) (k : ℕ)
    → IsMap js
    → get k (joined_from (collect_joined_channels js) acc)
      ≡ (elim (get k js) [ none ↦ get k acc | some j ↦ some (record j { ptr = nowhere }) ])
unfolding joined_from collect_joined_channels get
joined_from-get [] acc k one = refl
joined_from-get ((id, j) ∷ js) acc k (fresh, one) =
    let acc' = insert id (record j { ptr = nowhere }) acc in
    ground (
      arith,
      fresh,
      nat_eq.beq_iff id k,
      get-insert id k (record j { ptr = nowhere }) acc,
      joined_from-get js acc' k one,
    )

unlinked_lem :
    (k : ℕ) (js : HashMap ℕ JoinedChannel)
    → (elim (get k js) as (λ x. Option JoinedChannel) [
      | none ↦ get k []
      | some j ↦ some (record j { ptr = nowhere })
    ])
      ≡ unlinked (get k js)
unfolding get
unlinked_lem k js = elim (Option-cases (get k js)) [
  | inl absent ↦ ground (arith, absent)
  | inr (j, found) ↦ ground (arith, found)
]

push_all-append : (ps queue : List Packet) → push_all ps queue ≡ queue ++ ps
unfolding push_all
push_all-append [] queue = sym (append-nil queue)
push_all-append (p ∷ ps) queue =
    push_all-append ps (queue ++ p ∷ []) ∙ append_assoc queue (p ∷ []) ps

-- A bancho client as it comes back: it is told of all channels anew.
abbrev pub untold : Option BanchoChatExt → Option BanchoChatExt
untold none = none
untold (some ext) = some (record ext { receive_channel_updates = [] })

restored-ext : (s : ChatSession) → (session_from (session_data s)).bancho_ext ≡ untold s.bancho_ext
unfolding session_from session_data ext_data ext_from_data from_packets
    peace.PacketsQueue.create_snapshot
restored-ext s = elim (Option-cases s.bancho_ext) [
  | inl absent ↦ ground (arith, absent)
  | inr (ext, found) ↦ ground (arith, found, push_all-append ext.packets_queue.queue [])
]

length-collect : (js : HashMap ℕ JoinedChannel) → length (collect_joined_channels js) ≡ length js
unfolding collect_joined_channels
length-collect [] = refl
length-collect (j ∷ js) = ground (arith, length-collect js)

-- A session that is made of the snapshot of a session, whose map of joined channels has each channel
-- once, has its user, its platforms, the packets that wait for it and its place in the notices. It
-- has joined the same channels, up to the same messages, by pointers to nothing; its count is
-- theirs, and it is told of all channels anew.
pub session_from-session_data :
    (s : ChatSession)
    → IsMap s.joined_channels
    → ((session_from (session_data s)).base ≡ s.base)
      × ((session_from (session_data s)).platforms ≡ s.platforms)
      × ((session_from (session_data s)).bancho_ext ≡ untold s.bancho_ext)
      × ((session_from (session_data s)).channel_count ≡ length s.joined_channels % 2 ^ 32)
      × ((k : ℕ)
          → get k (session_from (session_data s)).joined_channels
            ≡ unlinked (get k s.joined_channels))
unfolding session_from session_data
session_from-session_data s one = (
  refl,
  refl,
  restored-ext s,
  ap (λ n. n % 2 ^ 32) (length-collect s.joined_channels),
  λ k. joined_from-get s.joined_channels [] k one ∙ unlinked_lem k s.joined_channels,
)
