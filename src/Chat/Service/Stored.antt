-- ===== src/Chat/Service/Stored.antt =====
-- core/services/chat/src/services/chat.rs: what storing a channel makes and what it leaves.
use peace.Base.{ℕ, suc, ◌≤◌, ◌==◌, ◌≡◌, ◌≢◌, refl, arith, inl, inr}
use peace.Base.{false, none, some, Option-cases}
use peace.Base.Keys.{nat_eq, text_eq, beq_refl}
use peace.Base.HashMap.{get, insert, get-insert}
use peace.Chat.{Channel}
use peace.Chat.Channels.{add_channel, create_channel_inner, get_channel_inner}
use peace.Chat.Service.{State}
use peace.Chat.Service.Public.{store_channel}
use peace.Users.{Text}

-- The addresses of the channels have been given out.
abbrev pub IsGiven : State → Type 0
IsGiven st = (id c : ℕ) → get id st.channels.indexes.channel_id ≡ some c → suc c ≤ st.next_channel

-- What is there under an id is still there, with the same contents.
abbrev pub Keeps : State → State → Type 0
Keeps st' st =
    (id c : ℕ)
    → get id st.channels.indexes.channel_id ≡ some c
    → (get id st'.channels.indexes.channel_id ≡ some c) × (st'.channel_at c ≡ st.channel_at c)

-- There is a channel under the id, which is the given one where there was none before.
abbrev pub IsThere : State → State → ℕ → Channel → Type 0
IsThere st' st id channel =
    (c : ℕ) × (get id st'.channels.indexes.channel_id ≡ some c)
    × (get id st.channels.indexes.channel_id ≡ none → st'.channel_at c ≡ channel)

pub store_channel-known :
    (st : State) (channel : Channel) (c : ℕ)
    → get channel.id st.channels.indexes.channel_id ≡ some c
    → (store_channel st channel).channels ≡ st.channels
unfolding store_channel create_channel_inner get_channel_inner
store_channel-known st channel c found = ground (arith, found, beq_refl st.next_channel)

store_channel-new :
    (st : State) (channel : Channel)
    → get channel.id st.channels.indexes.channel_id ≡ none
    → ((store_channel st channel).channels.indexes.channel_id
        ≡ insert channel.id st.next_channel st.channels.indexes.channel_id)
      × ((store_channel st channel).channels.indexes.channel_name
          ≡ insert channel.name st.next_channel st.channels.indexes.channel_name)
unfolding store_channel create_channel_inner get_channel_inner add_channel
store_channel-new st channel absent = ground (arith, absent, beq_refl st.next_channel)

-- Only the new address has other contents.
store_channel-channel_at :
    (st : State) (channel : Channel)
    → ((store_channel st channel).next_channel ≡ suc st.next_channel)
      × ((store_channel st channel).channel_at st.next_channel ≡ channel)
      × ((c : ℕ)
          → suc c ≤ st.next_channel
          → (store_channel st channel).channel_at c ≡ st.channel_at c)
unfolding store_channel
store_channel-channel_at st channel =
    (refl, ground (arith, beq_refl st.next_channel), λ c given. ground arith)

pub store_channel-Keeps :
    (st : State) (channel : Channel)
    → IsGiven st
    → Keeps (store_channel st channel) st × IsGiven (store_channel st channel)
store_channel-Keeps st channel given =
    let m = st.channels.indexes.channel_id in
    let (next, here, elsewhere) = store_channel-channel_at st channel in
    elim (Option-cases (get channel.id m)) [
      | inl absent ↦
          let grown = (store_channel-new st channel absent).0 in
          let found = λ (id : ℕ). get-insert channel.id id st.next_channel m in
          (
            λ id c there. (
              ground (arith, grown, found id, absent, there, nat_eq.beq_iff channel.id id),
              elsewhere c (given id c there),
            ),
            λ id c there. ground (arith, next, grown, found id, there, given id c),
          )
      | inr (d, known) ↦
          let same = store_channel-known st channel d known in
          (
            λ id c there. (ground (arith, same, there), elsewhere c (given id c there)),
            λ id c there. ground (arith, next, same, there, given id c),
          )
    ]

pub store_channel-IsThere :
    (st : State) (channel : Channel) → IsThere (store_channel st channel) st channel.id channel
store_channel-IsThere st channel =
    let m = st.channels.indexes.channel_id in
    elim (Option-cases (get channel.id m)) [
      | inl absent ↦
          let grown = (store_channel-new st channel absent).0 in
          let found = get-insert channel.id channel.id st.next_channel m in
          (
            st.next_channel,
            ground (arith, grown, found, beq_refl channel.id),
            λ h. (store_channel-channel_at st channel).1,
          )
      | inr (d, known) ↦
          let same = store_channel-known st channel d known in
          (d, ground (arith, same, known), λ h. ground (arith, known, h))
    ]

-- What is found under another id, or another name, is the same.
pub store_channel-others :
    (st : State) (channel : Channel)
    → ((id : ℕ)
        → (channel.id == id) ≡ false
        → get id (store_channel st channel).channels.indexes.channel_id
          ≡ get id st.channels.indexes.channel_id)
      × ((name : Text)
          → name ≢ channel.name
          → get name (store_channel st channel).channels.indexes.channel_name
            ≡ get name st.channels.indexes.channel_name)
store_channel-others st channel =
    let x = st.channels.indexes in
    elim (Option-cases (get channel.id x.channel_id)) [
      | inl absent ↦
          let (ids, names) = store_channel-new st channel absent in
          (
            λ id other.
                ground (arith, ids, get-insert channel.id id st.next_channel x.channel_id, other),
            λ name other. ground (
              arith,
              names,
              get-insert channel.name name st.next_channel x.channel_name,
              text_eq.beq_iff channel.name name,
              other,
            ),
          )
      | inr (d, known) ↦
          let same = store_channel-known st channel d known in
          (λ id other. ground (arith, same), λ name other. ground (arith, same))
    ]
