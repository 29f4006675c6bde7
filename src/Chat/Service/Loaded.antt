-- ===== src/Chat/Service/Loaded.antt =====
-- core/services/chat/src/services/chat.rs: what `load_public_channels` makes and what it leaves, and
-- that it makes it once.
use peace.Base.{ℕ, ◌≡◌, ◌≢◌, refl, ◌∙◌, arith}
use peace.Base.{none, some}
use peace.Base.Keys.{nat_eq, text_eq}
use peace.Base.HashMap.{get}
use peace.Chat.{Channel, public}
use peace.Chat.Membership.{new as new_channel}
use peace.Chat.Service.{State}
use peace.Chat.Service.Public.{
  store_channel, store_all, load_public_channels, public_channels, osu, default_channel, peace_name,
  peace_channel,
}
use peace.Chat.Service.Stored.{
  IsGiven, Keeps, IsThere, store_channel-known, store_channel-Keeps, store_channel-IsThere,
  store_channel-others,
}
use peace.Users.{Text}

-- The two channels that a call makes.
abbrev pub first_channel : ℕ → Channel
first_channel now = new_channel 0 osu public (some default_channel) none now

abbrev pub second_channel : ℕ → Channel
second_channel now = new_channel 1 peace_name public (some peace_channel) none now

-- What one call does.
record Loaded (st' st : State) (now : ℕ) : Type 0 where
  keeps : Keeps st' st
  given : IsGiven st'
  first : IsThere st' st 0 (first_channel now)
  second : IsThere st' st 1 (second_channel now)
  names :
      (name : Text)
      → name ≢ osu
      → name ≢ peace_name
      → get name st'.channels.indexes.channel_name ≡ get name st.channels.indexes.channel_name

store_all-Loaded :
    (st : State) (now : ℕ) → IsGiven st → Loaded (store_all st (public_channels now)) st now
unfolding store_all new_channel
store_all-Loaded st now given =
    let st1 = store_channel st (first_channel now) in
    let (keeps, given1) = store_channel-Keeps st (first_channel now) given in
    let (keeps1, given2) = store_channel-Keeps st1 (second_channel now) given1 in
    let (c, there, made) = store_channel-IsThere st (first_channel now) in
    let (d, there1, made1) = store_channel-IsThere st1 (second_channel now) in
    let (ids, names) = store_channel-others st (first_channel now) in
    let (_, names1) = store_channel-others st1 (second_channel now) in
    record {
      keeps = λ id b h. let (k, e) = keeps id b h in let (k1, e1) = keeps1 id b k in (k1, e1 ∙ e);
      given = given2;
      first = (c, (keeps1 0 c there).0, λ h. (keeps1 0 c there).1 ∙ made h);
      second = (d, there1, λ h. made1 (ids 1 refl ∙ h));
      names = λ name not_osu not_peace. names1 name not_peace ∙ names name not_osu;
    }

store_all-again :
    (st : State) (later c d : ℕ)
    → get 0 st.channels.indexes.channel_id ≡ some c
    → get 1 st.channels.indexes.channel_id ≡ some d
    → (store_all st (public_channels later)).channels ≡ st.channels
unfolding store_all new_channel
store_all-again st later c d zero_there one_there =
    let st1 = store_channel st (first_channel later) in
    let same = store_channel-known st (first_channel later) c zero_there in
    store_channel-known st1 (second_channel later) d (ground (arith, same, one_there)) ∙ same

-- Where all addresses of the index have been given out, each channel that is there before
-- `load_public_channels` is there after it, under its id, with the same contents; the channels 0 and
-- 1 are there after it, and are the two that the code describes where they were not there before;
-- and every other name than those two finds what it found. A second call, at whatever time, changes
-- neither the indexes nor the contents of any channel in them.
pub load_public_channels-once :
    (st : State) (now later : ℕ)
    → IsGiven st
    → Keeps (load_public_channels st now).0 st
      × IsThere (load_public_channels st now).0 st 0 (first_channel now)
      × IsThere (load_public_channels st now).0 st 1 (second_channel now)
      × ((name : Text)
          → name ≢ osu
          → name ≢ peace_name
          → get name (load_public_channels st now).0.channels.indexes.channel_name
            ≡ get name st.channels.indexes.channel_name)
      × ((load_public_channels (load_public_channels st now).0 later).0.channels
          ≡ (load_public_channels st now).0.channels)
      × Keeps
          (load_public_channels (load_public_channels st now).0 later).0
          (load_public_channels st now).0
unfolding load_public_channels
load_public_channels-once st now later given =
    let st' = store_all st (public_channels now) in
    let l = store_all-Loaded st now given in
    let again = store_all-Loaded st' later l.given in
    (
      l.keeps,
      l.first,
      l.second,
      l.names,
      store_all-again st' later l.first.0 l.second.0 l.first.1 l.second.1,
      again.keeps,
    )
