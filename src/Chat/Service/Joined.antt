-- ===== src/Chat/Service/Joined.antt =====
-- core/services/chat/src/services/chat.rs: a user who has joined a channel gets what is sent to it.
use peace.Base.{ℕ, ◌^◌, ◌<◌, ◌≤◌, ◌==◌, length, false, true, ◌≡◌, refl, sym, subst, arith}
use peace.Base.{none, some, List, [], ◌∷◌, done}
use peace.Base.Keys.{nat_eq, beq_refl}
use peace.Base.HashMap.{HashMap, get, insert, get-insert}
use peace.Base.Outcome.{ok}
use peace.BanchoState.Queries.{success}
use peace.Chat.{Channel, ChatSession, BanchoChatExt, JoinedChannel}
use peace.Chat.Membership.{enter, note_joined, notify, join, join_packets}
use peace.Chat.Service.{State, Fresh, deref, channel_is_alive}
use peace.Chat.Service.Calls.{put_back, join_at, send_to_channel}
use peace.Chat.Service.Dequeue.{dequeue_at}
use peace.Chat.Service.Reading.{NotIn, Apart}
use peace.Chat.Service.Delivered.{Contains, Short, send_to_channel-delivered}
use peace.Packets.Ids.{as_u8, bancho_channel_join_success}
use peace.Packets.Items.{text}
use peace.Packets.Items.Encoding.{packet-frame, frame, encodings}
use peace.Packets.Server.Channels.{channel_join, send_message as pack_message}
use peace.PacketsQueue.{Packet, push_packet}

join_packets-done :
    (ch : Channel) → length ch.name < 2 ^ 32 → (packet : Packet) × (join_packets ch ≡ done packet)
unfolding join_packets channel_join
join_packets-done ch short = (
  frame (as_u8 bancho_channel_join_success) (encodings (text ch.name ∷ [])),
  packet-frame bancho_channel_join_success (text ch.name ∷ []) (short, tt),
)

-- The session and the channel after a user with a bancho client has joined it anew.
record JoinedNow (st' st : State) (fresh : Fresh) (b c : ℕ) : Type 0 where
  ext : BanchoChatExt
  has_ext : (st'.sessions b).bancho_ext ≡ some ext
  noted :
      (st'.sessions b).joined_channels
      ≡ insert
          (st.channel_at c).id
          (record { ptr = c; message_index = fresh.index; joined_time = fresh.now })
          (st.sessions b).joined_channels
  bases : (d : ℕ) → deref st' d ≡ deref st d
  names :
      (d : ℕ)
      → ((st'.channel_at d).name ≡ (st.channel_at d).name)
        × ((st'.channel_at d).description ≡ (st.channel_at d).description)
  channels : st'.channels ≡ st.channels

enter-names :
    (ch : Channel) (s : ChatSession)
    → ((enter ch s).name ≡ ch.name) × ((enter ch s).description ≡ ch.description)
unfolding enter
enter-names ch s = ground arith

note_joined-new :
    (s : ChatSession) (id c index now : ℕ)
    → get id s.joined_channels ≡ none
    → ((note_joined s id c index now).joined_channels
        ≡ insert id
            (record { ptr = c; message_index = index; joined_time = now })
            s.joined_channels)
      × ((note_joined s id c index now).base ≡ s.base)
      × ((note_joined s id c index now).bancho_ext ≡ s.bancho_ext)
unfolding note_joined
note_joined-new s id c index now absent = rw (absent, note_joined) (refl, refl, refl)

-- The bancho client with the packet, and the session with it.
abbrev with_packet : BanchoChatExt → Packet → BanchoChatExt
with_packet ext packet = record ext { packets_queue = (push_packet ext.packets_queue packet).0 }

join-done :
    (s : ChatSession) (ch : Channel) (c index now : ℕ) (ext : BanchoChatExt) (packet : Packet)
    → s.bancho_ext ≡ some ext
    → get ch.id s.joined_channels ≡ none
    → join_packets (enter ch s) ≡ done packet
    → join s ch c index now
      ≡ done (
        record (note_joined s ch.id c index now) { bancho_ext = some (with_packet ext packet) },
        enter ch s,
      )
unfolding join notify
join-done s ch c index now ext packet found absent packed =
    ground (arith, found, packed, note_joined-new s ch.id c index now absent)

NotIn-insert :
    (c id : ℕ) (j : JoinedChannel) (js : HashMap ℕ JoinedChannel)
    → (c == j.ptr) ≡ false
    → NotIn c js
    → NotIn c (insert id j js)
unfolding insert
NotIn-insert c id j [] other h = (other, tt)
NotIn-insert c id j ((k, i) ∷ js) other h =
    ground (arith, other, h, NotIn-insert c id j js other h.1)

Apart-insert :
    (id : ℕ) (j : JoinedChannel) (js : HashMap ℕ JoinedChannel)
    → get id js ≡ none
    → NotIn j.ptr js
    → Apart js
    → Apart (insert id j js)
unfolding insert get
Apart-insert id j [] absent notin apart = (tt, tt)
Apart-insert id j ((k, i) ∷ js) absent (other, notin) (first, apart) =
    let flipped : (i.ptr == j.ptr) ≡ false =
      ground (arith, other, nat_eq.beq_iff j.ptr i.ptr, nat_eq.beq_iff i.ptr j.ptr) in
    let new : (k == id) ≡ false = ground (arith, absent) in
    let absent' : get id js ≡ none = ground (arith, absent, new) in
    rw new (NotIn-insert i.ptr id j js flipped first, Apart-insert id j js absent' notin apart)

put_back-JoinedNow :
    (st : State) (fresh : Fresh) (b c : ℕ) (ext : BanchoChatExt)
    → get (st.channel_at c).id (st.sessions b).joined_channels ≡ none
    → JoinedNow
        (put_back st b c fresh.now (
          record (note_joined (st.sessions b) (st.channel_at c).id c fresh.index fresh.now) {
            bancho_ext = some ext;
          },
          enter (st.channel_at c) (st.sessions b),
        ))
        st
        fresh
        b
        c
put_back-JoinedNow st fresh b c ext absent =
    let s = st.sessions b in
    let ch = st.channel_at c in
    let (joined, base, _) = note_joined-new s ch.id c fresh.index fresh.now absent in
    let same = enter-names ch s in
    record {
      ext = ext;
      has_ext = ground (arith, beq_refl b);
      noted = ground (arith, beq_refl b, joined);
      bases = λ d. ground (arith, base, nat_eq.beq_iff b d);
      names = λ d. ground (arith, same, nat_eq.beq_iff c d);
      channels = refl;
    }

join_at-JoinedNow :
    (st : State) (fresh : Fresh) (b c : ℕ) (ext : BanchoChatExt)
    → (st.sessions b).bancho_ext ≡ some ext
    → get (st.channel_at c).id (st.sessions b).joined_channels ≡ none
    → length (st.channel_at c).name < 2 ^ 32
    → ((join_at st fresh b c).1 ≡ ok success) × JoinedNow (join_at st fresh b c).0 st fresh b c
unfolding join_at
join_at-JoinedNow st fresh b c ext found absent short =
    let s = st.sessions b in
    let ch = st.channel_at c in
    let named = (enter-names ch s).0 in
    let (packet, packed) =
      join_packets-done (enter ch s) (subst (λ n. length n < 2 ^ 32) (sym named) short) in
    rw (join-done s ch c fresh.index fresh.now ext packet found absent packed, join_at)
      (refl, put_back-JoinedNow st fresh b c (with_packet ext packet) absent)

-- Where a user with a bancho client, who has joined no channel under two ids, joins a channel that is
-- there and that the user has not joined, and the names and descriptions of the channels have less than 2 ^ 32 bytes: the call
-- succeeds, and a message that another user then sends to the channel, with an id that is not older
-- than the one that joining made, stands in what the next call returns for the user.
pub join_at-send-dequeue :
    (st : State) (fresh : Fresh) (a b c index : ℕ) (message : List ℕ) (packet : Packet)
    (ext : BanchoChatExt)
    → (st.sessions b).bancho_ext ≡ some ext
    → get (st.channel_at c).id (st.sessions b).joined_channels ≡ none
    → NotIn c (st.sessions b).joined_channels
    → Apart (st.sessions b).joined_channels
    → ((d : ℕ) → Short (st.channel_at d))
    → channel_is_alive st c ≡ true
    → ((deref st a).user_id == (deref st b).user_id) ≡ false
    → fresh.index ≤ index
    → pack_message (deref st a).username message (st.channel_at c).name (deref st a).user_id
      ≡ done packet
    → ((join_at st fresh b c).1 ≡ ok success)
      × (data' : List ℕ) × ((dequeue_at
            (send_to_channel (join_at st fresh b c).0 index a message c).0
            b).1
          ≡ ok data')
      × Contains packet data'
unfolding channel_is_alive
join_at-send-dequeue st fresh a b c index message packet ext found absent notin apart short alive
      other young packed =
    let id = (st.channel_at c).id in
    let (joined_it, n) = join_at-JoinedNow st fresh b c ext found absent (short c).0 in
    let st' = (join_at st fresh b c).0 in
    let j : JoinedChannel = record {
      ptr = c;
      message_index = fresh.index;
      joined_time = fresh.now;
    } in
    let apart' : Apart (st'.sessions b).joined_channels =
      subst Apart (sym n.noted)
        (Apart-insert id j (st.sessions b).joined_channels absent notin apart) in
    let short' : (d : ℕ) → Short (st'.channel_at d) = (λ d. ground (arith, n.names d, short d)) in
    let there : get id (st'.sessions b).joined_channels ≡ some j =
      ground (arith, n.noted, get-insert id id j (st.sessions b).joined_channels, beq_refl id) in
    let (data', got, there') =
      send_to_channel-delivered st' index a b c id message packet n.ext j n.has_ext apart' short'
        (ground (arith, n.bases a, n.bases b, other)) there refl (ground (arith, n.channels, alive))
        young (ground (arith, n.bases a, n.names c, packed)) in
    (joined_it, data', got, there')
