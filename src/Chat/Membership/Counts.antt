-- ===== src/Chat/Membership/Counts.antt =====
-- core/services/chat/src/components.rs: joining and leaving a channel, and the two counts.
use peace.Base.{
  ℕ, ◌+◌, ◌-◌, ◌%◌, ◌^◌, ◌<◌, ◌≡◌, refl, sym, subst, inl, inr, arith, length, true, false,
}
use peace.Base.{none, some, Option-cases, List, [], ◌∷◌, Exec, done}
use peace.Base.Keys.{nat_eq, beq_refl}
use peace.Base.HashMap.{HashMap, get, insert, remove, contains_key, IsMap, get-insert, get-remove}
use peace.Base.HashMap.{insert-IsMap, remove-IsMap, length-insert, length-remove}
use peace.Packets.Ids.{as_u8, bancho_channel_join_success, bancho_channel_kick}
use peace.Packets.Items.{text}
use peace.Packets.Items.Encoding.{packet-frame, frame, encodings}
use peace.Packets.Server.Channels.{channel_join, channel_kick}
use peace.PacketsQueue.{push_packet}
use peace.Chat.{Channel, ChatSession, JoinedChannel}
use peace.Chat.Membership.{enter, note_joined, leave, forget_joined, notify, join, remove_member}
use peace.Chat.Membership.{join_packets, kick_packets}

-- A channel and a session agree: each has one entry for the other or neither has one, no entry is
-- doubled, and the counts are the numbers of entries.
pub record Agree (session : ChatSession) (channel : Channel) : Type 0 where
  pub both :
      contains_key session.base.user_id channel.users
      ≡ contains_key channel.id session.joined_channels
  pub users : IsMap channel.users
  pub joined : IsMap session.joined_channels
  pub user_count : channel.user_count ≡ length channel.users % 2 ^ 32
  pub channel_count : session.channel_count ≡ length session.joined_channels % 2 ^ 32

-- What `notify` changes is the queue of packets only.
Same : ChatSession → ChatSession → Type 0
Same s t =
    (s.base ≡ t.base)
    × (s.joined_channels ≡ t.joined_channels)
    × (s.channel_count ≡ t.channel_count)

notify-Same :
    (s : ChatSession) (packets : Exec (List ℕ)) (bytes : List ℕ)
    → packets ≡ done bytes
    → (t : ChatSession) × (notify s packets ≡ done t) × Same t s
unfolding notify Same
notify-Same s packets bytes e = elim (Option-cases s.bancho_ext) [
  | inl absent ↦ (s, ground (arith, absent), (refl, refl, refl))
  | inr (ext, found) ↦ (
    record s {
      bancho_ext = some (record ext { packets_queue = (push_packet ext.packets_queue bytes).0 });
    },
    ground (arith, found, e),
    (refl, refl, refl),
  )
]

Agree-Same : (s t : ChatSession) (c : Channel) → Same t s → Agree s c → Agree t c
unfolding Same
Agree-Same s t c (base, joined, count) a = record {
  both = ground (arith, base, joined, a.both);
  users = a.users;
  joined = subst IsMap (sym joined) a.joined;
  user_count = a.user_count;
  channel_count = ground (arith, count, joined, a.channel_count);
}

-- One more entry, and one more counted.
insert-count :
    {V : Type 0} (k : ℕ) (v : V) (m : HashMap ℕ V) (n : ℕ)
    → get k m ≡ none
    → n ≡ length m % 2 ^ 32
    → (n + 1) % 2 ^ 32 ≡ length (insert k v m) % 2 ^ 32
insert-count k v m n fresh h =
    let longer : length (insert k v m) ≡ length m + 1 =
      ground (arith, length-insert k v m, fresh) in
    omega (arith, longer, h)

remove-count :
    {V : Type 0} (k : ℕ) (v : V) (m : HashMap ℕ V) (n : ℕ)
    → IsMap m
    → get k m ≡ some v
    → n ≡ length m % 2 ^ 32
    → (n + (2 ^ 32 - 1)) % 2 ^ 32 ≡ length (remove k m) % 2 ^ 32
remove-count k v m n one there h =
    let shorter : length (remove k m) + 1 ≡ length m =
      ground (arith, length-remove k m one, there) in
    omega (arith, shorter, h)

has-insert : {V : Type 0} (k : ℕ) (v : V) (m : HashMap ℕ V) → contains_key k (insert k v m) ≡ true
unfolding contains_key
has-insert k v m = ground (arith, get-insert k k v m, beq_refl k)

has-remove : {V : Type 0} (k : ℕ) (m : HashMap ℕ V) → contains_key k (remove k m) ≡ false
unfolding contains_key
has-remove k m = ground (arith, get-remove k k m, beq_refl k)

enter_lem :
    (c : Channel) (s : ChatSession)
    → IsMap c.users
    → c.user_count ≡ length c.users % 2 ^ 32
    → IsMap (enter c s).users
      × ((enter c s).user_count ≡ length (enter c s).users % 2 ^ 32)
      × (contains_key s.base.user_id (enter c s).users ≡ true)
      × ((enter c s).id ≡ c.id)
      × ((enter c s).name ≡ c.name)
unfolding enter contains_key
enter_lem c s one n = elim (Option-cases (get s.base.user_id c.users)) [
  | inl absent ↦
      rw (absent, enter)
        (
          insert-IsMap s.base.user_id (some s.base.id) c.users one,
          insert-count s.base.user_id (some s.base.id) c.users c.user_count absent n,
          has-insert s.base.user_id (some s.base.id) c.users,
          refl,
          refl,
        )
  | inr (v, found) ↦ rw (found, enter) (one, n, ground (arith, found), refl, refl)
]

leave_lem :
    (c : Channel) (s : ChatSession)
    → IsMap c.users
    → c.user_count ≡ length c.users % 2 ^ 32
    → IsMap (leave c s).users
      × ((leave c s).user_count ≡ length (leave c s).users % 2 ^ 32)
      × (contains_key s.base.user_id (leave c s).users ≡ false)
      × ((leave c s).id ≡ c.id)
      × ((leave c s).name ≡ c.name)
unfolding leave contains_key
leave_lem c s one n = elim (Option-cases (get s.base.user_id c.users)) [
  | inl absent ↦ rw (absent, leave) (one, n, ground (arith, absent), refl, refl)
  | inr (v, found) ↦
      rw (found, leave)
        (
          remove-IsMap s.base.user_id c.users one,
          remove-count s.base.user_id v c.users c.user_count one found n,
          has-remove s.base.user_id c.users,
          refl,
          refl,
        )
]

note_joined_lem :
    (s : ChatSession) (id ptr new_id now : ℕ)
    → IsMap s.joined_channels
    → s.channel_count ≡ length s.joined_channels % 2 ^ 32
    → IsMap (note_joined s id ptr new_id now).joined_channels
      × ((note_joined s id ptr new_id now).channel_count
          ≡ length (note_joined s id ptr new_id now).joined_channels % 2 ^ 32)
      × (contains_key id (note_joined s id ptr new_id now).joined_channels ≡ true)
      × ((note_joined s id ptr new_id now).base ≡ s.base)
unfolding note_joined contains_key
note_joined_lem s id ptr new_id now one n =
    let j : JoinedChannel = record { ptr = ptr; message_index = new_id; joined_time = now } in
    elim (Option-cases (get id s.joined_channels)) [
      | inl absent ↦
          rw (absent, note_joined)
            (
              insert-IsMap id j s.joined_channels one,
              insert-count id j s.joined_channels s.channel_count absent n,
              has-insert id j s.joined_channels,
              refl,
            )
      | inr (v, found) ↦ rw (found, note_joined) (one, n, ground (arith, found), refl)
    ]

forget_joined_lem :
    (s : ChatSession) (id : ℕ)
    → IsMap s.joined_channels
    → s.channel_count ≡ length s.joined_channels % 2 ^ 32
    → IsMap (forget_joined s id).joined_channels
      × ((forget_joined s id).channel_count ≡ length (forget_joined s id).joined_channels % 2 ^ 32)
      × (contains_key id (forget_joined s id).joined_channels ≡ false)
      × ((forget_joined s id).base ≡ s.base)
unfolding forget_joined contains_key
forget_joined_lem s id one n = elim (Option-cases (get id s.joined_channels)) [
  | inl absent ↦ rw (absent, forget_joined) (one, n, ground (arith, absent), refl)
  | inr (v, found) ↦
      rw (found, forget_joined)
        (
          remove-IsMap id s.joined_channels one,
          remove-count id v s.joined_channels s.channel_count one found n,
          has-remove id s.joined_channels,
          refl,
        )
]

-- `join` returns where the name of the channel has less than 2 ^ 32 bytes. If channel and session
-- agree before (each has one entry for the other or neither has, and the counts are the numbers of
-- entries), they agree after, and the user is in the channel, also where it was there before.
pub join-Agree :
    (s : ChatSession) (c : Channel) (ptr new_id now : ℕ)
    → length c.name < 2 ^ 32
    → Agree s c
    → (s' : ChatSession) × (c' : Channel) × (join s c ptr new_id now ≡ done (s', c'))
      × Agree s' c'
      × (contains_key s.base.user_id c'.users ≡ true)
unfolding join join_packets channel_join
join-Agree s c ptr new_id now short a =
    let (one, n, there, id, name) = enter_lem c s a.users a.user_count in
    let (jone, jn, jthere, base) = note_joined_lem s c.id ptr new_id now a.joined a.channel_count in
    let sent =
      packet-frame bancho_channel_join_success (text (enter c s).name ∷ [])
        (subst (λ x. length x < 2 ^ 32) (sym name) short, tt) in
    let (t, e, same) =
      notify-Same (note_joined s c.id ptr new_id now) (join_packets (enter c s))
        (frame (as_u8 bancho_channel_join_success) (encodings (text (enter c s).name ∷ []))) sent in
    let agree : Agree (note_joined s c.id ptr new_id now) (enter c s) = record {
      both = ground (arith, there, jthere, id, base);
      users = one;
      joined = jone;
      user_count = n;
      channel_count = jn;
    } in
    (
      t,
      enter c s,
      rw e refl,
      Agree-Same (note_joined s c.id ptr new_id now) t (enter c s) same agree,
      there,
    )

-- `remove` returns where the name of the channel has less than 2 ^ 32 bytes. If channel and session
-- agree before, they agree after, and the user is not in the channel, also where it was not before.
pub remove_member-Agree :
    (s : ChatSession) (c : Channel)
    → length c.name < 2 ^ 32
    → Agree s c
    → (s' : ChatSession) × (c' : Channel) × (remove_member s c ≡ done (s', c'))
      × Agree s' c'
      × (contains_key s.base.user_id c'.users ≡ false)
unfolding remove_member kick_packets channel_kick
remove_member-Agree s c short a =
    let (one, n, gone, id, name) = leave_lem c s a.users a.user_count in
    let (jone, jn, jgone, base) = forget_joined_lem s c.id a.joined a.channel_count in
    let sent =
      packet-frame bancho_channel_kick (text (leave c s).name ∷ [])
        (subst (λ x. length x < 2 ^ 32) (sym name) short, tt) in
    let (t, e, same) =
      notify-Same (forget_joined s c.id) (kick_packets (leave c s))
        (frame (as_u8 bancho_channel_kick) (encodings (text (leave c s).name ∷ []))) sent in
    let agree : Agree (forget_joined s c.id) (leave c s) = record {
      both = ground (arith, gone, jgone, id, base);
      users = one;
      joined = jone;
      user_count = n;
      channel_count = jn;
    } in
    (t, leave c s, rw e refl, Agree-Same (forget_joined s c.id) t (leave c s) same agree, gone)
