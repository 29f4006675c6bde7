-- ===== src/Chat/Channels/Indexed.antt =====
-- core/services/chat/src/components.rs: the three maps of the channels agree, and `len` counts them.
use peace.Base.{ℕ, ◌+◌, ◌%◌, ◌^◌, ◌≡◌, refl, subst, inl, inr, arith, length}
use peace.Base.{Bool, true, false, if◌then◌else◌, Option, none, some, Option-cases}
use peace.Base.Keys.{nat_eq, text_eq}
use peace.Base.HashMap.{get, insert, remove, IsMap, get-insert, get-remove}
use peace.Base.HashMap.{insert-IsMap, remove-IsMap, length-insert, length-remove}
use peace.Base.Indexes.{Owned, Owned-add, Owned-drop, Sub-remove, gone-remove}
use peace.Users.{Text}
use peace.Users.Store.{or_else}
use peace.Chat.{Channel, is_public}
use peace.Chat.Channels.{
  ChannelIndexes, Channels, ChannelQuery, by_id, by_name, no_channels, add_channel,
}
use peace.Chat.Channels.{remove_from_indexes, remove_channel_inner, get_channel_inner, added}
use peace.Chat.Channels.{create_channel_inner, create_channel, remove_channel, clear_all_channels}

module _ {T : Type 0} (deref : T → Channel) where
  abbrev pub id_of : T → ℕ
  id_of c = (deref c).id

  abbrev pub name_of : T → Text
  name_of c = (deref c).name

  -- The channel, where it is public.
  abbrev pub if_public : Option T → Option T
  if_public none = none
  if_public (some c) = if is_public (deref c).channel_type then some c else none

  -- Every entry stands under its channel's key and belongs to the channel of that id; the public
  -- channels are those of the channels that are public; a channel has one entry, and `len` counts them.
  pub record Indexed (channels : Channels T) : Type 0 where
    pub ids : Owned id_of id_of channels.indexes.channel_id channels.indexes.channel_id
    pub names : Owned id_of name_of channels.indexes.channel_name channels.indexes.channel_id
    pub public_ones :
        (k : ℕ)
        → get k channels.indexes.public_channels ≡ if_public (get k channels.indexes.channel_id)
    pub one_entry : IsMap channels.indexes.channel_id
    pub count : channels.len ≡ length channels.indexes.channel_id % 2 ^ 64

  remove_from_indexes-some :
      (x : ChannelIndexes T) (c : T)
      → get (deref c).id x.channel_id ≡ some c
      → (d : T) × ((remove_from_indexes x (deref c).id (deref c).name).1 ≡ some d)
  unfolding remove_from_indexes
  remove_from_indexes-some x c h =
      rw (h, or_else)
        (later (get (deref c).id x.public_channels) (get (deref c).name x.channel_name) c)
    where
      later : (a b : Option T) (c : T) → (d : T) × (or_else a (or_else b (some c)) ≡ some d)
      later (some a) b c = (a, refl)
      later none (some b) c = (b, refl)
      later none none c = (c, refl)

  remove_channel_inner-Indexed :
      (channels : Channels T) (c : T)
      → Indexed channels
      → get (deref c).id channels.indexes.channel_id ≡ some c
      → Indexed (remove_channel_inner channels (deref c).id (deref c).name).0
  unfolding remove_channel_inner remove_from_indexes
  remove_channel_inner-Indexed channels c i h =
      let x = channels.indexes in
      let (d, some_removed) = remove_from_indexes-some x c h in
      let shorter : length (remove (deref c).id x.channel_id) + 1 ≡ length x.channel_id =
        ground (arith, length-remove (deref c).id x.channel_id i.one_entry, h) in
      record {
        ids =
            Owned-drop id_of id_of x.channel_id (remove (deref c).id x.channel_id) x.channel_id c
              i.ids h (Sub-remove (deref c).id x.channel_id)
              (gone-remove (deref c).id x.channel_id);
        names =
            Owned-drop id_of name_of x.channel_name (remove (deref c).name x.channel_name)
              x.channel_id c i.names h (Sub-remove (deref c).name x.channel_name)
              (gone-remove (deref c).name x.channel_name);
        public_ones = λ k. ground (
          arith,
          get-remove (deref c).id k x.public_channels,
          get-remove (deref c).id k x.channel_id,
          i.public_ones k,
        );
        one_entry = remove-IsMap (deref c).id x.channel_id i.one_entry;
        count = rw (some_removed, remove_channel_inner) (omega (arith, i.count, shorter));
      }

  added-Indexed :
      (channels : Channels T) (c : T)
      → Indexed channels
      → get (deref c).id channels.indexes.channel_id ≡ none
      → Indexed (added deref channels c)
  unfolding add_channel
  added-Indexed channels c i fresh =
      let x = channels.indexes in
      let longer : length (insert (deref c).id c x.channel_id) ≡ length x.channel_id + 1 =
        ground (arith, length-insert (deref c).id c x.channel_id, fresh) in
      record {
        ids = Owned-add id_of id_of x.channel_id x.channel_id c i.ids fresh;
        names = Owned-add id_of name_of x.channel_name x.channel_id c i.names fresh;
        public_ones = λ k. ground (
          arith,
          get-insert (deref c).id k c x.public_channels,
          get-insert (deref c).id k c x.channel_id,
          i.public_ones k,
          fresh,
          nat_eq.beq_iff (deref c).id k,
        );
        one_entry = insert-IsMap (deref c).id c x.channel_id i.one_entry;
        count = omega (arith, i.count, longer);
      }

  gone-remove_channel_inner :
      (channels : Channels T) (c : T)
      → get
          (deref c).id
          (remove_channel_inner channels (deref c).id (deref c).name).0.indexes.channel_id
        ≡ none
  unfolding remove_channel_inner remove_from_indexes
  gone-remove_channel_inner channels c = gone-remove (deref c).id channels.indexes.channel_id

  replaced-Indexed :
      (channels : Channels T) (old c : T) (replace_if_exists : Bool)
      → Indexed channels
      → get (deref c).id channels.indexes.channel_id ≡ some old
      → Indexed (
          if replace_if_exists
          then added deref (remove_channel_inner channels (deref old).id (deref old).name).0 c
          else channels)
  replaced-Indexed channels old c false i found = i
  replaced-Indexed channels old c true i found =
      let owner = i.ids (deref c).id old found in
      added-Indexed (remove_channel_inner channels (deref old).id (deref old).name).0 c
        (remove_channel_inner-Indexed channels old i owner.1)
        (subst
          (λ k.
            get k
              (remove_channel_inner channels (deref old).id (deref old).name).0.indexes.channel_id
            ≡ none)
          owner.0 (gone-remove_channel_inner channels old))

  create_channel_inner-Indexed :
      (channels : Channels T) (c : T) (replace_if_exists : Bool)
      → Indexed channels
      → Indexed (create_channel_inner deref channels c replace_if_exists)
  unfolding create_channel_inner get_channel_inner
  create_channel_inner-Indexed channels c replace i =
      elim (Option-cases (get (deref c).id channels.indexes.channel_id)) [
        | inl absent ↦ rw (absent, create_channel_inner) (added-Indexed channels c i absent)
        | inr (old, found) ↦
            rw (found, create_channel_inner) (replaced-Indexed channels old c replace i found)
      ]

  get_channel_inner-id :
      (channels : Channels T) (query : ChannelQuery) (c : T)
      → Indexed channels
      → get_channel_inner channels.indexes query ≡ some c
      → get (deref c).id channels.indexes.channel_id ≡ some c
  unfolding get_channel_inner
  get_channel_inner-id channels (by_id k) c i h = (i.ids k c h).1
  get_channel_inner-id channels (by_name k) c i h = (i.names k c h).1

  remove_channel-Indexed :
      (channels : Channels T) (query : ChannelQuery)
      → Indexed channels
      → Indexed (remove_channel deref channels query).0
  unfolding remove_channel
  remove_channel-Indexed channels query i =
      elim (Option-cases (get_channel_inner channels.indexes query)) [
        | inl absent ↦ rw (absent, remove_channel) i
        | inr (c, found) ↦
            rw (found, remove_channel)
              (remove_channel_inner-Indexed channels c i
                (get_channel_inner-id channels query c i found))
      ]

  no_channels-Indexed : Indexed (record { indexes = no_channels; len = 0 })
  unfolding get
  no_channels-Indexed = record {
    ids = λ k c h. ground (arith, h);
    names = λ k c h. ground (arith, h);
    public_ones = λ k. refl;
    one_entry = tt;
    count = refl;
  }

  -- The channels that come out of any sequence of operations on no channels.
  pub data Reachable : Channels T → Type 0 where
    start : Reachable (record { indexes = no_channels; len = 0 })
    created :
        (channels : Channels T) (c : T) (replace_if_exists : Bool)
        → Reachable channels
        → Reachable (create_channel deref channels c replace_if_exists).0
    removed :
        (channels : Channels T) (query : ChannelQuery)
        → Reachable channels
        → Reachable (remove_channel deref channels query).0
    cleared : (channels : Channels T) → Reachable channels → Reachable (clear_all_channels channels)

  -- In all channels that operations can make, each entry of the maps stands under its channel's id or
  -- name and belongs to the channel of that id, the map of the public channels has exactly those of
  -- the channels that are public, each channel has one entry, and `len` is the number of channels.
  pub Reachable-Indexed : (channels : Channels T) → Reachable channels → Indexed channels
  unfolding create_channel clear_all_channels
  Reachable-Indexed x start = no_channels-Indexed
  Reachable-Indexed x (created channels c replace r) =
      create_channel_inner-Indexed channels c replace (Reachable-Indexed channels r)
  Reachable-Indexed x (removed channels query r) =
      remove_channel-Indexed channels query (Reachable-Indexed channels r)
  Reachable-Indexed x (cleared channels r) = no_channels-Indexed
