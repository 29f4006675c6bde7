-- ===== src/Packets/Ids/RoundTrip.antt =====
-- The ids and their numbers.
use peace.Base.{ℕ, ◌<◌, ◌==◌, ◌≡◌, refl, ap, arith, ◌⊎◌, inl, inr, none, some, List, [], ◌∷◌}
use peace.Base.{◌≢◌, Bool-cases, ==_iff}
use peace.Packets.Ids.{PacketId, osu_user_change_action, osu_unknown_packet}
use peace.Packets.Ids.{as_u8, new, try_from, or_unknown, find_id, variants}

find_id-as_u8 : (id : PacketId) → find_id (as_u8 id) variants ≡ some id
unfolding try_from
find_id-as_u8 osu_user_change_action = refl
find_id-as_u8 _ = refl

new_lem : (value : ℕ) → new value ≡ or_unknown (find_id value variants)
unfolding new
new_lem value = refl

-- `PacketId::new` reads every packet id back from its number, and that number is a byte.
pub new-as_u8 : (id : PacketId) → (new (as_u8 id) ≡ id) × (as_u8 id < 256)
unfolding new
new-as_u8 osu_user_change_action = (refl, omega arith)
new-as_u8 _ = (refl, omega arith)

find_id_cases :
    (value : ℕ) (ids : List PacketId)
    → (find_id value ids ≡ none)
      ⊎ ((id : PacketId) × (find_id value ids ≡ some id) × (as_u8 id ≡ value))
unfolding find_id
find_id_cases value [] = inl refl
find_id_cases value (id ∷ ids) = elim (Bool-cases (as_u8 id == value)) [
  | inl e ↦ inr (id, ground (arith, e), (==_iff _ _).0 e)
  | inr e ↦ elim (find_id_cases value ids) [
    | inl r ↦ inl (ground (arith, e))
    | inr (id', r, n) ↦ inr (id', ground (arith, e), n)
  ]
]

-- `PacketId::new` of a number is the variant with that number, or `OSU_UNKNOWN_PACKET` where no
-- variant has that number.
pub new_cases :
    (value : ℕ)
    → (as_u8 (new value) ≡ value)
      ⊎ ((new value ≡ osu_unknown_packet) × ((id : PacketId) → as_u8 id ≢ value))
new_cases value = elim (find_id_cases value variants) [
  | inl r ↦
      inr (rw (new_lem, r), λ id e. cc (r, ap (λ (v : ℕ). find_id v variants) e, find_id-as_u8 id))
  | inr (id, r, n) ↦ inl (rw (new_lem, r) n)
]
