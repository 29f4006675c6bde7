-- ===== src/BanchoState/Service/Shards.antt =====
-- core/services/bancho_state/src/services/traits.rs: the ids of the users online, in the packets that
-- a new session gets.
use peace.BanchoState.Info.{Floats, user_info_packets}
use peace.BanchoState.Queries.{ok}
use peace.BanchoState.Session.{BanchoSession}
use peace.BanchoState.Service.Users.{chunks, presence_shard_size, bundles, pending_packets}
use peace.Packets.Ids.{as_u8, bancho_user_presence_bundle}
use peace.Packets.Items.{numbers}
use peace.Packets.Items.Encoding.{frame, encoding, encodings, packet-frame}
use peace.Packets.Server.Sessions.{user_presence_bundle}
use peace.Packets.Words.{to_le_bytes, numbers_bytes}
use peace.PacketsQueue.{Packet}
use peace.Base.{◌%◌, ◌^◌, map, append-nil, done}
use peace.Base.{
  ℕ, zero, suc, ◌≤◌, ◌<◌, ◌≡◌, refl, ap, ◌∙◌, arith, List, [], ◌∷◌, ◌++◌, length, take, drop, All,
  length-drop,
}

unfoldable pub concat {ℓ} : {A : Type ℓ} → List (List A) → List A
concat [] = []
concat (xs ∷ xss) = xs ++ concat xss

-- A shard holds between one id and `size`.
abbrev pub IsShard : {A : Type 0} → ℕ → List A → Type 0
IsShard size xs = (0 < length xs) × (length xs ≤ size)

take-drop : {A : Type 0} (n : ℕ) (xs : List A) → take n xs ++ drop n xs ≡ xs
take-drop zero xs = refl
take-drop (suc n) [] = refl
take-drop (suc n) (x ∷ xs) = ap (λ ys. x ∷ ys) (take-drop n xs)

length-take_le : {A : Type 0} (n : ℕ) (xs : List A) → length (take n xs) ≤ n
length-take_le zero xs = omega arith
length-take_le (suc n) [] = omega arith
length-take_le (suc n) (x ∷ xs) = omega (arith, length-take_le n xs)

-- The chunks of a list are, one after the other, the list, and each of them has between one element
-- and `size` of them: enough fuel is the length of the list.
chunks-concat :
    {A : Type 0} (n fuel : ℕ) (xs : List A)
    → length xs ≤ fuel
    → (concat (chunks (suc n) fuel xs) ≡ xs) × All (IsShard (suc n)) (chunks (suc n) fuel xs)
unfolding chunks concat
chunks-concat n zero [] h = (refl, tt)
chunks-concat n zero (x ∷ xs) h = absurd (omega arith)
chunks-concat n (suc fuel) [] h = (refl, tt)
chunks-concat n (suc fuel) (x ∷ xs) h =
    let (joined, all) = chunks-concat n fuel (drop n xs) (omega (arith, length-drop n xs)) in
    (
      ap (λ ys. x ∷ (take n xs ++ ys)) joined ∙ ap (λ ys. x ∷ ys) (take-drop n xs),
      ((omega arith, omega (arith, length-take_le n xs)), all),
    )

-- What a client reads as the ids of a shard: their number, in two bytes, and four bytes of each.
abbrev pub bundle_of : List ℕ → Packet
bundle_of shard =
    frame (as_u8 bancho_user_presence_bundle)
      (to_le_bytes 2 (length shard) ++ numbers_bytes 4 shard)

bundle_of-packed :
    (shard : List ℕ)
    → IsShard presence_shard_size shard
    → user_presence_bundle shard ≡ done (bundle_of shard)
unfolding user_presence_bundle encodings encoding
bundle_of-packed shard (some_ids, small) =
    let exact : length shard % 2 ^ 16 ≡ length shard = omega (arith, small) in
    packet-frame bancho_user_presence_bundle (numbers 4 shard ∷ []) (tt, tt)
    ∙ ap
        (λ n. done (
          frame (as_u8 bancho_user_presence_bundle)
            (to_le_bytes 2 n ++ numbers_bytes 4 shard ++ [])))
        exact
    ∙ ap (λ xs. done (frame (as_u8 bancho_user_presence_bundle) xs))
        (append-nil (to_le_bytes 2 (length shard) ++ numbers_bytes 4 shard))

bundles-map :
    (shards : List (List ℕ))
    → All (IsShard presence_shard_size) shards
    → bundles shards ≡ ok (map bundle_of shards)
unfolding bundles
bundles-map [] all = refl
bundles-map (shard ∷ shards) (small, all) =
    ground (arith, bundle_of-packed shard small, bundles-map shards all)

-- What waits for a new session whose own packet can be written: that packet, and then packets with
-- the ids of the users online. Each of these has between 1 and 512 ids, so that their number, which
-- has two bytes, is never cut off; together they have all the ids once, in their order.
pub pending_packets-shards :
    (floats : Floats) (session : BanchoSession) (online_users : List ℕ) (session_info : Packet)
    → user_info_packets floats session ≡ done session_info
    → (shards : List (List ℕ)) × (pending_packets floats session online_users
        ≡ ok (session_info ∷ map bundle_of shards))
      × (concat shards ≡ online_users)
      × All (IsShard presence_shard_size) shards
unfolding pending_packets
pending_packets-shards floats session online_users session_info packed =
    let shards = chunks presence_shard_size (length online_users) online_users in
    let (whole, all) = chunks-concat 511 (length online_users) online_users (omega arith) in
    (shards, ground (arith, packed, bundles-map shards all), whole, all)
