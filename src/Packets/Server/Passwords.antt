-- ===== src/Packets/Server/Passwords.antt =====
-- lib/bancho-packets: the password of a multiplayer match in the packets about it.
use peace.Base.{
  ℕ, ◌%◌, ◌<◌, ◌^◌, ◌≡◌, ◌≢◌, refl, sym, ap, ◌∙◌, arith, Option, none, some, List, [], ◌∷◌, ◌++◌,
  length, drop,
}
use peace.Base.{Exec, done, panic, true}
use mathlib.Core.List.{append_cancel_left, append_cancel_right}
use peace.Packets.Ids.{bancho_new_match, as_u8}
use peace.Packets.Words.{to_le_bytes}
use peace.Packets.Uleb.{uleb128_to_u32}
use peace.Packets.Uleb.Encode.{groups}
use peace.Packets.Uleb.Decode.{uleb128_to_u32-groups}
use peace.Packets.Items.{Value, number, boolean, bytes, text, numbers}
use peace.Packets.Items.Encoding.{
  frame, encoding, encodings, text_encoding, packet-frame, write_value-encoding,
}
use peace.Packets.Server.{Text, MatchData, match_values, update_match, new_match}

-- The texts of a match have less than 2 ^ 32 bytes.
pub record IsMatch (m : MatchData) : Type 0 where
  pub match_name : length m.match_name < 2 ^ 32
  pub beatmap_name : length m.beatmap_name < 2 ^ 32
  pub beatmap_md5 : length m.beatmap_md5 < 2 ^ 32

-- What stands before the password and behind it.
rest_of : MatchData → List Value
rest_of d =
    text d.beatmap_name
    ∷ number 4 d.beatmap_id
    ∷ text d.beatmap_md5
    ∷ bytes d.slot_status
    ∷ bytes d.slot_teams
    ∷ numbers 4 d.slot_players
    ∷ number 4 d.host_player_id
    ∷ number 1 d.match_game_mode
    ∷ number 1 d.win_condition
    ∷ number 1 d.team_type
    ∷ boolean d.freemods
    ∷ numbers 4 d.player_mods
    ∷ number 4 d.match_seed
    ∷ []

values_with : MatchData → List ℕ → List Value
values_with d raw =
    number 2 (d.match_id % 2 ^ 16)
    ∷ boolean d.in_progress
    ∷ number 1 d.match_type
    ∷ number 4 d.play_mods
    ∷ text d.match_name
    ∷ bytes raw
    ∷ rest_of d

new_match-frame :
    (m : MatchData) (password : Text)
    → IsMatch m
    → length password < 2 ^ 32
    → new_match (record m { password = some password })
      ≡ done (frame (as_u8 bancho_new_match) (encodings (values_with m (text_encoding password))))
unfolding new_match match_values values_with rest_of encoding
new_match-frame m password h short = rw (write_value-encoding (text password) [] short) (
    packet-frame bancho_new_match (values_with m (text_encoding password)) (
      tt,
      (
        tt,
        (
          tt,
          (
            tt,
            (
              h.match_name,
              (
                tt,
                (
                  h.beatmap_name,
                  (
                    tt,
                    (h.beatmap_md5, (tt, (tt, (tt, (tt, (tt, (tt, (tt, (tt, (tt, (tt, tt))))))))))),
                  ),
                ),
              ),
            ),
          ),
        ),
      ),
    ))

values_with-injective :
    (m : MatchData) (xs ys : List ℕ)
    → encodings (values_with m xs) ≡ encodings (values_with m ys)
    → xs ≡ ys
unfolding values_with encodings encoding to_le_bytes
values_with-injective m xs ys e =
    let behind = encodings (rest_of m) in
    let front = text_encoding m.match_name in
    append_cancel_right xs ys behind
      (append_cancel_left front (xs ++ behind) (ys ++ behind) (ap (drop 8) e))

payload : Exec (List ℕ) → List ℕ
payload panic = []
payload (done buf) = drop 7 buf

frame-payload : (id : ℕ) (xs : List ℕ) → payload (done (frame id xs)) ≡ xs
unfolding payload frame to_le_bytes
frame-payload id xs = refl

number_read : Exec (Option (ℕ × ℕ)) → ℕ
number_read panic = 0
number_read (done none) = 0
number_read (done (some (v, n))) = v

text_encoding-injective :
    (s t : Text) → length s < 2 ^ 32 → length t < 2 ^ 32 → text_encoding s ≡ text_encoding t → s ≡ t
unfolding text_encoding number_read
text_encoding-injective [] [] hs ht e = refl
text_encoding-injective [] (y ∷ t) hs ht e = absurd (head_differs e)
  where
    head_differs : {xs : List ℕ} → 0 ∷ [] ≡ 11 ∷ xs → ⊥
    head_differs e = ground (arith, e)
text_encoding-injective (x ∷ s) [] hs ht e = absurd (head_differs e)
  where
    head_differs : {xs : List ℕ} → 11 ∷ xs ≡ 0 ∷ [] → ⊥
    head_differs e = ground (arith, e)
text_encoding-injective (x ∷ s) (y ∷ t) hs ht e =
    let n = length (x ∷ s) in
    let k = length (y ∷ t) in
    let behind : groups 4 n ++ (x ∷ s) ≡ groups 4 k ++ (y ∷ t) = ap (drop 1) e in
    let same_length : n ≡ k = ap number_read (
      sym (uleb128_to_u32-groups true n (x ∷ s) hs)
      ∙ ap (uleb128_to_u32 true) behind
      ∙ uleb128_to_u32-groups true k (y ∷ t) ht) in
    append_cancel_left (groups 4 n) (x ∷ s) (y ∷ t)
      (behind ∙ ap (λ j. groups 4 j ++ (y ∷ t)) (sym same_length))

new_match-injective :
    (m : MatchData) (password password' : Text)
    → IsMatch m
    → length password < 2 ^ 32
    → length password' < 2 ^ 32
    → new_match (record m { password = some password })
      ≡ new_match (record m { password = some password' })
    → password ≡ password'
unfolding payload frame to_le_bytes
new_match-injective m password password' h short short' same =
    let bytes_of : Text → List ℕ = λ pw. encodings (values_with m (text_encoding pw)) in
    let same_frames =
      sym (new_match-frame m password h short) ∙ same ∙ new_match-frame m password' h short' in
    let same_bytes : bytes_of password ≡ bytes_of password' = ap payload same_frames in
    text_encoding-injective password password' short short'
      (values_with-injective m (text_encoding password) (text_encoding password') same_bytes)

-- For a match with either of two different passwords, where all texts have less than 2 ^ 32 bytes,
-- `UpdateMatch`, which is written without the password, is the same packet, while `NewMatch` is not.
pub match-password :
    (m : MatchData) (password password' : Text)
    → IsMatch m
    → length password < 2 ^ 32
    → length password' < 2 ^ 32
    → password ≢ password'
    → (update_match (record m { password = some password })
        ≡ update_match (record m { password = some password' }))
      × (new_match (record m { password = some password })
          ≢ new_match (record m { password = some password' }))
unfolding update_match match_values
match-password m password password' h short short' differ =
    (refl, λ same. differ (new_match-injective m password password' h short short' same))
