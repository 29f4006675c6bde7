-- ===== src/Packets/Server/Login.antt =====
-- lib/bancho-packets: the reply to a login.
use peace.Base.{
  ℕ, ◌-◌, ◌<◌, ◌^◌, ltb, ◌==◌, ◌≡◌, refl, sym, ap, ◌∙◌, arith, if◌then◌else◌, List, [], ◌∷◌, drop,
  Exec, done, panic,
}
use peace.Packets.Ids.{bancho_user_login_reply}
use peace.Packets.Words.{from_le_bytes, to_le_bytes}
use peace.Packets.Words.Laws.{from_le_bytes-to_le_bytes}
use peace.Packets.Items.{number}
use peace.Packets.Items.Encoding.{frame, encoding, encodings, packet-frame}
use peace.Packets.Server.{LoginFailedReason, invalid_credentials, outdated_client, user_banned}
use peace.Packets.Server.{multiaccount_detected, server_error, cutting_edge_multiplayer}
use peace.Packets.Server.{account_password_rest, verification_required, as_i32}
use peace.Packets.Server.{LoginResult, success, failed, login_value, login_reply}

-- The user id of a success is an `i32` that is not negative.
abbrev pub IsUser : LoginResult → Type 0
IsUser (success user_id) = user_id < 2 ^ 31
IsUser (failed reason) = Unit {0}

number_of : LoginResult → ℕ
number_of (success user_id) = user_id
number_of (failed reason) = as_i32 reason

reason_of : ℕ → LoginFailedReason
reason_of n =
    if n == 1
    then invalid_credentials
    else if n == 2
    then outdated_client
    else if n == 3
    then user_banned
    else if n == 4
    then multiaccount_detected
    else if n == 5
    then server_error
    else if n == 6
    then cutting_edge_multiplayer
    else if n == 7
    then account_password_rest
    else verification_required

result_of : ℕ → LoginResult
result_of n = if ltb n (2 ^ 31) then success n else failed (reason_of (2 ^ 32 - n))

result_of-number_of :
    (r : LoginResult) → IsUser r → (result_of (number_of r) ≡ r) × (number_of r < 2 ^ 32)
unfolding result_of number_of reason_of as_i32
result_of-number_of (success user_id) h = (ground arith, omega arith)
result_of-number_of (failed invalid_credentials) h = (refl, omega arith)
result_of-number_of (failed outdated_client) h = (refl, omega arith)
result_of-number_of (failed user_banned) h = (refl, omega arith)
result_of-number_of (failed multiaccount_detected) h = (refl, omega arith)
result_of-number_of (failed server_error) h = (refl, omega arith)
result_of-number_of (failed cutting_edge_multiplayer) h = (refl, omega arith)
result_of-number_of (failed account_password_rest) h = (refl, omega arith)
result_of-number_of (failed verification_required) h = (refl, omega arith)

payload_of : Exec (List ℕ) → List ℕ
payload_of panic = []
payload_of (done buf) = drop 7 buf

login_reply-payload : (r : LoginResult) → payload_of (login_reply r) ≡ to_le_bytes 4 (number_of r)
unfolding login_reply login_value number_of payload_of frame encodings encoding to_le_bytes
login_reply-payload (success user_id) =
    ap payload_of (packet-frame bancho_user_login_reply (number 4 user_id ∷ []) (tt, tt))
login_reply-payload (failed reason) =
    ap payload_of (packet-frame bancho_user_login_reply (number 4 (as_i32 reason) ∷ []) (tt, tt))

login_reply-result :
    (r : LoginResult) → IsUser r → result_of (from_le_bytes (payload_of (login_reply r))) ≡ r
login_reply-result r h =
    let (back, small) = result_of-number_of r h in
    ap (λ xs. result_of (from_le_bytes xs)) (login_reply-payload r)
    ∙ ap result_of (from_le_bytes-to_le_bytes 4 (number_of r) small)
    ∙ back

-- Different login results, successes with different users and failures for different reasons
-- included, are different replies, where a success has a user id that is not negative.
pub login_reply-injective :
    (r r' : LoginResult) → IsUser r → IsUser r' → login_reply r ≡ login_reply r' → r ≡ r'
login_reply-injective r r' h h' e =
    sym (login_reply-result r h)
    ∙ ap (λ buf. result_of (from_le_bytes (payload_of buf))) e
    ∙ login_reply-result r' h'
