-- ===== src/BanchoState/Token.antt =====
-- core/domain/bancho/src/lib.rs: the token of a client. Texts are lists of bytes.
use peace.Base.{ℕ, zero, suc, ◌+◌, ◌-◌, ◌/◌, ◌%◌, ◌^◌, ltb, if◌then◌else◌}
use peace.Base.{[], ◌∷◌, ◌++◌}
use peace.Users.{Text}

abbrev dot : ℕ
dot = 46

abbrev minus : ℕ
minus = 45

abbrev plus : ℕ
plus = 43

-- The decimal digits of a number with `fuel` digits at most.
unfoldable pub digits : ℕ → ℕ → Text
digits zero n = []
digits (suc fuel) n = if ltb n 10 then (48 + n) ∷ [] else digits fuel (n / 10) ++ (48 + n % 10) ∷ []

-- `Display` of the `i32` with those bits; ten digits are enough
unfoldable pub show_i32 : ℕ → Text
unfolding digits
show_i32 n = if ltb n (2 ^ 31) then digits 10 n else minus ∷ digits 10 (2 ^ 32 - n)

pub record BanchoClientToken : Type 0 where
  pub user_id : ℕ
  pub session_id : ℕ
  pub signature : Text

unfoldable pub encode_content : ℕ → Text → Text
unfolding show_i32
encode_content user_id session_id = show_i32 user_id ++ dot ∷ session_id

unfoldable pub encode : ℕ → Text → Text → Text
unfolding show_i32
encode user_id session_id signature = show_i32 user_id ++ dot ∷ (session_id ++ dot ∷ signature)

-- `content`, where `to_string` is the text of a `Ulid`
unfoldable pub content : (ℕ → Text) → BanchoClientToken → Text
unfolding show_i32
content to_string token = show_i32 token.user_id ++ dot ∷ to_string token.session_id
