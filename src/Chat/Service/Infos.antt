-- ===== src/Chat/Service/Infos.antt =====
-- core/services/chat/src/services/chat.rs: the infos that `dequeue_chat_packets` sends.
use peace.Base.{ℕ, ◌==◌, Bool, true, false, if◌then◌else◌, ◌≡◌, refl, arith}
use peace.Base.{
  inl, inr, Bool-cases, Option, none, some, List, [], ◌∷◌, ◌++◌, append_assoc, append-nil,
}
use peace.Base.{Exec, done, panic, Exec-cases}
use peace.Base.Keys.{nat_eq}
use peace.Base.HashMap.{HashMap, get, insert, get-insert}
use peace.Chat.{Channel}
use peace.Chat.Membership.{info_packets}
use peace.Chat.Service.{State}
use peace.Chat.Service.Dequeue.{send_infos}

-- Whether a client that was last told of a channel at the given time, if it ever was, has to be told
-- of it again.
abbrev pub is_owed : Option ℕ → ℕ → Bool
is_owed none updated_at = true
is_owed (some date) updated_at = if date == updated_at then false else true

-- The channels that a client has to be told of.
unfoldable pub outstanding : State → HashMap ℕ ℕ → List ℕ → List Channel
outstanding st updates [] = []
outstanding st updates (c ∷ cs) =
    let ch = st.channel_at c in
    let later = outstanding st updates cs in
    if is_owed (get ch.id updates) ch.updated_at then ch ∷ later else later

-- The bytes, with others before them.
abbrev pub behind : List ℕ → Exec (List ℕ) → Exec (List ℕ)
behind xs panic = panic
behind xs (done ys) = done (xs ++ ys)

-- The infos of channels, one after the other; a panic where one of them cannot be packed.
unfoldable pub infos_of : List Channel → Exec (List ℕ)
infos_of [] = done []
infos_of (ch ∷ channels) =
    let later = infos_of channels in
    elim (info_packets ch) [ panic ↦ panic | done packet ↦ behind packet later ]

-- No two of the channels have the same id.
abbrev pub IsNew : State → ℕ → List ℕ → Type 0
IsNew st id [] = Unit {0}
IsNew st id (c ∷ cs) = ((id == (st.channel_at c).id) ≡ false) × IsNew st id cs

abbrev pub Distinct : State → List ℕ → Type 0
Distinct st [] = Unit {0}
Distinct st (c ∷ cs) = IsNew st (st.channel_at c).id cs × Distinct st cs

-- What was told of the channels is the same.
abbrev Alike : State → HashMap ℕ ℕ → HashMap ℕ ℕ → List ℕ → Type 0
Alike st updates old [] = Unit {0}
Alike st updates old (c ∷ cs) =
    (get (st.channel_at c).id updates ≡ get (st.channel_at c).id old) × Alike st updates old cs

Alike-refl : (st : State) (updates : HashMap ℕ ℕ) (cs : List ℕ) → Alike st updates updates cs
Alike-refl st updates [] = tt
Alike-refl st updates (c ∷ cs) = (refl, Alike-refl st updates cs)

Alike-insert :
    (st : State) (updates old : HashMap ℕ ℕ) (id date : ℕ) (cs : List ℕ)
    → IsNew st id cs
    → Alike st updates old cs
    → Alike st (insert id date updates) old cs
Alike-insert st updates old id date [] fresh same = tt
Alike-insert st updates old id date (c ∷ cs) (other, fresh) (e, same) = (
  ground (arith, get-insert id (st.channel_at c).id date updates, other, e),
  Alike-insert st updates old id date cs fresh same,
)

behind-append : (xs ys : List ℕ) (r : Exec (List ℕ)) → behind (xs ++ ys) r ≡ behind xs (behind ys r)
behind-append xs ys panic = refl
behind-append xs ys (done zs) = ground (arith, append_assoc xs ys zs)

send_infos-Alike :
    (st : State) (updates old : HashMap ℕ ℕ) (cs xs : List ℕ)
    → Distinct st cs
    → Alike st updates old cs
    → (send_infos st updates cs xs).1 ≡ behind xs (infos_of (outstanding st old cs))
unfolding send_infos outstanding infos_of
send_infos-Alike st updates old [] xs apart same = ground (arith, append-nil xs)
send_infos-Alike st updates old (c ∷ cs) xs (fresh, apart) (e, same) =
    let ch = st.channel_at c in
    let skip = send_infos-Alike st updates old cs xs apart same in
    let told = insert ch.id ch.updated_at updates in
    let kept = Alike-insert st updates old ch.id ch.updated_at cs fresh same in
    elim (Bool-cases (is_owed (get ch.id old) ch.updated_at)) [
      | inl owed ↦ elim (Exec-cases (info_packets ch)) [
        | inl bad ↦ ground (arith, e, owed, bad)
        | inr (packet, good) ↦ ground (
          arith,
          e,
          owed,
          good,
          send_infos-Alike st told old cs (xs ++ packet) apart kept,
          behind-append xs packet (infos_of (outstanding st old cs)),
        )
      ]
      | inr known ↦ ground (arith, e, known, skip)
    ]

-- The loop over the channels sends the infos of those that were outstanding before it.
pub send_infos-outstanding :
    (st : State) (updates : HashMap ℕ ℕ) (cs xs : List ℕ)
    → Distinct st cs
    → (send_infos st updates cs xs).1 ≡ behind xs (infos_of (outstanding st updates cs))
send_infos-outstanding st updates cs xs apart =
    send_infos-Alike st updates updates cs xs apart (Alike-refl st updates cs)
