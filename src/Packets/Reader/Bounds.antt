-- ===== src/Packets/Reader/Bounds.antt =====
-- How far a read that finds a value moves the index, and what a malformed array does.
use Prim.Native.Nat.{max}
use peace.Base.{ℕ, zero, suc, ◌+◌, ◌≤◌, ◌<◌, leb, ◌==◌, if◌then◌else◌, arith}
use peace.Base.{◌≡◌, refl, Bool, Option, none, some, Exec, done, panic}
use peace.Base.{
  List, [], ◌∷◌, length, length-drop, drop, get_elem?, slice?, Bool-cases, Option-cases, inl, inr,
}
use peace.Packets.Words.{from_le_bytes}
use peace.Packets.Uleb.{uleb128_to_u32}
use peace.Packets.Uleb.AnyInput.{uleb128_to_u32_bounds}
use peace.Packets.Utf8.{from_utf8}
use peace.Packets.Reader.{PayloadReader, Read, and_then, ◌>>=◌, ◌>>◌, pure, from_option, after_uleb}
use peace.Packets.Reader.{increase_index, next_with_length, read_uleb128, peek, read_string}
use peace.Packets.Reader.{
  read_number, read_bool, i16_as_usize, with_capacity, read_numbers, read_number_array,
}

-- A read that finds a value leaves the payload alone, and moves the index forward and not past
-- the payload's end.
abbrev pub Within : {A : Type 0} → Read A → Type 0
Within {A} m =
    (r r' : PayloadReader) (a : A)
    → m r ≡ done (some a, r')
    → (r'.payload ≡ r.payload) × (r.index ≤ r'.index) × (r'.index ≤ max r.index (length r.payload))

pub and_then-eq-some :
    {A B : Type 0} (f : A → Read B) (e : Exec (Option A × PayloadReader)) {b : B}
    {r' : PayloadReader}
    → and_then f e ≡ done (some b, r')
    → (a : A) × (r : PayloadReader) × (e ≡ done (some a, r)) × (f a r ≡ done (some b, r'))
and_then-eq-some f panic h = cc
and_then-eq-some f (done (none, r)) h = cc
and_then-eq-some f (done (some a, r)) h = (a, r, refl, h)

pub Within-bind :
    {A B : Type 0} (m : Read A) (f : A → Read B)
    → Within m
    → ((a : A) → Within (f a))
    → Within (m >>= f)
Within-bind m f hm hf r r' b e =
    let (a, s, em, ef) = and_then-eq-some f (m r) e in
    let (p, lo, hi) = hm r s a em in
    let (p', lo', hi') = hf a s r' b ef in ground (arith, p, p', lo, lo', hi, hi')

pub Within-pure : {A : Type 0} (a : A) → Within (pure a)
Within-pure a r r' b e = ground arith

pub Within-option : {A : Type 0} (o : Option A) → Within (from_option o)
Within-option o r r' b e = ground arith

pub Within-next : (n : ℕ) → Within (next_with_length n)
unfolding next_with_length slice?
Within-next n r r' b e = ground arith

after_uleb-eq-some :
    (r r' : PayloadReader) (e : Exec (Option (ℕ × ℕ))) (v : ℕ)
    → after_uleb r e ≡ done (some v, r')
    → (n : ℕ) × (e ≡ done (some (v, n))) × (r' ≡ record r { index = r.index + n })
after_uleb-eq-some r r' panic v h = cc
after_uleb-eq-some r r' (done none) v h = cc
after_uleb-eq-some r r' (done (some (w, n))) v h = (n, cc, cc)

Within-uleb128 : (checks : Bool) → Within (read_uleb128 checks)
unfolding read_uleb128
Within-uleb128 checks r r' v e = elim (Bool-cases (leb r.index (length r.payload))) [
  | inl inside ↦
      let rest = drop r.index r.payload in
      let (n, f, moved) =
        after_uleb-eq-some r r' (uleb128_to_u32 checks rest) v (ground (arith, e, inside)) in
      ground (
        arith,
        moved,
        inside,
        uleb128_to_u32_bounds checks rest v n f,
        length-drop r.index r.payload,
      )
  | inr outside ↦ absurd (ground (arith, e, outside))
]

pub Within-number : (size : ℕ) → Within (read_number size)
unfolding read_number
Within-number size =
    Within-bind (next_with_length size) (λ bytes. pure (from_le_bytes bytes)) (Within-next size)
      (λ bytes. Within-pure _)

pub Within-bool : Within read_bool
unfolding read_bool
Within-bool =
    Within-bind (read_number 1) (λ n. pure (n == 1)) (Within-number 1) (λ n. Within-pure _)

lt_of_get_elem? : (xs : List ℕ) (i x : ℕ) → get_elem? xs i ≡ some x → i < length xs
lt_of_get_elem? [] i x e = cc
lt_of_get_elem? (y ∷ xs) zero x e = omega arith
lt_of_get_elem? (y ∷ xs) (suc i) x e = omega (arith, lt_of_get_elem? xs i x e)

-- The mark of a string was there, so the step behind it stays inside.
Within-tagged :
    (m : Read (List ℕ))
    → Within m
    → Within (
        peek >>= λ tag.
        from_option (if tag == 0xb then some tt else none) >> (increase_index 1 >> m))
unfolding peek increase_index
Within-tagged m hm r r' s e = elim (Option-cases (get_elem? r.payload r.index)) [
  | inl miss ↦ absurd (ground (arith, e, miss))
  | inr (tag, hit) ↦ elim (Bool-cases (tag == 0xb)) [
    | inl marked ↦ ground (
      arith,
      lt_of_get_elem? r.payload r.index tag hit,
      hm (record r { index = r.index + 1 }) r' s (ground (arith, e, hit, marked)),
    )
    | inr other ↦ absurd (ground (arith, e, hit, other))
  ]
]

pub Within-string : (checks : Bool) → Within (read_string checks)
unfolding read_string
Within-string checks = Within-tagged _ (
    Within-bind (read_uleb128 checks)
      (λ n. next_with_length n >>= λ bytes. from_option (from_utf8 bytes)) (Within-uleb128 checks)
      (λ n.
        Within-bind (next_with_length n) (λ bytes. from_option (from_utf8 bytes)) (Within-next n)
          (λ bytes. Within-option (from_utf8 bytes))))

Within-numbers : (size count : ℕ) → Within (read_numbers size count)
unfolding read_numbers
Within-numbers size zero = Within-pure []
Within-numbers size (suc count) = Within-bind (next_with_length 4) _ (Within-next 4) (λ bytes.
    Within-bind (from_option (if size == 4 then some (from_le_bytes bytes) else none)) _
      (Within-option _)
      (λ x.
        Within-bind (read_numbers size count) (λ xs. pure (x ∷ xs)) (Within-numbers size count)
          (λ xs. Within-pure _)))

Within-capacity : (size count : ℕ) → Within (with_capacity size count)
unfolding with_capacity
Within-capacity size count r r' u e = ground arith

pub Within-number_array : (size : ℕ) → Within (read_number_array size)
unfolding read_number_array
Within-number_array size = Within-bind (next_with_length 2) _ (Within-next 2) (λ bytes.
    Within-bind (with_capacity size (i16_as_usize (from_le_bytes bytes))) _ (Within-capacity size _)
      (λ u. Within-numbers size _))
