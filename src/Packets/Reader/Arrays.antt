-- ===== src/Packets/Reader/Arrays.antt =====
-- What `Vec` reads do with counts and element sizes that they cannot serve.
use peace.Base.{ℕ, zero, suc, ◌+◌, ◌-◌, ◌*◌, ◌^◌, ◌≤◌, ◌<◌, ◌==◌, arith}
use peace.Base.{◌≡◌, ◌≢◌, some, done, panic}
use peace.Base.{List, [], ◌∷◌, slice?, Bool-cases, inl, inr, Option-cases, ==_iff}
use peace.Packets.Words.{from_le_bytes}
use peace.Packets.Reader.{PayloadReader, Read, ◌>>◌}
use peace.Packets.Reader.Bounds.{and_then-eq-some}
use peace.Packets.Reader.{
  next_with_length, i16_as_usize, with_capacity, read_numbers, read_number_array,
}

big_product : (a b : ℕ) → 1 ≤ b → 2 ^ 63 ≤ a → 2 ^ 63 ≤ a * b
big_product a b hb ha = grind arith

capacity_panics :
    (size n : ℕ) (r : PayloadReader)
    → 1 ≤ size
    → 2 ^ 15 ≤ n
    → with_capacity size (i16_as_usize n) r ≡ panic
unfolding with_capacity i16_as_usize
capacity_panics size n r hs hn = ground (arith, big_product (2 ^ 64 - 2 ^ 16 + n) size hs)

-- A count with its sign bit set, which any client can send, makes the read of an array panic,
-- whatever the size of the elements, which is one byte at least.
pub read_number_array_negative :
    (size : ℕ) (r : PayloadReader) (lo hi : ℕ)
    → 1 ≤ size
    → slice? r.index 2 r.payload ≡ some (lo ∷ hi ∷ [])
    → 128 ≤ hi
    → hi < 256
    → read_number_array size r ≡ panic
unfolding read_number_array
read_number_array_negative size r lo hi hs e h hb =
    ground (arith, capacity_panics size (lo + 256 * hi) (record r { index = r.index + 2 }) hs)

read_numbers_other :
    (size count : ℕ) (r r' : PayloadReader) (xs : List ℕ)
    → size ≢ 4
    → read_numbers size count r ≡ done (some xs, r')
    → xs ≡ []
unfolding read_numbers
read_numbers_other size zero r r' xs h e = ground arith
read_numbers_other size (suc count) r r' xs h e = elim (Option-cases (slice? r.index 4 r.payload)) [
  | inl miss ↦ absurd (ground (arith, e, miss))
  | inr (bytes, hit) ↦ elim (Bool-cases (size == 4)) [
    | inl four ↦ absurd (h ((==_iff size 4).0 four))
    | inr other ↦ absurd (ground (arith, e, hit, other))
  ]
]

abbrev sized : ℕ → ℕ → Read (List ℕ)
sized size n = with_capacity size (i16_as_usize n) >> read_numbers size (i16_as_usize n)

-- The loop takes four bytes for an element of any size, so of a `Vec` whose elements have another
-- size only the empty one is read.
pub read_number_array_other :
    (size : ℕ) (r r' : PayloadReader) (xs : List ℕ)
    → size ≢ 4
    → read_number_array size r ≡ done (some xs, r')
    → xs ≡ []
unfolding read_number_array
read_number_array_other size r r' xs h e =
    let (bytes, s, _, ea) =
      and_then-eq-some (λ bytes. sized size (from_le_bytes bytes)) (next_with_length 2 r) e in
    let count = i16_as_usize (from_le_bytes bytes) in
    let (_, t, _, eb) =
      and_then-eq-some (λ _. read_numbers size count) (with_capacity size count s) ea in
    read_numbers_other size count t r' xs h eb
