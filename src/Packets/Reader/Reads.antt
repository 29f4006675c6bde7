-- ===== src/Packets/Reader/Reads.antt =====
-- Reads that take exactly given bytes, wherever these stand in a payload.
use peace.Base.{ℕ, ◌+◌, ◌^◌, ◌<◌, ◌==◌, if◌then◌else◌, arith}
use peace.Base.{◌≡◌, refl, sym, ap, subst, ◌∙◌, Bool, true, false, none, some}
use peace.Base.{List, [], ◌∷◌, ◌++◌, append_assoc, append-nil, length, length-append, slice?-append}
use peace.Base.{drop-append, get_elem?-append, done, All}
use peace.Packets.Words.{to_le_bytes, from_le_bytes, numbers_bytes}
use peace.Packets.Words.Laws.{length-to_le_bytes, from_le_bytes-to_le_bytes}
use peace.Packets.Uleb.{uleb128_to_u32}
use peace.Packets.Uleb.Encode.{groups}
use peace.Packets.Uleb.Decode.{uleb128_to_u32-groups}
use peace.Packets.Utf8.{is_utf8, from_utf8}
use peace.Packets.Reader.{PayloadReader, Read, ◌>>=◌, ◌>>◌, pure, from_option, rest_at}
use peace.Packets.Reader.{increase_index, next_with_length, read_uleb128, peek, read_string}
use peace.Packets.Reader.{
  read_number, read_bool, i16_as_usize, with_capacity, read_numbers, read_number_array,
}

-- The reader of a payload that has passed its front.
abbrev pub at : List ℕ → List ℕ → PayloadReader
at front back = record { payload = front ++ back; index = length front }

-- `m` finds `a` in the bytes `xs` and moves on behind them, whatever stands around them.
abbrev pub Reads : {A : Type 0} → Read A → List ℕ → A → Type 0
Reads m xs a =
    (front back : List ℕ) → m (at front (xs ++ back)) ≡ done (some a, at (front ++ xs) back)

at_moved :
    (front xs back : List ℕ)
    → record { payload = front ++ (xs ++ back); index = length front + length xs }
      ≡ at (front ++ xs) back
at_moved front xs back = ground (arith, append_assoc front xs back, length-append front xs)

pub Reads-bind :
    {A B : Type 0} (m : Read A) (f : A → Read B) (xs ys : List ℕ) (a : A) (b : B)
    → Reads m xs a
    → Reads (f a) ys b
    → Reads (m >>= f) (xs ++ ys) b
Reads-bind m f xs ys a b hm hf front back =
    rw (append_assoc xs ys back, hm front (ys ++ back), hf (front ++ xs) back)
      (rw (append_assoc front xs ys))

pub Reads-pure : {A : Type 0} (a : A) → Reads (pure a) [] a
Reads-pure a front back = rw append-nil

pub Reads-map :
    {A B : Type 0} (m : Read A) (f : A → B) (xs : List ℕ) (a : A)
    → Reads m xs a
    → Reads (m >>= λ x. pure (f x)) xs (f a)
Reads-map m f xs a hm front back = rw (hm front back)

pub Reads-next : (n : ℕ) (xs : List ℕ) → length xs ≡ n → Reads (next_with_length n) xs xs
unfolding next_with_length
Reads-next n xs e front back = ground (arith, slice?-append front xs back, at_moved front xs back)

Reads-byte :
    (b : ℕ) (front back : List ℕ) → peek (at front (b ∷ back)) ≡ done (some b, at front (b ∷ back))
unfolding peek
Reads-byte b front back = rw (get_elem?-append front back b)

drop_rest : (front back : List ℕ) → rest_at (length front) (front ++ back) ≡ some back
drop_rest front back = ground (arith, length-append front back, drop-append front back)

read_uleb128_found :
    (checks : Bool) (r : PayloadReader) (bytes : List ℕ) (v n : ℕ)
    → rest_at r.index r.payload ≡ some bytes
    → uleb128_to_u32 checks bytes ≡ done (some (v, n))
    → read_uleb128 checks r ≡ done (some v, record r { index = r.index + n })
unfolding read_uleb128
read_uleb128_found checks r bytes v n e f = ground arith

-- A length is read back in any build.
pub Reads-uleb128 :
    (checks : Bool) (v : ℕ) → v < 2 ^ 32 → Reads (read_uleb128 checks) (groups 4 v) v
Reads-uleb128 checks v h front back =
    read_uleb128_found checks _ _ v _ (drop_rest front (groups 4 v ++ back))
      (uleb128_to_u32-groups checks v back h)
    ∙ ap (λ (r : PayloadReader). done (some v, r)) (at_moved front (groups 4 v) back)

-- A number of `n` bytes.
pub Reads-number : (n v : ℕ) → v < 256 ^ n → Reads (read_number n) (to_le_bytes n v) v
unfolding read_number
Reads-number n v h =
    subst (Reads (read_number n) (to_le_bytes n v)) (from_le_bytes-to_le_bytes n v h) (
      Reads-map (next_with_length n) from_le_bytes (to_le_bytes n v) (to_le_bytes n v)
        (Reads-next n (to_le_bytes n v) (length-to_le_bytes n v)))

-- A string of at least one byte is the mark 0x0b, its length and its bytes.
abbrev pub text_bytes : List ℕ → List ℕ
text_bytes s = 0x0b ∷ (groups 4 (length s) ++ s)

read_string_tagged :
    (checks : Bool) (m : Read (List ℕ)) (xs : List ℕ) (s : List ℕ)
    → Reads m xs s
    → Reads
        (peek >>= λ tag.
          from_option (if tag == 0xb then some tt else none) >> (increase_index 1 >> m))
        (0x0b ∷ xs)
        s
unfolding increase_index
read_string_tagged checks m xs s hm front back = rw Reads-byte (
    ground (
      arith,
      hm (front ++ (0x0b ∷ [])) back,
      length-append front (0x0b ∷ []),
      append_assoc front (0x0b ∷ []) (xs ++ back),
      append_assoc front (0x0b ∷ []) xs,
    ))

Reads-utf8 : (s : List ℕ) → is_utf8 s ≡ true → Reads (from_option (from_utf8 s)) [] s
unfolding from_utf8
Reads-utf8 s u front back = ground (arith, append-nil front)

-- The end of `read_string`, once the length is known.
abbrev text_of : ℕ → Read (List ℕ)
text_of n = next_with_length n >>= λ bytes. from_option (from_utf8 bytes)

Reads-text_of : (s : List ℕ) → is_utf8 s ≡ true → Reads (text_of (length s)) s s
Reads-text_of s u =
    subst (λ t. Reads (text_of (length s)) t s) (append-nil s)
      (Reads-bind (next_with_length (length s)) (λ bytes. from_option (from_utf8 bytes)) s [] s s
        (Reads-next (length s) s refl) (Reads-utf8 s u))

-- A text in UTF-8 of less than 2 ^ 32 bytes is read from its mark, length and bytes.
pub Reads-string :
    (checks : Bool) (s : List ℕ)
    → length s < 2 ^ 32
    → is_utf8 s ≡ true
    → Reads (read_string checks) (text_bytes s) s
unfolding read_string
Reads-string checks s h u =
    read_string_tagged checks (read_uleb128 checks >>= text_of) (groups 4 (length s) ++ s) s (
      Reads-bind (read_uleb128 checks) text_of (groups 4 (length s)) s (length s) s
        (Reads-uleb128 checks (length s) h) (Reads-text_of s u))

pub Reads-bool : (b : Bool) → Reads read_bool ((if b then 1 else 0) ∷ []) b
unfolding read_bool to_le_bytes
Reads-bool true =
    Reads-map (read_number 1) (λ n. n == 1) (1 ∷ []) 1 (Reads-number 1 1 (omega arith))
Reads-bool false =
    Reads-map (read_number 1) (λ n. n == 1) (0 ∷ []) 0 (Reads-number 1 0 (omega arith))

-- The rest of the loop after the four bytes of an element.
abbrev element_then : ℕ → List ℕ → Read (List ℕ)
element_then count bytes =
    from_option (if ◌==◌ 4 4 then some (from_le_bytes bytes) else none) >>= λ x.
    read_numbers 4 count >>= λ xs. pure (x ∷ xs)

Reads-numbers :
    (xs : List ℕ)
    → All (λ x. x < 2 ^ 32) xs
    → Reads (read_numbers 4 (length xs)) (numbers_bytes 4 xs) xs
unfolding read_numbers
Reads-numbers [] h = Reads-pure []
Reads-numbers (x ∷ xs) (hx, h) =
    Reads-bind (next_with_length 4) (element_then (length xs)) (to_le_bytes 4 x)
      (numbers_bytes 4 xs) (to_le_bytes 4 x) (x ∷ xs)
      (Reads-next 4 (to_le_bytes 4 x) (length-to_le_bytes 4 x))
      (subst (λ y. Reads (element_then (length xs) (to_le_bytes 4 x)) (numbers_bytes 4 xs) (y ∷ xs))
        (from_le_bytes-to_le_bytes 4 x hx)
        (Reads-map (read_numbers 4 (length xs)) (λ ys. from_le_bytes (to_le_bytes 4 x) ∷ ys)
          (numbers_bytes 4 xs) xs (Reads-numbers xs h)))

abbrev array_then : ℕ → Read (List ℕ)
array_then count = with_capacity 4 count >> read_numbers 4 count

Reads-counted :
    (xs : List ℕ)
    → length xs < 2 ^ 15
    → All (λ x. x < 2 ^ 32) xs
    → Reads (array_then (i16_as_usize (length xs))) (numbers_bytes 4 xs) xs
unfolding with_capacity i16_as_usize
Reads-counted xs n h front back = ground (arith, Reads-numbers xs h front back)

-- An array of fewer than 2 ^ 15 four-byte numbers is read from its count and its elements.
pub Reads-number_array :
    (xs : List ℕ)
    → length xs < 2 ^ 15
    → All (λ x. x < 2 ^ 32) xs
    → Reads (read_number_array 4) (to_le_bytes 2 (length xs) ++ numbers_bytes 4 xs) xs
unfolding read_number_array
Reads-number_array xs n h =
    Reads-bind (next_with_length 2) (λ bytes. array_then (i16_as_usize (from_le_bytes bytes)))
      (to_le_bytes 2 (length xs)) (numbers_bytes 4 xs) (to_le_bytes 2 (length xs)) xs
      (Reads-next 2 _ (length-to_le_bytes 2 (length xs)))
      (subst (λ c. Reads (array_then (i16_as_usize c)) (numbers_bytes 4 xs) xs)
        (sym (from_le_bytes-to_le_bytes 2 (length xs) (omega arith))) (Reads-counted xs n h))
