-- ===== src/Buf/Getters.antt =====
-- `get_u8`, `get_i8` and the big endian integers of src/bytes/buf.rs.
use tcio.Base.{
  ℕ, ◌-◌, ◌^◌, ◌≤◌, ◌<◌, ◌≡◌, refl, ap, ◌∙◌, Option, some, none, List, [], ◌∷◌, ◌++◌, length, take,
  drop, arith, ltb, if◌then◌else◌, true, false, leb, length-append, take-append, drop-append,
}
use tcio.Base.Int.{ℤ, pos, negsuc}
use tcio.Buf.{
  Buf, slice_buf, try_get_u8, try_get_int, from_le_bytes, to_le_bytes, slice_copy_to_slice,
}
use tcio.Buf.Lawful.{Lawful, Moved}
use tcio.Buf.Copy.{copy_to_slice-slice}
use tcio.Buf.Ints.{length-to_le_bytes, from_le_bytes-to_le_bytes}

-- `b as i8`
abbrev pub as_i8 : ℕ → ℤ
as_i8 b = if ltb b 128 then pos b else negsuc (255 - b)

-- `n as u8`
abbrev pub as_u8 : ℤ → ℕ
as_u8 (pos n) = n
as_u8 (negsuc n) = 255 - n

module _ {S : Type 0} (B : Buf S) where
  -- The outer `none` is a panic.
  pub get_u8 : S → Option (ℕ × S)
  get_u8 s = elim (try_get_u8 B s) [
    | none ↦ none
    | some (none, s') ↦ none
    | some (some n, s') ↦ some (n, s')
  ]

  unfoldable pub try_get_i8 : S → Option (Option ℤ × S)
  try_get_i8 s = elim (B.chunk s) [
    | [] ↦ some (none, s)
    | b ∷ _ ↦ elim (B.advance 1 s) [ none ↦ none | some s' ↦ some (some (as_i8 b), s') ]
  ]

  pub get_i8 : S → Option (ℤ × S)
  get_i8 s = elim (try_get_i8 s) [
    | none ↦ none
    | some (none, s') ↦ none
    | some (some n, s') ↦ some (n, s')
  ]

  -- `get_u16`, `get_u32`, ... with the conversion `from_bytes`.
  pub get_int : (size : ℕ) → (from_bytes : List ℕ → ℕ) → S → Option (ℕ × S)
  get_int size from_bytes s = elim (try_get_int B size from_bytes s) [
    | none ↦ none
    | some (none, s') ↦ none
    | some (some n, s') ↦ some (n, s')
  ]

abbrev reverse : List ℕ → List ℕ
reverse [] = []
reverse (x ∷ xs) = reverse xs ++ (x ∷ [])

pub from_be_bytes : List ℕ → ℕ
from_be_bytes bs = from_le_bytes (reverse bs)

-- `try_get_u16` and its kin, and `get_u16` and its kin in both orders, for the unsigned integers of
-- `size` bytes.
abbrev pub try_get_be : {S : Type 0} → Buf S → ℕ → S → Option (Option ℕ × S)
try_get_be B size = try_get_int B size from_be_bytes

abbrev pub get_be : {S : Type 0} → Buf S → ℕ → S → Option (ℕ × S)
get_be B size = get_int B size from_be_bytes

abbrev pub get_le : {S : Type 0} → Buf S → ℕ → S → Option (ℕ × S)
get_le B size = get_int B size from_le_bytes

pub to_be_bytes : (size : ℕ) → ℕ → List ℕ
to_be_bytes size n = reverse (to_le_bytes size n)

reverse-append : (xs : List ℕ) (y : ℕ) → reverse (xs ++ (y ∷ [])) ≡ y ∷ reverse xs
reverse-append [] y = refl
reverse-append (x ∷ xs) y = ap (λ l. l ++ (x ∷ [])) (reverse-append xs y)

reverse-reverse : (xs : List ℕ) → reverse (reverse xs) ≡ xs
reverse-reverse [] = refl
reverse-reverse (x ∷ xs) = reverse-append (reverse xs) x ∙ ap (λ l. x ∷ l) (reverse-reverse xs)

length-reverse : (xs : List ℕ) → length (reverse xs) ≡ length xs
length-reverse [] = refl
length-reverse (x ∷ xs) = omega (arith, length-append (reverse xs) (x ∷ []), length-reverse xs)

-- A byte string that starts with `size` bytes gives the integer that these convert to.
try_get_int-append :
    (size n : ℕ) (from_bytes : List ℕ → ℕ) (bs rest : List ℕ)
    → length bs ≡ size
    → from_bytes bs ≡ n
    → try_get_int slice_buf size from_bytes (bs ++ rest) ≡ some (some n, rest)
unfolding try_get_int slice_copy_to_slice
try_get_int-append size n from_bytes bs rest e same =
    let t : leb size (length (bs ++ rest)) ≡ true = ground (arith, length-append bs rest) in
    let front : take size (bs ++ rest) ≡ bs = rw e at (take-append bs rest) in
    let back : drop size (bs ++ rest) ≡ rest = rw e at (drop-append bs rest) in
    ground (arith, copy_to_slice-slice size (bs ++ rest), t, front, back, same)

pub length-to_be_bytes : (size n : ℕ) → length (to_be_bytes size n) ≡ size
unfolding to_be_bytes
length-to_be_bytes size n = length-reverse (to_le_bytes size n) ∙ length-to_le_bytes size n

-- An integer that fits `size` bytes is read back from the bytes that it was put as, in big endian
-- order.
pub try_get_int-to_be_bytes :
    (size n : ℕ) (rest : List ℕ)
    → n < 256 ^ size
    → try_get_be slice_buf size (to_be_bytes size n ++ rest) ≡ some (some n, rest)
unfolding to_be_bytes from_be_bytes
try_get_int-to_be_bytes size n rest lt =
    try_get_int-append size n from_be_bytes (reverse (to_le_bytes size n)) rest
      (length-reverse (to_le_bytes size n) ∙ length-to_le_bytes size n)
      (ap from_le_bytes (reverse-reverse (to_le_bytes size n))
        ∙ from_le_bytes-to_le_bytes size n lt)

-- What an `i8` holds.
abbrev pub IsI8 : ℤ → Type 0
IsI8 (pos n) = n < 128
IsI8 (negsuc n) = n < 128

pub as_i8-as_u8 : (n : ℤ) → IsI8 n → as_i8 (as_u8 n) ≡ n
as_i8-as_u8 (pos n) lt = ground arith
as_i8-as_u8 (negsuc n) lt =
    let back : 255 - (255 - n) ≡ n = omega arith in
    let t : ltb (255 - n) 128 ≡ false = ground arith in rw (t, back) refl

module _ {S : Type 0} {B : Buf S} {V : S → Type 0} {content : S → List ℕ}
    (L : Lawful B V content) where
  -- The first byte to come, and the cursor behind it; nothing at the end.
  abbrev Next : {A : Type 0} → (ℕ → A) → List ℕ → Option (Option A × S) → Type 0
  Next read xs none = ⊥
  Next read xs (some (none, s')) = (xs ≡ []) × V s' × (content s' ≡ [])
  Next read [] (some (some a, s')) = ⊥
  Next read (x ∷ xs) (some (some a, s')) = (a ≡ read x) × V s' × (content s' ≡ xs)

  first_byte :
      {A : Type 0} (read : ℕ → A) (s : S) (xs chunk : List ℕ)
      → V s
      → content s ≡ xs
      → chunk ≡ take (length chunk) xs
      → (0 < length xs → 0 < length chunk)
      → (r : Option S) → (1 ≤ length xs → Moved V content 1 xs r)
      → Next read xs (elim chunk [
        | [] ↦ some (none, s)
        | b ∷ _ ↦ elim r [ none ↦ none | some s' ↦ some (some (read b), s') ]
      ])
  first_byte read s [] [] v e p more r m = (refl, v, e)
  first_byte read s [] (b ∷ bs) v e p more r m = absurd (omega (arith, ap (λ l. length l) p))
  first_byte read s (x ∷ xs) [] v e p more r m = absurd (omega (arith, more (omega arith)))
  first_byte read s (x ∷ xs) (b ∷ bs) v e p more none m = absurd (m (omega arith))
  first_byte read s (x ∷ xs) (b ∷ bs) v e p more (some s') m =
      let (v', f) = m (omega arith) in let same : b ≡ x = ground (arith, p) in (ap read same, v', f)

  -- `try_get_u8` on a valid cursor of a lawful buffer gives the first byte to come and moves the
  -- cursor behind it, whatever the chunks are, or leaves the cursor and gives nothing at the end.
  try_get_u8_lem : (s : S) → V s → Next (λ b. b) (content s) (try_get_u8 B s)
  unfolding try_get_u8
  try_get_u8_lem s v =
      first_byte (λ b. b) s (content s) (B.chunk s) v refl (L.chunk_prefix s v) (L.chunk_some s v)
        (B.advance 1 s) (L.advance_drop 1 s v)

  try_get_i8_lem : (s : S) → V s → Next as_i8 (content s) (try_get_i8 B s)
  unfolding try_get_i8
  try_get_i8_lem s v =
      first_byte as_i8 s (content s) (B.chunk s) v refl (L.chunk_prefix s v) (L.chunk_some s v)
        (B.advance 1 s) (L.advance_drop 1 s v)
