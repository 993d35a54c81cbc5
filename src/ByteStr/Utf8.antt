-- ===== src/ByteStr/Utf8.antt =====
-- What the check of `str::from_utf8` accepts, cut and put together: for src/bytes/bytestr.rs.
use tcio.Base.{
  ℕ, zero, suc, ◌+◌, ◌≤◌, ◌≡◌, ◌⊎◌, inl, inr, true, false, Option, none, some, List, [], ◌∷◌, leb,
  length, take, drop, arith, refl, ◌∙◌, ◌==◌,
}
use tcio.ByteStr.{
  is_continuation, Lead, lead_of, scan, is_utf8, valid_up_to, at_boundary, is_char_boundary,
}
use native.Mathlib.Decide.{dec_le}

false_true : {A : Type 0} → false ≡ true → A
false_true e = absurd (ground (arith, e))

-- Bounds of a byte that goes on with a character.
abbrev Inner : (more low high : ℕ) → Type 0
Inner more low high = (more ≡ 0) ⊎ ((128 ≤ low) × (high ≤ 191))

lead_of-Inner :
    (b : ℕ) (l : Lead)
    → lead_of b ≡ some l
    → (is_continuation b ≡ false) × Inner l.more l.low l.high
unfolding lead_of
lead_of-Inner b l e = ground (arith, e)

-- The first byte of a character, and a byte that goes on with one.
module _ (b : ℕ) (bs : List ℕ) where
  scan-lead :
      (low high : ℕ)
      → scan 0 low high (b ∷ bs) ≡ true
      → (l : Lead) × (lead_of b ≡ some l) × (scan l.more l.low l.high bs ≡ true)
  scan-lead low high s = by_lead (lead_of b) refl
    where
      by_lead :
          (o : Option Lead)
          → lead_of b ≡ o
          → (l : Lead) × (lead_of b ≡ some l) × (scan l.more l.low l.high bs ≡ true)
      by_lead none e = absurd (false_true (rw (e, scan) at s))
      by_lead (some l) e = (l, e, rw (e, scan) at s)

  scan-of_lead :
      (low high : ℕ) (l : Lead)
      → lead_of b ≡ some l
      → scan 0 low high (b ∷ bs) ≡ scan l.more l.low l.high bs
  scan-of_lead low high l e = rw (e, scan) refl

  scan-more :
      (m low high : ℕ)
      → scan (suc m) low high (b ∷ bs) ≡ true
      → (low ≤ b) × (b ≤ high) × (scan m 128 191 bs ≡ true)
  scan-more m low high s = ground (arith, s)

  scan-of_more :
      (m low high : ℕ) → low ≤ b → b ≤ high → scan (suc m) low high (b ∷ bs) ≡ scan m 128 191 bs
  scan-of_more m low high lo hi =
      let t : leb low b ≡ true = ground arith in
      let t' : leb b high ≡ true = ground arith in rw (t, t') refl

-- A sequence of whole characters, cut where one begins.
scan-cut :
    (more low high n : ℕ) (xs : List ℕ)
    → Inner more low high
    → scan more low high xs ≡ true
    → at_boundary n xs ≡ true
    → (scan more low high (take n xs) ≡ true) × (is_utf8 (drop n xs) ≡ true)
scan-cut zero low high zero [] i s cut = (refl, refl)
scan-cut (suc m) low high zero [] i s cut = absurd (false_true s)
scan-cut zero low high zero (b ∷ bs) i s cut =
    let (l, e, r) = scan-lead b bs low high s in (refl, scan-of_lead b bs 128 191 l e ∙ r)
scan-cut (suc m) low high zero (b ∷ bs) i s cut =
    let (lo, hi, r) = scan-more b bs m low high s in absurd (ground (arith, i, cut))
scan-cut zero low high (suc n) [] i s cut = absurd (false_true cut)
scan-cut (suc m) low high (suc n) [] i s cut = absurd (false_true cut)
scan-cut zero low high (suc n) (b ∷ bs) i s cut =
    let (l, e, r) = scan-lead b bs low high s in
    let (front, back) = scan-cut l.more l.low l.high n bs (lead_of-Inner b l e).1 r cut in
    (scan-of_lead b (take n bs) low high l e ∙ front, back)
scan-cut (suc m) low high (suc n) (b ∷ bs) i s cut =
    let (lo, hi, r) = scan-more b bs m low high s in
    let (front, back) = scan-cut m 128 191 n bs (inr (omega arith, omega arith)) r cut in
    (scan-of_more b (take n bs) m low high lo hi ∙ front, back)

-- A string cut at a character boundary is two strings.
pub is_utf8-cut :
    (n : ℕ) (xs : List ℕ)
    → is_utf8 xs ≡ true
    → is_char_boundary n xs ≡ true
    → (is_utf8 (take n xs) ≡ true) × (is_utf8 (drop n xs) ≡ true)
is_utf8-cut zero xs s cut = (refl, s)
is_utf8-cut (suc n) xs s cut =
    let t : (suc n == 0) ≡ false = ground arith in
    scan-cut 0 128 191 (suc n) xs (inl refl) s (rw t at cut)

-- What `valid_up_to` says of a prefix.
data UpTo (more low high seen good : ℕ) (xs : List ℕ) : Type 0 where
  no_further : valid_up_to more low high seen good xs ≡ good → UpTo more low high seen good xs
  further :
      (n : ℕ)
      → valid_up_to more low high seen good xs ≡ seen + n
      → n ≤ length xs
      → scan more low high (take n xs) ≡ true
      → UpTo more low high seen good xs

UpTo-cases : (more low high seen good : ℕ) (xs : List ℕ) → UpTo more low high seen good xs
UpTo-cases zero low high seen good [] = further 0 (omega arith) (omega arith) refl
UpTo-cases (suc m) low high seen good [] = no_further refl
UpTo-cases zero low high seen good (b ∷ bs) =
    by_lead (lead_of b) refl λ l. UpTo-cases l.more l.low l.high (suc seen) seen bs
  where
    by_lead :
        (o : Option Lead)
        → lead_of b ≡ o
        → ((l : Lead) → UpTo l.more l.low l.high (suc seen) seen bs)
        → UpTo 0 low high seen good (b ∷ bs)
    by_lead none e later = further 0 (rw (e, valid_up_to) (omega arith)) (omega arith) refl
    by_lead (some l) e later = elim (later l) [
      | no_further stop ↦ further 0 (rw (e, valid_up_to) (stop ∙ omega arith)) (omega arith) refl
      | further n go le s ↦
          further (suc n) (rw (e, valid_up_to) (go ∙ omega arith)) (omega arith)
            (scan-of_lead b (take n bs) low high l e ∙ s)
    ]
UpTo-cases (suc m) low high seen good (b ∷ bs) = elim (dec_le low b) [
  | no lt ↦ let t : leb low b ≡ false = ground arith in no_further (rw t refl)
  | yes lo ↦
      let t : leb low b ≡ true = ground arith in
      elim (dec_le b high) [
        | no gt ↦ let t' : leb b high ≡ false = ground arith in no_further (rw (t, t') refl)
        | yes hi ↦
            let t' : leb b high ≡ true = ground arith in
            elim (UpTo-cases m 128 191 (suc seen) good bs) [
              | no_further stop ↦ no_further (rw (t, t') stop)
              | further n go le s ↦
                  further (suc n) (rw (t, t') (go ∙ omega arith)) (omega arith)
                    (scan-of_more b (take n bs) m low high lo hi ∙ s)
            ]
      ]
]

-- The bytes before the position of an error are whole characters.
pub valid_up_to-is_utf8 :
    (xs : List ℕ)
    → (valid_up_to 0 128 191 0 0 xs ≤ length xs)
      × (is_utf8 (take (valid_up_to 0 128 191 0 0 xs) xs) ≡ true)
valid_up_to-is_utf8 xs = elim (UpTo-cases 0 128 191 0 0 xs) [
  | no_further e ↦ rw e (omega arith, refl)
  | further n e le s ↦ let e' : valid_up_to 0 128 191 0 0 xs ≡ n = e ∙ omega arith in rw e' (le, s)
]
