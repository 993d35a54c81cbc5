-- ===== src/Num/Unsigned.antt =====
-- `atou` and `wrapping_atou` of src/num/num.rs against the number that the digits denote.
use tcio.Base.{
  ℕ, ◌+◌, ◌-◌, ◌*◌, ◌%◌, ◌^◌, ◌<◌, ◌≤◌, ◌≡◌, refl, Bool, true, none, some, List, [], ◌∷◌, length,
  leb, ltb, ◌&&◌, if◌then◌else◌, arith, Bool-cases, inl, inr,
}
use native.Mathlib.Nat.{pow-suc, pow-le-pow_right}
use tcio.Base.Words.{word_mod}
use tcio.Num.{try_fold, atou_step, atou, wrapping_atou_step, wrapping_atou}

abbrev pub is_digit : ℕ → Bool
is_digit c = leb b'0' c && leb c b'9'

abbrev pub all_digits : List ℕ → Bool
all_digits [] = true
all_digits (c ∷ cs) = is_digit c && all_digits cs

-- The number that `acc` followed by the digits denotes, with no bound.
abbrev pub value_from : ℕ → List ℕ → ℕ
value_from acc [] = acc
value_from acc (c ∷ cs) = value_from (acc * 10 + (c - b'0')) cs

abbrev pub value : List ℕ → ℕ
value = value_from 0

abbrev pub AllBytes : List ℕ → Type 0
AllBytes [] = Unit {0}
AllBytes (c ∷ cs) = (c < 256) × AllBytes cs

pub le-value_from : (cs : List ℕ) (acc : ℕ) → acc ≤ value_from acc cs
le-value_from [] acc = omega arith
le-value_from (c ∷ cs) acc = omega (arith, le-value_from cs (acc * 10 + (c - b'0')))

shift_bound : (acc d p : ℕ) → d ≤ 9 → (acc * 10 + d + 1) * p ≤ (acc + 1) * (10 * p)
shift_bound acc d p h = grind arith

value_from-lt :
    (cs : List ℕ) (acc : ℕ) → all_digits cs ≡ true → value_from acc cs < (acc + 1) * 10 ^ length cs
value_from-lt [] acc d = omega arith
value_from-lt (c ∷ cs) acc d =
    let small : c - b'0' ≤ 9 = ground arith in
    let rest : all_digits cs ≡ true = ground arith in
    rw pow-suc (
      omega (
        arith,
        value_from-lt cs (acc * 10 + (c - b'0')) rest,
        shift_bound acc (c - b'0') (10 ^ length cs) small,
      ))

atou_loop :
    (cs : List ℕ) (acc : ℕ)
    → AllBytes cs
    → acc < word_mod
    → try_fold atou_step acc cs ≡ (
        if all_digits cs && ltb (value_from acc cs) word_mod
        then some (value_from acc cs)
        else none)
unfolding try_fold atou_step
atou_loop [] acc b h = ground arith
atou_loop (c ∷ cs) acc b h =
    ground
      (arith, le-value_from cs (acc * 10 + (c - b'0')), atou_loop cs (acc * 10 + (c - b'0')) b.1)

-- `atou` reads 1 to 20 bytes, all of them digits, that denote a number below 2 ^ 64, as that
-- number, and refuses every other sequence of bytes.
pub atou_lem :
    (bytes : List ℕ)
    → AllBytes bytes
    → atou bytes ≡ (
        if leb 1 (length bytes)
          && leb (length bytes) 20
          && all_digits bytes
          && ltb (value bytes) word_mod
        then some (value bytes)
        else none)
unfolding atou
atou_lem bytes b = ground (arith, atou_loop bytes 0 b)

wrapping_loop :
    (cs : List ℕ) (acc : ℕ)
    → AllBytes cs
    → try_fold wrapping_atou_step (acc % word_mod) cs
      ≡ (if all_digits cs then some (value_from acc cs % word_mod) else none)
unfolding try_fold wrapping_atou_step
wrapping_loop [] acc b = refl
wrapping_loop (c ∷ cs) acc b = ground (arith, wrapping_loop cs (acc * 10 + (c - b'0')) b.1)

-- `wrapping_atou` reads any sequence of digits, of any length and the empty one too, as the number
-- that it denotes modulo 2 ^ 64, and refuses every other sequence of bytes.
wrapping_atou_lem :
    (bytes : List ℕ)
    → AllBytes bytes
    → wrapping_atou bytes ≡ (if all_digits bytes then some (value bytes % word_mod) else none)
unfolding wrapping_atou
wrapping_atou_lem bytes b = wrapping_loop bytes 0 b

value-lt-word_mod :
    (bytes : List ℕ) → all_digits bytes ≡ true → length bytes ≤ 19 → value bytes < word_mod
value-lt-word_mod bytes d h =
    let p : 10 ^ length bytes ≤ 10 ^ 19 = pow-le-pow_right (omega arith) h in
    omega (arith, value_from-lt bytes 0 d)

-- On 1 to 19 bytes the unchecked `wrapping_atou` is `atou`: no such number wraps around.
atou-wrapping_atou :
    (bytes : List ℕ)
    → AllBytes bytes
    → 1 ≤ length bytes
    → length bytes ≤ 19
    → atou bytes ≡ wrapping_atou bytes
atou-wrapping_atou bytes b lo hi = elim (Bool-cases (all_digits bytes)) [
  | inl d ↦
      ground (arith, atou_lem bytes b, wrapping_atou_lem bytes b, value-lt-word_mod bytes d hi)
  | inr d ↦ ground (arith, atou_lem bytes b, wrapping_atou_lem bytes b)
]
