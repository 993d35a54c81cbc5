-- ===== src/Num/Signed.antt =====
-- `atoi` of src/num/num.rs against the integer that its input denotes.
use tcio.Base.{
  ℕ, ◌+◌, ◌-◌, ◌*◌, ◌^◌, ◌<◌, ◌≤◌, ◌≡◌, refl, none, some, Option, List, [], ◌∷◌, length, leb, ltb,
  ◌==◌, ◌&&◌, if◌then◌else◌, arith, Bool-cases, false, ◌≢◌, inl, true, ◌⊎◌, inr,
}
use tcio.Base.Int.{ℤ, pos, negsuc, ◌+ℤ◌, ◌*ℤ◌, sub_ℕ, ◌-ℤ◌}
use tcio.Num.{try_fold, atoi_step, atoi, split_sign, sign_value}
use tcio.Num.Unsigned.{is_digit, all_digits, value_from, value, AllBytes, le-value_from}

-- The integer -n.
abbrev minus : ℕ → ℤ
minus n = sub_ℕ 0 n

step_plus :
    (c acc : ℕ)
    → c < 256
    → atoi_step (pos 1) (pos acc) c ≡ (
        if is_digit c && ltb (acc * 10 + (c - b'0')) (2 ^ 63)
        then some (pos (acc * 10 + (c - b'0')))
        else none)
unfolding atoi_step ◌+ℤ◌ ◌*ℤ◌
step_plus c acc h = ground arith

step_minus :
    (c acc : ℕ)
    → c < 256
    → atoi_step (negsuc 0) (minus acc) c ≡ (
        if is_digit c && leb (acc * 10 + (c - b'0')) (2 ^ 63)
        then some (minus (acc * 10 + (c - b'0')))
        else none)
unfolding atoi_step ◌+ℤ◌ ◌*ℤ◌
step_minus c acc h = ground arith

loop_plus :
    (cs : List ℕ) (acc : ℕ)
    → AllBytes cs
    → acc < 2 ^ 63
    → try_fold (atoi_step (pos 1)) (pos acc) cs ≡ (
        if all_digits cs && ltb (value_from acc cs) (2 ^ 63)
        then some (pos (value_from acc cs))
        else none)
unfolding try_fold
loop_plus [] acc b h = ground arith
loop_plus (c ∷ cs) acc b h = ground (
  arith,
  step_plus c acc,
  le-value_from cs (acc * 10 + (c - b'0')),
  loop_plus cs (acc * 10 + (c - b'0')) b.1,
)

loop_minus :
    (cs : List ℕ) (acc : ℕ)
    → AllBytes cs
    → acc ≤ 2 ^ 63
    → try_fold (atoi_step (negsuc 0)) (minus acc) cs ≡ (
        if all_digits cs && leb (value_from acc cs) (2 ^ 63)
        then some (minus (value_from acc cs))
        else none)
unfolding try_fold
loop_minus [] acc b h = ground arith
loop_minus (c ∷ cs) acc b h = ground (
  arith,
  step_minus c acc,
  le-value_from cs (acc * 10 + (c - b'0')),
  loop_minus cs (acc * 10 + (c - b'0')) b.1,
)

-- At least one digit, and a number of the range.
abbrev plus_value : List ℕ → Option ℤ
plus_value cs =
    if leb 1 (length cs) && all_digits cs && ltb (value cs) (2 ^ 63)
    then some (pos (value cs))
    else none

abbrev minus_value : List ℕ → Option ℤ
minus_value cs =
    if leb 1 (length cs) && all_digits cs && leb (value cs) (2 ^ 63)
    then some (minus (value cs))
    else none

-- The integer that an optional sign and digits denote, if it is an `i64`.
abbrev signed_value : List ℕ → Option ℤ
signed_value [] = none
signed_value (c ∷ cs) =
    if c == b'+' then plus_value cs else if c == b'-' then minus_value cs else plus_value (c ∷ cs)

atoi_long :
    (bytes : List ℕ)
    → leb (length bytes) 20 ≡ false
    → atoi bytes ≡ (if leb (length bytes) 20 then signed_value bytes else none)
unfolding atoi
atoi_long bytes h = ground arith

split_plus :
    (c d : ℕ) (rest : List ℕ) → c ≡ b'+' → split_sign (c ∷ d ∷ rest) ≡ some (pos 1, d ∷ rest)
unfolding split_sign sign_value ◌-ℤ◌
split_plus c d rest e = ground arith

split_minus :
    (c d : ℕ) (rest : List ℕ) → c ≡ b'-' → split_sign (c ∷ d ∷ rest) ≡ some (negsuc 0, d ∷ rest)
unfolding split_sign sign_value ◌-ℤ◌
split_minus c d rest e = ground arith

-- A sign and nothing behind it.
split_bare : (c : ℕ) → ((c ≡ b'+') ⊎ (c ≡ b'-')) → split_sign (c ∷ []) ≡ none
unfolding split_sign
split_bare c h = ground arith

split_none :
    (c : ℕ) (rest : List ℕ) → c ≢ b'+' → c ≢ b'-' → split_sign (c ∷ rest) ≡ some (pos 1, c ∷ rest)
unfolding split_sign
split_none c [] p m = ground arith
split_none c (d ∷ rest) p m = ground arith

atoi_short :
    (bytes : List ℕ)
    → AllBytes bytes
    → leb (length bytes) 20 ≡ true
    → atoi bytes ≡ (if leb (length bytes) 20 then signed_value bytes else none)
unfolding atoi
atoi_short [] b h = unfold split_sign in refl
atoi_short (c ∷ []) b h = ground (arith, split_bare c, split_none c [], loop_plus (c ∷ []) 0 b)
atoi_short (c ∷ d ∷ rest) b h = ground (
  arith,
  split_plus c d rest,
  split_minus c d rest,
  split_none c (d ∷ rest),
  loop_plus (d ∷ rest) 0 b.1,
  loop_minus (d ∷ rest) 0 b.1,
  loop_plus (c ∷ d ∷ rest) 0 b,
)

-- `atoi` reads at most 20 bytes, an optional sign and at least one digit that denote an integer
-- from -2 ^ 63 to 2 ^ 63 - 1, as that integer, and refuses every other sequence of bytes.
pub atoi_lem :
    (bytes : List ℕ)
    → AllBytes bytes
    → atoi bytes ≡ (if leb (length bytes) 20 then signed_value bytes else none)
atoi_lem bytes b = elim (Bool-cases (leb (length bytes) 20)) [
  | inl short ↦ atoi_short bytes b short
  | inr long ↦ atoi_long bytes long
]
