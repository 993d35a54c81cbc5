-- ===== src/Num.antt =====
-- src/num/num.rs: decimal integers read from ASCII bytes. A byte is a number below 256, a `u64`
-- a number below 2 ^ 64, an `i64` an integer of its range.
pub mod Unsigned
pub mod Signed
mod Tests
use tcio.Base.{
  ℕ, ◌+◌, ◌-◌, ◌*◌, ◌%◌, ◌^◌, Bool, Option, none, some, List, [], ◌∷◌, length, leb, ltb, ◌==◌, ◌||◌,
  ◌&&◌, if◌then◌else◌, and_then,
}
use tcio.Base.Words.{word_mod}
use tcio.Base.Int.{ℤ, pos, negsuc, pos_part, neg_part, ◌+ℤ◌, ◌-ℤ◌, ◌*ℤ◌}

abbrev pub u64_max_ch : ℕ
u64_max_ch = 20

abbrev pub i64_max_ch : ℕ
i64_max_ch = 20

-- `Iterator::try_fold`, which stops at the first `none`.
pub try_fold : {S : Type 0} → (S → ℕ → Option S) → S → List ℕ → Option S
try_fold f acc [] = some acc
try_fold f acc (x ∷ xs) = elim (f acc x) [ none ↦ none | some acc' ↦ try_fold f acc' xs ]

-- `next.wrapping_sub(b'0')` on a `u8`.
abbrev pub digit : ℕ → ℕ
digit c = (c + 256 - b'0') % 256

abbrev pub checked_u64 : ℕ → Option ℕ
checked_u64 n = if ltb n word_mod then some n else none

-- The closure of `atou`.
pub atou_step : ℕ → ℕ → Option ℕ
atou_step acc next =
    if leb (digit next) 9
    then and_then (checked_u64 (acc * 10)) (λ n. checked_u64 (n + digit next))
    else none

pub atou : List ℕ → Option ℕ
unfolding try_fold atou_step
atou bytes =
    if ltb u64_max_ch (length bytes) || length bytes == 0 then none else try_fold atou_step 0 bytes

-- The closure of `wrapping_atou`.
pub wrapping_atou_step : ℕ → ℕ → Option ℕ
wrapping_atou_step acc next =
    if leb (digit next) 9 then some ((acc * 10 % word_mod + digit next) % word_mod) else none

pub wrapping_atou : List ℕ → Option ℕ
unfolding try_fold wrapping_atou_step
wrapping_atou bytes = try_fold wrapping_atou_step 0 bytes

-- An `i64` holds -2 ^ 63 to 2 ^ 63 - 1.
abbrev pub fits_i64 : ℤ → Bool
fits_i64 a = ltb (pos_part a) (2 ^ 63) && leb (neg_part a) (2 ^ 63)

abbrev pub checked_i64 : ℤ → Option ℤ
checked_i64 a = if fits_i64 a then some a else none

-- The closure of `atoi`, under the sign that the prefix gave.
pub atoi_step : ℤ → ℤ → ℕ → Option ℤ
atoi_step sign acc next =
    if leb (digit next) 9
    then and_then (checked_i64 (acc *ℤ pos 10)) (λ n. checked_i64 (n +ℤ pos (digit next) *ℤ sign))
    else none

abbrev is_sign : ℕ → Bool
is_sign c = c == b'+' || c == b'-'

-- `-(*sign.0 as i8).wrapping_sub(0x2C)`
pub sign_value : ℕ → ℤ
sign_value c = pos 0 -ℤ (pos c -ℤ pos 0x2c)

-- The `match` on `bytes.split_first()`.
pub split_sign : List ℕ → Option (ℤ × List ℕ)
split_sign [] = none
split_sign (c ∷ []) = if is_sign c then none else some (pos 1, c ∷ [])
split_sign (c ∷ d ∷ rest) =
    if is_sign c then some (sign_value c, d ∷ rest) else some (pos 1, c ∷ d ∷ rest)

pub atoi : List ℕ → Option ℤ
atoi bytes = if ltb i64_max_ch (length bytes) then none else elim (split_sign bytes) [
  | none ↦ none
  | some (sign, rest) ↦ try_fold (atoi_step sign) (pos 0) rest
]
