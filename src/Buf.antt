-- ===== src/Buf.antt =====
-- The trait `Buf` of src/bytes/buf.rs and its implementations for slices, `Take` (src/bytes/take.rs)
-- and `Chain` (src/bytes/chain.rs). An operation that takes `&mut self` returns the new cursor; a
-- panic is `none`.
pub mod Lawful
pub mod Copy
pub mod Adapters
pub mod Ints
pub mod Slots
pub mod Vectored
pub mod Gather
pub mod Getters
mod Tests
use tcio.Base.{
  ℕ, ◌/◌, zero, suc, ◌+◌, ◌-◌, ◌*◌, ◌^◌, min, Bool, true, false, Option, none, some, List, [], ◌∷◌,
  ◌++◌, length, take, drop, ltb, leb, if◌then◌else◌, ◌==◌, ◌%◌,
}
use tcio.Base.Words.{word_mod}

-- The required methods.
pub record Buf (S : Type 0) : Type 0 where
  pub remaining : S → ℕ
  pub chunk : S → List ℕ
  pub advance : ℕ → S → Option S

-- `impl Buf for &[u8]`
abbrev pub slice_buf : Buf (List ℕ)
slice_buf = record {
  remaining = λ xs. length xs;
  chunk = λ xs. xs;
  advance = λ cnt xs. if leb cnt (length xs) then some (drop cnt xs) else none;
}

pub record Take (S : Type 0) : Type 0 where
  pub inner : S
  pub limit : ℕ

abbrev pub take_buf : {S : Type 0} → Buf S → Buf (Take S)
take_buf B = record {
  remaining = λ t. min (B.remaining t.inner) t.limit;
  chunk = λ t. take (min (length (B.chunk t.inner)) t.limit) (B.chunk t.inner);
  advance = λ cnt t.
      if leb cnt t.limit
      then elim (B.advance cnt t.inner) [
        | none ↦ none
        | some inner ↦ some (record { inner = inner; limit = t.limit - cnt })
      ]
      else none;
}

pub record Chain (S T : Type 0) : Type 0 where
  pub a : S
  pub b : T

abbrev pub saturating_add : ℕ → ℕ → ℕ
saturating_add m n = min (m + n) (word_mod - 1)

-- `self.a.advance(a_rem.min(cnt))`, then the rest in `b` where there is one.
pub chain_advance : {S T : Type 0} → Buf S → Buf T → ℕ → Chain S T → Option (Chain S T)
chain_advance A B cnt c =
    let a_rem = A.remaining c.a in
    elim (A.advance (min a_rem cnt) c.a) [
      | none ↦ none
      | some a ↦
          if ltb cnt a_rem
          then some (record { a = a; b = c.b })
          else elim (B.advance (cnt - a_rem) c.b) [
            | none ↦ none
            | some b ↦ some (record { a = a; b = b })
          ]
    ]

abbrev pub chain_buf : {S T : Type 0} → Buf S → Buf T → Buf (Chain S T)
chain_buf A B = record {
  remaining = λ c. saturating_add (A.remaining c.a) (B.remaining c.b);
  chunk = λ c. if ltb 0 (A.remaining c.a) then A.chunk c.a else B.chunk c.b;
  advance = chain_advance A B;
}

module _ {S : Type 0} (B : Buf S) where
  pub has_remaining : S → Bool
  has_remaining s = ltb 0 (B.remaining s)

  -- The loop of `copy_to_slice`, with `n` bytes of `dst` still to fill. Each round of it fills one
  -- byte at least, so that the length of `dst` is fuel enough.
  pub copy_loop : (fuel n : ℕ) → S → Option (List ℕ × S)
  copy_loop zero n s = if n == 0 then some ([], s) else none
  copy_loop (suc fuel) n s =
      if n == 0
      then some ([], s)
      else let src = B.chunk s in
        let cnt = min (length src) n in
        elim (B.advance cnt s) [
          | none ↦ none
          | some s' ↦ elim (copy_loop fuel (n - cnt) s') [
            | none ↦ none
            | some (ys, s'') ↦ some (take cnt src ++ ys, s'')
          ]
        ]

  -- `none` is the panic of the assertion.
  pub copy_to_slice : ℕ → S → Option (List ℕ × S)
  copy_to_slice n s = if leb n (B.remaining s) then copy_loop n n s else none

  -- The outer `none` is a panic of `advance`.
  pub try_get_u8 : S → Option (Option ℕ × S)
  try_get_u8 s = elim (B.chunk s) [
    | [] ↦ some (none, s)
    | b ∷ _ ↦ elim (B.advance 1 s) [ none ↦ none | some s' ↦ some (some b, s') ]
  ]

  -- `try_get_u16`, `try_get_u32`, ... for an integer of `size` bytes with the conversion `from_bytes`.
  pub try_get_int : (size : ℕ) → (from_bytes : List ℕ → ℕ) → S → Option (Option ℕ × S)
  try_get_int size from_bytes s = elim (copy_to_slice size s) [
    | none ↦ none
    | some (chunk, s') ↦ some (some (from_bytes chunk), s')
  ]

-- `from_be_bytes`, `from_le_bytes` and `to_be_bytes`, `to_le_bytes` of an unsigned integer.
pub from_le_bytes : List ℕ → ℕ
from_le_bytes [] = 0
from_le_bytes (b ∷ bs) = b + 256 * from_le_bytes bs

pub to_le_bytes : (size : ℕ) → ℕ → List ℕ
to_le_bytes zero n = []
to_le_bytes (suc size) n = (n % 256) ∷ to_le_bytes size (n / 256)

-- `try_get_u16_le` and its kin for the unsigned integers of `size` bytes.
abbrev pub try_get_le : {S : Type 0} → Buf S → ℕ → S → Option (Option ℕ × S)
try_get_le B size = try_get_int B size from_le_bytes

-- The overridden `copy_to_slice` of `&[u8]`.
pub slice_copy_to_slice : ℕ → List ℕ → Option (List ℕ × List ℕ)
slice_copy_to_slice n xs = if leb n (length xs) then some (take n xs, drop n xs) else none
