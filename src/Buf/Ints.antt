-- ===== src/Buf/Ints.antt =====
-- The fixed-width integers of src/bytes/buf.rs, read from the bytes that src/bytes/buf_mut.rs puts.
use tcio.Base.{
  ℕ, zero, suc, ◌*◌, ◌/◌, ◌^◌, ◌<◌, ◌≡◌, refl, ap, List, ◌++◌, length, drop, take, some, none,
  arith, leb, true, take-append, drop-append, length-append, false,
}
use tcio.Buf.{slice_buf, try_get_le, try_get_int, from_le_bytes, to_le_bytes, slice_copy_to_slice}
use tcio.Buf.Copy.{copy_to_slice-slice}
use native.Mathlib.Numerals.{unary_clauses}

pub length-to_le_bytes : (size n : ℕ) → length (to_le_bytes size n) ≡ size
unfolding to_le_bytes
length-to_le_bytes zero n = refl
length-to_le_bytes (suc size) n = ap (λ k. suc k) (length-to_le_bytes size (n / 256))

pub from_le_bytes-to_le_bytes :
    (size n : ℕ) → n < 256 ^ size → from_le_bytes (to_le_bytes size n) ≡ n
unfolding from_le_bytes to_le_bytes
from_le_bytes-to_le_bytes zero n lt = omega (arith, simp unary_clauses at lt)
from_le_bytes-to_le_bytes (suc size) n lt =
    let step : 256 ^ suc size ≡ 256 ^ size * 256 = simp unary_clauses (omega arith) in
    rw (from_le_bytes-to_le_bytes size (n / 256) (omega (arith, step))) (omega arith)

-- An integer that fits `size` bytes is read back from the bytes that it was put as, in little
-- endian order, and the cursor of the slice stands behind them.
pub try_get_int-to_le_bytes :
    (size n : ℕ) (rest : List ℕ)
    → n < 256 ^ size
    → try_get_le slice_buf size (to_le_bytes size n ++ rest) ≡ some (some n, rest)
unfolding try_get_int slice_copy_to_slice
try_get_int-to_le_bytes size n rest lt =
    let e = length-to_le_bytes size n in
    let t : leb size (length (to_le_bytes size n ++ rest)) ≡ true =
      ground (arith, length-append (to_le_bytes size n) rest, e) in
    let front : take size (to_le_bytes size n ++ rest) ≡ to_le_bytes size n =
      rw e at (take-append (to_le_bytes size n) rest) in
    let back : drop size (to_le_bytes size n ++ rest) ≡ rest =
      rw e at (drop-append (to_le_bytes size n) rest) in
    ground (
      arith,
      copy_to_slice-slice size (to_le_bytes size n ++ rest),
      t,
      front,
      back,
      from_le_bytes-to_le_bytes size n lt,
    )

-- On a slice shorter than the integer, `try_get_u16` and its kin panic: they do not return `None`.
try_get_int-short :
    (size : ℕ) (from_bytes : List ℕ → ℕ) (xs : List ℕ)
    → length xs < size
    → try_get_int slice_buf size from_bytes xs ≡ none
unfolding try_get_int slice_copy_to_slice
try_get_int-short size from_bytes xs lt =
    let t : leb size (length xs) ≡ false = ground arith in
    ground (arith, copy_to_slice-slice size xs)
