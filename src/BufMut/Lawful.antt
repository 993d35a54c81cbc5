-- ===== src/BufMut/Lawful.antt =====
-- What src/bytes/buf_mut.rs asks of an implementation of `BufMut`.
use tcio.Base.{ℕ, ◌-◌, ◌≤◌, ◌<◌, ◌≡◌, List, length, ◌++◌, refl, arith}
use tcio.Base.Words.{word_mod}
use tcio.BufMut.{BufMut, SliceMut, slice_mut}

-- The targets in `Valid` have the bytes `written` before the cursor.
pub record LawfulMut {W : Type 0} (D : BufMut W) (Valid : W → Type 0) (written : W → List ℕ)
    : Type 0 where
  pub chunk_fits : (w : W) → Valid w → D.chunk_len w ≤ D.remaining_mut w
  pub chunk_some : (w : W) → Valid w → 0 < D.remaining_mut w → 0 < D.chunk_len w
  pub fill_valid : (xs : List ℕ) (w : W) → Valid w → length xs ≤ D.chunk_len w → Valid (D.fill xs w)
  pub fill_written :
      (xs : List ℕ) (w : W)
      → Valid w
      → length xs ≤ D.chunk_len w
      → written (D.fill xs w) ≡ written w ++ xs
  pub fill_remaining :
      (xs : List ℕ) (w : W)
      → Valid w
      → length xs ≤ D.chunk_len w
      → D.remaining_mut w - length xs ≤ D.remaining_mut (D.fill xs w)

-- What is left of a slice is a word.
abbrev pub IsSliceMut : SliceMut → Type 0
IsSliceMut me = me.rest < word_mod

-- A slice is a lawful target.
pub slice-LawfulMut : LawfulMut slice_mut IsSliceMut (λ me. me.written)
slice-LawfulMut = record {
  chunk_fits = λ w v. omega arith;
  chunk_some = λ w v pos. pos;
  fill_valid = λ xs w v le. omega arith;
  fill_written = λ xs w v le. refl;
  fill_remaining = λ xs w v le. omega arith;
}
