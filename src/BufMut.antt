-- ===== src/BufMut.antt =====
-- The trait `BufMut` of src/bytes/buf_mut.rs, with its default `put` and `put_slice`, and the
-- implementations for slices and `UninitSlice` (src/bytes/uninit_slice.rs). A panic is `none`.
pub mod Lawful
pub mod Put
pub mod Puts
pub mod Integers
pub mod Vecs
pub mod Chains
mod Tests
use tcio.Base.{
  ℕ, zero, suc, ◌+◌, ◌-◌, min, Bool, true, false, Option, none, some, List, [], ◌∷◌, ◌++◌, length,
  take, drop, ltb, leb, if◌then◌else◌, ◌==◌,
}
use tcio.Buf.{Buf}

-- `chunk_mut` gives a slice of `chunk_len` bytes; `fill` writes at its start as many bytes as the
-- list has, and moves the cursor behind them by `advance_mut`.
pub record BufMut (W : Type 0) : Type 0 where
  pub remaining_mut : W → ℕ
  pub chunk_len : W → ℕ
  pub fill : List ℕ → W → W

-- What was written before the cursor, and how many bytes are behind it.
pub record SliceMut : Type 0 where
  pub written : List ℕ
  pub rest : ℕ

-- `impl BufMut for &mut [u8]`, and that for `&mut [MaybeUninit<u8>]` and `&mut UninitSlice`.
abbrev pub slice_mut : BufMut SliceMut
slice_mut = record {
  remaining_mut = λ me. me.rest;
  chunk_len = λ me. me.rest;
  fill = λ xs me. record { written = me.written ++ xs; rest = me.rest - length xs };
}

-- The `put_slice` that `&mut [u8]` overrides.
pub slice_put_slice : List ℕ → SliceMut → Option SliceMut
slice_put_slice src me =
    if ltb me.rest (length src)
    then none
    else some (record { written = me.written ++ src; rest = me.rest - length src })

module _ {W : Type 0} (D : BufMut W) where
  -- The loop of `put_slice`: each round takes one byte of `src` at least.
  pub put_slice_loop : (fuel : ℕ) → List ℕ → W → Option W
  put_slice_loop zero src w = if length src == 0 then some w else none
  put_slice_loop (suc fuel) src w =
      let cnt = min (length src) (D.chunk_len w) in
      if length src == 0
      then some w
      else put_slice_loop fuel (drop cnt src) (D.fill (take cnt src) w)

  unfoldable pub put_slice : List ℕ → W → Option W
  put_slice src w =
      if ltb (D.remaining_mut w) (length src) then none else put_slice_loop (length src) src w

  module _ {S : Type 0} (B : Buf S) where
    -- The loop of `put`: each round takes one byte of `src` at least.
    unfoldable pub put_loop : (fuel : ℕ) → S → W → Option W
    put_loop zero src w = if B.remaining src == 0 then some w else none
    put_loop (suc fuel) src w =
        let cnt = min (length (B.chunk src)) (D.chunk_len w) in
        if B.remaining src == 0 then some w else elim (B.advance cnt src) [
          | none ↦ none
          | some src' ↦ put_loop fuel src' (D.fill (take cnt (B.chunk src)) w)
        ]

    unfoldable pub put : S → W → Option W
    put src w =
        if ltb (D.remaining_mut w) (B.remaining src) then none else put_loop (B.remaining src) src w
