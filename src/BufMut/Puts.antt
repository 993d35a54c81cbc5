-- ===== src/BufMut/Puts.antt =====
-- `put_u8`, `put_i8` and `put_u16` and its kin of src/bytes/buf_mut.rs.
use tcio.Base.{
  ℕ, ◌<◌, ◌≡◌, refl, min, Option, some, none, List, [], ◌∷◌, ◌++◌, arith, ltb, if◌then◌else◌, true,
  false,
}
use tcio.Base.Int.{ℤ}
use tcio.Buf.{slice_buf, to_le_bytes}
use tcio.Buf.Getters.{to_be_bytes, as_u8, IsI8, as_i8-as_u8, try_get_i8}
use tcio.BufMut.{BufMut, put_slice, put_slice_loop}
use tcio.BufMut.Lawful.{LawfulMut}
use tcio.BufMut.Put.{Wrote}
use native.Mathlib.Decide.{dec_lt}

module _ {W : Type 0} (D : BufMut W) where
  -- `remaining_mut_fail` is the panic.
  pub put_u8 : ℕ → W → Option W
  put_u8 n w = if ltb 0 (D.remaining_mut w) then some (D.fill (n ∷ []) w) else none

  pub put_i8 : ℤ → W → Option W
  put_i8 n w = if ltb 0 (D.remaining_mut w) then some (D.fill (as_u8 n ∷ []) w) else none

  unfoldable pub put_int : (size : ℕ) → (to_bytes : ℕ → ℕ → List ℕ) → ℕ → W → Option W
  put_int size to_bytes n w = put_slice D (to_bytes size n) w

-- `put_u16`, `put_u16_le` and their kin for the unsigned integers of `size` bytes.
abbrev pub put_be : {W : Type 0} → BufMut W → ℕ → ℕ → W → Option W
put_be D size = put_int D size to_be_bytes

abbrev pub put_le : {W : Type 0} → BufMut W → ℕ → ℕ → W → Option W
put_le D size = put_int D size to_le_bytes

module _ {W : Type 0} {D : BufMut W} {Valid : W → Type 0} {written : W → List ℕ}
    (L : LawfulMut D Valid written) where
  -- `put_u8` into a lawful target is `put_slice` of one byte, panics included.
  put_u8-put_slice : (n : ℕ) (w : W) → Valid w → put_u8 D n w ≡ put_slice D (n ∷ []) w
  unfolding put_u8 put_slice put_slice_loop
  put_u8-put_slice n w ok = elim (dec_lt 0 (D.remaining_mut w)) [
    | yes room ↦
        let t : ltb 0 (D.remaining_mut w) ≡ true = ground arith in
        let t' : ltb (D.remaining_mut w) 1 ≡ false = ground arith in
        let one : min 1 (D.chunk_len w) ≡ 1 = omega (arith, L.chunk_some w ok room) in
        rw (t, t', one) refl
    | no full ↦
        let t : ltb 0 (D.remaining_mut w) ≡ false = ground arith in
        let t' : ltb (D.remaining_mut w) 1 ≡ true = ground arith in rw (t, t') refl
  ]

  -- An `i8` that is put into a lawful target with room, and then read, is the same `i8`, and the
  -- cursor that reads it stands behind it.
  try_get_i8-put_i8 :
      (n : ℤ) (w : W) (rest : List ℕ)
      → Valid w
      → IsI8 n
      → 0 < D.remaining_mut w
      → Wrote L (written w ++ (as_u8 n ∷ [])) (put_i8 D n w)
        × (try_get_i8 slice_buf (as_u8 n ∷ rest) ≡ some (some n, rest))
  unfolding put_i8 try_get_i8
  try_get_i8-put_i8 n w rest ok small room =
      let t : ltb 0 (D.remaining_mut w) ≡ true = ground arith in
      (
        rw t (
          L.fill_valid (as_u8 n ∷ []) w ok (omega (arith, L.chunk_some w ok room)),
          L.fill_written (as_u8 n ∷ []) w ok (omega (arith, L.chunk_some w ok room)),
        ),
        ground (arith, as_i8-as_u8 n small),
      )
