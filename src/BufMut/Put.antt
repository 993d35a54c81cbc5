-- ===== src/BufMut/Put.antt =====
-- `put` and `put_slice` of src/bytes/buf_mut.rs.
use tcio.Base.{
  ◌∷◌, drop_all, ℕ, zero, suc, ◌-◌, ◌≤◌, ◌<◌, ◌≡◌, refl, sym, ap, ◌∙◌, min, Option, some, none,
  List, [], length, take, drop, ◌++◌, arith, true, false, ◌==◌, ltb, append_assoc, append_nil,
  take-append-drop, take-take, take_all, length-take, length-drop,
}
use tcio.Buf.{Buf}
use tcio.Buf.Lawful.{Lawful, Moved}
use tcio.BufMut.{
  BufMut, put_slice, put_slice_loop, put, put_loop, SliceMut, slice_mut, slice_put_slice,
}
use tcio.BufMut.Lawful.{LawfulMut}
use native.Mathlib.Decide.{ℕ_discrete, dec_lt}

module _ {W : Type 0} {D : BufMut W} {Valid : W → Type 0} {written : W → List ℕ}
    (L : LawfulMut D Valid written) where
  -- The target is valid and all of the list is written in it.
  abbrev pub Wrote : List ℕ → Option W → Type 0
  Wrote all none = ⊥
  Wrote all (some w) = Valid w × (written w ≡ all)

  filled :
      (cnt : ℕ) (src : List ℕ) (w : W)
      → Valid w
      → cnt ≤ length src
      → cnt ≤ D.chunk_len w
      → Valid (D.fill (take cnt src) w)
        × (written (D.fill (take cnt src) w) ≡ written w ++ take cnt src)
        × (D.remaining_mut w - cnt ≤ D.remaining_mut (D.fill (take cnt src) w))
  filled cnt src w ok le fits =
      let size : length (take cnt src) ≡ cnt = omega (arith, length-take cnt src) in
      (
        L.fill_valid (take cnt src) w ok (omega arith),
        L.fill_written (take cnt src) w ok (omega arith),
        omega (arith, L.fill_remaining (take cnt src) w ok (omega arith)),
      )

  nothing : (src : List ℕ) (w : W) → length src ≡ 0 → written w ≡ written w ++ src
  nothing src w e =
      sym (append_nil (written w)) ∙ ap (λ l. written w ++ l) (take_all 0 src (omega arith))

  put_slice_loop_lem :
      (fuel : ℕ) (src : List ℕ) (w : W)
      → Valid w
      → length src ≤ fuel
      → length src ≤ D.remaining_mut w
      → Wrote (written w ++ src) (put_slice_loop D fuel src w)
  unfolding put_slice_loop
  put_slice_loop_lem zero src w ok enough le =
      let t : (length src == 0) ≡ true = ground arith in rw t (ok, nothing src w (omega arith))
  put_slice_loop_lem (suc fuel) src w ok enough le = elim (ℕ_discrete (length src) 0) [
    | yes z ↦ let t : (length src == 0) ≡ true = ground arith in rw t (ok, nothing src w z)
    | no nz ↦
        let t : (length src == 0) ≡ false = ground arith in
        let cnt = min (length src) (D.chunk_len w) in
        let some_room = L.chunk_some w ok (omega arith) in
        let (ok', e, left) = filled cnt src w ok (omega arith) (omega arith) in
        let w' = D.fill (take cnt src) w in
        let ih =
          put_slice_loop_lem fuel (drop cnt src) w' ok' (omega (arith, length-drop cnt src))
            (omega (arith, length-drop cnt src)) in
        let joined : written w' ++ drop cnt src ≡ written w ++ src =
          ap (λ l. l ++ drop cnt src) e
          ∙ append_assoc (written w) (take cnt src) (drop cnt src)
          ∙ ap (λ l. written w ++ l) (take-append-drop cnt src) in
        rw t (rw joined at ih)
  ]

  -- The default `put_slice` into a valid lawful target: if the slice fits, all of it stands behind what
  -- was written before, in as many chunks as it takes; otherwise it panics.
  pub put_slice_lem :
      (src : List ℕ) (w : W)
      → Valid w
      → (length src ≤ D.remaining_mut w → Wrote (written w ++ src) (put_slice D src w))
        × (D.remaining_mut w < length src → put_slice D src w ≡ none)
  unfolding put_slice
  put_slice_lem src w ok = (
    λ le.
        let t : ltb (D.remaining_mut w) (length src) ≡ false = ground arith in
        rw t (put_slice_loop_lem (length src) src w ok (omega arith) le),
    λ lt. let t : ltb (D.remaining_mut w) (length src) ≡ true = ground arith in rw t refl,
  )

  module _ {S : Type 0} {B : Buf S} {V : S → Type 0} {content : S → List ℕ}
      (M : Lawful B V content) where
    abbrev Induction : ℕ → Type 0
    Induction fuel =
        (s : S) (w : W)
        → V s
        → Valid w
        → length (content s) ≤ fuel
        → length (content s) ≤ D.remaining_mut w
        → Wrote (written w ++ content s) (put_loop D B fuel s w)

    moved :
        (fuel cnt : ℕ) (xs src : List ℕ) (w : W)
        → Induction fuel
        → Valid w
        → 0 < cnt
        → cnt ≤ length src
        → length src ≤ length xs
        → src ≡ take (length src) xs
        → cnt ≤ D.chunk_len w
        → length xs ≤ suc fuel
        → length xs ≤ D.remaining_mut w
        → (r : Option S) → Moved V content cnt xs r
        → Wrote
            (written w ++ xs)
            (elim r [ none ↦ none | some s' ↦ put_loop D B fuel s' (D.fill (take cnt src) w) ])
    moved fuel cnt xs src w ih ok pos le short pre fits enough room none m = absurd m
    moved fuel cnt xs src w ih ok pos le short pre fits enough room (some s') (v, f) =
        let (ok', e, left) = filled cnt src w ok le fits in
        let size = length-drop cnt xs in
        let size' = ap (λ l. length l) f in
        let front : take cnt src ≡ take cnt xs =
          ap (λ c. take cnt c) pre ∙ take-take cnt (length src) xs le in
        let w' = D.fill (take cnt src) w in
        let joined : written w' ++ content s' ≡ written w ++ xs =
          ap (λ l. l ++ content s') e
          ∙ ap (λ l. (written w ++ take cnt src) ++ l) f
          ∙ append_assoc (written w) (take cnt src) (drop cnt xs)
          ∙ ap (λ l. written w ++ (l ++ drop cnt xs)) front
          ∙ ap (λ l. written w ++ l) (take-append-drop cnt xs) in
        rw joined at (ih s' w' v ok' (omega arith) (omega arith))

    put_loop_lem : (fuel : ℕ) → Induction fuel
    unfolding put_loop
    put_loop_lem zero s w v ok enough le =
        let t : (B.remaining s == 0) ≡ true = ground (arith, M.remaining_length s v) in
        rw t (ok, nothing (content s) w (omega arith))
    put_loop_lem (suc fuel) s w v ok enough le =
        let rl = M.remaining_length s v in
        elim (ℕ_discrete (B.remaining s) 0) [
          | yes z ↦
              let t : (B.remaining s == 0) ≡ true = ground arith in
              rw t (ok, nothing (content s) w (omega arith))
          | no nz ↦
              let t : (B.remaining s == 0) ≡ false = ground arith in
              let cnt = min (length (B.chunk s)) (D.chunk_len w) in
              let some_room = L.chunk_some w ok (omega arith) in
              let some_chunk = M.chunk_some s v (omega arith) in
              let short : length (B.chunk s) ≤ length (content s) = omega (
                arith,
                ap (λ l. length l) (M.chunk_prefix s v),
                length-take (length (B.chunk s)) (content s),
              ) in
              rw t (
                moved fuel cnt (content s) (B.chunk s) w (put_loop_lem fuel) ok (omega arith)
                  (omega arith) short (M.chunk_prefix s v) (omega arith) enough le (B.advance cnt s)
                  (M.advance_drop cnt s v (omega arith)))
        ]

    -- The default `put` of a valid cursor of a lawful buffer into a valid lawful target: if what
    -- remains fits, all of it stands behind what was written before, whatever the chunks of the two
    -- are; otherwise it panics.
    pub put_lem :
        (s : S) (w : W)
        → V s
        → Valid w
        → (length (content s) ≤ D.remaining_mut w → Wrote (written w ++ content s) (put D B s w))
          × (D.remaining_mut w < length (content s) → put D B s w ≡ none)
    unfolding put
    put_lem s w v ok =
        let rl = M.remaining_length s v in
        (
          λ le.
              let t : ltb (D.remaining_mut w) (B.remaining s) ≡ false = ground arith in
              rw t (put_loop_lem (B.remaining s) s w v ok (omega arith) le),
          λ lt. let t : ltb (D.remaining_mut w) (B.remaining s) ≡ true = ground arith in rw t refl,
        )

put_slice_loop-empty :
    {W : Type 0} (D : BufMut W) (fuel : ℕ) (w : W) → put_slice_loop D fuel [] w ≡ some w
unfolding put_slice_loop
put_slice_loop-empty D zero w = refl
put_slice_loop-empty D (suc fuel) w = refl

put_slice_loop-slice :
    (src : List ℕ) (p : List ℕ) (rest : ℕ)
    → length src ≤ rest
    → put_slice_loop slice_mut (length src) src (record { written = p; rest = rest })
      ≡ some (record { written = p ++ src; rest = rest - length src })
unfolding put_slice_loop
put_slice_loop-slice [] p rest le =
    let e : rest - 0 ≡ rest = omega arith in rw (e, append_nil p) refl
put_slice_loop-slice (x ∷ xs) p rest le =
    let cnt : min (suc (length xs)) rest ≡ suc (length xs) = omega arith in
    let all : take (length xs) xs ≡ xs = take_all (length xs) xs (omega arith) in
    let none_left : drop (length xs) xs ≡ [] = drop_all (length xs) xs (omega arith) in
    let t : (suc (length xs) == 0) ≡ false = ground arith in
    rw (t, cnt, all, none_left) (put_slice_loop-empty slice_mut (length xs) _)

-- The `put_slice` that `&mut [u8]` overrides does what the default one does on a slice, panics
-- included.
put_slice-slice :
    (src : List ℕ) (me : SliceMut) → put_slice slice_mut src me ≡ slice_put_slice src me
unfolding put_slice slice_put_slice
put_slice-slice src me = elim (dec_lt me.rest (length src)) [
  | yes lt ↦ let t : ltb me.rest (length src) ≡ true = ground arith in rw t refl
  | no ge ↦
      let t : ltb me.rest (length src) ≡ false = ground arith in
      rw t (put_slice_loop-slice src me.written me.rest (omega arith))
]
