-- ===== src/Buf/Copy.antt =====
-- `copy_to_slice` of src/bytes/buf.rs.
use tcio.Base.{
  ℕ, ◌+◌, zero, suc, ◌-◌, ◌≤◌, ◌<◌, ◌≡◌, refl, sym, ◌∙◌, ap, ◌++◌, List, length, take, drop, min,
  Option, none, some, arith, true, false, leb, ◌==◌, take-take, take_all, take-append-take,
  drop-drop, length-drop,
}
use tcio.Buf.{Buf, copy_loop, copy_to_slice, slice_buf, slice_copy_to_slice}
use tcio.Buf.Lawful.{Lawful, Moved}
use native.Mathlib.Decide.{ℕ_discrete, dec_le}

module _ {S : Type 0} {B : Buf S} {V : S → Type 0} {content : S → List ℕ}
    (L : Lawful B V content) where
  -- `n` bytes were copied and the cursor stands behind them.
  abbrev pub Copied : ℕ → List ℕ → Option (List ℕ × S) → Type 0
  Copied n xs none = ⊥
  Copied n xs (some (ys, s)) = (ys ≡ take n xs) × V s × (content s ≡ drop n xs)

  abbrev next : (fuel n cnt : ℕ) → List ℕ → Option S → Option (List ℕ × S)
  next fuel n cnt src r = elim r [
    | none ↦ none
    | some s' ↦ elim (copy_loop B fuel (n - cnt) s') [
      | none ↦ none
      | some (ys, s'') ↦ some (take cnt src ++ ys, s'')
    ]
  ]

  joined :
      (n cnt : ℕ) (src xs : List ℕ)
      → cnt ≤ n
      → take cnt src ≡ take cnt xs
      → (r : Option (List ℕ × S)) → Copied (n - cnt) (drop cnt xs) r
      → Copied n xs (elim r [ none ↦ none | some (ys, s'') ↦ some (take cnt src ++ ys, s'') ])
  joined n cnt src xs le e none c = absurd c
  joined n cnt src xs le e (some (ys, s)) (same, valid, rest) =
      let d : cnt + (n - cnt) ≡ n = omega arith in
      (
        rw (e, same) (take-append-take cnt n xs le),
        valid,
        rest ∙ drop-drop cnt (n - cnt) xs ∙ ap (λ k. drop k xs) d,
      )

  abbrev Induction : ℕ → Type 0
  Induction fuel =
      (n : ℕ) (s : S)
      → V s
      → n ≤ fuel
      → n ≤ length (content s)
      → Copied n (content s) (copy_loop B fuel n s)

  after :
      (fuel n cnt : ℕ) (src xs : List ℕ)
      → Induction fuel
      → 0 < cnt
      → cnt ≤ n
      → n ≤ suc fuel
      → n ≤ length xs
      → take cnt src ≡ take cnt xs
      → (r : Option S) → Moved V content cnt xs r
      → Copied n xs (next fuel n cnt src r)
  after fuel n cnt src xs ih pos le' enough' fit pre none m = absurd m
  after fuel n cnt src xs ih pos le' enough' fit pre (some s') (v', e) =
      joined n cnt src xs le' pre (copy_loop B fuel (n - cnt) s') (
        rw e at (
          ih (n - cnt) s' v' (omega arith)
            (omega (arith, ap (λ l. length l) e ∙ length-drop cnt xs))))

  copy_loop_lem :
      (fuel n : ℕ) (s : S)
      → V s
      → n ≤ fuel
      → n ≤ length (content s)
      → Copied n (content s) (copy_loop B fuel n s)
  unfolding copy_loop
  copy_loop_lem zero n s v enough le = let z : n ≡ 0 = omega arith in rw z (refl, v, refl)
  copy_loop_lem (suc fuel) n s v enough le = elim (ℕ_discrete n 0) [
    | yes z ↦ rw z (refl, v, refl)
    | no nz ↦
        let t : (n == 0) ≡ false = ground arith in
        let some_chunk = L.chunk_some s v (omega arith) in
        let cnt = min (length (B.chunk s)) n in
        let pre : take cnt (B.chunk s) ≡ take cnt (content s) =
          ap (λ c. take cnt c) (L.chunk_prefix s v)
          ∙ take-take cnt (length (B.chunk s)) (content s) (omega arith) in
        rw t (
          after fuel n cnt (B.chunk s) (content s) (copy_loop_lem fuel) (omega arith) (omega arith)
            (omega arith) le pre (B.advance cnt s) (L.advance_drop cnt s v (omega arith)))
  ]

  -- The default `copy_to_slice` on a valid cursor of a lawful buffer fills a slice that is not
  -- longer than what remains with the bytes at the cursor, in as many chunks as it takes, and moves
  -- the cursor behind them; on a longer slice it panics.
  pub copy_to_slice_lem :
      (n : ℕ) (s : S)
      → V s
      → (n ≤ length (content s) → Copied n (content s) (copy_to_slice B n s))
        × (length (content s) < n → copy_to_slice B n s ≡ none)
  unfolding copy_to_slice
  copy_to_slice_lem n s v =
      let e = L.remaining_length s v in
      (
        λ le.
            let t : leb n (B.remaining s) ≡ true = ground (arith, e) in
            rw t (copy_loop_lem n n s v (omega arith) le),
        λ lt. let t : leb n (B.remaining s) ≡ false = ground (arith, e) in rw t refl,
      )

-- A slice is a lawful buffer.
pub slice-Lawful : Lawful slice_buf (λ xs. Unit {0}) (λ xs. xs)
slice-Lawful = record {
  remaining_length = λ xs v. refl;
  chunk_prefix = λ xs v. sym (take_all (length xs) xs (omega arith));
  chunk_some = λ xs v pos. pos;
  advance_drop = λ n xs v le. let t : leb n (length xs) ≡ true = ground arith in rw t (tt, refl);
}

agree :
    (n : ℕ) (xs : List ℕ) (r : Option (List ℕ × List ℕ))
    → Copied slice-Lawful n xs r
    → r ≡ some (take n xs, drop n xs)
agree n xs none c = absurd c
agree n xs (some (ys, s)) (e, v, f) = cc

-- The `copy_to_slice` that `&[u8]` overrides does what the default one does on a slice, for every
-- length, panics included.
pub copy_to_slice-slice :
    (n : ℕ) (xs : List ℕ) → copy_to_slice slice_buf n xs ≡ slice_copy_to_slice n xs
unfolding slice_copy_to_slice
copy_to_slice-slice n xs = elim (dec_le n (length xs)) [
  | yes le ↦
      let t : leb n (length xs) ≡ true = ground arith in
      rw t
        (agree n xs (copy_to_slice slice_buf n xs) ((copy_to_slice_lem slice-Lawful n xs tt).0 le))
  | no gt ↦
      let t : leb n (length xs) ≡ false = ground arith in
      rw t ((copy_to_slice_lem slice-Lawful n xs tt).1 (omega arith))
]
