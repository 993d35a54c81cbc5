-- ===== src/BufMut/Vecs.antt =====
-- `impl BufMut for Vec<u8>` in src/bytes/buf_mut.rs. `grow` is the capacity that the standard
-- library picks for a vector of a capacity and a length that asks for so many bytes more.
use tcio.Base.{
  ℕ, zero, suc, ◌+◌, ◌-◌, ◌≤◌, ◌<◌, ◌≡◌, refl, sym, ap, ◌∙◌, Option, some, none, List, ◌++◌, length,
  take, arith, ltb, leb, ◌==◌, if◌then◌else◌, true, false, append_assoc, append_nil,
  take-append-drop, take_all, length-take, length-drop, length-append,
}
use tcio.Base.Words.{isize_max}
use tcio.Buf.{Buf}
use tcio.Buf.Lawful.{Lawful, Moved}
use mathlib.Core.Path.{subst}
use native.Mathlib.Decide.{dec_lt, dec_le}

-- The bytes of a vector and its capacity.
pub record VecMut : Type 0 where
  pub written : List ℕ
  pub cap : ℕ

abbrev pub Growth : Type 0
Growth = (cap len additional : ℕ) → ℕ

-- Enough, and no more than an allocation may have.
abbrev pub Grows : Growth → Type 0
Grows grow =
    (cap len additional : ℕ)
    → len + additional ≤ isize_max
    → (len + additional ≤ grow cap len additional) × (grow cap len additional ≤ isize_max)

pub remaining_mut : VecMut → ℕ
remaining_mut me = isize_max - length me.written

module _ (grow : Growth) where
  -- `Vec::reserve`, which panics if the length would pass `isize::MAX`.
  abbrev reserve : ℕ → VecMut → Option VecMut
  reserve additional me =
      if leb additional (me.cap - length me.written)
      then some me
      else if ltb isize_max (length me.written + additional)
      then none
      else some (record me { cap = grow me.cap (length me.written) additional })

  -- The vector, and the size of the slice that is returned.
  pub chunk_mut : VecMut → Option (VecMut × ℕ)
  chunk_mut me = elim (if me.cap == length me.written then reserve 64 me else some me) [
    | none ↦ none
    | some me' ↦ some (me', me'.cap - length me'.written)
  ]

  -- `Vec::extend_from_slice`
  pub put_slice : List ℕ → VecMut → Option VecMut
  put_slice src me = elim (reserve (length src) me) [
    | none ↦ none
    | some me' ↦ some (record me' { written = me'.written ++ src })
  ]

  module _ {S : Type 0} (B : Buf S) where
    -- The loop of `put`: each round takes one byte of `src` at least.
    pub put_loop : (fuel : ℕ) → S → VecMut → Option VecMut
    put_loop zero src me = if ltb 0 (B.remaining src) then none else some me
    put_loop (suc fuel) src me =
        if ltb 0 (B.remaining src)
        then elim (put_slice (B.chunk src) me) [
          | none ↦ none
          | some me' ↦ elim (B.advance (length (B.chunk src)) src) [
            | none ↦ none
            | some src' ↦ put_loop fuel src' me'
          ]
        ]
        else some me

    pub put : S → VecMut → Option VecMut
    put src me = elim (reserve (B.remaining src) me) [
      | none ↦ none
      | some me' ↦ put_loop (B.remaining src) src me'
    ]

-- A vector fits its capacity, and its capacity an allocation.
pub record IsVecMut (me : VecMut) : Type 0 where
  pub fit : length me.written ≤ me.cap
  pub small : me.cap ≤ isize_max

-- The vector is sound and has just these bytes.
abbrev pub Has : List ℕ → Option VecMut → Type 0
Has all none = ⊥
Has all (some me) = IsVecMut me × (me.written ≡ all)

module _ (grow : Growth) (grows : Grows grow) where
  -- Room for `n` bytes more.
  abbrev Roomy : ℕ → VecMut → Option VecMut → Type 0
  Roomy n me none = ⊥
  Roomy n me (some me') =
      IsVecMut me' × (me'.written ≡ me.written) × (length me'.written + n ≤ me'.cap)

  reserve_lem :
      (n : ℕ) (me : VecMut)
      → IsVecMut me
      → length me.written + n ≤ isize_max
      → Roomy n me (reserve grow n me)
  reserve_lem n me v fits = elim (dec_le n (me.cap - length me.written)) [
    | yes room ↦
        let t : leb n (me.cap - length me.written) ≡ true = ground arith in
        rw t (v, refl, omega (arith, v.fit))
    | no short ↦
        let t : leb n (me.cap - length me.written) ≡ false = ground arith in
        let t' : ltb isize_max (length me.written + n) ≡ false = ground arith in
        let (enough, small) = grows me.cap (length me.written) n fits in
        rw (t, t') (record { fit = omega (arith, enough); small = small }, refl, enough)
  ]

  reserve-panic :
      (n : ℕ) (me : VecMut)
      → IsVecMut me
      → isize_max < length me.written + n
      → reserve grow n me ≡ none
  reserve-panic n me v over =
      let t : leb n (me.cap - length me.written) ≡ false = ground (arith, v.fit, v.small) in
      let t' : ltb isize_max (length me.written + n) ≡ true = ground arith in rw (t, t') refl

  put_slice-room :
      (src : List ℕ) (me : VecMut)
      → length me.written + length src ≤ me.cap
      → put_slice grow src me ≡ some (record me { written = me.written ++ src })
  unfolding put_slice
  put_slice-room src me room = ground arith

  module _ {S : Type 0} {B : Buf S} {V : S → Type 0} {content : S → List ℕ}
      (L : Lawful B V content) where
    abbrev Induction : ℕ → Type 0
    Induction fuel =
        (s : S) (me : VecMut)
        → V s
        → IsVecMut me
        → length (content s) ≤ fuel
        → length me.written + length (content s) ≤ me.cap
        → Has (me.written ++ content s) (put_loop grow B fuel s me)

    nothing_left :
        (s : S) (me : VecMut)
        → IsVecMut me
        → length (content s) ≡ 0
        → Has (me.written ++ content s) (some me)
    nothing_left s me v z = (
      v,
      sym (append_nil me.written)
          ∙ ap (λ l. me.written ++ l) (take_all 0 (content s) (omega arith)),
    )

    moved :
        (fuel : ℕ) (src xs : List ℕ) (me : VecMut)
        → Induction fuel
        → IsVecMut me
        → src ≡ take (length src) xs
        → length src ≤ length xs
        → 0 < length src
        → length xs ≤ suc fuel
        → length me.written + length xs ≤ me.cap
        → (r : Option S) → Moved V content (length src) xs r
        → Has (me.written ++ xs) (elim r [
          | none ↦ none
          | some s' ↦ put_loop grow B fuel s' (record me { written = me.written ++ src })
        ])
    moved fuel src xs me ih v pre le pos enough room none m = absurd m
    moved fuel src xs me ih v pre le pos enough room (some s') (vs, f) =
        let size : length (content s') + length src ≡ length xs =
          omega (arith, ap (λ l. length l) f, length-drop (length src) xs) in
        let joined : (me.written ++ src) ++ content s' ≡ me.written ++ xs =
          append_assoc me.written src (content s')
          ∙ ap (λ l. me.written ++ (l ++ content s')) pre
          ∙ ap (λ l. me.written ++ (take (length src) xs ++ l)) f
          ∙ ap (λ l. me.written ++ l) (take-append-drop (length src) xs) in
        let grown = length-append me.written src in
        rw joined at (
          ih s' (record me { written = me.written ++ src }) vs
            (record { fit = omega (arith, grown, size); small = v.small }) (omega (arith, size))
            (omega (arith, size, grown)))

    put_loop_lem : (fuel : ℕ) → Induction fuel
    unfolding put_loop
    put_loop_lem zero s me vs v bound room =
        let t : ltb 0 (B.remaining s) ≡ false = ground (arith, L.remaining_length s vs) in
        rw t (nothing_left s me v (omega arith))
    put_loop_lem (suc fuel) s me vs v bound room = elim (dec_lt 0 (length (content s))) [
      | no none_left ↦
          let t : ltb 0 (B.remaining s) ≡ false = ground (arith, L.remaining_length s vs) in
          rw t (nothing_left s me v (omega arith))
      | yes more ↦
          let t : ltb 0 (B.remaining s) ≡ true = ground (arith, L.remaining_length s vs) in
          let src = B.chunk s in
          let le : length src ≤ length (content s) = omega (
            arith,
            ap (λ l. length l) (L.chunk_prefix s vs),
            length-take (length src) (content s),
          ) in
          rw (t, put_slice-room src me (omega (arith, le)))
            (moved fuel src (content s) me (put_loop_lem fuel) v (L.chunk_prefix s vs) le
              (L.chunk_some s vs more) bound room (B.advance (length src) s)
              (L.advance_drop (length src) s vs le))
    ]

    after_reserve :
        (s : S) (me : VecMut)
        → V s
        → (r : Option VecMut) → Roomy (B.remaining s) me r
        → Has
            (me.written ++ content s)
            (elim r [ none ↦ none | some me' ↦ put_loop grow B (B.remaining s) s me' ])
    after_reserve s me vs none roomy = absurd roomy
    after_reserve s me vs (some me') (v, same, room) =
        let size = L.remaining_length s vs in
        let p =
          put_loop_lem (B.remaining s) s me' vs v (omega (arith, size))
            (omega (arith, size, room)) in
        subst (λ l. Has (l ++ content s) (put_loop grow B (B.remaining s) s me')) same p

    -- `put` of a valid cursor of a lawful buffer into a vector: if the two fit `isize::MAX`, all of
    -- the source stands behind what the vector had, in however many chunks, and its capacity is one
    -- that an allocation may have; otherwise it panics.
    pub put_vec_lem :
        (s : S) (me : VecMut)
        → V s
        → IsVecMut me
        → (length (content s) ≤ remaining_mut me → Has (me.written ++ content s) (put grow B s me))
          × (remaining_mut me < length (content s) → put grow B s me ≡ none)
    unfolding put remaining_mut
    put_vec_lem s me vs v =
        let size = L.remaining_length s vs in
        (
          λ le.
              after_reserve s me vs (reserve grow (B.remaining s) me)
                (reserve_lem (B.remaining s) me v (omega (arith, size, v.fit, v.small))),
          λ gt.
              let stop = reserve-panic (B.remaining s) me v (omega (arith, size, v.fit, v.small)) in
              rw (stop, put) refl,
        )
