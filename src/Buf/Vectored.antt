-- ===== src/Buf/Vectored.antt =====
-- What `chunks_vectored` in src/bytes promises, and who keeps the promise.
use tcio.Base.{
  ℕ, ◌-◌, ◌≤◌, ◌<◌, ◌≡◌, ◌⊎◌, inl, inr, min, List, [], ◌∷◌, ◌++◌, length, take, leb, ltb, ◌==◌,
  refl, sym, ap, ◌∙◌, arith, true, false, length-take, take_all, take-take-min, take-append_le,
  take-append_ge, append_nil,
}
use tcio.Buf.{Buf, Take}
use tcio.Buf.Lawful.{Lawful}
use tcio.Buf.Slots.{Slots, chunks_vectored, limit_slices, take_vectored}
use native.Mathlib.Decide.{dec_le, dec_lt, ℕ_discrete}

abbrev pub concat : List (List ℕ) → List ℕ
concat [] = []
concat (s ∷ ss) = s ++ concat ss

-- The slices fit `dst`, have the bytes to come from the first on, some of them if there are any,
-- and no slice if there are none.
pub record Fills {S : Type 0} (V : Slots S) (Valid : S → Type 0) (content : S → List ℕ)
    : Type 0 where
  pub fits : (n : ℕ) (s : S) → Valid s → length (V n s) ≤ n
  pub prefix :
      (n : ℕ) (s : S) → Valid s → concat (V n s) ≡ take (length (concat (V n s))) (content s)
  pub at_end : (n : ℕ) (s : S) → Valid s → length (content s) ≡ 0 → length (V n s) ≡ 0
  pub some_bytes :
      (n : ℕ) (s : S) → Valid s → 0 < n → 0 < length (content s) → 0 < length (concat (V n s))

-- The slices have all the bytes to come unless they take all the room in `dst`.
abbrev pub Complete :
    {S : Type 0} → Slots S → (Valid : S → Type 0) → (content : S → List ℕ) → Type 0
Complete {S} V Valid content =
    (n : ℕ) (s : S) → Valid s → (length (V n s) ≡ n) ⊎ (concat (V n s) ≡ content s)

module _ {S : Type 0} (B : Buf S) {Valid : S → Type 0} {content : S → List ℕ}
    (L : Lawful B Valid content) where
  -- The default of the trait gives the chunk.
  pub chunks_vectored-Fills : Fills (chunks_vectored B) Valid content
  unfolding chunks_vectored
  chunks_vectored-Fills = record {
    fits = λ n s v. ground arith;
    prefix = λ n s v. elim (ℕ_discrete n 0) [
      | yes z ↦ let t : (n == 0) ≡ true = ground arith in rw t refl
      | no nz ↦
          let t : (n == 0) ≡ false = ground arith in
          elim (dec_lt 0 (B.remaining s)) [
            | yes pos ↦
                let t' : ltb 0 (B.remaining s) ≡ true = ground arith in
                rw (t, t', append_nil (B.chunk s)) (L.chunk_prefix s v)
            | no none_left ↦
                let t' : ltb 0 (B.remaining s) ≡ false = ground arith in rw (t, t') refl
          ]
    ];
    at_end = λ n s v none_left. ground (arith, L.remaining_length s v);
    some_bytes = λ n s v room some_left.
        let t : (n == 0) ≡ false = ground arith in
        let t' : ltb 0 (B.remaining s) ≡ true = ground (arith, L.remaining_length s v) in
        rw (t, t', append_nil (B.chunk s)) (L.chunk_some s v some_left);
  }

  -- Where a chunk is all that is to come.
  pub chunks_vectored-Complete :
      ((s : S) → Valid s → B.chunk s ≡ content s) → Complete (chunks_vectored B) Valid content
  unfolding chunks_vectored
  chunks_vectored-Complete whole n s v = elim (ℕ_discrete n 0) [
    | yes z ↦ let t : (n == 0) ≡ true = ground arith in inl (rw t (sym z))
    | no nz ↦
        let t : (n == 0) ≡ false = ground arith in
        elim (dec_lt 0 (B.remaining s)) [
          | yes pos ↦
              let t' : ltb 0 (B.remaining s) ≡ true = ground arith in
              inr (rw (t, t', append_nil (B.chunk s)) (whole s v))
          | no none_left ↦
              let t' : ltb 0 (B.remaining s) ≡ false = ground arith in
              inr (rw (t, t') (take_all 0 (content s) (omega (arith, L.remaining_length s v))))
        ]
  ]

-- The slices of `Take` are those of the inner buffer, cut at the limit.
concat-limit_slices :
    (limit : ℕ) (ss : List (List ℕ)) → concat (limit_slices limit ss) ≡ take limit (concat ss)
unfolding limit_slices
concat-limit_slices limit [] = sym (take_all limit [] (omega arith))
concat-limit_slices limit (s ∷ ss) = elim (dec_le limit (length s)) [
  | yes le ↦
      let t : leb limit (length s) ≡ true = ground arith in
      rw (t, append_nil (take limit s)) (sym (take-append_le limit s (concat ss) le))
  | no gt ↦
      let t : leb limit (length s) ≡ false = ground arith in
      rw (t, concat-limit_slices (limit - length s) ss)
        (sym (take-append_ge limit s (concat ss) (omega arith)))
]

length-limit_slices : (limit : ℕ) (ss : List (List ℕ)) → length (limit_slices limit ss) ≤ length ss
unfolding limit_slices
length-limit_slices limit [] = omega arith
length-limit_slices limit (s ∷ ss) = ground (arith, length-limit_slices (limit - length s) ss)

-- The front of a prefix is a prefix of the front.
prefix_take :
    (n : ℕ) (p c : List ℕ) → p ≡ take (length p) c → take n p ≡ take (length (take n p)) (take n c)
prefix_take n p c e =
    let size : length (take n p) ≡ min n (length p) = length-take n p in
    let k : min (min n (length p)) n ≡ min n (length p) = omega arith in
    ap (take n) e
    ∙ take-take-min n (length p) c
    ∙ sym (rw (size, take-take-min (min n (length p)) n c, k) refl)

module _ {S : Type 0} {V : Slots S} {Valid : S → Type 0} {content : S → List ℕ}
    (F : Fills V Valid content) where
  -- `Take` keeps the promise of the inner buffer, whatever the limit is.
  pub take_vectored-Fills :
      Fills (take_vectored V) (λ (t : Take S). Valid t.inner) (λ t. take t.limit (content t.inner))
  unfolding take_vectored
  take_vectored-Fills = record {
    fits = λ n t v.
        ground
          (arith, length-limit_slices t.limit (V (min n 32) t.inner), F.fits (min n 32) t.inner v);
    prefix = λ n t v. elim (ℕ_discrete t.limit 0) [
      | yes z ↦ let test : (t.limit == 0) ≡ true = ground arith in rw test refl
      | no nz ↦
          let test : (t.limit == 0) ≡ false = ground arith in
          rw (test, concat-limit_slices t.limit (V (min n 32) t.inner))
            (prefix_take t.limit (concat (V (min n 32) t.inner)) (content t.inner)
              (F.prefix (min n 32) t.inner v))
    ];
    at_end = λ n t v none_left. ground (
      arith,
      length-take t.limit (content t.inner),
      length-limit_slices t.limit (V (min n 32) t.inner),
      F.at_end (min n 32) t.inner v,
    );
    some_bytes = λ n t v room some_left.
        let size = length-take t.limit (content t.inner) in
        let test : (t.limit == 0) ≡ false = ground (arith, size) in
        rw (test, concat-limit_slices t.limit (V (min n 32) t.inner))
          (omega (
            arith,
            some_left,
            size,
            length-take t.limit (concat (V (min n 32) t.inner)),
            F.some_bytes (min n 32) t.inner v (omega arith) (omega (arith, size)),
          ));
  }
