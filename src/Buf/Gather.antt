-- ===== src/Buf/Gather.antt =====
-- `chunks_vectored` of `Chain` in src/bytes/chain.rs.
use tcio.Base.{
  zero, suc, drop, ◌∷◌, ◌≢◌, take-append-drop, length-drop, ℕ, ◌+◌, ◌-◌, ◌≤◌, ◌<◌, ◌≡◌, inl, inr,
  List, [], ◌++◌, length, take, ltb, ◌==◌, refl, sym, ap, ◌∙◌, arith, true, false, length-append,
  length-take, take-append_le, take-append_ge, append_nil, append_assoc,
}
use tcio.Buf.{Buf, Chain}
use tcio.Buf.Lawful.{Lawful}
use tcio.Buf.Slots.{Slots, chunks_vectored, chain_vectored}
use native.Mathlib.Decide.{dec_lt}
use tcio.Buf.Vectored.{concat, Fills, Complete}

concat-append : (xs ys : List (List ℕ)) → concat (xs ++ ys) ≡ concat xs ++ concat ys
concat-append [] ys = refl
concat-append (x ∷ xs) ys = rw (concat-append xs ys) (sym (append_assoc x (concat xs) (concat ys)))

no_slices : (ss : List (List ℕ)) → length ss ≤ 0 → ss ≡ []
no_slices [] le = refl
no_slices (s ∷ ss) le = absurd (omega arith)

module _ {S T : Type 0} {V : Slots S} {W : Slots T} {ValidA : S → Type 0} {ValidB : T → Type 0}
    {front : S → List ℕ} {back : T → List ℕ} (F : Fills V ValidA front) (G : Fills W ValidB back)
    (C : Complete V ValidA front) where
  abbrev Both : Chain S T → Type 0
  Both c = ValidA c.a × ValidB c.b

  abbrev joined : Chain S T → List ℕ
  joined c = front c.a ++ back c.b

  -- The slices of the first fill `dst`, or are followed by those of the second.
  chain_prefix :
      (n : ℕ) (c : Chain S T)
      → Both c
      → concat (chain_vectored V W n c) ≡ take (length (concat (chain_vectored V W n c))) (joined c)
  unfolding chain_vectored
  chain_prefix n c (va, vb) =
      let m = n - length (V n c.a) in
      let p = concat (V n c.a) in
      let q = concat (W m c.b) in
      rw (concat-append (V n c.a) (W m c.b), length-append p q)
        (elim (C n c.a va) [
          | inl full ↦
              let none_left : W m c.b ≡ [] =
                no_slices (W m c.b) (omega (arith, G.fits m c.b vb, full)) in
              let size : length p + 0 ≡ length p = omega arith in
              let within : length p ≤ length (front c.a) = omega (
                arith,
                ap (λ l. length l) (F.prefix n c.a va),
                length-take (length p) (front c.a),
              ) in
              rw (none_left, append_nil p, size)
                (F.prefix n c.a va ∙ sym (take-append_le (length p) (front c.a) (back c.b) within))
          | inr all ↦
              let size : length (front c.a) + length q - length (front c.a) ≡ length q =
                omega arith in
              rw all (
                ap (λ l. front c.a ++ l) (G.prefix m c.b vb)
                ∙ sym (
                    take-append_ge (length (front c.a) + length q) (front c.a) (back c.b)
                      (omega arith)
                    ∙ ap (λ k. front c.a ++ take k (back c.b)) size))
        ])

  -- A chain keeps the promise of its parts if the slices of the first are complete.
  pub chain_vectored-Fills : Fills (chain_vectored V W) Both joined
  unfolding chain_vectored
  chain_vectored-Fills = record {
    fits = λ n c (va, vb). omega (
      arith,
      length-append (V n c.a) (W (n - length (V n c.a)) c.b),
      F.fits n c.a va,
      G.fits (n - length (V n c.a)) c.b vb,
    );
    prefix = chain_prefix;
    some_bytes = λ n c (va, vb) room some_left.
        let m = n - length (V n c.a) in
        let size : length (concat (V n c.a ++ W m c.b))
            ≡ length (concat (V n c.a)) + length (concat (W m c.b)) =
          ap (λ l. length l) (concat-append (V n c.a) (W m c.b))
          ∙ length-append (concat (V n c.a)) (concat (W m c.b)) in
        elim (dec_lt 0 (length (front c.a))) [
          | yes some_front ↦ omega (arith, size, F.some_bytes n c.a va room some_front)
          | no none_front ↦ omega (
            arith,
            size,
            G.some_bytes m c.b vb (omega (arith, F.at_end n c.a va (omega arith)))
                (omega (arith, some_left, length-append (front c.a) (back c.b))),
          )
        ];
    at_end = λ n c (va, vb) none_left.
        let bound = length-append (front c.a) (back c.b) in
        omega (
          arith,
          length-append (V n c.a) (W (n - length (V n c.a)) c.b),
          F.at_end n c.a va (omega (arith, bound)),
          G.at_end (n - length (V n c.a)) c.b vb (omega (arith, bound)),
        );
  }

  -- And then its own are complete if those of the second are.
  chain_vectored-Complete : Complete W ValidB back → Complete (chain_vectored V W) Both joined
  unfolding chain_vectored
  chain_vectored-Complete D n c (va, vb) =
      let m = n - length (V n c.a) in
      let size = length-append (V n c.a) (W m c.b) in
      elim (C n c.a va) [
        | inl full ↦ inl (omega (arith, size, full, G.fits m c.b vb))
        | inr all ↦ elim (D m c.b vb) [
          | inl full ↦ inl (omega (arith, size, full, F.fits n c.a va))
          | inr rest ↦ inr (concat-append (V n c.a) (W m c.b) ∙ rw (all, rest) refl)
        ]
      ]

-- The slices of two default `chunks_vectored`, where the first part has bytes to come.
two_chunks :
    {S T : Type 0} (A : Buf S) (B : Buf T) (n : ℕ) (c : Chain S T)
    → 2 ≤ n
    → 0 < A.remaining c.a
    → 0 < B.remaining c.b
    → concat (chain_vectored (chunks_vectored A) (chunks_vectored B) n c)
      ≡ A.chunk c.a ++ B.chunk c.b
unfolding chain_vectored chunks_vectored
two_chunks A B n c two pos pos' =
    let t : (n == 0) ≡ false = ground arith in
    let t' : ltb 0 (A.remaining c.a) ≡ true = ground arith in
    let u : (n - 1 == 0) ≡ false = ground arith in
    let u' : ltb 0 (B.remaining c.b) ≡ true = ground arith in
    rw (t, t', u, u', append_nil (B.chunk c.b)) refl

abbrev head_or : ℕ → List ℕ → ℕ
head_or d [] = d
head_or d (x ∷ xs) = x

-- Lists that go on differently behind a common front are not a list and its own front.
not_a_prefix :
    (k : ℕ) (xs ss zs bs : List ℕ) (x y : ℕ)
    → x ≢ y
    → xs ++ (y ∷ ss) ≢ take k ((xs ++ (x ∷ zs)) ++ bs)
not_a_prefix zero [] ss zs bs x y ne e = absurd (omega (arith, ap (λ l. length l) e))
not_a_prefix (suc k) [] ss zs bs x y ne e = ne (sym (ap (head_or 0) e))
not_a_prefix zero (w ∷ xs) ss zs bs x y ne e = absurd (omega (arith, ap (λ l. length l) e))
not_a_prefix (suc k) (w ∷ xs) ss zs bs x y ne e = not_a_prefix k xs ss zs bs x y ne (ap (drop 1) e)

-- A front of a list begins as the list does.
front_of :
    (y : ℕ) (rest bs : List ℕ)
    → 0 < length bs
    → bs ≡ take (length bs) (y ∷ rest)
    → (ss : List ℕ) × (bs ≡ y ∷ ss)
front_of y rest [] pos e = absurd (omega arith)
front_of y rest (b ∷ ss) pos e = (ss, ap (λ w. w ∷ ss) (ap (head_or 0) e))

-- Where the default `chunks_vectored` of the first part leaves out some of its bytes, and the next
-- of them is not the first byte of the second part, what the chain puts together is not what is to
-- come: it breaks the promise that both parts keep.
pub chain_vectored-gap :
    {S T : Type 0} (A : Buf S) (B : Buf T) {V : S → Type 0} {front : S → List ℕ} {W : T → Type 0}
    {back : T → List ℕ} (n x y : ℕ) (c : Chain S T) (rest_a rest_b : List ℕ)
    → Lawful A V front
    → Lawful B W back
    → V c.a
    → W c.b
    → 2 ≤ n
    → drop (length (A.chunk c.a)) (front c.a) ≡ x ∷ rest_a
    → back c.b ≡ y ∷ rest_b
    → x ≢ y
    → concat (chain_vectored (chunks_vectored A) (chunks_vectored B) n c)
      ≢ take
          (length (concat (chain_vectored (chunks_vectored A) (chunks_vectored B) n c)))
          (front c.a ++ back c.b)
chain_vectored-gap A B {front = front} {back = back} n x y c rest_a rest_b L M va vb two left_out
      next ne =
    let ra = L.remaining_length c.a va in
    let rb = M.remaining_length c.b vb in
    let some_a : 0 < A.remaining c.a =
      omega
        (arith, ra, ap (λ l. length l) left_out, length-drop (length (A.chunk c.a)) (front c.a)) in
    let some_b : 0 < length (back c.b) = omega (arith, ap (λ l. length l) next) in
    let (ss, starts) =
      front_of y rest_b (B.chunk c.b) (M.chunk_some c.b vb some_b)
        (rw next at (M.chunk_prefix c.b vb)) in
    let whole : A.chunk c.a ++ (x ∷ rest_a) ≡ front c.a =
      ap (λ l. A.chunk c.a ++ l) (sym left_out)
      ∙ ap (λ l. l ++ drop (length (A.chunk c.a)) (front c.a)) (L.chunk_prefix c.a va)
      ∙ take-append-drop (length (A.chunk c.a)) (front c.a) in
    rw (two_chunks A B n c two some_a (omega arith), starts, ← whole)
      (not_a_prefix _ (A.chunk c.a) ss rest_a (back c.b) x y ne)
