-- ===== src/Buf/Adapters.antt =====
-- `Take` and `Chain` keep the laws of `Buf`: src/bytes/take.rs and src/bytes/chain.rs.
use tcio.Base.{
  ℕ, if◌then◌else◌, ◌+◌, ◌-◌, ◌≤◌, ◌<◌, ◌≡◌, refl, sym, ◌∙◌, ap, ◌++◌, List, length, take, drop,
  min, Option, none, some, arith, true, false, leb, ltb, take-take, drop_all, length-drop, [],
  take_all, drop-take, length-take, length-append, take-append_le, drop-append_le, drop-append_ge,
}
use tcio.Base.Words.{word_mod}
use tcio.Buf.{Buf, Take, take_buf, chain_advance, Chain, chain_buf}
use tcio.Buf.Lawful.{Lawful, Moved}
use native.Mathlib.Decide.{dec_lt}

module _ {S : Type 0} {B : Buf S} {V : S → Type 0} {content : S → List ℕ}
    (L : Lawful B V content) where
  abbrev pub shown : Take S → List ℕ
  shown t = take t.limit (content t.inner)

  limited :
      (n limit : ℕ) (xs : List ℕ)
      → n ≤ limit
      → (r : Option S) → Moved V content n xs r
      → Moved
          (λ (t : Take S). V t.inner)
          shown
          n
          (take limit xs)
          (elim r [ none ↦ none | some inner ↦ some (record { inner = inner; limit = limit - n }) ])
  limited n limit xs le none m = absurd m
  limited n limit xs le (some s) (v, e) = (v, rw e (sym (drop-take n limit xs)))

  -- A lawful buffer limited by `take` is a lawful buffer that shows the first `limit` bytes of the
  -- inner one.
  pub take-Lawful : Lawful (take_buf B) (λ (t : Take S). V t.inner) shown
  take-Lawful = record {
    remaining_length =
        λ t v. omega (arith, L.remaining_length t.inner v, length-take t.limit (content t.inner));
    chunk_prefix = λ t v.
        let k = min (length (B.chunk t.inner)) t.limit in
        let size : length (take k (B.chunk t.inner)) ≡ k =
          omega (arith, length-take k (B.chunk t.inner)) in
        ap (λ c. take k c) (L.chunk_prefix t.inner v)
        ∙ take-take k (length (B.chunk t.inner)) (content t.inner) (omega arith)
        ∙ sym (take-take k t.limit (content t.inner) (omega arith))
        ∙ ap (λ j. take j (shown t)) (sym size);
    chunk_some = λ t v pos. omega (
      arith,
      pos,
      length-take t.limit (content t.inner),
      L.chunk_some t.inner v (omega (arith, length-take t.limit (content t.inner))),
      length-take (min (length (B.chunk t.inner)) t.limit) (B.chunk t.inner),
    );
    advance_drop = λ n t v le.
        let bound = length-take t.limit (content t.inner) in
        let test : leb n t.limit ≡ true = ground (arith, bound, le) in
        rw test (
          limited n t.limit (content t.inner) (omega (arith, bound)) (B.advance n t.inner)
            (L.advance_drop n t.inner v (omega (arith, bound))));
  }

module _ {S T : Type 0} {A : Buf S} {B : Buf T} {V : S → Type 0} {content : S → List ℕ}
    {W : T → Type 0} {rest : T → List ℕ} (L : Lawful A V content) (M : Lawful B W rest) where
  -- Both parts are valid, and what remains of them together fits a word.
  abbrev pub Both : Chain S T → Type 0
  Both c = (V c.a × W c.b) × (length (content c.a) + length (rest c.b) < word_mod)

  abbrev pub joint : Chain S T → List ℕ
  joint c = content c.a ++ rest c.b

  chunk_prefix-first :
      (k : ℕ) (xs ys src : List ℕ) → k ≤ length xs → src ≡ take k xs → src ≡ take k (xs ++ ys)
  chunk_prefix-first k xs ys src le e = e ∙ sym (take-append_le k xs ys le)

  chain_chunk :
      (c : Chain S T)
      → Both c
      → (chain_buf A B).chunk c ≡ take (length ((chain_buf A B).chunk c)) (joint c)
  chain_chunk c ((v, u), small) =
      let size : length (take (length (A.chunk c.a)) (content c.a)) ≡ length (A.chunk c.a) =
        ap (λ l. length l) (sym (L.chunk_prefix c.a v)) in
      elim (dec_lt 0 (A.remaining c.a)) [
        | yes lt ↦
            let t : ltb 0 (A.remaining c.a) ≡ true = ground arith in
            rw t (
              chunk_prefix-first (length (A.chunk c.a)) (content c.a) (rest c.b) (A.chunk c.a)
                (omega (arith, length-take (length (A.chunk c.a)) (content c.a)))
                (L.chunk_prefix c.a v))
        | no ge ↦
            let t : ltb 0 (A.remaining c.a) ≡ false = ground arith in
            let z : content c.a ≡ [] =
              sym (take_all 0 (content c.a) (omega (arith, L.remaining_length c.a v))) in
            rw (t, z) (M.chunk_prefix c.b u)
      ]

  -- The second half of `advance`, with `r` the first part after its own `advance`.
  abbrev onwards : (n a_rem : ℕ) → T → Option S → Option (Chain S T)
  onwards n a_rem b r = elim r [
    | none ↦ none
    | some a ↦
        if ltb n a_rem then some (record { a = a; b = b }) else elim (B.advance (n - a_rem) b) [
          | none ↦ none
          | some b' ↦ some (record { a = a; b = b' })
        ]
  ]

  within :
      (n a_rem : ℕ) (xs ys : List ℕ) (b : T)
      → a_rem ≡ length xs
      → n < length xs
      → length xs + length ys < word_mod
      → W b
      → rest b ≡ ys
      → (r : Option S) → Moved V content n xs r
      → Moved Both joint n (xs ++ ys) (onwards n a_rem b r)
  within n a_rem xs ys b q le small u f none m = absurd m
  within n a_rem xs ys b q le small u f (some a) (v, e) =
      let t : ltb n a_rem ≡ true = ground arith in
      rw t (
        ((v, u), omega (arith, ap (λ l. length l) e, ap (λ l. length l) f, length-drop n xs)),
        ap (λ l. l ++ rest b) e
            ∙ ap (λ l. drop n xs ++ l) f
            ∙ sym (drop-append_le n xs ys (omega arith)),
      )

  landed :
      (n : ℕ) (xs ys : List ℕ) (a : S)
      → length xs ≤ n
      → length xs + length ys < word_mod
      → V a
      → content a ≡ []
      → (q : Option T) → Moved W rest (n - length xs) ys q
      → Moved Both joint n
          (xs ++ ys)
          (elim q [ none ↦ none | some b ↦ some (record { a = a; b = b }) ])
  landed n xs ys a le small v z none k = absurd k
  landed n xs ys a le small v z (some b) (u, f) = (
    (
      (v, u),
      omega (arith, ap (λ l. length l) z, ap (λ l. length l) f, length-drop (n - length xs) ys),
    ),
    ap (λ l. l ++ rest b) z ∙ f ∙ sym (drop-append_ge n xs ys le),
  )

  beyond :
      (n a_rem : ℕ) (xs ys : List ℕ) (b : T)
      → a_rem ≡ length xs
      → length xs ≤ n
      → length xs + length ys < word_mod
      → (r : Option S) → Moved V content (length xs) xs r
      → Moved W rest (n - length xs) ys (B.advance (n - length xs) b)
      → Moved Both joint n (xs ++ ys) (onwards n a_rem b r)
  beyond n a_rem xs ys b q le small none m k = absurd m
  beyond n a_rem xs ys b q le small (some a) (v, e) k =
      let t : ltb n a_rem ≡ false = ground arith in
      let d : n - a_rem ≡ n - length xs = omega arith in
      rw (t, d)
        (landed n xs ys a le small v (e ∙ drop_all (length xs) xs (omega arith))
          (B.advance (n - length xs) b) k)

  chain_advance-onwards :
      (n : ℕ) (c : Chain S T)
      → chain_advance A B n c
        ≡ onwards n (A.remaining c.a) c.b (A.advance (min (A.remaining c.a) n) c.a)
  unfolding chain_advance
  chain_advance-onwards n c = refl

  chain-Moved :
      (n : ℕ) (c : Chain S T)
      → Both c
      → n ≤ length (joint c)
      → Moved Both joint n (joint c) ((chain_buf A B).advance n c)
  chain-Moved n c ((v, u), small) le =
      let size = length-append (content c.a) (rest c.b) in
      let ra = L.remaining_length c.a v in
      elim (dec_lt n (length (content c.a))) [
        | yes lt ↦
            let e : min (A.remaining c.a) n ≡ n = omega (arith, ra) in
            rw (chain_advance-onwards n c, e)
              (within n (A.remaining c.a) (content c.a) (rest c.b) c.b ra lt small u refl
                (A.advance n c.a) (L.advance_drop n c.a v (omega arith)))
        | no ge ↦
            let e : min (A.remaining c.a) n ≡ length (content c.a) = omega (arith, ra) in
            rw (chain_advance-onwards n c, e)
              (beyond n (A.remaining c.a) (content c.a) (rest c.b) c.b ra (omega arith) small
                (A.advance (length (content c.a)) c.a)
                (L.advance_drop (length (content c.a)) c.a v (omega arith))
                (M.advance_drop (n - length (content c.a)) c.b u (omega (arith, size))))
      ]

  -- A chain of two lawful buffers is a lawful buffer that shows the bytes of the first and then
  -- those of the second, on the cursors where what remains of the two together fits a word.
  pub chain-Lawful : Lawful (chain_buf A B) Both joint
  chain-Lawful = record {
    remaining_length = λ c ((v, u), small). omega (
      arith,
      L.remaining_length c.a v,
      M.remaining_length c.b u,
      length-append (content c.a) (rest c.b),
    );
    chunk_prefix = chain_chunk;
    chunk_some = λ c ((v, u), small) pos. elim (dec_lt 0 (A.remaining c.a)) [
      | yes lt ↦
          let t : ltb 0 (A.remaining c.a) ≡ true = ground arith in
          rw t (L.chunk_some c.a v (omega (arith, L.remaining_length c.a v)))
      | no ge ↦
          let t : ltb 0 (A.remaining c.a) ≡ false = ground arith in
          rw t (
            M.chunk_some c.b u (
              omega (arith, pos, L.remaining_length c.a v, length-append (content c.a) (rest c.b))))
    ];
    advance_drop = chain-Moved;
  }
