-- ===== src/BufMut/Chains.antt =====
-- `Chain` as a `BufMut`: src/bytes/chain.rs.
use tcio.Base.{
  ℕ, ◌+◌, ◌-◌, ◌≤◌, ◌<◌, ◌≡◌, refl, sym, ap, ◌∙◌, min, List, [], ◌++◌, length, take, drop, arith,
  true, false, ltb, if◌then◌else◌, append_assoc, append_nil, take_all, drop_all,
}
use tcio.Base.Words.{word_mod}
use tcio.Buf.{Chain, saturating_add}
use tcio.BufMut.{BufMut, slice_mut}
use tcio.BufMut.Lawful.{LawfulMut, IsSliceMut}
use native.Mathlib.Decide.{dec_lt}

-- `fill` writes at the start of the chunk of the part that has room. `advance_mut` then moves the
-- first part over what it has room for, and the second one over the rest where there may be one.
unfoldable pub chain_fill : {S T : Type 0} → BufMut S → BufMut T → List ℕ → Chain S T → Chain S T
chain_fill A B xs c =
    let a_rem = A.remaining_mut c.a in
    let a = A.fill (take (min a_rem (length xs)) xs) c.a in
    if ltb (length xs) a_rem
    then record { a = a; b = c.b }
    else record { a = a; b = B.fill (drop a_rem xs) c.b }

abbrev pub chain_mut : {S T : Type 0} → BufMut S → BufMut T → BufMut (Chain S T)
chain_mut A B = record {
  remaining_mut = λ c. saturating_add (A.remaining_mut c.a) (B.remaining_mut c.b);
  chunk_len = λ c. if ltb 0 (A.remaining_mut c.a) then A.chunk_len c.a else B.chunk_len c.b;
  fill = chain_fill A B;
}

-- What a target can still take is a word, and goes down by what is written.
pub record Bounded {W : Type 0} (D : BufMut W) (Valid : W → Type 0) : Type 0 where
  pub word : (w : W) → Valid w → D.remaining_mut w < word_mod
  pub exact :
      (xs : List ℕ) (w : W)
      → Valid w
      → length xs ≤ D.chunk_len w
      → D.remaining_mut (D.fill xs w) ≡ D.remaining_mut w - length xs

pub slice-Bounded : Bounded slice_mut IsSliceMut
slice-Bounded = record { word = λ w v. v; exact = λ xs w v fits. refl }

module _ {S T : Type 0} {A : BufMut S} {B : BufMut T} {V : S → Type 0} {W : T → Type 0}
    {front : S → List ℕ} {back : T → List ℕ} (L : LawfulMut A V front) (M : LawfulMut B W back)
    (F : Bounded A V) (G : Bounded B W) where
  -- Both parts are valid, and nothing is in the second one before the first is full.
  pub record InOrder (c : Chain S T) : Type 0 where
    pub first : V c.a
    pub second : W c.b
    pub order : 0 < A.remaining_mut c.a → back c.b ≡ []

  abbrev pub joint : Chain S T → List ℕ
  joint c = front c.a ++ back c.b

  -- What `fill` does with a list that fits the chunk.
  record Filled (xs : List ℕ) (c c' : Chain S T) : Type 0 where
    valid : InOrder c'
    joined : joint c' ≡ joint c ++ xs
    left :
        (A.remaining_mut c.a + B.remaining_mut c.b) - length xs
        ≤ A.remaining_mut c'.a + B.remaining_mut c'.b

  -- The first part has room left behind the list.
  fill_inside :
      (xs : List ℕ) (c : Chain S T)
      → InOrder c
      → length xs ≤ A.chunk_len c.a
      → length xs < A.remaining_mut c.a
      → Filled xs c (chain_fill A B xs c)
  unfolding chain_fill
  fill_inside xs c v fits room =
      let t : ltb (length xs) (A.remaining_mut c.a) ≡ true = ground arith in
      let k : min (A.remaining_mut c.a) (length xs) ≡ length xs = omega arith in
      let whole : take (length xs) xs ≡ xs = take_all (length xs) xs (omega arith) in
      let none_behind : back c.b ≡ [] = v.order (omega arith) in
      rw (t, k, whole)
        (record {
          valid = record {
            first = L.fill_valid xs c.a v.first fits;
            second = v.second;
            order = λ _. none_behind;
          };
          joined =
              ap (λ l. front (A.fill xs c.a) ++ l) none_behind
              ∙ append_nil (front (A.fill xs c.a))
              ∙ L.fill_written xs c.a v.first fits
              ∙ ap (λ l. l ++ xs)
                  (sym (ap (λ l. front c.a ++ l) none_behind ∙ append_nil (front c.a)));
          left = omega (arith, L.fill_remaining xs c.a v.first fits);
        })

  -- The list takes all that the first part has room for.
  fill_up :
      (xs : List ℕ) (c : Chain S T)
      → InOrder c
      → 0 < A.remaining_mut c.a
      → length xs ≤ A.chunk_len c.a
      → length xs ≡ A.remaining_mut c.a
      → Filled xs c (chain_fill A B xs c)
  unfolding chain_fill
  fill_up xs c v room fits full =
      let t : ltb (length xs) (A.remaining_mut c.a) ≡ false = ground arith in
      let k : min (A.remaining_mut c.a) (length xs) ≡ length xs = omega arith in
      let whole : take (length xs) xs ≡ xs = take_all (length xs) xs (omega arith) in
      let rest : drop (A.remaining_mut c.a) xs ≡ [] =
        drop_all (A.remaining_mut c.a) xs (omega arith) in
      let none_behind : back c.b ≡ [] = v.order room in
      let b' = B.fill [] c.b in
      let still_none : back b' ≡ [] =
        M.fill_written [] c.b v.second (omega arith) ∙ append_nil (back c.b) ∙ none_behind in
      rw (t, k, whole, rest)
        (record {
          valid = record {
            first = L.fill_valid xs c.a v.first fits;
            second = M.fill_valid [] c.b v.second (omega arith);
            order = λ _. still_none;
          };
          joined =
              ap (λ l. front (A.fill xs c.a) ++ l) still_none
              ∙ append_nil (front (A.fill xs c.a))
              ∙ L.fill_written xs c.a v.first fits
              ∙ ap (λ l. l ++ xs)
                  (sym (ap (λ l. front c.a ++ l) none_behind ∙ append_nil (front c.a)));
          left = omega (
            arith,
            L.fill_remaining xs c.a v.first fits,
            M.fill_remaining [] c.b v.second (omega arith),
          );
        })

  -- The first part was full before.
  fill_behind :
      (xs : List ℕ) (c : Chain S T)
      → InOrder c
      → A.remaining_mut c.a ≡ 0
      → length xs ≤ B.chunk_len c.b
      → Filled xs c (chain_fill A B xs c)
  unfolding chain_fill
  fill_behind xs c v full fits =
      let t : ltb (length xs) (A.remaining_mut c.a) ≡ false = ground arith in
      let k : min (A.remaining_mut c.a) (length xs) ≡ 0 = omega arith in
      let a' = A.fill [] c.a in
      let same : front a' ≡ front c.a =
        L.fill_written [] c.a v.first (omega arith) ∙ append_nil (front c.a) in
      rw (t, k, full)
        (record {
          valid = record {
            first = L.fill_valid [] c.a v.first (omega arith);
            second = M.fill_valid xs c.b v.second fits;
            order = λ room. absurd (omega (arith, F.exact [] c.a v.first (omega arith)));
          };
          joined =
              ap (λ l. l ++ back (B.fill xs c.b)) same
              ∙ ap (λ l. front c.a ++ l) (M.fill_written xs c.b v.second fits)
              ∙ sym (append_assoc (front c.a) (back c.b) xs);
          left = omega (arith, M.fill_remaining xs c.b v.second fits);
        })

  chain-Filled :
      (xs : List ℕ) (c : Chain S T)
      → InOrder c
      → length xs ≤ (chain_mut A B).chunk_len c
      → Filled xs c (chain_fill A B xs c)
  chain-Filled xs c v fits = elim (dec_lt 0 (A.remaining_mut c.a)) [
    | yes room ↦
        let t : ltb 0 (A.remaining_mut c.a) ≡ true = ground arith in
        let inside : length xs ≤ A.chunk_len c.a = rw t at fits in
        let bound = L.chunk_fits c.a v.first in
        elim (dec_lt (length xs) (A.remaining_mut c.a)) [
          | yes lt ↦ fill_inside xs c v inside lt
          | no ge ↦ fill_up xs c v room inside (omega arith)
        ]
    | no none_left ↦
        let t : ltb 0 (A.remaining_mut c.a) ≡ false = ground arith in
        fill_behind xs c v (omega arith) (rw t at fits)
  ]

  -- A chain of two lawful targets, with room that is counted exactly and fits a word, is a lawful
  -- target, on the states where nothing is in the second part before the first is full: what is
  -- written stands in the first part and goes on in the second one.
  pub chain-LawfulMut : LawfulMut (chain_mut A B) InOrder joint
  chain-LawfulMut = record {
    chunk_fits = λ c v. ground (
      arith,
      L.chunk_fits c.a v.first,
      M.chunk_fits c.b v.second,
      F.word c.a v.first,
      G.word c.b v.second,
    );
    chunk_some = λ c v pos. elim (dec_lt 0 (A.remaining_mut c.a)) [
      | yes room ↦
          let t : ltb 0 (A.remaining_mut c.a) ≡ true = ground arith in
          rw t (L.chunk_some c.a v.first room)
      | no none_left ↦
          let t : ltb 0 (A.remaining_mut c.a) ≡ false = ground arith in
          rw t (M.chunk_some c.b v.second (omega arith))
    ];
    fill_valid = λ xs c v fits. (chain-Filled xs c v fits).valid;
    fill_written = λ xs c v fits. (chain-Filled xs c v fits).joined;
    fill_remaining = λ xs c v fits. omega (arith, (chain-Filled xs c v fits).left);
  }
