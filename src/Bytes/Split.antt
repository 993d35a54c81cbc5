-- ===== src/Bytes/Split.antt =====
-- `try_split_to` and `try_split_off` in src/bytes/bytes.rs.
use tcio.Base.{
  ℕ, ◌+◌, ◌%◌, ◌≤◌, ◌<◌, ◌≡◌, ◌≢◌, refl, List, arith, some, none, take, drop, Option, take_all,
  drop_all, true, ap, ltb, ◌==◌, ◌∙◌, false, sym,
}
use tcio.Memory.{Heap, Ensures, IsFreshBox}
use tcio.Memory.Runs.{Ensures-bind}
use tcio.Shared.Backed.{Unsaturated, refs}
use tcio.Shared.Keep.{Keeps, Keeps-refl}
use tcio.Bytes.{Bytes, try_split_to, try_split_off, new_empty_with_ptr}
use tcio.Bytes.Valid.{IsBytes}
use native.Mathlib.Decide.{dec_lt, ℕ_discrete}
use tcio.Bytes.Clone.{Cloned, clone_inner_lem, clone_inner_mut-clone_inner}
use tcio.Bytes.Advance.{IsBytes-front, IsBytes-empty, Advanced, advance_unchecked_lem}

-- Two handles that share out the view of `b` at `at`.
pub record Parted (h : Heap) (b : Bytes) (xs : List ℕ) (at : ℕ) (left right : Bytes) (h' : Heap)
    : Type 0 where
  pub left_view : IsBytes h' left (take at xs)
  pub right_view : IsBytes h' right (drop at xs)
  pub place : (left.ptr ≡ b.ptr) × (right.ptr ≡ b.ptr + at)
  pub keeps : Keeps h h'
  pub live : at ≢ 0 → b.data_word ≢ 0 → left.data_word ≢ 0
  pub bounded : right.data_word ≢ 0 → refs h' right.data_word ≤ refs h b.data_word + 1
  -- Where both handles hold on to a buffer, one word counts both.
  pub count :
      left.data_word ≢ 0
      → right.data_word ≢ 0
      → (right.data_word ≡ left.data_word) × (refs h' left.data_word ≡ refs h b.data_word + 1)

-- Where a position lies in a view of `n` bytes.
pub data Place (n at : ℕ) : Type 0 where
  past : n < at → Place n at
  at_end : at ≡ n → Place n at
  at_start : at < n → at ≡ 0 → Place n at
  inside : at ≤ n → at ≢ n → at ≢ 0 → Place n at

pub split_cases : (n at : ℕ) → Place n at
split_cases n at = elim (dec_lt n at) [
  | yes gt ↦ past gt
  | no le ↦ elim (ℕ_discrete at n) [
    | yes e ↦ at_end e
    | no ne ↦ elim (ℕ_discrete at 0) [
      | yes e ↦ at_start (omega arith) e
      | no nz ↦ inside (omega arith) ne nz
    ]
  ]
]

-- What `try_split_off` leaves in the handle, and what it returns.
abbrev pub SplitOff : Heap → Bytes → List ℕ → ℕ → Bytes × Option Bytes → Heap → Type 0
SplitOff h b xs at (me, none) h' = (b.len < at) × (me ≡ b) × (h' ≡ h)
SplitOff h b xs at (me, some other) h' = (at ≤ b.len) × Parted h b xs at me other h'

abbrev pub SplitTo : Heap → Bytes → List ℕ → ℕ → Bytes × Option Bytes → Heap → Type 0
SplitTo h b xs at (me, none) h' = (b.len < at) × (me ≡ b) × (h' ≡ h)
SplitTo h b xs at (me, some other) h' = (at ≤ b.len) × Parted h b xs at other me h'

module _ (h : Heap) (b : Bytes) (xs : List ℕ) (at : ℕ) (v : IsBytes h b xs) where
  Parted-end : at ≡ b.len → Parted h b xs at b (new_empty_with_ptr (b.ptr + b.len)) h
  Parted-end e = record {
    left_view = rw (take_all at xs (omega (arith, v.size))) v;
    right_view = rw (drop_all at xs (omega (arith, v.size))) (IsBytes-empty h _);
    place = (refl, omega arith);
    keeps = Keeps-refl h;
    live = λ nz ne. ne;
    bounded = λ r. absurd (r refl);
    count = λ l r. absurd (r refl);
  }

  Parted-start : at ≡ 0 → Parted h b xs at (new_empty_with_ptr b.ptr) b h
  Parted-start e = record {
    left_view = rw e (IsBytes-empty h _);
    right_view = rw e v;
    place = (refl, omega arith);
    keeps = Keeps-refl h;
    live = λ nz. absurd (nz e);
    bounded = λ r. omega arith;
    count = λ l r. absurd (l refl);
  }

  -- `c` keeps the front of a shared view, and `d` was advanced over it.
  Parted-Advanced :
      (c d d' : Bytes) (h' h'' : Heap)
      → at ≤ b.len
      → IsBytes h' c xs
      → c.data_word % 2 ≡ 0
      → c.ptr ≡ b.ptr
      → d.ptr ≡ b.ptr
      → Keeps h h'
      → d.data_word ≡ c.data_word
      → (b.data_word ≢ 0 → c.data_word ≢ 0)
      → (c.data_word ≢ 0 → refs h' c.data_word ≡ refs h b.data_word + 1)
      → Advanced h' d xs at d' h''
      → Parted h b xs at (record c { len = at }) d' h''
  Parted-Advanced c d d' h' h'' le cv even ec ed keeps ew lv more ad = rw ad.same_heap (record {
    left_view = IsBytes-front h' c xs at even (omega (arith, cv.size, v.size)) cv;
    right_view = ad.view;
    place = (ec, ad.place ∙ ap (λ p. p + at) ed);
    keeps = keeps;
    live = λ nz. lv;
    bounded = λ r.
        let e : d'.data_word ≡ c.data_word = ad.same_word (ap (λ w. w % 2) ew ∙ even) ∙ ew in
        rw e (omega (arith, more (λ z. r (e ∙ z))));
    count = λ l r. (ad.same_word (ap (λ w. w % 2) ew ∙ even) ∙ ew, more l);
  })

  more :
      {x y : Bytes} {h' : Heap}
      → Cloned h b xs (x, y) h'
      → x.data_word ≢ 0
      → refs h' x.data_word ≡ refs h b.data_word + 1
  more cl ne = cl.count (λ e. ne (cl.null_word e))

  more_of_clone :
      {x y : Bytes} {h' : Heap}
      → Cloned h b xs (x, y) h'
      → y.data_word ≢ 0
      → refs h' y.data_word ≡ refs h b.data_word + 1
  more_of_clone {h'} cl ne = ap (refs h') cl.same_word ∙ more cl (λ e. ne (cl.same_word ∙ e))

  pub inner_test :
      at ≤ b.len
      → at ≢ b.len
      → at ≢ 0
      → (ltb b.len at ≡ false) × ((at == b.len) ≡ false) × ((at == 0) ≡ false)
  inner_test le ne nz = ground arith

  try_split_off_inner :
      (k : ℕ)
      → at ≤ b.len
      → at ≢ b.len
      → at ≢ 0
      → IsFreshBox k h
      → Unsaturated h b.data_word
      → Ensures (SplitOff h b xs at) (try_split_off k at b h)
  unfolding try_split_off
  try_split_off_inner k le ne nz f u =
      let (t1, t2, t3) = inner_test le ne nz in
      rw (t1, t2, t3, clone_inner_mut-clone_inner)
        (Ensures-bind (Cloned h b xs) (SplitOff h b xs at) _ _ (clone_inner_lem h k b xs v f u)
          λ (x, y) h' cl.
            Ensures-bind (Advanced h' y xs at) (SplitOff h b xs at) _ _
              (advance_unchecked_lem h' y xs at (omega (arith, cl.clone_view.size, v.size))
                cl.clone_view)
              λ y' h'' ad. (
                le,
                Parted-Advanced x y y' h' h'' le cl.me_view cl.shared_word cl.place.0 cl.place.1
                    cl.keeps cl.same_word cl.live (more cl) ad,
              ))

  try_split_to_inner :
      (k : ℕ)
      → at ≤ b.len
      → at ≢ b.len
      → at ≢ 0
      → IsFreshBox k h
      → Unsaturated h b.data_word
      → Ensures (SplitTo h b xs at) (try_split_to k at b h)
  unfolding try_split_to
  try_split_to_inner k le ne nz f u =
      let (t1, t2, t3) = inner_test le ne nz in
      rw (t1, t2, t3, clone_inner_mut-clone_inner)
        (Ensures-bind (Cloned h b xs) (SplitTo h b xs at) _ _ (clone_inner_lem h k b xs v f u)
          λ (x, y) h' cl.
            Ensures-bind (Advanced h' x xs at) (SplitTo h b xs at) _ _
              (advance_unchecked_lem h' x xs at (omega (arith, cl.me_view.size, v.size)) cl.me_view)
              λ x' h'' ad. (
                le,
                Parted-Advanced y x x' h' h'' le cl.clone_view
                    (ap (λ w. w % 2) cl.same_word ∙ cl.shared_word) cl.place.1 cl.place.0 cl.keeps
                    (sym cl.same_word) (λ ne e. cl.live ne (sym cl.same_word ∙ e))
                    (more_of_clone cl) ad,
              ))

-- `try_split_off` on a valid handle, with a count that can still grow and a fresh address for a
-- control block: a position past the end is refused and nothing changes; at any other the handle
-- keeps the front of the view and the rest is returned, at adjoining addresses, with one word
-- counting both handles where both hold a buffer.
pub try_split_off_lem :
    (h : Heap) (k : ℕ) (b : Bytes) (xs : List ℕ) (at : ℕ)
    → IsBytes h b xs
    → IsFreshBox k h
    → Unsaturated h b.data_word
    → Ensures (SplitOff h b xs at) (try_split_off k at b h)
unfolding try_split_off
try_split_off_lem h k b xs at v f u = elim (split_cases b.len at) [
  | past gt ↦ let t : ltb b.len at ≡ true = ground arith in rw t (gt, refl, refl)
  | at_end e ↦
      let t : ltb b.len at ≡ false = ground arith in
      let t' : (at == b.len) ≡ true = ground arith in
      rw (t, t') (omega arith, Parted-end h b xs at v e)
  | at_start lt e ↦
      let t : ltb b.len at ≡ false = ground arith in
      let t' : (at == b.len) ≡ false = ground arith in
      let t'' : (at == 0) ≡ true = ground arith in
      rw (t, t', t'') (omega arith, Parted-start h b xs at v e)
  | inside le ne nz ↦ try_split_off_inner h b xs at v k le ne nz f u
]

-- `try_split_to` on a valid handle, with a count that can still grow and a fresh address for a
-- control block: a position past the end is refused and nothing changes; at any other the front of
-- the view is returned and the handle keeps the rest, at adjoining addresses, with one word
-- counting both handles where both hold a buffer.
pub try_split_to_lem :
    (h : Heap) (k : ℕ) (b : Bytes) (xs : List ℕ) (at : ℕ)
    → IsBytes h b xs
    → IsFreshBox k h
    → Unsaturated h b.data_word
    → Ensures (SplitTo h b xs at) (try_split_to k at b h)
unfolding try_split_to
try_split_to_lem h k b xs at v f u = elim (split_cases b.len at) [
  | past gt ↦ let t : ltb b.len at ≡ true = ground arith in rw t (gt, refl, refl)
  | at_end e ↦
      let t : ltb b.len at ≡ false = ground arith in
      let t' : (at == b.len) ≡ true = ground arith in
      rw (t, t') (omega arith, Parted-end h b xs at v e)
  | at_start lt e ↦
      let t : ltb b.len at ≡ false = ground arith in
      let t' : (at == b.len) ≡ false = ground arith in
      let t'' : (at == 0) ≡ true = ground arith in
      rw (t, t', t'') (omega arith, Parted-start h b xs at v e)
  | inside le ne nz ↦ try_split_to_inner h b xs at v k le ne nz f u
]
