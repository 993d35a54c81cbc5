-- ===== src/Bytes/Slice.antt =====
-- `slice` and `slice_ref` in src/bytes/bytes.rs, through `slice_bound` and `slice_from_raw`.
use tcio.Base.{
  ℕ, ◌+◌, ◌-◌, ◌%◌, ◌≤◌, ◌<◌, ◌≡◌, ◌⊎◌, inl, inr, ◌∙◌, ap, refl, List, arith, take, drop, ltb, leb,
  ◌==◌, true, false,
}
use tcio.Base.Words.{word_mod}
use tcio.Memory.{Heap, ok, panic, Ensures, IsFreshBox, and_then, pure}
use tcio.Memory.Runs.{Ensures-bind}
use tcio.Shared.Backed.{Unsaturated}
use tcio.Shared.Keep.{Keeps, Keeps-refl}
use tcio.Bytes.{
  Bytes, bytes, Bound, included, excluded, unbounded, slice_bound, slice_from_raw,
  new_empty_with_ptr, slice_range, begin_position, end_position, clone_inner,
}
use tcio.Bytes.Valid.{IsBytes}
use tcio.Bytes.Clone.{Cloned, clone_inner_lem}
use tcio.Bytes.Advance.{IsBytes-part, IsBytes-empty}
use native.Mathlib.Decide.{ℕ_discrete}
use mathlib.Core.Path.{subst}

-- The handle keeps its view, and the other handle shows `m` bytes of it from `i` on, in place.
pub record Sliced (h : Heap) (b : Bytes) (xs : List ℕ) (i m : ℕ) (r : Bytes × Bytes) (h' : Heap)
    : Type 0 where
  pub me_view : IsBytes h' r.0 xs
  pub slice_view : IsBytes h' r.1 (take m (drop i xs))
  pub place : (r.0.ptr ≡ b.ptr) × (r.1.ptr ≡ b.ptr + i)
  pub keeps : Keeps h h'

module _ (h : Heap) (b : Bytes) (xs : List ℕ) (i m : ℕ) (v : IsBytes h b xs) where
  Sliced-empty : m ≡ 0 → Sliced h b xs i m (b, new_empty_with_ptr (b.ptr + i)) h
  Sliced-empty e = record {
    me_view = v;
    slice_view = rw e (IsBytes-empty h _);
    place = (refl, refl);
    keeps = Keeps-refl h;
  }

  Sliced-Cloned :
      (x y : Bytes) (h' : Heap)
      → i + m ≤ b.len
      → Cloned h b xs (x, y) h'
      → Sliced h b xs i m (x, record y { ptr = b.ptr + i; len = m }) h'
  Sliced-Cloned x y h' le cl =
      let even : y.data_word % 2 ≡ 0 = ap (λ w. w % 2) cl.same_word ∙ cl.shared_word in
      let part =
        IsBytes-part h' y xs i m even (omega (arith, cl.clone_view.size, v.size)) cl.clone_view in
      record {
        me_view = cl.me_view;
        slice_view =
            subst (λ p. IsBytes h' (bytes (p + i) m y.data_word) (take m (drop i xs))) cl.place.1
              part;
        place = (cl.place.0, refl);
        keeps = cl.keeps;
      }

-- The positions that the bounds of a range name in a view of `n` bytes.
abbrev pub begin_of : Bound → ℕ
begin_of (included n) = n
begin_of (excluded n) = n + 1
begin_of unbounded = 0

abbrev pub end_of : ℕ → Bound → ℕ
end_of len (included n) = n + 1
end_of len (excluded n) = n
end_of len unbounded = len

module _ (h : Heap) (k : ℕ) (b : Bytes) (xs : List ℕ) (v : IsBytes h b xs) (f : IsFreshBox k h)
    (u : Unsaturated h b.data_word) where
  clone_part :
      (i m : ℕ)
      → i + m ≤ b.len
      → Ensures (Sliced h b xs i m) (
          and_then
            (clone_inner k b.data_word b h)
            (λ (x, y). pure (x, record y { ptr = b.ptr + i; len = m })))
  clone_part i m le =
      Ensures-bind (Cloned h b xs) (Sliced h b xs i m) (clone_inner k b.data_word b h) _
        (clone_inner_lem h k b xs v f u) λ (x, y) h' cl. Sliced-Cloned h b xs i m v x y h' le cl

  slice_range-Sliced :
      (begin end : ℕ)
      → begin ≤ end
      → end ≤ b.len
      → Ensures (Sliced h b xs begin (end - begin)) (slice_range k b.data_word begin end b h)
  unfolding slice_range
  slice_range-Sliced begin end lo hi =
      let t1 : leb end b.len ≡ true = ground arith in
      let t2 : leb begin end ≡ true = ground arith in
      elim (ℕ_discrete (end - begin) 0) [
        | yes e ↦
            let t3 : (end - begin == 0) ≡ true = ground arith in
            rw (t1, t2, t3) (Sliced-empty h b xs begin (end - begin) v e)
        | no ne ↦
            let t3 : (end - begin == 0) ≡ false = ground arith in
            rw (t1, t2, t3) (clone_part begin (end - begin) (omega arith))
      ]

  slice_from_raw-Sliced :
      (addr m : ℕ)
      → b.ptr ≤ addr
      → addr + m ≤ b.ptr + b.len
      → b.ptr + b.len < word_mod
      → Ensures (Sliced h b xs (addr - b.ptr) m) (slice_from_raw k b.data_word addr m b h)
  unfolding slice_from_raw
  slice_from_raw-Sliced addr m lo hi fits =
      let t1 : ltb (addr + m) word_mod ≡ true = ground arith in
      let t2 : leb (addr + m) (b.ptr + b.len) ≡ true = ground arith in
      let t3 : leb b.ptr addr ≡ true = ground arith in
      let e : b.ptr + (addr - b.ptr) ≡ addr = omega arith in
      elim (ℕ_discrete m 0) [
        | yes z ↦
            let t4 : (m == 0) ≡ true = ground arith in
            rw (t1, t2, t3, t4) (rw e at (Sliced-empty h b xs (addr - b.ptr) m v z))
        | no nz ↦
            let t4 : (m == 0) ≡ false = ground arith in
            rw (t1, t2, t3, t4) (rw e at (clone_part (addr - b.ptr) m (omega arith)))
      ]

pub begin_position-ok :
    (h : Heap) (s : Bound) → begin_of s < word_mod → begin_position s h ≡ ok (begin_of s) h
unfolding begin_position
begin_position-ok h (included n) fits = refl
begin_position-ok h (excluded n) fits = ground arith
begin_position-ok h unbounded fits = refl

begin_position-panic :
    (h : Heap) (s : Bound)
    → word_mod ≤ begin_of s
    → (begin_position s h ≡ ok (begin_of s) h) ⊎ (begin_position s h ≡ panic)
unfolding begin_position
begin_position-panic h (included n) fits = inl refl
begin_position-panic h (excluded n) fits = inr (ground arith)
begin_position-panic h unbounded fits = inl refl

pub end_position-ok :
    (h : Heap) (n : ℕ) (e : Bound) → end_of n e < word_mod → end_position n e h ≡ ok (end_of n e) h
unfolding end_position
end_position-ok h m (included n) fits = ground arith
end_position-ok h m (excluded n) fits = refl
end_position-ok h m unbounded fits = refl

end_position-panic :
    (h : Heap) (n : ℕ) (e : Bound)
    → word_mod ≤ end_of n e
    → (end_position n e h ≡ ok (end_of n e) h) ⊎ (end_position n e h ≡ panic)
unfolding end_position
end_position-panic h m (included n) fits = inr (ground arith)
end_position-panic h m (excluded n) fits = inl refl
end_position-panic h m unbounded fits = inl refl

slice_range-panic :
    (h : Heap) (k seen i j : ℕ) (b : Bytes)
    → ((b.len < j) ⊎ (j < i))
    → slice_range k seen i j b h ≡ panic
unfolding slice_range
slice_range-panic h k seen i j b out = ground arith

-- `slice` on a valid handle shorter than 2 ^ 64, with a count that can still grow and a fresh
-- address for a control block: a range in the view gives a handle on just those bytes, where they
-- are, and leaves the handle its view; a range that is reversed or ends past the view panics.
pub slice_bound_lem :
    (h : Heap) (k : ℕ) (b : Bytes) (xs : List ℕ) (s e : Bound)
    → IsBytes h b xs
    → IsFreshBox k h
    → Unsaturated h b.data_word
    → b.len < word_mod
    → (begin_of s ≤ end_of b.len e
        → end_of b.len e ≤ b.len
        → Ensures
            (Sliced h b xs (begin_of s) (end_of b.len e - begin_of s))
            (slice_bound k b.data_word s e b h))
      × (((b.len < end_of b.len e) ⊎ (end_of b.len e < begin_of s))
          → slice_bound k b.data_word s e b h ≡ panic)
unfolding slice_bound
slice_bound_lem h k b xs s e v f u fits = (
  λ lo hi.
      rw (begin_position-ok h s (omega arith), end_position-ok h b.len e (omega arith))
        (slice_range-Sliced h k b xs v f u (begin_of s) (end_of b.len e) lo hi),
  λ out. ground (
    arith,
    begin_position-ok h s,
    begin_position-panic h s,
    end_position-ok h b.len e,
    end_position-panic h b.len e,
    slice_range-panic h k b.data_word (begin_of s) (end_of b.len e) b,
  ),
)

-- `slice_from_raw` on a valid handle that ends below 2 ^ 64, with a count that can still grow and a
-- fresh address for a control block: a part of the view, given by address and length, gives a
-- handle on just those bytes; any other address range panics.
pub slice_from_raw_lem :
    (h : Heap) (k : ℕ) (b : Bytes) (xs : List ℕ) (addr m : ℕ)
    → IsBytes h b xs
    → IsFreshBox k h
    → Unsaturated h b.data_word
    → b.ptr + b.len < word_mod
    → (b.ptr ≤ addr
        → addr + m ≤ b.ptr + b.len
        → Ensures (Sliced h b xs (addr - b.ptr) m) (slice_from_raw k b.data_word addr m b h))
      × (((addr < b.ptr) ⊎ (b.ptr + b.len < addr + m))
          → slice_from_raw k b.data_word addr m b h ≡ panic)
unfolding slice_from_raw
slice_from_raw_lem h k b xs addr m v f u fits =
    (λ lo hi. slice_from_raw-Sliced h k b xs v f u addr m lo hi fits, λ out. ground arith)
