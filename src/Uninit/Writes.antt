-- ===== src/Uninit/Writes.antt =====
-- What is written through src/bytes/uninit_slice.rs.
use tcio.Base.{
  ℕ, ◌+◌, ◌-◌, ◌≤◌, ◌<◌, ◌≡◌, ◌≢◌, ◌⊎◌, inl, inr, refl, List, length, arith, leb, ltb, ◌==◌, true,
  false,
}
use tcio.Base.Words.{word_mod}
use tcio.Memory.{Heap, Ensures, panic, over, and_then}
use tcio.Memory.Cells.{Holds, Holds-over, Mapped, over-below, over-above}
use tcio.Memory.Runs.{store_slice-ok}
use tcio.Uninit.{
  UninitSlice, from_raw_parts_mut, Range, start_of, end_of, index, copy_from_slice, put_slice,
}

-- The slice lies in memory that may be written.
abbrev pub IsSlice : Heap → UninitSlice → Type 0
IsSlice h me = Mapped h.cell me.ptr me.len

-- From `p` on stand the bytes, and nothing else in memory has changed.
pub record Wrote (h : Heap) (p : ℕ) (xs : List ℕ) (h' : Heap) : Type 0 where
  pub holds : Holds h'.cell p xs
  pub others : (a : ℕ) → ((a < p) ⊎ (p + length xs ≤ a)) → h'.cell a ≡ h.cell a
  pub owners : (h'.vecs ≡ h.vecs) × (h'.boxes ≡ h.boxes)

Wrote-over : (h : Heap) (p : ℕ) (xs : List ℕ) → Wrote h p xs (record h { cell = over h.cell p xs })
Wrote-over h p xs = record {
  holds = Holds-over h.cell p xs;
  others = λ a out. elim out [
    | inl lt ↦ over-below h.cell p a xs lt
    | inr up ↦ over-above h.cell p a xs up
  ];
  owners = (refl, refl);
}

-- `put_slice` into a slice of memory: bytes that fit stand at its start, nothing else in memory
-- changes, and the rest of the slice is left; more bytes than fit panic.
put_slice_uninit_lem :
    (h : Heap) (me : UninitSlice) (src : List ℕ)
    → IsSlice h me
    → (length src ≤ me.len
        → Ensures
            (λ rest h'.
              Wrote h me.ptr src h'
              × (rest ≡ from_raw_parts_mut (me.ptr + length src) (me.len - length src)))
            (put_slice src me h))
      × (me.len < length src → put_slice src me h ≡ panic)
unfolding put_slice
put_slice_uninit_lem h me src m = (
  λ le.
      let t : leb (length src) me.len ≡ true = ground arith in
      rw (t, store_slice-ok h me.ptr src (λ a lo hi. m a lo (omega arith)))
        (Wrote-over h me.ptr src, refl),
  λ gt. let t : leb (length src) me.len ≡ false = ground arith in rw t refl,
)

-- Where a range lies in a slice.
abbrev pub Within : ℕ → Range → Type 0
Within len r = (start_of r ≤ end_of len r) × (end_of len r ≤ len)

-- `dst[range].copy_from_slice(src)` on a slice of memory shorter than 2 ^ 64: if the range lies in
-- it and is as long as the source, just the bytes of the range are written; a range that is
-- reversed or ends outside, and a source of another length, panic.
pub index-copy_from_slice :
    (h : Heap) (me : UninitSlice) (r : Range) (src : List ℕ)
    → IsSlice h me
    → me.len < word_mod
    → (Within me.len r
        → start_of r + length src ≡ end_of me.len r
        → Ensures
            (λ _ h'. Wrote h (me.ptr + start_of r) src h')
            (and_then (index r me h) (λ part. copy_from_slice src part)))
      × (Within me.len r
          → start_of r + length src ≢ end_of me.len r
          → and_then (index r me h) (λ part. copy_from_slice src part) ≡ panic)
      × (((end_of me.len r < start_of r) ⊎ (me.len < end_of me.len r)) → index r me h ≡ panic)
unfolding index copy_from_slice
index-copy_from_slice h me r src m fits = (
  λ (lo, hi) size.
      let t1 : ltb (end_of me.len r) word_mod ≡ true = ground arith in
      let t2 : leb (start_of r) (end_of me.len r) ≡ true = ground arith in
      let t3 : leb (end_of me.len r) me.len ≡ true = ground arith in
      let t4 : (end_of me.len r - start_of r == length src) ≡ true = ground arith in
      rw
        (
          t1,
          t2,
          t3,
          t4,
          store_slice-ok h (me.ptr + start_of r) src (λ a l u. m a (omega arith) (omega arith)),
        )
        (Wrote-over h (me.ptr + start_of r) src),
  λ (lo, hi) other.
      let t1 : ltb (end_of me.len r) word_mod ≡ true = ground arith in
      let t2 : leb (start_of r) (end_of me.len r) ≡ true = ground arith in
      let t3 : leb (end_of me.len r) me.len ≡ true = ground arith in
      let t4 : (end_of me.len r - start_of r == length src) ≡ false = ground arith in
      rw (t1, t2, t3, t4) refl,
  λ out. ground arith,
)
