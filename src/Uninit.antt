-- ===== src/Uninit.antt =====
-- src/bytes/uninit_slice.rs: a part of the heap that can be written and not read. A source slice is
-- the list of its bytes.
pub mod Writes
mod Tests
use tcio.Base.{ℕ, suc, ◌+◌, ◌-◌, Bool, List, length, leb, ltb, ◌==◌, if◌then◌else◌}
use tcio.Base.Words.{word_mod}
use tcio.Memory.{Cmd, pure, ◌>>=◌, ◌>>◌, assert, fault, store_slice}

pub record UninitSlice : Type 0 where
  pub ptr : ℕ
  pub len : ℕ

-- `new`, `from_uninit`, `from_uninit_ref` and the conversions are casts of the same fat pointer.
abbrev pub from_raw_parts_mut : ℕ → ℕ → UninitSlice
from_raw_parts_mut p n = record { ptr = p; len = n }

pub is_empty : UninitSlice → Bool
is_empty me = me.len == 0

-- `assert_eq!` on the lengths, then `copy_nonoverlapping` from a slice that cannot overlap.
unfoldable pub copy_from_slice : List ℕ → UninitSlice → Cmd (Unit {0})
copy_from_slice src me = do assert (me.len == length src); store_slice me.ptr src

-- The ranges of `std::ops` that `impl_index!` lists.
pub data Range : Type 0 where
  range : (start end : ℕ) → Range
  range_from : (start : ℕ) → Range
  range_full : Range
  range_inclusive : (start end : ℕ) → Range
  range_to : (end : ℕ) → Range
  range_to_inclusive : (end : ℕ) → Range

-- The positions of a range in a slice of `len` bytes; an inclusive end must have a successor.
abbrev pub start_of : Range → ℕ
start_of (range start end) = start
start_of (range_from start) = start
start_of range_full = 0
start_of (range_inclusive start end) = start
start_of (range_to end) = 0
start_of (range_to_inclusive end) = 0

abbrev pub end_of : ℕ → Range → ℕ
end_of len (range start end) = end
end_of len (range_from start) = len
end_of len range_full = len
end_of len (range_inclusive start end) = suc end
end_of len (range_to end) = end
end_of len (range_to_inclusive end) = suc end

-- `Index::index` and `IndexMut::index_mut`
pub index : Range → UninitSlice → Cmd UninitSlice
index r me = do
  assert (ltb (end_of me.len r) word_mod)
  assert (leb (start_of r) (end_of me.len r))
  assert (leb (end_of me.len r) me.len)
  pure (from_raw_parts_mut (me.ptr + start_of r) (end_of me.len r - start_of r))

pub remaining_mut : UninitSlice → ℕ
remaining_mut me = me.len

-- `chunk_mut` is the slice itself.
abbrev pub chunk_mut : UninitSlice → UninitSlice
chunk_mut me = me

-- `split_at_mut_unchecked` past the end is undefined behaviour.
pub advance_mut : ℕ → UninitSlice → Cmd UninitSlice
advance_mut cnt me =
    if leb cnt me.len then pure (from_raw_parts_mut (me.ptr + cnt) (me.len - cnt)) else (λ _. fault)

-- `split_at_mut` panics past the end.
pub put_slice : List ℕ → UninitSlice → Cmd UninitSlice
put_slice src me = do
  assert (leb (length src) me.len)
  store_slice me.ptr src
  pure (from_raw_parts_mut (me.ptr + length src) (me.len - length src))
