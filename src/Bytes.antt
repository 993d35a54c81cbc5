-- ===== src/Bytes.antt =====
-- src/bytes/bytes.rs: the immutable handle, its views, splits and clones. A method that takes
-- `&mut self`, or that may promote the handle, returns the new value of the handle first. `k` is
-- the address that the allocator returns if the call promotes the handle.
pub mod Valid
pub mod Clone
pub mod Advance
pub mod Split
pub mod Slice
pub mod Drop
pub mod Truncate
pub mod Race
pub mod Threads
mod Tests
use tcio.Base.{
  ℕ, ◌+◌, ◌-◌, Bool, true, false, Option, none, some, List, ltb, leb, ◌==◌, ◌&&◌, if◌then◌else◌,
  min,
}
use tcio.Base.Words.{word_mod}
use tcio.Memory.{
  Heap, Run, ok, panic, Cmd, pure, ◌>>=◌, ◌>>◌, assert, Vec, Allocator, dangling, load_slice,
  to_vec, drop_vec,
}
use tcio.Shared
use tcio.Shared.{
  Storage, unpromoted, promoted, null, new_unpromoted, to_unpromoted, mask_payload, as_unpromoted,
  promote_with_vec, increment, release,
}

pub record Bytes : Type 0 where
  pub ptr : ℕ
  pub len : ℕ
  pub data_word : ℕ

abbrev pub bytes : ℕ → ℕ → ℕ → Bytes
bytes p n w = record { ptr = p; len = n; data_word = w }

-- A static slice has an address and a length.
unfoldable pub from_static : ℕ → ℕ → Bytes
from_static p n = bytes p n null

unfoldable pub new : Bytes
unfolding from_static
new = from_static dangling 0

unfoldable pub from_vec : ℕ → Vec → Cmd Bytes
unfolding new
from_vec k vec =
    if vec.len == 0
    then (do drop_vec vec; pure new)
    else if vec.cap == vec.len
    then pure (bytes vec.ptr vec.len new_unpromoted)
    else (do w ← promote_with_vec k vec 1; pure (bytes vec.ptr vec.len w))

unfoldable pub copy_from_slice : ℕ → Allocator → List ℕ → Cmd Bytes
copy_from_slice k g xs = do v ← to_vec g xs; from_vec k v

-- A boxed slice has no spare capacity.
unfoldable pub from_box : ℕ → ℕ → Bytes
from_box p n = bytes p n new_unpromoted

unfoldable pub is_empty : Bytes → Bool
is_empty me = me.len == 0

unfoldable pub as_slice : Bytes → Cmd (List ℕ)
as_slice me = load_slice me.ptr me.len

abbrev pub new_empty_with_ptr : ℕ → Bytes
new_empty_with_ptr p = bytes p 0 null

unfoldable pub build_unpromoted_vec : Bytes → ℕ → Vec
build_unpromoted_vec me offset = record {
  ptr = me.ptr - offset;
  len = me.len + offset;
  cap = me.len + offset;
}

-- `seen` is what `compare_exchange` finds in `me.data`: the word that was loaded before, or the
-- control block that another thread installed meanwhile.
unfoldable pub promote_ref : (k seen : ℕ) → Bytes → (offset shared : ℕ) → Cmd (Bytes × Bytes)
unfolding build_unpromoted_vec
promote_ref k seen me offset shared = do
  new_shared ← promote_with_vec k (build_unpromoted_vec me offset) 2
  if seen == shared
      then pure (record me { data_word = new_shared }, bytes me.ptr me.len new_shared)
      else (do
        release new_shared
        increment seen
        pure (record me { data_word = seen }, bytes me.ptr me.len seen))

unfoldable pub clone_inner : (k seen : ℕ) → Bytes → Cmd (Bytes × Bytes)
clone_inner k seen me = if me.data_word == null then pure (me, bytes me.ptr me.len null) else (do
  st ← as_unpromoted me.data_word
  elim st [
    | unpromoted offset ↦ promote_ref k seen me offset me.data_word
    | promoted shared ↦ do increment me.data_word; pure (me, bytes me.ptr me.len me.data_word)
  ])

pub clone_inner_mut : (k : ℕ) → Bytes → Cmd (Bytes × Bytes)
unfolding build_unpromoted_vec
clone_inner_mut k me = if me.data_word == null then pure (me, bytes me.ptr me.len null) else (do
  st ← as_unpromoted me.data_word
  elim st [
    | unpromoted offset ↦ do
      new_shared ← promote_with_vec k (build_unpromoted_vec me offset) 2
      pure (record me { data_word = new_shared }, bytes me.ptr me.len new_shared)
    | promoted shared ↦ do increment me.data_word; pure (me, bytes me.ptr me.len me.data_word)
  ])

unfoldable pub drop_inner : Bytes → Cmd (Unit {0})
unfolding build_unpromoted_vec
drop_inner me = if me.data_word == null then pure tt else (do
  st ← as_unpromoted me.data_word
  elim st [
    | unpromoted offset ↦ drop_vec (build_unpromoted_vec me offset)
    | promoted shared ↦ release me.data_word
  ])

unfoldable pub is_unique : Bytes → Cmd Bool
unfolding Shared.is_unique
is_unique me = if me.data_word == null then pure false else (do
  st ← as_unpromoted me.data_word
  elim st [ unpromoted offset ↦ pure true | promoted shared ↦ pure (Shared.is_unique shared) ])

unfoldable pub advance_unchecked : ℕ → Bytes → Cmd Bytes
advance_unchecked count me = if count == 0 then pure me else (do
  w ← elim (to_unpromoted me.data_word) [
    | none ↦ pure me.data_word
    | some offset ↦ mask_payload me.data_word (offset + count)
  ]
  pure (bytes (me.ptr + count) (me.len - count) w))

unfoldable pub advance : ℕ → Bytes → Cmd Bytes
advance cnt me = do assert (leb cnt me.len); advance_unchecked cnt me

-- `ptr.offset_from_unsigned(self.ptr)`
pub advance_to_ptr : ℕ → Bytes → Cmd Bytes
advance_to_ptr p me = advance_unchecked (p - me.ptr) me

unfoldable pub try_split_off : (k at : ℕ) → Bytes → Cmd (Bytes × Option Bytes)
try_split_off k at me =
    if ltb me.len at
    then pure (me, none)
    else if at == me.len
    then pure (me, some (new_empty_with_ptr (me.ptr + me.len)))
    else if at == 0
    then pure (new_empty_with_ptr me.ptr, some me)
    else (do
      (me', clone) ← clone_inner_mut k me
      clone' ← advance_unchecked at clone
      pure (record me' { len = at }, some clone'))

unfoldable pub try_split_to : (k at : ℕ) → Bytes → Cmd (Bytes × Option Bytes)
try_split_to k at me =
    if ltb me.len at
    then pure (me, none)
    else if at == me.len
    then pure (new_empty_with_ptr (me.ptr + me.len), some me)
    else if at == 0
    then pure (me, some (new_empty_with_ptr me.ptr))
    else (do
      (me', clone) ← clone_inner_mut k me
      me'' ← advance_unchecked at me'
      pure (me'', some (record clone { len = at })))

-- The `panic!` of `split_off` and `split_to`.
abbrev pub expect : Bytes × Option Bytes → Cmd (Bytes × Bytes)
expect (me, none) = λ _. panic
expect (me, some other) = pure (me, other)

unfoldable pub split_off : (k at : ℕ) → Bytes → Cmd (Bytes × Bytes)
split_off k at me = do r ← try_split_off k at me; expect r

unfoldable pub split_to : (k at : ℕ) → Bytes → Cmd (Bytes × Bytes)
split_to k at me = do r ← try_split_to k at me; expect r

unfoldable pub truncate : (k len : ℕ) → Bytes → Cmd Bytes
truncate k len me =
    if leb me.len len
    then pure me
    else if me.data_word == null
    then pure (record me { len = len })
    else (do (me', rest) ← split_off k len me; drop_inner rest; pure me')

-- `self.len.checked_sub(off)`
pub truncate_off : (k off : ℕ) → Bytes → Cmd Bytes
truncate_off k off me = if leb off me.len then truncate k (me.len - off) me else pure me

unfoldable pub clear : Bytes → Cmd Bytes
clear me = do drop_inner me; pure (new_empty_with_ptr me.ptr)

-- `core::ops::Bound<&usize>`
pub data Bound : Type 0 where
  included : ℕ → Bound
  excluded : ℕ → Bound
  unbounded : Bound

-- `n.checked_add(1).expect("out of range")`
abbrev checked_suc : ℕ → Cmd ℕ
checked_suc n = if ltb (n + 1) word_mod then pure (n + 1) else λ _. panic

-- The matches on the two bounds.
pub begin_position : Bound → Cmd ℕ
begin_position (included n) = pure n
begin_position (excluded n) = checked_suc n
begin_position unbounded = pure 0

pub end_position : ℕ → Bound → Cmd ℕ
end_position len (included n) = checked_suc n
end_position len (excluded n) = pure n
end_position len unbounded = pure len

-- What follows the matches.
unfoldable pub slice_range : (k seen begin end : ℕ) → Bytes → Cmd (Bytes × Bytes)
slice_range k seen begin end me = do
  assert (leb end me.len)
  assert (leb begin end)
  if end - begin == 0 then pure (me, new_empty_with_ptr (me.ptr + begin)) else (do
    (me', cloned) ← clone_inner k seen me
    pure (me', record cloned { ptr = me.ptr + begin; len = end - begin }))

unfoldable pub slice_bound : (k seen : ℕ) → Bound → Bound → Bytes → Cmd (Bytes × Bytes)
slice_bound k seen start_bound end_bound me = do
  begin ← begin_position start_bound
  end ← end_position me.len end_bound
  slice_range k seen begin end me

pub slice_from_raw : (k seen addr len : ℕ) → Bytes → Cmd (Bytes × Bytes)
slice_from_raw k seen addr len me = do
  assert (ltb (addr + len) word_mod)
  assert (leb (addr + len) (me.ptr + me.len))
  assert (leb me.ptr addr)
  if len == 0 then pure (me, new_empty_with_ptr addr) else (do
    (me', cloned) ← clone_inner k seen me
    pure (me', record cloned { ptr = addr; len = len }))

unfoldable pub slice_ref : (k seen addr len : ℕ) → Bytes → Cmd (Bytes × Bytes)
slice_ref k seen addr len me = slice_from_raw k seen addr len me

-- `std::io::Read::read` into a buffer of `n` bytes.
unfoldable pub read : ℕ → Bytes → Cmd (Bytes × List ℕ)
read n me = do
  let cnt = min n me.len
  xs ← load_slice me.ptr cnt
  me' ← advance cnt me
  pure (me', xs)
