-- ===== src/BytesMut.antt =====
-- src/bytes/bytes_mut.rs: the growable handle. A method that takes `&mut self` returns the new
-- value of the handle first. `k` is the address that the allocator returns if the call promotes
-- the handle, `g` its answers to requests for a buffer.
pub mod Valid
pub mod Advance
pub mod Clone
pub mod Split
pub mod Drop
pub mod Reserve
pub mod Settle
pub mod Realloc
pub mod Reclaim
pub mod Room
pub mod Extend
pub mod Unsplit
pub mod Full
pub mod Rejoin
pub mod TryReclaim
mod Tests
use tcio.Base.{
  ℕ, ◌+◌, ◌-◌, ◌*◌, ◌%◌, Bool, true, false, Option, none, some, List, ltb, leb, ◌==◌, ◌&&◌, not,
  length, if◌then◌else◌, min, max,
}
use tcio.Base.Words.{word_mod, isize_max}
use tcio.Memory.{
  panic, Cmd, pure, ◌>>=◌, ◌>>◌, assert, Vec, Allocator, dangling, load_slice, store_slice, to_vec,
  drop_vec, with_capacity, copy_nonoverlapping, Shared,
}
use tcio.Shared
use tcio.Shared.{
  Storage, unpromoted, promoted, new_unpromoted, is_promoted, to_unpromoted, mask_payload,
  as_unpromoted, promote_with_vec, increment, release,
}

pub record BytesMut : Type 0 where
  pub ptr : ℕ
  pub len : ℕ
  pub cap : ℕ
  pub data_word : ℕ

abbrev pub bytes_mut : ℕ → ℕ → ℕ → ℕ → BytesMut
bytes_mut p n c w = record { ptr = p; len = n; cap = c; data_word = w }

unfoldable pub from_vec : Vec → BytesMut
from_vec vec = bytes_mut vec.ptr vec.len vec.cap new_unpromoted

-- `from_vec(Vec::new())`
unfoldable pub new : BytesMut
unfolding from_vec
new = from_vec (record { ptr = dangling; len = 0; cap = 0 })

unfoldable pub with_capacity_mut : Allocator → ℕ → Cmd BytesMut
with_capacity_mut g n = do v ← with_capacity g n; pure (from_vec v)

unfoldable pub copy_from_slice : Allocator → List ℕ → Cmd BytesMut
copy_from_slice g xs = do v ← to_vec g xs; pure (from_vec v)

pub is_empty : BytesMut → Bool
is_empty me = me.len == 0

unfoldable pub as_slice : BytesMut → Cmd (List ℕ)
as_slice me = load_slice me.ptr me.len

abbrev pub set_len : ℕ → BytesMut → BytesMut
set_len new_len me = record me { len = new_len }

-- Address and length of the spare part.
abbrev pub spare_capacity : BytesMut → ℕ × ℕ
spare_capacity me = (me.ptr + me.len, me.cap - me.len)

abbrev pub original_buffer : ℕ → BytesMut → Vec
original_buffer offset me = record {
  ptr = me.ptr - offset;
  len = me.len + offset;
  cap = me.cap + offset;
}

-- `max(self.cap * 2, len + additional)`
abbrev pub grown : ℕ → BytesMut → ℕ
grown additional me = max (me.cap * 2 % word_mod) ((me.len + additional) % word_mod)

-- The arm of `reserve_inner` for an unpromoted handle.
pub reserve_owned : Allocator → ℕ → Bool → ℕ → BytesMut → Cmd (BytesMut × Bool)
reserve_owned g additional allocate offset me =
    if leb additional (offset + (me.cap - me.len)) && leb me.len offset
    then (do
      copy_nonoverlapping me.ptr (me.ptr - offset) me.len
      w ← mask_payload me.data_word 0
      pure (bytes_mut (me.ptr - offset) me.len (me.cap + offset) w, true))
    else if not allocate
    then pure (me, false)
    else (do
      v ← with_capacity g (grown additional me)
      copy_nonoverlapping me.ptr v.ptr me.len
      drop_vec (original_buffer offset me)
      w ← mask_payload me.data_word 0
      pure (bytes_mut v.ptr me.len v.cap w, true))

-- The end of the arm for a promoted handle, where nothing was reclaimed.
pub reallocate_shared : Allocator → ℕ → Bool → BytesMut → Cmd (BytesMut × Bool)
reallocate_shared g additional allocate me = if not allocate then pure (me, false) else (do
  v ← with_capacity g (grown additional me)
  copy_nonoverlapping me.ptr v.ptr me.len
  release me.data_word
  pure (bytes_mut v.ptr me.len v.cap new_unpromoted, true))

-- `self.cap += remaining_tail`, for the last handle on a buffer.
abbrev pub with_tail : Shared → BytesMut → BytesMut
with_tail shared me =
    let offset = me.ptr - shared.ptr in
    record me { cap = me.cap + (shared.cap - (me.cap + offset)) }

-- The arm for the last handle on a promoted buffer, up to the reallocation.
pub reclaim_shared : Allocator → ℕ → Bool → Shared → BytesMut → Cmd (BytesMut × Bool)
reclaim_shared g additional allocate shared me =
    let offset = me.ptr - shared.ptr in
    let me' = with_tail shared me in
    if leb additional (shared.cap - (me.cap + offset))
    then pure (me', true)
    else if leb additional (offset + (me'.cap - me'.len)) && leb me.len offset
    then (do
      copy_nonoverlapping me.ptr shared.ptr me.len
      pure (bytes_mut shared.ptr me.len (me'.cap + offset) me.data_word, true))
    else reallocate_shared g additional allocate me'

pub reserve_inner : Allocator → ℕ → Bool → BytesMut → Cmd (BytesMut × Bool)
reserve_inner g additional allocate me = if additional == 0 then pure (me, true) else (do
  assert (leb ((additional + me.cap) % word_mod) isize_max)
  st ← as_unpromoted me.data_word
  elim st [
    | unpromoted offset ↦ reserve_owned g additional allocate offset me
    | promoted shared ↦
        if Shared.is_unique shared
        then reclaim_shared g additional allocate shared me
        else reallocate_shared g additional allocate me
  ])

unfoldable pub reserve : Allocator → ℕ → BytesMut → Cmd BytesMut
reserve g additional me =
    if leb additional (me.cap - me.len)
    then pure me
    else (do (me', _) ← reserve_inner g additional true me; pure me')

pub try_reclaim : Allocator → ℕ → BytesMut → Cmd (BytesMut × Bool)
try_reclaim g additional me =
    if leb additional (me.cap - me.len)
    then pure (me, true)
    else reserve_inner g additional false me

pub try_reclaim_full : Allocator → BytesMut → Cmd (BytesMut × Bool)
try_reclaim_full g me = do
  st ← as_unpromoted me.data_word
  elim st [
    | unpromoted offset ↦ reserve_inner g (offset + (me.cap - me.len)) false me
    | promoted shared ↦ reserve_inner g (shared.cap - me.len) false me
  ]

unfoldable pub advance_unchecked : ℕ → BytesMut → Cmd BytesMut
advance_unchecked count me = if count == 0 then pure me else (do
  st ← as_unpromoted me.data_word
  w ← elim st [
    | unpromoted offset ↦ mask_payload me.data_word (offset + count)
    | promoted shared ↦ pure me.data_word
  ]
  pure (bytes_mut (me.ptr + count) (me.len - count) (me.cap - count) w))

-- `Buf::advance`
unfoldable pub advance : ℕ → BytesMut → Cmd BytesMut
advance cnt me = do assert (leb cnt me.len); advance_unchecked cnt me

pub advance_to_ptr : ℕ → BytesMut → Cmd BytesMut
advance_to_ptr p me = advance_unchecked (p - me.ptr) me

pub truncate : ℕ → BytesMut → BytesMut
truncate len me = if ltb len me.len then set_len len me else me

pub truncate_off : ℕ → BytesMut → BytesMut
truncate_off off me = if leb off me.len then set_len (me.len - off) me else me

pub clear : BytesMut → BytesMut
clear me = set_len 0 me

-- The handle with its new word, and the copy of its fields.
pub shallow_clone : ℕ → BytesMut → Cmd (BytesMut × BytesMut)
shallow_clone k me = do
  st ← as_unpromoted me.data_word
  elim st [
    | unpromoted offset ↦ do
      w ← promote_with_vec k (original_buffer offset me) 2
      pure (record me { data_word = w }, record me { data_word = w })
    | promoted shared ↦ do increment me.data_word; pure (me, me)
  ]

pub try_split_to : (k at : ℕ) → BytesMut → Cmd (BytesMut × Option BytesMut)
try_split_to k at me = if ltb me.len at then pure (me, none) else (do
  (me', clone) ← shallow_clone k me
  me'' ← advance_unchecked at me'
  pure (me'', some (record clone { len = at; cap = at })))

pub try_split_off : (k at : ℕ) → BytesMut → Cmd (BytesMut × Option BytesMut)
try_split_off k at me = if ltb me.cap at then pure (me, none) else (do
  (me', other) ← shallow_clone k me
  other' ← advance_unchecked at other
  pure (record me' { len = min me'.len at; cap = at }, some other'))

-- The `panic!` of `split_to` and `split_off`.
abbrev pub expect : BytesMut × Option BytesMut → Cmd (BytesMut × BytesMut)
expect (me, none) = λ _. panic
expect (me, some other) = pure (me, other)

unfoldable pub split_to : (k at : ℕ) → BytesMut → Cmd (BytesMut × BytesMut)
split_to k at me = do r ← try_split_to k at me; expect r

pub split_off : (k at : ℕ) → BytesMut → Cmd (BytesMut × BytesMut)
split_off k at me = do r ← try_split_off k at me; expect r

pub split : ℕ → BytesMut → Cmd (BytesMut × BytesMut)
split k me = split_to k me.len me

-- `ptr.addr().checked_sub(self.ptr.addr())`
pub split_to_ptr : (k p : ℕ) → BytesMut → Cmd (BytesMut × BytesMut)
split_to_ptr k p me = if leb me.ptr p then split_to k (p - me.ptr) me else λ _. panic

pub split_off_ptr : (k p : ℕ) → BytesMut → Cmd (BytesMut × BytesMut)
split_off_ptr k p me = if leb me.ptr p then split_off k (p - me.ptr) me else λ _. panic

pub drop_mut : BytesMut → Cmd (Unit {0})
drop_mut me = do
  st ← as_unpromoted me.data_word
  elim st [
    | unpromoted offset ↦ drop_vec (original_buffer offset me)
    | promoted shared ↦ release me.data_word
  ]

unfoldable pub extend_from_slice : Allocator → List ℕ → BytesMut → Cmd BytesMut
extend_from_slice g extend me = do
  me' ← reserve g (length extend) me
  store_slice (me'.ptr + me'.len) extend
  pure (record me' { len = me'.len + length extend })

-- `Result<(), BytesMut>`: `none` when `other` was absorbed, and the end of `other` with it.
pub try_unsplit : BytesMut → BytesMut → Cmd (BytesMut × Option BytesMut)
try_unsplit other me =
    if other.cap == 0
    then (do drop_mut other; pure (me, none))
    else if me.ptr + me.len == other.ptr && is_promoted me.data_word && is_promoted other.data_word
    then (do
      drop_mut other
      pure (record me { len = me.len + other.len; cap = me.cap + other.cap }, none))
    else pure (me, some other)

-- What `unsplit` does with the result of `try_unsplit`.
pub append_rest : Allocator → BytesMut × Option BytesMut → Cmd BytesMut
append_rest g (me, none) = pure me
append_rest g (me, some other) = do
  xs ← as_slice other
  me' ← extend_from_slice g xs me
  drop_mut other
  pure me'

pub unsplit : Allocator → BytesMut → BytesMut → Cmd BytesMut
unsplit g other me =
    if is_empty me
    then (do drop_mut me; pure other)
    else (do r ← try_unsplit other me; append_rest g r)
