-- ===== src/Transfer.antt =====
-- src/bytes/bytes_mut.rs as a `BufMut`, `Read` and `Write`, and `copy_to_bytes` of src/bytes/buf.rs
-- and src/bytes/take.rs. A source is a `Buf` of src/bytes/buf.rs; where its operation panics, so
-- does the run.
pub mod Room
pub mod Fill
pub mod Track
pub mod Copy
pub mod Overrides
pub mod Contract
pub mod Chained
mod Tests
use tcio.Base.{
  ℕ, zero, suc, ◌+◌, ◌-◌, ◌%◌, min, Option, none, some, List, length, leb, ltb, ◌==◌, if◌then◌else◌,
  true, false, take, drop,
}
use tcio.Base.Words.{isize_max, word_mod}
use tcio.Memory.{Cmd, pure, ◌>>=◌, ◌>>◌, assert, panic, fault, Allocator, load_slice}
use tcio.Bytes
use tcio.Bytes.{Bytes}
use tcio.BytesMut
use tcio.BytesMut.{BytesMut, set_len, spare_capacity}
use tcio.Convert.{into_mut, freeze}
use tcio.Buf.{Buf, Take, take_buf, Chain}

pub remaining_mut : BytesMut → ℕ
remaining_mut me = isize_max - me.len

-- Address and length of the slice that is returned.
pub chunk_mut : Allocator → BytesMut → Cmd (BytesMut × (ℕ × ℕ))
chunk_mut g me = do
  me' ← if me.cap == me.len then BytesMut.reserve g 64 me else pure me
  pure (me', spare_capacity me')

pub advance_mut : ℕ → BytesMut → BytesMut
advance_mut cnt me = set_len (me.len + cnt) me

pub put_slice : Allocator → List ℕ → BytesMut → Cmd BytesMut
put_slice g src me = BytesMut.extend_from_slice g src me

-- `std::io::Read::read` into a buffer of `n` bytes.
pub read : ℕ → BytesMut → Cmd (BytesMut × List ℕ)
read n me = do
  let cnt = min n me.len
  xs ← load_slice me.ptr cnt
  me' ← BytesMut.advance cnt me
  pure (me', xs)

-- `std::io::Write::write`
pub write : Allocator → List ℕ → BytesMut → Cmd (BytesMut × ℕ)
write g buf me = do me' ← BytesMut.extend_from_slice g buf me; pure (me', length buf)

pub clone : Allocator → BytesMut → Cmd (BytesMut × BytesMut)
clone g me = do xs ← BytesMut.as_slice me; other ← BytesMut.copy_from_slice g xs; pure (me, other)

-- The `copy_to_bytes` of a type of cursors, which may override the default.
abbrev pub Copying : Type 0 → Type 0
Copying S = ℕ → S → Cmd (Bytes × S)

abbrev pub expect : {A : Type 0} → Option A → Cmd A
expect none = λ _. panic
expect (some a) = pure a

module _ {S : Type 0} (B : Buf S) where
  -- The loop of `put`: each round takes one byte of the source at least, so that what remains of it
  -- is fuel enough.
  pub put_loop : Allocator → (fuel : ℕ) → S → BytesMut → Cmd (BytesMut × S)
  put_loop g zero src me = if ltb 0 (B.remaining src) then (λ _. fault) else pure (me, src)
  put_loop g (suc fuel) src me =
      if ltb 0 (B.remaining src)
      then (do
        me' ← BytesMut.extend_from_slice g (B.chunk src) me
        src' ← expect (B.advance (length (B.chunk src)) src)
        put_loop g fuel src' me')
      else pure (me, src)

  -- `put` where the handle has no capacity: the source's buffer is taken over if nobody else has it.
  pub put_copied : Allocator → Copying S → S → BytesMut → Cmd (BytesMut × S)
  put_copied g copy src me = do
    (src_copy, src') ← copy (B.remaining src) src
    unique ← Bytes.is_unique src_copy
    if unique then (do me' ← into_mut g src_copy; BytesMut.drop_mut me; pure (me', src')) else (do
      xs ← Bytes.as_slice src_copy
      me' ← BytesMut.extend_from_slice g xs me
      Bytes.drop_inner src_copy
      pure (me', src'))

  unfoldable pub put : Allocator → Copying S → S → BytesMut → Cmd (BytesMut × S)
  put g copy src me =
      if B.remaining src == 0
      then pure (me, src)
      else if me.cap == 0
      then put_copied g copy src me
      else (do me' ← BytesMut.reserve g (B.remaining src) me; put_loop g (B.remaining src) src me')

-- The `copy_to_bytes` of `Take`.
abbrev pub take_copy_to_bytes : {S : Type 0} → Copying S → Copying (Take S)
take_copy_to_bytes inner len t = do
  assert (leb len t.limit)
  (b, s) ← inner len t.inner
  pure (b, record { inner = s; limit = t.limit - len })

-- The default of the trait. It calls `put`, which may call `copy_to_bytes` again: `fuel` bounds how
-- often. `k` is the address of the control block if the handle is promoted.
pub copy_to_bytes : {S : Type 0} → Buf S → Allocator → (k fuel : ℕ) → Copying S
copy_to_bytes B g k zero len src = λ _. fault
copy_to_bytes B g k (suc fuel) len src = do
  assert (leb len (B.remaining src))
  ret ← BytesMut.with_capacity_mut g len
  (ret', t) ←
      put (take_buf B) g (take_copy_to_bytes (copy_to_bytes B g k fuel))
        (record { inner = src; limit = len }) ret
  b ← freeze k ret'
  pure (b, t.inner)

-- The override of `&[u8]`.
pub slice_copy_to_bytes : Allocator → ℕ → Copying (List ℕ)
slice_copy_to_bytes g k len me = do
  assert (leb len (length me))
  out ← Bytes.copy_from_slice k g (take len me)
  pure (out, drop len me)

-- The override of `Chain`, with those of its parts. A length that both parts share is put together
-- in a new handle.
pub chain_copy_to_bytes :
    {S T : Type 0} → Buf S → Buf T → Copying S → Copying T → Allocator → ℕ → Copying (Chain S T)
chain_copy_to_bytes A B copy_a copy_b g k len c =
    let a_rem = A.remaining c.a in
    if leb len a_rem
    then (do (out, a) ← copy_a len c.a; pure (out, record { a = a; b = c.b }))
    else if a_rem == 0
    then (do (out, b) ← copy_b len c.b; pure (out, record { a = c.a; b = b }))
    else (do
      assert (leb len ((a_rem + B.remaining c.b) % word_mod))
      bufm ← BytesMut.with_capacity_mut g len
      (bufm', a) ← put A g copy_a c.a bufm
      (bufm'', t) ←
          put (take_buf B) g (take_copy_to_bytes copy_b)
            (record { inner = c.b; limit = len - a_rem }) bufm'
      out ← freeze k bufm''
      pure (out, record { a = a; b = t.inner }))

-- The `copy_to_slice` that `Bytes` and `BytesMut` override, into a slice of `n` bytes.
pub bytes_copy_to_slice : ℕ → Bytes → Cmd (Bytes × List ℕ)
bytes_copy_to_slice n me = do
  xs ← Bytes.as_slice me
  assert (leb n (length xs))
  me' ← Bytes.advance n me
  pure (me', take n xs)

pub mut_copy_to_slice : ℕ → BytesMut → Cmd (BytesMut × List ℕ)
mut_copy_to_slice n me = do
  xs ← BytesMut.as_slice me
  assert (leb n (length xs))
  me' ← BytesMut.advance n me
  pure (me', take n xs)

-- Their `copy_to_bytes`.
pub bytes_copy_to_bytes : ℕ → Copying Bytes
bytes_copy_to_bytes k len me = do (me', front) ← Bytes.split_to k len me; pure (front, me')

pub mut_copy_to_bytes : (k k' : ℕ) → Copying BytesMut
mut_copy_to_bytes k k' len me = do
  (me', front) ← BytesMut.split_to k len me
  b ← freeze k' front
  pure (b, me')
