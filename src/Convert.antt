-- ===== src/Convert.antt =====
-- The conversions between src/bytes/bytes.rs, src/bytes/bytes_mut.rs and byte vectors: `freeze`,
-- `into_vec`, `into_mut`. `k` is the address that the allocator returns if a control block is made.
pub mod Vectors
pub mod Freeze
pub mod FromVec
pub mod IntoVec
pub mod IntoMut
mod Tests
use tcio.Base.{ℕ, ◌-◌, none, some, ◌==◌, leb, if◌then◌else◌}
use tcio.Memory.{Cmd, pure, ◌>>=◌, ◌>>◌, Vec, Allocator, to_vec, copy, copy_nonoverlapping}
use tcio.Shared.{Storage, unpromoted, promoted, as_unpromoted, release_into_vec, null}
use tcio.Bytes
use tcio.Bytes.{Bytes, bytes, build_unpromoted_vec}
use tcio.BytesMut
use tcio.BytesMut.{BytesMut, original_buffer, set_len}

-- `Bytes::from_mut`
abbrev pub from_mut : ℕ → BytesMut → Bytes
from_mut shared bytesm = bytes bytesm.ptr bytesm.len shared

-- `BytesMut::freeze`
pub freeze : ℕ → BytesMut → Cmd Bytes
freeze k me = do
  st ← as_unpromoted me.data_word
  elim st [
    | unpromoted offset ↦ do
      b ← Bytes.from_vec k (original_buffer offset me)
      Bytes.advance offset b
    | promoted shared ↦ pure (from_mut me.data_word me)
  ]

-- The end of `into_vec`: the bytes move to the start of the vector.
pub move_back : Bytes → ℕ → Vec → Cmd Vec
move_back me advanced vec = if advanced == 0 then pure (record vec { len = me.len }) else (do
  if leb me.len advanced
      then copy_nonoverlapping me.ptr vec.ptr me.len
      else copy me.ptr vec.ptr me.len
  pure (record vec { len = me.len }))

-- `bytes.as_slice().to_vec()`
pub copied : Allocator → Bytes → Cmd Vec
copied g me = do xs ← Bytes.as_slice me; to_vec g xs

-- `Bytes::into_vec`
pub into_vec : Allocator → Bytes → Cmd Vec
unfolding build_unpromoted_vec
into_vec g me = if me.data_word == null then copied g me else (do
  st ← as_unpromoted me.data_word
  elim st [
    | unpromoted offset ↦ move_back me offset (build_unpromoted_vec me offset)
    | promoted shared ↦ do
      r ← release_into_vec me.data_word shared.cap
      elim r [ none ↦ copied g me | some vec ↦ move_back me (me.ptr - shared.ptr) vec ]
  ])

-- `BytesMut::from_vec(bytes.as_slice().to_vec())`
pub copied_mut : Allocator → Bytes → Cmd BytesMut
copied_mut g me = do v ← copied g me; pure (BytesMut.from_vec v)

-- `Bytes::into_mut`
pub into_mut : Allocator → Bytes → Cmd BytesMut
unfolding build_unpromoted_vec
into_mut g me = if me.data_word == null then copied_mut g me else (do
  st ← as_unpromoted me.data_word
  elim st [
    | unpromoted offset ↦
        BytesMut.advance_unchecked offset (BytesMut.from_vec (build_unpromoted_vec me offset))
    | promoted shared ↦ do
      r ← release_into_vec me.data_word shared.cap
      elim r [
        | none ↦ copied_mut g me
        | some vec ↦ do
          bufm ← BytesMut.advance_unchecked (me.ptr - shared.ptr) (BytesMut.from_vec vec)
          pure (set_len me.len bufm)
      ]
  ])
