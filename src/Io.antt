-- ===== src/Io.antt =====
-- The trait `AsyncWrite` of src/io/write.rs, `AsyncRead` of src/io/read.rs, and their
-- implementations for slices and vectors. An operation on a pinned writer returns the new writer
-- with its answer; the outer `none` is a panic. `E` is `io::Error`, with `write_zero` for
-- `ErrorKind::WriteZero`.
pub mod WriteAll
pub mod Vectored
mod Tests
use tcio.Base.{
  ℕ, zero, suc, ◌-◌, min, Option, none, some, List, [], ◌∷◌, ◌++◌, length, take, drop, leb, ltb,
  if◌then◌else◌, ◌==◌, true, false,
}
use tcio.Buf.{Buf}
use tcio.Buf.Slots.{Slots}
use tcio.BufMut.{BufMut, put_slice}

pub data Poll (A : Type 0) : Type 0 where
  ready : A → Poll A
  pending : Poll A

pub data Result (A E : Type 0) : Type 0 where
  ok : A → Result A E
  err : E → Result A E

-- `poll_write`
pub record Writer (E W : Type 0) : Type 0 where
  pub poll_write : List ℕ → W → Option (Poll (Result ℕ E) × W)

module _ {E W S : Type 0} (D : Writer E W) (B : Buf S) where
  -- The writer, the buffer and the answer.
  abbrev pub Answer : Type 0 → Type 0
  Answer A = Option (Poll (Result A E) × (W × S))

  pub poll_write_buf : W → S → Answer ℕ
  poll_write_buf w buf = elim (D.poll_write (B.chunk buf) w) [
    | none ↦ none
    | some (ready (ok write), w') ↦ elim (B.advance write buf) [
      | none ↦ none
      | some buf' ↦ some (ready (ok write), (w', buf'))
    ]
    | some (ready (err e), w') ↦ some (ready (err e), (w', buf))
    | some (pending, w') ↦ some (pending, (w', buf))
  ]

  -- The loop of `poll_write_all_buf`: each round writes one byte at least or ends the loop, so that
  -- what remains of the buffer, plus one, is fuel enough.
  pub write_loop : (write_zero : E) → (fuel : ℕ) → W → S → Answer (Unit {0})
  write_loop write_zero zero w buf = none
  write_loop write_zero (suc fuel) w buf =
      if ltb 0 (B.remaining buf)
      then elim (poll_write_buf w buf) [
        | none ↦ none
        | some (pending, (w', buf')) ↦ some (pending, (w', buf'))
        | some (ready (err e), (w', buf')) ↦ some (ready (err e), (w', buf'))
        | some (ready (ok read), (w', buf')) ↦ elim read [
          | zero ↦ some (ready (err write_zero), (w', buf'))
          | suc _ ↦ write_loop write_zero fuel w' buf'
        ]
      ]
      else some (ready (ok tt), (w, buf))

  pub poll_write_all_buf : E → W → S → Answer (Unit {0})
  poll_write_all_buf write_zero w buf = write_loop write_zero (suc (B.remaining buf)) w buf

-- `bufs.iter().find(|b| !b.is_empty())`, or an empty slice.
abbrev pub first_nonempty : List (List ℕ) → List ℕ
first_nonempty [] = []
first_nonempty ([] ∷ bufs) = first_nonempty bufs
first_nonempty ((b ∷ bs) ∷ bufs) = b ∷ bs

-- The vectored write of a writer, which it may override.
abbrev pub Gathering : Type 0 → Type 0 → Type 0
Gathering E W = List (List ℕ) → W → Option (Poll (Result ℕ E) × W)

-- The default of the trait.
abbrev pub poll_write_vectored : {E W : Type 0} → Writer E W → Gathering E W
poll_write_vectored D bufs w = D.poll_write (first_nonempty bufs) w

-- The answer is read as in `poll_write_buf`, but the number of bytes is not returned.
pub poll_write_buf_vectored :
    {E W S : Type 0}
    → Gathering E W
    → Buf S
    → Slots S
    → W
    → S
    → Option (Poll (Result (Unit {0}) E) × (W × S))
poll_write_buf_vectored write_vectored B chunks w buf = elim (write_vectored (chunks 64 buf) w) [
  | none ↦ none
  | some (ready (ok write), w') ↦ elim (B.advance write buf) [
    | none ↦ none
    | some buf' ↦ some (ready (ok tt), (w', buf'))
  ]
  | some (ready (err e), w') ↦ some (ready (err e), (w', buf))
  | some (pending, w') ↦ some (pending, (w', buf))
]

-- `impl AsyncWrite for Vec<u8>`
abbrev pub vec_writer : {E : Type 0} → Writer E (List ℕ)
vec_writer = record { poll_write = λ buf me. some (ready (ok (length buf)), me ++ buf) }

-- What has been written and the rest of the slice.
pub record SliceWriter : Type 0 where
  pub written : List ℕ
  pub rest : ℕ

-- `impl AsyncWrite for &mut [u8]`: `a.copy_from_slice(buf)` panics unless `a`, of `cnt` bytes, is
-- as long as `buf`.
abbrev pub slice_writer : {E : Type 0} → Writer E SliceWriter
slice_writer = record {
  poll_write = λ buf me.
      let cnt = min me.rest (length buf) in
      if cnt == length buf
      then some (ready (ok cnt), record { written = me.written ++ buf; rest = me.rest - cnt })
      else none;
}

-- `impl AsyncRead for &[u8]`, into a `BufMut`: the answer, the rest of the slice and the target.
pub poll_read : {E W : Type 0} → BufMut W → List ℕ → W → Option (Poll (Result ℕ E) × (List ℕ × W))
unfolding put_slice
poll_read D me buf =
    let cnt = min (length me) (D.remaining_mut buf) in
    elim (put_slice D (take cnt me) buf) [
      | none ↦ none
      | some buf' ↦ some (ready (ok cnt), (drop cnt me, buf'))
    ]
