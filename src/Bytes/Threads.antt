-- ===== src/Bytes/Threads.antt =====
-- `clone` in src/bytes/bytes.rs by two threads on one handle: the atomic steps of `clone_inner` and
-- `promote_ref`, which may be interleaved.
pub mod Points
pub mod Turns
pub mod Safe
mod Alone
mod Tests
use tcio.Base.{ℕ, ◌==◌, if◌then◌else◌, ◌≡◌}
use tcio.Memory.{Heap, Cmd, pure, ◌>>=◌, ◌>>◌, ok, IsFreshBox, fault}
use tcio.Shared.{null, as_unpromoted, unpromoted, promoted, promote_with_vec, increment, release}
use tcio.Bytes.{Bytes, bytes, build_unpromoted_vec}

-- How far a thread is: before the load of the word, behind it, behind the creation of a control
-- block, after `compare_exchange` refused it, after its release, and at the end.
pub data Point : Type 0 where
  start : Point
  loaded : (shared : ℕ) → Point
  created : (shared new_shared : ℕ) → Point
  refused : (new_shared promoted_shared : ℕ) → Point
  released : (promoted_shared : ℕ) → Point
  cloned : Bytes → Point

-- The match of `clone_inner` on the word that was loaded, up to `compare_exchange`.
abbrev pub match_word : (k : ℕ) → Bytes → (shared : ℕ) → Cmd (Bytes × Point)
match_word k me shared =
    if shared == null then pure (me, cloned (bytes me.ptr me.len null)) else (do
      st ← as_unpromoted shared
      elim st [
        | unpromoted offset ↦ do
          new_shared ← promote_with_vec k (build_unpromoted_vec me offset) 2
          pure (me, created shared new_shared)
        | promoted s ↦ do increment shared; pure (me, cloned (bytes me.ptr me.len shared))
      ])

-- One step. `k` is the address of the control block if one is created.
pub turn : (k : ℕ) → Bytes → Point → Cmd (Bytes × Point)
unfolding build_unpromoted_vec
turn k me start = pure (me, loaded me.data_word)
turn k me (loaded shared) = match_word k me shared
turn k me (created shared new_shared) =
    if me.data_word == shared
    then pure (record me { data_word = new_shared }, cloned (bytes me.ptr me.len new_shared))
    else pure (me, refused new_shared me.data_word)
turn k me (refused new_shared promoted_shared) = do
  release new_shared
  pure (me, released promoted_shared)
turn k me (released promoted_shared) = do
  increment promoted_shared
  pure (me, cloned (bytes me.ptr me.len promoted_shared))
turn k me (cloned other) = pure (me, cloned other)

-- The handle, the two threads and the memory.
pub record World : Type 0 where
  pub me : Bytes
  pub left : Point
  pub right : Point
  pub heap : Heap

abbrev pub world : Bytes → Point → Point → Heap → World
world me a b h = record { me = me; left = a; right = b; heap = h }

-- One of the two makes a step.
pub data Step : World → World → Type 0 where
  left_turn :
      {me me' : Bytes} {a a' b : Point} {h h' : Heap} (k : ℕ)
      → IsFreshBox k h
      → turn k me a h ≡ ok (me', a') h'
      → Step (world me a b h) (world me' a' b h')
  right_turn :
      {me me' : Bytes} {a b b' : Point} {h h' : Heap} (k : ℕ)
      → IsFreshBox k h
      → turn k me b h ≡ ok (me', b') h'
      → Step (world me a b h) (world me' a b' h')

pub data Reach (s : World) : World → Type 0 where
  begin : Reach s s
  next : {t u : World} → Reach s t → Step t u → Reach s u

-- A thread that is alone makes its three steps one after the other.
pub answer : Bytes × Point → Cmd (Bytes × Bytes)
answer (me, cloned other) = pure (me, other)
answer (me, start) = λ _. fault
answer (me, loaded shared) = λ _. fault
answer (me, created shared new_shared) = λ _. fault
answer (me, refused new_shared promoted_shared) = λ _. fault
answer (me, released promoted_shared) = λ _. fault

pub alone : ℕ → Bytes → Cmd (Bytes × Bytes)
alone k me = do (me1, p1) ← turn k me start; (me2, p2) ← turn k me1 p1; r ← turn k me2 p2; answer r
