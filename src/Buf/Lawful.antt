-- ===== src/Buf/Lawful.antt =====
-- What src/bytes/buf.rs asks of an implementation of `Buf`.
use tcio.Base.{ℕ, ◌≤◌, ◌<◌, ◌≡◌, List, length, take, drop, Option, none, some}
use tcio.Buf.{Buf}

-- The cursor is valid after the step and stands `n` bytes further.
abbrev pub Moved :
    {S : Type 0} → (Valid : S → Type 0) → (content : S → List ℕ) → ℕ → List ℕ → Option S → Type 0
Moved Valid content n xs none = ⊥
Moved Valid content n xs (some s) = Valid s × (content s ≡ drop n xs)

-- The cursors in `Valid` have the bytes `content` still to come.
pub record Lawful {S : Type 0} (B : Buf S) (Valid : S → Type 0) (content : S → List ℕ)
    : Type 0 where
  pub remaining_length : (s : S) → Valid s → B.remaining s ≡ length (content s)
  pub chunk_prefix : (s : S) → Valid s → B.chunk s ≡ take (length (B.chunk s)) (content s)
  pub chunk_some : (s : S) → Valid s → 0 < length (content s) → 0 < length (B.chunk s)
  pub advance_drop :
      (n : ℕ) (s : S)
      → Valid s
      → n ≤ length (content s)
      → Moved Valid content n (content s) (B.advance n s)
