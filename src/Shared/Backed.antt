-- ===== src/Shared/Backed.antt =====
-- What a handle's word says about the buffer behind its pointer.
use tcio.Base.{
  ℕ, ◌+◌, ◌-◌, ◌/◌, ◌%◌, ◌≤◌, ◌<◌, ◌≡◌, ◌⊎◌, none, some, ◌==◌, if◌then◌else◌, arith, ◌*◌,
}
use tcio.Base.Words.{isize_max}
use tcio.Memory.{Shared, Heap}
use tcio.Memory.Cells.{Mapped}

-- A live buffer of `c` bytes at `p`; an empty one needs no allocation.
pub record IsBuffer (h : Heap) (p c : ℕ) : Type 0 where
  pub mapped : Mapped h.cell p c
  pub live : (c ≡ 0) ⊎ (h.vecs p ≡ some c)
  pub small : c ≤ isize_max

-- The `n` bytes from `p` on lie in the buffer that the word stands for. Unpromoted, the bytes end
-- where the buffer ends and the word has the offset from its start. Promoted, they lie anywhere in
-- the buffer of a control block that counts one reference at least.
pub data Backed (h : Heap) (word p n : ℕ) : Type 0 where
  owned : word % 2 ≡ 1 → word / 2 ≤ p → IsBuffer h (p - word / 2) (n + word / 2) → Backed h word p n
  counted :
      (s : Shared)
      → word % 2 ≡ 0
      → 0 < word
      → h.boxes word ≡ some s
      → 0 < s.ref_count
      → s.ptr ≤ p
      → p + n ≤ s.ptr + s.cap
      → IsBuffer h s.ptr s.cap
      → Backed h word p n

-- The number of handles that share the word: an unpromoted handle is the only one.
abbrev pub refs : Heap → ℕ → ℕ
refs h word = if word % 2 == 1 then 1 else elim (h.boxes word) [ none ↦ 0 | some s ↦ s.ref_count ]

-- First address and capacity of the buffer that a word stands for.
abbrev pub buffer_of : Heap → (word p n : ℕ) → ℕ × ℕ
buffer_of h word p n =
    if word % 2 == 1
    then (p - word / 2, n + word / 2)
    else elim (h.boxes word) [ none ↦ (p, 0) | some s ↦ (s.ptr, s.cap) ]

-- One more reference can be counted.
abbrev pub Unsaturated : Heap → ℕ → Type 0
Unsaturated h word = refs h word ≤ isize_max

-- Part of what a control block backs.
pub Backed-part :
    (h : Heap) (w p n i m : ℕ) → w % 2 ≡ 0 → i + m ≤ n → Backed h w p n → Backed h w (p + i) m
Backed-part h w p n i m even le (owned odd off b) = absurd (omega arith)
Backed-part h w p n i m even le (counted s e pos box rc lo hi b) =
    counted s e pos box rc (omega arith) (omega arith) b

-- What an unpromoted word backs after the front has moved by `cnt`.
pub Backed-advance :
    (h : Heap) (w p n cnt : ℕ)
    → w % 2 ≡ 1
    → cnt ≤ n
    → w / 2 ≤ p
    → IsBuffer h (p - w / 2) (n + w / 2)
    → Backed h (w + 2 * cnt) (p + cnt) (n - cnt)
Backed-advance h w p n cnt odd le off b =
    let start : p + cnt - (w + 2 * cnt) / 2 ≡ p - w / 2 = omega arith in
    let size : n - cnt + (w + 2 * cnt) / 2 ≡ n + w / 2 = omega arith in
    owned (omega arith) (omega arith) (rw (start, size) b)

-- All cells that a word backs are mapped.
pub Backed-Mapped : {h : Heap} {w p n : ℕ} → Backed h w p n → Mapped h.cell p n
Backed-Mapped (owned odd le b) a lo hi = b.mapped a (omega arith) (omega arith)
Backed-Mapped (counted s even pos box rc lo' hi' b) a lo hi = b.mapped a (omega arith) (omega arith)
