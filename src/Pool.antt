-- ===== src/Pool.antt =====
-- Programs over the handles of src/bytes/bytes.rs: a heap and all the handles that are live in it.
-- An action takes one handle and leaves others in its place.
pub mod Buffers
pub mod Clone
pub mod Free
pub mod Drop
pub mod Heir
pub mod Split
pub mod Cut
pub mod Create
pub mod Choose
pub mod Act
pub mod Obey
pub mod Safety
mod Tests
use tcio.Base.{ℕ, ◌+◌, ◌%◌, ◌≤◌, ◌<◌, ◌≡◌, ◌≢◌, ◌⊎◌, none, some, List, [], ◌∷◌, ◌==◌, if◌then◌else◌}
use tcio.Memory.{Heap, Shared}
use tcio.Shared.Backed.{buffer_of}
use tcio.Bytes.{Bytes}
use tcio.Bytes.Valid.{IsBytes}

-- A live handle with the bytes that it shows.
abbrev pub Owner : Type 0
Owner = Bytes × List ℕ

-- First address and size of the memory that a handle keeps alive: the whole buffer that its word
-- stands for, or the static slice.
abbrev pub buffer : Heap → Bytes → ℕ × ℕ
buffer h b = if b.data_word == 0 then (b.ptr, b.len) else buffer_of h b.data_word b.ptr b.len

abbrev pub NoOverlap : ℕ × ℕ → ℕ × ℕ → Type 0
NoOverlap (p, c) (q, d) = (a : ℕ) → p ≤ a → a < p + c → q ≤ a → a < q + d → ⊥

-- Two handles share the word of a control block or the null word of static memory, which nobody
-- writes or frees, or they keep different memory.
abbrev pub Separate : Heap → Bytes → Bytes → Type 0
Separate h b c =
    ((b.data_word ≡ c.data_word) × (b.data_word % 2 ≡ 0)) ⊎ NoOverlap (buffer h b) (buffer h c)

abbrev pub All : (Owner → Type 0) → List Owner → Type 0
All P [] = Unit {0}
All P (o ∷ os) = P o × All P os

abbrev pub Pairwise : Heap → List Owner → Type 0
Pairwise h [] = Unit {0}
Pairwise h (o ∷ os) = All (λ o'. Separate h o.0 o'.0) os × Pairwise h os

-- The number of handles with the word.
abbrev pub count : ℕ → List Owner → ℕ
count k [] = 0
count k (o ∷ os) = (if o.0.data_word == k then 1 else 0) + count k os

-- Some handle keeps the buffer alive.
abbrev pub Listed : Heap → List Owner → ℕ → ℕ → Type 0
Listed h [] p c = ⊥
Listed h (o ∷ os) p c =
    ((o.0.data_word ≢ 0) × ((buffer h o.0).0 ≡ p) × ((buffer h o.0).1 ≡ c)) ⊎ Listed h os p c

pub record Counted (os : List Owner) (k : ℕ) (s : Shared) : Type 0 where
  pub even : k % 2 ≡ 0
  pub positive : 0 < k
  pub used : 0 < s.ref_count
  pub exact : s.ref_count ≡ count k os

-- The handles are all that keeps the heap: each is valid and shows its bytes, each control block
-- counts its handles, handles that have neither one control block nor both the null word of static
-- memory share no memory, and each buffer has a handle that keeps it.
pub record IsPool (h : Heap) (os : List Owner) : Type 0 where
  pub views : All (λ o. IsBytes h o.0 o.1) os
  pub counted : (k : ℕ) (s : Shared) → h.boxes k ≡ some s → Counted os k s
  pub apart : Pairwise h os
  pub listed : (p c : ℕ) → h.vecs p ≡ some c → (0 < c) × Listed h os p c
