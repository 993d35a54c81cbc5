-- ===== src/Bytes/Threads/Points.antt =====
-- What holds of a thread at each point of `clone`, and of the handle: src/bytes/bytes.rs.
use tcio.Base.{
  ℕ, ◌+◌, ◌-◌, ◌/◌, ◌%◌, ◌≤◌, ◌<◌, ◌≡◌, ◌≢◌, ◌⊎◌, inl, inr, refl, ap, ◌∙◌, some, none, Option,
  arith,
}
use tcio.Memory.{Heap, Shared}
use tcio.Bytes.{Bytes, bytes}
use tcio.Bytes.Threads.{Point, start, loaded, created, refused, released, cloned}

-- The control block of the buffer of `o`.
abbrev pub block : Bytes → ℕ → Shared
block o count = record {
  ref_count = count;
  ptr = o.ptr - o.data_word / 2;
  cap = o.len + o.data_word / 2;
}

-- A control block that its thread has not used yet.
pub record Spare (o me : Bytes) (h : Heap) (k : ℕ) : Type 0 where
  pub even : k % 2 ≡ 0
  pub positive : 0 < k
  pub other : k ≢ me.data_word
  pub box : h.boxes k ≡ some (block o 2)

-- What a thread knows: `o` is the handle as it was, `me` as it is.
abbrev pub Fits : Bytes → Bytes → Heap → Point → Type 0
Fits o me h start = Unit {0}
Fits o me h (loaded w) = (w ≡ o.data_word) ⊎ ((w ≡ me.data_word) × (me.data_word ≢ o.data_word))
Fits o me h (created w k) = (w ≡ o.data_word) × Spare o me h k
Fits o me h (refused k w) = ((w ≡ me.data_word) × (me.data_word ≢ o.data_word)) × Spare o me h k
Fits o me h (released w) = (w ≡ me.data_word) × (me.data_word ≢ o.data_word)
Fits o me h (cloned c) = (c ≡ bytes o.ptr o.len me.data_word) × (me.data_word ≢ o.data_word)

abbrev pub spare : Point → Option ℕ
spare start = none
spare (loaded w) = none
spare (created w k) = some k
spare (refused k w) = some k
spare (released w) = none
spare (cloned c) = none

abbrev pub clones : Point → ℕ
clones start = 0
clones (loaded w) = 0
clones (created w k) = 0
clones (refused k w) = 0
clones (released w) = 0
clones (cloned c) = 1

-- The handle is as it was, or it is promoted and its count is that of the handles.
pub data Word (o me : Bytes) (n : ℕ) (h : Heap) : Type 0 where
  first : me.data_word ≡ o.data_word → Word o me n h
  promoted_word :
      me.data_word % 2 ≡ 0
      → 0 < me.data_word
      → h.boxes me.data_word ≡ some (block o (1 + n))
      → Word o me n h

pub clones-few : (p : Point) → clones p ≤ 1
clones-few start = omega arith
clones-few (loaded w) = omega arith
clones-few (created w k) = omega arith
clones-few (refused k w) = omega arith
clones-few (released w) = omega arith
clones-few (cloned c) = omega arith

-- Neither thread has touched the buffer, each is where it should be, and they have different
-- control blocks to use.
pub record Sound (o : Bytes) (h0 : Heap) (me : Bytes) (a b : Point) (h : Heap) : Type 0 where
  pub place : (me.ptr ≡ o.ptr) × (me.len ≡ o.len)
  pub memory : (h.cell ≡ h0.cell) × (h.vecs ≡ h0.vecs)
  pub word : Word o me (clones a + clones b) h
  pub left_fits : Fits o me h a
  pub right_fits : Fits o me h b
  pub apart : (k : ℕ) → spare a ≡ some k → spare b ≡ some k → ⊥

pub Sound-swap :
    (o : Bytes) (h0 : Heap) (me : Bytes) (a b : Point) (h : Heap)
    → Sound o h0 me a b h
    → Sound o h0 me b a h
Sound-swap o h0 me a b h s = record {
  place = s.place;
  memory = s.memory;
  word = let e : clones a + clones b ≡ clones b + clones a = omega arith in rw e at s.word;
  left_fits = s.right_fits;
  right_fits = s.left_fits;
  apart = λ k p q. s.apart k q p;
}

-- A thread is where it should be as long as its control block is left alone.
pub Fits-frame :
    (o me : Bytes) (h h' : Heap) (p : Point)
    → ((k : ℕ) → spare p ≡ some k → h'.boxes k ≡ h.boxes k)
    → Fits o me h p
    → Fits o me h' p
Fits-frame o me h h' start keep f = tt
Fits-frame o me h h' (loaded w) keep f = f
Fits-frame o me h h' (created w k) keep (e, s) =
    (e, record { even = s.even; positive = s.positive; other = s.other; box = keep k refl ∙ s.box })
Fits-frame o me h h' (refused k w) keep (e, s) =
    (e, record { even = s.even; positive = s.positive; other = s.other; box = keep k refl ∙ s.box })
Fits-frame o me h h' (released w) keep f = f
Fits-frame o me h h' (cloned c) keep f = f

-- The control block that a thread keeps is in the heap, and not that of the handle.
pub spare-box :
    (o me : Bytes) (h : Heap) (p : Point)
    → Fits o me h p
    → (k : ℕ) → spare p ≡ some k
    → (h.boxes k ≡ some (block o 2)) × (k ≢ me.data_word)
spare-box o me h start f k e = ground (arith, e)
spare-box o me h (loaded w) f k e = ground (arith, e)
spare-box o me h (created w j) (_, s) k e =
    let same : j ≡ k = ground (arith, e) in
    let r : (h.boxes j ≡ some (block o 2)) × (j ≢ me.data_word) = (s.box, s.other) in rw same at r
spare-box o me h (refused j w) (_, s) k e =
    let same : j ≡ k = ground (arith, e) in
    let r : (h.boxes j ≡ some (block o 2)) × (j ≢ me.data_word) = (s.box, s.other) in rw same at r
spare-box o me h (released w) f k e = ground (arith, e)
spare-box o me h (cloned c) f k e = ground (arith, e)

-- While the handle is as it was, no thread is further than its control block; a thread that has one
-- goes on from there when the other promotes the handle.
pub Fits-promote :
    (o me : Bytes) (h : Heap) (k : ℕ) (p : Point)
    → me.data_word ≡ o.data_word
    → k ≢ o.data_word
    → (spare p ≡ some k → ⊥)
    → Fits o me h p
    → (clones p ≡ 0) × Fits o (record me { data_word = k }) h p
Fits-promote o me h k start e ne free f = (refl, tt)
Fits-promote o me h k (loaded w) e ne free (inl q) = (refl, inl q)
Fits-promote o me h k (loaded w) e ne free (inr (q, other)) = absurd (other e)
Fits-promote o me h k (created w j) e ne free (q, s) = (
  refl,
  (
    q,
    record {
      even = s.even;
      positive = s.positive;
      other = λ z. free (ap (λ i. some i) z);
      box = s.box;
    },
  ),
)
Fits-promote o me h k (refused j w) e ne free ((q, other), s) = absurd (other e)
Fits-promote o me h k (released w) e ne free (q, other) = absurd (other e)
Fits-promote o me h k (cloned c) e ne free (q, other) = absurd (other e)
