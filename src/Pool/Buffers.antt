-- ===== src/Pool/Buffers.antt =====
-- The memory that handles keep, and heaps that change only their control blocks.
use tcio.Base.{
  ℕ, ◌+◌, ◌-◌, ◌/◌, ◌%◌, ◌≤◌, ◌<◌, ◌≡◌, ◌≢◌, inl, inr, none, some, List, [], ◌∷◌, arith, ap, refl,
  ◌∙◌,
}
use tcio.Memory.{Heap, Shared, set_box}
use tcio.Memory.Cells.{Mapped, Holds-Mapped}
use tcio.Shared.Backed.{Backed, owned, counted}
use tcio.Shared.Keep.{Keeps}
use tcio.Bytes.{Bytes, bytes}
use tcio.Bytes.Valid.{IsBytes, Standing, static, backed, IsBytes-Keeps}
use tcio.Pool.{Owner, buffer, Separate, All, Pairwise, count, Listed}

module _ (h : Heap) (p n w : ℕ) where
  pub buffer-static : w ≡ 0 → buffer h (bytes p n w) ≡ (p, n)
  buffer-static e = ground arith

  pub buffer-owned : w % 2 ≡ 1 → buffer h (bytes p n w) ≡ (p - w / 2, n + w / 2)
  buffer-owned odd = ground arith

  pub buffer-counted :
      (s : Shared)
      → w % 2 ≡ 0
      → 0 < w
      → h.boxes w ≡ some s
      → buffer h (bytes p n w) ≡ (s.ptr, s.cap)
  buffer-counted s even pos box = ground arith

-- All the memory that a handle keeps is mapped, and its view lies in it.
pub record Covers (h : Heap) (b : Bytes) (r : ℕ × ℕ) : Type 0 where
  pub mapped : Mapped h.cell r.0 r.1
  pub lower : r.0 ≤ b.ptr
  pub upper : b.ptr + b.len ≤ r.0 + r.1

pub IsBytes-Covers : (h : Heap) (b : Bytes) (xs : List ℕ) → IsBytes h b xs → Covers h b (buffer h b)
IsBytes-Covers h b xs v = by_standing v.standing
  where
    by_backing : Backed h b.data_word b.ptr b.len → Covers h b (buffer h b)
    by_backing (owned odd le k) =
        rw (buffer-owned h b.ptr b.len b.data_word odd)
          (record { mapped = k.mapped; lower = omega arith; upper = omega arith })
    by_backing (counted s even pos box rc lo hi k) =
        rw (buffer-counted h b.ptr b.len b.data_word s even pos box)
          (record { mapped = k.mapped; lower = lo; upper = hi })

    by_standing : Standing h b → Covers h b (buffer h b)
    by_standing (static e) = rw (buffer-static h b.ptr b.len b.data_word e) (record {
      mapped = rw v.size at (Holds-Mapped h.cell b.ptr xs v.holds);
      lower = omega arith;
      upper = omega arith;
    })
    by_standing (backed k) = by_backing k

pub All-map :
    (P Q : Owner → Type 0) (os : List Owner) → ((o : Owner) → P o → Q o) → All P os → All Q os
All-map P Q [] f a = tt
All-map P Q (o ∷ os) f (x, a) = (f o x, All-map P Q os f a)

pub All-both :
    (P Q R : Owner → Type 0) (os : List Owner)
    → ((o : Owner) → P o → Q o → R o)
    → All P os
    → All Q os
    → All R os
All-both P Q R [] f a b = tt
All-both P Q R (o ∷ os) f (x, a) (y, b) = (f o x y, All-both P Q R os f a b)

-- The handles keep the same memory in both heaps.
abbrev pub Same : Heap → Heap → List Owner → Type 0
Same h h' = All (λ o. buffer h' o.0 ≡ buffer h o.0)

pub views-Keeps :
    (h h' : Heap) (os : List Owner)
    → Keeps h h'
    → All (λ o. IsBytes h o.0 o.1) os
    → All (λ o. IsBytes h' o.0 o.1) os
views-Keeps h h' os k =
    All-map (λ o. IsBytes h o.0 o.1) (λ o. IsBytes h' o.0 o.1) os
      λ (b, xs) v. IsBytes-Keeps h h' b xs k v

module _ (h h' : Heap) (b b' : Bytes) (same : buffer h' b' ≡ buffer h b)
    (word : b.data_word % 2 ≡ 0 → b'.data_word ≡ b.data_word) where
  Separate-heir : (c : Bytes) → buffer h' c ≡ buffer h c → Separate h b c → Separate h' b' c
  Separate-heir c e (inl (w, even)) = inl (word even ∙ w, ap (λ x. x % 2) (word even) ∙ even)
  Separate-heir c e (inr none_shared) = inr (rw (same, e) none_shared)

  -- A handle that keeps what `b` kept.
  pub apart_heir :
      (os : List Owner)
      → Same h h' os
      → All (λ o. Separate h b o.0) os
      → All (λ o. Separate h' b' o.0) os
  apart_heir os =
      All-both (λ o. buffer h' o.0 ≡ buffer h o.0) (λ o. Separate h b o.0) (λ o. Separate h' b' o.0)
        os λ o e s. Separate-heir o.0 e s

pub Pairwise-Same : (h h' : Heap) (os : List Owner) → Same h h' os → Pairwise h os → Pairwise h' os
Pairwise-Same h h' [] same ap = tt
Pairwise-Same h h' (o ∷ os) (e, same) (a, rest) =
    (apart_heir h h' o.0 o.0 e (λ _. refl) os same a, Pairwise-Same h h' os same rest)

pub Listed-Same :
    (h h' : Heap) (os : List Owner) (p c : ℕ) → Same h h' os → Listed h os p c → Listed h' os p c
Listed-Same h h' [] p c same l = absurd l
Listed-Same h h' (o ∷ os) p c (e, same) (inl (ne, b, d)) = inl (ne, rw e b, rw e d)
Listed-Same h h' (o ∷ os) p c (e, same) (inr l) = inr (Listed-Same h h' os p c same l)

pub Same-refl : (h : Heap) (os : List Owner) → Same h h os
Same-refl h [] = tt
Same-refl h (o ∷ os) = (refl, Same-refl h os)

-- A new control block.
module _ (h : Heap) (k : ℕ) (s : Shared) (new : h.boxes k ≡ none) where
  not_fresh : (b : Bytes) → Standing h b → b.data_word ≢ 0 → b.data_word % 2 ≡ 0 → b.data_word ≢ k
  not_fresh b (static e) ne even = absurd (ne e)
  not_fresh b (backed (owned odd le i)) ne even = absurd (omega arith)
  not_fresh b (backed (counted t ev pos box rc lo hi i)) ne even = λ e. ground arith

  buffer-new : (b : Bytes) → Standing h b → buffer (set_box k (some s) h) b ≡ buffer h b
  buffer-new b st = ground (arith, not_fresh b st)

  pub Same-new :
      (os : List Owner) → All (λ o. IsBytes h o.0 o.1) os → Same h (set_box k (some s) h) os
  Same-new os =
      All-map (λ o. IsBytes h o.0 o.1) (λ o. buffer (set_box k (some s) h) o.0 ≡ buffer h o.0) os
        λ o v. buffer-new o.0 v.standing

  pub count-new :
      (os : List Owner) → k % 2 ≡ 0 → 0 < k → All (λ o. IsBytes h o.0 o.1) os → count k os ≡ 0
  count-new [] even pos vs = refl
  count-new (o ∷ os) even pos (v, vs) =
      ground (arith, not_fresh o.0 v.standing, count-new os even pos vs)

-- A control block whose count changes.
module _ (h : Heap) (k c : ℕ) (s : Shared) (box : h.boxes k ≡ some s) where
  pub buffer-recount :
      (b : Bytes) → buffer (set_box k (some (record s { ref_count = c })) h) b ≡ buffer h b
  buffer-recount b = ground arith

  pub Same-recount : (os : List Owner) → Same h (set_box k (some (record s { ref_count = c })) h) os
  Same-recount [] = tt
  Same-recount (o ∷ os) = (buffer-recount o.0, Same-recount os)

-- A control block that no handle has goes.
pub Same-remove :
    (h : Heap) (k : ℕ) (os : List Owner) → count k os ≡ 0 → Same h (set_box k none h) os
Same-remove h k [] e = tt
Same-remove h k (o ∷ os) e = (ground arith, Same-remove h k os (omega arith))
