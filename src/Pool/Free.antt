-- ===== src/Pool/Free.antt =====
-- Buffers and control blocks that go, and what the other handles of a pool keep: `drop_inner` of
-- src/bytes/bytes.rs.
use tcio.Base.{
  ℕ, ◌+◌, ◌%◌, ◌≤◌, ◌<◌, ◌≡◌, ◌≢◌, inl, inr, none, some, List, [], ◌∷◌, arith, ap, refl,
}
use tcio.Memory.{Heap, Shared, set_box, deallocate}
use tcio.Memory.Cells.{Holds-Agree}
use tcio.Shared.Backed.{owned, counted, IsBuffer}
use tcio.Bytes.{Bytes}
use tcio.Bytes.Valid.{IsBytes, Standing, static, backed}
use tcio.Pool.{Owner, buffer, NoOverlap, Separate, All, count, Listed, IsPool}
use tcio.Pool.Buffers.{
  buffer-owned, buffer-counted, Listed-Same, Same-refl, Same, IsBytes-Covers, All-both,
}
use native.Mathlib.Decide.{ℕ_discrete}

-- A buffer is given back.
module _ (h : Heap) (q d : ℕ) (pos : 0 < d) where
  IsBuffer-deallocate :
      (p c : ℕ) → NoOverlap (q, d) (p, c) → IsBuffer h p c → IsBuffer (deallocate q d h) p c
  IsBuffer-deallocate p c no_overlap b = record {
    mapped = λ a lo hi.
        ground (arith, λ (l : q ≤ a) (u : a < q + d). no_overlap a l u lo hi, b.mapped a lo hi);
    live = elim b.live [
      | inl e ↦ inl e
      | inr e ↦ elim (ℕ_discrete c 0) [
        | yes z ↦ inl z
        | no nz ↦ inr (
            ground (
              arith,
              e,
              λ (z : p ≡ q). no_overlap p (omega arith) (omega arith) (omega arith) (omega arith),
            ))
      ]
    ];
    small = b.small;
  }

  Standing-deallocate :
      (b : Bytes) → NoOverlap (q, d) (buffer h b) → Standing h b → Standing (deallocate q d h) b
  Standing-deallocate b no_overlap (static e) = static e
  Standing-deallocate b no_overlap (backed (owned odd le k)) = backed (
      owned odd le
        (IsBuffer-deallocate _ _ (rw (buffer-owned h b.ptr b.len b.data_word odd) at no_overlap) k))
  Standing-deallocate b no_overlap (backed (counted s even p box rc lo hi k)) = backed (
      counted s even p box rc lo hi (
        IsBuffer-deallocate _ _
          (rw (buffer-counted h b.ptr b.len b.data_word s even p box) at no_overlap) k))

  IsBytes-deallocate :
      (b : Bytes) (xs : List ℕ)
      → NoOverlap (q, d) (buffer h b)
      → IsBytes h b xs
      → IsBytes (deallocate q d h) b xs
  IsBytes-deallocate b xs no_overlap v =
      let c = IsBytes-Covers h b xs v in
      record {
        size = v.size;
        holds =
            Holds-Agree h.cell (deallocate q d h).cell b.ptr xs
              (λ a lo hi. ground (
                arith,
                λ (l : q ≤ a) (u : a < q + d).
                    no_overlap a l u (omega (arith, c.lower)) (omega (arith, c.upper, v.size)),
              ))
              v.holds;
        standing = Standing-deallocate b no_overlap v.standing;
      }

-- A control block that no other handle has goes.
Standing-remove :
    (h : Heap) (k : ℕ) (b : Bytes) → b.data_word ≢ k → Standing h b → Standing (set_box k none h) b
Standing-remove h k b ne (static e) = static e
Standing-remove h k b ne (backed (owned odd le i)) =
    backed (owned odd le (record { mapped = i.mapped; live = i.live; small = i.small }))
Standing-remove h k b ne (backed (counted s even pos box rc lo hi i)) = backed (
    counted s even pos (ground arith) rc lo hi
      (record { mapped = i.mapped; live = i.live; small = i.small }))

pub views-remove :
    (h : Heap) (k : ℕ) (os : List Owner)
    → count k os ≡ 0
    → All (λ o. IsBytes h o.0 o.1) os
    → All (λ o. IsBytes (set_box k none h) o.0 o.1) os
views-remove h k [] z vs = tt
views-remove h k (o ∷ os) z (v, vs) = (
  record {
    size = v.size;
    holds = v.holds;
    standing = Standing-remove h k o.0 (ground arith) v.standing;
  },
  views-remove h k os (omega arith) vs,
)

-- Where some handle has the word, some handle keeps its buffer.
pub Listed-count :
    (h : Heap) (w : ℕ) (s : Shared) (os : List Owner)
    → w % 2 ≡ 0
    → 0 < w
    → h.boxes w ≡ some s
    → 0 < count w os
    → Listed h os s.ptr s.cap
Listed-count h w s [] even pos box some_one = absurd (omega arith)
Listed-count h w s (o ∷ os) even pos box some_one = elim (ℕ_discrete o.0.data_word w) [
  | yes e ↦ inl (omega arith, ground arith, ground arith)
  | no ne ↦ inr (Listed-count h w s os even pos box (ground arith))
]

Same-deallocate : (h : Heap) (q d : ℕ) (os : List Owner) → Same h (deallocate q d h) os
Same-deallocate h q d [] = tt
Same-deallocate h q d (o ∷ os) = (refl, Same-deallocate h q d os)

views-deallocate :
    (h : Heap) (q d : ℕ) (os : List Owner)
    → 0 < d
    → All (λ o. NoOverlap (q, d) (buffer h o.0)) os
    → All (λ o. IsBytes h o.0 o.1) os
    → All (λ o. IsBytes (deallocate q d h) o.0 o.1) os
views-deallocate h q d os pos =
    All-both (λ o. NoOverlap (q, d) (buffer h o.0)) (λ o. IsBytes h o.0 o.1)
      (λ o. IsBytes (deallocate q d h) o.0 o.1) os
      λ (b, xs) no_overlap v. IsBytes-deallocate h q d pos b xs no_overlap v

-- A handle without a control block shares no memory, nor does the only one with its word.
pub lone_odd :
    (h : Heap) (b : Bytes) (os : List Owner)
    → b.data_word % 2 ≡ 1
    → All (λ o. Separate h b o.0) os
    → All (λ o. NoOverlap (buffer h b) (buffer h o.0)) os
lone_odd h b [] odd a = tt
lone_odd h b (o ∷ os) odd (inl (e, even), a) = absurd (omega arith)
lone_odd h b (o ∷ os) odd (inr s, a) = (s, lone_odd h b os odd a)

pub lone_even :
    (h : Heap) (b : Bytes) (os : List Owner)
    → count b.data_word os ≡ 0
    → All (λ o. Separate h b o.0) os
    → All (λ o. NoOverlap (buffer h b) (buffer h o.0)) os
lone_even h b [] z a = tt
lone_even h b (o ∷ os) z (inl (e, even), a) = absurd (ground arith)
lone_even h b (o ∷ os) z (inr s, a) = (s, lone_even h b os (omega arith) a)

-- The heap when the buffer of the first handle is gone, and no other handle keeps it.
pub record Rest (h : Heap) (b : Bytes) (os : List Owner) (h' : Heap) : Type 0 where
  pub views : All (λ o. IsBytes h' o.0 o.1) os
  pub same : Same h h' os
  pub listed : (p c : ℕ) → h'.vecs p ≡ some c → (0 < c) × Listed h' os p c

module _ (h : Heap) (b : Bytes) (xs : List ℕ) (os : List Owner) (pool : IsPool h ((b, xs) ∷ os))
    (q d : ℕ) (e : buffer h b ≡ (q, d)) where
  pub Rest-deallocate :
      0 < d → All (λ o. NoOverlap (buffer h b) (buffer h o.0)) os → Rest h b os (deallocate q d h)
  Rest-deallocate pos lone = record {
    views = views-deallocate h q d os pos (rw e at lone) pool.views.1;
    same = Same-deallocate h q d os;
    listed = λ p c l.
        let old : h.vecs p ≡ some c = ground arith in
        let (small, some_one) = pool.listed p c old in
        (
          small,
          elim some_one [
            | inl (ne, at, size) ↦ absurd (ground (arith, ap (λ z. z.0) e))
            | inr r ↦ Listed-Same h (deallocate q d h) os p c (Same-deallocate h q d os) r
          ],
        );
  }

  pub Rest-empty : d ≡ 0 → Rest h b os h
  Rest-empty z = record {
    views = pool.views.1;
    same = Same-refl h os;
    listed = λ p c l.
        let (small, some_one) = pool.listed p c l in
        (
          small,
          elim some_one [
            | inl (ne, at, size) ↦ absurd (omega (arith, ap (λ r. r.1) e))
            | inr r ↦ r
          ],
        );
  }
