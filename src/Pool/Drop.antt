-- ===== src/Pool/Drop.antt =====
-- The end of a handle in a pool: `drop_inner` of src/bytes/bytes.rs among all live handles.
use tcio.Base.{
  ℕ, ◌+◌, ◌-◌, ◌/◌, ◌%◌, ◌<◌, ◌≡◌, ◌≢◌, inl, inr, none, some, List, ◌∷◌, arith, ap, refl, sym, ◌∙◌,
  length,
}
use tcio.Base.Words.{isize_max, word_mod}
use tcio.Memory.{Heap, Shared, set_box, Ensures}
use tcio.Shared.Backed.{owned, counted, IsBuffer}
use tcio.Shared.Keep.{Keeps-bump}
use tcio.Bytes.{Bytes, bytes, drop_inner}
use tcio.Bytes.Valid.{Standing, static, backed}
use tcio.Bytes.Drop.{
  drop_inner-static, drop_inner-empty, drop_inner-owned, drop_inner-shared, drop_inner-last,
  drop_inner-last_empty,
}
use tcio.Pool.{Owner, count, Counted, IsPool}
use tcio.Pool.Buffers.{
  buffer-owned, buffer-counted, views-Keeps, Pairwise-Same, Listed-Same, Same-recount, Same-remove,
}
use tcio.Pool.Clone.{count-length}
use tcio.Pool.Free.{
  Rest, Rest-deallocate, Rest-empty, lone_odd, lone_even, views-remove, Listed-count,
}
use native.Mathlib.Decide.{ℕ_discrete}

module _ (h : Heap) (p n w : ℕ) (xs : List ℕ) (os : List Owner)
    (pool : IsPool h ((bytes p n w, xs) ∷ os)) where
  -- The control blocks that the handle does not have are counted without it.
  others_Counted : (k : ℕ) (s : Shared) → h.boxes k ≡ some s → w ≢ k → Counted os k s
  others_Counted k s box ne =
      let c : Counted ((bytes p n w, xs) ∷ os) k s = pool.counted k s box in
      record {
        even = c.even;
        positive = c.positive;
        used = c.used;
        exact = ground (arith, c.exact);
      }

  tail_static : w ≡ 0 → IsPool h os
  tail_static z = record {
    views = pool.views.1;
    counted =
        λ k s box. others_Counted k s box λ e. ground (arith, (pool.counted k s box).positive);
    apart = pool.apart.1;
    listed = λ q c l.
        let (small, some_one) = pool.listed q c l in
        (small, elim some_one [ inl (ne, at, size) ↦ absurd (ne z) | inr r ↦ r ]);
  }

  tail_owned :
      (h' : Heap) → w % 2 ≡ 1 → h'.boxes ≡ h.boxes → Rest h (bytes p n w) os h' → IsPool h' os
  tail_owned h' odd boxes r = record {
    views = r.views;
    counted = λ k s box.
        let old : h.boxes k ≡ some s = ap (λ f. f k) (sym boxes) ∙ box in
        others_Counted k s old λ e. ground (arith, (pool.counted k s old).even);
    apart = Pairwise-Same h h' os r.same pool.apart.1;
    listed = r.listed;
  }

  module _ (s : Shared) (even : w % 2 ≡ 0) (pos : 0 < w) (box : h.boxes w ≡ some s) where
    others : s.ref_count ≡ 1 + count w os
    others = ground (arith, (pool.counted w s box).exact)

    abbrev less : Heap
    less = set_box w (some (record s { ref_count = s.ref_count - 1 })) h

    tail_shared : 1 < s.ref_count → IsPool less os
    tail_shared more =
        let same = Same-recount h w (s.ref_count - 1) s box os in
        let keeps = Keeps-bump h w (s.ref_count - 1) s box (omega arith) in
        record {
          views = views-Keeps h less os keeps pool.views.1;
          counted = λ k t b. elim (ℕ_discrete w k) [
            | yes e ↦ record {
              even = ground arith;
              positive = ground arith;
              used = ground arith;
              exact = ground (arith, others);
            }
            | no ne ↦ others_Counted k t (ground arith) ne
          ];
          apart = Pairwise-Same h less os same pool.apart.1;
          listed = λ q c l.
              let (small, some_one) = pool.listed q c l in
              (
                small,
                Listed-Same h less os q c same (elim some_one [
                  | inl (ne, place, size) ↦
                      let e = buffer-counted h p n w s even pos box in
                      let place' : s.ptr ≡ q = rw e at place in
                      let size' : s.cap ≡ c = rw e at size in
                      rw (← place', ← size')
                        (Listed-count h w s os even pos box (omega (arith, others)))
                  | inr r ↦ r
                ]),
              );
        }

    tail_last :
        (h' : Heap)
        → s.ref_count ≡ 1
        → h'.boxes ≡ h.boxes
        → Rest h (bytes p n w) os h'
        → IsPool (set_box w none h') os
    tail_last h' one boxes r =
        let zero_left : count w os ≡ 0 = omega (arith, others) in
        let same' = Same-remove h' w os zero_left in
        record {
          views = views-remove h' w os zero_left r.views;
          counted = λ k t b. elim (ℕ_discrete w k) [
            | yes e ↦ absurd (ground arith)
            | no ne ↦
                let b' : h'.boxes k ≡ some t = ground arith in
                others_Counted k t (ap (λ f. f k) (sym boxes) ∙ b') ne
          ];
          apart =
              Pairwise-Same h' (set_box w none h') os same'
                (Pairwise-Same h h' os r.same pool.apart.1);
          listed = λ q c l.
              let (small, some_one) = r.listed q c l in
              (small, Listed-Same h' (set_box w none h') os q c same' some_one);
        }

  drop_owned :
      w % 2 ≡ 1
      → IsBuffer h (p - w / 2) (n + w / 2)
      → Ensures (λ _ h'. IsPool h' os) (drop_inner (bytes p n w) h)
  drop_owned odd b =
      let e = buffer-owned h p n w odd in
      let lone = lone_odd h (bytes p n w) os odd pool.apart.0 in
      elim (ℕ_discrete (n + w / 2) 0) [
        | yes z ↦
            rw (drop_inner-empty h p n w odd z)
              (tail_owned h odd refl (Rest-empty h (bytes p n w) xs os pool _ _ e z))
        | no nz ↦ elim b.live [
          | inl z ↦ absurd (nz z)
          | inr live ↦ rw (drop_inner-owned h p n w odd (omega arith) live) (
              tail_owned _ odd refl
                (Rest-deallocate h (bytes p n w) xs os pool _ _ e (omega arith) lone))
        ]
      ]

  drop_counted :
      (s : Shared)
      → w % 2 ≡ 0
      → 0 < w
      → h.boxes w ≡ some s
      → IsBuffer h s.ptr s.cap
      → s.ref_count < word_mod
      → Ensures (λ _ h'. IsPool h' os) (drop_inner (bytes p n w) h)
  drop_counted s even pos box b fits = elim (ℕ_discrete s.ref_count 1) [
    | no ne ↦
        let more : 1 < s.ref_count = omega (arith, (pool.counted w s box).used) in
        rw (drop_inner-shared h p n w s even pos box more fits) (tail_shared s even pos box more)
    | yes one ↦
        let e = buffer-counted h p n w s even pos box in
        let lone =
          lone_even h (bytes p n w) os (omega (arith, others s even pos box)) pool.apart.0 in
        elim (ℕ_discrete s.cap 0) [
          | yes z ↦
              rw (drop_inner-last_empty h p n w s even pos box one z) (
                tail_last s even pos box h one refl (Rest-empty h (bytes p n w) xs os pool _ _ e z))
          | no nz ↦ elim b.live [
            | inl z ↦ absurd (nz z)
            | inr live ↦ rw (drop_inner-last h p n w s even pos box one live (omega arith)) (
                tail_last s even pos box _ one refl
                  (Rest-deallocate h (bytes p n w) xs os pool _ _ e (omega arith) lone))
          ]
        ]
  ]

  drop_inner-Standing :
      length os < isize_max
      → Standing h (bytes p n w)
      → Ensures (λ _ h'. IsPool h' os) (drop_inner (bytes p n w) h)
  drop_inner-Standing few (static z) = rw (drop_inner-static h p n w z) (tail_static z)
  drop_inner-Standing few (backed (owned odd le b)) = drop_owned odd b
  drop_inner-Standing few (backed (counted s even pos box rc lo hi b)) =
      drop_counted s even pos box b (omega (arith, others s even pos box, count-length w os))

pub drop_inner-IsPool :
    (h : Heap) (b : Bytes) (xs : List ℕ) (os : List Owner)
    → IsPool h ((b, xs) ∷ os)
    → length os < isize_max
    → Ensures (λ _ h'. IsPool h' os) (drop_inner b h)
drop_inner-IsPool h b xs os pool few =
    drop_inner-Standing h b.ptr b.len b.data_word xs os pool few pool.views.0.standing
