-- ===== src/Pool/Clone.antt =====
-- A clone in a pool: `clone_inner` of src/bytes/bytes.rs among all live handles.
use tcio.Base.{
  ℕ, ◌+◌, ◌-◌, ◌/◌, ◌%◌, ◌≤◌, ◌<◌, ◌≡◌, inl, inr, Option, none, some, List, [], ◌∷◌, arith, refl,
  sym, ◌∙◌, length,
}
use tcio.Base.Words.{isize_max}
use tcio.Memory.{Heap, Shared, set_box, IsFreshBox, Ensures}
use tcio.Shared.Backed.{Backed, owned, counted, IsBuffer, Unsaturated}
use tcio.Bytes.{Bytes, bytes, clone_inner}
use tcio.Bytes.Valid.{Standing, static, backed}
use tcio.Bytes.Clone.{
  Cloned-owned, Cloned-counted, clone_inner-owned, clone_inner-counted, clone_inner-static,
}
use tcio.Pool.{Owner, buffer, count, Counted, IsPool}
use tcio.Pool.Buffers.{
  buffer-owned, buffer-counted, views-Keeps, apart_heir, Pairwise-Same, Listed-Same, Same-new,
  count-new, Same-recount, buffer-recount,
}
use native.Mathlib.Decide.{ℕ_discrete}

-- No more references are counted than handles live.
pub count-length : (k : ℕ) (os : List Owner) → count k os ≤ length os
count-length k [] = omega arith
count-length k (o ∷ os) = ground (arith, count-length k os)

module _ (h : Heap) (k p n w : ℕ) (xs : List ℕ) (rest : List Owner)
    (pool : IsPool h ((bytes p n w, xs) ∷ rest)) where
  module _ (odd : w % 2 ≡ 1) (le : w / 2 ≤ p) (b : IsBuffer h (p - w / 2) (n + w / 2))
      (f : IsFreshBox k h) where
    abbrev block : Shared
    block = record { ref_count = 2; ptr = p - w / 2; cap = n + w / 2 }

    abbrev promoted_heap : Heap
    promoted_heap = set_box k (some block) h

    promoted_buffer : buffer promoted_heap (bytes p n k) ≡ buffer h (bytes p n w)
    promoted_buffer =
        buffer-counted promoted_heap p n k block f.even f.positive (ground arith)
        ∙ sym (buffer-owned h p n w odd)

    promoted_Counted :
        (k' : ℕ) (s : Shared)
        → promoted_heap.boxes k' ≡ some s
        → Counted ((bytes p n k, xs) ∷ (bytes p n k, xs) ∷ rest) k' s
    promoted_Counted k' s e = elim (ℕ_discrete k' k) [
      | yes q ↦
          let z : count k rest ≡ 0 =
            count-new h k block f.new rest f.even f.positive pool.views.1 in
          record {
            even = ground (arith, f.even);
            positive = ground (arith, f.positive);
            used = ground arith;
            exact = ground (arith, z);
          }
      | no ne ↦
          let c : Counted ((bytes p n w, xs) ∷ rest) k' s = pool.counted k' s (ground arith) in
          record {
            even = c.even;
            positive = c.positive;
            used = c.used;
            exact = ground (arith, c.exact, c.even);
          }
    ]

    IsPool-promoted : IsPool promoted_heap ((bytes p n k, xs) ∷ (bytes p n k, xs) ∷ rest)
    IsPool-promoted =
        let cl = Cloned-owned h k p n w xs pool.views.0 odd le b f in
        let same = Same-new h k block f.new rest pool.views.1 in
        let a =
          apart_heir h promoted_heap (bytes p n w) (bytes p n k) promoted_buffer
            (λ e. absurd (omega arith)) rest same pool.apart.0 in
        record {
          views =
              (cl.me_view, (cl.clone_view, views-Keeps h promoted_heap rest cl.keeps pool.views.1));
          counted = promoted_Counted;
          apart =
              ((inl (refl, f.even), a), (a, Pairwise-Same h promoted_heap rest same pool.apart.1));
          listed = λ q c e. (
            (pool.listed q c e).0,
            elim (pool.listed q c e).1 [
              | inl (ne, at, size) ↦
                  inl (
                    λ z. ground (arith, f.positive),
                    rw promoted_buffer at,
                    rw promoted_buffer size,
                  )
              | inr l ↦ inr (inr (Listed-Same h promoted_heap rest q c same l))
            ],
          );
        }

  module _ (s : Shared) (even : w % 2 ≡ 0) (pos : 0 < w) (box : h.boxes w ≡ some s)
      (bk : Backed h w p n) where
    abbrev bumped_heap : Heap
    bumped_heap = set_box w (some (record s { ref_count = s.ref_count + 1 })) h

    bumped_Counted :
        (k' : ℕ) (t : Shared)
        → bumped_heap.boxes k' ≡ some t
        → Counted ((bytes p n w, xs) ∷ (bytes p n w, xs) ∷ rest) k' t
    bumped_Counted k' t e = elim (ℕ_discrete k' w) [
      | yes q ↦
          let c : Counted ((bytes p n w, xs) ∷ rest) w s = pool.counted w s box in
          record {
            even = ground (arith, even);
            positive = ground (arith, pos);
            used = ground arith;
            exact = ground (arith, c.exact);
          }
      | no ne ↦
          let c : Counted ((bytes p n w, xs) ∷ rest) k' t = pool.counted k' t (ground arith) in
          record {
            even = c.even;
            positive = c.positive;
            used = c.used;
            exact = ground (arith, c.exact);
          }
    ]

    IsPool-bumped : IsPool bumped_heap ((bytes p n w, xs) ∷ (bytes p n w, xs) ∷ rest)
    IsPool-bumped =
        let cl = Cloned-counted h k p n w xs pool.views.0 even box bk in
        let same = Same-recount h w (s.ref_count + 1) s box rest in
        let kept = buffer-recount h w (s.ref_count + 1) s box (bytes p n w) in
        let a =
          apart_heir h bumped_heap (bytes p n w) (bytes p n w) kept (λ _. refl) rest same
            pool.apart.0 in
        record {
          views =
              (cl.me_view, (cl.clone_view, views-Keeps h bumped_heap rest cl.keeps pool.views.1));
          counted = bumped_Counted;
          apart = ((inl (refl, even), a), (a, Pairwise-Same h bumped_heap rest same pool.apart.1));
          listed = λ q c e. (
            (pool.listed q c e).0,
            elim (pool.listed q c e).1 [
              | inl (ne, at, size) ↦ inl (ne, rw kept at, rw kept size)
              | inr l ↦ inr (inr (Listed-Same h bumped_heap rest q c same l))
            ],
          );
        }

  IsPool-static : w ≡ 0 → IsPool h ((bytes p n w, xs) ∷ (bytes p n w, xs) ∷ rest)
  IsPool-static e = record {
    views = (pool.views.0, pool.views);
    counted = λ k' s box.
        let c : Counted ((bytes p n w, xs) ∷ rest) k' s = pool.counted k' s box in
        record {
          even = c.even;
          positive = c.positive;
          used = c.used;
          exact = ground (arith, c.exact, c.positive);
        };
    apart = ((inl (refl, ground arith), pool.apart.0), pool.apart);
    listed = λ q c l. ((pool.listed q c l).0, inr (pool.listed q c l).1);
  }

no_null :
    (h : Heap) (os : List Owner) → IsPool h os → (o : Option Shared) → h.boxes 0 ≡ o → o ≡ none
no_null h os pool none e = refl
no_null h os pool (some s) e = absurd (omega (arith, (pool.counted 0 s e).positive))

boxes-null : (h : Heap) (os : List Owner) → IsPool h os → h.boxes 0 ≡ none
boxes-null h os pool = no_null h os pool (h.boxes 0) refl

-- A counted word is saturated only if more handles are live than an address space can hold.
pub IsPool-Unsaturated :
    (h : Heap) (b : Bytes) (xs : List ℕ) (rest : List Owner)
    → IsPool h ((b, xs) ∷ rest)
    → length rest < isize_max
    → Unsaturated h b.data_word
IsPool-Unsaturated h b xs rest pool few = by_standing pool.views.0.standing
  where
    by_standing : Standing h b → Unsaturated h b.data_word
    by_standing (static e) = ground (arith, boxes-null h ((b, xs) ∷ rest) pool)
    by_standing (backed (owned odd le k)) = ground arith
    by_standing (backed (counted s even pos box rc lo hi k)) =
        ground (arith, (pool.counted b.data_word s box).exact, count-length b.data_word rest)

-- What a clone leaves in a pool.
abbrev pub TwoOf : List ℕ → List Owner → Bytes × Bytes → Heap → Type 0
TwoOf xs rest (x, y) h' = IsPool h' ((x, xs) ∷ (y, xs) ∷ rest)

clone_inner-Standing :
    (h : Heap) (k p n w : ℕ) (xs : List ℕ) (rest : List Owner)
    → IsPool h ((bytes p n w, xs) ∷ rest)
    → IsFreshBox k h
    → Unsaturated h w
    → Standing h (bytes p n w)
    → Ensures (TwoOf xs rest) (clone_inner k w (bytes p n w) h)
clone_inner-Standing h k p n w xs rest pool f u (static e) =
    rw (clone_inner-static h k p n w xs pool.views.0 e) (IsPool-static h k p n w xs rest pool e)
clone_inner-Standing h k p n w xs rest pool f u (backed (owned odd le b)) =
    rw (clone_inner-owned h k p n w odd) (IsPool-promoted h k p n w xs rest pool odd le b f)
clone_inner-Standing h k p n w xs rest pool f u (backed (counted s even pos box rc lo hi b)) =
    rw (clone_inner-counted h k p n w even pos box (ground arith))
      (IsPool-bumped h k p n w xs rest pool s even pos box (counted s even pos box rc lo hi b))

pub clone_inner-IsPool :
    (h : Heap) (k : ℕ) (b : Bytes) (xs : List ℕ) (rest : List Owner)
    → IsPool h ((b, xs) ∷ rest)
    → IsFreshBox k h
    → length rest < isize_max
    → Ensures (TwoOf xs rest) (clone_inner k b.data_word b h)
clone_inner-IsPool h k b xs rest pool f few =
    clone_inner-Standing h k b.ptr b.len b.data_word xs rest pool f
      (IsPool-Unsaturated h b xs rest pool few) pool.views.0.standing
