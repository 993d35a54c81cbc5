-- ===== src/Pool/Create.antt =====
-- A new handle in a pool: `copy_from_slice` and `from_vec` of src/bytes/bytes.rs.
use tcio.Base.{
  ℕ, ◌+◌, ◌-◌, ◌/◌, ◌≤◌, ◌<◌, ◌≡◌, ◌≢◌, inl, inr, some, List, [], ◌∷◌, arith, refl, sym, ◌∙◌,
  length,
}
use tcio.Base.Words.{isize_max}
use tcio.Memory.{
  Heap, Shared, Ensures, ok, IsFreshBox, Grant, IsFresh, Allocator, Serves, set_box, update,
  dangling, drop_vec,
}
use tcio.Memory.Fresh.{filled}
use tcio.Memory.Cells.{Holds}
use tcio.Shared.{promote_with_vec}
use tcio.Shared.Backed.{owned, counted}
use tcio.Shared.Keep.{Keeps, Keeps-filled, Keeps-new, Keeps-trans, IsBuffer-set_box, update-eq}
use tcio.Bytes.{Bytes, bytes, new, copy_from_slice, from_vec, new_empty_with_ptr, from_static}
use tcio.Bytes.Valid.{IsBytes, static, backed}
use tcio.Convert.Vectors.{IsVec, to_vec-empty, to_vec-filled, IsVec-filled}
use tcio.Pool.{Owner, buffer, NoOverlap, Separate, All, count, Counted, IsPool}
use tcio.Pool.Buffers.{
  buffer-counted, views-Keeps, Pairwise-Same, Listed-Same, Same, Same-new, count-new,
  IsBytes-Covers, All-map, All-both,
}
use tcio.Pool.Heir.{IsPool-empty}
use native.Mathlib.Decide.{ℕ_discrete}

-- A new buffer shares no cell with what the handles keep.
apart_fresh :
    (h : Heap) (g : Grant) (n : ℕ) (os : List Owner)
    → IsFresh g n h
    → All (λ o. IsBytes h o.0 o.1) os
    → All (λ o. NoOverlap (g.at, g.cap) (buffer h o.0)) os
apart_fresh h g n os f =
    All-map (λ o. IsBytes h o.0 o.1) (λ o. NoOverlap (g.at, g.cap) (buffer h o.0)) os
      λ (b, xs) v a lo hi lo' hi'. (IsBytes-Covers h b xs v).mapped a lo' hi' (f.unused a lo hi)

-- A handle on a new buffer joins.
IsPool-join :
    (h h' : Heap) (g : Grant) (b : Bytes) (xs : List ℕ) (os : List Owner)
    → IsPool h os
    → IsBytes h' b xs
    → b.data_word ≢ 0
    → buffer h' b ≡ (g.at, g.cap)
    → 0 < g.cap
    → Keeps h h'
    → Same h h' os
    → All (λ o. NoOverlap (g.at, g.cap) (buffer h o.0)) os
    → h'.vecs ≡ update h.vecs g.at (some g.cap)
    → ((k : ℕ) (s : Shared) → h'.boxes k ≡ some s → Counted ((b, xs) ∷ os) k s)
    → IsPool h' ((b, xs) ∷ os)
IsPool-join h h' g b xs os pool v ne e pos keeps same lone vecs tally = record {
  views = (v, views-Keeps h h' os keeps pool.views);
  counted = tally;
  apart = (
    All-both (λ o. buffer h' o.0 ≡ buffer h o.0) (λ o. NoOverlap (g.at, g.cap) (buffer h o.0))
        (λ o. Separate h' b o.0) os (λ o q no_overlap. inr (rw (e, q) no_overlap)) same lone,
    Pairwise-Same h h' os same pool.apart,
  );
  listed = λ p c l.
      let l' : update h.vecs g.at (some g.cap) p ≡ some c = rw vecs at l in
      elim (ℕ_discrete p g.at) [
        | yes q ↦
            let size : g.cap ≡ c = ground arith in (omega arith, inl (ne, rw e (sym q), rw e size))
        | no nq ↦
            let old : h.vecs p ≡ some c = ground arith in
            ((pool.listed p c old).0, inr (Listed-Same h h' os p c same (pool.listed p c old).1))
      ];
}

Same-filled :
    (h : Heap) (g : Grant) (n : ℕ) (f : IsFresh g n h) (xs : List ℕ) (os : List Owner)
    → Same h (filled h g n f xs) os
Same-filled h g n f xs [] = tt
Same-filled h g n f xs (o ∷ os) = (refl, Same-filled h g n f xs os)

module _ (h : Heap) (k : ℕ) (g : Grant) (n : ℕ) (f : IsFresh g n h) (xs : List ℕ) (os : List Owner)
    (pool : IsPool h os) (e : length xs ≡ n) (pos : 0 < n) where
  abbrev after : Heap
  after = filled h g n f xs

  full : IsVec after (record { ptr = g.at; len = n; cap = g.cap }) xs
  full = IsVec-filled g n xs h e f

  Keeps-after : Keeps h after
  Keeps-after = Keeps-filled h g n f xs (omega arith)

  -- The vector is full: the handle starts unpromoted.
  IsPool-exact : g.cap ≡ n → IsPool after ((bytes g.at n 1, xs) ∷ os)
  IsPool-exact c =
      let start : g.at - 1 / 2 ≡ g.at = omega arith in
      let size : n + 1 / 2 ≡ g.cap = omega (arith, c) in
      IsPool-join h after g (bytes g.at n 1) xs os pool
        (record {
          size = e;
          holds = full.holds;
          standing = backed (owned refl (omega arith) (rw (start, size) full.buffer));
        })
        (omega arith) (ground (arith, c)) (omega (arith, f.enough)) Keeps-after
        (Same-filled h g n f xs os) (apart_fresh h g n os f pool.views) refl
        λ k' s box.
          let c : Counted os k' s = pool.counted k' s box in
          record {
            even = c.even;
            positive = c.positive;
            used = c.used;
            exact = ground (arith, c.exact, c.even);
          }

  abbrev block : Shared
  block = record { ref_count = 1; ptr = g.at; cap = g.cap }

  -- The vector has spare capacity: the handle starts with a control block.
  IsPool-spare : IsFreshBox k h → IsPool (set_box k (some block) after) ((bytes g.at n k, xs) ∷ os)
  IsPool-spare fresh =
      let h' = set_box k (some block) after in
      let new_block = Keeps-new after k block fresh.new in
      let views = views-Keeps h after os Keeps-after pool.views in
      IsPool-join h h' g (bytes g.at n k) xs os pool
        (record {
          size = e;
          holds = full.holds;
          standing = backed (
              counted block fresh.even fresh.positive (update-eq after.boxes k k (some block) refl)
                (omega arith) (omega arith) (omega (arith, f.enough))
                (IsBuffer-set_box after k (some block) full.buffer));
        })
        (ground (arith, fresh.positive))
        (buffer-counted h' g.at n k block fresh.even fresh.positive
          (update-eq after.boxes k k (some block) refl))
        (omega (arith, f.enough)) (Keeps-trans h after h' Keeps-after new_block)
        (All-both (λ o. buffer h' o.0 ≡ buffer after o.0) (λ o. buffer after o.0 ≡ buffer h o.0)
          (λ o. buffer h' o.0 ≡ buffer h o.0) os (λ o q r. q ∙ r)
          (Same-new after k block fresh.new os views) (Same-filled h g n f xs os))
        (apart_fresh h g n os f pool.views) refl
        λ k' s box. elim (ℕ_discrete k' k) [
          | yes q ↦
              let z : count k os ≡ 0 =
                count-new h k block fresh.new os fresh.even fresh.positive pool.views in
              record {
                even = ground (arith, fresh.even);
                positive = ground (arith, fresh.positive);
                used = ground arith;
                exact = ground (arith, z);
              }
          | no nq ↦
              let c : Counted os k' s = pool.counted k' s (ground arith) in
              record {
                even = c.even;
                positive = c.positive;
                used = c.used;
                exact = ground (arith, c.exact);
              }
        ]

  from_vec-exact :
      (h' : Heap)
      → g.cap ≡ n
      → from_vec k (record { ptr = g.at; len = n; cap = g.cap }) h' ≡ ok (bytes g.at n 1) h'
  unfolding from_vec
  from_vec-exact h' c = ground arith

  from_vec-spare :
      (h' : Heap)
      → g.cap ≢ n
      → from_vec k (record { ptr = g.at; len = n; cap = g.cap }) h'
        ≡ ok (bytes g.at n k) (set_box k (some block) h')
  unfolding from_vec promote_with_vec
  from_vec-spare h' c = ground arith

copy_from_slice-empty :
    (k : ℕ) (g : Allocator) (h : Heap)
    → copy_from_slice k g [] h ≡ ok (new_empty_with_ptr dangling) h
unfolding copy_from_slice from_vec new from_static drop_vec
copy_from_slice-empty k g h = rw (to_vec-empty g h)

-- `copy_from_slice` in a pool.
pub copy_from_slice-IsPool :
    (h : Heap) (k : ℕ) (g : Allocator) (xs : List ℕ) (os : List Owner)
    → IsPool h os
    → IsFreshBox k h
    → Serves g h
    → length xs ≤ isize_max
    → Ensures (λ b h'. IsPool h' ((b, xs) ∷ os)) (copy_from_slice k g xs h)
unfolding copy_from_slice
copy_from_slice-IsPool h k g [] os pool fresh serves le =
    rw (copy_from_slice-empty k g h) (IsPool-empty h dangling os pool)
copy_from_slice-IsPool h k g (x ∷ xs) os pool fresh serves le =
    let n = length (x ∷ xs) in
    let f : IsFresh (g n) n h = serves n (omega arith) le in
    let run = to_vec-filled g n (x ∷ xs) h refl (omega arith) le f in
    elim (ℕ_discrete (g n).cap n) [
      | yes c ↦
          rw (run, from_vec-exact h k (g n) n f (x ∷ xs) os pool refl (omega arith) _ c)
            (IsPool-exact h k (g n) n f (x ∷ xs) os pool refl (omega arith) c)
      | no nc ↦
          rw (run, from_vec-spare h k (g n) n f (x ∷ xs) os pool refl (omega arith) _ nc)
            (IsPool-spare h k (g n) n f (x ∷ xs) os pool refl (omega arith) fresh)
    ]

-- `from_static` in a pool: the slice is none of the buffers that the handles keep.
pub from_static-IsPool :
    (h : Heap) (p : ℕ) (xs : List ℕ) (os : List Owner)
    → IsPool h os
    → Holds h.cell p xs
    → All (λ o. Separate h (from_static p (length xs)) o.0) os
    → IsPool h ((from_static p (length xs), xs) ∷ os)
unfolding from_static
from_static-IsPool h p xs os pool holds apart = record {
  views = (record { size = refl; holds = holds; standing = static refl }, pool.views);
  counted = λ k s box.
      let c : Counted os k s = pool.counted k s box in
      record {
        even = c.even;
        positive = c.positive;
        used = c.used;
        exact = ground (arith, c.exact, c.positive);
      };
  apart = (apart, pool.apart);
  listed = λ q c l. ((pool.listed q c l).0, inr (pool.listed q c l).1);
}
