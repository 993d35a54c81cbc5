-- ===== src/Convert/FromVec.antt =====
-- `from_vec` and `copy_from_slice` in src/bytes/bytes.rs.
use tcio.Base.{
  ℕ, ◌+◌, ◌-◌, ◌/◌, ◌≤◌, ◌≡◌, ◌≢◌, inl, inr, refl, List, [], ◌∷◌, length, arith, some, ◌==◌, true,
}
use tcio.Base.Words.{isize_max}
use tcio.Memory.{Heap, Ensures, ok, Vec, IsFreshBox, IsFresh, set_box, drop_vec, Allocator, Serves}
use tcio.Memory.Fresh.{filled}
use tcio.Shared.{promote_with_vec}
use tcio.Shared.Backed.{owned, counted}
use tcio.Shared.Keep.{IsBuffer-set_box, update-eq}
use tcio.Bytes.{bytes, from_vec, new, from_static, copy_from_slice}
use tcio.Bytes.Valid.{IsBytes, backed}
use tcio.Convert.Vectors.{IsVec, IsVec-empty, IsVec-filled, to_vec-empty, to_vec-filled}
use tcio.Convert.Freeze.{drop_vec-empty, drop_vec-live, IsBytes-none}
use native.Mathlib.Decide.{ℕ_discrete}

module _ (h : Heap) (k p n c : ℕ) (xs : List ℕ)
    (v : IsVec h (record { ptr = p; len = n; cap = c }) xs) where
  from_vec-none :
      (h' : Heap)
      → n ≡ 0
      → drop_vec (record { ptr = p; len = n; cap = c }) h ≡ ok tt h'
      → from_vec k (record { ptr = p; len = n; cap = c }) h ≡ ok (bytes 1 0 0) h'
  unfolding from_vec new from_static
  from_vec-none h' z d = let t : (n == 0) ≡ true = ground arith in rw (t, d)

  from_vec-full :
      n ≢ 0 → c ≡ n → from_vec k (record { ptr = p; len = n; cap = c }) h ≡ ok (bytes p n 1) h
  unfolding from_vec
  from_vec-full nz e = ground arith

  from_vec-spare :
      n ≢ 0
      → c ≢ n
      → from_vec k (record { ptr = p; len = n; cap = c }) h
        ≡ ok (bytes p n k) (set_box k (some (record { ref_count = 1; ptr = p; cap = c })) h)
  unfolding from_vec promote_with_vec
  from_vec-spare nz e = ground arith

  from_vec-IsBytes :
      IsFreshBox k h
      → Ensures (λ b h'. IsBytes h' b xs) (from_vec k (record { ptr = p; len = n; cap = c }) h)
  from_vec-IsBytes f = elim (ℕ_discrete n 0) [
    | yes z ↦ elim (ℕ_discrete c 0) [
      | yes cz ↦
          rw (from_vec-none h z (drop_vec-empty h p n c cz))
            (IsBytes-none h xs (omega (arith, v.size)))
      | no cn ↦ elim v.buffer.live [
        | inl e ↦ absurd (cn e)
        | inr live ↦
            rw (from_vec-none _ z (drop_vec-live h p n c (omega arith) live))
              (IsBytes-none _ xs (omega (arith, v.size)))
      ]
    ]
    | no nz ↦ elim (ℕ_discrete c n) [
      | yes full ↦
          let start : p - 1 / 2 ≡ p = omega arith in
          let size : n + 1 / 2 ≡ c = omega arith in
          rw (from_vec-full nz full) (record {
            size = v.size;
            holds = v.holds;
            standing = backed (owned refl (omega arith) (rw (start, size) v.buffer));
          })
      | no spare ↦ rw (from_vec-spare nz spare) (record {
        size = v.size;
        holds = v.holds;
        standing = backed (
            counted _ f.even f.positive (update-eq h.boxes k k _ refl) (omega arith) (omega arith)
              (omega (arith, v.fit)) (IsBuffer-set_box h k _ v.buffer));
      })
    ]
  ]

-- A vector becomes a handle on just its elements, whether it is empty, full or has spare capacity.
pub from_vec_lem :
    (h : Heap) (k : ℕ) (v : Vec) (xs : List ℕ)
    → IsVec h v xs
    → IsFreshBox k h
    → Ensures (λ b h'. IsBytes h' b xs) (from_vec k v h)
from_vec_lem h k v xs iv f = from_vec-IsBytes h k v.ptr v.len v.cap xs iv f

-- A copy of a slice is a handle on the same bytes.
pub copy_from_slice_lem :
    (h : Heap) (k : ℕ) (g : Allocator) (xs : List ℕ)
    → IsFreshBox k h
    → Serves g h
    → length xs ≤ isize_max
    → Ensures (λ b h'. IsBytes h' b xs) (copy_from_slice k g xs h)
unfolding copy_from_slice
copy_from_slice_lem h k g [] f serves le =
    rw (to_vec-empty g h) (from_vec_lem h k _ [] (IsVec-empty h) f)
copy_from_slice_lem h k g (x ∷ xs) f serves le =
    let n = length (x ∷ xs) in
    let fr : IsFresh (g n) n h = serves n (omega arith) le in
    let h' = filled h (g n) n fr (x ∷ xs) in
    rw (to_vec-filled g n (x ∷ xs) h refl (omega arith) le fr) (
      from_vec_lem h' k _ (x ∷ xs) (IsVec-filled (g n) n (x ∷ xs) h refl fr)
        (record { even = f.even; positive = f.positive; new = f.new }))
