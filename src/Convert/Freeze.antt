-- ===== src/Convert/Freeze.antt =====
-- `freeze` in src/bytes/bytes_mut.rs.
use tcio.Base.{
  ℕ, ◌+◌, ◌-◌, ◌/◌, ◌%◌, ◌<◌, ◌≡◌, inl, inr, refl, List, length, arith, some, true, ◌==◌, [], ◌∷◌,
  ◌≤◌,
}
use tcio.Memory.{Heap, Ensures, ok, IsFreshBox, deallocate, drop_vec, set_box, Shared}
use tcio.Shared.{to_unpromoted, promote_with_vec}
use tcio.Shared.Steps.{as_unpromoted-odd, as_unpromoted-even, mask_payload-ok}
use tcio.Shared.Backed.{IsBuffer, Backed, Backed-part, owned, counted}
use tcio.Shared.Keep.{Backed-promoted}
use tcio.Bytes
use tcio.Bytes.{Bytes, bytes}
use tcio.Bytes.Valid.{IsBytes, static, backed}
use tcio.BytesMut.{BytesMut, bytes_mut}
use tcio.BytesMut.Valid.{IsMut}
use tcio.Convert.{freeze}
use native.Mathlib.Decide.{ℕ_discrete}

module _ (h : Heap) (k p n c w : ℕ) (xs : List ℕ) (v : IsMut h (bytes_mut p n c w) xs) where
  module _ (odd : w % 2 ≡ 1) (off : w / 2 ≤ p) (b : IsBuffer h (p - w / 2) (c + w / 2)) where
    freeze-empty :
        (h' : Heap)
        → n + w / 2 ≡ 0
        → drop_vec (record { ptr = p - w / 2; len = n + w / 2; cap = c + w / 2 }) h ≡ ok tt h'
        → freeze k (bytes_mut p n c w) h ≡ ok (bytes 1 0 0) h'
    unfolding freeze Bytes.from_vec Bytes.from_static Bytes.advance Bytes.new
        Bytes.advance_unchecked
    freeze-empty h' z d =
        let e : (n + w / 2 == 0) ≡ true = ground arith in
        let o : w / 2 ≡ 0 = omega arith in rw (as_unpromoted-odd h w odd, e, d, o)

    -- The vector has no spare capacity.
    freeze-full : 0 < n + w / 2 → c ≡ n → freeze k (bytes_mut p n c w) h ≡ ok (bytes p n w) h
    unfolding freeze Bytes.from_vec Bytes.advance Bytes.advance_unchecked to_unpromoted
    freeze-full pos full =
        ground (arith, as_unpromoted-odd h w odd, mask_payload-ok h 1 (w / 2), b.small)

    freeze-spare :
        IsFreshBox k h
        → 0 < n + w / 2
        → n < c
        → freeze k (bytes_mut p n c w) h
          ≡ ok
              (bytes p n k)
              (set_box k (some (record { ref_count = 1; ptr = p - w / 2; cap = c + w / 2 })) h)
    unfolding freeze Bytes.from_vec Bytes.advance Bytes.advance_unchecked to_unpromoted
        promote_with_vec
    freeze-spare f pos spare = ground (arith, as_unpromoted-odd h w odd, f.even)

  freeze-promoted :
      (s : Shared)
      → w % 2 ≡ 0
      → h.boxes w ≡ some s
      → freeze k (bytes_mut p n c w) h ≡ ok (bytes p n w) h
  unfolding freeze
  freeze-promoted s even box = rw (as_unpromoted-even h w even box)

pub drop_vec-empty :
    (h : Heap) (p n c : ℕ) → c ≡ 0 → drop_vec (record { ptr = p; len = n; cap = c }) h ≡ ok tt h
unfolding drop_vec
drop_vec-empty h p n c z = ground arith

pub drop_vec-live :
    (h : Heap) (p n c : ℕ)
    → 0 < c
    → h.vecs p ≡ some c
    → drop_vec (record { ptr = p; len = n; cap = c }) h ≡ ok tt (deallocate p c h)
unfolding drop_vec
drop_vec-live h p n c pos live = ground arith

pub IsBytes-none : (h : Heap) (xs : List ℕ) → length xs ≡ 0 → IsBytes h (bytes 1 0 0) xs
IsBytes-none h [] e = record { size = refl; holds = tt; standing = static refl }
IsBytes-none h (x ∷ xs) e = absurd (omega arith)

-- `freeze` on a valid growable handle, with a fresh address for a control block, returns a valid
-- immutable handle that shows exactly the bytes written, whether the buffer is empty, full, has
-- spare room or is shared.
pub freeze_lem :
    (h : Heap) (k : ℕ) (m : BytesMut) (xs : List ℕ)
    → IsMut h m xs
    → IsFreshBox k h
    → Ensures (λ b h'. IsBytes h' b xs) (freeze k m h)
freeze_lem h k m xs v f = by_standing v.standing
  where
    by_standing :
        Backed h m.data_word m.ptr m.cap → Ensures (λ b h'. IsBytes h' b xs) (freeze k m h)
    by_standing (counted s even pos box rc lo hi b) =
        rw (freeze-promoted h k m.ptr m.len m.cap m.data_word xs v s even box) (record {
          size = v.size;
          holds = v.holds;
          standing = backed (counted s even pos box rc lo (omega (arith, v.fit)) b);
        })
    by_standing (owned odd off b) = elim (ℕ_discrete (m.len + m.data_word / 2) 0) [
      | yes z ↦ elim (ℕ_discrete (m.cap + m.data_word / 2) 0) [
        | yes none_left ↦
            rw
              (freeze-empty h k m.ptr m.len m.cap m.data_word xs v odd off b h z
                (drop_vec-empty h _ _ _ none_left))
              (IsBytes-none h xs (omega (arith, v.size)))
        | no left ↦ elim b.live [
          | inl e ↦ absurd (left e)
          | inr live ↦
              rw
                (freeze-empty h k m.ptr m.len m.cap m.data_word xs v odd off b _ z
                  (drop_vec-live h _ _ _ (omega arith) live))
                (IsBytes-none _ xs (omega (arith, v.size)))
        ]
      ]
      | no nz ↦ elim (ℕ_discrete m.cap m.len) [
        | yes full ↦
            rw (freeze-full h k m.ptr m.len m.cap m.data_word xs v odd off b (omega arith) full)
              (record {
                size = v.size;
                holds = v.holds;
                standing = backed (owned odd off (rw full at b));
              })
        | no spare ↦
            rw
              (freeze-spare h k m.ptr m.len m.cap m.data_word xs v odd off b f (omega arith)
                (omega (arith, v.fit)))
              (record {
                size = v.size;
                holds = v.holds;
                standing = backed (
                    let e : m.ptr + 0 ≡ m.ptr = omega arith in
                    rw e at (
                      Backed-part _ k m.ptr m.cap 0 m.len f.even (omega (arith, v.fit))
                        (Backed-promoted h k m.data_word m.ptr m.cap 1 f off b (omega arith))));
              })
      ]
    ]
