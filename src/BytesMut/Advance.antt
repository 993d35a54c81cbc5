-- ===== src/BytesMut/Advance.antt =====
-- `advance_unchecked` in src/bytes/bytes_mut.rs.
use tcio.Base.{
  ℕ, ◌+◌, ◌-◌, ◌*◌, ◌/◌, ◌%◌, ◌≤◌, ◌≡◌, refl, List, length, arith, some, drop, length-drop,
  drop_all,
}
use tcio.Memory.{Heap, Shared, ok, Ensures}
use tcio.Memory.Cells.{Holds, Holds-drop}
use tcio.Shared.Backed.{IsBuffer, Backed, owned, counted, Backed-advance}
use tcio.Shared.Steps.{mask_payload-ok, as_unpromoted-odd, as_unpromoted-even}
use tcio.BytesMut.{BytesMut, bytes_mut, advance_unchecked}
use native.Mathlib.Decide.{dec_le}
use tcio.BytesMut.Valid.{IsMut}

module _ (h : Heap) (p n c w cnt : ℕ) (le : cnt ≤ c) where
  advance_unchecked-even :
      {s : Shared}
      → w % 2 ≡ 0
      → h.boxes w ≡ some s
      → advance_unchecked cnt (bytes_mut p n c w) h
        ≡ ok (bytes_mut (p + cnt) (n - cnt) (c - cnt) w) h
  unfolding advance_unchecked
  advance_unchecked-even even box = ground (arith, as_unpromoted-even h w even box)

  advance_unchecked-odd :
      w % 2 ≡ 1
      → IsBuffer h (p - w / 2) (c + w / 2)
      → advance_unchecked cnt (bytes_mut p n c w) h
        ≡ ok (bytes_mut (p + cnt) (n - cnt) (c - cnt) (w + 2 * cnt)) h
  unfolding advance_unchecked
  advance_unchecked-odd odd b =
      ground (arith, as_unpromoted-odd h w odd, mask_payload-ok h w (w / 2 + cnt), b.small)

-- What moving the front by `cnt`, which may pass the written part, leaves.
pub record Advanced (h : Heap) (m : BytesMut) (xs : List ℕ) (cnt : ℕ) (m' : BytesMut) (h' : Heap)
    : Type 0 where
  pub view : IsMut h m' (drop cnt xs)
  pub place : m'.ptr ≡ m.ptr + cnt
  pub room : m'.cap + cnt ≡ m.cap
  pub same_heap : h' ≡ h
  pub same_word : m.data_word % 2 ≡ 0 → m'.data_word ≡ m.data_word

Holds-drop-any :
    (h : Heap) (p cnt : ℕ) (xs : List ℕ) → Holds h.cell p xs → Holds h.cell (p + cnt) (drop cnt xs)
Holds-drop-any h p cnt xs v = elim (dec_le cnt (length xs)) [
  | yes le ↦ Holds-drop h.cell p cnt xs le v
  | no gt ↦ rw (drop_all cnt xs (omega arith)) tt
]

module _ (h : Heap) (p n c w cnt : ℕ) (xs : List ℕ) (le : cnt ≤ c)
    (v : IsMut h (bytes_mut p n c w) xs) where
  Advanced-of :
      (w' : ℕ)
      → Backed h w' (p + cnt) (c - cnt)
      → (w % 2 ≡ 0 → w' ≡ w)
      → Advanced h (bytes_mut p n c w) xs cnt (bytes_mut (p + cnt) (n - cnt) (c - cnt) w') h
  Advanced-of w' st same = record {
    view = record {
      size = omega (arith, length-drop cnt xs, v.size);
      fit = omega (arith, v.fit);
      holds = Holds-drop-any h p cnt xs v.holds;
      standing = st;
    };
    place = refl;
    room = omega arith;
    same_heap = refl;
    same_word = same;
  }

  advance_Backed :
      Backed h w p c
      → Ensures
          (Advanced h (bytes_mut p n c w) xs cnt)
          (advance_unchecked cnt (bytes_mut p n c w) h)
  advance_Backed (owned odd off b) = rw (advance_unchecked-odd h p n c w cnt le odd b) (
      Advanced-of (w + 2 * cnt) (Backed-advance h w p c cnt odd le off b)
        (λ e. absurd (omega arith)))
  advance_Backed (counted s even pos box rc lo hi b) =
      rw (advance_unchecked-even h p n c w cnt le even box)
        (Advanced-of w (counted s even pos box rc (omega arith) (omega arith) b) (λ e. refl))

-- Within the capacity `advance_unchecked` ends well: the front moves, what was written behind it
-- stays, and nothing of it is left if the move passes the written part.
pub advance_unchecked_lem :
    (h : Heap) (m : BytesMut) (xs : List ℕ) (cnt : ℕ)
    → cnt ≤ m.cap
    → IsMut h m xs
    → Ensures (Advanced h m xs cnt) (advance_unchecked cnt m h)
advance_unchecked_lem h m xs cnt le v =
    advance_Backed h m.ptr m.len m.cap m.data_word cnt xs le v v.standing
