-- ===== src/Bytes/Advance.antt =====
-- `advance` in src/bytes/bytes.rs.
use tcio.Base.{
  ℕ, ◌+◌, ◌-◌, ◌*◌, ◌/◌, ◌%◌, ◌≤◌, ◌<◌, ◌≡◌, refl, List, arith, take, drop, length-take,
  length-drop, [], leb, true,
}
use tcio.Memory.{Heap, ok, Ensures}
use tcio.Memory.Cells.{Holds-take, Holds-drop}
use tcio.Shared.{to_unpromoted}
use tcio.Shared.Backed.{Backed-advance, IsBuffer, Backed, owned, counted, Backed-part}
use tcio.Shared.Steps.{mask_payload-ok}
use tcio.Bytes.{Bytes, bytes, advance_unchecked, advance, new_empty_with_ptr, panic}
use tcio.Bytes.Valid.{IsBytes, static, backed, Standing}

-- Any part of a view whose word is null or promoted.
pub IsBytes-part :
    (h : Heap) (b : Bytes) (xs : List ℕ) (i m : ℕ)
    → b.data_word % 2 ≡ 0
    → i + m ≤ b.len
    → IsBytes h b xs
    → IsBytes h (bytes (b.ptr + i) m b.data_word) (take m (drop i xs))
IsBytes-part h b xs i m even le v = record {
  size = omega (arith, length-take m (drop i xs), length-drop i xs, v.size);
  holds =
      Holds-take h.cell (b.ptr + i) m (drop i xs)
        (Holds-drop h.cell b.ptr i xs (omega (arith, v.size)) v.holds);
  standing = stand v.standing;
}
  where
    stand : Standing h b → Standing h (bytes (b.ptr + i) m b.data_word)
    stand (static e) = static e
    stand (backed k) = backed (Backed-part h b.data_word b.ptr b.len i m even le k)

-- The front of such a view.
pub IsBytes-front :
    (h : Heap) (b : Bytes) (xs : List ℕ) (m : ℕ)
    → b.data_word % 2 ≡ 0
    → m ≤ b.len
    → IsBytes h b xs
    → IsBytes h (bytes b.ptr m b.data_word) (take m xs)
IsBytes-front h b xs m even le v =
    let e : b.ptr + 0 ≡ b.ptr = omega arith in
    rw e at (IsBytes-part h b xs 0 m even (omega arith) v)

pub IsBytes-empty : (h : Heap) (p : ℕ) → IsBytes h (new_empty_with_ptr p) []
IsBytes-empty h p = record { size = refl; holds = tt; standing = static refl }

module _ (h : Heap) (p n w cnt : ℕ) (le : cnt ≤ n) where
  pub advance_unchecked-even :
      w % 2 ≡ 0 → advance_unchecked cnt (bytes p n w) h ≡ ok (bytes (p + cnt) (n - cnt) w) h
  unfolding advance_unchecked to_unpromoted
  advance_unchecked-even even = ground arith

  pub advance_unchecked-odd :
      w % 2 ≡ 1
      → IsBuffer h (p - w / 2) (n + w / 2)
      → advance_unchecked cnt (bytes p n w) h ≡ ok (bytes (p + cnt) (n - cnt) (w + 2 * cnt)) h
  unfolding advance_unchecked to_unpromoted
  advance_unchecked-odd odd b = ground (arith, mask_payload-ok h w (w / 2 + cnt), b.small)

-- What moving the front by `cnt` leaves.
pub record Advanced (h : Heap) (b : Bytes) (xs : List ℕ) (cnt : ℕ) (b' : Bytes) (h' : Heap)
    : Type 0 where
  pub view : IsBytes h b' (drop cnt xs)
  pub place : b'.ptr ≡ b.ptr + cnt
  pub same_heap : h' ≡ h
  pub same_word : b.data_word % 2 ≡ 0 → b'.data_word ≡ b.data_word

Advanced-of :
    (h : Heap) (p n w w' cnt : ℕ) (xs : List ℕ)
    → cnt ≤ n
    → IsBytes h (bytes p n w) xs
    → Standing h (bytes (p + cnt) (n - cnt) w')
    → (w % 2 ≡ 0 → w' ≡ w)
    → Advanced h (bytes p n w) xs cnt (bytes (p + cnt) (n - cnt) w') h
Advanced-of h p n w w' cnt xs le v st same = record {
  view = record {
    size = omega (arith, length-drop cnt xs, v.size);
    holds = Holds-drop h.cell p cnt xs (omega (arith, v.size)) v.holds;
    standing = st;
  };
  place = refl;
  same_heap = refl;
  same_word = same;
}

advance_Backed :
    (h : Heap) (p n w cnt : ℕ) (xs : List ℕ)
    → cnt ≤ n
    → IsBytes h (bytes p n w) xs
    → Backed h w p n
    → Ensures (Advanced h (bytes p n w) xs cnt) (advance_unchecked cnt (bytes p n w) h)
advance_Backed h p n w cnt xs le v (owned odd off b) =
    rw (advance_unchecked-odd h p n w cnt le odd b) (
      Advanced-of h p n w (w + 2 * cnt) cnt xs le v
        (backed (Backed-advance h w p n cnt odd le off b)) (λ e. absurd (omega arith)))
advance_Backed h p n w cnt xs le v (counted s even pos box rc lo hi b) =
    rw (advance_unchecked-even h p n w cnt le even) (
      Advanced-of h p n w w cnt xs le v
        (backed (counted s even pos box rc (omega arith) (omega arith) b)) (λ e. refl))

advance_Standing :
    (h : Heap) (p n w cnt : ℕ) (xs : List ℕ)
    → cnt ≤ n
    → IsBytes h (bytes p n w) xs
    → Standing h (bytes p n w)
    → Ensures (Advanced h (bytes p n w) xs cnt) (advance_unchecked cnt (bytes p n w) h)
advance_Standing h p n w cnt xs le v (static e) =
    rw (advance_unchecked-even h p n w cnt le (omega arith))
      (Advanced-of h p n w w cnt xs le v (static e) (λ z. refl))
advance_Standing h p n w cnt xs le v (backed b) = advance_Backed h p n w cnt xs le v b

pub advance_unchecked_lem :
    (h : Heap) (b : Bytes) (xs : List ℕ) (cnt : ℕ)
    → cnt ≤ b.len
    → IsBytes h b xs
    → Ensures (Advanced h b xs cnt) (advance_unchecked cnt b h)
advance_unchecked_lem h b xs cnt le v =
    advance_Standing h b.ptr b.len b.data_word cnt xs le v v.standing

-- `advance` on a valid handle moves the front of the view by `cnt` bytes if the view has that many,
-- and panics otherwise.
pub advance_lem :
    (h : Heap) (b : Bytes) (xs : List ℕ) (cnt : ℕ)
    → IsBytes h b xs
    → (cnt ≤ b.len → Ensures (Advanced h b xs cnt) (advance cnt b h))
      × (b.len < cnt → advance cnt b h ≡ panic)
unfolding advance
advance_lem h b xs cnt v = (
  λ le. let t : leb cnt b.len ≡ true = ground arith in rw t (advance_unchecked_lem h b xs cnt le v),
  λ gt. ground arith,
)
