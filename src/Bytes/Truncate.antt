-- ===== src/Bytes/Truncate.antt =====
-- `truncate` and `truncate_off` in src/bytes/bytes.rs.
use tcio.Base.{
  ℕ, ◌-◌, ◌≤◌, ◌<◌, ◌≡◌, ◌≢◌, refl, List, arith, take, take_all, leb, ◌==◌, true, false, none, some,
  Option,
}
use tcio.Memory.{Heap, ok, Ensures, IsFreshBox, and_then, pure, ◌>>◌}
use tcio.Memory.Runs.{Ensures-bind}
use tcio.Shared.Backed.{refs, Unsaturated}
use tcio.Bytes.{
  Bytes, truncate, truncate_off, split_off, try_split_off, drop_inner, new_empty_with_ptr, expect,
}
use tcio.Bytes.Valid.{IsBytes, IsBytes-Keeps, static, backed, Standing}
use tcio.Bytes.Advance.{IsBytes-front, IsBytes-empty}
use tcio.Bytes.Split.{Parted, SplitOff, try_split_off_lem}
use native.Mathlib.Decide.{ℕ_discrete, dec_lt}
use tcio.Bytes.Drop.{Dropped, drop_inner_lem, one-le-refs}

-- What a cut to `len` bytes leaves.
pub record Truncated (h : Heap) (b : Bytes) (xs : List ℕ) (len : ℕ) (b' : Bytes) (h' : Heap)
    : Type 0 where
  pub view : IsBytes h' b' (take len xs)
  pub place : b'.ptr ≡ b.ptr

module _ (h : Heap) (k : ℕ) (b : Bytes) (xs : List ℕ) (len : ℕ) (v : IsBytes h b xs)
    (f : IsFreshBox k h) (u : Unsaturated h b.data_word) (ne : b.data_word ≢ 0)
    (lt : len < b.len) where
  split_off-Parted : Ensures (λ r. Parted h b xs len r.0 r.1) (split_off k len b h)
  unfolding split_off
  split_off-Parted =
      Ensures-bind (SplitOff h b xs len) (λ r. Parted h b xs len r.0 r.1) (try_split_off k len b h)
        _ (try_split_off_lem h k b xs len v f u) got
    where
      got :
          (r : Bytes × Option Bytes) (h' : Heap)
          → SplitOff h b xs len r h'
          → Ensures (λ r. Parted h b xs len r.0 r.1) (expect r h')
      got (me, none) h' s = absurd (omega (arith, s.0, lt))
      got (me, some other) h' s = s.1

  left_live :
      {h' h'' : Heap} (l r : Bytes)
      → Standing h b
      → Parted h b xs len l r h'
      → len ≢ 0
      → Dropped h' r.data_word r.ptr r.len h''
      → IsBytes h'' l (take len xs)
  left_live {h'} {h''} l r st pt nz d = elim (ℕ_discrete r.data_word 0) [
    | yes e ↦ rw (d.static_kept e) pt.left_view
    | no rn ↦
        let (ew, more) = pt.count (pt.live nz ne) rn in
        let kept = d.shared_kept rn (rw ew (omega (arith, more, refs_pos st))) in
        IsBytes-Keeps h' h'' l (take len xs) kept.0 pt.left_view
  ]
    where
      refs_pos : Standing h b → 1 ≤ refs h b.data_word
      refs_pos (static e) = absurd (ne e)
      refs_pos (backed k) = one-le-refs k

  truncate_rest :
      len ≢ 0
      → Ensures
          (Truncated h b xs len)
          (and_then (split_off k len b h) (λ (me', rest). drop_inner rest >> pure me'))
  truncate_rest nz =
      Ensures-bind (λ r. Parted h b xs len r.0 r.1) (Truncated h b xs len) (split_off k len b h) _
        split_off-Parted
        λ (l, r) h' pt.
          Ensures-bind (λ _. Dropped h' r.data_word r.ptr r.len) (Truncated h b xs len)
            (drop_inner r h') _
            (drop_inner_lem h' r pt.right_view.standing (λ rn. omega (arith, pt.bounded rn)))
            λ _ h'' d. record { view = left_live l r v.standing pt nz d; place = pt.place.0 }

  split_off-zero : len ≡ 0 → split_off k len b h ≡ ok (new_empty_with_ptr b.ptr, b) h
  unfolding split_off try_split_off
  split_off-zero e = ground arith

  truncate_all :
      len ≡ 0
      → Ensures
          (Truncated h b xs len)
          (and_then (split_off k len b h) (λ (me', rest). drop_inner rest >> pure me'))
  truncate_all e = rw (split_off-zero e) (
      Ensures-bind (λ _. Dropped h b.data_word b.ptr b.len) (Truncated h b xs len) (drop_inner b h)
        _ (drop_inner_lem h b v.standing (λ rn. omega (arith, u)))
        λ _ h'' d. record { view = rw e (IsBytes-empty h'' b.ptr); place = refl })

-- `truncate` on a valid handle, with a count that can still grow and a fresh address for a control
-- block, leaves a valid handle on the first `len` bytes of the view, or on all of it if it is no
-- longer than that; the part that is cut off is dropped with no fault.
pub truncate_lem :
    (h : Heap) (k : ℕ) (b : Bytes) (xs : List ℕ) (len : ℕ)
    → IsBytes h b xs
    → IsFreshBox k h
    → Unsaturated h b.data_word
    → Ensures (Truncated h b xs len) (truncate k len b h)
unfolding truncate
truncate_lem h k b xs len v f u = elim (dec_lt len b.len) [
  | no ge ↦
      let t : leb b.len len ≡ true = ground arith in
      rw t (record { view = rw (take_all len xs (omega (arith, v.size))) v; place = refl })
  | yes lt ↦
      let t : leb b.len len ≡ false = ground arith in
      elim (ℕ_discrete b.data_word 0) [
        | yes e ↦
            let t' : (b.data_word == 0) ≡ true = ground arith in
            rw (t, t')
              (record {
                view = IsBytes-front h b xs len (omega arith) (omega arith) v;
                place = refl;
              })
        | no ne ↦
            let t' : (b.data_word == 0) ≡ false = ground arith in
            elim (ℕ_discrete len 0) [
              | yes z ↦ rw (t, t') (truncate_all h k b xs len v f u ne lt z)
              | no nz ↦ rw (t, t') (truncate_rest h k b xs len v f u ne lt nz)
            ]
      ]
]

-- `truncate_off` on a valid handle, with a count that can still grow and a fresh address for a
-- control block, cuts `off` bytes from the end, and does nothing where the view is shorter.
truncate_off_lem :
    (h : Heap) (k : ℕ) (b : Bytes) (xs : List ℕ) (off : ℕ)
    → IsBytes h b xs
    → IsFreshBox k h
    → Unsaturated h b.data_word
    → (off ≤ b.len → Ensures (Truncated h b xs (b.len - off)) (truncate_off k off b h))
      × (b.len < off → truncate_off k off b h ≡ ok b h)
unfolding truncate_off
truncate_off_lem h k b xs off v f u = (
  λ le.
      let t : leb off b.len ≡ true = ground arith in
      rw t (truncate_lem h k b xs (b.len - off) v f u),
  λ gt. ground arith,
)
