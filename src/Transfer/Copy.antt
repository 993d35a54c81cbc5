-- ===== src/Transfer/Copy.antt =====
-- The default `copy_to_bytes` of src/bytes/buf.rs, which pours a `Take` into a new handle.
use tcio.Base.{
  ℕ, suc, ◌-◌, ◌≤◌, ◌<◌, ◌≡◌, refl, ap, ◌∙◌, min, List, [], length, take, drop, arith, true, false,
  ◌==◌, leb, length-take, length-drop,
}
use tcio.Base.Words.{isize_max}
use tcio.Memory.{
  Heap, Ensures, ok, panic, Allocator, Serves, IsFreshBox, with_capacity, allocate, and_then, pure,
  IsFresh,
}
use tcio.Memory.Runs.{Ensures-bind, Ensures-mono}
use tcio.Memory.Fresh.{with_capacity-ok}
use tcio.Buf.{Buf, Take, take_buf}
use tcio.Buf.Lawful.{Lawful}
use tcio.Buf.Adapters.{shown}
use tcio.Bytes.{Bytes}
use tcio.Bytes.Valid.{IsBytes}
use tcio.BytesMut.{BytesMut, bytes_mut, with_capacity_mut, from_vec}
use tcio.BytesMut.Valid.{IsMut}
use tcio.Convert.Freeze.{freeze_lem}
use tcio.Convert.{freeze}
use tcio.Transfer.{put, copy_to_bytes, take_copy_to_bytes, Copying}
use tcio.Transfer.Fill.{Poured, put-room}
use native.Mathlib.Decide.{ℕ_discrete}
use tcio.Transfer.Track.{IsMut-new, IsBuffer-none, IsBuffer-new, Tracked, Tracked-Lawful}

pub with_capacity_mut-some :
    (g : Allocator) (len : ℕ) (h : Heap)
    → 0 < len
    → len ≤ isize_max
    → with_capacity_mut g len h ≡ ok (bytes_mut (g len).at 0 (g len).cap 1) (allocate (g len) h)
unfolding with_capacity_mut from_vec
with_capacity_mut-some g len h pos small = rw (with_capacity-ok g len h pos small)

module _ {S : Type 0} {B : Buf S} {V : S → Type 0} {content : S → List ℕ} (L : Lawful B V content)
    (whole : List ℕ) (len : ℕ) where
  -- What `copy_to_bytes` gives: a handle on the bytes at the cursor, which stands behind them.
  pub record CopiedOut (r : Bytes × S) (h' : Heap) : Type 0 where
    pub view : IsBytes h' r.0 (take len whole)
    pub valid : V r.1
    pub rest : content r.1 ≡ drop len whole

  pub at_limit :
      (t : Take S)
      → len ≤ length whole
      → Tracked L whole len t
      → shown L t ≡ []
      → content t.inner ≡ drop len whole
  at_limit t le v e =
      let zero_left : t.limit ≡ 0 = omega (
        arith,
        ap (λ l. length l) e,
        length-take t.limit (content t.inner),
        ap (λ l. length l) v.place,
        length-drop (len - t.limit) whole,
        v.bound,
        le,
      ) in
      let far : len - t.limit ≡ len = omega arith in v.place ∙ ap (λ k. drop k whole) far

  module _ (g : Allocator) (k : ℕ) (h : Heap) (f : IsFreshBox k h) (le : len ≤ length whole) where
    abbrev After : BytesMut × Take S → Heap → Type 0
    After r h' =
        IsMut h' r.0 (take len whole)
        × Tracked L whole len r.1
        × (shown L r.1 ≡ [])
        × (h'.boxes ≡ h.boxes)

    frozen :
        (r : BytesMut × Take S) (h' : Heap)
        → After r h'
        → Ensures CopiedOut (and_then (freeze k r.0 h') (λ b. pure (b, r.1.inner)))
    frozen (m, t) h' (v, tr, e, boxes) =
        Ensures-bind (λ b h''. IsBytes h'' b (take len whole)) CopiedOut _ _
          (freeze_lem h' k m (take len whole) v
            (record { even = f.even; positive = f.positive; new = ap (λ b. b k) boxes ∙ f.new }))
          λ b h'' bv. record { view = bv; valid = tr.inner_valid; rest = at_limit t le tr e }

    module _ (s : S) (vs : V s) (here : content s ≡ whole) (copy : Copying (Take S)) where
      abbrev begin : Take S
      begin = record { inner = s; limit = len }

      begin-Tracked : Tracked L whole len begin
      begin-Tracked =
          let z : len - len ≡ 0 = omega arith in
          record { inner_valid = vs; bound = omega arith; place = rw z here }

      begin-shown : shown L begin ≡ take len whole
      begin-shown = ap (λ l. take len l) here

      put_empty : len ≡ 0 → Ensures After (put (take_buf B) g copy begin (bytes_mut 1 0 0 1) h)
      unfolding put
      put_empty z =
          let t : (min (B.remaining s) len == 0) ≡ true = ground arith in
          let none_left : take len whole ≡ [] = ap (λ n. take n whole) z in
          rw t (
            rw none_left (IsMut-new h 1 0 (IsBuffer-none h 1)),
            begin-Tracked,
            begin-shown ∙ none_left,
            refl,
          )

      put_filled :
          (fr : IsFresh (g len) len h)
          → 0 < len
          → Ensures After (
              put
                (take_buf B)
                g
                copy
                begin
                (bytes_mut (g len).at 0 (g len).cap 1)
                (allocate (g len) h))
      put_filled fr pos =
          let m = bytes_mut (g len).at 0 (g len).cap 1 in
          let h1 = allocate (g len) h in
          let L' = Tracked-Lawful L whole len in
          let shown_size : length (shown L begin) ≡ len =
            ap (λ l. length l) begin-shown ∙ length-take len whole ∙ omega arith in
          Ensures-mono (Poured L' h1 (g len).cap (shown L begin)) After _
            (put-room L' g copy begin m [] h1 begin-Tracked
              (IsMut-new h1 (g len).at (g len).cap (IsBuffer-new h (g len) len fr))
              (omega (arith, fr.enough)) (omega (arith, shown_size, fr.enough)))
            λ r h' p. (rw begin-shown at p.view, p.valid, p.empty, p.boxes)

      with_capacity-none : len ≡ 0 → with_capacity_mut g len h ≡ ok (bytes_mut 1 0 0 1) h
      unfolding with_capacity_mut with_capacity from_vec
      with_capacity-none z = ground arith

-- The default `copy_to_bytes` of at most 2 ^ 63 - 1 bytes on a valid cursor of a lawful buffer,
-- with an allocator that answers and a fresh address for a control block: it gives a handle on the
-- first `len` bytes to come and moves the cursor behind them, or panics if so many do not remain.
-- It calls `put`, which never calls `copy_to_bytes` again, whatever the source is: one level of the
-- recursion is enough.
pub copy_to_bytes_lem :
    {S : Type 0} {B : Buf S} {V : S → Type 0} {content : S → List ℕ} (L : Lawful B V content)
    (g : Allocator) (k fuel len : ℕ) (s : S) (h : Heap)
    → V s
    → Serves g h
    → IsFreshBox k h
    → len ≤ isize_max
    → (len ≤ length (content s)
        → Ensures (CopiedOut L (content s) len) (copy_to_bytes B g k (suc fuel) len s h))
      × (length (content s) < len → copy_to_bytes B g k (suc fuel) len s h ≡ panic)
unfolding copy_to_bytes
copy_to_bytes_lem {B = B} {content = content} L g k fuel len s h vs serves f small = (
  λ le.
      let t : leb len (B.remaining s) ≡ true = ground (arith, L.remaining_length s vs) in
      let copy = take_copy_to_bytes (copy_to_bytes B g k fuel) in
      elim (ℕ_discrete len 0) [
        | yes z ↦
            rw (t, with_capacity-none L (content s) len g k h f le s vs refl copy z)
              (Ensures-bind (After L (content s) len g k h f le) (CopiedOut L (content s) len) _ _
                (put_empty L (content s) len g k h f le s vs refl copy z)
                λ r h' p. frozen L (content s) len g k h f le r h' p)
        | no nz ↦
            let fr : IsFresh (g len) len h = serves len (omega arith) small in
            rw (t, with_capacity_mut-some g len h (omega arith) small)
              (Ensures-bind (After L (content s) len g k h f le) (CopiedOut L (content s) len) _ _
                (put_filled L (content s) len g k h f le s vs refl copy fr (omega arith))
                λ r h' p. frozen L (content s) len g k h f le r h' p)
      ],
  λ gt.
      let t : leb len (B.remaining s) ≡ false = ground (arith, L.remaining_length s vs) in
      rw t refl,
)
