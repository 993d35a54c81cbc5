-- ===== src/Transfer/Overrides.antt =====
-- `Bytes` and `BytesMut` as sources: what they override in src/bytes/buf.rs, and their `Read`.
use tcio.Base.{
  ℕ, ◌≤◌, ◌<◌, ◌≡◌, refl, min, List, length, take, drop, arith, true, false, leb, some, none,
  Option, length-take,
}
use tcio.Memory.{abort, fault, Heap, Ensures, ok, panic, IsFreshBox, and_then, Run}
use tcio.Memory.Cells.{Holds-take}
use tcio.Memory.Runs.{Ensures-bind, load_slice-ok}
use tcio.Shared.Backed.{Unsaturated}
use tcio.Bytes
use tcio.Bytes.{Bytes}
use tcio.Bytes.Valid.{IsBytes}
use tcio.Bytes.Advance.{Advanced, advance_lem}
use tcio.Bytes.Split.{SplitTo, try_split_to_lem}
use tcio.BytesMut
use tcio.BytesMut.{BytesMut}
use tcio.BytesMut.Valid.{IsMut}
use tcio.BytesMut.Advance.{advance_unchecked_lem}
use tcio.Transfer.{bytes_copy_to_slice, mut_copy_to_slice, bytes_copy_to_bytes, read}

-- The slice has the first `n` bytes of the view, the handle the others, and nothing in memory has
-- changed.
abbrev Took : Heap → List ℕ → ℕ → Bytes × List ℕ → Heap → Type 0
Took h xs n r h' = IsBytes h r.0 (drop n xs) × (r.1 ≡ take n xs) × (h' ≡ h)

abbrev TookMut : Heap → List ℕ → ℕ → BytesMut × List ℕ → Heap → Type 0
TookMut h xs n r h' = IsMut h r.0 (drop n xs) × (r.1 ≡ take n xs) × (h' ≡ h)

bytes_copy_to_slice_lem :
    (h : Heap) (b : Bytes) (xs : List ℕ) (n : ℕ)
    → IsBytes h b xs
    → (n ≤ b.len → Ensures (Took h xs n) (bytes_copy_to_slice n b h))
      × (b.len < n → bytes_copy_to_slice n b h ≡ panic)
unfolding bytes_copy_to_slice Bytes.as_slice
bytes_copy_to_slice_lem h b xs n v = (
  λ le.
      let t : leb n (length xs) ≡ true = ground (arith, v.size) in
      rw (load_slice-ok h b.ptr b.len xs v.size v.holds, t)
        (Ensures-bind (Advanced h b xs n) (Took h xs n) _ _ ((advance_lem h b xs n v).0 le)
          λ b' h' a. (a.view, refl, a.same_heap)),
  λ gt.
      let t : leb n (length xs) ≡ false = ground (arith, v.size) in
      rw (load_slice-ok h b.ptr b.len xs v.size v.holds, t) refl,
)

mut_copy_to_slice_lem :
    (h : Heap) (m : BytesMut) (xs : List ℕ) (n : ℕ)
    → IsMut h m xs
    → (n ≤ m.len → Ensures (TookMut h xs n) (mut_copy_to_slice n m h))
      × (m.len < n → mut_copy_to_slice n m h ≡ panic)
unfolding mut_copy_to_slice BytesMut.as_slice BytesMut.advance
mut_copy_to_slice_lem h m xs n v = (
  λ le.
      let t : leb n (length xs) ≡ true = ground (arith, v.size) in
      let t' : leb n m.len ≡ true = ground arith in
      rw (load_slice-ok h m.ptr m.len xs v.size v.holds, t, t')
        (Ensures-bind (BytesMut.Advance.Advanced h m xs n) (TookMut h xs n) _ _
          (advance_unchecked_lem h m xs n (omega (arith, v.fit)) v)
          λ m' h' a. (a.view, refl, a.same_heap)),
  λ gt.
      let t : leb n (length xs) ≡ false = ground (arith, v.size) in
      rw (load_slice-ok h m.ptr m.len xs v.size v.holds, t) refl,
)

-- `read` of `Bytes` takes what there is, up to `n` bytes.
read_lem :
    (h : Heap) (b : Bytes) (xs : List ℕ) (n : ℕ)
    → IsBytes h b xs
    → Ensures (Took h xs (min n b.len)) (Bytes.read n b h)
unfolding Bytes.read
read_lem h b xs n v =
    let size : length (take (min n b.len) xs) ≡ min n b.len =
      omega (arith, length-take (min n b.len) xs, v.size) in
    rw
      (load_slice-ok h b.ptr (min n b.len) (take (min n b.len) xs) size
        (Holds-take h.cell b.ptr (min n b.len) xs v.holds))
      (Ensures-bind (Advanced h b xs (min n b.len)) (Took h xs (min n b.len)) _ _
        ((advance_lem h b xs (min n b.len) v).0 (omega arith))
        λ b' h' a. (a.view, refl, a.same_heap))

-- `read` of `BytesMut` takes what is written, up to `n` bytes.
read_mut_lem :
    (h : Heap) (m : BytesMut) (xs : List ℕ) (n : ℕ)
    → IsMut h m xs
    → Ensures (TookMut h xs (min n m.len)) (read n m h)
unfolding read BytesMut.advance
read_mut_lem h m xs n v =
    let size : length (take (min n m.len) xs) ≡ min n m.len =
      omega (arith, length-take (min n m.len) xs, v.size) in
    let t : leb (min n m.len) m.len ≡ true = ground arith in
    rw
      (
        load_slice-ok h m.ptr (min n m.len) (take (min n m.len) xs) size
            (Holds-take h.cell m.ptr (min n m.len) xs v.holds),
        t,
      )
      (Ensures-bind (BytesMut.Advance.Advanced h m xs (min n m.len)) (TookMut h xs (min n m.len)) _
        _ (advance_unchecked_lem h m xs (min n m.len) (omega (arith, v.fit)) v)
        λ m' h' a. (a.view, refl, a.same_heap))

-- The front of the view goes out in a handle of its own, in the same buffer.
abbrev Cut : List ℕ → ℕ → Bytes × Bytes → Heap → Type 0
Cut xs n r h' = IsBytes h' r.0 (take n xs) × IsBytes h' r.1 (drop n xs)

split_out :
    (h : Heap) (b : Bytes) (xs : List ℕ) (n : ℕ) (r : Bytes × Option Bytes) (h' : Heap)
    → n ≤ b.len
    → SplitTo h b xs n r h'
    → Ensures (λ p h''. Cut xs n (p.1, p.0) h'') (Bytes.expect r h')
split_out h b xs n (me, none) h' le (gt, _, _) = absurd (omega arith)
split_out h b xs n (me, some front) h' le (_, parted) = (parted.left_view, parted.right_view)

split_past :
    (h : Heap) (b : Bytes) (xs : List ℕ) (n : ℕ)
    → b.len < n
    → (m : Run (Bytes × Option Bytes)) → Ensures (SplitTo h b xs n) m
    → and_then m Bytes.expect ≡ panic
split_past h b xs n gt (ok (me, none) h') s = refl
split_past h b xs n gt (ok (me, some front) h') (le, _) = absurd (omega arith)
split_past h b xs n gt panic s = absurd s
split_past h b xs n gt abort s = absurd s
split_past h b xs n gt fault s = absurd s

bytes_copy_to_bytes_lem :
    (h : Heap) (k : ℕ) (b : Bytes) (xs : List ℕ) (n : ℕ)
    → IsBytes h b xs
    → IsFreshBox k h
    → Unsaturated h b.data_word
    → (n ≤ b.len → Ensures (Cut xs n) (bytes_copy_to_bytes k n b h))
      × (b.len < n → bytes_copy_to_bytes k n b h ≡ panic)
unfolding bytes_copy_to_bytes Bytes.split_to
bytes_copy_to_bytes_lem h k b xs n v f u = (
  λ le.
      Ensures-bind (λ p h'. Cut xs n (p.1, p.0) h') (Cut xs n) _ _
        (Ensures-bind (SplitTo h b xs n) (λ p h'. Cut xs n (p.1, p.0) h') _ _
          (try_split_to_lem h k b xs n v f u) (λ r h' s. split_out h b xs n r h' le s))
        λ p h' c. c,
  λ gt.
      rw (split_past h b xs n gt (Bytes.try_split_to k n b h) (try_split_to_lem h k b xs n v f u))
        refl,
)
