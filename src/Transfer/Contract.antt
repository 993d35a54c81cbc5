-- ===== src/Transfer/Contract.antt =====
-- What the `copy_to_bytes` of src/bytes/buf.rs and its overrides have to do on a cursor.
use tcio.Base.{
  ℕ, ◌≤◌, ◌<◌, ◌≡◌, refl, List, length, take, arith, true, false, leb, length-take, suc,
}
use tcio.Base.Words.{isize_max}
use tcio.Memory.{Heap, Ensures, panic, Allocator, Serves, IsFreshBox}
use tcio.Memory.Runs.{Ensures-bind}
use tcio.Buf.{Buf}
use tcio.Buf.Lawful.{Lawful}
use tcio.Buf.Copy.{slice-Lawful}
use tcio.Convert.FromVec.{copy_from_slice_lem}
use tcio.Bytes.Valid.{IsBytes}
use tcio.Transfer.{Copying, slice_copy_to_bytes, copy_to_bytes}
use tcio.Transfer.Copy.{CopiedOut, copy_to_bytes_lem}

-- What `copy_to_bytes` of a part is asked to do on a cursor.
pub record CopiesOut {S : Type 0} {B : Buf S} {V : S → Type 0} {content : S → List ℕ}
    (L : Lawful B V content) (copy : Copying S) (s : S) (h : Heap) : Type 0 where
  pub out : (n : ℕ) → n ≤ length (content s) → Ensures (CopiedOut L (content s) n) (copy n s h)
  pub short : (n : ℕ) → length (content s) < n → copy n s h ≡ panic

-- The default does so where what remains fits an allocation.
pub copy_to_bytes-CopiesOut :
    {S : Type 0} {B : Buf S} {V : S → Type 0} {content : S → List ℕ} (L : Lawful B V content)
    (g : Allocator) (k fuel : ℕ) (s : S) (h : Heap)
    → V s
    → Serves g h
    → IsFreshBox k h
    → length (content s) ≤ isize_max
    → CopiesOut L (copy_to_bytes B g k (suc fuel)) s h
unfolding copy_to_bytes
copy_to_bytes-CopiesOut {B = B} L g k fuel s h v serves f small = record {
  out = λ n le. (copy_to_bytes_lem L g k fuel n s h v serves f (omega arith)).0 le;
  short = λ n gt.
      let t : leb n (B.remaining s) ≡ false = ground (arith, L.remaining_length s v) in rw t refl;
}

-- The override of a slice does so too.
pub slice_copy_to_bytes-CopiesOut :
    (g : Allocator) (k : ℕ) (s : List ℕ) (h : Heap)
    → Serves g h
    → IsFreshBox k h
    → length s ≤ isize_max
    → CopiesOut slice-Lawful (slice_copy_to_bytes g k) s h
unfolding slice_copy_to_bytes
slice_copy_to_bytes-CopiesOut g k s h serves f small = record {
  out = λ n le.
      let t : leb n (length s) ≡ true = ground arith in
      rw t (
        Ensures-bind (λ b h'. IsBytes h' b (take n s)) (CopiedOut slice-Lawful s n) _ _
          (copy_from_slice_lem h k g (take n s) f serves (omega (arith, length-take n s)))
          λ b h' v. record { view = v; valid = tt; rest = refl });
  short = λ n gt. let t : leb n (length s) ≡ false = ground arith in rw t refl;
}
