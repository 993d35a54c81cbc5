-- ===== src/BytesMut/Extend.antt =====
-- `extend_from_slice` in src/bytes/bytes_mut.rs.
use native.Mathlib.Decide.{dec_lt, dec_le}
use tcio.Base.{
  ℕ, ◌-◌, ◌∙◌, ◌+◌, ◌*◌, ◌≤◌, ◌<◌, List, length, ◌++◌, arith, length-append, ◌≢◌, ◌⊎◌, ◌≡◌, inl,
  inr,
}
use tcio.Base.Words.{isize_max, word_mod}
use tcio.Memory.{Heap, Ensures, Allocator, Serves, over, unmapped}
use tcio.Memory.Runs.{Ensures-bind, store_slice-ok}
use tcio.Memory.Cells.{over-mapped, over-below, Holds-append, Holds-Agree, Holds-over, over-above}
use tcio.BytesMut.{BytesMut, extend_from_slice, reserve}
use tcio.BytesMut.Valid.{IsMut}
use tcio.BytesMut.Reserve.{Reserved}
use tcio.BytesMut.Room.{reserve_lem}
use tcio.Shared.Backed.{IsBuffer, Backed, owned, counted, refs, buffer_of, Backed-Mapped}

abbrev pub written : Heap → ℕ → List ℕ → Heap
written h q ys = record h { cell = over h.cell q ys }

IsBuffer-written :
    (h : Heap) (q : ℕ) (ys : List ℕ) {p c : ℕ} → IsBuffer h p c → IsBuffer (written h q ys) p c
IsBuffer-written h q ys b = record {
  mapped = λ a lo hi. over-mapped h.cell q a ys (b.mapped a lo hi);
  live = b.live;
  small = b.small;
}

Backed-written :
    (h : Heap) (q : ℕ) (ys : List ℕ) (w p n : ℕ) → Backed h w p n → Backed (written h q ys) w p n
Backed-written h q ys w p n (owned odd off b) = owned odd off (IsBuffer-written h q ys b)
Backed-written h q ys w p n (counted s even pos box rc lo hi b) =
    counted s even pos box rc lo hi (IsBuffer-written h q ys b)

-- Bytes written behind the end become part of what the handle has.
pub IsMut-written :
    (h : Heap) (m : BytesMut) (xs ys : List ℕ)
    → IsMut h m xs
    → length ys ≤ m.cap - m.len
    → IsMut (written h (m.ptr + m.len) ys) (record m { len = m.len + length ys }) (xs ++ ys)
IsMut-written h m xs ys v room = record {
  size = length-append xs ys ∙ omega (arith, v.size);
  fit = omega (arith, v.fit);
  holds =
      Holds-append (over h.cell (m.ptr + m.len) ys) m.ptr xs ys
        (Holds-Agree h.cell (over h.cell (m.ptr + m.len) ys) m.ptr xs
          (λ a lo hi. over-below h.cell (m.ptr + m.len) a ys (omega (arith, v.size))) v.holds)
        (rw (v.size) (Holds-over h.cell (m.ptr + m.len) ys));
  standing = Backed-written h (m.ptr + m.len) ys m.data_word m.ptr m.cap v.standing;
}

-- What `extend_from_slice` leaves: the handle with its new bytes and, where other handles share the
-- buffer, every mapped cell outside the spare room of the handle as it was.
pub record Extended (h : Heap) (m : BytesMut) (xs ys : List ℕ) (m' : BytesMut) (h' : Heap)
    : Type 0 where
  pub view : IsMut h' m' (xs ++ ys)
  pub apart :
      1 < refs h m.data_word
      → (a : ℕ) → h.cell a ≢ unmapped
      → ((a < m.ptr + m.len) ⊎ (m.ptr + m.cap ≤ a))
      → h'.cell a ≡ h.cell a

Extended-written :
    (h : Heap) (m : BytesMut) (xs ys : List ℕ) (m' : BytesMut) (h' : Heap)
    → Reserved h m xs (length ys) m' h'
    → Extended h m xs ys (record m' { len = m'.len + length ys }) (written h' (m'.ptr + m'.len) ys)
Extended-written h m xs ys m' h' r = record {
  view = IsMut-written h' m' xs ys r.view r.room;
  apart = λ more a mapped out. untouched a mapped out more ∙ (r.others more).cells a mapped;
}
  where
    untouched :
        (a : ℕ)
        → h.cell a ≢ unmapped
        → ((a < m.ptr + m.len) ⊎ (m.ptr + m.cap ≤ a))
        → 1 < refs h m.data_word
        → over h'.cell (m'.ptr + m'.len) ys a ≡ h'.cell a
    untouched a mapped out more = elim (dec_lt a (m'.ptr + m'.len)) [
      | yes lt ↦ over-below h'.cell (m'.ptr + m'.len) a ys lt
      | no ge ↦ elim (dec_le (m'.ptr + m'.len + length ys) a) [
        | yes up ↦ over-above h'.cell (m'.ptr + m'.len) a ys up
        | no inside ↦ elim (r.spare more a (omega arith) (omega (arith, r.room, r.view.fit))) [
          | inl free ↦ absurd (mapped free)
          | inr (lo, hi) ↦ absurd (omega (arith, out))
        ]
      ]
    ]

-- `extend_from_slice` on a valid handle, with an allocator that answers, a count below 2 ^ 64 and
-- sizes that fit a word, returns a valid handle that has the old bytes and behind them the new
-- ones. If the buffer is shared, every mapped cell outside the spare room of the handle is as it
-- was.
pub extend_from_slice_lem :
    (g : Allocator) (ys : List ℕ) (m : BytesMut) (h : Heap) (xs : List ℕ)
    → IsMut h m xs
    → Serves g h
    → refs h m.data_word < word_mod
    → (buffer_of h m.data_word m.ptr m.cap).1 * 2 ≤ isize_max
    → (buffer_of h m.data_word m.ptr m.cap).1 + length ys ≤ isize_max
    → Ensures (Extended h m xs ys) (extend_from_slice g ys m h)
unfolding extend_from_slice
extend_from_slice_lem g ys m h xs v serves count big room =
    Ensures-bind (Reserved h m xs (length ys)) (Extended h m xs ys) (reserve g (length ys) m h) _
      (reserve_lem g (length ys) m h xs v serves count big room)
      (λ m' h' r.
        rw
          (store_slice-ok h' (m'.ptr + m'.len) ys (λ a lo hi.
            Backed-Mapped r.view.standing a (omega arith) (omega (arith, r.view.fit, r.room))))
          (Extended-written h m xs ys m' h' r))
