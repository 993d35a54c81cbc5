-- ===== src/Transfer/Room.antt =====
-- `extend_from_slice` and `reserve` in src/bytes/bytes_mut.rs where there is room.
use tcio.Base.{ℕ, ◌+◌, ◌-◌, ◌≤◌, ◌≡◌, List, length, arith, leb, true}
use tcio.Memory.{Heap, ok, Allocator}
use tcio.Memory.Runs.{store_slice-ok}
use tcio.Shared.Backed.{Backed-Mapped}
use tcio.BytesMut.{BytesMut, reserve, extend_from_slice}
use tcio.BytesMut.Valid.{IsMut}
use tcio.BytesMut.Extend.{written}

pub reserve-room :
    (g : Allocator) (n : ℕ) (m : BytesMut) (h : Heap) → n ≤ m.cap - m.len → reserve g n m h ≡ ok m h
unfolding reserve
reserve-room g n m h room = let t : leb n (m.cap - m.len) ≡ true = ground arith in rw t

pub extend_from_slice-room :
    (g : Allocator) (ys : List ℕ) (m : BytesMut) (h : Heap) (xs : List ℕ)
    → IsMut h m xs
    → length ys ≤ m.cap - m.len
    → extend_from_slice g ys m h
      ≡ ok (record m { len = m.len + length ys }) (written h (m.ptr + m.len) ys)
unfolding extend_from_slice
extend_from_slice-room g ys m h xs v room = rw (
  reserve-room g (length ys) m h room,
  store_slice-ok h (m.ptr + m.len) ys
      (λ a lo hi. Backed-Mapped v.standing a (omega arith) (omega (arith, v.fit))),
)
