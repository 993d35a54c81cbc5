-- ===== src/BytesMut/Valid.antt =====
-- Valid handles of src/bytes/bytes_mut.rs.
use tcio.Base.{ℕ, ◌≤◌, ◌≡◌, List, length}
use tcio.Memory.{Heap}
use tcio.Memory.Cells.{Holds, Holds-Agree, Holds-Mapped}
use tcio.Shared.Backed.{Backed}
use tcio.Shared.Keep.{Keeps}
use tcio.BytesMut.{BytesMut}

-- The handle is valid in the heap, and the list is what it has written.
pub record IsMut (h : Heap) (m : BytesMut) (xs : List ℕ) : Type 0 where
  pub size : length xs ≡ m.len
  pub fit : m.len ≤ m.cap
  pub holds : Holds h.cell m.ptr xs
  pub standing : Backed h m.data_word m.ptr m.cap

pub IsMut-Keeps :
    (h h' : Heap) (m : BytesMut) (xs : List ℕ) → Keeps h h' → IsMut h m xs → IsMut h' m xs
IsMut-Keeps h h' m xs k v = record {
  size = v.size;
  fit = v.fit;
  holds =
      Holds-Agree h.cell h'.cell m.ptr xs
        (λ a lo hi. k.cells a (Holds-Mapped h.cell m.ptr xs v.holds a lo hi)) v.holds;
  standing = k.backing m.data_word m.ptr m.cap v.standing;
}
