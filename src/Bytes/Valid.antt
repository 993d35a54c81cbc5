-- ===== src/Bytes/Valid.antt =====
-- Valid handles of src/bytes/bytes.rs, and what they show.
use tcio.Base.{ℕ, ◌≡◌, List, length}
use tcio.Memory.{Heap}
use tcio.Memory.Cells.{Holds, Holds-Agree, Holds-Mapped}
use tcio.Shared.Backed.{Backed}
use tcio.Shared.Keep.{Keeps}
use tcio.Bytes.{Bytes}

-- A handle on static memory has the null word.
pub data Standing (h : Heap) (b : Bytes) : Type 0 where
  static : b.data_word ≡ 0 → Standing h b
  backed : Backed h b.data_word b.ptr b.len → Standing h b

-- The handle is valid in the heap, and its view is the list.
pub record IsBytes (h : Heap) (b : Bytes) (xs : List ℕ) : Type 0 where
  pub size : length xs ≡ b.len
  pub holds : Holds h.cell b.ptr xs
  pub standing : Standing h b

Standing-Keeps : (h h' : Heap) (b : Bytes) → Keeps h h' → Standing h b → Standing h' b
Standing-Keeps h h' b k (static e) = static e
Standing-Keeps h h' b k (backed v) = backed (k.backing b.data_word b.ptr b.len v)

-- Every view outlives a step that keeps what is backed.
pub IsBytes-Keeps :
    (h h' : Heap) (b : Bytes) (xs : List ℕ) → Keeps h h' → IsBytes h b xs → IsBytes h' b xs
IsBytes-Keeps h h' b xs k v = record {
  size = v.size;
  holds =
      Holds-Agree h.cell h'.cell b.ptr xs
        (λ a lo hi. k.cells a (Holds-Mapped h.cell b.ptr xs v.holds a lo hi)) v.holds;
  standing = Standing-Keeps h h' b k v.standing;
}
