-- ===== src/Convert/Vectors.antt =====
-- Byte vectors in the heap: `to_vec` of the standard library as src/bytes/bytes.rs uses it.
use tcio.Base.{ℕ, ◌+◌, ◌≤◌, ◌<◌, ◌≡◌, refl, inl, inr, List, length, arith, [], ◌∷◌, Option}
use tcio.Base.Words.{isize_max}
use tcio.Memory.{
  Heap, Ensures, Vec, Allocator, Serves, to_vec, with_capacity, store_slice, ok, set_box, Shared,
  IsFresh, allocate, Grant, unmapped,
}
use tcio.Memory.Cells.{Holds, Holds-over}
use tcio.Memory.Runs.{store_slice-ok}
use tcio.Memory.Fresh.{filled, filled-Mapped, with_capacity-ok}
use tcio.Shared.Backed.{IsBuffer}
use tcio.Shared.Keep.{Keeps, Keeps-refl, Keeps-filled}

-- The vector owns a live buffer and its elements are the list.
pub record IsVec (h : Heap) (v : Vec) (xs : List ℕ) : Type 0 where
  pub size : length xs ≡ v.len
  pub fit : v.len ≤ v.cap
  pub holds : Holds h.cell v.ptr xs
  pub buffer : IsBuffer h v.ptr v.cap

pub IsVec-empty : (h : Heap) → IsVec h (record { ptr = 1; len = 0; cap = 0 }) []
IsVec-empty h = record {
  size = refl;
  fit = omega arith;
  holds = tt;
  buffer = record {
    mapped = λ a lo hi. absurd (omega arith);
    live = inl refl;
    small = omega arith;
  };
}

pub to_vec-empty :
    (g : Allocator) (h : Heap) → to_vec g [] h ≡ ok (record { ptr = 1; len = 0; cap = 0 }) h
unfolding to_vec with_capacity store_slice
to_vec-empty g h = refl

pub to_vec-filled :
    (g : Allocator) (n : ℕ) (xs : List ℕ) (h : Heap)
    → length xs ≡ n
    → 0 < n
    → n ≤ isize_max
    → (f : IsFresh (g n) n h)
    → to_vec g xs h
      ≡ ok (record { ptr = (g n).at; len = n; cap = (g n).cap }) (filled h (g n) n f xs)
unfolding to_vec
to_vec-filled g n xs h e pos le f = rw (
  e,
  with_capacity-ok g n h pos le,
  store_slice-ok (allocate (g n) h) (g n).at xs (λ a lo hi. ground (arith, f.enough)),
)

pub IsVec-filled :
    (g : Grant) (n : ℕ) (xs : List ℕ) (h : Heap)
    → length xs ≡ n
    → (f : IsFresh g n h)
    → IsVec (filled h g n f xs) (record { ptr = g.at; len = n; cap = g.cap }) xs
IsVec-filled g n xs h e f = record {
  size = e;
  fit = f.enough;
  holds = Holds-over (allocate g h).cell g.at xs;
  buffer = record {
    mapped = filled-Mapped h g n f xs;
    live = inr (ground arith);
    small = f.bounded;
  };
}

-- A vector that owns memory nobody used before; everything else is as it was.
pub record Copied (h : Heap) (xs : List ℕ) (v : Vec) (h' : Heap) : Type 0 where
  pub vec : IsVec h' v xs
  pub unused : (a : ℕ) → v.ptr ≤ a → a < v.ptr + v.cap → h.cell a ≡ unmapped
  pub keeps : Keeps h h'
  pub boxes : h'.boxes ≡ h.boxes

-- A copy of a slice is a new vector with its bytes.
pub to_vec_lem :
    (g : Allocator) (xs : List ℕ) (h : Heap)
    → Serves g h
    → length xs ≤ isize_max
    → Ensures (Copied h xs) (to_vec g xs h)
to_vec_lem g [] h serves le = rw (to_vec-empty g h) (record {
  vec = IsVec-empty h;
  unused = λ a lo hi. absurd (omega arith);
  keeps = Keeps-refl h;
  boxes = refl;
})
to_vec_lem g (x ∷ xs) h serves le =
    let f = serves (length (x ∷ xs)) (omega arith) le in
    rw (to_vec-filled g (length (x ∷ xs)) (x ∷ xs) h refl (omega arith) le f) (record {
      vec = IsVec-filled (g (length (x ∷ xs))) (length (x ∷ xs)) (x ∷ xs) h refl f;
      unused = f.unused;
      keeps = Keeps-filled h (g (length (x ∷ xs))) (length (x ∷ xs)) f (x ∷ xs) (omega arith);
      boxes = refl;
    })

-- What the allocator can serve does not depend on the control blocks.
pub Serves-set_box :
    (g : Allocator) (h : Heap) (k : ℕ) (s : Option Shared) → Serves g h → Serves g (set_box k s h)
Serves-set_box g h k s serves n pos le =
    let f = serves n pos le in
    record { enough = f.enough; bounded = f.bounded; unused = f.unused; new = f.new }
