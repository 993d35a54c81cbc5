-- ===== src/Memory/Cells.antt =====
-- Cells that are read, written and kept.
use tcio.Base.{
  ℕ, zero, suc, ◌+◌, ◌≤◌, ◌<◌, ◌≡◌, ◌≢◌, refl, true, some, List, [], ◌∷◌, ◌++◌, length, take, drop,
  arith, ◌∙◌,
}
use tcio.Memory.{unmapped, byte, Cells, over, all_mapped, read_cells}

-- From `p` on stand the bytes of the list.
abbrev pub Holds : Cells → ℕ → List ℕ → Type 0
Holds m p [] = Unit {0}
Holds m p (x ∷ xs) = (m p ≡ byte x) × Holds m (suc p) xs

abbrev pub Mapped : Cells → ℕ → ℕ → Type 0
Mapped m p n = (a : ℕ) → p ≤ a → a < p + n → m a ≢ unmapped

-- The two agree on `n` addresses from `p` on.
abbrev pub Agree : Cells → Cells → ℕ → ℕ → Type 0
Agree m m' p n = (a : ℕ) → p ≤ a → a < p + n → m' a ≡ m a

pub Holds-Agree :
    (m m' : Cells) (p : ℕ) (xs : List ℕ) → Agree m m' p (length xs) → Holds m p xs → Holds m' p xs
Holds-Agree m m' p [] same h = tt
Holds-Agree m m' p (x ∷ xs) same (e, h) = (
  same p (omega arith) (omega arith) ∙ e,
  Holds-Agree m m' (suc p) xs (λ a lo hi. same a (omega arith) (omega arith)) h,
)

pub Holds-append :
    (m : Cells) (p : ℕ) (xs ys : List ℕ)
    → Holds m p xs
    → Holds m (p + length xs) ys
    → Holds m p (xs ++ ys)
Holds-append m p [] ys hx hy = let e : p + 0 ≡ p = omega arith in rw e at hy
Holds-append m p (x ∷ xs) ys (e, hx) hy =
    let q : p + suc (length xs) ≡ suc p + length xs = omega arith in
    (e, Holds-append m (suc p) xs ys hx (rw q at hy))

pub Holds-take : (m : Cells) (p n : ℕ) (xs : List ℕ) → Holds m p xs → Holds m p (take n xs)
Holds-take m p zero xs h = tt
Holds-take m p (suc n) [] h = tt
Holds-take m p (suc n) (x ∷ xs) (e, h) = (e, Holds-take m (suc p) n xs h)

pub Holds-drop :
    (m : Cells) (p n : ℕ) (xs : List ℕ) → n ≤ length xs → Holds m p xs → Holds m (p + n) (drop n xs)
Holds-drop m p zero xs le h = let e : p + 0 ≡ p = omega arith in rw e h
Holds-drop m p (suc n) [] le h = tt
Holds-drop m p (suc n) (x ∷ xs) le (e, h) =
    let q : p + suc n ≡ suc p + n = omega arith in rw q (Holds-drop m (suc p) n xs (omega arith) h)

pub over-below : (m : Cells) (p a : ℕ) (xs : List ℕ) → a < p → over m p xs a ≡ m a
over-below m p a [] h = refl
over-below m p a (x ∷ xs) h = ground (arith, over-below m (suc p) a xs (omega arith))

pub over-above : (m : Cells) (p a : ℕ) (xs : List ℕ) → p + length xs ≤ a → over m p xs a ≡ m a
over-above m p a [] h = refl
over-above m p a (x ∷ xs) h = ground (arith, over-above m (suc p) a xs (omega arith))

pub Holds-over : (m : Cells) (p : ℕ) (xs : List ℕ) → Holds (over m p xs) p xs
Holds-over m p [] = tt
Holds-over m p (x ∷ xs) = (
  ground arith,
  Holds-Agree (over m (suc p) xs) (over m p (x ∷ xs)) (suc p) xs (λ a lo hi. ground arith)
      (Holds-over m (suc p) xs),
)

pub over-mapped : (m : Cells) (p a : ℕ) (xs : List ℕ) → m a ≢ unmapped → over m p xs a ≢ unmapped
over-mapped m p a [] h = h
over-mapped m p a (x ∷ xs) h = ground (arith, over-mapped m (suc p) a xs h)

pub read_cells-Holds :
    (m : Cells) (p : ℕ) (xs : List ℕ) → Holds m p xs → read_cells m p (length xs) ≡ some xs
unfolding read_cells
read_cells-Holds m p [] h = refl
read_cells-Holds m p (x ∷ xs) (e, h) = ground (arith, read_cells-Holds m (suc p) xs h)

pub all_mapped-Mapped : (m : Cells) (p n : ℕ) → Mapped m p n → all_mapped m p n ≡ true
unfolding all_mapped
all_mapped-Mapped m p zero h = refl
all_mapped-Mapped m p (suc n) h = ground (
  arith,
  h p (omega arith) (omega arith),
  all_mapped-Mapped m (suc p) n (λ a lo hi. h a (omega arith) (omega arith)),
)

pub Holds-Mapped : (m : Cells) (p : ℕ) (xs : List ℕ) → Holds m p xs → Mapped m p (length xs)
Holds-Mapped m p [] h a lo hi = absurd (omega arith)
Holds-Mapped m p (x ∷ xs) (e, h) a lo hi =
    ground (arith, λ (l : suc p ≤ a). Holds-Mapped m (suc p) xs h a l (omega arith))
