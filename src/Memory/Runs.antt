-- ===== src/Memory/Runs.antt =====
-- Rules for runs that end well, and the steps of memory at cells of known content.
use tcio.Base.{ℕ, ◌+◌, ◌≤◌, ◌≡◌, ◌⊎◌, List, length, arith}
use tcio.Memory.{
  Heap, Run, ok, panic, abort, fault, Cmd, and_then, Ensures, load_slice, store_slice, copy,
  copy_nonoverlapping, over,
}
use tcio.Memory.Cells.{Holds, Mapped, read_cells-Holds, all_mapped-Mapped}

pub Ensures-bind :
    {A B : Type 0} (P : A → Heap → Type 0) (Q : B → Heap → Type 0) (m : Run A) (k : A → Cmd B)
    → Ensures P m
    → ((a : A) (h : Heap) → P a h → Ensures Q (k a h))
    → Ensures Q (and_then m k)
Ensures-bind P Q (ok a h) k p next = next a h p
Ensures-bind P Q panic k p next = absurd p
Ensures-bind P Q abort k p next = absurd p
Ensures-bind P Q fault k p next = absurd p

pub Ensures-mono :
    {A : Type 0} (P Q : A → Heap → Type 0) (m : Run A)
    → Ensures P m
    → ((a : A) (h : Heap) → P a h → Q a h)
    → Ensures Q m
Ensures-mono P Q (ok a h) p weaken = weaken a h p
Ensures-mono P Q panic p weaken = p
Ensures-mono P Q abort p weaken = p
Ensures-mono P Q fault p weaken = p

pub Ensures-both :
    {A : Type 0} (P Q : A → Heap → Type 0) (m : Run A)
    → Ensures P m
    → Ensures Q m
    → Ensures (λ a h. P a h × Q a h) m
Ensures-both P Q (ok a h) p q = (p, q)
Ensures-both P Q panic p q = p
Ensures-both P Q abort p q = p
Ensures-both P Q fault p q = p

pub load_slice-ok :
    (h : Heap) (p n : ℕ) (xs : List ℕ)
    → length xs ≡ n
    → Holds h.cell p xs
    → load_slice p n h ≡ ok xs h
unfolding load_slice
load_slice-ok h p n xs e v = rw (← e, read_cells-Holds h.cell p xs v, load_slice)

pub store_slice-ok :
    (h : Heap) (p : ℕ) (xs : List ℕ)
    → Mapped h.cell p (length xs)
    → store_slice p xs h ≡ ok tt (record h { cell = over h.cell p xs })
unfolding store_slice
store_slice-ok h p xs m = rw (all_mapped-Mapped h.cell p (length xs) m)

pub copy-ok :
    (h : Heap) (src dst n : ℕ) (xs : List ℕ)
    → length xs ≡ n
    → Holds h.cell src xs
    → Mapped h.cell dst n
    → copy src dst n h ≡ ok tt (record h { cell = over h.cell dst xs })
unfolding copy
copy-ok h src dst n xs e v m = rw (load_slice-ok h src n xs e v, store_slice-ok h dst xs (rw e m))

pub copy_nonoverlapping-ok :
    (h : Heap) (src dst n : ℕ) (xs : List ℕ)
    → length xs ≡ n
    → Holds h.cell src xs
    → Mapped h.cell dst n
    → ((src + n ≤ dst) ⊎ (dst + n ≤ src))
    → copy_nonoverlapping src dst n h ≡ ok tt (record h { cell = over h.cell dst xs })
unfolding copy_nonoverlapping
copy_nonoverlapping-ok h src dst n xs e v m apart = ground (arith, copy-ok h src dst n xs e v m)
