-- ===== src/Memory.antt =====
-- What src/bytes relies on below it: addresses, cells, the allocations of `Vec<u8>` and
-- `Box<Shared>`, and runs that may panic, abort or meet undefined behaviour.
pub mod Cells
pub mod Runs
pub mod Fresh
use tcio.Base.{
  ℕ, zero, suc, ◌+◌, ◌-◌, ◌*◌, ◌%◌, ◌≤◌, ◌<◌, ◌≡◌, ◌≢◌, ◌⊎◌, Bool, true, false, ◌&&◌, ◌||◌, Option,
  none, some, List, [], ◌∷◌, ltb, leb, ◌==◌, if◌then◌else◌, length, and_then as bind,
}
use tcio.Base.Words.{isize_max}

-- A cell outside every buffer, one that a buffer holds but nobody wrote, and a byte.
pub data Cell : Type 0 where
  unmapped uninit : Cell
  byte : ℕ → Cell

abbrev pub Cells : Type 0
Cells = ℕ → Cell

-- The control block of src/bytes/shared.rs.
pub record Shared : Type 0 where
  pub ref_count : ℕ
  pub ptr : ℕ
  pub cap : ℕ

-- `vecs` gives the capacity of each live buffer by its first address, `boxes` each live control
-- block by its address.
pub record Heap : Type 0 where
  pub cell : Cells
  pub vecs : ℕ → Option ℕ
  pub boxes : ℕ → Option Shared

-- `fault` is undefined behaviour: a read of a cell that holds no byte, a write outside every
-- buffer, a dangling control block, a buffer given back twice.
pub data Run (A : Type 0) : Type 0 where
  ok : A → Heap → Run A
  panic abort fault : Run A

abbrev pub Cmd : Type 0 → Type 0
Cmd A = Heap → Run A

abbrev pub pure : {A : Type 0} → A → Cmd A
pure a h = ok a h

module _ {A B : Type 0} where
  abbrev pub and_then : Run A → (A → Cmd B) → Run B
  and_then (ok a h) k = k a h
  and_then panic k = panic
  and_then abort k = abort
  and_then fault k = fault

  infixl 5 ◌>>=◌ ◌>>◌
  abbrev pub ◌>>=◌ : Cmd A → (A → Cmd B) → Cmd B
  ◌>>=◌ m k h = and_then (m h) k

  abbrev pub ◌>>◌ : Cmd A → Cmd B → Cmd B
  m >> n = m >>= λ _. n

abbrev pub assert : Bool → Cmd (Unit {0})
assert true h = ok tt h
assert false h = panic

-- The run ends well, in a result and a heap with `P`.
abbrev pub Ensures : {A : Type 0} → (A → Heap → Type 0) → Run A → Type 0
Ensures P (ok a h) = P a h
Ensures P panic = ⊥
Ensures P abort = ⊥
Ensures P fault = ⊥

abbrev pub update : {A : Type 0} → (ℕ → Option A) → ℕ → Option A → ℕ → Option A
update f p v q = if q == p then v else f q

-- The cells of `n` addresses from `p` on become `c`.
abbrev pub fill : Cells → ℕ → ℕ → Cell → Cells
fill m p n c a = if leb p a && ltb a (p + n) then c else m a

-- The list stands from `p` on.
abbrev pub over : Cells → ℕ → List ℕ → Cells
over m p [] a = m a
over m p (x ∷ xs) a = if a == p then byte x else over m (suc p) xs a

abbrev is_mapped : Cell → Bool
is_mapped unmapped = false
is_mapped uninit = true
is_mapped (byte x) = true

unfoldable pub all_mapped : Cells → ℕ → ℕ → Bool
all_mapped m p zero = true
all_mapped m p (suc n) = is_mapped (m p) && all_mapped m (suc p) n

pub read_cells : Cells → ℕ → ℕ → Option (List ℕ)
read_cells m p zero = some []
read_cells m p (suc n) = elim (m p) [
  | byte x ↦ bind (read_cells m (suc p) n) (λ xs. some (x ∷ xs))
  | _ ↦ none
]

-- The bytes of `slice::from_raw_parts(p, n)`.
pub load_slice : ℕ → ℕ → Cmd (List ℕ)
unfolding read_cells
load_slice p n h = elim (read_cells h.cell p n) [ none ↦ fault | some xs ↦ ok xs h ]

unfoldable pub store_slice : ℕ → List ℕ → Cmd (Unit {0})
unfolding all_mapped
store_slice p xs h =
    if all_mapped h.cell p (length xs) then ok tt (record h { cell = over h.cell p xs }) else fault

-- `ptr::copy`
pub copy : ℕ → ℕ → ℕ → Cmd (Unit {0})
copy src dst n = do xs ← load_slice src n; store_slice dst xs

-- `ptr::copy_nonoverlapping`
pub copy_nonoverlapping : ℕ → ℕ → ℕ → Cmd (Unit {0})
copy_nonoverlapping src dst n =
    if leb (src + n) dst || leb (dst + n) src then copy src dst n else λ _. fault

-- `Vec<u8>`
pub record Vec : Type 0 where
  pub ptr : ℕ
  pub len : ℕ
  pub cap : ℕ

-- What the allocator returns for one request: an address, and a capacity, which may be larger than
-- the one asked for. An allocator is a function of the requested capacity; it may answer otherwise
-- at every call.
pub record Grant : Type 0 where
  pub at : ℕ
  pub cap : ℕ

abbrev pub Allocator : Type 0
Allocator = ℕ → Grant

-- The address of an empty buffer, `NonNull::<u8>::dangling()`.
abbrev pub dangling : ℕ
dangling = 1

abbrev pub allocate : Grant → Heap → Heap
allocate g h = record h {
  cell = fill h.cell g.at g.cap uninit;
  vecs = update h.vecs g.at (some g.cap);
}

abbrev pub deallocate : ℕ → ℕ → Heap → Heap
deallocate p c h = record h { cell = fill h.cell p c unmapped; vecs = update h.vecs p none }

-- `Vec::with_capacity`
unfoldable pub with_capacity : Allocator → ℕ → Cmd Vec
with_capacity g n h =
    if n == 0
    then ok (record { ptr = dangling; len = 0; cap = 0 }) h
    else if ltb isize_max n
    then panic
    else ok (record { ptr = (g n).at; len = 0; cap = (g n).cap }) (allocate (g n) h)

-- `<[u8]>::to_vec`
unfoldable pub to_vec : Allocator → List ℕ → Cmd Vec
to_vec g xs = do
  v ← with_capacity g (length xs)
  store_slice v.ptr xs
  pure (record v { len = length xs })

-- `drop` of a `Vec<u8>`
unfoldable pub drop_vec : Vec → Cmd (Unit {0})
drop_vec v h = if v.cap == 0 then ok tt h else elim (h.vecs v.ptr) [
  | none ↦ fault
  | some c ↦ if c == v.cap then ok tt (deallocate v.ptr v.cap h) else fault
]

unfoldable pub load_box : ℕ → Cmd Shared
load_box d h = elim (h.boxes d) [ none ↦ fault | some s ↦ ok s h ]

abbrev pub set_box : ℕ → Option Shared → Heap → Heap
set_box d s h = record h { boxes = update h.boxes d s }

-- The answer to a request for `n` bytes is a buffer that large, apart from all others.
pub record IsFresh (g : Grant) (n : ℕ) (h : Heap) : Type 0 where
  pub enough : n ≤ g.cap
  pub bounded : g.cap ≤ isize_max
  pub unused : (a : ℕ) → g.at ≤ a → a < g.at + g.cap → h.cell a ≡ unmapped
  pub new : h.vecs g.at ≡ none

-- Any request of a lawful size can be served.
abbrev pub Serves : Allocator → Heap → Type 0
Serves g h = (n : ℕ) → 0 < n → n ≤ isize_max → IsFresh (g n) n h

-- The address for a control block is even, not null and not in use.
pub record IsFreshBox (k : ℕ) (h : Heap) : Type 0 where
  pub even : k % 2 ≡ 0
  pub positive : 0 < k
  pub new : h.boxes k ≡ none
