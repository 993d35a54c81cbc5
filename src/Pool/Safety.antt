-- ===== src/Pool/Safety.antt =====
-- Programs over src/bytes/bytes.rs as sequences of steps: handles come from slices, and any live
-- handle takes any action, in any order.
use tcio.Base.{ℕ, suc, ◌≤◌, ◌<◌, ◌≡◌, Option, none, some, List, [], ◌∷◌, arith, refl, length}
use tcio.Base.Words.{isize_max, word_mod}
use tcio.Memory.{Heap, Shared, Ensures, ok, Cmd, pure, ◌>>◌, IsFreshBox, Allocator, Serves}
use tcio.Memory.Cells.{Holds}
use tcio.Memory.Runs.{Ensures-bind}
use tcio.Bytes.{Bytes, copy_from_slice, from_static, drop_inner}
use tcio.Pool.{Owner, All, Separate, IsPool, Counted}
use tcio.Pool.Choose.{Picks, IsPool-Picks}
use tcio.Pool.Act.{Action, run, effect}
use tcio.Pool.Obey.{own, Obeys, run-effect}
use tcio.Pool.Create.{copy_from_slice-IsPool, from_static-IsPool}
use tcio.Pool.Drop.{drop_inner-IsPool}

pub record State : Type 0 where
  pub heap : Heap
  pub live : List Owner

abbrev pub state : Heap → List Owner → State
state h os = record { heap = h; live = os }

-- The lists that the handles show after an action that did not panic.
abbrev pub shown : Action → List ℕ → List (List ℕ)
shown a xs = elim (effect a xs) [ none ↦ [] | some xss ↦ xss ]

pub data Step : State → State → Type 0 where
  copied_in :
      {h h' : Heap} {os : List Owner} {b : Bytes} (k : ℕ) (g : Allocator) (xs : List ℕ)
      → IsFreshBox k h
      → Serves g h
      → length xs ≤ isize_max
      → copy_from_slice k g xs h ≡ ok b h'
      → Step (state h os) (state h' ((b, xs) ∷ os))
  lent :
      {h : Heap} {os : List Owner} (p : ℕ) (xs : List ℕ)
      → Holds h.cell p xs
      → All (λ o. Separate h (from_static p (length xs)) o.0) os
      → Step (state h os) (state h ((from_static p (length xs), xs) ∷ os))
  acted :
      {h h' : Heap} {os rest : List Owner} {bs : List Bytes} (k : ℕ) (a : Action) (o : Owner)
      → Picks o rest os
      → IsFreshBox k h
      → suc (length rest) < isize_max
      → length o.1 < word_mod
      → run k a o.0 h ≡ ok bs h'
      → Step (state h os) (state h' (own bs (shown a o.1) rest))

pub data Reach (s : State) : State → Type 0 where
  start : Reach s s
  next : {t u : State} → Reach s t → Step t u → Reach s u

-- Nothing is allocated.
pub record Clean (h : Heap) : Type 0 where
  pub vecs : (p : ℕ) → h.vecs p ≡ none
  pub boxes : (k : ℕ) → h.boxes k ≡ none

some_none : {A B : Type 0} {x : A} {o : Option A} → o ≡ none → o ≡ some x → B
some_none e q = absurd (ground (arith, e, q))

IsPool-Clean : (h : Heap) → Clean h → IsPool h []
IsPool-Clean h c = record {
  views = tt;
  counted = λ k s e. some_none (c.boxes k) e;
  apart = tt;
  listed = λ p n e. some_none (c.vecs p) e;
}

-- With no handle left nothing is allocated.
Clean-IsPool : (h : Heap) → IsPool h [] → Clean h
Clean-IsPool h pool = record {
  vecs = λ p. by_vec p (h.vecs p) refl;
  boxes = λ k. by_box k (h.boxes k) refl;
}
  where
    by_vec : (p : ℕ) (o : Option ℕ) → h.vecs p ≡ o → h.vecs p ≡ none
    by_vec p none e = e
    by_vec p (some c) e = absurd ((pool.listed p c e).1)

    by_box : (k : ℕ) (o : Option Shared) → h.boxes k ≡ o → h.boxes k ≡ none
    by_box k none e = e
    by_box k (some s) e =
        let c : Counted [] k s = pool.counted k s e in absurd (omega (arith, c.used, c.exact))

Leaves-shown :
    (os : List Owner) (o : Option (List (List ℕ))) (bs : List Bytes) (h' : Heap)
    → Obeys os o (ok bs h')
    → IsPool h' (own bs (elim o [ none ↦ [] | some xss ↦ xss ]) os)
Leaves-shown os none bs h' e = absurd (ground (arith, e))
Leaves-shown os (some xss) bs h' l = l.1

Step-IsPool : (s t : State) → Step s t → IsPool s.heap s.live → IsPool t.heap t.live
Step-IsPool s t (copied_in {h} {h'} {os} {b} k g xs f serves le e) pool =
    rw e at (copy_from_slice-IsPool h k g xs os pool f serves le)
Step-IsPool s t (lent {h} {os} p xs holds apart) pool =
    from_static-IsPool h p xs os pool holds apart
Step-IsPool s t (acted {h} {h'} {os} {rest} {bs} k a o picks f few fits e) pool =
    Leaves-shown rest (effect a o.1) bs h'
      (rw e at (run-effect h k a o.0 o.1 rest (IsPool-Picks h o rest os picks pool) f few fits))

-- In every state that a program reaches from a heap with nothing allocated, each handle is valid
-- and shows its bytes, each control block counts its handles, two handles share memory only if they
-- have one control block or both are on static memory, and each buffer is kept by a handle.
pub Reach-IsPool : (h : Heap) (s : State) → Clean h → Reach (state h []) s → IsPool s.heap s.live
Reach-IsPool h s c start = IsPool-Clean h c
Reach-IsPool h s c (next {t} {u} r step) = Step-IsPool t u step (Reach-IsPool h t c r)

-- A program from a heap with nothing allocated that has dropped every handle leaks nothing: no
-- buffer and no control block is allocated.
pub Reach-Clean : (h h' : Heap) → Clean h → Reach (state h []) (state h' []) → Clean h'
Reach-Clean h h' c r = Clean-IsPool h' (Reach-IsPool h (state h' []) c r)

-- In every state that a program reaches from a heap with nothing allocated, any action on any live
-- handle, with the views below 2 ^ 64 bytes, fewer than 2 ^ 63 - 2 other handles and a control
-- block to be had, runs as its effect on lists says: no use after free, no double free, no abort.
pub Reach-effect :
    (h : Heap) (s : State) (k : ℕ) (a : Action) (o : Owner) (rest : List Owner)
    → Clean h
    → Reach (state h []) s
    → Picks o rest s.live
    → IsFreshBox k s.heap
    → suc (length rest) < isize_max
    → length o.1 < word_mod
    → Obeys rest (effect a o.1) (run k a o.0 s.heap)
Reach-effect h s k a o rest c r picks f few fits =
    run-effect s.heap k a o.0 o.1 rest
      (IsPool-Picks s.heap o rest s.live picks (Reach-IsPool h s c r)) f few fits

-- The end of a scope that holds the handles.
pub drop_all : List Owner → Cmd (Unit {0})
drop_all [] = pure tt
drop_all (o ∷ os) = do drop_inner o.0; drop_all os

-- Dropping every handle of a pool of fewer than 2 ^ 63 - 1 handles ends, without a fault, in a heap
-- with nothing allocated.
pub drop_all-Clean :
    (h : Heap) (os : List Owner)
    → IsPool h os
    → length os < isize_max
    → Ensures (λ _ h'. Clean h') (drop_all os h)
unfolding drop_all
drop_all-Clean h [] pool few = Clean-IsPool h pool
drop_all-Clean h (o ∷ os) pool few =
    Ensures-bind (λ _ h'. IsPool h' os) (λ _ h'. Clean h') _ _
      (drop_inner-IsPool h o.0 o.1 os pool (omega arith))
      λ _ h' p. drop_all-Clean h' os p (omega arith)
