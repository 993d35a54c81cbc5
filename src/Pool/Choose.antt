-- ===== src/Pool/Choose.antt =====
-- Any handle of a pool can be taken out: the order of the handles does not matter.
use tcio.Base.{ℕ, ◌≡◌, inl, inr, List, ◌∷◌, refl, arith, ◌∙◌}
use tcio.Memory.{Heap}
use tcio.Pool.{Owner, All, Pairwise, Separate, count, Listed, IsPool, Counted, IsBytes}
use tcio.Bytes.Valid.{IsBytes}
use tcio.Pool.Heir.{Separate-sym}

-- The second list is the first with the handle somewhere in it.
pub data Picks (o : Owner) : List Owner → List Owner → Type 0 where
  here : {os : List Owner} → Picks o os (o ∷ os)
  there : {o' : Owner} {os all : List Owner} → Picks o os all → Picks o (o' ∷ os) (o' ∷ all)

All-Picks :
    (P : Owner → Type 0) (o : Owner) (os all : List Owner)
    → Picks o os all
    → All P all
    → All P (o ∷ os)
All-Picks P o os _ here a = a
All-Picks P o _ _ (there {o'} {os} {all} p) (x, a) =
    let (y, b) = All-Picks P o os all p a in (y, (x, b))

count-Picks :
    (k : ℕ) (o : Owner) (os all : List Owner) → Picks o os all → count k all ≡ count k (o ∷ os)
count-Picks k o os _ here = refl
count-Picks k o _ _ (there {o'} {os} {all} p) = omega (arith, count-Picks k o os all p)

Listed-Picks :
    (h : Heap) (q c : ℕ) (o : Owner) (os all : List Owner)
    → Picks o os all
    → Listed h all q c
    → Listed h (o ∷ os) q c
Listed-Picks h q c o os _ here l = l
Listed-Picks h q c o _ _ (there {o'} {os} {all} p) (inl l) = inr (inl l)
Listed-Picks h q c o _ _ (there {o'} {os} {all} p) (inr l) =
    elim (Listed-Picks h q c o os all p l) [ inl found ↦ inl found | inr later ↦ inr (inr later) ]

Pairwise-Picks :
    (h : Heap) (o : Owner) (os all : List Owner)
    → Picks o os all
    → Pairwise h all
    → Pairwise h (o ∷ os)
Pairwise-Picks h o os _ here a = a
Pairwise-Picks h o _ _ (there {o'} {os} {all} p) (a, rest) =
    let (s, b) = All-Picks (λ c. Separate h o'.0 c.0) o os all p a in
    let (c, d) = Pairwise-Picks h o os all p rest in ((Separate-sym h o'.0 o.0 s, c), (b, d))

pub IsPool-Picks :
    (h : Heap) (o : Owner) (os all : List Owner) → Picks o os all → IsPool h all → IsPool h (o ∷ os)
IsPool-Picks h o os all p pool = record {
  views = All-Picks (λ c. IsBytes h c.0 c.1) o os all p pool.views;
  counted = λ k s box.
      let c : Counted all k s = pool.counted k s box in
      record {
        even = c.even;
        positive = c.positive;
        used = c.used;
        exact = c.exact ∙ count-Picks k o os all p;
      };
  apart = Pairwise-Picks h o os all p pool.apart;
  listed = λ q c l. ((pool.listed q c l).0, Listed-Picks h q c o os all p (pool.listed q c l).1);
}
