-- ===== src/Shared/Keep.antt =====
-- Steps on control blocks that leave every handle as it was.
use tcio.Base.{
  ℕ, ◌+◌, ◌<◌, ◌≡◌, ◌≢◌, ◌⊎◌, refl, some, none, arith, inl, inr, List, length, ◌∙◌, sym, ◌/◌, ◌≤◌,
  ◌-◌,
}
use tcio.Memory.{Shared, Heap, set_box, IsFreshBox, update, unmapped, Grant, IsFresh, allocate}
use tcio.Shared.Backed.{IsBuffer, Backed, owned, counted}
use tcio.Memory.Fresh.{filled, filled-kept}
use native.Mathlib.Decide.{ℕ_discrete}
use mathlib.Core.Option.{Option}

-- Cells that hold something are the same, and what was backed still is.
pub record Keeps (h h' : Heap) : Type 0 where
  pub cells : (a : ℕ) → h.cell a ≢ unmapped → h'.cell a ≡ h.cell a
  pub backing : (w p n : ℕ) → Backed h w p n → Backed h' w p n

pub Keeps-refl : (h : Heap) → Keeps h h
Keeps-refl h = record { cells = λ a m. refl; backing = λ w p n b. b }

pub IsBuffer-set_box :
    (h : Heap) {p c : ℕ} (k : ℕ) (s : Option Shared) → IsBuffer h p c → IsBuffer (set_box k s h) p c
IsBuffer-set_box h k s b = record { mapped = b.mapped; live = b.live; small = b.small }

pub update-ne :
    {A : Type 0} (f : ℕ → Option A) (p q : ℕ) (v : Option A) → q ≢ p → update f p v q ≡ f q
update-ne f p q v ne = ground arith

pub update-eq :
    {A : Type 0} (f : ℕ → Option A) (p q : ℕ) (v : Option A) → q ≡ p → update f p v q ≡ v
update-eq f p q v e = ground arith

pub Keeps-new : (h : Heap) (k : ℕ) (s : Shared) → h.boxes k ≡ none → Keeps h (set_box k (some s) h)
Keeps-new h k s new = record { cells = λ a m. refl; backing = keep }
  where
    keep : (w p n : ℕ) → Backed h w p n → Backed (set_box k (some s) h) w p n
    keep w p n (owned odd le b) = owned odd le (IsBuffer-set_box h k (some s) b)
    keep w p n (counted t even pos box rc lo hi b) =
        let other : w ≢ k = λ e. cc in
        counted t even pos (update-ne h.boxes k w (some s) other ∙ box) rc lo hi
          (IsBuffer-set_box h k (some s) b)

-- A count that goes up.
pub Keeps-bump :
    (h : Heap) (k c : ℕ) (s : Shared)
    → h.boxes k ≡ some s
    → 0 < c
    → Keeps h (set_box k (some (record s { ref_count = c })) h)
Keeps-bump h k c s old pos = record { cells = λ a m. refl; backing = keep }
  where
    s' : Shared
    s' = record s { ref_count = c }

    keep : (w p n : ℕ) → Backed h w p n → Backed (set_box k (some s') h) w p n
    keep w p n (owned odd le b) = owned odd le (IsBuffer-set_box h k (some s') b)
    keep w p n (counted t even pos' box rc lo hi b) = elim (ℕ_discrete w k) [
      | yes e ↦
          let same : t ≡ s = cc in
          counted s' even pos' (update-eq h.boxes k w (some s') e) pos (rw (← same) lo)
            (rw (← same) hi) (IsBuffer-set_box h k (some s') (rw (← same) b))
      | no ne ↦
          counted t even pos' (update-ne h.boxes k w (some s') ne ∙ box) rc lo hi
            (IsBuffer-set_box h k (some s') b)
    ]

-- The word of a fresh control block over the whole buffer of an unpromoted handle.
pub Backed-promoted :
    (h : Heap) (k w p n c : ℕ)
    → IsFreshBox k h
    → w / 2 ≤ p
    → IsBuffer h (p - w / 2) (n + w / 2)
    → 0 < c
    → Backed (set_box k (some (record { ref_count = c; ptr = p - w / 2; cap = n + w / 2 })) h) k p n
Backed-promoted h k w p n c f le b pos =
    counted _ f.even f.positive (update-eq h.boxes k k _ refl) pos (omega arith) (omega arith)
      (IsBuffer-set_box h k _ b)

IsBuffer-allocate :
    (h : Heap) (g : Grant) (n p c : ℕ)
    → IsFresh g n h
    → IsBuffer h p c
    → IsBuffer (allocate g h) p c
IsBuffer-allocate h g n p c f b = record {
  mapped = λ a lo hi. ground (arith, b.mapped a lo hi);
  live = listed b.live;
  small = b.small;
}
  where
    listed : ((c ≡ 0) ⊎ (h.vecs p ≡ some c)) → (c ≡ 0) ⊎ ((allocate g h).vecs p ≡ some c)
    listed (inl e) = inl e
    listed (inr e) = inr (update-ne h.vecs g.at p (some g.cap) (λ q. ground (arith, q, f.new)) ∙ e)

pub Keeps-trans : (h h' h'' : Heap) → Keeps h h' → Keeps h' h'' → Keeps h h''
Keeps-trans h h' h'' k l = record {
  cells = λ a m. l.cells a (λ e. m (sym (k.cells a m) ∙ e)) ∙ k.cells a m;
  backing = λ w p n b. l.backing w p n (k.backing w p n b);
}

module _ (h : Heap) (g : Grant) (n : ℕ) (f : IsFresh g n h) (xs : List ℕ) (le : length xs ≤ n) where
  IsBuffer-filled : (p c : ℕ) → IsBuffer h p c → IsBuffer (filled h g n f xs) p c
  IsBuffer-filled p c b =
      let b' = IsBuffer-allocate h g n p c f b in
      record {
        mapped = λ a lo hi z.
            b.mapped a lo hi (sym (filled-kept h g n f xs a le (b.mapped a lo hi)) ∙ z);
        live = b'.live;
        small = b.small;
      }

  -- Nor does the copy that fills it touch anything else.
  pub Keeps-filled : Keeps h (filled h g n f xs)
  Keeps-filled = record { cells = λ a m. filled-kept h g n f xs a le m; backing = keep }
    where
      keep : (w p c : ℕ) → Backed h w p c → Backed (filled h g n f xs) w p c
      keep w p c (owned odd off b) = owned odd off (IsBuffer-filled _ _ b)
      keep w p c (counted t even pos box rc lo hi b) =
          counted t even pos box rc lo hi (IsBuffer-filled _ _ b)
