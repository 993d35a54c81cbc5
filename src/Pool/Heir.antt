-- ===== src/Pool/Heir.antt =====
-- A handle of a pool that is replaced by one on the same memory, an empty handle that joins, and
-- the order of the handles.
use tcio.Base.{
  ℕ, ◌+◌, ◌-◌, ◌*◌, ◌/◌, ◌%◌, ◌≤◌, ◌≡◌, ◌≢◌, inl, inr, some, List, [], ◌∷◌, arith, ap, refl, sym,
  ◌∙◌, drop,
}
use tcio.Memory.{Heap, Shared, Ensures}
use tcio.Shared.Backed.{owned, counted}
use tcio.Bytes.{Bytes, bytes, advance_unchecked, new_empty_with_ptr}
use tcio.Bytes.Valid.{IsBytes, Standing, static, backed}
use tcio.Bytes.Advance.{
  advance_unchecked-even, advance_unchecked-odd, Advanced, advance_unchecked_lem, IsBytes-empty,
}
use tcio.Pool.{Owner, buffer, Separate, All, Listed, Counted, IsPool}
use tcio.Pool.Buffers.{buffer-static, buffer-owned, buffer-counted, All-map}

-- `b'` keeps what `b` kept, or part of the same static slice.
pub record Inherits (h : Heap) (b b' : Bytes) : Type 0 where
  pub lower : (buffer h b).0 ≤ (buffer h b').0
  pub upper : (buffer h b').0 + (buffer h b').1 ≤ (buffer h b).0 + (buffer h b).1
  pub exact : b.data_word ≢ 0 → (b'.data_word ≢ 0) × (buffer h b' ≡ buffer h b)
  pub even : b.data_word % 2 ≡ 0 → b'.data_word ≡ b.data_word
  pub odd : b.data_word % 2 ≡ 1 → b'.data_word % 2 ≡ 1

module _ (h : Heap) (b b' : Bytes) (i : Inherits h b b') where
  Separate-heir : (c : Bytes) → Separate h b c → Separate h b' c
  Separate-heir c (inl (w, even)) = inl (i.even even ∙ w, ap (λ x. x % 2) (i.even even) ∙ even)
  Separate-heir c (inr no_overlap) =
      inr (λ a lo hi. no_overlap a (omega (arith, i.lower)) (omega (arith, i.upper)))

  module _ (xs ys : List ℕ) (os : List Owner) (pool : IsPool h ((b, xs) ∷ os)) where
    heir_Listed : (p c : ℕ) → Listed h ((b, xs) ∷ os) p c → Listed h ((b', ys) ∷ os) p c
    heir_Listed p c (inl (ne, place, size)) =
        let (ne', e) = i.exact ne in inl (ne', rw e place, rw e size)
    heir_Listed p c (inr l) = inr l

    heir_Counted : (k : ℕ) (s : Shared) → h.boxes k ≡ some s → Counted ((b', ys) ∷ os) k s
    heir_Counted k s box =
        let c : Counted ((b, xs) ∷ os) k s = pool.counted k s box in
        record {
          even = c.even;
          positive = c.positive;
          used = c.used;
          exact = ground (arith, c.exact, c.even, i.even, i.odd);
        }

    pub IsPool-heir : IsBytes h b' ys → IsPool h ((b', ys) ∷ os)
    IsPool-heir v = record {
      views = (v, pool.views.1);
      counted = heir_Counted;
      apart = (
        All-map (λ o. Separate h b o.0) (λ o. Separate h b' o.0) os (λ o s. Separate-heir o.0 s)
            pool.apart.0,
        pool.apart.1,
      );
      listed = λ p c l. ((pool.listed p c l).0, heir_Listed p c (pool.listed p c l).1);
    }

apart_empty :
    (h : Heap) (p : ℕ) (os : List Owner) → All (λ o. Separate h (new_empty_with_ptr p) o.0) os
apart_empty h p [] = tt
apart_empty h p (o ∷ os) = (inr (λ a lo hi. absurd (omega arith)), apart_empty h p os)

pub IsPool-empty :
    (h : Heap) (p : ℕ) (os : List Owner) → IsPool h os → IsPool h ((new_empty_with_ptr p, []) ∷ os)
IsPool-empty h p os pool = record {
  views = (IsBytes-empty h p, pool.views);
  counted = λ k s box.
      let c : Counted os k s = pool.counted k s box in
      record {
        even = c.even;
        positive = c.positive;
        used = c.used;
        exact = ground (arith, c.exact, c.positive);
      };
  apart = (apart_empty h p os, pool.apart);
  listed = λ q c l. ((pool.listed q c l).0, inr (pool.listed q c l).1);
}

pub Separate-sym : (h : Heap) (b c : Bytes) → Separate h b c → Separate h c b
Separate-sym h b c (inl (w, even)) = inl (sym w, ap (λ x. x % 2) (sym w) ∙ even)
Separate-sym h b c (inr no_overlap) = inr (λ a lo hi lo' hi'. no_overlap a lo' hi' lo hi)

pub IsPool-swap :
    (h : Heap) (o o' : Owner) (os : List Owner) → IsPool h (o ∷ o' ∷ os) → IsPool h (o' ∷ o ∷ os)
IsPool-swap h o o' os pool = record {
  views = (pool.views.1.0, (pool.views.0, pool.views.1.1));
  counted = λ k s box.
      let c : Counted (o ∷ o' ∷ os) k s = pool.counted k s box in
      record {
        even = c.even;
        positive = c.positive;
        used = c.used;
        exact = omega (arith, c.exact);
      };
  apart =
      ((Separate-sym h o.0 o'.0 pool.apart.0.0, pool.apart.1.0), (pool.apart.0.1, pool.apart.1.1));
  listed = λ p c l. (
    (pool.listed p c l).0,
    elim (pool.listed p c l).1 [
      | inl here ↦ inr (inl here)
      | inr (inl next) ↦ inl next
      | inr (inr later) ↦ inr (inr later)
    ],
  );
}

-- A part of a view whose word is null or that of a control block.
pub Inherits-part :
    (h : Heap) (b : Bytes) (i m : ℕ)
    → Standing h b
    → b.data_word % 2 ≡ 0
    → i + m ≤ b.len
    → Inherits h b (bytes (b.ptr + i) m b.data_word)
Inherits-part h b i m (static z) even le =
    let e = buffer-static h b.ptr b.len b.data_word z in
    let e' = buffer-static h (b.ptr + i) m b.data_word z in
    record {
      lower = rw (e, e') (omega arith);
      upper = rw (e, e') (omega arith);
      exact = λ ne. absurd (ne z);
      even = λ _. refl;
      odd = λ o. o;
    }
Inherits-part h b i m (backed (owned odd off k)) even le = absurd (omega arith)
Inherits-part h b i m (backed (counted s ev pos box rc lo hi k)) even le =
    let e = buffer-counted h b.ptr b.len b.data_word s ev pos box in
    let e' = buffer-counted h (b.ptr + i) m b.data_word s ev pos box in
    record {
      lower = rw (e, e') (omega arith);
      upper = rw (e, e') (omega arith);
      exact = λ ne. (ne, e' ∙ sym e);
      even = λ _. refl;
      odd = λ o. o;
    }

Inherits-advance :
    (h : Heap) (p n w cnt : ℕ)
    → w % 2 ≡ 1
    → w / 2 ≤ p
    → cnt ≤ n
    → Inherits h (bytes p n w) (bytes (p + cnt) (n - cnt) (w + 2 * cnt))
Inherits-advance h p n w cnt odd off le =
    let e = buffer-owned h p n w odd in
    let e' = buffer-owned h (p + cnt) (n - cnt) (w + 2 * cnt) (omega arith) in
    let start : p + cnt - (w + 2 * cnt) / 2 ≡ p - w / 2 = omega arith in
    let size : n - cnt + (w + 2 * cnt) / 2 ≡ n + w / 2 = omega arith in
    record {
      lower = rw (e, e') (omega arith);
      upper = rw (e, e') (omega arith);
      exact = λ ne. (omega arith, rw (e, e', start, size));
      even = λ z. absurd (omega arith);
      odd = λ o. omega arith;
    }

-- `advance_unchecked` in a pool: the handle shows its bytes from `cnt` on.
pub advance_unchecked-IsPool :
    (h : Heap) (b : Bytes) (xs : List ℕ) (cnt : ℕ) (os : List Owner)
    → IsPool h ((b, xs) ∷ os)
    → cnt ≤ b.len
    → Ensures (λ b' h'. IsPool h' ((b', drop cnt xs) ∷ os)) (advance_unchecked cnt b h)
advance_unchecked-IsPool h b xs cnt os pool le = by_standing pool.views.0.standing
  where
    b_lem : Ensures (Advanced h b xs cnt) (advance_unchecked cnt b h)
    b_lem = advance_unchecked_lem h b xs cnt le pool.views.0

    by_even :
        b.data_word % 2 ≡ 0
        → Ensures (λ b' h'. IsPool h' ((b', drop cnt xs) ∷ os)) (advance_unchecked cnt b h)
    by_even even =
        let run = advance_unchecked-even h b.ptr b.len b.data_word cnt le even in
        let i = Inherits-part h b cnt (b.len - cnt) pool.views.0.standing even (omega arith) in
        let ad : Advanced h b xs cnt (bytes (b.ptr + cnt) (b.len - cnt) b.data_word) h =
          rw run at b_lem in
        rw run (IsPool-heir h b _ i xs (drop cnt xs) os pool ad.view)

    by_standing :
        Standing h b
        → Ensures (λ b' h'. IsPool h' ((b', drop cnt xs) ∷ os)) (advance_unchecked cnt b h)
    by_standing (static z) = by_even (omega arith)
    by_standing (backed (counted s even pos box rc lo hi k)) = by_even even
    by_standing (backed (owned odd off k)) =
        let run = advance_unchecked-odd h b.ptr b.len b.data_word cnt le odd k in
        let i = Inherits-advance h b.ptr b.len b.data_word cnt odd off le in
        let ad : Advanced h b xs cnt (bytes (b.ptr + cnt) (b.len - cnt) (b.data_word + 2 * cnt)) h =
          rw run at b_lem in
        rw run (IsPool-heir h b _ i xs (drop cnt xs) os pool ad.view)
