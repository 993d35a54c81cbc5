-- ===== src/Bytes/Drop.antt =====
-- `drop` and `truncate` in src/bytes/bytes.rs.
use tcio.Base.{
  ℕ, ◌+◌, ◌-◌, ◌/◌, ◌%◌, ◌≤◌, ◌<◌, ◌≡◌, ◌≢◌, ◌⊎◌, inl, inr, refl, arith, ◌==◌, true, false, some,
  none,
}
use tcio.Base.Words.{word_mod}
use tcio.Memory.{drop_vec, Heap, Shared, ok, Ensures, unmapped, set_box, deallocate}
use tcio.Shared.Backed.{buffer_of, Backed, owned, counted, refs}
use tcio.Shared.Steps.{
  as_unpromoted-odd, as_unpromoted-even, release_shared, release_last, release_last_empty,
}
use tcio.Shared.Keep.{Keeps, Keeps-bump}
use native.Mathlib.Decide.{ℕ_discrete}
use tcio.Bytes.{Bytes, bytes, drop_inner, build_unpromoted_vec}
use tcio.Bytes.Valid.{Standing, static, backed}

-- The buffer was given back: no cell of it is mapped, and all other cells are as they were.
pub record Freed (h : Heap) (p c : ℕ) (h' : Heap) : Type 0 where
  pub gone : (a : ℕ) → p ≤ a → a < p + c → h'.cell a ≡ unmapped
  pub kept : (a : ℕ) → ((a < p) ⊎ (p + c ≤ a)) → h'.cell a ≡ h.cell a
  pub unlisted : 0 < c → h'.vecs p ≡ none

-- What the end of a handle does to the heap.
pub record Dropped (h : Heap) (word p n : ℕ) (h' : Heap) : Type 0 where
  pub static_kept : word ≡ 0 → h' ≡ h
  pub shared_kept :
      word ≢ 0
      → 1 < refs h word
      → Keeps h h' × (h'.vecs ≡ h.vecs) × (refs h' word + 1 ≡ refs h word)
  last_freed :
      word ≢ 0 → refs h word ≡ 1 → Freed h (buffer_of h word p n).0 (buffer_of h word p n).1 h'
  pub box_freed : word ≢ 0 → word % 2 ≡ 0 → refs h word ≡ 1 → h'.boxes word ≡ none

module _ (h : Heap) (p n w : ℕ) where
  pub drop_inner-static : w ≡ 0 → drop_inner (bytes p n w) h ≡ ok tt h
  unfolding drop_inner
  drop_inner-static e = ground arith

  pub drop_inner-empty : w % 2 ≡ 1 → n + w / 2 ≡ 0 → drop_inner (bytes p n w) h ≡ ok tt h
  unfolding drop_inner build_unpromoted_vec drop_vec
  drop_inner-empty odd e = ground (arith, as_unpromoted-odd h w odd)

  pub drop_inner-owned :
      w % 2 ≡ 1
      → 0 < n + w / 2
      → h.vecs (p - w / 2) ≡ some (n + w / 2)
      → drop_inner (bytes p n w) h ≡ ok tt (deallocate (p - w / 2) (n + w / 2) h)
  unfolding drop_inner build_unpromoted_vec drop_vec
  drop_inner-owned odd pos live = ground (arith, as_unpromoted-odd h w odd)

  pub drop_inner-shared :
      (s : Shared)
      → w % 2 ≡ 0
      → 0 < w
      → h.boxes w ≡ some s
      → 1 < s.ref_count
      → s.ref_count < word_mod
      → drop_inner (bytes p n w) h
        ≡ ok tt (set_box w (some (record s { ref_count = s.ref_count - 1 })) h)
  unfolding drop_inner
  drop_inner-shared s even pos box more fits =
      ground (arith, as_unpromoted-even h w even box, release_shared h w box more fits)

  pub drop_inner-last :
      (s : Shared)
      → w % 2 ≡ 0
      → 0 < w
      → h.boxes w ≡ some s
      → s.ref_count ≡ 1
      → h.vecs s.ptr ≡ some s.cap
      → 0 < s.cap
      → drop_inner (bytes p n w) h ≡ ok tt (set_box w none (deallocate s.ptr s.cap h))
  unfolding drop_inner
  drop_inner-last s even pos box one live cap =
      ground (arith, as_unpromoted-even h w even box, release_last h w box one live cap)

  pub drop_inner-last_empty :
      (s : Shared)
      → w % 2 ≡ 0
      → 0 < w
      → h.boxes w ≡ some s
      → s.ref_count ≡ 1
      → s.cap ≡ 0
      → drop_inner (bytes p n w) h ≡ ok tt (set_box w none h)
  unfolding drop_inner
  drop_inner-last_empty s even pos box one cap =
      ground (arith, as_unpromoted-even h w even box, release_last_empty h w box one cap)

  Freed-deallocate : (q c : ℕ) → Freed h q c (deallocate q c h)
  Freed-deallocate q c = record {
    gone = λ a lo hi. ground arith;
    kept = λ a out. ground arith;
    unlisted = λ pos. ground arith;
  }

  Freed-empty : (q : ℕ) → Freed h q 0 h
  Freed-empty q = record {
    gone = λ a lo hi. absurd (omega arith);
    kept = λ a out. refl;
    unlisted = λ pos. absurd (omega arith);
  }

  Dropped-static : w ≡ 0 → Dropped h w p n h
  Dropped-static e = record {
    static_kept = λ z. refl;
    shared_kept = λ ne more. absurd (ne e);
    last_freed = λ ne one. absurd (ne e);
    box_freed = λ ne even one. absurd (ne e);
  }

  Dropped-owned : (h' : Heap) → w % 2 ≡ 1 → Freed h (p - w / 2) (n + w / 2) h' → Dropped h w p n h'
  Dropped-owned h' odd fr = record {
    static_kept = λ z. absurd (omega arith);
    shared_kept = λ ne more. absurd (ground arith);
    last_freed = λ ne one. rw t fr;
    box_freed = λ ne even one. absurd (omega arith);
  }
    where
      t : (w % 2 == 1) ≡ true
      t = ground arith

  module _ (s : Shared) (even : w % 2 ≡ 0) (pos : 0 < w) (box : h.boxes w ≡ some s) where
    Dropped-shared :
        0 < s.ref_count - 1
        → Dropped h w p n (set_box w (some (record s { ref_count = s.ref_count - 1 })) h)
    Dropped-shared more = record {
      static_kept = λ z. absurd (omega arith);
      shared_kept = λ ne m. (Keeps-bump h w (s.ref_count - 1) s box more, refl, ground arith);
      last_freed = λ ne one. absurd (ground arith);
      box_freed = λ ne e one. absurd (ground arith);
    }

    Dropped-last :
        (h' : Heap) → s.ref_count ≡ 1 → Freed h s.ptr s.cap h' → Dropped h w p n (set_box w none h')
    Dropped-last h' one fr = record {
      static_kept = λ z. absurd (omega arith);
      shared_kept = λ ne m. absurd (ground arith);
      last_freed =
          λ ne o. rw (t, box) (record { gone = fr.gone; kept = fr.kept; unlisted = fr.unlisted });
      box_freed = λ ne e o. ground arith;
    }
      where
        t : (w % 2 == 1) ≡ false
        t = ground arith

  drop_Backed :
      Backed h w p n
      → refs h w < word_mod
      → Ensures (λ _. Dropped h w p n) (drop_inner (bytes p n w) h)
  drop_Backed (owned odd le b) fits = elim b.live [
    | inl e ↦ rw (drop_inner-empty odd e) (Dropped-owned h odd (rw e (Freed-empty _)))
    | inr live ↦ elim (ℕ_discrete (n + w / 2) 0) [
      | yes e ↦ rw (drop_inner-empty odd e) (Dropped-owned h odd (rw e (Freed-empty _)))
      | no ne ↦
          rw (drop_inner-owned odd (omega arith) live) (Dropped-owned _ odd (Freed-deallocate _ _))
    ]
  ]
  drop_Backed (counted s even pos box rc lo hi b) fits = elim (ℕ_discrete s.ref_count 1) [
    | no ne ↦
        rw (drop_inner-shared s even pos box (omega arith) (ground arith))
          (Dropped-shared s even pos box (omega arith))
    | yes one ↦ elim (ℕ_discrete s.cap 0) [
      | yes e ↦
          rw (drop_inner-last_empty s even pos box one e)
            (Dropped-last s even pos box h one (rw e (Freed-empty _)))
      | no ne ↦ elim b.live [
        | inl e ↦ absurd (ne e)
        | inr live ↦
            rw (drop_inner-last s even pos box one live (omega arith))
              (Dropped-last s even pos box _ one (Freed-deallocate _ _))
      ]
    ]
  ]

pub Backed-ne-zero : {h : Heap} {w p n : ℕ} → Backed h w p n → w ≢ 0
Backed-ne-zero (owned odd le b) = omega arith
Backed-ne-zero (counted s even pos box rc lo hi b) = omega arith

-- A word that backs something counts at least one reference.
pub one-le-refs : {h : Heap} {w p n : ℕ} → Backed h w p n → 1 ≤ refs h w
one-le-refs (owned odd le b) = ground arith
one-le-refs (counted s even pos box rc lo hi b) = ground arith

-- The end of a valid handle, with a count below 2 ^ 64, never faults. On static memory it changes
-- nothing; while other handles share the word it takes one reference away and keeps the buffer; the
-- last one gives back the buffer and the control block, and no cell outside that buffer changes.
pub drop_inner_lem :
    (h : Heap) (b : Bytes)
    → Standing h b
    → (b.data_word ≢ 0 → refs h b.data_word < word_mod)
    → Ensures (λ _. Dropped h b.data_word b.ptr b.len) (drop_inner b h)
drop_inner_lem h b (static e) fits =
    rw (drop_inner-static h b.ptr b.len b.data_word e) (Dropped-static h b.ptr b.len b.data_word e)
drop_inner_lem h b (backed k) fits =
    drop_Backed h b.ptr b.len b.data_word k (fits (Backed-ne-zero k))
