-- ===== src/Bytes/Threads/Safe.antt =====
-- Two threads that clone one handle, in any order of their steps: src/bytes/bytes.rs.
use tcio.Base.{
  ℕ, ◌+◌, ◌-◌, ◌/◌, ◌%◌, ◌<◌, ◌≡◌, ◌≢◌, inl, inr, refl, sym, ap, ◌∙◌, some, arith, ◌==◌, true,
  false,
}
use tcio.Memory.{Heap, Ensures, IsFreshBox, set_box}
use tcio.Shared.{promote_with_vec, null}
use tcio.Shared.Steps.{as_unpromoted-odd, as_unpromoted-even, release_shared}
use tcio.Bytes.{Bytes, bytes, build_unpromoted_vec}
use tcio.Bytes.Threads.{
  Point, start, loaded, created, refused, released, cloned, turn, World, world, Step, left_turn,
  right_turn, Reach, begin, next,
}
use tcio.Bytes.Threads.Points.{
  block, Spare, Fits, spare, clones, Word, first, promoted_word, Sound, Sound-swap, Fits-promote,
  spare-box,
}
use tcio.Bytes.Threads.Turns.{quiet, aside, counted_turn, turn-load}
use tcio.Memory.Runs.{Ensures-mono}
use mathlib.Core.Path.{subst}
use native.Mathlib.Decide.{ℕ_discrete}

module _ (o : Bytes) (h0 : Heap) (odd : o.data_word % 2 ≡ 1) (k : ℕ) (me : Bytes) (b : Point)
    (h : Heap) (f : IsFreshBox k h) where
  -- A fresh control block is nobody's.
  nobody : (p : Point) → Fits o me h p → spare p ≡ some k → ⊥
  nobody p fits e = ground (arith, f.new, (spare-box o me h p fits k e).0)

  abbrev After : Bytes × Point → Heap → Type 0
  After r h' = Sound o h0 r.0 r.1 b h'

  Word-even : (n : ℕ) → Word o me n h → me.data_word ≢ o.data_word → me.data_word % 2 ≡ 0
  Word-even n (first e) ne = absurd (ne e)
  Word-even n (promoted_word even pos box) ne = even

  Word-listed :
      (n : ℕ)
      → Word o me n h
      → me.data_word ≢ o.data_word
      → (0 < me.data_word) × (h.boxes me.data_word ≡ some (block o (1 + n)))
  Word-listed n (first e) ne = absurd (ne e)
  Word-listed n (promoted_word even pos box) ne = (pos, box)

  -- A fresh control block is not that of the handle.
  fresh_other : (n : ℕ) → Word o me n h → k ≢ me.data_word
  fresh_other n (first e) z = omega (arith, f.even, z, e, odd)
  fresh_other n (promoted_word even pos box) z = ground (arith, z, f.new, box)

  turn-unpromoted :
      Sound o h0 me (loaded o.data_word) b h → Ensures After (turn k me (loaded o.data_word) h)
  unfolding turn promote_with_vec build_unpromoted_vec
  turn-unpromoted s =
      let t : (o.data_word == null) ≡ false = ground arith in
      let mine : Spare o me (set_box k (some (block o 2)) h) k = record {
        even = f.even;
        positive = f.positive;
        other = fresh_other (0 + clones b) s.word;
        box = ground arith;
      } in
      let same : record (block o 2) {
        ptr = me.ptr - o.data_word / 2;
        cap = me.len + o.data_word / 2;
      }
          ≡ block o 2 =
        rw (s.place.0, s.place.1) refl in
      rw (t, as_unpromoted-odd h o.data_word odd)
        (subst (λ x. Sound o h0 me (created o.data_word k) b (set_box k (some x) h)) (sym same)
          (aside o h0 me (loaded o.data_word) b h odd s k (some (block o 2)) (created o.data_word k)
            refl (nobody b s.right_fits) (λ _. fresh_other (0 + clones b) s.word) (refl, mine)
            (λ j p q.
              let e : j ≡ k = ground (arith, p) in nobody b s.right_fits (q ∙ ap (λ i. some i) e))))

  turn-promoted :
      Sound o h0 me (loaded me.data_word) b h
      → me.data_word ≢ o.data_word
      → Ensures After (turn k me (loaded me.data_word) h)
  unfolding turn
  turn-promoted s ne =
      let even = Word-even (0 + clones b) s.word ne in
      let (pos, box) = Word-listed (0 + clones b) s.word ne in
      let t : (me.data_word == null) ≡ false = ground arith in
      rw (t, as_unpromoted-even h me.data_word even box)
        (counted_turn o h0 me (loaded me.data_word) b h odd s ne refl)

  turn-loaded : (w : ℕ) → Sound o h0 me (loaded w) b h → Ensures After (turn k me (loaded w) h)
  turn-loaded w s = from s.left_fits
    where
      from : Fits o me h (loaded w) → Ensures After (turn k me (loaded w) h)
      from (inl e) = rw e (turn-unpromoted (rw e at s))
      from (inr (e, ne)) = rw e (turn-promoted (rw e at s) ne)

  turn-created :
      (j : ℕ)
      → Sound o h0 me (created o.data_word j) b h
      → Ensures After (turn k me (created o.data_word j) h)
  unfolding turn
  turn-created j s =
      let mine = s.left_fits.1 in
      elim (ℕ_discrete me.data_word o.data_word) [
        | yes same ↦
            let t : (me.data_word == o.data_word) ≡ true = ground arith in
            let ne : j ≢ o.data_word = λ z. mine.other (z ∙ sym same) in
            let (none_yet, fits) = Fits-promote o me h j b same ne (s.apart j refl) s.right_fits in
            let e : 2 ≡ 1 + (1 + clones b) = omega arith in
            let same_view : bytes me.ptr me.len j ≡ bytes o.ptr o.len j =
              rw (s.place.0, s.place.1) refl in
            rw t (record {
              place = s.place;
              memory = s.memory;
              word =
                  promoted_word mine.even mine.positive (mine.box ∙ ap (λ c. some (block o c)) e);
              left_fits = (same_view, ne);
              right_fits = fits;
              apart = λ i p q. ground (arith, p);
            })
        | no other ↦
            let t : (me.data_word == o.data_word) ≡ false = ground arith in
            rw t (
              quiet o h0 me (created o.data_word j) b h odd s (refused j me.data_word) refl
                ((refl, other), mine) s.apart)
      ]

  turn-refused :
      (j w : ℕ) → Sound o h0 me (refused j w) b h → Ensures After (turn k me (refused j w) h)
  unfolding turn
  turn-refused j w s =
      let mine = s.left_fits.1 in
      rw (release_shared h j mine.box (omega arith) (omega arith)) (
        aside o h0 me (refused j w) b h odd s j (some (block o 1)) (released w) refl
          (s.apart j refl) (λ _. mine.other) s.left_fits.0 (λ i p q. ground (arith, p)))

  turn-released :
      Sound o h0 me (released me.data_word) b h
      → me.data_word ≢ o.data_word
      → Ensures After (turn k me (released me.data_word) h)
  unfolding turn
  turn-released s ne = counted_turn o h0 me (released me.data_word) b h odd s ne refl

  turn-Sound : (a : Point) → Sound o h0 me a b h → Ensures After (turn k me a h)
  unfolding turn
  turn-Sound start s = turn-load o h0 me start b h odd s refl
  turn-Sound (loaded w) s = turn-loaded w s
  turn-Sound (created w j) s =
      let e : w ≡ o.data_word = s.left_fits.0 in rw e (turn-created j (rw e at s))
  turn-Sound (refused j w) s = turn-refused j w s
  turn-Sound (released w) s =
      let e : w ≡ me.data_word = s.left_fits.0 in
      let ne : me.data_word ≢ o.data_word = s.left_fits.1 in rw e (turn-released (rw e at s) ne)
  turn-Sound (cloned c) s = s

-- The world of two threads is sound.
abbrev pub IsSound : Bytes → Heap → World → Type 0
IsSound o h0 w = Sound o h0 w.me w.left w.right w.heap

Step-Sound :
    (o : Bytes) (h0 : Heap)
    → o.data_word % 2 ≡ 1
    → (s t : World) → Step s t
    → IsSound o h0 s
    → IsSound o h0 t
Step-Sound o h0 odd s t (left_turn {me} {me'} {a} {a'} {b} {h} {h'} k f e) sound =
    rw e at (turn-Sound o h0 odd k me b h f a sound)
Step-Sound o h0 odd s t (right_turn {me} {me'} {a} {b} {b'} {h} {h'} k f e) sound =
    Sound-swap o h0 me' b' a h'
      (rw e at (turn-Sound o h0 odd k me a h f b (Sound-swap o h0 me a b h sound)))

Reach-Sound :
    (o : Bytes) (h0 : Heap)
    → o.data_word % 2 ≡ 1
    → (s : World) → Reach (world o start start h0) s
    → IsSound o h0 s
Reach-Sound o h0 odd s begin = record {
  place = (refl, refl);
  memory = (refl, refl);
  word = first refl;
  left_fits = tt;
  right_fits = tt;
  apart = λ k p q. ground (arith, p);
}
Reach-Sound o h0 odd s (next {t} {u} r step) =
    Step-Sound o h0 odd t u step (Reach-Sound o h0 odd t r)

-- Two threads clone one unpromoted handle, and have made any steps in any order: the next step of
-- either ends well, whatever it is, where a control block is to be had. No count overflows, and no
-- control block is used that is not there.
pub Reach-turn :
    (o : Bytes) (h0 : Heap) (s : World) (k : ℕ)
    → o.data_word % 2 ≡ 1
    → Reach (world o start start h0) s
    → IsFreshBox k s.heap
    → Ensures (λ r h'. IsSound o h0 (world r.0 r.1 s.right h')) (turn k s.me s.left s.heap)
      × Ensures (λ r h'. IsSound o h0 (world r.0 s.left r.1 h')) (turn k s.me s.right s.heap)
Reach-turn o h0 s k odd r f =
    let sound = Reach-Sound o h0 odd s r in
    (
      turn-Sound o h0 odd k s.me s.right s.heap f s.left sound,
      Ensures-mono (λ r h'. Sound o h0 r.0 r.1 s.left h') (λ r h'. Sound o h0 r.0 s.left r.1 h') _
          (turn-Sound o h0 odd k s.me s.left s.heap f s.right
            (Sound-swap o h0 s.me s.left s.right s.heap sound))
          λ r h' w. Sound-swap o h0 r.0 r.1 s.left h' w,
    )

promoted_end :
    (o me : Bytes) (n : ℕ) (h : Heap)
    → Word o me n h
    → me.data_word ≢ o.data_word
    → (me.data_word % 2 ≡ 0) × (h.boxes me.data_word ≡ some (block o (1 + n)))
promoted_end o me n h (first e) ne = absurd (ne e)
promoted_end o me n h (promoted_word even pos box) ne = (even, box)

-- Two threads clone one unpromoted handle, with their steps in any order, and are at the end: the
-- handle and both clones are under one even word and show what the handle showed, the count is just
-- three, and neither the bytes nor the buffers have changed.
pub Reach-cloned :
    (o : Bytes) (h0 : Heap) (me c c' : Bytes) (h : Heap)
    → o.data_word % 2 ≡ 1
    → Reach (world o start start h0) (world me (cloned c) (cloned c') h)
    → (me ≡ bytes o.ptr o.len me.data_word)
      × (c ≡ me)
      × (c' ≡ me)
      × (me.data_word % 2 ≡ 0)
      × (h.boxes me.data_word ≡ some (block o 3))
      × (h.cell ≡ h0.cell)
      × (h.vecs ≡ h0.vecs)
Reach-cloned o h0 me c c' h odd r =
    let sound = Reach-Sound o h0 odd (world me (cloned c) (cloned c') h) r in
    let (e, ne) = sound.left_fits in
    let (e', _) = sound.right_fits in
    let view : bytes me.ptr me.len me.data_word ≡ bytes o.ptr o.len me.data_word =
      rw (sound.place.0, sound.place.1) refl in
    let (even, box) = promoted_end o me 2 h sound.word ne in
    (view, e ∙ sym view, e' ∙ sym view, even, box, sound.memory.0, sound.memory.1)
