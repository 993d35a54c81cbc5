-- ===== src/Bytes/Threads/Turns.antt =====
-- What one step of a thread leaves of a handle that two threads clone: src/bytes/bytes.rs.
use tcio.Base.{ℕ, ◌+◌, ◌%◌, ◌≤◌, ◌≡◌, ◌≢◌, inl, inr, refl, sym, ap, ◌∙◌, some, Option, arith}
use tcio.Memory.{Heap, Shared, Ensures, set_box, and_then, pure}
use tcio.Shared.Steps.{increment-ok}
use tcio.Bytes.{Bytes, bytes, increment, pure}
use tcio.Bytes.Threads.{Point, start, loaded, cloned}
use tcio.Bytes.Threads.Points.{
  block, Fits, spare, clones, clones-few, Word, first, promoted_word, Sound, Fits-frame, spare-box,
}

-- Setting another control block than that of the second thread and that of the handle, or creating
-- one, keeps what holds of the rest.
module _ (o : Bytes) (h0 : Heap) (me : Bytes) (a b : Point) (h : Heap) (odd : o.data_word % 2 ≡ 1)
    (s : Sound o h0 me a b h) where
  abbrev pub Next : Bytes × Point → Heap → Type 0
  Next r h' = Sound o h0 r.0 r.1 b h'

  -- The step changed nothing in the memory.
  pub quiet :
      (a' : Point)
      → clones a' ≡ clones a
      → Fits o me h a'
      → ((k : ℕ) → spare a' ≡ some k → spare b ≡ some k → ⊥)
      → Next (me, a') h
  quiet a' same fits apart =
      let e : clones a + clones b ≡ clones a' + clones b = omega arith in
      record {
        place = s.place;
        memory = s.memory;
        word = rw e at s.word;
        left_fits = fits;
        right_fits = s.right_fits;
        apart = apart;
      }

  -- The step set a control block that is neither the handle's nor the second thread's.
  pub aside :
      (k : ℕ) (x : Option Shared) (a' : Point)
      → clones a' ≡ clones a
      → (spare b ≡ some k → ⊥)
      → (me.data_word % 2 ≡ 0 → k ≢ me.data_word)
      → Fits o me (set_box k x h) a'
      → ((j : ℕ) → spare a' ≡ some j → spare b ≡ some j → ⊥)
      → Next (me, a') (set_box k x h)
  aside k x a' same free other fits apart = record {
    place = s.place;
    memory = s.memory;
    word = word_kept s.word;
    left_fits = fits;
    right_fits =
        Fits-frame o me h (set_box k x h) b
          (λ j e. let ne : j ≢ k = λ z. free (e ∙ ap (λ i. some i) z) in ground (arith, ne))
          s.right_fits;
    apart = apart;
  }
    where
      word_kept :
          Word o me (clones a + clones b) h → Word o me (clones a' + clones b) (set_box k x h)
      word_kept (first e) = first e
      word_kept (promoted_word even pos box) =
          let e : clones a + clones b ≡ clones a' + clones b = omega arith in
          let ne : me.data_word ≢ k = λ z. other even (sym z) in
          let kept : (set_box k x h).boxes me.data_word
              ≡ some (block o (1 + (clones a + clones b))) =
            ground (arith, ne, box) in
          promoted_word even pos (rw e at kept)

  -- The step counted a reference for the clone that it returns.
  pub counted_turn :
      me.data_word ≢ o.data_word
      → clones a ≡ 0
      → Ensures Next (
          and_then
            (increment me.data_word h)
            (λ _. pure (me, cloned (bytes me.ptr me.len me.data_word))))
  counted_turn ne zero_clones = bump s.word
    where
      bump :
          Word o me (clones a + clones b) h
          → Ensures Next (
              and_then
                (increment me.data_word h)
                (λ _. pure (me, cloned (bytes me.ptr me.len me.data_word))))
      bump (first e) = absurd (ne e)
      bump (promoted_word even pos box) =
          let few : clones b ≤ 1 = clones-few b in
          let n = clones a + clones b in
          let h' = set_box me.data_word (some (block o (1 + n + 1))) h in
          let more : h'.boxes me.data_word ≡ some (block o (1 + n + 1)) = ground arith in
          let e : 1 + n + 1 ≡ 1 + (1 + clones b) = omega arith in
          let fits : Fits o me h' b =
            Fits-frame o me h h' b
              (λ j q.
                let ne : j ≢ me.data_word = (spare-box o me h b s.right_fits j q).1 in
                ground (arith, ne))
              s.right_fits in
          let same : bytes me.ptr me.len me.data_word ≡ bytes o.ptr o.len me.data_word =
            rw (s.place.0, s.place.1) refl in
          rw (increment-ok h me.data_word box (omega arith)) (record {
            place = s.place;
            memory = s.memory;
            word = promoted_word even pos (more ∙ ap (λ c. some (block o c)) e);
            left_fits = (same, ne);
            right_fits = fits;
            apart = λ j p q. ground (arith, p);
          })

  -- Whatever step the first thread is at, it ends well.
  pub turn-load : a ≡ start → Next (me, loaded me.data_word) h
  turn-load e =
      let zero_clones : clones a ≡ 0 = rw e refl in
      quiet (loaded me.data_word) (sym zero_clones) (known s.word) (λ k p q. ground (arith, p))
    where
      known : Word o me (clones a + clones b) h → Fits o me h (loaded me.data_word)
      known (first q) = inl q
      known (promoted_word even pos box) = inr (refl, λ q. omega (arith, q))
