-- ===== src/Io/WriteAll.antt =====
-- `poll_write_all_buf` of src/io/write.rs.
use tcio.Base.{
  ℕ, zero, suc, ◌+◌, ◌≤◌, ◌<◌, ◌≡◌, refl, sym, ◌∙◌, ap, Option, none, some, List, [], ◌++◌, length,
  take, drop, ltb, true, false, arith, take-append-drop, take-take, length-take, length-drop,
  take_all, append_assoc,
}
use tcio.Buf.{Buf}
use tcio.Buf.Lawful.{Lawful, Moved}
use tcio.Io.{
  Poll, ready, pending, Result, ok, err, Writer, poll_write_buf, write_loop, poll_write_all_buf,
}
use native.Mathlib.Decide.{dec_lt}

-- What `poll_write` promises: `n ≤ buf.len()` bytes were taken from the front of `buf`, or none.
abbrev pub Took :
    {E W : Type 0}
    → (written : W → List ℕ) → (buf before : List ℕ) → Option (Poll (Result ℕ E) × W)
    → Type 0
Took written buf before none = ⊥
Took written buf before (some (ready (ok n), w)) =
    (n ≤ length buf) × (written w ≡ before ++ take n buf)
Took written buf before (some (ready (err e), w)) = written w ≡ before
Took written buf before (some (pending, w)) = written w ≡ before

abbrev pub Writes : {E W : Type 0} → Writer E W → (W → List ℕ) → Type 0
Writes {W = W} D written =
    (buf : List ℕ) (w : W) → Took written buf (written w) (D.poll_write buf w)

module _ {E W S : Type 0} (V : S → Type 0) (content : S → List ℕ) (written : W → List ℕ) where
  -- What is written and what remains is the same list as before, and `done` holds after success.
  abbrev pub Passed :
      {A : Type 0} → List ℕ → (A → S → Type 0) → Option (Poll (Result A E) × (W × S)) → Type 0
  Passed all done none = ⊥
  Passed all done (some (ready (ok a), (w, s))) = V s × (written w ++ content s ≡ all) × done a s
  Passed all done (some (ready (err e), (w, s))) = V s × (written w ++ content s ≡ all)
  Passed all done (some (pending, (w, s))) = V s × (written w ++ content s ≡ all)

-- After a write of `n` bytes, `n` bytes fewer remain.
abbrev Shorter : {S : Type 0} → (S → List ℕ) → ℕ → ℕ → S → Type 0
Shorter content before n s = length (content s) + n ≡ before

abbrev pub Nothing : {S : Type 0} → (S → List ℕ) → Unit {0} → S → Type 0
Nothing content _ s = content s ≡ []

-- A prefix of what is to come, put behind what was written.
pub split_at :
    (n : ℕ) (ws us xs src : List ℕ)
    → n ≤ length src
    → src ≡ take (length src) xs
    → us ≡ ws ++ take n src
    → us ++ drop n xs ≡ ws ++ xs
split_at n ws us xs src le pre e =
    let front : take n src ≡ take n xs = ap (λ c. take n c) pre ∙ take-take n (length src) xs le in
    ap (λ c. c ++ drop n xs) e
    ∙ append_assoc ws (take n src) (drop n xs)
    ∙ ap (λ c. ws ++ (c ++ drop n xs)) front
    ∙ ap (λ c. ws ++ c) (take-append-drop n xs)

module _ {E W S : Type 0} (D : Writer E W) (B : Buf S) {V : S → Type 0} {content : S → List ℕ}
    (written : W → List ℕ) (writes : Writes D written) (L : Lawful B V content) where
  module _ (w : W) (s : S) (v : V s) where
    chunk_fits : length (B.chunk s) ≤ length (content s)
    chunk_fits = omega (
      arith,
      ap (λ l. length l) (L.chunk_prefix s v),
      length-take (length (B.chunk s)) (content s),
    )

    advanced :
        (n : ℕ) (w' : W)
        → n ≤ length (B.chunk s)
        → written w' ≡ written w ++ take n (B.chunk s)
        → (r : Option S) → Moved V content n (content s) r
        → Passed {E = E} V content written
            (written w ++ content s)
            (Shorter content (length (content s)))
            (elim r [ none ↦ none | some buf' ↦ some (ready (ok n), (w', buf')) ])
    advanced n w' le e none m = absurd m
    advanced n w' le e (some s') (v', f) = (
      v',
      ap (λ c. written w' ++ c) f
          ∙ split_at n (written w) (written w') (content s) (B.chunk s) le (L.chunk_prefix s v) e,
      omega (arith, ap (λ l. length l) f, length-drop n (content s), chunk_fits),
    )

    -- The answer of `poll_write_buf` to one of `poll_write`.
    abbrev answer : Option (Poll (Result ℕ E) × W) → Option (Poll (Result ℕ E) × (W × S))
    answer r = elim r [
      | none ↦ none
      | some (ready (ok write), w') ↦ elim (B.advance write s) [
        | none ↦ none
        | some buf' ↦ some (ready (ok write), (w', buf'))
      ]
      | some (ready (err e), w') ↦ some (ready (err e), (w', s))
      | some (pending, w') ↦ some (pending, (w', s))
    ]

    taken :
        (r : Option (Poll (Result ℕ E) × W))
        → Took written (B.chunk s) (written w) r
        → Passed V content written
            (written w ++ content s)
            (Shorter content (length (content s)))
            (answer r)
    taken none t = absurd t
    taken (some (pending, w')) t = (v, ap (λ c. c ++ content s) t)
    taken (some (ready (err e), w')) t = (v, ap (λ c. c ++ content s) t)
    taken (some (ready (ok n), w')) (le, e) =
        advanced n w' le e (B.advance n s) (L.advance_drop n s v (omega (arith, chunk_fits)))

    poll_write_buf_lem :
        Passed V content written
          (written w ++ content s)
          (Shorter content (length (content s)))
          (poll_write_buf D B w s)
    unfolding poll_write_buf
    poll_write_buf_lem = taken (D.poll_write (B.chunk s) w) (writes (B.chunk s) w)

  module _ (write_zero : E) where
    abbrev Induction : ℕ → Type 0
    Induction fuel =
        (w : W) (s : S)
        → V s
        → length (content s) < fuel
        → Passed V content written (written w ++ content s) (Nothing content)
            (write_loop D B write_zero fuel w s)

    abbrev next :
        ℕ → Option (Poll (Result ℕ E) × (W × S)) → Option (Poll (Result (Unit {0}) E) × (W × S))
    next fuel r = elim r [
      | none ↦ none
      | some (pending, (w', buf')) ↦ some (pending, (w', buf'))
      | some (ready (err e), (w', buf')) ↦ some (ready (err e), (w', buf'))
      | some (ready (ok read), (w', buf')) ↦ elim read [
        | zero ↦ some (ready (err write_zero), (w', buf'))
        | suc _ ↦ write_loop D B write_zero fuel w' buf'
      ]
    ]

    continued :
        (fuel n : ℕ) (all : List ℕ)
        → Induction fuel
        → n < suc fuel
        → (r : Option (Poll (Result ℕ E) × (W × S)))
        → Passed V content written all (Shorter content n) r
        → Passed V content written all (Nothing content) (next fuel r)
    continued fuel n all ih lt none p = absurd p
    continued fuel n all ih lt (some (pending, (w, s))) p = p
    continued fuel n all ih lt (some (ready (err e), (w, s))) p = p
    continued fuel n all ih lt (some (ready (ok zero), (w, s))) (v, e, q) = (v, e)
    continued fuel n all ih lt (some (ready (ok (suc k)), (w, s))) (v, e, q) =
        rw e at (ih w s v (omega arith))

    write_loop_lem : (fuel : ℕ) → Induction fuel
    unfolding write_loop
    write_loop_lem zero w s v lt = absurd (omega arith)
    write_loop_lem (suc fuel) w s v lt = elim (dec_lt 0 (B.remaining s)) [
      | yes pos ↦
          let t : ltb 0 (B.remaining s) ≡ true = ground arith in
          rw t (
            continued fuel (length (content s)) (written w ++ content s) (write_loop_lem fuel) lt
              (poll_write_buf D B w s) (poll_write_buf_lem w s v))
      | no none_left ↦
          let t : ltb 0 (B.remaining s) ≡ false = ground arith in
          rw t (v, refl, sym (take_all 0 (content s) (omega (arith, L.remaining_length s v))))
    ]

    -- `poll_write_all_buf` with a lawful buffer and a writer that takes bytes from the front of
    -- what it is given never panics. On every branch what was written, followed by what remains of
    -- the buffer, is what the two had before, also when the writer is not ready or fails half way;
    -- on success nothing remains.
    pub poll_write_all_buf_lem :
        (w : W) (s : S)
        → V s
        → Passed V content written
            (written w ++ content s)
            (Nothing content)
            (poll_write_all_buf D B write_zero w s)
    unfolding poll_write_all_buf
    poll_write_all_buf_lem w s v =
        write_loop_lem (suc (B.remaining s)) w s v (omega (arith, L.remaining_length s v))
