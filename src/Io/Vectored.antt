-- ===== src/Io/Vectored.antt =====
-- `poll_write_vectored` and `poll_write_buf_vectored` of src/io/write.rs.
use tcio.Base.{
  ℕ, ◌≤◌, ◌≡◌, refl, sym, ◌∙◌, ap, Option, none, some, List, [], ◌∷◌, ◌++◌, length, take, arith,
  length-take, length-append, take-append_le,
}
use tcio.Buf.{Buf}
use tcio.Buf.Lawful.{Lawful, Moved}
use tcio.Buf.Slots.{Slots}
use tcio.Buf.Vectored.{concat, Fills}
use tcio.Io.{
  Poll, ready, pending, Result, ok, err, Writer, Gathering, first_nonempty, poll_write_vectored,
  poll_write_buf_vectored,
}
use tcio.Io.WriteAll.{Took, Writes, Passed, split_at}

-- A vectored write takes bytes from the front of the slices put together.
abbrev pub Gathers : {E W : Type 0} → Gathering E W → (W → List ℕ) → Type 0
Gathers {W = W} write written =
    (bufs : List (List ℕ)) (w : W) → Took written (concat bufs) (written w) (write bufs w)

first_nonempty-prefix :
    (bufs : List (List ℕ))
    → (length (first_nonempty bufs) ≤ length (concat bufs))
      × ((n : ℕ)
          → n ≤ length (first_nonempty bufs)
          → take n (first_nonempty bufs) ≡ take n (concat bufs))
first_nonempty-prefix [] = (omega arith, λ n le. refl)
first_nonempty-prefix ([] ∷ bufs) = first_nonempty-prefix bufs
first_nonempty-prefix ((b ∷ bs) ∷ bufs) = (
  omega (arith, length-append (b ∷ bs) (concat bufs)),
  λ n le. sym (take-append_le n (b ∷ bs) (concat bufs) le),
)

Took-prefix :
    {E W : Type 0} (written : W → List ℕ) (short long before : List ℕ)
    → length short ≤ length long
    → ((n : ℕ) → n ≤ length short → take n short ≡ take n long)
    → (r : Option (Poll (Result ℕ E) × W)) → Took written short before r
    → Took written long before r
Took-prefix written short long before le same none t = t
Took-prefix written short long before le same (some (pending, w)) t = t
Took-prefix written short long before le same (some (ready (err e), w)) t = t
Took-prefix written short long before le same (some (ready (ok n), w)) (fits, e) =
    (omega arith, e ∙ ap (λ l. before ++ l) (same n fits))

-- The default `poll_write_vectored` of a writer that takes bytes from the front of what it is given
-- takes bytes from the front of the slices put together.
pub poll_write_vectored-Gathers :
    {E W : Type 0} (D : Writer E W) (written : W → List ℕ)
    → Writes D written
    → Gathers (poll_write_vectored D) written
poll_write_vectored-Gathers D written writes bufs w =
    let (le, same) = first_nonempty-prefix bufs in
    Took-prefix written (first_nonempty bufs) (concat bufs) (written w) le same
      (D.poll_write (first_nonempty bufs) w) (writes (first_nonempty bufs) w)

module _ {E W S : Type 0} (G : Gathering E W) (B : Buf S) (K : Slots S) {V : S → Type 0}
    {content : S → List ℕ} (written : W → List ℕ) (gathers : Gathers G written)
    (L : Lawful B V content) (F : Fills K V content) where
  abbrev Left : Unit {0} → S → Type 0
  Left _ s = Unit {0}

  module _ (w : W) (s : S) (v : V s) where
    abbrev slices : List ℕ
    slices = concat (K 64 s)

    slices_fit : length slices ≤ length (content s)
    slices_fit =
        omega (arith, ap (λ l. length l) (F.prefix 64 s v), length-take (length slices) (content s))

    abbrev answer : Option (Poll (Result ℕ E) × W) → Option (Poll (Result (Unit {0}) E) × (W × S))
    answer r = elim r [
      | none ↦ none
      | some (ready (ok write), w') ↦ elim (B.advance write s) [
        | none ↦ none
        | some buf' ↦ some (ready (ok tt), (w', buf'))
      ]
      | some (ready (err e), w') ↦ some (ready (err e), (w', s))
      | some (pending, w') ↦ some (pending, (w', s))
    ]

    advanced :
        (n : ℕ) (w' : W)
        → n ≤ length slices
        → written w' ≡ written w ++ take n slices
        → (r : Option S) → Moved V content n (content s) r
        → Passed {E = E} V content written
            (written w ++ content s)
            Left
            (elim r [ none ↦ none | some buf' ↦ some (ready (ok tt), (w', buf')) ])
    advanced n w' le e none m = absurd m
    advanced n w' le e (some s') (v', f) = (
      v',
      ap (λ c. written w' ++ c) f
          ∙ split_at n (written w) (written w') (content s) slices le (F.prefix 64 s v) e,
      tt,
    )

    taken :
        (r : Option (Poll (Result ℕ E) × W))
        → Took written slices (written w) r
        → Passed V content written (written w ++ content s) Left (answer r)
    taken none t = absurd t
    taken (some (pending, w')) t = (v, ap (λ c. c ++ content s) t)
    taken (some (ready (err e), w')) t = (v, ap (λ c. c ++ content s) t)
    taken (some (ready (ok n), w')) (le, e) =
        advanced n w' le e (B.advance n s) (L.advance_drop n s v (omega (arith, slices_fit)))

    -- `poll_write_buf_vectored` with a lawful buffer that fills slices as it should, and a writer
    -- that takes bytes from the front of the slices put together, never panics: on every branch
    -- what was written, followed by what remains of the buffer, is what the two had before.
    pub poll_write_buf_vectored_lem :
        Passed V content written (written w ++ content s) Left (poll_write_buf_vectored G B K w s)
    unfolding poll_write_buf_vectored
    poll_write_buf_vectored_lem = taken (G (K 64 s) w) (gathers (K 64 s) w)
