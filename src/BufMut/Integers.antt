-- ===== src/BufMut/Integers.antt =====
-- The integers that src/bytes/buf_mut.rs puts are those that src/bytes/buf.rs gets.
use tcio.Base.{
  ℕ, ◌^◌, ◌≤◌, ◌<◌, ◌≡◌, sym, ap, ◌∙◌, Option, some, none, List, [], ◌++◌, length, drop, arith,
  append_nil, drop-append,
}
use tcio.Buf.{slice_buf, to_le_bytes, try_get_le}
use tcio.Buf.Ints.{length-to_le_bytes, try_get_int-to_le_bytes}
use tcio.Buf.Getters.{to_be_bytes, try_get_be, length-to_be_bytes, try_get_int-to_be_bytes}
use tcio.BufMut.{BufMut}
use tcio.BufMut.Lawful.{LawfulMut}
use tcio.BufMut.Put.{Wrote, put_slice_lem}
use tcio.BufMut.Puts.{put_le, put_be, put_int}

module _ {W : Type 0} {D : BufMut W} {Valid : W → Type 0} {written : W → List ℕ}
    (L : LawfulMut D Valid written) where
  -- The target is valid, and what stands in it behind the first bytes is read as `n`, with nothing
  -- left over.
  abbrev pub ReadsBack : (List ℕ → Option (Option ℕ × List ℕ)) → ℕ → List ℕ → Option W → Type 0
  ReadsBack read n before none = ⊥
  ReadsBack read n before (some w) =
      Valid w × (read (drop (length before) (written w)) ≡ some (some n, []))

  read_behind :
      (read : List ℕ → Option (Option ℕ × List ℕ)) (n : ℕ) (before bs : List ℕ)
      → read (bs ++ []) ≡ some (some n, [])
      → (r : Option W) → Wrote L (before ++ bs) r
      → ReadsBack read n before r
  read_behind read n before bs e none k = absurd k
  read_behind read n before bs e (some w) (v, all) = (
    v,
    ap (λ l. read (drop (length before) l)) all
        ∙ ap read (drop-append before bs ∙ sym (append_nil bs))
        ∙ e,
  )

  -- An unsigned integer that fits `size` bytes, put into a valid lawful target in either order: if
  -- the bytes fit, what they leave behind the earlier bytes is read back in that order as the same
  -- integer; otherwise both panic.
  pub put_int-try_get_int :
      (size n : ℕ) (w : W)
      → Valid w
      → n < 256 ^ size
      → (size ≤ D.remaining_mut w
          → ReadsBack (try_get_le slice_buf size) n (written w) (put_le D size n w)
            × ReadsBack (try_get_be slice_buf size) n (written w) (put_be D size n w))
        × (D.remaining_mut w < size → (put_le D size n w ≡ none) × (put_be D size n w ≡ none))
  unfolding put_int
  put_int-try_get_int size n w ok lt =
      let e = length-to_le_bytes size n in
      let e' = length-to_be_bytes size n in
      let (fits, past) = put_slice_lem L (to_le_bytes size n) w ok in
      let (fits', past') = put_slice_lem L (to_be_bytes size n) w ok in
      (
        λ le. (
          read_behind (try_get_le slice_buf size) n (written w) (to_le_bytes size n)
              (try_get_int-to_le_bytes size n [] lt) _ (fits (omega arith)),
          read_behind (try_get_be slice_buf size) n (written w) (to_be_bytes size n)
              (try_get_int-to_be_bytes size n [] lt) _ (fits' (omega arith)),
        ),
        λ short. (past (omega arith), past' (omega arith)),
      )
