-- ===== src/BufMut/Tests.antt =====
-- `put` and `put_slice` of src/bytes/buf_mut.rs into a slice of four bytes.
use tcio.Base.{◌≡◌, ◌≤◌, ◌<◌, ◌+◌, [], ◌∷◌, none, arith, some, refl}
use tcio.BufMut.Vecs
use tcio.BufMut.Vecs.{Grows, Has, remaining_mut, put_vec_lem}
use tcio.Buf.{slice_buf, Chain, try_get_le}
use tcio.Buf.Copy.{slice-Lawful}
use tcio.BufMut.{SliceMut, slice_mut, put, put_loop}
use tcio.BufMut.Lawful.{slice-LawfulMut, LawfulMut}
use tcio.BufMut.Put.{put_lem}
use tcio.BufMut.Puts.{put_le, put_be}
use tcio.BufMut.Integers.{ReadsBack, put_int-try_get_int}
use tcio.Buf.Getters.{try_get_be}
use tcio.BufMut.Chains.{chain_mut, chain_fill, InOrder, joint, chain-LawfulMut, slice-Bounded}

abbrev four : SliceMut
four = record { written = 1 ∷ []; rest = 4 }

put_lem_example : put slice_mut slice_buf (1 ∷ 2 ∷ 3 ∷ 4 ∷ 5 ∷ []) four ≡ none
put_lem_example =
    (put_lem slice-LawfulMut slice-Lawful (1 ∷ 2 ∷ 3 ∷ 4 ∷ 5 ∷ []) four tt (omega arith)).1
      (omega arith)

-- A vector that asks for just what it needs.
exact_growth : Grows (λ cap len additional. len + additional)
exact_growth cap len additional le = (omega arith, le)

put_vec_lem_example :
    (2 ≤ remaining_mut (record { written = 1 ∷ []; cap = 2 })
      → Has (1 ∷ 2 ∷ 3 ∷ []) (
          Vecs.put
            (λ cap len additional. len + additional)
            slice_buf
            (2 ∷ 3 ∷ [])
            (record { written = 1 ∷ []; cap = 2 })))
    × (remaining_mut (record { written = 1 ∷ []; cap = 2 }) < 2
        → Vecs.put
            (λ cap len additional. len + additional)
            slice_buf
            (2 ∷ 3 ∷ [])
            (record { written = 1 ∷ []; cap = 2 })
          ≡ none)
put_vec_lem_example =
    put_vec_lem (λ cap len additional. len + additional) exact_growth slice-Lawful (2 ∷ 3 ∷ [])
      (record { written = 1 ∷ []; cap = 2 }) tt (record { fit = omega arith; small = omega arith })

chain-LawfulMut_example :
    LawfulMut
      (chain_mut slice_mut slice_mut)
      (InOrder slice-LawfulMut slice-LawfulMut slice-Bounded slice-Bounded)
      (joint slice-LawfulMut slice-LawfulMut slice-Bounded slice-Bounded)
chain-LawfulMut_example =
    chain-LawfulMut slice-LawfulMut slice-LawfulMut slice-Bounded slice-Bounded

-- Five bytes go into a chain of a slice of four and one of two.
abbrev across : Chain SliceMut SliceMut
across = record { a = four; b = record { written = []; rest = 2 } }

across_slices :
    put (chain_mut slice_mut slice_mut) slice_buf (5 ∷ 6 ∷ 7 ∷ 8 ∷ 9 ∷ []) across
    ≡ some (record {
      a = record { written = 1 ∷ 5 ∷ 6 ∷ 7 ∷ 8 ∷ []; rest = 0 };
      b = record { written = 9 ∷ []; rest = 1 };
    })
unfolding put put_loop chain_fill
across_slices = refl

put_int-try_get_int_example :
    (2 ≤ 4
      → ReadsBack slice-LawfulMut
          (try_get_le slice_buf 2)
          1234
          (1 ∷ [])
          (put_le slice_mut 2 1234 four)
        × ReadsBack slice-LawfulMut
            (try_get_be slice_buf 2)
            1234
            (1 ∷ [])
            (put_be slice_mut 2 1234 four))
    × (4 < 2 → (put_le slice_mut 2 1234 four ≡ none) × (put_be slice_mut 2 1234 four ≡ none))
put_int-try_get_int_example =
    put_int-try_get_int slice-LawfulMut 2 1234 four (omega arith) (omega arith)
