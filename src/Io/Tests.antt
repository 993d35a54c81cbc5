-- ===== src/Io/Tests.antt =====
-- `poll_write_all_buf` of src/io/write.rs on a vector.
use tcio.Base.{ℕ, ◌++◌, sym, ap, length, take_all, [], ◌∷◌, arith}
use tcio.Buf.{slice_buf}
use tcio.Buf.Copy.{slice-Lawful}
use tcio.Buf.Slots.{chunks_vectored}
use tcio.Buf.Vectored.{chunks_vectored-Fills}
use tcio.Io.Vectored.{poll_write_vectored-Gathers, poll_write_buf_vectored_lem}
use tcio.Io.{vec_writer, poll_write_all_buf, poll_write_vectored, poll_write_buf_vectored}
use tcio.Io.WriteAll.{Passed, Nothing, Writes, poll_write_all_buf_lem}

vec_writer-Writes : Writes (vec_writer {E = ℕ}) (λ me. me)
vec_writer-Writes buf me =
    (omega arith, ap (λ l. me ++ l) (sym (take_all (length buf) buf (omega arith))))

poll_write_all_buf_lem_example :
    Passed
      (λ s. Unit {0})
      (λ s. s)
      (λ me. me)
      (7 ∷ 8 ∷ 9 ∷ [])
      (Nothing (λ s. s))
      (poll_write_all_buf (vec_writer {E = ℕ}) slice_buf 0 (7 ∷ []) (8 ∷ 9 ∷ []))
poll_write_all_buf_lem_example =
    poll_write_all_buf_lem vec_writer slice_buf (λ me. me) vec_writer-Writes slice-Lawful 0 (7 ∷ [])
      (8 ∷ 9 ∷ []) tt

poll_write_buf_vectored_lem_example :
    Passed
      (λ s. Unit {0})
      (λ s. s)
      (λ me. me)
      (7 ∷ 8 ∷ 9 ∷ [])
      (λ _ s. Unit {0})
      (poll_write_buf_vectored
        (poll_write_vectored (vec_writer {E = ℕ}))
        slice_buf
        (chunks_vectored slice_buf)
        (7 ∷ [])
        (8 ∷ 9 ∷ []))
poll_write_buf_vectored_lem_example =
    poll_write_buf_vectored_lem (poll_write_vectored (vec_writer {E = ℕ})) slice_buf
      (chunks_vectored slice_buf) (λ me. me)
      (poll_write_vectored-Gathers (vec_writer {E = ℕ}) (λ me. me) vec_writer-Writes) slice-Lawful
      (chunks_vectored-Fills slice_buf slice-Lawful) (7 ∷ []) (8 ∷ 9 ∷ []) tt
