-- ===== src/Buf/Tests.antt =====
-- The buffers of src/bytes/buf.rs, take.rs and chain.rs on short slices.
use tcio.Base.{length, ℕ, ◌≡◌, ◌≢◌, [], ◌∷◌, ◌++◌, List, some, arith, refl, take}
use tcio.Buf.Slots.{chunks_vectored, take_vectored, chain_vectored}
use tcio.Buf.Vectored.{
  concat, Fills, Complete, chunks_vectored-Fills, chunks_vectored-Complete, take_vectored-Fills,
}
use tcio.Buf.Gather.{chain_vectored-Fills, chain_vectored-gap}
use tcio.Buf.{Chain, chain_buf, slice_buf, copy_to_slice, try_get_int, from_le_bytes, to_le_bytes}
use tcio.Buf.Lawful.{Lawful}
use tcio.Buf.Copy.{Copied, copy_to_slice_lem, slice-Lawful}
use tcio.Buf.Adapters.{Both, joint, chain-Lawful}
use tcio.Buf.Ints.{try_get_int-to_le_bytes}

abbrev two : Chain (List ℕ) (List ℕ)
two = record { a = 1 ∷ 2 ∷ []; b = 3 ∷ [] }

chain-Lawful_example :
    Lawful
      (chain_buf slice_buf slice_buf)
      (Both slice-Lawful slice-Lawful)
      (joint slice-Lawful slice-Lawful)
chain-Lawful_example = chain-Lawful slice-Lawful slice-Lawful

copy_to_slice_lem_example :
    Copied
      (chain-Lawful slice-Lawful slice-Lawful)
      3
      (1 ∷ 2 ∷ 3 ∷ [])
      (copy_to_slice (chain_buf slice_buf slice_buf) 3 two)
copy_to_slice_lem_example =
    (copy_to_slice_lem (chain-Lawful slice-Lawful slice-Lawful) 3 two ((tt, tt), omega arith)).0
      (omega arith)

try_get_int-to_le_bytes_example :
    try_get_int slice_buf 2 from_le_bytes (210 ∷ 4 ∷ 99 ∷ []) ≡ some (some 1234, 99 ∷ [])
unfolding to_le_bytes
try_get_int-to_le_bytes_example = try_get_int-to_le_bytes 2 1234 (99 ∷ []) (omega arith)

slice_vectored-Fills : Fills (chunks_vectored slice_buf) (λ s. Unit {0}) (λ s. s)
slice_vectored-Fills = chunks_vectored-Fills slice_buf slice-Lawful

slice_vectored-Complete : Complete (chunks_vectored slice_buf) (λ s. Unit {0}) (λ s. s)
slice_vectored-Complete = chunks_vectored-Complete slice_buf slice-Lawful (λ s v. refl)

take_vectored-Fills_example :
    Fills (take_vectored (chunks_vectored slice_buf)) (λ t. Unit {0}) (λ t. take t.limit t.inner)
take_vectored-Fills_example = take_vectored-Fills slice_vectored-Fills

chain_vectored-Fills_example :
    Fills
      (chain_vectored (chunks_vectored slice_buf) (chunks_vectored slice_buf))
      (λ c. Unit {0} × Unit {0})
      (λ c. c.a ++ c.b)
chain_vectored-Fills_example =
    chain_vectored-Fills slice_vectored-Fills slice_vectored-Fills slice_vectored-Complete

-- A chain whose first part is a chain that uses the default: the third byte is left out.
abbrev gathered : List ℕ
gathered = concat (
    chain_vectored (chunks_vectored (chain_buf slice_buf slice_buf)) (chunks_vectored slice_buf) 64
      (record { a = two; b = 4 ∷ [] }))

chain_vectored-gap_example : gathered ≢ take (length gathered) (1 ∷ 2 ∷ 3 ∷ 4 ∷ [])
chain_vectored-gap_example =
    chain_vectored-gap (chain_buf slice_buf slice_buf) slice_buf 64 3 4
      (record { a = two; b = 4 ∷ [] }) [] [] (chain-Lawful slice-Lawful slice-Lawful) slice-Lawful
      ((tt, tt), omega arith) tt (omega arith) refl refl (omega arith)
