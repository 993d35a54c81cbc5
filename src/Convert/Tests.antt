-- ===== src/Convert/Tests.antt =====
-- The conversions of src/bytes on small heaps.
use tcio.Base.{[], ◌∷◌, arith}
use tcio.Memory.{Ensures}
use tcio.Samples.{
  owned_heap, shared_heap, owned_bytes, shared_bytes, owned_mut, allocator, owned_mut-IsMut,
  owned_bytes-IsBytes, shared_bytes-IsBytes, owned_heap-IsFreshBox, owned_heap-Serves,
  shared_heap-Serves,
}
use tcio.Bytes.Valid.{IsBytes}
use tcio.Convert.{freeze, into_vec, into_mut}
use tcio.Convert.Freeze.{freeze_lem}
use tcio.Convert.IntoVec.{Taken, into_vec_lem}
use tcio.Convert.IntoMut.{TakenMut, into_mut_lem}

freeze_lem_example : Ensures (λ b h. IsBytes h b (20 ∷ 30 ∷ [])) (freeze 6 owned_mut owned_heap)
freeze_lem_example =
    freeze_lem owned_heap 6 owned_mut (20 ∷ 30 ∷ []) owned_mut-IsMut owned_heap-IsFreshBox

into_vec_lem_example :
    Ensures
      (Taken owned_heap owned_bytes (20 ∷ 30 ∷ 40 ∷ []))
      (into_vec allocator owned_bytes owned_heap)
into_vec_lem_example =
    into_vec_lem allocator owned_bytes owned_heap (20 ∷ 30 ∷ 40 ∷ []) owned_bytes-IsBytes
      owned_heap-Serves (omega arith) (omega arith)

into_mut_lem_example :
    Ensures
      (TakenMut (shared_heap 2) shared_bytes (10 ∷ 20 ∷ 30 ∷ []))
      (into_mut allocator shared_bytes (shared_heap 2))
into_mut_lem_example =
    into_mut_lem allocator shared_bytes (shared_heap 2) (10 ∷ 20 ∷ 30 ∷ [])
      (shared_bytes-IsBytes 2 (omega arith)) (shared_heap-Serves 2) (omega arith) (omega arith)
