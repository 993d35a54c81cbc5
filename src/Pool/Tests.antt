-- ===== src/Pool/Tests.antt =====
-- Runs of small programs over the handles of src/bytes/bytes.rs.
use tcio.Base.{◌≡◌, none, some, [], ◌∷◌, arith, refl}
use tcio.Memory.{
  Heap, Serves, IsFreshBox, unmapped, Ensures, over, fill, uninit, update, set_box, deallocate,
  with_capacity, to_vec, store_slice, all_mapped, load_box, drop_vec, ok,
}
use tcio.Samples.{allocator}
use tcio.Shared.{as_unpromoted, promote_with_vec, release}
use tcio.Bytes.{
  bytes, clone_inner, promote_ref, build_unpromoted_vec, drop_inner, copy_from_slice, from_vec,
}
use tcio.Pool.{Owner, IsPool}
use tcio.Pool.Act.{clone, drop_handle, split_off_at, run}
use tcio.Pool.Obey.{Leaves}
use tcio.Pool.Choose.{here, there}
use tcio.Pool.Safety.{
  state, Reach, copied_in, acted, start, next, Clean, Reach-IsPool, Reach-Clean, Reach-effect,
  drop_all, drop_all-Clean,
}

abbrev clean : Heap
clean = record { cell = λ a. unmapped; vecs = λ p. none; boxes = λ k. none }

clean-Clean : Clean clean
clean-Clean = record { vecs = λ p. refl; boxes = λ k. refl }

clean-Serves : Serves allocator clean
clean-Serves n pos le = record {
  enough = omega arith;
  bounded = le;
  unused = λ a lo hi. refl;
  new = refl;
}

clean-IsFreshBox : IsFreshBox 6 clean
clean-IsFreshBox = record { even = refl; positive = omega arith; new = refl }

abbrev copied_heap : Heap
copied_heap = record {
  cell = over (fill (λ a. unmapped) 1000 2 uninit) 1000 (5 ∷ 7 ∷ []);
  vecs = update (λ p. none) 1000 (some 2);
  boxes = λ k. none;
}

abbrev pair : Owner
pair = (bytes 1000 2 1, 5 ∷ 7 ∷ [])

copy_run : copy_from_slice 6 allocator (5 ∷ 7 ∷ []) clean ≡ ok (bytes 1000 2 1) copied_heap
unfolding copy_from_slice to_vec with_capacity store_slice all_mapped from_vec
copy_run = refl

one_handle : Reach (state clean []) (state copied_heap (pair ∷ []))
one_handle =
    next start
      (copied_in 6 allocator (5 ∷ 7 ∷ []) clean-IsFreshBox clean-Serves (omega arith) copy_run)

abbrev shared_two : Heap
shared_two = record copied_heap {
  boxes = update (λ k. none) 6 (some (record { ref_count = 2; ptr = 1000; cap = 2 }));
}

abbrev shared_one : Heap
shared_one = record copied_heap {
  boxes =
      update (update (λ k. none) 6 (some (record { ref_count = 2; ptr = 1000; cap = 2 }))) 6
        (some (record { ref_count = 1; ptr = 1000; cap = 2 }));
}

abbrev on_shared : Owner
on_shared = (bytes 1000 2 6, 5 ∷ 7 ∷ [])

clone-run :
    run 6 clone (bytes 1000 2 1) copied_heap ≡ ok (bytes 1000 2 6 ∷ bytes 1000 2 6 ∷ []) shared_two
unfolding run clone_inner promote_ref build_unpromoted_vec promote_with_vec as_unpromoted
clone-run = refl

copied_heap-IsFreshBox : IsFreshBox 6 copied_heap
copied_heap-IsFreshBox = record { even = refl; positive = omega arith; new = refl }

two_handles : Reach (state clean []) (state shared_two (on_shared ∷ on_shared ∷ []))
two_handles =
    next one_handle
      (acted 6 clone pair here copied_heap-IsFreshBox (omega arith) (omega arith) clone-run)

drop_run : run 8 drop_handle (bytes 1000 2 6) shared_two ≡ ok [] shared_one
unfolding run drop_inner as_unpromoted release load_box
drop_run = refl

shared_two-IsFreshBox : IsFreshBox 8 shared_two
shared_two-IsFreshBox = record { even = refl; positive = omega arith; new = refl }

shared_one-IsFreshBox : IsFreshBox 8 shared_one
shared_one-IsFreshBox = record { even = refl; positive = omega arith; new = refl }

one_left : Reach (state clean []) (state shared_one (on_shared ∷ []))
one_left = next two_handles (
    acted 8 drop_handle on_shared (there here) shared_two-IsFreshBox (omega arith) (omega arith)
      drop_run)

abbrev none_heap : Heap
none_heap = set_box 6 none (deallocate 1000 2 shared_one)

last_run : run 8 drop_handle (bytes 1000 2 6) shared_one ≡ ok [] none_heap
unfolding run drop_inner as_unpromoted release load_box drop_vec
last_run = refl

none_left : Reach (state clean []) (state none_heap [])
none_left =
    next one_left (
      acted 8 drop_handle on_shared here shared_one-IsFreshBox (omega arith) (omega arith) last_run)

two_IsPool : IsPool shared_two (on_shared ∷ on_shared ∷ [])
two_IsPool =
    Reach-IsPool clean (state shared_two (on_shared ∷ on_shared ∷ [])) clean-Clean two_handles

Reach-effect_example :
    Ensures
      (Leaves (on_shared ∷ []) ((5 ∷ []) ∷ (7 ∷ []) ∷ []))
      (run 8 (split_off_at 1) (bytes 1000 2 6) shared_two)
Reach-effect_example =
    Reach-effect clean (state shared_two (on_shared ∷ on_shared ∷ [])) 8 (split_off_at 1) on_shared
      (on_shared ∷ []) clean-Clean two_handles (there here) shared_two-IsFreshBox (omega arith)
      (omega arith)

Reach-IsPool_example : IsPool shared_one (on_shared ∷ [])
Reach-IsPool_example = Reach-IsPool clean (state shared_one (on_shared ∷ [])) clean-Clean one_left

Reach-Clean_example : Clean none_heap
Reach-Clean_example = Reach-Clean clean none_heap clean-Clean none_left

drop_all-Clean_example :
    Ensures (λ _ h'. Clean h') (drop_all (on_shared ∷ on_shared ∷ []) shared_two)
drop_all-Clean_example =
    drop_all-Clean shared_two (on_shared ∷ on_shared ∷ []) two_IsPool (omega arith)
