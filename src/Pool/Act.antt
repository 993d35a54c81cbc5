-- ===== src/Pool/Act.antt =====
-- The actions of a program on one handle of src/bytes/bytes.rs, and what each does to the bytes
-- that the handles show.
use tcio.Base.{
  ℕ, ◌-◌, Option, none, some, List, [], ◌∷◌, length, take, drop, leb, if◌then◌else◌, ◌&&◌,
}
use tcio.Memory.{Cmd, pure, ◌>>=◌, ◌>>◌}
use tcio.Bytes.{
  Bytes, Bound, clone_inner, drop_inner, advance, try_split_off, try_split_to, slice_bound,
  truncate, clear,
}
use tcio.Bytes.Slice.{begin_of, end_of}

pub data Action : Type 0 where
  clone drop_handle clear_all : Action
  advance_by split_off_at split_to_at truncate_to : ℕ → Action
  slice_of : Bound → Bound → Action

abbrev pub to_list : Option Bytes → List Bytes
to_list none = []
to_list (some b) = b ∷ []

-- The run of an action, and the handles that are left for the one it took. `k` is the address that
-- the allocator returns if the action promotes the handle.
unfoldable pub run : ℕ → Action → Bytes → Cmd (List Bytes)
run k clone b = do (me, other) ← clone_inner k b.data_word b; pure (me ∷ other ∷ [])
run k drop_handle b = do drop_inner b; pure []
run k clear_all b = do me ← clear b; pure (me ∷ [])
run k (advance_by n) b = do me ← advance n b; pure (me ∷ [])
run k (split_off_at n) b = do (me, other) ← try_split_off k n b; pure (me ∷ to_list other)
run k (split_to_at n) b = do (me, other) ← try_split_to k n b; pure (me ∷ to_list other)
run k (truncate_to n) b = do me ← truncate k n b; pure (me ∷ [])
run k (slice_of s e) b = do (me, other) ← slice_bound k b.data_word s e b; pure (me ∷ other ∷ [])

-- What the action does where every handle is a list of its own: `none` is a panic.
abbrev pub effect : Action → List ℕ → Option (List (List ℕ))
effect clone xs = some (xs ∷ xs ∷ [])
effect drop_handle xs = some []
effect clear_all xs = some ([] ∷ [])
effect (advance_by n) xs = if leb n (length xs) then some (drop n xs ∷ []) else none
effect (split_off_at n) xs =
    if leb n (length xs) then some (take n xs ∷ drop n xs ∷ []) else some (xs ∷ [])
effect (split_to_at n) xs =
    if leb n (length xs) then some (drop n xs ∷ take n xs ∷ []) else some (xs ∷ [])
effect (truncate_to n) xs = some (take n xs ∷ [])
effect (slice_of s e) xs =
    if leb (end_of (length xs) e) (length xs) && leb (begin_of s) (end_of (length xs) e)
    then some (xs ∷ take (end_of (length xs) e - begin_of s) (drop (begin_of s) xs) ∷ [])
    else none
