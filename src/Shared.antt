-- ===== src/Shared.antt =====
-- src/bytes/shared.rs: the word that a handle keeps beside its pointer, and the control block with
-- its reference count. The word is null (0), odd with an offset in the upper bits (unpromoted), or
-- the even address of a control block (promoted).
pub mod Backed
pub mod Steps
pub mod Keep
use tcio.Base.{ℕ, ◌+◌, ◌-◌, ◌*◌, ◌/◌, ◌%◌, ◌^◌, Bool, Option, none, some, ltb, ◌==◌, if◌then◌else◌}
use tcio.Base.Words.{word_mod, isize_max}
use tcio.Memory.{
  Shared, Heap, Run, ok, abort, Cmd, pure, ◌>>=◌, ◌>>◌, assert, Vec, load_box, set_box, drop_vec,
}

abbrev pub data_promoted : ℕ
data_promoted = 0

abbrev pub data_unpromoted : ℕ
data_unpromoted = 1

abbrev pub null : ℕ
null = 0

-- `ptr::null_mut().wrapping_add(DATA_UNPROMOTED)`
abbrev pub new_unpromoted : ℕ
new_unpromoted = null + data_unpromoted

-- `data & DATA_MASK`, where the mask is 1, is the word modulo 2.
abbrev pub is_unpromoted : ℕ → Bool
is_unpromoted word = word % 2 == data_unpromoted

abbrev pub is_promoted : ℕ → Bool
is_promoted word = word % 2 == data_promoted

-- `Result<usize, &Shared>`
pub data Storage : Type 0 where
  unpromoted : ℕ → Storage
  promoted : Shared → Storage

-- `as_unpromoted`, `as_unpromoted_mut` and `into_unpromoted` differ only in the kind of reference.
unfoldable pub as_unpromoted : ℕ → Cmd Storage
unfolding load_box
as_unpromoted word =
    if is_unpromoted word
    then pure (unpromoted (word / 2))
    else do s ← load_box word; pure (promoted s)

unfoldable pub to_unpromoted : ℕ → Option ℕ
to_unpromoted word = if is_unpromoted word then some (word / 2) else none

-- `(value << RESERVED_BIT_DATA) | DATA_UNPROMOTED`: the lowest bit of the shifted value is clear.
pub mask_payload : ℕ → ℕ → Cmd ℕ
mask_payload word value = do
  assert (is_unpromoted word)
  assert (value / 2 ^ 63 % 2 == 0)
  pure (value * 2 % word_mod + data_unpromoted)

-- `k` is the address that the allocator returns for the `Box`.
unfoldable pub promote_with_vec : ℕ → Vec → ℕ → Cmd ℕ
promote_with_vec k vec ref_count h =
    ok k (set_box k (some (record { ref_count = ref_count; ptr = vec.ptr; cap = vec.cap })) h)

unfoldable pub is_unique : Shared → Bool
is_unique shared = shared.ref_count == 1

-- `ref_count.fetch_add(1)`, and the abort of a count that went past `isize::MAX`.
unfoldable pub increment : ℕ → Cmd (Unit {0})
unfolding load_box
increment word = do
  shared ← load_box word
  λ h.
      let h' =
        set_box word (some (record shared { ref_count = (shared.ref_count + 1) % word_mod })) h in
      if ltb isize_max shared.ref_count then abort else ok tt h'

abbrev decrement : ℕ → Shared → Heap → Heap
decrement word s h =
    set_box word (some (record s { ref_count = (s.ref_count + word_mod - 1) % word_mod })) h

-- The last reference gives back the buffer and the control block.
unfoldable pub release : ℕ → Cmd (Unit {0})
unfolding load_box drop_vec
release word = do
  shared ← load_box word
  if shared.ref_count == 1
      then (do
        drop_vec (record { ptr = shared.ptr; len = 0; cap = shared.cap })
        λ h. ok tt (set_box word none h))
      else λ h. ok tt (decrement word shared h)

pub release_into_vec : ℕ → ℕ → Cmd (Option Vec)
unfolding load_box
release_into_vec word len = do
  shared ← load_box word
  λ h.
      if shared.ref_count == 1
      then ok (some (record { ptr = shared.ptr; len = len; cap = shared.cap }))
          (set_box word none h)
      else ok none (decrement word shared h)
