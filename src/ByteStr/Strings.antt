-- ===== src/ByteStr/Strings.antt =====
-- Strings of src/bytes/bytestr.rs from and to other types, their clones and their end.
use tcio.Base.{ℕ, ◌≤◌, ◌<◌, ◌≡◌, ◌≢◌, true, List, [], length, refl}
use tcio.Base.Words.{isize_max, word_mod}
use tcio.Memory.{Heap, Ensures, IsFreshBox, Allocator, Serves, Vec}
use tcio.Memory.Runs.{Ensures-bind, Ensures-mono}
use tcio.Shared.Backed.{Unsaturated, refs}
use tcio.Bytes
use tcio.Bytes.{Bytes, drop_inner}
use tcio.Bytes.Valid.{IsBytes}
use tcio.Bytes.Clone.{Cloned, clone_inner_lem}
use tcio.Bytes.Drop.{Dropped, drop_inner_lem}
use tcio.Bytes.Advance.{IsBytes-empty}
use tcio.Convert.Vectors.{IsVec}
use tcio.Convert.FromVec.{from_vec_lem, copy_from_slice_lem}
use tcio.Convert.IntoVec.{Taken, into_vec_lem}
use tcio.ByteStr
use tcio.ByteStr.{ByteStr, is_utf8, copy_from_str, from_string, into_string}
use tcio.ByteStr.Valid.{IsStr}

-- A string copied from a `str` of at most 2 ^ 63 - 1 bytes, with an allocator that answers and a
-- fresh address for a control block, has the same characters.
copy_from_str_lem :
    (h : Heap) (k : ℕ) (g : Allocator) (xs : List ℕ)
    → is_utf8 xs ≡ true
    → IsFreshBox k h
    → Serves g h
    → length xs ≤ isize_max
    → Ensures (λ s h'. IsStr h' s xs) (copy_from_str k g xs h)
unfolding copy_from_str
copy_from_str_lem h k g xs t f serves le =
    Ensures-bind (λ b h'. IsBytes h' b xs) (λ s h'. IsStr h' s xs) _ _
      (copy_from_slice_lem h k g xs f serves le) λ b h' v. record { shows = v; utf8 = t }

from_string_lem :
    (h : Heap) (k : ℕ) (v : Vec) (xs : List ℕ)
    → IsVec h v xs
    → is_utf8 xs ≡ true
    → IsFreshBox k h
    → Ensures (λ s h'. IsStr h' s xs) (from_string k v h)
unfolding from_string
from_string_lem h k v xs iv t f =
    Ensures-bind (λ b h'. IsBytes h' b xs) (λ s h'. IsStr h' s xs) _ _ (from_vec_lem h k v xs iv f)
      λ b h' v'. record { shows = v'; utf8 = t }

-- `into_string` of a string of at most 2 ^ 63 - 1 bytes, with a count below 2 ^ 64 and an allocator
-- that answers, gives a vector that owns its buffer and has the same bytes, which are UTF-8: the
-- unchecked `String::from_utf8_unchecked` is sound.
into_string_lem :
    (g : Allocator) (h : Heap) (s : ByteStr) (xs : List ℕ)
    → IsStr h s xs
    → Serves g h
    → s.bytes.len ≤ isize_max
    → refs h s.bytes.data_word < word_mod
    → Ensures (λ v h'. IsVec h' v xs × (is_utf8 xs ≡ true)) (into_string g s h)
unfolding into_string
into_string_lem g h s xs v serves small count =
    Ensures-mono (Taken h s.bytes xs) (λ r h'. IsVec h' r xs × (is_utf8 xs ≡ true)) _
      (into_vec_lem g s.bytes h xs v.shows serves small count) λ r h' t. (t.vec, v.utf8)

clone_str_lem :
    (h : Heap) (k : ℕ) (s : ByteStr) (xs : List ℕ)
    → IsStr h s xs
    → IsFreshBox k h
    → Unsaturated h s.bytes.data_word
    → Ensures (λ r h'. IsStr h' r.0 xs × IsStr h' r.1 xs) (ByteStr.clone k s.bytes.data_word s h)
unfolding ByteStr.clone
clone_str_lem h k s xs v f u =
    Ensures-bind (Cloned h s.bytes xs) (λ r h'. IsStr h' r.0 xs × IsStr h' r.1 xs) _ _
      (clone_inner_lem h k s.bytes xs v.shows f u)
      λ r h' cl. (
        record { shows = cl.me_view; utf8 = v.utf8 },
        record { shows = cl.clone_view; utf8 = v.utf8 },
      )

-- `clear` leaves the empty string.
clear_str_lem :
    (h : Heap) (s : ByteStr) (xs : List ℕ)
    → IsStr h s xs
    → (s.bytes.data_word ≢ 0 → refs h s.bytes.data_word < word_mod)
    → Ensures (λ s' h'. IsStr h' s' []) (ByteStr.clear s h)
unfolding ByteStr.clear Bytes.clear
clear_str_lem h s xs v count =
    Ensures-bind (λ b h'. IsBytes h' b []) (λ s' h'. IsStr h' s' []) _ _
      (Ensures-bind (λ _. Dropped h s.bytes.data_word s.bytes.ptr s.bytes.len)
        (λ b h'. IsBytes h' b []) _ _ (drop_inner_lem h s.bytes v.shows.standing count)
        λ _ h' d. IsBytes-empty h' s.bytes.ptr)
      λ b h' e. record { shows = e; utf8 = refl }
