-- ===== src/ByteStr/Valid.antt =====
-- The invariant of src/bytes/bytestr.rs, and the operations that keep it.
use tcio.Base.{
  ℕ, suc, ◌+◌, ◌-◌, ◌≤◌, ◌<◌, ◌≡◌, ◌⊎◌, inl, inr, Bool, true, false, none, some, List, [], ◌∷◌, leb,
  length, take, drop, length-take, length-drop, arith, refl, ◌∙◌, sym,
}
use tcio.Base.Words.{word_mod}
use tcio.Memory.{Heap, Ensures, ok, panic, IsFreshBox, byte, Cells}
use tcio.Memory.Runs.{Ensures-bind, load_slice-ok}
use tcio.Memory.Cells.{Holds, Holds-take, Holds-drop}
use tcio.Shared.Backed.{Unsaturated}
use tcio.Bytes
use tcio.Bytes.{Bytes, bytes, slice_from_raw}
use tcio.Bytes.Valid.{IsBytes}
use tcio.Bytes.Truncate.{Truncated, truncate_lem}
use tcio.Bytes.Slice.{Sliced, slice_from_raw_lem}
use tcio.ByteStr
use tcio.ByteStr.{
  ByteStr, Outcome, valid, invalid, from_utf8, check_utf8, is_utf8, is_char_boundary, as_str,
  slice_ref, from_slice_of, Utf8Error, FromUtf8Error, valid_up_to, from_utf8_unchecked,
}
use tcio.ByteStr.Utf8.{is_utf8-cut, valid_up_to-is_utf8}

-- The handle is valid and shows the bytes, which are UTF-8.
pub record IsStr (h : Heap) (s : ByteStr) (xs : List ℕ) : Type 0 where
  pub shows : IsBytes h s.bytes xs
  pub utf8 : is_utf8 xs ≡ true

as_slice-ok : (h : Heap) (b : Bytes) (xs : List ℕ) → IsBytes h b xs → Bytes.as_slice b h ≡ ok xs h
unfolding Bytes.as_slice
as_slice-ok h b xs v = load_slice-ok h b.ptr b.len xs v.size v.holds

check_utf8-good : (xs : List ℕ) → is_utf8 xs ≡ true → check_utf8 xs ≡ none
unfolding check_utf8
check_utf8-good xs t = rw t refl

check_utf8-bad :
    (xs : List ℕ)
    → is_utf8 xs ≡ false
    → check_utf8 xs ≡ some (record { valid_up_to = valid_up_to 0 128 191 0 0 xs })
unfolding check_utf8
check_utf8-bad xs f = rw f refl

-- What the check of a handle gives back.
abbrev pub Checked : Heap → Bytes → List ℕ → Outcome → Heap → Type 0
Checked h b xs (valid s) h' = (h' ≡ h) × (s.bytes ≡ b) × IsStr h s xs
Checked h b xs (invalid e) h' =
    (h' ≡ h)
    × (e.bytes ≡ b)
    × (is_utf8 xs ≡ false)
    × (e.error.valid_up_to ≤ length xs)
    × (is_utf8 (take e.error.valid_up_to xs) ≡ true)

bool_cases : (b : Bool) → (b ≡ true) ⊎ (b ≡ false)
bool_cases true = inl refl
bool_cases false = inr refl

-- `from_utf8` of a valid handle makes a string of it if its bytes are UTF-8; else the error has the
-- handle back, and a position up to which the bytes are UTF-8. Nothing in memory changes.
pub from_utf8_lem :
    (h : Heap) (b : Bytes) (xs : List ℕ) → IsBytes h b xs → Ensures (Checked h b xs) (from_utf8 b h)
unfolding from_utf8
from_utf8_lem h b xs v = elim (bool_cases (is_utf8 xs)) [
  | inl t ↦
      rw (as_slice-ok h b xs v, check_utf8-good xs t) (refl, refl, record { shows = v; utf8 = t })
  | inr f ↦
      let (le, good) = valid_up_to-is_utf8 xs in
      rw (as_slice-ok h b xs v, check_utf8-bad xs f) (refl, refl, f, le, good)
]

-- `truncate` of a string, with a count that can still grow and a fresh address for a control block:
-- at a character boundary it leaves the string of the first `n` bytes, inside a character it
-- panics, and past the end nothing happens.
pub truncate_str_lem :
    (h : Heap) (k n : ℕ) (s : ByteStr) (xs : List ℕ)
    → IsStr h s xs
    → IsFreshBox k h
    → Unsaturated h s.bytes.data_word
    → (n ≤ length xs
        → is_char_boundary n xs ≡ true
        → Ensures (λ s' h'. IsStr h' s' (take n xs)) (ByteStr.truncate k n s h))
      × (n ≤ length xs → is_char_boundary n xs ≡ false → ByteStr.truncate k n s h ≡ panic)
      × (length xs < n → ByteStr.truncate k n s h ≡ ok s h)
unfolding ByteStr.truncate ByteStr.as_str
truncate_str_lem h k n s xs v f u = (
  λ le cut.
      let t : leb n s.bytes.len ≡ true = ground (arith, v.shows.size) in
      rw (t, as_slice-ok h s.bytes xs v.shows, cut)
        (Ensures-bind (Truncated h s.bytes xs n) (λ s' h'. IsStr h' s' (take n xs)) _ _
          (truncate_lem h k s.bytes xs n v.shows f u)
          λ b h' tr. record { shows = tr.view; utf8 = (is_utf8-cut n xs v.utf8 cut).0 }),
  λ le cut.
      let t : leb n s.bytes.len ≡ true = ground (arith, v.shows.size) in
      rw (t, as_slice-ok h s.bytes xs v.shows, cut) refl,
  λ gt. let t : leb n s.bytes.len ≡ false = ground (arith, v.shows.size) in rw t refl,
)

byte_lem : {x y : ℕ} → byte x ≡ byte y → x ≡ y
byte_lem e = ground (arith, e)

-- Cells hold one list of a length.
Holds-unique :
    (m : Cells) (p : ℕ) (xs ys : List ℕ)
    → length xs ≡ length ys
    → Holds m p xs
    → Holds m p ys
    → xs ≡ ys
Holds-unique m p [] [] e hx hy = refl
Holds-unique m p [] (y ∷ ys) e hx hy = absurd (omega arith)
Holds-unique m p (x ∷ xs) [] e hx hy = absurd (omega arith)
Holds-unique m p (x ∷ xs) (y ∷ ys) e (q, hx) (r, hy) =
    let same : x ≡ y = byte_lem (sym q ∙ r) in
    rw (same, Holds-unique m (suc p) xs ys (omega arith) hx hy) refl

-- `slice_ref` of a string that ends below 2 ^ 64, with a count that can still grow and a fresh
-- address for a control block: a `str` that lies in it gives a string on just those characters,
-- where they are, and leaves the first as it was; a `str` elsewhere panics.
slice_ref_lem :
    (h : Heap) (k addr : ℕ) (s : ByteStr) (xs ys : List ℕ)
    → IsStr h s xs
    → IsFreshBox k h
    → Unsaturated h s.bytes.data_word
    → s.bytes.ptr + s.bytes.len < word_mod
    → Holds h.cell addr ys
    → is_utf8 ys ≡ true
    → (s.bytes.ptr ≤ addr
        → addr + length ys ≤ s.bytes.ptr + s.bytes.len
        → Ensures
            (λ r h'. IsStr h' r.0 xs × IsStr h' r.1 ys × (r.1.bytes.ptr ≡ addr))
            (slice_ref k s.bytes.data_word addr (length ys) s h))
      × (((addr < s.bytes.ptr) ⊎ (s.bytes.ptr + s.bytes.len < addr + length ys))
          → slice_ref k s.bytes.data_word addr (length ys) s h ≡ panic)
unfolding slice_ref Bytes.slice_ref
slice_ref_lem h k addr s xs ys v f u fits holds good =
    let (inner, outer) = slice_from_raw_lem h k s.bytes xs addr (length ys) v.shows f u fits in
    (
      λ lo hi.
          let i = addr - s.bytes.ptr in
          let place : s.bytes.ptr + i ≡ addr = omega arith in
          let part =
            Holds-take h.cell (s.bytes.ptr + i) (length ys) (drop i xs)
              (Holds-drop h.cell s.bytes.ptr i xs (omega (arith, v.shows.size)) v.shows.holds) in
          let e : take (length ys) (drop i xs) ≡ ys =
            Holds-unique h.cell addr (take (length ys) (drop i xs)) ys
              (omega (arith, length-take (length ys) (drop i xs), length-drop i xs, v.shows.size))
              (rw place at part) holds in
          Ensures-bind (Sliced h s.bytes xs i (length ys))
            (λ r h'. IsStr h' r.0 xs × IsStr h' r.1 ys × (r.1.bytes.ptr ≡ addr)) _ _ (inner lo hi)
            λ r h' sl. (
              record { shows = sl.me_view; utf8 = v.utf8 },
              record { shows = rw e at sl.slice_view; utf8 = good },
              sl.place.1 ∙ omega arith,
            ),
      λ out. rw (outer out) refl,
    )
