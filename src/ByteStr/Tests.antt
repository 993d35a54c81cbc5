-- ===== src/ByteStr/Tests.antt =====
-- Runs of src/bytes/bytestr.rs on small strings.
use tcio.Base.{◌≤◌, ◌≡◌, ◌<◌, true, false, [], ◌∷◌, refl, arith, none}
use tcio.Memory.{Heap, Ensures, ok, panic, unmapped, over, IsFreshBox}
use tcio.Bytes.{bytes}
use tcio.Bytes.Valid.{IsBytes, static}
use tcio.ByteStr
use tcio.ByteStr.{
  ByteStr, is_utf8, is_char_boundary, valid_up_to, from_utf8, lead_of, copy_from_str, into_string,
  slice_ref,
}
use tcio.ByteStr.Valid.{IsStr, Checked, from_utf8_lem, truncate_str_lem}

-- "é", "€", U+10348, an overlong slash, a surrogate, a lone continuation.
two_bytes : is_utf8 (195 ∷ 169 ∷ []) ≡ true
unfolding lead_of
two_bytes = refl

three_bytes : is_utf8 (226 ∷ 130 ∷ 172 ∷ []) ≡ true
unfolding lead_of
three_bytes = refl

four_bytes : is_utf8 (240 ∷ 144 ∷ 141 ∷ 136 ∷ []) ≡ true
unfolding lead_of
four_bytes = refl

overlong : is_utf8 (192 ∷ 175 ∷ []) ≡ false
unfolding lead_of
overlong = refl

surrogate : is_utf8 (237 ∷ 160 ∷ 128 ∷ []) ≡ false
unfolding lead_of
surrogate = refl

cut_short : valid_up_to 0 128 191 0 0 (97 ∷ 226 ∷ 130 ∷ []) ≡ 1
unfolding lead_of
cut_short = refl

-- "aé" in static memory.
abbrev static_heap : Heap
static_heap = record {
  cell = over (λ a. unmapped) 50 (97 ∷ 195 ∷ 169 ∷ []);
  vecs = λ p. none;
  boxes = λ k. none;
}

abbrev static_str : ByteStr
static_str = record { bytes = bytes 50 3 0 }

static_str-IsBytes : IsBytes static_heap (bytes 50 3 0) (97 ∷ 195 ∷ 169 ∷ [])
static_str-IsBytes = record {
  size = refl;
  holds = (refl, (refl, (refl, tt)));
  standing = static refl;
}

static_str-IsStr : IsStr static_heap static_str (97 ∷ 195 ∷ 169 ∷ [])
unfolding lead_of
static_str-IsStr = record { shows = static_str-IsBytes; utf8 = refl }

static_heap-IsFreshBox : IsFreshBox 6 static_heap
static_heap-IsFreshBox = record { even = refl; positive = omega arith; new = refl }

from_utf8_lem_example :
    Ensures
      (Checked static_heap (bytes 50 3 0) (97 ∷ 195 ∷ 169 ∷ []))
      (from_utf8 (bytes 50 3 0) static_heap)
from_utf8_lem_example =
    from_utf8_lem static_heap (bytes 50 3 0) (97 ∷ 195 ∷ 169 ∷ []) static_str-IsBytes

truncate_str_lem_example :
    (1 ≤ 3
      → true ≡ true
      → Ensures (λ s' h'. IsStr h' s' (97 ∷ [])) (ByteStr.truncate 6 1 static_str static_heap))
    × (1 ≤ 3 → true ≡ false → ByteStr.truncate 6 1 static_str static_heap ≡ panic)
    × (3 < 1 → ByteStr.truncate 6 1 static_str static_heap ≡ ok static_str static_heap)
truncate_str_lem_example =
    truncate_str_lem static_heap 6 1 static_str (97 ∷ 195 ∷ 169 ∷ []) static_str-IsStr
      static_heap-IsFreshBox (omega arith)

ascii : is_utf8 (20 ∷ 30 ∷ 40 ∷ []) ≡ true
unfolding lead_of
ascii = refl
