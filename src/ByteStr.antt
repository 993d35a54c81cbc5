-- ===== src/ByteStr.antt =====
-- src/bytes/bytestr.rs: a handle of src/bytes/bytes.rs whose bytes are UTF-8. What it uses of
-- `str` is written out: the check of `str::from_utf8` and `is_char_boundary`. `k` is the address
-- that the allocator returns if the call promotes the handle.
pub mod Utf8
pub mod Valid
pub mod Strings
mod Tests
use tcio.Base.{
  ℕ, zero, suc, ◌+◌, Bool, true, false, not, Option, none, some, List, [], ◌∷◌, ltb, leb, ◌==◌,
  ◌&&◌, ◌||◌, if◌then◌else◌, length,
}
use tcio.Memory.{Cmd, pure, ◌>>=◌, ◌>>◌, assert, Vec, Allocator}
use tcio.Bytes
use tcio.Bytes.{Bytes}
use tcio.Convert.{into_vec}

-- A byte that goes on with a character: 10xxxxxx.
abbrev pub is_continuation : ℕ → Bool
is_continuation b = leb 128 b && leb b 191

-- How many bytes follow the first of a character, and the bounds of the second.
pub record Lead : Type 0 where
  pub more : ℕ
  pub low : ℕ
  pub high : ℕ

abbrev lead : ℕ → ℕ → ℕ → Lead
lead n lo hi = record { more = n; low = lo; high = hi }

-- The well-formed sequences: no overlong form, no surrogate, nothing past U+10FFFF.
pub lead_of : ℕ → Option Lead
lead_of b =
    if ltb b 128
    then some (lead 0 128 191)
    else if ltb b 194
    then none
    else if leb b 223
    then some (lead 1 128 191)
    else if b == 224
    then some (lead 2 160 191)
    else if b == 237
    then some (lead 2 128 159)
    else if leb b 239
    then some (lead 2 128 191)
    else if b == 240
    then some (lead 3 144 191)
    else if leb b 243
    then some (lead 3 128 191)
    else if b == 244
    then some (lead 3 128 143)
    else none

-- `more` bytes of a character are to come, the first of them from `low` to `high`.
abbrev pub scan : (more low high : ℕ) → List ℕ → Bool
scan zero low high [] = true
scan (suc n) low high [] = false
scan zero low high (b ∷ bs) = elim (lead_of b) [
  | none ↦ false
  | some l ↦ scan l.more l.low l.high bs
]
scan (suc n) low high (b ∷ bs) = leb low b && leb b high && scan n 128 191 bs

abbrev pub is_utf8 : List ℕ → Bool
is_utf8 xs = scan 0 128 191 xs

-- The length of the part before the first character that is not well formed: `seen` bytes were
-- read, and up to `good` they are whole characters.
abbrev pub valid_up_to : (more low high seen good : ℕ) → List ℕ → ℕ
valid_up_to zero low high seen good [] = seen
valid_up_to (suc n) low high seen good [] = good
valid_up_to zero low high seen good (b ∷ bs) = elim (lead_of b) [
  | none ↦ seen
  | some l ↦ valid_up_to l.more l.low l.high (suc seen) seen bs
]
valid_up_to (suc n) low high seen good (b ∷ bs) =
    let rest = valid_up_to n 128 191 (suc seen) good bs in
    if leb low b && leb b high then rest else good

-- `core::str::Utf8Error`, without its second field.
pub record Utf8Error : Type 0 where
  pub valid_up_to : ℕ

-- `str::from_utf8`
pub check_utf8 : List ℕ → Option Utf8Error
check_utf8 xs =
    if is_utf8 xs then none else some (record { valid_up_to = valid_up_to 0 128 191 0 0 xs })

abbrev at_boundary : ℕ → List ℕ → Bool
at_boundary zero [] = true
at_boundary zero (b ∷ bs) = not (is_continuation b)
at_boundary (suc n) [] = false
at_boundary (suc n) (b ∷ bs) = at_boundary n bs

-- `str::is_char_boundary`
abbrev pub is_char_boundary : ℕ → List ℕ → Bool
is_char_boundary n xs = n == 0 || at_boundary n xs

pub record ByteStr : Type 0 where
  pub bytes : Bytes

pub record FromUtf8Error : Type 0 where
  pub bytes : Bytes
  pub error : Utf8Error

-- `Result<ByteStr, FromUtf8Error>`
pub data Outcome : Type 0 where
  valid : ByteStr → Outcome
  invalid : FromUtf8Error → Outcome

abbrev str_of : Bytes → ByteStr
str_of b = record { bytes = b }

unfoldable pub new : ByteStr
new = str_of Bytes.new

-- The match on what `str::from_utf8` returns.
abbrev outcome : Bytes → Option Utf8Error → Outcome
outcome bytes none = valid (str_of bytes)
outcome bytes (some error) = invalid (record { bytes = bytes; error = error })

pub from_utf8 : Bytes → Cmd Outcome
from_utf8 bytes = do xs ← Bytes.as_slice bytes; pure (outcome bytes (check_utf8 xs))

-- The test is one of the debug build.
abbrev pub from_utf8_unchecked : Bytes → ByteStr
from_utf8_unchecked bytes = str_of bytes

-- A `&str` is an address and a length, and `seen` is as in `Bytes::clone_inner`.
unfoldable pub from_slice_of : (k seen addr len : ℕ) → Bytes → Cmd (Bytes × ByteStr)
from_slice_of k seen addr len bytes = do
  (me, part) ← Bytes.slice_from_raw k seen addr len bytes
  pure (me, str_of part)

pub copy_from_str : ℕ → Allocator → List ℕ → Cmd ByteStr
copy_from_str k g string = do b ← Bytes.copy_from_slice k g string; pure (str_of b)

unfoldable pub from_static : ℕ → ℕ → ByteStr
from_static p n = str_of (Bytes.from_static p n)

-- `From<Box<str>>` and `From<String>`
unfoldable pub from_box : ℕ → ℕ → ByteStr
from_box p n = str_of (Bytes.from_box p n)

pub from_string : ℕ → Vec → Cmd ByteStr
from_string k value = do b ← Bytes.from_vec k value; pure (str_of b)

pub as_str : ByteStr → Cmd (List ℕ)
as_str me = Bytes.as_slice me.bytes

unfoldable pub truncate : (k new_len : ℕ) → ByteStr → Cmd ByteStr
truncate k new_len me =
    if leb new_len me.bytes.len
    then (do
      xs ← as_str me
      assert (is_char_boundary new_len xs)
      b ← Bytes.truncate k new_len me.bytes
      pure (str_of b))
    else pure me

unfoldable pub clear : ByteStr → Cmd ByteStr
clear me = do b ← Bytes.clear me.bytes; pure (str_of b)

unfoldable pub is_unique : ByteStr → Cmd Bool
is_unique me = Bytes.is_unique me.bytes

pub slice_ref : (k seen addr len : ℕ) → ByteStr → Cmd (ByteStr × ByteStr)
slice_ref k seen addr len me = do
  (b, part) ← Bytes.slice_ref k seen addr len me.bytes
  pure (str_of b, str_of part)

pub into_string : Allocator → ByteStr → Cmd Vec
into_string g me = into_vec g me.bytes

unfoldable pub into_bytes : ByteStr → Bytes
into_bytes me = me.bytes

-- `#[derive(Clone)]`
pub clone : (k seen : ℕ) → ByteStr → Cmd (ByteStr × ByteStr)
clone k seen me = do (b, other) ← Bytes.clone_inner k seen me.bytes; pure (str_of b, str_of other)

pub utf8_error : FromUtf8Error → Utf8Error
utf8_error me = me.error

unfoldable pub as_bytes : FromUtf8Error → Cmd (List ℕ)
as_bytes me = Bytes.as_slice me.bytes

pub take_bytes : FromUtf8Error → Bytes
take_bytes me = me.bytes
