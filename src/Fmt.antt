-- ===== src/Fmt.antt =====
-- src/fmt.rs: the lossy formatter, as the list of the characters that it writes.
pub mod Printable
mod Tests
use tcio.Base.{
  ℕ, ◌+◌, ◌-◌, ◌/◌, ◌%◌, Bool, true, false, ◌&&◌, ◌||◌, List, [], ◌∷◌, ◌++◌, ltb, leb, ◌==◌,
  if◌then◌else◌,
}

-- `u8::is_ascii_graphic` and `u8::is_ascii_whitespace`
abbrev pub is_ascii_graphic : ℕ → Bool
is_ascii_graphic b = leb 33 b && leb b 126

abbrev pub is_ascii_whitespace : ℕ → Bool
is_ascii_whitespace b = b == 9 || b == 10 || b == 12 || b == 13 || b == 32

-- A digit of `{b:x}`.
abbrev pub hex_digit : ℕ → ℕ
hex_digit d = if ltb d 10 then 48 + d else 87 + d

-- `{b:x}` of a byte, which has no leading zero.
abbrev pub lower_hex : ℕ → List ℕ
lower_hex b = if ltb b 16 then hex_digit b ∷ [] else hex_digit (b / 16) ∷ hex_digit (b % 16) ∷ []

-- What is written for one byte.
pub escape : ℕ → List ℕ
escape b =
    if b == 13
    then 92 ∷ 114 ∷ []
    else if b == 10
    then 92 ∷ 110 ∷ []
    else if is_ascii_graphic b || is_ascii_whitespace b
    then b ∷ []
    else 92 ∷ 120 ∷ lower_hex b

-- `Display` of `LossyFmt`
pub display : List ℕ → List ℕ
display [] = []
display (b ∷ bs) = escape b ++ display bs

-- `Debug` of `LossyFmt`
pub debug : List ℕ → List ℕ
debug bs = 98 ∷ 34 ∷ (display bs ++ 34 ∷ [])
