-- ===== src/Fmt/Printable.antt =====
-- What src/fmt.rs writes can be shown on one line.
use tcio.Base.{
  ℕ, ◌+◌, ◌/◌, ◌%◌, ◌<◌, ◌≤◌, ◌≡◌, ◌⊎◌, inl, ◌*◌, refl, ap, sym, ◌∙◌, append_assoc, List, [], ◌∷◌,
  ◌++◌, arith,
}
use tcio.Fmt.{escape, display, debug, hex_digit}

abbrev pub AllBytes : List ℕ → Type 0
AllBytes [] = Unit {0}
AllBytes (b ∷ bs) = (b < 256) × AllBytes bs

-- ASCII that is graphic or one of the blanks tab, form feed and space.
abbrev pub Printable : ℕ → Type 0
Printable b = ((33 ≤ b) × (b ≤ 126)) ⊎ ((b ≡ 9) ⊎ ((b ≡ 12) ⊎ (b ≡ 32)))

abbrev pub AllPrintable : List ℕ → Type 0
AllPrintable [] = Unit {0}
AllPrintable (b ∷ bs) = Printable b × AllPrintable bs

AllPrintable-append : (xs ys : List ℕ) → AllPrintable xs → AllPrintable ys → AllPrintable (xs ++ ys)
AllPrintable-append [] ys p q = q
AllPrintable-append (x ∷ xs) ys (p, ps) q = (p, AllPrintable-append xs ys ps q)

hex_digit-Printable : (d : ℕ) → d < 16 → Printable (hex_digit d)
hex_digit-Printable d lt = ground arith

escape-Printable : (b : ℕ) → b < 256 → AllPrintable (escape b)
unfolding escape
escape-Printable b lt =
    ground
      (arith, hex_digit-Printable b, hex_digit-Printable (b / 16), hex_digit-Printable (b % 16))

display-Printable : (bs : List ℕ) → AllBytes bs → AllPrintable (display bs)
unfolding display
display-Printable [] a = tt
display-Printable (b ∷ bs) (lt, a) =
    AllPrintable-append (escape b) (display bs) (escape-Printable b lt) (display-Printable bs a)

-- `Debug` of the lossy formatter writes only graphic ASCII, tabs, form feeds and spaces for any
-- sequence of bytes, so that the result is one line.
pub debug-Printable : (bs : List ℕ) → AllBytes bs → AllPrintable (debug bs)
unfolding debug
debug-Printable bs a = (
  inl (omega arith, omega arith),
  (
    inl (omega arith, omega arith),
    AllPrintable-append (display bs) (34 ∷ []) (display-Printable bs a)
        (inl (omega arith, omega arith), tt),
  ),
)

display-append : (xs ys : List ℕ) → display (xs ++ ys) ≡ display xs ++ display ys
unfolding display
display-append [] ys = refl
display-append (x ∷ xs) ys =
    ap (λ l. escape x ++ l) (display-append xs ys)
    ∙ sym (append_assoc (escape x) (display xs) (display ys))

-- One digit and the digit that follows it are the two digits of another byte.
escape-ambiguous :
    (b d : ℕ)
    → 0 < b
    → b < 16
    → d < 16
    → ((b < 9) ⊎ ((b ≡ 11) ⊎ (13 < b)))
    → ((16 * b + d < 32) ⊎ (126 < 16 * b + d))
    → escape b ++ escape (hex_digit d) ≡ escape (16 * b + d)
unfolding escape
escape-ambiguous b d pos lt lt' own blank = ground arith

-- The lossy formatter writes a byte `b` from 1 to 15, other than 9, 10, 12 and 13, with one
-- hexadecimal digit: wherever the digit `d` stands behind it as a character, and the byte 16 b + d
-- is not printable, the result is what it is with that byte in the place of the two.
pub display-ambiguous :
    (xs ys : List ℕ) (b d : ℕ)
    → 0 < b
    → b < 16
    → d < 16
    → ((b < 9) ⊎ ((b ≡ 11) ⊎ (13 < b)))
    → ((16 * b + d < 32) ⊎ (126 < 16 * b + d))
    → display (xs ++ (b ∷ hex_digit d ∷ ys)) ≡ display (xs ++ ((16 * b + d) ∷ ys))
unfolding display
display-ambiguous xs ys b d pos lt lt' own blank =
    display-append xs (b ∷ hex_digit d ∷ ys)
    ∙ ap (λ l. display xs ++ l)
        (sym (append_assoc (escape b) (escape (hex_digit d)) (display ys))
          ∙ ap (λ l. l ++ display ys) (escape-ambiguous b d pos lt lt' own blank))
    ∙ sym (display-append xs ((16 * b + d) ∷ ys))
