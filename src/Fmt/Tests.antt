-- ===== src/Fmt/Tests.antt =====
-- The example of src/fmt.rs.
use tcio.Base.{inl, ◌≡◌, refl, [], ◌∷◌, arith}
use tcio.Fmt.{display, debug, escape}
use tcio.Fmt.Printable.{AllPrintable, display-ambiguous, debug-Printable}

display_controls :
    display (13 ∷ 10 ∷ 67 ∷ 18 ∷ []) ≡ 92 ∷ 114 ∷ 92 ∷ 110 ∷ 67 ∷ 92 ∷ 120 ∷ 49 ∷ 50 ∷ []
unfolding display escape
display_controls = refl

debug-Printable_example : AllPrintable (debug (13 ∷ 65 ∷ 200 ∷ []))
debug-Printable_example =
    debug-Printable (13 ∷ 65 ∷ 200 ∷ []) (omega arith, (omega arith, (omega arith, tt)))

display-ambiguous_example : display (65 ∷ 1 ∷ 98 ∷ 66 ∷ []) ≡ display (65 ∷ 27 ∷ 66 ∷ [])
display-ambiguous_example =
    display-ambiguous (65 ∷ []) (66 ∷ []) 1 11 (omega arith) (omega arith) (omega arith)
      (inl (omega arith)) (inl (omega arith))
