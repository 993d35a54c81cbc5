-- ===== src/Num/Tests.antt =====
-- The unit tests of src/num/num.rs that show the edges, and the theorems at concrete inputs.
use tcio.Base.{ℕ, ◌≡◌, refl, none, some, List, [], ◌∷◌, arith}
use tcio.Base.Int.{negsuc, ◌*ℤ◌, ◌+ℤ◌, ◌-ℤ◌}
use tcio.Num.{try_fold, atoi_step, split_sign, sign_value, atou, wrapping_atou, atoi}
use tcio.Num.Unsigned.{atou_lem}
use tcio.Num.Signed.{atoi_lem}
use Prim.Native.String.{String}
use Prim.Native.Char.{code}

abbrev codes : String → List ℕ
codes String.[] = []
codes (String.◌∷◌ c s) = code c ∷ codes s

atou_max : atou (codes "18446744073709551615") ≡ some 18446744073709551615
unfolding atou
atou_max = refl

atou_over : atou (codes "18446744073709551616") ≡ none
unfolding atou
atou_over = refl

wrapping_atou_over : wrapping_atou (codes "18446744073709551616") ≡ some 0
unfolding wrapping_atou
wrapping_atou_over = refl

atoi_min : atoi (codes "-9223372036854775808") ≡ some (negsuc 9223372036854775807)
unfolding atoi try_fold atoi_step split_sign sign_value ◌*ℤ◌ ◌+ℤ◌ ◌-ℤ◌
atoi_min = refl

atoi_over : atoi (codes "9223372036854775808") ≡ none
unfolding atoi try_fold atoi_step split_sign sign_value ◌*ℤ◌ ◌+ℤ◌ ◌-ℤ◌
atoi_over = refl

atou_lem_example : atou (codes "1024") ≡ some 1024
atou_lem_example = atou_lem (codes "1024") (omega arith)

atoi_lem_example : atoi (codes "-255") ≡ some (negsuc 254)
atoi_lem_example = atoi_lem (codes "-255") (omega arith)
