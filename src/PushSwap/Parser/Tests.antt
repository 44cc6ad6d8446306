-- ===== src/PushSwap/Parser/Tests.antt =====
-- Concrete runs of 42_push_swap/src/parser.c.
use model_lib.Common.{◌≢◌, ◌≡◌, ◌↔◌, refl, true, false, List, [], ◌∷◌, AllPairs, arith}
use model_lib.Common.Int.{ℤ}
use model_lib.Libft.Strings.{Text}
use model_lib.PushSwap.Parser.{ft_same, ft_atoi_check, error_free, int_min_text}
use model_lib.PushSwap.Parser.Decimal.{Number}
use model_lib.PushSwap.Parser.Number.{ft_atoi_check-Number}
use model_lib.PushSwap.Parser.Same.{ft_same-Number}
use model_lib.PushSwap.Parser.Arguments.{Numbers, error_free-Numbers}

-- "+07"
abbrev plus_seven : Text
plus_seven = b'+' ∷ b'0' ∷ b'7' ∷ []

abbrev seven : Text
seven = b'7' ∷ []

-- "-0"
abbrev minus_zero : Text
minus_zero = b'-' ∷ b'0' ∷ []

-- "2147483648"
abbrev too_large : Text
too_large = b'2' ∷ b'1' ∷ b'4' ∷ b'7' ∷ b'4' ∷ b'8' ∷ b'3' ∷ b'6' ∷ b'4' ∷ b'8' ∷ []

plus_seven_run : ft_atoi_check plus_seven false ≡ (ℤ.pos 7, false)
unfolding ft_atoi_check
plus_seven_run = refl

minus_zero_run : (ft_atoi_check minus_zero false).1 ≡ true
unfolding ft_atoi_check
minus_zero_run = refl

too_large_run : ft_atoi_check too_large false ≡ (ℤ.pos 0, true)
unfolding ft_atoi_check
too_large_run = refl

least_run : ft_atoi_check int_min_text false ≡ (ℤ.negsuc 2147483647, false)
unfolding ft_atoi_check
least_run = refl

ft_atoi_check-Number_example :
    (ft_atoi_check plus_seven false ≡ (ℤ.pos 7, false)) ↔ Number plus_seven (ℤ.pos 7)
ft_atoi_check-Number_example = ft_atoi_check-Number plus_seven (ℤ.pos 7)

ft_same-Number_example : (ft_same plus_seven seven ≡ true) ↔ (ℤ.pos 7 ≡ ℤ.pos 7)
ft_same-Number_example =
    ft_same-Number plus_seven seven (ℤ.pos 7) (ℤ.pos 7)
      (Number.plus (b'0' ∷ b'7' ∷ []) (omega arith) (ground arith) (omega arith))
      (Number.plain (b'7' ∷ []) (omega arith) (ground arith) (omega arith))

error_free-Numbers_example : (error_free (seven ∷ int_min_text ∷ plus_seven ∷ []) ≡ true) ↔ (
    (vs : List ℤ) × Numbers (seven ∷ int_min_text ∷ plus_seven ∷ []) vs
    × AllPairs (λ v w. v ≢ w) vs)
error_free-Numbers_example = error_free-Numbers (seven ∷ int_min_text ∷ plus_seven ∷ [])
