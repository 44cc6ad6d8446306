-- ===== src/Libft/Numbers.antt =====
-- 42_libft: ft_itoa.c and ft_atoi.c. An `int` that overflows is not modelled: the numbers of
-- `ft_atoi` are as large as its text says.
pub mod RoundTrip
use model_lib.Common.{
  ℕ, zero, suc, ◌+◌, ◌-◌, ◌*◌, ◌/◌, ◌%◌, ltb, leb, ◌==◌, ◌&&◌, ◌||◌, if◌then◌else◌, Bool, true,
  false, List, [], ◌∷◌, Option, none, some,
}
use model_lib.Common.Int.{ℤ}
use model_lib.Libft.Strings.{Text}

-- The loop of `ft_num_multi_digits` on fuel: `none` means that the fuel ran out.
pub num_loop : (fuel n multidigit : ℕ) → Option ℕ
num_loop zero n multidigit = none
num_loop (suc fuel) n multidigit =
    let rest = num_loop fuel (n / 10) (multidigit + 1) in if ltb 0 n then rest else some multidigit

pub ft_num_multi_digits : ℤ → Option ℕ
unfolding num_loop
ft_num_multi_digits (ℤ.pos n) = num_loop (n + 1) n (if n == 0 then 1 else 0)
ft_num_multi_digits (ℤ.negsuc n) =
    let rest = num_loop (n + 2) (n + 1) 1 in if n == 2147483647 then some 11 else rest

-- The loop of `ft_itoa`, which writes from the end; `string` is what it has written.
pub itoa_loop : (until n : ℕ) → (string : Text) → Text
itoa_loop zero n string = string
itoa_loop (suc until) n string = itoa_loop until (n / 10) ((n % 10 + b'0') ∷ string)

-- "-2147483648"
abbrev pub least : Text
least = b'-' ∷ b'2' ∷ b'1' ∷ b'4' ∷ b'7' ∷ b'4' ∷ b'8' ∷ b'3' ∷ b'6' ∷ b'4' ∷ b'8' ∷ []

-- The digits, behind the sign of a negative number.
abbrev pub itoa_text : (multidigit : ℕ) → ℤ → Text
itoa_text multidigit (ℤ.pos n) = itoa_loop multidigit n []
itoa_text multidigit (ℤ.negsuc n) =
    if n == 2147483647 then least else b'-' ∷ itoa_loop (multidigit - 1) (n + 1) []

-- Out of fuel, or else NULL or the text.
unfoldable pub ft_itoa : (malloc : ℕ → Bool) → ℤ → Option (Option Text)
unfolding ft_num_multi_digits itoa_loop
ft_itoa malloc n = elim (ft_num_multi_digits n) [
  | none ↦ none
  | some multidigit ↦ some (if malloc (multidigit + 1) then some (itoa_text multidigit n) else none)
]

abbrev pub is_space : ℕ → Bool
is_space c = c == b' ' || leb 9 c && leb c 13

pub skip_spaces : Text → Text
skip_spaces [] = []
skip_spaces (c ∷ str) = let rest = skip_spaces str in if is_space c then rest else c ∷ str

-- The loop over the digits.
pub digits_loop : (integer : ℕ) → Text → ℕ
digits_loop integer [] = integer
digits_loop integer (c ∷ str) =
    let rest = digits_loop (integer * 10 + (c - b'0')) str in
    if leb b'0' c && leb c b'9' then rest else integer

-- `integer * minus`.
abbrev pub signed : (minus : Bool) → ℕ → ℤ
signed minus zero = ℤ.pos 0
signed minus (suc n) = if minus then ℤ.negsuc n else ℤ.pos (suc n)

pub after_spaces : Text → ℤ
unfolding digits_loop
after_spaces [] = ℤ.pos 0
after_spaces (c ∷ str) =
    signed (c == b'-') (digits_loop 0 (if c == b'-' || c == b'+' then str else c ∷ str))

unfoldable pub ft_atoi : Text → ℤ
unfolding skip_spaces after_spaces
ft_atoi str = after_spaces (skip_spaces str)
