-- ===== src/PushSwap/Parser.antt =====
-- 42_push_swap/src/parser.c: the check of the arguments. A text is given by its bytes before the NUL.
pub mod Arguments
pub mod Decimal
pub mod Number
pub mod Same
mod Tests
use model_lib.Common.{
  ℕ, zero, suc, ◌+◌, ◌-◌, ◌*◌, ltb, leb, ◌==◌, ◌&&◌, ◌||◌, not, if◌then◌else◌, Bool, true, false,
  List, [], ◌∷◌, ◌++◌, Option, none, some,
}
use model_lib.Common.Int.{ℤ}
use model_lib.Libft.Strings.{Text}
use model_lib.PushSwap.Position.{int_max}

-- -INT_MIN.
abbrev pub int_min_size : ℕ
int_min_size = 2147483648

abbrev pub is_digit : ℕ → Bool
is_digit c = leb b'0' c && leb c b'9'

abbrev pub is_sign : ℕ → Bool
is_sign c = c == b'+' || c == b'-'

-- The loop of `trim_zero`.
pub skip_zeros : Text → Text
skip_zeros [] = []
skip_zeros (c ∷ string) = if c == b'0' then skip_zeros string else c ∷ string

pub trim_zero : Text → Text
unfolding skip_zeros
trim_zero [] = []
trim_zero (c ∷ string) = if is_sign c then skip_zeros string else skip_zeros (c ∷ string)

-- `*s == '-'`.
abbrev pub starts_minus : Text → Bool
starts_minus [] = false
starts_minus (c ∷ s) = c == b'-'

-- The loop of `ft_same` and its two last tests.
pub same_loop : Text → Text → Bool
same_loop [] [] = true
same_loop (c ∷ s1) (d ∷ s2) = if c == d then same_loop s1 s2 else false
same_loop _ _ = false

unfoldable pub ft_same : Text → Text → Bool
unfolding same_loop trim_zero
ft_same s1 s2 =
    let s1minus = starts_minus s1 in
    let s2minus = starts_minus s2 in
    if (s1minus && not s2minus) || (not s1minus && s2minus)
    then false
    else same_loop (trim_zero s1) (trim_zero s2)

-- "-2147483648"
abbrev pub int_min_text : Text
int_min_text = b'-' ∷ b'2' ∷ b'1' ∷ b'4' ∷ b'7' ∷ b'4' ∷ b'8' ∷ b'3' ∷ b'6' ∷ b'4' ∷ b'8' ∷ []

-- The test in the loop of `ft_atoi_check`.
abbrev pub overflows : (minus : Bool) → ℕ → Bool
overflows minus n = (minus && ltb int_min_size n) || ltb int_max n

-- The loop of `ft_atoi_check` while no error is set: `none` is the return on overflow, else the
-- number and what is left of the text. The number stays far below the bounds of a `long`.
pub atoi_loop : (minus : Bool) → Text → (res : ℕ) → Option (ℕ × Text)
atoi_loop minus [] res = some (res, [])
atoi_loop minus (c ∷ str) res =
    let next = res * 10 + (c - b'0') in
    let rest = atoi_loop minus str next in
    if not (is_digit c) then some (res, c ∷ str) else if overflows minus next then none else rest

abbrev pub is_empty : Text → Bool
is_empty [] = true
is_empty (c ∷ s) = false

-- `res * minus`.
abbrev pub with_sign : (minus : Bool) → ℕ → ℤ
with_sign minus zero = ℤ.pos 0
with_sign minus (suc n) = if minus then ℤ.negsuc n else ℤ.pos (suc n)

-- The last test of `ft_atoi_check` and its result.
pub atoi_end : (minus error : Bool) → ℕ × Text → ℤ × Bool
atoi_end minus error (res, str) =
    (with_sign minus res, error || not (is_empty str) || (res == 0 && minus))

-- The part of `ft_atoi_check` behind the sign.
pub atoi_digits : (minus error : Bool) → Text → ℤ × Bool
unfolding atoi_loop atoi_end
atoi_digits minus error str =
    if error
    then atoi_end minus error (0, str)
    else elim (atoi_loop minus str 0) [ none ↦ (ℤ.pos 0, true) | some r ↦ atoi_end minus error r ]

-- The number, and `*error` after the call; `str` is not NULL.
unfoldable pub ft_atoi_check : Text → (error : Bool) → ℤ × Bool
unfolding ft_same atoi_digits
ft_atoi_check [] error = (ℤ.pos 0, true)
ft_atoi_check (c ∷ str) error =
    if c == b'+' && is_empty str
    then (ℤ.pos 0, true)
    else if ft_same int_min_text (c ∷ str)
    then (ℤ.negsuc 2147483647, error)
    else atoi_digits (c == b'-') error (if is_sign c then str else c ∷ str)

-- The inner loop of `error_free`: the first `i` texts against the one at `i`.
pub any_same : Text → List Text → Bool
unfolding ft_same
any_same text [] = false
any_same text (m ∷ memory) = if ft_same text m then true else any_same text memory

-- The outer loop of `error_free`, behind the texts that were checked, first to last.
pub error_free_loop : (checked rest : List Text) → Bool
unfolding any_same ft_atoi_check
error_free_loop checked [] = true
error_free_loop checked (text ∷ rest) =
    let later = error_free_loop (checked ++ text ∷ []) rest in
    if (ft_atoi_check text false).1 then false else if any_same text checked then false else later

-- Whether no error is found; the message is written otherwise. `memory` is not NULL.
unfoldable pub error_free : List Text → Bool
unfolding error_free_loop
error_free memory = error_free_loop [] memory
