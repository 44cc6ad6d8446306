-- ===== src/Libft/Compare.antt =====
-- 42_libft: ft_strncmp.c and ft_strnstr.c. A pointer into a string is the offset into it.
pub mod Prefix
pub mod Search
use model_lib.Common.{
  ℕ, zero, suc, ◌+◌, ◌-◌, leb, ◌==◌, ◌&&◌, ◌||◌, not, if◌then◌else◌, Bool, true, false, List, [],
  ◌∷◌, Option, none, some, drop,
}
use model_lib.Common.Int.{ℤ, ◌-ℤ◌}
use model_lib.Libft.Strings.{Text, char_at, ft_strlen}

-- Two bytes that are equal and not both NUL are no NUL, so that both strings go on.
unfoldable pub ft_strncmp : (s1 s2 : Text) → (until : ℕ) → ℤ
unfolding ◌-ℤ◌
ft_strncmp s1 s2 zero = ℤ.pos 0
ft_strncmp s1 s2 (suc until) =
    let rest = ft_strncmp (drop 1 s1) (drop 1 s2) until in
    if not (char_at s1 0 == 0) || not (char_at s2 0 == 0)
    then if not (char_at s1 0 == char_at s2 0)
      then ℤ.pos (char_at s1 0) -ℤ ℤ.pos (char_at s2 0)
      else rest
    else ℤ.pos 0

abbrev pub is_zero : ℤ → Bool
is_zero (ℤ.pos zero) = true
is_zero _ = false

-- The loop of `ft_strnstr`, at the offset `i`.
pub strnstr_loop : (small_str : Text) → (small_len i : ℕ) → (big_str : Text) → (len : ℕ) → Option ℕ
unfolding ft_strncmp
strnstr_loop small_str small_len i [] len = none
strnstr_loop small_str small_len i (c ∷ big_str) len =
    let rest = strnstr_loop small_str small_len (i + 1) big_str (len - 1) in
    if leb small_len len
    then if c == char_at small_str 0 && is_zero (ft_strncmp (c ∷ big_str) small_str small_len)
      then some i
      else rest
    else none

-- `none` is NULL.
unfoldable pub ft_strnstr : (big_str small_str : Text) → (len : ℕ) → Option ℕ
unfolding strnstr_loop ft_strlen
ft_strnstr big_str small_str len =
    if char_at small_str 0 == 0
    then some 0
    else strnstr_loop small_str (ft_strlen small_str) 0 big_str len
