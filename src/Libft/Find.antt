-- ===== src/Libft/Find.antt =====
-- 42_libft: ft_strchr.c and ft_strrchr.c. A pointer into the string is the offset into it, `none` is
-- NULL, and `c` is a character whatever `int` it comes as.
pub mod Place
use model_lib.Common.{
  ℕ, zero, suc, ◌+◌, ◌%◌, ◌==◌, if◌then◌else◌, List, [], ◌∷◌, Option, none, some,
}
use model_lib.Libft.Strings.{Text, char_at, ft_strlen}

-- `(char)c`, for a `c` of at least 0, as a byte
abbrev pub as_char : ℕ → ℕ
as_char c = c % 256

-- The loop, at the offset `i`, and the test behind it.
pub strchr_loop : (ch : ℕ) → (string : Text) → (i : ℕ) → Option ℕ
strchr_loop ch [] i = if ch == 0 then some i else none
strchr_loop ch (c ∷ string) i =
    let rest = strchr_loop ch string (i + 1) in if c == ch then some i else rest

unfoldable pub ft_strchr : Text → (c : ℕ) → Option ℕ
unfolding strchr_loop
ft_strchr string c = strchr_loop (as_char c) string 0

-- The second loop, which goes down; its counter is one less than the first argument.
pub strrchr_loop : (above : ℕ) → (string : Text) → (ch : ℕ) → Option ℕ
strrchr_loop zero string ch = none
strrchr_loop (suc i) string ch =
    let rest = strrchr_loop i string ch in if char_at string i == ch then some i else rest

-- The first loop is that of `ft_strlen`.
unfoldable pub ft_strrchr : Text → (c : ℕ) → Option ℕ
unfolding strrchr_loop ft_strlen
ft_strrchr string c =
    let i = ft_strlen string in
    if as_char c == 0 then some i else strrchr_loop (i + 1) string (as_char c)
