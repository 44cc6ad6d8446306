-- ===== src/Libft/Strings.antt =====
-- 42_libft: ft_strlen.c, ft_substr.c. A string is the list of its bytes
-- before the NUL. `malloc` is a parameter: whether a call succeeds.
pub mod Substr
use model_lib.Common.{
  ℕ, zero, suc, ◌+◌, ◌-◌, ltb, leb, ◌==◌, ◌&&◌, ◌||◌, if◌then◌else◌, Bool, true, false, List, [],
  ◌∷◌, ◌++◌, Option, none, some, get_elem?,
}

abbrev pub Text : Type 0
Text = List ℕ

-- `string[i]`, which is NUL at the end.
abbrev pub char_at : Text → ℕ → ℕ
char_at [] i = 0
char_at (c ∷ s) zero = c
char_at (c ∷ s) (suc i) = char_at s i

-- The loop, at the counter `i`, on what is left of the string.
strlen_loop : Text → ℕ → ℕ
strlen_loop [] i = i
strlen_loop (c ∷ s) i = strlen_loop s (i + 1)

unfoldable pub ft_strlen : Text → ℕ
unfolding strlen_loop
ft_strlen string = strlen_loop string 0

-- The bytes that `ft_substr` asks for.
pub substr_size : (length_of_s start len : ℕ) → ℕ
substr_size length_of_s start len =
    if len == 0 || leb length_of_s start
    then 1
    else if ltb (length_of_s - start) len
    then length_of_s - start + 1
    else len + 1

-- The loop of `ft_substr` on fuel: `none` means that the fuel ran out.
substr_loop : (fuel : ℕ) → Text → (i start len length_of_s : ℕ) → Text → Option Text
substr_loop zero s i start len length_of_s substring = none
substr_loop (suc fuel) s i start len length_of_s substring =
    elim (ltb i len && ltb start length_of_s) [
      | false ↦ some substring
      | true ↦
          substr_loop fuel s (i + 1) (start + 1) len length_of_s (substring ++ char_at s start ∷ [])
    ]

-- `none` is NULL. `s` itself is not NULL.
unfoldable pub ft_substr : (malloc : ℕ → Bool) → Text → (start len : ℕ) → Option Text
unfolding substr_loop substr_size ft_strlen
ft_substr malloc s start len =
    let length_of_s = ft_strlen s in
    if malloc (substr_size length_of_s start len)
    then substr_loop (length_of_s + 1) s 0 start len length_of_s []
    else none
