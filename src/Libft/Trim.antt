-- ===== src/Libft/Trim.antt =====
-- 42_libft: ft_strlcpy.c and ft_strtrim.c, for strings that are no NULL; the allocation of
-- ft_strtrim succeeds.
use model_lib.Common.{
  ℕ, zero, suc, ◌+◌, ◌-◌, ltb, leb, ◌==◌, if◌then◌else◌, Bool, true, false, [], ◌∷◌, none, some,
  take, drop,
}
use model_lib.Libft.Strings.{Text, char_at, ft_strlen}
use model_lib.Libft.Find.{ft_strchr}

-- The bytes that the loop of `ft_strlcpy` writes.
pub strlcpy_loop : (room : ℕ) → (src : Text) → Text
strlcpy_loop zero src = []
strlcpy_loop (suc room) [] = []
strlcpy_loop (suc room) (c ∷ src) = c ∷ strlcpy_loop room src

-- The string at `dst`, and the result.
pub ft_strlcpy : (dst src : Text) → (dstsize : ℕ) → Text × ℕ
unfolding strlcpy_loop
ft_strlcpy dst src dstsize =
    let src_len = ft_strlen src in
    if dstsize == 0
    then (dst, src_len)
    else let copied = strlcpy_loop dstsize src in
      (if leb dstsize src_len then take (dstsize - 1) copied else copied, src_len)

-- Whether `ft_strchr` finds the character, which the NUL always is.
pub is_in : (set : Text) → ℕ → Bool
is_in set c = elim (ft_strchr set c) [ none ↦ false | some i ↦ true ]

-- The first loop, at the offset `start`, on what is left of the string with its NUL.
pub start_loop : (set : Text) → Text → (start : ℕ) → ℕ
unfolding is_in
start_loop set [] start = if is_in set 0 then start + 1 else start
start_loop set (c ∷ s1) start =
    let rest = start_loop set s1 (start + 1) in if is_in set c then rest else start

-- The second loop, which a byte that is not in the set ends before `end` is 0.
pub end_loop : (set s1 : Text) → (end : ℕ) → ℕ
unfolding is_in
end_loop set s1 zero = zero
end_loop set s1 (suc end) =
    let rest = end_loop set s1 end in if is_in set (char_at s1 end) then rest else suc end

unfoldable pub ft_strtrim : (s1 set : Text) → Text
unfolding start_loop end_loop ft_strlcpy
ft_strtrim s1 set =
    let end = ft_strlen s1 in
    let start = start_loop set s1 0 in
    if ltb end start
    then []
    else let end' = end_loop set s1 end in (ft_strlcpy [] (drop start s1) (end' - start + 1)).0
