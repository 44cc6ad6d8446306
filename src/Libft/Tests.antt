-- ===== src/Libft/Tests.antt =====
-- Concrete runs of 42_libft.
use model_lib.Common.{
  ℕ, ◌+◌, ◌≡◌, ◌↔◌, arith, refl, if◌then◌else◌, true, Bool, leb, [], ◌∷◌, some, none, length, take,
  drop,
}
use model_lib.Libft.Strings.{Text, ft_strlen, substr_size, ft_substr}
use model_lib.Libft.Strings.Substr.{ft_substr_lem}
use model_lib.Libft.Split.{ft_split, Filled}
use model_lib.Common.Int.{ℤ, ◌-ℤ◌}
use model_lib.Libft.Compare.{ft_strncmp, ft_strnstr}
use model_lib.Libft.Compare.Prefix.{ft_strncmp-take}
use model_lib.Libft.Compare.Search.{ft_strnstr-FindsFirst, FindsFirst}
use model_lib.Libft.Find.{as_char, ft_strchr, ft_strrchr}
use model_lib.Libft.Find.Place.{IsFirst, IsLast, ft_strchr-IsFirst, ft_strrchr-IsLast}
use model_lib.Libft.Numbers.{ft_itoa, ft_atoi}
use model_lib.Libft.Numbers.RoundTrip.{ft_atoi-ft_itoa}
use model_lib.Libft.Split.Loop.{ft_split_lem, Splits}

-- "a bc "
abbrev text : Text
text = b'a' ∷ b' ' ∷ b'b' ∷ b'c' ∷ b' ' ∷ []

-- An allocator with room for up to 24 bytes at a time.
abbrev small : ℕ → ℕ → Bool
small call size = leb size 24

split_run : ft_split small text b' ' ≡ Filled.filled ((b'a' ∷ []) ∷ (b'b' ∷ b'c' ∷ []) ∷ [])
unfolding ft_split ft_substr ft_strlen
split_run = refl

-- An allocator that fails on its third call.
abbrev thrice : ℕ → ℕ → Bool
thrice call size = leb call 1

split_freed_run : ft_split thrice text b' ' ≡ Filled.freed ((b'a' ∷ []) ∷ [])
unfolding ft_split ft_substr ft_strlen
split_freed_run = refl

substr_run : ft_substr (λ size. leb size 24) text 2 7 ≡ some (b'b' ∷ b'c' ∷ b' ' ∷ [])
unfolding ft_substr ft_strlen
substr_run = refl

ft_substr_lem_example :
    let size = substr_size (length text) 2 7 in
    let part = take 7 (drop 2 text) in
    (ft_substr (λ size. leb size 24) text 2 7 ≡ (if leb size 24 then some part else none))
    × (length part + 1 ≡ size)
ft_substr_lem_example = ft_substr_lem (λ size. leb size 24) text 2 7

ft_split_lem_example : Splits small b' ' text (ft_split small text b' ')
ft_split_lem_example = ft_split_lem small b' ' text

-- "bc" in "a bc ": found within four bytes, not within three.
abbrev part : Text
part = b'b' ∷ b'c' ∷ []

strnstr_run : ft_strnstr text part 4 ≡ some 2
unfolding ft_strnstr ft_strlen ft_strncmp
strnstr_run = refl

strnstr_short_run : ft_strnstr text part 3 ≡ none
unfolding ft_strnstr ft_strlen ft_strncmp
strnstr_short_run = refl

strncmp_run : ft_strncmp (b'a' ∷ b'b' ∷ []) (b'a' ∷ b'd' ∷ []) 5 ≡ ℤ.negsuc 1
unfolding ft_strncmp ◌-ℤ◌
strncmp_run = refl

ft_strncmp-take_example : (ft_strncmp text part 2 ≡ ℤ.pos 0) ↔ (take 2 text ≡ take 2 part)
ft_strncmp-take_example = ft_strncmp-take text part 2 (ground arith) (ground arith)

ft_strnstr-FindsFirst_example : FindsFirst text part 4 0 (ft_strnstr text part 4)
ft_strnstr-FindsFirst_example = ft_strnstr-FindsFirst text part 4 (ground arith) (ground arith)

itoa_run : ft_itoa (λ size. true) (ℤ.negsuc 40) ≡ some (some (b'-' ∷ b'4' ∷ b'1' ∷ []))
unfolding ft_itoa
itoa_run = refl

-- " +41x"
atoi_run : ft_atoi (b' ' ∷ b'+' ∷ b'4' ∷ b'1' ∷ b'x' ∷ []) ≡ ℤ.pos 41
unfolding ft_atoi
atoi_run = refl

ft_atoi-ft_itoa_example :
    (text : Text) × (size : ℕ) × (ft_itoa (λ size. true) (ℤ.negsuc 40)
      ≡ some (if true then some text else none))
    × (ft_atoi text ≡ ℤ.negsuc 40)
ft_atoi-ft_itoa_example = ft_atoi-ft_itoa (λ size. true) (ℤ.negsuc 40) (omega arith)

strchr_run : ft_strchr text b' ' ≡ some 1
unfolding ft_strchr
strchr_run = refl

strrchr_run : ft_strrchr text b' ' ≡ some 4
unfolding ft_strrchr ft_strlen
strrchr_run = refl

strchr_end_run : ft_strchr text 256 ≡ some 5
unfolding ft_strchr
strchr_end_run = refl

ft_strchr-IsFirst_example : IsFirst text (as_char b' ') 0 (ft_strchr text b' ')
ft_strchr-IsFirst_example = ft_strchr-IsFirst text b' '

ft_strrchr-IsLast_example : IsLast text (as_char b' ') (length text + 1) (ft_strrchr text b' ')
ft_strrchr-IsLast_example = ft_strrchr-IsLast text b' '
