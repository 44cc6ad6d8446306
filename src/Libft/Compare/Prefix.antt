-- ===== src/Libft/Compare/Prefix.antt =====
-- `ft_strncmp` is zero for strings with one beginning, and `ft_strnstr` finds the first occurrence.
use model_lib.Common.{
  ℕ, zero, suc, ◌≢◌, ◌≡◌, ◌↔◌, refl, ap, sym, ◌∙◌, ◌==◌, not, ◌||◌, Bool-cases, true, false, [],
  ◌∷◌, take, arith, All, inl, inr,
}
use model_lib.Common.Int.{ℤ, ◌-ℤ◌, pos_part, neg_part, -ℤ_parts}
use model_lib.Libft.Strings.{Text, char_at}
use model_lib.Libft.Compare.{ft_strncmp}

-- A string of the program: no byte of it is the NUL.
abbrev pub IsText : Text → Type 0
IsText s = All (λ c. c ≢ 0) s

difference : (c d : ℕ) → ℤ.pos c -ℤ ℤ.pos d ≡ ℤ.pos 0 → c ≡ d
difference c d e =
    omega (arith, -ℤ_parts (ℤ.pos c) (ℤ.pos d), ap (λ x. pos_part x) e, ap (λ x. neg_part x) e)

strncmp_same :
    (c : ℕ) (s t : Text) (n : ℕ) → c ≢ 0 → ft_strncmp (c ∷ s) (c ∷ t) (suc n) ≡ ft_strncmp s t n
unfolding ft_strncmp
strncmp_same c s t n h =
    let z : (c == 0) ≡ false = ground (arith, h) in
    let e : (c == c) ≡ true = ground arith in rw (z, e, ft_strncmp)

strncmp_apart : (s t : Text) (n : ℕ) → char_at s 0 ≢ char_at t 0 → ft_strncmp s t (suc n) ≢ ℤ.pos 0
unfolding ft_strncmp
strncmp_apart s t n h e =
    let z : (not (char_at s 0 == 0) || not (char_at t 0 == 0)) ≡ true = ground (arith, h) in
    let d : (char_at s 0 == char_at t 0) ≡ false = ground (arith, h) in
    h (difference (char_at s 0) (char_at t 0) (rw (z, d, ft_strncmp) at e))

-- `ft_strncmp` is zero exactly if the first `until` bytes of the strings agree.
pub ft_strncmp-take :
    (s t : Text) (until : ℕ)
    → IsText s
    → IsText t
    → (ft_strncmp s t until ≡ ℤ.pos 0) ↔ (take until s ≡ take until t)
unfolding ft_strncmp
ft_strncmp-take s t zero p q = (λ e. refl, λ e. refl)
ft_strncmp-take [] [] (suc n) p q = (λ e. refl, λ e. refl)
ft_strncmp-take (c ∷ s) [] (suc n) p q =
    (λ e. absurd (strncmp_apart (c ∷ s) [] n p.0 e), λ e. absurd (cc e))
ft_strncmp-take [] (d ∷ t) (suc n) p q =
    (λ e. absurd (strncmp_apart [] (d ∷ t) n (λ z. q.0 (sym z)) e), λ e. absurd (cc e))
ft_strncmp-take (c ∷ s) (d ∷ t) (suc n) p q = elim (Bool-cases (c == d)) [
  | inl h ↦
      let same : d ≡ c = ground arith in
      let (there, back) = ft_strncmp-take s t n p.1 q.1 in
      rw same (
        λ e. ap (◌∷◌ c) (there (sym (strncmp_same c s t n p.0) ∙ e)),
        λ e. let tails : take n s ≡ take n t = cc e in strncmp_same c s t n p.0 ∙ back tails,
      )
  | inr h ↦
      let apart : c ≢ d = ground arith in
      (
        λ e. absurd (strncmp_apart (c ∷ s) (d ∷ t) n apart e),
        λ e. let head : c ≡ d = cc e in absurd (apart head),
      )
]
