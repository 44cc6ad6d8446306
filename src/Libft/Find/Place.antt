-- ===== src/Libft/Find/Place.antt =====
-- `ft_strchr` gives the first place of a character, and `ft_strrchr` the last; the NUL counts.
use model_lib.Common.{
  ℕ, zero, suc, ◌+◌, ◌≤◌, ◌<◌, ◌≢◌, ◌≡◌, refl, ap, sym, ◌∙◌, ◌==◌, Bool-cases, [], ◌∷◌, Option,
  none, some, length, arith, ◌⊎◌, inl, inr,
}
use model_lib.Libft.Strings.{Text, char_at}
use model_lib.Libft.Strings.Substr.{ft_strlen-length}
use model_lib.Libft.Find.{as_char, strchr_loop, ft_strchr, strrchr_loop, ft_strrchr}

-- The first offset of the character, counted from `i`, or there is none.
abbrev pub IsFirst : (s : Text) (ch i : ℕ) → Option ℕ → Type 0
IsFirst s ch i r =
    ((j : ℕ) × (r ≡ some (i + j))
      × (j ≤ length s)
      × (char_at s j ≡ ch)
      × ((k : ℕ) → k < j → char_at s k ≢ ch))
    ⊎ ((r ≡ none) × ((k : ℕ) → k ≤ length s → char_at s k ≢ ch))

step_first :
    (c : ℕ) (s : Text) (ch j : ℕ)
    → c ≢ ch
    → ((k : ℕ) → k < j → char_at s k ≢ ch)
    → (k : ℕ) → k < suc j
    → char_at (c ∷ s) k ≢ ch
step_first c s ch j h f zero b e = h e
step_first c s ch j h f (suc k) b e = f k (omega arith) e

strchr_loop_lem : (ch : ℕ) (s : Text) (i : ℕ) → IsFirst s ch i (strchr_loop ch s i)
unfolding strchr_loop
strchr_loop_lem ch [] i = elim (Bool-cases (ch == 0)) [
  | inl t ↦
      let sum : i ≡ i + 0 = omega arith in
      inl (
        0,
        rw (t, strchr_loop) (ap some sum),
        omega arith,
        ground (arith, t),
        λ k b. absurd (omega (arith, b)),
      )
  | inr t ↦ inr (rw (t, strchr_loop), λ k b e. ground (arith, t, e))
]
strchr_loop_lem ch (c ∷ s) i = elim (Bool-cases (c == ch)) [
  | inl t ↦
      let sum : i ≡ i + 0 = omega arith in
      inl (
        0,
        rw (t, strchr_loop) (ap some sum),
        omega arith,
        ground (arith, t),
        λ k b. absurd (omega (arith, b)),
      )
  | inr t ↦
      let h : c ≢ ch = ground (arith, t) in
      elim (strchr_loop_lem ch s (i + 1)) [
        | inl (j, e, b, o, f) ↦
            let sum : i + 1 + j ≡ i + suc j = omega arith in
            inl (
              suc j,
              rw (t, strchr_loop) (e ∙ ap some sum),
              omega (arith, b),
              o,
              step_first c s ch j h f,
            )
        | inr (e, f) ↦ inr (
          rw (t, strchr_loop) e,
          λ k b.
              step_first c s ch (suc (length s)) h (λ k b. f k (omega (arith, b))) k
                (omega (arith, b)),
        )
      ]
]

-- `ft_strchr` gives the first place of the character, which may be the NUL at the end, or NULL.
pub ft_strchr-IsFirst : (s : Text) (c : ℕ) → IsFirst s (as_char c) 0 (ft_strchr s c)
unfolding ft_strchr
ft_strchr-IsFirst s c = strchr_loop_lem (as_char c) s 0

-- The last offset below `above` of the character, or there is none.
abbrev pub IsLast : (s : Text) (ch above : ℕ) → Option ℕ → Type 0
IsLast s ch above r =
    ((j : ℕ) × (r ≡ some j)
      × (j < above)
      × (char_at s j ≡ ch)
      × ((k : ℕ) → j < k → k < above → char_at s k ≢ ch))
    ⊎ ((r ≡ none) × ((k : ℕ) → k < above → char_at s k ≢ ch))

step_last :
    (s : Text) (ch i k : ℕ)
    → char_at s i ≢ ch
    → (k < i → char_at s k ≢ ch)
    → k < suc i
    → char_at s k ≢ ch
step_last s ch i k h f b e = elim (Bool-cases (k == i)) [
  | inl t ↦ let same : k ≡ i = ground arith in h (ap (char_at s) (sym same) ∙ e)
  | inr t ↦ f (ground (arith, t, b)) e
]

strrchr_loop_lem : (s : Text) (ch above : ℕ) → IsLast s ch above (strrchr_loop above s ch)
unfolding strrchr_loop
strrchr_loop_lem s ch zero = inr (refl, λ k b. absurd (omega (arith, b)))
strrchr_loop_lem s ch (suc i) = elim (Bool-cases (char_at s i == ch)) [
  | inl t ↦ inl (
    i,
    rw (t, strrchr_loop),
    omega arith,
    ground (arith, t),
    λ k a b. absurd (omega (arith, a, b)),
  )
  | inr t ↦
      let h : char_at s i ≢ ch = ground (arith, t) in
      elim (strrchr_loop_lem s ch i) [
        | inl (j, e, b, o, f) ↦
            inl
              (j, rw (t, strrchr_loop) e, omega (arith, b), o, λ k a. step_last s ch i k h (f k a))
        | inr (e, f) ↦ inr (rw (t, strrchr_loop) e, λ k. step_last s ch i k h (f k))
      ]
]

at_end : (s : Text) → char_at s (length s) ≡ 0
at_end [] = refl
at_end (c ∷ s) = at_end s

-- `ft_strrchr` gives the last place of the character, which may be the NUL at the end, or NULL.
pub ft_strrchr-IsLast : (s : Text) (c : ℕ) → IsLast s (as_char c) (length s + 1) (ft_strrchr s c)
unfolding ft_strrchr
ft_strrchr-IsLast s c = elim (Bool-cases (as_char c == 0)) [
  | inl t ↦
      let z : 0 ≡ as_char c = ground (arith, t) in
      inl (
        length s,
        rw (t, ft_strlen-length s),
        omega arith,
        at_end s ∙ z,
        λ k a b. absurd (omega (arith, a, b)),
      )
  | inr t ↦ rw (t, ft_strlen-length s) (strrchr_loop_lem s (as_char c) (length s + 1))
]
