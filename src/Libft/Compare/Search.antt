-- ===== src/Libft/Compare/Search.antt =====
-- `ft_strnstr` finds the first place where a string occurs in another.
use model_lib.Common.{
  ℕ, zero, suc, ◌+◌, ◌-◌, ◌≤◌, ◌<◌, ◌≡◌, ◌↔◌, refl, ap, sym, ◌∙◌, ◌==◌, ◌&&◌, leb, Bool, Bool-cases,
  true, false, [], ◌∷◌, Option, some, none, take, drop, length, arith, ◌⊎◌, inl, inr,
}
use native.Mathlib.Nat.{add-zero}
use model_lib.Common.Int.{ℤ}
use model_lib.Libft.Strings.{Text, char_at}
use model_lib.Libft.Strings.Substr.{ft_strlen-length}
use model_lib.Libft.Compare.{ft_strncmp, is_zero, strnstr_loop, ft_strnstr}
use model_lib.Libft.Compare.Prefix.{IsText, ft_strncmp-take}

take_all : (s : Text) → take (length s) s ≡ s
take_all [] = refl
take_all (c ∷ s) = ap (◌∷◌ c) (take_all s)

is_zero_iff : (x : ℤ) → (is_zero x ≡ true) ↔ (x ≡ ℤ.pos 0)
is_zero_iff (ℤ.pos zero) = (λ e. refl, λ e. refl)
is_zero_iff (ℤ.pos (suc n)) = (λ e. absurd (cc e), λ e. absurd (cc e))
is_zero_iff (ℤ.negsuc n) = (λ e. absurd (cc e), λ e. absurd (cc e))

-- `small` stands in `big` at the offset `j`.
abbrev pub Occurs : (big small : Text) → ℕ → Type 0
Occurs big small j = take (length small) (drop j big) ≡ small

not_in_empty : (d : ℕ) (s : Text) (j : ℕ) → ¬ Occurs [] (d ∷ s) j
not_in_empty d s zero e = cc e
not_in_empty d s (suc j) e = cc e

-- The test of the loop.
abbrev matches : (c : ℕ) (big small : Text) → Bool
matches c big small = c == char_at small 0 && is_zero (ft_strncmp (c ∷ big) small (length small))

matches_iff :
    (c : ℕ) (big : Text) (d : ℕ) (s : Text)
    → IsText (c ∷ big)
    → IsText (d ∷ s)
    → (matches c big (d ∷ s) ≡ true) ↔ Occurs (c ∷ big) (d ∷ s) 0
matches_iff c big d s p q =
    let (to_take, of_take) = ft_strncmp-take (c ∷ big) (d ∷ s) (length (d ∷ s)) p q in
    let (to_zero, of_zero) = is_zero_iff (ft_strncmp (c ∷ big) (d ∷ s) (length (d ∷ s))) in
    elim (Bool-cases (c == d)) [
      | inl h ↦ (
        λ e. to_take (to_zero (rw h at e)) ∙ take_all (d ∷ s),
        λ e. rw h (of_zero (of_take (e ∙ sym (take_all (d ∷ s))))),
      )
      | inr h ↦ (
        λ e. absurd (cc (rw h at e)),
        λ e. let head : c ≡ d = cc e in absurd (ground (arith, h, head)),
      )
    ]

-- The first occurrence that ends within `len` bytes, counted from `i`, or there is none.
abbrev pub FindsFirst : (big small : Text) (len i : ℕ) → Option ℕ → Type 0
FindsFirst big small len i r =
    ((j : ℕ) × (r ≡ some (i + j))
      × (j + length small ≤ len)
      × Occurs big small j
      × ((k : ℕ) → k < j → ¬ Occurs big small k))
    ⊎ ((r ≡ none) × ((j : ℕ) → j + length small ≤ len → ¬ Occurs big small j))

none_before :
    (c : ℕ) (big small : Text) (j : ℕ)
    → ¬ Occurs (c ∷ big) small 0
    → ((k : ℕ) → k < j → ¬ Occurs big small k)
    → (k : ℕ) → k < suc j
    → ¬ Occurs (c ∷ big) small k
none_before c big small j here first zero b o = here o
none_before c big small j here first (suc k) b o = first k (omega arith) o

none_at_all :
    (c : ℕ) (big small : Text) (len : ℕ)
    → ¬ Occurs (c ∷ big) small 0
    → ((j : ℕ) → j + length small ≤ len - 1 → ¬ Occurs big small j)
    → (j : ℕ) → j + length small ≤ len
    → ¬ Occurs (c ∷ big) small j
none_at_all c big small len here never zero b o = here o
none_at_all c big small len here never (suc j) b o = never j (omega arith) o

strnstr_loop_lem :
    (d : ℕ) (s : Text) (i : ℕ) (big : Text) (len : ℕ)
    → IsText (d ∷ s)
    → IsText big
    → FindsFirst big (d ∷ s) len i (strnstr_loop (d ∷ s) (length (d ∷ s)) i big len)
unfolding strnstr_loop
strnstr_loop_lem d s i [] len q p = inr (refl, λ j b. not_in_empty d s j)
strnstr_loop_lem d s i (c ∷ big) len q p =
    let (to_occurs, of_occurs) = matches_iff c big d s p q in
    let small = d ∷ s in
    elim (Bool-cases (leb (length small) len)) [
      | inr l ↦ inr (rw (l, strnstr_loop), λ j b. absurd (ground (arith, l, b)))
      | inl l ↦ elim (Bool-cases (matches c big small)) [
        | inl t ↦ inl (
          0,
          rw (l, t, strnstr_loop) (ap some (sym (add-zero i))),
          ground (arith, l),
          to_occurs t,
          λ k b. absurd (omega (arith, b)),
        )
        | inr f ↦
            let here : ¬ Occurs (c ∷ big) small 0 = λ o. absurd (cc (f, of_occurs o)) in
            elim (strnstr_loop_lem d s (i + 1) big (len - 1) q p.1) [
              | inl (j, e, b, o, first) ↦
                  let sum : i + 1 + j ≡ i + suc j = omega arith in
                  inl (
                    suc j,
                    rw (l, f, strnstr_loop) (e ∙ ap some sum),
                    omega (arith, b),
                    o,
                    none_before c big small j here first,
                  )
              | inr (e, never) ↦
                  inr (rw (l, f, strnstr_loop) e, none_at_all c big small len here never)
            ]
      ]
    ]

-- `ft_strnstr` gives the first place where `small` occurs within the first `len` bytes of `big`, or
-- NULL if there is none.
pub ft_strnstr-FindsFirst :
    (big small : Text) (len : ℕ)
    → IsText big
    → IsText small
    → FindsFirst big small len 0 (ft_strnstr big small len)
unfolding ft_strnstr
ft_strnstr-FindsFirst big [] len p q =
    inl (0, refl, omega arith, refl, λ k b. absurd (omega (arith, b)))
ft_strnstr-FindsFirst big (d ∷ s) len p q =
    let z : (d == 0) ≡ false = ground (arith, q.0) in
    rw (z, ft_strlen-length (d ∷ s)) (strnstr_loop_lem d s 0 big len q p)
