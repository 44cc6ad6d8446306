-- ===== src/PushSwap/Parser/Same.antt =====
-- When `ft_same` takes two texts for one number.
use model_lib.Common.{
  ℕ, suc, ◌≡◌, ◌↔◌, refl, ap, sym, subst, ◌∙◌, ◌==◌, Bool, Bool-cases, true, false, ◌⊎◌, inl, inr,
  [], ◌∷◌, arith, All,
}
use model_lib.Common.Int.{ℤ}
use model_lib.Libft.Strings.{Text}
use model_lib.PushSwap.Parser.{
  skip_zeros, trim_zero, starts_minus, same_loop, ft_same, is_sign, int_min_text, int_min_size,
}
use model_lib.PushSwap.Parser.Decimal.{
  IsDigit, value, Number, All-skip_zeros, value-skip_zeros, canonical,
}

same_loop_refl : (s : Text) → same_loop s s ≡ true
unfolding same_loop
same_loop_refl [] = refl
same_loop_refl (c ∷ s) =
    let t : (c == c) ≡ true = ground arith in rw (t, same_loop) (same_loop_refl s)

same_loop_eq : (s t : Text) → same_loop s t ≡ true → s ≡ t
unfolding same_loop
same_loop_eq [] [] e = refl
same_loop_eq [] (d ∷ t) e = cc e
same_loop_eq (c ∷ s) [] e = cc e
same_loop_eq (c ∷ s) (d ∷ t) e = elim (Bool-cases (c == d)) [
  | inl h ↦
      let same : c ≡ d = ground arith in
      let rest = same_loop_eq s t (rw (h, same_loop) at e) in λ i. same i ∷ rest i
  | inr h ↦ cc (rw (h, same_loop) at e)
]

-- `ft_same` compares the signs, and what is left behind the leading zeros.
pub ft_same_parts :
    (s t : Text)
    → (ft_same s t ≡ true) ↔ ((starts_minus s ≡ starts_minus t) × (trim_zero s ≡ trim_zero t))
unfolding ft_same
ft_same_parts s t = elim (Bool-cases (starts_minus s)) [
  | inl a ↦ elim (Bool-cases (starts_minus t)) [
    | inl b ↦ (
      λ e. (a ∙ sym b, same_loop_eq (trim_zero s) (trim_zero t) (rw (a, b, ft_same) at e)),
      λ p. rw (a, b, ft_same, p.1) (same_loop_refl (trim_zero t)),
    )
    | inr b ↦ (λ e. cc (rw (a, b, ft_same) at e), λ p. cc (a, b, p.0))
  ]
  | inr a ↦ elim (Bool-cases (starts_minus t)) [
    | inl b ↦ (λ e. cc (rw (a, b, ft_same) at e), λ p. cc (a, b, p.0))
    | inr b ↦ (
      λ e. (a ∙ sym b, same_loop_eq (trim_zero s) (trim_zero t) (rw (a, b, ft_same) at e)),
      λ p. rw (a, b, ft_same, p.1) (same_loop_refl (trim_zero t)),
    )
  ]
]

abbrev int_min_digits : Text
int_min_digits = b'2' ∷ b'1' ∷ b'4' ∷ b'7' ∷ b'4' ∷ b'8' ∷ b'3' ∷ b'6' ∷ b'4' ∷ b'8' ∷ []

int_min_digits-All : All IsDigit int_min_digits
int_min_digits-All = ground arith

same_minus :
    (s : Text)
    → (ft_same int_min_text (b'-' ∷ s) ≡ true) ↔ (All IsDigit s × (value 0 s ≡ int_min_size))
unfolding trim_zero skip_zeros
same_minus s = (
  λ e.
      let (p, k) = (ft_same_parts int_min_text (b'-' ∷ s)).0 e in
      (
        All-skip_zeros s (subst (All IsDigit) k int_min_digits-All),
        sym (value-skip_zeros s) ∙ ap (value 0) (sym k),
      ),
  λ (h, v).
      let (there, back) = canonical int_min_digits s int_min_digits-All h in
      (ft_same_parts int_min_text (b'-' ∷ s)).1 (refl, back (sym v)),
)

-- The texts of the least `int`.
pub ft_same-int_min :
    (s : Text)
    → (ft_same int_min_text s ≡ true)
      ↔ ((r : Text) × (s ≡ b'-' ∷ r) × All IsDigit r × (value 0 r ≡ int_min_size))
ft_same-int_min [] =
    (λ e. let (p, k) = (ft_same_parts int_min_text []).0 e in cc p, λ (r, p, h, v). cc p)
ft_same-int_min (c ∷ s) = (
  λ e.
      let (p, k) = (ft_same_parts int_min_text (c ∷ s)).0 e in
      let q : c ≡ b'-' = ground (arith, p) in
      let (h, v) = (same_minus s).0 (rw q at e) in (s, ap (λ x. x ∷ s) q, h, v),
  λ (r, p, h, v). rw p ((same_minus r).1 (h, v)),
)

-- The number of a sign and a size.
abbrev Signed : Bool → ℕ → ℤ → Type 0
Signed b k v =
    ((b ≡ false) × (v ≡ ℤ.pos k)) ⊎ ((n : ℕ) × (b ≡ true) × (k ≡ suc n) × (v ≡ ℤ.negsuc n))

Signed-iff :
    {b c : Bool} {k l : ℕ} {v w : ℤ} → Signed b k v → Signed c l w → ((b ≡ c) × (k ≡ l)) ↔ (v ≡ w)
Signed-iff (inl (p, q)) (inl (r, s)) = (λ (e, f). cc (q, s, f), λ e. (cc (p, r), cc (q, s, e)))
Signed-iff (inl (p, q)) (inr (m, r, t, s)) = (λ (e, f). cc (p, r, e), λ e. cc (q, s, e))
Signed-iff (inr (n, p, u, q)) (inl (r, s)) = (λ (e, f). cc (p, r, e), λ e. cc (q, s, e))
Signed-iff (inr (n, p, u, q)) (inr (m, r, t, s)) = (
  λ (e, f). let same : n ≡ m = omega (arith, f, u, t) in cc (q, s, same),
  λ e. let same : n ≡ m = cc (q, s, e) in (cc (p, r), cc (u, t, same)),
)

-- A text of a number as `ft_same` reads it: the sign, and the digits.
abbrev Read : Text → ℤ → Type 0
Read s v =
    (ds : Text) × All IsDigit ds
    × (trim_zero s ≡ skip_zeros ds)
    × Signed (starts_minus s) (value 0 ds) v

Number-Read : {s : Text} {v : ℤ} → Number s v → Read s v
unfolding trim_zero
Number-Read (Number.plain [] l h b) = absurd (omega (arith, l))
Number-Read (Number.plain (c ∷ s) l h b) =
    let t : is_sign c ≡ false = ground (arith, h.0) in
    let m : (c == b'-') ≡ false = ground (arith, h.0) in
    (c ∷ s, h, rw (t, trim_zero), inl (m, refl))
Number-Read (Number.plus s l h b) = (s, h, refl, inl (refl, refl))
Number-Read (Number.minus s n h e b) = (s, h, refl, inr (n, refl, e, refl))

-- `ft_same` tells the texts of numbers apart by their numbers.
pub ft_same-Number :
    (s t : Text) (v w : ℤ) → Number s v → Number t w → (ft_same s t ≡ true) ↔ (v ≡ w)
ft_same-Number s t v w p q =
    let (ds, hs, es, cs) = Number-Read p in
    let (dt, ht, et, ct) = Number-Read q in
    let (to_value, of_value) = canonical ds dt hs ht in
    let (to_parts, of_parts) = ft_same_parts s t in
    let (to_number, of_number) = Signed-iff cs ct in
    (
      λ e. let (minus, rest) = to_parts e in to_number (minus, to_value (sym es ∙ rest ∙ et)),
      λ e. let (minus, size) = of_number e in of_parts (minus, es ∙ of_value size ∙ sym et),
    )
