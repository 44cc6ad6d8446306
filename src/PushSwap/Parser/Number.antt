-- ===== src/PushSwap/Parser/Number.antt =====
-- Which texts `ft_atoi_check` takes, and the numbers that it gives for them.
use model_lib.Common.{
  ℕ, zero, suc, ◌+◌, ◌-◌, ◌*◌, ◌≤◌, ◌≡◌, ◌↔◌, refl, ap, sym, subst, ◌∙◌, ◌==◌, ◌&&◌, ◌||◌, not,
  if◌then◌else◌, Bool, Bool-cases, Option-cases, true, false, inl, inr, [], ◌∷◌, some, arith, All,
}
use model_lib.Common.Int.{ℤ}
use model_lib.Libft.Strings.{Text}
use model_lib.PushSwap.Position.{int_max}
use model_lib.PushSwap.Parser.{
  atoi_loop, atoi_end, atoi_digits, ft_atoi_check, overflows, is_digit, is_sign, is_empty,
  with_sign, int_min_text, int_min_size, ft_same,
}
use model_lib.PushSwap.Parser.Decimal.{IsDigit, value, Number}
use model_lib.PushSwap.Parser.Same.{ft_same-int_min}

value_grows : (s : Text) (n : ℕ) → n ≤ value n s
value_grows [] n = omega arith
value_grows (c ∷ s) n = omega (arith, value_grows s (n * 10 + (c - b'0')))

-- Without overflow the loop reads all the digits, and then no more.
atoi_loop-digits :
    (minus : Bool) (s : Text) (n : ℕ)
    → All IsDigit s
    → value n s ≤ int_max
    → atoi_loop minus s n ≡ some (value n s, [])
unfolding atoi_loop
atoi_loop-digits minus [] n h b = refl
atoi_loop-digits minus (c ∷ s) n h b =
    let next = n * 10 + (c - b'0') in
    let d : not (is_digit c) ≡ false = ground (arith, h.0) in
    let o : overflows minus next ≡ false = ground (arith, value_grows s next, b) in
    rw (d, o, atoi_loop) (atoi_loop-digits minus s next h.1 b)

-- If the loop reads all of a text, these are digits, and there is no overflow.
digits-atoi_loop :
    (minus : Bool) (s : Text) (n m : ℕ)
    → n ≤ int_max
    → atoi_loop minus s n ≡ some (m, [])
    → All IsDigit s × (value n s ≡ m) × (m ≤ int_max)
unfolding atoi_loop
digits-atoi_loop minus [] n m b e = let v : n ≡ m = cc e in (tt, v, omega arith)
digits-atoi_loop minus (c ∷ s) n m b e =
    let next = n * 10 + (c - b'0') in
    elim (Bool-cases (not (is_digit c))) [
      | inl t ↦ cc (rw (t, atoi_loop) at e)
      | inr d ↦ elim (Bool-cases (overflows minus next)) [
        | inl o ↦ cc (rw (d, o, atoi_loop) at e)
        | inr o ↦
            let (h, v, k) =
              digits-atoi_loop minus s next m (ground (arith, o)) (rw (d, o, atoi_loop) at e) in
            ((ground (arith, d), h), v, k)
      ]
    ]

atoi_digits-read :
    (minus : Bool) (s : Text)
    → All IsDigit s
    → value 0 s ≤ int_max
    → atoi_digits minus false s ≡ (with_sign minus (value 0 s), value 0 s == 0 && minus)
unfolding atoi_digits atoi_end
atoi_digits-read minus s h b = rw (atoi_loop-digits minus s 0 h b, atoi_digits, atoi_end)

read-atoi_digits :
    (minus : Bool) (s : Text) (v : ℤ)
    → atoi_digits minus false s ≡ (v, false)
    → All IsDigit s
      × (value 0 s ≤ int_max)
      × (v ≡ with_sign minus (value 0 s))
      × ((value 0 s == 0 && minus) ≡ false)
unfolding atoi_digits atoi_end
read-atoi_digits minus s v e = elim (Option-cases (atoi_loop minus s 0)) [
  | inl n ↦ absurd (cc (ap (λ r. r.1) (rw (n, atoi_digits) at e)))
  | inr ((m, []), r) ↦
      let (h, k, b) = digits-atoi_loop minus s 0 m (omega arith) r in
      let f = rw (r, atoi_digits, atoi_end) at e in
      (
        h,
        omega (arith, k, b),
        sym (ap (λ r. r.0) f) ∙ ap (with_sign minus) (sym k),
        ap (λ n. n == 0 && minus) k ∙ ap (λ r. r.1) f,
      )
  | inr ((m, c ∷ rest), r) ↦ absurd (cc (ap (λ r. r.1) (rw (r, atoi_digits, atoi_end) at e)))
]

not_least : (c : ℕ) (s : Text) → is_sign c ≡ false → ft_same int_min_text (c ∷ s) ≡ false
not_least c s h = elim (Bool-cases (ft_same int_min_text (c ∷ s))) [
  | inl t ↦
      let (r, e, k, b) = (ft_same-int_min (c ∷ s)).0 t in
      let same : c ≡ b'-' = cc e in
      let y : is_sign c ≡ true = ap (λ x. is_sign x) same in absurd (cc (h, y))
  | inr f ↦ f
]

check-unsigned :
    (c : ℕ) (s : Text)
    → is_sign c ≡ false
    → ft_atoi_check (c ∷ s) false ≡ atoi_digits false false (c ∷ s)
unfolding ft_atoi_check
check-unsigned c s h =
    let p : (c == b'+') ≡ false = ground (arith, h) in
    let m : (c == b'-') ≡ false = ground (arith, h) in
    λ i.
      if p i && is_empty s
      then (ℤ.pos 0, true)
      else if not_least c s h i
      then (ℤ.negsuc 2147483647, false)
      else atoi_digits (m i) false (if p i || m i then s else c ∷ s)

check-plus :
    (c : ℕ) (s : Text) → ft_atoi_check (b'+' ∷ c ∷ s) false ≡ atoi_digits false false (c ∷ s)
unfolding ft_atoi_check ft_same
check-plus c s = refl

check-minus :
    (s : Text)
    → ft_same int_min_text (b'-' ∷ s) ≡ false
    → ft_atoi_check (b'-' ∷ s) false ≡ atoi_digits true false s
unfolding ft_atoi_check
check-minus s f = rw (f, ft_atoi_check)

check-least :
    (s : Text)
    → ft_same int_min_text (b'-' ∷ s) ≡ true
    → ft_atoi_check (b'-' ∷ s) false ≡ (ℤ.negsuc 2147483647, false)
unfolding ft_atoi_check
check-least s t = rw (t, ft_atoi_check)

unsigned_end : (n : ℕ) → ◌≡◌ {A = ℤ × Bool} (with_sign false n, n == 0 && false) (ℤ.pos n, false)
unsigned_end zero = refl
unsigned_end (suc n) =
    let t : (suc n == 0) ≡ false = ground arith in λ i. (ℤ.pos (suc n), t i && false)

signed_end :
    (k n : ℕ)
    → k ≡ suc n
    → ◌≡◌ {A = ℤ × Bool} (with_sign true k, k == 0 && true) (ℤ.negsuc n, false)
signed_end k n e =
    let t : (suc n == 0) ≡ false = ground arith in
    (λ i. (with_sign true (e i), e i == 0 && true)) ∙ λ i. (ℤ.negsuc n, t i && true)

-- The digits that are not those of the least `int` stay in its range.
in_range :
    (s : Text) (n : ℕ)
    → All IsDigit s
    → value 0 s ≡ suc n
    → n ≤ int_max
    → ft_same int_min_text (b'-' ∷ s) ≡ false
    → value 0 s ≤ int_max
in_range s n h k b f = elim (Bool-cases (n == int_max)) [
  | inl t ↦
      let least : value 0 s ≡ int_min_size = ground (arith, k) in
      absurd (cc (sym f ∙ (ft_same-int_min (b'-' ∷ s)).1 (s, refl, h, least)))
  | inr t ↦ ground (arith, k)
]

Number-check : {s : Text} {v : ℤ} → Number s v → ft_atoi_check s false ≡ (v, false)
Number-check (Number.plain [] l h b) = absurd (omega (arith, l))
Number-check (Number.plain (c ∷ s) l h b) =
    check-unsigned c s (ground (arith, h.0))
    ∙ atoi_digits-read false (c ∷ s) h b
    ∙ unsigned_end (value 0 (c ∷ s))
Number-check (Number.plus [] l h b) = absurd (omega (arith, l))
Number-check (Number.plus (c ∷ s) l h b) =
    check-plus c s ∙ atoi_digits-read false (c ∷ s) h b ∙ unsigned_end (value 0 (c ∷ s))
Number-check (Number.minus s n h k b) = elim (Bool-cases (ft_same int_min_text (b'-' ∷ s))) [
  | inl t ↦
      let (r, e, g, least) = (ft_same-int_min (b'-' ∷ s)).0 t in
      let same : s ≡ r = cc e in
      let size : 2147483647 ≡ n = omega (arith, k, least, ap (value 0) same) in
      check-least s t ∙ λ i. (ℤ.negsuc (size i), false)
  | inr f ↦
      check-minus s f
      ∙ atoi_digits-read true s h (in_range s n h k b f)
      ∙ signed_end (value 0 s) n k
]

check-Number-plus :
    (s : Text) (v : ℤ) → ft_atoi_check (b'+' ∷ s) false ≡ (v, false) → Number (b'+' ∷ s) v
unfolding ft_atoi_check
check-Number-plus [] v e = absurd (cc (ap (λ r. r.1) e))
check-Number-plus (c ∷ s) v e =
    let (h, b, k, z) = read-atoi_digits false (c ∷ s) v (sym (check-plus c s) ∙ e) in
    let p = ap (λ r. r.0) (unsigned_end (value 0 (c ∷ s))) in
    subst (Number (b'+' ∷ c ∷ s)) (sym (k ∙ p)) (Number.plus (c ∷ s) (omega arith) h b)

check-Number-minus :
    (s : Text) (v : ℤ) → ft_atoi_check (b'-' ∷ s) false ≡ (v, false) → Number (b'-' ∷ s) v
check-Number-minus s v e = elim (Bool-cases (ft_same int_min_text (b'-' ∷ s))) [
  | inl t ↦
      let (r, q, h, k) = (ft_same-int_min (b'-' ∷ s)).0 t in
      let same : r ≡ s = cc q in
      let p : ℤ.negsuc 2147483647 ≡ v = ap (λ r. r.0) (sym (check-least s t) ∙ e) in
      subst (Number (b'-' ∷ s)) p (
        subst (λ s. Number (b'-' ∷ s) (ℤ.negsuc 2147483647)) same
          (Number.minus r 2147483647 h (omega (arith, k)) (omega arith)))
  | inr f ↦
      let (h, b, k, z) = read-atoi_digits true s v (sym (check-minus s f) ∙ e) in
      let n : value 0 s ≡ suc (value 0 s - 1) = ground (arith, z) in
      let p = ap (λ r. r.0) (signed_end (value 0 s) (value 0 s - 1) n) in
      subst (Number (b'-' ∷ s)) (sym (k ∙ p))
        (Number.minus s (value 0 s - 1) h n (omega (arith, b)))
]

check-Number-unsigned :
    (c : ℕ) (s : Text) (v : ℤ)
    → is_sign c ≡ false
    → ft_atoi_check (c ∷ s) false ≡ (v, false)
    → Number (c ∷ s) v
check-Number-unsigned c s v t e =
    let (h, b, k, z) = read-atoi_digits false (c ∷ s) v (sym (check-unsigned c s t) ∙ e) in
    let p = ap (λ r. r.0) (unsigned_end (value 0 (c ∷ s))) in
    subst (Number (c ∷ s)) (sym (k ∙ p)) (Number.plain (c ∷ s) (omega arith) h b)

check-empty : (v : ℤ) → ft_atoi_check [] false ≡ (v, false) → Number [] v
unfolding ft_atoi_check
check-empty v e = absurd (cc (ap (λ r. r.1) e))

check-Number : (s : Text) (v : ℤ) → ft_atoi_check s false ≡ (v, false) → Number s v
check-Number [] v e = check-empty v e
check-Number (c ∷ s) v e = elim (Bool-cases (c == b'+')) [
  | inl p ↦ let q : c ≡ b'+' = ground arith in rw q (check-Number-plus s v (rw q at e))
  | inr p ↦ elim (Bool-cases (c == b'-')) [
    | inl m ↦ let q : c ≡ b'-' = ground arith in rw q (check-Number-minus s v (rw q at e))
    | inr m ↦ check-Number-unsigned c s v (ground (arith, p, m)) e
  ]
]

-- `ft_atoi_check`, called with no error set, sets none and returns `v` exactly for the texts of
-- the number `v`: digits, with a sign or without one, in the range of `int`, and no minus zero.
pub ft_atoi_check-Number : (s : Text) (v : ℤ) → (ft_atoi_check s false ≡ (v, false)) ↔ Number s v
ft_atoi_check-Number s v = (check-Number s v, Number-check)
