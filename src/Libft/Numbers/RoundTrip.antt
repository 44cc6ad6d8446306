-- ===== src/Libft/Numbers/RoundTrip.antt =====
-- `ft_atoi` reads what `ft_itoa` writes.
use model_lib.Common.{
  ℕ, zero, suc, ◌+◌, ◌-◌, ◌*◌, ◌/◌, ◌%◌, ◌≤◌, ◌<◌, ◌≡◌, refl, ap, sym, subst, ◌∙◌, ltb, leb, ◌==◌,
  ◌&&◌, ◌||◌, if◌then◌else◌, Bool, Bool-cases, true, false, [], ◌∷◌, none, some, arith, inl, inr,
}
use model_lib.Common.Int.{ℤ}
use model_lib.Libft.Strings.{Text}
use model_lib.Libft.Numbers.{
  num_loop, ft_num_multi_digits, itoa_loop, itoa_text, ft_itoa, is_space, skip_spaces, digits_loop,
  signed, after_spaces, ft_atoi,
}

-- A number of at most so many digits.
abbrev Fits : (digits n : ℕ) → Type 0
Fits zero n = n ≡ 0
Fits (suc digits) n = Fits digits (n / 10)

-- With enough fuel the digits are counted.
num_loop_lem :
    (fuel n multidigit : ℕ)
    → n < fuel
    → (digits : ℕ) × (num_loop fuel n multidigit ≡ some (multidigit + digits)) × Fits digits n
unfolding num_loop
num_loop_lem zero n m h = absurd (omega arith)
num_loop_lem (suc fuel) n m h = elim (Bool-cases (ltb 0 n)) [
  | inl t ↦
      let smaller : n / 10 < fuel = ground (arith, t) in
      let (digits, e, f) = num_loop_lem fuel (n / 10) (m + 1) smaller in
      let sum : m + 1 + digits ≡ m + suc digits = omega arith in
      (suc digits, rw (t, num_loop) (e ∙ ap some sum), f)
  | inr t ↦
      let none_left : n ≡ 0 = ground (arith, t) in
      let sum : m ≡ m + 0 = omega arith in (0, rw (t, num_loop) (ap some sum), none_left)
]

-- Reading the digits that were written gives the number before what was behind them.
digits-itoa :
    (until n : ℕ) (tail : Text)
    → Fits until n
    → digits_loop 0 (itoa_loop until n tail) ≡ digits_loop n tail
unfolding itoa_loop digits_loop
digits-itoa zero n tail f = ap (λ k. digits_loop k tail) (sym f)
digits-itoa (suc until) n tail f =
    let d = n % 10 + b'0' in
    let is_digit : (leb b'0' d && leb d b'9') ≡ true = ground arith in
    let whole : n / 10 * 10 + (d - b'0') ≡ n = omega arith in
    digits-itoa until (n / 10) (d ∷ tail) f
    ∙ rw (is_digit, digits_loop) (ap (λ k. digits_loop k tail) whole)

itoa-head :
    (until n : ℕ) (tail : Text)
    → (c : ℕ) × (rest : Text) × (itoa_loop (suc until) n tail ≡ c ∷ rest) × (b'0' ≤ c) × (c ≤ b'9')
unfolding itoa_loop
itoa-head zero n tail = (n % 10 + b'0', tail, refl, omega arith, omega arith)
itoa-head (suc until) n tail = itoa-head until (n / 10) ((n % 10 + b'0') ∷ tail)

signed_plus : (n : ℕ) → signed false n ≡ ℤ.pos n
signed_plus zero = refl
signed_plus (suc n) = refl

-- A text that begins with a digit has no sign.
atoi_unsigned :
    (c : ℕ) (rest : Text)
    → b'0' ≤ c
    → c ≤ b'9'
    → ft_atoi (c ∷ rest) ≡ ℤ.pos (digits_loop 0 (c ∷ rest))
unfolding ft_atoi skip_spaces after_spaces
atoi_unsigned c rest a b =
    let s : is_space c ≡ false = ground (arith, a, b) in
    let m : (c == b'-') ≡ false = ground (arith, a, b) in
    let p : (c == b'+') ≡ false = ground (arith, a, b) in
    ap after_spaces (λ i. if s i then skip_spaces rest else c ∷ rest)
    ∙ (λ i. signed (m i) (digits_loop 0 (if m i || p i then rest else c ∷ rest)))
    ∙ signed_plus (digits_loop 0 (c ∷ rest))

atoi-itoa_loop : (until n : ℕ) → Fits (suc until) n → ft_atoi (itoa_loop (suc until) n []) ≡ ℤ.pos n
unfolding digits_loop
atoi-itoa_loop until n f =
    let (c, rest, e, a, b) = itoa-head until n [] in
    ap ft_atoi e
    ∙ atoi_unsigned c rest a b
    ∙ ap (λ t. ℤ.pos (digits_loop 0 t)) (sym e)
    ∙ ap ℤ.pos (digits-itoa (suc until) n [] f)

count_plus :
    (n : ℕ)
    → (digits : ℕ) × (ft_num_multi_digits (ℤ.pos n) ≡ some (suc digits)) × Fits (suc digits) n
unfolding ft_num_multi_digits
count_plus n = elim (Bool-cases (n == 0)) [
  | inl t ↦
      let z : n ≡ 0 = ground arith in
      let (digits, e, f) = num_loop_lem (n + 1) n 1 (omega arith) in
      let same : n ≡ n / 10 = omega (arith, z) in
      (digits, rw (t, ft_num_multi_digits) (e ∙ ap some (omega arith)), subst (Fits digits) same f)
  | inr t ↦ positive t (num_loop_lem (n + 1) n 0 (omega arith))
]
  where
    positive :
        (n == 0) ≡ false
        → (digits : ℕ) × (num_loop (n + 1) n 0 ≡ some (0 + digits)) × Fits digits n
        → (digits : ℕ) × (ft_num_multi_digits (ℤ.pos n) ≡ some (suc digits)) × Fits (suc digits) n
    positive t (zero, e, f) = absurd (ground (arith, t, f))
    positive t (suc digits, e, f) =
        (digits, rw (t, ft_num_multi_digits) (e ∙ ap some (omega arith)), f)

count_minus :
    (n : ℕ)
    → n < 2147483647
    → (digits : ℕ) × (ft_num_multi_digits (ℤ.negsuc n) ≡ some (suc digits)) × Fits digits (n + 1)
unfolding ft_num_multi_digits
count_minus n h =
    let t : (n == 2147483647) ≡ false = ground (arith, h) in
    let (digits, e, f) = num_loop_lem (n + 2) (n + 1) 1 (omega arith) in
    (digits, rw (t, ft_num_multi_digits) (e ∙ ap some (omega arith)), f)

written_minus :
    (digits n : ℕ)
    → n < 2147483647
    → itoa_text (suc digits) (ℤ.negsuc n) ≡ b'-' ∷ itoa_loop digits (n + 1) []
written_minus digits n h =
    let t : (n == 2147483647) ≡ false = ground (arith, h) in
    let k : suc digits - 1 ≡ digits = omega arith in
    rw t (ap (λ k. b'-' ∷ itoa_loop k (n + 1) []) k)

atoi_minus :
    (digits n : ℕ) → Fits digits (n + 1) → ft_atoi (b'-' ∷ itoa_loop digits (n + 1) []) ≡ ℤ.negsuc n
unfolding ft_atoi skip_spaces after_spaces digits_loop
atoi_minus digits n f =
    let next : n + 1 ≡ suc n = omega arith in
    ap (signed true) (digits-itoa digits (n + 1) [] f ∙ next)

-- The numbers above -2147483648 whose texts `ft_atoi` reads without overflow.
abbrev pub IsReadable : ℤ → Type 0
IsReadable (ℤ.pos n) = n ≤ 2147483647
IsReadable (ℤ.negsuc n) = n < 2147483647

-- `ft_itoa` ends for every `int` above -2147483648: if its allocation succeeds, with a text that
-- `ft_atoi` reads as the number, and else with NULL.
pub ft_atoi-ft_itoa :
    (malloc : ℕ → Bool) (n : ℤ)
    → IsReadable n
    → (text : Text) × (size : ℕ) × (ft_itoa malloc n
        ≡ some (if malloc size then some text else none))
      × (ft_atoi text ≡ n)
unfolding ft_itoa
ft_atoi-ft_itoa malloc (ℤ.pos n) h =
    let (digits, e, f) = count_plus n in
    (itoa_loop (suc digits) n [], suc digits + 1, rw (e, ft_itoa), atoi-itoa_loop digits n f)
ft_atoi-ft_itoa malloc (ℤ.negsuc n) h =
    let (digits, e, f) = count_minus n h in
    let text = b'-' ∷ itoa_loop digits (n + 1) [] in
    let made = written_minus digits n h in
    (
      text,
      suc digits + 1,
      rw (e, ft_itoa)
          (ap (λ (t : Text). some (if malloc (suc digits + 1) then some t else none)) made),
      atoi_minus digits n f,
    )
