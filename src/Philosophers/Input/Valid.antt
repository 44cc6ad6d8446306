-- ===== src/Philosophers/Input/Valid.antt =====
-- Which arguments `input_valid` accepts.
use model_lib.Common.{
  ℕ, ◌+◌, ◌-◌, ◌*◌, ◌≤◌, ◌<◌, ◌≡◌, ◌⊎◌, ap, refl, sym, subst, ◌∙◌, ltb, leb, ◌==◌, ◌&&◌, ◌||◌, not,
  Bool, Bool-cases, true, false, List, [], ◌∷◌, Option, none, some, arith, All, inl, inr,
}
use model_lib.Libft.Strings.{Text}
use model_lib.PushSwap.Parser.Decimal.{IsDigit, value}
use model_lib.Philosophers.Input.{
  int_max, atol_loop, atol_digits, ft_atol, Config, fill_rounds, fill_values, Checked, check_values,
  input_valid,
}

-- The texts that are read as a number: digits, perhaps none, perhaps behind a plus.
pub data Reads : Text → ℕ → Type 0 where
  plain : (s : Text) → All IsDigit s → value 0 s ≤ int_max → Reads s (value 0 s)
  plus : (s : Text) → All IsDigit s → value 0 s ≤ int_max → Reads (b'+' ∷ s) (value 0 s)

-- A text without a digit that is read all the same, as 0.
abbrev pub IsBlank : Text → Type 0
IsBlank s = (s ≡ []) ⊎ (s ≡ b'+' ∷ [])

-- The texts of a number: one or more digits, perhaps behind a plus.
abbrev pub Count : Text → ℕ → Type 0
Count s v = Reads s v × (¬ IsBlank s)

value_grows : (s : Text) (n : ℕ) → n ≤ value n s
value_grows [] n = omega arith
value_grows (c ∷ s) n = omega (arith, value_grows s (n * 10 + (c - b'0')))

atol_loop-stop : (s : Text) (n : ℕ) → (atol_loop s n true).1 ≡ true
unfolding atol_loop
atol_loop-stop [] n = refl
atol_loop-stop (c ∷ s) n = refl

-- The loop sets no error exactly if it reads digits of a small number.
atol_loop-ok :
    (s : Text) (n : ℕ)
    → (atol_loop s n false).1 ≡ false
    → n ≤ int_max
    → All IsDigit s × (value n s ≤ int_max) × ((atol_loop s n false).0 ≡ value n s)
unfolding atol_loop
atol_loop-ok [] n e b = (tt, b, refl)
atol_loop-ok (c ∷ s) n e b =
    let next = n * 10 + (c - b'0') in
    elim (Bool-cases (not (leb b'0' c && leb c b'9') || ltb int_max next)) [
      | inl t ↦ absurd (cc (sym (atol_loop-stop s next) ∙ (rw (t, atol_loop) at e)))
      | inr t ↦
          let e' : (atol_loop s next false).1 ≡ false = (rw (t, atol_loop) at e) in
          let (h, k, v) = atol_loop-ok s next e' (ground (arith, t)) in
          ((ground (arith, t), h), k, rw (t, atol_loop) v)
    ]

ok-atol_loop :
    (s : Text) (n : ℕ)
    → All IsDigit s
    → value n s ≤ int_max
    → atol_loop s n false ≡ (value n s, false)
unfolding atol_loop
ok-atol_loop [] n h b = refl
ok-atol_loop (c ∷ s) n h b =
    let next = n * 10 + (c - b'0') in
    let t : (not (leb b'0' c && leb c b'9') || ltb int_max next) ≡ false =
      ground (arith, h.0, value_grows s next, b) in
    rw (t, atol_loop) (ok-atol_loop s next h.1 b)

atol_digits-ok :
    (s : Text) (e : Bool)
    → (atol_digits s e).1 ≡ false
    → (e ≡ false) × All IsDigit s × (value 0 s ≤ int_max) × ((atol_digits s e).0 ≡ value 0 s)
unfolding atol_digits
atol_digits-ok s true h = absurd (cc (sym (atol_loop-stop s 0) ∙ h))
atol_digits-ok s false h = let (d, b, v) = atol_loop-ok s 0 h (omega arith) in (refl, d, b, rw h v)

ok-atol_digits :
    (s : Text) → All IsDigit s → value 0 s ≤ int_max → atol_digits s false ≡ (value 0 s, false)
unfolding atol_digits
ok-atol_digits s h b = rw (ok-atol_loop s 0 h b, atol_digits)

-- A result without an error was a number, and came from no earlier error.
ft_atol-Reads :
    (s : Text) (e : Bool) → (ft_atol s e).1 ≡ false → (e ≡ false) × Reads s (ft_atol s e).0
unfolding ft_atol
ft_atol-Reads [] e h =
    let (e', d, b, v) = atol_digits-ok [] e h in (e', subst (Reads []) (sym v) (Reads.plain [] d b))
ft_atol-Reads (c ∷ s) e h = elim (Bool-cases (c == b'+')) [
  | inl t ↦
      let same : b'+' ≡ c = ground arith in
      let (e', d, b, v) = atol_digits-ok s e (rw t at h) in
      (
        e',
        rw t (
            subst (λ c. Reads (c ∷ s) (atol_digits s e).0) same
              (subst (Reads (b'+' ∷ s)) (sym v) (Reads.plus s d b))),
      )
  | inr t ↦
      let (e', d, b, v) = atol_digits-ok (c ∷ s) e (rw t at h) in
      (e', rw t (subst (Reads (c ∷ s)) (sym v) (Reads.plain (c ∷ s) d b)))
]

Reads-ft_atol : {s : Text} {v : ℕ} → Reads s v → ft_atol s false ≡ (v, false)
unfolding ft_atol
Reads-ft_atol (Reads.plain [] d b) = ok-atol_digits [] d b
Reads-ft_atol (Reads.plain (c ∷ s) d b) =
    let t : (c == b'+') ≡ false = ground (arith, d.0) in rw t (ok-atol_digits (c ∷ s) d b)
Reads-ft_atol (Reads.plus s d b) = ok-atol_digits s d b

Reads-IsBlank : {s : Text} {v : ℕ} → Reads s v → IsBlank s → v ≡ 0
Reads-IsBlank (Reads.plain [] d b) blank = refl
Reads-IsBlank (Reads.plain (c ∷ s) d b) (inl e) = absurd (cc e)
Reads-IsBlank (Reads.plain (c ∷ s) d b) (inr e) =
    let plus : c ≡ b'+' = cc e in absurd (omega (arith, d.0, plus))
Reads-IsBlank (Reads.plus s d b) (inl e) = absurd (cc e)
Reads-IsBlank (Reads.plus s d b) (inr e) = let none_left : s ≡ [] = cc e in ap (value 0) none_left

-- A number above 0 was not read from a blank text.
Reads-Count : {s : Text} {v : ℕ} → Reads s v → 0 < v → Count s v
Reads-Count r h = (r, λ blank. absurd (omega (arith, Reads-IsBlank r blank)))

IsBlank-Reads : {s : Text} → IsBlank s → Reads s 0
IsBlank-Reads (inl e) = subst (λ s. Reads s 0) (sym e) (Reads.plain [] tt (omega arith))
IsBlank-Reads (inr e) = subst (λ s. Reads s 0) (sym e) (Reads.plus [] tt (omega arith))

dec-IsBlank : (s : Text) → IsBlank s ⊎ (¬ IsBlank s)
dec-IsBlank [] = inl (inl refl)
dec-IsBlank (c ∷ []) = elim (Bool-cases (c == b'+')) [
  | inl t ↦ let e : c ≡ b'+' = ground arith in inl (inr (ap (λ c. c ∷ []) e))
  | inr t ↦ inr (λ b. elim b [
    | inl e ↦ absurd (cc e)
    | inr e ↦ let e' : c ≡ b'+' = cc e in absurd (ground (arith, t, e'))
  ])
]
dec-IsBlank (c ∷ x ∷ s) = inr (λ b. elim b [ inl e ↦ absurd (cc e) | inr e ↦ absurd (cc e) ])

-- The argument for the rounds, if it is there: a number, or a blank text, which stands for 0.
abbrev pub AreRounds : Option Text → Option ℕ → Type 0
AreRounds none none = Unit
AreRounds (some s) (some v) = Count s v ⊎ (IsBlank s × (v ≡ 0))
AreRounds _ _ = ⊥

fill_rounds-AreRounds :
    (o : Option Text) → (fill_rounds o false).1 ≡ false → AreRounds o (fill_rounds o false).0
unfolding fill_rounds
fill_rounds-AreRounds none h = tt
fill_rounds-AreRounds (some s) h =
    let r = (ft_atol-Reads s false h).1 in
    elim (dec-IsBlank s) [
      | inl blank ↦ inr (blank, Reads-IsBlank r blank)
      | inr some_digit ↦ inl (r, some_digit)
    ]

rounds_Reads : {s : Text} {v : ℕ} → Count s v ⊎ (IsBlank s × (v ≡ 0)) → Reads s v
rounds_Reads (inl c) = c.0
rounds_Reads {s} (inr (blank, e)) = subst (Reads s) (sym e) (IsBlank-Reads blank)

AreRounds-fill_rounds :
    (o : Option Text) (r : Option ℕ) → AreRounds o r → fill_rounds o false ≡ (r, false)
unfolding fill_rounds
AreRounds-fill_rounds none none h = refl
AreRounds-fill_rounds none (some v) h = absurd h
AreRounds-fill_rounds (some s) none h = absurd h
AreRounds-fill_rounds (some s) (some v) h =
    let e = Reads-ft_atol (rounds_Reads h) in λ i. (some (e i).0, (e i).1)

-- The texts of a table, and its bounds: at least one philosopher and at most `most`, and times above
-- 0.
pub record Describes (most : ℕ) (n die eat sleep : Text) (rounds : Option Text) (t : Config)
    : Type 0 where
  pub philos : Count n t.nmbr_of_philos
  pub dies : Count die t.time_to_die
  pub eats : Count eat t.time_to_eat
  pub sleeps : Count sleep t.time_to_sleep
  pub turns : AreRounds rounds t.rounds
  pub some_philo : 0 < t.nmbr_of_philos
  pub enough_forks : t.nmbr_of_philos ≤ most
  pub some_life : 0 < t.time_to_die
  pub some_meal : 0 < t.time_to_eat
  pub some_sleep : 0 < t.time_to_sleep

-- The tests of the values.
abbrev Passes : Config → Type 0
Passes t =
    (0 < t.nmbr_of_philos)
    × (t.nmbr_of_philos ≤ 200)
    × (0 < t.time_to_die)
    × (0 < t.time_to_eat)
    × (0 < t.time_to_sleep)

accepted-Passes :
    (t u : Config) (e : Bool)
    → check_values (t, e) ≡ Checked.accepted u
    → (t ≡ u) × (e ≡ false) × Passes t
unfolding check_values
accepted-Passes t u e h = ground arith

Passes-accepted : (t : Config) → Passes t → check_values (t, false) ≡ Checked.accepted t
unfolding check_values
Passes-accepted t p = ground arith

module _ (n die eat sleep : Text) (rounds : Option Text) where
  values-Describes :
      (t : Config)
      → check_values (fill_values n die eat sleep rounds false) ≡ Checked.accepted t
      → Describes 200 n die eat sleep rounds t
  unfolding fill_values
  values-Describes t h =
      let r = fill_rounds rounds false in
      let a = ft_atol n r.1 in
      let b = ft_atol die a.1 in
      let c = ft_atol eat b.1 in
      let d = ft_atol sleep c.1 in
      let filled : Config = (fill_values n die eat sleep rounds false).0 in
      let (same, none_set, p) = accepted-Passes filled t d.1 h in
      let (ed, kd) = ft_atol-Reads sleep c.1 none_set in
      let (ec, kc) = ft_atol-Reads eat b.1 ed in
      let (eb, kb) = ft_atol-Reads die a.1 ec in
      let (ea, ka) = ft_atol-Reads n r.1 eb in
      subst (Describes 200 n die eat sleep rounds) same (record {
        philos = Reads-Count ka p.0;
        dies = Reads-Count kb p.2;
        eats = Reads-Count kc p.3;
        sleeps = Reads-Count kd p.4;
        turns = fill_rounds-AreRounds rounds ea;
        some_philo = p.0;
        enough_forks = p.1;
        some_life = p.2;
        some_meal = p.3;
        some_sleep = p.4;
      })

  Describes-values :
      {most : ℕ} (t : Config)
      → most ≤ 200
      → Describes most n die eat sleep rounds t
      → check_values (fill_values n die eat sleep rounds false) ≡ Checked.accepted t
  unfolding fill_values
  Describes-values t few d =
      let at_most : t.nmbr_of_philos ≤ 200 = omega (arith, few, d.enough_forks) in
      let p : Passes t = (d.some_philo, at_most, d.some_life, d.some_meal, d.some_sleep) in
      rw
        (
          AreRounds-fill_rounds rounds t.rounds d.turns,
          Reads-ft_atol d.philos.0,
          Reads-ft_atol d.dies.0,
          Reads-ft_atol d.eats.0,
          Reads-ft_atol d.sleeps.0,
        )
        (Passes-accepted t p)

-- The arguments of a table of at most so many philosophers.
abbrev pub AreArguments : ℕ → List Text → Config → Type 0
AreArguments most (n ∷ die ∷ eat ∷ sleep ∷ []) t = Describes most n die eat sleep none t
AreArguments most (n ∷ die ∷ eat ∷ sleep ∷ rounds ∷ []) t =
    Describes most n die eat sleep (some rounds) t
AreArguments most _ t = ⊥

-- `input_valid` accepts four or five texts only, those of numbers of an `int`, where that of the
-- rounds may be empty or a bare plus and is then 0, and the table has these numbers: of 1 to 200
-- philosophers, for whom the arrays have room, and of times above 0. With fewer than 200
-- philosophers it accepts all such texts.
pub input_valid-AreArguments :
    (args : List Text) (t : Config)
    → (input_valid args ≡ Checked.accepted t → AreArguments 200 args t)
      × (AreArguments 199 args t → input_valid args ≡ Checked.accepted t)
unfolding input_valid
input_valid-AreArguments (n ∷ die ∷ eat ∷ sleep ∷ []) t =
    (values-Describes n die eat sleep none t, Describes-values n die eat sleep none t (omega arith))
input_valid-AreArguments (n ∷ die ∷ eat ∷ sleep ∷ rounds ∷ []) t = (
  values-Describes n die eat sleep (some rounds) t,
  Describes-values n die eat sleep (some rounds) t (omega arith),
)
input_valid-AreArguments [] t = (λ e. cc e, λ h. absurd h)
input_valid-AreArguments (a ∷ []) t = (λ e. cc e, λ h. absurd h)
input_valid-AreArguments (a ∷ b ∷ []) t = (λ e. cc e, λ h. absurd h)
input_valid-AreArguments (a ∷ b ∷ c ∷ []) t = (λ e. cc e, λ h. absurd h)
input_valid-AreArguments (a ∷ b ∷ c ∷ d ∷ e ∷ f ∷ r) t = (λ e. cc e, λ h. absurd h)
