-- ===== src/SoLong/Map/Exit.antt =====
-- What the count of map_is_valid finds of the exits and the collectibles.
use model_lib.Common.{
  ℕ, zero, suc, ◌+◌, ◌≤◌, ◌≢◌, ◌≡◌, refl, ap, sym, subst, ◌∙◌, ◌==◌, ◌&&◌, not, Bool-cases, List,
  ◌∷◌, some, arith, ◌⊎◌, inl, inr,
}
use mathlib.Core.Option.{some-injective, none-ne-some}
use model_lib.Libft.Strings.{Text, char_at}
use model_lib.SoLong.Map.{Line, MapChars, count_char}
use model_lib.SoLong.Map.Cells.{Place, look}
use model_lib.SoLong.Map.Closed.{grid}
use model_lib.SoLong.Map.Tally.{as_one}

abbrev pub exit_of : MapChars → Place
exit_of m = (m.exit_x, m.exit_y)

-- Of the places of `E`, none, one, or more were counted.
abbrev pub Finds : (E : Place → Type 0) → MapChars → MapChars → Type 0
Finds E m m' =
    ((m'.exit ≡ m.exit) × ((q : Place) → E q → ⊥))
    ⊎ (((m'.exit ≡ suc m.exit) × E (exit_of m') × ((q : Place) → E q → q ≡ exit_of m'))
        ⊎ (suc (suc m.exit) ≤ m'.exit))

-- The part behind counts on, and keeps the place if it finds none.
pub record Both (D E F : Place → Type 0) : Type 0 where
  apart : (q : Place) → F q → D q ⊎ E q
  first : (q : Place) → D q → F q
  second : (q : Place) → E q → F q

abbrev pub Keeps : (E : Place → Type 0) → MapChars → MapChars → Type 0
Keeps E m m' = Finds E m m' × ((m'.exit ≡ m.exit) → exit_of m' ≡ exit_of m)

Finds-trans :
    (D E F : Place → Type 0) (m n o : MapChars)
    → Both D E F
    → Keeps D m n
    → Keeps E n o
    → Keeps F m o
Finds-trans D E F m n o b (inl (a, no_d), k) (inl (a', no_e), k') = (
  inl (a' ∙ a, λ q f. elim (b.apart q f) [ inl d ↦ no_d q d | inr e ↦ no_e q e ]),
  λ s. k' a' ∙ k a,
)
Finds-trans D E F m n o b (inl (a, no_d), k) (inr (inl (a', at, one)), k') = (
  inr (
      inl (
        omega (arith, a, a'),
        b.second (exit_of o) at,
        λ q f. elim (b.apart q f) [ inl d ↦ absurd (no_d q d) | inr e ↦ one q e ],
      )),
  λ s. absurd (omega (arith, s, a, a')),
)
Finds-trans D E F m n o b (inl (a, no_d), k) (inr (inr more), k') =
    (inr (inr (omega (arith, a, more))), λ s. absurd (omega (arith, s, a, more)))
Finds-trans D E F m n o b (inr (inl (a, at, one)), k) (inl (a', no_e), k') =
    let same = k' a' in
    (
      inr (
          inl (
            omega (arith, a, a'),
            b.first (exit_of o) (subst D (sym same) at),
            λ q f. elim (b.apart q f) [ inl d ↦ one q d ∙ sym same | inr e ↦ absurd (no_e q e) ],
          )),
      λ s. absurd (omega (arith, s, a, a')),
    )
Finds-trans D E F m n o b (inr (inl (a, at, one)), k) (inr (inl (a', at', one')), k') =
    (inr (inr (omega (arith, a, a'))), λ s. absurd (omega (arith, s, a, a')))
Finds-trans D E F m n o b (inr (inl (a, at, one)), k) (inr (inr more), k') =
    (inr (inr (omega (arith, a, more))), λ s. absurd (omega (arith, s, a, more)))
Finds-trans D E F m n o b (inr (inr more), k) (inl (a', no_e), k') =
    (inr (inr (omega (arith, a', more))), λ s. absurd (omega (arith, s, a', more)))
Finds-trans D E F m n o b (inr (inr more), k) (inr (inl (a', at', one')), k') =
    (inr (inr (omega (arith, a', more))), λ s. absurd (omega (arith, s, a', more)))
Finds-trans D E F m n o b (inr (inr more), k) (inr (inr more'), k') =
    (inr (inr (omega (arith, more', more))), λ s. absurd (omega (arith, s, more', more)))

-- The exits, and `n` collectibles.
abbrev pub Counts : (E : Place → Type 0) → (n : ℕ) → MapChars → MapChars → Type 0
Counts E n m m' = Keeps E m m' × (m'.collectible ≡ m.collectible + n)

pub Counts-trans :
    (D E F : Place → Type 0) (k l : ℕ) (m n o : MapChars)
    → Both D E F
    → Counts D k m n
    → Counts E l n o
    → Counts F (k + l) m o
Counts-trans D E F k l m n o b (a, c) (a', c') =
    (Finds-trans D E F m n o b a a', omega (arith, c, c'))

-- The exit at one place, in a row from the column `i` on, in lines from the row `y` on.
abbrev pub InCell : (c y i : ℕ) → Place → Type 0
InCell c y i q = (c ≡ b'E') × (q ≡ (i, y))

abbrev pub InRow : (str : Text) (y i : ℕ) → Place → Type 0
InRow str y i q = (j : ℕ) × (char_at str j ≡ b'E') × (q ≡ (i + j, y))

abbrev pub InLines : (lines : List Line) (y : ℕ) → Place → Type 0
InLines lines y q = (x k : ℕ) × (look (grid lines) (x, k) ≡ b'E') × (q ≡ (x, y + k))

passed_by :
    (m m' n : MapChars) (c y i : ℕ)
    → n ≡ m'
    → (n.exit ≡ m.exit)
    → (exit_of n ≡ exit_of m)
    → (n.collectible ≡ m.collectible + as_one c)
    → c ≢ b'E'
    → Counts (InCell c y i) (as_one c) m m'
passed_by m m' n c y i e a p k d = (
  (inl (ap (λ m. m.exit) (sym e) ∙ a, λ q f. d f.0), λ s. ap exit_of (sym e) ∙ p),
  ap (λ m. m.collectible) (sym e) ∙ k,
)

pub count_char-Counts :
    (m m' : MapChars) (c y i : ℕ)
    → count_char m c y i ≡ some m'
    → Counts (InCell c y i) (as_one c) m m'
unfolding count_char
count_char-Counts m m' c y i h = elim (Bool-cases (c == b'C')) [
  | inl t ↦
      passed_by m m' (record m { collectible = m.collectible + 1 }) c y i
        (some-injective _ _ (rw (t, count_char) at h)) refl refl (rw t) (λ e. ground (arith, t, e))
  | inr t ↦ elim (Bool-cases (c == b'E')) [
    | inl t' ↦
        let e = some-injective _ _ (rw (t, t', count_char) at h) in
        let more : m'.exit ≡ m.exit + 1 = ap (λ m. m.exit) (sym e) in
        (
          (
            inr (
                inl (
                  omega (arith, more),
                  (ground (arith, t'), ap exit_of (sym e)),
                  λ q f. f.1 ∙ ap exit_of e,
                )),
            λ s. absurd (omega (arith, s, more)),
          ),
          ap (λ m. m.collectible) (sym e) ∙ rw t (omega arith),
        )
    | inr t' ↦ elim (Bool-cases (c == b'P')) [
      | inl u ↦
          passed_by m m' (record m { player = m.player + 1; player_x = i; player_y = y }) c y i
            (some-injective _ _ (rw (t, t', u, count_char) at h)) refl refl (rw t (omega arith))
            (λ e. ground (arith, t', e))
      | inr u ↦ elim (Bool-cases (not (c == b'1') && not (c == b'0'))) [
        | inl u' ↦ absurd (none-ne-some _ (rw (t, t', u, u', count_char) at h))
        | inr u' ↦
            passed_by m m' m c y i (some-injective _ _ (rw (t, t', u, u', count_char) at h)) refl
              refl (rw t (omega arith)) (λ e. ground (arith, t', e))
      ]
    ]
  ]
]

pub Both-row :
    (c : ℕ) (str : Text) (y i : ℕ) → Both (InCell c y i) (InRow str y (i + 1)) (InRow (c ∷ str) y i)
Both-row c str y i = record { apart = apart; first = first; second = second }
  where
    apart : (q : Place) → InRow (c ∷ str) y i q → InCell c y i q ⊎ InRow str y (i + 1) q
    apart q (zero, at, e) = let s : i + 0 ≡ i = omega arith in inl (at, e ∙ λ k. (s k, y))
    apart q (suc j, at, e) =
        let s : i + suc j ≡ i + 1 + j = omega arith in inr (j, at, e ∙ λ k. (s k, y))

    first : (q : Place) → InCell c y i q → InRow (c ∷ str) y i q
    first q (at, e) = let s : i ≡ i + 0 = omega arith in (0, at, e ∙ λ k. (s k, y))

    second : (q : Place) → InRow str y (i + 1) q → InRow (c ∷ str) y i q
    second q (j, at, e) =
        let s : i + 1 + j ≡ i + suc j = omega arith in (suc j, at, e ∙ λ k. (s k, y))

pub Both-lines :
    (l : Line) (lines : List Line) (y : ℕ)
    → Both (InRow l.row y 0) (InLines lines (y + 1)) (InLines (l ∷ lines) y)
Both-lines l lines y = record { apart = apart; first = first; second = second }
  where
    apart : (q : Place) → InLines (l ∷ lines) y q → InRow l.row y 0 q ⊎ InLines lines (y + 1) q
    apart q (x, zero, at, e) =
        let s : y + 0 ≡ y = omega arith in
        let t : x ≡ 0 + x = omega arith in inl (x, at, e ∙ λ k. (t k, s k))
    apart q (x, suc k, at, e) =
        let s : y + suc k ≡ y + 1 + k = omega arith in inr (x, k, at, e ∙ λ i. (x, s i))

    first : (q : Place) → InRow l.row y 0 q → InLines (l ∷ lines) y q
    first q (x, at, e) =
        let s : y ≡ y + 0 = omega arith in
        let t : 0 + x ≡ x = omega arith in (x, 0, at, e ∙ λ k. (t k, s k))

    second : (q : Place) → InLines lines (y + 1) q → InLines (l ∷ lines) y q
    second q (x, k, at, e) =
        let s : y + 1 + k ≡ y + suc k = omega arith in (x, suc k, at, e ∙ λ i. (x, s i))
