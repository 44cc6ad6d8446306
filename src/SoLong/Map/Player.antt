-- ===== src/SoLong/Map/Player.antt =====
-- Where the count of map_is_valid finds the player.
use model_lib.Common.{
  ℕ, suc, ◌+◌, ◌≡◌, ap, sym, ◌∙◌, ◌==◌, ◌&&◌, not, Bool-cases, Option-cases, true, false, List, [],
  ◌∷◌, some, arith, ◌⊎◌, inl, inr,
}
use mathlib.Core.Bool.{false≢true}
use mathlib.Core.Option.{some-injective, none-ne-some}
use model_lib.Libft.Strings.{Text, char_at}
use model_lib.SoLong.Map.{Line, MapChars, count_char, contains_not_correct, lines_loop}
use model_lib.SoLong.Map.Cells.{Place, look}
use model_lib.SoLong.Map.Closed.{grid}

-- No player was counted.
abbrev pub SamePlayer : MapChars → MapChars → Type 0
SamePlayer m m' = (m'.player ≡ m.player) × (m'.player_x ≡ m.player_x) × (m'.player_y ≡ m.player_y)

-- The last one counted is at the place `p`.
abbrev pub IsAt : MapChars → Place → Type 0
IsAt m p = (m.player_x ≡ p.0) × (m.player_y ≡ p.1)

count_char-player :
    (m m' : MapChars) (c y i : ℕ)
    → count_char m c y i ≡ some m'
    → SamePlayer m m' ⊎ ((c ≡ b'P') × IsAt m' (i, y))
unfolding count_char
count_char-player m m' c y i h = elim (Bool-cases (c == b'C')) [
  | inl t ↦ stays (some-injective _ _ (rw (t, count_char) at h))
  | inr t ↦ elim (Bool-cases (c == b'E')) [
    | inl t' ↦ stays (some-injective _ _ (rw (t, t', count_char) at h))
    | inr t' ↦ elim (Bool-cases (c == b'P')) [
      | inl t'' ↦
          let e = some-injective _ _ (rw (t, t', t'', count_char) at h) in
          inr (ground (arith, t''), (sym (ap (λ m. m.player_x) e), sym (ap (λ m. m.player_y) e)))
      | inr t'' ↦ elim (Bool-cases (not (c == b'1') && not (c == b'0'))) [
        | inl u ↦ absurd (none-ne-some _ (rw (t, t', t'', u, count_char) at h))
        | inr u ↦ stays (some-injective _ _ (rw (t, t', t'', u, count_char) at h))
      ]
    ]
  ]
]
  where
    stays :
        {n : MapChars}
        → n ≡ m'
        → {P : Type 0}
        → ((m'.player ≡ n.player) × (m'.player_x ≡ n.player_x) × (m'.player_y ≡ n.player_y)) ⊎ P
    stays e =
        inl (sym (ap (λ m. m.player) e), sym (ap (λ m. m.player_x) e), sym (ap (λ m. m.player_y) e))

SamePlayer-trans : (m n o : MapChars) → SamePlayer m n → SamePlayer n o → SamePlayer m o
SamePlayer-trans m n o (a, b, c) (a', b', c') = (a' ∙ a, b' ∙ b, c' ∙ c)

IsAt-same : (m n : MapChars) (p : Place) → IsAt m p → SamePlayer m n → IsAt n p
IsAt-same m n p (x, y) (a, b, c) = (b ∙ x, c ∙ y)

contains_not_correct-player :
    (str : Text) (m m' : MapChars) (y i : ℕ)
    → contains_not_correct m str y i ≡ (false, m')
    → SamePlayer m m' ⊎ ((j : ℕ) × (char_at str j ≡ b'P') × IsAt m' (i + j, y))
unfolding contains_not_correct
contains_not_correct-player [] m m' y i h =
    let e : m ≡ m' = ap (λ r. r.1) h in
    inl (sym (ap (λ m. m.player) e), sym (ap (λ m. m.player_x) e), sym (ap (λ m. m.player_y) e))
contains_not_correct-player (c ∷ str) m m' y i h = elim (Option-cases (count_char m c y i)) [
  | inl n ↦ absurd (false≢true (sym (ap (λ r. r.0) (rw (n, contains_not_correct) at h))))
  | inr (m₁, e) ↦
      elim (contains_not_correct-player str m₁ m' y (i + 1) (rw (e, contains_not_correct) at h)) [
        | inr (j, at, (x, v)) ↦
            let over : i + 1 + j ≡ i + suc j = omega arith in inr (suc j, at, (x ∙ over, v))
        | inl same ↦ elim (count_char-player m m₁ c y i e) [
          | inl same' ↦ inl (SamePlayer-trans m m₁ m' same' same)
          | inr (found, at) ↦
              let (x, v) = IsAt-same m₁ m' (i, y) at same in
              let here : i ≡ i + 0 = omega arith in inr (0, found, (x ∙ here, v))
        ]
      ]
]

pub lines_loop-player :
    (lines : List Line) (m m' : MapChars) (y : ℕ)
    → lines_loop m lines y ≡ (true, m')
    → SamePlayer m m' ⊎ ((j : ℕ) × (k : ℕ) × (look (grid lines) (j, k) ≡ b'P') × IsAt m' (j, y + k))
unfolding lines_loop
lines_loop-player [] m m' y h =
    let e : m ≡ m' = ap (λ r. r.1) h in
    inl (sym (ap (λ m. m.player) e), sym (ap (λ m. m.player_x) e), sym (ap (λ m. m.player_y) e))
lines_loop-player (l ∷ lines) m m' y h = elim (Bool-cases (contains_not_correct m l.row y 0).0) [
  | inl t ↦ absurd (false≢true (ap (λ r. r.0) (rw (t, lines_loop) at h)))
  | inr t ↦
      let m₁ = (contains_not_correct m l.row y 0).1 in
      elim (lines_loop-player lines m₁ m' (y + 1) (rw (t, lines_loop) at h)) [
        | inr (j, k, at, (x, v)) ↦
            let down : y + 1 + k ≡ y + suc k = omega arith in inr (j, suc k, at, (x, v ∙ down))
        | inl same ↦ elim (contains_not_correct-player l.row m m₁ y 0 (λ i. (t i, m₁))) [
          | inl same' ↦ inl (SamePlayer-trans m m₁ m' same' same)
          | inr (j, at, pos) ↦
              let (x, v) = IsAt-same m₁ m' (0 + j, y) pos same in
              let down : y ≡ y + 0 = omega arith in
              let over : 0 + j ≡ j = omega arith in inr (j, 0, at, (x ∙ over, v ∙ down))
        ]
      ]
]
