-- ===== src/SoLong/Map/Found.antt =====
-- Lines that pass map_is_valid have one exit, where it was counted, and as many collectibles.
use model_lib.Common.{
  ℕ, ◌+◌, ◌≡◌, ap, sym, Bool-cases, Option-cases, true, false, List, [], ◌∷◌, arith, inl, inr,
}
use mathlib.Core.Bool.{false≢true}
use model_lib.Libft.Strings.{Text}
use model_lib.SoLong.Map.{Line, MapChars, count_char, contains_not_correct, lines_loop}
use model_lib.SoLong.Map.Closed.{grid}
use model_lib.SoLong.Map.Tally.{as_one, count_row, count}
use model_lib.SoLong.Map.Exit.{
  exit_of, Counts, Counts-trans, InCell, InRow, InLines, count_char-Counts, Both-row, Both-lines,
}

contains_not_correct-Counts :
    (str : Text) (m m' : MapChars) (y i : ℕ)
    → contains_not_correct m str y i ≡ (false, m')
    → Counts (InRow str y i) (count_row str) m m'
unfolding contains_not_correct
contains_not_correct-Counts [] m m' y i h =
    let e : m' ≡ m = ap (λ r. r.1) (sym h) in
    (
      (inl (ap (λ m. m.exit) e, λ q (j, at, f). ground (arith, at)), λ s. ap exit_of e),
      omega (arith, ap (λ m. m.collectible) e),
    )
contains_not_correct-Counts (c ∷ str) m m' y i h = elim (Option-cases (count_char m c y i)) [
  | inl n ↦ absurd (false≢true (sym (ap (λ r. r.0) (rw (n, contains_not_correct) at h))))
  | inr (m₁, e) ↦
      Counts-trans (InCell c y i) (InRow str y (i + 1)) (InRow (c ∷ str) y i) (as_one c)
        (count_row str) m m₁ m' (Both-row c str y i) (count_char-Counts m m₁ c y i e)
        (contains_not_correct-Counts str m₁ m' y (i + 1) (rw (e, contains_not_correct) at h))
]

pub lines_loop-Counts :
    (lines : List Line) (m m' : MapChars) (y : ℕ)
    → lines_loop m lines y ≡ (true, m')
    → Counts (InLines lines y) (count (grid lines)) m m'
unfolding lines_loop
lines_loop-Counts [] m m' y h =
    let e : m' ≡ m = ap (λ r. r.1) (sym h) in
    (
      (inl (ap (λ m. m.exit) e, λ q (x, k, at, f). ground (arith, at)), λ s. ap exit_of e),
      omega (arith, ap (λ m. m.collectible) e),
    )
lines_loop-Counts (l ∷ lines) m m' y h = elim (Bool-cases (contains_not_correct m l.row y 0).0) [
  | inl t ↦ absurd (false≢true (ap (λ r. r.0) (rw (t, lines_loop) at h)))
  | inr t ↦
      let m₁ = (contains_not_correct m l.row y 0).1 in
      Counts-trans (InRow l.row y 0) (InLines lines (y + 1)) (InLines (l ∷ lines) y)
        (count_row l.row) (count (grid lines)) m m₁ m' (Both-lines l lines y)
        (contains_not_correct-Counts l.row m m₁ y 0 (λ i. (t i, m₁)))
        (lines_loop-Counts lines m₁ m' (y + 1) (rw (t, lines_loop) at h))
]
