-- ===== src/SoLong/Map/Accepted.antt =====
-- The tests that lines have passed which check_map accepts.
use model_lib.Common.{
  ℕ, ◌+◌, ◌≡◌, ap, sym, ◌∙◌, ltb, if◌then◌else◌, Bool, Bool-cases, Option-cases, true, false, List,
  Option, none, some, ◌>>=◌, inl, inr,
}
use mathlib.Core.Option.{some-injective, none-ne-some}
use model_lib.SoLong.Map.{
  Line, MapChars, cells, list_len, map_is_rectangular, map_is_valid, flood_fill, fill_array,
  all_taken, Checked, accepted, not_solvable, invalid, check_ways, check_lines, check_map,
}

-- What an answer that accepts has for a number.
abbrev length_of : Checked → Option ℕ
length_of (accepted n) = some n
length_of not_solvable = none
length_of invalid = none

accepts : (b : Bool) (n m : ℕ) → length_of (if b then accepted n else not_solvable) ≡ some m → n ≡ m
accepts true n m h = some-injective _ _ h
accepts false n m h = absurd (none-ne-some _ h)

check_ways-accepted :
    (map : List Line) (chars : MapChars) (map_len n : ℕ)
    → check_ways map chars map_len ≡ some (accepted n)
    → map_len ≡ n
unfolding check_ways
check_ways-accepted map chars map_len n h =
    let array = fill_array map map_len in
    elim (Option-cases (flood_fill (cells array + 1) chars.player_x chars.player_y array)) [
      | inl e ↦ absurd (none-ne-some _ (rw (e, check_ways, ◌>>=◌) at h))
      | inr (filled, e) ↦
          accepts (all_taken filled) map_len n
            (ap length_of (some-injective _ _ (rw (e, check_ways, ◌>>=◌) at h)))
    ]

-- The tests that were passed.
pub record Passed (lines trimmed : List Line) (chars counted : MapChars) (n : ℕ) : Type 0 where
  pub rect : map_is_rectangular lines ≡ (true, trimmed)
  pub valid : map_is_valid trimmed chars ≡ some (true, counted)
  pub number : list_len lines ≡ n

abbrev Answer : Type 0
Answer = Checked × MapChars × List Line

check_lines-accepted :
    (map trimmed : List Line) (chars counted : MapChars) (map_len n : ℕ)
    → check_lines map chars map_len ≡ some (accepted n, counted, trimmed)
    → (map ≡ trimmed) × (map_is_valid map chars ≡ some (true, counted)) × (map_len ≡ n)
unfolding check_lines
check_lines-accepted map trimmed chars counted map_len n h =
    elim (Option-cases (map_is_valid map chars)) [
      | inl e ↦ absurd (none-ne-some _ (rw (e, check_lines, ◌>>=◌) at h))
      | inr ((false, c), e) ↦
          let h' : Path Answer (invalid, c, map) (accepted n, counted, trimmed) =
            some-injective _ _ (rw (e, check_lines, ◌>>=◌) at h) in
          absurd (none-ne-some _ (ap (λ r. length_of r.0) h'))
      | inr ((true, c), e) ↦ elim (Option-cases (check_ways map c map_len)) [
        | inl e' ↦ absurd (none-ne-some _ (rw (e, e', check_lines, ◌>>=◌) at h))
        | inr (checked, e') ↦
            let h' : Path Answer (checked, c, map) (accepted n, counted, trimmed) =
              some-injective _ _ (rw (e, e', check_lines, ◌>>=◌) at h) in
            (
              ap (λ r. r.2) h',
              e ∙ (λ i. some (true, (h' i).1)),
              check_ways-accepted map c map_len n (e' ∙ λ i. some (h' i).0),
            )
      ]
    ]

pub check_map-accepted :
    (lines trimmed : List Line) (chars counted : MapChars) (n : ℕ)
    → check_map lines chars ≡ some (accepted n, counted, trimmed)
    → Passed lines trimmed chars counted n
unfolding check_map
check_map-accepted lines trimmed chars counted n h = elim (Bool-cases (ltb 2 (list_len lines))) [
  | inr t ↦
      let h' : Path Answer (invalid, chars, lines) (accepted n, counted, trimmed) =
        some-injective _ _ (rw (t, check_map) at h) in
      absurd (none-ne-some _ (ap (λ r. length_of r.0) h'))
  | inl t ↦ elim (Bool-cases (map_is_rectangular lines).0) [
    | inr u ↦
        let h' : Path Answer (invalid, chars, (map_is_rectangular lines).1)
            (accepted n, counted, trimmed) =
          some-injective _ _ (rw (t, u, check_map) at h) in
        absurd (none-ne-some _ (ap (λ r. length_of r.0) h'))
    | inl u ↦
        let (same, valid, number) =
          check_lines-accepted (map_is_rectangular lines).1 trimmed chars counted (list_len lines) n
            (rw (t, u, check_map) at h) in
        record {
          rect = λ i. (u i, same i);
          valid = ap (λ l. map_is_valid l chars) (sym same) ∙ valid;
          number = number;
        }
  ]
]
