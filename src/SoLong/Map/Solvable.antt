-- ===== src/SoLong/Map/Solvable.antt =====
-- check_map accepts the lines of a well-formed map if every goal can be reached.
use model_lib.Common.{
  ℕ, ◌+◌, ◌<◌, ◌≡◌, refl, ap, sym, subst, ◌∙◌, ltb, if◌then◌else◌, true, List, [], ◌∷◌, none, some,
  ◌>>=◌, arith, ◌⊎◌, inl, inr,
}
use model_lib.SoLong.Map.{
  Line, MapChars, Grid, passes, cells, list_len, map_is_rectangular, map_is_valid, trim_lines,
  same_lengths, flood_fill, fill_array, all_taken, Checked, accepted, not_solvable, check_ways,
  check_lines, check_map,
}
use model_lib.SoLong.Map.Cells.{open_at-inside}
use model_lib.SoLong.Map.Ways.{flood_fill-Marks, all_taken-IsSolvable, IsSolvable, HasLost}
use model_lib.SoLong.Map.Closed.{grid, fill_array-grid, same_lengths-width, map_is_closed-IsWalled}
use model_lib.SoLong.Map.Valid.{start, map_is_valid-look}

pub list_len-trim_lines : (lines : List Line) → list_len (trim_lines lines) ≡ list_len lines
unfolding list_len trim_lines
list_len-trim_lines [] = refl
list_len-trim_lines (l ∷ lines) = ap (λ n. n + 1) (list_len-trim_lines lines)

check_lines-ways :
    (trimmed : List Line) (chars counted : MapChars) (map_len : ℕ) (checked : Checked)
    → map_is_valid trimmed chars ≡ some (true, counted)
    → check_ways trimmed counted map_len ≡ some checked
    → check_lines trimmed chars map_len ≡ some (checked, counted, trimmed)
unfolding check_lines
check_lines-ways trimmed chars counted map_len checked valid e = rw (valid, check_lines, ◌>>=◌, e)

check_map-ways :
    (lines trimmed : List Line) (chars counted : MapChars)
    → 2 < list_len lines
    → map_is_rectangular lines ≡ (true, trimmed)
    → map_is_valid trimmed chars ≡ some (true, counted)
    → (checked : Checked) → check_ways trimmed counted (list_len lines) ≡ some checked
    → check_map lines chars ≡ some (checked, counted, trimmed)
unfolding check_map
check_map-ways lines trimmed chars counted tall rect valid checked e =
    let t : ltb 2 (list_len lines) ≡ true = ground (arith, tall) in
    let first : (map_is_rectangular lines).0 ≡ true = ap (λ r. r.0) rect in
    let second : (map_is_rectangular lines).1 ≡ trimmed = ap (λ r. r.1) rect in
    rw (t, first, check_map)
      (ap (λ l. check_lines l chars (list_len lines)) second
        ∙ check_lines-ways trimmed chars counted (list_len lines) checked valid e)

check_ways-filled :
    (trimmed : List Line) (counted : MapChars) (map_len : ℕ) (g' : Grid)
    → list_len trimmed ≡ map_len
    → flood_fill (cells (grid trimmed) + 1) counted.player_x counted.player_y (grid trimmed)
      ≡ some g'
    → check_ways trimmed counted map_len
      ≡ some (if all_taken g' then accepted map_len else not_solvable)
unfolding check_ways
check_ways-filled trimmed counted map_len g' size e =
    let array : fill_array trimmed map_len ≡ grid trimmed =
      subst (λ n. fill_array trimmed n ≡ grid trimmed) size (fill_array-grid trimmed) in
    rw (array, e, check_ways, ◌>>=◌)

-- For at least three lines that are a rectangle and a valid map once they are trimmed, check_map
-- never reads outside of the map and accepts it if a way without walls leads from the player to each
-- exit and each collectible, and else finds it not solvable.
pub check_map-IsSolvable :
    (lines trimmed : List Line) (chars counted : MapChars)
    → 2 < list_len lines
    → map_is_rectangular lines ≡ (true, trimmed)
    → map_is_valid trimmed chars ≡ some (true, counted)
    → ((check_map lines chars ≡ some (accepted (list_len lines), counted, trimmed))
        × IsSolvable (grid trimmed) (counted.player_x, counted.player_y))
      ⊎ ((check_map lines chars ≡ some (not_solvable, counted, trimmed))
          × HasLost (grid trimmed) (counted.player_x, counted.player_y))
unfolding map_is_rectangular
check_map-IsSolvable lines trimmed chars counted tall rect valid =
    let same : trim_lines lines ≡ trimmed = ap (λ r. r.1) rect in
    let (closed, at) = map_is_valid-look trimmed chars counted valid in
    let (w, wide) =
      same_lengths-width trimmed
        (subst (λ l. same_lengths none l ≡ true) same (ap (λ r. r.0) rect)) in
    let inside = open_at-inside w (grid trimmed) (start counted) wide (ap passes at) in
    let (g', e, marks) =
      flood_fill-Marks w (grid trimmed) counted.player_x counted.player_y
        (map_is_closed-IsWalled w trimmed wide closed) (omega (arith, inside.0))
        (omega (arith, inside.1)) in
    let size : list_len trimmed ≡ list_len lines =
      ap list_len (sym same) ∙ list_len-trim_lines lines in
    let ways = check_ways-filled trimmed counted (list_len lines) g' size e in
    let begins = check_map-ways lines trimmed chars counted tall rect valid in
    elim (all_taken-IsSolvable (grid trimmed) g' (start counted) marks) [
      | inl (t, solvable) ↦ inl (begins (accepted (list_len lines)) (rw t at ways), solvable)
      | inr (t, lost) ↦ inr (begins not_solvable (rw t at ways), lost)
    ]
