-- ===== src/SoLong/Moves/Begin.antt =====
-- A map that check_map accepts begins a game.
use model_lib.Common.{All, ℕ, ◌≡◌, refl, ap, sym, subst, ◌∙◌, true, List, none, some, arith}
use mathlib.Core.Bool.{false≢true}
use model_lib.SoLong.Map.{
  Line, MapChars, passes, list_len, map_is_rectangular, trim_lines, same_lengths, fill_array,
  accepted, check_map,
}
use model_lib.SoLong.Map.Cells.{look, open_at-inside}
use model_lib.SoLong.Map.Closed.{grid, fill_array-grid, same_lengths-width}
use model_lib.SoLong.Map.Valid.{start, map_is_valid-look, map_is_valid-exit}
use model_lib.SoLong.Map.Accepted.{check_map-accepted}
use model_lib.SoLong.Map.Solvable.{list_len-trim_lines}
use model_lib.SoLong.Moves.{start_game}
use model_lib.SoLong.Map.Fence.{IsFenced, IsMeasured, trim_lines-IsMeasured, map_is_closed-IsFenced}
use model_lib.SoLong.Moves.Playing.{IsPlaying}

-- If check_map accepts the lines, the map has walls on all four sides, and the game that main starts
-- on it has the player on its cell, the exit where it was found and nowhere else, and the count of
-- all collectibles.
pub check_map-IsPlaying :
    (lines trimmed : List Line) (chars counted : MapChars) (n : ℕ)
    → check_map lines chars ≡ some (accepted n, counted, trimmed)
    → (w : ℕ) × IsFenced w (grid trimmed)
      × IsPlaying w (grid trimmed) (start_game trimmed counted n)
unfolding start_game map_is_rectangular
check_map-IsPlaying lines trimmed chars counted n h =
    let p = check_map-accepted lines trimmed chars counted n h in
    let (closed, at) = map_is_valid-look trimmed chars counted p.valid in
    let (exit_at, only, all) = map_is_valid-exit trimmed chars counted p.valid in
    let same : trim_lines lines ≡ trimmed = ap (λ r. r.1) p.rect in
    let (w, wide) =
      same_lengths-width trimmed
        (subst (λ l. same_lengths none l ≡ true) same (ap (λ r. r.0) p.rect)) in
    let size : list_len trimmed ≡ n =
      ap list_len (sym same) ∙ list_len-trim_lines lines ∙ p.number in
    let array : grid trimmed ≡ fill_array trimmed n =
      sym (fill_array-grid trimmed) ∙ ap (fill_array trimmed) size in
    let inside = open_at-inside w (grid trimmed) (start counted) wide (ap passes at) in
    let measured = subst (All IsMeasured) same (trim_lines-IsMeasured lines) in
    (
      w,
      map_is_closed-IsFenced w trimmed (omega (arith, inside.0)) wide measured closed,
      subst (λ g. IsPlaying w (grid trimmed) (record (start_game trimmed counted n) { map = g }))
          array
          (record {
            moving = record {
              size = refl;
              wide = wide;
              same = λ q. refl;
              here = at;
              goal = ap passes exit_at;
              bare = λ e. ground (arith, exit_at, e);
              left = all;
              only = only;
              won = λ t. absurd (false≢true t);
              ends = λ none_left e.
                  let same_place = sym at ∙ ap (look (grid trimmed)) e ∙ exit_at in
                  ground (arith, same_place);
            };
            drawn = λ _. exit_at;
          }),
    )
