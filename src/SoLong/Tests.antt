-- ===== src/SoLong/Tests.antt =====
-- Concrete maps and games of 42_so_long.
use model_lib.Common.{
  ℕ, zero, suc, ◌+◌, ◌≡◌, refl, true, false, List, [], ◌∷◌, Option, some, ◌>>=◌, arith, ◌⊎◌,
}
use model_lib.Libft.Strings.{Text}
use model_lib.Libft.Find.{ft_strchr}
use model_lib.SoLong.Map.{
  Line, MapChars, Grid, cells, list_len, fill_array, map_is_rectangular, map_is_valid, flood_fill,
  accepted, not_solvable, check_map,
}
use model_lib.SoLong.Map.Cells.{open_at}
use model_lib.SoLong.Map.Ways.{Marks, flood_fill-Marks, IsSolvable, HasLost}
use model_lib.SoLong.Map.Closed.{grid}
use model_lib.SoLong.Map.Solvable.{check_map-IsSolvable}
use model_lib.SoLong.Moves.Begin.{check_map-IsPlaying}
use model_lib.SoLong.Moves.{start_game, Vars, Handled, exits, returns, event_handler}
use model_lib.SoLong.Moves.Playing.{IsPlaying}
use model_lib.SoLong.Map.Fence.{IsFenced}

abbrev raw : Text → Line
raw s = record { row = s; len = 0 }

abbrev zeros : MapChars
zeros = record {
  collectible = 0;
  exit = 0;
  exit_x = 0;
  exit_y = 0;
  player = 0;
  player_x = 0;
  player_y = 0;
  movements = 0;
}

-- "111111\n", "1PC0E1\n", "111111".
abbrev wall_line : Text
wall_line = 49 ∷ 49 ∷ 49 ∷ 49 ∷ 49 ∷ 49 ∷ []

abbrev middle_line : Text
middle_line = 49 ∷ 80 ∷ 67 ∷ 48 ∷ 69 ∷ 49 ∷ []

abbrev small_map : List Line
small_map =
    raw (49 ∷ 49 ∷ 49 ∷ 49 ∷ 49 ∷ 49 ∷ 10 ∷ [])
    ∷ raw (49 ∷ 80 ∷ 67 ∷ 48 ∷ 69 ∷ 49 ∷ 10 ∷ [])
    ∷ raw wall_line
    ∷ []

abbrev small_trimmed : List Line
small_trimmed =
    record { row = wall_line; len = 6 }
    ∷ record { row = middle_line; len = 6 }
    ∷ record { row = wall_line; len = 6 }
    ∷ []

abbrev small_chars : MapChars
small_chars = record {
  collectible = 1;
  exit = 1;
  exit_x = 4;
  exit_y = 1;
  player = 1;
  player_x = 1;
  player_y = 1;
  movements = 0;
}

check_map-IsSolvable_example :
    ((check_map small_map zeros ≡ some (accepted 3, small_chars, small_trimmed))
      × IsSolvable (grid small_trimmed) (1, 1))
    ⊎ ((check_map small_map zeros ≡ some (not_solvable, small_chars, small_trimmed))
        × HasLost (grid small_trimmed) (1, 1))
unfolding map_is_rectangular map_is_valid list_len ft_strchr
check_map-IsSolvable_example =
    check_map-IsSolvable small_map small_trimmed zeros small_chars (omega arith) refl refl

small_accepted : check_map small_map zeros ≡ some (accepted 3, small_chars, small_trimmed)
unfolding check_map ft_strchr
small_accepted = refl

top_row : (x : ℕ) → open_at (grid small_trimmed) (x, 0) ≡ false
top_row zero = refl
top_row (suc zero) = refl
top_row (suc (suc zero)) = refl
top_row (suc (suc (suc zero))) = refl
top_row (suc (suc (suc (suc zero)))) = refl
top_row (suc (suc (suc (suc (suc zero))))) = refl
top_row (suc (suc (suc (suc (suc (suc x)))))) = refl

first_column : (y : ℕ) → open_at (grid small_trimmed) (0, y) ≡ false
first_column zero = refl
first_column (suc zero) = refl
first_column (suc (suc zero)) = refl
first_column (suc (suc (suc y))) = refl

-- The grid of the small map is walled.
flood_fill-Marks_example :
    (g' : Grid) × (flood_fill (cells (grid small_trimmed) + 1) 1 1 (grid small_trimmed) ≡ some g')
    × Marks (grid small_trimmed) (1, 1) g'
flood_fill-Marks_example =
    flood_fill-Marks 6 (grid small_trimmed) 1 1
      (record { wide = (refl, (refl, (refl, tt))); top = top_row; left = first_column })
      (omega arith) (omega arith)

small_game : Vars
small_game = start_game small_trimmed small_chars 3

next : ℕ → Handled → Option Handled
next keycode exits = some exits
next keycode (returns result v) = event_handler keycode v

-- The three keys to the exit.
won_game :
    (v : Vars) × ((event_handler 100 small_game >>= λ r. next 100 r >>= λ r. next 100 r)
      ≡ some (returns 1 v))
    × (v.ended ≡ true)
unfolding event_handler next small_game start_game fill_array
won_game = (_, refl, refl)

check_map-IsPlaying_example :
    (w : ℕ) × IsFenced w (grid small_trimmed)
    × IsPlaying w (grid small_trimmed) (start_game small_trimmed small_chars 3)
check_map-IsPlaying_example =
    check_map-IsPlaying small_map small_trimmed zeros small_chars 3 small_accepted
