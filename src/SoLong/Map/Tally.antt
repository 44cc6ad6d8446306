-- ===== src/SoLong/Map/Tally.antt =====
-- The collectibles of a grid.
use model_lib.Common.{ℕ, ◌+◌, ◌==◌, if◌then◌else◌, [], ◌∷◌}
use model_lib.Libft.Strings.{Text}
use model_lib.SoLong.Map.{Grid}

abbrev pub as_one : ℕ → ℕ
as_one c = if c == b'C' then 1 else 0

abbrev pub count_row : Text → ℕ
count_row [] = 0
count_row (c ∷ row) = as_one c + count_row row

abbrev pub count : Grid → ℕ
count [] = 0
count (row ∷ g) = count_row row + count g
