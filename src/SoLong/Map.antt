-- ===== src/SoLong/Map.antt =====
-- 42_so_long/src: map_check.c, flood_fill and fill_array of error.c, list_len of utils.c. The list of
-- lines is that of `t_map`, a grid is the array of strings; every allocation succeeds.
pub mod Cells
pub mod Flood
pub mod Fill
pub mod Ways
pub mod Closed
pub mod Fence
pub mod Player
pub mod Tally
pub mod Exit
pub mod Found
pub mod Valid
pub mod Accepted
pub mod Solvable
use model_lib.Common.{
  ℕ, zero, suc, ◌+◌, ◌-◌, ltb, leb, ◌==◌, ◌&&◌, ◌||◌, not, if◌then◌else◌, Bool, true, false, List,
  [], ◌∷◌, Option, none, some, ◌>>=◌, length, get_elem?, set,
}
use model_lib.Libft.Strings.{Text, char_at, ft_strlen}
use model_lib.Libft.Find.{ft_strchr}
use model_lib.Libft.Trim.{ft_strtrim}

pub record Line : Type 0 where
  pub row : Text
  pub len : ℕ

pub record MapChars : Type 0 where
  pub collectible : ℕ
  pub exit : ℕ
  pub exit_x : ℕ
  pub exit_y : ℕ
  pub player : ℕ
  pub player_x : ℕ
  pub player_y : ℕ
  pub movements : ℕ

abbrev pub Grid : Type 0
Grid = List Text

unfoldable pub list_len : List Line → ℕ
list_len [] = 0
list_len (temp ∷ next) = list_len next + 1

-- The first loop of `map_is_rectangular`.
pub trim_lines : List Line → List Line
unfolding ft_strtrim ft_strlen
trim_lines [] = []
trim_lines (temp ∷ next) =
    let trimmed = ft_strtrim temp.row (b'\n' ∷ []) in
    record { row = trimmed; len = ft_strlen trimmed } ∷ trim_lines next

-- The second loop, where `none` is -1.
pub same_lengths : (prior : Option ℕ) → List Line → Bool
same_lengths prior [] = true
same_lengths none (temp ∷ next) = same_lengths (some (ft_strlen temp.row)) next
same_lengths (some prior) (temp ∷ next) =
    let rest = same_lengths (some (ft_strlen temp.row)) next in
    if not (prior == ft_strlen temp.row) then false else rest

unfoldable pub map_is_rectangular : List Line → Bool × List Line
unfolding trim_lines same_lengths
map_is_rectangular map = let trimmed = trim_lines map in (same_lengths none trimmed, trimmed)

-- The loop over the first line, and that over the last.
pub all_walls : Text → Bool
all_walls [] = true
all_walls (c ∷ row) = let rest = all_walls row in if not (c == b'1') then false else rest

-- The loop over the lines that have a next one, and the loop over the last.
pub sides_loop : Line → List Line → Bool
unfolding all_walls
sides_loop temp [] = all_walls temp.row
sides_loop temp (next ∷ lines) =
    let rest = sides_loop next lines in
    if not (char_at temp.row 0 == b'1') || not (char_at temp.row (temp.len - 1) == b'1')
    then false
    else rest

-- `none` is a read through NULL.
pub map_is_closed : List Line → Option Bool
unfolding sides_loop
map_is_closed [] = none
map_is_closed (temp ∷ next) = some (if all_walls temp.row then sides_loop temp next else false)

-- A turn of the loop for the byte at the offset `i`; `none` is a byte that is not allowed.
pub count_char : MapChars → (c y i : ℕ) → Option MapChars
count_char mapchars c y i =
    if c == b'C'
    then some (record mapchars { collectible = mapchars.collectible + 1 })
    else if c == b'E'
    then some (record mapchars { exit_y = y; exit_x = i; exit = mapchars.exit + 1 })
    else if c == b'P'
    then some (record mapchars { player = mapchars.player + 1; player_x = i; player_y = y })
    else if not (c == b'1') && not (c == b'0')
    then none
    else some mapchars

pub contains_not_correct : MapChars → (str : Text) → (y i : ℕ) → Bool × MapChars
unfolding count_char
contains_not_correct mapchars [] y i = (false, mapchars)
contains_not_correct mapchars (c ∷ str) y i = elim (count_char mapchars c y i) [
  | none ↦ (true, mapchars)
  | some mapchars' ↦ contains_not_correct mapchars' str y (i + 1)
]

-- The loop of `map_is_valid`, at the line `y`.
pub lines_loop : MapChars → List Line → (y : ℕ) → Bool × MapChars
unfolding contains_not_correct
lines_loop mapchars [] y = (true, mapchars)
lines_loop mapchars (temp ∷ next) y =
    let (wrong, mapchars') = contains_not_correct mapchars temp.row y 0 in
    elim wrong [ true ↦ (false, mapchars') | false ↦ lines_loop mapchars' next (y + 1) ]

unfoldable pub map_is_valid : List Line → MapChars → Option (Bool × MapChars)
unfolding map_is_closed lines_loop
map_is_valid map mapchars = do
  closed ← map_is_closed map
  let cleared : MapChars = record mapchars { collectible = 0; exit = 0; player = 0 } in
      let (allowed, counted) = lines_loop cleared map 0 in
      some (
        if not closed then (false, mapchars) else (
          allowed
              && not (
                  ltb counted.collectible 1
                  || not (counted.exit == 1)
                  || not (counted.player == 1)),
          counted,
        ))

-- The copies of at most `map_len` lines.
unfoldable pub fill_array : List Line → (map_len : ℕ) → Grid
fill_array map zero = []
fill_array [] (suc map_len) = []
fill_array (temp ∷ next) (suc map_len) = temp.row ∷ fill_array next map_len

-- `map[y][x]`, where the row behind the last is NULL and is read as NUL, as the end of a row is;
-- `none` is a read behind these.
pub read_cell : Grid → (y x : ℕ) → Option ℕ
read_cell map y x = elim (get_elem? map y) [
  | none ↦ if y == length map then some 0 else none
  | some row ↦ if leb x (length row) then some (char_at row x) else none
]

-- `map[y][x] = c` in a row, in front of its NUL; `none` is a write anywhere else.
unfoldable pub write_cell : Grid → (y x : ℕ) → (c : ℕ) → Option Grid
write_cell map y x c = elim (get_elem? map y) [
  | none ↦ none
  | some row ↦ if ltb x (length row) then some (set map y (set row x c)) else none
]

-- Whether `flood_fill` goes on behind its first test.
abbrev pub passes : ℕ → Bool
passes c = not (c == 0 || c == b'1' || c == b'X')

-- The fuel bounds the depth; `none` is out of fuel, or a read or a write outside of the array, as
-- every read at a coordinate below 0 is.
pub flood_fill : (fuel x y : ℕ) → Grid → Option Grid
unfolding read_cell write_cell
flood_fill zero x y map = none
flood_fill (suc fuel) x y map = do
  c ← read_cell map y x
  elim (passes c) [
    | false ↦ some map
    | true ↦ do
      marked ← write_cell map y x b'X'
      east ← flood_fill fuel (x + 1) y marked
      west ← elim x [ zero ↦ none | suc x' ↦ flood_fill fuel x' y east ]
      south ← flood_fill fuel x (y + 1) west
      elim y [ zero ↦ none | suc y' ↦ flood_fill fuel x y' south ]
  ]

-- The loop that looks for what is left.
pub all_taken : Grid → Bool
unfolding ft_strchr
all_taken [] = true
all_taken (row ∷ map_array) =
    let rest = all_taken map_array in
    elim (ft_strchr row b'E') [
      | some i ↦ false
      | none ↦ elim (ft_strchr row b'C') [ some i ↦ false | none ↦ rest ]
    ]

pub data Checked : Type 0 where
  accepted : (map_len : ℕ) → Checked
  not_solvable : Checked
  invalid : Checked

-- One more than the cells: each call that goes on takes one.
abbrev pub cells : Grid → ℕ
cells [] = 0
cells (row ∷ map) = length row + cells map

-- The part of `check_map` behind the test of the lines.
pub check_ways : List Line → MapChars → (map_len : ℕ) → Option Checked
unfolding fill_array flood_fill all_taken
check_ways map chars map_len =
    let map_array = fill_array map map_len in
    do
      filled ← flood_fill (cells map_array + 1) chars.player_x chars.player_y map_array
      some (if all_taken filled then accepted map_len else not_solvable)

-- The part behind `map_is_rectangular`.
pub check_lines : List Line → MapChars → (map_len : ℕ) → Option (Checked × MapChars × List Line)
unfolding map_is_valid check_ways
check_lines map chars map_len = do
  (valid, counted) ← map_is_valid map chars
  elim valid [
    | false ↦ some (invalid, counted, map)
    | true ↦ do checked ← check_ways map counted map_len; some (checked, counted, map)
  ]

-- What the program ends with or returns, with the counted characters and the trimmed lines.
unfoldable pub check_map : List Line → MapChars → Option (Checked × MapChars × List Line)
unfolding list_len map_is_rectangular check_lines
check_map map chars =
    let map_len = list_len map in
    let (same, trimmed) = map_is_rectangular map in
    if not (ltb 2 map_len)
    then some (invalid, chars, map)
    else if not same
    then some (invalid, chars, trimmed)
    else check_lines trimmed chars map_len
