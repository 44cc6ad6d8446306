-- ===== src/SoLong/Moves.antt =====
-- 42_so_long/src: movements.c, render_exit of utils.c and event_handler of game.c. Of `t_vars` the
-- map, the characters and `end`, and the numbers of moves that are written; drawing is left out.
pub mod Count
pub mod Enter
pub mod Playing
pub mod Steps
pub mod Keys
pub mod Begin
use model_lib.Common.{
  ℕ, zero, suc, ◌+◌, ◌-◌, ltb, leb, ◌==◌, ◌&&◌, ◌||◌, not, if◌then◌else◌, Bool, true, false, List,
  [], ◌∷◌, Option, none, some, ◌>>=◌, length, get_elem?,
}
use model_lib.Libft.Strings.{Text, char_at}
use model_lib.SoLong.Map.{Line, fill_array, Grid, MapChars, write_cell}

pub record Vars : Type 0 where
  pub map : Grid
  pub ended : Bool
  pub mapchars : MapChars
  pub printed : List ℕ

-- The game that `main` starts behind `prior_check`, where the array is copied once more.
unfoldable pub start_game : List Line → MapChars → (map_len : ℕ) → Vars
start_game map mapchars map_len = record {
  map = fill_array map map_len;
  ended = false;
  mapchars = record mapchars { movements = 0 };
  printed = [];
}

-- `map[y][x]`, at most at the NUL of a row; `none` is a read behind it or through NULL.
pub char_of : Grid → (y x : ℕ) → Option ℕ
char_of map y x = elim (get_elem? map y) [
  | none ↦ none
  | some row ↦ if leb x (length row) then some (char_at row x) else none
]

-- The player can move: the cell is written.
pub enter_cell : Vars → (new_x new_y : ℕ) → Option (Bool × Vars)
unfolding write_cell
enter_cell vars new_x new_y = do
  written ← write_cell vars.map new_y new_x b'P'
  some (true, record vars { map = written })

-- The tests of `can_move` for the byte at the cell; `none` is also a count of collectibles below 0.
pub try_cell : Vars → (c new_x new_y : ℕ) → Option (Bool × Vars)
unfolding enter_cell
try_cell vars c new_x new_y =
    if c == b'C'
    then elim vars.mapchars.collectible [
      | zero ↦ none
      | suc left ↦
          enter_cell (record vars { mapchars = record vars.mapchars { collectible = left } }) new_x
            new_y
    ]
    else if c == b'E'
    then enter_cell (record vars { ended = vars.mapchars.collectible == 0 }) new_x new_y
    else if c == b'0'
    then enter_cell vars new_x new_y
    else some (false, vars)

-- Whether the player can move there, and the variables behind the call.
pub can_move : Vars → (new_x new_y : ℕ) → Option (Bool × Vars)
unfolding char_of try_cell
can_move vars new_x new_y =
    if vars.ended
    then some (false, vars)
    else do c ← char_of vars.map new_y new_x; try_cell vars c new_x new_y

-- The part of a move behind `can_move`: the old cell, the place of the player, the count.
pub leave_cell : Vars → (x y new_x new_y : ℕ) → Option Vars
unfolding write_cell
leave_cell vars x y new_x new_y = do
  written ← write_cell vars.map y x b'0'
  let movements = vars.mapchars.movements + 1 in
      some (record vars {
        map = written;
        mapchars = record vars.mapchars {
          player_x = new_x;
          player_y = new_y;
          movements = movements;
        };
        printed = movements ∷ vars.printed;
      })

pub move_forward : Vars → Option Vars
unfolding can_move leave_cell
move_forward vars = elim vars.mapchars.player_y [
  | zero ↦ some vars
  | suc new_y ↦ do
    (moves, v) ← can_move vars vars.mapchars.player_x new_y
    elim moves [
      | false ↦ some v
      | true ↦ leave_cell v v.mapchars.player_x (new_y + 1) v.mapchars.player_x new_y
    ]
]

pub move_backward : Vars → Option Vars
unfolding can_move leave_cell
move_backward vars =
    let new_y = vars.mapchars.player_y + 1 in
    do
      (moves, v) ← can_move vars vars.mapchars.player_x new_y
      elim moves [
        | false ↦ some v
        | true ↦ leave_cell v v.mapchars.player_x (new_y - 1) v.mapchars.player_x new_y
      ]

pub move_left : Vars → Option Vars
unfolding can_move leave_cell
move_left vars = elim vars.mapchars.player_x [
  | zero ↦ some vars
  | suc new_x ↦ do
    (moves, v) ← can_move vars new_x vars.mapchars.player_y
    elim moves [
      | false ↦ some v
      | true ↦ leave_cell v (new_x + 1) v.mapchars.player_y new_x v.mapchars.player_y
    ]
]

pub move_right : Vars → Option Vars
unfolding can_move leave_cell
move_right vars =
    let new_x = vars.mapchars.player_x + 1 in
    do
      (moves, v) ← can_move vars new_x vars.mapchars.player_y
      elim moves [
        | false ↦ some v
        | true ↦ leave_cell v (new_x - 1) v.mapchars.player_y new_x v.mapchars.player_y
      ]

pub render_exit : Vars → Option Vars
unfolding write_cell
render_exit args = do
  written ← write_cell args.map args.mapchars.exit_y args.mapchars.exit_x b'E'
  some (record args { map = written })

-- Whether `event_handler` calls `render_exit`.
abbrev pub off_exit : Vars → Bool
off_exit vars =
    not (vars.mapchars.player_x == vars.mapchars.exit_x)
    || not (vars.mapchars.player_y == vars.mapchars.exit_y)

-- A key ends the program, or the handler returns.
pub data Handled : Type 0 where
  exits : Handled
  returns : (result : ℕ) → Vars → Handled

-- The move of a key; `none` within is a key without one.
pub move_of : (keycode : ℕ) → Option (Vars → Option Vars)
unfolding move_forward move_left move_backward move_right
move_of keycode =
    if keycode == 119
    then some move_forward
    else if keycode == 97
    then some move_left
    else if keycode == 115
    then some move_backward
    else if keycode == 100
    then some move_right
    else none

unfoldable pub event_handler : (keycode : ℕ) → Vars → Option Handled
unfolding move_of render_exit
event_handler keycode vars = if keycode == 65307 then some exits else elim (move_of keycode) [
  | none ↦ some (returns 0 vars)
  | some move ↦ do
    v ← move vars
    drawn ← if off_exit v then render_exit v else some v
    some (returns 1 drawn)
]
