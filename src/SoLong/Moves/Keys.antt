-- ===== src/SoLong/Moves/Keys.antt =====
-- event_handler answers every key with a game that can be played on, or ends the program.
use model_lib.Common.{ℕ, ◌≢◌, ◌≡◌, ◌⊎◌}
use model_lib.SoLong.Map.Cells.{Direction}
use model_lib.SoLong.Moves.{Vars}
use model_lib.SoLong.Moves.Steps.{Goes}

-- The keys W, A, S and D.
abbrev pub key_of : Direction → ℕ
key_of Direction.north = b'w'
key_of Direction.west = b'a'
key_of Direction.south = b's'
key_of Direction.east = b'd'

-- A key of no direction changes nothing; that of a direction moves the player there, if it can.
abbrev pub Answers : (keycode : ℕ) → (v : Vars) → (result : ℕ) → (v' : Vars) → Type 0
Answers keycode v result v' =
    ((result ≡ 0) × (v' ≡ v) × ((d : Direction) → keycode ≢ key_of d))
    ⊎ ((result ≡ 1) × (d : Direction) × (keycode ≡ key_of d) × Goes d v v')
