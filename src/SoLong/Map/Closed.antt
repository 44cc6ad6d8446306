-- ===== src/SoLong/Map/Closed.antt =====
-- Lines that pass map_is_rectangular and map_is_valid are a walled grid with the player inside.
use model_lib.Common.{
  ℕ, zero, suc, ◌-◌, ◌≡◌, refl, ap, sym, subst, ◌∙◌, ◌==◌, ◌||◌, not, if◌then◌else◌, Bool, true,
  false, List, [], ◌∷◌, none, some, length, arith, All,
}
use mathlib.Core.Option.{some-injective}
use native.Mathlib.Numerals.{add-one}
use model_lib.Libft.Strings.{Text, char_at, ft_strlen}
use model_lib.Libft.Strings.Substr.{ft_strlen-length}
use model_lib.SoLong.Map.{
  Line, Grid, passes, same_lengths, all_walls, sides_loop, map_is_closed, fill_array, list_len,
}
use model_lib.SoLong.Map.Cells.{open_at, IsWalled}

-- The grid of the lines, whose lengths are those that the loop before has set.
abbrev pub grid : List Line → Grid
grid [] = []
grid (l ∷ lines) = l.row ∷ grid lines

pub fill_array-grid : (lines : List Line) → fill_array lines (list_len lines) ≡ grid lines
unfolding fill_array list_len
fill_array-grid [] = refl
fill_array-grid (l ∷ lines) = rw add-one (ap (◌∷◌ l.row) (fill_array-grid lines))

pub length-grid : (lines : List Line) → length (grid lines) ≡ list_len lines
unfolding list_len
length-grid [] = refl
length-grid (l ∷ lines) = omega (arith, length-grid lines)

-- What a test that refuses leaves behind it.
pub refused : (a r : Bool) → (if a then false else r) ≡ true → (a ≡ false) × (r ≡ true)
refused true r h = cc
refused false r h = (refl, h)

same_lengths-wide :
    (w : ℕ) (lines : List Line)
    → same_lengths (some w) lines ≡ true
    → All (λ row. length row ≡ w) (grid lines)
unfolding same_lengths
same_lengths-wide w [] h = tt
same_lengths-wide w (l ∷ lines) h =
    let (t, rest) =
      refused (not (w == ft_strlen l.row)) (same_lengths (some (ft_strlen l.row)) lines) h in
    let e : ft_strlen l.row ≡ w = ground (arith, t) in
    (
      sym (ft_strlen-length l.row) ∙ e,
      same_lengths-wide w lines (subst (λ n. same_lengths (some n) lines ≡ true) e rest),
    )

pub same_lengths-width :
    (lines : List Line)
    → same_lengths none lines ≡ true
    → (w : ℕ) × All (λ row. length row ≡ w) (grid lines)
unfolding same_lengths
same_lengths-width [] h = (0, tt)
same_lengths-width (l ∷ lines) h =
    (ft_strlen l.row, (sym (ft_strlen-length l.row), same_lengths-wide (ft_strlen l.row) lines h))

all_walls-closed : (row : Text) → all_walls row ≡ true → (x : ℕ) → passes (char_at row x) ≡ false
unfolding all_walls
all_walls-closed [] h x = refl
all_walls-closed (c ∷ row) h zero =
    let (t, rest) = refused (not (c == b'1')) (all_walls row) h in ground (arith, t)
all_walls-closed (c ∷ row) h (suc x) =
    let (t, rest) = refused (not (c == b'1')) (all_walls row) h in all_walls-closed row rest x

pub passed : (a r : Bool) → (if a then r else false) ≡ true → (a ≡ true) × (r ≡ true)
passed true r h = (refl, h)
passed false r h = cc

sides_loop-left :
    (l : Line) (lines : List Line)
    → sides_loop l lines ≡ true
    → (y : ℕ) → open_at (grid (l ∷ lines)) (0, y) ≡ false
unfolding sides_loop
sides_loop-left l [] h zero = all_walls-closed l.row h 0
sides_loop-left l [] h (suc y) = refl
sides_loop-left l (next ∷ lines) h y =
    let (t, rest) =
      refused (not (char_at l.row 0 == b'1') || not (char_at l.row (l.len - 1) == b'1'))
        (sides_loop next lines) h in
    in_row l.row (grid (next ∷ lines)) (char_at l.row (l.len - 1) == b'1') t
      (sides_loop-left next lines rest) y
  where
    in_row :
        (row : Text) (g : Grid) (b : Bool)
        → (not (char_at row 0 == b'1') || not b) ≡ false
        → ((y : ℕ) → open_at g (0, y) ≡ false)
        → (y : ℕ) → open_at (row ∷ g) (0, y) ≡ false
    in_row row g b t below zero = ground (arith, t)
    in_row row g b t below (suc y) = below y

pub map_is_closed-IsWalled :
    (w : ℕ) (lines : List Line)
    → All (λ row. length row ≡ w) (grid lines)
    → map_is_closed lines ≡ some true
    → IsWalled w (grid lines)
unfolding map_is_closed
map_is_closed-IsWalled w [] wide h = cc
map_is_closed-IsWalled w (l ∷ lines) wide h =
    let (t, sides) = passed (all_walls l.row) (sides_loop l lines) (some-injective _ _ h) in
    record { wide = wide; top = all_walls-closed l.row t; left = sides_loop-left l lines sides }
