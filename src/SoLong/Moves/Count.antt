-- ===== src/SoLong/Moves/Count.antt =====
-- Reading and writing open cells: their shape, their openness, and the collectibles that are left.
use model_lib.Common.{
  ℕ, zero, suc, ◌+◌, ◌≤◌, ◌<◌, ◌≡◌, ap, sym, ◌∙◌, leb, true, [], ◌∷◌, some, length, set, arith, All,
  inl, inr,
}
use model_lib.Libft.Strings.{Text, char_at}
use model_lib.SoLong.Map.{Grid, passes}
use model_lib.SoLong.Map.Cells.{
  Place, look, open_at, write, char_at-passes, look-write_self, look-write_ne,
}
use model_lib.SoLong.Map.Flood.{Place-cases}
use model_lib.SoLong.Map.Tally.{as_one, count_row, count}
use model_lib.SoLong.Moves.{Vars, char_of}

abbrev pub player_at : Vars → Place
player_at v = (v.mapchars.player_x, v.mapchars.player_y)

abbrev pub exit_at : Vars → Place
exit_at v = (v.mapchars.exit_x, v.mapchars.exit_y)

pub char_of-look :
    (w : ℕ) (g : Grid) (x y : ℕ)
    → All (λ row. length row ≡ w) g
    → x ≤ w
    → y < length g
    → char_of g y x ≡ some (look g (x, y))
unfolding char_of
char_of-look w [] x y wide in_row in_map = absurd (omega (arith, in_map))
char_of-look w (row ∷ g) x zero wide in_row in_map =
    let t : leb x (length row) ≡ true = ground (arith, wide.0, in_row) in rw t
char_of-look w (row ∷ g) x (suc y) wide in_row in_map =
    char_of-look w g x y wide.1 in_row (omega (arith, in_map))

-- Writing an open byte into an open cell opens and closes nothing.
pub open_at-write :
    (g : Grid) (p : Place) (c : ℕ)
    → open_at g p ≡ true
    → passes c ≡ true
    → (q : Place) → open_at (write g p c) q ≡ open_at g q
open_at-write g p c o passing q = elim (Place-cases p q) [
  | inl e ↦
      ap (open_at (write g p c)) e
      ∙ ap passes (look-write_self g p c o)
      ∙ passing
      ∙ sym o
      ∙ ap (open_at g) (sym e)
  | inr n ↦ ap passes (look-write_ne g p q c n)
]

count_row-set :
    (row : Text) (x c : ℕ)
    → x < length row
    → count_row (set row x c) + as_one (char_at row x) ≡ count_row row + as_one c
count_row-set [] x c h = absurd (omega (arith, h))
count_row-set (d ∷ row) zero c h = omega arith
count_row-set (d ∷ row) (suc x) c h = omega (arith, count_row-set row x c (omega (arith, h)))

pub count-write :
    (g : Grid) (p : Place) (c : ℕ)
    → open_at g p ≡ true
    → count (write g p c) + as_one (look g p) ≡ count g + as_one c
count-write [] p c h = cc
count-write (row ∷ g) (x, zero) c h = omega (arith, count_row-set row x c (char_at-passes row x h))
count-write (row ∷ g) (x, suc y) c h = omega (arith, count-write g (x, y) c h)
