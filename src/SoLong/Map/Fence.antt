-- ===== src/SoLong/Map/Fence.antt =====
-- Lines that pass map_is_closed have walls on all four sides.
use model_lib.Common.{
  ℕ, zero, suc, ◌-◌, ◌<◌, ◌≡◌, subst, ◌∙◌, ◌==◌, ◌||◌, not, Bool-cases, true, false, List, [], ◌∷◌,
  some, length, arith, All, inl, inr,
}
use mathlib.Core.Option.{some-injective}
use model_lib.Libft.Strings.{Text, char_at}
use model_lib.Libft.Strings.Substr.{ft_strlen-length}
use model_lib.SoLong.Map.{Line, Grid, trim_lines, all_walls, sides_loop, map_is_closed}
use model_lib.SoLong.Map.Cells.{look, IsWalled}
use model_lib.SoLong.Map.Closed.{grid, refused, passed, map_is_closed-IsWalled}

-- Rows of the width `w`, and walls on all four sides.
pub record IsFenced (w : ℕ) (g : Grid) : Type 0 where
  pub walled : IsWalled w g
  pub top : (x : ℕ) → x < w → look g (x, 0) ≡ b'1'
  pub bottom : (x : ℕ) → x < w → look g (x, length g - 1) ≡ b'1'
  pub left : (y : ℕ) → y < length g → look g (0, y) ≡ b'1'
  pub right : (y : ℕ) → y < length g → look g (w - 1, y) ≡ b'1'

-- The lengths that the loop of map_is_rectangular has set.
abbrev pub IsMeasured : Line → Type 0
IsMeasured l = l.len ≡ length l.row

pub trim_lines-IsMeasured : (lines : List Line) → All IsMeasured (trim_lines lines)
unfolding trim_lines
trim_lines-IsMeasured [] = tt
trim_lines-IsMeasured (l ∷ lines) = (ft_strlen-length _, trim_lines-IsMeasured lines)

all_walls-look :
    (row : Text) → all_walls row ≡ true → (x : ℕ) → x < length row → char_at row x ≡ b'1'
unfolding all_walls
all_walls-look [] h x b = absurd (omega (arith, b))
all_walls-look (c ∷ row) h zero b =
    let (t, rest) = refused (not (c == b'1')) (all_walls row) h in ground (arith, t)
all_walls-look (c ∷ row) h (suc x) b =
    let (t, rest) = refused (not (c == b'1')) (all_walls row) h in
    all_walls-look row rest x (omega (arith, b))

-- A line with a next one begins and ends with a wall.
ends_walled : (c d : ℕ) → (not (c == b'1') || not (d == b'1')) ≡ false → (c ≡ b'1') × (d ≡ b'1')
ends_walled c d h = elim (Bool-cases (c == b'1')) [
  | inl t ↦ (ground (arith, t), ground (arith, t, h))
  | inr t ↦ ground (arith, t, h)
]

record Sides (w : ℕ) (g : Grid) : Type 0 where
  bottom : (x : ℕ) → x < w → look g (x, length g - 1) ≡ b'1'
  left : (y : ℕ) → y < length g → look g (0, y) ≡ b'1'
  right : (y : ℕ) → y < length g → look g (w - 1, y) ≡ b'1'

sides_loop-Sides :
    (w : ℕ) (l : Line) (lines : List Line)
    → 0 < w
    → All (λ row. length row ≡ w) (grid (l ∷ lines))
    → All IsMeasured (l ∷ lines)
    → sides_loop l lines ≡ true
    → Sides w (grid (l ∷ lines))
unfolding sides_loop
sides_loop-Sides w l [] some_width wide measured h =
    let wall = all_walls-look l.row h in
    record {
      bottom = λ x b. wall x (omega (arith, b, wide.0));
      left = λ y b.
          row_only y b (λ y. look (l.row ∷ []) (0, y) ≡ b'1')
            (wall 0 (omega (arith, some_width, wide.0)));
      right = λ y b.
          row_only y b (λ y. look (l.row ∷ []) (w - 1, y) ≡ b'1')
            (wall (w - 1) (omega (arith, some_width, wide.0)));
    }
  where
    row_only : (y : ℕ) → y < 1 → (P : ℕ → Type 0) → P 0 → P y
    row_only zero b P p = p
    row_only (suc y) b P p = absurd (omega (arith, b))
sides_loop-Sides w l (next ∷ lines) some_width wide measured h =
    let (t, rest) =
      refused (not (char_at l.row 0 == b'1') || not (char_at l.row (l.len - 1) == b'1'))
        (sides_loop next lines) h in
    let (first, last) = ends_walled (char_at l.row 0) (char_at l.row (l.len - 1)) t in
    let width : l.len ≡ w = measured.0 ∙ wide.0 in
    let last_row : suc (length (grid (next ∷ lines)) - 1) ≡ length (grid (l ∷ next ∷ lines)) - 1 =
      omega arith in
    let below = sides_loop-Sides w next lines some_width wide.1 measured.1 rest in
    record {
      bottom = λ x b.
          subst (λ y. look (grid (l ∷ next ∷ lines)) (x, y) ≡ b'1') last_row (below.bottom x b);
      left = λ y b. on_top y b (λ y. look (grid (l ∷ next ∷ lines)) (0, y) ≡ b'1') first below.left;
      right = λ y b.
          on_top y b (λ y. look (grid (l ∷ next ∷ lines)) (w - 1, y) ≡ b'1')
            (subst (λ n. char_at l.row (n - 1) ≡ b'1') width last) below.right;
    }
  where
    on_top :
        {n : ℕ} (y : ℕ) → y < suc n → (P : ℕ → Type 0) → P 0 → ((y : ℕ) → y < n → P (suc y)) → P y
    on_top zero b P p q = p
    on_top (suc y) b P p q = q y (omega (arith, b))

pub map_is_closed-IsFenced :
    (w : ℕ) (lines : List Line)
    → 0 < w
    → All (λ row. length row ≡ w) (grid lines)
    → All IsMeasured lines
    → map_is_closed lines ≡ some true
    → IsFenced w (grid lines)
unfolding map_is_closed
map_is_closed-IsFenced w [] some_width wide measured h = cc
map_is_closed-IsFenced w (l ∷ lines) some_width wide measured h =
    let (t, sides) = passed (all_walls l.row) (sides_loop l lines) (some-injective _ _ h) in
    let s = sides_loop-Sides w l lines some_width wide measured sides in
    record {
      walled = map_is_closed-IsWalled w (l ∷ lines) wide h;
      top = λ x b. all_walls-look l.row t x (omega (arith, b, wide.0));
      bottom = s.bottom;
      left = s.left;
      right = s.right;
    }
