-- ===== src/SoLong/Map/Cells.antt =====
-- The cells of a grid by their positions, and the cells that flood_fill may enter.
use model_lib.Common.{
  ltb, ℕ, zero, suc, ◌+◌, ◌≤◌, ◌<◌, ◌≢◌, ◌≡◌, refl, ap, sym, subst, ◌∙◌, leb, ◌==◌, if◌then◌else◌,
  Bool, Bool-cases, true, false, [], ◌∷◌, Option, none, some, length, get_elem?, set, length-set,
  arith, All, inl, inr,
}
use mathlib.Core.Option.{some-injective, none-ne-some}
use model_lib.Libft.Strings.{Text, char_at}
use model_lib.SoLong.Map.{Grid, read_cell, write_cell, passes, cells}

-- A column and a row.
abbrev pub Place : Type 0
Place = ℕ × ℕ

pub data Direction : Type 0 where
  east : Direction
  west : Direction
  south : Direction
  north : Direction

abbrev pub before : ℕ → ℕ
before zero = zero
before (suc n) = n

abbrev pub beside : Direction → Place → Place
beside Direction.east (x, y) = (suc x, y)
beside Direction.west (x, y) = (before x, y)
beside Direction.south (x, y) = (x, suc y)
beside Direction.north (x, y) = (x, before y)

-- The byte at a place, which is NUL outside.
abbrev pub look : Grid → Place → ℕ
look [] (x, y) = 0
look (row ∷ g) (x, zero) = char_at row x
look (row ∷ g) (x, suc y) = look g (x, y)

abbrev pub open_at : Grid → Place → Bool
open_at g p = passes (look g p)

-- Places that are open, each beside the one before.
pub data Way (g : Grid) : Place → Place → Type 0 where
  here : {p : Place} → open_at g p ≡ true → Way g p p
  step : {p q : Place} → open_at g p ≡ true → (d : Direction) → Way g (beside d p) q → Way g p q

-- The rows have the width `w`, and the first row and the first column are closed.
pub record IsWalled (w : ℕ) (g : Grid) : Type 0 where
  pub wide : All (λ row. length row ≡ w) g
  pub top : (x : ℕ) → open_at g (x, 0) ≡ false
  pub left : (y : ℕ) → open_at g (0, y) ≡ false

-- How many cells are open.
abbrev pub opens_row : Text → ℕ
opens_row [] = 0
opens_row (c ∷ row) = if passes c then suc (opens_row row) else opens_row row

abbrev pub opens : Grid → ℕ
opens [] = 0
opens (row ∷ g) = opens_row row + opens g

-- Writing one cell.
abbrev pub write : Grid → Place → ℕ → Grid
write [] p c = []
write (row ∷ g) (x, zero) c = set row x c ∷ g
write (row ∷ g) (x, suc y) c = row ∷ write g (x, y) c

below_row :
    (row : Text) (g : Grid) (x y c : ℕ) (o : Option Text) {l : Grid}
    → elim o [
      | none ↦ none
      | some r ↦ if ltb x (length r) then some (set g y (set r x c)) else none
    ]
      ≡ some l
    → elim o [
      | none ↦ none
      | some r ↦ if ltb x (length r) then some (row ∷ set g y (set r x c)) else none
    ]
      ≡ some (row ∷ l)
below_row row g x y c none e = cc
below_row row g x y c (some r) e = elim (Bool-cases (ltb x (length r))) [
  | inl t ↦ rw t (ap some (ap (◌∷◌ row) (some-injective _ _ (rw t at e))))
  | inr t ↦ absurd (none-ne-some _ (rw t at e))
]

-- A read at most at the end of a row or of the array is allowed.
pub read_cell-look :
    (w : ℕ) (g : Grid) (x y : ℕ)
    → All (λ row. length row ≡ w) g
    → x ≤ w
    → y ≤ length g
    → read_cell g y x ≡ some (look g (x, y))
unfolding read_cell
read_cell-look w [] x y wide in_row in_map =
    let t : (y == 0) ≡ true = ground (arith, in_map) in rw t
read_cell-look w (row ∷ g) x zero wide in_row in_map =
    let t : leb x (length row) ≡ true = ground (arith, wide.0, in_row) in rw t
read_cell-look w (row ∷ g) x (suc y) wide in_row in_map =
    let same : (suc y == suc (length g)) ≡ (y == length g) = ground arith in
    subst
      (λ b.
        elim (get_elem? g y) [
          | none ↦ if b then some 0 else none
          | some r ↦ if leb x (length r) then some (char_at r x) else none
        ]
        ≡ some (look g (x, y)))
      (sym same) (read_cell-look w g x y wide.1 in_row (omega (arith, in_map)))

pub char_at-passes : (row : Text) (x : ℕ) → passes (char_at row x) ≡ true → x < length row
char_at-passes [] x h = cc
char_at-passes (c ∷ row) zero h = omega arith
char_at-passes (c ∷ row) (suc x) h = omega (arith, char_at-passes row x h)

char_at-set_self : (row : Text) (x c : ℕ) → x < length row → char_at (set row x c) x ≡ c
char_at-set_self [] x c h = absurd (omega (arith, h))
char_at-set_self (d ∷ row) zero c h = refl
char_at-set_self (d ∷ row) (suc x) c h = char_at-set_self row x c (omega (arith, h))

char_at-set_ne : (row : Text) (x z c : ℕ) → x ≢ z → char_at (set row x c) z ≡ char_at row z
char_at-set_ne [] x z c h = refl
char_at-set_ne (d ∷ row) zero zero c h = absurd (h refl)
char_at-set_ne (d ∷ row) zero (suc z) c h = refl
char_at-set_ne (d ∷ row) (suc x) zero c h = refl
char_at-set_ne (d ∷ row) (suc x) (suc z) c h = char_at-set_ne row x z c (λ e. h (ap suc e))

-- An open cell can be written.
pub write_cell-write :
    (g : Grid) (x y c : ℕ) → open_at g (x, y) ≡ true → write_cell g y x c ≡ some (write g (x, y) c)
unfolding write_cell
write_cell-write [] x y c o = cc
write_cell-write (row ∷ g) x zero c o =
    let t : ltb x (length row) ≡ true = ground (arith, char_at-passes row x o) in rw t
write_cell-write (row ∷ g) x (suc y) c o =
    below_row row g x y c (get_elem? g y) (write_cell-write g x y c o)

-- An open place is inside the grid.
pub open_at-inside :
    (w : ℕ) (g : Grid) (p : Place)
    → All (λ row. length row ≡ w) g
    → open_at g p ≡ true
    → (p.0 < w) × (p.1 < length g)
open_at-inside w [] p wide h = cc
open_at-inside w (row ∷ g) (x, zero) wide h =
    let inside = char_at-passes row x h in (omega (arith, inside, wide.0), omega arith)
open_at-inside w (row ∷ g) (x, suc y) wide h =
    let inside = open_at-inside w g (x, y) wide.1 h in (inside.0, omega (arith, inside.1))

-- The cell that is written has the byte, and the others keep theirs.
pub look-write_self : (g : Grid) (p : Place) (c : ℕ) → open_at g p ≡ true → look (write g p c) p ≡ c
look-write_self [] p c h = cc
look-write_self (row ∷ g) (x, zero) c h = char_at-set_self row x c (char_at-passes row x h)
look-write_self (row ∷ g) (x, suc y) c h = look-write_self g (x, y) c h

pub look-write_ne : (g : Grid) (p q : Place) (c : ℕ) → p ≢ q → look (write g p c) q ≡ look g q
look-write_ne [] p q c h = refl
look-write_ne (row ∷ g) (x, zero) (z, zero) c h = char_at-set_ne row x z c (λ e. h (λ i. (e i, 0)))
look-write_ne (row ∷ g) (x, zero) (z, suc v) c h = refl
look-write_ne (row ∷ g) (x, suc y) (z, zero) c h = refl
look-write_ne (row ∷ g) (x, suc y) (z, suc v) c h =
    look-write_ne g (x, y) (z, v) c (λ e. h (λ i. ((e i).0, suc (e i).1)))

-- The shape stays, and one open cell less is left.
pub write-wide :
    (w : ℕ) (g : Grid) (p : Place) (c : ℕ)
    → All (λ row. length row ≡ w) g
    → All (λ row. length row ≡ w) (write g p c)
write-wide w [] p c h = tt
write-wide w (row ∷ g) (x, zero) c h = (length-set row x c ∙ h.0, h.1)
write-wide w (row ∷ g) (x, suc y) c h = (h.0, write-wide w g (x, y) c h.1)

pub length-write : (g : Grid) (p : Place) (c : ℕ) → length (write g p c) ≡ length g
length-write [] p c = refl
length-write (row ∷ g) (x, zero) c = refl
length-write (row ∷ g) (x, suc y) c = ap suc (length-write g (x, y) c)

opens_row-set :
    (row : Text) (x : ℕ)
    → passes (char_at row x) ≡ true
    → suc (opens_row (set row x b'X')) ≡ opens_row row
opens_row-set [] x h = cc
opens_row-set (c ∷ row) zero h = rw h
opens_row-set (c ∷ row) (suc x) h = elim (Bool-cases (passes c)) [
  | inl t ↦ rw t (ap suc (opens_row-set row x h))
  | inr t ↦ rw t (opens_row-set row x h)
]

pub opens-write :
    (g : Grid) (p : Place) → open_at g p ≡ true → suc (opens (write g p b'X')) ≡ opens g
opens-write [] p h = cc
opens-write (row ∷ g) (x, zero) h = omega (arith, opens_row-set row x h)
opens-write (row ∷ g) (x, suc y) h = omega (arith, opens-write g (x, y) h)

opens_row-le : (row : Text) → opens_row row ≤ length row
opens_row-le [] = omega arith
opens_row-le (c ∷ row) = elim (Bool-cases (passes c)) [
  | inl t ↦ rw t (omega (arith, opens_row-le row))
  | inr t ↦ rw t (omega (arith, opens_row-le row))
]

pub opens-le : (g : Grid) → opens g ≤ cells g
opens-le [] = omega arith
opens-le (row ∷ g) = omega (arith, opens_row-le row, opens-le g)
