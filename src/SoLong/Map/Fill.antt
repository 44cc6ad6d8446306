-- ===== src/SoLong/Map/Fill.antt =====
-- flood_fill ends within its fuel, stays in the array, and marks what can be reached.
use model_lib.Common.{
  ℕ, zero, suc, ◌≤◌, ◌<◌, ◌≡◌, Bool-cases, true, false, some, ◌>>=◌, length, arith, inl, inr,
}
use native.Mathlib.Numerals.{add-one}
use model_lib.SoLong.Map.{Grid, flood_fill}
use model_lib.SoLong.Map.Cells.{
  Place, Direction, beside, open_at, IsWalled, opens, write, write_cell-write, read_cell-look,
  open_at-inside,
}
use model_lib.SoLong.Map.Flood.{
  Fills, Filling, Filling-write, Filling-turn, Fills-Filling, Fills-refl, kept-closed,
}

IsWalled-Filling : (w : ℕ) (g h : Grid) (p : Place) → IsWalled w g → Filling g p h → IsWalled w h
IsWalled-Filling w g h p walled a = record {
  wide = a.wide w walled.wide;
  top = λ x. kept-closed g h (x, 0) (a.kept (x, 0)) (walled.top x);
  left = λ y. kept-closed g h (0, y) (a.kept (0, y)) (walled.left y);
}

-- What a call does, for the fuel given.
abbrev Does : (fuel : ℕ) → Type 0
Does fuel =
    (w : ℕ) (g : Grid) (x y : ℕ)
    → IsWalled w g
    → x ≤ w
    → y ≤ length g
    → opens g < fuel
    → (g' : Grid) × (flood_fill fuel x y g ≡ some g') × Fills g (x, y) g'

flood_fill-closed :
    (fuel w : ℕ) (g : Grid) (x y : ℕ)
    → IsWalled w g
    → x ≤ w
    → y ≤ length g
    → open_at g (x, y) ≡ false
    → flood_fill (suc fuel) x y g ≡ some g
unfolding flood_fill
flood_fill-closed fuel w g x y walled in_row in_map c =
    rw (read_cell-look w g x y walled.wide in_row in_map, c, ◌>>=◌, flood_fill)

beside-inside :
    (w n : ℕ) (p : Place) (d : Direction)
    → p.0 < w
    → p.1 < n
    → ((beside d p).0 ≤ w) × ((beside d p).1 ≤ n)
beside-inside w n (x, y) Direction.east h k = (omega (arith, h), omega (arith, k))
beside-inside w n (x, y) Direction.south h k = (omega (arith, h), omega (arith, k))
beside-inside w n (zero, y) Direction.west h k = (omega (arith, h), omega (arith, k))
beside-inside w n (suc x, y) Direction.west h k = (omega (arith, h), omega (arith, k))
beside-inside w n (x, zero) Direction.north h k = (omega (arith, h), omega (arith, k))
beside-inside w n (x, suc y) Direction.north h k = (omega (arith, h), omega (arith, k))

-- A call beside an open place, on a grid in the course of the call there.
record Turn (fuel : ℕ) (g h : Grid) (p : Place) (d : Direction) : Type 0 where
  left : Grid
  gives : flood_fill fuel (beside d p).0 (beside d p).1 h ≡ some left
  filling : Filling g p left
  done : open_at left (beside d p) ≡ false
  shut : (q : Place) → open_at h q ≡ false → open_at left q ≡ false

turn :
    (fuel w : ℕ) (g h : Grid) (p : Place) (d : Direction)
    → Does fuel
    → IsWalled w g
    → open_at g p ≡ true
    → opens g ≤ fuel
    → Filling g p h
    → Turn fuel g h p d
turn fuel w g h p d does walled o enough a =
    let (across, down) = open_at-inside w g p walled.wide o in
    let (in_row, in_map) = beside-inside w (length h) p d across (omega (arith, down, a.size)) in
    let (h', e, b) =
      does w h (beside d p).0 (beside d p).1 (IsWalled-Filling w g h p walled a) in_row in_map
        (omega (arith, a.fewer, enough)) in
    record {
      left = h';
      gives = e;
      filling = Filling-turn g h h' p d o a b;
      done = b.done;
      shut = λ q. kept-closed h h' q (b.kept q);
    }

flood_fill-open :
    (fuel w : ℕ) (g : Grid) (x y : ℕ)
    → Does fuel
    → IsWalled w g
    → open_at g (suc x, suc y) ≡ true
    → opens g ≤ fuel
    → (g' : Grid) × (flood_fill (suc fuel) (suc x) (suc y) g ≡ some g') × Fills g (suc x, suc y) g'
unfolding flood_fill
flood_fill-open fuel w g x y does walled o enough =
    let p : Place = (suc x, suc y) in
    let marked = Filling-write g p o in
    let a = turn fuel w g (write g p b'X') p Direction.east does walled o enough marked in
    let b = turn fuel w g a.left p Direction.west does walled o enough a.filling in
    let c = turn fuel w g b.left p Direction.south does walled o enough b.filling in
    let d = turn fuel w g c.left p Direction.north does walled o enough c.filling in
    let mark = write_cell-write g (suc x) (suc y) b'X' o in
    let (across, down) = open_at-inside w g p walled.wide o in
    let read =
      read_cell-look w g (suc x) (suc y) walled.wide (omega (arith, across))
        (omega (arith, down)) in
    (
      d.left,
      rw (read, o, mark, add-one, add-one, a.gives, b.gives, c.gives, d.gives, ◌>>=◌, flood_fill),
      Fills-Filling g d.left p d.filling (elim [
        | Direction.east ↦ d.shut _ (c.shut _ (b.shut _ a.done))
        | Direction.west ↦ d.shut _ (c.shut _ b.done)
        | Direction.south ↦ d.shut _ c.done
        | Direction.north ↦ d.done
      ]),
    )

pub flood_fill-Fills : (fuel : ℕ) → Does fuel
flood_fill-Fills zero w g x y walled in_row in_map enough = absurd (omega (arith, enough))
flood_fill-Fills (suc fuel) w g zero y walled in_row in_map enough = (
  g,
  flood_fill-closed fuel w g zero y walled in_row in_map (walled.left y),
  Fills-refl g (zero, y) (walled.left y),
)
flood_fill-Fills (suc fuel) w g (suc x) zero walled in_row in_map enough = (
  g,
  flood_fill-closed fuel w g (suc x) zero walled in_row in_map (walled.top (suc x)),
  Fills-refl g (suc x, zero) (walled.top (suc x)),
)
flood_fill-Fills (suc fuel) w g (suc x) (suc y) walled in_row in_map enough =
    elim (Bool-cases (open_at g (suc x, suc y))) [
      | inl o ↦
          flood_fill-open fuel w g x y (flood_fill-Fills fuel) walled o (omega (arith, enough))
      | inr c ↦ (
        g,
        flood_fill-closed fuel w g (suc x) (suc y) walled in_row in_map c,
        Fills-refl g (suc x, suc y) c,
      )
    ]
