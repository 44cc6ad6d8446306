-- ===== src/SoLong/Map/Flood.antt =====
-- flood_fill marks the places that a way of open places leads to, and no other.
use model_lib.Common.{
  ℕ, ◌≤◌, ◌<◌, ◌≢◌, ◌≡◌, refl, ap, sym, subst, ◌∙◌, ◌==◌, Bool-cases, true, false, length, arith,
  All, ◌⊎◌, inl, inr,
}
use mathlib.Core.Bool.{false≢true}
use model_lib.SoLong.Map.{Grid, passes}
use model_lib.SoLong.Map.Cells.{
  Place, Direction, beside, look, open_at, Way, here, step, opens, write, look-write_self,
  look-write_ne, write-wide, length-write, opens-write,
}

-- A way ends at an open place.
pub Way-open : (g : Grid) (p q : Place) → Way g p q → open_at g q ≡ true
Way-open g p q (here h) = h
Way-open g p q (step h d way) = Way-open g (beside d p) q way

-- A call at `p` that leaves `g'`.
pub record Fills (g : Grid) (p : Place) (g' : Grid) : Type 0 where
  pub size : length g' ≡ length g
  pub wide : (w : ℕ) → All (λ row. length row ≡ w) g → All (λ row. length row ≡ w) g'
  pub fewer : opens g' ≤ opens g
  pub kept : (q : Place) → (look g' q ≡ look g q) ⊎ ((look g' q ≡ b'X') × Way g p q)
  pub done : open_at g' p ≡ false
  pub closed :
      (q : Place)
      → open_at g q ≡ true
      → open_at g' q ≡ false
      → (d : Direction) → open_at g' (beside d q) ≡ false

-- Between the calls that one at the open place `p` makes.
pub record Filling (g : Grid) (p : Place) (h : Grid) : Type 0 where
  pub size : length h ≡ length g
  pub wide : (w : ℕ) → All (λ row. length row ≡ w) g → All (λ row. length row ≡ w) h
  pub fewer : opens h < opens g
  pub kept : (q : Place) → (look h q ≡ look g q) ⊎ ((look h q ≡ b'X') × Way g p q)
  pub taken : open_at h p ≡ false
  pub closed :
      (q : Place)
      → open_at g q ≡ true
      → open_at h q ≡ false
      → (q ≡ p) ⊎ ((d : Direction) → open_at h (beside d q) ≡ false)

-- What is not kept is closed by the mark.
kept-open :
    (g h : Grid) (q : Place) {W : Type 0}
    → (look h q ≡ look g q) ⊎ ((look h q ≡ b'X') × W)
    → open_at h q ≡ true
    → open_at g q ≡ true
kept-open g h q (inl e) o = sym (ap passes e) ∙ o
kept-open g h q (inr (e, way)) o = absurd (false≢true (sym (ap passes e) ∙ o))

pub kept-closed :
    (g h : Grid) (q : Place) {W : Type 0}
    → (look h q ≡ look g q) ⊎ ((look h q ≡ b'X') × W)
    → open_at g q ≡ false
    → open_at h q ≡ false
kept-closed g h q (inl e) o = ap passes e ∙ o
kept-closed g h q (inr (e, way)) o = ap passes e

Way-kept :
    (g h : Grid) {W : Place → Type 0}
    → ((q : Place) → (look h q ≡ look g q) ⊎ ((look h q ≡ b'X') × W q))
    → (p q : Place) → Way h p q
    → Way g p q
Way-kept g h kept p q (here o) = here (kept-open g h p (kept p) o)
Way-kept g h kept p q (step o d way) =
    step (kept-open g h p (kept p) o) d (Way-kept g h kept (beside d p) q way)

pub Place-cases : (p q : Place) → (q ≡ p) ⊎ (p ≢ q)
Place-cases (x, y) (z, v) = elim (Bool-cases (x == z)) [
  | inl s ↦ elim (Bool-cases (y == v)) [
    | inl t ↦
        let across : z ≡ x = ground (arith, s) in
        let down : v ≡ y = ground (arith, t) in inl (λ i. (across i, down i))
    | inr t ↦ inr (λ e. let down : y ≡ v = ap (λ p. p.1) e in ground (arith, t, down))
  ]
  | inr s ↦ inr (λ e. let across : x ≡ z = ap (λ p. p.0) e in ground (arith, s, across))
]

pub Filling-write : (g : Grid) (p : Place) → open_at g p ≡ true → Filling g p (write g p b'X')
Filling-write g p o = record {
  size = length-write g p b'X';
  wide = λ w. write-wide w g p b'X';
  fewer = omega (arith, opens-write g p o);
  kept = λ q. elim (Place-cases p q) [
    | inl e ↦ inr (
      ap (look (write g p b'X')) e ∙ look-write_self g p b'X' o,
      subst (Way g p) (sym e) (here o),
    )
    | inr n ↦ inl (look-write_ne g p q b'X' n)
  ];
  taken = ap passes (look-write_self g p b'X' o);
  closed = λ q o' c. elim (Place-cases p q) [
    | inl e ↦ inl e
    | inr n ↦ absurd (false≢true (sym c ∙ ap passes (look-write_ne g p q b'X' n) ∙ o'))
  ];
}

-- A call beside `p`.
pub Filling-turn :
    (g h h' : Grid) (p : Place) (d : Direction)
    → open_at g p ≡ true
    → Filling g p h
    → Fills h (beside d p) h'
    → Filling g p h'
Filling-turn g h h' p d o a b = record {
  size = b.size ∙ a.size;
  wide = λ w wide. b.wide w (a.wide w wide);
  fewer = omega (arith, a.fewer, b.fewer);
  kept = λ q. elim (b.kept q) [
    | inl e ↦ elim (a.kept q) [ inl e' ↦ inl (e ∙ e') | inr (e', way) ↦ inr (e ∙ e', way) ]
    | inr (e, way) ↦ inr (e, step o d (Way-kept g h a.kept (beside d p) q way))
  ];
  taken = kept-closed h h' p (b.kept p) a.taken;
  closed = λ q o' c. elim (Bool-cases (open_at h q)) [
    | inl t ↦ inr (b.closed q t c)
    | inr t ↦ elim (a.closed q o' t) [
      | inl e ↦ inl e
      | inr shut ↦ inr (λ d'. kept-closed h h' (beside d' q) (b.kept (beside d' q)) (shut d'))
    ]
  ];
}

pub Fills-Filling :
    (g h : Grid) (p : Place)
    → Filling g p h
    → ((d : Direction) → open_at h (beside d p) ≡ false)
    → Fills g p h
Fills-Filling g h p a shut = record {
  size = a.size;
  wide = a.wide;
  fewer = omega (arith, a.fewer);
  kept = a.kept;
  done = a.taken;
  closed = λ q o c. elim (a.closed q o c) [
    | inl e ↦ λ d. ap (λ p. open_at h (beside d p)) e ∙ shut d
    | inr shut' ↦ shut'
  ];
}

-- A call at a closed place changes nothing.
pub Fills-refl : (g : Grid) (p : Place) → open_at g p ≡ false → Fills g p g
Fills-refl g p c = record {
  size = refl;
  wide = λ w wide. wide;
  fewer = omega arith;
  kept = λ q. inl refl;
  done = c;
  closed = λ q o c'. absurd (false≢true (sym c' ∙ o));
}
