-- ===== src/SoLong/Map/Ways.antt =====
-- What flood_fill leaves tells whether every exit and every collectible can be reached.
use model_lib.Common.{
  ℕ, zero, suc, ◌+◌, ◌%◌, ◌≤◌, ◌≢◌, ◌≡◌, refl, ap, sym, subst, ◌∙◌, true, false, [], ◌∷◌, none,
  some, length, arith, ◌⊎◌, inl, inr,
}
use mathlib.Core.Bool.{false≢true}
use model_lib.Libft.Strings.{Text, char_at}
use model_lib.Libft.Find.{ft_strchr}
use model_lib.Libft.Find.Place.{ft_strchr-IsFirst}
use model_lib.SoLong.Map.{Grid, passes, cells, flood_fill, all_taken}
use model_lib.SoLong.Map.Cells.{
  Place, char_at-passes, look, open_at, Way, here, step, IsWalled, opens-le,
}
use model_lib.SoLong.Map.Flood.{Fills, Way-open}
use model_lib.SoLong.Map.Fill.{flood_fill-Fills}

-- Nothing open is left on a way that begins where the call was.
Way-closed :
    (g g' : Grid) (p : Place)
    → Fills g p g'
    → (q r : Place) → open_at g' q ≡ false
    → Way g q r
    → open_at g' r ≡ false
Way-closed g g' p a q r c (here o) = c
Way-closed g g' p a q r c (step o d way) = Way-closed g g' p a (_) r (a.closed q o c d) way

-- What the grid holds behind the call.
abbrev pub Marks : Grid → Place → Grid → Type 0
Marks g p g' =
    (q : Place) → (Way g p q × (look g' q ≡ b'X')) ⊎ ((Way g p q → ⊥) × (look g' q ≡ look g q))

Fills-Marks : (g g' : Grid) (p : Place) → Fills g p g' → Marks g p g'
Fills-Marks g g' p a q = elim (a.kept q) [
  | inr (e, way) ↦ inl (way, e)
  | inl e ↦ inr (
    λ way.
        false≢true
          (sym (sym (ap passes e) ∙ Way-closed g g' p a p q a.done way) ∙ Way-open g p q way),
    e,
  )
]

-- On a grid with rows of one width whose first row and first column are walls, from a start on it or
-- just behind its last row or the last byte of a row, flood_fill ends with the fuel of check_map,
-- never reads or writes outside of the array, and marks exactly the places that a way of open places
-- from its start leads to.
pub flood_fill-Marks :
    (w : ℕ) (g : Grid) (x y : ℕ)
    → IsWalled w g
    → x ≤ w
    → y ≤ length g
    → (g' : Grid) × (flood_fill (cells g + 1) x y g ≡ some g') × Marks g (x, y) g'
flood_fill-Marks w g x y walled in_row in_map =
    let (g', e, a) =
      flood_fill-Fills (cells g + 1) w g x y walled in_row in_map (omega (arith, opens-le g)) in
    (g', e, Fills-Marks g g' (x, y) a)

-- An exit or a collectible.
abbrev pub IsGoal : ℕ → Type 0
IsGoal c = (c ≡ b'E') ⊎ (c ≡ b'C')

-- A byte that a way may lead to is in the row, or it is nowhere in it.
search_row :
    (row : Text) (c : ℕ)
    → passes (c % 256) ≡ true
    → ((j : ℕ) × (ft_strchr row c ≡ some j) × (char_at row j ≡ c % 256))
      ⊎ ((ft_strchr row c ≡ none) × ((x : ℕ) → char_at row x ≢ c % 256))
search_row row c h = elim (ft_strchr-IsFirst row c) [
  | inl (j, e, below, at, first) ↦
      inl (0 + j, e, subst (λ k. char_at row k ≡ c % 256) (omega arith) at)
  | inr (e, lacks) ↦
      inr (e, λ x at. lacks x (omega (arith, char_at-passes row x (ap passes at ∙ h))) at)
]

all_taken_lem :
    (g : Grid)
    → ((all_taken g ≡ true) × ((q : Place) → IsGoal (look g q) → ⊥))
      ⊎ ((all_taken g ≡ false) × (q : Place) × IsGoal (look g q))
unfolding all_taken
all_taken_lem [] = inl (refl, λ q. elim [ inl e ↦ ground (arith, e) | inr e ↦ ground (arith, e) ])
all_taken_lem (row ∷ g) = elim (search_row row b'E' refl) [
  | inl (j, e, at) ↦ inr (rw (e, all_taken), (j, 0), inl at)
  | inr (e, lacks) ↦ elim (search_row row b'C' refl) [
    | inl (j, e', at) ↦ inr (rw (e, e', all_taken), (j, 0), inr at)
    | inr (e', lacks') ↦ elim (all_taken_lem g) [
      | inl (t, none_below) ↦ inl (rw (e, e', t, all_taken), no_goal row g lacks lacks' none_below)
      | inr (t, q, goal) ↦ inr (rw (e, e', t, all_taken), (q.0, suc q.1), goal)
    ]
  ]
]
  where
    no_goal :
        (row : Text) (g : Grid)
        → ((x : ℕ) → char_at row x ≢ b'E')
        → ((x : ℕ) → char_at row x ≢ b'C')
        → ((q : Place) → IsGoal (look g q) → ⊥)
        → (q : Place) → IsGoal (look (row ∷ g) q)
        → ⊥
    no_goal row g lacks lacks' none_below (x, zero) (inl e) = lacks x e
    no_goal row g lacks lacks' none_below (x, zero) (inr e) = lacks' x e
    no_goal row g lacks lacks' none_below (x, suc y) goal = none_below (x, y) goal

-- What is left in a marked grid.
abbrev pub IsSolvable : Grid → Place → Type 0
IsSolvable g p = (q : Place) → IsGoal (look g q) → Way g p q

abbrev pub HasLost : Grid → Place → Type 0
HasLost g p = (q : Place) × IsGoal (look g q) × (Way g p q → ⊥)

goal-ne-mark : (c : ℕ) → c ≡ b'X' → IsGoal c → ⊥
goal-ne-mark c e (inl h) = ground (arith, e, h)
goal-ne-mark c e (inr h) = ground (arith, e, h)

pub all_taken-IsSolvable :
    (g g' : Grid) (p : Place)
    → Marks g p g'
    → ((all_taken g' ≡ true) × IsSolvable g p) ⊎ ((all_taken g' ≡ false) × HasLost g p)
all_taken-IsSolvable g g' p marks = elim (all_taken_lem g') [
  | inl (t, taken) ↦ inl (
    t,
    λ q goal. elim (marks q) [
      | inl (way, e) ↦ way
      | inr (lacks, e) ↦ absurd (taken q (subst IsGoal (sym e) goal))
    ],
  )
  | inr (t, q, goal) ↦ elim (marks q) [
    | inl (way, e) ↦ absurd (goal-ne-mark (look g' q) e goal)
    | inr (lacks, e) ↦ inr (t, (q, subst IsGoal e goal, lacks))
  ]
]
