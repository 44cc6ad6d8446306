-- ===== src/SoLong/Moves/Steps.antt =====
-- The four moves ask for the cell beside the player, and go there if it is free.
use model_lib.Common.{
  ℕ, zero, suc, ◌+◌, ◌-◌, ◌<◌, ◌≢◌, ◌≡◌, refl, ap, sym, ◌∙◌, ◌==◌, Bool, Bool-cases, true, false,
  ◌≤◌, Option, some, ◌>>=◌, length, ◌∷◌, arith, ◌⊎◌, inl, inr,
}
use mathlib.Core.Bool.{false≢true}
use model_lib.SoLong.Map.{Grid, passes}
use model_lib.SoLong.Map.Cells.{Place, Direction, before, beside, look, open_at, open_at-inside}
use model_lib.SoLong.Moves.{
  Vars, can_move, leave_cell, move_forward, move_backward, move_left, move_right,
}
use model_lib.SoLong.Moves.Count.{player_at, exit_at}
use model_lib.SoLong.Moves.Enter.{IsFree, IsBlocked, can_move-Enters}
use model_lib.SoLong.Map.Fence.{IsFenced}
use model_lib.SoLong.Moves.Playing.{IsMoving, IsPlaying, left_cell, leave_cell-left, left-IsMoving}

-- The player stays for a reason, or goes on to the free cell beside.
abbrev pub Goes : Direction → Vars → Vars → Type 0
Goes d v u =
    let n = beside d (player_at v) in
    (exit_at u ≡ exit_at v)
    × ((IsBlocked v n
          × (player_at u ≡ player_at v)
          × (u.mapchars.movements ≡ v.mapchars.movements)
          × (u.printed ≡ v.printed))
        ⊎ ((v.ended ≡ false)
            × IsFree (look v.map n)
            × (player_at u ≡ n)
            × (u.mapchars.movements ≡ v.mapchars.movements + 1)
            × (u.printed ≡ (v.mapchars.movements + 1) ∷ v.printed)))

-- A move ends.
abbrev pub Continues : (w : ℕ) → Grid → Direction → Vars → Option Vars → Type 0
Continues w g₀ d v o = (u : Vars) × (o ≡ some u) × IsMoving w g₀ u × Goes d v u

number-cases : (n : ℕ) → (n ≡ 0) ⊎ ((k : ℕ) × (n ≡ suc k))
number-cases zero = inl refl
number-cases (suc k) = inr (k, refl)

module _ (w : ℕ) (g₀ : Grid) (v : Vars) (fence : IsFenced w g₀) (play : IsPlaying w g₀ v) where
  a : IsMoving w g₀ v
  a = play.moving

  open_here : open_at g₀ (player_at v) ≡ true
  open_here = sym (a.same (player_at v)) ∙ ap passes a.here

  inside : (v.mapchars.player_x < w) × (v.mapchars.player_y < length v.map)
  inside = open_at-inside w v.map (player_at v) a.wide (ap passes a.here)

  above_bottom : suc v.mapchars.player_y < length v.map
  above_bottom = elim (Bool-cases (v.mapchars.player_y == length g₀ - 1)) [
    | inl t ↦
        let last : v.mapchars.player_y ≡ length g₀ - 1 = ground (arith, t) in
        absurd (
          false≢true (
            sym (ap passes (fence.bottom v.mapchars.player_x inside.0))
            ∙ ap (λ y. open_at g₀ (v.mapchars.player_x, y)) (sym last)
            ∙ open_here))
    | inr t ↦
        let other : v.mapchars.player_y ≢ length g₀ - 1 = λ e. ground (arith, t, e) in
        omega (arith, inside.1, a.size, other)
  ]

  -- A move that asks for the cell beside, and leaves the one of the player.
  Continues-beside :
      (d : Direction) (o : Option Vars) (q r : Vars → Place)
      → let n = beside d (player_at v) in
        n.0 ≤ w
        → n.1 < length v.map
        → o ≡ (
            can_move v n.0 n.1 >>= λ m. elim m.0 [
              | false ↦ some m.1
              | true ↦ leave_cell m.1 (q m.1).0 (q m.1).1 (r m.1).0 (r m.1).1
            ])
        → ((v' : Vars) → player_at v' ≡ player_at v → (q v' ≡ player_at v) × (r v' ≡ n))
        → Continues w g₀ d v o
  Continues-beside d o q r in_row in_map asks places =
      let n = beside d (player_at v) in
      let ends : Option (Bool × Vars) → Option Vars = λ o. o >>= λ m. elim m.0 [
        | false ↦ some m.1
        | true ↦ leave_cell m.1 (q m.1).0 (q m.1).1 (r m.1).0 (r m.1).1
      ] in
      elim (can_move-Enters w v n.0 n.1 a.wide in_row in_map a.left) [
        | inl (blocked, e) ↦ (v, asks ∙ ap ends e, a, (refl, inl (blocked, refl, refl, refl)))
        | inr (v', e, b) ↦
            let (eq, er) = places v' b.player in
            (
              left_cell w g₀ v v' n,
              asks ∙ ap ends e ∙ leave_cell-left w g₀ v v' n play b (q v') (r v') eq er,
              left-IsMoving w g₀ v v' n play b,
              (
                b.exit,
                inr (
                  b.going,
                  b.free,
                  refl,
                  ap (λ k. k + 1) b.movements,
                  λ i. (b.movements i + 1) ∷ b.printed i,
                ),
              ),
            )
      ]

  pub move_backward-Continues : Continues w g₀ Direction.south v (move_backward v)
  unfolding move_backward
  move_backward-Continues =
      let x = v.mapchars.player_x in
      let y = v.mapchars.player_y in
      let back : y + 1 - 1 ≡ y = omega arith in
      let next : y + 1 ≡ suc y = omega arith in
      Continues-beside Direction.south (move_backward v) (λ u. (u.mapchars.player_x, y + 1 - 1))
        (λ u. (u.mapchars.player_x, y + 1)) (omega (arith, inside.0)) above_bottom
        (λ i. can_move v x (next i) >>= λ m. elim m.0 [
          | false ↦ some m.1
          | true ↦ leave_cell m.1 m.1.mapchars.player_x (y + 1 - 1) m.1.mapchars.player_x (y + 1)
        ])
        (λ u same. ((λ i. ((same i).0, back i)), (λ i. ((same i).0, next i))))

  pub move_right-Continues : Continues w g₀ Direction.east v (move_right v)
  unfolding move_right
  move_right-Continues =
      let x = v.mapchars.player_x in
      let y = v.mapchars.player_y in
      let back : x + 1 - 1 ≡ x = omega arith in
      let next : x + 1 ≡ suc x = omega arith in
      Continues-beside Direction.east (move_right v) (λ u. (x + 1 - 1, u.mapchars.player_y))
        (λ u. (x + 1, u.mapchars.player_y)) (omega (arith, inside.0)) inside.1
        (λ i. can_move v (next i) y >>= λ m. elim m.0 [
          | false ↦ some m.1
          | true ↦ leave_cell m.1 (x + 1 - 1) m.1.mapchars.player_y (x + 1) m.1.mapchars.player_y
        ])
        (λ u same. ((λ i. (back i, (same i).1)), (λ i. (next i, (same i).1))))

  pub move_forward-Continues : Continues w g₀ Direction.north v (move_forward v)
  unfolding move_forward
  move_forward-Continues = elim (number-cases v.mapchars.player_y) [
    | inl e ↦ absurd (
        false≢true (
          sym (fence.walled.top v.mapchars.player_x)
          ∙ ap (λ y. open_at g₀ (v.mapchars.player_x, y)) (sym e)
          ∙ open_here))
    | inr (k, e) ↦
        let x = v.mapchars.player_x in
        let below : before v.mapchars.player_y ≡ k = ap before e in
        let back : k + 1 ≡ v.mapchars.player_y = omega (arith, e) in
        let ends : Vars → ℕ → Bool → Option Vars = λ u k moves. elim moves [
          | false ↦ some u
          | true ↦ leave_cell u u.mapchars.player_x (k + 1) u.mapchars.player_x k
        ] in
        Continues-beside Direction.north (move_forward v) (λ u. (u.mapchars.player_x, k + 1))
          (λ u. (u.mapchars.player_x, k)) (omega (arith, inside.0))
          (omega (arith, inside.1, e, below))
          ((λ i. elim (e i) [
            | zero ↦ some v
            | suc new_y ↦ can_move v x new_y >>= λ m. ends m.1 new_y m.0
          ])
            ∙ ap (λ y. can_move v x y >>= λ m. ends m.1 k m.0) (sym below))
          (λ u same. ((λ i. ((same i).0, back i)), (λ i. ((same i).0, sym below i))))
  ]

  pub move_left-Continues : Continues w g₀ Direction.west v (move_left v)
  unfolding move_left
  move_left-Continues = elim (number-cases v.mapchars.player_x) [
    | inl e ↦ absurd (
        false≢true (
          sym (fence.walled.left v.mapchars.player_y)
          ∙ ap (λ x. open_at g₀ (x, v.mapchars.player_y)) (sym e)
          ∙ open_here))
    | inr (k, e) ↦
        let y = v.mapchars.player_y in
        let below : before v.mapchars.player_x ≡ k = ap before e in
        let back : k + 1 ≡ v.mapchars.player_x = omega (arith, e) in
        let ends : Vars → ℕ → Bool → Option Vars = λ u k moves. elim moves [
          | false ↦ some u
          | true ↦ leave_cell u (k + 1) u.mapchars.player_y k u.mapchars.player_y
        ] in
        Continues-beside Direction.west (move_left v) (λ u. (k + 1, u.mapchars.player_y))
          (λ u. (k, u.mapchars.player_y)) (omega (arith, inside.0, e, below)) inside.1
          ((λ i. elim (e i) [
            | zero ↦ some v
            | suc new_x ↦ can_move v new_x y >>= λ m. ends m.1 new_x m.0
          ])
            ∙ ap (λ x. can_move v x y >>= λ m. ends m.1 k m.0) (sym below))
          (λ u same. ((λ i. (back i, (same i).1)), (λ i. (sym below i, (same i).1))))
  ]
