-- ===== src/SoLong/Moves/Enter.antt =====
-- What can_move does to the variables when the player enters a cell.
use model_lib.Common.{
  ℕ, suc, ◌+◌, ◌≤◌, ◌<◌, ◌≡◌, refl, ap, sym, ◌∙◌, ◌==◌, if◌then◌else◌, Bool-cases, true, false,
  some, ◌>>=◌, length, arith, All, ◌⊎◌, inl, inr,
}
use mathlib.Core.Bool.{false≢true}
use model_lib.SoLong.Map.{Grid, passes}
use model_lib.SoLong.Map.Cells.{Place, look, open_at, write, write_cell-write}
use model_lib.SoLong.Map.Tally.{as_one, count}
use model_lib.SoLong.Moves.{Vars, char_of, enter_cell, try_cell, can_move}
use model_lib.SoLong.Moves.Count.{player_at, exit_at, char_of-look, count-write}

-- The bytes that the player can move to.
abbrev pub IsFree : ℕ → Type 0
IsFree c = (c ≡ b'C') ⊎ ((c ≡ b'E') ⊎ (c ≡ b'0'))

pub IsFree-passes : (c : ℕ) → IsFree c → passes c ≡ true
IsFree-passes c (inl e) = ap passes e
IsFree-passes c (inr (inl e)) = ap passes e
IsFree-passes c (inr (inr e)) = ap passes e

pub record Entered (v : Vars) (n : Place) (v' : Vars) : Type 0 where
  pub going : v.ended ≡ false
  pub free : IsFree (look v.map n)
  pub written : v'.map ≡ write v.map n b'P'
  pub taken : v'.mapchars.collectible + as_one (look v.map n) ≡ v.mapchars.collectible
  pub player : player_at v' ≡ player_at v
  pub exit : exit_at v' ≡ exit_at v
  pub movements : v'.mapchars.movements ≡ v.mapchars.movements
  pub printed : v'.printed ≡ v.printed
  pub won : v'.ended ≡ true → (look v.map n ≡ b'E') × (v'.mapchars.collectible ≡ 0)
  pub ends : look v.map n ≡ b'E' → v'.mapchars.collectible ≡ 0 → v'.ended ≡ true

-- Why the player stays.
abbrev pub IsBlocked : Vars → Place → Type 0
IsBlocked v n = (v.ended ≡ true) ⊎ (IsFree (look v.map n) → ⊥)

-- The player stays, or enters the cell.
abbrev pub Enters : Vars → Place → Type 0
Enters v n =
    (IsBlocked v n × (can_move v n.0 n.1 ≡ some (false, v)))
    ⊎ ((v' : Vars) × (can_move v n.0 n.1 ≡ some (true, v')) × Entered v n v')

count-pos : (g : Grid) (n : Place) → look g n ≡ b'C' → (k : ℕ) × (count g ≡ suc k)
count-pos g n e =
    let sum = count-write g n b'P' (ap passes e) in
    let one : as_one (look g n) ≡ 1 = ap as_one e in
    (count (write g n b'P'), omega (arith, sum, one))

enter_cell-write :
    (v : Vars) (x y : ℕ)
    → open_at v.map (x, y) ≡ true
    → enter_cell v x y ≡ some (true, record v { map = write v.map (x, y) b'P' })
unfolding enter_cell
enter_cell-write v x y o = rw (write_cell-write v.map x y b'P' o, enter_cell, ◌>>=◌)

module _ (w : ℕ) (v : Vars) (x y : ℕ) where
  abbrev c : ℕ
  c = look v.map (x, y)

  module _ (wide : All (λ row. length row ≡ w) v.map) (in_row : x ≤ w) (in_map : y < length v.map)
      (going : v.ended ≡ false) where
    tried : can_move v x y ≡ try_cell v c x y
    unfolding can_move
    tried =
        (λ i. if going i then some (false, v) else (char_of v.map y x >>= λ c. try_cell v c x y))
        ∙ ap (λ o. o >>= λ c. try_cell v c x y) (char_of-look w v.map x y wide in_row in_map)

    enter-C : v.mapchars.collectible ≡ count v.map → c ≡ b'C' → Enters v (x, y)
    unfolding try_cell
    enter-C left e =
        let (k, some_left) = count-pos v.map (x, y) e in
        let more : v.mapchars.collectible ≡ suc k = left ∙ some_left in
        let one : as_one c ≡ 1 = ap as_one e in
        let u : Vars = record v { mapchars = record v.mapchars { collectible = k } } in
        inr (
          record u { map = write v.map (x, y) b'P' },
          tried ∙ rw (e, more, try_cell) (enter_cell-write u x y (ap passes e)),
          record {
            going = going;
            free = inl e;
            written = refl;
            taken = omega (arith, one, more);
            player = refl;
            exit = refl;
            movements = refl;
            printed = refl;
            won = λ t. absurd (false≢true (sym going ∙ t));
            ends = λ at none_left. ground (arith, e, at);
          },
        )

    enter-E : c ≡ b'E' → Enters v (x, y)
    unfolding try_cell
    enter-E e =
        let nothing : as_one c ≡ 0 = ap as_one e in
        let u : Vars = record v { ended = v.mapchars.collectible == 0 } in
        inr (
          record u { map = write v.map (x, y) b'P' },
          tried ∙ rw (e, try_cell) (enter_cell-write u x y (ap passes e)),
          record {
            going = going;
            free = inr (inl e);
            written = refl;
            taken = omega (arith, nothing);
            player = refl;
            exit = refl;
            movements = refl;
            printed = refl;
            won = λ t. (e, ground (arith, t));
            ends = λ at none_left. ground (arith, none_left);
          },
        )

    enter-0 : c ≡ b'0' → Enters v (x, y)
    unfolding try_cell
    enter-0 e =
        let nothing : as_one c ≡ 0 = ap as_one e in
        inr (
          record v { map = write v.map (x, y) b'P' },
          tried ∙ rw (e, try_cell) (enter_cell-write v x y (ap passes e)),
          record {
            going = going;
            free = inr (inr e);
            written = refl;
            taken = omega (arith, nothing);
            player = refl;
            exit = refl;
            movements = refl;
            printed = refl;
            won = λ t. absurd (false≢true (sym going ∙ t));
            ends = λ at none_left. ground (arith, e, at);
          },
        )

  not_free :
      (c : ℕ) → (c == b'C') ≡ false → (c == b'E') ≡ false → (c == b'0') ≡ false → IsFree c → ⊥
  not_free c s t u (inl e) = ground (arith, s, e)
  not_free c s t u (inr (inl e)) = ground (arith, t, e)
  not_free c s t u (inr (inr e)) = ground (arith, u, e)

  pub can_move-Enters :
      All (λ row. length row ≡ w) v.map
      → x ≤ w
      → y < length v.map
      → v.mapchars.collectible ≡ count v.map
      → Enters v (x, y)
  unfolding can_move try_cell
  can_move-Enters wide in_row in_map left = elim (Bool-cases v.ended) [
    | inl t ↦ inl (inl t, rw (t, can_move))
    | inr going ↦ elim (Bool-cases (c == b'C')) [
      | inl t ↦ enter-C wide in_row in_map going left (ground (arith, t))
      | inr t ↦ elim (Bool-cases (c == b'E')) [
        | inl t' ↦ enter-E wide in_row in_map going (ground (arith, t'))
        | inr t' ↦ elim (Bool-cases (c == b'0')) [
          | inl u ↦ enter-0 wide in_row in_map going (ground (arith, u))
          | inr u ↦
              inl
                (inr (not_free c t t' u), tried wide in_row in_map going ∙ rw (t, t', u, try_cell))
        ]
      ]
    ]
  ]
