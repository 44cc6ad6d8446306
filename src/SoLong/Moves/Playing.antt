-- ===== src/SoLong/Moves/Playing.antt =====
-- Every key leaves a game that can be played on.
use model_lib.Common.{
  ◌∷◌, some, ◌>>=◌, ℕ, ◌+◌, ◌≢◌, ◌≡◌, refl, ap, sym, ◌∙◌, true, length, arith, All, ◌⊎◌, inl, inr,
}
use model_lib.SoLong.Map.{Grid, passes, write_cell}
use model_lib.SoLong.Map.Cells.{
  Place, look, open_at, write, write_cell-write, write-wide, length-write, look-write_self,
  look-write_ne,
}
use model_lib.SoLong.Map.Flood.{Place-cases}
use model_lib.SoLong.Moves.{Vars, leave_cell, render_exit}
use model_lib.SoLong.Map.Tally.{as_one, count}
use model_lib.SoLong.Moves.Count.{player_at, exit_at, open_at-write, count-write}
use model_lib.SoLong.Moves.Enter.{Entered, IsFree, IsFree-passes}

-- The variables in a game on the grid `g₀`, in front of a call of render_exit: the walls are those of
-- `g₀`, the player and the exit are on open cells, the count is that of the collectibles on the map,
-- and the game has ended exactly if none is left and the player is at the exit.
pub record IsMoving (w : ℕ) (g₀ : Grid) (v : Vars) : Type 0 where
  pub size : length v.map ≡ length g₀
  pub wide : All (λ row. length row ≡ w) v.map
  pub same : (q : Place) → open_at v.map q ≡ open_at g₀ q
  pub here : look v.map (player_at v) ≡ b'P'
  pub goal : open_at g₀ (exit_at v) ≡ true
  pub bare : look v.map (exit_at v) ≢ b'C'
  pub left : v.mapchars.collectible ≡ count v.map
  pub only : (q : Place) → look v.map q ≡ b'E' → q ≡ exit_at v
  pub won : v.ended ≡ true → (v.mapchars.collectible ≡ 0) × (player_at v ≡ exit_at v)
  pub ends : v.mapchars.collectible ≡ 0 → player_at v ≡ exit_at v → v.ended ≡ true

-- The variables in a game between two keys: the exit is drawn where the player is not.
pub record IsPlaying (w : ℕ) (g₀ : Grid) (v : Vars) : Type 0 where
  pub moving : IsMoving w g₀ v
  pub drawn : player_at v ≢ exit_at v → look v.map (exit_at v) ≡ b'E'

abbrev pub redrawn : Vars → Vars
redrawn v = record v { map = write v.map (exit_at v) b'E' }

pub render_exit-redrawn :
    (w : ℕ) (g₀ : Grid) (v : Vars) → IsMoving w g₀ v → render_exit v ≡ some (redrawn v)
unfolding render_exit
render_exit-redrawn w g₀ v a =
    let e =
      write_cell-write v.map v.mapchars.exit_x v.mapchars.exit_y b'E'
        (a.same (exit_at v) ∙ a.goal) in
    λ i. (e i >>= λ written. some (record v { map = written }))

-- The exit is drawn where the player is not.
pub redrawn-IsPlaying :
    (w : ℕ) (g₀ : Grid) (v : Vars)
    → IsMoving w g₀ v
    → player_at v ≢ exit_at v
    → IsPlaying w g₀ (redrawn v)
redrawn-IsPlaying w g₀ v a apart =
    let p = exit_at v in
    let o : open_at v.map p ≡ true = a.same p ∙ a.goal in
    record {
      moving = record {
        size = length-write v.map p b'E' ∙ a.size;
        wide = write-wide w v.map p b'E' a.wide;
        same = λ q. open_at-write v.map p b'E' o refl q ∙ a.same q;
        here = look-write_ne v.map p (player_at v) b'E' (λ e. apart (sym e)) ∙ a.here;
        goal = a.goal;
        bare = λ c. let e = look-write_self v.map p b'E' o in ground (arith, c, e);
        left =
            let no_loss : as_one (look v.map p) ≡ 0 = no_one (look v.map p) a.bare in
            omega (arith, a.left, count-write v.map p b'E' o, no_loss);
        only = λ q e. elim (Place-cases p q) [
          | inl s ↦ s
          | inr n ↦ a.only q (sym (look-write_ne v.map p q b'E' n) ∙ e)
        ];
        won = a.won;
        ends = a.ends;
      };
      drawn = λ _. look-write_self v.map p b'E' o;
    }
  where
    no_one : (c : ℕ) → c ≢ b'C' → as_one c ≡ 0
    no_one c h = ground (arith, h)

-- The map behind a move from `p` to `n`.
abbrev moved : Grid → (p n : Place) → Grid
moved g p n = write (write g n b'P') p b'0'

look-moved :
    (g : Grid) (p n : Place)
    → open_at g p ≡ true
    → open_at g n ≡ true
    → (q : Place)
    → (look (moved g p n) q ≡ b'0')
      ⊎ ((look (moved g p n) q ≡ b'P') ⊎ (look (moved g p n) q ≡ look g q))
look-moved g p n o_p o_n q =
    let o' : open_at (write g n b'P') p ≡ true = open_at-write g n b'P' o_n refl p ∙ o_p in
    elim (Place-cases p q) [
      | inl e ↦ inl (ap (look (moved g p n)) e ∙ look-write_self (write g n b'P') p b'0' o')
      | inr d ↦
          let kept = look-write_ne (write g n b'P') p q b'0' d in
          inr (elim (Place-cases n q) [
            | inl e ↦ inl (kept ∙ ap (look (write g n b'P')) e ∙ look-write_self g n b'P' o_n)
            | inr d' ↦ inr (kept ∙ look-write_ne g n q b'P' d')
          ])
    ]

count-moved :
    (g : Grid) (p n : Place)
    → open_at g p ≡ true
    → open_at g n ≡ true
    → look g p ≡ b'P'
    → n ≢ p
    → count (moved g p n) + as_one (look g n) ≡ count g
count-moved g p n o_p o_n at apart =
    let o' : open_at (write g n b'P') p ≡ true = open_at-write g n b'P' o_n refl p ∙ o_p in
    let empty : as_one (look (write g n b'P') p) ≡ 0 =
      ap as_one (look-write_ne g n p b'P' apart ∙ at) in
    omega (arith, count-write g n b'P' o_n, count-write (write g n b'P') p b'0' o', empty)

module _ (w : ℕ) (g₀ : Grid) (v v' : Vars) (n : Place) where
  -- The variables behind the move.
  abbrev pub left_cell : Vars
  left_cell =
      let movements = v'.mapchars.movements + 1 in
      record v' {
        map = moved v.map (player_at v) n;
        mapchars = record v'.mapchars { player_x = n.0; player_y = n.1; movements = movements };
        printed = movements ∷ v'.printed;
      }

  module _ (play : IsPlaying w g₀ v) (b : Entered v n v') where
    a : IsMoving w g₀ v
    a = play.moving

    passable : open_at v.map n ≡ true
    passable = IsFree-passes (look v.map n) b.free

    apart : n ≢ player_at v
    apart e = not_P (look v.map n) b.free (ap (look v.map) e ∙ a.here)
      where
        not_P : (c : ℕ) → IsFree c → c ≢ b'P'
        not_P c (inl f) h = ground (arith, f, h)
        not_P c (inr (inl f)) h = ground (arith, f, h)
        not_P c (inr (inr f)) h = ground (arith, f, h)

    -- The old cell is open when it is left.
    old_open : open_at (write v.map n b'P') (player_at v) ≡ true
    old_open = open_at-write v.map n b'P' passable refl (player_at v) ∙ ap passes a.here

    pub leave_cell-left :
        (q r : Place) → q ≡ player_at v → r ≡ n → leave_cell v' q.0 q.1 r.0 r.1 ≡ some left_cell
    unfolding leave_cell
    leave_cell-left q r eq er =
        let p = player_at v in
        let e : write_cell v'.map p.1 p.0 b'0' ≡ some (moved v.map p n) =
          (λ i. write_cell (b.written i) p.1 p.0 b'0')
          ∙ write_cell-write (write v.map n b'P') p.0 p.1 b'0' old_open in
        let movements = v'.mapchars.movements + 1 in
        (λ i. leave_cell v' (eq i).0 (eq i).1 (er i).0 (er i).1) ∙ λ i.
        (e i >>= λ written. some (record v' {
          map = written;
          mapchars = record v'.mapchars { player_x = n.0; player_y = n.1; movements = movements };
          printed = movements ∷ v'.printed;
        }))

    pub left-IsMoving : IsMoving w g₀ left_cell
    left-IsMoving =
        let p = player_at v in
        let o_p : open_at v.map p ≡ true = ap passes a.here in
        let after = look-moved v.map p n o_p passable in
        record {
          size = length-write (write v.map n b'P') p b'0' ∙ length-write v.map n b'P' ∙ a.size;
          wide = write-wide w (write v.map n b'P') p b'0' (write-wide w v.map n b'P' a.wide);
          same = λ q.
              open_at-write (write v.map n b'P') p b'0' old_open refl q
              ∙ open_at-write v.map n b'P' passable refl q
              ∙ a.same q;
          here =
              look-write_ne (write v.map n b'P') p n b'0' (λ e. apart (sym e))
              ∙ look-write_self v.map n b'P' passable;
          goal = ap (open_at g₀) b.exit ∙ a.goal;
          bare = λ c. elim (after (exit_at v')) [
            | inl e ↦ ground (arith, c, e)
            | inr (inl e) ↦ ground (arith, c, e)
            | inr (inr e) ↦ a.bare (ap (look v.map) (sym b.exit) ∙ sym e ∙ c)
          ];
          left = omega (arith, a.left, b.taken, count-moved v.map p n o_p passable a.here apart);
          only = λ q e. elim (after q) [
            | inl e' ↦ ground (arith, e, e')
            | inr (inl e') ↦ ground (arith, e, e')
            | inr (inr e') ↦ a.only q (sym e' ∙ e) ∙ sym b.exit
          ];
          won = λ t. ((b.won t).1, a.only n (b.won t).0 ∙ sym b.exit);
          ends = λ none_left at.
              let there : n ≡ exit_at v = at ∙ b.exit in
              let drawn = play.drawn (λ e. apart (there ∙ sym e)) in
              b.ends (ap (look v.map) there ∙ drawn) none_left;
        }
