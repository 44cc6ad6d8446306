-- ===== src/SoLong/Map/Valid.antt =====
-- What the lines are for which map_is_valid is true.
use model_lib.Common.{
  ℕ, ◌+◌, ◌≡◌, refl, ap, sym, subst, ◌∙◌, ◌==◌, ◌||◌, ◌&&◌, not, ltb, Bool, Bool-cases,
  Option-cases, true, false, List, some, ◌>>=◌, arith, inl, inr,
}
use mathlib.Core.Bool.{false≢true}
use mathlib.Core.Option.{some-injective, none-ne-some}
use model_lib.SoLong.Map.{Line, MapChars, map_is_closed, lines_loop, map_is_valid}
use model_lib.SoLong.Map.Cells.{Place, look}
use model_lib.SoLong.Map.Closed.{grid}
use model_lib.SoLong.Map.Player.{lines_loop-player}
use model_lib.SoLong.Map.Tally.{count}
use model_lib.SoLong.Map.Exit.{exit_of}
use model_lib.SoLong.Map.Found.{lines_loop-Counts}

-- What the last test of map_is_valid needs.
valid-parts :
    (allowed a : Bool) (exit player : ℕ)
    → (allowed && not (a || not (exit == 1) || not (player == 1))) ≡ true
    → (allowed ≡ true) × (exit ≡ 1) × (player ≡ 1)
valid-parts false a exit player h = cc
valid-parts true true exit player h = cc
valid-parts true false exit player h = elim (Bool-cases (exit == 1)) [
  | inl t ↦ elim (Bool-cases (player == 1)) [
    | inl u ↦ (refl, ground (arith, t), ground (arith, u))
    | inr u ↦ absurd (false≢true (rw (t, u) at h))
  ]
  | inr t ↦ absurd (false≢true (rw t at h))
]

abbrev pub start : MapChars → Place
start m = (m.player_x, m.player_y)

abbrev pub cleared : MapChars → MapChars
cleared chars = record chars { collectible = 0; exit = 0; player = 0 }

-- The player that was counted is on the grid.
player-look :
    (lines : List Line) (chars counted : MapChars)
    → lines_loop (cleared chars) lines 0 ≡ (true, counted)
    → counted.player ≡ 1
    → look (grid lines) (start counted) ≡ b'P'
player-look lines chars counted h one = elim (lines_loop-player lines (cleared chars) counted 0 h) [
  | inl (none_counted, x, y) ↦ absurd (omega (arith, none_counted, one))
  | inr (j, k, at, (x, y)) ↦
      let down : 0 + k ≡ k = omega arith in
      subst (λ q. look (grid lines) q ≡ b'P') (λ i. ((sym x) i, (sym (y ∙ down)) i)) at
]

pub map_is_valid-counted :
    (lines : List Line) (chars counted : MapChars)
    → map_is_valid lines chars ≡ some (true, counted)
    → (map_is_closed lines ≡ some true)
      × (lines_loop (cleared chars) lines 0 ≡ (true, counted))
      × (counted.exit ≡ 1)
      × (counted.player ≡ 1)
unfolding map_is_valid
map_is_valid-counted lines chars counted h = elim (Option-cases (map_is_closed lines)) [
  | inl n ↦ absurd (none-ne-some _ (rw (n, map_is_valid, ◌>>=◌) at h))
  | inr (false, e) ↦
      absurd (false≢true (ap (λ r. r.0) (some-injective _ _ (rw (e, map_is_valid, ◌>>=◌) at h))))
  | inr (true, e) ↦
      let r = lines_loop (cleared chars) lines 0 in
      let h' : (
        r.0 && not (ltb r.1.collectible 1 || not (r.1.exit == 1) || not (r.1.player == 1)),
        r.1,
      )
          ≡ (true, counted) =
        some-injective _ _ (rw (e, map_is_valid, ◌>>=◌) at h) in
      let same : r.1 ≡ counted = ap (λ r. r.1) h' in
      let (allowed, one_exit, one_player) =
        valid-parts r.0 (ltb r.1.collectible 1) r.1.exit r.1.player (ap (λ r. r.0) h') in
      (
        e,
        (λ i. (allowed i, same i)),
        sym (ap (λ m. m.exit) same) ∙ one_exit,
        sym (ap (λ m. m.player) same) ∙ one_player,
      )
]

pub map_is_valid-look :
    (lines : List Line) (chars counted : MapChars)
    → map_is_valid lines chars ≡ some (true, counted)
    → (map_is_closed lines ≡ some true) × (look (grid lines) (start counted) ≡ b'P')
map_is_valid-look lines chars counted h =
    let (closed, loop, one_exit, one_player) = map_is_valid-counted lines chars counted h in
    (closed, player-look lines chars counted loop one_player)

-- The exit is where it was counted, and nowhere else.
pub map_is_valid-exit :
    (lines : List Line) (chars counted : MapChars)
    → map_is_valid lines chars ≡ some (true, counted)
    → (look (grid lines) (exit_of counted) ≡ b'E')
      × ((q : Place) → look (grid lines) q ≡ b'E' → q ≡ exit_of counted)
      × (counted.collectible ≡ count (grid lines))
map_is_valid-exit lines chars counted h =
    let (closed, loop, one_exit, one_player) = map_is_valid-counted lines chars counted h in
    let ((found, kept), taken) = lines_loop-Counts lines (cleared chars) counted 0 loop in
    let all : counted.collectible ≡ count (grid lines) = omega (arith, taken) in
    elim found [
      | inl (nothing, no_exit) ↦ absurd (omega (arith, nothing, one_exit))
      | inr (inr more) ↦ absurd (omega (arith, more, one_exit))
      | inr (inl (one, (x, k, at, e), only)) ↦
          let down : 0 + k ≡ k = omega arith in
          (
            subst (λ q. look (grid lines) q ≡ b'E') (sym (e ∙ λ i. (x, down i))) at,
            λ q at'.
                let down' : q.1 ≡ 0 + q.1 = omega arith in
                only q (q.0, q.1, at', λ i. (q.0, down' i)),
            all,
          )
    ]
