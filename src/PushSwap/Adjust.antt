-- ===== src/PushSwap/Adjust.antt =====
-- 42_push_swap/src/effective_adjust.c: the cheapest move, and the last turn of `a`.
pub mod Turning
pub mod Effective
pub mod Last
use model_lib.Common.{
  ℕ, zero, suc, ◌+◌, ◌-◌, ◌/◌, ltb, if◌then◌else◌, List, [], ◌∷◌, Option, none, some, ◌>>=◌,
}
use model_lib.Common.Int.{ℤ}
use model_lib.PushSwap.Node.{Node, Machine, ra, rb, rra, rrb, pa}
use model_lib.PushSwap.Operations.{
  rotate_x, reverse_rotate_x, multiple_operation, on_a, on_b, push_b_to_a,
}
use model_lib.PushSwap.Position.{int_max, current_pos}

-- `my_abs` of utils.c.
unfoldable pub my_abs : ℤ → ℕ
my_abs (ℤ.pos n) = n
my_abs (ℤ.negsuc n) = suc n

lowest_pos_loop : List Node → (lowest_position lowest_index : ℕ) → ℕ
lowest_pos_loop [] lowest_position lowest_index = lowest_position
lowest_pos_loop (temp ∷ next) lowest_position lowest_index =
    let better = ltb temp.index lowest_index in
    lowest_pos_loop next (if better then temp.pos else lowest_position)
      (if better then temp.index else lowest_index)

-- `none` is a read through NULL.
unfoldable pub lowest_pos : List Node → Option ℕ
unfolding lowest_pos_loop
lowest_pos [] = none
lowest_pos (top ∷ rest) = some (lowest_pos_loop (top ∷ rest) top.pos int_max)

-- `n` rounds of a loop that turns a stack each time.
unfoldable pub repeat : ℕ → (Machine → Machine) → Machine → Machine
repeat zero turn m = m
repeat (suc n) turn m = repeat n turn (turn m)

-- `while (low_position < len) low_position++` makes `len - low_position` rounds.
unfoldable pub adjust_stack : Machine → ℕ → Option Machine
unfolding lowest_pos repeat on_a rotate_x reverse_rotate_x current_pos
adjust_stack m len = do
  let m' = record m { a = current_pos m.a }
  low_position ← lowest_pos m'.a
  some (
      if ltb (len / 2) low_position
      then repeat (len - low_position) (on_a reverse_rotate_x rra) m'
      else repeat low_position (on_a rotate_x ra) m')

-- The loops of `same_moves` on two counters above 0 each: `op` while both last, and what is left.
same_moves_loop : (op cost_a cost_b : ℕ) → Machine → Machine × ℕ × ℕ
same_moves_loop op (suc cost_a) (suc cost_b) m =
    same_moves_loop op cost_a cost_b (multiple_operation m op)
same_moves_loop op cost_a cost_b m = (m, cost_a, cost_b)

-- -n.
abbrev pub negated : ℕ → ℤ
negated zero = ℤ.pos 0
negated (suc n) = ℤ.negsuc n

unfoldable pub same_moves : Machine → (cost_a cost_b : ℤ) → Machine × ℤ × ℤ
unfolding same_moves_loop multiple_operation
same_moves m (ℤ.pos cost_a) (ℤ.pos cost_b) =
    let r = same_moves_loop 2 cost_a cost_b m in (r.0, ℤ.pos r.1, ℤ.pos r.2)
same_moves m (ℤ.negsuc cost_a) (ℤ.negsuc cost_b) =
    let r = same_moves_loop 3 (suc cost_a) (suc cost_b) m in (r.0, negated r.1, negated r.2)
same_moves m cost_a cost_b = (m, cost_a, cost_b)

-- The two loops that use up `cost_a`, and those that use up `cost_b`.
turn_a : ℤ → Machine → Machine
unfolding repeat on_a rotate_x reverse_rotate_x
turn_a (ℤ.pos cost_a) m = repeat cost_a (on_a rotate_x ra) m
turn_a (ℤ.negsuc cost_a) m = repeat (suc cost_a) (on_a reverse_rotate_x rra) m

turn_b : ℤ → Machine → Machine
unfolding repeat on_b rotate_x reverse_rotate_x
turn_b (ℤ.pos cost_b) m = repeat cost_b (on_b rotate_x rb) m
turn_b (ℤ.negsuc cost_b) m = repeat (suc cost_b) (on_b reverse_rotate_x rrb) m

unfoldable pub do_move : Machine → (cost_a cost_b : ℤ) → Machine
unfolding same_moves turn_a turn_b push_b_to_a
do_move m cost_a cost_b =
    let r = same_moves m cost_a cost_b in push_b_to_a pa (turn_b r.2 (turn_a r.1 r.0))

-- The choice of `do_cost_effective`; before the first choice the two costs hold no value.
cheapest_loop : List Node → ℕ → Option (ℤ × ℤ) → Option (ℤ × ℤ)
unfolding my_abs
cheapest_loop [] cheapest costs = costs
cheapest_loop (temp ∷ next) cheapest costs =
    let sum = my_abs temp.cost_a + my_abs temp.cost_b in
    let better = ltb sum cheapest in
    cheapest_loop next (if better then sum else cheapest)
      (if better then some (temp.cost_a, temp.cost_b) else costs)

-- `none` is a move by costs that were never set.
unfoldable pub do_cost_effective : Machine → Option Machine
unfolding cheapest_loop do_move
do_cost_effective m = do
  (cost_a, cost_b) ← cheapest_loop m.b int_max none
  some (do_move m cost_a cost_b)
