-- ===== src/PushSwap/Position.antt =====
-- 42_push_swap/src/pos_and_cost.c: where each node of `b` belongs in `a`, and what the way costs.
pub mod Cost
pub mod Places
pub mod Target
use model_lib.Common.{ℕ, ◌+◌, ◌/◌, ltb, ◌==◌, ◌&&◌, if◌then◌else◌, not, List, [], ◌∷◌}
use model_lib.Common.Int.{ℤ, sub_ℕ, ◌-ℤ◌, ◌*ℤ◌, ltb_ℤ}
use model_lib.PushSwap.Node.{Node}

abbrev pub int_max : ℕ
int_max = 2147483647

-- The loop of `current_pos`, at the counter `pos`.
current_pos_loop : ℕ → List Node → List Node
current_pos_loop n [] = []
current_pos_loop n (current ∷ next) = record current { pos = n } ∷ current_pos_loop (n + 1) next

unfoldable pub current_pos : List Node → List Node
unfolding current_pos_loop
current_pos stack_a = current_pos_loop 0 stack_a

-- The first loop of `get_lowest`: the smallest index above `b_index`.
lowest_above : ℕ → List Node → ℕ → ℤ → ℕ × ℤ
lowest_above b_index [] target_index target_position = (target_index, target_position)
lowest_above b_index (temp_a ∷ next) target_index target_position =
    let better = ltb b_index temp_a.index && ltb temp_a.index target_index in
    lowest_above b_index next (if better then temp_a.index else target_index)
      (if better then ℤ.pos temp_a.pos else target_position)

-- The second loop: the smallest index of all.
lowest_of_all : List Node → ℕ → ℤ → ℤ
lowest_of_all [] target_index target_position = target_position
lowest_of_all (temp_a ∷ next) target_index target_position =
    let better = ltb temp_a.index target_index in
    lowest_of_all next (if better then temp_a.index else target_index)
      (if better then ℤ.pos temp_a.pos else target_position)

unfoldable pub get_lowest : List Node → (b_index target_index : ℕ) → (target_position : ℤ) → ℤ
unfolding lowest_above lowest_of_all
get_lowest stack_a b_index target_index target_position =
    let found = lowest_above b_index stack_a target_index target_position in
    if not (found.0 == int_max) then found.1 else lowest_of_all stack_a found.0 found.1

-- The loop of `target` over `b`; `t_position` is carried from one node to the next.
target_loop : List Node → List Node → ℤ → List Node
target_loop a [] t_position = []
target_loop a (temp_b ∷ next) t_position =
    let t = get_lowest a temp_b.index int_max t_position in
    record temp_b { target_pos = t } ∷ target_loop a next t

-- Both stacks are given their positions, then each node of `b` its target.
unfoldable pub target : (a b : List Node) → List Node × List Node
unfolding target_loop current_pos
target a b = (current_pos a, target_loop (current_pos a) (current_pos b) (ℤ.negsuc 0))

-- One round of the loop of `cost`.
node_cost : (size_a size_b : ℕ) → Node → Node
node_cost size_a size_b temp_b = record temp_b {
  cost_b =
      if ltb (size_b / 2) temp_b.pos
      then sub_ℕ size_b temp_b.pos *ℤ ℤ.negsuc 0
      else ℤ.pos temp_b.pos;
  cost_a =
      if ltb_ℤ (ℤ.pos (size_a / 2)) temp_b.target_pos
      then (ℤ.pos size_a -ℤ temp_b.target_pos) *ℤ ℤ.negsuc 0
      else temp_b.target_pos;
}

unfoldable pub cost : List Node → (size_a size_b : ℕ) → List Node
unfolding node_cost
cost [] size_a size_b = []
cost (temp_b ∷ next) size_a size_b = node_cost size_a size_b temp_b ∷ cost next size_a size_b
