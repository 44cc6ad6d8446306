-- ===== src/PushSwap/Tests.antt =====
-- Runs of the sort on small stacks, and the theorems at concrete stacks.
use model_lib.Common.{ℕ, ◌≤◌, ◌≡◌, refl, List, [], ◌∷◌, Option, some, map, arith, All, inr}
use mathlib.Core.Option
use model_lib.Common.Int.{ℤ, ◌*ℤ◌, ◌-ℤ◌}
use model_lib.PushSwap.Node.{Node, Text, Machine, keys, view, ra, sa, pa, pb, rra}
use model_lib.PushSwap.Cyclic.{IsAscending, IsCyclic}
use model_lib.PushSwap.Operations.Replay.{Replays, Instruction, step}
use model_lib.PushSwap.Operations.{
  multiple_operation, on_a, on_b, rotate_x, reverse_rotate_x, swap_x, push_a_to_b, push_b_to_a,
}
use model_lib.PushSwap.Position.{current_pos, get_lowest, target, cost}
use model_lib.PushSwap.Position.Target.{HasTargets, target-HasPlaces, target-HasTargets}
use model_lib.PushSwap.Position.Cost.{IsPriced, cost-IsPriced}
use model_lib.PushSwap.Adjust.{adjust_stack, do_move, my_abs, do_cost_effective}
use model_lib.PushSwap.Adjust.Turning.{spin, view-do_move, do_move-Replays}
use model_lib.PushSwap.Adjust.Effective.{IsCheapest, do_cost_effective_lem}
use model_lib.PushSwap.Adjust.Last.{adjust_stack_lem}
use model_lib.PushSwap.Sort.{sort_stack, sort_three, sort_more, assign_index, merge_loop}
use model_lib.PushSwap.Sort.Order.{IsOrdered}
use model_lib.PushSwap.Sort.Three.{Sorts, sort_three-Sorts}
use model_lib.PushSwap.Sort.Merge.{IsMerged, merge_loop_lem}
use model_lib.PushSwap.Sort.More.{AreRanked, AreRanked-AreRanks, sort_more_lem}
use model_lib.PushSwap.Sort.Ranks.{IsFresh, numbers, assign_index_lem}
use model_lib.PushSwap.Sort.Whole.{SortsNumbers, sort_stack-SortsNumbers}

abbrev node : ℕ → ℤ → Node
node i n = record {
  index = i;
  number = n;
  pos = 0;
  target_pos = ℤ.pos 0;
  cost_a = ℤ.pos 0;
  cost_b = ℤ.pos 0;
}

abbrev fresh : ℤ → Node
fresh = node 0

abbrev eight : List Node
eight =
    map fresh
      (ℤ.pos 4 ∷ ℤ.negsuc 6 ∷ ℤ.pos 9 ∷ ℤ.pos 0 ∷ ℤ.pos 7 ∷ ℤ.pos 2 ∷ ℤ.pos 100 ∷ ℤ.negsuc 0 ∷ [])

abbrev outcome : Option Machine → Option (List ℤ × List ℤ × List Text)
outcome = Option.map (λ m. (numbers m.a, numbers m.b, m.out))

eight_sorted :
    outcome (sort_stack eight 8)
    ≡ some (
      ℤ.negsuc 6 ∷ ℤ.negsuc 0 ∷ ℤ.pos 0 ∷ ℤ.pos 2 ∷ ℤ.pos 4 ∷ ℤ.pos 7 ∷ ℤ.pos 9 ∷ ℤ.pos 100 ∷ [],
      [],
      ra ∷ pb ∷ ra ∷ pb ∷ ra ∷ pb ∷ ra ∷ pb ∷ pb ∷ sa ∷ pa ∷ pa ∷ ra ∷ pa ∷ pa ∷ rra ∷ pa ∷ [],
    )
unfolding sort_stack sort_more target cost do_cost_effective adjust_stack current_pos get_lowest
    multiple_operation on_a on_b rotate_x reverse_rotate_x swap_x push_a_to_b push_b_to_a ◌*ℤ◌ ◌-ℤ◌
eight_sorted = refl

eight-IsFresh : IsFresh eight
eight-IsFresh = record { unranked = omega arith; distinct = ground arith }

sort_stack-SortsNumbers_example :
    (m' : Machine) × (sort_stack eight 8 ≡ some m') × SortsNumbers eight m'
sort_stack-SortsNumbers_example =
    sort_stack-SortsNumbers eight (λ e. cc) (omega arith) eight-IsFresh

-- Ranks 1 to 5: three nodes of `a` in a round, and two of `b`.
abbrev round_a : List Node
round_a = node 3 (ℤ.pos 30) ∷ node 5 (ℤ.pos 50) ∷ node 1 (ℤ.pos 10) ∷ []

abbrev rest_b : List Node
rest_b = node 2 (ℤ.pos 20) ∷ node 4 (ℤ.pos 40) ∷ []

abbrev halfway : Machine
halfway = record { a = round_a; b = rest_b; out = [] }

halfway_ranked : AreRanked halfway
halfway_ranked = record { bounded = omega arith; ordered = ground arith }

round_a-IsCyclic : IsCyclic (keys round_a)
round_a-IsCyclic = ((3, ℤ.pos 30) ∷ (5, ℤ.pos 50) ∷ [], (1, ℤ.pos 10) ∷ [], refl, omega arith)

assign_index_lem_example :
    (l' : List Node) × (assign_index eight 8 ≡ some l')
    × (numbers l' ≡ numbers eight)
    × All (λ (y : Node). y.index ≤ 8) l'
    × IsOrdered (keys l')
assign_index_lem_example = assign_index_lem eight 8 refl eight-IsFresh

view-do_move_example :
    view (do_move halfway (ℤ.negsuc 0) (ℤ.pos 1))
    ≡ step Instruction.push_a (spin (ℤ.negsuc 0) (keys round_a), spin (ℤ.pos 1) (keys rest_b))
view-do_move_example = view-do_move halfway (ℤ.negsuc 0) (ℤ.pos 1)

do_move-Replays_example : Replays halfway (do_move halfway (ℤ.pos 1) (ℤ.pos 1))
do_move-Replays_example = do_move-Replays halfway (ℤ.pos 1) (ℤ.pos 1) (inr (omega arith))

sort_three-Sorts_example : (m' : Machine) × (sort_three halfway ≡ some m') × Sorts halfway m'
sort_three-Sorts_example = sort_three-Sorts halfway refl (ground arith) (λ h. omega arith)

merge_loop_lem_example : (m' : Machine) × (merge_loop 3 halfway 5 2 ≡ some m') × IsMerged halfway m'
merge_loop_lem_example = merge_loop_lem 3 halfway 5 2 (omega arith) (record {
  size_b = refl;
  size = refl;
  small = omega arith;
  ranks = AreRanked-AreRanks halfway_ranked;
  cyclic = round_a-IsCyclic;
  nonempty = λ e. cc;
})

adjust_stack_lem_example :
    (m' : Machine) × (adjust_stack halfway 3 ≡ some m')
    × Replays halfway m'
    × IsAscending (keys m'.a)
    × (keys m'.b ≡ keys halfway.b)
adjust_stack_lem_example = adjust_stack_lem halfway 3 refl (λ e. cc) (omega arith) round_a-IsCyclic

target-HasTargets_example : HasTargets (target round_a rest_b).0 (target round_a rest_b).1
target-HasTargets_example = target-HasTargets round_a rest_b (λ e. cc) (omega arith)

cost-IsPriced_example :
    All
      (IsPriced (keys (target round_a rest_b).0) (keys rest_b))
      (cost (target round_a rest_b).1 3 2)
unfolding target
cost-IsPriced_example =
    cost-IsPriced (target round_a rest_b).0 (keys rest_b) 0 (target round_a rest_b).1
      (target-HasPlaces round_a rest_b) (omega arith) target-HasTargets_example

-- A stack `b` with costs.
abbrev priced : Machine
priced = record halfway {
  b =
      record (node 2 (ℤ.pos 20)) { cost_a = ℤ.pos 2; cost_b = ℤ.pos 0 }
      ∷ record (node 4 (ℤ.pos 40)) { cost_a = ℤ.pos 1; cost_b = ℤ.negsuc 0 }
      ∷ [];
}

do_cost_effective_lem_example :
    (m' : Machine) × (do_cost_effective priced ≡ some m') × IsCheapest priced m'
unfolding my_abs
do_cost_effective_lem_example = do_cost_effective_lem priced (λ e. cc) (omega arith)

-- Four ranked nodes, all in `a`.
abbrev four : Machine
four = record {
  a = node 3 (ℤ.pos 30) ∷ node 1 (ℤ.pos 10) ∷ node 4 (ℤ.pos 40) ∷ node 2 (ℤ.pos 20) ∷ [];
  b = [];
  out = [];
}

sort_more_lem_example : (m' : Machine) × (sort_more four 4 0 ≡ some m') × IsMerged four m'
sort_more_lem_example =
    sort_more_lem four 4 (omega arith) (omega arith) refl refl
      (record { bounded = omega arith; ordered = ground arith })
