-- ===== src/PushSwap/Sort.antt =====
-- 42_push_swap/src/main.c: the ranks, the sort of three, the sort of more, and the choice of `main`.
pub mod Merge
pub mod Order
pub mod Three
pub mod Split
pub mod More
pub mod Ranking
pub mod Ranks
pub mod Numbers
pub mod Choice
pub mod Whole
use model_lib.Common.{
  ℕ, zero, suc, ◌+◌, ◌-◌, ◌/◌, ltb, leb, ◌==◌, ◌&&◌, not, if◌then◌else◌, Bool, true, false, List,
  [], ◌∷◌, Option, none, some, ◌>>=◌, length, set,
}
use model_lib.Common.Int.{ltb_ℤ}
use model_lib.PushSwap.Node.{Node, Machine, ra, rra, sa, pb}
use model_lib.PushSwap.Operations.{rotate_x, reverse_rotate_x, swap_x, on_a, push_a_to_b}
use model_lib.PushSwap.Position.{target, cost}
use model_lib.PushSwap.Adjust.{do_cost_effective, adjust_stack}

-- The inner loop of `assign_index`. `lowest` is NULL, or the place of a node with the node there;
-- `at` is the place of the first node that is left.
pub lowest_unranked : List Node → (at : ℕ) → Option (ℕ × Node) → Option (ℕ × Node)
lowest_unranked [] at lowest = lowest
lowest_unranked (current ∷ next) at lowest =
    let below : Bool = elim lowest [ none ↦ true | some (i, l) ↦ ltb_ℤ current.number l.number ] in
    lowest_unranked next (at + 1)
      (if current.index == 0 && below then some (at, current) else lowest)

-- The outer loop, on fuel: `none` means that the fuel ran out.
pub assign_index_loop : (fuel : ℕ) → List Node → (len index : ℕ) → Option (List Node)
unfolding lowest_unranked
assign_index_loop zero stack_a len index = none
assign_index_loop (suc fuel) stack_a len index = elim (leb index len) [
  | false ↦ some stack_a
  | true ↦ elim (lowest_unranked stack_a 0 none) [
    | none ↦ assign_index_loop fuel stack_a len index
    | some (i, lowest) ↦
        assign_index_loop fuel (set stack_a i (record lowest { index = index })) len (index + 1)
  ]
]

unfoldable pub assign_index : List Node → ℕ → Option (List Node)
unfolding assign_index_loop
assign_index stack_a len = assign_index_loop (len + 1) stack_a len 1

-- The loop of `is_sorted`, at the node `current`.
pub sorted_from : Node → List Node → Bool
sorted_from current [] = true
sorted_from current (next ∷ rest) =
    if ltb_ℤ next.number current.number then false else sorted_from next rest

-- `none` is a read through NULL.
unfoldable pub is_sorted : List Node → Option Bool
unfolding sorted_from
is_sorted [] = none
is_sorted (top ∷ rest) = some (sorted_from top rest)

-- The first condition of `sort_three`: the third node is read only if the first test holds.
top_is_highest : List Node → Option Bool
top_is_highest (x ∷ y ∷ rest) =
    if ltb y.index x.index
    then elim rest [ [] ↦ none | z ∷ _ ↦ some (ltb z.index x.index) ]
    else some false
top_is_highest _ = none

-- The index of the first node is above that of the second.
top_is_higher : List Node → Option Bool
top_is_higher (x ∷ y ∷ _) = some (ltb y.index x.index)
top_is_higher _ = none

top_is_lower : List Node → Option Bool
top_is_lower (x ∷ y ∷ _) = some (ltb x.index y.index)
top_is_lower _ = none

unfoldable pub sort_three : Machine → Option Machine
unfolding top_is_highest top_is_higher top_is_lower on_a rotate_x reverse_rotate_x swap_x
sort_three m = do
  highest ← top_is_highest m.a
  lower ← top_is_lower m.a
  let m' = if highest then on_a rotate_x ra m else if lower then on_a reverse_rotate_x rra m else m
  higher ← top_is_higher m'.a
  some (if higher then on_a swap_x sa m' else m')

-- The body of the first loop of `sort_more`, at the top of `a`: `len_b` is counted up in the
-- condition, if the tests before it hold.
pub halve_step : Node → Machine → (len len_b : ℕ) → Machine × ℕ
halve_step top m len len_b =
    let low = leb top.index (len / 2) && ltb len_b (len / 2) in
    (
      if low && ltb len_b len then push_a_to_b pb m else on_a rotate_x ra m,
      if low then len_b + 1 else len_b,
    )

-- The first loop of `sort_more`, on the rounds that `i < len` leaves.
pub halve_loop : (rounds : ℕ) → Machine → (len len_b : ℕ) → Option (Machine × ℕ)
unfolding halve_step
halve_loop zero m len len_b = some (m, len_b)
halve_loop (suc rounds) m len len_b = elim (ltb 6 len && ltb len_b (len / 2)) [
  | false ↦ some (m, len_b)
  | true ↦ elim m.a [
    | [] ↦ none
    | top ∷ _ ↦ let s = halve_step top m len len_b in halve_loop rounds s.0 len s.1
  ]
]

-- The second loop: until three are left.
pub leave_three_loop : (rounds : ℕ) → Machine → Machine
leave_three_loop zero m = m
leave_three_loop (suc rounds) m = leave_three_loop rounds (push_a_to_b pb m)

-- One round of the last loop.
merge_round : Machine → (len len_b : ℕ) → Option Machine
merge_round m len len_b =
    let placed = target m.a m.b in
    do_cost_effective (record m { a = placed.0; b = cost placed.1 (len - len_b) len_b })

-- The last loop, on fuel: each round brings one node back.
pub merge_loop : (fuel : ℕ) → Machine → (len len_b : ℕ) → Option Machine
unfolding merge_round
merge_loop zero m len len_b = elim m.b [ [] ↦ some m | _ ∷ _ ↦ none ]
merge_loop (suc fuel) m len len_b = elim m.b [
  | [] ↦ some m
  | _ ∷ _ ↦ merge_round m len len_b >>= λ m'. merge_loop fuel m' len (len_b - 1)
]

-- For `len` above 3. The last loop has a round for each node of `b`, and one more.
unfoldable pub sort_more : Machine → (len len_b : ℕ) → Option Machine
unfolding halve_loop leave_three_loop merge_loop is_sorted sort_three
sort_more m len len_b = do
  (m₁, len_b₁) ← halve_loop len m len len_b
  let m₂ = leave_three_loop (len - 3 - len_b₁) m₁
  let len_b₂ = len_b₁ + (len - 3 - len_b₁)
  sorted ← is_sorted m₂.a
  m₃ ← (if sorted then some m₂ else sort_three m₂)
  merge_loop (length m₃.b + 1) m₃ len len_b₂

-- The choice of `main` between the ways to sort.
pub sort_by_size : (sorted : Bool) → Machine → (argc : ℕ) → Option Machine
unfolding on_a swap_x sort_three sort_more
sort_by_size sorted m argc =
    if argc == 2 && not sorted
    then some (on_a swap_x sa m)
    else if argc == 3 && not sorted
    then sort_three m
    else if ltb 3 argc && not sorted
    then sort_more m argc 0
    else some m

-- `main` from `assign_index` to the last turn, for the stack and the number that `ft_parse` gave.
unfoldable pub sort_stack : List Node → (argc : ℕ) → Option Machine
unfolding assign_index is_sorted sort_by_size adjust_stack
sort_stack stack_a argc = do
  ranked ← assign_index stack_a argc
  let m : Machine = record { a = ranked; b = []; out = [] }
  sorted ← is_sorted ranked
  m' ← sort_by_size sorted m argc
  done ← is_sorted m'.a
  if not done then adjust_stack m' argc else some m'
