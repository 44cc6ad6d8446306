-- ===== src/PushSwap/Operations.antt =====
-- 42_push_swap/src/operations.c. Each function returns the stacks that it was given by address, as
-- they are after it, and what it wrote.
pub mod Turns
pub mod Replay
pub mod Effects
pub mod Both
pub mod Shuffle
use model_lib.Common.{ℕ, ◌==◌, if◌then◌else◌, ◌++◌, List, [], ◌∷◌, Option, none, some}
use model_lib.PushSwap.Node.{Text, Writes, Node, Machine, written, ss, rr, rrr}

module _ {ℓ} {A : Type ℓ} where
  -- The first node of `from` goes on top of `to`.
  unfoldable pub push_to_x : (from to : List A) → Option Text → List A × List A × Writes
  push_to_x [] to txt = ([], to, [])
  push_to_x (temp_a ∷ temp_b) to txt = (temp_b, temp_a ∷ to, written txt 3)

  unfoldable pub swap_x : List A → Option Text → List A × Writes
  swap_x [] txt = ([], [])
  swap_x (original ∷ []) txt = (original ∷ [], [])
  swap_x (original ∷ temp ∷ rest) txt = (temp ∷ original ∷ rest, written txt 3)

  -- The walk to the last node, behind which `node_that_we_move` is linked.
  link_last : List A → A → List A
  link_last [] node_that_we_move = node_that_we_move ∷ []
  link_last (temp ∷ next) node_that_we_move = temp ∷ link_last next node_that_we_move

  unfoldable pub rotate_x : List A → Option Text → List A × Writes
  unfolding link_last
  rotate_x [] txt = ([], [])
  rotate_x (temp ∷ []) txt = (temp ∷ [], [])
  rotate_x (temp ∷ second ∷ rest) txt = (link_last (second ∷ rest) temp, written txt 3)

  -- The walk to the last node, with the list that is left when the link to it is cut.
  unlink_last : A → List A → A × List A
  unlink_last last_node [] = (last_node, [])
  unlink_last second_to_last (last_node ∷ next) =
      let cut = unlink_last last_node next in (cut.0, second_to_last ∷ cut.1)

  unfoldable pub reverse_rotate_x : List A → Option Text → List A × Writes
  unfolding unlink_last
  reverse_rotate_x [] txt = ([], [])
  reverse_rotate_x (only ∷ []) txt = (only ∷ [], [])
  reverse_rotate_x (first ∷ second ∷ rest) txt =
      let cut = unlink_last first (second ∷ rest) in (cut.0 ∷ cut.1, written txt 4)

-- One operation on both stacks; only the second call writes.
unfoldable pub both : (List Node → Option Text → List Node × Writes) → Text → Machine → Machine
both operation txt m =
    let first = operation m.a none in
    let second = operation m.b (some txt) in
    record { a = first.0; b = second.0; out = m.out ++ first.1 ++ second.1 }

-- 1: ss, 2: rr, 3: rrr.
unfoldable pub multiple_operation : Machine → ℕ → Machine
unfolding both swap_x rotate_x reverse_rotate_x
multiple_operation m op =
    if op == 1
    then both swap_x ss m
    else if op == 2
    then both rotate_x rr m
    else if op == 3
    then both reverse_rotate_x rrr m
    else m

-- A call on the stack `a` alone, and one on the stack `b`.
unfoldable pub on_a : (List Node → Option Text → List Node × Writes) → Text → Machine → Machine
on_a operation txt m = let r = operation m.a (some txt) in record m { a = r.0; out = m.out ++ r.1 }

unfoldable pub on_b : (List Node → Option Text → List Node × Writes) → Text → Machine → Machine
on_b operation txt m = let r = operation m.b (some txt) in record m { b = r.0; out = m.out ++ r.1 }

-- `push_to_x(a, b, "pb\n")` and `push_to_x(b, a, "pa\n")`.
unfoldable pub push_a_to_b : Text → Machine → Machine
unfolding push_to_x
push_a_to_b txt m =
    let r = push_to_x m.a m.b (some txt) in record { a = r.0; b = r.1; out = m.out ++ r.2 }

unfoldable pub push_b_to_a : Text → Machine → Machine
unfolding push_to_x
push_b_to_a txt m =
    let r = push_to_x m.b m.a (some txt) in record { a = r.1; b = r.0; out = m.out ++ r.2 }
