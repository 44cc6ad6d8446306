-- ===== src/PushSwap/Operations/Effects.antt =====
-- What each call of operations.c by the sort does to the keys of the stacks, and that it replays.
use model_lib.Common.{◌≡◌, refl, ap, sym, ◌∙◌, List, [], ◌∷◌, Option, some}
use mathlib.Core.List.{append-nil}
use model_lib.Common.Roll.{turn_left, turn_right}
use model_lib.PushSwap.Node.{
  Text, Node, Machine, Key, key, keys, view, ra, rb, rra, rrb, sa, pa, pb,
}
use model_lib.PushSwap.Operations.{
  rotate_x, reverse_rotate_x, swap_x, on_a, on_b, push_a_to_b, push_b_to_a,
}
use model_lib.PushSwap.Operations.Turns.{
  rotate_x-turn_left, reverse_rotate_x-turn_right, map-turn_left, map-turn_right,
}
use model_lib.PushSwap.Operations.Replay.{Instruction, Replays, Replays-still, Replays-one, step}

pub keys-rotate_x :
    (l : List Node) (txt : Option Text) → keys (rotate_x l txt).0 ≡ turn_left (keys l)
keys-rotate_x l txt = ap keys (rotate_x-turn_left l txt) ∙ map-turn_left key l

pub keys-reverse_rotate_x :
    (l : List Node) (txt : Option Text) → keys (reverse_rotate_x l txt).0 ≡ turn_right (keys l)
keys-reverse_rotate_x l txt = ap keys (reverse_rotate_x-turn_right l txt) ∙ map-turn_right key l

abbrev pub machine : List Node → List Node → List Text → Machine
machine a b out = record { a = a; b = b; out = out }

module _ {l l' : List Key} where
  pub view_a : (b : List Node) → l ≡ l' → ◌≡◌ {A = List Key × List Key} (l, keys b) (l', keys b)
  view_a b e = ap (λ (k : List Key). (k, keys b)) e

  pub view_b : (a : List Node) → l ≡ l' → ◌≡◌ {A = List Key × List Key} (keys a, l) (keys a, l')
  view_b a e = ap (λ (k : List Key). (keys a, k)) e

-- `ra`, `rra`, `rb`, `rrb` and `sa`: nothing is written where nothing is turned.
rotate_a_at :
    (a b : List Node) (out : List Text)
    → Replays (machine a b out) (on_a rotate_x ra (machine a b out))
unfolding on_a rotate_x
rotate_a_at [] b out = Replays-still _ _ refl (append-nil out)
rotate_a_at (x ∷ []) b out = Replays-still _ _ refl (append-nil out)
rotate_a_at (x ∷ y ∷ r) b out =
    Replays-one Instruction.rotate_a _ _ (view_a b (sym (keys-rotate_x (x ∷ y ∷ r) (some ra)))) refl

pub rotate_a-Replays : (m : Machine) → Replays m (on_a rotate_x ra m)
rotate_a-Replays m = rotate_a_at m.a m.b m.out

pub view-rotate_a : (m : Machine) → view (on_a rotate_x ra m) ≡ (turn_left (keys m.a), keys m.b)
unfolding on_a
view-rotate_a m = view_a m.b (keys-rotate_x m.a (some ra))

reverse_a_at :
    (a b : List Node) (out : List Text)
    → Replays (machine a b out) (on_a reverse_rotate_x rra (machine a b out))
unfolding on_a reverse_rotate_x
reverse_a_at [] b out = Replays-still _ _ refl (append-nil out)
reverse_a_at (x ∷ []) b out = Replays-still _ _ refl (append-nil out)
reverse_a_at (x ∷ y ∷ r) b out =
    Replays-one Instruction.reverse_a _ _
      (view_a b (sym (keys-reverse_rotate_x (x ∷ y ∷ r) (some rra)))) refl

pub reverse_a-Replays : (m : Machine) → Replays m (on_a reverse_rotate_x rra m)
reverse_a-Replays m = reverse_a_at m.a m.b m.out

pub view-reverse_a :
    (m : Machine) → view (on_a reverse_rotate_x rra m) ≡ (turn_right (keys m.a), keys m.b)
unfolding on_a
view-reverse_a m = view_a m.b (keys-reverse_rotate_x m.a (some rra))

rotate_b_at :
    (a b : List Node) (out : List Text)
    → Replays (machine a b out) (on_b rotate_x rb (machine a b out))
unfolding on_b rotate_x
rotate_b_at a [] out = Replays-still _ _ refl (append-nil out)
rotate_b_at a (x ∷ []) out = Replays-still _ _ refl (append-nil out)
rotate_b_at a (x ∷ y ∷ r) out =
    Replays-one Instruction.rotate_b _ _ (view_b a (sym (keys-rotate_x (x ∷ y ∷ r) (some rb)))) refl

pub rotate_b-Replays : (m : Machine) → Replays m (on_b rotate_x rb m)
rotate_b-Replays m = rotate_b_at m.a m.b m.out

pub view-rotate_b : (m : Machine) → view (on_b rotate_x rb m) ≡ (keys m.a, turn_left (keys m.b))
unfolding on_b
view-rotate_b m = view_b m.a (keys-rotate_x m.b (some rb))

reverse_b_at :
    (a b : List Node) (out : List Text)
    → Replays (machine a b out) (on_b reverse_rotate_x rrb (machine a b out))
unfolding on_b reverse_rotate_x
reverse_b_at a [] out = Replays-still _ _ refl (append-nil out)
reverse_b_at a (x ∷ []) out = Replays-still _ _ refl (append-nil out)
reverse_b_at a (x ∷ y ∷ r) out =
    Replays-one Instruction.reverse_b _ _
      (view_b a (sym (keys-reverse_rotate_x (x ∷ y ∷ r) (some rrb)))) refl

pub reverse_b-Replays : (m : Machine) → Replays m (on_b reverse_rotate_x rrb m)
reverse_b-Replays m = reverse_b_at m.a m.b m.out

pub view-reverse_b :
    (m : Machine) → view (on_b reverse_rotate_x rrb m) ≡ (keys m.a, turn_right (keys m.b))
unfolding on_b
view-reverse_b m = view_b m.a (keys-reverse_rotate_x m.b (some rrb))

swap_a_at :
    (a b : List Node) (out : List Text)
    → Replays (machine a b out) (on_a swap_x sa (machine a b out))
unfolding on_a swap_x
swap_a_at [] b out = Replays-still _ _ refl (append-nil out)
swap_a_at (x ∷ []) b out = Replays-still _ _ refl (append-nil out)
swap_a_at (x ∷ y ∷ r) b out = Replays-one Instruction.swap_a _ _ refl refl

pub swap_a-Replays : (m : Machine) → Replays m (on_a swap_x sa m)
swap_a-Replays m = swap_a_at m.a m.b m.out

-- `pa` and `pb`.
push_a_at :
    (a b : List Node) (out : List Text)
    → Replays (machine a b out) (push_b_to_a pa (machine a b out))
unfolding push_b_to_a
push_a_at a [] out = Replays-still _ _ refl (append-nil out)
push_a_at a (x ∷ r) out = Replays-one Instruction.push_a _ _ refl refl

pub push_a-Replays : (m : Machine) → Replays m (push_b_to_a pa m)
push_a-Replays m = push_a_at m.a m.b m.out

push_b_at :
    (a b : List Node) (out : List Text)
    → Replays (machine a b out) (push_a_to_b pb (machine a b out))
unfolding push_a_to_b
push_b_at [] b out = Replays-still _ _ refl (append-nil out)
push_b_at (x ∷ r) b out = Replays-one Instruction.push_b _ _ refl refl

pub push_b-Replays : (m : Machine) → Replays m (push_a_to_b pb m)
push_b-Replays m = push_b_at m.a m.b m.out

view-push_a_at :
    (a b : List Node) (out : List Text)
    → view (push_b_to_a pa (machine a b out)) ≡ step Instruction.push_a (keys a, keys b)
unfolding push_b_to_a
view-push_a_at a [] out = refl
view-push_a_at a (x ∷ r) out = refl

pub view-push_a : (m : Machine) → view (push_b_to_a pa m) ≡ step Instruction.push_a (view m)
view-push_a m = view-push_a_at m.a m.b m.out

view-push_b_at :
    (a b : List Node) (out : List Text)
    → view (push_a_to_b pb (machine a b out)) ≡ step Instruction.push_b (keys a, keys b)
unfolding push_a_to_b
view-push_b_at [] b out = refl
view-push_b_at (x ∷ r) b out = refl

pub view-push_b : (m : Machine) → view (push_a_to_b pb m) ≡ step Instruction.push_b (view m)
view-push_b m = view-push_b_at m.a m.b m.out

view-swap_a_at :
    (a b : List Node) (out : List Text)
    → view (on_a swap_x sa (machine a b out)) ≡ step Instruction.swap_a (keys a, keys b)
unfolding on_a swap_x
view-swap_a_at [] b out = refl
view-swap_a_at (x ∷ []) b out = refl
view-swap_a_at (x ∷ y ∷ r) b out = refl

pub view-swap_a : (m : Machine) → view (on_a swap_x sa m) ≡ step Instruction.swap_a (view m)
view-swap_a m = view-swap_a_at m.a m.b m.out
