-- ===== src/PushSwap/Operations/Both.antt =====
-- `rr` and `rrr`: they are reported by the call on `b`, so they replay where `b` has two nodes.
use model_lib.Common.{◌≡◌, refl, ap, sym, ◌∙◌, List, [], ◌∷◌, ◌++◌, none, some, ◌≤◌, length, arith}
use mathlib.Core.List.{append-nil}
use model_lib.Common.Roll.{turn_left, turn_right}
use model_lib.PushSwap.Node.{Text, Node, Machine, Key, keys, view, rr, rrr}
use model_lib.PushSwap.Operations.{rotate_x, reverse_rotate_x, both, multiple_operation}
use model_lib.PushSwap.Operations.Replay.{Instruction, Replays, Replays-one}
use model_lib.PushSwap.Operations.Effects.{machine, keys-rotate_x, keys-reverse_rotate_x}

module _ {a a' b b' : List Key} where
  views : a ≡ a' → b ≡ b' → ◌≡◌ {A = List Key × List Key} (a, b) (a', b')
  views e f = λ i. (e i, f i)

-- A call that passes no text writes nothing.
silent_rotate : (l : List Node) → (rotate_x l none).1 ≡ []
unfolding rotate_x
silent_rotate [] = refl
silent_rotate (x ∷ []) = refl
silent_rotate (x ∷ y ∷ r) = refl

silent_reverse : (l : List Node) → (reverse_rotate_x l none).1 ≡ []
unfolding reverse_rotate_x
silent_reverse [] = refl
silent_reverse (x ∷ []) = refl
silent_reverse (x ∷ y ∷ r) = refl

pub view-rotate_both :
    (m : Machine) → view (multiple_operation m 2) ≡ (turn_left (keys m.a), turn_left (keys m.b))
unfolding multiple_operation both
view-rotate_both m = views (keys-rotate_x m.a none) (keys-rotate_x m.b (some rr))

pub view-reverse_both :
    (m : Machine) → view (multiple_operation m 3) ≡ (turn_right (keys m.a), turn_right (keys m.b))
unfolding multiple_operation both
view-reverse_both m = views (keys-reverse_rotate_x m.a none) (keys-reverse_rotate_x m.b (some rrr))

rotate_both_at :
    (a b : List Node) (out : List Text)
    → 2 ≤ length b
    → Replays (machine a b out) (multiple_operation (machine a b out) 2)
unfolding multiple_operation both rotate_x
rotate_both_at a [] out h = absurd (omega arith)
rotate_both_at a (x ∷ []) out h = absurd (omega arith)
rotate_both_at a (x ∷ y ∷ r) out h =
    Replays-one Instruction.rotate_both _ _ (sym (view-rotate_both (machine a (x ∷ y ∷ r) out))) (
      ap (λ (w : List Text). out ++ w ++ rr ∷ []) (silent_rotate a)
      ∙ ap (λ (o : List Text). o ++ rr ∷ []) (append-nil out))

pub rotate_both-Replays : (m : Machine) → 2 ≤ length m.b → Replays m (multiple_operation m 2)
rotate_both-Replays m h = rotate_both_at m.a m.b m.out h

reverse_both_at :
    (a b : List Node) (out : List Text)
    → 2 ≤ length b
    → Replays (machine a b out) (multiple_operation (machine a b out) 3)
unfolding multiple_operation both reverse_rotate_x
reverse_both_at a [] out h = absurd (omega arith)
reverse_both_at a (x ∷ []) out h = absurd (omega arith)
reverse_both_at a (x ∷ y ∷ r) out h =
    Replays-one Instruction.reverse_both _ _ (sym (view-reverse_both (machine a (x ∷ y ∷ r) out))) (
      ap (λ (w : List Text). out ++ w ++ rrr ∷ []) (silent_reverse a)
      ∙ ap (λ (o : List Text). o ++ rrr ∷ []) (append-nil out))

pub reverse_both-Replays : (m : Machine) → 2 ≤ length m.b → Replays m (multiple_operation m 3)
reverse_both-Replays m h = reverse_both_at m.a m.b m.out h
