-- ===== src/PushSwap/Sort/Three.antt =====
-- `sort_three` on three nodes that are not in order.
use model_lib.Common.{◌<◌, ◌≡◌, ap, sym, subst, ◌∙◌, inl, inr, List, [], ◌∷◌, arith, length, some}
use model_lib.PushSwap.Node.{Node, Machine, Text, Key, keys, view, ra, rra, sa}
use model_lib.PushSwap.Cyclic.{IsAscending}
use model_lib.PushSwap.Operations.{rotate_x, reverse_rotate_x, swap_x, on_a}
use model_lib.PushSwap.Operations.Replay.{Replays, Replays-trans, Instruction, step}
use model_lib.PushSwap.Operations.Effects.{
  rotate_a-Replays, reverse_a-Replays, swap_a-Replays, view-rotate_a, view-reverse_a, view-swap_a,
}
use model_lib.PushSwap.Sort.Order.{IsOrdered}
use model_lib.PushSwap.Sort.{sort_three}

-- The result: ascending, by instructions, the stack `b` as it was.
pub record Sorts (m m' : Machine) : Type 0 where
  pub replays : Replays m m'
  pub ascending : IsAscending (keys m'.a)
  pub same_b : keys m'.b ≡ keys m.b

module _ (x y z : Node) (b : List Node) (out : List Text) where
  abbrev three : Machine
  three = record { a = x ∷ y ∷ z ∷ []; b = b; out = out }

  case_312 :
      y.index < z.index → z.index < x.index → sort_three three ≡ some (on_a rotate_x ra three)
  unfolding sort_three on_a rotate_x
  case_312 p q = ground arith

  case_321 :
      z.index < y.index
      → y.index < x.index
      → sort_three three ≡ some (on_a swap_x sa (on_a rotate_x ra three))
  unfolding sort_three on_a rotate_x swap_x
  case_321 p q = ground arith

  case_231 :
      x.index < y.index
      → z.index < x.index
      → sort_three three ≡ some (on_a reverse_rotate_x rra three)
  unfolding sort_three on_a reverse_rotate_x rotate_x
  case_231 p q = ground arith

  case_132 :
      x.index < z.index
      → z.index < y.index
      → sort_three three ≡ some (on_a swap_x sa (on_a reverse_rotate_x rra three))
  unfolding sort_three on_a reverse_rotate_x swap_x rotate_x
  case_132 p q = ground arith

  case_213 : y.index < x.index → x.index < z.index → sort_three three ≡ some (on_a swap_x sa three)
  unfolding sort_three on_a swap_x rotate_x
  case_213 p q = ground arith

  -- The result of a case, from its keys.
  sorts :
      (m' : Machine) {k : List Key}
      → Replays three m'
      → view m' ≡ (k, keys b)
      → IsAscending k
      → Sorts three m'
  sorts m' r v h = record {
    replays = r;
    ascending = subst (λ (s : List Key × List Key). IsAscending s.0) (sym v) h;
    same_b = ap (λ (s : List Key × List Key). s.1) v;
  }

  abbrev Sorted : Type 0
  Sorted = (m' : Machine) × (sort_three three ≡ some m') × Sorts three m'

  sorted_312 : y.index < z.index → z.index < x.index → Sorted
  sorted_312 p q = (
    on_a rotate_x ra three,
    case_312 p q,
    sorts _ (rotate_a-Replays three) (view-rotate_a three) (omega arith),
  )

  sorted_321 : z.index < y.index → y.index < x.index → Sorted
  sorted_321 p q =
      let m = on_a rotate_x ra three in
      (
        on_a swap_x sa m,
        case_321 p q,
        sorts _ (Replays-trans (rotate_a-Replays three) (swap_a-Replays m))
            (view-swap_a m ∙ ap (step Instruction.swap_a) (view-rotate_a three)) (omega arith),
      )

  sorted_231 : x.index < y.index → z.index < x.index → Sorted
  sorted_231 p q = (
    on_a reverse_rotate_x rra three,
    case_231 p q,
    sorts _ (reverse_a-Replays three) (view-reverse_a three) (omega arith),
  )

  sorted_132 : x.index < z.index → z.index < y.index → Sorted
  sorted_132 p q =
      let m = on_a reverse_rotate_x rra three in
      (
        on_a swap_x sa m,
        case_132 p q,
        sorts _ (Replays-trans (reverse_a-Replays three) (swap_a-Replays m))
            (view-swap_a m ∙ ap (step Instruction.swap_a) (view-reverse_a three)) (omega arith),
      )

  sorted_213 : y.index < x.index → x.index < z.index → Sorted
  sorted_213 p q = (
    on_a swap_x sa three,
    case_213 p q,
    sorts _ (swap_a-Replays three) (view-swap_a three) (omega arith),
  )

  sort_three_at : IsOrdered (keys three.a) → ¬ IsAscending (keys three.a) → Sorted
  sort_three_at ((xy, (xz, _)), ((yz, _), _)) h = elim xy [
    | inl (p, _) ↦ elim xz [
      | inl (q, _) ↦ elim yz [ inl (r, _) ↦ absurd (h (omega arith)) | inr (r, _) ↦ sorted_132 q r ]
      | inr (q, _) ↦ sorted_231 p q
    ]
    | inr (p, _) ↦ elim xz [
      | inl (q, _) ↦ sorted_213 p q
      | inr (q, _) ↦ elim yz [ inl (r, _) ↦ sorted_312 r q | inr (r, _) ↦ sorted_321 r p ]
    ]
  ]

-- Three nodes that are not in order are put in order, and nothing faults.
pub sort_three-Sorts :
    (m : Machine)
    → length m.a ≡ 3
    → IsOrdered (keys m.a)
    → ¬ IsAscending (keys m.a)
    → (m' : Machine) × (sort_three m ≡ some m') × Sorts m m'
sort_three-Sorts m e = of_list m.a e
  where
    of_list :
        (l : List Node)
        → length l ≡ 3
        → IsOrdered (keys l)
        → ¬ IsAscending (keys l)
        → let m₁ : Machine = record { a = l; b = m.b; out = m.out } in
          (m' : Machine) × (sort_three m₁ ≡ some m') × Sorts m₁ m'
    of_list [] e o h = absurd (omega arith)
    of_list (x ∷ []) e o h = absurd (omega arith)
    of_list (x ∷ y ∷ []) e o h = absurd (omega arith)
    of_list (x ∷ y ∷ z ∷ []) e o h = sort_three_at x y z m.b m.out o h
    of_list (x ∷ y ∷ z ∷ w ∷ r) e o h = absurd (omega arith)
