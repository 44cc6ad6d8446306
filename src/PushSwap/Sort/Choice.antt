-- ===== src/PushSwap/Sort/Choice.antt =====
-- The choice of `main` by the number of nodes: each way ends with a round in `a`.
use model_lib.Common.{
  ℕ, ◌<◌, ◌≢◌, ◌≡◌, refl, ap, sym, subst, ◌∙◌, inl, inr, List, [], ◌∷◌, arith, length, some, Bool,
  true, false,
}
use model_lib.PushSwap.Node.{Node, Machine, Key, keys, Text, sa}
use model_lib.PushSwap.Cyclic.{IsAscending, IsAscending-IsCyclic}
use model_lib.PushSwap.Operations.{swap_x, on_a}
use model_lib.PushSwap.Operations.Replay.{Replays, Replays-refl}
use model_lib.PushSwap.Operations.Effects.{swap_a-Replays, view-swap_a}
use model_lib.PushSwap.Operations.Shuffle.{length-total}
use model_lib.PushSwap.Position.{int_max}
use model_lib.PushSwap.Sort.{is_sorted, sort_three, sort_more, sort_by_size}
use model_lib.PushSwap.Sort.Order.{
  IsOrdered, is_sorted-IsAscending, IsAscending-is_sorted, is_sorted-cases,
}
use model_lib.PushSwap.Sort.Three.{sort_three-Sorts}
use model_lib.PushSwap.Sort.Merge.{IsMerged}
use model_lib.PushSwap.Sort.More.{AreRanked, IsOrdered-a, sort_more_lem}

by_size_sorted : (m : Machine) (n : ℕ) → sort_by_size true m n ≡ some m
unfolding sort_by_size
by_size_sorted m n = ground arith

by_size_two : (m : Machine) (n : ℕ) → n ≡ 2 → sort_by_size false m n ≡ some (on_a swap_x sa m)
unfolding sort_by_size
by_size_two m n e = ground arith

by_size_three : (m : Machine) (n : ℕ) → n ≡ 3 → sort_by_size false m n ≡ sort_three m
unfolding sort_by_size
by_size_three m n e = ground arith

by_size_more : (m : Machine) (n : ℕ) → 3 < n → sort_by_size false m n ≡ sort_more m n 0
unfolding sort_by_size
by_size_more m n h = ground arith

pub keys_empty : (l l' : List Node) → keys l ≡ keys l' → l' ≡ [] → l ≡ []
keys_empty [] l' e h = refl
keys_empty (x ∷ l) [] e h = cc
keys_empty (x ∷ l) (y ∷ l') e h = cc

pub no_nodes : (l : List Node) → length l ≡ 0 → l ≡ []
no_nodes [] h = refl
no_nodes (x ∷ l) h = absurd (omega arith)

ascending_end :
    {m m' : Machine}
    → Replays m m'
    → IsAscending (keys m'.a)
    → keys m'.b ≡ keys m.b
    → m.a ≢ []
    → m.b ≡ []
    → IsMerged m m'
ascending_end {m} {m'} p asc same full empty =
    let none_left = keys_empty m'.b m.b same empty in
    record {
      replays = p;
      cyclic = IsAscending-IsCyclic (keys m'.a) asc;
      empty = none_left;
      nonempty = λ e.
          full (no_nodes m.a (omega (arith, length-total p, ap length e, ap length none_left)));
    }

two_sorted :
    (x y : Node) (out : List Text)
    → let m : Machine = record { a = x ∷ y ∷ []; b = []; out = out } in
      IsOrdered (keys m.a) → ¬ IsAscending (keys m.a) → IsMerged m (on_a swap_x sa m)
two_sorted x y out o h =
    let m : Machine = record { a = x ∷ y ∷ []; b = []; out = out } in
    let v = view-swap_a m in
    let below : y.index < x.index = elim o.0.0 [
      | inl (p, _) ↦ absurd (h (omega arith))
      | inr (p, _) ↦ p
    ] in
    ascending_end (swap_a-Replays m)
      (subst (λ (s : List Key × List Key). IsAscending s.0) (sym v) (omega arith))
      (ap (λ (s : List Key × List Key). s.1) v) (λ e. cc) refl

-- A stack that is not sorted, by its size.
unsorted :
    (l : List Node) (out : List Text)
    → let m : Machine = record { a = l; b = []; out = out } in
      AreRanked m
      → length l < int_max
      → ¬ IsAscending (keys l)
      → (m' : Machine) × (sort_by_size false m (length l) ≡ some m') × IsMerged m m'
unsorted [] out r few h = absurd (h tt)
unsorted (x ∷ []) out r few h = absurd (h (tt, tt))
unsorted (x ∷ y ∷ []) out r few h = (_, by_size_two _ _ refl, two_sorted x y out (IsOrdered-a r) h)
unsorted (x ∷ y ∷ z ∷ []) out r few h =
    let m : Machine = record { a = x ∷ y ∷ z ∷ []; b = []; out = out } in
    let (m', e, s) = sort_three-Sorts m refl (IsOrdered-a r) h in
    (m', by_size_three m _ refl ∙ e, ascending_end s.replays s.ascending s.same_b (λ p. cc) refl)
unsorted (x ∷ y ∷ z ∷ w ∷ l) out r few h =
    let m : Machine = record { a = x ∷ y ∷ z ∷ w ∷ l; b = []; out = out } in
    let many : 3 < length (x ∷ y ∷ z ∷ w ∷ l) = omega arith in
    let (m', e, g) = sort_more_lem m _ many few refl refl r in (m', by_size_more m _ many ∙ e, g)

-- Whatever `is_sorted` found, `main` chooses a way that ends with a round in `a`.
pub sort_by_size_lem :
    (l : List Node) (out : List Text)
    → let m : Machine = record { a = l; b = []; out = out } in
      l ≢ []
      → AreRanked m
      → length l < int_max
      → (sorted : Bool) × (m' : Machine) × (is_sorted l ≡ some sorted)
        × (sort_by_size sorted m (length l) ≡ some m')
        × IsMerged m m'
sort_by_size_lem l out full r few =
    let m : Machine = record { a = l; b = []; out = out } in
    let o = IsOrdered-a {m = m} r in
    elim (is_sorted-cases l full) [
      | inl t ↦ (
        true,
        m,
        t,
        by_size_sorted m (length l),
        ascending_end (Replays-refl m) (is_sorted-IsAscending l o t) refl full refl,
      )
      | inr t ↦
          let (m', e, g) =
            unsorted l out r few (λ asc. cc (t, IsAscending-is_sorted l full o asc)) in
          (false, m', t, e, g)
    ]
