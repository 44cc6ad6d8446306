-- ===== src/PushSwap/Sort/Whole.antt =====
-- `main` from the parsed stack on: the program sorts, and what it writes is a way to sort.
use model_lib.Common.{
  ℕ, ◌≤◌, ◌<◌, ◌≢◌, ◌≡◌, refl, ap, sym, subst, ◌∙◌, inl, inr, List, [], arith, length, length-map,
  some, Bool, true, false, not, if◌then◌else◌, map, All, All-imp, All-map, All-append_left,
  AllPairs,
}
use mathlib.Core.List.{append-nil, Perm}
use model_lib.Common.Int.{ℤ, ◌<ℤ◌}
use model_lib.PushSwap.Node.{Node, Machine, Key, key, keys, view}
use model_lib.PushSwap.Cyclic.{IsAscending}
use model_lib.PushSwap.Operations.Replay.{Instruction, text, run, Replays, Replays-trans}
use model_lib.PushSwap.Operations.Shuffle.{length-total}
use model_lib.PushSwap.Position.{int_max}
use model_lib.PushSwap.Adjust.{adjust_stack}
use model_lib.PushSwap.Adjust.Last.{adjust_stack_lem}
use model_lib.PushSwap.Sort.{is_sorted, assign_index, sort_by_size, sort_stack}
use model_lib.PushSwap.Sort.Order.{
  IsOrdered, is_sorted-IsAscending, is_sorted-cases, IsAscending-numbers,
}
use model_lib.PushSwap.Sort.Ranks.{numbers, IsFresh, assign_index_lem}
use model_lib.PushSwap.Sort.Merge.{IsMerged}
use model_lib.PushSwap.Sort.More.{AreRanked, AreRanked-Replays, IsOrdered-a}
use model_lib.PushSwap.Sort.Numbers.{mapped, map-run, numbers_of_keys, run-same}
use model_lib.PushSwap.Sort.Choice.{sort_by_size_lem, keys_empty, no_nodes}

-- The last check of `main`, and the last turn.
ends :
    (m m₁ : Machine) (n : ℕ)
    → n ≡ length m.a
    → m.b ≡ []
    → AreRanked m
    → IsMerged m m₁
    → (done : Bool) × (m' : Machine) × (is_sorted m₁.a ≡ some done)
      × ((if not done then adjust_stack m₁ n else some m₁) ≡ some m')
      × Replays m m'
      × IsAscending (keys m'.a)
      × (m'.b ≡ [])
ends m m₁ n size empty r g =
    let r₁ = AreRanked-Replays r g.replays in
    elim (is_sorted-cases m₁.a g.nonempty) [
      | inl t ↦ (
        true,
        m₁,
        t,
        refl,
        g.replays,
        is_sorted-IsAscending m₁.a (IsOrdered-a {m = m₁} r₁) t,
        g.empty,
      )
      | inr t ↦
          let size₁ : n ≡ length m₁.a =
            omega (arith, length-total g.replays, ap length empty, ap length g.empty) in
          let (m', e, p, asc, same) =
            adjust_stack_lem m₁ n size₁ g.nonempty
              (All-append_left _ (keys m₁.a) (keys m₁.b) r₁.bounded) g.cyclic in
          (false, m', t, e, Replays-trans g.replays p, asc, keys_empty m'.b m₁.b same g.empty)
    ]

sort_stack-run :
    (l ranked : List Node) (n : ℕ) (sorted done : Bool) (m₁ m' : Machine)
    → assign_index l n ≡ some ranked
    → is_sorted ranked ≡ some sorted
    → sort_by_size sorted (record { a = ranked; b = []; out = [] }) n ≡ some m₁
    → is_sorted m₁.a ≡ some done
    → (if not done then adjust_stack m₁ n else some m₁) ≡ some m'
    → sort_stack l n ≡ some m'
unfolding sort_stack
sort_stack-run l ranked n sorted done m₁ m' e₁ e₂ e₃ e₄ e₅ = rw (e₁, e₂, e₃, e₄) e₅

-- The numbers end in `a`, ascending, and the writes are instructions that take the numbers there.
pub record SortsNumbers (l : List Node) (m' : Machine) : Type 0 where
  pub moves : List Instruction
  pub printed : m'.out ≡ map text moves
  pub played : run moves (numbers l, []) ≡ (numbers m'.a, [])
  pub ascending : AllPairs ◌<ℤ◌ (numbers m'.a)
  pub same : Perm (numbers l) (numbers m'.a)
  pub empty : m'.b ≡ []

start_ranked :
    (l : List Node) (n : ℕ)
    → n < int_max
    → All (λ (y : Node). y.index ≤ n) l
    → IsOrdered (keys l)
    → AreRanked (record { a = l; b = []; out = [] })
start_ranked l n few bounded o = record {
  bounded =
      subst (All (λ (x : Key). x.0 < int_max)) (sym (append-nil (keys l)))
        (All-map (λ (x : Key). x.0 < int_max) key l (All-imp (λ y h. omega arith) l bounded));
  ordered = subst IsOrdered (sym (append-nil (keys l))) o;
}

-- From ranks to numbers.
of_ranks :
    (l ranked : List Node) (m' : Machine)
    → numbers ranked ≡ numbers l
    → IsOrdered (keys m'.a)
    → Replays (record { a = ranked; b = []; out = [] }) m'
    → IsAscending (keys m'.a)
    → m'.b ≡ []
    → SortsNumbers l m'
of_ranks l ranked m' same o' p asc empty =
    let second : Key → ℤ = λ k. k.1 in
    let start : Machine = record { a = ranked; b = []; out = [] } in
    let played : run p.moves (numbers l, []) ≡ (numbers m'.a, []) =
      ap (λ (z : List ℤ). run p.moves (z, [])) (sym (numbers_of_keys ranked ∙ same))
      ∙ sym (map-run second p.moves (view start))
      ∙ ap (mapped second) p.reached
      ∙ (λ k. (numbers_of_keys m'.a k, map second (keys (empty k)))) in
    record {
      moves = p.moves;
      printed = p.printed;
      played = played;
      same = run-same p.moves (numbers l) (numbers m'.a) played;
      ascending = IsAscending-numbers m'.a o' asc;
      empty = empty;
    }

-- A stack that is not empty, of fewer than INT_MAX different numbers, given with its size, is
-- sorted; the loops end, and nothing faults.
pub sort_stack-SortsNumbers :
    (l : List Node)
    → l ≢ []
    → length l < int_max
    → IsFresh l
    → (m' : Machine) × (sort_stack l (length l) ≡ some m') × SortsNumbers l m'
sort_stack-SortsNumbers l full few f = from_ranks (assign_index_lem l (length l) refl f)
  where
    from_ranks :
        (h : (ranked : List Node) × (assign_index l (length l) ≡ some ranked)
          × (numbers ranked ≡ numbers l)
          × All (λ (y : Node). y.index ≤ length l) ranked
          × IsOrdered (keys ranked))
        → (m' : Machine) × (sort_stack l (length l) ≡ some m') × SortsNumbers l m'
    from_ranks (ranked, e₁, same, bounded, o) =
        let size : length ranked ≡ length l = omega (
          arith,
          ap length same,
          length-map ranked (λ (n : Node). n.number),
          length-map l (λ (n : Node). n.number),
        ) in
        let start : Machine = record { a = ranked; b = []; out = [] } in
        let r = start_ranked ranked (length l) few bounded o in
        let full' : ranked ≢ [] = λ e. full (no_nodes l (omega (arith, ap length e))) in
        let (sorted, m₁, e₂, e₃, g) = sort_by_size_lem ranked [] full' r (omega arith) in
        let (done, m', e₄, e₅, p, asc, empty) = ends start m₁ (length l) (sym size) refl r g in
        (
          m',
          sort_stack-run l ranked (length l) sorted done m₁ m' e₁ e₂
              (subst (λ n. sort_by_size sorted start n ≡ some m₁) size e₃) e₄ e₅,
          of_ranks l ranked m' same (IsOrdered-a {m = m'} (AreRanked-Replays r p)) p asc empty,
        )
