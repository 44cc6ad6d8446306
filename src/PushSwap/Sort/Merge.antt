-- ===== src/PushSwap/Sort/Merge.antt =====
-- The last loop of `sort_more`: every node of `b` goes back to a place of `a` where it fits.
use model_lib.Common.{
  ℕ, zero, suc, ◌+◌, ◌-◌, ◌<◌, ◌≢◌, ◌≡◌, refl, ap, sym, subst, ◌∙◌, inl, inr, List, [], ◌∷◌, ◌++◌,
  arith, List-cases, ◌>>=◌, length, length-map, some, All, AllPairs, All-imp, All-append_left,
  All-perm, AllPairs-perm, AllPairs-across, All-swap,
}
use mathlib.Core.List.{Permᴰ}
use model_lib.PushSwap.Node.{Node, Machine, Key, key, keys, view}
use model_lib.PushSwap.Cyclic.{IsCyclic}
use model_lib.PushSwap.Operations.Replay.{Replays, Replays-refl, Replays-still, Replays-trans}
use model_lib.PushSwap.Operations.Shuffle.{Replays-perm}
use model_lib.PushSwap.Position.{int_max, target, cost}
use model_lib.PushSwap.Position.Places.{HasPlaces, length-eq_of_keys}
use model_lib.PushSwap.Position.Target.{
  HasTargets, AreApart, view-target, target-HasPlaces, target-HasTargets, nonempty_of_keys,
}
use model_lib.PushSwap.Position.Cost.{IsPriced, keys-cost, cost-HasPlaces, cost-IsPriced}
use model_lib.PushSwap.Adjust.Effective.{
  do_cost_effective_lem, IsCheapest-KeepsRound, KeepsRound, total_cost,
}
use model_lib.PushSwap.Sort.{merge_round, merge_loop}

-- The ranks are different numbers below INT_MAX.
pub record AreRanks (l : List Key) : Type 0 where
  pub bounded : All (λ (x : Key). x.0 < int_max) l
  pub distinct : AllPairs (λ (x y : Key). x.0 ≢ y.0) l

pub AreRanks-perm : {l l' : List Key} → Permᴰ l l' → AreRanks l → AreRanks l'
AreRanks-perm p r = record {
  bounded = All-perm _ p r.bounded;
  distinct = AllPairs-perm _ (λ x y h e. h (sym e)) p r.distinct;
}

-- Two stacks of different ranks, `a` first in the list.
AreRanks-AreApart : (a b : List Key) → AreRanks (a ++ b) → AreApart a b
AreRanks-AreApart a b r = (
  All-append_left _ a b r.bounded,
  All-swap (λ (x y : Key). x.0 ≢ y.0) a b (AllPairs-across _ a b r.distinct),
)

-- The state between two rounds: `len_b` counts the nodes of `b`, and `a` is ascending all round.
pub record IsMerging (len : ℕ) (m : Machine) (len_b : ℕ) : Type 0 where
  pub size_b : len_b ≡ length m.b
  pub size : len ≡ length m.a + length m.b
  pub small : len < int_max
  pub ranks : AreRanks (keys m.a ++ keys m.b)
  pub cyclic : IsCyclic (keys m.a)
  pub nonempty : m.a ≢ []

-- The machine at the end of the preparation of a round.
abbrev prepared : Machine → (len len_b : ℕ) → Machine
prepared m len len_b = record m {
  a = (target m.a m.b).0;
  b = cost (target m.a m.b).1 (len - len_b) len_b;
}

view-prepared : (m : Machine) (len len_b : ℕ) → view m ≡ view (prepared m len len_b)
view-prepared m len len_b =
    let (ea, eb) = view-target m.a m.b in
    λ i. (sym ea i, sym (keys-cost (target m.a m.b).1 (len - len_b) len_b ∙ eb) i)

module _ {len : ℕ} {m : Machine} {len_b : ℕ} (s : IsMerging len m len_b) where
  keys_a : keys (prepared m len len_b).a ≡ keys m.a
  keys_a = (view-target m.a m.b).0

  keys_b : keys (prepared m len len_b).b ≡ keys m.b
  keys_b = keys-cost (target m.a m.b).1 (len - len_b) len_b ∙ (view-target m.a m.b).1

  prepared-HasPlaces : HasPlaces 0 (prepared m len len_b).b
  prepared-HasPlaces =
      cost-HasPlaces 0 (target m.a m.b).1 (len - len_b) len_b (target-HasPlaces m.a m.b)

  prepared-HasTargets : HasTargets (target m.a m.b).0 (target m.a m.b).1
  prepared-HasTargets =
      target-HasTargets m.a m.b s.nonempty (AreRanks-AreApart (keys m.a) (keys m.b) s.ranks)

  size_of_a : len - len_b ≡ length (keys (prepared m len len_b).a)
  size_of_a = omega (arith, length-map m.a key, ap length keys_a, s.size, s.size_b)

  size_of_b : len_b ≡ length (keys (prepared m len len_b).b)
  size_of_b = omega (arith, length-map m.b key, ap length keys_b, s.size_b)

  prepared-IsPriced :
      All
        (IsPriced (keys (prepared m len len_b).a) (keys (prepared m len len_b).b))
        (prepared m len len_b).b
  prepared-IsPriced =
      let ta = (target m.a m.b).0 in
      let tb = (target m.a m.b).1 in
      let kb = keys (prepared m len len_b).b in
      subst (λ k. All (IsPriced (keys ta) kb) (cost tb k len_b)) (sym size_of_a)
        (subst (λ k. All (IsPriced (keys ta) kb) (cost tb (length (keys ta)) k)) (sym size_of_b)
          (cost-IsPriced ta kb 0 tb (target-HasPlaces m.a m.b)
            (omega (arith, length-map tb key, ap length (keys-cost tb (len - len_b) len_b)))
            prepared-HasTargets))

  prepared-cheap : All (λ n. total_cost n < int_max) (prepared m len len_b).b
  prepared-cheap =
      All-imp
        (λ n p.
          omega (arith, p.bound_a, p.bound_b, size_of_a, size_of_b, s.size, s.size_b, s.small))
        (prepared m len len_b).b prepared-IsPriced

  -- A round places one node of `b`.
  merge_round_lem :
      m.b ≢ [] → (m' : Machine) × (merge_round m len len_b ≡ some m') × KeepsRound m m'
  unfolding merge_round
  merge_round_lem full =
      let p = prepared m len len_b in
      let (m', e, cheapest) =
        do_cost_effective_lem p (nonempty_of_keys m.b p.b (sym keys_b) full) prepared-cheap in
      let k =
        IsCheapest-KeepsRound p m' prepared-HasPlaces prepared-IsPriced
          (subst IsCyclic (sym keys_a) s.cyclic) cheapest in
      (
        m',
        e,
        record {
          replays = Replays-trans (Replays-still m p (view-prepared m len len_b) refl) k.replays;
          cyclic = k.cyclic;
          size_a = omega (arith, k.size_a, length-eq_of_keys p.a m.a keys_a);
          size_b = omega (arith, k.size_b, length-eq_of_keys p.b m.b keys_b);
        },
      )

next-IsMerging :
    {len : ℕ} {m m' : Machine} {len_b : ℕ}
    → IsMerging len m len_b
    → KeepsRound m m'
    → IsMerging len m' (len_b - 1)
next-IsMerging s k = record {
  size_b = omega (arith, s.size_b, k.size_b);
  size = omega (arith, s.size, k.size_a, k.size_b);
  small = s.small;
  ranks = AreRanks-perm (Replays-perm k.replays) s.ranks;
  cyclic = k.cyclic;
  nonempty = λ e. omega (arith, k.size_a, ap length e);
}

merge_loop-done :
    (fuel : ℕ) (m : Machine) (len len_b : ℕ) → m.b ≡ [] → merge_loop (suc fuel) m len len_b ≡ some m
unfolding merge_loop
merge_loop-done fuel m len len_b e = λ i. elim (e i) [
  | [] ↦ some m
  | _ ∷ _ ↦ merge_round m len len_b >>= λ m'. merge_loop fuel m' len (len_b - 1)
]

merge_loop-round :
    (fuel : ℕ) (m : Machine) (len len_b : ℕ) {x : Node} {r : List Node}
    → m.b ≡ x ∷ r
    → merge_loop (suc fuel) m len len_b
      ≡ (merge_round m len len_b >>= λ m'. merge_loop fuel m' len (len_b - 1))
unfolding merge_loop
merge_loop-round fuel m len len_b e = λ i. elim (e i) [
  | [] ↦ some m
  | _ ∷ _ ↦ merge_round m len len_b >>= λ m'. merge_loop fuel m' len (len_b - 1)
]

-- The end of the loop: all nodes are in `a`, which is ascending all round.
pub record IsMerged (m m' : Machine) : Type 0 where
  pub replays : Replays m m'
  pub cyclic : IsCyclic (keys m'.a)
  pub empty : m'.b ≡ []
  pub nonempty : m'.a ≢ []

pub merge_loop_lem :
    (fuel : ℕ) (m : Machine) (len len_b : ℕ)
    → length m.b < fuel
    → IsMerging len m len_b
    → (m' : Machine) × (merge_loop fuel m len len_b ≡ some m') × IsMerged m m'
merge_loop_lem zero m len len_b h s = absurd (omega arith)
merge_loop_lem (suc fuel) m len len_b h s = elim (List-cases m.b) [
  | inl e ↦ (
    m,
    merge_loop-done fuel m len len_b e,
    record { replays = Replays-refl m; cyclic = s.cyclic; empty = e; nonempty = s.nonempty },
  )
  | inr (x, r, e) ↦
      let full : m.b ≢ [] = λ p. cc in
      let (m', done, k) = merge_round_lem s full in
      let (m'', rest, g) =
        merge_loop_lem fuel m' len (len_b - 1) (omega (arith, k.size_b)) (next-IsMerging s k) in
      (
        m'',
        merge_loop-round fuel m len len_b e
            ∙ ap (λ o. o >>= λ m'. merge_loop fuel m' len (len_b - 1)) done
            ∙ rest,
        record {
          replays = Replays-trans k.replays g.replays;
          cyclic = g.cyclic;
          empty = g.empty;
          nonempty = g.nonempty;
        },
      )
]
