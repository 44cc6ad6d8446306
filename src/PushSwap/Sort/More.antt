-- ===== src/PushSwap/Sort/More.antt =====
-- `sort_more`: split, sort three, merge.
use model_lib.Common.{
  ℕ, ◌+◌, ◌-◌, ◌≤◌, ◌<◌, ◌≢◌, ◌≡◌, refl, ap, sym, [], ◌++◌, arith, length, some, inl, inr, true,
  false, Bool, All, All-perm, if◌then◌else◌, AllPairs-append_left, AllPairs-imp,
}
use model_lib.PushSwap.Node.{Machine, Key, keys}
use model_lib.PushSwap.Cyclic.{IsAscending-IsCyclic}
use model_lib.PushSwap.Operations.Replay.{Replays, Replays-refl, Replays-trans}
use model_lib.PushSwap.Operations.Shuffle.{Replays-perm, length-total}
use model_lib.PushSwap.Position.{int_max}
use model_lib.PushSwap.Position.Places.{length-eq_of_keys}
use model_lib.PushSwap.Sort.{
  is_sorted, sort_three, sort_more, halve_loop, leave_three_loop, merge_loop,
}
use model_lib.PushSwap.Sort.Order.{
  Agrees, IsOrdered, IsOrdered-perm, is_sorted-cases, is_sorted-IsAscending, IsAscending-is_sorted,
}
use model_lib.PushSwap.Sort.Three.{Sorts, sort_three-Sorts}
use model_lib.PushSwap.Sort.Split.{IsSplit, halve_loop_lem, leave_three_loop_lem}
use model_lib.PushSwap.Sort.Merge.{AreRanks, IsMerging, IsMerged, merge_loop_lem}

-- The keys of both stacks: ranks below INT_MAX in the order of the numbers.
pub record AreRanked (m : Machine) : Type 0 where
  pub bounded : All (λ (x : Key). x.0 < int_max) (keys m.a ++ keys m.b)
  pub ordered : IsOrdered (keys m.a ++ keys m.b)

pub AreRanked-AreRanks : {m : Machine} → AreRanked m → AreRanks (keys m.a ++ keys m.b)
AreRanked-AreRanks {m} r = record {
  bounded = r.bounded;
  distinct = AllPairs-imp (λ x y a e. omega arith) (keys m.a ++ keys m.b) r.ordered;
}

pub AreRanked-Replays : {m m' : Machine} → AreRanked m → Replays m m' → AreRanked m'
AreRanked-Replays r p = record {
  bounded = All-perm _ (Replays-perm p) r.bounded;
  ordered = IsOrdered-perm (Replays-perm p) r.ordered;
}

pub IsOrdered-a : {m : Machine} → AreRanked m → IsOrdered (keys m.a)
IsOrdered-a {m} r = AllPairs-append_left Agrees (keys m.a) (keys m.b) r.ordered

-- The check and, if need be, the sort of three.
three_sorted :
    (m : Machine)
    → length m.a ≡ 3
    → AreRanked m
    → (sorted : Bool) × (m' : Machine) × (is_sorted m.a ≡ some sorted)
      × ((if sorted then some m else sort_three m) ≡ some m')
      × Sorts m m'
three_sorted m e r =
    let full : m.a ≢ [] = λ p. omega (arith, ap length p) in
    elim (is_sorted-cases m.a full) [
      | inl t ↦ (
        true,
        m,
        t,
        refl,
        record {
          replays = Replays-refl m;
          ascending = is_sorted-IsAscending m.a (IsOrdered-a r) t;
          same_b = refl;
        },
      )
      | inr t ↦
          let (m', done, s) =
            sort_three-Sorts m e (IsOrdered-a r)
              (λ asc. cc (t, IsAscending-is_sorted m.a full (IsOrdered-a r) asc)) in
          (false, m', t, done, s)
    ]

-- The stages of `sort_more` in a row.
sort_more-run :
    (m m₁ m₃ m' : Machine) (len len_b₁ : ℕ) (sorted : Bool)
    → halve_loop len m len 0 ≡ some (m₁, len_b₁)
    → is_sorted (leave_three_loop (len - 3 - len_b₁) m₁).a ≡ some sorted
    → (if sorted
        then some (leave_three_loop (len - 3 - len_b₁) m₁)
        else sort_three (leave_three_loop (len - 3 - len_b₁) m₁))
      ≡ some m₃
    → merge_loop (length m₃.b + 1) m₃ len (len_b₁ + (len - 3 - len_b₁)) ≡ some m'
    → sort_more m len 0 ≡ some m'
unfolding sort_more
sort_more-run m m₁ m₃ m' len len_b₁ sorted e₁ e₂ e₃ e₄ = rw (e₁, e₂, e₃) e₄

-- After the split and the sort of three the merge can begin.
begins :
    (m m₃ : Machine) (len len_b : ℕ)
    → len < int_max
    → len ≡ length m.a + length m.b
    → len_b ≡ length m.b
    → length m.a ≡ 3
    → AreRanked m
    → Sorts m m₃
    → IsMerging len m₃ len_b
begins m m₃ len len_b few size size_b three r s =
    let eb = length-eq_of_keys m₃.b m.b s.same_b in
    let total = length-total s.replays in
    record {
      size_b = omega arith;
      size = omega arith;
      small = few;
      ranks = AreRanked-AreRanks (AreRanked-Replays r s.replays);
      cyclic = IsAscending-IsCyclic (keys m₃.a) s.ascending;
      nonempty = λ e. omega (arith, ap length e);
    }

-- For more than three and fewer than INT_MAX nodes, all in `a`, the program ends with all of them in
-- `a`, ascending all round, and nothing faults.
pub sort_more_lem :
    (m : Machine) (len : ℕ)
    → 3 < len
    → len < int_max
    → len ≡ length m.a
    → m.b ≡ []
    → AreRanked m
    → (m' : Machine) × (sort_more m len 0 ≡ some m') × IsMerged m m'
sort_more_lem m len many few size empty r =
    let split : IsSplit len m 0 = record {
      size_b = sym (ap length empty);
      size = omega (arith, ap length empty);
      room = omega arith;
    } in
    from_split (halve_loop_lem len m len 0 split)
  where
    from_split :
        (h : (q : Machine × ℕ) × (halve_loop len m len 0 ≡ some q)
          × IsSplit len q.0 q.1
          × Replays m q.0)
        → (m' : Machine) × (sort_more m len 0 ≡ some m') × IsMerged m m'
    from_split ((m₁, len_b₁), e₁, s₁, p₁) =
        let rounds = len - 3 - len_b₁ in
        let fits : rounds ≤ length m₁.a = omega (arith, s₁.size, s₁.size_b, s₁.room) in
        let (sa, sb, p₂) = leave_three_loop_lem rounds m₁ fits in
        let p₁₂ = Replays-trans p₁ p₂ in
        let r₂ = AreRanked-Replays r p₁₂ in
        let m₂ = leave_three_loop rounds m₁ in
        let three : length m₂.a ≡ 3 = omega (arith, s₁.size, s₁.size_b, s₁.room, sa) in
        let (sorted, m₃, e₂, e₃, s₃) = three_sorted m₂ three r₂ in
        let s₄ =
          begins m₂ m₃ len (len_b₁ + rounds) few (omega (arith, s₁.size, sa, sb))
            (omega (arith, s₁.size_b, sb)) three r₂ s₃ in
        let (m', e₄, g) =
          merge_loop_lem (length m₃.b + 1) m₃ len (len_b₁ + rounds) (omega arith) s₄ in
        (
          m',
          sort_more-run m m₁ m₃ m' len len_b₁ sorted e₁ e₂ e₃ e₄,
          record {
            replays = Replays-trans p₁₂ (Replays-trans s₃.replays g.replays);
            cyclic = g.cyclic;
            empty = g.empty;
            nonempty = g.nonempty;
          },
        )
