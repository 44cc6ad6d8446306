-- ===== src/PushSwap/Sort/Ranking.antt =====
-- The inner loop of `assign_index`: the lowest number that has no rank yet.
use model_lib.Common.{
  ℕ, suc, ◌+◌, ◌≢◌, ◌≡◌, refl, ap, sym, subst, ◌∙◌, ◌⊎◌, inl, inr, List, [], ◌∷◌, arith, Option,
  none, some, get_elem?, All, ◌==◌, ◌&&◌, Bool-cases,
}
use model_lib.Common.Int.{ℤ, ltb_ℤ, ◌<ℤ◌, ◌≤ℤ◌}
use model_lib.PushSwap.Node.{Node}
use model_lib.PushSwap.Sort.{lowest_unranked}

-- Nothing without a rank is below the number `n`.
abbrev pub NoneBelow : ℤ → List Node → Type 0
NoneBelow n = All (λ (y : Node). (y.index ≢ 0) ⊎ (n ≤ℤ y.number))

-- A node without a rank, at a place, of least number among these.
pub record LowestAt (l : List Node) (first : ℕ) (found : Option (ℕ × Node)) : Type 0 where
  pub place : ℕ
  pub item : Node
  pub is_found : found ≡ some (first + place, item)
  pub at : get_elem? l place ≡ some item
  pub unranked : item.index ≡ 0
  pub least : NoneBelow item.number l

LowestAt-later :
    (x : Node) (l : List Node) (first : ℕ) (found : Option (ℕ × Node))
    (r : LowestAt l (first + 1) found)
    → (x.index ≢ 0) ⊎ (r.item.number ≤ℤ x.number)
    → (r' : LowestAt (x ∷ l) first found) × (r'.item.number ≡ r.item.number)
LowestAt-later x l first found r h =
    let same : first + 1 + r.place ≡ first + suc r.place = omega arith in
    (
      record {
        place = suc r.place;
        item = r.item;
        is_found = r.is_found ∙ ap (λ k. some (k, r.item)) same;
        at = r.at;
        unranked = r.unranked;
        least = (h, r.least);
      },
      refl,
    )

LowestAt-here :
    (x : Node) (l : List Node) (first : ℕ) (found : Option (ℕ × Node))
    → x.index ≡ 0
    → NoneBelow x.number l
    → found ≡ some (first, x)
    → (r : LowestAt (x ∷ l) first found) × (r.item.number ≡ x.number)
LowestAt-here x l first found z all e =
    let same : first ≡ first + 0 = omega arith in
    (
      record {
        place = 0;
        item = x;
        is_found = e ∙ ap (λ k. some (k, x)) same;
        at = refl;
        unranked = z;
        least = (inr (omega arith), all);
      },
      refl,
    )

lowest_unranked-some :
    (l : List Node) (first i : ℕ) (best : Node)
    → let found = lowest_unranked l first (some (i, best)) in
      (NoneBelow best.number l × (found ≡ some (i, best)))
      ⊎ ((r : LowestAt l first found) × (r.item.number <ℤ best.number))
unfolding lowest_unranked
lowest_unranked-some [] first i best = inl (tt, refl)
lowest_unranked-some (x ∷ l) first i best =
    elim (Bool-cases (x.index == 0 && ltb_ℤ x.number best.number)) [
      | inl t ↦
          let z : x.index ≡ 0 = ground arith in
          let below : x.number <ℤ best.number = ground arith in
          rw t (elim (lowest_unranked-some l (first + 1) first x) [
            | inl (all, e) ↦
                let (r, same) = LowestAt-here x l first _ z all e in
                inr (r, subst (λ n. n <ℤ best.number) (sym same) below)
            | inr (r, less) ↦
                let (r', same) = LowestAt-later x l first _ r (inr (omega arith)) in
                inr (r', subst (λ n. n <ℤ best.number) (sym same) (omega arith))
          ])
      | inr t ↦ rw t (elim (lowest_unranked-some l (first + 1) i best) [
        | inl (all, e) ↦ inl ((ground arith, all), e)
        | inr (r, less) ↦
            let (r', same) = LowestAt-later x l first _ r (ground arith) in
            inr (r', subst (λ n. n <ℤ best.number) (sym same) less)
      ])
    ]

-- The search: no node is without a rank, or the lowest of these is found.
pub lowest_unranked_lem :
    (l : List Node) (first : ℕ)
    → (All (λ (y : Node). y.index ≢ 0) l × (lowest_unranked l first none ≡ none))
      ⊎ LowestAt l first (lowest_unranked l first none)
unfolding lowest_unranked
lowest_unranked_lem [] first = inl (tt, refl)
lowest_unranked_lem (x ∷ l) first = elim (Bool-cases (x.index == 0)) [
  | inl t ↦ rw t (elim (lowest_unranked-some l (first + 1) first x) [
    | inl (all, e) ↦ inr (LowestAt-here x l first _ (ground arith) all e).0
    | inr (r, less) ↦ inr (LowestAt-later x l first _ r (inr (omega arith))).0
  ])
  | inr t ↦ rw t (elim (lowest_unranked_lem l (first + 1)) [
    | inl (all, e) ↦ inl ((ground arith, all), e)
    | inr r ↦ inr (LowestAt-later x l first _ r (inl (ground arith))).0
  ])
]
