-- ===== src/PushSwap/Sort/Ranks.antt =====
-- `assign_index` ends, and ranks the nodes in the order of their numbers.
use model_lib.Common.{
  ℕ, zero, suc, ◌+◌, ◌≤◌, ◌<◌, ◌≢◌, ◌≡◌, refl, ap, sym, subst, ◌∙◌, ◌⊎◌, inl, inr, List, [], ◌∷◌,
  arith, length, Option, none, some, get_elem?, set, map, All, AllPairs, All-imp, All-imp₂, All-set,
  AllPairs-set, All-map, leb, ◌==◌, if◌then◌else◌, Bool-cases, true, false,
}
use native.Mathlib.Nat.{zero-add}
use mathlib.Core.Option.{some-injective}
use model_lib.Common.Int.{ℤ, ltb_ℤ, ◌<ℤ◌, ◌≤ℤ◌, eq_of_parts}
use model_lib.PushSwap.Node.{Node, key, keys}
use model_lib.PushSwap.Sort.{lowest_unranked, assign_index_loop, assign_index}
use model_lib.PushSwap.Sort.Order.{Agrees, IsOrdered}
use model_lib.PushSwap.Sort.Ranking.{LowestAt, lowest_unranked_lem}

-- `x` has a rank, and comes before `y` by number, and by rank if `y` has one.
abbrev Before : Node → Node → Type 0
Before x y = (0 < x.index) × ((y.index ≡ 0) ⊎ (x.index < y.index)) × (x.number <ℤ y.number)

-- Two nodes while the ranks are given out.
abbrev Partly : Node → Node → Type 0
Partly x y = ((x.index ≡ 0) × (y.index ≡ 0) × (x.number ≢ y.number)) ⊎ (Before x y ⊎ Before y x)

less_or_more : (a b : ℤ) → a ≢ b → a ≤ℤ b → a <ℤ b
less_or_more a b h k = elim (Bool-cases (ltb_ℤ a b)) [
  | inl t ↦ ground arith
  | inr t ↦ absurd (h (eq_of_parts a b (ground arith)))
]

-- The nodes without a rank.
unranked : List Node → ℕ
unranked [] = 0
unranked (x ∷ l) = if x.index == 0 then suc (unranked l) else unranked l

unranked-set :
    (l : List Node) (i : ℕ) (x x' : Node)
    → get_elem? l i ≡ some x
    → x.index ≡ 0
    → x'.index ≢ 0
    → unranked (set l i x') + 1 ≡ unranked l
unfolding unranked
unranked-set [] i x x' e z h = cc
unranked-set (y ∷ l) zero x x' e z h =
    let same : y.index ≡ x.index = ap (λ (n : Node). n.index) (some-injective y x e) in ground arith
unranked-set (y ∷ l) (suc i) x x' e z h = ground (arith, unranked-set l i x x' e z h)

all_ranked : (l : List Node) → All (λ (y : Node). y.index ≢ 0) l → unranked l ≡ 0
unfolding unranked
all_ranked [] h = refl
all_ranked (x ∷ l) h = ground (arith, all_ranked l h.1)

none_unranked : (l : List Node) → unranked l ≡ 0 → All (λ (y : Node). 0 < y.index) l
unfolding unranked
none_unranked [] h = tt
none_unranked (x ∷ l) h =
    let rest : unranked l ≡ 0 = ground arith in (ground arith, none_unranked l rest)

abbrev pub numbers : List Node → List ℤ
numbers = map (λ (n : Node). n.number)

numbers-set :
    (l : List Node) (i : ℕ) (x x' : Node)
    → get_elem? l i ≡ some x
    → x'.number ≡ x.number
    → numbers (set l i x') ≡ numbers l
numbers-set [] i x x' e h = refl
numbers-set (y ∷ l) zero x x' e h =
    ap (λ n. n ∷ numbers l) (h ∙ sym (ap (λ (n : Node). n.number) (some-injective y x e)))
numbers-set (y ∷ l) (suc i) x x' e h = ap (◌∷◌ y.number) (numbers-set l i x x' e h)

-- Ranks up to `k` are given out to the lowest numbers.
record IsPartly (k : ℕ) (l : List Node) : Type 0 where
  bounded : All (λ (y : Node). y.index ≤ k) l
  partly : AllPairs Partly l

Partly-symm : (x y : Node) → Partly x y → Partly y x
Partly-symm x y (inl (zx, zy, h)) = inl (zy, zx, λ e. h (sym e))
Partly-symm x y (inr (inl h)) = inr (inr h)
Partly-symm x y (inr (inr h)) = inr (inl h)

-- The lowest node without a rank is given the rank `k + 1`.
promoted :
    (k : ℕ) (x y : Node)
    → x.index ≡ 0
    → (y.index ≤ k) × ((y.index ≢ 0) ⊎ (x.number ≤ℤ y.number))
    → Partly x y
    → Partly (record x { index = k + 1 }) y
promoted k x y z (b, inl ranked) (inl (zx, zy, h)) = absurd (ranked zy)
promoted k x y z (b, inr least) (inl (zx, zy, h)) =
    inr (inl (omega arith, inl zy, less_or_more x.number y.number h least))
promoted k x y z (b, m) (inr (inl (p, _, _))) = absurd (omega arith)
promoted k x y z (b, m) (inr (inr (p, _, less))) = inr (inr (p, inr (omega arith), less))

-- The next rank goes to the lowest of the nodes without one.
IsPartly-set :
    (k : ℕ) (l : List Node) {found : Option (ℕ × Node)}
    → IsPartly k l
    → (r : LowestAt l 0 found) → IsPartly (k + 1) (set l r.place (record r.item { index = k + 1 }))
IsPartly-set k l p r =
    let x = r.item in
    let x' : Node = record x { index = k + 1 } in
    record {
      bounded = All-set _ l r.place x' (All-imp (λ y h. omega arith) l p.bounded) (omega arith);
      partly =
          AllPairs-set (λ (y : Node). (y.index ≤ k) × ((y.index ≢ 0) ⊎ (x.number ≤ℤ y.number)))
            Partly l r.place x x' r.at
            (λ y m q. Partly-symm x' y (promoted k x y r.unranked m (Partly-symm y x q)))
            (λ y m q. promoted k x y r.unranked m q)
            (All-imp₂ (λ y a b. (a, b)) l p.bounded r.least) p.partly;
    }

assign_index_loop-done :
    (fuel : ℕ) (l : List Node) (len index : ℕ)
    → len < index
    → assign_index_loop (suc fuel) l len index ≡ some l
unfolding assign_index_loop
assign_index_loop-done fuel l len index h = rw (leb-false len index h, assign_index_loop)
  where
    leb-false : (len index : ℕ) → len < index → leb index len ≡ false
    leb-false len index h = ground arith

assign_index_loop-round :
    (fuel : ℕ) (l : List Node) (len index : ℕ) (i : ℕ) (x : Node)
    → index ≤ len
    → lowest_unranked l 0 none ≡ some (i, x)
    → assign_index_loop (suc fuel) l len index
      ≡ assign_index_loop fuel (set l i (record x { index = index })) len (index + 1)
unfolding assign_index_loop
assign_index_loop-round fuel l len index i x h e = rw (leb-true len index h, e, assign_index_loop)
  where
    leb-true : (len index : ℕ) → index ≤ len → leb index len ≡ true
    leb-true len index h = ground arith

-- The end: each node has a rank.
record IsRanked (l l' : List Node) (len : ℕ) : Type 0 where
  same : numbers l' ≡ numbers l
  partly : IsPartly len l'
  complete : unranked l' ≡ 0

-- With a round for each node without a rank the loop ends.
assign_index_loop_lem :
    (fuel : ℕ) (l : List Node) (len k : ℕ)
    → unranked l < fuel
    → unranked l + k ≡ len
    → IsPartly k l
    → (l' : List Node) × (assign_index_loop fuel l len (k + 1) ≡ some l') × IsRanked l l' len
assign_index_loop_lem zero l len k h e p = absurd (omega arith)
assign_index_loop_lem (suc fuel) l len k h e p = elim (lowest_unranked_lem l 0) [
  | inl (all, _) ↦
      let z = all_ranked l all in
      (
        l,
        assign_index_loop-done fuel l len (k + 1) (omega arith),
        record { same = refl; partly = subst (λ j. IsPartly j l) (omega arith) p; complete = z },
      )
  | inr r ↦
      let x' : Node = record r.item { index = k + 1 } in
      let l₁ = set l r.place x' in
      let count = unranked-set l r.place r.item x' r.at r.unranked (omega arith) in
      let (l', e', q) =
        assign_index_loop_lem fuel l₁ len (k + 1) (omega arith) (omega arith)
          (IsPartly-set k l p r) in
      (
        l',
        assign_index_loop-round fuel l len (k + 1) r.place r.item (omega arith)
              (found_at r.is_found)
            ∙ e',
        record {
          same = q.same ∙ numbers-set l r.place r.item x' r.at refl;
          partly = q.partly;
          complete = q.complete;
        },
      )
]
  where
    found_at : {o : Option (ℕ × Node)} {i : ℕ} {x : Node} → o ≡ some (0 + i, x) → o ≡ some (i, x)
    found_at {i} {x} e = e ∙ ap (λ j. some (j, x)) (zero-add i)

-- A fresh stack: no ranks, and different numbers.
pub record IsFresh (l : List Node) : Type 0 where
  pub unranked : All (λ (y : Node). y.index ≡ 0) l
  pub distinct : AllPairs (λ (x y : Node). x.number ≢ y.number) l

fresh_count : (l : List Node) → All (λ (y : Node). y.index ≡ 0) l → unranked l ≡ length l
unfolding unranked
fresh_count [] h = refl
fresh_count (x ∷ l) h = ground (arith, fresh_count l h.1)

fresh-Partly :
    (l : List Node)
    → All (λ (y : Node). y.index ≡ 0) l
    → AllPairs (λ (x y : Node). x.number ≢ y.number) l
    → AllPairs Partly l
fresh-Partly [] z h = tt
fresh-Partly (x ∷ l) z h = (All-imp₂ (λ y p q. inl (z.0, p, q)) l z.1 h.0, fresh-Partly l z.1 h.1)

ranked_agree :
    (l : List Node) → AllPairs Partly l → All (λ (y : Node). 0 < y.index) l → IsOrdered (keys l)
ranked_agree [] p h = tt
ranked_agree (x ∷ l) p h = (
  All-map (Agrees (key x)) key l (All-imp₂ (λ y q r. agree y q r) l p.0 h.1),
  ranked_agree l p.1 h.1,
)
  where
    agree : (y : Node) → Partly x y → 0 < y.index → Agrees (key x) (key y)
    agree y (inl (zx, zy, _)) r = absurd (omega arith)
    agree y (inr (inl (_, rank, less))) r = inl (omega arith, less)
    agree y (inr (inr (_, rank, less))) r = inr (omega (arith, h.0), less)

-- The ranks of a fresh stack of `len` different numbers agree with the numbers, and are at most
-- `len`; the loop ends, and the numbers stay where they are.
pub assign_index_lem :
    (l : List Node) (len : ℕ)
    → len ≡ length l
    → IsFresh l
    → (l' : List Node) × (assign_index l len ≡ some l')
      × (numbers l' ≡ numbers l)
      × All (λ (y : Node). y.index ≤ len) l'
      × IsOrdered (keys l')
unfolding assign_index
assign_index_lem l len e f =
    let count = fresh_count l f.unranked in
    let start : IsPartly 0 l = record {
      bounded = All-imp (λ y z. omega arith) l f.unranked;
      partly = fresh-Partly l f.unranked f.distinct;
    } in
    let (l', run, r) = assign_index_loop_lem (len + 1) l len 0 (omega arith) (omega arith) start in
    (
      l',
      run,
      r.same,
      r.partly.bounded,
      ranked_agree l' r.partly.partly (none_unranked l' r.complete),
    )
