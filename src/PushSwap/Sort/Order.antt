-- ===== src/PushSwap/Sort/Order.antt =====
-- `is_sorted` looks at neighbours and at numbers; where ranks agree with numbers it decides
-- whether the ranks ascend.
use model_lib.Common.{
  ◌<◌, ◌≢◌, ◌≡◌, refl, ap, ◌⊎◌, inl, inr, List, [], ◌∷◌, arith, Bool-cases, true, false, some, map,
  AllPairs, All-imp, All-imp₂, All-map, AllPairs-perm, All-of_map,
}
use mathlib.Core.List.{Permᴰ}
use mathlib.Core.Option.{some-injective}
use model_lib.Common.Int.{◌<ℤ◌}
use model_lib.PushSwap.Node.{Node, Key, key, keys}
use model_lib.PushSwap.Cyclic.{IsAscending}
use model_lib.PushSwap.Sort.{sorted_from, is_sorted}

-- Two nodes whose ranks are different, and in the order of their numbers.
abbrev pub Agrees : Key → Key → Type 0
Agrees x y = ((x.0 < y.0) × (x.1 <ℤ y.1)) ⊎ ((y.0 < x.0) × (y.1 <ℤ x.1))

abbrev pub IsOrdered : List Key → Type 0
IsOrdered = AllPairs Agrees

pub IsOrdered-perm : {l l' : List Key} → Permᴰ l l' → IsOrdered l → IsOrdered l'
IsOrdered-perm = AllPairs-perm Agrees turned
  where
    turned : (x y : Key) → Agrees x y → Agrees y x
    turned x y (inl h) = inr h
    turned x y (inr h) = inl h

sorted_from-IsAscending :
    (x : Node) (l : List Node)
    → IsOrdered (keys (x ∷ l))
    → sorted_from x l ≡ true
    → IsAscending (keys (x ∷ l))
unfolding sorted_from
sorted_from-IsAscending x [] o h = (tt, tt)
sorted_from-IsAscending x (y ∷ l) o h =
    let asc = sorted_from-IsAscending y l o.1 (ground arith) in
    let below : x.index < y.index = ground (arith, o.0.0) in
    ((below, All-imp (λ z p. omega arith) (keys l) asc.0), asc)

IsAscending-sorted_from :
    (x : Node) (l : List Node)
    → IsOrdered (keys (x ∷ l))
    → IsAscending (keys (x ∷ l))
    → sorted_from x l ≡ true
unfolding sorted_from
IsAscending-sorted_from x [] o h = refl
IsAscending-sorted_from x (y ∷ l) o h =
    let rest = IsAscending-sorted_from y l o.1 h.1 in ground (arith, h.0.0, o.0.0, rest)

-- A stack that is found sorted has ascending ranks.
pub is_sorted-IsAscending :
    (l : List Node) → IsOrdered (keys l) → is_sorted l ≡ some true → IsAscending (keys l)
unfolding is_sorted
is_sorted-IsAscending [] o h = tt
is_sorted-IsAscending (x ∷ l) o h = sorted_from-IsAscending x l o (some-injective _ _ h)

pub IsAscending-is_sorted :
    (l : List Node) → l ≢ [] → IsOrdered (keys l) → IsAscending (keys l) → is_sorted l ≡ some true
unfolding is_sorted
IsAscending-is_sorted [] f o h = absurd (f refl)
IsAscending-is_sorted (x ∷ l) f o h = ap some (IsAscending-sorted_from x l o h)

pub is_sorted-cases :
    (l : List Node) → l ≢ [] → (is_sorted l ≡ some true) ⊎ (is_sorted l ≡ some false)
unfolding is_sorted
is_sorted-cases [] h = absurd (h refl)
is_sorted-cases (x ∷ l) h = elim (Bool-cases (sorted_from x l)) [
  | inl t ↦ inl (ap some t)
  | inr t ↦ inr (ap some t)
]

abbrev pub AreAscendingNumbers : List Node → Type 0
AreAscendingNumbers l = AllPairs ◌<ℤ◌ (map (λ (n : Node). n.number) l)

-- Ascending ranks stand for ascending numbers.
pub IsAscending-numbers :
    (l : List Node) → IsOrdered (keys l) → IsAscending (keys l) → AreAscendingNumbers l
IsAscending-numbers [] o h = tt
IsAscending-numbers (x ∷ l) o h = (
  All-map (◌<ℤ◌ x.number) (λ (n : Node). n.number) l
      (All-of_map (λ (k : Key). x.number <ℤ k.1) key l
        (All-imp₂ (λ k p q. omega arith) (keys l) h.0 o.0)),
  IsAscending-numbers l o.1 h.1,
)
