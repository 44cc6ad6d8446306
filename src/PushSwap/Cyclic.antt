-- ===== src/PushSwap/Cyclic.antt =====
-- Stacks that are ascending from some node on, round and round: what the sort keeps `a` in.
use model_lib.Common.{
  ℕ, zero, suc, ◌≤◌, ◌<◌, ◌≡◌, refl, ap, sym, subst, ◌⊎◌, inl, inr, List, [], ◌∷◌, ◌++◌, arith,
  length, All, AllPairs, All-imp, All-imp₂, All-append_left, All-append_right, AllPairs-append,
  AllPairs-append_left, AllPairs-append_right, AllPairs-across,
}
use mathlib.Core.List.{append-nil, append_assoc}
use model_lib.Common.Roll.{turn_left, iterate, roll, turn_left-roll}
use model_lib.PushSwap.Node.{Key}

abbrev pub Below : Key → Key → Type 0
Below x y = x.0 < y.0

abbrev pub IsAscending : List Key → Type 0
IsAscending = AllPairs Below

-- The list is a turn of an ascending list.
abbrev pub IsCyclic : List Key → Type 0
IsCyclic l = (u : List Key) × (v : List Key) × (l ≡ u ++ v) × IsAscending (v ++ u)

nil_end : (l : List Key) → IsAscending (l ++ []) → IsAscending l
nil_end l h = AllPairs-append_left Below l [] h

pub IsAscending-IsCyclic : (l : List Key) → IsAscending l → IsCyclic l
IsAscending-IsCyclic l h = ([], l, refl, subst IsAscending (sym (append-nil l)) h)

turn_left-cut : (u v : List Key) → IsAscending (v ++ u) → IsCyclic (turn_left (u ++ v))
turn_left-cut [] [] h = ([], [], refl, tt)
turn_left-cut [] (x ∷ v) h = (v, x ∷ [], refl, nil_end (x ∷ v) h)
turn_left-cut (x ∷ u) v h = (
  u,
  v ++ x ∷ [],
  append_assoc u v (x ∷ []),
  subst IsAscending (sym (append_assoc v (x ∷ []) u)) h,
)

pub turn_left-IsCyclic : (l : List Key) → IsCyclic l → IsCyclic (turn_left l)
turn_left-IsCyclic l (u, v, e, h) =
    subst (λ k. IsCyclic (turn_left k)) (sym e) (turn_left-cut u v h)

iterate-IsCyclic : (n : ℕ) (l : List Key) → IsCyclic l → IsCyclic (iterate n turn_left l)
iterate-IsCyclic zero l h = h
iterate-IsCyclic (suc n) l h = iterate-IsCyclic n (turn_left l) (turn_left-IsCyclic l h)

pub roll-IsCyclic : (n : ℕ) (l : List Key) → n ≤ length l → IsCyclic l → IsCyclic (roll n l)
roll-IsCyclic n l h c = subst IsCyclic (turn_left-roll n l h) (iterate-IsCyclic n l c)

-- `e` may go on top of a list with the top `x`: either `x` is the next above `e`, or `e` is above
-- all and `x` is the least.
abbrev pub Fits : Key → List Key → Type 0
Fits e [] = Unit
Fits e (x ∷ r) =
    ((e.0 < x.0) × All (λ y. (y.0 < e.0) ⊎ (x.0 ≤ y.0)) (x ∷ r))
    ⊎ (All (λ y. y.0 < e.0) (x ∷ r) × All (λ y. x.0 ≤ y.0) (x ∷ r))

-- All of an ascending list below `e`: `e` goes behind it.
IsAscending-snoc :
    (e : Key) (l : List Key) → IsAscending l → All (λ y. y.0 < e.0) l → IsAscending (l ++ e ∷ [])
IsAscending-snoc e l h below =
    AllPairs-append Below l (e ∷ []) h (tt, tt) (All-imp (λ y p. (p, tt)) l below)

insert-cut :
    (e : Key) (u v : List Key) → IsAscending (v ++ u) → Fits e (u ++ v) → IsCyclic (e ∷ u ++ v)
insert-cut e [] [] h fits = ([], e ∷ [], refl, (tt, tt))
insert-cut e [] (x ∷ r) h (inl (e_below, _)) =
    let asc = nil_end (x ∷ r) h in
    IsAscending-IsCyclic (e ∷ x ∷ r) ((e_below, All-imp (λ y p. omega arith) r asc.0), asc)
insert-cut e [] (x ∷ r) h (inr (all_below, _)) =
    (e ∷ [], x ∷ r, refl, IsAscending-snoc e (x ∷ r) (nil_end (x ∷ r) h) all_below)
insert-cut e (x ∷ u) v h (inl (e_below, apart)) =
    let across = AllPairs-across Below v (x ∷ u) h in
    let asc_u = AllPairs-append_right Below v (x ∷ u) h in
    let v_apart = All-append_right _ (x ∷ u) v apart in
    (
      e ∷ x ∷ u,
      v,
      refl,
      AllPairs-append Below v (e ∷ x ∷ u) (AllPairs-append_left Below v (x ∷ u) h)
          ((e_below, All-imp (λ y p. omega arith) u asc_u.0), asc_u)
          (All-imp₂ (λ y p q. (omega arith, p)) v across v_apart),
    )
insert-cut e (x ∷ u) [] h (inr (all_below, _)) = (
  e ∷ [],
  x ∷ u,
  ap (λ (l : List Key). e ∷ x ∷ l) (append-nil u),
  IsAscending-snoc e (x ∷ u) h (All-append_left _ (x ∷ u) [] all_below),
)
insert-cut e (x ∷ u) (y ∷ v) h (inr (_, least)) =
    let y_below : y.0 < x.0 = (All-append_right _ v (x ∷ u) h.0).0 in
    let x_least : x.0 ≤ y.0 = (All-append_right _ (x ∷ u) (y ∷ v) least).0 in absurd (omega arith)

-- The insertion keeps the round ascending.
pub insert-IsCyclic : (e : Key) (l : List Key) → IsCyclic l → Fits e l → IsCyclic (e ∷ l)
insert-IsCyclic e l (u, v, p, h) fits =
    subst (λ k. IsCyclic (e ∷ k)) (sym p) (insert-cut e u v h (subst (Fits e) p fits))

abbrev pub TopIsLeast : List Key → Type 0
TopIsLeast [] = Unit
TopIsLeast (x ∷ r) = All (λ y. x.0 ≤ y.0) (x ∷ r)

IsAscending-cut :
    (u v : List Key) → IsAscending (v ++ u) → TopIsLeast (u ++ v) → IsAscending (u ++ v)
IsAscending-cut [] v h least = nil_end v h
IsAscending-cut (x ∷ u) [] h least = subst IsAscending (sym (append-nil (x ∷ u))) h
IsAscending-cut (x ∷ u) (y ∷ v) h least =
    let y_below : y.0 < x.0 = (All-append_right _ v (x ∷ u) h.0).0 in
    let x_least : x.0 ≤ y.0 = (All-append_right _ (x ∷ u) (y ∷ v) least).0 in absurd (omega arith)

-- With the least on top the round is ascending.
pub IsCyclic-IsAscending : (l : List Key) → IsCyclic l → TopIsLeast l → IsAscending l
IsCyclic-IsAscending l (u, v, p, h) least =
    subst IsAscending (sym p) (IsAscending-cut u v h (subst TopIsLeast p least))
