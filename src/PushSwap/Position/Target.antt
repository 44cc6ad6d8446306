-- ===== src/PushSwap/Position/Target.antt =====
-- `get_lowest` finds where a node of `b` fits into `a`, and `target` notes that for each.
use model_lib.Common.{
  ℕ, suc, false, ◌+◌, ◌≤◌, ◌<◌, ◌≢◌, ◌≡◌, refl, ap, sym, ◌∙◌, ◌⊎◌, inl, inr, List, [], ◌∷◌, arith,
  length, some, get_elem?, ltb, ◌==◌, ◌&&◌, Bool-cases, All, All-imp, All-imp₂, All-map, All-of_map,
  get_elem?-map, subst,
}
use model_lib.Common.Int.{ℤ}
use model_lib.Common.Scan.{scan_min, scan_min_lem}
use model_lib.Common.Roll.{roll, roll-get_elem?, All-roll, get_elem?-lt}
use native.Mathlib.Nat.{zero-add}
use model_lib.PushSwap.Node.{Node, Key, key, keys}
use model_lib.PushSwap.Cyclic.{Fits}
use model_lib.PushSwap.Position.{
  int_max, lowest_above, lowest_of_all, get_lowest, current_pos, target_loop, target,
}
use model_lib.PushSwap.Position.Places.{
  HasPlaces, HasPlaces-get_elem?, current_pos-HasPlaces, keys-current_pos,
}

abbrev at_node : Node → ℤ
at_node x = ℤ.pos x.pos

lowest_of_all-scan_min :
    (l : List Node) (bound : ℕ) (best : ℤ)
    → lowest_of_all l bound best ≡ scan_min (λ (x : Node). x.index) at_node l bound best
unfolding lowest_of_all
lowest_of_all-scan_min [] bound best = refl
lowest_of_all-scan_min (x ∷ xs) bound best = lowest_of_all-scan_min xs _ _

-- A node above `e` that no node above `e` is below.
record NextAbove (e : ℕ) (l : List Node) (bound : ℕ) (found : ℕ × ℤ) : Type 0 where
  place : ℕ
  item : Node
  at : get_elem? l place ≡ some item
  is_found : found ≡ (item.index, at_node item)
  above : e < item.index
  below : item.index < bound
  next : All (λ (y : Node). (y.index ≤ e) ⊎ (item.index ≤ y.index)) l

abbrev ScannedAbove : ℕ → List Node → ℕ → ℤ → ℕ × ℤ → Type 0
ScannedAbove e l bound best found =
    (All (λ (y : Node). (y.index ≤ e) ⊎ (bound ≤ y.index)) l × (found ≡ (bound, best)))
    ⊎ NextAbove e l bound found

NextAbove-later :
    (e : ℕ) (x : Node) (l : List Node) (bound bound' : ℕ) (found : ℕ × ℤ)
    → (x.index ≤ e) ⊎ (bound' ≤ x.index)
    → bound' ≤ bound
    → NextAbove e l bound' found
    → NextAbove e (x ∷ l) bound found
NextAbove-later e x l bound bound' found h k r = record {
  place = suc r.place;
  item = r.item;
  at = r.at;
  is_found = r.is_found;
  above = r.above;
  below = omega (arith, r.below);
  next = (omega (arith, r.below), r.next);
}

lowest_above_lem :
    (e : ℕ) (l : List Node) (bound : ℕ) (best : ℤ)
    → ScannedAbove e l bound best (lowest_above e l bound best)
unfolding lowest_above
lowest_above_lem e [] bound best = inl (tt, refl)
lowest_above_lem e (x ∷ xs) bound best = elim (Bool-cases (ltb e x.index && ltb x.index bound)) [
  | inl t ↦ rw t (elim (lowest_above_lem e xs x.index (at_node x)) [
    | inl (all, p) ↦ inr (record {
      place = 0;
      item = x;
      at = refl;
      is_found = p;
      above = ground arith;
      below = ground arith;
      next = (omega arith, all);
    })
    | inr r ↦ inr (NextAbove-later e x xs bound x.index _ (omega arith) (ground arith) r)
  ])
  | inr t ↦ rw t (elim (lowest_above_lem e xs bound best) [
    | inl (all, p) ↦ inl ((ground arith, all), p)
    | inr r ↦ inr (NextAbove-later e x xs bound bound _ (ground arith) (omega arith) r)
  ])
]

-- The place in `a` that fits the rank `e`: `t` is the place of a node on which `e` may go.
pub record IsTarget (e : Key) (a : List Node) (t : ℤ) : Type 0 where
  pub place : ℕ
  pub is_place : t ≡ ℤ.pos place
  pub inside : place < length a
  pub fits : Fits e (roll place (keys a))

abbrev IsBounded : List Node → Type 0
IsBounded = All (λ (y : Node). y.index < int_max)

abbrev Lacks : Key → List Node → Type 0
Lacks e = All (λ (y : Node). y.index ≢ e.0)

-- What is found at a place of `a` is found on top of `a` turned by that place.
Fits-roll :
    (e : Key) (a : List Node) (i : ℕ) (x : Node)
    → get_elem? a i ≡ some x
    → ((e.0 < x.index) × All (λ (y : Node). (y.index < e.0) ⊎ (x.index ≤ y.index)) a)
      ⊎ (All (λ (y : Node). y.index < e.0) a × All (λ (y : Node). x.index ≤ y.index) a)
    → Fits e (roll i (keys a))
Fits-roll e a i x at (inl (above, next)) =
    let (r, p) = roll-get_elem? i (keys a) (get_elem?-map key a i x at) in
    let all =
      All-roll _ i (keys a) (All-map (λ (y : Key). (y.0 < e.0) ⊎ (x.index ≤ y.0)) key a next) in
    subst (Fits e) (sym p)
      (inl (above, subst (All (λ (y : Key). (y.0 < e.0) ⊎ (x.index ≤ y.0))) p all))
Fits-roll e a i x at (inr (low, least)) =
    let (r, p) = roll-get_elem? i (keys a) (get_elem?-map key a i x at) in
    let all_low = All-roll _ i (keys a) (All-map (λ (y : Key). y.0 < e.0) key a low) in
    let all_least = All-roll _ i (keys a) (All-map (λ (y : Key). x.index ≤ y.0) key a least) in
    subst (Fits e) (sym p) (
      inr (
        subst (All (λ (y : Key). y.0 < e.0)) p all_low,
        subst (All (λ (y : Key). x.index ≤ y.0)) p all_least,
      ))

no_top : {l : List Node} → l ≢ [] → IsBounded l → ¬ All (λ (y : Node). int_max ≤ y.index) l
no_top {l = []} h b all = h refl
no_top {l = x ∷ xs} h b all = omega arith

-- The second loop runs when no node is above `e`.
lowest_of_all-IsTarget :
    (e : Key) (a : List Node) (best : ℤ)
    → a ≢ []
    → HasPlaces 0 a
    → IsBounded a
    → Lacks e a
    → All (λ (y : Node). (y.index ≤ e.0) ⊎ (int_max ≤ y.index)) a
    → IsTarget e a (lowest_of_all a int_max best)
lowest_of_all-IsTarget e a best full places bounded lacks none_above =
    elim (scan_min_lem (λ (x : Node). x.index) at_node a int_max best) [
      | inl (all, _) ↦ absurd (no_top full bounded all)
      | inr r ↦ record {
        place = r.place;
        is_place =
            lowest_of_all-scan_min a int_max best
            ∙ r.is_found
            ∙ ap ℤ.pos (HasPlaces-get_elem? 0 a r.place r.item places r.at ∙ zero-add r.place);
        inside = get_elem?-lt a r.place r.at;
        fits = Fits-roll e a r.place r.item r.at (
            inr (
              All-imp₂ (λ y p (q : (y.index < int_max) × (y.index ≢ e.0)). omega arith) a none_above
                  (All-imp₂ (λ y p q. (p, q)) a bounded lacks),
              r.least,
            ));
      }
    ]

pub get_lowest-IsTarget :
    (e : Key) (a : List Node) (best : ℤ)
    → a ≢ []
    → HasPlaces 0 a
    → IsBounded a
    → Lacks e a
    → IsTarget e a (get_lowest a e.0 int_max best)
unfolding get_lowest
get_lowest-IsTarget e a best full places bounded lacks =
    elim (lowest_above_lem e.0 a int_max best) [
      | inl (none_above, p) ↦
          rw p (lowest_of_all-IsTarget e a best full places bounded lacks none_above)
      | inr r ↦
          let apart : (r.item.index == int_max) ≡ false = ground (arith, r.below) in
          rw (r.is_found, apart)
            (record {
              place = r.place;
              is_place =
                  ap ℤ.pos (HasPlaces-get_elem? 0 a r.place r.item places r.at ∙ zero-add r.place);
              inside = get_elem?-lt a r.place r.at;
              fits =
                  Fits-roll e a r.place r.item r.at
                    (inl (r.above, All-imp₂ (λ y p q. omega arith) a r.next lacks));
            })
    ]

module _ (a : List Node) where
  -- Each node of `l` has its target in `a`.
  abbrev pub HasTargets : List Node → Type 0
  HasTargets = All (λ (n : Node). IsTarget (key n) a n.target_pos)

  target_loop-HasTargets :
      (l : List Node) (t : ℤ)
      → a ≢ []
      → HasPlaces 0 a
      → IsBounded a
      → All (λ n. Lacks (key n) a) l
      → HasTargets (target_loop a l t)
  unfolding target_loop
  target_loop-HasTargets [] t full places bounded lacks = tt
  target_loop-HasTargets (n ∷ l) t full places bounded lacks = (
    get_lowest-IsTarget (key n) a t full places bounded lacks.0,
    target_loop-HasTargets l (get_lowest a n.index int_max t) full places bounded lacks.1,
  )

  keys-target_loop : (l : List Node) (t : ℤ) → keys (target_loop a l t) ≡ keys l
  unfolding target_loop
  keys-target_loop [] t = refl
  keys-target_loop (n ∷ l) t =
      ap (◌∷◌ (key n)) (keys-target_loop l (get_lowest a n.index int_max t))

  target_loop-HasPlaces :
      (k : ℕ) (l : List Node) (t : ℤ) → HasPlaces k l → HasPlaces k (target_loop a l t)
  unfolding target_loop
  target_loop-HasPlaces k [] t h = tt
  target_loop-HasPlaces k (n ∷ l) t h =
      (h.0, target_loop-HasPlaces (k + 1) l (get_lowest a n.index int_max t) h.1)

pub view-target :
    (a b : List Node) → (keys (target a b).0 ≡ keys a) × (keys (target a b).1 ≡ keys b)
unfolding target
view-target a b = (
  keys-current_pos a,
  keys-target_loop (current_pos a) (current_pos b) (ℤ.negsuc 0) ∙ keys-current_pos b,
)

pub target-HasPlaces : (a b : List Node) → HasPlaces 0 (target a b).1
unfolding target
target-HasPlaces a b =
    target_loop-HasPlaces (current_pos a) 0 (current_pos b) (ℤ.negsuc 0) (current_pos-HasPlaces b)

-- The ranks of `a` are below the bound, and no node of `b` has one of them.
abbrev pub AreApart : List Key → List Key → Type 0
AreApart ka kb =
    All (λ (y : Key). y.0 < int_max) ka × All (λ (e : Key). All (λ (y : Key). y.0 ≢ e.0) ka) kb

pub nonempty_of_keys : (l l' : List Node) → keys l ≡ keys l' → l ≢ [] → l' ≢ []
nonempty_of_keys [] l' e h = absurd (h refl)
nonempty_of_keys (x ∷ xs) [] e h = cc
nonempty_of_keys (x ∷ xs) (y ∷ ys) e h = λ p. absurd (cc)

-- A statement about the keys of a list, of its nodes.
of_keys :
    (P : Key → Type 0) (l l' : List Node)
    → keys l' ≡ keys l
    → All P (keys l)
    → All (λ (n : Node). P (key n)) l'
of_keys P l l' e h = All-of_map P key l' (subst (All P) (sym e) h)

-- After `target`, every node of `b` knows a place of `a` where it fits.
pub target-HasTargets :
    (a b : List Node)
    → a ≢ []
    → AreApart (keys a) (keys b)
    → HasTargets (target a b).0 (target a b).1
unfolding target
target-HasTargets a b full (bounded, apart) =
    target_loop-HasTargets (current_pos a) (current_pos b) (ℤ.negsuc 0)
      (nonempty_of_keys a (current_pos a) (sym (keys-current_pos a)) full) (current_pos-HasPlaces a)
      (of_keys (λ y. y.0 < int_max) a (current_pos a) (keys-current_pos a) bounded)
      (of_keys (λ e. Lacks e (current_pos a)) b (current_pos b) (keys-current_pos b)
        (All-imp (λ e p. of_keys (λ y. y.0 ≢ e.0) a (current_pos a) (keys-current_pos a) p) (keys b)
          apart))
