-- ===== src/PushSwap/Adjust/Last.antt =====
-- `adjust_stack` turns the least rank to the top, so that a round becomes an ascending stack.
use model_lib.Common.{
  ℕ, ◌-◌, ◌/◌, ◌≤◌, ◌<◌, ◌≢◌, ◌≡◌, refl, ap, sym, subst, ◌∙◌, inl, inr, List, [], ◌∷◌, arith,
  length, length-map, some, get_elem?, get_elem?-map, All, All-map, All-of_map, ltb, if◌then◌else◌,
  Bool-cases,
}
use native.Mathlib.Nat.{zero-add}
use model_lib.Common.Scan.{scan_min, scan_min_lem}
use model_lib.Common.Roll.{
  turn_left, turn_right, iterate, roll, roll-get_elem?, All-roll, turn_left-roll, turn_right-roll,
  get_elem?-lt,
}
use model_lib.PushSwap.Node.{Node, Machine, Key, key, keys, view, ra, rra}
use model_lib.PushSwap.Cyclic.{
  IsCyclic, IsAscending, TopIsLeast, roll-IsCyclic, IsCyclic-IsAscending,
}
use model_lib.PushSwap.Operations.{rotate_x, reverse_rotate_x, on_a}
use model_lib.PushSwap.Operations.Replay.{Replays, Replays-still, Replays-trans}
use model_lib.PushSwap.Operations.Effects.{
  rotate_a-Replays, reverse_a-Replays, view-rotate_a, view-reverse_a,
}
use model_lib.PushSwap.Position.{int_max, current_pos}
use model_lib.PushSwap.Position.Places.{
  HasPlaces, length-eq_of_keys, HasPlaces-get_elem?, current_pos-HasPlaces, keys-current_pos,
}
use model_lib.PushSwap.Position.Target.{nonempty_of_keys}
use model_lib.PushSwap.Adjust.{lowest_pos_loop, lowest_pos, repeat, adjust_stack}
use model_lib.PushSwap.Adjust.Turning.{repeat-Replays, view-repeat_a}

lowest_pos_loop-scan_min :
    (l : List Node) (best bound : ℕ)
    → lowest_pos_loop l best bound
      ≡ scan_min (λ (x : Node). x.index) (λ (x : Node). x.pos) l bound best
unfolding lowest_pos_loop
lowest_pos_loop-scan_min [] best bound = refl
lowest_pos_loop-scan_min (x ∷ l) best bound = lowest_pos_loop-scan_min l _ _

-- The place of a node of least rank.
record IsLowest (l : List Node) (place : ℕ) : Type 0 where
  item : Node
  at : get_elem? l place ≡ some item
  least : All (λ (y : Node). item.index ≤ y.index) l

lowest_pos_lem :
    (l : List Node)
    → l ≢ []
    → HasPlaces 0 l
    → All (λ (y : Node). y.index < int_max) l
    → (p : ℕ) × (lowest_pos l ≡ some p) × IsLowest l p
unfolding lowest_pos
lowest_pos_lem [] full places bounded = absurd (full refl)
lowest_pos_lem (x ∷ l) full places bounded =
    elim (scan_min_lem (λ (y : Node). y.index) (λ (y : Node). y.pos) (x ∷ l) int_max x.pos) [
      | inl (all, _) ↦ absurd (omega arith)
      | inr r ↦ (
        r.place,
        ap some (
            lowest_pos_loop-scan_min (x ∷ l) x.pos int_max
            ∙ r.is_found
            ∙ HasPlaces-get_elem? 0 (x ∷ l) r.place r.item places r.at
            ∙ zero-add r.place),
        record { item = r.item; at = r.at; least = r.least },
      )
    ]

-- With the least rank on top the round ascends.
IsLowest-IsAscending :
    (l : List Node) (p : ℕ) → IsLowest l p → IsCyclic (keys l) → IsAscending (roll p (keys l))
IsLowest-IsAscending l p low c =
    let (r, top) = roll-get_elem? p (keys l) (get_elem?-map key l p low.item low.at) in
    let least =
      All-roll _ p (keys l) (All-map (λ (y : Key). low.item.index ≤ y.0) key l low.least) in
    let inside : p ≤ length (keys l) = omega (arith, get_elem?-lt l p low.at, length-map l key) in
    IsCyclic-IsAscending (roll p (keys l)) (roll-IsCyclic p (keys l) inside c)
      (subst TopIsLeast (sym top) (subst (All (λ (y : Key). low.item.index ≤ y.0)) top least))

-- The turns of `adjust_stack`, either way.
turned : (p len : ℕ) → Machine → Machine
turned p len m =
    if ltb (len / 2) p
    then repeat (len - p) (on_a reverse_rotate_x rra) m
    else repeat p (on_a rotate_x ra) m

view-turned :
    (p len : ℕ) (m : Machine)
    → len ≡ length m.a
    → p < len
    → view (turned p len m) ≡ (roll p (keys m.a), keys m.b)
unfolding turned
view-turned p len m e h = elim (Bool-cases (ltb (len / 2) p)) [
  | inl t ↦
      let rounds : len - p ≡ length (keys m.a) - p = omega (arith, length-map m.a key) in
      rw t (
        view-repeat_a _ turn_right view-reverse_a (len - p) m
        ∙ ap (λ (l : List Key). (l, keys m.b))
            (ap (λ k. iterate k turn_right (keys m.a)) rounds ∙ turn_right-roll p (keys m.a)))
  | inr t ↦
      let inside : p ≤ length (keys m.a) = omega (arith, length-map m.a key) in
      rw t (
        view-repeat_a _ turn_left view-rotate_a p m
        ∙ ap (λ (l : List Key). (l, keys m.b)) (turn_left-roll p (keys m.a) inside))
]

turned-Replays : (p len : ℕ) (m : Machine) → Replays m (turned p len m)
unfolding turned
turned-Replays p len m = elim (Bool-cases (ltb (len / 2) p)) [
  | inl t ↦ rw t (repeat-Replays _ reverse_a-Replays (len - p) m)
  | inr t ↦ rw t (repeat-Replays _ rotate_a-Replays p m)
]

adjust_stack-turned :
    (m : Machine) (len p : ℕ)
    → lowest_pos (current_pos m.a) ≡ some p
    → adjust_stack m len ≡ some (turned p len (record m { a = current_pos m.a }))
unfolding adjust_stack turned
adjust_stack-turned m len p e = rw e

-- A round that is given with its size is turned until it ascends, by instructions, and the stack
-- `b` stays as it is.
pub adjust_stack_lem :
    (m : Machine) (len : ℕ)
    → len ≡ length m.a
    → m.a ≢ []
    → All (λ (k : Key). k.0 < int_max) (keys m.a)
    → IsCyclic (keys m.a)
    → (m' : Machine) × (adjust_stack m len ≡ some m')
      × Replays m m'
      × IsAscending (keys m'.a)
      × (keys m'.b ≡ keys m.b)
adjust_stack_lem m len size full bounded c =
    let l = current_pos m.a in
    let m₁ : Machine = record m { a = l } in
    let same = keys-current_pos m.a in
    let (p, e, low) =
      lowest_pos_lem l (nonempty_of_keys m.a l (sym same) full) (current_pos-HasPlaces m.a) (
        All-of_map (λ (k : Key). k.0 < int_max) key l
          (subst (All (λ (k : Key). k.0 < int_max)) (sym same) bounded)) in
    let size' : len ≡ length l = omega (arith, length-eq_of_keys l m.a same) in
    let v = view-turned p len m₁ size' (omega (arith, get_elem?-lt l p low.at)) in
    (
      turned p len m₁,
      adjust_stack-turned m len p e,
      Replays-trans (Replays-still m m₁ (ap (λ (k : List Key). (k, keys m.b)) (sym same)) refl)
          (turned-Replays p len m₁),
      subst (λ (s : List Key × List Key). IsAscending s.0) (sym v)
          (IsLowest-IsAscending l p low (subst IsCyclic (sym same) c)),
      ap (λ (s : List Key × List Key). s.1) v,
    )
