-- ===== src/PushSwap/Adjust/Effective.antt =====
-- `do_cost_effective` makes the cheapest move, and the move keeps `a` ascending all round.
use model_lib.Common.{
  ℕ, ◌+◌, ◌≤◌, ◌<◌, ◌≢◌, ◌≡◌, refl, ap, sym, subst, ◌∙◌, ◌⊎◌, inl, inr, List, [], ◌∷◌, arith,
  length, length-map, Option, none, some, get_elem?, get_elem?-map, All, All-get_elem?,
}
use native.Mathlib.Nat.{zero-add}
use model_lib.Common.Int.{ℤ}
use model_lib.Common.Scan.{scan_min, scan_min_lem}
use model_lib.Common.Roll.{roll, roll-get_elem?, length-roll}
use model_lib.PushSwap.Node.{Node, Machine, Key, key, keys, view}
use model_lib.PushSwap.Cyclic.{IsCyclic, insert-IsCyclic, roll-IsCyclic}
use model_lib.PushSwap.Operations.Replay.{Replays, step, Instruction}
use model_lib.PushSwap.Position.{int_max}
use model_lib.PushSwap.Position.Places.{HasPlaces, HasPlaces-get_elem?}
use model_lib.PushSwap.Position.Cost.{IsPriced}
use model_lib.PushSwap.Adjust.{my_abs, cheapest_loop, do_move, do_cost_effective}
use model_lib.PushSwap.Adjust.Turning.{view-do_move, do_move-Replays}

abbrev pub total_cost : Node → ℕ
total_cost n = my_abs n.cost_a + my_abs n.cost_b

abbrev costs_of : Node → Option (ℤ × ℤ)
costs_of n = some (n.cost_a, n.cost_b)

cheapest_loop-scan_min :
    (l : List Node) (bound : ℕ) (best : Option (ℤ × ℤ))
    → cheapest_loop l bound best ≡ scan_min total_cost costs_of l bound best
unfolding cheapest_loop
cheapest_loop-scan_min [] bound best = refl
cheapest_loop-scan_min (n ∷ l) bound best = cheapest_loop-scan_min l _ _

-- The move that is made: that of a node of `b` than which no other is cheaper.
pub record IsCheapest (m m' : Machine) : Type 0 where
  pub place : ℕ
  pub item : Node
  pub at : get_elem? m.b place ≡ some item
  pub least : All (λ n. total_cost item ≤ total_cost n) m.b
  pub is_move : m' ≡ do_move m item.cost_a item.cost_b

-- If the stack `b` has a node and the costs are below INT_MAX, a cheapest move is made.
pub do_cost_effective_lem :
    (m : Machine)
    → m.b ≢ []
    → All (λ n. total_cost n < int_max) m.b
    → (m' : Machine) × (do_cost_effective m ≡ some m') × IsCheapest m m'
unfolding do_cost_effective
do_cost_effective_lem m full cheap = elim (scan_min_lem total_cost costs_of m.b int_max none) [
  | inl (all, _) ↦ absurd (no_node m.b full cheap all)
  | inr r ↦ (
    do_move m r.item.cost_a r.item.cost_b,
    rw (cheapest_loop-scan_min m.b int_max none, r.is_found),
    record { place = r.place; item = r.item; at = r.at; least = r.least; is_move = refl },
  )
]
  where
    no_node :
        (l : List Node)
        → l ≢ []
        → All (λ n. total_cost n < int_max) l
        → ¬ All (λ n. int_max ≤ total_cost n) l
    no_node [] h c a = h refl
    no_node (n ∷ l) h c a = omega arith

-- What a move by the costs of a priced node does to the keys.
view-priced_move :
    (m : Machine) (n : Node)
    → get_elem? m.b n.pos ≡ some n
    → (p : IsPriced (keys m.a) (keys m.b) n)
    → (r : List Key) × (roll n.pos (keys m.b) ≡ key n ∷ r)
      × (view (do_move m n.cost_a n.cost_b) ≡ (key n ∷ roll p.place (keys m.a), r))
view-priced_move m n at p =
    let (r, top) = roll-get_elem? n.pos (keys m.b) (get_elem?-map key m.b n.pos n at) in
    (
      r,
      top,
      view-do_move m n.cost_a n.cost_b
          ∙ ap (step Instruction.push_a) (λ i. (p.turn_of_a i, (p.turn_of_b ∙ top) i)),
    )

-- A cheapest move among priced nodes keeps the round, and takes one node from `b`.
pub record KeepsRound (m m' : Machine) : Type 0 where
  pub replays : Replays m m'
  pub cyclic : IsCyclic (keys m'.a)
  pub size_a : length m'.a ≡ length m.a + 1
  pub size_b : length m'.b + 1 ≡ length m.b

pub IsCheapest-KeepsRound :
    (m m' : Machine)
    → HasPlaces 0 m.b
    → All (IsPriced (keys m.a) (keys m.b)) m.b
    → IsCyclic (keys m.a)
    → IsCheapest m m'
    → KeepsRound m m'
IsCheapest-KeepsRound m m' places priced cyclic c =
    let p = All-get_elem? (IsPriced (keys m.a) (keys m.b)) m.b c.place c.item c.at priced in
    let here : c.item.pos ≡ c.place =
      HasPlaces-get_elem? 0 m.b c.place c.item places c.at ∙ zero-add c.place in
    let at : get_elem? m.b c.item.pos ≡ some c.item =
      subst (λ k. get_elem? m.b k ≡ some c.item) (sym here) c.at in
    let (r, turned, v) = view-priced_move m c.item at p in
    let v' : view m' ≡ (key c.item ∷ roll p.place (keys m.a), r) = ap view c.is_move ∙ v in
    let top : keys m'.a ≡ key c.item ∷ roll p.place (keys m.a) =
      ap (λ (s : List Key × List Key). s.0) v' in
    record {
      replays =
          subst (Replays m) (sym c.is_move)
            (do_move-Replays m c.item.cost_a c.item.cost_b (still_nodes p.still_b));
      cyclic = subst IsCyclic (sym top) (
          insert-IsCyclic (key c.item) (roll p.place (keys m.a))
            (roll-IsCyclic p.place (keys m.a) (omega (arith, p.inside)) cyclic) p.fits);
      size_a = omega (
        arith,
        ap length top,
        length-roll p.place (keys m.a),
        length-map m.a key,
        length-map m'.a key,
      );
      size_b = omega (
        arith,
        ap (λ (s : List Key × List Key). length s.1) v',
        ap length turned,
        length-roll c.item.pos (keys m.b),
        length-map m.b key,
        length-map m'.b key,
      );
    }
  where
    still_nodes :
        {z : ℤ} → (z ≡ ℤ.pos 0) ⊎ (2 ≤ length (keys m.b)) → (z ≡ ℤ.pos 0) ⊎ (2 ≤ length m.b)
    still_nodes (inl e) = inl e
    still_nodes (inr h) = inr (omega (arith, length-map m.b key))
