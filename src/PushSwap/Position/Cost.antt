-- ===== src/PushSwap/Position/Cost.antt =====
-- What `cost` notes: turns by `cost_a` and `cost_b` bring the target and the node to the top.
use model_lib.Common.{
  ℕ, zero, suc, ◌+◌, ◌-◌, ◌≤◌, ◌<◌, ◌/◌, ◌≡◌, refl, ap, sym, ◌∙◌, ◌⊎◌, inl, inr, List, [], ◌∷◌,
  arith, length, length-map, ltb, if◌then◌else◌, Bool-cases, All, subst,
}
use model_lib.Common.Int.{ℤ, sub_ℕ, ◌*ℤ◌, ◌-ℤ◌}
use model_lib.Common.Roll.{roll, iterate, turn_right, turn_left-roll, turn_right-roll}
use model_lib.PushSwap.Node.{Node, Key, key, keys}
use model_lib.PushSwap.Cyclic.{Fits}
use model_lib.PushSwap.Position.{node_cost, cost}
use model_lib.PushSwap.Position.Places.{HasPlaces}
use model_lib.PushSwap.Position.Target.{IsTarget, HasTargets}
use model_lib.PushSwap.Adjust.{my_abs}
use model_lib.PushSwap.Adjust.Turning.{spin}

-- The shorter way to turn a list of `size` items by `place`.
short_way : (size place : ℕ) → ℤ
short_way size place = if ltb (size / 2) place then ℤ.negsuc (size - place - 1) else ℤ.pos place

back_way :
    (size place : ℕ) → place < size → sub_ℕ size place *ℤ ℤ.negsuc 0 ≡ ℤ.negsuc (size - place - 1)
unfolding ◌*ℤ◌
back_way size place h = ground arith

back_way_ℤ :
    (size place : ℕ)
    → place < size
    → (ℤ.pos size -ℤ ℤ.pos place) *ℤ ℤ.negsuc 0 ≡ ℤ.negsuc (size - place - 1)
unfolding ◌*ℤ◌ ◌-ℤ◌
back_way_ℤ size place h = ground arith

spin-short_way {ℓ} :
    {A : Type ℓ} (l : List A) (place : ℕ)
    → place < length l
    → spin (short_way (length l) place) l ≡ roll place l
unfolding short_way
spin-short_way l place h = elim (Bool-cases (ltb (length l / 2) place)) [
  | inl t ↦
      let rounds : suc (length l - place - 1) ≡ length l - place = omega arith in
      rw t (ap (λ k. iterate k turn_right l) rounds ∙ turn_right-roll place l)
  | inr t ↦ rw t (turn_left-roll place l (omega arith))
]

short_way_bound : (size place : ℕ) → place < size → my_abs (short_way size place) ≤ size
unfolding short_way my_abs
short_way_bound size place h = ground arith

short_way_still : (size place : ℕ) → place < size → (short_way size place ≡ ℤ.pos 0) ⊎ (2 ≤ size)
unfolding short_way
short_way_still size zero h = inl (ground arith)
short_way_still size (suc place) h = inr (omega arith)

-- The costs of a node: its turns bring a place where it fits to the top of `a`, and the node to
-- the top of `b`.
pub record IsPriced (a b : List Key) (n : Node) : Type 0 where
  pub place : ℕ
  pub inside : place < length a
  pub turn_of_a : spin n.cost_a a ≡ roll place a
  pub fits : Fits (key n) (roll place a)
  pub turn_of_b : spin n.cost_b b ≡ roll n.pos b
  pub bound_a : my_abs n.cost_a ≤ length a
  pub bound_b : my_abs n.cost_b ≤ length b
  pub still_b : (n.cost_b ≡ ℤ.pos 0) ⊎ (2 ≤ length b)

node_cost_b :
    (size_a size_b : ℕ) (n : Node)
    → n.pos < size_b
    → (node_cost size_a size_b n).cost_b ≡ short_way size_b n.pos
unfolding node_cost short_way
node_cost_b size_a size_b n h = rw (back_way size_b n.pos h)

node_cost_a :
    (size_a size_b place : ℕ) (n : Node)
    → n.target_pos ≡ ℤ.pos place
    → place < size_a
    → (node_cost size_a size_b n).cost_a ≡ short_way size_a place
unfolding node_cost short_way
node_cost_a size_a size_b place n e h = rw (e, back_way_ℤ size_a place h) (ground arith)

node_cost-IsPriced :
    (a : List Node) (kb : List Key) (n : Node)
    → n.pos < length kb
    → IsTarget (key n) a n.target_pos
    → IsPriced (keys a) kb (node_cost (length (keys a)) (length kb) n)
unfolding node_cost
node_cost-IsPriced a kb n h t =
    let inside : t.place < length (keys a) = omega (arith, length-map a key, t.inside) in
    let ea = node_cost_a (length (keys a)) (length kb) t.place n t.is_place inside in
    let eb = node_cost_b (length (keys a)) (length kb) n h in
    record {
      place = t.place;
      inside = inside;
      turn_of_a =
          subst (λ c. spin c (keys a) ≡ roll t.place (keys a)) (sym ea)
            (spin-short_way (keys a) t.place inside);
      fits = t.fits;
      turn_of_b = subst (λ c. spin c kb ≡ roll n.pos kb) (sym eb) (spin-short_way kb n.pos h);
      bound_a =
          subst (λ c. my_abs c ≤ length (keys a)) (sym ea)
            (short_way_bound (length (keys a)) t.place inside);
      bound_b = subst (λ c. my_abs c ≤ length kb) (sym eb) (short_way_bound (length kb) n.pos h);
      still_b =
          subst (λ c. (c ≡ ℤ.pos 0) ⊎ (2 ≤ length kb)) (sym eb)
            (short_way_still (length kb) n.pos h);
    }

pub keys-cost : (l : List Node) (size_a size_b : ℕ) → keys (cost l size_a size_b) ≡ keys l
unfolding cost
keys-cost [] size_a size_b = refl
keys-cost (n ∷ l) size_a size_b = ap (◌∷◌ (key n)) (keys-cost l size_a size_b)

pub cost-HasPlaces :
    (k : ℕ) (l : List Node) (size_a size_b : ℕ) → HasPlaces k l → HasPlaces k (cost l size_a size_b)
unfolding cost
cost-HasPlaces k [] size_a size_b h = tt
cost-HasPlaces k (n ∷ l) size_a size_b h = (h.0, cost-HasPlaces (k + 1) l size_a size_b h.1)

-- Given the true sizes, every node is priced.
pub cost-IsPriced :
    (a : List Node) (kb : List Key) (k : ℕ) (l : List Node)
    → HasPlaces k l
    → k + length l ≡ length kb
    → HasTargets a l
    → All (IsPriced (keys a) kb) (cost l (length (keys a)) (length kb))
unfolding cost
cost-IsPriced a kb k [] h e t = tt
cost-IsPriced a kb k (n ∷ l) h e t = (
  node_cost-IsPriced a kb n (omega arith) t.0,
  cost-IsPriced a kb (k + 1) l h.1 (omega arith) t.1,
)
