-- ===== src/PushSwap/Position/Places.antt =====
-- `current_pos` writes each node's place, and nothing else changes.
use model_lib.Common.{
  ℕ, zero, suc, ◌+◌, ◌≡◌, refl, ap, List, [], ◌∷◌, arith, length, some, get_elem?, length-map,
}
use mathlib.Core.Option.{some-injective}
use model_lib.PushSwap.Node.{Node, key, keys}
use model_lib.PushSwap.Position.{current_pos_loop, current_pos}

-- The nodes hold their places, counted from `n`.
abbrev pub HasPlaces : ℕ → List Node → Type 0
HasPlaces n [] = Unit
HasPlaces n (x ∷ xs) = (x.pos ≡ n) × HasPlaces (n + 1) xs

pub HasPlaces-get_elem? :
    (n : ℕ) (l : List Node) (i : ℕ) (x : Node)
    → HasPlaces n l
    → get_elem? l i ≡ some x
    → x.pos ≡ n + i
HasPlaces-get_elem? n [] i x h e = cc
HasPlaces-get_elem? n (y ∷ ys) zero x h e =
    let same : y.pos ≡ x.pos = ap (λ (z : Node). z.pos) (some-injective y x e) in omega arith
HasPlaces-get_elem? n (y ∷ ys) (suc i) x h e =
    omega (arith, HasPlaces-get_elem? (n + 1) ys i x h.1 e)

current_pos_loop-HasPlaces : (n : ℕ) (l : List Node) → HasPlaces n (current_pos_loop n l)
unfolding current_pos_loop
current_pos_loop-HasPlaces n [] = tt
current_pos_loop-HasPlaces n (x ∷ xs) = (refl, current_pos_loop-HasPlaces (n + 1) xs)

keys-current_pos_loop : (n : ℕ) (l : List Node) → keys (current_pos_loop n l) ≡ keys l
unfolding current_pos_loop
keys-current_pos_loop n [] = refl
keys-current_pos_loop n (x ∷ xs) = ap (◌∷◌ (key x)) (keys-current_pos_loop (n + 1) xs)

pub current_pos-HasPlaces : (l : List Node) → HasPlaces 0 (current_pos l)
unfolding current_pos
current_pos-HasPlaces l = current_pos_loop-HasPlaces 0 l

pub keys-current_pos : (l : List Node) → keys (current_pos l) ≡ keys l
unfolding current_pos
keys-current_pos l = keys-current_pos_loop 0 l

-- Stacks with the same keys have the same size.
pub length-eq_of_keys : (l l' : List Node) → keys l ≡ keys l' → length l ≡ length l'
length-eq_of_keys l l' e = omega (arith, length-map l key, length-map l' key, ap length e)
