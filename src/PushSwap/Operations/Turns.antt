-- ===== src/PushSwap/Operations/Turns.antt =====
-- The walks over the links of operations.c are turns of the list.
use model_lib.Common.{◌≡◌, refl, ap, List, [], ◌∷◌, ◌++◌, Option, map}
use model_lib.Common.Roll.{turn_left, turn_right, last_and_rest}
use mathlib.Core.List.{map-append}
use model_lib.PushSwap.Node.{Text}
use model_lib.PushSwap.Operations.{link_last, unlink_last, rotate_x, reverse_rotate_x}

module _ {ℓ} {A : Type ℓ} where
  link_last-append : (xs : List A) (x : A) → link_last xs x ≡ xs ++ x ∷ []
  unfolding link_last
  link_last-append [] x = refl
  link_last-append (y ∷ ys) x = ap (◌∷◌ y) (link_last-append ys x)

  pub rotate_x-turn_left : (l : List A) (txt : Option Text) → (rotate_x l txt).0 ≡ turn_left l
  unfolding rotate_x
  rotate_x-turn_left [] txt = refl
  rotate_x-turn_left (x ∷ []) txt = refl
  rotate_x-turn_left (x ∷ y ∷ r) txt = link_last-append (y ∷ r) x

  unlink_last_lem : (x : A) (l : List A) → unlink_last x l ≡ last_and_rest x l
  unfolding unlink_last
  unlink_last_lem x [] = refl
  unlink_last_lem x (y ∷ ys) = rw (unlink_last_lem y ys)

  pub reverse_rotate_x-turn_right :
      (l : List A) (txt : Option Text) → (reverse_rotate_x l txt).0 ≡ turn_right l
  unfolding reverse_rotate_x
  reverse_rotate_x-turn_right [] txt = refl
  reverse_rotate_x-turn_right (x ∷ []) txt = refl
  reverse_rotate_x-turn_right (x ∷ y ∷ r) txt =
      ap (λ (c : A × List A). c.0 ∷ c.1) (unlink_last_lem x (y ∷ r))

module _ {ℓ κ} {A : Type ℓ} {B : Type κ} (f : A → B) where
  pub map-turn_left : (l : List A) → map f (turn_left l) ≡ turn_left (map f l)
  map-turn_left [] = refl
  map-turn_left (x ∷ xs) = map-append f xs (x ∷ [])

  map-last_and_rest :
      (x : A) (l : List A)
      → ◌≡◌ {A = B × List B}
          (f (last_and_rest x l).0, map f (last_and_rest x l).1)
          (last_and_rest (f x) (map f l))
  map-last_and_rest x [] = refl
  map-last_and_rest x (y ∷ ys) = ap (λ (c : B × List B). (c.0, f x ∷ c.1)) (map-last_and_rest y ys)

  pub map-turn_right : (l : List A) → map f (turn_right l) ≡ turn_right (map f l)
  map-turn_right [] = refl
  map-turn_right (x ∷ xs) = ap (λ (c : B × List B). c.0 ∷ c.1) (map-last_and_rest x xs)
