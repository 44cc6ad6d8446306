-- ===== src/Common/Roll.antt =====
-- Turning a list: `roll n l` has the first `n` items moved behind the others.
use Prim.Native.Nat.{ℕ, zero, suc, ◌-◌, ◌≤◌, ◌<◌}
use mathlib.Core.Path.{◌≡◌, refl, sym, ap, subst, ◌∙◌}
use mathlib.Core.Option.{some}
use mathlib.Core.List.{List, [], ◌∷◌, ◌++◌, append-nil, append_assoc}
use mathlib.Core.List.{Permᴰ}
use mathlib.Core.List.Permᴰ
use native.Mathlib.Omega.{arith}
use model_lib.Common.Lists.{
  length, take, drop, get_elem?, length-append, length-take, length-drop, take-append-drop,
}
use model_lib.Common.Each.{All, All-perm}

module _ {ℓ} {A : Type ℓ} where
  abbrev pub roll : ℕ → List A → List A
  roll n l = drop n l ++ take n l

  -- One item moved from the front to the back.
  abbrev pub turn_left : List A → List A
  turn_left [] = []
  turn_left (x ∷ xs) = xs ++ x ∷ []

  -- One item moved from the back to the front.
  abbrev pub last_and_rest : A → List A → A × List A
  last_and_rest x [] = (x, [])
  last_and_rest x (y ∷ ys) = let r = last_and_rest y ys in (r.0, x ∷ r.1)

  abbrev pub turn_right : List A → List A
  turn_right [] = []
  turn_right (x ∷ xs) = let r = last_and_rest x xs in r.0 ∷ r.1

  last_and_rest-append : (x y : A) (xs : List A) → last_and_rest x (xs ++ y ∷ []) ≡ (y, x ∷ xs)
  last_and_rest-append x y [] = refl
  last_and_rest-append x y (z ∷ xs) = rw (last_and_rest-append z y xs)

  pub turn_right-turn_left : (l : List A) → turn_right (turn_left l) ≡ l
  turn_right-turn_left [] = refl
  turn_right-turn_left (x ∷ []) = refl
  turn_right-turn_left (x ∷ y ∷ r) = rw (last_and_rest-append y x r)

  abbrev pub iterate : ℕ → (List A → List A) → List A → List A
  iterate zero f l = l
  iterate (suc n) f l = iterate n f (f l)

  pub iterate_comm :
      (n : ℕ) (f : List A → List A) (l : List A) → iterate n f (f l) ≡ f (iterate n f l)
  iterate_comm zero f l = refl
  iterate_comm (suc n) f l = iterate_comm n f (f l)

  pub iterate-turn_left : (xs ys : List A) → iterate (length xs) turn_left (xs ++ ys) ≡ ys ++ xs
  iterate-turn_left [] ys = sym (append-nil ys)
  iterate-turn_left (x ∷ xs) ys =
      ap (iterate (length xs) turn_left) (append_assoc xs ys (x ∷ []))
      ∙ iterate-turn_left xs (ys ++ x ∷ [])
      ∙ append_assoc ys (x ∷ []) xs

  iterate-turn_right-turn_left :
      (n : ℕ) (l : List A) → iterate n turn_right (iterate n turn_left l) ≡ l
  iterate-turn_right-turn_left zero l = refl
  iterate-turn_right-turn_left (suc n) l =
      ap (λ m. iterate n turn_right (turn_right m)) (iterate_comm n turn_left l)
      ∙ ap (iterate n turn_right) (turn_right-turn_left (iterate n turn_left l))
      ∙ iterate-turn_right-turn_left n l

  pub iterate-turn_right : (xs ys : List A) → iterate (length ys) turn_right (xs ++ ys) ≡ ys ++ xs
  iterate-turn_right xs ys =
      ap (iterate (length ys) turn_right) (sym (iterate-turn_left ys xs))
      ∙ iterate-turn_right-turn_left (length ys) (ys ++ xs)

  -- `n` turns one way bring the item at `n` to the front.
  pub turn_left-roll : (n : ℕ) (l : List A) → n ≤ length l → iterate n turn_left l ≡ roll n l
  turn_left-roll n l h =
      let e : length (take n l) ≡ n = omega (arith, length-take n l) in
      ap (λ k. iterate k turn_left l) (sym e)
      ∙ ap (iterate (length (take n l)) turn_left) (sym (take-append-drop n l))
      ∙ iterate-turn_left (take n l) (drop n l)

  -- As many turns the other way as there are items from `n` on do the same.
  pub turn_right-roll : (n : ℕ) (l : List A) → iterate (length l - n) turn_right l ≡ roll n l
  turn_right-roll n l =
      let e : length (drop n l) ≡ length l - n = length-drop n l in
      ap (λ k. iterate k turn_right l) (sym e)
      ∙ ap (iterate (length (drop n l)) turn_right) (sym (take-append-drop n l))
      ∙ iterate-turn_right (take n l) (drop n l)

  drop-get_elem? :
      (n : ℕ) (l : List A) {x : A} → get_elem? l n ≡ some x → (r : List A) × (drop n l ≡ x ∷ r)
  drop-get_elem? n [] h = cc
  drop-get_elem? zero (y ∷ ys) h = (ys, cc)
  drop-get_elem? (suc n) (y ∷ ys) h = drop-get_elem? n ys h

  pub roll-get_elem? :
      (n : ℕ) (l : List A) {x : A} → get_elem? l n ≡ some x → (r : List A) × (roll n l ≡ x ∷ r)
  roll-get_elem? n l h =
      let d = drop-get_elem? n l h in (d.0 ++ take n l, ap (λ m. m ++ take n l) d.1)

  pub get_elem?-lt : (l : List A) (n : ℕ) {x : A} → get_elem? l n ≡ some x → n < length l
  get_elem?-lt [] n h = cc
  get_elem?-lt (y ∷ ys) zero h = omega arith
  get_elem?-lt (y ∷ ys) (suc n) h = omega (arith, get_elem?-lt ys n h)

  pub roll-perm : (n : ℕ) (l : List A) → Permᴰ l (roll n l)
  roll-perm n l =
      subst (λ m. Permᴰ m (roll n l)) (take-append-drop n l)
        (Permᴰ.append_comm (take n l) (drop n l))

  pub length-roll : (n : ℕ) (l : List A) → length (roll n l) ≡ length l
  length-roll n l = omega (
    arith,
    length-append (drop n l) (take n l),
    length-append (take n l) (drop n l),
    ap length (take-append-drop n l),
  )

module _ {ℓ κ} {A : Type ℓ} (P : A → Type κ) where
  pub All-roll : (n : ℕ) (l : List A) → All P l → All P (roll n l)
  All-roll n l h = All-perm P (roll-perm n l) h

pub length-turn_left {ℓ} : {A : Type ℓ} (l : List A) → length (turn_left l) ≡ length l
length-turn_left [] = refl
length-turn_left (x ∷ xs) = omega (arith, length-append xs (x ∷ []))

length-last_and_rest {ℓ} :
    {A : Type ℓ} (x : A) (l : List A) → length (last_and_rest x l).1 ≡ length l
length-last_and_rest x [] = refl
length-last_and_rest x (y ∷ ys) = ap suc (length-last_and_rest y ys)

pub length-turn_right {ℓ} : {A : Type ℓ} (l : List A) → length (turn_right l) ≡ length l
length-turn_right [] = refl
length-turn_right (x ∷ xs) = ap suc (length-last_and_rest x xs)
