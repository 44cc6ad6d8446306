-- ===== src/PushSwap/Sort/Numbers.antt =====
-- Instructions on keys are instructions on numbers.
use model_lib.Common.{◌≡◌, refl, ap, ◌∙◌, subst, List, [], ◌∷◌, ◌++◌, map}
use mathlib.Core.List.{Permᴰ, Perm}
use mathlib.Core.List.Permᴰ
use model_lib.PushSwap.Node.{Node, Key, keys}
use model_lib.PushSwap.Operations.Turns.{map-turn_left, map-turn_right}
use model_lib.PushSwap.Operations.Replay.{Instruction, step, run, swap_top}
use model_lib.PushSwap.Operations.Shuffle.{run-perm}
use model_lib.PushSwap.Sort.Ranks.{numbers}

-- Instructions act alike on what a function makes of the items.
module _ {ℓ κ} {A : Type ℓ} {B : Type κ} (f : A → B) where
  abbrev pub mapped : List A × List A → List B × List B
  mapped s = (map f s.0, map f s.1)

  map-swap_top : (l : List A) → map f (swap_top l) ≡ swap_top (map f l)
  map-swap_top [] = refl
  map-swap_top (x ∷ []) = refl
  map-swap_top (x ∷ y ∷ l) = refl

  map-step : (i : Instruction) (s : List A × List A) → mapped (step i s) ≡ step i (mapped s)
  map-step Instruction.swap_a (a, b) = λ k. (map-swap_top a k, map f b)
  map-step Instruction.swap_both (a, b) = λ k. (map-swap_top a k, map-swap_top b k)
  map-step Instruction.push_a (a, []) = refl
  map-step Instruction.push_a (a, x ∷ b) = refl
  map-step Instruction.push_b ([], b) = refl
  map-step Instruction.push_b (x ∷ a, b) = refl
  map-step Instruction.rotate_a (a, b) = λ k. (map-turn_left f a k, map f b)
  map-step Instruction.rotate_b (a, b) = λ k. (map f a, map-turn_left f b k)
  map-step Instruction.rotate_both (a, b) = λ k. (map-turn_left f a k, map-turn_left f b k)
  map-step Instruction.reverse_a (a, b) = λ k. (map-turn_right f a k, map f b)
  map-step Instruction.reverse_b (a, b) = λ k. (map f a, map-turn_right f b k)
  map-step Instruction.reverse_both (a, b) = λ k. (map-turn_right f a k, map-turn_right f b k)

  pub map-run :
      (is : List Instruction) (s : List A × List A) → mapped (run is s) ≡ run is (mapped s)
  map-run [] s = refl
  map-run (i ∷ is) s = map-run is (step i s) ∙ ap (run is) (map-step i s)

pub numbers_of_keys : (l : List Node) → map (λ (k : Key). k.1) (keys l) ≡ numbers l
numbers_of_keys [] = refl
numbers_of_keys (x ∷ l) = ap (◌∷◌ x.number) (numbers_of_keys l)

-- A game that starts and ends with `b` empty permutes `a`.
pub run-same {ℓ} :
    {A : Type ℓ} (is : List Instruction) (l l' : List A) → run is (l, []) ≡ (l', []) → Perm l l'
run-same is l l' e =
    ∣ Permᴰ.trans (Permᴰ.symm (Permᴰ.append-nil l)) (
      Permᴰ.trans (subst (λ s. Permᴰ (l ++ []) (s.0 ++ s.1)) e (run-perm is (l, [])))
        (Permᴰ.append-nil l')) ∣₁
