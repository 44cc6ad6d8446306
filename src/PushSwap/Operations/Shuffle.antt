-- ===== src/PushSwap/Operations/Shuffle.antt =====
-- Instructions only move nodes about: both stacks together stay a permutation.
use model_lib.Common.{
  suc, ◌+◌, ◌≡◌, refl, ap, ◌∙◌, subst, List, [], ◌∷◌, ◌++◌, arith, length, length-append,
  length-map,
}
use model_lib.Common.Roll.{turn_left, turn_right, last_and_rest}
use mathlib.Core.List.{Permᴰ}
use mathlib.Core.List.Permᴰ
use model_lib.PushSwap.Node.{Machine, key, keys, view}
use model_lib.PushSwap.Operations.Replay.{Instruction, swap_top, move_top, step, run, Replays}

module _ {ℓ} {A : Type ℓ} where
  turn_left-perm : (l : List A) → Permᴰ l (turn_left l)
  turn_left-perm [] = Permᴰ.nil
  turn_left-perm (x ∷ xs) = Permᴰ.append_comm (x ∷ []) xs

  last_and_rest-perm :
      (x : A) (l : List A) → Permᴰ (x ∷ l) ((last_and_rest x l).0 ∷ (last_and_rest x l).1)
  last_and_rest-perm x [] = Permᴰ.refl (x ∷ [])
  last_and_rest-perm x (y ∷ ys) =
      Permᴰ.trans (Permᴰ.cons refl (last_and_rest-perm y ys)) (Permᴰ.swap refl refl)

  turn_right-perm : (l : List A) → Permᴰ l (turn_right l)
  turn_right-perm [] = Permᴰ.nil
  turn_right-perm (x ∷ xs) = last_and_rest-perm x xs

  swap_top-perm : (l : List A) → Permᴰ l (swap_top l)
  swap_top-perm [] = Permᴰ.nil
  swap_top-perm (x ∷ []) = Permᴰ.refl (x ∷ [])
  swap_top-perm (x ∷ y ∷ r) = Permᴰ.swap refl refl

  both-perm : {a a' b b' : List A} → Permᴰ a a' → Permᴰ b b' → Permᴰ (a ++ b) (a' ++ b')
  both-perm {a' = a'} {b = b} p q = Permᴰ.trans (Permᴰ.append_right b p) (Permᴰ.append_left a' q)

  push_b-perm : (a b : List A) → Permᴰ (a ++ b) ((move_top a b).0 ++ (move_top a b).1)
  push_b-perm [] b = Permᴰ.refl b
  push_b-perm (x ∷ r) b = Permᴰ.symm (Permᴰ.middle x r b)

  push_a-perm : (a b : List A) → Permᴰ (a ++ b) ((move_top b a).1 ++ (move_top b a).0)
  push_a-perm a [] = Permᴰ.refl (a ++ [])
  push_a-perm a (x ∷ r) = Permᴰ.middle x a r

  step-perm :
      (i : Instruction) (s : List A × List A) → Permᴰ (s.0 ++ s.1) ((step i s).0 ++ (step i s).1)
  step-perm Instruction.swap_a (a, b) = both-perm (swap_top-perm a) (Permᴰ.refl b)
  step-perm Instruction.swap_both (a, b) = both-perm (swap_top-perm a) (swap_top-perm b)
  step-perm Instruction.push_a (a, b) = push_a-perm a b
  step-perm Instruction.push_b (a, b) = push_b-perm a b
  step-perm Instruction.rotate_a (a, b) = both-perm (turn_left-perm a) (Permᴰ.refl b)
  step-perm Instruction.rotate_b (a, b) = both-perm (Permᴰ.refl a) (turn_left-perm b)
  step-perm Instruction.rotate_both (a, b) = both-perm (turn_left-perm a) (turn_left-perm b)
  step-perm Instruction.reverse_a (a, b) = both-perm (turn_right-perm a) (Permᴰ.refl b)
  step-perm Instruction.reverse_b (a, b) = both-perm (Permᴰ.refl a) (turn_right-perm b)
  step-perm Instruction.reverse_both (a, b) = both-perm (turn_right-perm a) (turn_right-perm b)

  pub run-perm :
      (is : List Instruction) (s : List A × List A)
      → Permᴰ (s.0 ++ s.1) ((run is s).0 ++ (run is s).1)
  run-perm [] s = Permᴰ.refl (s.0 ++ s.1)
  run-perm (i ∷ is) s = Permᴰ.trans (step-perm i s) (run-perm is (step i s))

pub Replays-perm :
    {m m' : Machine} → Replays m m' → Permᴰ (keys m.a ++ keys m.b) (keys m'.a ++ keys m'.b)
Replays-perm {m} {m'} r =
    subst (λ s. Permᴰ (keys m.a ++ keys m.b) (s.0 ++ s.1)) r.reached (run-perm r.moves (view m))

length-perm {ℓ} : {A : Type ℓ} {l l' : List A} → Permᴰ l l' → length l ≡ length l'
length-perm Permᴰ.nil = refl
length-perm (Permᴰ.cons e p) = ap suc (length-perm p)
length-perm (Permᴰ.swap e f) = refl
length-perm (Permᴰ.trans p q) = length-perm p ∙ length-perm q

-- No node is lost or made.
pub length-total :
    {m m' : Machine} → Replays m m' → length m.a + length m.b ≡ length m'.a + length m'.b
length-total {m} {m'} r = omega (
  arith,
  length-perm (Replays-perm r),
  length-append (keys m.a) (keys m.b),
  length-append (keys m'.a) (keys m'.b),
  length-map m.a key,
  length-map m.b key,
  length-map m'.a key,
  length-map m'.b key,
)
