-- ===== src/PushSwap/Operations/Replay.antt =====
-- The rules of the game that the program plays, and what it means that a run of the program
-- follows them: what it wrote are instructions that lead from the stacks before to those after.
use model_lib.Common.{◌≡◌, refl, ap, ◌∙◌, sym, List, [], ◌∷◌, ◌++◌, map}
use model_lib.Common.Roll.{turn_left, turn_right}
use mathlib.Core.List.{append-nil, append_assoc, map-append}
use model_lib.PushSwap.Node.{Text, Machine, view, ra, rb, rra, rrb, sa, pa, pb, ss, rr, rrr}

pub data Instruction : Type 0 where
  swap_a swap_both push_a push_b rotate_a rotate_b rotate_both : Instruction
  reverse_a reverse_b reverse_both : Instruction

abbrev pub text : Instruction → Text
text Instruction.swap_a = sa
text Instruction.swap_both = ss
text Instruction.push_a = pa
text Instruction.push_b = pb
text Instruction.rotate_a = ra
text Instruction.rotate_b = rb
text Instruction.rotate_both = rr
text Instruction.reverse_a = rra
text Instruction.reverse_b = rrb
text Instruction.reverse_both = rrr

module _ {ℓ} {A : Type ℓ} where
  abbrev pub swap_top : List A → List A
  swap_top (x ∷ y ∷ r) = y ∷ x ∷ r
  swap_top l = l

  -- The first item of the first list goes on the second.
  abbrev pub move_top : List A → List A → List A × List A
  move_top [] to = ([], to)
  move_top (x ∷ r) to = (r, x ∷ to)

  abbrev pub step : Instruction → List A × List A → List A × List A
  step Instruction.swap_a (a, b) = (swap_top a, b)
  step Instruction.swap_both (a, b) = (swap_top a, swap_top b)
  step Instruction.push_a (a, b) = let r = move_top b a in (r.1, r.0)
  step Instruction.push_b (a, b) = move_top a b
  step Instruction.rotate_a (a, b) = (turn_left a, b)
  step Instruction.rotate_b (a, b) = (a, turn_left b)
  step Instruction.rotate_both (a, b) = (turn_left a, turn_left b)
  step Instruction.reverse_a (a, b) = (turn_right a, b)
  step Instruction.reverse_b (a, b) = (a, turn_right b)
  step Instruction.reverse_both (a, b) = (turn_right a, turn_right b)

  abbrev pub run : List Instruction → List A × List A → List A × List A
  run [] s = s
  run (i ∷ is) s = run is (step i s)

  pub run-append :
      (is js : List Instruction) (s : List A × List A) → run (is ++ js) s ≡ run js (run is s)
  run-append [] js s = refl
  run-append (i ∷ is) js s = run-append is js (step i s)

-- The writes between `m` and `m'` are instructions, and they lead from the one to the other.
pub record Replays (m m' : Machine) : Type 0 where
  pub moves : List Instruction
  pub printed : m'.out ≡ m.out ++ map text moves
  pub reached : run moves (view m) ≡ view m'

pub Replays-refl : (m : Machine) → Replays m m
Replays-refl m = record { moves = []; printed = sym (append-nil m.out); reached = refl }

-- A stage that changes neither the keys nor the output.
pub Replays-still : (m m' : Machine) → view m ≡ view m' → m'.out ≡ m.out → Replays m m'
Replays-still m m' v o = record { moves = []; printed = o ∙ sym (append-nil m.out); reached = v }

pub Replays-one :
    (i : Instruction) (m m' : Machine)
    → step i (view m) ≡ view m'
    → m'.out ≡ m.out ++ text i ∷ []
    → Replays m m'
Replays-one i m m' v o = record { moves = i ∷ []; printed = o; reached = v }

pub Replays-trans : {m m' m'' : Machine} → Replays m m' → Replays m' m'' → Replays m m''
Replays-trans {m} {m'} {m''} r s = record {
  moves = r.moves ++ s.moves;
  printed =
      s.printed
      ∙ ap (λ o. o ++ map text s.moves) r.printed
      ∙ append_assoc m.out (map text r.moves) (map text s.moves)
      ∙ ap (◌++◌ m.out) (sym (map-append text r.moves s.moves));
  reached = run-append r.moves s.moves (view m) ∙ ap (run s.moves) r.reached ∙ s.reached;
}
