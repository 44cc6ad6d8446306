-- ===== src/PushSwap/Adjust/Turning.antt =====
-- What the turns of effective_adjust.c do to the keys, and that they replay.
use model_lib.Common.{
  ℕ, zero, suc, ◌≤◌, ◌≡◌, refl, ap, ◌∙◌, ◌⊎◌, inr, List, arith, length, length-map,
}
use model_lib.Common.Int.{ℤ}
use model_lib.Common.Roll.{turn_left, turn_right, iterate, length-turn_left, length-turn_right}
use model_lib.PushSwap.Node.{Node, Machine, Key, key, keys, view}
use model_lib.PushSwap.Operations.{multiple_operation}
use model_lib.PushSwap.Operations.Replay.{Replays, Replays-refl, Replays-trans, step, Instruction}
use model_lib.PushSwap.Operations.Effects.{
  rotate_a-Replays, reverse_a-Replays, rotate_b-Replays, reverse_b-Replays, push_a-Replays,
  view-push_a, view-rotate_a, view-reverse_a, view-rotate_b, view-reverse_b,
}
use model_lib.PushSwap.Operations.Both.{
  rotate_both-Replays, reverse_both-Replays, view-rotate_both, view-reverse_both,
}
use model_lib.PushSwap.Adjust.{
  repeat, same_moves_loop, same_moves, negated, turn_a, turn_b, do_move,
}

-- A turn by a signed cost: above 0 the first items go behind, below 0 the last ones in front.
abbrev pub spin {ℓ} : {A : Type ℓ} → ℤ → List A → List A
spin (ℤ.pos n) l = iterate n turn_left l
spin (ℤ.negsuc n) l = iterate (suc n) turn_right l

pub repeat-Replays :
    (turn : Machine → Machine)
    → ((m : Machine) → Replays m (turn m))
    → (n : ℕ) (m : Machine) → Replays m (repeat n turn m)
unfolding repeat
repeat-Replays turn h zero m = Replays-refl m
repeat-Replays turn h (suc n) m = Replays-trans (h m) (repeat-Replays turn h n (turn m))

-- A turn of one stack, made `n` times.
module _ (turn : Machine → Machine) (f : List Key → List Key) where
  pub view-repeat_a :
      ((m : Machine) → view (turn m) ≡ (f (keys m.a), keys m.b))
      → (n : ℕ) (m : Machine) → view (repeat n turn m) ≡ (iterate n f (keys m.a), keys m.b)
  unfolding repeat
  view-repeat_a h zero m = refl
  view-repeat_a h (suc n) m =
      view-repeat_a h n (turn m) ∙ ap (λ (s : List Key × List Key). (iterate n f s.0, s.1)) (h m)

  pub view-repeat_b :
      ((m : Machine) → view (turn m) ≡ (keys m.a, f (keys m.b)))
      → (n : ℕ) (m : Machine) → view (repeat n turn m) ≡ (keys m.a, iterate n f (keys m.b))
  unfolding repeat
  view-repeat_b h zero m = refl
  view-repeat_b h (suc n) m =
      view-repeat_b h n (turn m) ∙ ap (λ (s : List Key × List Key). (s.0, iterate n f s.1)) (h m)

view-turn_a : (c : ℤ) (m : Machine) → view (turn_a c m) ≡ (spin c (keys m.a), keys m.b)
unfolding turn_a
view-turn_a (ℤ.pos n) m = view-repeat_a _ turn_left view-rotate_a n m
view-turn_a (ℤ.negsuc n) m = view-repeat_a _ turn_right view-reverse_a (suc n) m

view-turn_b : (c : ℤ) (m : Machine) → view (turn_b c m) ≡ (keys m.a, spin c (keys m.b))
unfolding turn_b
view-turn_b (ℤ.pos n) m = view-repeat_b _ turn_left view-rotate_b n m
view-turn_b (ℤ.negsuc n) m = view-repeat_b _ turn_right view-reverse_b (suc n) m

turn_a-Replays : (c : ℤ) (m : Machine) → Replays m (turn_a c m)
unfolding turn_a
turn_a-Replays (ℤ.pos n) m = repeat-Replays _ rotate_a-Replays n m
turn_a-Replays (ℤ.negsuc n) m = repeat-Replays _ reverse_a-Replays (suc n) m

turn_b-Replays : (c : ℤ) (m : Machine) → Replays m (turn_b c m)
unfolding turn_b
turn_b-Replays (ℤ.pos n) m = repeat-Replays _ rotate_b-Replays n m
turn_b-Replays (ℤ.negsuc n) m = repeat-Replays _ reverse_b-Replays (suc n) m

-- What the loops of `same_moves` leave to be turned makes up the whole turn.
module _ (op : ℕ) (f : List Key → List Key) where
  view-same_moves_loop :
      ((m : Machine) → view (multiple_operation m op) ≡ (f (keys m.a), f (keys m.b)))
      → (i j : ℕ) (m : Machine)
      → let r = same_moves_loop op i j m in
        ◌≡◌ {A = List Key × List Key}
          (iterate r.1 f (keys r.0.a), iterate r.2 f (keys r.0.b))
          (iterate i f (keys m.a), iterate j f (keys m.b))
  unfolding same_moves_loop
  view-same_moves_loop h zero j m = refl
  view-same_moves_loop h (suc i) zero m = refl
  view-same_moves_loop h (suc i) (suc j) m =
      view-same_moves_loop h i j (multiple_operation m op)
      ∙ ap (λ (s : List Key × List Key). (iterate i f s.0, iterate j f s.1)) (h m)

length-keys-turn :
    (f : List Key → List Key)
    → ((l : List Key) → length (f l) ≡ length l)
    → (l l' : List Node) → keys l' ≡ f (keys l)
    → length l' ≡ length l
length-keys-turn f keep l l' e =
    omega (arith, length-map l key, length-map l' key, keep (keys l), ap length e)

module _ (op : ℕ) (f : List Key → List Key) (keep : (l : List Key) → length (f l) ≡ length l)
    (effect : (m : Machine) → view (multiple_operation m op) ≡ (f (keys m.a), f (keys m.b)))
    (replay : (m : Machine) → 2 ≤ length m.b → Replays m (multiple_operation m op)) where
  same_moves_loop-Replays :
      (i j : ℕ) (m : Machine) → (j ≡ 0) ⊎ (2 ≤ length m.b) → Replays m (same_moves_loop op i j m).0
  unfolding same_moves_loop
  same_moves_loop-Replays zero j m h = Replays-refl m
  same_moves_loop-Replays (suc i) zero m h = Replays-refl m
  same_moves_loop-Replays (suc i) (suc j) m h =
      let long : 2 ≤ length m.b = omega arith in
      let m' = multiple_operation m op in
      Replays-trans (replay m long) (
        same_moves_loop-Replays i j m' (
          inr (
            omega (
              arith,
              length-keys-turn f keep m.b m'.b (ap (λ (s : List Key × List Key). s.1) (effect m)),
            ))))

abbrev IsReportable : ℤ → Machine → Type 0
IsReportable cost_b m = (cost_b ≡ ℤ.pos 0) ⊎ (2 ≤ length m.b)

spin-negated {ℓ} : {A : Type ℓ} (n : ℕ) (l : List A) → spin (negated n) l ≡ iterate n turn_right l
spin-negated zero l = refl
spin-negated (suc n) l = refl

pub view-same_moves :
    (m : Machine) (cost_a cost_b : ℤ)
    → let r = same_moves m cost_a cost_b in
      ◌≡◌ {A = List Key × List Key}
        (spin r.1 (keys r.0.a), spin r.2 (keys r.0.b))
        (spin cost_a (keys m.a), spin cost_b (keys m.b))
unfolding same_moves
view-same_moves m (ℤ.pos i) (ℤ.pos j) = view-same_moves_loop 2 turn_left view-rotate_both i j m
view-same_moves m (ℤ.negsuc i) (ℤ.negsuc j) =
    let r = same_moves_loop 3 (suc i) (suc j) m in
    (λ k. (spin-negated r.1 (keys r.0.a) k, spin-negated r.2 (keys r.0.b) k))
    ∙ view-same_moves_loop 3 turn_right view-reverse_both (suc i) (suc j) m
view-same_moves m (ℤ.pos i) (ℤ.negsuc j) = refl
view-same_moves m (ℤ.negsuc i) (ℤ.pos j) = refl

same_moves-Replays :
    (m : Machine) (cost_a cost_b : ℤ)
    → IsReportable cost_b m
    → Replays m (same_moves m cost_a cost_b).0
unfolding same_moves
same_moves-Replays m (ℤ.pos i) (ℤ.pos j) h =
    same_moves_loop-Replays 2 turn_left length-turn_left view-rotate_both rotate_both-Replays i j m
      (ground arith)
same_moves-Replays m (ℤ.negsuc i) (ℤ.negsuc j) h =
    same_moves_loop-Replays 3 turn_right length-turn_right view-reverse_both reverse_both-Replays
      (suc i) (suc j) m (ground arith)
same_moves-Replays m (ℤ.pos i) (ℤ.negsuc j) h = Replays-refl m
same_moves-Replays m (ℤ.negsuc i) (ℤ.pos j) h = Replays-refl m

-- However the turns are shared out, `a` and `b` end turned by their whole costs, and the first of
-- `b` goes on top of `a`.
pub view-do_move :
    (m : Machine) (cost_a cost_b : ℤ)
    → view (do_move m cost_a cost_b)
      ≡ step Instruction.push_a (spin cost_a (keys m.a), spin cost_b (keys m.b))
unfolding do_move
view-do_move m cost_a cost_b =
    let r = same_moves m cost_a cost_b in
    let m₁ = turn_a r.1 r.0 in
    view-push_a (turn_b r.2 m₁)
    ∙ ap (step Instruction.push_a) (
        view-turn_b r.2 m₁
        ∙ ap (λ (s : List Key × List Key). (s.0, spin r.2 s.1)) (view-turn_a r.1 r.0)
        ∙ view-same_moves m cost_a cost_b)

-- The move is played by instructions, if `b` has the two nodes that `rr` and `rrr` need.
pub do_move-Replays :
    (m : Machine) (cost_a cost_b : ℤ)
    → (cost_b ≡ ℤ.pos 0) ⊎ (2 ≤ length m.b)
    → Replays m (do_move m cost_a cost_b)
unfolding do_move
do_move-Replays m cost_a cost_b h =
    let r = same_moves m cost_a cost_b in
    let m₁ = turn_a r.1 r.0 in
    Replays-trans (same_moves-Replays m cost_a cost_b h) (
      Replays-trans (turn_a-Replays r.1 r.0)
        (Replays-trans (turn_b-Replays r.2 m₁) (push_a-Replays (turn_b r.2 m₁))))
