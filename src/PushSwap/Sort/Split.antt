-- ===== src/PushSwap/Sort/Split.antt =====
-- The first two loops of `sort_more` leave three nodes in `a`.
use model_lib.Common.{
  ℕ, zero, suc, ◌+◌, ◌/◌, ◌≤◌, ◌<◌, ◌≢◌, ◌≡◌, refl, ap, ◌∙◌, List, [], ◌∷◌, arith, length,
  length-map, some, none, ltb, leb, ◌&&◌, Bool-cases, List-cases, inl, inr, true, false,
}
use model_lib.Common.Roll.{length-turn_left}
use model_lib.PushSwap.Node.{Node, Machine, Key, keys, key, ra, pb}
use model_lib.PushSwap.Operations.{rotate_x, on_a, push_a_to_b}
use model_lib.PushSwap.Operations.Replay.{Replays, Replays-refl, Replays-trans}
use model_lib.PushSwap.Operations.Effects.{rotate_a-Replays, push_b-Replays, view-rotate_a}
use model_lib.PushSwap.Sort.{halve_step, halve_loop, leave_three_loop}

-- `len_b` counts the nodes of `b`, and at least three nodes are in `a`.
pub record IsSplit (len : ℕ) (m : Machine) (len_b : ℕ) : Type 0 where
  pub size_b : len_b ≡ length m.b
  pub size : len ≡ length m.a + length m.b
  pub room : len_b + 3 ≤ len

push_sizes :
    (m : Machine)
    → m.a ≢ []
    → (length (push_a_to_b pb m).a + 1 ≡ length m.a)
      × (length (push_a_to_b pb m).b ≡ length m.b + 1)
unfolding push_a_to_b
push_sizes m h = ground arith

rotate_sizes :
    (m : Machine)
    → (length (on_a rotate_x ra m).a ≡ length m.a) × (length (on_a rotate_x ra m).b ≡ length m.b)
rotate_sizes m =
    let v = view-rotate_a m in
    let m' = on_a rotate_x ra m in
    (
      omega (
        arith,
        ap (λ (s : List Key × List Key). length s.0) v,
        length-turn_left (keys m.a),
        length-map m.a key,
        length-map m'.a key,
      ),
      omega (
        arith,
        ap (λ (s : List Key × List Key). length s.1) v,
        length-map m.b key,
        length-map m'.b key,
      ),
    )

halve_loop-done :
    (rounds : ℕ) (m : Machine) (len len_b : ℕ)
    → (ltb 6 len && ltb len_b (len / 2)) ≡ false
    → halve_loop (suc rounds) m len len_b ≡ some (m, len_b)
unfolding halve_loop
halve_loop-done rounds m len len_b t = λ i. elim (t i) [
  | false ↦ some (m, len_b)
  | true ↦ elim m.a [
    | [] ↦ none
    | top ∷ _ ↦ let s = halve_step top m len len_b in halve_loop rounds s.0 len s.1
  ]
]

halve_loop-round :
    (rounds : ℕ) (m : Machine) (len len_b : ℕ) {x : Node} {r : List Node}
    → m.a ≡ x ∷ r
    → (ltb 6 len && ltb len_b (len / 2)) ≡ true
    → halve_loop (suc rounds) m len len_b
      ≡ (let s = halve_step x m len len_b in halve_loop rounds s.0 len s.1)
unfolding halve_loop
halve_loop-round rounds m len len_b e t = λ i. elim (t i) [
  | false ↦ some (m, len_b)
  | true ↦ elim (e i) [
    | [] ↦ none
    | top ∷ _ ↦ let s = halve_step top m len len_b in halve_loop rounds s.0 len s.1
  ]
]

halve_step_lem :
    (x : Node) (m : Machine) (len len_b : ℕ)
    → m.a ≢ []
    → (ltb 6 len && ltb len_b (len / 2)) ≡ true
    → IsSplit len m len_b
    → let s = halve_step x m len len_b in IsSplit len s.0 s.1 × Replays m s.0
unfolding halve_step
halve_step_lem x m len len_b full t s =
    let small : (6 < len) × (len_b < len / 2) = ground arith in
    elim (Bool-cases (leb x.index (len / 2) && ltb len_b (len / 2))) [
      | inl low ↦
          let in_len : ltb len_b len ≡ true = ground (arith, small.1) in
          rw (low, in_len)
            (
              record {
                size_b = omega (arith, s.size_b, push_sizes m full);
                size = omega (arith, s.size, push_sizes m full);
                room = omega (arith, small);
              },
              push_b-Replays m,
            )
      | inr high ↦ rw high (
        record {
          size_b = omega (arith, s.size_b, rotate_sizes m);
          size = omega (arith, s.size, rotate_sizes m);
          room = s.room;
        },
        rotate_a-Replays m,
      )
    ]

-- The first loop never reads an empty stack, and keeps the counts right.
pub halve_loop_lem :
    (rounds : ℕ) (m : Machine) (len len_b : ℕ)
    → IsSplit len m len_b
    → (r : Machine × ℕ) × (halve_loop rounds m len len_b ≡ some r)
      × IsSplit len r.0 r.1
      × Replays m r.0
unfolding halve_loop
halve_loop_lem zero m len len_b s = ((m, len_b), refl, s, Replays-refl m)
halve_loop_lem (suc rounds) m len len_b s = elim (Bool-cases (ltb 6 len && ltb len_b (len / 2))) [
  | inr t ↦ ((m, len_b), halve_loop-done rounds m len len_b t, s, Replays-refl m)
  | inl t ↦ elim (List-cases m.a) [
    | inl e ↦ absurd (omega (arith, s.size, s.size_b, s.room, ap length e))
    | inr (x, l, e) ↦
        let (s', p) = halve_step_lem x m len len_b (λ q. cc) t s in
        let q = halve_step x m len len_b in
        let (r, done, s'', p') = halve_loop_lem rounds q.0 len q.1 s' in
        (r, halve_loop-round rounds m len len_b e t ∙ done, s'', Replays-trans p p')
  ]
]

-- The second loop pushes as many as it is told, if they are there.
pub leave_three_loop_lem :
    (rounds : ℕ) (m : Machine)
    → rounds ≤ length m.a
    → let m' = leave_three_loop rounds m in
      (length m'.a + rounds ≡ length m.a) × (length m'.b ≡ length m.b + rounds) × Replays m m'
unfolding leave_three_loop
leave_three_loop_lem zero m h = (omega arith, omega arith, Replays-refl m)
leave_three_loop_lem (suc rounds) m h =
    let full : m.a ≢ [] = λ e. omega (arith, ap length e) in
    let (sa, sb) = push_sizes m full in
    let (ea, eb, p) = leave_three_loop_lem rounds (push_a_to_b pb m) (omega (arith, sa)) in
    (omega (arith, sa, ea), omega (arith, sb, eb), Replays-trans (push_b-Replays m) p)
