-- ===== src/Philosophers/Step/Halt.antt =====
-- Once a philosopher is dead or all are full, every thread ends.
use model_lib.Common.{
  ℕ, zero, suc, ◌+◌, ◌*◌, ◌≤◌, ◌<◌, ◌≢◌, ◌≡◌, refl, ap, sym, subst, ◌==◌, Bool-cases, true, arith,
  ◌⊎◌, inl, inr,
}
use model_lib.Philosophers.Table.{Pc, Table}
use model_lib.Philosophers.Step.{Outcome, dead_or_full, routine, later, Step, Reach}
use model_lib.Philosophers.Step.Sound.{IsSound}
use model_lib.Philosophers.Step.Safe.{IsReachable, IsReachable-IsSound, Step-IsSound}
use model_lib.Philosophers.Step.Progress.{sound_goes}
use model_lib.Philosophers.Step.Near.{left, Nears, routine-Nears}

-- The steps that the first `n` philosophers have left.
abbrev pub total : (n : ℕ) → Table → ℕ
total zero t = 0
total (suc n) t = left (t.philos n).pc + total n t

total-same :
    (n : ℕ) (t u : Table) (k : ℕ)
    → n ≤ k
    → ((j : ℕ) → k ≢ j → (u.philos j).pc ≡ (t.philos j).pc)
    → total n u ≡ total n t
total-same zero t u k h others = refl
total-same (suc n) t u k h others =
    let e : left (u.philos n).pc ≡ left (t.philos n).pc = ap left (others n (ground arith)) in
    omega (arith, e, total-same n t u k (omega arith) others)

total-lt : (n : ℕ) (t u : Table) (k : ℕ) → k < n → Nears t k u → total n u < total n t
total-lt zero t u k h near = absurd (omega arith)
total-lt (suc n) t u k h near = elim (Bool-cases (k == n)) [
  | inl b ↦
      let e : k ≡ n = ground arith in
      let less : left (u.philos n).pc < left (t.philos n).pc =
        subst (λ k. left (u.philos k).pc < left (t.philos k).pc) e near.less in
      omega (arith, less, total-same n t u k (omega (arith, e)) near.others)
  | inr b ↦
      let apart : k ≢ n = ground arith in
      let e : left (u.philos n).pc ≡ left (t.philos n).pc = ap left (near.others n apart) in
      let below : k < n = ground (arith, b) in omega (arith, e, total-lt n t u k below near)
]

-- Every philosopher has ended, or one has not.
abbrev pub HaveEnded : (n : ℕ) → Table → Type 0
HaveEnded n t = (k : ℕ) → k < n → (t.philos k).pc ≡ Pc.ends

ends_or_not : (pc : Pc) → (pc ≡ Pc.ends) ⊎ (pc ≢ Pc.ends)
ends_or_not Pc.ends = inl refl
ends_or_not Pc.enters = inr cc
ends_or_not _ = inr (λ e. cc e)

HaveEnded-or :
    (n : ℕ) (t : Table) → HaveEnded n t ⊎ ((k : ℕ) × (k < n) × ((t.philos k).pc ≢ Pc.ends))
HaveEnded-or zero t = inl (λ k h. absurd (omega (arith, h)))
HaveEnded-or (suc n) t = elim (ends_or_not (t.philos n).pc) [
  | inr alive ↦ inr (n, omega arith, alive)
  | inl over ↦ elim (HaveEnded-or n t) [
    | inr (k, h, alive) ↦ inr (k, omega arith, alive)
    | inl all ↦ inl (λ k h. elim (Bool-cases (k == n)) [
      | inl b ↦ let e : n ≡ k = ground arith in subst (λ k. (t.philos k).pc ≡ Pc.ends) e over
      | inr b ↦ all k (ground (arith, b, h))
    ])
  ]
]

Reach-trans : {s t u : Table} → Reach s t → Reach t u → Reach s u
Reach-trans r Reach.here = r
Reach-trans r (Reach.next q st) = Reach.next (Reach-trans r q) st

left-le : (pc : Pc) → left pc ≤ 8
left-le Pc.ends = omega arith
left-le _ = omega arith

total-le : (n : ℕ) (t : Table) → total n t ≤ 8 * n
total-le zero t = omega arith
total-le (suc n) t = omega (arith, left-le (t.philos n).pc, total-le n t)

total-later : (n d : ℕ) (t : Table) → total n (later d t) ≡ total n t
total-later zero d t = refl
total-later (suc n) d t = ap (λ k. left (t.philos n).pc + k) (total-later n d t)

halt :
    (fuel n : ℕ) (t : Table)
    → 1 < n
    → IsSound n t
    → dead_or_full t ≡ true
    → total n t < fuel
    → (u : Table) × Reach t u × HaveEnded n u
halt zero n t many s stop h = absurd (omega arith)
halt (suc fuel) n t many s stop h = elim (HaveEnded-or n t) [
  | inl all ↦ (t, Reach.here, all)
  | inr (k, inside, alive) ↦
      let (j, below, (d, u, e)) = sound_goes n t s many k inside alive in
      let near = routine-Nears (later d t) j stop u e in
      let tick : Step t (later d t) = Step.ticks d refl in
      let move : Step (later d t) u = Step.eats_on j (subst (◌<◌ j) (sym s.size) below) e in
      let sound = Step-IsSound many (Step-IsSound many s tick) move in
      let (v, r, all) =
        halt fuel n u many sound near.stopped
          (omega (arith, total-lt n (later d t) u j below near, total-later n d t, h)) in
      (v, Reach-trans (Reach.next (Reach.next Reach.here tick) move) r, all)
]

-- When a run of several philosophers has a death or is full, it can go on until every philosopher
-- has ended; and each step of a philosopher then lowers the number of steps that they have left,
-- which is at most eight for each, so that the threads do end.
pub dead_or_full-HaveEnded :
    (n : ℕ) (t : Table)
    → 1 < n
    → IsReachable n t
    → dead_or_full t ≡ true
    → ((u : Table) × Reach t u × HaveEnded n u)
      × (total n t ≤ 8 * n)
      × ((k : ℕ) (u : Table)
          → k < n
          → routine t k ≡ Outcome.moves u
          → (total n u < total n t) × (dead_or_full u ≡ true))
dead_or_full-HaveEnded n t many r stop = (
  halt (suc (total n t)) n t many (IsReachable-IsSound n t many r) stop (omega arith),
  total-le n t,
  λ k u inside e.
      let near = routine-Nears t k stop u e in (total-lt n t u k inside near, near.stopped),
)
