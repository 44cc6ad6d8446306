-- ===== src/Philosophers/Step/Safe.antt =====
-- What holds in every run of several philosophers.
use model_lib.Common.{
  ℕ, ◌<◌, ◌≢◌, ◌≡◌, refl, ap, sym, subst, ◌∙◌, Option, Option-cases, some, arith, ◌⊎◌, inl, inr,
}
use mathlib.Core.Option.{some-injective}
use model_lib.Philosophers.Table.{Pc, Table, Monitor, lfork, rfork, init_forks_and_philos}
use model_lib.Philosophers.Step.{Outcome, print_message, routine, watch, monitor, Step, Reach}
use model_lib.Philosophers.Step.Forks.{AreHeld}
use model_lib.Philosophers.Step.Sound.{IsSound, Keeps, run-Keeps}

-- The monitor leaves the forks and the philosophers alone.
abbrev pub IsUntouched : (t u : Table) → Type 0
IsUntouched t u =
    (u.nmbr_of_philos ≡ t.nmbr_of_philos) × (u.forks ≡ t.forks) × (u.philos ≡ t.philos)

untouched : (t v u : Table) → IsUntouched t v → some v ≡ some u → IsUntouched t u
untouched t v u (a, b, c) e =
    let w : v ≡ u = some-injective v u e in
    (
      ap (λ (u : Table). u.nmbr_of_philos) (sym w) ∙ a,
      ap (λ (u : Table). u.forks) (sym w) ∙ b,
      ap (λ (u : Table). u.philos) (sym w) ∙ c,
    )

pub watch-IsUntouched : (m : Monitor) (t u : Table) → watch m t ≡ some u → IsUntouched t u
unfolding watch print_message
watch-IsUntouched (Monitor.waits since) t u e = untouched t _ u (refl, refl, refl) e
watch-IsUntouched (Monitor.checks_dead i) t u e = untouched t _ u (refl, refl, refl) e
watch-IsUntouched (Monitor.says_died i) t u e = untouched t _ u (refl, refl, refl) e
watch-IsUntouched Monitor.sets_dead t u e = untouched t _ u (refl, refl, refl) e
watch-IsUntouched Monitor.checks_rounds t u e = elim (Option-cases t.rounds) [
  | inl r ↦ untouched t _ u (refl, refl, refl) (rw r at e)
  | inr (n, r) ↦ untouched t _ u (refl, refl, refl) (rw r at e)
]
watch-IsUntouched (Monitor.checks_full i) t u e = elim (Option-cases t.rounds) [
  | inl r ↦ untouched t _ u (refl, refl, refl) (rw r at e)
  | inr (n, r) ↦ untouched t _ u (refl, refl, refl) (rw r at e)
]
watch-IsUntouched Monitor.sets_full t u e = untouched t _ u (refl, refl, refl) e
watch-IsUntouched Monitor.stops t u e = absurd (cc e)

untouched-IsSound : (n : ℕ) (t u : Table) → IsSound n t → IsUntouched t u → IsSound n u
untouched-IsSound n t u s (a, b, c) = record {
  size = a ∙ s.size;
  held = subst (λ f. AreHeld n f u.philos) (sym b) (subst (AreHeld n t.forks) (sym c) s.held);
}

-- A table with the threads at the start.
start-IsSound :
    (n die eat sleep : ℕ) (rounds : Option ℕ) (start now : ℕ)
    → IsSound n (init_forks_and_philos n die eat sleep rounds start now)
unfolding init_forks_and_philos
start-IsSound n die eat sleep rounds start now = record {
  size = refl;
  held = record { exact = λ f k h. (λ e. cc e, λ e. cc e); inside = λ f k e. absurd (cc e) };
}

pub Step-IsSound : {n : ℕ} {t u : Table} → 1 < n → IsSound n t → Step t u → IsSound n u
unfolding routine monitor
Step-IsSound {n} {t} {u} many s (Step.eats_on k inside e) =
    subst (Keeps n) e (run-Keeps n t k s (subst (◌<◌ k) s.size inside) many (t.philos k).pc refl)
Step-IsSound {n} {t} {u} many s (Step.watches e) =
    untouched-IsSound n t u s (watch-IsUntouched t.monitor t u e)
Step-IsSound {n} {t} {u} many s (Step.ticks d e) =
    subst (IsSound n) (sym e) (record { size = s.size; held = s.held })

pub Reach-IsSound : {n : ℕ} {t u : Table} → 1 < n → IsSound n t → Reach t u → IsSound n u
Reach-IsSound many s Reach.here = s
Reach-IsSound many s (Reach.next r st) = Step-IsSound many (Reach-IsSound many s r) st

-- The tables that a run of the program can come to.
abbrev pub IsReachable : (n : ℕ) → Table → Type 0
IsReachable n u =
    (die : ℕ) × (eat : ℕ) × (sleep : ℕ) × (rounds : Option ℕ) × (start : ℕ) × (now : ℕ) × Reach
      (init_forks_and_philos n die eat sleep rounds start now) u

pub IsReachable-IsSound : (n : ℕ) (u : Table) → 1 < n → IsReachable n u → IsSound n u
IsReachable-IsSound n u many (die, eat, sleep, rounds, start, now, r) =
    Reach-IsSound many (start-IsSound n die eat sleep rounds start now) r

-- In every table of a run of several philosophers a fork is held by the philosopher whose program
-- has taken it and not yet put it down, and by no other.
pub run-AreHeld : (n : ℕ) (u : Table) → 1 < n → IsReachable n u → AreHeld n u.forks u.philos
run-AreHeld n u many r = (IsReachable-IsSound n u many r).held

-- In no run does a philosopher unlock a mutex that it does not hold.
pub routine-ne-faults :
    (n : ℕ) (u : Table) (k : ℕ) → 1 < n → IsReachable n u → k < n → routine u k ≢ Outcome.faults
unfolding routine
routine-ne-faults n u k many r inside e =
    subst (Keeps n) e
      (run-Keeps n u k (IsReachable-IsSound n u many r) inside many (u.philos k).pc refl)

-- Philosophers who share a fork do not eat at the same time.
abbrev pub IsEating : Table → ℕ → Type 0
IsEating t k = (t.philos k).pc ≡ Pc.eats

abbrev pub Share : (n k j : ℕ) → Type 0
Share n k j = (f : ℕ) × ((f ≡ lfork k) ⊎ (f ≡ rfork n k)) × ((f ≡ lfork j) ⊎ (f ≡ rfork n j))

eats_with :
    (n : ℕ) (u : Table) (k f : ℕ)
    → IsSound n u
    → k < n
    → IsEating u k
    → (f ≡ lfork k) ⊎ (f ≡ rfork n k)
    → u.forks f ≡ some k
eats_with n u k f s inside e (inl p) = (s.held.exact f k inside).1 (rw e (ground (arith, p)))
eats_with n u k f s inside e (inr p) = (s.held.exact f k inside).1 (rw e (ground (arith, p)))

pub IsEating-Share :
    (n : ℕ) (u : Table) (k j : ℕ)
    → 1 < n
    → IsReachable n u
    → k < n
    → j < n
    → k ≢ j
    → Share n k j
    → IsEating u k
    → ¬ IsEating u j
IsEating-Share n u k j many r a b apart (f, p, q) e e' =
    let s = IsReachable-IsSound n u many r in
    let same = sym (eats_with n u k f s a e p) ∙ eats_with n u j f s b e' q in
    apart (some-injective k j same)
