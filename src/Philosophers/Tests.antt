-- ===== src/Philosophers/Tests.antt =====
-- Concrete runs of 42_philosophers: schedules of two philosophers, and argument lists.
use model_lib.Common.{
  ℕ, zero, suc, ◌*◌, ◌≤◌, ◌<◌, ◌≢◌, ◌≡◌, refl, subst, ltb, Bool-cases, Option-cases, true, false,
  List, [], ◌∷◌, Option, none, some, arith, inl, inr, ltb→lt,
}
use mathlib.Core.Option.{some-injective}
use model_lib.Libft.Strings.{Text}
use model_lib.Philosophers.Input.{Checked, Config, input_valid}
use model_lib.Philosophers.Input.Valid.{AreArguments, input_valid-AreArguments}
use model_lib.Philosophers.Table.{Pc, Message, Line, Table, init_forks_and_philos}
use model_lib.Philosophers.Step.{Outcome, routine, monitor, later, Step, Reach, dead_or_full}
use model_lib.Philosophers.Step.Forks.{AreHeld}
use model_lib.Philosophers.Step.Safe.{
  IsReachable, run-AreHeld, routine-ne-faults, IsEating, Share, IsEating-Share,
}
use model_lib.Philosophers.Step.Progress.{CanGo, CanGo-some}
use model_lib.Philosophers.Step.Halt.{total, HaveEnded, dead_or_full-HaveEnded}

-- What the scheduler lets run.
data Choice : Type 0 where
  philo : ℕ → Choice
  main_thread : Choice
  clock : ℕ → Choice

moved : Outcome → Option Table
moved (Outcome.moves u) = some u
moved _ = none

choose : Choice → Table → Option Table
unfolding moved
choose (Choice.philo k) t = elim (ltb k t.nmbr_of_philos) [
  | true ↦ moved (routine t k)
  | false ↦ none
]
choose Choice.main_thread t = monitor t
choose (Choice.clock d) t = some (later d t)

play : List Choice → Table → Option Table
unfolding choose
play [] t = some t
play (c ∷ cs) t = elim (choose c t) [ none ↦ none | some u ↦ play cs u ]

moved-moves : (o : Outcome) (u : Table) → moved o ≡ some u → o ≡ Outcome.moves u
unfolding moved
moved-moves (Outcome.moves v) u e = ground arith
moved-moves Outcome.waits u e = cc e
moved-moves Outcome.ended u e = cc e
moved-moves Outcome.faults u e = cc e

choose-Step : (c : Choice) (t u : Table) → choose c t ≡ some u → Step t u
unfolding choose
choose-Step (Choice.philo k) t u e = elim (Bool-cases (ltb k t.nmbr_of_philos)) [
  | inl h ↦
      Step.eats_on k (ltb→lt k t.nmbr_of_philos h)
        (moved-moves (routine t k) u (rw (h, choose) at e))
  | inr h ↦ absurd (cc (rw (h, choose) at e))
]
choose-Step Choice.main_thread t u e = Step.watches e
choose-Step (Choice.clock d) t u e = Step.ticks d (ground arith)

Reach-trans : {s t u : Table} → Reach s t → Reach t u → Reach s u
Reach-trans r Reach.here = r
Reach-trans r (Reach.next q st) = Reach.next (Reach-trans r q) st

play-Reach : (cs : List Choice) (t u : Table) → play cs t ≡ some u → Reach t u
unfolding play
play-Reach [] t u e = subst (Reach t) (some-injective t u e) Reach.here
play-Reach (c ∷ cs) t u e = elim (Option-cases (choose c t)) [
  | inl h ↦ absurd (cc (rw (h, play) at e))
  | inr (v, h) ↦
      Reach-trans (Reach.next Reach.here (choose-Step c t v h))
        (play-Reach cs v u (rw (h, play) at e))
]

played : List Choice → Table → Table
unfolding play
played cs t = elim (play cs t) [ none ↦ t | some u ↦ u ]

times : ℕ → Choice → List Choice → List Choice
times zero c cs = cs
times (suc n) c cs = c ∷ times n c cs

abbrev start : Table
start = init_forks_and_philos 2 10 4 3 none 0 0

-- The first philosopher is woken and thinks, the second comes to eat.
one_eats : List Choice
unfolding times
one_eats = times 2 (Choice.philo 0) (times 10 (Choice.philo 1) [])

abbrev line : ℕ → ℕ → Message → Line
line time id message = record { time = time; id = id; message = message }

one_eats_run :
    (played one_eats start).out
    ≡ line 0 1 Message.thinking
      ∷ line 0 2 Message.fork
      ∷ line 0 2 Message.fork
      ∷ line 0 2 Message.eating
      ∷ []
unfolding played one_eats init_forks_and_philos routine monitor
one_eats_run = refl

-- A message after that of a death: the monitor prints it before it sets `dead`.
late : List Choice
unfolding times
late =
    Choice.philo 0
    ∷ Choice.philo 1
    ∷ Choice.clock 50
    ∷ times 3 Choice.main_thread (Choice.philo 0 ∷ Choice.main_thread ∷ [])

late_run : (played late start).out ≡ line 50 1 Message.died ∷ line 50 1 Message.thinking ∷ []
unfolding played late init_forks_and_philos routine monitor
late_run = refl

-- A philosopher whose thread has not come to its first line is taken for dead.
early_run :
    (played (Choice.clock 50 ∷ times 3 Choice.main_thread []) start).out
    ≡ line 50 1 Message.died ∷ []
unfolding played times init_forks_and_philos routine monitor
early_run = refl

one_eats-IsReachable : IsReachable 2 (played one_eats start)
unfolding played one_eats init_forks_and_philos routine monitor
one_eats-IsReachable =
    (10, 4, 3, none, 0, 0, play-Reach one_eats start (played one_eats start) refl)

late-IsReachable : IsReachable 2 (played late start)
unfolding played late init_forks_and_philos routine monitor
late-IsReachable = (10, 4, 3, none, 0, 0, play-Reach late start (played late start) refl)

run-AreHeld_example : AreHeld 2 (played one_eats start).forks (played one_eats start).philos
run-AreHeld_example = run-AreHeld 2 (played one_eats start) (omega arith) one_eats-IsReachable

routine-ne-faults_example : routine (played one_eats start) 1 ≢ Outcome.faults
routine-ne-faults_example =
    routine-ne-faults 2 (played one_eats start) 1 (omega arith) one_eats-IsReachable (omega arith)

one_eats-IsEating : IsEating (played one_eats start) 1
unfolding played one_eats init_forks_and_philos routine monitor
one_eats-IsEating = refl

abbrev shared : Share 2 1 0
shared = (0, inr refl, inl refl)

IsEating-Share_example : ¬ IsEating (played one_eats start) 0
IsEating-Share_example =
    IsEating-Share 2 (played one_eats start) 1 0 (omega arith) one_eats-IsReachable (omega arith)
      (omega arith) (omega arith) shared one_eats-IsEating

one_eats_alive : ((played one_eats start).philos 0).pc ≢ Pc.ends
unfolding played one_eats init_forks_and_philos routine monitor
one_eats_alive e = cc e

CanGo-some_example : (j : ℕ) × (j < 2) × CanGo (played one_eats start) j
CanGo-some_example =
    CanGo-some 2 (played one_eats start) 0 (omega arith) one_eats-IsReachable (omega arith)
      one_eats_alive

late_dead : dead_or_full (played late start) ≡ true
unfolding played late init_forks_and_philos routine monitor
late_dead = refl

dead_or_full-HaveEnded_example :
    ((u : Table) × Reach (played late start) u × HaveEnded 2 u)
    × (total 2 (played late start) ≤ 8 * 2)
    × ((k : ℕ) (u : Table)
        → k < 2
        → routine (played late start) k ≡ Outcome.moves u
        → (total 2 u < total 2 (played late start)) × (dead_or_full u ≡ true))
dead_or_full-HaveEnded_example =
    dead_or_full-HaveEnded 2 (played late start) (omega arith) late-IsReachable late_dead

-- "2" "410" "+200" "200" and no rounds.
abbrev two : Text
two = b'2' ∷ []

abbrev four_hundred_ten : Text
four_hundred_ten = b'4' ∷ b'1' ∷ b'0' ∷ []

abbrev plus_two_hundred : Text
plus_two_hundred = b'+' ∷ b'2' ∷ b'0' ∷ b'0' ∷ []

abbrev arguments : List Text
arguments = two ∷ four_hundred_ten ∷ plus_two_hundred ∷ plus_two_hundred ∷ []

abbrev table : Config
table = record {
  nmbr_of_philos = 2;
  time_to_die = 410;
  time_to_eat = 200;
  time_to_sleep = 200;
  rounds = none;
}

input_run : input_valid arguments ≡ Checked.accepted table
unfolding input_valid
input_run = refl

-- An empty text is read as 0, so that 0 rounds are asked for.
empty_rounds_run :
    input_valid (two ∷ two ∷ two ∷ two ∷ [] ∷ [])
    ≡ Checked.accepted (record {
      nmbr_of_philos = 2;
      time_to_die = 2;
      time_to_eat = 2;
      time_to_sleep = 2;
      rounds = some 0;
    })
unfolding input_valid
empty_rounds_run = refl

input_valid-AreArguments_example :
    (input_valid arguments ≡ Checked.accepted table → AreArguments 200 arguments table)
    × (AreArguments 199 arguments table → input_valid arguments ≡ Checked.accepted table)
input_valid-AreArguments_example = input_valid-AreArguments arguments table
