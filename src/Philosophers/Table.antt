-- ===== src/Philosophers/Table.antt =====
-- 42_philosophers/philo: `t_table` and `t_philo` of philo.h and init_forks_and_philos of
-- initialization.c. A philosopher is called by its place in `philos`, which is its id less one, and
-- a fork by its place in `forks`; a mutex is the place of the thread that holds it, if any does.
use model_lib.Common.{ℕ, ◌+◌, ◌-◌, ◌%◌, ◌==◌, if◌then◌else◌, Bool, false, List, [], Option, none}

-- Where a thread stands in `routine`, `eat`, `take_forks` and `philo_sleep`: what it does next.
pub data Pc : Type 0 where
  wakes enters naps asks_first locks_first says_first asks_second drops_first locks_second : Pc
  says_second says_eats counts eats drops_left drops_right asks_sleep says_sleeps sleeps : Pc
  asks_loop ends : Pc

-- `since` is the start of the `ft_usleep` that runs.
pub record Philo : Type 0 where
  pub pc : Pc
  pub meals : ℕ
  pub last_meal : ℕ
  pub since : ℕ

pub data Message : Type 0 where
  fork eating sleeping thinking died : Message

-- A line of the output: the time, the id and the message.
pub record Line : Type 0 where
  pub time : ℕ
  pub id : ℕ
  pub message : Message

-- Where the main thread stands in `monitor`, `check_is_dead` and `check_is_full`.
pub data Monitor : Type 0 where
  waits : (since : ℕ) → Monitor
  checks_dead says_died checks_full : (i : ℕ) → Monitor
  sets_dead checks_rounds sets_full stops : Monitor

-- `rounds` is none for -1; `now` is the time that `get_time` gives.
pub record Table : Type 0 where
  pub nmbr_of_philos : ℕ
  pub time_to_die : ℕ
  pub time_to_eat : ℕ
  pub time_to_sleep : ℕ
  pub start : ℕ
  pub rounds : Option ℕ
  pub dead : Bool
  pub full : Bool
  pub forks : ℕ → Option ℕ
  pub philos : ℕ → Philo
  pub monitor : Monitor
  pub now : ℕ
  pub out : List Line

abbrev pub update {ℓ} : {A : Type ℓ} → (ℕ → A) → ℕ → A → ℕ → A
update f k v j = if k == j then v else f j

abbrev pub lfork : (k : ℕ) → ℕ
lfork k = k

abbrev pub rfork : (n k : ℕ) → ℕ
rfork n k = if k == 0 then n - 1 else k - 1

-- `philo->id % 2 == 0`
abbrev pub has_even_id : (k : ℕ) → Bool
has_even_id k = (k + 1) % 2 == 0

-- The table of `init_forks_and_philos`, if every mutex is made, when `main` has started the threads.
abbrev pub new_philo : Philo
new_philo = record { pc = Pc.wakes; meals = 0; last_meal = 0; since = 0 }

unfoldable pub init_forks_and_philos :
    (nmbr_of_philos time_to_die time_to_eat time_to_sleep : ℕ) (rounds : Option ℕ) (start now : ℕ)
    → Table
init_forks_and_philos n die eat sleep rounds start now = record {
  nmbr_of_philos = n;
  time_to_die = die;
  time_to_eat = eat;
  time_to_sleep = sleep;
  start = start;
  rounds = rounds;
  dead = false;
  full = false;
  forks = λ f. none;
  philos = λ k. new_philo;
  monitor = Monitor.waits now;
  now = now;
  out = [];
}
