-- ===== src/Philosophers/Step.antt =====
-- 42_philosophers/philo: main.c, food.c and check.c as steps. What a thread does under deadmutex or
-- mealmutex is one step: every thread takes these in one order and waits for nothing else there.
pub mod Forks
pub mod Sound
pub mod Safe
pub mod Progress
pub mod Near
pub mod Halt
use model_lib.Common.{
  ℕ, ◌+◌, ◌-◌, ◌/◌, ltb, leb, ◌==◌, ◌&&◌, ◌||◌, not, if◌then◌else◌, Bool, true, false, ◌≡◌, List,
  [], ◌∷◌, ◌++◌, Option, none, some, ◌<◌,
}
use model_lib.Philosophers.Table.{
  Pc, Philo, Message, Line, Monitor, Table, update, lfork, rfork, has_even_id,
}

-- What becomes of a thread that runs: it waits, it unlocks a mutex that it does not hold, it has
-- ended, or the table changes.
pub data Outcome : Type 0 where
  waits faults ended : Outcome
  moves : Table → Outcome

-- The section of `print_message`, and the time is that of the section.
pub print_message : Table → (k : ℕ) → Message → Table
print_message t k message = record t {
  out =
      if not t.dead && not t.full
      then t.out ++ record { time = t.now - t.start; id = k + 1; message = message } ∷ []
      else t.out;
}

abbrev pub dead_or_full : Table → Bool
dead_or_full t = t.dead || t.full

abbrev pub goto : Table → (k : ℕ) → Pc → Table
goto t k pc = record t { philos = update t.philos k (record (t.philos k) { pc = pc }) }

-- The start of a call of `ft_usleep`.
abbrev pub rest : Table → (k : ℕ) → Pc → Table
rest t k pc = record t {
  philos = update t.philos k (record (t.philos k) { pc = pc; since = t.now });
}

-- The end of a call of `ft_usleep`.
abbrev pub rested : Table → (k mseconds : ℕ) → Pc → Outcome
rested t k mseconds pc =
    if leb mseconds (t.now - (t.philos k).since) then Outcome.moves (goto t k pc) else Outcome.waits

-- `pthread_mutex_lock`, on a mutex in that state.
abbrev pub taken : (holder : Option ℕ) → Table → (k fork : ℕ) → Pc → Outcome
taken none t k fork pc =
    Outcome.moves (goto (record t { forks = update t.forks fork (some k) }) k pc)
taken (some holder) t k fork pc = Outcome.waits

abbrev pub lock : Table → (k fork : ℕ) → Pc → Outcome
lock t k fork pc = taken (t.forks fork) t k fork pc

-- `pthread_mutex_unlock`, on a mutex in that state.
abbrev pub released : (holder : Option ℕ) → Table → (k fork : ℕ) → Pc → Outcome
released none t k fork pc = Outcome.faults
released (some holder) t k fork pc =
    if holder == k
    then Outcome.moves (goto (record t { forks = update t.forks fork none }) k pc)
    else Outcome.faults

abbrev pub unlock : Table → (k fork : ℕ) → Pc → Outcome
unlock t k fork pc = released (t.forks fork) t k fork pc

-- An even id takes the right fork first, an odd id the left.
abbrev pub first : (n k : ℕ) → ℕ
first n k = if has_even_id k then rfork n k else lfork k

abbrev pub second : (n k : ℕ) → ℕ
second n k = if has_even_id k then lfork k else rfork n k

-- The thread of philosopher `k`, which stands at `pc`.
pub run : Pc → Table → (k : ℕ) → Outcome
unfolding print_message
run Pc.wakes t k = Outcome.moves (record t {
  philos =
      update t.philos k (record (t.philos k) { pc = Pc.enters; last_meal = t.now + t.time_to_die });
})
run Pc.enters t k =
    if not (has_even_id k) && (t.philos k).meals == 0
    then Outcome.moves (rest (print_message t k Message.thinking) k Pc.naps)
    else Outcome.moves (goto t k Pc.asks_first)
run Pc.naps t k = rested t k (t.time_to_die / 2) Pc.asks_first
run Pc.asks_first t k =
    Outcome.moves (goto t k (if dead_or_full t then Pc.ends else Pc.locks_first))
run Pc.locks_first t k = lock t k (first t.nmbr_of_philos k) Pc.says_first
run Pc.says_first t k = Outcome.moves (goto (print_message t k Message.fork) k Pc.asks_second)
run Pc.asks_second t k =
    Outcome.moves (goto t k (if dead_or_full t then Pc.drops_first else Pc.locks_second))
run Pc.drops_first t k = unlock t k (first t.nmbr_of_philos k) Pc.ends
run Pc.locks_second t k = lock t k (second t.nmbr_of_philos k) Pc.says_second
run Pc.says_second t k = Outcome.moves (goto (print_message t k Message.fork) k Pc.says_eats)
run Pc.says_eats t k = Outcome.moves (goto (print_message t k Message.eating) k Pc.counts)
run Pc.counts t k = Outcome.moves (record t {
  philos = update t.philos k (record (t.philos k) {
    pc = Pc.eats;
    meals = (t.philos k).meals + 1;
    last_meal = t.now + t.time_to_die;
    since = t.now;
  });
})
run Pc.eats t k = rested t k t.time_to_eat Pc.drops_left
run Pc.drops_left t k = unlock t k (lfork k) Pc.drops_right
run Pc.drops_right t k = unlock t k (rfork t.nmbr_of_philos k) Pc.asks_sleep
run Pc.asks_sleep t k =
    Outcome.moves (goto t k (if dead_or_full t then Pc.ends else Pc.says_sleeps))
run Pc.says_sleeps t k = Outcome.moves (rest (print_message t k Message.sleeping) k Pc.sleeps)
run Pc.sleeps t k = rested t k t.time_to_sleep Pc.asks_loop
run Pc.asks_loop t k = Outcome.moves (goto t k (if dead_or_full t then Pc.ends else Pc.enters))
run Pc.ends t k = Outcome.ended

unfoldable pub routine : Table → (k : ℕ) → Outcome
unfolding run
routine t k = run (t.philos k).pc t k

-- The main thread, which stands at `m`; it waits for nothing but the time, and `none` is its end.
pub watch : Monitor → Table → Option Table
unfolding print_message
watch (Monitor.waits since) t = some (record t {
  monitor = if leb 50 (t.now - since) then Monitor.checks_dead 0 else Monitor.waits since;
})
watch (Monitor.checks_dead i) t = some (record t {
  monitor =
      if ltb i t.nmbr_of_philos
      then if ltb (t.philos i).last_meal t.now
        then Monitor.says_died i
        else Monitor.checks_dead (i + 1)
      else Monitor.checks_rounds;
})
watch (Monitor.says_died i) t =
    some (record (print_message t i Message.died) { monitor = Monitor.sets_dead })
watch Monitor.sets_dead t = some (record t { dead = true; monitor = Monitor.stops })
watch Monitor.checks_rounds t = elim t.rounds [
  | none ↦ some (record t { monitor = Monitor.checks_dead 0 })
  | some rounds ↦ some (record t { monitor = Monitor.checks_full 0 })
]
watch (Monitor.checks_full i) t = elim t.rounds [
  | none ↦ some (record t { monitor = Monitor.checks_dead 0 })
  | some rounds ↦ some (record t {
    monitor =
        if ltb i t.nmbr_of_philos
        then if ltb (t.philos i).meals rounds
          then Monitor.checks_dead 0
          else Monitor.checks_full (i + 1)
        else Monitor.sets_full;
  })
]
watch Monitor.sets_full t = some (record t { full = true; monitor = Monitor.stops })
watch Monitor.stops t = none

unfoldable pub monitor : Table → Option Table
unfolding watch
monitor t = watch t.monitor t

abbrev pub later : (d : ℕ) → Table → Table
later d t = record t { now = t.now + d }

-- A step of the program: of a philosopher, of the monitor, or of the clock.
pub data Step (t u : Table) : Type 0 where
  eats_on : (k : ℕ) → k < t.nmbr_of_philos → routine t k ≡ Outcome.moves u → Step t u
  watches : monitor t ≡ some u → Step t u
  ticks : (d : ℕ) → u ≡ later d t → Step t u

pub data Reach (s : Table) : Table → Type 0 where
  here : Reach s s
  next : {t u : Table} → Reach s t → Step t u → Reach s u
