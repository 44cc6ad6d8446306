-- ===== src/Philosophers/Step/Near.antt =====
-- Once a philosopher is dead or all are full, each step brings a philosopher nearer to its end.
use model_lib.Common.{
  ℕ, ◌+◌, ◌-◌, ◌/◌, ◌<◌, ◌≢◌, ◌≡◌, refl, subst, ◌==◌, ◌&&◌, not, if◌then◌else◌, leb, Bool,
  Bool-cases, true, false, Option, none, some, arith, inl, inr,
}
use model_lib.Philosophers.Table.{Pc, Philo, Message, Table, update, lfork, rfork, has_even_id}
use model_lib.Philosophers.Step.{
  Outcome, print_message, dead_or_full, goto, rest, rested, taken, released, first, second, run,
  routine,
}

-- The steps that a philosopher has left at most when the program stops.
abbrev pub left : Pc → ℕ
left Pc.ends = 0
left Pc.asks_first = 1
left Pc.naps = 2
left Pc.enters = 3
left Pc.wakes = 4
left Pc.drops_first = 1
left Pc.asks_second = 2
left Pc.says_first = 3
left Pc.locks_first = 4
left Pc.asks_sleep = 1
left Pc.drops_right = 2
left Pc.drops_left = 3
left Pc.eats = 4
left Pc.counts = 5
left Pc.says_eats = 6
left Pc.says_second = 7
left Pc.locks_second = 8
left Pc.asks_loop = 1
left Pc.sleeps = 2
left Pc.says_sleeps = 3

-- What a step of philosopher `k` does to a program that stops.
pub record Nears (t : Table) (k : ℕ) (u : Table) : Type 0 where
  pub stopped : dead_or_full u ≡ true
  pub size : u.nmbr_of_philos ≡ t.nmbr_of_philos
  pub less : left (u.philos k).pc < left (t.philos k).pc
  pub others : (j : ℕ) → k ≢ j → (u.philos j).pc ≡ (t.philos j).pc

abbrev AllNear : Table → ℕ → Outcome → Type 0
AllNear t k Outcome.waits = Unit
AllNear t k Outcome.ended = Unit
AllNear t k Outcome.faults = Unit
AllNear t k (Outcome.moves u) = Nears t k u

module _ (t : Table) (k : ℕ) (stop : dead_or_full t ≡ true) where
  near :
      (p : Philo) (u : Table)
      → dead_or_full u ≡ true
      → u.nmbr_of_philos ≡ t.nmbr_of_philos
      → u.philos ≡ update t.philos k p
      → left p.pc < left (t.philos k).pc
      → Nears t k u
  near p u stopped size same less = record {
    stopped = stopped;
    size = size;
    less = let own : (k == k) ≡ true = ground arith in rw same (rw own less);
    others = λ j h. let other : (k == j) ≡ false = ground (arith, h) in rw same (rw other);
  }

  to : (pc : Pc) → left pc < left (t.philos k).pc → Nears t k (goto t k pc)
  to pc less = near (record (t.philos k) { pc = pc }) (goto t k pc) stop refl refl less

  says :
      (m : Message) (pc : Pc)
      → left pc < left (t.philos k).pc
      → Nears t k (goto (print_message t k m) k pc)
  unfolding print_message
  says m pc less =
      near (record (t.philos k) { pc = pc }) (goto (print_message t k m) k pc) stop refl refl less

  lies :
      (m : Message) (pc : Pc)
      → left pc < left (t.philos k).pc
      → Nears t k (rest (print_message t k m) k pc)
  unfolding print_message
  lies m pc less =
      near (record (t.philos k) { pc = pc; since = t.now }) (rest (print_message t k m) k pc) stop
        refl refl less

  rises :
      (mseconds : ℕ) (pc : Pc)
      → left pc < left (t.philos k).pc
      → AllNear t k (rested t k mseconds pc)
  rises mseconds pc less = elim (Bool-cases (leb mseconds (t.now - (t.philos k).since))) [
    | inl e ↦ rw e (to pc less)
    | inr e ↦ rw e tt
  ]

  takes :
      (o : Option ℕ) (g : ℕ) (pc : Pc)
      → left pc < left (t.philos k).pc
      → AllNear t k (taken o t k g pc)
  takes none g pc less =
      near (record (t.philos k) { pc = pc })
        (goto (record t { forks = update t.forks g (some k) }) k pc) stop refl refl less
  takes (some holder) g pc less = tt

  drops :
      (o : Option ℕ) (g : ℕ) (pc : Pc)
      → left pc < left (t.philos k).pc
      → AllNear t k (released o t k g pc)
  drops none g pc less = tt
  drops (some holder) g pc less = elim (Bool-cases (holder == k)) [
    | inl e ↦ rw e (
        near (record (t.philos k) { pc = pc })
          (goto (record t { forks = update t.forks g none }) k pc) stop refl refl less)
    | inr e ↦ rw e tt
  ]

  asks :
      (pc pc' : Pc)
      → left pc < left (t.philos k).pc
      → Nears t k (goto t k (if dead_or_full t then pc else pc'))
  asks pc pc' less = rw stop (to pc less)

  starts :
      (b : Bool)
      → 2 < left (t.philos k).pc
      → AllNear t k (
          if b
          then Outcome.moves (rest (print_message t k Message.thinking) k Pc.naps)
          else Outcome.moves (goto t k Pc.asks_first))
  starts true less = lies Message.thinking Pc.naps less
  starts false less = to Pc.asks_first (omega arith)

  -- A step of a philosopher in a program that stops brings it nearer to its end.
  run-AllNear : (pc : Pc) → (t.philos k).pc ≡ pc → AllNear t k (run pc t k)
  unfolding run print_message
  run-AllNear Pc.wakes e =
      near (record (t.philos k) { pc = Pc.enters; last_meal = t.now + t.time_to_die }) _ stop refl
        refl (rw e (omega arith))
  run-AllNear Pc.enters e =
      starts (not (has_even_id k) && (t.philos k).meals == 0) (rw e (omega arith))
  run-AllNear Pc.naps e = rises (t.time_to_die / 2) Pc.asks_first (rw e (omega arith))
  run-AllNear Pc.asks_first e = asks Pc.ends Pc.locks_first (rw e (omega arith))
  run-AllNear Pc.locks_first e =
      takes (t.forks (first t.nmbr_of_philos k)) (first t.nmbr_of_philos k) Pc.says_first
        (rw e (omega arith))
  run-AllNear Pc.says_first e = says Message.fork Pc.asks_second (rw e (omega arith))
  run-AllNear Pc.asks_second e = asks Pc.drops_first Pc.locks_second (rw e (omega arith))
  run-AllNear Pc.drops_first e =
      drops (t.forks (first t.nmbr_of_philos k)) (first t.nmbr_of_philos k) Pc.ends
        (rw e (omega arith))
  run-AllNear Pc.locks_second e =
      takes (t.forks (second t.nmbr_of_philos k)) (second t.nmbr_of_philos k) Pc.says_second
        (rw e (omega arith))
  run-AllNear Pc.says_second e = says Message.fork Pc.says_eats (rw e (omega arith))
  run-AllNear Pc.says_eats e = says Message.eating Pc.counts (rw e (omega arith))
  run-AllNear Pc.counts e =
      near
        (record (t.philos k) {
          pc = Pc.eats;
          meals = (t.philos k).meals + 1;
          last_meal = t.now + t.time_to_die;
          since = t.now;
        })
        _ stop refl refl (rw e (omega arith))
  run-AllNear Pc.eats e = rises t.time_to_eat Pc.drops_left (rw e (omega arith))
  run-AllNear Pc.drops_left e =
      drops (t.forks (lfork k)) (lfork k) Pc.drops_right (rw e (omega arith))
  run-AllNear Pc.drops_right e =
      drops (t.forks (rfork t.nmbr_of_philos k)) (rfork t.nmbr_of_philos k) Pc.asks_sleep
        (rw e (omega arith))
  run-AllNear Pc.asks_sleep e = asks Pc.ends Pc.says_sleeps (rw e (omega arith))
  run-AllNear Pc.says_sleeps e = lies Message.sleeping Pc.sleeps (rw e (omega arith))
  run-AllNear Pc.sleeps e = rises t.time_to_sleep Pc.asks_loop (rw e (omega arith))
  run-AllNear Pc.asks_loop e = asks Pc.ends Pc.enters (rw e (omega arith))
  run-AllNear Pc.ends e = tt

  pub routine-Nears : (u : Table) → routine t k ≡ Outcome.moves u → Nears t k u
  unfolding routine
  routine-Nears u e = subst (AllNear t k) e (run-AllNear (t.philos k).pc refl)
