-- ===== src/Philosophers/Step/Sound.antt =====
-- Every step keeps the truth about the forks, and no thread unlocks a mutex that it does not hold.
use model_lib.Common.{
  ℕ, ◌+◌, ◌-◌, ◌/◌, ◌<◌, ◌≡◌, refl, ap, sym, subst, ◌∙◌, ◌==◌, ◌&&◌, ◌||◌, not, if◌then◌else◌, leb,
  Bool, Bool-cases, true, false, Option-cases, some, arith, inl, inr,
}
use model_lib.Philosophers.Table.{Pc, Philo, Message, Table, update, lfork, rfork, has_even_id}
use model_lib.Philosophers.Step.{
  Outcome, print_message, dead_or_full, goto, rest, rested, taken, lock, released, unlock, first,
  second, run,
}
use model_lib.Philosophers.Step.Forks.{
  hand, in_hand, AreHeld, AreHeld-stay, AreHeld-lock, AreHeld-unlock,
}

pub record IsSound (n : ℕ) (t : Table) : Type 0 where
  pub size : t.nmbr_of_philos ≡ n
  pub held : AreHeld n t.forks t.philos

-- What a step keeps: a moved table is sound, and there is no fault.
abbrev pub Keeps : ℕ → Outcome → Type 0
Keeps n Outcome.waits = Unit
Keeps n Outcome.ended = Unit
Keeps n Outcome.faults = ⊥
Keeps n (Outcome.moves u) = IsSound n u

module _ (n : ℕ) (t : Table) (k : ℕ) (s : IsSound n t) (inside : k < n) where
  -- A step that leaves the forks alone.
  stay :
      (p : Philo) (u : Table)
      → u.nmbr_of_philos ≡ t.nmbr_of_philos
      → u.forks ≡ t.forks
      → u.philos ≡ update t.philos k p
      → hand p.pc ≡ hand (t.philos k).pc
      → IsSound n u
  stay p u size forks philos same = record {
    size = size ∙ s.size;
    held =
        subst (λ f. AreHeld n f u.philos) (sym forks)
          (subst (AreHeld n t.forks) (sym philos)
            (AreHeld-stay n t.forks t.philos k p s.held inside same));
  }

  rested-Keeps :
      (mseconds : ℕ) (pc : Pc) → hand pc ≡ hand (t.philos k).pc → Keeps n (rested t k mseconds pc)
  rested-Keeps mseconds pc same = elim (Bool-cases (leb mseconds (t.now - (t.philos k).since))) [
    | inl e ↦ rw e (stay (record (t.philos k) { pc = pc }) (goto t k pc) refl refl refl same)
    | inr e ↦ rw e tt
  ]

  lock-Keeps :
      (g : ℕ) (pc : Pc)
      → ((f : ℕ) → in_hand (hand pc) n k f ≡ (g == f || in_hand (hand (t.philos k).pc) n k f))
      → Keeps n (lock t k g pc)
  lock-Keeps g pc takes = elim (Option-cases (t.forks g)) [
    | inl e ↦
        subst (λ o. Keeps n (taken o t k g pc)) (sym e)
          (record {
            size = s.size;
            held =
                AreHeld-lock n t.forks t.philos k (record (t.philos k) { pc = pc }) s.held inside g
                  e takes;
          })
    | inr (j, e) ↦ subst (λ o. Keeps n (taken o t k g pc)) (sym e) tt
  ]

  unlock-Keeps :
      (g : ℕ) (pc : Pc)
      → in_hand (hand (t.philos k).pc) n k g ≡ true
      → ((f : ℕ) → in_hand (hand pc) n k f ≡ (not (g == f) && in_hand (hand (t.philos k).pc) n k f))
      → Keeps n (unlock t k g pc)
  unlock-Keeps g pc has drops =
      let e : t.forks g ≡ some k = (s.held.exact g k inside).1 has in
      let own : (k == k) ≡ true = ground arith in
      subst (λ o. Keeps n (released o t k g pc)) (sym e)
        (rw own (record {
          size = s.size;
          held =
              AreHeld-unlock n t.forks t.philos k (record (t.philos k) { pc = pc }) s.held inside g
                e drops;
        }))

  asks-Keeps :
      (b : Bool) (pc pc' : Pc)
      → hand pc ≡ hand (t.philos k).pc
      → hand pc' ≡ hand (t.philos k).pc
      → IsSound n (goto t k (if b then pc else pc'))
  asks-Keeps true pc pc' p q = stay (record (t.philos k) { pc = pc }) (goto t k pc) refl refl refl p
  asks-Keeps false pc pc' p q =
      stay (record (t.philos k) { pc = pc' }) (goto t k pc') refl refl refl q

  says-Keeps :
      (m : Message) (pc : Pc)
      → hand pc ≡ hand (t.philos k).pc
      → IsSound n (goto (print_message t k m) k pc)
  unfolding print_message
  says-Keeps m pc same =
      stay (record (t.philos k) { pc = pc }) (goto (print_message t k m) k pc) refl refl refl same

  rests-Keeps :
      (m : Message) (pc : Pc)
      → hand pc ≡ hand (t.philos k).pc
      → IsSound n (rest (print_message t k m) k pc)
  unfolding print_message
  rests-Keeps m pc same =
      stay (record (t.philos k) { pc = pc; since = t.now }) (rest (print_message t k m) k pc) refl
        refl refl same

  enters-Keeps :
      (b : Bool)
      → hand Pc.enters ≡ hand (t.philos k).pc
      → Keeps n (
          if b
          then Outcome.moves (rest (print_message t k Message.thinking) k Pc.naps)
          else Outcome.moves (goto t k Pc.asks_first))
  enters-Keeps true same = rests-Keeps Message.thinking Pc.naps same
  enters-Keeps false same =
      stay (record (t.philos k) { pc = Pc.asks_first }) (goto t k Pc.asks_first) refl refl refl same

  -- The forks at the places where they change hands.
  first_takes : (f : ℕ) → (f == first n k) ≡ (first n k == f || false)
  first_takes f = ground arith

  second_takes : (f : ℕ) → (f == lfork k || f == rfork n k) ≡ (second n k == f || f == first n k)
  second_takes f = elim (Bool-cases (has_even_id k)) [
    | inl e ↦ rw e (ground arith)
    | inr e ↦ rw e (ground arith)
  ]

  first_drops : (f : ℕ) → false ≡ (not (first n k == f) && f == first n k)
  first_drops f = ground arith

  left_drops :
      1 < n → (f : ℕ) → (f == rfork n k) ≡ (not (lfork k == f) && (f == lfork k || f == rfork n k))
  left_drops many f = ground arith

  right_drops : (f : ℕ) → false ≡ (not (rfork n k == f) && f == rfork n k)
  right_drops f = ground arith

module _ (n : ℕ) (t : Table) (k : ℕ) (s : IsSound n t) (inside : k < n) (many : 1 < n) where
  -- What philosopher `k` has at `pc`.
  at :
      (pc : Pc) (f : ℕ)
      → (t.philos k).pc ≡ pc
      → in_hand (hand pc) n k f ≡ in_hand (hand (t.philos k).pc) n k f
  at pc f e = ap (λ pc. in_hand (hand pc) n k f) (sym e)

  -- No step of a philosopher faults, and each keeps the table sound.
  pub run-Keeps : (pc : Pc) → (t.philos k).pc ≡ pc → Keeps n (run pc t k)
  unfolding run
  run-Keeps Pc.wakes e =
      stay n t k s inside
        (record (t.philos k) { pc = Pc.enters; last_meal = t.now + t.time_to_die }) _ refl refl refl
        (ap hand (sym e))
  run-Keeps Pc.enters e =
      enters-Keeps n t k s inside (not (has_even_id k) && (t.philos k).meals == 0) (ap hand (sym e))
  run-Keeps Pc.naps e =
      rested-Keeps n t k s inside (t.time_to_die / 2) Pc.asks_first (ap hand (sym e))
  run-Keeps Pc.asks_first e =
      asks-Keeps n t k s inside (dead_or_full t) Pc.ends Pc.locks_first (ap hand (sym e))
        (ap hand (sym e))
  run-Keeps Pc.locks_first e =
      subst (λ m. Keeps n (lock t k (first m k) Pc.says_first)) (sym s.size)
        (lock-Keeps n t k s inside (first n k) Pc.says_first (λ f.
          first_takes n t k s inside f ∙ ap (λ b. first n k == f || b) (at Pc.locks_first f e)))
  run-Keeps Pc.says_first e =
      says-Keeps n t k s inside Message.fork Pc.asks_second (ap hand (sym e))
  run-Keeps Pc.asks_second e =
      asks-Keeps n t k s inside (dead_or_full t) Pc.drops_first Pc.locks_second (ap hand (sym e))
        (ap hand (sym e))
  run-Keeps Pc.drops_first e =
      subst (λ m. Keeps n (unlock t k (first m k) Pc.ends)) (sym s.size)
        (unlock-Keeps n t k s inside (first n k) Pc.ends
          (sym (at Pc.drops_first (first n k) e) ∙ ground arith)
          (λ f.
            first_drops n t k s inside f
            ∙ ap (λ b. not (first n k == f) && b) (at Pc.drops_first f e)))
  run-Keeps Pc.locks_second e =
      subst (λ m. Keeps n (lock t k (second m k) Pc.says_second)) (sym s.size)
        (lock-Keeps n t k s inside (second n k) Pc.says_second (λ f.
          second_takes n t k s inside f ∙ ap (λ b. second n k == f || b) (at Pc.locks_second f e)))
  run-Keeps Pc.says_second e = says-Keeps n t k s inside Message.fork Pc.says_eats (ap hand (sym e))
  run-Keeps Pc.says_eats e = says-Keeps n t k s inside Message.eating Pc.counts (ap hand (sym e))
  run-Keeps Pc.counts e =
      stay n t k s inside
        (record (t.philos k) {
          pc = Pc.eats;
          meals = (t.philos k).meals + 1;
          last_meal = t.now + t.time_to_die;
          since = t.now;
        })
        _ refl refl refl (ap hand (sym e))
  run-Keeps Pc.eats e = rested-Keeps n t k s inside t.time_to_eat Pc.drops_left (ap hand (sym e))
  run-Keeps Pc.drops_left e =
      unlock-Keeps n t k s inside (lfork k) Pc.drops_right
        (sym (at Pc.drops_left (lfork k) e) ∙ ground arith)
        (λ f.
          left_drops n t k s inside many f
          ∙ ap (λ b. not (lfork k == f) && b) (at Pc.drops_left f e))
  run-Keeps Pc.drops_right e =
      subst (λ m. Keeps n (unlock t k (rfork m k) Pc.asks_sleep)) (sym s.size)
        (unlock-Keeps n t k s inside (rfork n k) Pc.asks_sleep
          (sym (at Pc.drops_right (rfork n k) e) ∙ ground arith)
          (λ f.
            right_drops n t k s inside f
            ∙ ap (λ b. not (rfork n k == f) && b) (at Pc.drops_right f e)))
  run-Keeps Pc.asks_sleep e =
      asks-Keeps n t k s inside (dead_or_full t) Pc.ends Pc.says_sleeps (ap hand (sym e))
        (ap hand (sym e))
  run-Keeps Pc.says_sleeps e =
      rests-Keeps n t k s inside Message.sleeping Pc.sleeps (ap hand (sym e))
  run-Keeps Pc.sleeps e = rested-Keeps n t k s inside t.time_to_sleep Pc.asks_loop (ap hand (sym e))
  run-Keeps Pc.asks_loop e =
      asks-Keeps n t k s inside (dead_or_full t) Pc.ends Pc.enters (ap hand (sym e))
        (ap hand (sym e))
  run-Keeps Pc.ends e = tt
