-- ===== src/Philosophers/Step/Progress.antt =====
-- No deadlock: while a philosopher has not ended, some philosopher can go on, at once or later.
use model_lib.Common.{
  ℕ, ◌+◌, ◌-◌, ◌/◌, ◌<◌, ◌≢◌, ◌≡◌, refl, ap, sym, subst, ◌∙◌, ◌==◌, ◌&&◌, not, if◌then◌else◌, leb,
  Bool, true, false, Option-cases, none, some, arith, ◌⊎◌, inl, inr,
}
use model_lib.Philosophers.Table.{Pc, Table, update, lfork, rfork, has_even_id}
use model_lib.Philosophers.Step.{
  Outcome, goto, rested, taken, lock, released, unlock, first, second, run, routine, later,
}
use model_lib.Philosophers.Step.Forks.{hand, in_hand}
use model_lib.Philosophers.Step.Sound.{IsSound}
use model_lib.Philosophers.Step.Safe.{IsReachable, IsReachable-IsSound}

-- With its place at `pc`, philosopher `k` moves once enough time has passed.
abbrev pub Goes : Pc → Table → ℕ → Type 0
Goes pc t k = (d : ℕ) × (u : Table) × (run pc (later d t) k ≡ Outcome.moves u)

abbrev pub CanGo : Table → ℕ → Type 0
CanGo t k = (d : ℕ) × (u : Table) × (routine (later d t) k ≡ Outcome.moves u)

-- A philosopher at its end, at a lock, or one that can go on.
data Place (t : Table) (k : ℕ) : Pc → Type 0 where
  over : Place t k Pc.ends
  first_lock : Place t k Pc.locks_first
  second_lock : Place t k Pc.locks_second
  clear : {pc : Pc} → Goes pc t k → Place t k pc

one_of :
    (b : Bool) (v w : Table)
    → (u : Table) × ((if b then Outcome.moves v else Outcome.moves w) ≡ Outcome.moves u)
one_of true v w = (v, refl)
one_of false v w = (w, refl)

module _ (n : ℕ) (t : Table) (k : ℕ) (s : IsSound n t) (inside : k < n) where
  rested-Goes :
      (mseconds : ℕ) (pc : Pc)
      → (d : ℕ) × (u : Table) × (rested (later d t) k mseconds pc ≡ Outcome.moves u)
  rested-Goes mseconds pc =
      let d = mseconds + (t.philos k).since in
      let e : leb mseconds (t.now + d - (t.philos k).since) ≡ true = ground arith in
      (d, goto (later d t) k pc, rw e)

  unlock-Goes :
      (g : ℕ) (pc : Pc)
      → in_hand (hand (t.philos k).pc) n k g ≡ true
      → (d : ℕ) × (u : Table) × (unlock (later d t) k g pc ≡ Outcome.moves u)
  unlock-Goes g pc has =
      let e : t.forks g ≡ some k = (s.held.exact g k inside).1 has in
      let own : (k == k) ≡ true = ground arith in
      let t' = later 0 t in
      (
        0,
        goto (record t' { forks = update t.forks g none }) k pc,
        ap (λ o. released o t' k g pc) e ∙ rw own,
      )

  lock-Goes :
      (g : ℕ) (pc : Pc)
      → t.forks g ≡ none
      → (d : ℕ) × (u : Table) × (lock (later d t) k g pc ≡ Outcome.moves u)
  lock-Goes g pc e =
      let t' = later 0 t in
      (
        0,
        goto (record t' { forks = update t.forks g (some k) }) k pc,
        ap (λ o. taken o t' k g pc) e,
      )

  place : (pc : Pc) → (t.philos k).pc ≡ pc → Place t k pc
  unfolding run
  place Pc.enters e =
      let (u, p) = one_of (not (has_even_id k) && (t.philos k).meals == 0) _ _ in
      Place.clear (0, u, p)
  place Pc.naps e = Place.clear (rested-Goes (t.time_to_die / 2) Pc.asks_first)
  place Pc.locks_first e = Place.first_lock
  place Pc.drops_first e = Place.clear (
      subst
        (λ m. (d : ℕ) × (u : Table) × (unlock (later d t) k (first m k) Pc.ends ≡ Outcome.moves u))
        (sym s.size) (unlock-Goes (first n k) Pc.ends (rw e (ground arith))))
  place Pc.locks_second e = Place.second_lock
  place Pc.eats e = Place.clear (rested-Goes t.time_to_eat Pc.drops_left)
  place Pc.drops_left e = Place.clear (unlock-Goes (lfork k) Pc.drops_right (rw e (ground arith)))
  place Pc.drops_right e = Place.clear (
      subst
        (λ m.
          (d : ℕ) × (u : Table) × (unlock (later d t) k (rfork m k) Pc.asks_sleep
            ≡ Outcome.moves u))
        (sym s.size) (unlock-Goes (rfork n k) Pc.asks_sleep (rw e (ground arith))))
  place Pc.sleeps e = Place.clear (rested-Goes t.time_to_sleep Pc.asks_loop)
  place Pc.ends e = Place.over
  place Pc.wakes e = Place.clear (0, _, refl)
  place Pc.asks_first e = Place.clear (0, _, refl)
  place Pc.says_first e = Place.clear (0, _, refl)
  place Pc.asks_second e = Place.clear (0, _, refl)
  place Pc.says_second e = Place.clear (0, _, refl)
  place Pc.says_eats e = Place.clear (0, _, refl)
  place Pc.counts e = Place.clear (0, _, refl)
  place Pc.asks_sleep e = Place.clear (0, _, refl)
  place Pc.says_sleeps e = Place.clear (0, _, refl)
  place Pc.asks_loop e = Place.clear (0, _, refl)

-- The second fork of a philosopher who waits behind another is the first fork of nobody.
no_circle :
    (n k j m : ℕ) → 1 < n → k < n → j < n → m < n → second n k ≡ first n j → first n m ≢ second n j
no_circle n k j m many a b c e f = ground arith

module _ (n : ℕ) (t : Table) (s : IsSound n t) (many : 1 < n) where
  abbrev SomeGoes : Type 0
  SomeGoes = (j : ℕ) × (j < n) × CanGo t j

  goes : (k : ℕ) → k < n → Goes (t.philos k).pc t k → SomeGoes
  unfolding routine
  goes k inside g = (k, inside, g)

  -- The holder of a fork can go on, or it is at its second lock and has the fork as its first.
  holder :
      (j f : ℕ)
      → j < n
      → in_hand (hand (t.philos j).pc) n j f ≡ true
      → SomeGoes ⊎ (((t.philos j).pc ≡ Pc.locks_second) × (f ≡ first n j))
  holder j f inside has =
      by_place (t.philos j).pc refl (place n t j s inside (t.philos j).pc refl) has
    where
      by_place :
          (pc : Pc)
          → (t.philos j).pc ≡ pc
          → Place t j pc
          → in_hand (hand pc) n j f ≡ true
          → SomeGoes ⊎ (((t.philos j).pc ≡ Pc.locks_second) × (f ≡ first n j))
      by_place _ e Place.over has = absurd (cc has)
      by_place _ e Place.first_lock has = absurd (cc has)
      by_place _ e Place.second_lock has = inr (e, ground (arith, has))
      by_place pc e (Place.clear g) has = inl (goes j inside (subst (λ pc. Goes pc t j) (sym e) g))

  -- A free fork lets the philosopher that waits for it go on.
  second_free :
      (k : ℕ) → k < n → (t.philos k).pc ≡ Pc.locks_second → t.forks (second n k) ≡ none → SomeGoes
  unfolding run
  second_free k inside e free = goes k inside (
      subst (λ pc. Goes pc t k) (sym e)
        (subst
          (λ m.
            (d : ℕ) × (u : Table) × (lock (later d t) k (second m k) Pc.says_second
              ≡ Outcome.moves u))
          (sym s.size) (lock-Goes n t k s inside (second n k) Pc.says_second free)))

  first_free :
      (k : ℕ) → k < n → (t.philos k).pc ≡ Pc.locks_first → t.forks (first n k) ≡ none → SomeGoes
  unfolding run
  first_free k inside e free = goes k inside (
      subst (λ pc. Goes pc t k) (sym e)
        (subst
          (λ m.
            (d : ℕ) × (u : Table) × (lock (later d t) k (first m k) Pc.says_first
              ≡ Outcome.moves u))
          (sym s.size) (lock-Goes n t k s inside (first n k) Pc.says_first free)))

  -- Behind a fork: it is free, or its holder can go on, or its holder waits for a second fork.
  behind :
      (f : ℕ)
      → (t.forks f ≡ none)
        ⊎ (SomeGoes ⊎ ((j : ℕ) × (j < n) × ((t.philos j).pc ≡ Pc.locks_second) × (f ≡ first n j)))
  behind f = elim (Option-cases (t.forks f)) [
    | inl e ↦ inl e
    | inr (j, e) ↦
        let inside = s.held.inside f j e in
        inr (elim (holder j f inside ((s.held.exact f j inside).0 e)) [
          | inl g ↦ inl g
          | inr (p, q) ↦ inr (j, inside, p, q)
        ])
  ]

  from_second : (k : ℕ) → k < n → (t.philos k).pc ≡ Pc.locks_second → SomeGoes
  from_second k inside e = elim (behind (second n k)) [
    | inl free ↦ second_free k inside e free
    | inr (inl g) ↦ g
    | inr (inr (j, below, e', p)) ↦ elim (behind (second n j)) [
      | inl free ↦ second_free j below e' free
      | inr (inl g) ↦ g
      | inr (inr (m, under, e'', q)) ↦ absurd (no_circle n k j m many inside below under p (sym q))
    ]
  ]

  from_first : (k : ℕ) → k < n → (t.philos k).pc ≡ Pc.locks_first → SomeGoes
  from_first k inside e = elim (behind (first n k)) [
    | inl free ↦ first_free k inside e free
    | inr (inl g) ↦ g
    | inr (inr (j, below, e', p)) ↦ from_second j below e'
  ]

  pub sound_goes : (k : ℕ) → k < n → (t.philos k).pc ≢ Pc.ends → SomeGoes
  sound_goes k inside alive =
      by_place (t.philos k).pc refl (place n t k s inside (t.philos k).pc refl)
    where
      by_place : (pc : Pc) → (t.philos k).pc ≡ pc → Place t k pc → SomeGoes
      by_place _ e Place.over = absurd (alive e)
      by_place _ e Place.first_lock = from_first k inside e
      by_place _ e Place.second_lock = from_second k inside e
      by_place pc e (Place.clear g) = goes k inside (subst (λ pc. Goes pc t k) (sym e) g)

-- In every table of a run of several philosophers in which one of them has not ended, one of them
-- can go on, at once or after some time.
pub CanGo-some :
    (n : ℕ) (u : Table) (k : ℕ)
    → 1 < n
    → IsReachable n u
    → k < n
    → (u.philos k).pc ≢ Pc.ends
    → (j : ℕ) × (j < n) × CanGo u j
CanGo-some n u k many r = sound_goes n u (IsReachable-IsSound n u many r) many k
