-- ===== src/Philosophers/Step/Forks.antt =====
-- The forks: the mutexes say truly which philosopher has which fork.
use model_lib.Common.{
  ℕ, ◌<◌, ◌≢◌, ◌≡◌, ◌↔◌, refl, ap, subst, ◌==◌, ◌&&◌, ◌||◌, not, Bool, Bool-cases, true, false,
  Option, none, some, arith, inl, inr,
}
use model_lib.Philosophers.Table.{Pc, Philo, update, lfork, rfork}
use model_lib.Philosophers.Step.{first}

-- Which forks a philosopher has at each place of its program.
pub data Hand : Type 0 where
  empty one both right : Hand

abbrev pub hand : Pc → Hand
hand Pc.says_first = Hand.one
hand Pc.asks_second = Hand.one
hand Pc.drops_first = Hand.one
hand Pc.locks_second = Hand.one
hand Pc.says_second = Hand.both
hand Pc.says_eats = Hand.both
hand Pc.counts = Hand.both
hand Pc.eats = Hand.both
hand Pc.drops_left = Hand.both
hand Pc.drops_right = Hand.right
hand _ = Hand.empty

abbrev pub in_hand : Hand → (n k f : ℕ) → Bool
in_hand Hand.empty n k f = false
in_hand Hand.one n k f = f == first n k
in_hand Hand.both n k f = f == lfork k || f == rfork n k
in_hand Hand.right n k f = f == rfork n k

-- Each fork of the table belongs to the philosopher that has it, and to no other.
pub record AreHeld (n : ℕ) (forks : ℕ → Option ℕ) (philos : ℕ → Philo) : Type 0 where
  pub exact : (f k : ℕ) → k < n → (forks f ≡ some k) ↔ (in_hand (hand (philos k).pc) n k f ≡ true)
  pub inside : (f k : ℕ) → forks f ≡ some k → k < n

module _ (n : ℕ) (forks : ℕ → Option ℕ) (philos : ℕ → Philo) (k : ℕ) (p : Philo)
    (a : AreHeld n forks philos) (inside : k < n) where
  -- Only what philosopher `k` has changes.
  AreHeld-change :
      (forks' : ℕ → Option ℕ)
      → ((f : ℕ) → (forks' f ≡ some k) ↔ (in_hand (hand p.pc) n k f ≡ true))
      → ((f j : ℕ) → k ≢ j → (forks' f ≡ some j) ↔ (forks f ≡ some j))
      → AreHeld n forks' (update philos k p)
  AreHeld-change forks' own others = record {
    exact = λ f j h. elim (Bool-cases (k == j)) [
      | inl t ↦
          let e : k ≡ j = ground arith in
          rw t (subst (λ j. (forks' f ≡ some j) ↔ (in_hand (hand p.pc) n j f ≡ true)) e (own f))
      | inr t ↦
          let apart : k ≢ j = ground arith in
          let (there, back) = others f j apart in
          let (to_hand, of_hand) = a.exact f j h in
          rw t (λ e. to_hand (there e), λ e. back (of_hand e))
    ];
    inside = λ f j e. elim (Bool-cases (k == j)) [
      | inl t ↦ ground arith
      | inr t ↦ let apart : k ≢ j = ground arith in a.inside f j ((others f j apart).0 e)
    ];
  }

  -- The philosopher goes on with the forks that it has.
  pub AreHeld-stay : hand p.pc ≡ hand (philos k).pc → AreHeld n forks (update philos k p)
  AreHeld-stay same =
      AreHeld-change forks (λ f. rw same (a.exact f k inside)) (λ f j h. (λ e. e, λ e. e))

  -- It takes the free fork `g`.
  pub AreHeld-lock :
      (g : ℕ)
      → forks g ≡ none
      → ((f : ℕ) → in_hand (hand p.pc) n k f ≡ (g == f || in_hand (hand (philos k).pc) n k f))
      → AreHeld n (update forks g (some k)) (update philos k p)
  AreHeld-lock g free takes =
      AreHeld-change (update forks g (some k))
        (λ f. elim (Bool-cases (g == f)) [
          | inl t ↦ rw (t, takes f) (rw t (λ e. refl, λ e. refl))
          | inr t ↦ rw (t, takes f) (rw t (a.exact f k inside))
        ])
        (λ f j h. elim (Bool-cases (g == f)) [
          | inl t ↦
              let e : g ≡ f = ground arith in
              rw t (λ e'. absurd (h (ground (arith, e'))), λ e'. absurd (cc (free, ap forks e, e')))
          | inr t ↦ rw t (λ e. e, λ e. e)
        ])

  -- It puts down its fork `g`.
  pub AreHeld-unlock :
      (g : ℕ)
      → forks g ≡ some k
      → ((f : ℕ) → in_hand (hand p.pc) n k f ≡ (not (g == f) && in_hand (hand (philos k).pc) n k f))
      → AreHeld n (update forks g none) (update philos k p)
  AreHeld-unlock g held drops =
      AreHeld-change (update forks g none)
        (λ f. elim (Bool-cases (g == f)) [
          | inl t ↦ rw (t, drops f) (rw t (λ e. cc e, λ e. cc e))
          | inr t ↦ rw (t, drops f) (rw t (a.exact f k inside))
        ])
        (λ f j h. elim (Bool-cases (g == f)) [
          | inl t ↦
              let e : g ≡ f = ground arith in
              rw t (λ e'. absurd (cc e'), λ e'. absurd (h (ground (arith, held, ap forks e, e'))))
          | inr t ↦ rw t (λ e. e, λ e. e)
        ])
