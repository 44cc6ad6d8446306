-- ===== src/Libft/Split/Loop.antt =====
-- The main loop of `ft_split` ends with the words of the string, or at the first allocation that
-- fails.
use model_lib.Common.{
  ℕ, zero, suc, ◌+◌, ◌*◌, ◌<◌, ◌≤◌, ◌≢◌, ◌≡◌, refl, ap, sym, subst, ◌∙◌, ◌⊎◌, inl, inr, Bool, true,
  false, ◌==◌, if◌then◌else◌, Bool-cases, List, [], ◌∷◌, ◌++◌, Option, none, some, length, map,
  length-drop, take, drop, take-append-drop, arith,
}
use mathlib.Core.List.{append-nil, append_assoc}
use model_lib.Libft.Strings.{Text, ft_substr}
use model_lib.Libft.Strings.Substr.{ft_substr_lem}
use model_lib.Libft.Split.{
  word_counter, word_length, free_the_memory, has_place, split_loop, Filled, ft_split,
}
use model_lib.Libft.Split.Words.{Words, FirstWord, word_length_lem, word_counter_lem}

-- From the allocation `call` on, each word is given room for its bytes and the NUL.
pub data Served (malloc : ℕ → ℕ → Bool) : (call : ℕ) → List Text → Type 0 where
  nil : {call : ℕ} → Served malloc call []
  word :
      {call : ℕ} (w : Text) {ws : List Text}
      → malloc call (length w + 1) ≡ true
      → Served malloc (call + 1) ws
      → Served malloc call (w ∷ ws)

-- The words `before` are given room, and the next one is the first that is not.
pub data Refused (malloc : ℕ → ℕ → Bool) : (call : ℕ) → (before ws : List Text) → Type 0 where
  here :
      {call : ℕ} (w : Text) {ws : List Text}
      → malloc call (length w + 1) ≡ false
      → Refused malloc call [] (w ∷ ws)
  later :
      {call : ℕ} (w : Text) {before ws : List Text}
      → malloc call (length w + 1) ≡ true
      → Refused malloc (call + 1) before ws
      → Refused malloc call (w ∷ before) (w ∷ ws)

-- The words that are released are all those in the array.
free_the_memory-map :
    (memory : List Text) → free_the_memory (map some memory ++ none ∷ []) ≡ some memory
unfolding free_the_memory
free_the_memory-map [] = refl
free_the_memory-map (w ∷ memory) = rw (free_the_memory-map memory)

to_word :
    {d : ℕ} (c : ℕ) (s : Text) (n : ℕ) {ws : List Text}
    → c ≢ d
    → FirstWord d (c ∷ s) n
    → Words d (drop n (c ∷ s)) ws
    → Words d (c ∷ s) (take n (c ∷ s) ∷ ws)
to_word c s zero h f p = absurd (h f.stops)
to_word c s (suc n) h f p =
    Words.word c (take n s) (drop n s) f.clear f.stops (ap (◌∷◌ c) (sym (take-append-drop n s))) p

nonempty_word : {d : ℕ} (c : ℕ) (s : Text) (n : ℕ) → c ≢ d → FirstWord d (c ∷ s) n → 0 < n
nonempty_word c s zero h f = absurd (h f.stops)
nonempty_word c s (suc n) h f = omega arith

module _ (malloc : ℕ → ℕ → Bool) (d : ℕ) where
  -- What comes of the words that are left: all are appended, or at the first that is given no room
  -- everything is released.
  abbrev Ends : ℕ → List Text → List Text → Filled → Type 0
  Ends i memory ws r =
      (Served malloc (i + 1) ws × (r ≡ Filled.filled (memory ++ ws)))
      ⊎ ((before : List Text) × Refused malloc (i + 1) before ws
          × (r ≡ Filled.freed (memory ++ before)))

  -- The word at the head, by whether its allocation succeeds.
  abbrev part_end : ℕ → ℕ → Text → ℕ → List Text → Option Text → Filled
  part_end size fuel s i memory o = elim o [
    | none ↦ elim (free_the_memory (map some memory ++ none ∷ [])) [
      | none ↦ Filled.overflows
      | some released ↦ Filled.freed released
    ]
    | some w ↦ split_loop malloc size fuel s d (i + 1) (memory ++ w ∷ [])
  ]

  step_skip :
      (size fuel c : ℕ) (s : Text) (i : ℕ) (memory : List Text)
      → (c == d) ≡ true
      → split_loop malloc size (suc fuel) (c ∷ s) d i memory
        ≡ split_loop malloc size fuel s d i memory
  unfolding split_loop
  step_skip size fuel c s i memory t = rw (t, split_loop)

  step_word :
      (size fuel c : ℕ) (s : Text) (i : ℕ) (memory : List Text)
      → (c == d) ≡ false
      → has_place size i ≡ true
      → let n = word_length (c ∷ s) d in
        split_loop malloc size (suc fuel) (c ∷ s) d i memory
        ≡ part_end size fuel (drop n (c ∷ s)) i memory (ft_substr (malloc (i + 1)) (c ∷ s) 0 n)
  unfolding split_loop
  step_word size fuel c s i memory t h = rw (t, h, split_loop)

  step_refused :
      (size fuel : ℕ) (s : Text) (i : ℕ) (memory : List Text)
      → part_end size fuel s i memory none ≡ Filled.freed memory
  step_refused size fuel s i memory = λ j. elim (free_the_memory-map memory j) [
    | none ↦ Filled.overflows
    | some released ↦ Filled.freed released
  ]

  part :
      (i : ℕ) (s : Text) (n : ℕ) (b : Bool)
      → malloc (i + 1) (length (take n s) + 1) ≡ b
      → ft_substr (malloc (i + 1)) s 0 n ≡ (if b then some (take n s) else none)
  part i s n b m =
      let (e, exact) = ft_substr_lem (malloc (i + 1)) s 0 n in
      e ∙ ap (λ b. if b then some (take n s) else none) (ap (malloc (i + 1)) (sym exact) ∙ m)

  -- What the rest of the words come to, behind a word that is given room.
  more :
      (i : ℕ) (memory : List Text) (w : Text) {ws : List Text} {r : Filled}
      → malloc (i + 1) (length w + 1) ≡ true
      → Ends (i + 1) (memory ++ w ∷ []) ws r
      → Ends i memory (w ∷ ws) r
  more i memory w {ws} m (inl (given, e)) =
      inl (Served.word w m given, e ∙ ap Filled.filled (append_assoc memory (w ∷ []) ws))
  more i memory w m (inr (before, refused, e)) = inr (
    w ∷ before,
    Refused.later w m refused,
    e ∙ ap Filled.freed (append_assoc memory (w ∷ []) before),
  )

  -- An array with a place for each word that is left, and for the NULL.
  abbrev Holds : ℕ → ℕ → Text → Type 0
  Holds size i s = (ws : List Text) → Words d s ws → 8 * (i + length ws + 1) ≤ size

  split_loop_lem :
      (size fuel : ℕ) (s : Text) (i : ℕ) (memory : List Text)
      → Holds size i s
      → length s < fuel
      → (ws : List Text) × Words d s ws
        × Ends i memory ws (split_loop malloc size fuel s d i memory)
  unfolding split_loop has_place
  split_loop_lem size zero s i memory holds h = absurd (omega arith)
  split_loop_lem size (suc fuel) [] i memory holds h =
      let t : has_place size i ≡ true = ground (arith, holds [] Words.nil) in
      ([], Words.nil, inl (Served.nil, rw t (ap Filled.filled (sym (append-nil memory)))))
  split_loop_lem size (suc fuel) (c ∷ s) i memory holds h = elim (Bool-cases (c == d)) [
    | inl t ↦
        let same : c ≡ d = ground arith in
        let skip : (ws : List Text) → Words d s ws → Words d (c ∷ s) ws =
          λ ws p. subst (λ x. Words d (x ∷ s) ws) (sym same) (Words.skip p) in
        let (ws, p, e) =
          split_loop_lem size fuel s i memory (λ ws p. holds ws (skip ws p)) (omega arith) in
        (ws, skip ws p, subst (Ends i memory ws) (sym (step_skip size fuel c s i memory t)) e)
    | inr t ↦
        let n = word_length (c ∷ s) d in
        let f = word_length_lem d (c ∷ s) in
        let apart : c ≢ d = ground arith in
        let some_byte = nonempty_word c s n apart f in
        let rest = drop n (c ∷ s) in
        let w = take n (c ∷ s) in
        let shorter : length rest < fuel = omega (arith, length-drop n (c ∷ s)) in
        let left : Holds size (i + 1) rest =
          λ ws p. omega (arith, holds (w ∷ ws) (to_word c s n apart f p)) in
        let (ws, p, e) = split_loop_lem size fuel rest (i + 1) (memory ++ w ∷ []) left shorter in
        let whole = to_word c s n apart f p in
        let place : has_place size i ≡ true = ground (arith, holds (w ∷ ws) whole) in
        let step = step_word size fuel c s i memory t place in
        let run = λ (b : Bool) (m : malloc (i + 1) (length w + 1) ≡ b).
          step ∙ ap (part_end size fuel rest i memory) (part i (c ∷ s) n b m) in
        elim (Bool-cases (malloc (i + 1) (length w + 1))) [
          | inl m ↦
              (w ∷ ws, whole, more i memory w m (subst (Ends (i + 1) _ ws) (sym (run true m)) e))
          | inr m ↦ (
            w ∷ ws,
            whole,
            inr (
              [],
              Refused.here w m,
              run false m
                  ∙ step_refused size fuel rest i memory
                  ∙ ap Filled.freed (sym (append-nil memory)),
            ),
          )
        ]
  ]

  -- The array takes a pointer for each word, and the NULL. It is refused, or each word is given
  -- room and all are returned, or one is not and those before it are released with the array.
  abbrev pub Splits : Text → Filled → Type 0
  Splits s r =
      (ws : List Text) × Words d s ws
      × (word_counter s d ≡ length ws)
      × (((malloc 0 (8 * (length ws + 1)) ≡ false) × (r ≡ Filled.no_array))
          ⊎ ((malloc 0 (8 * (length ws + 1)) ≡ true)
              × ((Served malloc 1 ws × (r ≡ Filled.filled ws))
                  ⊎ ((before : List Text) × Refused malloc 1 before ws
                      × (r ≡ Filled.freed before)))))

  -- `ft_split` gives the words of the string, in an array for just their number and the NULL at its
  -- end, behind which nothing is written; or the allocation of the array fails, and it gives NULL;
  -- or that of a word fails, and it gives NULL and releases the words before it with the array.
  pub ft_split_lem : (s : Text) → Splits s (ft_split malloc s d)
  unfolding ft_split
  ft_split_lem s =
      let size = 8 * (word_counter s d + 1) in
      let holds : Holds size 0 s = λ ws p. omega (arith, word_counter_lem d p) in
      let (ws, p, e) = split_loop_lem size (length s + 1) s 0 [] holds (omega arith) in
      let count = word_counter_lem d p in
      let asked = ap (λ k. malloc 0 (8 * (k + 1))) (sym count) in
      (
        ws,
        p,
        count,
        elim (Bool-cases (malloc 0 size)) [
          | inr m ↦ inl (asked ∙ m, rw m refl)
          | inl m ↦ inr (asked ∙ m, rw m e)
        ],
      )
