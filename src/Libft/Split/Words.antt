-- ===== src/Libft/Split/Words.antt =====
-- `ft_split` gives the words of a string: the longest parts without the delimiter.
use model_lib.Common.{
  ℕ, suc, ◌+◌, ◌≤◌, ◌≢◌, ◌≡◌, refl, ap, sym, subst, ◌∙◌, inl, inr, true, false, ◌==◌, Bool-cases,
  List, [], ◌∷◌, ◌++◌, length, take, drop, arith, All,
}
use native.Mathlib.Nat.{zero-add}
use model_lib.Libft.Strings.{Text}
use model_lib.Libft.Split.{word_counter_loop, word_counter, word_length_loop, word_length}

-- The end of a word: the string ends, or the delimiter follows.
abbrev pub EndsWord : ℕ → Text → Type 0
EndsWord d [] = Unit
EndsWord d (c ∷ s) = c ≡ d

-- A string and its words.
pub data Words (d : ℕ) : Text → List Text → Type 0 where
  nil : Words d [] []
  skip : {s : Text} {ws : List Text} → Words d s ws → Words d (d ∷ s) ws
  word :
      (c : ℕ) (w rest : Text) {s : Text} {ws : List Text}
      → All (λ x. x ≢ d) (c ∷ w)
      → EndsWord d rest
      → s ≡ c ∷ w ++ rest
      → Words d rest ws
      → Words d s ((c ∷ w) ∷ ws)

-- A word at the head of a string.
pub record FirstWord (d : ℕ) (s : Text) (n : ℕ) : Type 0 where
  pub clear : All (λ x. x ≢ d) (take n s)
  pub stops : EndsWord d (drop n s)
  pub inside : n ≤ length s

word_length_loop_lem :
    (d : ℕ) (s : Text) (k : ℕ) → (n : ℕ) × (word_length_loop d s k ≡ k + n) × FirstWord d s n
unfolding word_length_loop
word_length_loop_lem d [] k =
    (0, omega arith, record { clear = tt; stops = tt; inside = omega arith })
word_length_loop_lem d (c ∷ s) k = elim (Bool-cases (c == d)) [
  | inl t ↦
      (0, rw t (omega arith), record { clear = tt; stops = ground arith; inside = omega arith })
  | inr t ↦
      let (n, e, f) = word_length_loop_lem d s (k + 1) in
      (
        suc n,
        rw t (omega arith),
        record {
          clear = (ground arith, f.clear);
          stops = f.stops;
          inside = omega (arith, f.inside);
        },
      )
]

pub word_length_lem : (d : ℕ) (s : Text) → FirstWord d s (word_length s d)
unfolding word_length
word_length_lem d s =
    let (n, e, f) = word_length_loop_lem d s 0 in subst (FirstWord d s) (sym (e ∙ zero-add n)) f

-- The words are counted right, so that the array has room for just them and the NULL at its end.
word_counter-in_word :
    (d : ℕ) (w rest : Text) (k : ℕ)
    → All (λ x. x ≢ d) w
    → word_counter_loop d (w ++ rest) true k ≡ word_counter_loop d rest true k
unfolding word_counter_loop
word_counter-in_word d [] rest k h = refl
word_counter-in_word d (c ∷ w) rest k h =
    let t : (c == d) ≡ false = ground (arith, h.0) in
    rw (t, word_counter_loop) (word_counter-in_word d w rest k h.1)

word_counter-EndsWord :
    (d : ℕ) (rest : Text) (k : ℕ)
    → EndsWord d rest
    → word_counter_loop d rest true k ≡ word_counter_loop d rest false k
unfolding word_counter_loop
word_counter-EndsWord d [] k h = refl
word_counter-EndsWord d (c ∷ s) k h =
    let t : (c == d) ≡ true = ground (arith, h) in rw (t, word_counter_loop)

word_counter-Words :
    (d : ℕ) {s : Text} {ws : List Text} (k : ℕ)
    → Words d s ws
    → word_counter_loop d s false k ≡ k + length ws
unfolding word_counter_loop
word_counter-Words d k nil = omega arith
word_counter-Words d k (skip {s} {ws} p) =
    let t : (d == d) ≡ true = ground arith in rw (t, word_counter_loop) (word_counter-Words d k p)
word_counter-Words d k (word c w rest {s} {ws} clear stops e p) =
    let t : (c == d) ≡ false = ground (arith, clear.0) in
    ap (λ z. word_counter_loop d z false k) e
    ∙ rw (t, word_counter_loop)
        (word_counter-in_word d w rest (k + 1) clear.1
          ∙ word_counter-EndsWord d rest (k + 1) stops
          ∙ word_counter-Words d (k + 1) p
          ∙ omega arith)

-- `word_counter` counts the words of a string.
pub word_counter_lem :
    (d : ℕ) {s : Text} {ws : List Text} → Words d s ws → word_counter s d ≡ length ws
unfolding word_counter
word_counter_lem d {ws} p = word_counter-Words d 0 p ∙ zero-add (length ws)
