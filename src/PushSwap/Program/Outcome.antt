-- ===== src/PushSwap/Program/Outcome.antt =====
-- The runs of the program: for each list of arguments, what it writes and the status it ends with.
use model_lib.Common.{
  ℕ, ◌+◌, ◌*◌, ◌≤◌, ◌<◌, ◌≢◌, ◌≡◌, ◌==◌, refl, ap, sym, subst, ◌∙◌, if◌then◌else◌, ◌||◌, Bool,
  Bool-cases, true, false, List, [], ◌∷◌, none, some, length, length-map, length-append, map, All,
  AllPairs, arith, ◌⊎◌, inl, inr,
}
use mathlib.Core.List.{Perm}
use model_lib.Common.Int.{ℤ, ◌<ℤ◌}
use model_lib.Libft.Strings.{Text, char_at}
use model_lib.Libft.Split.{ft_split, Filled}
use model_lib.Libft.Split.Words.{Words}
use model_lib.Libft.Split.Loop.{ft_split_lem, Refused}
use model_lib.PushSwap.Node.{Node, Machine}
use model_lib.PushSwap.Operations.Replay.{Instruction, text, run}
use model_lib.PushSwap.Position.{int_max}
use model_lib.PushSwap.Sort.{sort_stack}
use model_lib.PushSwap.Sort.Ranks.{numbers}
use model_lib.PushSwap.Sort.Whole.{sort_stack-SortsNumbers}
use model_lib.PushSwap.Parser.{error_free}
use model_lib.PushSwap.Parser.Arguments.{Numbers, error_free-Numbers}
use model_lib.PushSwap.Program.{
  Parsed, parse_texts, ft_parse, error_message, Ending, main, create_stack,
}
use model_lib.PushSwap.Program.Create.{memory_len-length, Numbers-length, create_stack-IsFresh}

pub Words-length : {d : ℕ} {s : Text} {ws : List Text} → Words d s ws → length ws ≤ length s
Words-length Words.nil = omega arith
Words-length (Words.skip p) = omega (arith, Words-length p)
Words-length (Words.word c w rest {s = s} clear ends e p) =
    omega (arith, ap length e, length-append (c ∷ w) rest, Words-length p)

-- A single argument that is refused at sight: it is empty, or it begins with a space.
abbrev pub IsBlank : Text → Type 0
IsBlank s = (char_at s 0 ≡ 0) ⊎ (char_at s 0 ≡ b' ')

-- The texts that the arguments give: a single argument is split into words.
pub data Given : List Text → List Text → Type 0 where
  one : (s : Text) (ws : List Text) → ¬ IsBlank s → Words b' ' s ws → Given (s ∷ []) ws
  many : (s t : Text) (r : List Text) → Given (s ∷ t ∷ r) (s ∷ t ∷ r)

-- Texts of different numbers.
abbrev pub AreAccepted : List Text → List ℤ → Type 0
AreAccepted texts vs = Numbers texts vs × AllPairs (λ v w. v ≢ w) vs

-- The run ends well, and its output is instructions that sort the numbers.
abbrev pub WritesSort : List ℤ → Ending → Type 0
WritesSort vs e =
    (moves : List Instruction) × (sorted : List ℤ) × (e ≡ Ending.ends 0 [] (map text moves))
    × (run moves (vs, []) ≡ (sorted, []))
    × AllPairs ◌<ℤ◌ sorted
    × Perm vs sorted

-- The run writes the message, and nothing else.
abbrev pub Refuses : Ending → Type 0
Refuses e = e ≡ Ending.ends 1 (error_message ∷ []) []

-- The behaviour of `main` behind `ft_parse`.
abbrev finish : Parsed → Ending
finish p = elim p [
  | Parsed.stuck ↦ Ending.stuck
  | Parsed.exits said ↦ Ending.ends 1 (if said then error_message ∷ [] else []) []
  | Parsed.parsed argc stack_a ↦ elim (sort_stack stack_a argc) [
    | none ↦ Ending.stuck
    | some m ↦ Ending.ends 0 [] m.out
  ]
]

sorted_end :
    (l : List Node) (n : ℕ) {m : Machine}
    → sort_stack l n ≡ some m
    → finish (Parsed.parsed n l) ≡ Ending.ends 0 [] m.out
sorted_end l n e = λ i. elim (e i) [ none ↦ Ending.stuck | some m ↦ Ending.ends 0 [] m.out ]

-- What texts lead to.
abbrev pub Ends : List Text → Ending → Type 0
Ends texts e =
    (¬ ((vs : List ℤ) × AreAccepted texts vs) × Refuses e)
    ⊎ ((vs : List ℤ) × AreAccepted texts vs × WritesSort vs e)

module _ (malloc : ℕ → ℕ → Bool) (memory : ℕ → Node)
    (enough : (call size : ℕ) → malloc call size ≡ true) where
  refused :
      (first argc : ℕ) (texts : List Text)
      → error_free texts ≡ false
      → parse_texts malloc memory first texts argc ≡ Parsed.exits true
  unfolding parse_texts
  refused first argc texts h = rw (h, parse_texts)

  taken :
      (first argc : ℕ) (texts : List Text) {l : List Node}
      → error_free texts ≡ true
      → create_stack malloc memory first texts ≡ some l
      → parse_texts malloc memory first texts argc ≡ Parsed.parsed argc l
  unfolding parse_texts
  taken first argc texts h e = rw (h, e, parse_texts)

  texts_lem :
      (first : ℕ) (texts : List Text)
      → 0 < length texts
      → length texts < int_max
      → Ends texts (finish (parse_texts malloc memory first texts (length texts)))
  texts_lem first texts full few = elim (Bool-cases (error_free texts)) [
    | inr h ↦ inl (
      λ (vs, a). absurd (cc (h, (error_free-Numbers texts).1 (vs, a.0, a.1))),
      ap finish (refused first (length texts) texts h),
    )
    | inl h ↦
        let (vs, p, d) = (error_free-Numbers texts).0 h in
        let (l, e, k, f) = create_stack-IsFresh malloc memory enough first p d in
        let size : length texts ≡ length l =
          Numbers-length p ∙ ap length (sym k) ∙ length-map l (λ (n : Node). n.number) in
        let nonempty : l ≢ [] = λ z. absurd (omega (arith, full, size, ap length z)) in
        let (m, s, r) = sort_stack-SortsNumbers l nonempty (omega (arith, few, size)) f in
        let end =
          ap finish (taken first (length texts) texts h e)
          ∙ ap (λ n. finish (Parsed.parsed n l)) size
          ∙ sorted_end l (length l) s
          ∙ ap (Ending.ends 0 []) r.printed in
        let played = subst (λ ns. run r.moves (ns, []) ≡ (numbers m.a, [])) k r.played in
        inr (
          vs,
          (p, d),
          (
            r.moves,
            numbers m.a,
            end,
            played,
            r.ascending,
            subst (λ ns. Perm ns (numbers m.a)) k r.same,
          ),
        )
  ]

  never_Refused : {call : ℕ} {before ws : List Text} → ¬ Refused malloc call before ws
  never_Refused (Refused.here {call} w m) = absurd (cc (m, enough call (length w + 1)))
  never_Refused (Refused.later w m r) = never_Refused r

  split-Words :
      (arg : Text)
      → (ws : List Text) × Words b' ' arg ws × (ft_split malloc arg b' ' ≡ Filled.filled ws)
  split-Words arg =
      let (ws, p, count, ended) = ft_split_lem malloc b' ' arg in
      elim ended [
        | inl (m, e) ↦ absurd (cc (m, enough 0 (8 * (length ws + 1))))
        | inr (m, inl (given, e)) ↦ (ws, p, e)
        | inr (m, inr (before, r, e)) ↦ absurd (never_Refused r)
      ]

  split_end :
      (arg : Text) {ws : List Text}
      → (char_at arg 0 == 0 || char_at arg 0 == b' ') ≡ false
      → ft_split malloc arg b' ' ≡ Filled.filled ws
      → ft_parse malloc memory (arg ∷ []) ≡ parse_texts malloc memory (length ws + 1) ws (length ws)
  unfolding ft_parse
  split_end arg {ws} h e =
      rw (h, e, ft_parse) (ap (λ n. parse_texts malloc memory (n + 1) ws n) (memory_len-length ws))

  blank_end :
      (arg : Text)
      → (char_at arg 0 == 0 || char_at arg 0 == b' ') ≡ true
      → ft_parse malloc memory (arg ∷ []) ≡ Parsed.exits true
  unfolding ft_parse
  blank_end arg h = rw (h, ft_parse)

-- The first byte of a string without words is the NUL or the delimiter.
no-Words : {d : ℕ} {s : Text} → Words d s [] → (char_at s 0 ≡ 0) ⊎ (char_at s 0 ≡ d)
no-Words Words.nil = inl refl
no-Words (Words.skip p) = inr refl

-- The behaviour of a run: nothing without arguments; else a refusal, or what the texts lead to.
abbrev pub Behaves : List Text → Ending → Type 0
Behaves args e =
    ((args ≡ []) × (e ≡ Ending.ends 0 [] []))
    ⊎ (((arg : Text) × (args ≡ arg ∷ []) × IsBlank arg × Refuses e)
        ⊎ ((texts : List Text) × Given args texts × Ends texts e))

blank_of_test : (n : ℕ) → (n == 0 || n == b' ') ≡ true → (n ≡ 0) ⊎ (n ≡ b' ')
blank_of_test n h = elim (Bool-cases (n == 0)) [
  | inl t ↦ inl (ground arith)
  | inr t ↦ inr (ground (arith, h))
]

not_blank : (n : ℕ) → (n == 0 || n == b' ') ≡ false → ¬ ((n ≡ 0) ⊎ (n ≡ b' '))
not_blank n h (inl e) = ground (arith, h)
not_blank n h (inr e) = ground (arith, h)

some_word : {s : Text} (ws : List Text) → ¬ IsBlank s → Words b' ' s ws → 0 < length ws
some_word [] h p = absurd (h (no-Words p))
some_word (w ∷ ws) h p = omega arith

-- If no allocation fails, and there are fewer than INT_MAX arguments and bytes in each, a run
-- without arguments writes nothing, a blank argument alone or texts that are not different numbers
-- are refused with the message and status 1, and else status 0 follows on the output of
-- instructions that sort the numbers; there is no fault and no endless loop.
pub main-Behaves :
    (malloc : ℕ → ℕ → Bool) (memory : ℕ → Node) (args : List Text)
    → ((call size : ℕ) → malloc call size ≡ true)
    → length args < int_max
    → All (λ (arg : Text). length arg < int_max) args
    → Behaves args (main malloc memory args)
unfolding main ft_parse
main-Behaves malloc memory [] enough few short = inl (refl, refl)
main-Behaves malloc memory (arg ∷ []) enough few short =
    let n = char_at arg 0 in
    elim (Bool-cases (n == 0 || n == b' ')) [
      | inl t ↦
          inr (inl (arg, refl, blank_of_test n t, ap finish (blank_end malloc memory enough arg t)))
      | inr t ↦
          let h = not_blank n t in
          let (ws, p, e) = split-Words malloc memory enough arg in
          let e' = ap finish (split_end malloc memory enough arg t e) in
          let w =
            texts_lem malloc memory enough (length ws + 1) ws (some_word ws h p)
              (omega (arith, short.0, Words-length p)) in
          inr (inr (ws, Given.one arg ws h p, subst (Ends ws) (sym e') w))
    ]
main-Behaves malloc memory (s ∷ t ∷ r) enough few short = inr (
    inr
      (s ∷ t ∷ r, Given.many s t r, texts_lem malloc memory enough 0 (s ∷ t ∷ r) (omega arith) few))
