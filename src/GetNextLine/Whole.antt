-- ===== src/GetNextLine/Whole.antt =====
-- The calls of get_next_line up to the first NULL give the lines of what is read, one by one.
use model_lib.Common.{
  ℕ, zero, suc, ◌≤◌, ◌≡◌, refl, ap, sym, subst, ◌∙◌, ◌==◌, if◌then◌else◌, Bool, Bool-cases, true,
  false, List, [], ◌∷◌, ◌++◌, Option, none, some, length, arith, All, inl, inr,
}
use model_lib.Libft.Strings.{Text}
use model_lib.GetNextLine.{World, or_empty, get_next_line}
use model_lib.GetNextLine.Split.{first_line, behind_line, IsText, behind_line-lt}
use model_lib.GetNextLine.Reading.{IsChunk, text_of}
use model_lib.GetNextLine.Lines.{next_line, get_next_line-Once}

-- The lines of a text, each with its newline, which only the last may lack.
abbrev onto_head : ℕ → List Text → List Text
onto_head c [] = (c ∷ []) ∷ []
onto_head c (l ∷ lines) = (c ∷ l) ∷ lines

abbrev pub split_lines : Text → List Text
split_lines [] = []
split_lines (c ∷ s) =
    let rest = split_lines s in if c == b'\n' then (c ∷ []) ∷ rest else onto_head c rest

split_lines-cons :
    (c : ℕ) (s : Text)
    → split_lines (c ∷ s) ≡ first_line (c ∷ s) ∷ split_lines (behind_line (c ∷ s))
split_lines-cons c [] = elim (Bool-cases (c == b'\n')) [ inl t ↦ rw t | inr t ↦ rw t ]
split_lines-cons c (d ∷ s) = elim (Bool-cases (c == b'\n')) [
  | inl t ↦ rw t
  | inr t ↦ rw t (ap (onto_head c) (split_lines-cons d s))
]

-- Calls on one file up to the first that gives NULL, and the lines that the others gave.
pub data Calls (malloc : ℕ → Bool) : World → Option Text → List Text → Type 0 where
  stops :
      {w w' : World} {o o' : Option Text}
      → get_next_line malloc false w o ≡ some (none, o', w')
      → or_empty o' ++ text_of w'.left ≡ []
      → Calls malloc w o []
  gives :
      {w w' : World} {o o' : Option Text} {line : Text} {lines : List Text}
      → get_next_line malloc false w o ≡ some (some line, o', w')
      → Calls malloc w' o' lines
      → Calls malloc w o (line ∷ lines)

module _ (malloc : ℕ → Bool) (enough : (call : ℕ) → malloc call ≡ true) where
  Calls-split_lines :
      (n : ℕ) (s : Text) (w : World) (o : Option Text)
      → length s ≤ n
      → or_empty o ++ text_of w.left ≡ s
      → IsText (or_empty o)
      → All IsChunk w.left
      → Calls malloc w o (split_lines s)
  Calls-split_lines n [] w o room whole clean chunks =
      let r = get_next_line-Once malloc enough w o clean chunks in
      stops (r.gives ∙ (λ i. some (next_line (whole i), r.o', r.w')))
        (r.behind ∙ ap behind_line whole)
  Calls-split_lines zero (c ∷ s) w o room whole clean chunks = absurd (omega (arith, room))
  Calls-split_lines (suc n) (c ∷ s) w o room whole clean chunks =
      let r = get_next_line-Once malloc enough w o clean chunks in
      let shorter : length (behind_line (c ∷ s)) ≤ n = omega (arith, room, behind_line-lt c s) in
      subst (Calls malloc w o) (sym (split_lines-cons c s)) (
        gives (r.gives ∙ (λ i. some (next_line (whole i), r.o', r.w'))) (
          Calls-split_lines n (behind_line (c ∷ s)) r.w' r.o' shorter
            (r.behind ∙ ap behind_line whole) r.clean r.reads))

  -- If malloc succeeds and the calls of read give bytes other than NUL up to the end of the file, the
  -- calls of get_next_line give the lines of these bytes one by one, however they are cut into calls
  -- of read, and then NULL, with no byte kept or left to read.
  pub get_next_line-split_lines :
      (w : World) → All IsChunk w.left → Calls malloc w none (split_lines (text_of w.left))
  get_next_line-split_lines w chunks =
      Calls-split_lines (length (text_of w.left)) (text_of w.left) w none (omega arith) refl tt
        chunks
