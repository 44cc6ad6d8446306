-- ===== src/GetNextLine/Split.antt =====
-- The first line of a text, and what the loops over the static string make of it.
use model_lib.Common.{
  ℕ, zero, suc, ◌+◌, ◌≤◌, ◌<◌, ◌≢◌, ◌≡◌, refl, ap, ◌∙◌, ◌==◌, if◌then◌else◌, Bool-cases, true,
  false, [], ◌∷◌, ◌++◌, none, some, take, drop, length, arith, All, ◌⊎◌, inl, inr,
}
use native.Mathlib.Numerals.{add-one}
use native.Mathlib.Nat.{zero-add}
use model_lib.Libft.Strings.{Text, char_at}
use model_lib.GetNextLine.{before_nul, strlen_loop, ft_strlen, strchr_loop, copy_loop}

-- The first line with its newline, if it has one, and what is behind it.
abbrev pub first_line : Text → Text
first_line [] = []
first_line (c ∷ s) = let rest = first_line s in if c == b'\n' then c ∷ [] else c ∷ rest

abbrev pub behind_line : Text → Text
behind_line [] = []
behind_line (c ∷ s) = let rest = behind_line s in if c == b'\n' then s else rest

abbrev pub IsText : Text → Type 0
IsText s = All (λ c. c ≢ 0) s

pub before_nul-IsText : (s : Text) → IsText s → before_nul s ≡ s
before_nul-IsText [] h = refl
before_nul-IsText (c ∷ s) h =
    let t : (c == 0) ≡ false = ground (arith, h.0) in rw t (ap (◌∷◌ c) (before_nul-IsText s h.1))

strlen_loop_lem : (s : Text) (i : ℕ) → strlen_loop s i ≡ i + length s
unfolding strlen_loop
strlen_loop_lem [] i = omega arith
strlen_loop_lem (c ∷ s) i = omega (arith, strlen_loop_lem s (i + 1))

pub ft_strlen-length : (s : Text) → ft_strlen (some s) ≡ length s
unfolding ft_strlen
ft_strlen-length s = strlen_loop_lem s 0 ∙ zero-add (length s)

-- The first `n` bytes are copied, where there are so many.
copy_loop-shift : (n i c : ℕ) (s : Text) → copy_loop n (suc i) (c ∷ s) ≡ copy_loop n i s
unfolding copy_loop
copy_loop-shift zero i c s = refl
copy_loop-shift (suc n) i c s =
    ap (◌∷◌ (char_at s i)) (rw (add-one, add-one) (copy_loop-shift n (suc i) c s))

pub copy_loop-take : (n : ℕ) (s : Text) → n ≤ length s → copy_loop n 0 s ≡ take n s
unfolding copy_loop
copy_loop-take zero s h = refl
copy_loop-take (suc n) [] h = absurd (omega (arith, h))
copy_loop-take (suc n) (c ∷ s) h =
    ap (◌∷◌ c) (copy_loop-shift n 0 c s ∙ copy_loop-take n s (omega (arith, h)))

pub take_all : (s : Text) → take (length s) s ≡ s
take_all [] = refl
take_all (c ∷ s) = ap (◌∷◌ c) (take_all s)

-- A newline that the loop finds at `j` ends the first line, whatever follows.
pub record EndsLine (s : Text) (j : ℕ) : Type 0 where
  pub inside : j < length s
  pub newline : char_at (take (suc j) s) j ≡ b'\n'
  pub line : (r : Text) → first_line (s ++ r) ≡ take (suc j) s
  pub behind : (r : Text) → behind_line (s ++ r) ≡ drop (suc j) s ++ r

-- There is no newline.
pub record IsLine (s : Text) : Type 0 where
  pub line : first_line s ≡ s
  pub behind : behind_line s ≡ []

pub strchr_loop_lem :
    (s : Text) (i : ℕ)
    → ((j : ℕ) × (strchr_loop s b'\n' i none ≡ (true, some (i + j))) × EndsLine s j)
      ⊎ ((strchr_loop s b'\n' i none ≡ (false, none)) × IsLine s)
unfolding strchr_loop
strchr_loop_lem [] i = inr (refl, record { line = refl; behind = refl })
strchr_loop_lem (c ∷ s) i = elim (Bool-cases (c == b'\n')) [
  | inl t ↦
      let same : c ≡ b'\n' = ground arith in
      let at : i ≡ i + 0 = omega arith in
      inl (
        0,
        rw (t, strchr_loop) (λ k. (true, some (at k))),
        record { inside = omega arith; newline = same; line = λ r. rw t; behind = λ r. rw t },
      )
  | inr t ↦ elim (strchr_loop_lem s (i + 1)) [
    | inl (j, e, p) ↦
        let at : i + 1 + j ≡ i + suc j = omega arith in
        inl (
          suc j,
          rw (t, strchr_loop) (e ∙ λ k. (true, some (at k))),
          record {
            inside = omega (arith, p.inside);
            newline = p.newline;
            line = λ r. rw t (ap (◌∷◌ c) (p.line r));
            behind = λ r. rw t (p.behind r);
          },
        )
    | inr (e, p) ↦
        inr (
          rw (t, strchr_loop) e,
          record { line = rw t (ap (◌∷◌ c) p.line); behind = rw t p.behind },
        )
  ]
]

-- A text falls into its first line and the rest; the rest is shorter.
pub first_line-behind : (s : Text) → first_line s ++ behind_line s ≡ s
first_line-behind [] = refl
first_line-behind (c ∷ s) = elim (Bool-cases (c == b'\n')) [
  | inl t ↦ rw t
  | inr t ↦ rw t (ap (◌∷◌ c) (first_line-behind s))
]

pub behind_line-lt : (c : ℕ) (s : Text) → length (behind_line (c ∷ s)) < length (c ∷ s)
behind_line-lt c [] = elim (Bool-cases (c == b'\n')) [
  | inl t ↦ rw t (omega arith)
  | inr t ↦ rw t (omega arith)
]
behind_line-lt c (d ∷ s) = elim (Bool-cases (c == b'\n')) [
  | inl t ↦ rw t (omega arith)
  | inr t ↦ rw t (omega (arith, behind_line-lt d s))
]
