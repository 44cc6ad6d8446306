-- ===== src/PushSwap/Parser/Arguments.antt =====
-- Which arguments `error_free` accepts: texts of numbers of an `int` that are all different.
use model_lib.Common.{
  ◌≢◌, ◌≡◌, ◌↔◌, refl, ap, sym, ◌∙◌, if◌then◌else◌, Bool-cases, true, false, inl, inr, List, [],
  ◌∷◌, ◌++◌, All, AllPairs, All-append, All-append_left, All-append_right, All-imp, All-imp₂,
}
use model_lib.Common.Int.{ℤ}
use model_lib.Libft.Strings.{Text}
use model_lib.PushSwap.Parser.{ft_same, ft_atoi_check, any_same, error_free_loop, error_free}
use model_lib.PushSwap.Parser.Decimal.{Number}
use model_lib.PushSwap.Parser.Number.{ft_atoi_check-Number}
use model_lib.PushSwap.Parser.Same.{ft_same-Number}

-- Texts, and the number of each.
pub data Numbers : List Text → List ℤ → Type 0 where
  nil : Numbers [] []
  cons :
      {s : Text} {v : ℤ} {ss : List Text} {vs : List ℤ}
      → Number s v
      → Numbers ss vs
      → Numbers (s ∷ ss) (v ∷ vs)

Numbers-append :
    {ss ts : List Text} {vs ws : List ℤ}
    → Numbers ss vs
    → Numbers ts ws
    → Numbers (ss ++ ts) (vs ++ ws)
Numbers-append Numbers.nil q = q
Numbers-append (Numbers.cons n p) q = Numbers.cons n (Numbers-append p q)

-- The inner loop finds the number among those before it.
any_same_iff :
    {s : Text} {v : ℤ} {ts : List Text} {ws : List ℤ}
    → Number s v
    → Numbers ts ws
    → (any_same s ts ≡ false) ↔ All (λ w. v ≢ w) ws
unfolding any_same
any_same_iff n Numbers.nil = (λ e. tt, λ h. refl)
any_same_iff {s} {v} n (Numbers.cons {s = t} {v = w} m p) =
    let (to_eq, of_eq) = ft_same-Number s t v w n m in
    let (there, back) = any_same_iff n p in
    elim (Bool-cases (ft_same s t)) [
      | inl h ↦ (λ e. absurd (cc (rw (h, any_same) at e)), λ k. absurd (k.0 (to_eq h)))
      | inr h ↦ (
        λ e. (λ q. absurd (cc (h, of_eq q)), there (rw (h, any_same) at e)),
        λ k. rw (h, any_same) (back k.1),
      )
    ]

-- Numbers for the rest of the arguments, different from each other and from those before.
abbrev Accepted : List ℤ → List Text → Type 0
Accepted ws rest =
    (vs : List ℤ) × Numbers rest vs × AllPairs (λ v w. v ≢ w) vs × All (λ v. All (λ w. v ≢ w) ws) vs

Number-step :
    {text : Text} {v : ℤ} (checked rest : List Text)
    → Number text v
    → error_free_loop checked (text ∷ rest)
      ≡ (if any_same text checked then false else error_free_loop (checked ++ text ∷ []) rest)
unfolding error_free_loop
Number-step {text} {v} checked rest n =
    let e : (ft_atoi_check text false).1 ≡ false =
      ap (λ r. r.1) ((ft_atoi_check-Number text v).1 n) in
    rw (e, error_free_loop)

-- A text with no error is one of a number.
error-step :
    (text : Text) (checked rest : List Text)
    → error_free_loop checked (text ∷ rest) ≡ true
    → (v : ℤ) × Number text v
unfolding error_free_loop
error-step text checked rest e = elim (Bool-cases (ft_atoi_check text false).1) [
  | inl h ↦ absurd (cc (rw (h, error_free_loop) at e))
  | inr h ↦
      let v = (ft_atoi_check text false).0 in (v, (ft_atoi_check-Number text v).0 (λ i. (v, h i)))
]

loop-Accepted :
    (checked rest : List Text) {ws : List ℤ}
    → Numbers checked ws
    → error_free_loop checked rest ≡ true
    → Accepted ws rest
loop-Accepted checked [] p e = ([], Numbers.nil, tt, tt)
loop-Accepted checked (text ∷ rest) {ws} p e =
    let (v, n) = error-step text checked rest e in
    let s = sym (Number-step checked rest n) ∙ e in
    elim (Bool-cases (any_same text checked)) [
      | inl h ↦ absurd (cc (rw h at s))
      | inr h ↦
          let (vs, q, d, a) =
            loop-Accepted (checked ++ text ∷ []) rest
              (Numbers-append p (Numbers.cons n Numbers.nil)) (rw h at s) in
          let fresh = All-imp (λ x h. All-append_left (λ w. x ≢ w) ws (v ∷ []) h) vs a in
          let apart =
            All-imp (λ x h e. (All-append_right (λ w. x ≢ w) ws (v ∷ []) h).0 (sym e)) vs a in
          (v ∷ vs, Numbers.cons n q, (apart, d), ((any_same_iff n p).0 h, fresh))
    ]

Accepted-loop :
    (checked rest : List Text) {ws vs : List ℤ}
    → Numbers checked ws
    → Numbers rest vs
    → AllPairs (λ v w. v ≢ w) vs
    → All (λ v. All (λ w. v ≢ w) ws) vs
    → error_free_loop checked rest ≡ true
unfolding error_free_loop
Accepted-loop checked [] p Numbers.nil d a = refl
Accepted-loop checked (text ∷ rest) {ws} p (Numbers.cons {v = v} {vs = vs} n q) d a =
    let later =
      Accepted-loop (checked ++ text ∷ []) rest (Numbers-append p (Numbers.cons n Numbers.nil)) q
        d.1
        (All-imp₂ (λ x h k. All-append (λ w. x ≢ w) ws (v ∷ []) h ((λ e. k (sym e)), tt)) vs a.1
          d.0) in
    Number-step checked rest n ∙ rw ((any_same_iff n p).1 a.0) later

none_before : (vs : List ℤ) → All (λ v. All (λ (w : ℤ). v ≢ w) []) vs
none_before [] = tt
none_before (v ∷ vs) = (tt, none_before vs)

-- `error_free` accepts exactly the arguments that are texts of different numbers of an `int`.
pub error_free-Numbers :
    (args : List Text)
    → (error_free args ≡ true) ↔ ((vs : List ℤ) × Numbers args vs × AllPairs (λ v w. v ≢ w) vs)
unfolding error_free
error_free-Numbers args = (
  λ e. let (vs, q, d, a) = loop-Accepted [] args Numbers.nil e in (vs, q, d),
  λ (vs, q, d). Accepted-loop [] args Numbers.nil q d (none_before vs),
)
