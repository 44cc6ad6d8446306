-- ===== src/Libft/Strings/Substr.antt =====
-- `ft_strlen` counts the bytes, and `ft_substr` gives the part of a string that was asked for.
use model_lib.Common.{
  ℕ, zero, suc, ◌+◌, ◌≤◌, ◌<◌, ◌≡◌, refl, ap, sym, ◌∙◌, Bool, true, false, ltb, ◌&&◌, if◌then◌else◌,
  Bool-cases, inl, inr, [], ◌∷◌, ◌++◌, none, some, length, take, drop, length-take, length-drop,
  arith,
}
use mathlib.Core.List.{append-nil, append_assoc}
use native.Mathlib.Nat.{zero-add}
use native.Mathlib.Numerals.{add-one}
use model_lib.Libft.Strings.{
  Text, char_at, strlen_loop, ft_strlen, substr_size, substr_loop, ft_substr,
}

strlen_loop_lem : (s : Text) (i : ℕ) → strlen_loop s i ≡ i + length s
unfolding strlen_loop
strlen_loop_lem [] i = omega arith
strlen_loop_lem (c ∷ s) i = omega (arith, strlen_loop_lem s (i + 1))

pub ft_strlen-length : (s : Text) → ft_strlen s ≡ length s
unfolding ft_strlen
ft_strlen-length s = strlen_loop_lem s 0 ∙ zero-add (length s)

-- A part that is not empty begins with the byte at its start.
take-drop-step :
    (s : Text) (start n : ℕ)
    → start < length s
    → take (suc n) (drop start s) ≡ char_at s start ∷ take n (drop (suc start) s)
take-drop-step [] start n h = elim h [ ]
take-drop-step (c ∷ s) zero n h = refl
take-drop-step (c ∷ s) (suc start) n h = take-drop-step s start n (omega arith)

drop-end : (s : Text) (start : ℕ) → length s ≤ start → drop start s ≡ []
drop-end [] zero h = refl
drop-end [] (suc start) h = refl
drop-end (c ∷ s) zero h = absurd (omega arith)
drop-end (c ∷ s) (suc start) h = drop-end s start (omega arith)

-- With a round for each byte that is left the loop appends the rest of the part.
substr_loop_lem :
    (fuel : ℕ) (s : Text) (i start n : ℕ) (out : Text)
    → length s < fuel + start
    → 0 < fuel
    → substr_loop fuel s i start (i + n) (length s) out ≡ some (out ++ take n (drop start s))
unfolding substr_loop
substr_loop_lem zero s i start n out h p = absurd (omega arith)
substr_loop_lem (suc fuel) s i start zero out h p =
    let t : (ltb i (i + 0) && ltb start (length s)) ≡ false = ground arith in
    rw (t, substr_loop) (ap some (sym (append-nil out)))
substr_loop_lem (suc fuel) s i start (suc n) out h p = elim (Bool-cases (ltb start (length s))) [
  | inl more ↦
      let t : (ltb i (i + suc n) && ltb start (length s)) ≡ true = ground (arith, more) in
      let inside : start < length s = ground (arith, more) in
      let e : i + suc n ≡ i + 1 + n = omega arith in
      let c = char_at s start in
      let rest : c ∷ take n (drop (start + 1) s) ≡ take (suc n) (drop start s) =
        ap (λ k. c ∷ take n (drop k s)) (add-one start) ∙ sym (take-drop-step s start n inside) in
      rw (t, substr_loop)
        (ap (λ k. substr_loop fuel s (i + 1) (start + 1) k (length s) (out ++ c ∷ [])) e
          ∙ substr_loop_lem fuel s (i + 1) (start + 1) n (out ++ c ∷ []) (omega arith) (omega arith)
          ∙ ap some (append_assoc out (c ∷ []) (take n (drop (start + 1) s)) ∙ ap (◌++◌ out) rest))
  | inr done ↦
      let t : (ltb i (i + suc n) && ltb start (length s)) ≡ false = ground (arith, done) in
      let past : drop start s ≡ [] = drop-end s start (ground (arith, done)) in
      rw (t, substr_loop)
        (ap some (sym (ap (λ (d : Text). out ++ take (suc n) d) past ∙ append-nil out)))
]

-- If the allocation succeeds, the part from `start` of at most `len` bytes is returned, and it
-- fills the allocated bytes exactly, with its NUL; if it fails, NULL.
pub ft_substr_lem :
    (malloc : ℕ → Bool) (s : Text) (start len : ℕ)
    → let size = substr_size (length s) start len in
      let part = take len (drop start s) in
      (ft_substr malloc s start len ≡ (if malloc size then some part else none))
      × (length part + 1 ≡ size)
unfolding ft_substr
ft_substr_lem malloc s start len =
    let e = ft_strlen-length s in
    let run =
      ap (λ k. substr_loop (length s + 1) s 0 start k (length s) []) (sym (zero-add len))
      ∙ substr_loop_lem (length s + 1) s 0 start len [] (omega arith) (omega arith) in
    (
      rw e (elim (Bool-cases (malloc (substr_size (length s) start len))) [
        | inl t ↦ rw t run
        | inr t ↦ rw t
      ]),
      exact,
    )
  where
    exact : length (take len (drop start s)) + 1 ≡ substr_size (length s) start len
    exact = ground (arith, length-take len (drop start s), length-drop start s)
