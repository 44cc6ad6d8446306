-- ===== src/PushSwap/Parser/Decimal.antt =====
-- The numbers that digits stand for, and why a number has one text without leading zeros.
use model_lib.Common.{
  ℕ, zero, suc, ◌+◌, ◌-◌, ◌*◌, ◌≤◌, ◌<◌, ◌≢◌, ◌≡◌, ◌↔◌, refl, ap, sym, ◌∙◌, ◌==◌, Bool-cases, leb,
  inl, inr, [], ◌∷◌, ◌++◌, arith, length, length-append, length-replicate, All, All-append,
  replicate,
}
use model_lib.Common.Int.{ℤ}
use model_lib.Libft.Strings.{Text}
use model_lib.PushSwap.Position.{int_max}
use model_lib.PushSwap.Parser.{skip_zeros}

abbrev pub IsDigit : ℕ → Type 0
IsDigit c = (b'0' ≤ c) × (c ≤ b'9')

-- The number that digits stand for behind `n`.
abbrev pub value : ℕ → Text → ℕ
value n [] = n
value n (c ∷ s) = value (n * 10 + (c - b'0')) s

-- The texts of the numbers of an `int`, with the number of each: digits, with a sign or without
-- one, but no minus before zero.
pub data Number : Text → ℤ → Type 0 where
  plain :
      (s : Text) → 0 < length s → All IsDigit s → value 0 s ≤ int_max → Number s (ℤ.pos (value 0 s))
  plus :
      (s : Text)
      → 0 < length s
      → All IsDigit s
      → value 0 s ≤ int_max
      → Number (b'+' ∷ s) (ℤ.pos (value 0 s))
  minus :
      (s : Text) (n : ℕ)
      → All IsDigit s
      → value 0 s ≡ suc n
      → n ≤ int_max
      → Number (b'-' ∷ s) (ℤ.negsuc n)

pub value-skip_zeros : (s : Text) → value 0 (skip_zeros s) ≡ value 0 s
unfolding skip_zeros
value-skip_zeros [] = refl
value-skip_zeros (c ∷ s) = elim (Bool-cases (c == b'0')) [
  | inl t ↦
      let z : c ≡ b'0' = ground arith in
      let n : 0 ≡ 0 * 10 + (c - b'0') = omega arith in
      rw (t, skip_zeros) (value-skip_zeros s ∙ ap (λ k. value k s) n)
  | inr t ↦ rw (t, skip_zeros)
]

pub All-skip_zeros : (s : Text) → All IsDigit (skip_zeros s) → All IsDigit s
unfolding skip_zeros
All-skip_zeros [] h = tt
All-skip_zeros (c ∷ s) h = elim (Bool-cases (c == b'0')) [
  | inl t ↦ (ground arith, All-skip_zeros s (rw (t, skip_zeros) at h))
  | inr t ↦ rw (t, skip_zeros) at h
]

pub skip_zeros-All : (s : Text) → All IsDigit s → All IsDigit (skip_zeros s)
unfolding skip_zeros
skip_zeros-All [] h = tt
skip_zeros-All (c ∷ s) h = elim (Bool-cases (c == b'0')) [
  | inl t ↦ rw (t, skip_zeros) (skip_zeros-All s h.1)
  | inr t ↦ rw (t, skip_zeros) h
]

-- Texts of one length are told apart by their numbers.
value-injective :
    (s t : Text) (a b : ℕ)
    → All IsDigit s
    → All IsDigit t
    → length s ≡ length t
    → value a s ≡ value b t
    → (a ≡ b) × (s ≡ t)
value-injective [] [] a b hs ht l e = (e, refl)
value-injective [] (d ∷ t) a b hs ht l e = absurd (omega arith)
value-injective (c ∷ s) [] a b hs ht l e = absurd (omega arith)
value-injective (c ∷ s) (d ∷ t) a b hs ht l e =
    let (p, q) =
      value-injective s t (a * 10 + (c - b'0')) (b * 10 + (d - b'0')) hs.1 ht.1 (omega arith) e in
    let same : c ≡ d = omega arith in (omega arith, λ i. same i ∷ q i)

value-replicate : (k : ℕ) (s : Text) → value 0 (replicate k b'0' ++ s) ≡ value 0 s
value-replicate zero s = refl
value-replicate (suc k) s = value-replicate k s

replicate-All : (k : ℕ) → All IsDigit (replicate k b'0')
replicate-All zero = tt
replicate-All (suc k) = ((omega arith, omega arith), replicate-All k)

skip_zeros-no_zero : (s r : Text) → skip_zeros s ≢ b'0' ∷ r
unfolding skip_zeros
skip_zeros-no_zero [] r e = cc e
skip_zeros-no_zero (c ∷ s) r e = elim (Bool-cases (c == b'0')) [
  | inl t ↦ skip_zeros-no_zero s r (rw (t, skip_zeros) at e)
  | inr t ↦
      let h : c ∷ s ≡ b'0' ∷ r = rw (t, skip_zeros) at e in let z : c ≡ b'0' = cc h in ground arith
]

no_padding : (k : ℕ) (u t : Text) → replicate k b'0' ++ u ≡ skip_zeros t → u ≡ skip_zeros t
no_padding zero u t h = h
no_padding (suc k) u t h = absurd (skip_zeros-no_zero t (replicate k b'0' ++ u) (sym h))

-- The shorter of two texts of one number is as long as the other, without leading zeros.
canonical_shorter :
    (s t : Text) (k : ℕ)
    → All IsDigit s
    → All IsDigit t
    → value 0 s ≡ value 0 t
    → k + length (skip_zeros s) ≡ length (skip_zeros t)
    → skip_zeros s ≡ skip_zeros t
canonical_shorter s t k hs ht e l =
    let same : replicate k b'0' ++ skip_zeros s ≡ skip_zeros t =
      (value-injective (replicate k b'0' ++ skip_zeros s) (skip_zeros t) 0 0
        (All-append IsDigit (replicate k b'0') (skip_zeros s) (replicate-All k)
          (skip_zeros-All s hs))
        (skip_zeros-All t ht)
        (length-append (replicate k b'0') (skip_zeros s)
          ∙ ap (λ n. n + length (skip_zeros s)) (length-replicate k b'0')
          ∙ l)
        (value-replicate k (skip_zeros s) ∙ value-skip_zeros s ∙ e ∙ sym (value-skip_zeros t))).1 in
    no_padding k (skip_zeros s) t same

-- Digits stand for one number exactly if they agree behind their leading zeros.
pub canonical :
    (s t : Text)
    → All IsDigit s
    → All IsDigit t
    → (skip_zeros s ≡ skip_zeros t) ↔ (value 0 s ≡ value 0 t)
canonical s t hs ht = (
  λ e. sym (value-skip_zeros s) ∙ ap (value 0) e ∙ value-skip_zeros t,
  λ e. elim (Bool-cases (leb (length (skip_zeros s)) (length (skip_zeros t)))) [
    | inl h ↦
        canonical_shorter s t (length (skip_zeros t) - length (skip_zeros s)) hs ht e (ground arith)
    | inr h ↦ sym (
        canonical_shorter t s (length (skip_zeros s) - length (skip_zeros t)) ht hs (sym e)
          (ground arith))
  ],
)
