-- ===== src/Common/Scan.antt =====
-- The loop that keeps the first item of least weight, given a bound to start from.
use Prim.Native.Nat.{ℕ, suc, ◌≤◌, ◌<◌}
use mathlib.Core.Path.{◌≡◌, refl}
use mathlib.Core.Logic.{◌⊎◌, inl, inr}
use mathlib.Core.Option.{some}
use mathlib.Core.List.{List, [], ◌∷◌}
use native.Mathlib.Omega.{arith}
use model_lib.Common.Tests.{ltb, if◌then◌else◌, Bool-cases}
use model_lib.Common.Lists.{get_elem?}
use model_lib.Common.Each.{All}

module _ {ℓ κ} {A : Type ℓ} {B : Type κ} (weight : A → ℕ) (value : A → B) where
  abbrev pub scan_min : List A → ℕ → B → B
  scan_min [] bound best = best
  scan_min (x ∷ xs) bound best =
      let better = ltb (weight x) bound in
      scan_min xs (if better then weight x else bound) (if better then value x else best)

  -- An item of the list with the value that was found, no item being lighter.
  pub record Least (l : List A) (bound : ℕ) (found : B) : Type (ℓ ⊔ κ) where
    pub place : ℕ
    pub item : A
    pub at : get_elem? l place ≡ some item
    pub is_found : found ≡ value item
    pub below : weight item < bound
    pub least : All (λ y. weight item ≤ weight y) l

  -- Either nothing is below the bound, or the least item is found.
  abbrev pub Scanned : List A → ℕ → B → B → Type (ℓ ⊔ κ)
  Scanned l bound best found =
      (All (λ y. bound ≤ weight y) l × (found ≡ best)) ⊎ Least l bound found

module _ {ℓ κ} {A : Type ℓ} {B : Type κ} (weight : A → ℕ) (value : A → B) where
  Least-later :
      (x : A) (xs : List A) (bound bound' : ℕ) (found : B)
      → bound' ≤ weight x
      → bound' ≤ bound
      → Least weight value xs bound' found
      → Least weight value (x ∷ xs) bound found
  Least-later x xs bound bound' found h k r = record {
    place = suc r.place;
    item = r.item;
    at = r.at;
    is_found = r.is_found;
    below = omega (arith, r.below);
    least = (omega (arith, r.below), r.least);
  }

  pub scan_min_lem :
      (l : List A) (bound : ℕ) (best : B)
      → Scanned weight value l bound best (scan_min weight value l bound best)
  scan_min_lem [] bound best = inl (tt, refl)
  scan_min_lem (x ∷ xs) bound best = elim (Bool-cases (ltb (weight x) bound)) [
    | inl e ↦ rw e (elim (scan_min_lem xs (weight x) (value x)) [
      | inl (all, same) ↦ inr (record {
        place = 0;
        item = x;
        at = refl;
        is_found = same;
        below = ground arith;
        least = (omega arith, all);
      })
      | inr r ↦ inr (Least-later x xs bound (weight x) _ (omega arith) (ground arith) r)
    ])
    | inr e ↦ rw e (elim (scan_min_lem xs bound best) [
      | inl (all, same) ↦ inl ((ground arith, all), same)
      | inr r ↦ inr (Least-later x xs bound bound _ (ground arith) (omega arith) r)
    ])
  ]
