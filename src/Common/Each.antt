-- ===== src/Common/Each.antt =====
-- Predicates over the items of a list and over its pairs, by recursion, so that they compute.
use mathlib.Core.Path.{◌≡◌, subst}
use mathlib.Core.Option.{some, some-injective}
use mathlib.Core.List.{List, [], ◌∷◌, ◌++◌, Permᴰ, map}
use model_lib.Common.Lists.{get_elem?, set}
use Prim.Native.Nat.{ℕ, zero, suc}

module _ {ℓ κ} {A : Type ℓ} where
  -- Every item satisfies `P`.
  abbrev pub All : (A → Type κ) → List A → Type κ
  All P [] = Unit
  All P (x ∷ xs) = P x × All P xs

  -- Every item is related to each item behind it.
  abbrev pub AllPairs : (A → A → Type κ) → List A → Type κ
  AllPairs R [] = Unit
  AllPairs R (x ∷ xs) = All (R x) xs × AllPairs R xs

module _ {ℓ κ μ} {A : Type ℓ} {P : A → Type κ} {Q : A → Type μ} where
  pub All-imp : ((x : A) → P x → Q x) → (xs : List A) → All P xs → All Q xs
  All-imp f [] h = tt
  All-imp f (x ∷ xs) h = (f x h.0, All-imp f xs h.1)

module _ {ℓ κ μ ν} {A : Type ℓ} {P : A → Type κ} {Q : A → Type μ} {R : A → Type ν} where
  pub All-imp₂ : ((x : A) → P x → Q x → R x) → (xs : List A) → All P xs → All Q xs → All R xs
  All-imp₂ f [] h k = tt
  All-imp₂ f (x ∷ xs) h k = (f x h.0 k.0, All-imp₂ f xs h.1 k.1)

module _ {ℓ κ} {A : Type ℓ} (P : A → Type κ) where
  pub All-append : (xs ys : List A) → All P xs → All P ys → All P (xs ++ ys)
  All-append [] ys h k = k
  All-append (x ∷ xs) ys h k = (h.0, All-append xs ys h.1 k)

  pub All-append_left : (xs ys : List A) → All P (xs ++ ys) → All P xs
  All-append_left [] ys h = tt
  All-append_left (x ∷ xs) ys h = (h.0, All-append_left xs ys h.1)

  pub All-append_right : (xs ys : List A) → All P (xs ++ ys) → All P ys
  All-append_right [] ys h = h
  All-append_right (x ∷ xs) ys h = All-append_right xs ys h.1

  pub All-get_elem? : (xs : List A) (i : ℕ) (x : A) → get_elem? xs i ≡ some x → All P xs → P x
  All-get_elem? [] i x e h = cc
  All-get_elem? (y ∷ ys) zero x e h = subst P (some-injective _ _ e) h.0
  All-get_elem? (y ∷ ys) (suc i) x e h = All-get_elem? ys i x e h.1

  pub All-perm : {xs ys : List A} → Permᴰ xs ys → All P xs → All P ys
  All-perm Permᴰ.nil h = tt
  All-perm (Permᴰ.cons e p) h = (subst P e h.0, All-perm p h.1)
  All-perm (Permᴰ.swap e f) h = (subst P f h.1.0, (subst P e h.0, h.1.1))
  All-perm (Permᴰ.trans p q) h = All-perm q (All-perm p h)

module _ {ℓ κ} {A : Type ℓ} (R : A → A → Type κ) where
  pub AllPairs-append_left : (xs ys : List A) → AllPairs R (xs ++ ys) → AllPairs R xs
  AllPairs-append_left [] ys h = tt
  AllPairs-append_left (x ∷ xs) ys h =
      (All-append_left (R x) xs ys h.0, AllPairs-append_left xs ys h.1)

  pub AllPairs-append_right : (xs ys : List A) → AllPairs R (xs ++ ys) → AllPairs R ys
  AllPairs-append_right [] ys h = h
  AllPairs-append_right (x ∷ xs) ys h = AllPairs-append_right xs ys h.1

  -- Each item of the first part is related to each item of the second.
  pub AllPairs-across : (xs ys : List A) → AllPairs R (xs ++ ys) → All (λ x. All (R x) ys) xs
  AllPairs-across [] ys h = tt
  AllPairs-across (x ∷ xs) ys h = (All-append_right (R x) xs ys h.0, AllPairs-across xs ys h.1)

  pub AllPairs-append :
      (xs ys : List A)
      → AllPairs R xs
      → AllPairs R ys
      → All (λ x. All (R x) ys) xs
      → AllPairs R (xs ++ ys)
  AllPairs-append [] ys h k a = k
  AllPairs-append (x ∷ xs) ys h k a =
      (All-append (R x) xs ys h.0 a.0, AllPairs-append xs ys h.1 k a.1)

-- A relation that holds both ways between the items of a list holds between those of any
-- permutation of it.
module _ {ℓ κ} {A : Type ℓ} (R : A → A → Type κ) (R_symm : (x y : A) → R x y → R y x) where
  pub AllPairs-perm : {xs ys : List A} → Permᴰ xs ys → AllPairs R xs → AllPairs R ys
  AllPairs-perm Permᴰ.nil h = tt
  AllPairs-perm (Permᴰ.cons {l₁ = xs} {l₂ = ys} e p) h =
      (subst (λ a. All (R a) ys) e (All-perm _ p h.0), AllPairs-perm p h.1)
  AllPairs-perm (Permᴰ.swap {a} {b} {a'} {b'} {l} e f) h =
      subst (λ u. AllPairs R (u ∷ b' ∷ l)) f
        (subst (λ v. AllPairs R (b ∷ v ∷ l)) e ((R_symm a b h.0.0, h.1.0), (h.0.1, h.1.1)))
  AllPairs-perm (Permᴰ.trans p q) h = AllPairs-perm q (AllPairs-perm p h)

module _ {ℓ κ μ} {A : Type ℓ} {R : A → A → Type κ} {S : A → A → Type μ} where
  pub AllPairs-imp : ((x y : A) → R x y → S x y) → (xs : List A) → AllPairs R xs → AllPairs S xs
  AllPairs-imp f [] h = tt
  AllPairs-imp f (x ∷ xs) h = (All-imp (f x) xs h.0, AllPairs-imp f xs h.1)

module _ {ℓ κ μ} {A : Type ℓ} {B : Type κ} (P : B → Type μ) (f : A → B) where
  pub All-map : (l : List A) → All (λ x. P (f x)) l → All P (map f l)
  All-map [] h = tt
  All-map (x ∷ xs) h = (h.0, All-map xs h.1)

  pub All-of_map : (l : List A) → All P (map f l) → All (λ x. P (f x)) l
  All-of_map [] h = tt
  All-of_map (x ∷ xs) h = (h.0, All-of_map xs h.1)

module _ {ℓ κ} {A : Type ℓ} {B : Type κ} (f : A → B) where
  pub get_elem?-map :
      (l : List A) (i : ℕ) (x : A) → get_elem? l i ≡ some x → get_elem? (map f l) i ≡ some (f x)
  get_elem?-map [] i x h = cc
  get_elem?-map (y ∷ ys) zero x h = cc
  get_elem?-map (y ∷ ys) (suc i) x h = get_elem?-map ys i x h

All-unit {ℓ} : {A : Type ℓ} (l : List A) → All (λ _. Unit {0}) l
All-unit [] = tt
All-unit (x ∷ l) = (tt, All-unit l)

-- Each of `a` against each of `b`, read from `b`.
pub All-swap {ℓ κ} :
    {A : Type ℓ} {B : Type κ} (R : A → B → Type 0) (a : List A) (b : List B)
    → All (λ x. All (R x) b) a
    → All (λ y. All (λ x. R x y) a) b
All-swap R [] b h = All-unit b
All-swap R (x ∷ a) b h = All-imp₂ (λ y p q. (p, q)) b h.0 (All-swap R a b h.1)

-- One item replaced.
module _ {ℓ κ} {A : Type ℓ} (P : A → Type κ) where
  pub All-set : (l : List A) (i : ℕ) (x : A) → All P l → P x → All P (set l i x)
  All-set [] i x h p = tt
  All-set (y ∷ l) zero x h p = (p, h.1)
  All-set (y ∷ l) (suc i) x h p = (h.0, All-set l i x h.1 p)

module _ {ℓ κ μ} {A : Type ℓ} (P : A → Type κ) (R : A → A → Type μ) where
  pub AllPairs-set :
      (l : List A) (i : ℕ) (x x' : A)
      → get_elem? l i ≡ some x
      → ((y : A) → P y → R y x → R y x')
      → ((y : A) → P y → R x y → R x' y)
      → All P l
      → AllPairs R l
      → AllPairs R (set l i x')
  AllPairs-set [] i x x' e f g p r = tt
  AllPairs-set (y ∷ l) zero x x' e f g p r =
      (All-imp₂ g l p.1 (subst (λ z. All (R z) l) (some-injective y x e) r.0), r.1)
  AllPairs-set (y ∷ l) (suc i) x x' e f g p r = (
    All-set (R y) l i x' r.0 (f y p.0 (All-get_elem? (R y) l i x e r.0)),
    AllPairs-set l i x x' e f g p.1 r.1,
  )
