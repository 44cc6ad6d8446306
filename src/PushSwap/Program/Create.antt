-- ===== src/PushSwap/Program/Create.antt =====
-- `create_stack` gives a node with no rank for each number.
use model_lib.Common.{
  ℕ, suc, ◌+◌, ◌≢◌, ◌≡◌, refl, ap, sym, subst, ◌∙◌, if◌then◌else◌, not, ◌||◌, Bool, true, false,
  List, [], ◌∷◌, ◌++◌, none, some, length, All, AllPairs, All-of_map, arith, suc,
}
use mathlib.Core.List.{append_assoc, append-nil}
use model_lib.Common.Int.{ℤ}
use model_lib.Libft.Strings.{Text}
use model_lib.PushSwap.Node.{Node}
use model_lib.PushSwap.Sort.Ranks.{numbers, IsFresh}
use model_lib.PushSwap.Parser.Decimal.{Number}
use model_lib.PushSwap.Parser.Number.{ft_atoi_check-Number}
use model_lib.PushSwap.Parser.Arguments.{Numbers}
use model_lib.PushSwap.Program.{create_loop, create_stack, new_node, node_size, memory_len}

pub memory_len-length : (l : List Text) → memory_len l ≡ length l
unfolding memory_len
memory_len-length [] = refl
memory_len-length (x ∷ l) = omega (arith, memory_len-length l)

pub Numbers-length : {ss : List Text} {vs : List ℤ} → Numbers ss vs → length ss ≡ length vs
Numbers-length Numbers.nil = refl
Numbers-length (Numbers.cons n p) = ap suc (Numbers-length p)

distinct_nodes :
    (l : List Node)
    → AllPairs (λ v w. v ≢ w) (numbers l)
    → AllPairs (λ (x y : Node). x.number ≢ y.number) l
distinct_nodes [] d = tt
distinct_nodes (x ∷ l) d =
    (All-of_map (λ w. x.number ≢ w) (λ (y : Node). y.number) l d.0, distinct_nodes l d.1)

module _ (malloc : ℕ → ℕ → Bool) (memory : ℕ → Node)
    (enough : (call size : ℕ) → malloc call size ≡ true) where
  create_step :
      (call : ℕ) (head : List Node) {text : Text} {v : ℤ} (texts : List Text)
      → Number text v
      → create_loop malloc memory call false head (text ∷ texts)
        ≡ create_loop malloc memory (call + 1) false (head ++ new_node (memory call) v ∷ []) texts
  unfolding create_loop
  create_step call head {text} {v} texts n = λ i.
      let read = (ft_atoi_check-Number text v).1 n i in
      let rest =
        create_loop malloc memory (call + 1) read.1 (head ++ new_node (memory call) read.0 ∷ [])
          texts in
      if not (enough call node_size i) || false then none else rest

  create_loop_lem :
      (call : ℕ) (head : List Node) {texts : List Text} {vs : List ℤ}
      → Numbers texts vs
      → (l : List Node) × (create_loop malloc memory call false head texts ≡ some (head ++ l))
        × (numbers l ≡ vs)
        × All (λ (y : Node). y.index ≡ 0) l
  unfolding create_loop
  create_loop_lem call head Numbers.nil = ([], ap some (sym (append-nil head)), refl, tt)
  create_loop_lem call head (Numbers.cons {v = v} {ss = ss} n p) =
      let node = new_node (memory call) v in
      let (l, e, k, h) = create_loop_lem (call + 1) (head ++ node ∷ []) p in
      (
        node ∷ l,
        create_step call head ss n ∙ e ∙ ap some (append_assoc head (node ∷ []) l),
        ap (◌∷◌ v) k,
        (refl, h),
      )

  -- If no allocation fails, texts of different numbers become a fresh stack of the numbers.
  pub create_stack-IsFresh :
      (first : ℕ) {texts : List Text} {vs : List ℤ}
      → Numbers texts vs
      → AllPairs (λ v w. v ≢ w) vs
      → (l : List Node) × (create_stack malloc memory first texts ≡ some l)
        × (numbers l ≡ vs)
        × IsFresh l
  unfolding create_stack
  create_stack-IsFresh first p d =
      let (l, e, k, h) = create_loop_lem first [] p in
      (
        l,
        e,
        k,
        record {
          unranked = h;
          distinct = distinct_nodes l (subst (AllPairs (λ v w. v ≢ w)) (sym k) d);
        },
      )
