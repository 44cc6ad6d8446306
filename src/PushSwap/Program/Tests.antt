-- ===== src/PushSwap/Program/Tests.antt =====
-- Concrete runs of 42_push_swap.
use model_lib.Common.{ℕ, ◌≡◌, refl, Bool, true, false, List, [], ◌∷◌, arith, some}
use model_lib.Common.Int.{ℤ}
use model_lib.Libft.Strings.{Text, ft_substr, ft_strlen}
use model_lib.Libft.Split.{ft_split}
use model_lib.PushSwap.Node.{Node, sa}
use model_lib.PushSwap.Parser.{error_free, ft_atoi_check}
use model_lib.PushSwap.Sort.{sort_stack}
use model_lib.PushSwap.Program.{
  create_stack, parse_texts, ft_parse, memory_len, main, Ending, error_message,
}
use model_lib.PushSwap.Parser.Decimal.{Number}
use model_lib.PushSwap.Parser.Arguments.{Numbers}
use model_lib.PushSwap.Sort.Ranks.{numbers, IsFresh}
use model_lib.PushSwap.Program.Create.{create_stack-IsFresh}
use model_lib.PushSwap.Program.Outcome.{main-Behaves, Behaves}

-- An allocator that never fails, and memory that is not zero.
abbrev always : ℕ → ℕ → Bool
always call size = true

abbrev dirty : ℕ → Node
dirty call = record {
  index = 9;
  number = ℤ.pos 9;
  pos = 9;
  target_pos = ℤ.pos 9;
  cost_a = ℤ.pos 9;
  cost_b = ℤ.pos 9;
}

-- "2 -1"
abbrev two_words : Text
two_words = b'2' ∷ b' ' ∷ b'-' ∷ b'1' ∷ []

split_run : main always dirty (two_words ∷ []) ≡ Ending.ends 0 [] (sa ∷ [])
unfolding main ft_parse parse_texts create_stack memory_len error_free ft_atoi_check ft_split
    ft_substr ft_strlen sort_stack
split_run = refl

-- 3 1 3
refused_run :
    main always dirty ((b'3' ∷ []) ∷ (b'1' ∷ []) ∷ (b'3' ∷ []) ∷ [])
    ≡ Ending.ends 1 (error_message ∷ []) []
unfolding main ft_parse parse_texts create_stack memory_len error_free ft_atoi_check sort_stack
refused_run = refl

-- If the first allocation fails, a single argument leads to a read through NULL.
failed_run : main (λ call size. false) dirty (two_words ∷ []) ≡ Ending.stuck
unfolding main ft_parse ft_split
failed_run = refl

main-Behaves_example : Behaves (two_words ∷ []) (main always dirty (two_words ∷ []))
main-Behaves_example =
    main-Behaves always dirty (two_words ∷ []) (λ call size. refl) (omega arith) (omega arith, tt)

create_stack-IsFresh_example :
    (l : List Node) × (create_stack always dirty 0 ((b'3' ∷ []) ∷ (b'1' ∷ []) ∷ []) ≡ some l)
    × (numbers l ≡ ℤ.pos 3 ∷ ℤ.pos 1 ∷ [])
    × IsFresh l
create_stack-IsFresh_example =
    create_stack-IsFresh always dirty (λ call size. refl) 0
      (Numbers.cons (Number.plain (b'3' ∷ []) (omega arith) (ground arith) (omega arith)) (
        Numbers.cons (Number.plain (b'1' ∷ []) (omega arith) (ground arith) (omega arith))
          Numbers.nil))
      (ground arith)
