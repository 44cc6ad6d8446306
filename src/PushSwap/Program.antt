-- ===== src/PushSwap/Program.antt =====
-- 42_push_swap/src: create_stack of stack.c, memory_len of utils.c, ft_parse of parser.c and main of
-- main.c. `malloc` is a parameter: whether the call of that number, for that many bytes, succeeds;
-- `memory` is what the memory of that call holds, where the program reads it as a node.
pub mod Create
pub mod Outcome
mod Tests
use model_lib.Common.{
  ℕ, zero, suc, ◌+◌, ◌==◌, ◌||◌, not, if◌then◌else◌, Bool, true, false, List, [], ◌∷◌, ◌++◌, Option,
  none, some, length,
}
use model_lib.Common.Int.{ℤ}
use model_lib.Libft.Strings.{Text, char_at}
use model_lib.Libft.Split.{Filled, ft_split}
use model_lib.PushSwap.Node.{Node, Machine, Writes}
use model_lib.PushSwap.Parser.{ft_atoi_check, error_free}
use model_lib.PushSwap.Sort.{sort_stack}

-- `sizeof(t_stack)`
abbrev pub node_size : ℕ
node_size = 32

-- A node of fresh memory, behind the three assignments of `create_stack`.
abbrev pub new_node : Node → ℤ → Node
new_node fresh number = record {
  index = 0;
  number = number;
  pos = fresh.pos;
  target_pos = fresh.target_pos;
  cost_a = fresh.cost_a;
  cost_b = fresh.cost_b;
}

-- The loop, from the allocation `call` on: `none` is the return of 0.
pub create_loop :
    (malloc : ℕ → ℕ → Bool) (memory : ℕ → Node) (call : ℕ) (error : Bool)
    → (head : List Node) → List Text
    → Option (List Node)
unfolding ft_atoi_check
create_loop malloc memory call error head [] = some head
create_loop malloc memory call error head (text ∷ texts) =
    let read = ft_atoi_check text error in
    let rest =
      create_loop malloc memory (call + 1) read.1 (head ++ new_node (memory call) read.0 ∷ [])
        texts in
    if not (malloc call node_size) || error then none else rest

-- The stack starts out empty in `main`. `first` is the number of the first allocation.
unfoldable pub create_stack :
    (malloc : ℕ → ℕ → Bool) (memory : ℕ → Node) (first : ℕ) → List Text → Option (List Node)
unfolding create_loop
create_stack malloc memory first texts = create_loop malloc memory first false [] texts

-- `memory_len` of an array of texts with a NULL at its end.
unfoldable pub memory_len : List Text → ℕ
memory_len [] = 0
memory_len (text ∷ memory) = memory_len memory + 1

-- What `ft_parse` does: it exits with 1, where `said` is whether it wrote the message, or it
-- returns the number of texts with the stack, or it is stuck: on a fault, or out of fuel.
pub data Parsed : Type 0 where
  stuck : Parsed
  exits : (said : Bool) → Parsed
  parsed : (argc : ℕ) → List Node → Parsed

-- The two checks that both branches of `ft_parse` make.
unfoldable pub parse_texts :
    (malloc : ℕ → ℕ → Bool) (memory : ℕ → Node) (first : ℕ) → List Text → (argc : ℕ) → Parsed
unfolding error_free create_stack
parse_texts malloc memory first argv argc =
    if not (error_free argv)
    then Parsed.exits true
    else elim (create_stack malloc memory first argv) [
      | none ↦ Parsed.exits false
      | some stack_a ↦ Parsed.parsed argc stack_a
    ]

-- `args` are the arguments behind the name of the program. If `ft_split` returns NULL, the error
-- path hands NULL to `free_the_memory`, which reads through it.
unfoldable pub ft_parse : (malloc : ℕ → ℕ → Bool) (memory : ℕ → Node) → (args : List Text) → Parsed
unfolding parse_texts ft_split memory_len
ft_parse malloc memory (arg ∷ []) =
    if char_at arg 0 == 0 || char_at arg 0 == b' '
    then Parsed.exits true
    else elim (ft_split malloc arg b' ') [
      | Filled.out_of_fuel ↦ Parsed.stuck
      | Filled.overflows ↦ Parsed.stuck
      | Filled.no_array ↦ Parsed.stuck
      | Filled.freed released ↦ Parsed.stuck
      | Filled.filled argv ↦ parse_texts malloc memory (memory_len argv + 1) argv (memory_len argv)
    ]
ft_parse malloc memory args = parse_texts malloc memory 0 args (length args)

-- "Error\n"
abbrev pub error_message : Text
error_message = b'E' ∷ b'r' ∷ b'r' ∷ b'o' ∷ b'r' ∷ b'\n' ∷ []

-- The end of a run: its exit status, what it wrote to the standard error and what to the standard
-- output.
pub data Ending : Type 0 where
  stuck : Ending
  ends : (status : ℕ) → (errors out : Writes) → Ending

-- The two stacks are released at the end, which is not modelled.
unfoldable pub main : (malloc : ℕ → ℕ → Bool) (memory : ℕ → Node) → (args : List Text) → Ending
unfolding ft_parse sort_stack
main malloc memory [] = Ending.ends 0 [] []
main malloc memory (arg ∷ args) = elim (ft_parse malloc memory (arg ∷ args)) [
  | Parsed.stuck ↦ Ending.stuck
  | Parsed.exits said ↦ Ending.ends 1 (if said then error_message ∷ [] else []) []
  | Parsed.parsed argc stack_a ↦ elim (sort_stack stack_a argc) [
    | none ↦ Ending.stuck
    | some m ↦ Ending.ends 0 [] m.out
  ]
]
