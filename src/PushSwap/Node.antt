-- ===== src/PushSwap/Node.antt =====
-- `t_stack` of include/push_swap.h, and what the program writes. A stack is the list of its nodes
-- from the top; a node belongs to one stack, so the links are the order of the list.
use model_lib.Common.{ℕ, List, [], ◌∷◌, Option, none, some, take, map}
use model_lib.Common.Int.{ℤ}

-- `index` and `pos` hold numbers from 0 up, the other fields any `int`.
pub record Node : Type 0 where
  pub index : ℕ
  pub number : ℤ
  pub pos : ℕ
  pub target_pos : ℤ
  pub cost_a : ℤ
  pub cost_b : ℤ

-- A text of bytes without its NUL.
abbrev pub Text : Type 0
Text = List ℕ

-- What each `write` to the standard output wrote, in order.
abbrev pub Writes : Type 0
Writes = List Text

-- `if (txt) write(1, txt, n);`
abbrev pub written : Option Text → ℕ → Writes
written none n = []
written (some txt) n = take n txt ∷ []

-- The two stacks of `main`, and the output so far.
pub record Machine : Type 0 where
  pub a : List Node
  pub b : List Node
  pub out : Writes

abbrev pub ra : Text
ra = b'r' ∷ b'a' ∷ b'\n' ∷ []

abbrev pub rb : Text
rb = b'r' ∷ b'b' ∷ b'\n' ∷ []

abbrev pub rra : Text
rra = b'r' ∷ b'r' ∷ b'a' ∷ b'\n' ∷ []

abbrev pub rrb : Text
rrb = b'r' ∷ b'r' ∷ b'b' ∷ b'\n' ∷ []

abbrev pub sa : Text
sa = b's' ∷ b'a' ∷ b'\n' ∷ []

abbrev pub pa : Text
pa = b'p' ∷ b'a' ∷ b'\n' ∷ []

abbrev pub pb : Text
pb = b'p' ∷ b'b' ∷ b'\n' ∷ []

abbrev pub ss : Text
ss = b's' ∷ b's' ∷ b'\n' ∷ []

abbrev pub rr : Text
rr = b'r' ∷ b'r' ∷ b'\n' ∷ []

abbrev pub rrr : Text
rrr = b'r' ∷ b'r' ∷ b'r' ∷ b'\n' ∷ []

-- What of a node the proofs follow: its rank and its number. The other fields are work space.
abbrev pub Key : Type 0
Key = ℕ × ℤ

abbrev pub key : Node → Key
key n = (n.index, n.number)

abbrev pub keys : List Node → List Key
keys = map key

-- The keys of both stacks.
abbrev pub view : Machine → List Key × List Key
view m = (keys m.a, keys m.b)
