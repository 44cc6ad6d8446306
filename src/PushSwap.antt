-- ===== src/PushSwap.antt =====
-- 42_push_swap: the stacks, the instructions, the cost of moves, the sort, the arguments and main.
pub mod Node
mod Tests
pub mod Operations
pub mod Position
pub mod Adjust
pub mod Sort
pub mod Parser
pub mod Program
pub mod Cyclic
