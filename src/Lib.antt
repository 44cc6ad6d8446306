-- ===== src/Lib.antt =====
-- Verification of the C programs of this repository. Modelled: 42_push_swap, which sorts the
-- numbers of its arguments with two stacks and writes the instructions that do so; 42_philosophers,
-- the dining philosophers as threads; 42_get_next_line, which gives the lines of a file one by one;
-- 42_so_long, a game on a map; and functions of 42_libft, of which these programs carry copies.
--
-- Libft/Strings is ft_strlen.c and ft_substr.c, Libft/Split is ft_split.c, Libft/Compare is
-- ft_strncmp.c and ft_strnstr.c, Libft/Find is ft_strchr.c and ft_strrchr.c, Libft/Trim is
-- ft_strlcpy.c and ft_strtrim.c, and Libft/Numbers is ft_itoa.c and ft_atoi.c. A string is the list
-- of its bytes before the NUL, and no string is longer than an `unsigned int` or an `int` can
-- count. `malloc` is a parameter: a function that says which calls succeed. A write behind the
-- array that ft_split allocates is a result of its own, and so is the release of its words by
-- free_the_memory. The loops that do not recur on the string itself have one round of fuel more
-- than the string has bytes.
--
-- PushSwap follows the files of 42_push_swap/src. PushSwap/Node is `t_stack` and the output,
-- PushSwap/Operations is operations.c (push_to_x, swap_x, rotate_x, reverse_rotate_x,
-- multiple_operation), PushSwap/Position is pos_and_cost.c (current_pos, get_lowest, target, cost),
-- PushSwap/Adjust is effective_adjust.c (do_cost_effective, do_move, same_moves, adjust_stack) and
-- `my_abs` of utils.c, and PushSwap/Sort is main.c (assign_index, is_sorted, sort_three, sort_more
-- and the choice of `main`). The modules below each of these hold its proofs. PushSwap/Cyclic is
-- the invariant of the sort: the ranks of stack `a` ascend from some node on, round and round.
-- PushSwap/Operations/Replay is the specification: the rules of the game, over lists, and what it
-- means that the writes of a run are instructions that lead from the stacks before to those after.
--
-- A stack is the list of its nodes from the top. The program gives each node to one stack at a
-- time, so a pointer to a node is its place in the list. A function that is given a stack by
-- address returns it; `Machine` holds both stacks of `main` and what was written. An `int` that is
-- never below 0 is a native number, and the others are signed integers. No arithmetic of the sort
-- leaves the range of `int` for fewer than INT_MAX nodes, which is a hypothesis where the code
-- compares with INT_MAX. `none` is a read through NULL, a read of a value that was never set, or a
-- loop that is out of fuel; the theorems prove `some`. The fuel of assign_index is one more than
-- the number of nodes, and that of the last loop of sort_more is one more than the nodes of `b`,
-- since each round takes one of them.
--
-- Philosophers follows 42_philosophers/philo. Philosophers/Input is the check of the arguments in
-- initialization.c (input_valid, fill_values, ft_atol), Philosophers/Table is `t_philo`, `t_table`
-- and init_forks_and_philos, and Philosophers/Step has print_message and the step relation of a
-- run: any thread may run next, or time may pass. A step of a philosopher is a section of `routine`
-- of main.c or of food.c that no other thread can see inside of, since it is under deadmutex and
-- mealmutex or touches its own fields, or it is the lock or the unlock of one fork, which waits
-- while another holds it. The steps of the main thread are those of check.c. A fork is the thread
-- that holds it, if one does. The text that print_message writes is a line with the time of the
-- step; the program reads the clock before print_message waits for its locks. The modules below
-- Step hold the invariant of the forks, its consequences, and the progress and the end of a run.
--
-- GetNextLine is get_next_line.c and get_next_line_utils.c of 42_get_next_line. The results of the
-- calls of `read` are a list, which ends with the end of the file; the static variable is passed on
-- from call to call; `malloc` is a parameter. The fuel of the loop of ft_read is two more than the
-- calls of `read` that are left, since each turn but the last takes one or sees the end.
--
-- SoLong follows 42_so_long/src. SoLong/Map is map_check.c with flood_fill and fill_array of
-- error.c: a map is a list of lines, a grid is a list of rows, and `none` is a read or a write
-- outside of the array. The fuel of flood_fill bounds the depth of its calls; it is one more than
-- the cells, since each call that goes on takes an open cell. SoLong/Map/Cells has the places of a
-- grid and the ways between them, with which the proofs say what can be reached. SoLong/Moves is
-- movements.c, render_exit of utils.c and event_handler of game.c, with what `main` and `game` set
-- before the first key: the map and the characters of `t_vars`, changed key by key.
-- SoLong/Moves/Begin joins them to the check of the map.
--
-- Not modelled: the release of memory, but for that in ft_split; in 42_philosophers the start and
-- the join of the threads, their failures and the run of a single philosopher; in 42_so_long the
-- file and its name, failing allocations and the window; the variant of get_next_line for several
-- files; the rest of 42_libft; and the other programs of the repository.
pub mod Common
pub mod GetNextLine
pub mod SoLong
pub mod Libft
pub mod Philosophers
pub mod PushSwap
