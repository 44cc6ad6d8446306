-- ===== src/GetNextLine.antt =====
-- 42_get_next_line: get_next_line.c and get_next_line_utils.c. A string is the list of its bytes
-- before the NUL, and NULL is `none`. `malloc` is a parameter: whether the call of that number
-- succeeds; what `read` gives is a list, call by call.
pub mod Split
pub mod Reading
pub mod Lines
pub mod Whole
pub mod Failure
mod Tests
use model_lib.Common.{
  ℕ, zero, suc, ◌+◌, ◌-◌, ◌==◌, ◌||◌, not, if◌then◌else◌, Bool, true, false, List, [], ◌∷◌, ◌++◌,
  Option, none, some, drop, length, ltb, ◌%◌,
}
use model_lib.Libft.Strings.{Text, char_at}

-- The result of a call of `read`: bytes, or -1.
pub data Chunk : Type 0 where
  bytes : Text → Chunk
  failure : Chunk

-- What is outside: the results of the calls of `read` to come, where the end of the list is the end
-- of the file, and a number for the next call of `malloc`.
pub record World : Type 0 where
  pub left : List Chunk
  pub calls : ℕ

abbrev pub called : World → World
called w = record w { calls = w.calls + 1 }

-- The bytes that a buffer holds as a string.
abbrev pub before_nul : Text → Text
before_nul [] = []
before_nul (c ∷ s) = if c == 0 then [] else c ∷ before_nul s

pub strlen_loop : Text → (len : ℕ) → ℕ
strlen_loop [] len = len
strlen_loop (c ∷ string) len = strlen_loop string (len + 1)

pub ft_strlen : Option Text → ℕ
unfolding strlen_loop
ft_strlen none = 0
ft_strlen (some string) = strlen_loop string 0

-- Whether `ft_strchr` finds the character, and `*nline_pos`, where `none` is -1.
pub strchr_loop : Text → (ch i : ℕ) → (nline_pos : Option ℕ) → Bool × Option ℕ
strchr_loop [] ch i nline_pos = (ch == 0, nline_pos)
strchr_loop (c ∷ string) ch i nline_pos =
    let rest = strchr_loop string ch (i + 1) nline_pos in if c == ch then (true, some i) else rest

pub ft_strchr : Option Text → (c : ℕ) → (nline_pos : Option ℕ) → Bool × Option ℕ
unfolding strchr_loop
ft_strchr none c nline_pos = (false, nline_pos)
ft_strchr (some string) c nline_pos = strchr_loop string (c % 256) 0 nline_pos

-- A copying loop over `count` bytes from `i` on.
pub copy_loop : (count i : ℕ) → Text → Text
copy_loop zero i from = []
copy_loop (suc count) i from = char_at from i ∷ copy_loop count (i + 1) from

abbrev pub or_empty : Option Text → Text
or_empty none = []
or_empty (some s) = s

-- The joined string, and `*myline`.
pub create_copy_return :
    (malloc : ℕ → Bool) → World → (my_static : Option Text) → (temp : Text) → Option Text × ℕ
unfolding ft_strlen copy_loop
create_copy_return malloc w my_static temp =
    let len_string = ft_strlen my_static in
    let len_temp = ft_strlen (some temp) in
    (
      if malloc w.calls
          then some (copy_loop len_string 0 (or_empty my_static) ++ copy_loop len_temp 0 temp)
          else none,
      len_string + len_temp,
    )

-- The bytes behind the line are kept; the second loop stops at the NUL.
pub ft_static_handler :
    (malloc : ℕ → Bool)
    → World
    → Text
    → (string : Option Text) → (nline_pos : Option ℕ) → Option Text
ft_static_handler malloc w static_str none nline_pos = none
ft_static_handler malloc w static_str (some string) none = none
ft_static_handler malloc w static_str (some string) (some n) =
    if char_at string n == b'\n'
    then if malloc w.calls then some (drop (n + 1) static_str) else none
    else none

pub ft_copy_until_n :
    (malloc : ℕ → Bool) → World → Text → (nline_pos : Option ℕ) → (myline : ℕ) → Option Text
unfolding copy_loop
ft_copy_until_n malloc w my_static none myline =
    if char_at my_static 0 == 0
    then none
    else if malloc w.calls
    then some (copy_loop myline 0 my_static)
    else none
ft_copy_until_n malloc w my_static (some n) myline =
    if malloc w.calls then some (copy_loop (n + 1) 0 my_static) else none

-- The variables of `get_next_line` behind `ft_read`.
pub record Read : Type 0 where
  pub my_static : Option Text
  pub nline_pos : Option ℕ
  pub myline : ℕ
  pub world : World

-- The loop of `ft_read` on fuel; `more` is `read_val > 0`. `none` is out of fuel, or the use of the
-- NULL that `malloc` gave for the buffer.
pub read_loop :
    (malloc : ℕ → Bool) (fuel : ℕ)
    → World
    → (my_static : Option Text) → (nline_pos : Option ℕ) → (myline : ℕ) → (more : Bool)
    → Option Read
unfolding ft_strchr create_copy_return
read_loop malloc zero w my_static nline_pos myline more = none
read_loop malloc (suc fuel) w my_static nline_pos myline more =
    let (found, nline_pos') = ft_strchr my_static b'\n' nline_pos in
    elim (found || not more) [
      | true ↦
          some
            (record { my_static = my_static; nline_pos = nline_pos'; myline = myline; world = w })
      | false ↦ elim (malloc w.calls) [
        | false ↦ none
        | true ↦ elim w.left [
          | [] ↦
              let joined = create_copy_return malloc (called w) my_static [] in
              read_loop malloc fuel (called (called w)) joined.0 nline_pos' joined.1 false
          | chunk ∷ left ↦ elim chunk [
            | failure ↦ some (record {
              my_static = none;
              nline_pos = nline_pos';
              myline = myline;
              world = record { left = left; calls = w.calls + 1 };
            })
            | bytes temp ↦
                let w' : World = record { left = left; calls = w.calls + 1 } in
                let joined = create_copy_return malloc w' my_static (before_nul temp) in
                read_loop malloc fuel (called w') joined.0 nline_pos' joined.1 (ltb 0 (length temp))
          ]
        ]
      ]
    ]

-- The line, the static variable and the world after a call; `refuses` is whether `read` of no bytes
-- fails, `fd` is negative or the buffer has no room.
unfoldable pub get_next_line :
    (malloc : ℕ → Bool) (refuses : Bool)
    → World
    → (my_static : Option Text) → Option (Option Text × Option Text × World)
unfolding read_loop ft_copy_until_n ft_static_handler
get_next_line malloc refuses w my_static =
    if refuses
    then some (none, none, w)
    else elim (read_loop malloc (length w.left + 2) w my_static none 0 true) [
      | none ↦ none
      | some r ↦ elim r.my_static [
        | none ↦ some (none, none, r.world)
        | some s ↦
            let line = ft_copy_until_n malloc r.world s r.nline_pos r.myline in
            let w' = called r.world in
            some (line, ft_static_handler malloc w' s line r.nline_pos, called w')
      ]
    ]
