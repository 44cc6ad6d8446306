-- ===== src/Philosophers/Input.antt =====
-- 42_philosophers/philo/initialization.c: ft_atol, fill_values and input_valid. A text is given by
-- its bytes before the NUL.
pub mod Valid
use model_lib.Common.{
  ℕ, zero, suc, ◌+◌, ◌-◌, ◌*◌, ltb, leb, ◌==◌, ◌&&◌, ◌||◌, not, if◌then◌else◌, Bool, true, false,
  List, [], ◌∷◌, Option, none, some,
}
use model_lib.Libft.Strings.{Text}

abbrev pub int_max : ℕ
int_max = 2147483647

-- The loop of `ft_atol`: the number and `*error`. The number counts only while no error is set, and
-- is then far below the bounds of a `long`.
pub atol_loop : Text → (number : ℕ) → (error : Bool) → ℕ × Bool
atol_loop [] number error = (number, error)
atol_loop (c ∷ string) number error =
    let next = number * 10 + (c - b'0') in
    let rest = atol_loop string next (not (leb b'0' c && leb c b'9') || ltb int_max next) in
    if error then (number, error) else rest

-- The part of `ft_atol` behind the sign.
pub atol_digits : Text → (error : Bool) → ℕ × Bool
unfolding atol_loop
atol_digits string error = let r = atol_loop string 0 error in (if r.1 then 0 else r.0, r.1)

unfoldable pub ft_atol : Text → (error : Bool) → ℕ × Bool
unfolding atol_digits
ft_atol [] error = atol_digits [] error
ft_atol (c ∷ string) error = atol_digits (if c == b'+' then string else c ∷ string) error

-- The fields of `t_table` that the arguments set; `rounds` is none for -1.
pub record Config : Type 0 where
  pub nmbr_of_philos : ℕ
  pub time_to_die : ℕ
  pub time_to_eat : ℕ
  pub time_to_sleep : ℕ
  pub rounds : Option ℕ

-- The rounds, if the argument is there.
pub fill_rounds : Option Text → (error : Bool) → Option ℕ × Bool
unfolding ft_atol
fill_rounds none error = (none, error)
fill_rounds (some string) error = let (n, error') = ft_atol string error in (some n, error')

pub fill_values : (n die eat sleep : Text) → (rounds : Option Text) → (error : Bool) → Config × Bool
unfolding fill_rounds ft_atol
fill_values n die eat sleep rounds error =
    let r = fill_rounds rounds error in
    let a = ft_atol n r.1 in
    let b = ft_atol die a.1 in
    let c = ft_atol eat b.1 in
    let d = ft_atol sleep c.1 in
    (
      record {
        nmbr_of_philos = a.0;
        time_to_die = b.0;
        time_to_eat = c.0;
        time_to_sleep = d.0;
        rounds = r.0;
      },
      d.1,
    )

-- The result of `input_valid`: which message it writes, or the table.
pub data Checked : Type 0 where
  wrong_amount too_many wrong_format : Checked
  accepted : Config → Checked

-- The tests of `input_valid` behind the count of the arguments.
pub check_values : Config × Bool → Checked
check_values (t, error) =
    if ltb 200 t.nmbr_of_philos
    then Checked.too_many
    else if error
        || t.nmbr_of_philos == 0
        || t.time_to_die == 0
        || t.time_to_eat == 0
        || t.time_to_sleep == 0
    then Checked.wrong_format
    else Checked.accepted t

-- `args` are the arguments behind the name of the program.
unfoldable pub input_valid : (args : List Text) → Checked
unfolding check_values fill_values
input_valid (n ∷ die ∷ eat ∷ sleep ∷ []) = check_values (fill_values n die eat sleep none false)
input_valid (n ∷ die ∷ eat ∷ sleep ∷ rounds ∷ []) =
    check_values (fill_values n die eat sleep (some rounds) false)
input_valid _ = Checked.wrong_amount
