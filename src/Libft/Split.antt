-- ===== src/Libft/Split.antt =====
-- 42_libft/ft_split.c. `malloc` is a parameter: whether the call of that number, for that many
-- bytes, succeeds; call 0 is that of the array, and call `i + 1` that of its word `i`.
pub mod Words
pub mod Loop
use model_lib.Common.{
  ℕ, zero, suc, ◌+◌, ◌*◌, ◌==◌, ◌&&◌, not, if◌then◌else◌, Bool, true, false, List, [], ◌∷◌, ◌++◌,
  Option, none, some, drop, length, map, leb,
}
use model_lib.Libft.Strings.{Text, ft_substr}

word_counter_loop : (delimiter : ℕ) → Text → (in_word : Bool) → (amount_of_words : ℕ) → ℕ
word_counter_loop delimiter [] in_word amount_of_words = amount_of_words
word_counter_loop delimiter (c ∷ string) in_word amount_of_words =
    word_counter_loop delimiter string (not (c == delimiter))
      (if not (c == delimiter) && not in_word then amount_of_words + 1 else amount_of_words)

pub word_counter : Text → (delimiter : ℕ) → ℕ
unfolding word_counter_loop
word_counter string delimiter = word_counter_loop delimiter string false 0

word_length_loop : (delimiter : ℕ) → Text → (length : ℕ) → ℕ
word_length_loop delimiter [] length = length
word_length_loop delimiter (c ∷ string) length =
    let rest = word_length_loop delimiter string (length + 1) in
    if c == delimiter then length else rest

pub word_length : Text → (delimiter : ℕ) → ℕ
unfolding word_length_loop
word_length string delimiter = word_length_loop delimiter string 0

-- The filling of the array: out of fuel, a write behind its end, NULL without an array, NULL after
-- the release of the array and of the words in it, or the words.
pub data Filled : Type 0 where
  out_of_fuel : Filled
  overflows : Filled
  no_array : Filled
  freed : (released : List Text) → Filled
  filled : List Text → Filled

-- The texts that are released, up to the NULL; `none` is a read behind what was written.
pub free_the_memory : List (Option Text) → Option (List Text)
free_the_memory [] = none
free_the_memory (none ∷ memory) = some []
free_the_memory (some text ∷ memory) = elim (free_the_memory memory) [
  | none ↦ none
  | some released ↦ some (text ∷ released)
]

-- Whether a pointer, of 8 bytes, can be written at the place `mem_i` of so many bytes.
pub has_place : (size mem_i : ℕ) → Bool
has_place size mem_i = leb (8 * (mem_i + 1)) size

-- The main loop on fuel, from the word `mem_i` on, on an array of `size` bytes; `memory` holds the
-- words before it.
pub split_loop :
    (malloc : ℕ → ℕ → Bool) (size fuel : ℕ) → Text → (delimiter mem_i : ℕ) → List Text → Filled
split_loop malloc size zero string delimiter mem_i memory = Filled.out_of_fuel
split_loop malloc size (suc fuel) [] delimiter mem_i memory =
    if has_place size mem_i then Filled.filled memory else Filled.overflows
split_loop malloc size (suc fuel) (c ∷ string) delimiter mem_i memory = elim (c == delimiter) [
  | true ↦ split_loop malloc size fuel string delimiter mem_i memory
  | false ↦
      let len = word_length (c ∷ string) delimiter in
      elim (has_place size mem_i) [
        | false ↦ Filled.overflows
        | true ↦ elim (ft_substr (malloc (mem_i + 1)) (c ∷ string) 0 len) [
          | none ↦ elim (free_the_memory (map some memory ++ none ∷ [])) [
            | none ↦ Filled.overflows
            | some released ↦ Filled.freed released
          ]
          | some word ↦
              split_loop malloc size fuel (drop len (c ∷ string)) delimiter (mem_i + 1)
                (memory ++ word ∷ [])
        ]
      ]
]

-- `sizeof(char *)` is 8.
unfoldable pub ft_split : (malloc : ℕ → ℕ → Bool) → Text → (delimiter : ℕ) → Filled
unfolding split_loop word_counter word_length ft_substr free_the_memory has_place
ft_split malloc string delimiter =
    let size = 8 * (word_counter string delimiter + 1) in
    if malloc 0 size
    then split_loop malloc size (length string + 1) string delimiter 0 []
    else Filled.no_array
