-- ===== src/GetNextLine/Tests.antt =====
-- Concrete runs of get_next_line: a file in pieces, a read that fails, malloc that fails.
use model_lib.Common.{ℕ, ◌≢◌, ◌≡◌, ◌==◌, refl, true, false, [], ◌∷◌, none, some, not, All, arith}
use model_lib.GetNextLine.{bytes, failure, World, get_next_line}
use model_lib.GetNextLine.Reading.{IsChunk}
use model_lib.GetNextLine.Whole.{Calls, get_next_line-split_lines}
use model_lib.GetNextLine.Failure.{get_next_line-fails}

-- "a", "b\nc\n" and "d".
abbrev pieces : World
pieces = record {
  left = bytes (97 ∷ []) ∷ bytes (98 ∷ 10 ∷ 99 ∷ 10 ∷ []) ∷ bytes (100 ∷ []) ∷ [];
  calls = 0;
}

pieces-IsChunk : All IsChunk pieces.left
pieces-IsChunk =
    let ok : (c : ℕ) → (c == 0) ≡ false → c ≢ 0 = λ c h. ground (arith, h) in
    (
      (omega arith, (ok 97 refl, tt)),
      (
        (omega arith, (ok 98 refl, (ok 10 refl, (ok 99 refl, (ok 10 refl, tt))))),
        ((omega arith, (ok 100 refl, tt)), tt),
      ),
    )

get_next_line-split_lines_example :
    Calls (λ call. true) pieces none ((97 ∷ 98 ∷ 10 ∷ []) ∷ (99 ∷ 10 ∷ []) ∷ (100 ∷ []) ∷ [])
get_next_line-split_lines_example =
    get_next_line-split_lines (λ call. true) (λ call. refl) pieces pieces-IsChunk

-- "b" is kept, "a" is read, then a read fails.
get_next_line-fails_example :
    (w : World) × (get_next_line
        (λ call. true)
        false
        (record { left = bytes (97 ∷ []) ∷ failure ∷ bytes (100 ∷ []) ∷ []; calls = 0 })
        (some (98 ∷ []))
      ≡ some (none, none, w))
    × (w.left ≡ bytes (100 ∷ []) ∷ [])
get_next_line-fails_example =
    get_next_line-fails (λ call. true) (λ call. refl) (bytes (97 ∷ []) ∷ []) (bytes (100 ∷ []) ∷ [])
      0 (some (98 ∷ [])) ((omega arith, (ground arith, tt)), tt) (ground arith, (ground arith, tt))

-- If malloc fails for the joined string alone, what was kept and read is lost, and the loop goes on.
joined_is_lost :
    get_next_line
      (λ call. not (call == 1))
      false
      (record { left = bytes (97 ∷ []) ∷ bytes (100 ∷ []) ∷ []; calls = 0 })
      (some (98 ∷ []))
    ≡ some (some (100 ∷ []), none, record { left = []; calls = 8 })
unfolding get_next_line
joined_is_lost = refl
