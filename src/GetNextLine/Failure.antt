-- ===== src/GetNextLine/Failure.antt =====
-- A call of read that fails before the line is whole: NULL, and the static string is given up.
use model_lib.Common.{
  ℕ, zero, suc, ◌+◌, ◌<◌, ◌≢◌, ◌≡◌, refl, ap, sym, subst, ◌∙◌, ◌==◌, Bool, true, false, List, [],
  ◌∷◌, ◌++◌, Option, none, some, length, length-append, arith, All, All-append_left,
}
use mathlib.Core.List.{append_assoc}
use model_lib.Libft.Strings.{Text}
use model_lib.GetNextLine.{
  Chunk, bytes, failure, World, or_empty, strchr_loop, ft_strchr, Read, read_loop, get_next_line,
}
use model_lib.GetNextLine.Reading.{IsChunk, text_of, chunk_step}

abbrev pub HasNoNewline : Text → Type 0
HasNoNewline s = All (λ c. c ≢ b'\n') s

strchr_loop-none : (s : Text) (i : ℕ) → HasNoNewline s → strchr_loop s b'\n' i none ≡ (false, none)
unfolding strchr_loop
strchr_loop-none [] i h = refl
strchr_loop-none (c ∷ s) i h =
    let t : (c == b'\n') ≡ false = ground (arith, h.0) in
    rw (t, strchr_loop) (strchr_loop-none s (i + 1) h.1)

ft_strchr-none :
    (o : Option Text) → HasNoNewline (or_empty o) → ft_strchr o b'\n' none ≡ (false, none)
unfolding ft_strchr
ft_strchr-none none h = refl
ft_strchr-none (some s) h = strchr_loop-none s 0 h

module _ (malloc : ℕ → Bool) (enough : (call : ℕ) → malloc call ≡ true) where
  fail_step :
      (fuel k : ℕ) (left : List Chunk) (o : Option Text) (my : ℕ)
      → ft_strchr o b'\n' none ≡ (false, none)
      → read_loop malloc (suc fuel) (record { left = failure ∷ left; calls = k }) o none my true
        ≡ some (record {
          my_static = none;
          nline_pos = none;
          myline = my;
          world = record { left = left; calls = k + 1 };
        })
  unfolding read_loop
  fail_step fuel k left o my e =
      let a : (ft_strchr o b'\n' none).0 ≡ false = ap (λ r. r.0) e in
      let b : (ft_strchr o b'\n' none).1 ≡ none = ap (λ r. r.1) e in
      rw (a, enough k, read_loop)
        (λ i. some (record {
          my_static = none;
          nline_pos = b i;
          myline = my;
          world = record { left = left; calls = k + 1 };
        }))

  read_loop-fails :
      (before after : List Chunk) (fuel k : ℕ) (o : Option Text) (my : ℕ)
      → All IsChunk before
      → HasNoNewline (or_empty o ++ text_of before)
      → length before < fuel
      → (r : Read) × (read_loop malloc fuel
            (record { left = before ++ failure ∷ after; calls = k })
            o
            none
            my
            true
          ≡ some r)
        × (r.my_static ≡ none)
        × (r.world.left ≡ after)
  read_loop-fails before after zero k o my chunks h room = absurd (omega (arith, room))
  read_loop-fails [] after (suc fuel) k o my chunks h room =
      let e = ft_strchr-none o (All-append_left (λ c. c ≢ b'\n') (or_empty o) [] h) in
      (
        record {
          my_static = none;
          nline_pos = none;
          myline = my;
          world = record { left = after; calls = k + 1 };
        },
        fail_step fuel k after o my e,
        refl,
        refl,
      )
  read_loop-fails (failure ∷ before) after (suc fuel) k o my chunks h room = absurd chunks.0
  read_loop-fails (bytes b ∷ before) after (suc fuel) k o my chunks h room =
      let e =
        ft_strchr-none o (All-append_left (λ c. c ≢ b'\n') (or_empty o) (b ++ text_of before) h) in
      let joined = or_empty o ++ b in
      let (r, e', gone, rest) =
        read_loop-fails before after fuel (k + 1 + 1) (some joined) (length joined) chunks.1
          (subst HasNoNewline (sym (append_assoc (or_empty o) b (text_of before))) h)
          (omega (arith, room)) in
      (
        r,
        chunk_step malloc enough fuel k b (before ++ failure ∷ after) o my e chunks.0 ∙ e',
        gone,
        rest,
      )

  -- If malloc succeeds and a call of read fails before there is a newline in what is kept and read,
  -- get_next_line gives NULL, keeps nothing, and the next call begins behind the failure.
  pub get_next_line-fails :
      (before after : List Chunk) (k : ℕ) (o : Option Text)
      → All IsChunk before
      → HasNoNewline (or_empty o ++ text_of before)
      → (w : World) × (get_next_line malloc false
            (record { left = before ++ failure ∷ after; calls = k })
            o
          ≡ some (none, none, w))
        × (w.left ≡ after)
  unfolding get_next_line
  get_next_line-fails before after k o chunks h =
      let room : length before < length (before ++ failure ∷ after) + 2 =
        omega (arith, length-append before (failure ∷ after)) in
      let (r, e, gone, rest) =
        read_loop-fails before after (length (before ++ failure ∷ after) + 2) k o 0 chunks h room in
      (r.world, rw (e, gone, get_next_line), rest)
