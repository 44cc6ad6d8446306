-- ===== src/GetNextLine/Reading.antt =====
-- The loop of `ft_read` reads up to a newline or to the end of the file, whatever the chunks are.
use model_lib.Common.{
  ℕ, zero, suc, ◌+◌, ◌≤◌, ◌<◌, ◌≢◌, ◌≡◌, refl, ap, sym, subst, ◌∙◌, ltb, Bool, true, false, List,
  [], ◌∷◌, ◌++◌, Option, none, some, length, length-append, arith, All, All-append, ◌⊎◌, inl, inr,
}
use mathlib.Core.List.{append-nil, append_assoc}
use model_lib.Libft.Strings.{Text}
use model_lib.GetNextLine.{
  Chunk, bytes, failure, World, called, ft_strlen, ft_strchr, strchr_loop, or_empty,
  create_copy_return, Read, read_loop,
}
use model_lib.GetNextLine.Split.{
  IsText, before_nul-IsText, ft_strlen-length, copy_loop-take, take_all, EndsLine, IsLine,
  strchr_loop_lem,
}

-- Calls of `read` that do not fail and give bytes that are no NUL.
abbrev pub IsChunk : Chunk → Type 0
IsChunk failure = ⊥
IsChunk (bytes b) = (0 < length b) × IsText b

abbrev pub chunk_text : Chunk → Text
chunk_text failure = []
chunk_text (bytes b) = b

abbrev pub text_of : List Chunk → Text
text_of [] = []
text_of (c ∷ left) = chunk_text c ++ text_of left

-- The variables behind the loop: the string and what is still to be read make up the text, and
-- either the string has a newline, whose place is known, or all is read.
pub record Reads (pending : Text) (r : Read) (s : Text) : Type 0 where
  pub held : r.my_static ≡ some s
  pub whole : s ++ text_of r.world.left ≡ pending
  pub reads : All IsChunk r.world.left
  pub clean : IsText s
  pub outcome :
      ((j : ℕ) × (r.nline_pos ≡ some j) × EndsLine s j)
      ⊎ ((r.nline_pos ≡ none) × IsLine s × (r.world.left ≡ []) × (r.myline ≡ length s))

ft_strchr_lem :
    (o : Option Text)
    → ((s : Text) × (j : ℕ) × (o ≡ some s)
        × (ft_strchr o b'\n' none ≡ (true, some j))
        × EndsLine s j)
      ⊎ ((ft_strchr o b'\n' none ≡ (false, none)) × IsLine (or_empty o))
unfolding ft_strchr
ft_strchr_lem none = inr (refl, record { line = refl; behind = refl })
ft_strchr_lem (some s) = elim (strchr_loop_lem s 0) [
  | inl (j, e, p) ↦
      let at : 0 + j ≡ j = omega arith in inl (s, j, refl, e ∙ (λ k. (true, some (at k))), p)
  | inr (e, p) ↦ inr (e, p)
]

ft_strchr_again :
    (o : Option Text)
    → ft_strchr o b'\n' none ≡ (false, none)
    → ft_strchr (some (or_empty o ++ [])) b'\n' none ≡ (false, none)
unfolding ft_strchr strchr_loop
ft_strchr_again none e = refl
ft_strchr_again (some s) e = rw (append-nil s) e

module _ (malloc : ℕ → Bool) (enough : (call : ℕ) → malloc call ≡ true) where
  create_copy_return_lem :
      (w : World) (o : Option Text) (temp : Text)
      → create_copy_return malloc w o temp
        ≡ (some (or_empty o ++ temp), length (or_empty o ++ temp))
  unfolding create_copy_return ft_strlen
  create_copy_return_lem w o temp =
      let a : ft_strlen o ≡ length (or_empty o) = strlen_lem o in
      let b = ft_strlen-length temp in
      let c =
        copy_loop-take (length (or_empty o)) (or_empty o) (omega arith) ∙ take_all (or_empty o) in
      let d = copy_loop-take (length temp) temp (omega arith) ∙ take_all temp in
      rw (a, b, enough w.calls, c, d, length-append (or_empty o) temp)
    where
      strlen_lem : (o : Option Text) → ft_strlen o ≡ length (or_empty o)
      strlen_lem none = refl
      strlen_lem (some s) = ft_strlen-length s

  found_step :
      (fuel : ℕ) (w : World) (o : Option Text) (my j : ℕ) (more : Bool)
      → ft_strchr o b'\n' none ≡ (true, some j)
      → read_loop malloc (suc fuel) w o none my more
        ≡ some (record { my_static = o; nline_pos = some j; myline = my; world = w })
  unfolding read_loop
  found_step fuel w o my j more e =
      let a : (ft_strchr o b'\n' none).0 ≡ true = ap (λ r. r.0) e in
      let b : (ft_strchr o b'\n' none).1 ≡ some j = ap (λ r. r.1) e in rw (a, b, read_loop)

  last_step :
      (fuel : ℕ) (w : World) (o : Option Text) (my : ℕ)
      → ft_strchr o b'\n' none ≡ (false, none)
      → read_loop malloc (suc fuel) w o none my false
        ≡ some (record { my_static = o; nline_pos = none; myline = my; world = w })
  unfolding read_loop
  last_step fuel w o my e =
      let a : (ft_strchr o b'\n' none).0 ≡ false = ap (λ r. r.0) e in
      let b : (ft_strchr o b'\n' none).1 ≡ none = ap (λ r. r.1) e in rw (a, b, read_loop)

  end_step :
      (fuel : ℕ) (k : ℕ) (o : Option Text) (my : ℕ)
      → ft_strchr o b'\n' none ≡ (false, none)
      → let w : World = record { left = []; calls = k } in
        read_loop malloc (suc fuel) w o none my true
        ≡ read_loop malloc fuel
            (called (called w))
            (some (or_empty o ++ []))
            none
            (length (or_empty o ++ []))
            false
  unfolding read_loop
  end_step fuel k o my e =
      let a : (ft_strchr o b'\n' none).0 ≡ false = ap (λ r. r.0) e in
      let b : (ft_strchr o b'\n' none).1 ≡ none = ap (λ r. r.1) e in
      let w : World = record { left = []; calls = k } in
      rw (a, enough k, read_loop)
        (λ i.
          let r = create_copy_return_lem (called w) o [] i in
          read_loop malloc fuel (called (called w)) r.0 (b i) r.1 false)

  pub chunk_step :
      (fuel : ℕ) (k : ℕ) (b : Text) (left : List Chunk) (o : Option Text) (my : ℕ)
      → ft_strchr o b'\n' none ≡ (false, none)
      → IsChunk (bytes b)
      → read_loop malloc (suc fuel) (record { left = bytes b ∷ left; calls = k }) o none my true
        ≡ read_loop malloc fuel
            (record { left = left; calls = k + 1 + 1 })
            (some (or_empty o ++ b))
            none
            (length (or_empty o ++ b))
            true
  unfolding read_loop
  chunk_step fuel k b left o my e h =
      let a : (ft_strchr o b'\n' none).0 ≡ false = ap (λ r. r.0) e in
      let d : (ft_strchr o b'\n' none).1 ≡ none = ap (λ r. r.1) e in
      let more : ltb 0 (length b) ≡ true = ground (arith, h.0) in
      let w : World = record { left = left; calls = k + 1 } in
      rw (a, enough k, more, before_nul-IsText b h.1, read_loop)
        (λ i.
          let r = create_copy_return_lem w o b i in
          read_loop malloc fuel (called w) r.0 (d i) r.1 true)

  -- With no newline, all is read: the last turn leaves the loop.
  at_end :
      (fuel k : ℕ) (o : Option Text) (my : ℕ)
      → IsText (or_empty o)
      → (r : Read) × (read_loop malloc
            (suc (suc fuel))
            (record { left = []; calls = k })
            o
            none
            my
            true
          ≡ some r)
        × (s : Text) × Reads (or_empty o) r s
  at_end fuel k o my clean = elim (ft_strchr_lem o) [
    | inl (s, j, held, e, p) ↦ (
      record {
        my_static = o;
        nline_pos = some j;
        myline = my;
        world = record { left = []; calls = k };
      },
      found_step (suc fuel) (record { left = []; calls = k }) o my j true e,
      s,
      record {
        held = held;
        whole = append-nil s ∙ sym (ap or_empty held);
        reads = tt;
        clean = subst (λ o. IsText (or_empty o)) held clean;
        outcome = inl (j, refl, p);
      },
    )
    | inr (e, p) ↦
        let w : World = record { left = []; calls = k + 1 + 1 } in
        let nil : or_empty o ++ [] ≡ or_empty o = append-nil (or_empty o) in
        let e' : ft_strchr (some (or_empty o ++ [])) b'\n' none ≡ (false, none) =
          ft_strchr_again o e in
        (
          record {
            my_static = some (or_empty o ++ []);
            nline_pos = none;
            myline = length (or_empty o ++ []);
            world = w;
          },
          end_step (suc fuel) k o my e
              ∙ last_step fuel w (some (or_empty o ++ [])) (length (or_empty o ++ [])) e',
          or_empty o,
          record {
            held = ap some nil;
            whole = nil;
            reads = tt;
            clean = clean;
            outcome = inr (refl, p, refl, ap length nil);
          },
        )
  ]

  pub read_loop-Reads :
      (left : List Chunk) (fuel k : ℕ) (o : Option Text) (my : ℕ)
      → IsText (or_empty o)
      → All IsChunk left
      → length left + 2 ≤ fuel
      → (r : Read) × (read_loop malloc fuel (record { left = left; calls = k }) o none my true
          ≡ some r)
        × (s : Text) × Reads (or_empty o ++ text_of left) r s
  read_loop-Reads left zero k o my clean chunks room = absurd (omega (arith, room))
  read_loop-Reads left (suc zero) k o my clean chunks room = absurd (omega (arith, room))
  read_loop-Reads [] (suc (suc fuel)) k o my clean chunks room =
      let (r, e, s, h) = at_end fuel k o my clean in
      (r, e, s, subst (λ t. Reads t r s) (sym (append-nil (or_empty o))) h)
  read_loop-Reads (failure ∷ left) (suc (suc fuel)) k o my clean chunks room = absurd chunks.0
  read_loop-Reads (bytes b ∷ left) (suc (suc fuel)) k o my clean chunks room =
      elim (ft_strchr_lem o) [
        | inl (s, j, held, e, p) ↦
            let w : World = record { left = bytes b ∷ left; calls = k } in
            (
              record { my_static = o; nline_pos = some j; myline = my; world = w },
              found_step (suc fuel) w o my j true e,
              s,
              record {
                held = held;
                whole = ap (λ t. t ++ (b ++ text_of left)) (sym (ap or_empty held));
                reads = chunks;
                clean = subst (λ o. IsText (or_empty o)) held clean;
                outcome = inl (j, refl, p);
              },
            )
        | inr (e, p) ↦
            let joined = or_empty o ++ b in
            let (r, e', s, h) =
              read_loop-Reads left (suc fuel) (k + 1 + 1) (some joined) (length joined)
                (All-append (λ c. c ≢ 0) (or_empty o) b clean chunks.0.1) chunks.1
                (omega (arith, room)) in
            (
              r,
              chunk_step (suc fuel) k b left o my e chunks.0 ∙ e',
              s,
              subst (λ t. Reads t r s) (append_assoc (or_empty o) b (text_of left)) h,
            )
      ]
