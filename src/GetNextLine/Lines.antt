-- ===== src/GetNextLine/Lines.antt =====
-- A call of get_next_line gives the next line of what is to come.
use model_lib.Common.{
  ℕ, suc, ◌+◌, ◌<◌, ◌≢◌, ◌≡◌, refl, ap, sym, subst, ◌∙◌, ◌==◌, Bool, true, false, [], ◌∷◌, ◌++◌,
  Option, none, some, take, drop, take-append-drop, length, arith, All, All-append_right, inl, inr,
}
use mathlib.Core.List.{append-nil}
use native.Mathlib.Numerals.{add-one}
use model_lib.Libft.Strings.{Text, char_at}
use model_lib.GetNextLine.{
  World, called, copy_loop, or_empty, ft_static_handler, ft_copy_until_n, get_next_line,
}
use model_lib.GetNextLine.Split.{
  first_line, behind_line, IsText, copy_loop-take, take_all, EndsLine, IsLine,
}
use model_lib.GetNextLine.Reading.{IsChunk, text_of, read_loop-Reads}

abbrev pub next_line : Text → Option Text
next_line [] = none
next_line (c ∷ s) = some (first_line (c ∷ s))

-- The copy of the line and the rest that is kept.
module _ (malloc : ℕ → Bool) (enough : (call : ℕ) → malloc call ≡ true) where
  copy-found :
      (w : World) (s : Text) (j my : ℕ)
      → j < length s
      → ft_copy_until_n malloc w s (some j) my ≡ some (take (suc j) s)
  unfolding ft_copy_until_n
  copy-found w s j my h =
      let e : copy_loop (suc j) 0 s ≡ take (suc j) s =
        copy_loop-take (suc j) s (omega (arith, h)) in
      rw (enough w.calls, add-one) (ap some e)

  copy-last :
      (w : World) (s : Text)
      → IsText s
      → IsLine s
      → ft_copy_until_n malloc w s none (length s) ≡ next_line s
  unfolding ft_copy_until_n
  copy-last w [] h p = refl
  copy-last w (c ∷ s) h p =
      let t : (c == 0) ≡ false = ground (arith, h.0) in
      rw (t, enough w.calls)
        (ap some
          (copy_loop-take (length (c ∷ s)) (c ∷ s) (omega arith) ∙ take_all (c ∷ s) ∙ sym p.line))

  handler-found :
      (w : World) (s : Text) (j : ℕ)
      → EndsLine s j
      → ft_static_handler malloc w s (some (take (suc j) s)) (some j) ≡ some (drop (suc j) s)
  unfolding ft_static_handler
  handler-found w s j p =
      let t : (char_at (take (suc j) s) j == b'\n') ≡ true = ground (arith, p.newline) in
      rw (t, enough w.calls, add-one)

  handler-last :
      (w : World) (s : Text) (line : Option Text) → ft_static_handler malloc w s line none ≡ none
  unfolding ft_static_handler
  handler-last w s none = refl
  handler-last w s (some l) = refl

  -- A call gives the next line of what is to come and leaves the rest.
  pub record Once (w : World) (o : Option Text) : Type 0 where
    pub o' : Option Text
    pub w' : World
    pub gives :
        get_next_line malloc false w o ≡ some (next_line (or_empty o ++ text_of w.left), o', w')
    pub behind : or_empty o' ++ text_of w'.left ≡ behind_line (or_empty o ++ text_of w.left)
    pub clean : IsText (or_empty o')
    pub reads : All IsChunk w'.left

  next_line-append :
      (s r : Text) (j : ℕ) → EndsLine s j → some (take (suc j) s) ≡ next_line (s ++ r)
  next_line-append [] r j p = absurd (omega (arith, p.inside))
  next_line-append (c ∷ s) r j p = ap some (sym (p.line r))

  drop-IsText : (n : ℕ) (s : Text) → IsText s → IsText (drop n s)
  drop-IsText n s h =
      All-append_right (λ c. c ≢ 0) (take n s) (drop n s)
        (subst IsText (sym (take-append-drop n s)) h)

  pub get_next_line-Once :
      (w : World) (o : Option Text) → IsText (or_empty o) → All IsChunk w.left → Once w o
  unfolding get_next_line
  get_next_line-Once w o clean chunks =
      let (r, e, s, h) =
        read_loop-Reads malloc enough w.left (length w.left + 2) w.calls o 0 clean chunks
          (omega arith) in
      elim h.outcome [
        | inl (j, at, p) ↦
            let line = copy-found r.world s j r.myline p.inside in
            let kept = handler-found (called r.world) s j p in
            record {
              o' = some (drop (suc j) s);
              w' = called (called r.world);
              gives =
                  rw (e, h.held, at, line, kept, get_next_line)
                    (λ i. some (
                      (next_line-append s (text_of r.world.left) j p ∙ ap next_line h.whole) i,
                      some (drop (suc j) s),
                      called (called r.world),
                    ));
              behind = sym (p.behind (text_of r.world.left)) ∙ ap behind_line h.whole;
              clean = drop-IsText (suc j) s h.clean;
              reads = h.reads;
            }
        | inr (at, p, left, my) ↦
            let all : s ≡ or_empty o ++ text_of w.left =
              sym (append-nil s) ∙ ap (λ l. s ++ text_of l) (sym left) ∙ h.whole in
            let line : ft_copy_until_n malloc r.world s none r.myline ≡ next_line s =
              rw my (copy-last r.world s h.clean p) in
            let kept = handler-last (called r.world) s (next_line s) in
            record {
              o' = none;
              w' = called (called r.world);
              gives =
                  rw (e, h.held, at, line, kept, get_next_line)
                    (λ i. some (next_line (all i), none, called (called r.world)));
              behind = (λ i. text_of (left i)) ∙ sym p.behind ∙ ap behind_line all;
              clean = tt;
              reads = h.reads;
            }
      ]
