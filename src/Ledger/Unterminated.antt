-- ===== src/Ledger/Unterminated.antt =====
-- A crash that cuts off only the newline of a frame of the run-ledger.
use long_horizon_agentic_har.Prelude.{
  ℕ, ◌+◌, some, List, [], ◌∷◌, ◌++◌, ◌≡◌, refl, sym, ◌∙◌, All, nil-ne-append, subst,
}
use long_horizon_agentic_har.Result.{ok}
use long_horizon_agentic_har.Ledger.Codec.{Codec}
use long_horizon_agentic_har.Ledger.Frame.{FileBytes, line, line_is_torn, split_tab}
use long_horizon_agentic_har.Ledger.File.{pop_empty, split_lines, append_wal, load_lines, load_wal}
use long_horizon_agentic_har.Ledger.Torn.{NoNewline, line-NoNewline, IsSealed, line_is_torn-line}
use long_horizon_agentic_har.Ledger.Heal.{split_lines-tail, split_lines-line, pop_empty-split_lines}
use long_horizon_agentic_har.Ledger.Refinement.{
  render, Holds, load_wal-Holds, append_wal-Holds, load_wal-some, append_wal-tail,
}

module _ {R : Type 0} (codec : Codec R) where
  open codec use {dumps, dumps_no_newline}

  load_lines-whole_tail :
      (i : ℕ) (es : List R) (c : ℕ) (tail : List ℕ) (e : R)
      → All (IsSealed codec) es
      → NoNewline (c ∷ tail)
      → line_is_torn codec (c ∷ tail) ≡ some e
      → load_lines codec i (pop_empty (split_lines (render codec es (c ∷ tail))))
        ≡ ok (es ++ (e ∷ []))
  unfolding load_lines
  load_lines-whole_tail i [] c tail e s n t =
      rw (split_lines-tail (c ∷ tail) n) (unfold pop_empty in rw t refl)
  load_lines-whole_tail i (d ∷ es) c tail e s n t =
      rw (split_lines-line (line (dumps d)) _ (line-NoNewline (dumps d) (dumps_no_newline d))) (
        rw pop_empty-split_lines (
          rw (line_is_torn-line codec d s.0)
            (rw (load_lines-whole_tail (i + 1) es c tail e s.1 n t) refl)))

  load_wal-whole_tail :
      (es : List R) (l : List ℕ) (e : R)
      → All (IsSealed codec) es
      → IsSealed codec e
      → line (dumps e) ≡ l
      → load_wal codec (some (render codec es l)) ≡ ok (es ++ (e ∷ []))
  unfolding line
  load_wal-whole_tail es [] e s k h = absurd (nil-ne-append _ _ 9 (sym h))
  load_wal-whole_tail es (c ∷ l) e s k h = load_wal-some codec es' _ (
      load_lines-whole_tail 0 es c l e s
        (subst NoNewline h (line-NoNewline (dumps e) (dumps_no_newline e)))
        (subst (λ x. line_is_torn codec x ≡ some e) h (line_is_torn-line codec e k)))
    where
      es' : List R
      es' = es ++ (e ∷ [])

  clean-Holds : (es : List R) → All (IsSealed codec) es → Holds codec (some (render codec es [])) es
  clean-Holds es s = record {
    tail = [];
    text = refl;
    unterminated = tt;
    torn = unfold line_is_torn split_tab in refl;
    sealed = s;
  }

  -- If a crash cuts off only the newline of the frame of `e`, then `e` is loaded as a committed
  -- entry, and yet the next append, of `d`, removes it: the load after that has `d` in its place.
  pub unterminated_entry_lost :
      (es : List R) (e d : R)
      → All (IsSealed codec) es
      → IsSealed codec e
      → IsSealed codec d
      → (load_wal codec (some (render codec es (line (dumps e)))) ≡ ok (es ++ (e ∷ [])))
        × (file' : FileBytes) × (append_wal codec d (some (render codec es (line (dumps e))))
            ≡ ok file')
        × (load_wal codec file' ≡ ok (es ++ (d ∷ [])))
  unterminated_entry_lost es e d s k kd =
      let (file', appended, holds) =
        append_wal-Holds codec (some (render codec es [])) es d (clean-Holds es s) kd in
      (
        load_wal-whole_tail es (line (dumps e)) e s k refl,
        file',
        append_wal-tail codec es (line (dumps e)) d (line-NoNewline (dumps e) (dumps_no_newline e))
            ∙ appended,
        load_wal-Holds codec file' (es ++ (d ∷ [])) holds,
      )
