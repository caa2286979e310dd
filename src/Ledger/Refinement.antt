-- ===== src/Ledger/Refinement.antt =====
-- The run-ledger file stands for a list of entries, which append extends and load returns.
use mathlib.Core.List.{append_assoc}
use long_horizon_agentic_har.Prelude.{
  ℕ, ◌+◌, false, append_cancel_left, cut_before_last, none, some, List, [], ◌∷◌, ◌++◌, ◌≡◌, refl,
  ap, sym, ◌∙◌, All, All-append, All-prefix, nil-ne-append, inl, inr, subst, ◌==◌,
}
use long_horizon_agentic_har.Result.{ok, ok-inj}
use long_horizon_agentic_har.Ledger.Codec.{Codec}
use long_horizon_agentic_har.Ledger.Frame.{
  FileBytes, line, line_is_torn, split_tab, append_framed, bytes,
}
use long_horizon_agentic_har.Ledger.File.{
  pop_empty, split_lines, heal_torn_tail, append_wal, load_lines, load_wal,
}
use long_horizon_agentic_har.Ledger.Torn.{
  NoNewline, has_newline_of_NoNewline, line-NoNewline, IsSealed, line_is_torn-line,
  line_is_torn-prefix,
}
use long_horizon_agentic_har.Ledger.Heal.{
  IsClean, last_byte-append, last_byte-newline, heal_bytes-tail, split_lines-tail, split_lines-line,
  pop_empty-split_lines,
}

module _ {R : Type 0} (codec : Codec R) where
  open codec use {dumps, dumps_no_newline}

  -- The frames of the entries, and then `tail`.
  abbrev pub render : List R → List ℕ → List ℕ
  render [] tail = tail
  render (e ∷ es) tail = line (dumps e) ++ (10 ∷ render es tail)

  -- The file holds the entries and behind them at most a torn line with no newline.
  pub record Holds (file : FileBytes) (es : List R) : Type 0 where
    pub tail : List ℕ
    pub text : bytes file ≡ render es tail
    pub unterminated : NoNewline tail
    pub torn : line_is_torn codec tail ≡ none
    pub sealed : All (IsSealed codec) es

  render-append : (es : List R) (tail : List ℕ) → render es tail ≡ render es [] ++ tail
  render-append [] tail = refl
  render-append (e ∷ es) tail =
      rw (render-append es tail) (sym (append_assoc (line (dumps e)) (10 ∷ render es []) tail))

  render-snoc :
      (es : List R) (e : R) (tail : List ℕ)
      → render (es ++ (e ∷ [])) tail ≡ render es (line (dumps e) ++ (10 ∷ tail))
  render-snoc [] e tail = refl
  render-snoc (d ∷ es) e tail = rw (render-snoc es e tail) refl

  render-end :
      (es : List R) (e : R)
      → render (es ++ (e ∷ [])) [] ≡ render es [] ++ (line (dumps e) ++ (10 ∷ []))
  render-end es e = render-snoc es e [] ∙ render-append es (line (dumps e) ++ (10 ∷ []))

  no_entries : (es : List R) (tail : List ℕ) → [] ≡ render es tail → es ≡ []
  no_entries [] tail h = refl
  no_entries (e ∷ es) tail h = absurd (nil-ne-append (line (dumps e)) (render es tail) 10 h)

  render-IsClean : (es : List R) → IsClean (render es [])
  render-IsClean [] = inl refl
  render-IsClean (e ∷ es) = inr (
      last_byte-append (line (dumps e)) (render es []) 10
      ∙ last_byte-newline (render es []) (render-IsClean es))

  load_lines-render :
      (i : ℕ) (es : List R) (tail : List ℕ)
      → All (IsSealed codec) es
      → NoNewline tail
      → line_is_torn codec tail ≡ none
      → load_lines codec i (pop_empty (split_lines (render es tail))) ≡ ok es
  unfolding load_lines
  load_lines-render i [] [] s n t = unfold split_lines pop_empty in refl
  load_lines-render i [] (c ∷ tail) s n t =
      rw (split_lines-tail (c ∷ tail) n) (unfold pop_empty in rw t refl)
  load_lines-render i (e ∷ es) tail s n t =
      rw
        (split_lines-line (line (dumps e)) (render es tail)
          (line-NoNewline (dumps e) (dumps_no_newline e)))
        (rw pop_empty-split_lines (
          rw (line_is_torn-line codec e s.0) (rw (load_lines-render (i + 1) es tail s.1 n t) refl)))

  pub load_wal-some :
      (es : List R) (bs : List ℕ)
      → load_lines codec 0 (pop_empty (split_lines bs)) ≡ ok es
      → load_wal codec (some bs) ≡ ok es
  unfolding load_wal split_lines pop_empty
  load_wal-some es [] h = h
  load_wal-some es (c ∷ bs) h = h

  -- What is loaded from a file are the entries that it stands for: a torn last line is dropped.
  pub load_wal-Holds :
      (file : FileBytes) (es : List R) → Holds file es → load_wal codec file ≡ ok es
  unfolding load_wal
  load_wal-Holds none es h = ap ok (sym (no_entries es h.tail h.text))
  load_wal-Holds (some bs) es h =
      load_wal-some es bs (rw h.text (load_lines-render 0 es h.tail h.sealed h.unterminated h.torn))

  heal-Holds :
      (file : FileBytes) (es : List R) → Holds file es → bytes (heal_torn_tail file) ≡ render es []
  unfolding heal_torn_tail
  heal-Holds none es h = rw (no_entries es h.tail h.text) refl
  heal-Holds (some bs) es h =
      rw (h.text ∙ render-append es h.tail)
        (heal_bytes-tail (render es []) h.tail (render-IsClean es) h.unterminated)

  heal-render :
      (es : List R) (tail : List ℕ)
      → NoNewline tail
      → heal_torn_tail (some (render es tail)) ≡ some (render es [])
  unfolding heal_torn_tail
  heal-render es tail n =
      rw (render-append es tail)
        (ap some (heal_bytes-tail (render es []) tail (render-IsClean es) n))

  -- The append sees nothing of a tail with no newline.
  pub append_wal-tail :
      (es : List R) (tail : List ℕ) (d : R)
      → NoNewline tail
      → append_wal codec d (some (render es tail)) ≡ append_wal codec d (some (render es []))
  unfolding append_wal
  append_wal-tail es tail d n =
      ap (λ f. append_framed f (dumps d)) (heal-render es tail n ∙ sym (heal-render es [] tt))

  -- A sealed entry is appended, whatever torn tail the file had, and the file then stands for the
  -- entries that it stood for with the new one behind them.
  pub append_wal-Holds :
      (file : FileBytes) (es : List R) (e : R)
      → Holds file es
      → IsSealed codec e
      → (file' : FileBytes) × (append_wal codec e file ≡ ok file') × Holds file' (es ++ (e ∷ []))
  unfolding append_wal append_framed
  append_wal-Holds file es e h s = (
    some (render (es ++ (e ∷ [])) []),
    rw (has_newline_of_NoNewline (dumps e) (dumps_no_newline e))
        (rw (heal-Holds file es h) (ap (λ x. ok (some x)) (sym (render-end es e)))),
    record {
      tail = [];
      text = refl;
      unterminated = tt;
      torn = unfold line_is_torn split_tab in refl;
      sealed = All-append (IsSealed codec) es (e ∷ []) h.sealed (s, tt);
    },
  )

  -- What the file holds after a write of the line that was cut off before the last byte of the line.
  cut-Holds :
      (es : List R) (e : R) (written rest : List ℕ) (c : ℕ)
      → All (IsSealed codec) es
      → line (dumps e) ≡ written ++ (c ∷ rest)
      → Holds (some (render es [] ++ written)) es
  cut-Holds es e written rest c s h = record {
    tail = written;
    text = sym (render-append es written);
    unterminated =
        All-prefix (λ x. (x == 10) ≡ false) written (c ∷ rest)
          (subst NoNewline h (line-NoNewline (dumps e) (dumps_no_newline e)));
    torn = line_is_torn-prefix codec (dumps e) written rest c h;
    sealed = s;
  }

  -- An append leaves the healed file and behind it one line.
  append_wal-bytes :
      (file : FileBytes) (es : List R) (e : R) (file' : FileBytes)
      → Holds file es
      → append_wal codec e file ≡ ok file'
      → bytes file' ≡ render es [] ++ (line (dumps e) ++ (10 ∷ []))
  unfolding append_wal append_framed
  append_wal-bytes file es e file' h w =
      let made : ok (some (render es [] ++ (line (dumps e) ++ (10 ∷ [])))) ≡ ok file' =
        rw (has_newline_of_NoNewline (dumps e) (dumps_no_newline e), heal-Holds file es h) at w in
      sym (ap bytes (ok-inj _ _ made))

  -- A crash in an append loses the new entry at most. The append has healed the torn tail of a file
  -- that stands for `es`; what it writes behind that is cut off at any byte, but for the final newline
  -- alone. Then the file stands for `es` and is loaded as `es`, and the next append of a sealed entry
  -- succeeds and leaves a file that is loaded as `es` with that entry behind them.
  pub append_wal-crash :
      (file file' : FileBytes) (es : List R) (e d : R) (written rest : List ℕ) (b c : ℕ)
      → Holds file es
      → append_wal codec e file ≡ ok file'
      → bytes file' ≡ bytes (heal_torn_tail file) ++ (written ++ (b ∷ c ∷ rest))
      → IsSealed codec d
      → let crashed = some (bytes (heal_torn_tail file) ++ written) in
        Holds crashed es
        × (load_wal codec crashed ≡ ok es)
        × (next : FileBytes) × (append_wal codec d crashed ≡ ok next)
        × (load_wal codec next ≡ ok (es ++ (d ∷ [])))
  append_wal-crash file file' es e d written rest b c h w cut s =
      let healed = heal-Holds file es h in
      let frame : line (dumps e) ++ (10 ∷ []) ≡ written ++ (b ∷ c ∷ rest) =
        append_cancel_left (render es []) _ _ (
          sym (append_wal-bytes file es e file' h w)
          ∙ (cut ∙ ap (λ x. x ++ (written ++ (b ∷ c ∷ rest))) healed)) in
      let (rest', short) = cut_before_last (line (dumps e)) written rest 10 b c frame in
      let held : Holds (some (bytes (heal_torn_tail file) ++ written)) es =
        subst (λ x. Holds (some (x ++ written)) es) (sym healed)
          (cut-Holds es e written rest' b h.sealed short) in
      let (next, appended, then_) = append_wal-Holds _ es d held s in
      (held, load_wal-Holds _ es held, next, appended, load_wal-Holds next _ then_)
