-- ===== src/Ledger/Torn.antt =====
-- Lines of the run-ledger file, whole and torn.
use long_horizon_agentic_har.Prelude.{
  ℕ, ◌+◌, ◌≤◌, false, none, some, List, [], ◌∷◌, ◌++◌, map, ◌≡◌, refl, ap, arith, ◌==◌, length,
  length-append, All, All-append, inl, inr, ◌⊎◌,
}
use long_horizon_agentic_har.Decimal.{digits}
use long_horizon_agentic_har.Ledger.Codec.{Codec, decimal_bytes}
use long_horizon_agentic_har.Ledger.Frame.{line, split_tab, line_is_torn, has_newline}

abbrev pub NoNewline : List ℕ → Type 0
NoNewline = All (λ c. (c == 10) ≡ false)

pub has_newline_of_NoNewline : (cs : List ℕ) → NoNewline cs → has_newline cs ≡ false
unfolding has_newline
has_newline_of_NoNewline [] h = refl
has_newline_of_NoNewline (c ∷ cs) h = rw (h.0) (has_newline_of_NoNewline cs h.1)

bytes_of_digits :
    (k : ℕ) → k ≤ 10 → (ds : List ℕ) → All (λ c. (c == k) ≡ false) (map (λ d. 48 + d) ds)
bytes_of_digits k h [] = tt
bytes_of_digits k h (d ∷ ds) = (ground arith, bytes_of_digits k h ds)

pub line-NoNewline : (payload : List ℕ) → NoNewline payload → NoNewline (line payload)
unfolding line
line-NoNewline payload h =
    All-append (λ c. (c == 10) ≡ false) (decimal_bytes (length payload)) (9 ∷ payload)
      (bytes_of_digits 10 (omega arith) (digits (length payload))) (refl, h)

split_tab-append :
    (ds p : List ℕ) → All (λ c. (c == 9) ≡ false) ds → split_tab (ds ++ (9 ∷ p)) ≡ some (ds, p)
unfolding split_tab
split_tab-append [] p h = refl
split_tab-append (d ∷ ds) p h = ground (arith, split_tab-append ds p h.1, h.0)

split_tab-line : (p : List ℕ) → split_tab (line p) ≡ some (decimal_bytes (length p), p)
unfolding line
split_tab-line p =
    split_tab-append (decimal_bytes (length p)) p
      (bytes_of_digits 9 (omega arith) (digits (length p)))

-- A strict prefix of a line ends before the tab, or it cuts the payload.
split_tab-prefix :
    (ds p a q : List ℕ) (c : ℕ)
    → All (λ x. (x == 9) ≡ false) ds
    → ds ++ (9 ∷ p) ≡ a ++ (c ∷ q)
    → (split_tab a ≡ none) ⊎ ((b : List ℕ) × (split_tab a ≡ some (ds, b)) × (p ≡ b ++ (c ∷ q)))
unfolding split_tab
split_tab-prefix ds p [] q c h e = inl refl
split_tab-prefix [] p (x ∷ a) q c h e = inr (a, ground arith, cc)
split_tab-prefix (d ∷ ds) p (x ∷ a) q c h e = elim (split_tab-prefix ds p a q c h.1 (cc)) [
  | inl n ↦ inl (ground arith)
  | inr (b, s, r) ↦ inr (b, ground arith, r)
]

module _ {R : Type 0} (codec : Codec R) where
  open codec use {dumps, loads, int_of, recorded_crc, content_crc, loads-dumps, int_of-decimal}

  -- An entry whose checksum is that of its content, as `build_wal_record` makes it.
  abbrev pub IsSealed : R → Type 0
  IsSealed e = recorded_crc e ≡ some (content_crc e)

  pub line_is_torn-line : (e : R) → IsSealed e → line_is_torn codec (line (dumps e)) ≡ some e
  unfolding line_is_torn
  line_is_torn-line e h =
      ground (arith, split_tab-line (dumps e), int_of-decimal (length (dumps e)), loads-dumps e)

  -- A write that stops before the last byte of the line leaves a torn line.
  pub line_is_torn-prefix :
      (payload a q : List ℕ) (c : ℕ) → line payload ≡ a ++ (c ∷ q) → line_is_torn codec a ≡ none
  unfolding line line_is_torn
  line_is_torn-prefix payload a q c e =
      elim (split_tab-prefix (decimal_bytes (length payload)) payload a q c
        (bytes_of_digits 9 (omega arith) (digits (length payload))) e) [
          | inl n ↦ rw n refl
          | inr (b, s, r) ↦
              ground
                (arith, s, r, int_of-decimal (length payload), ap length r, length-append b (c ∷ q))
        ]
