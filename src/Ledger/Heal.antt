-- ===== src/Ledger/Heal.antt =====
-- The heal of a torn tail and the split into lines, on bytes.
use long_horizon_agentic_har.Prelude.{
  ℕ, Bool, true, false, some, List, [], ◌∷◌, ◌++◌, ◌≡◌, refl, ap, ◌∙◌, arith, ◌==◌, length, ◌⊎◌,
  inl, inr, if◌then◌else◌,
}
use mathlib.Core.List.{append-nil}
use long_horizon_agentic_har.Ledger.Torn.{NoNewline}
use long_horizon_agentic_har.Ledger.File.{
  last_byte, rfind_newline, truncate, heal_bytes, keep, split_lines, pop_empty, push,
}

-- What is empty or ends in a newline.
abbrev pub IsClean : List ℕ → Type 0
IsClean bs = (bs ≡ []) ⊎ (last_byte bs ≡ some 10)

rfind_newline-tail : (bs t : List ℕ) → NoNewline t → rfind_newline (bs ++ t) ≡ rfind_newline bs
unfolding rfind_newline
rfind_newline-tail [] [] h = refl
rfind_newline-tail [] (c ∷ t) h = ground (arith, rfind_newline-tail [] t h.1)
rfind_newline-tail (b ∷ bs) t h = rw (rfind_newline-tail bs t h) refl

keep-clean : (bs : List ℕ) → last_byte bs ≡ some 10 → keep (rfind_newline bs) ≡ length bs
unfolding rfind_newline last_byte
keep-clean [] h = cc
keep-clean (c ∷ []) h = ground arith
keep-clean (c ∷ d ∷ cs) h = ground (arith, keep-clean (d ∷ cs) h)

truncate-append : (bs t : List ℕ) → truncate (length bs) (bs ++ t) ≡ bs
unfolding truncate
truncate-append [] t = refl
truncate-append (b ∷ bs) t = ap (◌∷◌ b) (truncate-append bs t)

last_byte-cons :
    (b c : ℕ) (bs t : List ℕ) → last_byte (b ∷ (bs ++ (c ∷ t))) ≡ last_byte (bs ++ (c ∷ t))
unfolding last_byte
last_byte-cons b c [] t = refl
last_byte-cons b c (d ∷ bs) t = refl

pub last_byte-append : (bs t : List ℕ) (c : ℕ) → last_byte (bs ++ (c ∷ t)) ≡ last_byte (c ∷ t)
last_byte-append [] t c = refl
last_byte-append (b ∷ bs) t c = last_byte-cons b c bs t ∙ last_byte-append bs t c

last_byte-NoNewline :
    (c : ℕ) (t : List ℕ)
    → NoNewline (c ∷ t)
    → (d : ℕ) × (last_byte (c ∷ t) ≡ some d) × ((d == 10) ≡ false)
unfolding last_byte
last_byte-NoNewline c [] h = (c, refl, h.0)
last_byte-NoNewline c (d ∷ t) h = last_byte-NoNewline d t h.1

heal_bytes-clean : (bs : List ℕ) → IsClean bs → heal_bytes (last_byte bs) bs ≡ bs
unfolding last_byte
heal_bytes-clean bs (inl e) = rw e refl
heal_bytes-clean bs (inr e) = rw e refl

keep-IsClean : (bs : List ℕ) → IsClean bs → keep (rfind_newline bs) ≡ length bs
unfolding rfind_newline
keep-IsClean bs (inl e) = rw e refl
keep-IsClean bs (inr e) = keep-clean bs e

-- The heal drops what follows the last newline, and nothing else.
pub heal_bytes-tail :
    (bs t : List ℕ) → IsClean bs → NoNewline t → heal_bytes (last_byte (bs ++ t)) (bs ++ t) ≡ bs
heal_bytes-tail bs [] h k = rw append-nil (heal_bytes-clean bs h)
heal_bytes-tail bs (c ∷ t) h k =
    let (d, e, ne) = last_byte-NoNewline c t k in
    rw (last_byte-append bs t c ∙ e) (
      rw ne (
        rw (rfind_newline-tail bs (c ∷ t) k) (rw (keep-IsClean bs h) (truncate-append bs (c ∷ t)))))

pub split_lines-tail : (t : List ℕ) → NoNewline t → split_lines t ≡ t ∷ []
unfolding split_lines
split_lines-tail [] h = refl
split_lines-tail (c ∷ t) h = rw (h.0, split_lines-tail t h.1) refl

pub split_lines-line :
    (l r : List ℕ) → NoNewline l → split_lines (l ++ (10 ∷ r)) ≡ l ∷ split_lines r
unfolding split_lines
split_lines-line [] r h = refl
split_lines-line (c ∷ l) r h = rw (h.0, split_lines-line l r h.1) refl

first_line :
    (b : Bool) (c : ℕ) (rest : List (List ℕ))
    → (l : List ℕ) × (ls : List (List ℕ)) × ((if b then [] ∷ rest else push c rest) ≡ l ∷ ls)
first_line true c rest = ([], rest, refl)
first_line false c [] = (c ∷ [], [], refl)
first_line false c (l ∷ ls) = (c ∷ l, ls, refl)

split_lines-cons : (r : List ℕ) → (l : List ℕ) × (ls : List (List ℕ)) × (split_lines r ≡ l ∷ ls)
unfolding split_lines
split_lines-cons [] = ([], [], refl)
split_lines-cons (c ∷ r) = first_line (c == 10) c (split_lines r)

-- The first line of several stays when an empty last one is dropped.
pub pop_empty-split_lines :
    (l r : List ℕ) → pop_empty (l ∷ split_lines r) ≡ l ∷ pop_empty (split_lines r)
unfolding pop_empty
pop_empty-split_lines l r = let (m, ms, e) = split_lines-cons r in rw e refl

pub last_byte-newline : (r : List ℕ) → IsClean r → last_byte (10 ∷ r) ≡ some 10
unfolding last_byte
last_byte-newline [] h = refl
last_byte-newline (c ∷ r) (inl e) = cc
last_byte-newline (c ∷ r) (inr e) = e
