-- ===== src/Reconcile/Replay.antt =====
-- How the replay of harnessd/reconcile.py goes over a run-ledger whose seqs ascend.
use long_horizon_agentic_har.Prelude.{
  ℕ, ◌+◌, ◌≤◌, ◌<◌, String, str_eq, eq_iff, false, List, [], ◌∷◌, ◌++◌, ◌≡◌, refl, ap, arith, All,
  All-append, ltb, le→leb, Bool-cases, inl, inr, if◌then◌else◌,
}
use long_horizon_agentic_har.Result.{ok, err, Result-cases, ok-inj}
use long_horizon_agentic_har.Dict
use long_horizon_agentic_har.Ledger.{Entry}
use long_horizon_agentic_har.Ledger.File.{max_seq, seq_after}
use long_horizon_agentic_har.Executor.{Binding}
use long_horizon_agentic_har.Reconcile.{
  watermark_of, apply_one, apply_all, insert_by_seq, sort_by_seq, events_of,
}

-- Each entry has a greater seq than those before it.
abbrev pub Increasing : List Entry → Type 0
Increasing [] = Unit
Increasing (e ∷ es) = All (λ d. e.seq < d.seq) es × Increasing es

abbrev pub Below : ℕ → List Entry → Type 0
Below s = All (λ d. d.seq < s)

pub Below-mono : (s t : ℕ) (es : List Entry) → s ≤ t → Below s es → Below t es
Below-mono s t [] h k = tt
Below-mono s t (e ∷ es) h k = (omega arith, Below-mono s t es h k.1)

max_seq_bounds :
    (acc : ℕ) (es : List Entry) → (acc ≤ max_seq acc es) × Below (max_seq acc es + 1) es
unfolding max_seq
max_seq_bounds acc [] = (omega arith, tt)
max_seq_bounds acc (e ∷ es) =
    let (le, below) = max_seq_bounds (if ltb acc e.seq then e.seq else acc) es in
    (ground (arith, le), (ground (arith, le), below))

-- The next seq is greater than each seq of the run-ledger.
pub seq_after-Below : (es : List Entry) → Below (seq_after es) es
unfolding seq_after
seq_after-Below [] = tt
seq_after-Below (e ∷ es) = (omega (arith, (max_seq_bounds e.seq es).0), (max_seq_bounds e.seq es).1)

pub Increasing-snoc :
    (es : List Entry) (e : Entry) → Increasing es → Below e.seq es → Increasing (es ++ (e ∷ []))
Increasing-snoc [] e h k = (tt, tt)
Increasing-snoc (d ∷ es) e h k =
    (All-append (λ x. d.seq < x.seq) es (e ∷ []) h.0 (k.0, tt), Increasing-snoc es e h.1 k.1)

All-events_of :
    (P : Entry → Type 0) (a : String) (es : List Entry) → All P es → All P (events_of a es)
unfolding events_of
All-events_of P a [] h = tt
All-events_of P a (e ∷ es) h = elim (Bool-cases (str_eq e.node_address a)) [
  | inl q ↦ rw q (h.0, All-events_of P a es h.1)
  | inr q ↦ rw q (All-events_of P a es h.1)
]

pub Increasing-events_of :
    (a : String) (es : List Entry) → Increasing es → Increasing (events_of a es)
unfolding events_of
Increasing-events_of a [] h = tt
Increasing-events_of a (e ∷ es) h = elim (Bool-cases (str_eq e.node_address a)) [
  | inl q ↦ rw q (All-events_of (λ d. e.seq < d.seq) a es h.0, Increasing-events_of a es h.1)
  | inr q ↦ rw q (Increasing-events_of a es h.1)
]

pub Below-events_of : (s : ℕ) (a : String) (es : List Entry) → Below s es → Below s (events_of a es)
Below-events_of s a es h = All-events_of (λ d. d.seq < s) a es h

pub sort_by_seq-Increasing : (es : List Entry) → Increasing es → sort_by_seq es ≡ es
unfolding sort_by_seq insert_by_seq
sort_by_seq-Increasing [] h = refl
sort_by_seq-Increasing (e ∷ []) h = refl
sort_by_seq-Increasing (e ∷ d ∷ es) h =
    rw (sort_by_seq-Increasing (d ∷ es) h.1) (rw (le→leb e.seq d.seq (omega arith)) refl)

pub events_of-snoc_self :
    (a : String) (es : List Entry) (e : Entry)
    → e.node_address ≡ a
    → events_of a (es ++ (e ∷ [])) ≡ events_of a es ++ (e ∷ [])
unfolding events_of
events_of-snoc_self a [] e h = rw ((eq_iff _ _).1 h) refl
events_of-snoc_self a (d ∷ es) e h = elim (Bool-cases (str_eq d.node_address a)) [
  | inl q ↦ rw (q, events_of-snoc_self a es e h) refl
  | inr q ↦ rw (q, events_of-snoc_self a es e h) refl
]

pub events_of-snoc_ne :
    (a : String) (es : List Entry) (e : Entry)
    → str_eq e.node_address a ≡ false
    → events_of a (es ++ (e ∷ [])) ≡ events_of a es
unfolding events_of
events_of-snoc_ne a [] e h = rw h refl
events_of-snoc_ne a (d ∷ es) e h = rw (events_of-snoc_ne a es e h) refl

-- An event at or below the watermark is skipped.
pub apply_all-skips :
    (b : Binding) (m : ℕ) (es : List Entry)
    → watermark_of (Dict.get "last_applied_seq" b) ≡ ok m
    → Below (m + 1) es
    → apply_all b es ≡ ok b
unfolding apply_all apply_one
apply_all-skips b m [] h k = refl
apply_all-skips b m (e ∷ es) h k =
    rw h (rw (le→leb e.seq m (omega arith)) (apply_all-skips b m es h k.1))

pub apply_all-append :
    (b c : Binding) (xs ys : List Entry)
    → apply_all b xs ≡ ok c
    → apply_all b (xs ++ ys) ≡ apply_all c ys
unfolding apply_all
apply_all-append b c [] ys h = ap (λ x. apply_all x ys) (ok-inj b c h)
apply_all-append b c (e ∷ xs) ys h = elim (Result-cases (apply_one b e)) [
  | inl (d, q) ↦ rw q (apply_all-append d c xs ys (rw q at h))
  | inr (x, q) ↦ let raised : err x ≡ ok c = rw q at h in cc
]
