-- ===== src/Reconcile/Idempotence.antt =====
-- Replaying a run-ledger twice: the second pass of harnessd/reconcile.py changes nothing.
use long_horizon_agentic_har.Prelude.{
  ℕ, ◌≤◌, ◌<◌, String, Option, none, some, List, [], ◌∷◌, ◌≡◌, ◌⊎◌, inl, inr, refl, sym, ◌∙◌, ap,
  subst, arith, All, Option-cases, Bool-cases, leb, le→leb,
}
use long_horizon_agentic_har.Result.{ok, >>=-eq-ok, ok-inj}
use long_horizon_agentic_har.Value.{num, same}
use long_horizon_agentic_har.Dict
use long_horizon_agentic_har.Dict.{get-set_self}
use long_horizon_agentic_har.Validate.{or_null}
use long_horizon_agentic_har.Ledger.{Entry}
use long_horizon_agentic_har.Executor.{Binding, Bindings}
use long_horizon_agentic_har.Reconcile.{
  watermark_of, apply_delta, apply_above, apply_one, apply_all, events_of, first_transition,
  rebuild, replay_base, replay_node,
}
use long_horizon_agentic_har.Reconcile.Replay.{
  Increasing, Increasing-events_of, sort_by_seq-Increasing,
}

abbrev HasMark : ℕ → Binding → Type 0
HasMark n b = (m : ℕ) × (watermark_of (Dict.get "last_applied_seq" b) ≡ ok m) × (n ≤ m)

apply_delta-HasMark : (b : Binding) (e : Entry) → HasMark e.seq (apply_delta b e)
unfolding apply_delta
apply_delta-HasMark b e =
    (e.seq, ap watermark_of (get-set_self "last_applied_seq" (num e.seq) _), omega arith)

-- One event leaves the binding as it is, or has its seq as the new watermark.
apply_above-outcome :
    (b : Binding) (e : Entry) (m : ℕ) → (apply_above b e m ≡ b) ⊎ HasMark e.seq (apply_above b e m)
apply_above-outcome b e m = elim (Bool-cases (leb e.seq m)) [
  | inl p ↦ inl (rw p refl)
  | inr p ↦ elim (Bool-cases (same (or_null (Dict.get "generation" b)) e.generation)) [
    | inl q ↦ inl (rw (p, q) refl)
    | inr q ↦ elim (Bool-cases (same (or_null (Dict.get "generation" b)) e.expected_generation)) [
      | inl r ↦ inr (rw (p, q, r) (apply_delta-HasMark b e))
      | inr r ↦ inl (rw (p, q, r) refl)
    ]
  ]
]

apply_one-outcome : (b c : Binding) (e : Entry) → apply_one b e ≡ ok c → (c ≡ b) ⊎ HasMark e.seq c
unfolding apply_one
apply_one-outcome b c e h =
    let (m, em, k) = >>=-eq-ok (watermark_of (Dict.get "last_applied_seq" b)) _ h in
    let q = ok-inj (apply_above b e m) c k in
    subst (λ x. (x ≡ b) ⊎ HasMark e.seq x) q (apply_above-outcome b e m)

apply_one-skips : (b : Binding) (e : Entry) → HasMark e.seq b → apply_one b e ≡ ok b
unfolding apply_one
apply_one-skips b e (m, em, le) = rw em (rw (le→leb e.seq m le) refl)

HasMark-mono : (n m : ℕ) (b : Binding) → n ≤ m → HasMark m b → HasMark n b
HasMark-mono n m b le (k, e, l) = (k, e, omega arith)

apply_all-outcome :
    (b c : Binding) (es : List Entry) (n : ℕ)
    → All (λ d. n < d.seq) es
    → apply_all b es ≡ ok c
    → (c ≡ b) ⊎ HasMark n c
unfolding apply_all
apply_all-outcome b c [] n above h = inl (sym (ok-inj b c h))
apply_all-outcome b c (e ∷ es) n above h =
    let (d, ed, k) = >>=-eq-ok (apply_one b e) _ h in
    elim (apply_all-outcome d c es n above.1 k) [
      | inr mark ↦ inr mark
      | inl same_binding ↦ elim (apply_one-outcome b d e ed) [
        | inl q ↦ inl (same_binding ∙ q)
        | inr mark ↦ inr (
            subst (HasMark n) (sym same_binding)
              (HasMark-mono n e.seq d (omega (arith, above)) mark))
      ]
    ]

-- The events of a node in the ascending order of their seqs, replayed over the binding that their
-- replay gives, whatever binding it started from, leave it as it is.
pub apply_all-idempotent :
    (b c : Binding) (es : List Entry)
    → Increasing es
    → apply_all b es ≡ ok c
    → apply_all c es ≡ ok c
unfolding apply_all
apply_all-idempotent b c [] inc h = refl
apply_all-idempotent b c (e ∷ es) inc h =
    let (d, ed, k) = >>=-eq-ok (apply_one b e) _ h in
    let rest = apply_all-idempotent d c es inc.1 k in
    let skipped : apply_one c e ≡ ok c = elim (apply_all-outcome d c es e.seq inc.0 k) [
      | inr mark ↦ apply_one-skips c e mark
      | inl q ↦ elim (apply_one-outcome b d e ed) [
        | inl p ↦ subst (λ x. apply_one x e ≡ ok x) (sym (q ∙ p)) (ed ∙ ap ok p)
        | inr mark ↦ apply_one-skips c e (subst (HasMark e.seq) (sym q) mark)
      ]
    ] in
    rw skipped rest

replay_from-idempotent :
    (a : String) (es : List Entry) (b c : Binding)
    → Increasing es
    → replay_base a es (some b) ≡ ok (some c)
    → apply_all c es ≡ ok c
replay_from-idempotent a es b c inc h =
    let (d, ed, k) = >>=-eq-ok (apply_all b es) _ h in
    let same_result : some d ≡ some c = ok-inj (some d) (some c) k in
    let q : d ≡ c = cc in apply_all-idempotent b c es inc (ed ∙ ap ok q)

replay_base-idempotent :
    (a : String) (es : List Entry) (o : Option Binding) (c : Binding)
    → Increasing es
    → replay_base a es o ≡ ok (some c)
    → apply_all c es ≡ ok c
replay_base-idempotent a es (some b) c inc h = replay_from-idempotent a es b c inc h
replay_base-idempotent a es none c inc h = elim (Option-cases (first_transition es)) [
  | inl n ↦ let nothing : ok none ≡ ok (some c) = rw n at h in cc
  | inr (e, f) ↦
      let h' : replay_base a es (some (rebuild a e)) ≡ ok (some c) = rw f at h in
      replay_from-idempotent a es (rebuild a e) c inc h'
]

-- On a run-ledger whose seqs ascend, a second replay of a node, over the binding that the first
-- one gave, gives that binding again, also where the first one had to rebuild it.
pub replay_node-idempotent :
    (a : String) (bindings : Bindings) (es : List Entry) (c : Binding)
    → Increasing es
    → replay_node a bindings es ≡ ok (some c)
    → replay_node a (Dict.set a c bindings) es ≡ ok (some c)
unfolding replay_node
replay_node-idempotent a bindings es c inc h =
    let inc' = Increasing-events_of a es inc in
    let sorted = sort_by_seq-Increasing (events_of a es) inc' in
    let done =
      replay_base-idempotent a (events_of a es) (Dict.get a bindings) c inc' (rw sorted at h) in
    rw (sorted, get-set_self a c bindings, done) refl
