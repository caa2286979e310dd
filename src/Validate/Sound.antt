-- ===== src/Validate/Sound.antt =====
-- What a report without errors of harnessd/validate.py says of the candidate.
use long_horizon_agentic_har.Prelude.{
  ◌+◌, Bool, true, false, not, Option, none, some, List, [], ◌∷◌, ◌++◌, ◌≡◌, ◌⊎◌, inl, inr, refl,
  ◌∙◌, ap, subst, arith, Bool-cases, if◌then◌else◌,
}
use long_horizon_agentic_har.Result.{ok, >>=-eq-ok, ok-inj}
use long_horizon_agentic_har.Value.{Value, null, num, same, plus_one, same-eq}
use long_horizon_agentic_har.Dict
use long_horizon_agentic_har.Dict.{Dict}
use long_horizon_agentic_har.States.{is_legal_value}
use long_horizon_agentic_har.Ledger.{Entry}
use long_horizon_agentic_har.Validate.{
  Defect, Notice, Report, illegal_no_op, illegal_transition, escalated_slot_hold, check_present,
  wrong_generation, required_binding_fields, missing_fields, is_slot_hold, check_edge,
  check_generation, last_entry, check_entry, validate,
}

last_entry-snoc : (es : List Entry) (e : Entry) → last_entry (es ++ (e ∷ [])) ≡ some e
last_entry-snoc [] e = refl
last_entry-snoc (d ∷ []) e = refl
last_entry-snoc (d ∷ c ∷ es) e = last_entry-snoc (c ∷ es) e

append-nil_parts : (xs ys : List Defect) → xs ++ ys ≡ [] → (xs ≡ []) × (ys ≡ [])
append-nil_parts [] ys h = (refl, h)
append-nil_parts (x ∷ xs) ys h = cc

no_missing :
    (c : Dict Value)
    → missing_fields c required_binding_fields ≡ []
    → (Dict.has "node_address" c ≡ true)
      × (Dict.has "state" c ≡ true)
      × (Dict.has "generation" c ≡ true)
      × (Dict.has "owner_token" c ≡ true)
unfolding missing_fields
no_missing c h = ground arith

slot_of :
    (t : Bool)
    → (let rep : Report = if t then ([], escalated_slot_hold ∷ []) else (illegal_no_op ∷ [], []) in
        rep).0
      ≡ []
    → t ≡ true
slot_of true h = refl
slot_of false h = cc

legal_of :
    (t : Bool)
    → (let rep : Report = if not t then (illegal_transition ∷ [], []) else ([], []) in rep).0 ≡ []
    → t ≡ true
legal_of true h = refl
legal_of false h = cc

sound_edge :
    (c : Dict Value) (e : Entry)
    → (check_edge c e).0 ≡ []
    → (is_legal_value e.from_state e.to_state ≡ true)
      ⊎ ((e.from_state ≡ e.to_state) × (is_slot_hold c e ≡ true))
unfolding check_edge
sound_edge c e h = elim (Bool-cases (same e.from_state e.to_state)) [
  | inl q ↦ inr (same-eq _ _ q, slot_of (is_slot_hold c e) (rw q at h))
  | inr q ↦ inl (legal_of (is_legal_value e.from_state e.to_state) (rw q at h))
]

-- The parts of a report without errors.
pub record Admissible (c : Dict Value) (e : Entry) : Type 0 where
  pub has_address : Dict.has "node_address" c ≡ true
  pub has_state : Dict.has "state" c ≡ true
  pub has_generation : Dict.has "generation" c ≡ true
  pub has_owner : Dict.has "owner_token" c ≡ true
  pub edge :
      (is_legal_value e.from_state e.to_state ≡ true)
      ⊎ ((e.from_state ≡ e.to_state) × (is_slot_hold c e ≡ true))
  pub generation :
      (e.expected_generation ≡ null)
      ⊎ ((g : Value) × (plus_one e.expected_generation ≡ ok g) × (Dict.get "generation" c ≡ some g))

sound_present :
    (o : Option Value) (x : Value)
    → Dict.is_some o ≡ true
    → check_present o x ≡ ok []
    → (x ≡ null) ⊎ ((g : Value) × (plus_one x ≡ ok g) × (o ≡ some g))
sound_present none x p h = cc
sound_present (some v) null p h = inl refl
sound_present (some v) (num n) p h = elim (Bool-cases (same v (num (n + 1)))) [
  | inl q ↦ inr (num (n + 1), refl, ap some (same-eq v (num (n + 1)) q))
  | inr q ↦ let wrong : ok (wrong_generation ∷ []) ≡ ok [] = rw q at h in cc
]
sound_present (some v) x p h = cc

sound_generation :
    (c : Dict Value) (e : Entry)
    → Dict.has "generation" c ≡ true
    → check_generation c e ≡ ok []
    → (e.expected_generation ≡ null)
      ⊎ ((g : Value) × (plus_one e.expected_generation ≡ ok g) × (Dict.get "generation" c ≡ some g))
unfolding check_generation
sound_generation c e p h = sound_present (Dict.get "generation" c) e.expected_generation p h

-- A candidate that passes the check against the row that is about to be appended has the four
-- required fields, its edge is legal or is the slot hold of an escalated node that stays running,
-- and its generation is the expected one plus one where the row has one.
pub validate-Admissible :
    (c : Dict Value) (es : List Entry) (e : Entry) (ws : List Notice)
    → validate c (es ++ (e ∷ [])) ≡ ok ([], ws)
    → Admissible c e
unfolding validate
validate-Admissible c es e ws h =
    let (wrong, ew, k) =
      >>=-eq-ok (check_generation c e) _
        (subst (λ o. check_entry c o ≡ ok ([], ws)) (last_entry-snoc es e) h) in
    let (m, rest) =
      append-nil_parts (missing_fields c required_binding_fields) _
        (ap (λ (x : Report). x.0) (ok-inj _ _ k)) in
    let (em, nw) = append-nil_parts (check_edge c e).0 wrong rest in
    let (h1, h2, h3, h4) = no_missing c m in
    record {
      has_address = h1;
      has_state = h2;
      has_generation = h3;
      has_owner = h4;
      edge = sound_edge c e em;
      generation = sound_generation c e h3 (ew ∙ ap ok nw);
    }
