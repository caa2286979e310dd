-- ===== src/Reconcile/Recovery.antt =====
-- The replay after a crash between the two writes of a commit.
use long_horizon_agentic_har.Prelude.{
  ℕ, String, str_eq, eq_iff, true, not, ◌&&◌, Option, none, some, ◌≡◌, refl, sym, ◌∙◌, subst,
  Bool-cases, inl, inr, if◌then◌else◌,
}
use long_horizon_agentic_har.Value.{Value, null, num, str, is_null}
use long_horizon_agentic_har.Dict
use long_horizon_agentic_har.Dict.{get-set, get-update}
use long_horizon_agentic_har.Validate.{or_null}
use long_horizon_agentic_har.Ledger.{build_wal_record}
use long_horizon_agentic_har.Ledger.Journal.{Journal}
use long_horizon_agentic_har.Executor.{Binding, World}
use long_horizon_agentic_har.Executor.Transition.{Request, build_candidate, transition_row}
use long_horizon_agentic_har.Executor.Transition.Candidate.{get-build_candidate}
use long_horizon_agentic_har.Executor.Transition.Outcome.{stamped, entry_of}
use long_horizon_agentic_har.Reconcile.{apply_delta}

get-lease :
    (v : Value) (b : Binding) (k : String)
    → Dict.get k (if is_null v then b else Dict.set "lease_epoch" v b)
      ≡ (if str_eq "lease_epoch" k && not (is_null v) then some v else Dict.get k b)
get-lease null b k = elim (Bool-cases (str_eq "lease_epoch" k)) [
  | inl e ↦ rw e refl
  | inr e ↦ rw e refl
]
get-lease v b k = elim (Bool-cases (str_eq "lease_epoch" k)) [
  | inl e ↦ rw (get-set, e) refl
  | inr e ↦ rw (get-set, e) refl
]

lease_image :
    (v : Value) (o : Option Value)
    → (let x : Option Value = if not (is_null v) then some v else o in
        if not (is_null (or_null x)) then some (or_null x) else o)
      ≡ (if not (is_null v) then some v else o)
lease_image null none = refl
lease_image null (some null) = refl
lease_image null (some v) = refl
lease_image v o = refl

module _ (j : Journal) (r : Request) (w : World j) (live : Binding) (next : Value) (seq : ℕ) where
  abbrev pub cand : Binding
  cand = build_candidate r live next

  abbrev pub image : Binding
  image = apply_delta live (entry_of j r w live next seq)

  get-image :
      (k : String)
      → Dict.get k image ≡ (
          if str_eq "last_applied_seq" k
          then some (num seq)
          else if str_eq "lease_epoch" k && not (is_null (or_null (Dict.get "lease_epoch" cand)))
          then some (or_null (Dict.get "lease_epoch" cand))
          else if str_eq "owner_token" k
          then some (or_null (Dict.get "owner_token" cand))
          else if str_eq "generation" k
          then some next
          else if str_eq "state" k
          then some (str r.target_state)
          else if str_eq "node_address" k
          then some (str r.node_address)
          else Dict.or_else (Dict.get k r.binding_delta) (Dict.get k live))
  unfolding apply_delta build_wal_record transition_row
  get-image k = simp (get-set, get-lease, get-update)

  owner_image : (o : Option Value) → Dict.is_some o ≡ true → some (or_null o) ≡ o
  owner_image none h = cc
  owner_image (some v) h = refl

  -- The replayed image and the committed binding agree at every key.
  pub image-stamped :
      (k : String)
      → Dict.has "owner_token" cand ≡ true
      → Dict.get k image ≡ Dict.get k (stamped r live next seq)
  image-stamped k h =
      let base =
        Dict.or_else (Dict.get "lease_epoch" r.binding_delta) (Dict.get "lease_epoch" live) in
      elim (Bool-cases (str_eq "last_applied_seq" k)) [
        | inl e ↦ rw (get-image k, get-set, e) refl
        | inr e0 ↦ elim (Bool-cases (str_eq "owner_token" k)) [
          | inl e ↦
              subst (λ x. Dict.get x image ≡ Dict.get x (stamped r live next seq))
                ((eq_iff _ k).0 e)
                (get-image "owner_token"
                  ∙ (owner_image (Dict.get "owner_token" cand) h
                      ∙ sym (get-set "last_applied_seq" "owner_token" (num seq) cand)))
          | inr e1 ↦ elim (Bool-cases (str_eq "lease_epoch" k)) [
            | inl e ↦
                subst (λ x. Dict.get x image ≡ Dict.get x (stamped r live next seq))
                  ((eq_iff _ k).0 e)
                  (get-image "lease_epoch"
                    ∙ (subst
                          (λ (x : Option Value).
                            (if not (is_null (or_null x)) then some (or_null x) else base) ≡ x)
                          (sym (get-build_candidate r live next "lease_epoch"))
                          (lease_image r.new_lease_epoch base)
                        ∙ sym (get-set "last_applied_seq" "lease_epoch" (num seq) cand)))
            | inr e2 ↦ rw (get-image k, get-set, get-build_candidate r live next k, e0, e1, e2) refl
          ]
        ]
      ]
