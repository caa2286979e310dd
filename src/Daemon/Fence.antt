-- ===== src/Daemon/Fence.antt =====
-- What `_send_fence_open` of harnessd/daemon.py lets pass.
use long_horizon_agentic_har.Prelude.{
  String, true, false, Option, none, some, ◌≡◌, sym, ap, subst, inl, inr, Bool-cases,
}
use long_horizon_agentic_har.Result.{Result, ok, ok-inj, >>=-eq-ok}
use long_horizon_agentic_har.Dict
use long_horizon_agentic_har.Dict.{get-set_ne}
use long_horizon_agentic_har.States.{is_terminal_value}
use long_horizon_agentic_har.Validate.{or_null}
use long_horizon_agentic_har.Ledger.Journal.{Journal}
use long_horizon_agentic_har.Executor.{Binding, World, TransitionResult}
use long_horizon_agentic_har.Runtime.{Tree, on_world, set_world}
use long_horizon_agentic_har.Daemon.{agrees, fence_live, send_fence_open}

-- The live binding is in use, and still the one that the snapshot was taken of.
pub record Fenced (a : String) (snapshot live : Binding) {j : Journal} (t : Tree j) : Type 0 where
  pub found : Dict.get a t.world.bindings ≡ some live
  pub in_use : is_terminal_value (or_null (Dict.get "state" live)) ≡ false
  pub same_token : agrees "owner_token" live snapshot ≡ true
  pub same_epoch : agrees "lease_epoch" live snapshot ≡ true
  pub same_session : agrees "session_uuid" live snapshot ≡ true

fence_live-Fenced :
    (snapshot : Binding) (o : Option Binding) (live : Binding)
    → fence_live snapshot o ≡ some live
    → (o ≡ some live)
      × (is_terminal_value (or_null (Dict.get "state" live)) ≡ false)
      × (agrees "owner_token" live snapshot ≡ true)
      × (agrees "lease_epoch" live snapshot ≡ true)
      × (agrees "session_uuid" live snapshot ≡ true)
fence_live-Fenced snapshot none live h = absurd (cc h)
fence_live-Fenced snapshot (some b) live h =
    elim (Bool-cases (is_terminal_value (or_null (Dict.get "state" b)))) [
      | inl q ↦ absurd (impossible (rw q at h))
      | inr q ↦ elim (Bool-cases (agrees "owner_token" b snapshot)) [
        | inr k ↦ absurd (impossible (rw (q, k) at h))
        | inl k ↦ elim (Bool-cases (agrees "lease_epoch" b snapshot)) [
          | inr l ↦ absurd (impossible (rw (q, k, l) at h))
          | inl l ↦ elim (Bool-cases (agrees "session_uuid" b snapshot)) [
            | inr m ↦ absurd (impossible (rw (q, k, l, m) at h))
            | inl m ↦
                let found : some b ≡ some live = rw (q, k, l, m) at h in
                let it : b ≡ live = cc in
                (
                  found,
                  subst (λ x. is_terminal_value (or_null (Dict.get "state" x)) ≡ false) it q,
                  subst (λ x. agrees "owner_token" x snapshot ≡ true) it k,
                  subst (λ x. agrees "lease_epoch" x snapshot ≡ true) it l,
                  subst (λ x. agrees "session_uuid" x snapshot ≡ true) it m,
                )
          ]
        ]
      ]
    ]
  where
    impossible : ◌≡◌ {A = Option Binding} none (some live) → ⊥
    impossible e = cc

module _ {j : Journal} where
  pub send_fence_open-Fenced :
      (a : String) (snapshot live : Binding) (t : Tree j)
      → send_fence_open a snapshot t.world.bindings ≡ some live
      → Fenced a snapshot live t
  unfolding send_fence_open
  send_fence_open-Fenced a snapshot live t h =
      let (found, in_use, token, epoch, session) =
        fence_live-Fenced snapshot (Dict.get a t.world.bindings) live h in
      record {
        found = found;
        in_use = in_use;
        same_token = token;
        same_epoch = epoch;
        same_session = session;
      }

  pub on_world-commands :
      (step : World j → Result (TransitionResult × World j)) (t : Tree j) (x : TransitionResult)
      (t' : Tree j)
      → on_world step t ≡ ok (x, t')
      → t'.commands ≡ t.commands
  on_world-commands step t x t' h =
      let (p, _, k) =
        >>=-eq-ok (step t.world) (λ (p : TransitionResult × World j). ok (p.0, set_world p.1 t))
          h in
      sym (ap (λ (q : TransitionResult × Tree j). q.1.commands) (ok-inj _ _ k))
