-- ===== src/Chokepoint/Claim/Seed.antt =====
-- The seed of a node that is registered again, against all that the ledgers have of it:
-- `reregister_identity_seed` of harnessd/spawn/chokepoint.py.
use long_horizon_agentic_har.Prelude.{
  ℕ, ◌≤◌, ◌<◌, String, str_eq, Bool, true, false, Option, none, some, List, [], ◌∷◌, ◌≡◌, refl,
  arith, All, ◌⊎◌, Bool-cases, inl, inr, ltb, if◌then◌else◌, subst,
}
use long_horizon_agentic_har.Result.{ok, ok-inj}
use long_horizon_agentic_har.Value.{Value, null, bool, num, str, json}
use long_horizon_agentic_har.Dict
use long_horizon_agentic_har.Validate.{or_null}
use long_horizon_agentic_har.Ledger.{Entry}
use long_horizon_agentic_har.Ledger.Journal.{Journal}
use long_horizon_agentic_har.Executor.{Binding, World}
use long_horizon_agentic_har.Chokepoint.Claim.{
  max_epoch_of, scan, prior_seed, seed_of, reregister_identity_seed,
}

-- An entry of the address is covered by the flag, the epoch and the seq.
pub record Covered (a : String) (acc : Bool × ℕ × ℕ) (e : Entry) : Type 0 where
  pub history : str_eq e.node_address a ≡ true → acc.0 ≡ true
  pub epoch : str_eq e.node_address a ≡ true → (n : ℕ) → e.lease_epoch ≡ num n → n ≤ acc.1
  pub seq : e.seq ≤ acc.2

-- One scan result is above another.
pub record Above (x y : Bool × ℕ × ℕ) : Type 0 where
  pub history : x.0 ≡ true → y.0 ≡ true
  pub epoch : x.1 ≤ y.1
  pub seq : x.2 ≤ y.2

Covered-mono :
    (a : String) (x y : Bool × ℕ × ℕ) (e : Entry) → Above x y → Covered a x e → Covered a y e
Covered-mono a x y e up c = record {
  history = λ h. up.history (c.history h);
  epoch = λ h n q. let le = c.epoch h n q in let le' = up.epoch in omega arith;
  seq = let le = c.seq in let le' = up.seq in omega arith;
}

Above-trans : (x y z : Bool × ℕ × ℕ) → Above x y → Above y z → Above x z
Above-trans x y z p q = record {
  history = λ h. q.history (p.history h);
  epoch = let a = p.epoch in let b = q.epoch in omega arith;
  seq = let a = p.seq in let b = q.seq in omega arith;
}

max_epoch_of-le : (acc : ℕ) (v : Value) → acc ≤ max_epoch_of acc v
max_epoch_of-le acc null = omega arith
max_epoch_of-le acc (bool b) = omega arith
max_epoch_of-le acc (num n) = ground arith
max_epoch_of-le acc (str s) = omega arith
max_epoch_of-le acc (json s) = omega arith

max_epoch_of-num : (acc n : ℕ) (v : Value) → v ≡ num n → n ≤ max_epoch_of acc v
max_epoch_of-num acc n v h = rw h (ground arith)

abbrev step : String → Bool × ℕ × ℕ → Entry → Bool × ℕ × ℕ
step a (h, m, s) e = (
  if str_eq e.node_address a then true else h,
  if str_eq e.node_address a then max_epoch_of m e.lease_epoch else m,
  if ltb s e.seq then e.seq else s,
)

step-Above : (a : String) (acc : Bool × ℕ × ℕ) (e : Entry) → Above acc (step a acc e)
step-Above a (h, m, s) e = elim (Bool-cases (str_eq e.node_address a)) [
  | inl q ↦ record {
    history = λ p. rw q refl;
    epoch = rw q (max_epoch_of-le m e.lease_epoch);
    seq = ground arith;
  }
  | inr q ↦ record { history = λ p. rw q p; epoch = rw q (omega arith); seq = ground arith }
]

step-Covered : (a : String) (acc : Bool × ℕ × ℕ) (e : Entry) → Covered a (step a acc e) e
step-Covered a (h, m, s) e = record {
  history = λ q. rw q refl;
  epoch = λ q n p. rw q (max_epoch_of-num m n e.lease_epoch p);
  seq = ground arith;
}

scan-Above : (a : String) (acc : Bool × ℕ × ℕ) (es : List Entry) → Above acc (scan a acc es)
unfolding scan
scan-Above a acc [] = record { history = λ h. h; epoch = omega arith; seq = omega arith }
scan-Above a (h, m, s) (e ∷ es) =
    Above-trans (h, m, s) (step a (h, m, s) e) _ (step-Above a (h, m, s) e)
      (scan-Above a (step a (h, m, s) e) es)

scan-Covered :
    (a : String) (acc : Bool × ℕ × ℕ) (es : List Entry) → All (Covered a (scan a acc es)) es
unfolding scan
scan-Covered a acc [] = tt
scan-Covered a (h, m, s) (e ∷ es) = (
  Covered-mono a (step a (h, m, s) e) _ e (scan-Above a (step a (h, m, s) e) es)
      (step-Covered a (h, m, s) e),
  scan-Covered a (step a (h, m, s) e) es,
)

-- A lease epoch, where there is one, is less than this.
abbrev pub IsBelow : ℕ → Value → Type 0
IsBelow epoch (num n) = n < epoch
IsBelow epoch v = Unit

-- An entry of another address, or one with a lesser epoch than the seed and no greater seq.
abbrev pub Superseded : String → ℕ × ℕ → Entry → Type 0
Superseded a seed e =
    (str_eq e.node_address a ≡ false) ⊎ ((e.seq ≤ seed.1) × IsBelow seed.0 e.lease_epoch)

abbrev pub IsOutlived : ℕ × ℕ → Option Binding → Type 0
IsOutlived seed none = Unit
IsOutlived seed (some prior) = IsBelow seed.0 (or_null (Dict.get "lease_epoch" prior))

IsBelow-of : (m : ℕ) (v : Value) → ((n : ℕ) → v ≡ num n → n < m) → IsBelow m v
IsBelow-of m null h = tt
IsBelow-of m (bool b) h = tt
IsBelow-of m (num n) h = h n refl
IsBelow-of m (str s) h = tt
IsBelow-of m (json s) h = tt

seed_above : (h : Bool) (m s n : ℕ) → h ≡ true → n ≤ m → n < (seed_of (h, m, s)).0
seed_above true m s n h le = omega arith
seed_above false m s n h le = cc

seed-Superseded :
    (a : String) (acc : Bool × ℕ × ℕ) (e : Entry) → Covered a acc e → Superseded a (seed_of acc) e
seed-Superseded a (h, m, s) e c = elim (Bool-cases (str_eq e.node_address a)) [
  | inr q ↦ inl q
  | inl q ↦
      let known : h ≡ true = c.history q in
      let le = c.seq in
      inr (
        rw known le,
        IsBelow-of (seed_of (h, m, s)).0 e.lease_epoch
            (λ n p. seed_above h m s n known (c.epoch q n p)),
      )
]

All-Superseded :
    (a : String) (acc : Bool × ℕ × ℕ) (es : List Entry)
    → All (Covered a acc) es
    → All (Superseded a (seed_of acc)) es
All-Superseded a acc [] h = tt
All-Superseded a acc (e ∷ es) h = (seed-Superseded a acc e h.0, All-Superseded a acc es h.1)

seed-IsOutlived :
    (o : Option Binding) (acc : Bool × ℕ × ℕ)
    → Above (prior_seed o) acc
    → IsOutlived (seed_of acc) o
seed-IsOutlived none acc up = tt
seed-IsOutlived (some prior) (h, m, s) up =
    IsBelow-of _ (or_null (Dict.get "lease_epoch" prior)) (λ n p.
      let le = max_epoch_of-num 0 n (or_null (Dict.get "lease_epoch" prior)) p in
      let le' = up.epoch in seed_above h m s n (up.history refl) (omega (arith, le, le')))

module _ (j : Journal) where
  -- However the node ended before, the lease epoch that it is registered again with is greater than
  -- that of its old binding and than each that the run-ledger has of it, and the watermark is at or
  -- above each of its rows, so that a replay skips them.
  pub reregister_identity_seed-Superseded :
      (a : String) (w : World j) (es : List Entry) (seed : ℕ × ℕ)
      → j.Stands w.wal es
      → reregister_identity_seed j a w ≡ ok seed
      → All (Superseded a seed) es × IsOutlived seed (Dict.get a w.bindings)
  unfolding reregister_identity_seed
  reregister_identity_seed-Superseded a w es seed stands h =
      let acc = scan a (prior_seed (Dict.get a w.bindings)) es in
      let eq : seed_of acc ≡ seed = ok-inj _ _ (rw (j.load-Stands w.wal es stands) at h) in
      (
        subst (λ x. All (Superseded a x) es) eq (All-Superseded a acc es (scan-Covered a _ es)),
        subst (λ x. IsOutlived x (Dict.get a w.bindings)) eq
            (seed-IsOutlived (Dict.get a w.bindings) acc
              (scan-Above a (prior_seed (Dict.get a w.bindings)) es)),
      )
