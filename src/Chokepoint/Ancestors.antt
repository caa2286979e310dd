-- ===== src/Chokepoint/Ancestors.antt =====
-- The walk of `ancestors_inclusive` in harnessd/spawn/chokepoint.py against the chain of parents.
use long_horizon_agentic_har.Prelude.{
  ℕ, zero, suc, ◌≤◌, ◌<◌, String, str_eq, eq_iff, eq_refl, true, false, ◌||◌, none, some, List, [],
  ◌∷◌, length, ◌≡◌, refl, sym, ◌∙◌, ap, arith, inl, inr, Bool-cases, Option-cases, if◌then◌else◌,
}
use long_horizon_agentic_har.Value.{Value, null, bool, num, str, json}
use long_horizon_agentic_har.Dict
use long_horizon_agentic_har.Executor.{Binding, Bindings}
use long_horizon_agentic_har.Chokepoint.{mem, parent_of, walk, ancestors_inclusive}

-- The addresses of the binding map that the walk has not seen.
pub unseen : List String → Bindings → ℕ
unseen seen [] = 0
unseen seen ((a, b) ∷ bindings) =
    if mem a seen then unseen seen bindings else suc (unseen seen bindings)

pub unseen_nil : (bindings : Bindings) → unseen [] bindings ≡ length bindings
unfolding unseen mem
unseen_nil [] = refl
unseen_nil ((a, b) ∷ bindings) = ap suc (unseen_nil bindings)

unseen_le :
    (x : String) (seen : List String) (bindings : Bindings)
    → unseen (x ∷ seen) bindings ≤ unseen seen bindings
unfolding unseen mem
unseen_le x seen [] = omega arith
unseen_le x seen ((a, b) ∷ bindings) = let le = unseen_le x seen bindings in ground arith

pub unseen_lt :
    (a : String) (b : Binding) (seen : List String) (bindings : Bindings)
    → Dict.get a bindings ≡ some b
    → mem a seen ≡ false
    → unseen (a ∷ seen) bindings < unseen seen bindings
unfolding unseen mem Dict.get
unseen_lt a b seen [] h m = cc
unseen_lt a b seen ((k, v) ∷ bindings) h m = elim (Bool-cases (str_eq k a)) [
  | inl e ↦
      let same_key : k ≡ a = (eq_iff k a).0 e in
      let le = unseen_le a seen bindings in rw same_key (rw (eq_refl a) (rw m (omega (arith, le))))
  | inr e ↦
      let lt = unseen_lt a b seen bindings (rw e at h) m in ground (arith, eq_iff a k, eq_iff k a)
]

-- The walk from a found and new address goes on to the parent; from any other it stops.
pub walk_on :
    (fuel : ℕ) (seen : List String) (a : String) (b : Binding) (bindings : Bindings)
    → Dict.get a bindings ≡ some b
    → (str_eq a "" || mem a seen) ≡ false
    → walk (suc fuel) seen (str a) bindings ≡ b ∷ walk fuel (a ∷ seen) (parent_of b) bindings
unfolding walk
walk_on fuel seen a b bindings h m = rw m (rw h refl)

pub walk_absent :
    (fuel : ℕ) (seen : List String) (a : String) (bindings : Bindings)
    → Dict.get a bindings ≡ none
    → walk (suc fuel) seen (str a) bindings ≡ []
unfolding walk
walk_absent fuel seen a bindings h = rw h (ground arith)

pub walk_stop :
    (fuel : ℕ) (seen : List String) (a : String) (bindings : Bindings)
    → (str_eq a "" || mem a seen) ≡ true
    → walk (suc fuel) seen (str a) bindings ≡ []
unfolding walk
walk_stop fuel seen a bindings m = rw m refl

pub not_seen :
    (a : String) (seen : List String) → (str_eq a "" || mem a seen) ≡ false → mem a seen ≡ false
not_seen a seen h = ground arith

-- Where the fuel exceeds the addresses not seen, it does not matter how much of it there is.
walk_enough :
    (f g : ℕ) (seen : List String) (addr : Value) (bindings : Bindings)
    → unseen seen bindings < f
    → unseen seen bindings < g
    → walk f seen addr bindings ≡ walk g seen addr bindings
unfolding walk
walk_enough (suc f) (suc g) seen (str a) bindings lf lg =
    elim (Bool-cases (str_eq a "" || mem a seen)) [
      | inl m ↦ walk_stop f seen a bindings m ∙ sym (walk_stop g seen a bindings m)
      | inr m ↦ elim (Option-cases (Dict.get a bindings)) [
        | inl h ↦ walk_absent f seen a bindings h ∙ sym (walk_absent g seen a bindings h)
        | inr (b, h) ↦
            let lt = unseen_lt a b seen bindings h (not_seen a seen m) in
            walk_on f seen a b bindings h m
            ∙ (ap (λ x. b ∷ x)
                  (walk_enough f g (a ∷ seen) (parent_of b) bindings (omega (arith, lt, lf))
                    (omega (arith, lt, lg)))
                ∙ sym (walk_on g seen a b bindings h m))
      ]
    ]
walk_enough (suc f) (suc g) seen null bindings lf lg = refl
walk_enough (suc f) (suc g) seen (bool b) bindings lf lg = refl
walk_enough (suc f) (suc g) seen (num n) bindings lf lg = refl
walk_enough (suc f) (suc g) seen (json x) bindings lf lg = refl
walk_enough zero g seen addr bindings lf lg = ground (arith, lf)
walk_enough (suc f) zero seen addr bindings lf lg = ground (arith, lg)

-- The loop ends: with any fuel that exceeds the number of bindings it yields the same ancestors,
-- even where the parents run in a circle.
pub ancestors_inclusive_enough :
    (a : String) (bindings : Bindings) (fuel : ℕ)
    → length bindings < fuel
    → walk fuel [] (str a) bindings ≡ ancestors_inclusive a bindings
unfolding ancestors_inclusive
ancestors_inclusive_enough a bindings fuel h =
    walk_enough fuel (suc (length bindings)) [] (str a) bindings
      (omega (arith, unseen_nil bindings, h)) (omega (arith, unseen_nil bindings))
