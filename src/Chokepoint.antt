-- ===== src/Chokepoint.antt =====
-- harnessd/spawn/chokepoint.py, the one path on which a node is spawned, resumed and collapsed:
-- the ancestors of a node and the pause of a subtree.
pub mod Kickoff
pub mod Ancestors
pub mod Pause
pub mod Collapse
pub mod Claim
pub mod Spawn
pub mod Children
use long_horizon_agentic_har.Prelude.{
  ℕ, zero, suc, String, str_eq, Bool, true, false, not, ◌||◌, Option, none, some, List, [], ◌∷◌,
  length, if◌then◌else◌,
}
use long_horizon_agentic_har.Value.{Value, null, str, is_null}
use long_horizon_agentic_har.Dict
use long_horizon_agentic_har.Validate.{or_null}
use long_horizon_agentic_har.Executor.{Binding, Bindings}

unfoldable pub mem : String → List String → Bool
mem a [] = false
mem a (b ∷ bs) = str_eq b a || mem a bs

abbrev pub parent_of : Binding → Value
parent_of binding = or_null (Dict.get "parent_address" binding)

abbrev pub on_found : (Binding → List Binding) → Option Binding → List Binding
on_found next none = []
on_found next (some binding) = next binding

-- The loop of `ancestors_inclusive`: it stops at no parent, a missing binding, or a cycle.
unfoldable pub walk : ℕ → List String → Value → Bindings → List Binding
walk zero seen addr bindings = []
walk (suc fuel) seen (str a) bindings =
    let next = λ (b : Binding). b ∷ walk fuel (a ∷ seen) (parent_of b) bindings in
    if str_eq a "" || mem a seen then [] else on_found next (Dict.get a bindings)
walk (suc fuel) seen addr bindings = []

-- Each round takes another binding.
unfoldable pub ancestors_inclusive : String → Bindings → List Binding
unfolding walk
ancestors_inclusive node_address bindings =
    walk (suc (length bindings)) [] (str node_address) bindings

unfoldable pub any_paused : List Binding → Bool
any_paused [] = false
any_paused (b ∷ bs) = not (is_null (or_null (Dict.get "paused_at" b))) || any_paused bs

unfoldable pub subtree_paused : String → Bindings → Bool
unfolding ancestors_inclusive any_paused
subtree_paused node_address bindings = any_paused (ancestors_inclusive node_address bindings)
