-- ===== src/Chokepoint/Pause.antt =====
-- The pause of a subtree against the chain of parents: `subtree_paused` of harnessd/spawn/chokepoint.py.
use long_horizon_agentic_har.Prelude.{
  ℕ, zero, suc, ◌<◌, String, str_eq, eq_iff, true, false, not, ◌||◌, some, List, [], ◌∷◌, length,
  ◌≡◌, refl, sym, ◌∙◌, ap, subst, arith, ◌⊎◌, inl, inr, ◌↔◌, Bool-cases, Option-cases,
}
use long_horizon_agentic_har.Value.{Value, null, bool, num, str, json, is_null}
use long_horizon_agentic_har.Dict
use long_horizon_agentic_har.Validate.{or_null}
use long_horizon_agentic_har.Executor.{Binding, Bindings}
use long_horizon_agentic_har.Chokepoint.{
  mem, parent_of, walk, ancestors_inclusive, any_paused, subtree_paused,
}
use long_horizon_agentic_har.Chokepoint.Ancestors.{
  unseen, unseen_nil, unseen_lt, walk_on, walk_absent, walk_stop, not_seen,
}

-- `c` is the binding of the address or of one that its chain of parents leads to.
pub data Ancestor (bindings : Bindings) : String → Binding → Type 0 where
  itself :
      {a : String} {c : Binding}
      → str_eq a "" ≡ false
      → Dict.get a bindings ≡ some c
      → Ancestor bindings a c
  above :
      {a p : String} {b c : Binding}
      → str_eq a "" ≡ false
      → Dict.get a bindings ≡ some b
      → parent_of b ≡ str p
      → Ancestor bindings p c
      → Ancestor bindings a c

abbrev Among : Binding → List Binding → Type 0
Among c [] = ⊥
Among c (b ∷ bs) = (b ≡ c) ⊎ Among c bs

named :
    (a : String) (seen : List String) → (str_eq a "" || mem a seen) ≡ false → str_eq a "" ≡ false
named a seen h = ground arith

no_string :
    (fuel : ℕ) (seen : List String) (v : Value) (bindings : Bindings) (c : Binding)
    → Among c (walk fuel seen v bindings)
    → (a : String) × (v ≡ str a)
unfolding walk
no_string zero seen v bindings c m = absurd m
no_string (suc fuel) seen (str a) bindings c m = (a, refl)
no_string (suc fuel) seen null bindings c m = absurd m
no_string (suc fuel) seen (bool b) bindings c m = absurd m
no_string (suc fuel) seen (num n) bindings c m = absurd m
no_string (suc fuel) seen (json x) bindings c m = absurd m

-- What the walk from a string yields: nothing, or the binding and the walk from its parent.
walk_found :
    (fuel : ℕ) (seen : List String) (a : String) (bindings : Bindings) (c : Binding)
    → Among c (walk (suc fuel) seen (str a) bindings)
    → (b : Binding) × (Dict.get a bindings ≡ some b)
      × ((str_eq a "" || mem a seen) ≡ false)
      × ((b ≡ c) ⊎ Among c (walk fuel (a ∷ seen) (parent_of b) bindings))
walk_found fuel seen a bindings c m = elim (Bool-cases (str_eq a "" || mem a seen)) [
  | inl q ↦ absurd (subst (Among c) (walk_stop fuel seen a bindings q) m)
  | inr q ↦ elim (Option-cases (Dict.get a bindings)) [
    | inl h ↦ absurd (subst (Among c) (walk_absent fuel seen a bindings h) m)
    | inr (b, h) ↦ (b, h, q, subst (Among c) (walk_on fuel seen a b bindings h q) m)
  ]
]

walk-Ancestor :
    (fuel : ℕ) (seen : List String) (a : String) (bindings : Bindings) (c : Binding)
    → Among c (walk fuel seen (str a) bindings)
    → Ancestor bindings a c
unfolding walk
walk-Ancestor zero seen a bindings c m = absurd m
walk-Ancestor (suc fuel) seen a bindings c m =
    let (b, h, q, rest) = walk_found fuel seen a bindings c m in
    elim rest [
      | inl e ↦ itself (named a seen q) (h ∙ ap some e)
      | inr deeper ↦
          let (p, e) = no_string fuel (a ∷ seen) (parent_of b) bindings c deeper in
          above (named a seen q) h e (
            walk-Ancestor fuel (a ∷ seen) p bindings c
              (subst (λ v. Among c (walk fuel (a ∷ seen) v bindings)) e deeper))
    ]

walk_head :
    (fuel : ℕ) (seen : List String) (p : String) (d : Binding) (bindings : Bindings)
    → unseen seen bindings < fuel
    → Dict.get p bindings ≡ some d
    → (str_eq p "" || mem p seen) ≡ false
    → Among d (walk fuel seen (str p) bindings)
walk_head zero seen p d bindings lt h q = ground (arith, lt)
walk_head (suc fuel) seen p d bindings lt h q =
    subst (Among d) (sym (walk_on fuel seen p d bindings h q)) (inl refl)

looped :
    (fuel : ℕ) (seen : List String) (a p : String) (b d : Binding) (bindings : Bindings)
    → Dict.get a bindings ≡ some b
    → Dict.get p bindings ≡ some d
    → (str_eq a "" || mem a seen) ≡ false
    → mem p (a ∷ seen) ≡ true
    → Among d (walk (suc fuel) seen (str a) bindings) ⊎ (mem p seen ≡ true)
unfolding mem
looped fuel seen a p b d bindings found h q k = elim (Bool-cases (str_eq a p)) [
  | inl e ↦
      let both : some b ≡ some d =
        sym found ∙ (ap (λ x. Dict.get x bindings) ((eq_iff a p).0 e) ∙ h) in
      let same_binding : b ≡ d = cc in
      inl (subst (Among d) (sym (walk_on fuel seen a b bindings found q)) (inl same_binding))
  | inr e ↦ inr (rw e at k)
]

-- The parent of what the walk yields is yielded as well, or was seen before.
walk_closed :
    (fuel : ℕ) (seen : List String) (a p : String) (c d : Binding) (bindings : Bindings)
    → unseen seen bindings < fuel
    → Among c (walk fuel seen (str a) bindings)
    → parent_of c ≡ str p
    → str_eq p "" ≡ false
    → Dict.get p bindings ≡ some d
    → Among d (walk fuel seen (str a) bindings) ⊎ (mem p seen ≡ true)
unfolding walk
walk_closed zero seen a p c d bindings lt m up ne h = absurd m
walk_closed (suc fuel) seen a p c d bindings lt m up ne h =
    let (b, found, q, rest) = walk_found fuel seen a bindings c m in
    let less = unseen_lt a b seen bindings found (not_seen a seen q) in
    let deeper : unseen (a ∷ seen) bindings < fuel = omega (arith, lt, less) in
    let here : Among d (walk fuel (a ∷ seen) (parent_of b) bindings)
        → Among d (walk (suc fuel) seen (str a) bindings) =
      λ x. subst (Among d) (sym (walk_on fuel seen a b bindings found q)) (inr x) in
    let at_a : mem p (a ∷ seen) ≡ true
        → Among d (walk (suc fuel) seen (str a) bindings) ⊎ (mem p seen ≡ true) =
      λ k. looped fuel seen a p b d bindings found h q k in
    elim rest [
      | inl e ↦ elim (Bool-cases (mem p (a ∷ seen))) [
        | inl k ↦ at_a k
        | inr k ↦ inl (
            here (
              subst (λ v. Among d (walk fuel (a ∷ seen) v bindings)) (sym (ap parent_of e ∙ up))
                (walk_head fuel (a ∷ seen) p d bindings deeper h (rw ne k))))
      ]
      | inr x ↦
          let (s, e) = no_string fuel (a ∷ seen) (parent_of b) bindings c x in
          elim (walk_closed fuel (a ∷ seen) s p c d bindings deeper
            (subst (λ v. Among c (walk fuel (a ∷ seen) v bindings)) e x) up ne h) [
              | inl y ↦
                  inl (here (subst (λ v. Among d (walk fuel (a ∷ seen) v bindings)) (sym e) y))
              | inr k ↦ at_a k
            ]
    ]

Ancestor-named :
    (bindings : Bindings) (a : String) (c : Binding) → Ancestor bindings a c → str_eq a "" ≡ false
Ancestor-named bindings a c (itself ne h) = ne
Ancestor-named bindings a c (above ne h up rest) = ne

Ancestor-found :
    (bindings : Bindings) (a : String) (c : Binding)
    → Ancestor bindings a c
    → (b : Binding) × (Dict.get a bindings ≡ some b)
Ancestor-found bindings a c (itself ne h) = (c, h)
Ancestor-found bindings a c (above {b = b} ne h up rest) = (b, h)

found_same :
    (a : String) (b c : Binding) (bindings : Bindings)
    → Dict.get a bindings ≡ some b
    → Dict.get a bindings ≡ some c
    → b ≡ c
found_same a b c bindings h k = let both : some b ≡ some c = sym h ∙ k in cc

complete_from :
    (bindings : Bindings) (root : String) (c : Binding) (a : String) (b : Binding)
    → Dict.get a bindings ≡ some b
    → Among b (ancestors_inclusive root bindings)
    → Ancestor bindings a c
    → Among c (ancestors_inclusive root bindings)
unfolding ancestors_inclusive mem
complete_from bindings root c a b found m (itself ne h) =
    subst (λ x. Among x (ancestors_inclusive root bindings)) (found_same a b c bindings found h) m
complete_from bindings root c a b found m (above {p = p} {b = v} ne h up rest) =
    let (d, h') = Ancestor-found bindings p c rest in
    complete_from bindings root c p d h'
      (elim (walk_closed (suc (length bindings)) [] root p b d bindings
        (omega (arith, unseen_nil bindings)) m
        (ap parent_of (found_same a b v bindings found h) ∙ up) (Ancestor-named bindings p c rest)
        h') [ inl y ↦ y | inr k ↦ absurd (cc k) ])
      rest

any_paused-Among :
    (c : Binding) (bs : List Binding)
    → Among c bs
    → any_paused (c ∷ []) ≡ true
    → any_paused bs ≡ true
unfolding any_paused
any_paused-Among c [] m h = absurd m
any_paused-Among c (b ∷ bs) (inl e) h = rw e (ground arith)
any_paused-Among c (b ∷ bs) (inr m) h = let later = any_paused-Among c bs m h in ground arith

Among-any_paused :
    (bs : List Binding)
    → any_paused bs ≡ true
    → (c : Binding) × Among c bs × (any_paused (c ∷ []) ≡ true)
unfolding any_paused
Among-any_paused [] h = absurd (cc h)
Among-any_paused (b ∷ bs) h = elim (Bool-cases (not (is_null (or_null (Dict.get "paused_at" b))))) [
  | inl q ↦ (b, inl refl, ground arith)
  | inr q ↦ let (c, m, k) = Among-any_paused bs (ground arith) in (c, inr m, k)
]

-- A node's subtree counts as paused exactly if the node's binding, or one that its chain of parents
-- leads to, has a `paused_at`.
pub subtree_paused-Ancestor :
    (a : String) (bindings : Bindings)
    → (subtree_paused a bindings ≡ true) ↔ (
        (c : Binding) × Ancestor bindings a c
        × (is_null (or_null (Dict.get "paused_at" c)) ≡ false))
unfolding subtree_paused ancestors_inclusive any_paused mem
subtree_paused-Ancestor a bindings = (
  λ h.
      let (c, m, k) = Among-any_paused (ancestors_inclusive a bindings) h in
      (c, walk-Ancestor (suc (length bindings)) [] a bindings c m, ground arith),
  λ p.
      let (c, up, k) = p in
      let (b, found) = Ancestor-found bindings a c up in
      any_paused-Among c (ancestors_inclusive a bindings)
        (complete_from bindings a c a b found
          (walk_head (suc (length bindings)) [] a b bindings (omega (arith, unseen_nil bindings))
            found (rw (Ancestor-named bindings a c up) refl))
          up)
        (rw k refl),
)
