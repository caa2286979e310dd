-- ===== src/Dict.antt =====
-- Python's dict with string keys, as a list of entries. No modelled code depends on the order
-- in which a dict yields its entries.
use long_horizon_agentic_har.Prelude.{
  String, str_eq, eq_iff, Bool, true, false, Option, none, some, List, [], ◌∷◌, ◌≡◌, ◌∙◌, ap,
  eq_refl, refl, if◌then◌else◌, arith, All, subst, Bool-cases, inl, inr,
}
use long_horizon_agentic_har.Result.{Result, ok, err, key_error}

abbrev pub Dict {ℓ} : Type ℓ → Type ℓ
Dict V = List (String × V)

module _ {ℓ} {V : Type ℓ} where
  -- d.get(k)
  unfoldable pub get : String → Dict V → Option V
  get k [] = none
  get k ((j, v) ∷ d) = if str_eq j k then some v else get k d

  -- d[k] = v
  unfoldable pub set : String → V → Dict V → Dict V
  set k v [] = (k, v) ∷ []
  set k v ((j, w) ∷ d) = if str_eq j k then (k, v) ∷ d else (j, w) ∷ set k v d

  -- d.update(e)
  unfoldable pub update : Dict V → Dict V → Dict V
  update d [] = d
  update d ((k, v) ∷ e) = set k v (update d e)

  -- d.pop(k, None)
  unfoldable pub remove : String → Dict V → Dict V
  remove k [] = []
  remove k ((j, v) ∷ d) = let rest = remove k d in if str_eq j k then rest else (j, v) ∷ rest

  abbrev pub is_some : Option V → Bool
  is_some none = false
  is_some (some v) = true

  -- k in d
  abbrev pub has : String → Dict V → Bool
  has k d = is_some (get k d)

  abbrev pub from_get : String → Option V → Result V
  from_get k none = err (key_error k)
  from_get k (some v) = ok v

  -- d[k]
  abbrev pub index : Dict V → String → Result V
  index d k = from_get k (get k d)

  abbrev pub or_else : Option V → Option V → Option V
  or_else (some v) o = some v
  or_else none o = o

  pub get-set :
      (k j : String) (v : V) (d : Dict V)
      → get j (set k v d) ≡ (if str_eq k j then some v else get j d)
  unfolding get set
  get-set k j v [] = refl
  get-set k j v ((i, w) ∷ d) = ground (arith, eq_iff k j, eq_iff i k, eq_iff i j, get-set k j v d)

  pub get-set_self : (k : String) (v : V) (d : Dict V) → get k (set k v d) ≡ some v
  get-set_self k v d = get-set k k v d ∙ ap (λ b. if b then some v else get k d) (eq_refl k)

  pub get-set_ne :
      (k j : String) (v : V) (d : Dict V) → str_eq k j ≡ false → get j (set k v d) ≡ get j d
  get-set_ne k j v d h = get-set k j v d ∙ ap (λ b. if b then some v else get j d) h

  pub get-update : (j : String) (d e : Dict V) → get j (update d e) ≡ or_else (get j e) (get j d)
  unfolding get update
  get-update j d [] = refl
  get-update j d ((k, v) ∷ e) = ground (arith, get-set k j v (update d e), get-update j d e)

  pub get-remove :
      (k j : String) (d : Dict V) → get j (remove k d) ≡ (if str_eq k j then none else get j d)
  unfolding get remove
  get-remove k j [] = ground arith
  get-remove k j ((i, w) ∷ d) = ground (arith, eq_iff k j, eq_iff i k, eq_iff i j, get-remove k j d)

  -- What holds of each value holds of the one found.
  pub get-All {κ} :
      (P : V → Type κ) (k : String) (v : V) (d : Dict V)
      → All (λ (p : String × V). P p.1) d
      → get k d ≡ some v
      → P v
  unfolding get
  get-All P k v [] h q = cc
  get-All P k v ((i, w) ∷ d) h q = elim (Bool-cases (str_eq i k)) [
    | inl e ↦
        let found : some w ≡ some v = rw e at q in
        let same_value : w ≡ v = cc in subst P same_value h.0
    | inr e ↦ get-All P k v d h.1 (rw e at q)
  ]
