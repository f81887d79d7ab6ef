-- ===== src/Params/Layers.antt =====
-- `resolve` of nawat/lab/params.py: the last layer that sets a parameter gives its value and its source.
use nawat.Prelude.{
  ◌≡◌, refl, sym, ap, ◌∙◌, subst, true, false, List, [], ◌∷◌, Option, none, some, inl, inr,
  Option-cases, Bool-cases, if◌then◌else◌, if_ind, All, same, same→eq, same_refl, arith,
}
use nawat.Prelude.Text.{Text, text, text_eq}
use nawat.Prelude.Dict
use nawat.Prelude.Dict.{Dict}
use nawat.Errors.{Result, ok, bind_ok}
use nawat.Params.{
  Value, Python, P, coerce, coerce_default, Resolved, set, set_defaults, override, apply_overrides,
  apply_layers, resolve,
}

-- No two declared parameters have one name, as the keys of a dictionary.
abbrev pub DistinctNames : {F : Type 0} → Dict Text (P F) → Type 0
DistinctNames [] = Unit
DistinctNames ((n, p) ∷ rest) = (Dict.get n rest ≡ none) × DistinctNames rest

module _ {F : Type 0} (python : Python F) (declared : Dict Text (P F)) (name : Text) where
  -- The last setting of the parameter by a layer, and before any layer.
  abbrev pub set_by : Text → Text → Value F → Option (Text × Value F) → Option (Text × Value F)
  set_by source n x before = if same n name then some (source, x) else before

  abbrev pub last_in :
      Text → Dict Text (Value F) → Option (Text × Value F) → Option (Text × Value F)
  last_in source [] before = before
  last_in source ((n, x) ∷ rest) before = last_in source rest (set_by source n x before)

  abbrev pub last_set :
      List (Text × Dict Text (Value F)) → Option (Text × Value F) → Option (Text × Value F)
  last_set [] before = before
  last_set ((source, overrides) ∷ rest) before = last_set rest (last_in source overrides before)

  abbrev pub value_of : P F → Option (Text × Value F) → Result (Value F)
  value_of p none = coerce_default python p p.default
  value_of p (some (source, x)) = coerce python p x

  abbrev pub source_of : Option (Text × Value F) → Text
  source_of none = text "default"
  source_of (some (source, x)) = source

  -- The parameter has the value that the setting gives, and its source.
  pub record Shown (p : P F) (last : Option (Text × Value F)) (out : Resolved python) : Type 0 where
    pub value : Value F
    pub coerced : value_of p last ≡ ok value
    pub shown : Dict.get name out.values ≡ some value
    pub source : Dict.get name out.sources ≡ some (source_of last)

  set-Shown :
      (p : P F) (last : Option (Text × Value F)) (source : Text) (out : Resolved python)
      (v : Value F)
      → value_of p last ≡ ok v
      → source ≡ source_of last
      → Shown p last (set python name source out v)
  unfolding set
  set-Shown p last source out v e s = record {
    value = v;
    coerced = e;
    shown = ground (arith, Dict.get-put name name v out.values, same_refl name);
    source = ground (arith, s, Dict.get-put name name source out.sources, same_refl name);
  }

  set_other-Shown :
      (p : P F) (last : Option (Text × Value F)) (n source : Text) (out : Resolved python)
      (v : Value F)
      → same n name ≡ false
      → Shown p last out
      → Shown p last (set python n source out v)
  unfolding set
  set_other-Shown p last n source out v d k = record {
    value = k.value;
    coerced = k.coerced;
    shown = ground (arith, d, Dict.get-put n name v out.values, k.shown);
    source = ground (arith, d, Dict.get-put n name source out.sources, k.source);
  }

  module _ (p : P F) (found : Dict.get name declared ≡ some p) where
    override-Shown :
        (source n : Text) (x : Value F) (before : Option (Text × Value F))
        (out out' : Resolved python)
        → override python source n x out (Dict.get n declared) ≡ ok out'
        → Shown p before out
        → Shown p (set_by source n x before) out'
    unfolding override
    override-Shown source n x before out out' h k = elim (Option-cases (Dict.get n declared)) [
      | inl e ↦ absurd (ground (arith, h, e))
      | inr (q, e) ↦
          let (v, c, f) =
            bind_ok (coerce python q x) (λ w. ok (set python n source out w)) out'
              (ground (arith, h, e)) in
          let there : set python n source out v ≡ out' = ground (arith, f) in
          subst (Shown p (set_by source n x before)) there (
            if_ind (λ last. Shown p last (set python n source out v)) (same n name)
              {x = some (source, x)} {y = before} (λ t. mine q v t e c)
              (λ d. set_other-Shown p before n source out v d k))
    ]
      where
        mine :
            (q : P F) (v : Value F)
            → same n name ≡ true
            → Dict.get n declared ≡ some q
            → coerce python q x ≡ ok v
            → Shown p (some (source, x)) (set python n source out v)
        mine q v t e c =
            let nn : n ≡ name = same→eq n name t in
            let both : some q ≡ some p = sym e ∙ ap (λ m. Dict.get m declared) nn ∙ found in
            let qp : q ≡ p = ground (arith, both) in
            subst (λ m. Shown p (some (source, x)) (set python m source out v)) (sym nn)
              (set-Shown p (some (source, x)) source out v
                (subst (λ r. coerce python r x ≡ ok v) qp c) refl)

    apply_overrides-Shown :
        (source : Text) (overrides : Dict Text (Value F)) (before : Option (Text × Value F))
        (out out' : Resolved python)
        → apply_overrides python declared source overrides out ≡ ok out'
        → Shown p before out
        → Shown p (last_in source overrides before) out'
    unfolding apply_overrides
    apply_overrides-Shown source [] before out out' h k =
        subst (Shown p before) (ground (arith, h)) k
    apply_overrides-Shown source ((n, x) ∷ rest) before out out' h k =
        let (next, e, f) =
          bind_ok (override python source n x out (Dict.get n declared))
            (apply_overrides python declared source rest) out' h in
        apply_overrides-Shown source rest (set_by source n x before) next out' f
          (override-Shown source n x before out next e k)

    apply_layers-Shown :
        (layers : List (Text × Dict Text (Value F))) (before : Option (Text × Value F))
        (out out' : Resolved python)
        → apply_layers python declared layers out ≡ ok out'
        → Shown p before out
        → Shown p (last_set layers before) out'
    unfolding apply_layers
    apply_layers-Shown [] before out out' h k = subst (Shown p before) (ground (arith, h)) k
    apply_layers-Shown ((source, overrides) ∷ rest) before out out' h k =
        let (next, e, f) =
          bind_ok (apply_overrides python declared source overrides out)
            (apply_layers python declared rest) out' h in
        apply_layers-Shown rest (last_in source overrides before) next out' f
          (apply_overrides-Shown source overrides before out next e k)

  -- The defaults, before any layer.
  set_defaults_other :
      (p : P F) (rest : Dict Text (P F)) (out out' : Resolved python)
      → Dict.get name rest ≡ none
      → set_defaults python rest out ≡ ok out'
      → Shown p none out
      → Shown p none out'
  unfolding set_defaults Dict.get
  set_defaults_other p [] out out' g h k = subst (Shown p none) (ground (arith, h)) k
  set_defaults_other p ((n, q) ∷ rest) out out' g h k =
      let (v, e, f) =
        bind_ok (coerce_default python q q.default)
          (λ v. set_defaults python rest (set python n (text "default") out v)) out' h in
      set_defaults_other p rest (set python n (text "default") out v) out' (ground (arith, g)) f
        (set_other-Shown p none n (text "default") out v (ground (arith, g)) k)

  set_defaults-Shown :
      (p : P F) (rest : Dict Text (P F)) (out out' : Resolved python)
      → DistinctNames rest
      → Dict.get name rest ≡ some p
      → set_defaults python rest out ≡ ok out'
      → Shown p none out'
  unfolding set_defaults Dict.get
  set_defaults-Shown p [] out out' d g h = absurd (ground (arith, g))
  set_defaults-Shown p ((n, q) ∷ rest) out out' d g h =
      let (v, e, f) =
        bind_ok (coerce_default python q q.default)
          (λ v. set_defaults python rest (set python n (text "default") out v)) out' h in
      elim (Bool-cases (same n name)) [
        | inr t ↦
            set_defaults-Shown p rest (set python n (text "default") out v) out' d.1
              (ground (arith, g, t)) f
        | inl t ↦
            let nn : n ≡ name = same→eq n name t in
            let qp : q ≡ p = ground (arith, g, t) in
            set_defaults_other p rest (set python n (text "default") out v) out'
              (subst (λ m. Dict.get m rest ≡ none) nn d.0) f
              (subst (λ m. Shown p none (set python m (text "default") out v)) (sym nn)
                (set-Shown p none (text "default") out v
                  (subst (λ r. coerce_default python r r.default ≡ ok v) qp e) refl))
      ]

-- If `resolve` returns, every declared parameter has the value that the last layer setting it gives, as `coerce` brings it to the declared type, with that layer as its source; or its default, if no layer sets it. No two declared parameters have one name.
pub resolve-Shown :
    {F : Type 0} (python : Python F) (declared : Dict Text (P F))
    (layers : List (Text × Dict Text (Value F))) (out : Resolved python) (name : Text) (p : P F)
    → DistinctNames declared
    → resolve python declared layers ≡ ok out
    → Dict.get name declared ≡ some p
    → Shown python declared name p (last_set python declared name layers none) out
unfolding resolve
resolve-Shown python declared layers out name p d h found =
    let (defaults, e, f) =
      bind_ok (set_defaults python declared (record { values = []; sources = [] }))
        (apply_layers python declared layers) out h in
    apply_layers-Shown python declared name p found layers none defaults out f
      (set_defaults-Shown python declared name p declared _ defaults d found e)

module _ {F : Type 0} (python : Python F) (declared : Dict Text (P F)) where
  overrides_declared :
      (source : Text) (overrides : Dict Text (Value F)) (out out' : Resolved python)
      → apply_overrides python declared source overrides out ≡ ok out'
      → All (λ (o : Text × Value F). (p : P F) × (Dict.get o.0 declared ≡ some p)) overrides
  unfolding apply_overrides override
  overrides_declared source [] out out' h = tt
  overrides_declared source ((n, x) ∷ rest) out out' h =
      let (next, e, f) =
        bind_ok (override python source n x out (Dict.get n declared))
          (apply_overrides python declared source rest) out' h in
      (
        elim (Option-cases (Dict.get n declared)) [
          | inl g ↦ absurd (ground (arith, e, g))
          | inr g ↦ g
        ],
        overrides_declared source rest next out' f,
      )

  layers_declared :
      (layers : List (Text × Dict Text (Value F))) (out out' : Resolved python)
      → apply_layers python declared layers out ≡ ok out'
      → All
          (λ (l : Text × Dict Text (Value F)).
            All (λ (o : Text × Value F). (p : P F) × (Dict.get o.0 declared ≡ some p)) l.1)
          layers
  unfolding apply_layers
  layers_declared [] out out' h = tt
  layers_declared ((source, overrides) ∷ rest) out out' h =
      let (next, e, f) =
        bind_ok (apply_overrides python declared source overrides out)
          (apply_layers python declared rest) out' h in
      (overrides_declared source overrides out next e, layers_declared rest next out' f)

  -- A layer that sets a parameter that is not declared makes `resolve` raise: if `resolve` returns, every name that a layer sets is declared.
  pub resolve-declared :
      (layers : List (Text × Dict Text (Value F))) (out : Resolved python)
      → resolve python declared layers ≡ ok out
      → All
          (λ (l : Text × Dict Text (Value F)).
            All (λ (o : Text × Value F). (p : P F) × (Dict.get o.0 declared ≡ some p)) l.1)
          layers
  unfolding resolve
  resolve-declared layers out h =
      let (defaults, e, f) =
        bind_ok (set_defaults python declared (record { values = []; sources = [] }))
          (apply_layers python declared layers) out h in
      layers_declared layers defaults out f
