-- ===== src/Sweep/Grid.antt =====
-- The grid of a sweep, in nawat/lab/sweep.py.
use nawat.Prelude.{
  ◌≡◌, ◌↔◌, refl, sym, ap, subst, List, [], ◌∷◌, map, In, In-append, In-append_left,
  In-append_right, inl, inr,
}
use nawat.Sweep.{with_each, product}

module _ {A : Type 0} where
  -- A combination: one value of each axis.
  abbrev pub Picks : List A → List (List A) → Type 0
  Picks [] [] = Unit {0}
  Picks [] (axis ∷ axes) = ⊥
  Picks (v ∷ combo) [] = ⊥
  Picks (v ∷ combo) (axis ∷ axes) = In v axis × Picks combo axes

  In-map_cons :
      (v : A) (c : List A) (rests : List (List A))
      → In c rests
      → In (v ∷ c) (map (λ r. v ∷ r) rests)
  In-map_cons v c [] m = absurd m
  In-map_cons v c (r ∷ rests) (inl e) = inl (ap (λ x. v ∷ x) e)
  In-map_cons v c (r ∷ rests) (inr m) = inr (In-map_cons v c rests m)

  In-with_each :
      (v : A) (c : List A) (axis : List A) (rests : List (List A))
      → In v axis
      → In c rests
      → In (v ∷ c) (with_each axis rests)
  unfolding with_each
  In-with_each v c [] rests m n = absurd m
  In-with_each v c (w ∷ axis) rests (inl e) n =
      In-append_left (v ∷ c) (map (λ r. w ∷ r) rests) (with_each axis rests)
        (subst (λ u. In (v ∷ c) (map (λ r. u ∷ r) rests)) e (In-map_cons v c rests n))
  In-with_each v c (w ∷ axis) rests (inr m) n =
      In-append_right (v ∷ c) (map (λ r. w ∷ r) rests) (with_each axis rests)
        (In-with_each v c axis rests m n)

  In-map_cons_of :
      (v : A) (combo : List A) (rests : List (List A))
      → In combo (map (λ r. v ∷ r) rests)
      → (c : List A) × (combo ≡ v ∷ c) × In c rests
  In-map_cons_of v combo [] m = absurd m
  In-map_cons_of v combo (r ∷ rests) (inl e) = (r, e, inl refl)
  In-map_cons_of v combo (r ∷ rests) (inr m) =
      let (c, e, n) = In-map_cons_of v combo rests m in (c, e, inr n)

  In-with_each_of :
      (combo : List A) (axis : List A) (rests : List (List A))
      → In combo (with_each axis rests)
      → (v : A) × (c : List A) × (combo ≡ v ∷ c) × In v axis × In c rests
  unfolding with_each
  In-with_each_of combo [] rests m = absurd m
  In-with_each_of combo (w ∷ axis) rests m =
      elim (In-append combo (map (λ r. w ∷ r) rests) (with_each axis rests) m) [
        | inl n ↦ let (c, e, k) = In-map_cons_of w combo rests n in (w, c, e, inl refl, k)
        | inr n ↦ let (v, c, e, k, l) = In-with_each_of combo axis rests n in (v, c, e, inr k, l)
      ]

  picked : (combo : List A) (axes : List (List A)) → Picks combo axes → In combo (product axes)
  unfolding product
  picked [] [] p = inl refl
  picked [] (axis ∷ axes) p = absurd p
  picked (v ∷ combo) [] p = absurd p
  picked (v ∷ combo) (axis ∷ axes) p =
      In-with_each v combo axis (product axes) p.0 (picked combo axes p.1)

  picks : (combo : List A) (axes : List (List A)) → In combo (product axes) → Picks combo axes
  unfolding product
  picks combo [] (inl e) = subst (λ c. Picks c []) (sym e) tt
  picks combo [] (inr x) = absurd x
  picks combo (axis ∷ axes) m =
      let (v, c, e, k, l) = In-with_each_of combo axis (product axes) m in
      subst (λ x. Picks x (axis ∷ axes)) (sym e) (k, picks c axes l)

  -- The combinations that a sweep plans are those of one value of each axis, and no others.
  pub product_iff :
      (combo : List A) (axes : List (List A)) → In combo (product axes) ↔ Picks combo axes
  product_iff combo axes = (picks combo axes, picked combo axes)
