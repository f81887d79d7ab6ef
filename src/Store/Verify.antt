-- ===== src/Store/Verify.antt =====
-- What a verification of nawat/store.py says when it passes.
use nawat.Prelude.{
  ◌≡◌, ◌↔◌, refl, Bool, true, false, not, List, [], ◌∷◌, some, keep, is_nil, In, arith,
  Option-cases, inl, inr,
}
use nawat.Prelude.Text.{Text, text_eq, is_nil-sort_texts}
use nawat.Prelude.Dict
use nawat.Keys.{Key}
use nawat.Store.{ObjectStat, Manifest, verified, verify_manifests, has, differs}

-- Every file of the local copy is in the remote one, with the same size.
abbrev pub Holds : Manifest → Manifest → Type 0
Holds remote local =
    (rel : Text) (here : ObjectStat)
    → Dict.get rel local ≡ some here
    → (there : ObjectStat) × (Dict.get rel remote ≡ some there) × (there.size ≡ here.size)

keep-nil :
    (p : Text → Bool) (xs : List Text)
    → is_nil (keep p xs) ≡ true
    → (x : Text) → In x xs
    → p x ≡ false
keep-nil p [] h x m = absurd m
keep-nil p (y ∷ xs) h x (inl e) = ground arith
keep-nil p (y ∷ xs) h x (inr m) = keep-nil p xs (ground arith) x m

keep-nil_of :
    (p : Text → Bool) (xs : List Text)
    → ((x : Text) → In x xs → p x ≡ false)
    → is_nil (keep p xs) ≡ true
keep-nil_of p [] h = refl
keep-nil_of p (y ∷ xs) h = ground (arith, h y (inl refl), keep-nil_of p xs (λ x m. h x (inr m)))

module _ (key : Key) (local remote : Manifest) where
  verified_cases :
      verified (verify_manifests key local remote) ≡ true
      → (is_nil (keep (λ rel. not (has remote rel)) (Dict.keys local)) ≡ true)
        × (is_nil (keep (differs local remote) (Dict.keys local)) ≡ true)
  unfolding verified verify_manifests
  verified_cases h = ground (
    arith,
    is_nil-sort_texts (keep (λ rel. not (has remote rel)) (Dict.keys local)),
    is_nil-sort_texts (keep (differs local remote) (Dict.keys local)),
  )

  verified_of :
      is_nil (keep (λ rel. not (has remote rel)) (Dict.keys local)) ≡ true
      → is_nil (keep (differs local remote) (Dict.keys local)) ≡ true
      → verified (verify_manifests key local remote) ≡ true
  unfolding verified verify_manifests
  verified_of a b = ground (
    arith,
    is_nil-sort_texts (keep (λ rel. not (has remote rel)) (Dict.keys local)),
    is_nil-sort_texts (keep (differs local remote) (Dict.keys local)),
  )

  matched :
      (rel : Text) (here : ObjectStat)
      → Dict.get rel local ≡ some here
      → not (has remote rel) ≡ false
      → differs local remote rel ≡ false
      → (there : ObjectStat) × (Dict.get rel remote ≡ some there) × (there.size ≡ here.size)
  matched rel here l a b = elim (Option-cases (Dict.get rel remote)) [
    | inl e ↦ absurd (ground arith)
    | inr (there, e) ↦ (there, e, ground arith)
  ]

  -- A verification passes exactly if every local file is in object storage at the same size.
  pub verified_iff : (verified (verify_manifests key local remote) ≡ true) ↔ Holds remote local
  verified_iff = (
    λ h rel here l.
        let (a, b) = verified_cases h in
        let m = Dict.In-keys rel here local l in
        matched rel here l (keep-nil _ _ a rel m) (keep-nil _ _ b rel m),
    λ h.
        verified_of
          (keep-nil_of _ _ λ rel m.
            let (here, l) = Dict.In-keys-get rel local m in
            let (there, r, e) = h rel here l in ground arith)
          (keep-nil_of _ _ λ rel m.
            let (here, l) = Dict.In-keys-get rel local m in
            let (there, r, e) = h rel here l in ground arith),
  )
