-- ===== src/Prelude/Sort.antt =====
-- `sorted` by a key, as a stable insertion sort, and searches in lists by membership.
use Prim.Native.Nat.{ℕ, ◌≤◌, ◌+◌}
use mathlib.Core.Path.{◌≡◌, refl, ap}
use mathlib.Core.Logic.{◌⊎◌, inl, inr}
use mathlib.Core.Bool.{Bool, true}
use mathlib.Core.List.{List, [], ◌∷◌, map}
use native.Mathlib.Omega.{arith}
use nawat.Prelude.Tests.{leb, if◌then◌else◌, Bool-cases}
use nawat.Prelude.Lists.{keep, some_of, sum_of, In}

module _ {ℓ} {A : Type ℓ} (f : A → ℕ) where
  unfoldable pub insert_by : A → List A → List A
  insert_by a [] = a ∷ []
  insert_by a (x ∷ xs) = if leb (f a) (f x) then a ∷ x ∷ xs else x ∷ insert_by a xs

  -- `sorted(xs, key=f)`
  unfoldable pub sort_by : List A → List A
  unfolding insert_by
  sort_by [] = []
  sort_by (x ∷ xs) = insert_by x (sort_by xs)

  -- No element before one with a smaller key.
  abbrev pub AllFrom : ℕ → List A → Type 0
  AllFrom n [] = Unit
  AllFrom n (x ∷ xs) = (n ≤ f x) × AllFrom n xs

  abbrev pub IsSortedBy : List A → Type 0
  IsSortedBy [] = Unit
  IsSortedBy (x ∷ xs) = AllFrom (f x) xs × IsSortedBy xs

  AllFrom-le : (m n : ℕ) (xs : List A) → m ≤ n → AllFrom n xs → AllFrom m xs
  AllFrom-le m n [] h a = tt
  AllFrom-le m n (x ∷ xs) h a = (omega arith, AllFrom-le m n xs h a.1)

  AllFrom-insert_by :
      (n : ℕ) (a : A) (xs : List A) → n ≤ f a → AllFrom n xs → AllFrom n (insert_by a xs)
  unfolding insert_by
  AllFrom-insert_by n a [] h s = (h, tt)
  AllFrom-insert_by n a (x ∷ xs) h s = ground (arith, AllFrom-insert_by n a xs)

  insert_by-IsSortedBy : (a : A) (xs : List A) → IsSortedBy xs → IsSortedBy (insert_by a xs)
  unfolding insert_by
  insert_by-IsSortedBy a [] s = (tt, tt)
  insert_by-IsSortedBy a (x ∷ xs) s = elim (Bool-cases (leb (f a) (f x))) [
    | inl e ↦ rw e (ground (arith, AllFrom-le (f a) (f x) xs))
    | inr e ↦ rw e (ground (arith, AllFrom-insert_by (f x) a xs, insert_by-IsSortedBy a xs))
  ]

  pub sort_by-IsSortedBy : (xs : List A) → IsSortedBy (sort_by xs)
  unfolding sort_by
  sort_by-IsSortedBy [] = tt
  sort_by-IsSortedBy (x ∷ xs) = insert_by-IsSortedBy x (sort_by xs) (sort_by-IsSortedBy xs)

  sum_of-insert_by :
      (g : A → ℕ) (a : A) (xs : List A) → sum_of g (insert_by a xs) ≡ g a + sum_of g xs
  unfolding insert_by
  sum_of-insert_by g a [] = omega arith
  sum_of-insert_by g a (x ∷ xs) = ground (arith, sum_of-insert_by g a xs)

  pub sum_of-sort_by : (g : A → ℕ) (xs : List A) → sum_of g (sort_by xs) ≡ sum_of g xs
  unfolding sort_by
  sum_of-sort_by g [] = refl
  sum_of-sort_by g (x ∷ xs) = omega (arith, sum_of-insert_by g x (sort_by xs), sum_of-sort_by g xs)

module _ {A : Type 0} (f : A → ℕ) where
  In-insert_by : (b a : A) (xs : List A) → In b (insert_by f a xs) → (b ≡ a) ⊎ In b xs
  unfolding insert_by
  In-insert_by b a [] h = h
  In-insert_by b a (x ∷ xs) h = ground (arith, In-insert_by b a xs)

  In-insert_by_of : (b a : A) (xs : List A) → (b ≡ a) ⊎ In b xs → In b (insert_by f a xs)
  unfolding insert_by
  In-insert_by_of b a [] h = h
  In-insert_by_of b a (x ∷ xs) h = ground (arith, In-insert_by_of b a xs)

  pub In-sort_by : (b : A) (xs : List A) → In b (sort_by f xs) → In b xs
  unfolding sort_by
  In-sort_by b [] h = h
  In-sort_by b (x ∷ xs) h = ground (arith, In-insert_by b x (sort_by f xs) h, In-sort_by b xs)

  pub In-sort_by_of : (b : A) (xs : List A) → In b xs → In b (sort_by f xs)
  unfolding sort_by
  In-sort_by_of b [] h = h
  In-sort_by_of b (x ∷ xs) h =
      In-insert_by_of b x (sort_by f xs) (ground (arith, In-sort_by_of b xs))

module _ {A : Type 0} where
  pub keep_ext :
      (p q : A → Bool) (xs : List A) → ((x : A) → In x xs → p x ≡ q x) → keep p xs ≡ keep q xs
  keep_ext p q [] h = refl
  keep_ext p q (x ∷ xs) h = ground (arith, h x (inl refl), keep_ext p q xs (λ y m. h y (inr m)))

  pub In-some_of :
      (p : A → Bool) (xs : List A) → some_of p xs ≡ true → (a : A) × In a xs × (p a ≡ true)
  In-some_of p [] h = cc
  In-some_of p (x ∷ xs) h = elim (Bool-cases (p x)) [
    | inl e ↦ (x, inl refl, e)
    | inr e ↦ let (a, m, t) = In-some_of p xs (ground arith) in (a, inr m, t)
  ]

  pub In-map :
      {B : Type 0} (g : A → B) (b : B) (xs : List A)
      → In b (map g xs)
      → (a : A) × In a xs × (b ≡ g a)
  In-map g b [] h = absurd h
  In-map g b (x ∷ xs) (inl e) = (x, inl refl, e)
  In-map g b (x ∷ xs) (inr h) = let (a, m, e) = In-map g b xs h in (a, inr m, e)

  pub In-map_of : {B : Type 0} (g : A → B) (a : A) (xs : List A) → In a xs → In (g a) (map g xs)
  In-map_of g a [] h = absurd h
  In-map_of g a (x ∷ xs) (inl e) = inl (ap g e)
  In-map_of g a (x ∷ xs) (inr h) = inr (In-map_of g a xs h)
