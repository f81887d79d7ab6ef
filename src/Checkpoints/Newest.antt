-- ===== src/Checkpoints/Newest.antt =====
-- `read` and `latest` of nawat/checkpoints.py: the order of checkpoints, and the newest.
use nawat.Prelude.{
  ℕ, ◌≤◌, ◌<◌, ◌≡◌, refl, sym, ap, ◌∙◌, subst, ◌⊎◌, inl, inr, Bool, true, false, List, [], ◌∷◌,
  none, some, leb, Bool-cases, Option-cases, In, In-keep, In-keep_of, keep, arith,
}
use nawat.Prelude.Sort.{
  insert_by, sort_by, AllFrom, IsSortedBy, sort_by-IsSortedBy, In-sort_by, In-sort_by_of,
}
use nawat.Checkpoints.{
  Checkpoint, Directory, missing, sealed, listing, Os, last_of, in_order, read, read_items, latest,
  usable,
}

-- The order of the pairs (step, time).
abbrev pub Before : Checkpoint → Checkpoint → Type 0
Before a b = (a.step < b.step) ⊎ ((a.step ≡ b.step) × (a.written_at ≤ b.written_at))

abbrev step_of : Checkpoint → ℕ
step_of c = c.step

abbrev time_of : Checkpoint → ℕ
time_of c = c.written_at

abbrev is_complete : Checkpoint → Bool
is_complete c = c.complete

-- Each is before all that follow it.
unfoldable pub Ordered : List Checkpoint → Type 0
Ordered [] = Unit
Ordered (c ∷ rest) = ((d : Checkpoint) → In d rest → Before c d) × Ordered rest

In-insert_by_either :
    (b a : Checkpoint) (cs : List Checkpoint) → In b (insert_by step_of a cs) → (b ≡ a) ⊎ In b cs
unfolding insert_by
In-insert_by_either b a [] h = h
In-insert_by_either b a (x ∷ xs) h = ground (arith, In-insert_by_either b a xs)

insert_by-Ordered :
    (a : Checkpoint) (cs : List Checkpoint)
    → ((d : Checkpoint) → In d cs → a.written_at ≤ d.written_at)
    → Ordered cs
    → Ordered (insert_by step_of a cs)
unfolding insert_by Ordered
insert_by-Ordered a [] early o = ((λ d m. absurd m), tt)
insert_by-Ordered a (x ∷ xs) early o = elim (Bool-cases (leb a.step x.step)) [
  | inl e ↦ rw e (first e, o)
  | inr e ↦ rw e (later e, insert_by-Ordered a xs (λ d m. early d (inr m)) o.1)
]
  where
    first : leb a.step x.step ≡ true → (d : Checkpoint) → In d (x ∷ xs) → Before a d
    first e d (inl p) = ground (arith, early d (inl p), ap step_of p, e)
    first e d (inr m) = ground (arith, early d (inr m), o.0 d m, e)

    later :
        leb a.step x.step ≡ false → (d : Checkpoint) → In d (insert_by step_of a xs) → Before x d
    later e d m = elim (In-insert_by_either d a xs m) [
      | inl p ↦ ground (arith, ap step_of p, e)
      | inr n ↦ o.0 d n
    ]

AllFrom-In :
    (n : ℕ) (cs : List Checkpoint)
    → AllFrom time_of n cs
    → (d : Checkpoint) → In d cs
    → n ≤ d.written_at
AllFrom-In n [] h d m = absurd m
AllFrom-In n (c ∷ cs) h d (inl e) = omega (arith, h.0, ap time_of e)
AllFrom-In n (c ∷ cs) h d (inr m) = AllFrom-In n cs h.1 d m

sort_by-Ordered : (cs : List Checkpoint) → IsSortedBy time_of cs → Ordered (sort_by step_of cs)
unfolding sort_by Ordered
sort_by-Ordered [] h = tt
sort_by-Ordered (c ∷ cs) h =
    insert_by-Ordered c (sort_by step_of cs)
      (λ d m. AllFrom-In c.written_at cs h.0 d (In-sort_by step_of d cs m)) (sort_by-Ordered cs h.1)

pub in_order-Ordered : (cs : List Checkpoint) → Ordered (in_order cs)
unfolding in_order
in_order-Ordered cs = sort_by-Ordered (sort_by time_of cs) (sort_by-IsSortedBy time_of cs)

pub In-in_order : (c : Checkpoint) (cs : List Checkpoint) → In c (in_order cs) → In c cs
unfolding in_order
In-in_order c cs m = In-sort_by time_of c cs (In-sort_by step_of c (sort_by time_of cs) m)

pub In-in_order_of : (c : Checkpoint) (cs : List Checkpoint) → In c cs → In c (in_order cs)
unfolding in_order
In-in_order_of c cs m = In-sort_by_of step_of c (sort_by time_of cs) (In-sort_by_of time_of c cs m)

pub Ordered-keep : (p : Checkpoint → Bool) (cs : List Checkpoint) → Ordered cs → Ordered (keep p cs)
unfolding Ordered
Ordered-keep p [] o = tt
Ordered-keep p (c ∷ cs) o = ground (
  arith,
  Ordered-keep p cs o.1,
  λ (d : Checkpoint) (m : In d (keep p cs)). o.0 d (In-keep p d cs m).0,
)

last_of-none : (cs : List Checkpoint) → last_of cs ≡ none → cs ≡ []
unfolding last_of
last_of-none [] h = refl
last_of-none (a ∷ rest) h = elim (Option-cases (last_of rest)) [
  | inl e ↦ absurd (ground (arith, h, e))
  | inr (b, e) ↦ absurd (ground (arith, h, e))
]

-- The last of an ordered list is one of it, and the others are not after it.
last_of-Before :
    (c : Checkpoint) (cs : List Checkpoint)
    → Ordered cs
    → last_of cs ≡ some c
    → In c cs × ((d : Checkpoint) → In d cs → (d ≡ c) ⊎ Before d c)
unfolding last_of Ordered
last_of-Before c [] o h = cc
last_of-Before c (a ∷ rest) o h = elim (Option-cases (last_of rest)) [
  | inl e ↦
      let empty = last_of-none rest e in
      let one : a ≡ c = ground (arith, h, e) in (inl (sym one), alone one empty)
  | inr (b, e) ↦
      let (m, before) = last_of-Before c rest o.1 (ground (arith, h, e)) in
      (inr m, earlier m before)
]
  where
    alone : a ≡ c → rest ≡ [] → (d : Checkpoint) → In d (a ∷ rest) → (d ≡ c) ⊎ Before d c
    alone one empty d (inl p) = inl (p ∙ one)
    alone one empty d (inr n) = absurd (subst (λ x. In d x) empty n)

    earlier :
        In c rest
        → ((d : Checkpoint) → In d rest → (d ≡ c) ⊎ Before d c)
        → (d : Checkpoint) → In d (a ∷ rest)
        → (d ≡ c) ⊎ Before d c
    earlier m before d (inl p) = inr (subst (λ x. Before x c) (sym p) (o.0 c m))
    earlier m before d (inr n) = before d n

latest_of-Newest :
    (c : Checkpoint) (cs : List Checkpoint)
    → Ordered cs
    → last_of (usable cs) ≡ some c
    → In c cs
      × (c.complete ≡ true)
      × ((o : Checkpoint) → In o cs → o.complete ≡ true → (o ≡ c) ⊎ Before o c)
latest_of-Newest c cs o h =
    let (m, before) = last_of-Before c (usable cs) (Ordered-keep is_complete cs o) h in
    let (listed, complete) = In-keep is_complete c cs m in
    (listed, complete, λ d n e. before d (In-keep_of is_complete d cs n e))

module _ (os : Os) where
  nothing : (cs : List Checkpoint) → some [] ≡ some cs → [] ≡ cs
  nothing cs h = ground arith

  pub read-Ordered : (d : Directory) (cs : List Checkpoint) → read os d ≡ some cs → Ordered cs
  unfolding read Ordered
  read-Ordered missing cs h = subst Ordered (nothing cs h) tt
  read-Ordered sealed cs h = subst Ordered (nothing cs h) tt
  read-Ordered (listing items) cs h = elim (Option-cases (read_items os items)) [
    | inl e ↦ absurd (ground (arith, h, e))
    | inr (found, e) ↦ subst Ordered (ground (arith, h, e)) (in_order-Ordered found)
  ]

  -- If `latest` returns a checkpoint and `read` a list that holds one that can be resumed from, then the checkpoint of `latest` is of the list and can be resumed from, and the other is the same one, or has a smaller step, or the same step and an earlier or equal time.
  pub latest-IsNewest :
      (d : Directory) (c o : Checkpoint) (cs : List Checkpoint)
      → latest os d ≡ some (some c)
      → read os d ≡ some cs
      → In o cs
      → o.complete ≡ true
      → In c cs × (c.complete ≡ true) × ((o ≡ c) ⊎ Before o c)
  unfolding latest
  latest-IsNewest d c o cs h e m t =
      let (listed, complete, before) =
        latest_of-Newest c cs (read-Ordered d cs e) (ground (arith, h, e)) in
      (listed, complete, before o m t)
