-- ===== src/Leases/Reaping.antt =====
-- Which leases the registry of nawat/leases.py clears, and which it reports.
use nawat.Prelude.{
  ℕ, ◌≡◌, ◌≢◌, ◌↔◌, ◌⊎◌, inl, inr, refl, ap, sym, subst, ◌∙◌, Bool, true, false, not, ◌||◌, List,
  [], ◌∷◌, same, same→eq, keep, is_nil, In, In-keep, In-keep_of, some_of_In, arith, Bool-cases,
  ◌==◌, if◌then◌else◌,
}
use nawat.Prelude.Sort.{sort_by, In-sort_by, In-sort_by_of, keep_ext, In-some_of, In-map, In-map_of}
use nawat.Keys.{Key, key_eq}
use nawat.Process.{Host}
use nawat.Leases.{LeaseRecord, Registry, alive, release, all, ids_of, listed, reap, live, live_for}

-- Two rows with one id are one row: the ids are fresh UUIDs.
abbrev pub UniqueIds : List LeaseRecord → Type 0
UniqueIds t = (a b : LeaseRecord) → In a t → In b t → a.id ≡ b.id → a ≡ b

eq_test : (a b : ℕ) → (a == b) ≡ true → a ≡ b
eq_test a b h = ground arith

eq_self : (a : ℕ) → (a == a) ≡ true
eq_self a = ground arith

not-not-true : (b : Bool) → not b ≡ true → b ≡ false
not-not-true b h = ground arith

-- A row is listed by the ids of the rows that pass a test exactly if it passes it itself.
module _ (t : List LeaseRecord) (unique : UniqueIds t) (p : LeaseRecord → Bool)
    (rows : List LeaseRecord) (within : (r : LeaseRecord) → In r rows → In r t) where
  listed-keep_of :
      (r : LeaseRecord) → In r rows → p r ≡ true → listed (ids_of (keep p rows)) r ≡ true
  listed-keep_of r m h =
      some_of_In (λ i. i == r.id) r.id (ids_of (keep p rows))
        (In-map_of (λ (x : LeaseRecord). x.id) r (keep p rows) (In-keep_of p r rows m h))
        (eq_self r.id)

  listed-keep :
      (r : LeaseRecord) → In r t → listed (ids_of (keep p rows)) r ≡ true → In r rows × (p r ≡ true)
  listed-keep r m h =
      let (i, mi, e) = In-some_of (λ i. i == r.id) (ids_of (keep p rows)) h in
      let (x, mx, ex) = In-map (λ (x : LeaseRecord). x.id) i (keep p rows) mi in
      let (there, passes) = In-keep p x rows mx in
      let one : x ≡ r = unique x r (within x there) m (sym ex ∙ eq_test i r.id e) in
      (subst (λ y. In y rows) one there, subst (λ y. p y ≡ true) one passes)

  -- What a row's test says once the listed rows are known.
  listed_lem :
      (r : LeaseRecord) → In r t → (p r ≡ true → In r rows) → listed (ids_of (keep p rows)) r ≡ p r
  listed_lem r m back = elim (Bool-cases (p r)) [
    | inl e ↦ listed-keep_of r (back e) e ∙ sym e
    | inr e ↦ elim (Bool-cases (listed (ids_of (keep p rows)) r)) [
      | inl l ↦ absurd (cc (e, (listed-keep r m l).1))
      | inr l ↦ l ∙ sym e
    ]
  ]

not-not : (b : Bool) → not (not b) ≡ b
not-not true = refl
not-not false = refl

keep_all : (xs : List LeaseRecord) → keep (λ _. true) xs ≡ xs
keep_all [] = refl
keep_all (x ∷ xs) = ap (λ t. x ∷ t) (keep_all xs)

cleared_lem :
    (g : Registry) (d : List LeaseRecord)
    → (if is_nil d then g else (release (ids_of d) g).0)
      ≡ record g { table = keep (λ r. not (listed (ids_of d) r)) g.table }
unfolding release
cleared_lem g [] = ap (λ t. record g { table = t }) (sym (keep_all g.table))
cleared_lem g (x ∷ d) = refl

module _ (host : Host) (g : Registry) (unique : UniqueIds g.table) where
  -- Reaping keeps the rows of the running processes, in their order, and no other.
  pub reap_lem : (reap host g).0 ≡ record g { table = keep (alive host g.boot) g.table }
  unfolding reap
  reap_lem =
      ap (λ l. record g { table = l })
        (keep_ext _ (alive host g.boot) g.table λ r m.
          ap not (
            listed_lem g.table unique (λ x. not (alive host g.boot x)) (all g)
              (λ x. In-sort_by (λ y. y.acquired_at) x g.table) r m
              (λ _. In-sort_by_of (λ y. y.acquired_at) r g.table m))
          ∙ not-not (alive host g.boot r))

  held : List LeaseRecord
  held = keep (alive host g.boot) g.table

  -- The state that `live` leaves, and its report, with the dead leases gone.
  live_lem :
      live host g
      ≡ (record g { table = held }, keep (alive host g.boot) (sort_by (λ y. y.acquired_at) held))
  unfolding live held
  live_lem = ap (λ (g' : Registry). (g', keep (alive host g'.boot) (all g'))) reap_lem

  -- `live` reports exactly the leases that running processes hold, and leaves exactly those.
  pub live-held :
      (r : LeaseRecord)
      → (In r (live host g).1 ↔ (In r g.table × (alive host g.boot r ≡ true)))
        × (In r (live host g).0.table ↔ (In r g.table × (alive host g.boot r ≡ true)))
  unfolding held
  live-held r = rw live_lem (reported, left)
    where
      left : In r held ↔ (In r g.table × (alive host g.boot r ≡ true))
      left = (
        In-keep (alive host g.boot) r g.table,
        λ m. In-keep_of (alive host g.boot) r g.table m.0 m.1,
      )

      reported :
          In r (keep (alive host g.boot) (sort_by (λ y. y.acquired_at) held))
          ↔ (In r g.table × (alive host g.boot r ≡ true))
      reported = (
        λ m. left.0 (In-sort_by (λ y. y.acquired_at) r held (In-keep (alive host g.boot) r _ m).0),
        λ m.
            In-keep_of (alive host g.boot) r _
              (In-sort_by_of (λ y. y.acquired_at) r held (left.1 m)) m.1,
      )

  module _ (key : Key) where
    rows : List LeaseRecord
    rows = keep (λ r. same r.key key) g.table

    dead : List LeaseRecord
    dead = keep (λ r. not (alive host g.boot r)) rows

    -- Rows of other keys, and those of running processes, stay.
    spared : LeaseRecord → Bool
    spared r = alive host g.boot r || not (same r.key key)

    spared_lem : (r : LeaseRecord) → In r g.table → not (listed (ids_of dead) r) ≡ spared r
    unfolding spared dead rows
    spared_lem r m = elim (Bool-cases (same r.key key)) [
      | inl e ↦
          ap not (
            listed_lem g.table unique (λ x. not (alive host g.boot x)) rows
              (λ x n. (In-keep (λ y. same y.key key) x g.table n).0) r m
              (λ _. In-keep_of (λ y. same y.key key) r g.table m e))
          ∙ ground arith
      | inr e ↦ elim (Bool-cases (listed (ids_of dead) r)) [
        | inl l ↦ absurd (
            cc (
              e,
              (In-keep (λ y. same y.key key) r g.table
                  (listed-keep g.table unique (λ x. not (alive host g.boot x)) rows
                    (λ x n. (In-keep (λ y. same y.key key) x g.table n).0) r m l).0).1,
            ))
        | inr l ↦ ground arith
      ]
    ]

    live_for_lem :
        live_for host key g
        ≡ (record g { table = keep spared g.table }, keep (alive host g.boot) rows)
    unfolding live_for dead rows
    live_for_lem =
        ap (λ (h : Registry). (h, keep (alive host g.boot) rows))
          (cleared_lem g dead
            ∙ ap (λ t. record g { table = t }) (keep_ext _ spared g.table spared_lem))

    spared_iff :
        (r : LeaseRecord) → (spared r ≡ true) ↔ ((alive host g.boot r ≡ true) ⊎ (r.key ≢ key))
    unfolding spared
    spared_iff r = ground arith

    -- `live_for` reports exactly the leases of its key that running processes hold. Of the table
    -- it clears exactly the key's other leases.
    pub live_for-held :
        (r : LeaseRecord)
        → (In r (live_for host key g).1
            ↔ (In r g.table × (r.key ≡ key) × (alive host g.boot r ≡ true)))
          × (In r (live_for host key g).0.table
              ↔ (In r g.table × ((alive host g.boot r ≡ true) ⊎ (r.key ≢ key))))
    unfolding rows
    live_for-held r = rw live_for_lem (
      (
        λ m.
            let (row, runs) = In-keep (alive host g.boot) r rows m in
            let (there, ours) = In-keep (λ y. same y.key key) r g.table row in
            (there, same→eq r.key key ours, runs),
        λ m.
            In-keep_of (alive host g.boot) r rows
              (In-keep_of (λ y. same y.key key) r g.table m.0 (ground (arith, m.1))) m.2,
      ),
      (
        λ m. let (there, ok) = In-keep spared r g.table m in (there, (spared_iff r).0 ok),
        λ m. In-keep_of spared r g.table m.0 ((spared_iff r).1 m.1),
      ),
    )

pub reap-UniqueIds :
    (host : Host) (g : Registry) → UniqueIds g.table → UniqueIds (reap host g).0.table
reap-UniqueIds host g unique =
    subst (λ (h : Registry). UniqueIds h.table) (sym (reap_lem host g unique))
      λ a b m n e.
        unique a b (In-keep (alive host g.boot) a g.table m).0
          (In-keep (alive host g.boot) b g.table n).0 e

pub live-UniqueIds :
    (host : Host) (g : Registry) → UniqueIds g.table → UniqueIds (live host g).0.table
unfolding live
live-UniqueIds host g unique = reap-UniqueIds host g unique

-- A lease of a running process, in a table whose ids are unique.
pub record Survives (host : Host) (g : Registry) (r : LeaseRecord) : Type 0 where
  pub unique : UniqueIds g.table
  pub there : In r g.table
  pub runs : alive host g.boot r ≡ true

module _ (host : Host) (g : Registry) (r : LeaseRecord) (s : Survives host g r) where
  pub reap-Survives : Survives host (reap host g).0 r
  reap-Survives =
      subst (λ h. Survives host h r) (sym (reap_lem host g s.unique))
        (record {
          unique = λ a b m n e.
              s.unique a b (In-keep (alive host g.boot) a g.table m).0
                (In-keep (alive host g.boot) b g.table n).0 e;
          there = In-keep_of (alive host g.boot) r g.table s.there s.runs;
          runs = s.runs;
        })

  pub live-Survives : Survives host (live host g).0 r
  unfolding live
  live-Survives = reap-Survives

  pub live-reports : In r (live host g).1
  live-reports = (live-held host g s.unique r).0.1 (s.there, s.runs)
