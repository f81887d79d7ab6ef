-- ===== src/Runs/Rebuild.antt =====
-- `rebuild_from_disk` of nawat/runs.py: runs that the database has forgotten come back from their files.
use nawat.Prelude.{
  ℕ, ◌+◌, ◌≡◌, sym, ap, ◌∙◌, subst, List, [], ◌∷◌, ◌++◌, Option, none, some, Option-cases, inl, inr,
  same_refl, length, In, All, arith, refl, append-nil, append_assoc,
}
use nawat.Prelude.Text.{Text, text_eq, Text-discrete}
use nawat.Errors.{Result, ok, err}
use nawat.Runs.{RunRecord, Store, find, find_row, checkpoint_lineage}

-- What reading one `run.json` gives: a record, none for an exception that is caught, or one that is not (`Key.parse` raises `InvalidKey`).
abbrev pub RunFile : Type 0
RunFile = Result (Option RunRecord)

unfoldable pub restore : RunRecord → Store → Store
restore r s = record { rows = s.rows ++ r ∷ []; files = s.files }

-- The loop over the files, in the order of their paths; the number is `restored`. Each row is written with the JSON form of its spec, whose lineage may be refused.
module _ (hexdigest stem file_name : Text → Text) where
  unfoldable pub rebuild_loop : List RunFile → ℕ → Store → Store × Result ℕ
  rebuild_loop [] restored s = (s, ok restored)
  rebuild_loop (err e ∷ rest) restored s = (s, err e)
  rebuild_loop (ok none ∷ rest) restored s = rebuild_loop rest restored s
  rebuild_loop (ok (some r) ∷ rest) restored s =
      let kept = rebuild_loop rest restored s in
      let more = rebuild_loop rest (restored + 1) (restore r s) in
      elim (find r.id s) [
        | some old ↦ kept
        | none ↦ elim (checkpoint_lineage hexdigest stem file_name r.spec) [
          | err e ↦ (s, err e)
          | ok lineage ↦ more
        ]
      ]

  unfoldable pub rebuild_from_disk : List RunFile → Store → Store × Result ℕ
  rebuild_from_disk files s = rebuild_loop files 0 s

find_row-append :
    (i : Text) (rows more : List RunRecord) (r : RunRecord)
    → find_row i rows ≡ some r
    → find_row i (rows ++ more) ≡ some r
unfolding find_row Text-discrete
find_row-append i [] more r h = ground arith
find_row-append i (x ∷ rows) more r h = ground (arith, find_row-append i rows more r)

find_row-append_none :
    (r : RunRecord) (rows : List RunRecord)
    → find_row r.id rows ≡ none
    → find_row r.id (rows ++ r ∷ []) ≡ some r
unfolding find_row
find_row-append_none r [] h = ground (arith, same_refl r.id)
find_row-append_none r (x ∷ rows) h = ground (arith, find_row-append_none r rows)

find_row-append_other :
    (i : Text) (rows : List RunRecord) (r : RunRecord)
    → find_row i rows ≡ none
    → find_row i (r ∷ []) ≡ none
    → find_row i (rows ++ r ∷ []) ≡ none
unfolding find_row
find_row-append_other i [] r h e = e
find_row-append_other i (x ∷ rows) r h e = ground (arith, find_row-append_other i rows r)

-- A file that could be read has its run in the table.
pub Shown : Store → RunFile → Type 0
Shown s (err e) = ⊥
Shown s (ok none) = Unit
Shown s (ok (some r)) = (x : RunRecord) × (find r.id s ≡ some x)

-- The rows that go from one table to another: each is that of a file, had no row before, and is the one that is found after.
pub record Restored (files : List RunFile) (s s' : Store) (n : ℕ) : Type 0 where
  pub added : List RunRecord
  pub rows : s'.rows ≡ s.rows ++ added
  pub untouched : s'.files ≡ s.files
  pub number : length added ≡ n
  pub from_file : (x : RunRecord) → In x added → In (ok (some x)) files
  pub were_lost : (x : RunRecord) → In x added → find x.id s ≡ none
  pub are_found : (x : RunRecord) → In x added → find x.id s' ≡ some x
  pub shown : All (Shown s') files

kept_after :
    (i : Text) (r : RunRecord) (s s' : Store) (added : List RunRecord)
    → s'.rows ≡ s.rows ++ added
    → find i s ≡ some r
    → find i s' ≡ some r
unfolding find
kept_after i r s s' added e h = ap (find_row i) e ∙ find_row-append i s.rows added r h

find-restore : (y : RunRecord) (s : Store) → find y.id s ≡ none → find y.id (restore y s) ≡ some y
unfolding find restore
find-restore y s e = find_row-append_none y s.rows e

lost_before : (i : Text) (y : RunRecord) (s : Store) → find i (restore y s) ≡ none → find i s ≡ none
lost_before i y s h = elim (Option-cases (find i s)) [
  | inl e ↦ e
  | inr (x, e) ↦
      absurd (ground (arith, h, kept_after i x s (restore y s) (y ∷ []) (unfold restore in refl) e))
]

Restored-cons :
    (f : RunFile) (rest : List RunFile) (s s' : Store) (n : ℕ)
    → (((added : List RunRecord) → s'.rows ≡ s.rows ++ added → Shown s' f))
    → Restored rest s s' n
    → Restored (f ∷ rest) s s' n
Restored-cons f rest s s' n here u = record {
  added = u.added;
  rows = u.rows;
  untouched = u.untouched;
  number = u.number;
  from_file = λ x m. inr (u.from_file x m);
  were_lost = u.were_lost;
  are_found = u.are_found;
  shown = (here u.added u.rows, u.shown);
}

Restored-new :
    (y : RunRecord) (rest : List RunFile) (s s' : Store) (n : ℕ)
    → find y.id s ≡ none
    → Restored rest (restore y s) s' n
    → Restored (ok (some y) ∷ rest) s s' (1 + n)
unfolding restore Shown
Restored-new y rest s s' n lost u = record {
  added = y ∷ u.added;
  rows = u.rows ∙ append_assoc s.rows (y ∷ []) u.added;
  untouched = u.untouched;
  number = omega (arith, u.number);
  from_file =
      λ x m. elim m [ inl p ↦ inl (ap (λ t. ok (some t)) p) | inr k ↦ inr (u.from_file x k) ];
  were_lost = λ x m. elim m [
    | inl p ↦ subst (λ (t : RunRecord). find t.id s ≡ none) (sym p) lost
    | inr k ↦ lost_before x.id y s (u.were_lost x k)
  ];
  are_found = λ x m. elim m [
    | inl p ↦ subst (λ (t : RunRecord). find t.id s' ≡ some t) (sym p) found
    | inr k ↦ u.are_found x k
  ];
  shown = ((y, found), u.shown);
}
  where
    found : find y.id s' ≡ some y
    found = kept_after y.id y (restore y s) s' u.added u.rows (find-restore y s lost)

module _ (hexdigest stem file_name : Text → Text) where
  Adds : List RunFile → ℕ → ℕ → Store → Store × Result ℕ → Type 0
  Adds files k m s o = o.1 ≡ ok m → (n : ℕ) × (k + n ≡ m) × Restored files s o.0 n

  rebuild_loop-Restored :
      (files : List RunFile) (k m : ℕ) (s : Store)
      → Adds files k m s (rebuild_loop hexdigest stem file_name files k s)
  unfolding rebuild_loop Adds Shown
  rebuild_loop-Restored [] k m s h = (
    0,
    ground (arith, h),
    record {
      added = [];
      rows = sym (append-nil s.rows);
      untouched = refl;
      number = refl;
      from_file = λ x m. absurd m;
      were_lost = λ x m. absurd m;
      are_found = λ x m. absurd m;
      shown = tt;
    },
  )
  rebuild_loop-Restored (err e ∷ rest) k m s h = absurd (ground (arith, h))
  rebuild_loop-Restored (ok none ∷ rest) k m s h =
      let (n, sum, u) = rebuild_loop-Restored rest k m s h in
      (n, sum, Restored-cons (ok none) rest s _ n (λ added e. tt) u)
  rebuild_loop-Restored (ok (some y) ∷ rest) k m s h =
      branch (find y.id s) refl (checkpoint_lineage hexdigest stem file_name y.spec)
        (rebuild_loop-Restored rest k m s) (rebuild_loop-Restored rest (k + 1) m (restore y s)) h
    where
      kept : Store × Result ℕ
      kept = rebuild_loop hexdigest stem file_name rest k s

      more : Store × Result ℕ
      more = rebuild_loop hexdigest stem file_name rest (k + 1) (restore y s)

      branch :
          (o : Option RunRecord)
          → find y.id s ≡ o
          → (l : Result Text) → Adds rest k m s kept
          → Adds rest (k + 1) m (restore y s) more
          → Adds
              (ok (some y) ∷ rest)
              k
              m
              s
              (elim o [ some old ↦ kept | none ↦ elim l [ err e ↦ (s, err e) | ok t ↦ more ] ])
      branch (some old) e l keeps adds h =
          let (n, sum, u) = keeps h in
          (
            n,
            sum,
            Restored-cons (ok (some y)) rest s kept.0 n
                (λ added p. (old, kept_after y.id old s kept.0 added p e)) u,
          )
      branch none e (err x) keeps adds h = absurd (ground (arith, h))
      branch none e (ok t) keeps adds h =
          let (n, sum, u) = adds h in
          (1 + n, omega (arith, sum), Restored-new y rest s more.0 n e u)

  -- If `rebuild_from_disk` returns a number, it has put that many rows at the end of the table and left every other row and every file as it was; each new row is a record of one of the files, had no row before and is the one that is found now; none of the files ended the loop, and the run of each file that could be read is found.
  pub rebuild_from_disk-Restored :
      (files : List RunFile) (s : Store) (m : ℕ)
      → (rebuild_from_disk hexdigest stem file_name files s).1 ≡ ok m
      → Restored files s (rebuild_from_disk hexdigest stem file_name files s).0 m
  unfolding rebuild_from_disk Adds
  rebuild_from_disk-Restored files s m h =
      let (n, sum, u) = rebuild_loop-Restored files 0 m s h in
      subst (Restored files s (rebuild_loop hexdigest stem file_name files 0 s).0)
        (omega (arith, sum)) u
