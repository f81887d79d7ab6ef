-- ===== src/Runs/Rows.antt =====
-- The rows of the table of runs under the updates of `reconcile`, nawat/runs.py.
use nawat.Prelude.{
  ℕ, ◌≡◌, refl, sym, ap, ◌∙◌, subst, true, false, ◌⊎◌, inl, inr, List, [], ◌∷◌, map, Option, some,
  Bool-cases, same, same→eq, same_refl, In, All, arith,
}
use nawat.Prelude.Text.{Text, text_eq, Text-discrete}
use nawat.Prelude.Dict
use nawat.Errors.{ok}
use nawat.Runs.{
  failed, RunRecord, Store, Changes, find, find_row, get, apply, put_row, update, write_update,
  write_record_file, validate_run_id, changed_artifacts, changed_name,
}
use nawat.Runs.Reconcile.{or_now, or_old, not_survived, failure}

pub put_row-In :
    (u x : RunRecord) (rows : List RunRecord)
    → In x (put_row u rows)
    → (x ≡ u) ⊎ (In x rows × (same x.id u.id ≡ false))
unfolding put_row Text-discrete
put_row-In u x [] m = absurd m
put_row-In u x (y ∷ rows) m = elim (Bool-cases (same y.id u.id)) [
  | inl e ↦ ground (arith, e, put_row-In u x rows)
  | inr e ↦ elim (kept e) [
    | inl p ↦ inr (inl p, subst (λ t. same t u.id ≡ false) (sym (ap (λ z. z.id) p)) e)
    | inr n ↦ elim (put_row-In u x rows n) [ inl p ↦ inl p | inr (k, d) ↦ inr (inr k, d) ]
  ]
]
  where
    kept : same y.id u.id ≡ false → (x ≡ y) ⊎ In x (put_row u rows)
    kept e = ground (arith, e, m)

abbrev pub ids : List RunRecord → List Text
ids rows = map (λ (r : RunRecord). r.id) rows

pub ids-put_row : (u : RunRecord) (rows : List RunRecord) → ids (put_row u rows) ≡ ids rows
unfolding put_row Text-discrete
ids-put_row u [] = refl
ids-put_row u (y ∷ rows) = elim (Bool-cases (same y.id u.id)) [
  | inl e ↦
      rw e (
        ap (λ t. u.id ∷ t) (ids-put_row u rows)
        ∙ ap (λ i. i ∷ ids rows) (sym (same→eq y.id u.id e)))
  | inr e ↦ rw e (ap (λ t. y.id ∷ t) (ids-put_row u rows))
]

pub find_row_In :
    (i : Text) (rows : List RunRecord)
    → In i (ids rows)
    → (x : RunRecord) × (find_row i rows ≡ some x) × (x.id ≡ i)
unfolding find_row Text-discrete
find_row_In i [] m = absurd m
find_row_In i (y ∷ rows) m = elim (Bool-cases (same y.id i)) [
  | inl e ↦ (y, rw e refl, same→eq y.id i e)
  | inr e ↦ let (x, f, g) = find_row_In i rows (tail e) in (x, rw e f, g)
]
  where
    differ : same y.id i ≡ false → same y.id i ≡ true → ⊥
    differ a b = ground (arith, a, b)

    tail : same y.id i ≡ false → In i (ids rows)
    tail e = elim m [
      | inl p ↦ absurd (differ e (subst (λ t. same t i ≡ true) p (same_refl i)))
      | inr n ↦ n
    ]

-- Every id of the table is one that `validate_run_id` accepts.
abbrev pub ValidIds : List RunRecord → Type 0
ValidIds rows = (i : Text) → In i (ids rows) → validate_run_id i ≡ ok i

pub updated_row : RunRecord → ℕ → Option Text → RunRecord → RunRecord
updated_row x now path r = record {
  id = x.id;
  spec = x.spec;
  state = failed;
  submitted_at = x.submitted_at;
  started_at = x.started_at;
  finished_at = some (or_now r.finished_at now);
  exit_code = x.exit_code;
  pid = x.pid;
  error = some not_survived;
  artifacts = x.artifacts;
  description = x.description;
  checkpoint = or_old path r.checkpoint;
  name = x.name;
}

pub update_found :
    (changes : Changes) (i : Text) (s : Store) (x u : RunRecord)
    → find_row i s.rows ≡ some x
    → apply changes x ≡ ok u
    → validate_run_id u.id ≡ ok u.id
    → update i changes s
      ≡ (record { rows = put_row u s.rows; files = Dict.put u.id u s.files }, ok u)
unfolding update get find write_update write_record_file
update_found changes i s x u f a v = ground (arith, f, a, v)

-- The update of a run that is in the table, by changes of neither its artifacts nor its name, replaces its rows by one with the new state.
pub update-put_row :
    (r : RunRecord) (now : ℕ) (path : Option Text) (s : Store)
    → ValidIds s.rows
    → In r.id (ids s.rows)
    → (u : RunRecord) × (s' : Store) × (update r.id (failure now path r) s ≡ (s', ok u))
      × (u.id ≡ r.id)
      × (u.state ≡ failed)
      × (s'.rows ≡ put_row u s.rows)
unfolding apply changed_artifacts changed_name updated_row
update-put_row r now path s valid m =
    let (x, f, e) = find_row_In r.id s.rows m in
    let fine : validate_run_id x.id ≡ ok x.id =
      subst (λ t. validate_run_id t ≡ ok t) (sym e) (valid r.id m) in
    let u : RunRecord = updated_row x now path r in
    (
      u,
      record { rows = put_row u s.rows; files = Dict.put u.id u s.files },
      update_found (failure now path r) r.id s x u f refl fine,
      e,
      refl,
      refl,
    )

pub everywhere :
    (P : RunRecord → Type 0) (rows : List RunRecord)
    → ((x : RunRecord) → In x rows → P x)
    → All P rows
everywhere P [] f = tt
everywhere P (x ∷ rows) f = (f x (inl refl), everywhere P rows (λ y m. f y (inr m)))
