-- ===== src/Examples/Runs.antt =====
-- nawat/runs.py on a store of two runs, one of them lost by a restart.
use nawat.Prelude.{
  ℕ, ◌≡◌, ◌↔◌, ◌⊎◌, inl, inr, refl, sym, ap, ◌∙◌, true, false, [], ◌∷◌, List, none, some, All,
  arith,
}
use nawat.Prelude.Text.{Text, text, starts_with, strip, lstrip, rstrip}
use nawat.Errors.{ok}
use nawat.Keys.{is_alnum}
use nawat.Checkpoints.{default_policy}
use nawat.Checkpoints.Names.{
  is_word, matches_upto, matches_name, lineage_name, sanitize, replace_unsafe, take,
}
use nawat.Runs.{
  RunState, queued, running, active, is_queued, RunRecord, Store, find, find_row,
  checkpoint_lineage, staged_keys, add_new, validate_run_id,
}
use nawat.Runs.Queue.{UniqueRunIds, queued_before, next_queued, next_queued_iff}
use nawat.Runs.Reconcile.{reconcile, survives}
use nawat.Runs.Rows.{ValidIds}
use nawat.Runs.History.{reconcile-Survives}
use nawat.Runs.Rebuild.{
  RunFile, rebuild_from_disk, rebuild_loop, restore, Restored, rebuild_from_disk-Restored,
}

abbrev run : Text → RunState → ℕ → RunRecord
run id state at = record {
  id = id;
  spec = record {
    script = text "train.py";
    model = none;
    datasets = [];
    inputs = [];
    params = [];
    notes = [];
    checkpoints = default_policy;
  };
  state = state;
  submitted_at = at;
  started_at = none;
  finished_at = none;
  exit_code = none;
  pid = some 41;
  error = none;
  artifacts = [];
  description = none;
  checkpoint = none;
  name = none;
}

abbrev waiting : RunRecord
waiting = run (text "b") queued 9

abbrev lost : RunRecord
lost = run (text "a") running 5

abbrev store : Store
store = record { rows = waiting ∷ lost ∷ []; files = [] }

program : Unit {0}
unfolding find find_row validate_run_id matches_name matches_upto is_word is_alnum starts_with
    is_queued rebuild_from_disk rebuild_loop restore checkpoint_lineage staged_keys add_new
    lineage_name sanitize replace_unsafe take strip lstrip rstrip
program = tt

differ : waiting.id ≡ lost.id → ⊥
unfolding program
differ h = not_both (ap (starts_with (text "b")) h)
  where
    not_both : true ≡ false → ⊥
    not_both e = ground arith

unique : UniqueRunIds store.rows
unique i j (inl p) (inl q) e = p ∙ sym q
unique i j (inl p) (inr (inl q)) e = absurd (differ (sym (ap (λ x. x.id) p) ∙ e ∙ ap (λ x. x.id) q))
unique i j (inr (inl p)) (inl q) e =
    absurd (differ (sym (ap (λ x. x.id) q) ∙ sym e ∙ ap (λ x. x.id) p))
unique i j (inl p) (inr (inr x)) e = absurd x
unique i j (inr (inl p)) (inr (inr x)) e = absurd x
unique i j (inr (inr x)) b e = absurd x
unique i j (inr (inl p)) (inr (inl q)) e = p ∙ sym q

valid : ValidIds store.rows
unfolding program
valid i (inl p) = rw p refl
valid i (inr (inl p)) = rw p refl
valid i (inr (inr x)) = absurd x

next_queued_iff_example : (queued_before waiting store ≡ []) ↔ (next_queued store ≡ some waiting)
unfolding program
next_queued_iff_example = next_queued_iff store waiting unique (inl refl) refl

reconcile-Survives_example :
    (s' : Store) × (us : List RunRecord) × (reconcile (λ pid. false) 20 (λ r. ok none) store
      ≡ (s', ok us))
    × All (λ x. (active x.state ≡ false) ⊎ (survives (λ pid. false) x ≡ true)) s'.rows
reconcile-Survives_example =
    reconcile-Survives (λ pid. false) 20 (λ r. ok none) store (λ r. (none, refl)) valid

abbrev files : List RunFile
files = ok none ∷ ok (some (run (text "c") queued 3)) ∷ ok (some lost) ∷ []

rebuilt : (rebuild_from_disk (λ t. text "0123456789") (λ t. t) (λ t. t) files store).1 ≡ ok 1
unfolding program nawat.Checkpoints.Names.validate
rebuilt = refl

rebuild_from_disk-Restored_example :
    Restored files store
      (rebuild_from_disk (λ t. text "0123456789") (λ t. t) (λ t. t) files store).0
      1
rebuild_from_disk-Restored_example =
    rebuild_from_disk-Restored (λ t. text "0123456789") (λ t. t) (λ t. t) files store 1 rebuilt
