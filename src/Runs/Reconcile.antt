-- ===== src/Runs/Reconcile.antt =====
-- Reading and repairing the history of runs, nawat/runs.py.
use nawat.Prelude.{ℕ, Bool, false, List, [], ◌∷◌, Option, none, some, ◌==◌, if◌then◌else◌, keep}
use nawat.Prelude.Text.{Text, text, text_eq}
use nawat.Prelude.Sort.{sort_by}
use nawat.Errors.{Result, ok, err, ◌▷◌}
use nawat.Runs.{failed, active, RunRecord, Store, Changes, update}

-- `RunStore.active`: the active runs, by the time of their submission.
unfoldable pub active_runs : Store → List RunRecord
active_runs s =
    sort_by (λ (r : RunRecord). r.submitted_at) (keep (λ (r : RunRecord). active r.state) s.rows)

-- `record.pid is not None and is_alive(record.pid)`
unfoldable pub survives : (ℕ → Bool) → RunRecord → Bool
survives is_alive r = elim r.pid [ none ↦ false | some pid ↦ is_alive pid ]

-- `record.finished_at or time.time()`
abbrev pub or_now : Option ℕ → ℕ → ℕ
or_now none now = now
or_now (some t) now = if t == 0 then now else t

abbrev pub or_old : Option Text → Option Text → Option Text
or_old none old = old
or_old (some path) old = some path

unfoldable pub not_survived : Text
not_survived = text "The run did not survive a restart of the platform."

abbrev pub failure : ℕ → Option Text → RunRecord → Changes
failure now newest r = record {
  state = some failed;
  started_at = none;
  finished_at = some (some (or_now r.finished_at now));
  exit_code = none;
  pid = none;
  error = some (some not_survived);
  artifacts = none;
  description = none;
  checkpoint = some (or_old newest r.checkpoint);
  name = none;
}

module _ (is_alive : ℕ → Bool) (now : ℕ) (newest : RunRecord → Result (Option Text)) where
  unfoldable pub recover : RunRecord → Store → Store × Result RunRecord
  recover r s = elim (newest r) [
    | err e ↦ (s, err e)
    | ok path ↦ update r.id (failure now path r) s
  ]

  -- The loop of `reconcile`.
  unfoldable pub reconcile_loop : List RunRecord → Store → Store × Result (List RunRecord)
  reconcile_loop [] s = (s, ok [])
  reconcile_loop (r ∷ rest) s =
      if survives is_alive r
      then reconcile_loop rest s
      else (recover r s ▷ λ u s'. reconcile_loop rest s' ▷ λ us s''. (s'', ok (u ∷ us)))

  -- `reconcile`, where `newest` finds the path of the newest checkpoint of a run's lineage (none without a checkpoint root), or raises.
  unfoldable pub reconcile : Store → Store × Result (List RunRecord)
  reconcile s = reconcile_loop (active_runs s) s
