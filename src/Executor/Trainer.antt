-- ===== src/Executor/Trainer.antt =====
-- The trainer of a run, in nawat/executor.py.
use nawat.Prelude.{ℕ, some, if◌then◌else◌}
use nawat.Prelude.Text.{Text, text, text_eq}
use nawat.Errors.{Result, ◌▷◌}
use nawat.Keys.{key_eq}
use nawat.Runs.{RunState, running, cancelled, RunRecord, Changes}
use nawat.Executor.World.{Plan, World, Parts, on_rest, update_run, cancel_requested, no_changes}

module _ {S : Type 0} (parts : Parts S) where
  abbrev pub finishing : RunState → World S → Changes
  finishing state w = record no_changes {
    state = some state;
    finished_at = some (some (parts.time w.rest));
  }

  abbrev pub cancelled_changes : ℕ → World S → Changes
  cancelled_changes code w = record (finishing cancelled w) {
    exit_code = some (some code);
    error = some (some (text "Cancelled."));
  }

  abbrev pub exit_changes : ℕ → Changes
  exit_changes code = record no_changes { exit_code = some (some code) }

  abbrev pub never_started : World S → Changes
  never_started w = record (finishing cancelled w) {
    error = some (some (text "Cancelled before it started."));
  }

  -- After the trainer has exited.
  unfoldable pub after_exit : Text → World S × ℕ → World S × Result RunRecord
  after_exit run_id (w, code) =
      if cancel_requested run_id w
      then update_run run_id (cancelled_changes code w) w
      else update_run run_id (exit_changes code) w

  unfoldable pub await_process : ℕ → RunRecord → World S → World S × Result RunRecord
  await_process pid r w = after_exit r.id (parts.wait r.id pid w)

  unfoldable pub run_started : RunRecord → ℕ → World S → World S × Result RunRecord
  run_started r pid w =
      update_run r.id (record no_changes { state = some running; pid = some (some pid) }) w
      ▷ await_process pid

  unfoldable pub run_process : RunRecord → Plan → World S → World S × Result RunRecord
  run_process r p w =
      if cancel_requested r.id w
      then update_run r.id (never_started w) w
      else (on_rest (parts.start r p) w ▷ run_started r)
