-- ===== src/Executor/World.antt =====
-- What the executor of nawat/executor.py works on: the runs, the cancel files, the leases, and the parts that it calls.
use nawat.Prelude.{ℕ, Bool, List, ◌∷◌, Option, none, same, some_of}
use nawat.Prelude.Text.{Text, text_eq, Text-discrete}
use nawat.Errors.{Result}
use nawat.Keys.{Key}
use nawat.Process.{Host}
use nawat.Leases.{Registry}
use nawat.Runs.{RunSpec, RunRecord, Store, Changes, update, get}

-- `Plan`; the command is the interpreter with the script.
pub record Plan : Type 0 where
  pub script : Text
  pub out_dir : Text
  pub inputs : List (Key × Text)
  pub checkpoint_dir : Text
  pub resume_from : Option Text

-- The state that the executor changes: the table of runs, the runs with a cancel file, the leases, the next UUID, and all the rest (the cache, object storage, the files of lineages).
pub record World (S : Type 0) : Type 0 where
  pub runs : Store
  pub cancels : List Text
  pub leases : Registry
  pub uuid : ℕ
  pub rest : S

-- The parts that the executor calls. A call that fails raises.
pub record Parts (S : Type 0) : Type 0 where
  pub host : Host
  pub pid : ℕ
  pub time : S → ℕ
  pub require_experiment : Text → S → Result (Unit {0})
  pub resolve_script : Text → S → Result Text
  pub resolve : Key → S → S × Result Text  -- `cache.resolve(key, lease=False)`
  pub make_output_dir : Text → S → S × Result Text
  pub lineage_dir : RunSpec → Result Text
  pub discard : Text → S → S
  pub note_owner : Text → RunRecord → S → S × Result (Unit {0})  -- with the `mkdir` before it
  pub latest : Text → S → Result (Option Text)
  pub settle : Text → Bool → Bool → S → S × Result (Option Text)
  pub start : RunRecord → Plan → S → S × Result ℕ  -- the log's header and `Popen`
  pub wait : Text → ℕ → World S → World S × ℕ  -- `process.wait()`, while other processes go on
  pub artifact_classes : Plan → S → S × Result (List Text)  -- the loose files are moved first
  pub publish : Text → Key → S → S × Result (Unit {0})  -- `cache.publish`
  pub replicate : Text → Key → S → S × Result (Unit {0})  -- `cache.store.publish`
  pub publish_record : RunRecord → S → S × Result (Unit {0})
  pub finalize : Text → S → S  -- catches what it raises

abbrev pub no_changes : Changes
no_changes = record {
  state = none;
  started_at = none;
  finished_at = none;
  exit_code = none;
  pid = none;
  error = none;
  artifacts = none;
  description = none;
  checkpoint = none;
  name = none;
}

module _ {S : Type 0} where
  -- A call that changes only the rest.
  abbrev pub on_rest : {A : Type 0} → (S → S × Result A) → World S → World S × Result A
  on_rest f w = (record w { rest = (f w.rest).0 }, (f w.rest).1)

  -- A call that reads only.
  abbrev pub reading : {A : Type 0} → Result A → World S → World S × Result A
  reading r w = (w, r)

  unfoldable pub get_run : Text → World S → World S × Result RunRecord
  get_run run_id w = (w, get run_id w.runs)

  unfoldable pub update_run : Text → Changes → World S → World S × Result RunRecord
  update_run run_id changes w =
      (record w { runs = (update run_id changes w.runs).0 }, (update run_id changes w.runs).1)

  unfoldable pub cancel_requested : Text → World S → Bool
  unfolding Text-discrete
  cancel_requested run_id w = some_of (λ i. same i run_id) w.cancels

  unfoldable pub request_cancel : Text → World S → World S
  request_cancel run_id w = record w { cancels = run_id ∷ w.cancels }
