-- ===== src/Executor/Planning.antt =====
-- The plan of a run, in nawat/executor.py: its script, its output directory and its lineage of checkpoints.
use nawat.Prelude.{List, Option, none, if◌then◌else◌}
use nawat.Prelude.Text.{Text, text_eq}
use nawat.Errors.{Result, ok, ◌▷◌}
use nawat.Keys.{Key, key_eq}
use nawat.Runs.{RunRecord}
use nawat.Executor.World.{Plan, World, Parts, on_rest, reading}

module _ {S : Type 0} (parts : Parts S) where
  -- `prepare_checkpoints`, after the directory is known.
  unfoldable pub discard_lineage : RunRecord → Text → World S → World S
  discard_lineage r directory w =
      if r.spec.checkpoints.resume then w else record w { rest = parts.discard directory w.rest }

  unfoldable pub newest_of : RunRecord → Text → World S → Result (Option Text)
  newest_of r directory w =
      if r.spec.checkpoints.resume then parts.latest directory w.rest else ok none

  unfoldable pub find_newest :
      RunRecord → Text → Unit {0} → World S → World S × Result (Text × Option Text)
  find_newest r directory u w =
      reading (newest_of r directory w) w ▷ λ newest w₁. (w₁, ok (directory, newest))

  unfoldable pub open_lineage : RunRecord → Text → World S → World S × Result (Text × Option Text)
  open_lineage r directory w =
      on_rest (parts.note_owner directory r) (discard_lineage r directory w)
      ▷ find_newest r directory

  unfoldable pub prepare_checkpoints : RunRecord → World S → World S × Result (Text × Option Text)
  prepare_checkpoints r w = reading (parts.lineage_dir r.spec) w ▷ open_lineage r

  abbrev pub plan_with :
      Text → Text → List (Key × Text) → Text × Option Text → World S → World S × Result Plan
  plan_with script out_dir inputs c w = (
    w,
    ok (record {
      script = script;
      out_dir = out_dir;
      inputs = inputs;
      checkpoint_dir = c.0;
      resume_from = c.1;
    }),
  )

  unfoldable pub plan_lineage :
      RunRecord → List (Key × Text) → Text → Text → World S → World S × Result Plan
  plan_lineage r inputs script out_dir w = prepare_checkpoints r w ▷ plan_with script out_dir inputs

  unfoldable pub plan_script :
      RunRecord → List (Key × Text) → Text → World S → World S × Result Plan
  plan_script r inputs script w =
      on_rest (parts.make_output_dir r.id) w ▷ plan_lineage r inputs script

  unfoldable pub plan : RunRecord → List (Key × Text) → World S → World S × Result Plan
  plan r inputs w = reading (parts.resolve_script r.spec.script w.rest) w ▷ plan_script r inputs
