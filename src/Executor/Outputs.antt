-- ===== src/Executor/Outputs.antt =====
-- What nawat/executor.py publishes when a run has ended, and what it records.
use nawat.Prelude.{
  ℕ, Bool, true, false, List, [], ◌∷◌, ◌++◌, map, Option, none, some, if◌then◌else◌, ◌==◌, same,
  some_of,
}
use nawat.Prelude.Text.{Text, text, text_eq}
use nawat.Errors.{Result, ok, err, ◌▷◌}
use nawat.Keys.{Key, key_eq, Key-discrete}
use nawat.Keys
use nawat.Runs.{RunState, publishing, succeeded, failed, cancelled, RunRecord, publish_prefix}
use nawat.Executor.World.{Plan, World, Parts, on_rest, reading, update_run, no_changes}
use nawat.Executor.Trainer.{finishing}

abbrev pub is_cancelled : RunState → Bool
is_cancelled cancelled = true
is_cancelled _ = false

abbrev pub is_succeeded : RunState → Bool
is_succeeded succeeded = true
is_succeeded _ = false

abbrev pub exited_zero : Option ℕ → Bool
exited_zero none = false
exited_zero (some code) = code == 0

module _ {S : Type 0} (parts : Parts S) where
  -- The loop of `publish_outputs` over the artifact classes.
  unfoldable pub publish_classes :
      Text → List Text → List Text → World S → World S × Result (List Text)
  publish_classes prefix [] published w = (w, ok published)
  publish_classes prefix (name ∷ rest) published w =
      reading (Keys.parse (text "runs/" ++ prefix ++ b'/' ∷ name)) w ▷ λ key w₁.
      on_rest (parts.publish name key) w₁ ▷ λ u w₂.
      publish_classes prefix rest (published ++ Keys.str key ∷ []) w₂

  unfoldable pub publish_outputs : Text → Plan → World S → World S × Result (List Text)
  publish_outputs prefix p w =
      on_rest (parts.artifact_classes p) w ▷ λ classes w₁. publish_classes prefix classes [] w₁

  abbrev pub otherwise : List Text → World S × Result (List Text) → World S × Result (List Text)
  otherwise old (w, ok artifacts) = (w, ok artifacts)
  otherwise old (w, err e) = (w, ok old)

  -- `_publish_partial`
  unfoldable pub publish_partial : RunRecord → Plan → World S → World S × Result (List Text)
  publish_partial r p w =
      otherwise (map Keys.str r.artifacts) (publish_outputs (publish_prefix r) p w)

  unfoldable pub record_succeeded : RunRecord → List Text → World S → World S × Result RunRecord
  record_succeeded r artifacts w =
      update_run r.id (record (finishing parts succeeded w) { artifacts = some artifacts }) w

  -- The text of the source has the exit code.
  unfoldable pub record_failed : RunRecord → List Text → World S → World S × Result RunRecord
  record_failed r artifacts w =
      update_run r.id
        (record (finishing parts failed w) {
          artifacts = some artifacts;
          error = some (some (text "The training script exited with an error."));
        })
        w

  unfoldable pub finish_succeeded : RunRecord → Plan → World S → World S × Result RunRecord
  finish_succeeded r p w = publish_outputs (publish_prefix r) p w ▷ record_succeeded r

  unfoldable pub finish_failed : RunRecord → Plan → World S → World S × Result RunRecord
  finish_failed r p w = publish_partial r p w ▷ record_failed r

  unfoldable pub finish_published : Plan → RunRecord → World S → World S × Result RunRecord
  finish_published p r w =
      if exited_zero r.exit_code then finish_succeeded r p w else finish_failed r p w

  -- What follows the process, for a run that was not cancelled.
  unfoldable pub finish : RunRecord → Plan → World S → World S × Result RunRecord
  finish r p w =
      if is_cancelled r.state
      then (w, ok r)
      else (update_run r.id (record no_changes { state = some publishing }) w ▷ finish_published p)

  abbrev pub published_key : Key → World S × Result (Unit {0}) → World S × Result (Option Key)
  published_key key (w, ok u) = (w, ok (some key))
  published_key key (w, err e) = (w, ok none)

  unfoldable pub replicate_checkpoint : RunRecord → Text → World S → World S × Result (Option Key)
  replicate_checkpoint r path w =
      reading (Keys.parse (text "runs/" ++ publish_prefix r ++ text "/checkpoint")) w ▷ λ key w₁.
      published_key key (on_rest (parts.replicate path key) w₁)

  -- `reached is not None and record.spec.checkpoints.publish`
  unfoldable pub replicate_reached :
      RunRecord → Option Text → World S → World S × Result (Option Key)
  replicate_reached r none w = (w, ok none)
  replicate_reached r (some path) w =
      if r.spec.checkpoints.publish then replicate_checkpoint r path w else (w, ok none)

  unfoldable pub with_key : Option Key → List Key → List Key
  unfolding Key-discrete
  with_key none artifacts = artifacts
  with_key (some key) artifacts =
      if some_of (λ k. same k key) artifacts then artifacts else artifacts ++ key ∷ []

  unfoldable pub record_settled :
      RunRecord → Option Key → Option Text → World S → World S × Result RunRecord
  record_settled r key newest w =
      update_run r.id
        (record no_changes {
          checkpoint = some newest;
          artifacts = some (map Keys.str (with_key key r.artifacts));
        })
        w

  unfoldable pub settle_replicated :
      RunRecord → Plan → Option Key → World S → World S × Result RunRecord
  settle_replicated r p key w =
      on_rest (parts.settle p.checkpoint_dir (is_succeeded r.state) r.spec.checkpoints.keep) w
      ▷ record_settled r key

  unfoldable pub settle_reached :
      RunRecord → Plan → Option Text → World S → World S × Result RunRecord
  settle_reached r p reached w = replicate_reached r reached w ▷ settle_replicated r p

  unfoldable pub settle_lineage : RunRecord → Plan → World S → World S × Result RunRecord
  settle_lineage r p w = reading (parts.latest p.checkpoint_dir w.rest) w ▷ settle_reached r p

  -- `_settle_checkpoints`
  unfoldable pub settle_checkpoints : RunRecord → Option Plan → World S → World S × Result RunRecord
  settle_checkpoints r none w = (w, ok r)
  settle_checkpoints r (some p) w = settle_lineage r p w
