-- ===== src/Executor/Run.antt =====
-- `_execute` of nawat/executor.py and what it calls.
use nawat.Prelude.{ℕ, ◌+◌, List, [], ◌∷◌, ◌++◌, Option, none, some, if◌then◌else◌}
use nawat.Prelude.Text.{Text, text, text_eq}
use nawat.Errors.{Result, ok, err, ◌▷◌}
use nawat.Keys.{Key, key_eq}
use nawat.Leases.{acquire, release, ids_of}
use nawat.Runs.{staging, failed, RunRecord, Changes, staged_keys, find}
use nawat.Executor.World.{Plan, World, Parts, on_rest, reading, get_run, update_run, no_changes}
use nawat.Executor.Planning.{plan}
use nawat.Executor.Trainer.{finishing, run_process}
use nawat.Executor.Outputs.{finish, settle_checkpoints, is_cancelled}

-- What `_execute` has in hand: the world, and its variables `leases` (by their ids) and `plan`.
pub record Local (S : Type 0) : Type 0 where
  pub world : World S
  pub leases : List ℕ
  pub plan : Option Plan

module _ {S : Type 0} (parts : Parts S) where
  abbrev pub on_world : {A : Type 0} → (World S → World S × Result A) → Local S → Local S × Result A
  on_world f l = (record l { world = (f l.world).0 }, (f l.world).1)

  -- `leases.extend(self.cache.leases.acquire([key], holder=f"run {run_id}"))`
  unfoldable pub take_lease : Text → Key → Local S → Local S
  take_lease run_id key l =
      let w = l.world in
      let (registry, records) =
        acquire parts.host (key ∷ []) (w.uuid ∷ []) (text "run " ++ run_id) parts.pid
          (parts.time w.rest) w.leases in
      record l {
        world = record w { leases = registry; uuid = w.uuid + 1 };
        leases = l.leases ++ ids_of records;
      }

  -- The loop that stages the inputs.
  unfoldable pub stage :
      Text → List Key → List (Key × Text) → Local S → Local S × Result (List (Key × Text))
  stage run_id [] inputs l = (l, ok inputs)
  stage run_id (key ∷ rest) inputs l = on_world (on_rest (parts.resolve key)) l ▷ λ path l₁.
      stage run_id rest (inputs ++ (key, path) ∷ []) (take_lease run_id key l₁)

  -- What `_execute` does once the inputs are staged: the plan parts, the process, the outputs, the checkpoints.
  unfoldable pub settle_planned : Plan → RunRecord → Local S → Local S × Result RunRecord
  settle_planned p r l = on_world (settle_checkpoints parts r (some p)) l

  unfoldable pub finish_planned : Plan → RunRecord → Local S → Local S × Result RunRecord
  finish_planned p r l = on_world (finish parts r p) l ▷ settle_planned p

  unfoldable pub run_planned : RunRecord → Plan → Local S → Local S × Result RunRecord
  run_planned r p l =
      on_world (run_process parts r p) (record l { plan = some p }) ▷ finish_planned p

  unfoldable pub plan_staged : RunRecord → List (Key × Text) → Local S → Local S × Result RunRecord
  plan_staged r inputs l = on_world (plan parts r inputs) l ▷ run_planned r

  unfoldable pub stage_inputs : RunRecord → Local S → Local S × Result RunRecord
  stage_inputs r l = stage r.id (staged_keys r.spec) [] l ▷ plan_staged r

  unfoldable pub attempt_required : RunRecord → Unit {0} → Local S → Local S × Result RunRecord
  attempt_required r u l =
      on_world
        (update_run r.id (record no_changes {
          state = some staging;
          started_at = some (some (parts.time l.world.rest));
        }))
        l
      ▷ stage_inputs

  -- The body of `try` in `_execute`.
  unfoldable pub attempt : RunRecord → Local S → Local S × Result RunRecord
  attempt r l =
      on_world (reading (parts.require_experiment r.spec.script l.world.rest)) l
      ▷ attempt_required r

  -- The text of the source is that of the exception.
  abbrev pub failed_changes : World S → Changes
  failed_changes w = record (finishing parts failed w) {
    error = some (some (text "The run failed."));
  }

  unfoldable pub fail_found : Text → Option RunRecord → World S → World S × Result RunRecord
  fail_found run_id none w = update_run run_id (failed_changes w) w
  fail_found run_id (some r) w =
      if is_cancelled r.state then (w, ok r) else update_run run_id (failed_changes w) w

  -- `_fail`
  unfoldable pub fail : Text → World S → World S × Result RunRecord
  fail run_id w = fail_found run_id (find run_id w.runs) w

  unfoldable pub settle_failed : RunRecord → Local S → Local S × Result RunRecord
  settle_failed r l = on_world (settle_checkpoints parts r l.plan) l

  -- The two `except` clauses, which do the same but for the message.
  unfoldable pub handle : Text → Local S × Result RunRecord → Local S × Result RunRecord
  handle run_id (l, ok r) = (l, ok r)
  handle run_id (l, err e) = on_world (fail run_id) l ▷ settle_failed

  -- The `finally` clause.
  unfoldable pub release_leases : Local S → World S
  release_leases l = record l.world { leases = (release l.leases l.world.leases).0 }

  unfoldable pub finalize_experiment : Text → Unit {0} → World S → World S × Result RunRecord
  finalize_experiment run_id u w = get_run run_id (record w { rest = parts.finalize run_id w.rest })

  unfoldable pub publish_finished : Text → RunRecord → World S → World S × Result RunRecord
  publish_finished run_id r w = on_rest (parts.publish_record r) w ▷ finalize_experiment run_id

  unfoldable pub after_try : Text → World S × Result RunRecord → World S × Result RunRecord
  after_try run_id m = m ▷ publish_finished run_id

  -- `_execute`, once the record is read.
  unfoldable pub execute_record : Text → RunRecord → World S → World S × Result RunRecord
  execute_record run_id r w =
      let (l, outcome) =
        handle run_id (attempt r (record { world = w; leases = []; plan = none })) in
      after_try run_id (release_leases l, outcome)

  unfoldable pub execute_ : Text → World S → World S × Result RunRecord
  execute_ run_id w = get_run run_id w ▷ λ r w₁. execute_record run_id r w₁
