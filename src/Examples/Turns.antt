-- ===== src/Examples/Turns.antt =====
-- Turns on the GPU, in nawat/executor.py, with one queued run and a free GPU.
use nawat.Prelude.{
  ℕ, ◌+◌, ◌≡◌, refl, sym, ap, ◌∙◌, subst, length, Bool, true, false, [], ◌∷◌, List, In, inl, inr,
  Option, none, some, arith,
}
use nawat.Prelude.Text.{Text, text, text_le}
use nawat.Prelude.Dict
use nawat.Errors.{Result, ok, err}
use nawat.Errors.Post.{Post}
use nawat.GpuLock.{FileLock, is_held, owner_path, owner_state, gpu_lock_path, Place-discrete}
use nawat.GpuLock as Locks
use nawat.GpuLock.Exclusion.{Holding}
use nawat.Runs.{RunState, RunRecord, cancelled, queued, terminal, is_queued, find}
use nawat.Runs.Queue
use nawat.Runs.Queue.{queued_before, queued_rows, in_queue_order, insert_run, starts_before}
use nawat.Executor.World.{Plan, World, Parts, request_cancel, cancel_requested}
use nawat.Executor.Trainer.{run_process}
use nawat.Executor.Rows.{Has, HasEnded}
use nawat.Executor.Turns.{
  Turn, Waiting, turn, wait_for_turn, execute, serve_run, take_up, cancel, drop_abandoned, is_gone,
}
use nawat.Executor.Turns.Exclusive.{Looked, wait_for_turn-Looked}
use nawat.Executor.Turns.Served.{serve_run-terminal, take_up-is_held}
use nawat.Executor.Turns.Cancelling.{
  Honoured, run_process-Honoured, Leaves, Outcome, cancel-Outcome,
}
use nawat.Executor.Turns.Dropped.{find-drop_abandoned}
use nawat.Examples.Executor.{run, parts, world, valid, found, has}

abbrev waits : Waiting ℕ
waits = record {
  directory = λ id. length id;
  gpu_note = λ r. r.id;
  worker_note = λ now. text "worker";
  on_stalled = none;
  terminate = λ pid w. record w { rest = w.rest + 1 };
}

abbrev start : Turn ℕ
start = record {
  world = world;
  locks = record { files = []; held = []; notes = []; fresh = 7 };
  stalled_at = 0;
}

abbrev sleep : Turn ℕ → Turn ℕ
sleep t = record t { world = record (t.world) { rest = t.world.rest + 1 } }

abbrev looks : List (Turn ℕ → Turn ℕ)
looks = sleep ∷ sleep ∷ []

keeps :
    (others : Turn ℕ → Turn ℕ)
    → In others looks
    → (t : Turn ℕ) → Has run.id t.world
    → Has run.id (others t).world
keeps others (inl e) t h = subst (λ (f : Turn ℕ → Turn ℕ). Has run.id (f t).world) (sym e) h
keeps others (inr (inl e)) t h = subst (λ (f : Turn ℕ → Turn ℕ). Has run.id (f t).world) (sym e) h
keeps others (inr (inr x)) t h = absurd x

not_nudged :
    (start : Turn ℕ → Turn ℕ)
    → ◌≡◌ {A = Option (Turn ℕ → Turn ℕ)} none (some start)
    → (t : Turn ℕ) → Has run.id t.world
    → Has run.id (start t).world
not_nudged start e t h = absurd (ground (arith, e))

wait_for_turn-Looked_example :
    Post
      (Looked run.id parts waits)
      (λ t'. Has run.id t'.world)
      (wait_for_turn parts waits looks run.id start)
wait_for_turn-Looked_example =
    wait_for_turn-Looked run.id parts waits not_nudged valid looks start keeps has

-- Another queued run, whose terminal went away.
abbrev crowded : World ℕ
crowded = record world {
  runs = record { rows = record run { id = text "bb" } ∷ run ∷ []; files = [] };
}

abbrev abandoned : Locks.World
abandoned = record { files = (owner_path 2, 7) ∷ []; held = []; notes = []; fresh = 8 }

stays : is_gone (owner_state (waits.directory run.id) abandoned) ≡ false
unfolding owner_state Dict.get Place-discrete
stays = refl

find-drop_abandoned_example :
    find run.id (drop_abandoned parts waits abandoned crowded).0.runs ≡ find run.id crowded.runs
find-drop_abandoned_example = find-drop_abandoned parts waits run.id abandoned stays crowded

abbrev gpu : FileLock
gpu = record { path = gpu_lock_path; handle = some 7 }

abbrev taken : Turn ℕ
taken = record start {
  locks = record { files = (gpu_lock_path, 7) ∷ []; held = (7, 100) ∷ []; notes = []; fresh = 8 };
}

holding : Holding gpu taken.locks
unfolding Dict.get Place-discrete
holding = record { file = 7; owner = 100; there = refl; handle = refl; held = refl }

take_up-is_held_example :
    is_held gpu_lock_path (take_up parts waits run.id (turn gpu) taken).0.locks ≡ false
take_up-is_held_example = take_up-is_held parts waits run.id gpu taken holding refl

-- The queue serves the run to its end.
is_done : Result (Option RunRecord) → Bool
is_done (ok (some r)) = true
is_done (ok none) = false
is_done (err e) = true

served : is_done (execute parts waits looks run.id start).1 ≡ true
unfolding nawat.Executor.World.get_run nawat.Executor.World.update_run
    nawat.Executor.World.cancel_requested nawat.Executor.Run.stage
    nawat.Executor.Planning.discard_lineage nawat.Executor.Planning.newest_of
    nawat.Executor.Planning.find_newest nawat.Executor.Planning.open_lineage
    nawat.Executor.Planning.prepare_checkpoints nawat.Executor.Planning.plan_lineage
    nawat.Executor.Planning.plan_script nawat.Executor.Planning.plan
    nawat.Executor.Trainer.after_exit nawat.Executor.Trainer.await_process
    nawat.Executor.Trainer.run_started nawat.Executor.Trainer.run_process
    nawat.Executor.Outputs.publish_classes nawat.Executor.Outputs.publish_outputs
    nawat.Executor.Outputs.record_succeeded nawat.Executor.Outputs.finish_succeeded
    nawat.Executor.Outputs.finish_published nawat.Executor.Outputs.finish
    nawat.Executor.Outputs.replicate_reached nawat.Executor.Outputs.with_key
    nawat.Executor.Outputs.record_settled nawat.Executor.Outputs.settle_replicated
    nawat.Executor.Outputs.settle_reached nawat.Executor.Outputs.settle_lineage
    nawat.Executor.Outputs.settle_checkpoints nawat.Executor.Run.settle_planned
    nawat.Executor.Run.finish_planned nawat.Executor.Run.run_planned nawat.Executor.Run.plan_staged
    nawat.Executor.Run.stage_inputs nawat.Executor.Run.attempt_required nawat.Executor.Run.attempt
    nawat.Executor.Run.handle nawat.Executor.Run.release_leases
    nawat.Executor.Run.finalize_experiment nawat.Executor.Run.publish_finished
    nawat.Executor.Run.after_try nawat.Executor.Run.execute_record nawat.Executor.Run.execute_
    nawat.Executor.Turns.owner_of nawat.Executor.Turns.drop_gone nawat.Executor.Turns.drop_each
    nawat.Executor.Turns.drop_abandoned nawat.Executor.Turns.take_turn
    nawat.Executor.Turns.look_ahead nawat.Executor.Turns.look_at nawat.Executor.Turns.look
    nawat.Executor.Turns.wait_for_turn nawat.Executor.Turns.take_up
    nawat.Executor.Turns.execute_waiting nawat.Executor.Turns.execute nawat.Runs.Queue.starts_before
    nawat.Runs.Queue.insert_run nawat.Runs.Queue.in_queue_order nawat.Runs.Queue.queued_rows
    nawat.Runs.Queue.queued nawat.Runs.Queue.queued_before nawat.GpuLock.open_file
    nawat.GpuLock.lock_file nawat.GpuLock.try_lock nawat.GpuLock.take_gpu nawat.GpuLock.owner_state
    nawat.Runs.terminal nawat.Runs.is_queued nawat.Runs.validate_run_id nawat.Runs.add_new
    nawat.Runs.staged_keys nawat.Runs.publish_prefix nawat.Runs.find_row nawat.Runs.find
    nawat.Runs.get nawat.Runs.write_record_file nawat.Runs.changed_artifacts nawat.Runs.changed_name
    nawat.Runs.apply nawat.Runs.put_row nawat.Runs.write_update nawat.Runs.update
    nawat.Prelude.Dict.get nawat.Prelude.Text.text_le nawat.Checkpoints.Names.matches_upto
    nawat.Checkpoints.Names.matches_name nawat.Keys.check_segments nawat.Keys.from_segments
    nawat.Keys.parse_stripped nawat.Keys.local_path nawat.Keys.child nawat.Prelude.Text.strip
    nawat.Prelude.Text.contains nawat.Runs.parse_all is_done
served = refl

not_waiting : (execute parts waits looks run.id start).1 ≡ ok none → ⊥
unfolding is_done
not_waiting e = absurd (ground (arith, sym served ∙ ap is_done e))

serve_run-terminal_example :
    Post (λ u t'. HasEnded run.id t'.world) (λ t'. ⊥) (serve_run parts waits looks run start)
serve_run-terminal_example =
    serve_run-terminal parts waits run valid (λ pid w h. h) not_nudged looks start keeps has
      not_waiting

abbrev trained : Plan
trained = record {
  script = text "run.py";
  out_dir = text "/out";
  inputs = [];
  checkpoint_dir = text "/lineage";
  resume_from = none;
}

run_process-Honoured_example :
    Post (Honoured run.id valid parts) (Has run.id) (run_process parts run trained world)
run_process-Honoured_example =
    run_process-Honoured run.id valid parts (λ pid w h. h) run trained world found

leaves : Leaves run.id valid parts waits
unfolding cancel_requested
leaves = record { row = λ pid w h. h; file = λ pid w c. c }

cancel-Outcome_example :
    Outcome run.id valid parts waits run world (cancel parts waits run.id world)
cancel-Outcome_example = cancel-Outcome run.id valid parts waits run world leaves found
