-- ===== src/Executor/Turns.antt =====
-- Turns on the GPU, cancellation and the queue of nawat/executor.py.
pub mod Kept
pub mod Exclusive
pub mod Served
pub mod Dropped
pub mod Cancelling
use nawat.Prelude.{
  ℕ, ◌+◌, ◌≡◌, Bool, true, false, not, ◌&&◌, ltb, List, [], ◌∷◌, ◌++◌, Option, none, some,
  if◌then◌else◌, some_of,
}
use nawat.Prelude.Text.{Text, text}
use nawat.Errors.{Error, protected, Result, ok, err, ◌▷◌}
use nawat.GpuLock.{
  FileLock, Owner, waiting, queue, gone, owner_state, take_gpu, try_lock, is_held, worker_lock_path,
  release, write,
}
use nawat.GpuLock as Locks
use nawat.Runs.{terminal, is_queued, failed, cancelled, RunRecord, Changes, find}
use nawat.Runs.Queue.{queued, queued_before}
use nawat.Executor.World.{
  World, Parts, get_run, update_run, cancel_requested, request_cancel, no_changes,
}
use nawat.Executor.Trainer.{finishing, never_started}
use nawat.Executor.Run.{execute_, failed_changes}

abbrev pub is_gone : Owner → Bool
is_gone gone = true
is_gone _ = false

abbrev pub is_queue : Owner → Bool
is_queue queue = true
is_queue _ = false

-- What the processes share, and the executor's `_stalled_at`.
pub record Turn (S : Type 0) : Type 0 where
  pub world : World S
  pub locks : Locks.World
  pub stalled_at : ℕ

-- What a process that waits for its turn calls, and the number of a run's directory.
pub record Waiting (S : Type 0) : Type 0 where
  pub directory : Text → ℕ
  pub gpu_note : RunRecord → Text  -- what `take_gpu` writes
  pub worker_note : S → Text
  pub on_stalled : Option (Turn S → Turn S)
  pub terminate : ℕ → World S → World S  -- `terminate_group`

-- One look at the queue: the run was cancelled meanwhile, it has the GPU, or it waits on.
pub data Look : Type 0 where
  left : Look
  turn : FileLock → Look
  again : Look

module _ {S : Type 0} (parts : Parts S) (waits : Waiting S) where
  abbrev pub on_runs : {A : Type 0} → (World S → World S × Result A) → Turn S → Turn S × Result A
  on_runs f t = (record t { world = (f t.world).0 }, (f t.world).1)

  unfoldable pub owner_of : RunRecord → Locks.World → Owner
  owner_of r locks = owner_state (waits.directory r.id) locks

  abbrev pub went_away : World S → Changes
  went_away w = record (finishing parts cancelled w) {
    error = some (some (text "The terminal waiting to run it went away before it started."));
  }

  abbrev pub dropped_too : List RunRecord → RunRecord → World S → World S × Result (List RunRecord)
  dropped_too dropped r w = (w, ok (dropped ++ r ∷ []))

  unfoldable pub drop_found :
      Text → Option RunRecord → List RunRecord → World S → World S × Result (List RunRecord)
  drop_found run_id none dropped w = (w, ok dropped)
  drop_found run_id (some current) dropped w =
      if is_queued current.state
      then (update_run run_id (went_away w) (request_cancel run_id w) ▷ dropped_too dropped)
      else (w, ok dropped)

  unfoldable pub drop_gone :
      Locks.World → RunRecord → List RunRecord → World S → World S × Result (List RunRecord)
  drop_gone locks r dropped w =
      if is_gone (owner_of r locks)
      then drop_found r.id (find r.id w.runs) dropped w
      else (w, ok dropped)

  unfoldable pub drop_each :
      Locks.World → List RunRecord → List RunRecord → World S → World S × Result (List RunRecord)
  drop_each locks [] dropped w = (w, ok dropped)
  drop_each locks (r ∷ rest) dropped w = drop_gone locks r dropped w ▷ drop_each locks rest

  unfoldable pub drop_abandoned : Locks.World → World S → World S × Result (List RunRecord)
  drop_abandoned locks w = drop_each locks (queued w.runs) [] w

  -- `time.time() - self._stalled_at < 30`; the `-` of the source may be negative.
  abbrev pub nudged_lately : Turn S → Bool
  nudged_lately t = ltb (parts.time t.world.rest) (t.stalled_at + 30)

  abbrev pub stalled : List RunRecord → Turn S → Bool
  stalled ahead t =
      some_of (λ r. is_queue (owner_of r t.locks)) ahead && not (is_held worker_lock_path t.locks)

  abbrev pub nudging : Turn S → Turn S
  nudging t = record t { stalled_at = parts.time t.world.rest }

  -- `_nudge_queue`
  unfoldable pub nudge_by : Option (Turn S → Turn S) → List RunRecord → Turn S → Turn S
  nudge_by none ahead t = t
  nudge_by (some start) ahead t =
      if nudged_lately t then t else (if stalled ahead t then start (nudging t) else t)

  unfoldable pub nudge_queue : List RunRecord → Turn S → Turn S
  nudge_queue ahead t = nudge_by waits.on_stalled ahead t

  abbrev pub took : Turn S → Option FileLock × Locks.World → Turn S × Result Look
  took t (none, locks) = (record t { locks = locks }, ok again)
  took t (some gpu, locks) = (record t { locks = locks }, ok (turn gpu))

  unfoldable pub take_turn : RunRecord → List RunRecord → Turn S → Turn S × Result Look
  take_turn r [] t = took t (take_gpu parts.pid (waits.gpu_note r) t.locks)
  take_turn r (first ∷ rest) t = (nudge_queue (first ∷ rest) t, ok again)

  unfoldable pub look_ahead : RunRecord → List RunRecord → Turn S → Turn S × Result Look
  look_ahead r dropped t =
      take_turn r (if is_queued r.state then queued_before r t.world.runs else []) t

  abbrev pub leave : RunRecord → Turn S → Turn S × Result Look
  leave r t = (t, ok left)

  -- The loop's body, once the record is read; the log's lines are left out.
  unfoldable pub look_at : Text → RunRecord → Turn S → Turn S × Result Look
  look_at run_id r t =
      if terminal r.state
      then (t, ok left)
      else (if cancel_requested run_id t.world
          then (on_runs (update_run run_id (never_started parts t.world)) t ▷ leave)
          else (on_runs (drop_abandoned t.locks) t ▷ look_ahead r))

  unfoldable pub look : Text → Turn S → Turn S × Result Look
  look run_id t = on_runs (get_run run_id) t ▷ look_at run_id

  abbrev pub wait_on : (Turn S → Turn S × Result Look) → Look → Turn S → Turn S × Result Look
  wait_on sleep left t = (t, ok left)
  wait_on sleep (turn gpu) t = (t, ok (turn gpu))
  wait_on sleep again t = sleep t

  -- `wait_for_turn`, for as many looks as the list has: each element is what the other processes do during the sleep that follows the look.
  unfoldable pub wait_for_turn : List (Turn S → Turn S) → Text → Turn S → Turn S × Result Look
  wait_for_turn [] run_id t = (t, ok again)
  wait_for_turn (others ∷ rest) run_id t =
      look run_id t ▷ wait_on (λ t₁. wait_for_turn rest run_id (others t₁))

  abbrev pub release_gpu : FileLock → Turn S × Result RunRecord → Turn S × Result (Option RunRecord)
  release_gpu gpu (t, ok r) = (record t { locks = (release gpu t.locks).1 }, ok (some r))
  release_gpu gpu (t, err e) = (record t { locks = (release gpu t.locks).1 }, err e)

  abbrev pub finished : RunRecord → Turn S → Turn S × Result (Option RunRecord)
  finished r t = (t, ok (some r))

  unfoldable pub take_up : Text → Look → Turn S → Turn S × Result (Option RunRecord)
  take_up run_id left t = on_runs (get_run run_id) t ▷ finished
  take_up run_id (turn gpu) t = release_gpu gpu (on_runs (execute_ parts run_id) t)
  take_up run_id again t = (t, ok none)

  unfoldable pub execute_waiting :
      List (Turn S → Turn S) → Text → RunRecord → Turn S → Turn S × Result (Option RunRecord)
  execute_waiting looks run_id r t =
      if terminal r.state
      then (t, err protected)
      else (wait_for_turn looks run_id t ▷ take_up run_id)

  -- `execute`; it returns nothing while it still waits.
  unfoldable pub execute :
      List (Turn S → Turn S) → Text → Turn S → Turn S × Result (Option RunRecord)
  execute looks run_id t = on_runs (get_run run_id) t ▷ execute_waiting looks run_id

  abbrev terminated : Option ℕ → World S → World S
  terminated none w = w
  terminated (some pid) w = waits.terminate pid w

  unfoldable pub cancel_found : Text → RunRecord → World S → World S × Result RunRecord
  cancel_found run_id r w =
      if terminal r.state
      then (w, err protected)
      else (if is_queued r.state
          then update_run run_id (never_started parts w) (request_cancel run_id w)
          else get_run run_id (terminated r.pid (request_cancel run_id w)))

  unfoldable pub cancel : Text → World S → World S × Result RunRecord
  cancel run_id w = get_run run_id w ▷ cancel_found run_id

  -- The loop of `next_run`.
  unfoldable pub first_handed_over : Locks.World → List RunRecord → Option RunRecord
  first_handed_over locks [] = none
  first_handed_over locks (r ∷ rest) =
      if is_queue (owner_of r locks) then some r else first_handed_over locks rest

  abbrev pub handed_over :
      Locks.World → List RunRecord → World S → World S × Result (Option RunRecord)
  handed_over locks dropped w = (w, ok (first_handed_over locks (queued w.runs)))

  unfoldable pub next_run : Locks.World → World S → World S × Result (Option RunRecord)
  next_run locks w = drop_abandoned locks w ▷ handed_over locks

  abbrev pub failed_now : RunRecord → Turn S → Turn S × Result (Unit {0})
  failed_now r t = (t, ok tt)

  -- The `except` clause of `_serve`.
  unfoldable pub fail_current : Text → Option RunRecord → Turn S → Turn S × Result (Unit {0})
  fail_current run_id none t = (t, ok tt)
  fail_current run_id (some current) t =
      if terminal current.state
      then (t, ok tt)
      else (on_runs (update_run run_id (failed_changes parts t.world)) t ▷ failed_now)

  unfoldable pub excepted : Text → Turn S × Result (Option RunRecord) → Turn S × Result (Unit {0})
  excepted run_id (t, ok r) = (t, ok tt)
  excepted run_id (t, err e) = fail_current run_id (find run_id t.world.runs) t

  -- What `_serve` does with the run that it picked.
  unfoldable pub serve_run :
      List (Turn S → Turn S) → RunRecord → Turn S → Turn S × Result (Unit {0})
  serve_run looks r t = excepted r.id (execute looks r.id t)
