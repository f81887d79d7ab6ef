-- ===== src/Executor/Turns/Served.antt =====
-- What `execute` and `_serve` of nawat/executor.py leave of a run and of the GPU lock.
use nawat.Prelude.{ℕ, ◌≡◌, refl, sym, ap, ◌∙◌, subst, false, List, In, Option, none, some, if_ind}
use nawat.Prelude.Text.{Text}
use nawat.Errors.{ok, err, Result, ◌▷◌}
use nawat.Errors.Post.{Post, returned, raised, Post-▷}
use nawat.GpuLock.{FileLock, gpu_lock_path, is_held, release}
use nawat.GpuLock.Exclusion.{Holding, release-is_held}
use nawat.Runs.{RunRecord, terminal, validate_run_id}
use nawat.Executor.World.{World, Parts, get_run}
use nawat.Executor.Run.{execute_}
use nawat.Executor.Rows.{At, Has, Ended, HasEnded, found_get}
use nawat.Executor.Terminal.{execute_-terminal, failing}
use nawat.Executor.Turns.{
  Turn, Waiting, Look, left, turn, again, take_up, finished, release_gpu, on_runs, execute,
  execute_waiting, excepted, fail_current, failed_now, serve_run,
}
use nawat.Executor.Turns.Exclusive.{
  Looked, is_left, has_turn, waits_on, KeepsRow, on_turn, wait_for_turn-Looked,
}

module _ {S : Type 0} (run_id : Text) (parts : Parts S) (waits : Waiting S) where
  abbrev HasT : Turn S → Type 0
  HasT t = Has run_id t.world

  -- What `execute` returns: nothing while the run waits, and else the record of a run that has ended.
  abbrev Finished : Option RunRecord → Turn S → Type 0
  Finished none t = HasT t
  Finished (some r) t = Ended run_id r t.world

  release_gpu-Finished :
      (gpu : FileLock) (m : Turn S × Result RunRecord)
      → Post (λ r t. Ended run_id r t.world) (λ t. HasEnded run_id t.world) m
      → Post Finished HasT (release_gpu parts waits gpu m)
  release_gpu-Finished gpu (t, ok r) (returned h) = returned h
  release_gpu-Finished gpu (t, err e) (raised h) = raised (h.0, h.1.0)

  release_gpu-locks :
      (gpu : FileLock) (m : Turn S × Result RunRecord)
      → (release_gpu parts waits gpu m).0.locks ≡ (release gpu m.0.locks).1
  release_gpu-locks gpu (t, ok r) = refl
  release_gpu-locks gpu (t, err e) = refl

  module _ (valid : validate_run_id run_id ≡ ok run_id)
      (kept : (pid : ℕ) (w : World S) → Has run_id w → Has run_id (parts.wait run_id pid w).0)
      (nudged : (start : Turn S → Turn S)
        → waits.on_stalled ≡ some start
        → KeepsRow run_id start) where
    take_up-Finished :
        (o : Look) (t : Turn S)
        → Looked run_id parts waits o t
        → Post Finished HasT (take_up parts waits run_id o t)
    unfolding take_up get_run
    take_up-Finished left t (is_left r e) =
        subst (λ o. Post Finished HasT ((t, o) ▷ finished parts waits))
          (sym (found_get run_id r t.world e.0)) (returned e)
    take_up-Finished (turn gpu) t (has_turn r locks ready next e holding path h) =
        release_gpu-Finished gpu _
          (on_turn run_id t (execute_-terminal run_id valid parts kept t.world h))
    take_up-Finished again t (waits_on h) = returned h

    execute-Finished :
        (looks : List (Turn S → Turn S)) (t : Turn S)
        → ((others : Turn S → Turn S) → In others looks → KeepsRow run_id others)
        → HasT t
        → Post Finished HasT (execute parts waits looks run_id t)
    unfolding execute execute_waiting get_run
    execute-Finished looks t keeps (r, h) =
        subst (λ o. Post Finished HasT ((t, o) ▷ execute_waiting parts waits looks run_id))
          (sym (found_get run_id r t.world h))
          (if_ind (Post Finished HasT) (terminal r.state) (λ e. raised (r, h))
            (λ e.
              Post-▷ (take_up parts waits run_id)
                (wait_for_turn-Looked run_id parts waits nudged valid looks t keeps (r, h))
                take_up-Finished))

    fail_current-Ended :
        (t : Turn S) (x : RunRecord)
        → At run_id x t.world
        → Post
            (λ u t'. HasEnded run_id t'.world)
            (λ t'. ⊥)
            (fail_current parts waits run_id (some x) t)
    unfolding fail_current
    fail_current-Ended t x h =
        if_ind (Post (λ u t'. HasEnded run_id t'.world) (λ t'. ⊥)) (terminal x.state)
          (λ e. returned (x, (h, e)))
          (λ e.
            Post-▷ (failed_now parts waits)
              (on_turn run_id t (failing run_id valid parts t.world x h))
              (λ r t₁ h₁. returned (r, h₁)))

    excepted-Ended :
        (m : Turn S × Result (Option RunRecord))
        → Post Finished HasT m
        → (m.1 ≡ ok none → ⊥)
        → Post (λ u t. HasEnded run_id t.world) (λ t. ⊥) (excepted parts waits run_id m)
    unfolding excepted
    excepted-Ended (t, ok none) p waited = absurd (waited refl)
    excepted-Ended (t, ok (some r)) (returned h) waited = returned (r, h)
    excepted-Ended (t, err e) (raised h) waited =
        subst
          (λ o.
            Post (λ u t'. HasEnded run_id t'.world) (λ t'. ⊥) (fail_current parts waits run_id o t))
          (sym h.1) (fail_current-Ended t h.0 h.1)

-- When the queue has served a run (unless it waits on), it does not raise, whatever the run did, and the run is in a terminal state, so that the queue does not pick it again. The run is in the table under a valid id, and what the other processes do keeps its row.
pub serve_run-terminal :
    {S : Type 0} (parts : Parts S) (waits : Waiting S) (r : RunRecord)
    → validate_run_id r.id ≡ ok r.id
    → ((pid : ℕ) (w : World S) → Has r.id w → Has r.id (parts.wait r.id pid w).0)
    → ((start : Turn S → Turn S) → waits.on_stalled ≡ some start → KeepsRow r.id start)
    → (looks : List (Turn S → Turn S)) (t : Turn S)
    → ((others : Turn S → Turn S) → In others looks → KeepsRow r.id others)
    → Has r.id t.world
    → ((execute parts waits looks r.id t).1 ≡ ok none → ⊥)
    → Post (λ u t'. HasEnded r.id t'.world) (λ t'. ⊥) (serve_run parts waits looks r t)
unfolding serve_run
serve_run-terminal parts waits r valid kept nudged looks t keeps h waited =
    excepted-Ended r.id parts waits valid kept nudged (execute parts waits looks r.id t)
      (execute-Finished r.id parts waits valid kept nudged looks t keeps h) waited

-- However `_execute` ends, returning or raising, `execute` gives the GPU back: if the lock that was handed to it is the GPU lock and held, no process holds the lock when it is done.
pub take_up-is_held :
    {S : Type 0} (parts : Parts S) (waits : Waiting S) (run_id : Text) (gpu : FileLock) (t : Turn S)
    → Holding gpu t.locks
    → gpu.path ≡ gpu_lock_path
    → is_held gpu_lock_path (take_up parts waits run_id (turn gpu) t).0.locks ≡ false
unfolding take_up
take_up-is_held parts waits run_id gpu t holding path =
    let m = on_runs parts waits (execute_ parts run_id) t in
    ap (λ p. is_held p (release_gpu parts waits gpu m).0.locks) (sym path)
    ∙ ap (is_held gpu.path) (release_gpu-locks run_id parts waits gpu m)
    ∙ release-is_held gpu t.locks holding
