-- ===== src/Executor/Terminal.antt =====
-- However `_execute` of nawat/executor.py ends, the run has ended.
use nawat.Prelude.{ℕ, ◌≡◌, refl, sym, ap, ◌∙◌, subst, true, List, [], Option, none, some, if_ind}
use nawat.Prelude.Text.{Text}
use nawat.Errors.{Result, ok, err}
use nawat.Errors.Post.{Post, returned, raised, Post-▷, widen_Post}
use nawat.Keys.{Key}
use nawat.Runs.{
  publishing, failed, succeeded, terminal, RunRecord, find, validate_run_id, staged_keys,
  publish_prefix,
}
use nawat.Runs.Updates.{update_plain}
use nawat.Executor.World.{Plan, World, Parts, get_run, update_run, cancel_requested, no_changes}
use nawat.Executor.Trainer.{run_process, after_exit, run_started, await_process, never_started}
use nawat.Executor.Outputs.{
  is_cancelled, is_succeeded, finish, finish_published, finish_succeeded, finish_failed,
  record_succeeded, record_failed, settle_lineage, settle_reached, settle_replicated,
  record_settled, settle_checkpoints, exited_zero,
}
use nawat.Executor.Run.{
  Local, settle_planned, finish_planned, run_planned, plan_staged, stage_inputs, attempt_required,
  attempt, settle_failed, finalize_experiment, publish_finished, fail, fail_found, handle,
  release_leases, after_try, execute_record, execute_, failed_changes,
}
use nawat.Executor.Rows.{
  cancelled-terminal, At, Has, Ended, HasEnded, Keeps, with_row, found_get, row_of, never_raises,
  on_rest-Post, reading-Post, lifted, with_runs, At-id, update_run-Post, ending, updating,
}
use nawat.Executor.KeptRows.{
  publish_outputs-At, publish_partial-At, replicate_reached-At, plan-At, stage-At,
}

module _ {S : Type 0} (run_id : Text) (valid : validate_run_id run_id ≡ ok run_id)
    (parts : Parts S) where
  record_succeeded-Ended :
      (r : RunRecord) (artifacts : List Text) (w : World S)
      → At run_id r w
      → Post (Ended run_id) (Has run_id) (record_succeeded parts r artifacts w)
  unfolding record_succeeded terminal
  record_succeeded-Ended r artifacts w h =
      ending run_id valid r.id _ w r succeeded (At-id run_id valid r w h) h refl refl

  record_failed-Ended :
      (r : RunRecord) (artifacts : List Text) (w : World S)
      → At run_id r w
      → Post (Ended run_id) (Has run_id) (record_failed parts r artifacts w)
  unfolding record_failed terminal
  record_failed-Ended r artifacts w h =
      ending run_id valid r.id _ w r failed (At-id run_id valid r w h) h refl refl

  finish_published-Ended :
      (p : Plan) (r : RunRecord) (w : World S)
      → At run_id r w
      → Post (Ended run_id) (Has run_id) (finish_published parts p r w)
  unfolding finish_published finish_succeeded finish_failed
  finish_published-Ended p r w h =
      if_ind (Post (Ended run_id) (Has run_id)) (exited_zero r.exit_code)
        (λ z.
          Post-▷ (record_succeeded parts r)
            (with_row run_id r (publish_outputs-At run_id parts (publish_prefix r) p w r h))
            (record_succeeded-Ended r))
        (λ z.
          Post-▷ (record_failed parts r)
            (with_row run_id r (publish_partial-At run_id parts r p w r h)) (record_failed-Ended r))

  finish-Ended :
      (r : RunRecord) (p : Plan) (w : World S)
      → At run_id r w
      → Post (Ended run_id) (Has run_id) (finish parts r p w)
  unfolding finish
  finish-Ended r p w h =
      if_ind (Post (Ended run_id) (Has run_id)) (is_cancelled r.state)
        (λ c. returned (h, cancelled-terminal r.state c))
        (λ c.
          Post-▷ (finish_published parts p)
            (updating run_id valid r.id (record no_changes { state = some publishing }) w r
              (At-id run_id valid r w h) h)
            (finish_published-Ended p))

  record_settled-At :
      (r : RunRecord) (key : Option Key) (newest : Option Text) (w : World S)
      → At run_id r w
      → Post (Keeps run_id r) (At run_id r) (record_settled parts r key newest w)
  unfolding record_settled
  record_settled-At r key newest w h =
      update_run-Post run_id valid r.id _ w r (At-id run_id valid r w h) h

  settle_lineage-At :
      (r : RunRecord) (p : Plan) (w : World S)
      → At run_id r w
      → Post (Keeps run_id r) (At run_id r) (settle_lineage parts r p w)
  unfolding settle_lineage settle_reached settle_replicated
  settle_lineage-At r p w h =
      Post-▷ (settle_reached parts r p)
        (reading-Post run_id (At run_id r) (parts.latest p.checkpoint_dir w.rest) w h)
        λ reached w₁ h₁.
          Post-▷ (settle_replicated parts r p) (replicate_reached-At run_id parts r reached w₁ r h₁)
            λ key w₂ h₂.
              Post-▷ (record_settled parts r key)
                (on_rest-Post run_id (At run_id r)
                  (parts.settle p.checkpoint_dir (is_succeeded r.state) r.spec.checkpoints.keep) w₂
                  h₂)
                λ newest w₃ h₃. record_settled-At r key newest w₃ h₃

  settle_checkpoints-Ended :
      (r : RunRecord) (p : Option Plan) (w : World S)
      → Ended run_id r w
      → Post (Ended run_id) (HasEnded run_id) (settle_checkpoints parts r p w)
  unfolding settle_checkpoints
  settle_checkpoints-Ended r none w h = returned h
  settle_checkpoints-Ended r (some p) w h =
      widen_Post (settle_lineage-At r p w h.0) (λ r' w' q. (q.0, ap terminal q.1 ∙ h.1))
        (λ w' q. (r, (q, h.1)))

  settle_checkpoints-Post :
      (r : RunRecord) (p : Option Plan) (w : World S)
      → Ended run_id r w
      → Post (Ended run_id) (Has run_id) (settle_checkpoints parts r p w)
  unfolding settle_checkpoints
  settle_checkpoints-Post r p w h =
      widen_Post (settle_checkpoints-Ended r p w h) (λ r' w' q. q) (λ w' q. (q.0, q.1.0))

  -- A run that is found can be marked as failed.
  pub failing :
      (w : World S) (x : RunRecord)
      → At run_id x w
      → Post (Ended run_id) (λ w'. ⊥) (update_run run_id (failed_changes parts w) w)
  unfolding update_run terminal
  failing w x h = with_runs run_id valid w (
      widen_Post (update_plain run_id (failed_changes parts w) w.runs x valid h refl refl)
        (λ r s p. (p.0, ap terminal p.1)) (λ s q. q))

  fail-Ended : (w : World S) → Has run_id w → Post (Ended run_id) (λ w'. ⊥) (fail parts run_id w)
  unfolding fail fail_found
  fail-Ended w (x, h) =
      subst (λ o. Post (Ended run_id) (λ w'. ⊥) (fail_found parts run_id o w)) (sym h)
        (if_ind (Post (Ended run_id) (λ w'. ⊥)) (is_cancelled x.state)
          (λ c. returned (h, cancelled-terminal x.state c)) (λ c. failing w x h))

  after_exit-At :
      (i : Text) (w : World S) (code : ℕ)
      → i ≡ run_id
      → Has run_id w
      → Post (At run_id) (Has run_id) (after_exit parts i (w, code))
  unfolding after_exit
  after_exit-At i w code e (x, h) =
      if_ind (Post (At run_id) (Has run_id)) (cancel_requested i w)
        (λ c. updating run_id valid i _ w x e h) (λ c. updating run_id valid i _ w x e h)

  -- While the trainer runs, no other process deletes the row of the run.
  module _
      (kept : (pid : ℕ) (w : World S) → Has run_id w → Has run_id (parts.wait run_id pid w).0) where
    await_process-At :
        (pid : ℕ) (r : RunRecord) (w : World S)
        → At run_id r w
        → Post (At run_id) (Has run_id) (await_process parts pid r w)
    unfolding await_process
    await_process-At pid r w h =
        let e = At-id run_id valid r w h in
        after_exit-At r.id _ _ e
          (subst (λ i. Has run_id (parts.wait i pid w).0) (sym e) (kept pid w (r, h)))

    run_process-At :
        (r : RunRecord) (p : Plan) (w : World S)
        → At run_id r w
        → Post (At run_id) (Has run_id) (run_process parts r p w)
    unfolding run_process run_started
    run_process-At r p w h =
        if_ind (Post (At run_id) (Has run_id)) (cancel_requested r.id w)
          (λ c. updating run_id valid r.id (never_started parts w) w r (At-id run_id valid r w h) h)
          (λ c.
            Post-▷ (run_started parts r)
              (with_row run_id r (on_rest-Post run_id (At run_id r) (parts.start r p) w h))
              λ pid w₁ h₁.
                Post-▷ (await_process parts pid)
                  (updating run_id valid r.id _ w₁ r (At-id run_id valid r w₁ h₁) h₁)
                  (await_process-At pid))

    -- The same for the whole body of `try`, which keeps its variables beside the world.
    abbrev EndsL : Local S × Result RunRecord → Type 0
    EndsL m = Post (λ r l. Ended run_id r l.world) (λ l. Has run_id l.world) m

    finish_planned-Ends :
        (p : Plan) (r : RunRecord) (l : Local S)
        → At run_id r l.world
        → EndsL (finish_planned parts p r l)
    unfolding finish_planned settle_planned settle_checkpoints
    finish_planned-Ends p r l h =
        Post-▷ (settle_planned parts p) (lifted run_id l (finish-Ended r p l.world h))
          λ r₁ l₁ h₁. lifted run_id l₁ (settle_checkpoints-Post r₁ (some p) l₁.world h₁)

    run_planned-Ends :
        (r : RunRecord) (p : Plan) (l : Local S)
        → At run_id r l.world
        → EndsL (run_planned parts r p l)
    unfolding run_planned
    run_planned-Ends r p l h =
        Post-▷ (finish_planned parts p)
          (lifted run_id (record l { plan = some p }) (run_process-At r p l.world h))
          (finish_planned-Ends p)

    stage_inputs-Ends :
        (r : RunRecord) (l : Local S) → At run_id r l.world → EndsL (stage_inputs parts r l)
    unfolding stage_inputs plan_staged
    stage_inputs-Ends r l h =
        Post-▷ (plan_staged parts r)
          (row_of run_id r (stage-At run_id parts r.id (staged_keys r.spec) [] l r h))
          λ inputs l₁ h₁.
            Post-▷ (run_planned parts r)
              (row_of run_id r (lifted run_id l₁ (plan-At run_id parts r inputs l₁.world r h₁)))
              λ p l₂ h₂. run_planned-Ends r p l₂ h₂

    attempt-Ends : (r : RunRecord) (l : Local S) → At run_id r l.world → EndsL (attempt parts r l)
    unfolding attempt attempt_required
    attempt-Ends r l h =
        Post-▷ (attempt_required parts r)
          (row_of run_id r (
            lifted run_id l (
              reading-Post run_id (At run_id r)
                (parts.require_experiment r.spec.script l.world.rest) l.world h)))
          λ u l₁ h₁.
            Post-▷ (stage_inputs parts)
              (lifted run_id l₁
                (updating run_id valid r.id _ l₁.world r (At-id run_id valid r l₁.world h₁) h₁))
              stage_inputs-Ends

    handle-Ends :
        (m : Local S × Result RunRecord)
        → EndsL m
        → Post
            (λ r l. Ended run_id r l.world)
            (λ l. HasEnded run_id l.world)
            (handle parts run_id m)
    unfolding handle settle_failed
    handle-Ends (l, ok r) (returned h) = returned h
    handle-Ends (l, err e) (raised h) =
        Post-▷ (settle_failed parts) (lifted run_id l (never_raises run_id (fail-Ended l.world h)))
          λ r l₁ h₁. lifted run_id l₁ (settle_checkpoints-Ended r l₁.plan l₁.world h₁)

    released-Ended :
        (m : Local S × Result RunRecord)
        → Post (λ r l. Ended run_id r l.world) (λ l. HasEnded run_id l.world) m
        → Post (Ended run_id) (HasEnded run_id) (release_leases parts m.0, m.1)
    unfolding release_leases
    released-Ended (l, ok r) (returned h) = returned h
    released-Ended (l, err e) (raised h) = raised h

    has_ended :
        {A : Type 0} {x : RunRecord} {m : World S × Result A}
        → Post (λ a w. Ended run_id x w) (Ended run_id x) m
        → Post (λ a w. Ended run_id x w) (HasEnded run_id) m
    has_ended {x = x} h = widen_Post h (λ a w q. q) (λ w q. (x, q))

    get_run-At :
        (r : RunRecord) (w : World S)
        → At run_id r w
        → Post (At run_id) (HasEnded run_id) (get_run run_id w)
    unfolding get_run
    get_run-At r w h =
        subst (λ o. Post (At run_id) (HasEnded run_id) (w, o)) (sym (found_get run_id r w h))
          (returned h)

    get_run-Ended :
        (r : RunRecord) (w : World S)
        → Ended run_id r w
        → Post (Ended run_id) (HasEnded run_id) (get_run run_id w)
    unfolding get_run
    get_run-Ended r w h =
        subst (λ o. Post (Ended run_id) (HasEnded run_id) (w, o)) (sym (found_get run_id r w h.0))
          (returned h)

    execute_record-Ended :
        (r : RunRecord) (w : World S)
        → At run_id r w
        → Post (Ended run_id) (HasEnded run_id) (execute_record parts run_id r w)
    unfolding execute_record after_try publish_finished finalize_experiment
    execute_record-Ended r w h =
        Post-▷ (publish_finished parts run_id)
          (released-Ended _
            (handle-Ends _ (attempt-Ends r (record { world = w; leases = []; plan = none }) h)))
          λ r₁ w₁ h₁.
            Post-▷ (finalize_experiment parts run_id)
              (has_ended (on_rest-Post run_id (Ended run_id r₁) (parts.publish_record r₁) w₁ h₁))
              λ u w₂ h₂. get_run-Ended r₁ (record w₂ { rest = parts.finalize run_id w₂.rest }) h₂

    -- However `_execute` ends for a run that is in the table, under a valid id, whatever raises: the run is in the table and in a terminal state, and a record that it returns is that one. The condition is on the trainer's wait: other processes may change the row of the run, but do not delete it.
    pub execute_-terminal :
        (w : World S)
        → (r : RunRecord) × (find run_id w.runs ≡ some r)
        → Post
            (λ r w'. (find run_id w'.runs ≡ some r) × (terminal r.state ≡ true))
            (λ w'. (r : RunRecord) × ((find run_id w'.runs ≡ some r) × (terminal r.state ≡ true)))
            (execute_ parts run_id w)
    unfolding execute_
    execute_-terminal w h =
        Post-▷ (execute_record parts run_id) (get_run-At h.0 w h.1) execute_record-Ended
