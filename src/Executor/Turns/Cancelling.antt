-- ===== src/Executor/Turns/Cancelling.antt =====
-- What `cancel` of nawat/executor.py does, and what a cancelled run does.
use nawat.Prelude.{
  ℕ, ◌≡◌, refl, sym, ap, ◌∙◌, subst, true, false, Option, none, some, ◌⊎◌, inl, inr, same,
  same_refl, if_ind, some_of, arith,
}
use nawat.Prelude.Text.{Text, text_eq}
use nawat.Errors.{protected, Result, ok, err, ◌▷◌}
use nawat.Errors.Post.{Post, returned, raised, Post-▷, widen_Post}
use nawat.Runs.{RunRecord, cancelled, terminal, is_queued, find, validate_run_id, Changes, changed}
use nawat.Runs.Updates.{update_plain, update-Post}
use nawat.Executor.World.{Plan, World, Parts, get_run, update_run, request_cancel, cancel_requested}
use nawat.Executor.Trainer.{
  never_started, run_process, run_started, await_process, after_exit, cancelled_changes,
  exit_changes,
}
use nawat.Executor.Rows.{At, Has, found_get, with_runs, At-id, with_row, on_rest-Post, updating}
use nawat.Executor.Turns.{Waiting, cancel, cancel_found, terminated}

module _ {S : Type 0} (run_id : Text) where
  cancel_requested-request_cancel :
      (w : World S) → cancel_requested run_id (request_cancel run_id w) ≡ true
  unfolding cancel_requested request_cancel
  cancel_requested-request_cancel w = ground (arith, same_refl run_id)

  At-request_cancel :
      (r : RunRecord) (w : World S) → At run_id r w → At run_id r (request_cancel run_id w)
  unfolding request_cancel
  At-request_cancel r w h = h

  module _ (valid : validate_run_id run_id ≡ ok run_id) (parts : Parts S) where
    -- The row of the run says that it was cancelled, and nothing but the table has changed.
    abbrev pub Cancelled : World S → RunRecord → World S → Type 0
    Cancelled w r w' =
        At run_id r w' × (r.state ≡ cancelled) × (w'.rest ≡ w.rest) × (w'.cancels ≡ w.cancels)

    never_started-Cancelled :
        (i : Text) (w w₀ : World S) (x : RunRecord)
        → i ≡ run_id
        → At run_id x w
        → Post (Cancelled w) (λ w'. ⊥) (update_run i (never_started parts w₀) w)
    unfolding update_run
    never_started-Cancelled i w w₀ x e h =
        subst (λ j. Post (Cancelled w) (λ w'. ⊥) (update_run j (never_started parts w₀) w)) (sym e)
          (with_runs run_id valid w (
            widen_Post (update_plain run_id (never_started parts w₀) w.runs x valid h refl refl)
              (λ r s p. (p.0, p.1, refl, refl)) (λ s q. q)))

    -- No cancel file, or the record says that the run was cancelled.
    abbrev pub Honoured : RunRecord → World S → Type 0
    Honoured r w = At run_id r w × ((cancel_requested run_id w ≡ false) ⊎ (r.state ≡ cancelled))

    -- An update leaves the cancel files.
    update_run-Files :
        (i : Text) (changes : Changes) (w : World S) (x : RunRecord)
        → i ≡ run_id
        → At run_id x w
        → Post
            (λ r w'.
              (At run_id r w' × (r.state ≡ changed changes.state x.state))
              × (cancel_requested run_id w' ≡ cancel_requested run_id w))
            (At run_id x)
            (update_run i changes w)
    unfolding update_run cancel_requested
    update_run-Files i changes w x e h =
        subst
          (λ j.
            Post
              (λ r w'.
                (At run_id r w' × (r.state ≡ changed changes.state x.state))
                × (cancel_requested run_id w' ≡ cancel_requested run_id w))
              (At run_id x) (update_run j changes w))
          (sym e)
          (with_runs run_id valid w (
            widen_Post (update-Post run_id changes w.runs x valid h) (λ r s p. (p, refl))
              (λ s q. subst (λ t. find run_id t ≡ some x) (sym q) h)))

    after_exit-Honoured :
        (i : Text) (w : World S) (code : ℕ)
        → i ≡ run_id
        → Has run_id w
        → Post Honoured (Has run_id) (after_exit parts i (w, code))
    unfolding after_exit
    after_exit-Honoured i w code e (x, h) =
        if_ind (Post Honoured (Has run_id)) (cancel_requested i w)
          (λ c.
            widen_Post (update_run-Files i (cancelled_changes parts code w) w x e h)
              (λ r v p. (p.0.0, inr p.0.1)) (λ v q. (x, q)))
          (λ c.
            widen_Post (update_run-Files i (exit_changes parts code) w x e h)
              (λ r v p. (p.0.0, inl (p.1 ∙ subst (λ j. cancel_requested j w ≡ false) e c)))
              (λ v q. (x, q)))

    module _
        (kept : (pid : ℕ) (w : World S)
          → Has run_id w
          → Has run_id (parts.wait run_id pid w).0) where
      started-Honoured :
          (pid : ℕ) (r : RunRecord) (w : World S)
          → At run_id r w
          → Post Honoured (Has run_id) (await_process parts pid r w)
      unfolding await_process
      started-Honoured pid r w h =
          let e = At-id run_id valid r w h in
          after_exit-Honoured r.id _ _ e
            (subst (λ i. Has run_id (parts.wait i pid w).0) (sym e) (kept pid w (r, h)))

      -- No cancellation is lost while a run stages or trains: when `_run_process` returns, the row of the run is the record that it returns, and there is no cancel file, or the record says that the run was cancelled. The run is in the table under a valid id, and while the trainer runs no other process deletes its row.
      pub run_process-Honoured :
          (r : RunRecord) (p : Plan) (w : World S)
          → At run_id r w
          → Post Honoured (Has run_id) (run_process parts r p w)
      unfolding run_process run_started
      run_process-Honoured r p w h =
          if_ind (Post Honoured (Has run_id)) (cancel_requested r.id w)
            (λ y.
              widen_Post (never_started-Cancelled r.id w w r (At-id run_id valid r w h) h)
                (λ r' w' q. (q.0, inr q.1)) (λ w' q. absurd q))
            (λ n.
              Post-▷ (run_started parts r)
                (with_row run_id r (on_rest-Post run_id (At run_id r) (parts.start r p) w h))
                λ pid w₁ h₁.
                  Post-▷ (await_process parts pid)
                    (updating run_id valid r.id _ w₁ r (At-id run_id valid r w₁ h₁) h₁)
                    (started-Honoured pid))

    module _ (waits : Waiting S) where
      -- What an ended process group leaves: the row of the run and its cancel file.
      pub record Leaves : Type 0 where
        pub row : (pid : ℕ) (w : World S) → Has run_id w → Has run_id (waits.terminate pid w)
        pub file :
            (pid : ℕ) (w : World S)
            → cancel_requested run_id w ≡ true
            → cancel_requested run_id (waits.terminate pid w) ≡ true

      -- What `cancel` comes to, for a run with this record.
      pub data Outcome (r : RunRecord) (w : World S) : World S × Result RunRecord → Type 0 where
        had_ended : terminal r.state ≡ true → Outcome r w (w, err protected)
        was_queued :
            {r' : RunRecord} {w' : World S}
            → is_queued r.state ≡ true
            → cancel_requested run_id w' ≡ true
            → At run_id r' w'
            → r'.state ≡ cancelled
            → Outcome r w (w', ok r')
        was_active :
            {r' : RunRecord} {w' : World S}
            → terminal r.state ≡ false
            → is_queued r.state ≡ false
            → cancel_requested run_id w' ≡ true
            → At run_id r' w'
            → Outcome r w (w', ok r')

      queued-Outcome :
          (r : RunRecord) (w v : World S) (m : World S × Result RunRecord)
          → is_queued r.state ≡ true
          → cancel_requested run_id v ≡ true
          → Post (Cancelled v) (λ w'. ⊥) m
          → Outcome r w m
      unfolding cancel_requested
      queued-Outcome r w v (w', ok r') q c (returned p) =
          was_queued q (ap (some_of (λ i. same i run_id)) p.3 ∙ c) p.0 p.1
      queued-Outcome r w v (w', err e) q c (raised x) = absurd x

      active-Outcome :
          (r : RunRecord) (w v : World S)
          → terminal r.state ≡ false
          → is_queued r.state ≡ false
          → cancel_requested run_id v ≡ true
          → Has run_id v
          → Outcome r w (get_run run_id v)
      unfolding get_run
      active-Outcome r w v live n c (x, h) =
          subst (λ o. Outcome r w (v, o)) (sym (found_get run_id x v h)) (was_active live n c h)

      terminated_lem :
          (pid : Option ℕ) (w : World S)
          → Leaves
          → Has run_id w
          → cancel_requested run_id w ≡ true
          → Has run_id (terminated parts waits pid w)
            × (cancel_requested run_id (terminated parts waits pid w) ≡ true)
      terminated_lem none w l h c = (h, c)
      terminated_lem (some pid) w l h c = (l.row pid w h, l.file pid w c)

      -- `cancel` of a run that is in the table under a valid id: a run that has ended is refused, and nothing changes; of another the cancel file is written, and the row is returned. If the run was queued, the row says that it was cancelled. The condition is that the end of the process group leaves the row of the run and its cancel file.
      pub cancel-Outcome :
          (r : RunRecord) (w : World S)
          → Leaves
          → At run_id r w
          → Outcome r w (cancel parts waits run_id w)
      unfolding cancel cancel_found get_run
      cancel-Outcome r w l h =
          let w₁ = request_cancel run_id w in
          let c = cancel_requested-request_cancel w in
          subst (λ o. Outcome r w ((w, o) ▷ cancel_found parts waits run_id))
            (sym (found_get run_id r w h))
            (if_ind (Outcome r w) (terminal r.state) had_ended (λ live.
              if_ind (Outcome r w) (is_queued r.state)
                (λ q.
                  queued-Outcome r w w₁ _ q c
                    (never_started-Cancelled run_id w₁ w r refl (At-request_cancel r w h)))
                (λ n.
                  let (row, file) = terminated_lem r.pid w₁ l (r, At-request_cancel r w h) c in
                  active-Outcome r w (terminated parts waits r.pid w₁) live n file row)))
