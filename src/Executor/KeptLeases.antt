-- ===== src/Executor/KeptLeases.antt =====
-- The calls of `_execute` in nawat/executor.py that leave the leases alone.
use nawat.Prelude.{ℕ, List, [], ◌∷◌, ◌++◌, map, Option, none, some, if_ind}
use nawat.Prelude.Text.{Text, text}
use nawat.Errors.{Result, ok, err, ◌▷◌}
use nawat.Errors.Post.{Post, returned, raised, Post-▷, state-Post}
use nawat.Keys.{Key}
use nawat.Keys
use nawat.Leases.{Registry}
use nawat.Runs.{RunRecord, Changes, publish_prefix, find}
use nawat.Executor.World.{
  Plan, World, Parts, on_rest, reading, get_run, update_run, cancel_requested,
}
use nawat.Executor.Planning.{
  discard_lineage, find_newest, newest_of, open_lineage, prepare_checkpoints, plan_lineage,
  plan_script, plan_with, plan,
}
use nawat.Executor.Trainer.{run_process, run_started, await_process, after_exit}
use nawat.Executor.Outputs.{
  is_cancelled, publish_classes, publish_outputs, publish_partial, otherwise, finish,
  finish_published, finish_succeeded, finish_failed, record_succeeded, record_failed,
  replicate_reached, replicate_checkpoint, published_key, settle_lineage, settle_reached,
  settle_replicated, record_settled, settle_checkpoints, exited_zero,
}
use nawat.Executor.Run.{fail, fail_found, after_try, publish_finished, finalize_experiment}

-- A property of the leases alone is kept by all that changes only the rest and the runs.
module _ {S : Type 0} (parts : Parts S) (Q : Registry → Type 0) where
  abbrev pub Keeps : {A : Type 0} → World S × Result A → Type 0
  Keeps m = Post (λ a w. Q w.leases) (λ w. Q w.leases) m

  Keeps-▷ :
      {A B : Type 0} (f : A → World S → World S × Result B) {m : World S × Result A}
      → Keeps m
      → ((a : A) (w : World S) → Q w.leases → Keeps (f a w))
      → Keeps (m ▷ f)
  Keeps-▷ f p k = Post-▷ f p k

  pub on_rest-Keeps :
      {A : Type 0} (f : S → S × Result A) (w : World S) → Q w.leases → Keeps (on_rest f w)
  on_rest-Keeps f w q = state-Post (on_rest f w) q

  pub reading-Keeps : {A : Type 0} (r : Result A) (w : World S) → Q w.leases → Keeps (reading r w)
  reading-Keeps r w q = state-Post (reading r w) q

  pub update_run-Keeps :
      (i : Text) (changes : Changes) (w : World S) → Q w.leases → Keeps (update_run i changes w)
  unfolding update_run
  update_run-Keeps i changes w q = state-Post (update_run i changes w) q

  open_lineage-Keeps :
      (r : RunRecord) (directory : Text) (w : World S)
      → Q w.leases
      → Keeps (open_lineage parts r directory w)
  unfolding open_lineage discard_lineage find_newest
  open_lineage-Keeps r directory w q =
      Keeps-▷ (find_newest parts r directory)
        (on_rest-Keeps (parts.note_owner directory r) (discard_lineage parts r directory w)
          (if_ind (λ (v : World S). Q v.leases) r.spec.checkpoints.resume (λ y. q) (λ n. q)))
        λ u w₁ q₁.
          Keeps-▷ (λ newest w₂. (w₂, ok (directory, newest)))
            (reading-Keeps (newest_of parts r directory w₁) w₁ q₁) λ newest w₂ q₂. returned q₂

  pub plan-Keeps :
      (r : RunRecord) (inputs : List (Key × Text)) (w : World S)
      → Q w.leases
      → Keeps (plan parts r inputs w)
  unfolding plan plan_script plan_lineage prepare_checkpoints
  plan-Keeps r inputs w q =
      Keeps-▷ (plan_script parts r inputs)
        (reading-Keeps (parts.resolve_script r.spec.script w.rest) w q)
        λ script w₁ q₁.
          Keeps-▷ (plan_lineage parts r inputs script)
            (on_rest-Keeps (parts.make_output_dir r.id) w₁ q₁)
            λ out_dir w₂ q₂.
              Keeps-▷ (plan_with parts script out_dir inputs)
                (Keeps-▷ (open_lineage parts r) (reading-Keeps (parts.lineage_dir r.spec) w₂ q₂)
                  λ directory w₃ q₃. open_lineage-Keeps r directory w₃ q₃)
                λ c w₄ q₄. returned q₄

  publish_classes-Keeps :
      (prefix : Text) (names published : List Text) (w : World S)
      → Q w.leases
      → Keeps (publish_classes parts prefix names published w)
  unfolding publish_classes
  publish_classes-Keeps prefix [] published w q = returned q
  publish_classes-Keeps prefix (name ∷ rest) published w q =
      Post-▷ _ (reading-Keeps (Keys.parse (text "runs/" ++ prefix ++ b'/' ∷ name)) w q) λ key w₁ q₁.
        Post-▷ _ (on_rest-Keeps (parts.publish name key) w₁ q₁)
          λ u w₂ q₂. publish_classes-Keeps prefix rest (published ++ Keys.str key ∷ []) w₂ q₂

  publish_outputs-Keeps :
      (prefix : Text) (p : Plan) (w : World S)
      → Q w.leases
      → Keeps (publish_outputs parts prefix p w)
  unfolding publish_outputs
  publish_outputs-Keeps prefix p w q =
      Post-▷ _ (on_rest-Keeps (parts.artifact_classes p) w q)
        λ names w₁ q₁. publish_classes-Keeps prefix names [] w₁ q₁

  otherwise-Keeps :
      (old : List Text) (m : World S × Result (List Text)) → Keeps m → Keeps (otherwise parts old m)
  otherwise-Keeps old (w, ok a) (returned q) = returned q
  otherwise-Keeps old (w, err e) (raised q) = returned q

  published_key-Keeps :
      (key : Key) (m : World S × Result (Unit {0})) → Keeps m → Keeps (published_key parts key m)
  published_key-Keeps key (w, ok u) (returned q) = returned q
  published_key-Keeps key (w, err e) (raised q) = returned q

  pub finish-Keeps :
      (r : RunRecord) (p : Plan) (w : World S) → Q w.leases → Keeps (finish parts r p w)
  unfolding finish finish_published finish_succeeded finish_failed record_succeeded record_failed
      publish_partial
  finish-Keeps r p w q =
      if_ind Keeps (is_cancelled r.state) (λ c. returned q)
        (λ c. Keeps-▷ (finish_published parts p) (update_run-Keeps r.id _ w q) λ r₁ w₁ q₁.
          if_ind Keeps (exited_zero r₁.exit_code)
            (λ z.
              Keeps-▷ (record_succeeded parts r₁)
                (publish_outputs-Keeps (publish_prefix r₁) p w₁ q₁)
                λ a w₂ q₂. update_run-Keeps r₁.id _ w₂ q₂)
            (λ z.
              Keeps-▷ (record_failed parts r₁)
                (otherwise-Keeps (map Keys.str r₁.artifacts) _
                  (publish_outputs-Keeps (publish_prefix r₁) p w₁ q₁))
                λ a w₂ q₂. update_run-Keeps r₁.id _ w₂ q₂))

  replicate_reached-Keeps :
      (r : RunRecord) (reached : Option Text) (w : World S)
      → Q w.leases
      → Keeps (replicate_reached parts r reached w)
  unfolding replicate_reached replicate_checkpoint
  replicate_reached-Keeps r none w q = returned q
  replicate_reached-Keeps r (some path) w q =
      if_ind Keeps r.spec.checkpoints.publish
        (λ y.
          Post-▷ _
            (reading-Keeps (Keys.parse (text "runs/" ++ publish_prefix r ++ text "/checkpoint")) w
              q)
            λ key w₁ q₁. published_key-Keeps key _ (on_rest-Keeps (parts.replicate path key) w₁ q₁))
        (λ n. returned q)

  pub settle_checkpoints-Keeps :
      (r : RunRecord) (p : Option Plan) (w : World S)
      → Q w.leases
      → Keeps (settle_checkpoints parts r p w)
  unfolding settle_checkpoints settle_lineage settle_reached settle_replicated record_settled
  settle_checkpoints-Keeps r none w q = returned q
  settle_checkpoints-Keeps r (some p) w q =
      Keeps-▷ (settle_reached parts r p) (reading-Keeps (parts.latest p.checkpoint_dir w.rest) w q)
        λ reached w₁ q₁.
          Keeps-▷ (settle_replicated parts r p) (replicate_reached-Keeps r reached w₁ q₁)
            λ key w₂ q₂.
              Keeps-▷ (record_settled parts r key)
                (on_rest-Keeps (parts.settle p.checkpoint_dir _ r.spec.checkpoints.keep) w₂ q₂)
                λ newest w₃ q₃. update_run-Keeps r.id _ w₃ q₃

  pub fail-Keeps : (run_id : Text) (w : World S) → Q w.leases → Keeps (fail parts run_id w)
  unfolding fail fail_found
  fail-Keeps run_id w q = found (find run_id w.runs)
    where
      found : (o : Option RunRecord) → Keeps (fail_found parts run_id o w)
      found none = update_run-Keeps run_id _ w q
      found (some r) =
          if_ind Keeps (is_cancelled r.state) (λ c. returned q) (λ c. update_run-Keeps run_id _ w q)

  pub after_try-Keeps :
      (run_id : Text) (m : World S × Result RunRecord) → Keeps m → Keeps (after_try parts run_id m)
  unfolding after_try publish_finished finalize_experiment get_run
  after_try-Keeps run_id m q = Post-▷ (publish_finished parts run_id) q λ r w₁ q₁.
      Post-▷ (finalize_experiment parts run_id) (on_rest-Keeps (parts.publish_record r) w₁ q₁)
        λ u w₂ q₂.
          state-Post (get_run run_id (record w₂ { rest = parts.finalize run_id w₂.rest })) q₂

  -- While the trainer runs, the other processes keep it too.
  module _
      (kept : (i : Text) (pid : ℕ) (w : World S)
        → Q w.leases
        → Q (parts.wait i pid w).0.leases) where
    after_exit-Keeps :
        (i : Text) (w : World S) (code : ℕ) → Q w.leases → Keeps (after_exit parts i (w, code))
    unfolding after_exit
    after_exit-Keeps i w code q =
        if_ind Keeps (cancel_requested i w) (λ c. update_run-Keeps i _ w q)
          (λ c. update_run-Keeps i _ w q)

    pub run_process-Keeps :
        (r : RunRecord) (p : Plan) (w : World S) → Q w.leases → Keeps (run_process parts r p w)
    unfolding run_process run_started await_process
    run_process-Keeps r p w q =
        if_ind Keeps (cancel_requested r.id w) (λ c. update_run-Keeps r.id _ w q)
          (λ c. Keeps-▷ (run_started parts r) (on_rest-Keeps (parts.start r p) w q) λ pid w₁ q₁.
            Keeps-▷ (await_process parts pid) (update_run-Keeps r.id _ w₁ q₁)
              λ r₁ w₂ q₂. after_exit-Keeps r₁.id _ _ (kept r₁.id pid w₂ q₂))
