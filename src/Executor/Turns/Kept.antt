-- ===== src/Executor/Turns/Kept.antt =====
-- Dropping abandoned runs and updating others keep the row of a run.
use nawat.Prelude.{List, [], ◌∷◌, Option, none, some, if_ind}
use nawat.Prelude.Text.{Text}
use nawat.Errors.Post.{Post, returned, Post-▷, state-Post}
use nawat.GpuLock as Locks
use nawat.Runs.{RunRecord, Changes, find, is_queued}
use nawat.Runs.Updates.{update-kept}
use nawat.Runs.Queue.{queued}
use nawat.Executor.World.{World, Parts, update_run, request_cancel}
use nawat.Executor.Rows.{Has}
use nawat.Executor.Turns.{
  Waiting, drop_found, drop_gone, drop_each, drop_abandoned, dropped_too, went_away, is_gone,
  owner_of,
}

module _ {S : Type 0} (run_id : Text) where
  pub update_run-Has :
      (i : Text) (changes : Changes) (w : World S)
      → Has run_id w
      → Post (λ a w'. Has run_id w') (Has run_id) (update_run i changes w)
  unfolding update_run
  update_run-Has i changes w (x, h) =
      state-Post (update_run i changes w) (update-kept i run_id changes w.runs x h)

  module _ (parts : Parts S) (waits : Waiting S) where
    drop_found-Has :
        (i : Text) (o : Option RunRecord) (dropped : List RunRecord) (w : World S)
        → Has run_id w
        → Post (λ a w'. Has run_id w') (Has run_id) (drop_found parts waits i o dropped w)
    unfolding drop_found request_cancel
    drop_found-Has i none dropped w h = returned h
    drop_found-Has i (some current) dropped w h =
        if_ind (Post (λ a w'. Has run_id w') (Has run_id)) (is_queued current.state)
          (λ q.
            Post-▷ (dropped_too parts waits dropped)
              (update_run-Has i (went_away parts waits w) (request_cancel i w) h)
              (λ r w₁ h₁. returned h₁))
          (λ q. returned h)

    drop_each-Has :
        (locks : Locks.World) (rows dropped : List RunRecord) (w : World S)
        → Has run_id w
        → Post (λ a w'. Has run_id w') (Has run_id) (drop_each parts waits locks rows dropped w)
    unfolding drop_each drop_gone
    drop_each-Has locks [] dropped w h = returned h
    drop_each-Has locks (r ∷ rest) dropped w h =
        Post-▷ (drop_each parts waits locks rest)
          (if_ind (Post (λ a w'. Has run_id w') (Has run_id))
            (is_gone (owner_of parts waits r locks))
            (λ g. drop_found-Has r.id (find r.id w.runs) dropped w h) (λ g. returned h))
          (λ more w₁ h₁. drop_each-Has locks rest more w₁ h₁)

    pub drop_abandoned-Has :
        (locks : Locks.World) (w : World S)
        → Has run_id w
        → Post (λ a w'. Has run_id w') (Has run_id) (drop_abandoned parts waits locks w)
    unfolding drop_abandoned
    drop_abandoned-Has locks w h = drop_each-Has locks (queued w.runs) [] w h
