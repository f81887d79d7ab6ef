-- ===== src/Executor/Turns/Dropped.antt =====
-- What `drop_abandoned` of nawat/executor.py leaves alone.
use nawat.Prelude.{
  ◌≡◌, refl, ◌∙◌, subst, true, false, List, [], ◌∷◌, Option, none, some, Bool-cases, inl, inr, same,
  same→eq, if_ind, arith,
}
use nawat.Prelude.Text.{Text, text_eq}
use nawat.Errors.{Result}
use nawat.Errors.Post.{Post, returned, Post-▷, widen_Post, Post-state, state-Post}
use nawat.GpuLock.{owner_state, gone}
use nawat.GpuLock as Locks
use nawat.Runs.{RunRecord, find, is_queued}
use nawat.Runs.Updates.{update-other}
use nawat.Runs.Queue.{queued}
use nawat.Executor.World.{World, Parts, update_run, request_cancel}
use nawat.Executor.Turns.{
  Waiting, drop_found, drop_gone, drop_each, drop_abandoned, dropped_too, went_away, is_gone,
  owner_of,
}

module _ {S : Type 0} (parts : Parts S) (waits : Waiting S) (i : Text) (locks : Locks.World) where
  -- The row of the run is what it was.
  abbrev Same : World S → World S → Type 0
  Same w w' = find i w'.runs ≡ find i w.runs

  abbrev Leaves : {A : Type 0} → World S → World S × Result A → Type 0
  Leaves w m = Post (λ a w'. Same w w') (Same w) m

  drop_found_other :
      (j : Text) (o : Option RunRecord) (dropped : List RunRecord) (w : World S)
      → same j i ≡ false
      → Leaves w (drop_found parts waits j o dropped w)
  unfolding drop_found update_run request_cancel
  drop_found_other j none dropped w d = returned refl
  drop_found_other j (some current) dropped w d =
      if_ind (Leaves w) (is_queued current.state)
        (λ q.
          Post-▷ (dropped_too parts waits dropped)
            (state-Post (update_run j (went_away parts waits w) (request_cancel j w))
              (update-other j i (went_away parts waits w) w.runs d))
            (λ r w₁ h₁. returned h₁))
        (λ q. returned refl)

  module _ (lives : is_gone (owner_state (waits.directory i) locks) ≡ false) where
    drop_gone_other :
        (r : RunRecord) (dropped : List RunRecord) (w : World S)
        → Leaves w (drop_gone parts waits locks r dropped w)
    unfolding drop_gone owner_of
    drop_gone_other r dropped w =
        if_ind (Leaves w) (is_gone (owner_of parts waits r locks))
          (λ g. elim (Bool-cases (same r.id i)) [
            | inl e ↦ absurd (
                ground (
                  arith,
                  lives,
                  subst (λ t. is_gone (owner_state (waits.directory t) locks) ≡ true)
                      (same→eq r.id i e) g,
                ))
            | inr d ↦ drop_found_other r.id (find r.id w.runs) dropped w d
          ])
          (λ g. returned refl)

    drop_each_other :
        (rows dropped : List RunRecord) (w : World S)
        → Leaves w (drop_each parts waits locks rows dropped w)
    unfolding drop_each
    drop_each_other [] dropped w = returned refl
    drop_each_other (r ∷ rest) dropped w =
        Post-▷ (drop_each parts waits locks rest) (drop_gone_other r dropped w) λ more w₁ h₁.
          widen_Post (drop_each_other rest more w₁) (λ a w₂ h₂. h₂ ∙ h₁) (λ w₂ h₂. h₂ ∙ h₁)

    -- `drop_abandoned`, whether it returns or raises, leaves the row of a run whose terminal still waits, or that was handed to the queue.
    pub find-drop_abandoned :
        (w : World S) → find i (drop_abandoned parts waits locks w).0.runs ≡ find i w.runs
    unfolding drop_abandoned
    find-drop_abandoned w = Post-state (drop_each_other (queued w.runs) [] w)
