-- ===== src/Executor/Turns/Exclusive.antt =====
-- What holds when `wait_for_turn` of nawat/executor.py returns.
use nawat.Prelude.{
  ◌⊎◌, Bool, true, false, inl, inr, ◌≡◌, refl, sym, subst, List, [], ◌∷◌, In, Option, none, some,
  if◌then◌else◌, if_ind,
}
use nawat.Prelude.Text.{Text}
use nawat.Errors.{ok, Result, ◌▷◌}
use nawat.Errors.Post.{Post, returned, raised, Post-▷}
use nawat.GpuLock.{FileLock, gpu_lock_path, try_lock, take_gpu, taken}
use nawat.GpuLock as Locks
use nawat.GpuLock.Exclusion.{Holding, take_gpu-Holding}
use nawat.Runs.{RunRecord, terminal, is_queued, cancelled, validate_run_id}
use nawat.Runs.Queue.{queued_before}
use nawat.Executor.World.{World, Parts, get_run, cancel_requested}
use nawat.Executor.Trainer.{never_started}
use nawat.Executor.Rows.{At, Has, Ended, ending, found_get}
use nawat.Executor.Turns.{
  Turn, Waiting, Look, left, turn, again, look, look_at, look_ahead, take_turn, took, wait_for_turn,
  wait_on, drop_abandoned, nudge_by, nudged_lately, stalled, nudging, nudge_queue, leave,
}
use nawat.Executor.Turns.Kept.{drop_abandoned-Has}

-- A postcondition, with the state in which the operation ends.
ends_in :
    {A T : Type 0} {P : A → T → Type 0} {Q : T → Type 0} {m : T × Result A}
    → Post P Q m
    → Post (λ a t. P a t × (t ≡ m.0)) Q m
ends_in (returned p) = returned (p, refl)
ends_in (raised q) = raised q

module _ {S : Type 0} (run_id : Text) where
  -- The queue as the run with this record finds it: it is not a queued run, or no queued run starts before it.
  abbrev pub Next : RunRecord → World S → Type 0
  Next r w = (is_queued r.state ≡ false) ⊎ (queued_before r w.runs ≡ [])

  -- The last look, up to the test of the queue: the record was that of the run's row, it had not ended, its cancellation was not asked for, and then the abandoned runs were dropped.
  pub record Ready (parts : Parts S) (waits : Waiting S) (r : RunRecord) (locks : Locks.World)
      (w : World S) : Type 0 where
    pub before : World S
    pub row : At run_id r before
    pub live : terminal r.state ≡ false
    pub wanted : cancel_requested run_id before ≡ false
    pub without_abandoned : w ≡ (drop_abandoned parts waits locks before).0

  -- What each of the results of `wait_for_turn` means. The record is the one that the last look read.
  pub data Looked (parts : Parts S) (waits : Waiting S) : Look → Turn S → Type 0 where
    is_left : {t : Turn S} (r : RunRecord) → Ended run_id r t.world → Looked parts waits left t
    has_turn :
        {gpu : FileLock} {t : Turn S} (r : RunRecord) (locks : Locks.World)
        → Ready parts waits r locks t.world
        → Next r t.world
        → take_gpu parts.pid (waits.gpu_note r) locks ≡ (some gpu, t.locks)
        → Holding gpu t.locks
        → gpu.path ≡ gpu_lock_path
        → Has run_id t.world
        → Looked parts waits (turn gpu) t
    waits_on : {t : Turn S} → Has run_id t.world → Looked parts waits again t

  -- What the other processes do keeps the row of the run.
  abbrev pub KeepsRow : (Turn S → Turn S) → Type 0
  KeepsRow f = (t : Turn S) → Has run_id t.world → Has run_id (f t).world

  pub on_turn :
      {A : Type 0} {P : A → World S → Type 0} {Q : World S → Type 0} (t : Turn S)
      {m : World S × Result A}
      → Post P Q m
      → Post (λ a t'. P a t'.world) (λ t'. Q t'.world) (record t { world = m.0 }, m.1)
  on_turn t (returned p) = returned p
  on_turn t (raised q) = raised q

  abbrev HasT : Turn S → Type 0
  HasT t = Has run_id t.world

  module _ (parts : Parts S) (waits : Waiting S) where
    took-Looked :
        (r : RunRecord) (t : Turn S) (gpu : Option FileLock) (locks : Locks.World)
        → take_gpu parts.pid (waits.gpu_note r) t.locks ≡ (gpu, locks)
        → Ready parts waits r t.locks t.world
        → Next r t.world
        → HasT t
        → Post (Looked parts waits) HasT (took parts waits t (gpu, locks))
    took-Looked r t none locks e ready next h = returned (waits_on h)
    took-Looked r t (some gpu) locks e ready next h =
        let (holding, path) = take_gpu-Holding parts.pid (waits.gpu_note r) t.locks locks gpu e in
        returned (has_turn r t.locks ready next e holding path h)

    nudge_by-Has :
        (o : Option (Turn S → Turn S)) (ahead : List RunRecord) (t : Turn S)
        → ((start : Turn S → Turn S) → o ≡ some start → KeepsRow start)
        → HasT t
        → HasT (nudge_by parts waits o ahead t)
    unfolding nudge_by
    nudge_by-Has none ahead t nudged h = h
    nudge_by-Has (some start) ahead t nudged h =
        if_ind HasT (nudged_lately parts waits t) {x = t}
          {y = if stalled parts waits ahead t then start (nudging parts waits t) else t} (λ e. h)
          (λ e.
            if_ind HasT (stalled parts waits ahead t) {x = start (nudging parts waits t)} {y = t}
              (λ q. nudged start refl (nudging parts waits t) h) (λ q. h))

    waited-Looked :
        (sleep : Turn S → Turn S × Result Look)
        → ((t : Turn S) → HasT t → Post (Looked parts waits) HasT (sleep t))
        → (o : Look) (t : Turn S) → Looked parts waits o t
        → Post (Looked parts waits) HasT (wait_on parts waits sleep o t)
    waited-Looked sleep next left t (is_left r e) = returned (is_left r e)
    waited-Looked sleep next (turn gpu) t (has_turn r locks ready first e holding path h) =
        returned (has_turn r locks ready first e holding path h)
    waited-Looked sleep next again t (waits_on h) = next t h

    -- A nudge, if there is somebody to nudge.
    module _
        (nudged : (start : Turn S → Turn S) → waits.on_stalled ≡ some start → KeepsRow start) where
      nudge_queue-Has :
          (ahead : List RunRecord) (t : Turn S) → HasT t → HasT (nudge_queue parts waits ahead t)
      unfolding nudge_queue
      nudge_queue-Has ahead t h = nudge_by-Has waits.on_stalled ahead t nudged h

      take_turn-Looked :
          (r : RunRecord) (ahead : List RunRecord) (t : Turn S)
          → Ready parts waits r t.locks t.world
          → (ahead ≡ [] → Next r t.world)
          → HasT t
          → Post (Looked parts waits) HasT (take_turn parts waits r ahead t)
      unfolding take_turn
      take_turn-Looked r [] t ready next h = took-Looked r t _ _ refl ready (next refl) h
      take_turn-Looked r (x ∷ ahead) t ready next h =
          returned (waits_on (nudge_queue-Has (x ∷ ahead) t h))

      look_ahead-Looked :
          (r : RunRecord) (dropped : List RunRecord) (t : Turn S)
          → Ready parts waits r t.locks t.world
          → HasT t
          → Post (Looked parts waits) HasT (look_ahead parts waits r dropped t)
      unfolding look_ahead
      look_ahead-Looked r dropped t ready h =
          take_turn-Looked r (if is_queued r.state then queued_before r t.world.runs else []) t
            ready (alone (is_queued r.state)) h
        where
          alone :
              (b : Bool)
              → (if b then queued_before r t.world.runs else []) ≡ []
              → (b ≡ false) ⊎ (queued_before r t.world.runs ≡ [])
          alone true e = inr e
          alone false e = inl refl

      module _ (valid : validate_run_id run_id ≡ ok run_id) where
        look_at-Looked :
            (r : RunRecord) (t : Turn S)
            → At run_id r t.world
            → Post (Looked parts waits) HasT (look_at parts waits run_id r t)
        unfolding look_at terminal
        look_at-Looked r t h =
            if_ind (Post (Looked parts waits) HasT) (terminal r.state)
              (λ e. returned (is_left r (h, e)))
              (λ e.
                if_ind (Post (Looked parts waits) HasT) (cancel_requested run_id t.world)
                  (λ c.
                    Post-▷ (leave parts waits)
                      (on_turn t (
                        ending run_id valid run_id (never_started parts t.world) t.world r cancelled
                          refl h refl refl))
                      (λ u t₁ h₁. returned (is_left u h₁)))
                  (λ c.
                    Post-▷ (look_ahead parts waits r)
                      (ends_in
                        (on_turn t (drop_abandoned-Has run_id parts waits t.locks t.world (r, h))))
                      (λ dropped t₁ h₁.
                        look_ahead-Looked r dropped t₁
                          (subst (λ (x : Turn S). Ready parts waits r x.locks x.world) (sym h₁.1)
                            (record {
                              before = t.world;
                              row = h;
                              live = e;
                              wanted = c;
                              without_abandoned = refl;
                            }))
                          h₁.0)))

        look-Looked :
            (t : Turn S) → HasT t → Post (Looked parts waits) HasT (look parts waits run_id t)
        unfolding look get_run
        look-Looked t (r, h) =
            subst (λ o. Post (Looked parts waits) HasT ((t, o) ▷ look_at parts waits run_id))
              (sym (found_get run_id r t.world h)) (look_at-Looked r t h)

        -- What `wait_for_turn` returns, after however many looks, for a run that is in the table under a valid id: it gives up only on a run that has ended; it returns the GPU only when the record of the run's row, as the last look read it, had not ended and its cancellation was not asked for, when after dropping the abandoned runs no queued run came before that record if it was queued, and when the lock that it returns is the GPU lock and held, through the file at the lock's path. The conditions are that what the other processes do, while it sleeps or when they are nudged, keeps the row of the run.
        pub wait_for_turn-Looked :
            (looks : List (Turn S → Turn S)) (t : Turn S)
            → ((others : Turn S → Turn S) → In others looks → KeepsRow others)
            → Has run_id t.world
            → Post
                (Looked parts waits)
                (λ t'. Has run_id t'.world)
                (wait_for_turn parts waits looks run_id t)
        unfolding wait_for_turn
        wait_for_turn-Looked [] t keeps h = returned (waits_on h)
        wait_for_turn-Looked (others ∷ rest) t keeps h =
            let next : (t₁ : Turn S)
                → HasT t₁
                → Post (Looked parts waits) HasT
                    (wait_for_turn parts waits rest run_id (others t₁)) =
              λ t₁ h₁.
                wait_for_turn-Looked rest (others t₁) (λ f m. keeps f (inr m))
                  (keeps others (inl refl) t₁ h₁) in
            Post-▷ (wait_on parts waits (λ t₁. wait_for_turn parts waits rest run_id (others t₁)))
              (look-Looked t h) (waited-Looked _ next)
