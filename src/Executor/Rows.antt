-- ===== src/Executor/Rows.antt =====
-- The row of a run, as the executor of nawat/executor.py finds it after each update.
use nawat.Prelude.{◌≡◌, sym, ap, ◌∙◌, subst, true, some, arith}
use nawat.Prelude.Text.{Text}
use nawat.Errors.{Result, ok}
use nawat.Errors.Post.{Post, returned, raised, widen_Post, state-Post}
use nawat.Runs.{RunState, terminal, RunRecord, Store, Changes, changed, find, get, validate_run_id}
use nawat.Runs.Updates.{find-id, update-Post}
use nawat.Executor.World.{World, on_rest, reading, update_run}
use nawat.Executor.Outputs.{is_cancelled}
use nawat.Executor.Run.{Local}

pub cancelled-terminal : (state : RunState) → is_cancelled state ≡ true → terminal state ≡ true
unfolding terminal
cancelled-terminal state h = ground arith

module _ {S : Type 0} (run_id : Text) where
  -- The row of the run is this record.
  abbrev pub At : RunRecord → World S → Type 0
  At r w = find run_id w.runs ≡ some r

  abbrev pub Has : World S → Type 0
  Has w = (r : RunRecord) × At r w

  -- The row of the run is this record, and the run has ended.
  abbrev pub Ended : RunRecord → World S → Type 0
  Ended r w = At r w × (terminal r.state ≡ true)

  abbrev pub HasEnded : World S → Type 0
  HasEnded w = (r : RunRecord) × Ended r w

  -- Settling keeps the state of the run.
  abbrev pub Keeps : RunRecord → RunRecord → World S → Type 0
  Keeps r r' w = At r' w × (r'.state ≡ r.state)

  pub with_row :
      {A : Type 0} (x : RunRecord) {m : World S × Result A}
      → Post (λ a w'. At x w') (At x) m
      → Post (λ a w'. At x w') Has m
  with_row x h = widen_Post h (λ a w' q. q) (λ w' q. (x, q))

  pub found_get : (r : RunRecord) (w : World S) → At r w → get run_id w.runs ≡ ok r
  unfolding get
  found_get r w h = ground (arith, h)

  pub row_of :
      {A : Type 0} (x : RunRecord) {m : Local S × Result A}
      → Post (λ a l. At x l.world) (λ l. At x l.world) m
      → Post (λ a l. At x l.world) (λ l. Has l.world) m
  row_of x h = widen_Post h (λ a l q. q) (λ l q. (x, q))

  pub never_raises :
      {m : World S × Result RunRecord} → Post Ended (λ w. ⊥) m → Post Ended HasEnded m
  never_raises h = widen_Post h (λ r w q. q) (λ w q. absurd q)

  pub on_rest-Post :
      {A : Type 0} (P : World S → Type 0) (f : S → S × Result A) (w : World S)
      → P (on_rest f w).0
      → Post (λ a w'. P w') P (on_rest f w)
  on_rest-Post P f w h = state-Post (on_rest f w) h

  pub reading-Post :
      {A : Type 0} (P : World S → Type 0) (r : Result A) (w : World S)
      → P w
      → Post (λ a w'. P w') P (reading r w)
  reading-Post P r w h = state-Post (reading r w) h

  pub lifted :
      {A : Type 0} {P : A → World S → Type 0} {Q : World S → Type 0} (l : Local S)
      {m : World S × Result A}
      → Post P Q m
      → Post (λ a l'. P a l'.world) (λ l'. Q l'.world) (record l { world = m.0 }, m.1)
  lifted l (returned p) = returned p
  lifted l (raised q) = raised q

  module _ (valid : validate_run_id run_id ≡ ok run_id) where
    pub with_runs :
        {P : RunRecord → World S → Type 0} {Q : World S → Type 0} (w : World S)
        {m : Store × Result RunRecord}
        → Post (λ r s. P r (record w { runs = s })) (λ s. Q (record w { runs = s })) m
        → Post P Q (record w { runs = m.0 }, m.1)
    with_runs w (returned p) = returned p
    with_runs w (raised q) = raised q

    pub At-id : (r : RunRecord) (w : World S) → At r w → r.id ≡ run_id
    At-id r w h = find-id run_id w.runs r h

    -- An update of the run, by whatever record of it is at hand.
    pub update_run-Post :
        (i : Text) (changes : Changes) (w : World S) (x : RunRecord)
        → i ≡ run_id
        → At x w
        → Post
            (λ r w'. At r w' × (r.state ≡ changed changes.state x.state))
            (At x)
            (update_run i changes w)
    unfolding update_run
    update_run-Post i changes w x e h =
        subst
          (λ j.
            Post (λ r w'. At r w' × (r.state ≡ changed changes.state x.state)) (At x)
              (update_run j changes w))
          (sym e)
          (with_runs w (
            widen_Post (update-Post run_id changes w.runs x valid h) (λ r s p. p)
              (λ s q. subst (λ t. find run_id t ≡ some x) (sym q) h)))

    -- An update that sets the state to one that ends the run.
    pub ending :
        (i : Text) (changes : Changes) (w : World S) (x : RunRecord) (state : RunState)
        → i ≡ run_id
        → At x w
        → changes.state ≡ some state
        → terminal state ≡ true
        → Post Ended Has (update_run i changes w)
    ending i changes w x state e h c t =
        widen_Post (update_run-Post i changes w x e h)
          (λ r w' p. (p.0, ap terminal (p.1 ∙ ap (λ o. changed o x.state) c) ∙ t)) (λ w' q. (x, q))

    pub updating :
        (i : Text) (changes : Changes) (w : World S) (x : RunRecord)
        → i ≡ run_id
        → At x w
        → Post At Has (update_run i changes w)
    updating i changes w x e h =
        widen_Post (update_run-Post i changes w x e h) (λ r w' p. p.0) (λ w' q. (x, q))
