-- ===== src/Executor/Released.antt =====
-- `_execute` of nawat/executor.py leaves no lease of the run behind.
use nawat.Prelude.{
  All, keep, same, same→eq, if_ind, refl, ℕ, ◌≡◌, ap, Bool, true, not, List, [], ◌∷◌, ◌++◌, In,
  In-append, In-keep, some_of, none, some, ◌⊎◌, inl, inr, ◌==◌, arith,
}
use nawat.Prelude.Text.{Text, text_eq}
use nawat.Errors.{Result, ok, err}
use nawat.Errors.Post.{Post, returned, raised, Post-▷, state-Post, Post-state}
use nawat.Keys.{Key}
use nawat.Leases.{LeaseRecord, Registry, acquire, release, listed, ids_of}
use nawat.Runs.{RunRecord, staged_keys}
use nawat.Executor.World.{Plan, World, Parts, get_run}
use nawat.Executor.Run.{
  Local, stage, take_lease, settle_planned, finish_planned, run_planned, plan_staged, stage_inputs,
  attempt_required, attempt, settle_failed, handle, release_leases, execute_record, execute_,
}
use nawat.Executor.KeptLeases.{
  Keeps, on_rest-Keeps, reading-Keeps, update_run-Keeps, plan-Keeps, run_process-Keeps,
  finish-Keeps, settle_checkpoints-Keeps, fail-Keeps, after_try-Keeps,
}

-- The leases of a run, in a table in which some of its leases were before: each is one of those, or its id is at hand.
abbrev pub OwnLeases : Text → List LeaseRecord → List ℕ → Registry → Type 0
OwnLeases holder before ids g =
    (x : LeaseRecord) → In x g.table → x.holder ≡ holder → In x before ⊎ (listed ids x ≡ true)

some_of-append :
    (p : ℕ → Bool) (xs ys : List ℕ)
    → (some_of p xs ≡ true) ⊎ (some_of p ys ≡ true)
    → some_of p (xs ++ ys) ≡ true
some_of-append p [] ys h = ground (arith, h)
some_of-append p (x ∷ xs) ys h = ground (arith, h, some_of-append p xs ys)

listed_In :
    (x : LeaseRecord) (records : List LeaseRecord) → In x records → listed (ids_of records) x ≡ true
listed_In x [] m = absurd m
listed_In x (y ∷ rest) (inl e) = ground (arith, ap (λ z. z.id) e)
listed_In x (y ∷ rest) (inr m) = ground (arith, listed_In x rest m)

-- What `acquire` adds has its id at hand.
acquire-OwnLeases :
    (holder : Text) (before : List LeaseRecord) (ids : List ℕ) (g : Registry)
    (records : List LeaseRecord)
    → OwnLeases holder before ids g
    → OwnLeases holder before (ids ++ ids_of records) (record g { table = g.table ++ records })
acquire-OwnLeases holder before ids g records own x m e = elim (In-append x g.table records m) [
  | inr new ↦
      inr (some_of-append (λ i. i == x.id) ids (ids_of records) (inr (listed_In x records new)))
  | inl old ↦ elim (own x old e) [
    | inl b ↦ inl b
    | inr k ↦ inr (some_of-append (λ i. i == x.id) ids (ids_of records) (inl k))
  ]
]

-- What `release` leaves was there before.
release-OwnLeases :
    (holder : Text) (before : List LeaseRecord) (ids : List ℕ) (g : Registry)
    → OwnLeases holder before ids g
    → OwnLeases holder before [] (release ids g).0
unfolding release
release-OwnLeases holder before ids g own x m e =
    let (there, left) = In-keep (λ r. not (listed ids r)) x g.table m in
    elim (own x there e) [ inl b ↦ inl b | inr k ↦ absurd (ground (arith, left, k)) ]

module _ {S : Type 0} (parts : Parts S) (holder : Text) (before : List LeaseRecord) where
  abbrev Own : Local S → Type 0
  Own l = OwnLeases holder before l.leases l.world.leases

  abbrev KeepsOwn : {A : Type 0} → Local S × Result A → Type 0
  KeepsOwn m = Post (λ a l. Own l) Own m

  on_world-Own :
      {A : Type 0} (l : Local S) {m : World S × Result A}
      → Keeps parts (OwnLeases holder before l.leases) m
      → KeepsOwn (record l { world = m.0 }, m.1)
  on_world-Own l (returned q) = returned q
  on_world-Own l (raised q) = raised q

  take_lease-Own :
      (run_id : Text) (key : Key) (l : Local S) → Own l → Own (take_lease parts run_id key l)
  unfolding take_lease acquire
  take_lease-Own run_id key l own = acquire-OwnLeases holder before l.leases l.world.leases _ own

  stage-Own :
      (run_id : Text) (keys : List Key) (inputs : List (Key × Text)) (l : Local S)
      → Own l
      → KeepsOwn (stage parts run_id keys inputs l)
  unfolding stage
  stage-Own run_id [] inputs l own = returned own
  stage-Own run_id (key ∷ rest) inputs l own =
      Post-▷ _ (on_world-Own l (on_rest-Keeps parts _ (parts.resolve key) l.world own))
        λ path l₁ own₁.
          stage-Own run_id rest (inputs ++ (key, path) ∷ []) (take_lease parts run_id key l₁)
            (take_lease-Own run_id key l₁ own₁)

  -- While the trainer runs, no other process acquires a lease in the name of the run.
  module _
      (kept : (ids : List ℕ) (i : Text) (pid : ℕ) (w : World S)
        → OwnLeases holder before ids w.leases
        → OwnLeases holder before ids (parts.wait i pid w).0.leases) where
    run_planned-Own :
        (r : RunRecord) (p : Plan) (l : Local S) → Own l → KeepsOwn (run_planned parts r p l)
    unfolding run_planned finish_planned settle_planned
    run_planned-Own r p l own =
        Post-▷ (finish_planned parts p)
          (on_world-Own (record l { plan = some p })
            (run_process-Keeps parts _ (kept l.leases) r p l.world own))
          λ r₁ l₁ own₁.
            Post-▷ (settle_planned parts p)
              (on_world-Own l₁ (finish-Keeps parts _ r₁ p l₁.world own₁))
              λ r₂ l₂ own₂.
                on_world-Own l₂ (settle_checkpoints-Keeps parts _ r₂ (some p) l₂.world own₂)

    stage_inputs-Own : (r : RunRecord) (l : Local S) → Own l → KeepsOwn (stage_inputs parts r l)
    unfolding stage_inputs plan_staged
    stage_inputs-Own r l own =
        Post-▷ (plan_staged parts r) (stage-Own r.id (staged_keys r.spec) [] l own)
          λ inputs l₁ own₁.
            Post-▷ (run_planned parts r)
              (on_world-Own l₁ (plan-Keeps parts _ r inputs l₁.world own₁))
              λ p l₂ own₂. run_planned-Own r p l₂ own₂

    attempt-Own : (r : RunRecord) (l : Local S) → Own l → KeepsOwn (attempt parts r l)
    unfolding attempt attempt_required
    attempt-Own r l own =
        Post-▷ (attempt_required parts r)
          (on_world-Own l (
            reading-Keeps parts _ (parts.require_experiment r.spec.script l.world.rest) l.world
              own))
          λ u l₁ own₁.
            Post-▷ (stage_inputs parts)
              (on_world-Own l₁ (update_run-Keeps parts _ r.id _ l₁.world own₁))
              λ r₂ l₂ own₂. stage_inputs-Own r₂ l₂ own₂

    handle-Own :
        (run_id : Text) (m : Local S × Result RunRecord)
        → KeepsOwn m
        → KeepsOwn (handle parts run_id m)
    unfolding handle settle_failed
    handle-Own run_id (l, ok r) (returned own) = returned own
    handle-Own run_id (l, err e) (raised own) =
        Post-▷ (settle_failed parts) (on_world-Own l (fail-Keeps parts _ run_id l.world own))
          λ r l₁ own₁. on_world-Own l₁ (settle_checkpoints-Keeps parts _ r l₁.plan l₁.world own₁)

    released :
        (m : Local S × Result RunRecord)
        → KeepsOwn m
        → Keeps parts (OwnLeases holder before []) (release_leases parts m.0, m.1)
    unfolding release_leases
    released (l, ok r) (returned own) =
        returned (release-OwnLeases holder before l.leases l.world.leases own)
    released (l, err e) (raised own) =
        raised (release-OwnLeases holder before l.leases l.world.leases own)

    execute_record-Own :
        (run_id : Text) (r : RunRecord) (w : World S)
        → OwnLeases holder before [] w.leases
        → Keeps parts (OwnLeases holder before []) (execute_record parts run_id r w)
    unfolding execute_record
    execute_record-Own run_id r w own = after_try-Keeps parts _ run_id _ (
        released _ (
          handle-Own run_id _ (attempt-Own r (record { world = w; leases = []; plan = none }) own)))

    execute_-Own :
        (run_id : Text) (w : World S)
        → OwnLeases holder before [] w.leases
        → Keeps parts (OwnLeases holder before []) (execute_ parts run_id w)
    unfolding execute_ get_run
    execute_-Own run_id w own =
        Post-▷ (execute_record parts run_id) (state-Post (get_run run_id w) own)
          λ r w₁ own₁. execute_record-Own run_id r w₁ own₁

All-keep :
    (p : LeaseRecord → Bool) (P : LeaseRecord → Type 0) (xs : List LeaseRecord)
    → ((x : LeaseRecord) → In x xs → p x ≡ true → P x)
    → All P (keep p xs)
All-keep p P [] f = tt
All-keep p P (x ∷ xs) f =
    if_ind (All P) (p x) {x = x ∷ keep p xs} {y = keep p xs}
      (λ e. (f x (inl refl) e, All-keep p P xs (λ y m. f y (inr m))))
      (λ e. All-keep p P xs (λ y m. f y (inr m)))

-- However `_execute` ends, it leaves no lease that it took: each lease in the table then that this holder has (for the run's own leases, the holder is `run <id>`) was in the table before. The condition is that while the trainer runs no other process acquires leases for that holder.
pub execute_-released :
    {S : Type 0} (parts : Parts S) (holder run_id : Text) (w : World S)
    → ((i : Text) (pid : ℕ) (v : World S) (x : LeaseRecord)
        → In x (parts.wait i pid v).0.leases.table
        → x.holder ≡ holder
        → In x v.leases.table)
    → All
        (λ x. In x w.leases.table)
        (keep (λ x. same x.holder holder) (execute_ parts run_id w).0.leases.table)
execute_-released parts holder run_id w kept =
    let own = Post-state (
      execute_-Own parts holder w.leases.table
        (λ ids i pid v own y n f. own y (kept i pid v y n f) f) run_id w (λ y n f. inl n)) in
    All-keep (λ x. same x.holder holder) (λ x. In x w.leases.table)
      (execute_ parts run_id w).0.leases.table
      (λ x m e. elim (own x m (same→eq x.holder holder e)) [
        | inl b ↦ b
        | inr k ↦ absurd (ground (arith, k))
      ])
