-- ===== src/Cache/Order.antt =====
-- What `collect` of nawat/cache.py evicts, in which order, and where it stops.
use nawat.Prelude.{
  ℕ, ◌==◌, ◌+◌, ◌<◌, ◌≡◌, ◌≢◌, refl, sym, ◌∙◌, ap, subst, ◌⊎◌, Bool, true, false, List, [], ◌∷◌,
  ◌++◌, map, Option, none, some, if◌then◌else◌, arith, if_ind, inl, inr, leb, length, sum_of, In,
  All, append_assoc, length-append, append-nil,
}
use nawat.Prelude.Text.{Text, text_eq, starts_with}
use nawat.Prelude.Sort.{AllFrom, IsSortedBy, sort_by}
use nawat.Prelude.Dict
use nawat.Errors.{Result, ok, err, ◌▷◌}
use nawat.Keys.{object_prefix}
use nawat.Store.Backend.{ObjectStore}
use nawat.Cache.{Config, Env, Cache, ArtifactStatus, leased, list, forget}
use nawat.Cache.Reclaim.{
  Reason, CollectResult, satisfied, verify_for_eviction, delete_local, skip, count_evicted, dispose,
  collect_one, collect_loop, nothing_yet, deficit, collect_reconciled,
}
use nawat.Cache.Frame.{SameData-trans, list-SameData}
use nawat.Cache.Loss.{verify-Checked, get-without_prefix}

abbrev pub bytes_of : ArtifactStatus → ℕ
bytes_of a = a.bytes

abbrev pub last_use : ArtifactStatus → ℕ
last_use a = a.last_used

module _ (store : ObjectStore) where
  open store use {State}

  -- One run of the loop over `todo`: what it chose.
  pub record Run (todo : List ArtifactStatus) (r r' : CollectResult) (c c' : Cache State)
      : Type 0 where
    pub chosen : List ArtifactStatus
    pub evicted : r'.evicted ≡ r.evicted ++ map (λ a. a.key) chosen
    pub freed : r'.freed ≡ r.freed + sum_of bytes_of chosen
    pub target : r'.target ≡ r.target
    -- Only artifacts of `todo` that are neither pinned nor leased.
    pub listed : (a : ArtifactStatus) → In a chosen → In a todo
    pub evictable : (a : ArtifactStatus) → In a chosen → (a.pinned ≡ false) × (leased a ≡ false)
    -- The least recently used first.
    pub from : (n : ℕ) → AllFrom last_use n todo → AllFrom last_use n chosen
    pub sorted : IsSortedBy last_use todo → IsSortedBy last_use chosen
    -- The target is met, or every artifact was evicted or skipped.
    pub finished :
        (satisfied r' ≡ true) ⊎ (length r'.skipped + length chosen ≡ length r.skipped + length todo)
    -- No eviction was made once the target was met.
    pub needed :
        (front : List ArtifactStatus) (last : ArtifactStatus)
        → chosen ≡ front ++ last ∷ []
        → r.freed + sum_of bytes_of front < r.target
    -- Files outside the chosen artifacts are as they were.
    pub untouched :
        (name : Text)
        → All (λ (a : ArtifactStatus). starts_with (object_prefix a.key) name ≡ false) chosen
        → Dict.get name c'.disk.files ≡ Dict.get name c.disk.files

  nothing_chosen :
      (todo : List ArtifactStatus) (r : CollectResult) (c : Cache State)
      → (satisfied r ≡ true) ⊎ (todo ≡ [])
      → Run todo r r c c
  nothing_chosen todo r c over = record {
    chosen = [];
    evicted = sym (append-nil r.evicted);
    freed = omega arith;
    target = refl;
    listed = λ a m. absurd m;
    evictable = λ a m. absurd m;
    from = λ n h. tt;
    sorted = λ h. tt;
    finished = ground arith;
    needed = λ front last e. absurd (no_last front last e);
    untouched = λ name h. refl;
  }
    where
      no_last : (front : List ArtifactStatus) (last : ArtifactStatus) → [] ≢ front ++ last ∷ []
      no_last [] last e = cc
      no_last (x ∷ front) last e = cc

  skip_first :
      (a : ArtifactStatus) (why : Reason) (todo : List ArtifactStatus) (r r' : CollectResult)
      (c c₁ c' : Cache State)
      → c₁.disk.files ≡ c.disk.files
      → Run todo (skip store a.key why r) r' c₁ c'
      → Run (a ∷ todo) r r' c c'
  skip_first a why todo r r' c c₁ c' same_files u = record {
    chosen = u.chosen;
    evicted = u.evicted;
    freed = u.freed;
    target = u.target;
    listed = λ b m. inr (u.listed b m);
    evictable = u.evictable;
    from = λ n h. u.from n h.1;
    sorted = λ h. u.sorted h.1;
    finished = ground (arith, u.finished, length-append r.skipped ((a.key, why) ∷ []));
    needed = u.needed;
    untouched = λ name h. u.untouched name h ∙ ap (Dict.get name) same_files;
  }

  choose_first :
      (dry : Bool) (a : ArtifactStatus) (todo : List ArtifactStatus) (r r' : CollectResult)
      (c c₁ c' : Cache State)
      → c₁.disk.files ≡ c.disk.files
      → a.pinned ≡ false
      → leased a ≡ false
      → satisfied r ≡ false
      → Run todo (count_evicted store a r) r' (if dry then c₁ else delete_local store a.key c₁) c'
      → Run (a ∷ todo) r r' c c'
  choose_first dry a todo r r' c c₁ c' same_files free idle more u = record {
    chosen = a ∷ u.chosen;
    evicted = u.evicted ∙ append_assoc r.evicted (a.key ∷ []) (map (λ x. x.key) u.chosen);
    freed = omega (arith, u.freed);
    target = u.target;
    listed = λ b m. ground (arith, u.listed b);
    evictable = λ b m. may_go b m;
    from = λ n h. (h.0, u.from n h.1);
    sorted = λ h. (u.from a.last_used h.0, u.sorted h.1);
    finished = ground (arith, u.finished);
    needed = room;
    untouched =
        λ name h. u.untouched name h.1 ∙ elsewhere name h.0 dry ∙ ap (Dict.get name) same_files;
  }
    where
      may_go :
          (b : ArtifactStatus) → (b ≡ a) ⊎ In b u.chosen → (b.pinned ≡ false) × (leased b ≡ false)
      may_go b (inl e) = rw e (free, idle)
      may_go b (inr m) = u.evictable b m

      short : (n m : ℕ) → leb n m ≡ false → m < n
      short n m h = ground arith

      room :
          (front : List ArtifactStatus) (last : ArtifactStatus)
          → a ∷ u.chosen ≡ front ++ last ∷ []
          → r.freed + sum_of bytes_of front < r.target
      room [] last e = omega (arith, short r.target r.freed (unfold satisfied in more))
      room (x ∷ front) last e =
          let first : a ≡ x = cc in
          let bytes : a.bytes ≡ x.bytes = ap bytes_of first in
          omega (arith, u.needed front last (cc))

      elsewhere :
          (name : Text)
          → starts_with (object_prefix a.key) name ≡ false
          → (d : Bool)
          → Dict.get name (if d then c₁ else delete_local store a.key c₁).disk.files
            ≡ Dict.get name c₁.disk.files
      elsewhere name out true = refl
      elsewhere name out false =
          unfold delete_local forget in
          ground (arith, get-without_prefix (object_prefix a.key) name c₁.disk.files)

  -- The loop from one artifact on, given what the first step comes to.
  module _ (env : Env) (dry : Bool) (a : ArtifactStatus) (rest : List ArtifactStatus)
      (r r' : CollectResult) (c : Cache State) where
    abbrev Goes : Cache State × Result CollectResult → Type 0
    Goes m =
        (m ▷ λ next c'. collect_loop store env dry rest next c').1 ≡ ok r'
        → Run (a ∷ rest) r r' c (m ▷ λ next c'. collect_loop store env dry rest next c').0

    abbrev RestRuns : Type 0
    RestRuns =
        (next : CollectResult) (c₁ : Cache State)
        → (collect_loop store env dry rest next c₁).1 ≡ ok r'
        → Run rest next r' c₁ (collect_loop store env dry rest next c₁).0

    dispose-Goes :
        (answer : Result (Option Reason)) (c₁ : Cache State)
        → RestRuns
        → c₁.disk.files ≡ c.disk.files
        → a.pinned ≡ false
        → leased a ≡ false
        → satisfied r ≡ false
        → Goes (dispose store dry a r answer c₁)
    unfolding dispose
    dispose-Goes (err e) c₁ ih f p l s h = absurd (cc)
    dispose-Goes (ok (some why)) c₁ ih f p l s h =
        skip_first a why rest r r' c c₁ _ f (ih (skip store a.key why r) c₁ h)
    dispose-Goes (ok none) c₁ ih f p l s h =
        choose_first dry a rest r r' c c₁ _ f p l s
          (ih (count_evicted store a r) (if dry then c₁ else delete_local store a.key c₁) h)

    collect_one-Goes : RestRuns → satisfied r ≡ false → Goes (collect_one store env dry a r c)
    unfolding collect_one
    collect_one-Goes ih s =
        if_ind Goes a.pinned (λ _ h. skip_first a _ rest r r' c c _ refl (ih _ c h))
          (λ p.
            if_ind Goes (leased a) (λ _ h. skip_first a _ rest r r' c c _ refl (ih _ c h))
              (λ l.
                dispose-Goes (verify_for_eviction store env a.key c).1
                  (verify_for_eviction store env a.key c).0 ih
                  (verify-Checked store env a.key c).files p l s))

  collect_loop-Run :
      (env : Env) (dry : Bool) (todo : List ArtifactStatus) (r r' : CollectResult) (c : Cache State)
      → (collect_loop store env dry todo r c).1 ≡ ok r'
      → Run todo r r' c (collect_loop store env dry todo r c).0
  unfolding collect_loop
  collect_loop-Run env dry [] r r' c h =
      subst (λ (x : CollectResult). Run [] r x c c) (cc h) (nothing_chosen [] r c (inr refl))
  collect_loop-Run env dry (a ∷ rest) r r' c h =
      if_ind (λ (o : Cache State × Result CollectResult). o.1 ≡ ok r' → Run (a ∷ rest) r r' c o.0)
        (satisfied r)
        (λ s e.
          subst (λ (x : CollectResult). Run (a ∷ rest) r x c c) (cc e)
            (nothing_chosen (a ∷ rest) r c (inl s)))
        (λ s.
          collect_one-Goes env dry a rest r r' c
            (λ next c₁. collect_loop-Run env dry rest next r' c₁) s)
        h

  pub start_from :
      {todo : List ArtifactStatus} {r r' : CollectResult} {b c c' : Cache State}
      → c.disk.files ≡ b.disk.files
      → Run todo r r' c c'
      → Run todo r r' b c'
  start_from e u = record {
    chosen = u.chosen;
    evicted = u.evicted;
    freed = u.freed;
    target = u.target;
    listed = u.listed;
    evictable = u.evictable;
    from = u.from;
    sorted = u.sorted;
    finished = u.finished;
    needed = u.needed;
    untouched = λ name h. u.untouched name h ∙ ap (Dict.get name) e;
  }

  -- The artifacts as the loop goes through them, and the bytes that have to go.
  unfoldable pub candidates : Env → Cache State → List ArtifactStatus
  candidates env c = sort_by last_use (list env (list env c).0).1

  pub collect_reconciled-Run :
      (config : Config) (env : Env) (need : ℕ) (dry : Bool) (c : Cache State) (r : CollectResult)
      → (collect_reconciled store config env need dry c).1 ≡ ok r
      → Run
          (candidates env c)
          (nothing_yet store (deficit store config env need c).1)
          r
          c
          (collect_reconciled store config env need dry c).0
  unfolding collect_reconciled candidates deficit
  collect_reconciled-Run config env need dry c r h =
      let target = (deficit store config env need c).1 in
      if_ind
        (λ (o : Cache State × Result CollectResult).
          o.1 ≡ ok r → Run (candidates env c) (nothing_yet store target) r c o.0)
        (target == 0) {x = ((list env c).0, ok (nothing_yet store target))}
        {y = collect_loop store env dry (candidates env c) (nothing_yet store target)
          (list env (list env c).0).0}
        (λ z e.
          subst
            (λ (x : CollectResult).
              Run (candidates env c) (nothing_yet store target) x c (list env c).0)
            (cc e)
            (start_from (list-SameData env c).files (
              nothing_chosen (candidates env c) (nothing_yet store target) (list env c).0
                (inl (met target z)))))
        (λ z e.
          start_from (SameData-trans (list-SameData env c) (list-SameData env (list env c).0)).files
            (collect_loop-Run env dry (candidates env c) (nothing_yet store target) r
              (list env (list env c).0).0 e))
        h
    where
      met : (n : ℕ) → (n == 0) ≡ true → satisfied (nothing_yet store n) ≡ true
      met n z = unfold satisfied in ground arith
