-- ===== src/Cache/NoLoss.antt =====
-- Reclaiming disk loses no data (nawat/cache.py: `_verify_for_eviction`, `_delete_local`, `evict`,
-- `collect`).
use nawat.Prelude.{
  ℕ, ◌==◌, refl, Bool, true, false, ◌&&◌, List, [], ◌∷◌, Option, none, some, if_ind,
}
use nawat.Prelude.Text.{text_eq}
use nawat.Prelude.Sort.{sort_by}
use nawat.Errors.{not_found, Result, ok, err, ▷_ind}
use nawat.Keys.{Key, key_eq}
use nawat.Store.Backend.{ObjectStore}
use nawat.Cache.{Config, Env, Cache, ArtifactStatus, leased, list, get, reconcile}
use nawat.Cache.Reclaim.{
  Reason, CollectResult, satisfied, verify_for_eviction, dispose, collect_one, collect_loop,
  nothing_yet, deficit, collect_reconciled, collect, evict_verified, evict_found, evict,
}
use nawat.Cache.Frame.{reconcile-SameData, list-SameData, get-SameData}
use nawat.Cache.Loss.{
  IsTree, LosesNothing, loses_refl, loses-SameData, loses_trans, delete-loses, Checked,
  verify-Checked, loses-Checked,
}

module _ (store : ObjectStore) where
  open store use {State, contents, list_prefix}

  -- The gate's answer, acted on.
  dispose-loses :
      (dry : Bool) (a : ArtifactStatus) (r : CollectResult) (answer : Result (Option Reason))
      (c c' : Cache State)
      → IsTree c.disk.files
      → Checked store a.key c c' answer
      → LosesNothing store c (dispose store dry a r answer c').0
  unfolding dispose
  dispose-loses dry a r (err e) c c' t k = loses-Checked store t k
  dispose-loses dry a r (ok (some why)) c c' t k = loses-Checked store t k
  dispose-loses dry a r (ok none) c c' t k =
      if_ind (λ (d : Cache State). LosesNothing store c d) dry (λ _. loses-Checked store t k)
        (λ _.
          loses_trans store (loses-Checked store t k)
            (delete-loses store a.key c' (rw k.files t) (rw (k.same_store, k.files) (k.held refl))))

  collect_one-loses :
      (env : Env) (dry : Bool) (a : ArtifactStatus) (r : CollectResult) (c : Cache State)
      → IsTree c.disk.files
      → LosesNothing store c (collect_one store env dry a r c).0
  unfolding collect_one
  collect_one-loses env dry a r c t =
      if_ind (λ (o : Cache State × Result CollectResult). LosesNothing store c o.0) a.pinned
        (λ _. loses_refl store c t)
        (λ _.
          if_ind (λ (o : Cache State × Result CollectResult). LosesNothing store c o.0) (leased a)
            (λ _. loses_refl store c t)
            (λ _.
              dispose-loses dry a r (verify_for_eviction store env a.key c).1 c
                (verify_for_eviction store env a.key c).0 t (verify-Checked store env a.key c)))

  collect_loop-loses :
      (env : Env) (dry : Bool) (todo : List ArtifactStatus) (r : CollectResult) (c : Cache State)
      → IsTree c.disk.files
      → LosesNothing store c (collect_loop store env dry todo r c).0
  unfolding collect_loop
  collect_loop-loses env dry [] r c t = loses_refl store c t
  collect_loop-loses env dry (a ∷ rest) r c t =
      if_ind (λ (o : Cache State × Result CollectResult). LosesNothing store c o.0) (satisfied r)
        (λ _. loses_refl store c t)
        (λ _.
          let one = collect_one-loses env dry a r c t in
          ▷_ind (λ d. LosesNothing store c d) (collect_one store env dry a r c).0
            (collect_one store env dry a r c).1 (λ r' c'. collect_loop store env dry rest r' c') one
            (λ next _.
              loses_trans store one (
                collect_loop-loses env dry rest next (collect_one store env dry a r c).0 one.tree)))

  collect_reconciled-loses :
      (config : Config) (env : Env) (need : ℕ) (dry : Bool) (c : Cache State)
      → IsTree c.disk.files
      → LosesNothing store c (collect_reconciled store config env need dry c).0
  unfolding collect_reconciled deficit
  collect_reconciled-loses config env need dry c t =
      let target = (deficit store config env need c).1 in
      let artifacts = (list env (list env c).0).1 in
      if_ind (λ (o : Cache State × Result CollectResult). LosesNothing store c o.0) (target == 0)
        {x = ((list env c).0, ok (nothing_yet store target))} (λ _. second)
        (λ _. loses_trans store third (
          collect_loop-loses env dry (sort_by (λ (a : ArtifactStatus). a.last_used) artifacts)
            (nothing_yet store target) (list env (list env c).0).0 third.tree))
    where
      second : LosesNothing store c (list env c).0
      second = loses-SameData store t (list-SameData env c)

      third : LosesNothing store c (list env (list env c).0).0
      third =
          loses_trans store second
            (loses-SameData store second.tree (list-SameData env (list env c).0))

  reconcile-loses :
      (config : Config) (env : Env) (c : Cache State)
      → IsTree c.disk.files
      → LosesNothing store c (reconcile config env c).0
  reconcile-loses config env c t = loses-SameData store t (reconcile-SameData config env c)

  -- Whatever space is asked for, collecting deletes no file of an artifact that object storage
  -- does not hold at the same size, dry runs and errors included.
  pub collect-LosesNothing :
      (config : Config) (env : Env) (need : ℕ) (dry : Bool) (c : Cache State)
      → IsTree c.disk.files
      → LosesNothing store c (collect store config env need dry c).0
  unfolding collect
  collect-LosesNothing config env need dry c t =
      let first = reconcile-loses config env c t in
      ▷_ind (λ d. LosesNothing store c d) (reconcile config env c).0 (reconcile config env c).1
        (λ _ c₁. collect_reconciled store config env need dry c₁) first
        (λ _ _.
          loses_trans store first
            (collect_reconciled-loses config env need dry (reconcile config env c).0 first.tree))

  evict_found-loses :
      (env : Env) (key : Key) (a : ArtifactStatus) (c : Cache State)
      → IsTree c.disk.files
      → LosesNothing store c (evict_found store env false key a c).0
  unfolding evict_found
  evict_found-loses env key a c t =
      if_ind P (a.pinned && true) (λ _. loses_refl store c t)
        (λ _.
          if_ind P (leased a && true) (λ _. loses_refl store c t)
            (λ _. settled (verify_for_eviction store env key c).1 (verify-Checked store env key c)))
    where
      P : Cache State × Result ℕ → Type 0
      P o = LosesNothing store c o.0

      settled :
          {c' : Cache State} (answer : Result (Option Reason))
          → Checked store key c c' answer
          → LosesNothing store c (evict_verified store key a answer c').0
      settled (err e) k = loses-Checked store t k
      settled (ok (some why)) k = loses-Checked store t k
      settled {c'} (ok none) k =
          loses_trans store (loses-Checked store t k)
            (delete-loses store key c' (rw k.files t) (rw (k.same_store, k.files) (k.held refl)))

  -- Evicting one artifact without force loses nothing either, whether it returns or raises.
  pub evict-LosesNothing :
      (config : Config) (env : Env) (key : Key) (c : Cache State)
      → IsTree c.disk.files
      → LosesNothing store c (evict store config env key false c).0
  unfolding evict
  evict-LosesNothing config env key c t =
      let first = reconcile-loses config env c t in
      let c₁ = (reconcile config env c).0 in
      ▷_ind (λ d. LosesNothing store c d) c₁ (reconcile config env c).1
        (λ _ d.
          let (c₂, o) = get env key d in
          elim o [ none ↦ (c₂, err not_found) | some a ↦ evict_found store env false key a c₂ ])
        first
        (λ _ _.
          let second =
            loses_trans store first (loses-SameData store first.tree (get-SameData env key c₁)) in
          found second (get env key c₁).1)
    where
      found :
          {c₂ : Cache State}
          → LosesNothing store c c₂
          → (o : Option ArtifactStatus)
          → LosesNothing store c
              (elim o as (λ _. Cache State × Result ℕ) [
                | none ↦ (c₂, err not_found)
                | some a ↦ evict_found store env false key a c₂
              ]).0
      found l none = l
      found {c₂} l (some a) = loses_trans store l (evict_found-loses env key a c₂ l.tree)
