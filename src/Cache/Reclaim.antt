-- ===== src/Cache/Reclaim.antt =====
-- nawat/cache.py: verification before a deletion, and the operations that free local disk.
use nawat.Prelude.{
  ℕ, ◌+◌, ◌-◌, Bool, false, not, ◌&&◌, List, [], ◌∷◌, ◌++◌, Option, none, some, leb, ◌==◌,
  if◌then◌else◌, keep, sum_of, max,
}
use nawat.Prelude.Text.{Text}
use nawat.Prelude.Sort.{sort_by}
use nawat.Prelude.Dict.{Dict}
use nawat.Errors.{
  not_found, store_unavailable, verification_failed, insufficient_space, protected, Result, ok, err,
  ◌▷◌,
}
use nawat.Keys.{Key, key_eq, object_prefix, segments}
use nawat.Leases.{LeaseRecord}
use nawat.Store.{ObjectStat, Manifest, VerificationResult, verified, verify_manifests}
use nawat.Store.Backend.{ObjectStore}
use nawat.Store.Local.{listing, without_prefix}
use nawat.Cache.{
  Config, Env, Cache, ArtifactStatus, Marker, leased, path_exists, path_within, update_row, forget,
  list, get, reconcile,
}

-- Why `collect` left an artifact alone.
pub data Reason : Type 0 where
  kept_on_disk : Reason
  in_use : List LeaseRecord → Reason
  unreachable not_in_store : Reason
  mismatch : VerificationResult → Reason

pub record CollectResult : Type 0 where
  pub freed : ℕ
  pub evicted : List Key
  pub skipped : List (Key × Reason)
  pub target : ℕ

unfoldable pub satisfied : CollectResult → Bool
satisfied r = leb r.target r.freed

module _ (store : ObjectStore) where
  open store use {State, list_prefix}

  -- The store's answer, compared with the local copy.
  abbrev pub compare_with : Key → Dict Text ObjectStat → Result Manifest → Result VerificationResult
  compare_with key files (ok remote) = ok (verify_manifests key (listing files key) remote)
  compare_with key files (err e) = err e

  -- The outcome is recorded in the row; an error leaves the row alone.
  abbrev pub record_outcome : Env → Key → Result VerificationResult → Cache State → Cache State
  record_outcome env key (ok result) c =
      update_row key
        (λ row. record row { replicated_at = if verified result then some env.now else none }) c
  record_outcome env key (err e) c = c

  unfoldable pub verify : Env → Key → Cache State → Cache State × Result VerificationResult
  verify env key c =
      if path_exists c.disk key
      then (let (answer, remote) = list_prefix key c.remote in
          let result = compare_with key c.disk.files answer in
          (record_outcome env key result (record c { remote = remote }), result))
      else (c, err not_found)

  -- `none`: verified, the artifact may go. Errors that are not expected are raised.
  abbrev pub gate : Result VerificationResult → Result (Option Reason)
  gate (ok result) = if verified result then ok none else ok (some (mismatch result))
  gate (err store_unavailable) = ok (some unreachable)
  gate (err not_found) = ok (some not_in_store)
  gate (err e) = err e

  unfoldable pub verify_for_eviction :
      Env → Key → Cache State → Cache State × Result (Option Reason)
  verify_for_eviction env key c = let (c', result) = verify env key c in (c', gate result)

  unfoldable pub delete_local : Key → Cache State → Cache State
  delete_local key c = forget key (record c {
    disk = record c.disk {
      files = without_prefix (object_prefix key) c.disk.files;
      markers =
          keep (λ (entry : List Text × Marker). not (path_within (segments key) entry.0))
            c.disk.markers;
    };
  })

  abbrev pub skip : Key → Reason → CollectResult → CollectResult
  skip key why r = record r { skipped = r.skipped ++ (key, why) ∷ [] }

  abbrev pub count_evicted : ArtifactStatus → CollectResult → CollectResult
  count_evicted a r = record r { freed = r.freed + a.bytes; evicted = r.evicted ++ a.key ∷ [] }

  -- What the gate's answer leads to.
  unfoldable pub dispose :
      Bool
      → ArtifactStatus
      → CollectResult
      → Result (Option Reason)
      → Cache State
      → Cache State × Result CollectResult
  dispose dry a r (err e) c = (c, err e)
  dispose dry a r (ok (some why)) c = (c, ok (skip a.key why r))
  dispose dry a r (ok none) c = (if dry then c else delete_local a.key c, ok (count_evicted a r))

  -- The body of the loop of `collect`, after the test that ends it.
  unfoldable pub collect_one :
      Env → Bool → ArtifactStatus → CollectResult → Cache State → Cache State × Result CollectResult
  collect_one env dry a r c =
      if a.pinned
      then (c, ok (skip a.key kept_on_disk r))
      else if leased a
      then (c, ok (skip a.key (in_use a.leases) r))
      else let (c', answer) = verify_for_eviction env a.key c in dispose dry a r answer c'

  unfoldable pub collect_loop :
      Env
      → Bool
      → List ArtifactStatus
      → CollectResult
      → Cache State
      → Cache State × Result CollectResult
  collect_loop env dry [] r c = (c, ok r)
  collect_loop env dry (a ∷ rest) r c =
      if satisfied r
      then (c, ok r)
      else (collect_one env dry a r c ▷ λ r' c'. collect_loop env dry rest r' c')

  -- Bytes that must go, to fit `need` under both the ceiling and the disk.
  unfoldable pub deficit : Config → Env → ℕ → Cache State → Cache State × ℕ
  deficit config env need c =
      let (c', artifacts) = list env c in
      let used = sum_of (λ (a : ArtifactStatus). a.bytes) artifacts in
      (c', max (used + need - config.ceiling) (need + config.min_free - env.disk_free c.disk.files))

  abbrev pub nothing_yet : ℕ → CollectResult
  nothing_yet target = record { freed = 0; evicted = []; skipped = []; target = target }

  unfoldable pub collect_reconciled :
      Config → Env → ℕ → Bool → Cache State → Cache State × Result CollectResult
  collect_reconciled config env need dry c =
      let (c₂, target) = deficit config env need c in
      if target == 0
      then (c₂, ok (nothing_yet target))
      else let (c₃, artifacts) = list env c₂ in
        collect_loop env dry (sort_by (λ a. a.last_used) artifacts) (nothing_yet target) c₃

  unfoldable pub collect :
      Config → Env → ℕ → Bool → Cache State → Cache State × Result CollectResult
  collect config env need dry c =
      reconcile config env c ▷ λ _ c₁. collect_reconciled config env need dry c₁

  -- The message of `ensure_space` looks each skipped artifact up.
  unfoldable pub look_up : Env → List (Key × Reason) → Cache State → Cache State
  look_up env [] c = c
  look_up env ((key, why) ∷ rest) c = look_up env rest (get env key c).0

  unfoldable pub ensure_space : Config → Env → ℕ → Cache State → Cache State × Result CollectResult
  ensure_space config env need c =
      if need == 0
      then (c, ok (nothing_yet 0))
      else (collect config env need false c ▷ λ r c'.
          if satisfied r then (c', ok r) else (look_up env r.skipped c', err insufficient_space))

  -- The deletion that ends `evict`.
  abbrev pub remove_artifact : Key → ArtifactStatus → Cache State → Cache State × Result ℕ
  remove_artifact key a c = (delete_local key c, ok a.bytes)

  abbrev pub evict_verified :
      Key → ArtifactStatus → Result (Option Reason) → Cache State → Cache State × Result ℕ
  evict_verified key a (err e) c = (c, err e)
  evict_verified key a (ok (some why)) c = (c, err verification_failed)
  evict_verified key a (ok none) c = remove_artifact key a c

  unfoldable pub evict_found :
      Env → Bool → Key → ArtifactStatus → Cache State → Cache State × Result ℕ
  evict_found env force key a c =
      if a.pinned && not force
      then (c, err protected)
      else if leased a && not force
      then (c, err protected)
      else if force
      then remove_artifact key a c
      else let (c', answer) = verify_for_eviction env key c in evict_verified key a answer c'

  unfoldable pub evict : Config → Env → Key → Bool → Cache State → Cache State × Result ℕ
  evict config env key force c = reconcile config env c ▷ λ _ c₁.
      let (c₂, found) = get env key c₁ in
      elim found [ none ↦ (c₂, err not_found) | some a ↦ evict_found env force key a c₂ ]

  -- `pin` and `unpin`.
  unfoldable pub set_pinned :
      Config → Env → Key → Bool → Cache State → Cache State × Result ArtifactStatus
  set_pinned config env key pinned c = reconcile config env c ▷ λ _ c₁.
      let (c₂, found) = get env key (update_row key (λ row. record row { pinned = pinned }) c₁) in
      elim found [ none ↦ (c₁, err not_found) | some a ↦ (c₂, ok a) ]
