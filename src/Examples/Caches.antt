-- ===== src/Examples/Caches.antt =====
-- nawat/cache.py on a cache with one replicated artifact over its ceiling.
use nawat.Prelude.{◌≡◌, refl, false, [], ◌∷◌, none, some}
use nawat.Prelude.Text.{text, text_eq, sort_texts, split, starts_with, join, strip, contains}
use nawat.Prelude.Sort.{sort_by}
use nawat.Prelude.Dict
use nawat.Errors.{ok}
use nawat.Keys.{
  Key, object_prefix, str, segments, parse, parse_stripped, check_segments, from_segments,
}
use nawat.Process.{no_process, unknown}
use nawat.Leases
use nawat.Leases.{LeaseRecord}
use nawat.Store.{ObjectStat, is_internal, manifest_bytes, verified, verify_manifests}
use nawat.Store.Local.{Disk, local_store, listing, under, after, without_prefix}
use nawat.Cache.{
  Config, Env, Cache, Row, leased, path_exists, path_within, walk_markers, status_from_row,
  read_back, register, forget, list, get, forget_missing, recover, sweep_staging, reconcile,
}
use nawat.Cache.Reclaim.{
  CollectResult, satisfied, verify_for_eviction, verify, delete_local, dispose, collect_one,
  collect_loop, deficit, collect_reconciled, collect, evict_found, evict,
}
use nawat.Cache.Loss.{LosesNothing, IsTree-singleton}
use nawat.Cache.NoLoss.{collect-LosesNothing, evict-LosesNothing}
use nawat.Cache.Unused.{Unused}

abbrev model : Key
model = record { kind = text "models"; path = text "a" }

abbrev weights : ObjectStat
weights = record { size = 10; etag = none; modified = some 1 }

abbrev row : Row
row = record {
  bytes = 10;
  files = 1;
  fetched_at = 1;
  last_used = 2;
  pinned = false;
  replicated_at = none;
}

abbrev stored : Disk
stored = record { files = (text "models/a/w", weights) ∷ []; clock = 5 }

-- A lease of a process that ended.
abbrev dead : LeaseRecord
dead = record {
  id = 1;
  key = model;
  pid = 40;
  boot_id = 7;
  proc_start = unknown;
  holder = text "train";
  acquired_at = 3;
}

abbrev cache : Cache Disk
cache = record {
  rows = (model, row) ∷ [];
  disk = record { files = (text "models/a/w", weights) ∷ []; markers = []; staging = [] };
  registry = record { boot = 7; table = dead ∷ [] };
  remote = stored;
}

abbrev env : Env
env = record {
  host = record { boot = 7; stat_file = λ pid. none; signal_zero = λ pid. no_process };
  now = 9;
  disk_free = λ files. 100;
}

abbrev config : Config
config = record {
  ceiling = 5;
  min_free = 0;
  staging_root = text ".nawat-staging" ∷ [];
  checkpoint_root = text "checkpoints" ∷ [];
}

program : Unit {0}
unfolding sort_texts split starts_with join sort_by Dict.get Dict.put Dict.remove object_prefix str
    segments Leases.all Leases.release Leases.reap Leases.live Leases.live_for is_internal
    manifest_bytes verified verify_manifests listing under after without_prefix leased path_exists
    path_within walk_markers status_from_row read_back parse parse_stripped check_segments
    from_segments strip contains Leases.alive register forget list get forget_missing recover
    sweep_staging reconcile satisfied verify_for_eviction verify delete_local dispose collect_one
    collect_loop deficit collect_reconciled collect evict_found evict
program = tt

abbrev collected : CollectResult
collected = record { freed = 10; evicted = model ∷ []; skipped = []; target = 5 }

evict-cache : (evict local_store config env model false cache).1 ≡ ok 10
unfolding program
evict-cache = refl

collect-LosesNothing_example :
    LosesNothing local_store cache (collect local_store config env 0 false cache).0
collect-LosesNothing_example =
    collect-LosesNothing local_store config env 0 false cache
      (IsTree-singleton (text "models/a/w") weights)

evict-LosesNothing_example :
    LosesNothing local_store cache (evict local_store config env model false cache).0
evict-LosesNothing_example =
    evict-LosesNothing local_store config env model cache
      (IsTree-singleton (text "models/a/w") weights)
