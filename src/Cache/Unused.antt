-- ===== src/Cache/Unused.antt =====
-- `collect` of nawat/cache.py chooses only artifacts that are neither pinned nor leased.
use nawat.Prelude.{◌≡◌, ◌≢◌, true, false, List, In}
use nawat.Prelude.Text.{Text, text_eq}
use nawat.Prelude.Dict
use nawat.Prelude.Dict.{Dict}
use nawat.Keys.{Key, key_eq}
use nawat.Leases
use nawat.Leases.{LeaseRecord, Registry, alive}
use nawat.Cache.{Env, Cache, ArtifactStatus, names, Row, read_back}

-- A row that was read as the artifact is not pinned, and no lease of a running process is on the row's key.
pub record Unused (env : Env) (rows : Dict Key Row) (registry : Registry) (a : ArtifactStatus)
    : Type 0 where
  pub key : Key
  pub row : Row
  pub there : In (key, row) rows
  pub names : a.key ≡ read_back key
  pub bytes : a.bytes ≡ row.bytes
  pub last_used : a.last_used ≡ row.last_used
  pub unpinned : row.pinned ≡ false
  pub unleased :
      (r : LeaseRecord)
      → In r registry.table
      → alive env.host registry.boot r ≡ true
      → read_back r.key ≢ key
