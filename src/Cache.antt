-- ===== src/Cache.antt =====
-- nawat/cache.py: the state of a cache, its table of artifacts, and reconciliation.
pub mod Reclaim
pub mod Loss
pub mod NoLoss
pub mod Order
pub mod Unused
pub mod Frame
use mathlib.Core.List.{reverse, foldl}
use nawat.Prelude.{
  ℕ, ◌+◌, ◌-◌, ◌≡◌, refl, Bool, true, false, not, ◌&&◌, ◌||◌, List, [], ◌∷◌, ◌++◌, map, Option,
  none, some, ltb, leb, ◌==◌, if◌then◌else◌, Eq, same, some_of, all_of, keep, is_nil, length,
  sum_of, max, ℕ_discrete,
}
use nawat.Prelude.Text.{Text, text, text_eq, Text-discrete, starts_with, join}
use nawat.Prelude.Sort.{sort_by}
use nawat.Prelude.Dict
use nawat.Prelude.Dict.{Dict}
use nawat.Errors.{Error, value_error, Result, ok, err, ◌▷◌}
use nawat.Keys.{Key, key_eq, slash, str, segments, object_prefix, parse}
use nawat.Process.{Host}
use nawat.Leases
use nawat.Leases.{LeaseRecord, Registry}
use nawat.Store.{ObjectStat, Manifest, manifest_bytes}
use nawat.Store.Local.{listing, under, without_prefix}

-- What a file `.nawat-artifact.json` says: it cannot be read, parsed, or has no key; it is a list
-- or has a key that is no text, which raises an exception that is not caught; or it names
-- a key and may say when the artifact was fetched and that it is replicated.
pub data Marker : Type 0 where
  unreadable untyped : Marker
  names : Text → Option ℕ → Bool → Marker

unfoldable pub Path-discrete : Discrete (List Text)
unfolding ℕ_discrete
Path-discrete = hlevel ℕ_discrete

instance abbrev pub path_eq : Eq (List Text)
path_eq = record { discrete = Path-discrete }

-- The directory tree below the cache root: files by relative path, markers by the components of
-- their directory, and the entries of the staging directory by their times.
pub record LocalDisk : Type 0 where
  pub files : Dict Text ObjectStat
  pub markers : Dict (List Text) Marker
  pub staging : List ℕ

-- A row of the table `artifacts`.
pub record Row : Type 0 where
  pub bytes : ℕ
  pub files : ℕ
  pub fetched_at : ℕ
  pub last_used : ℕ
  pub pinned : Bool
  pub replicated_at : Option ℕ

-- `checkpoint_root` is given by the components below the cache root, if it lies there.
pub record Config : Type 0 where
  pub ceiling : ℕ
  pub min_free : ℕ
  pub staging_root : List Text
  pub checkpoint_root : List Text

-- The cache, and the object store `S` that it talks to.
pub record Cache (S : Type 0) : Type 0 where
  pub rows : Dict Key Row
  pub disk : LocalDisk
  pub registry : Registry
  pub remote : S

-- What an operation reads of its surroundings. One operation reads the clock once here.
pub record Env : Type 0 where
  pub host : Host
  pub now : ℕ
  pub disk_free : Dict Text ObjectStat → ℕ

abbrev pub staging_ttl : ℕ
staging_ttl = 86400

abbrev pub max_walk_depth : ℕ
max_walk_depth = 6

-- Whether a path, given by its components, is `dir` or lies below it.
unfoldable pub path_within : List Text → List Text → Bool
unfolding Text-discrete
path_within [] path = true
path_within (p ∷ dir) [] = false
path_within (p ∷ dir) (q ∷ path) = same p q && path_within dir path

-- The markers that the walk meets: none below another marker, none deeper than its bound, none in
-- a hidden directory of the platform or in the two roots that it skips.
unfoldable pub walk_markers : Config → Dict (List Text) Marker → Dict (List Text) Marker
unfolding path_within Path-discrete
walk_markers config markers =
    keep
      (λ (entry : List Text × Marker).
        leb (length entry.0) max_walk_depth
        && all_of (λ p. not (starts_with (text ".nawat") p)) entry.0
        && not (path_within config.staging_root entry.0)
        && not (path_within config.checkpoint_root entry.0)
        && all_of (λ other. same other entry.0 || not (path_within other entry.0))
            (Dict.keys markers))
      markers

-- `artifact.leases` are the live ones.
pub record ArtifactStatus : Type 0 where
  pub key : Key
  pub bytes : ℕ
  pub files : ℕ
  pub fetched_at : ℕ
  pub last_used : ℕ
  pub pinned : Bool
  pub replicated_at : Option ℕ
  pub leases : List LeaseRecord

unfoldable pub leased : ArtifactStatus → Bool
leased a = not (is_nil a.leases)

-- `key.local_path(root).exists()`
unfoldable pub path_exists : LocalDisk → Key → Bool
path_exists disk key =
    some_of (λ name. same name (str key) || starts_with (object_prefix key) name)
      (Dict.keys disk.files)
    || some_of (λ dir. path_within (segments key) dir) (Dict.keys disk.markers)

-- `Key.parse` of the text that a table has for a key. The keys of the tables come from `Key.parse`, and their texts are read back; they may give another key where a newline ends the text.
unfoldable pub read_back : Key → Key
read_back key = elim (parse (str key)) [ err e ↦ key | ok k ↦ k ]

unfoldable pub status_from_row : Key → Row → List LeaseRecord → ArtifactStatus
status_from_row key row held = record {
  key = read_back key;
  bytes = row.bytes;
  files = row.files;
  fetched_at = row.fetched_at;
  last_used = row.last_used;
  pinned = row.pinned;
  replicated_at = row.replicated_at;
  leases = held;
}

module _ {S : Type 0} where
  -- `INSERT ... ON CONFLICT(key) DO UPDATE`: an old row keeps its first fetch and its pin.
  unfoldable pub register : Env → Key → ℕ → ℕ → Bool → Option ℕ → Cache S → Cache S
  register env key size files replicated fetched_at c =
      let stamp : Option ℕ = if replicated then some env.now else none in
      let row : Row = elim (Dict.get key c.rows) [
        | none ↦ record {
          bytes = size;
          files = files;
          fetched_at = elim fetched_at [ none ↦ env.now | some t ↦ t ];
          last_used = env.now;
          pinned = false;
          replicated_at = stamp;
        }
        | some old ↦ record old {
          bytes = size;
          files = files;
          last_used = env.now;
          replicated_at = stamp;
        }
      ] in
      record c { rows = Dict.put key row c.rows }

  -- `UPDATE artifacts SET ... WHERE key = ?`
  abbrev pub update_row : Key → (Row → Row) → Cache S → Cache S
  update_row key f c = elim (Dict.get key c.rows) [
    | none ↦ c
    | some row ↦ record c { rows = Dict.put key (f row) c.rows }
  ]

  unfoldable pub touch : Env → Key → Cache S → Cache S
  touch env key c = update_row key (λ row. record row { last_used = env.now }) c

  unfoldable pub mark_unreplicated : Key → Cache S → Cache S
  mark_unreplicated key c = update_row key (λ row. record row { replicated_at = none }) c

  unfoldable pub forget : Key → Cache S → Cache S
  forget key c = record c { rows = Dict.remove key c.rows }

  -- Everything on local disk, with the leases of each, whose keys are read back too; newest use first (SQL leaves the order of equal times open).
  unfoldable pub list : Env → Cache S → Cache S × List ArtifactStatus
  list env c =
      let (registry, live) = Leases.live env.host c.registry in
      let status = λ (entry : Key × Row).
        status_from_row entry.0 entry.1 (keep (λ r. same (read_back r.key) entry.0) live) in
      (
        record c { registry = registry },
        map status (reverse (sort_by (λ (entry : Key × Row). entry.1.last_used) c.rows)),
      )

  unfoldable pub get : Env → Key → Cache S → Cache S × Option ArtifactStatus
  get env key c = elim (Dict.get key c.rows) [
    | none ↦ (c, none)
    | some row ↦
        let (registry, held) = Leases.live_for env.host key c.registry in
        (record c { registry = registry }, some (status_from_row key row held))
  ]

  -- The rows whose directory is gone; both tests read the row's key back.
  unfoldable pub forget_missing : List Key → Cache S → Cache S
  forget_missing [] c = c
  forget_missing (key ∷ rest) c =
      forget_missing rest
        (if path_exists c.disk (read_back key) then c else forget (read_back key) c)

  -- One marker: an artifact that the table does not know is registered from it. A key that does
  -- not parse is an error that nothing catches.
  unfoldable pub recover_one :
      Env → List Key → List Text → Marker → Cache S → Cache S × Result (Unit {0})
  recover_one env known dir unreadable c = (c, ok tt)
  recover_one env known dir untyped c = (c, err value_error)
  recover_one env known dir (names name fetched_at replicated) c = elim (parse name) [
    | err e ↦ (c, err e)
    | ok key ↦
        if some_of (same key) known
        then (c, ok tt)
        else let manifest = under (join slash dir ++ slash ∷ []) c.disk.files in
          (
            register env key (manifest_bytes manifest) (length manifest) replicated fetched_at c,
            ok tt,
          )
  ]

  unfoldable pub recover :
      Env → List Key → Dict (List Text) Marker → Cache S → Cache S × Result (Unit {0})
  recover env known [] c = (c, ok tt)
  recover env known ((dir, marker) ∷ rest) c =
      recover_one env known dir marker c ▷ λ _ c'. recover env known rest c'

  unfoldable pub sweep_staging : Env → Cache S → Cache S
  sweep_staging env c = record c {
    disk = record c.disk { staging = keep (λ t. leb (env.now - staging_ttl) t) c.disk.staging };
  }

  unfoldable pub reconcile : Config → Env → Cache S → Cache S × Result (Unit {0})
  reconcile config env c =
      let reaped = record c { registry = (Leases.reap env.host c.registry).0 } in
      let known = Dict.keys c.rows in
      let present = forget_missing known reaped in
      recover env known (walk_markers config c.disk.markers) present ▷ λ _ recovered.
      (sweep_staging env recovered, ok tt)
