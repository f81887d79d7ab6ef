-- ===== src/Leases.antt =====
-- nawat/leases.py: which artifacts are in use, keyed to live processes.
pub mod Alive
pub mod Reaping
use nawat.Prelude.{
  ℕ, ◌≡◌, refl, Bool, true, false, not, ◌&&◌, ◌||◌, List, [], ◌∷◌, ◌++◌, map, Option, none, some,
  ◌==◌, if◌then◌else◌, Eq, same, some_of, keep, is_nil, length, ◌-◌,
}
use nawat.Prelude.Text.{Text}
use nawat.Prelude.Sort.{sort_by}
use nawat.Keys.{Key, key_eq, Key-discrete}
use nawat.Process.{Host, Start, unknown, at, process_start_time, process_alive}

-- A row of the table `leases`. `id` is the UUID's value; times are whole clock ticks.
pub record LeaseRecord : Type 0 where
  pub id : ℕ
  pub key : Key
  pub pid : ℕ
  pub boot_id : ℕ
  pub proc_start : Start
  pub holder : Text
  pub acquired_at : ℕ

unfoldable pub start_matches : Start → Start → Bool
start_matches unknown recorded = true
start_matches (at s) unknown = true
start_matches (at s) (at r) = s == r

-- `record.alive(current_boot)`
unfoldable pub alive : Host → ℕ → LeaseRecord → Bool
unfolding process_alive process_start_time start_matches
alive host current_boot r =
    r.boot_id == current_boot && process_alive host r.pid && elim (process_start_time host r.pid) [
      | none ↦ false
      | some start ↦ start_matches start r.proc_start
    ]

-- `LeaseRegistry`: the boot id that it read when it was made, and the table.
pub record Registry : Type 0 where
  pub boot : ℕ
  pub table : List LeaseRecord

-- `LeaseRegistry(db)`
unfoldable pub open_registry : Host → List LeaseRecord → Registry
open_registry host table = record { boot = host.boot; table = table }

unfoldable pub recorded_start : Host → ℕ → Start
unfolding process_start_time
recorded_start host pid = elim (process_start_time host pid) [ none ↦ unknown | some start ↦ start ]

-- `uuid4` gives the ids: one for each key.
unfoldable pub new_records : Host → ℕ → List Key → List ℕ → Text → ℕ → ℕ → List LeaseRecord
unfolding recorded_start
new_records host boot [] ids holder pid now = []
new_records host boot (k ∷ ks) [] holder pid now = []
new_records host boot (k ∷ ks) (i ∷ ids) holder pid now =
    record {
      id = i;
      key = k;
      pid = pid;
      boot_id = boot;
      proc_start = recorded_start host pid;
      holder = holder;
      acquired_at = now;
    }
    ∷ new_records host boot ks ids holder pid now

-- An operation returns the registry and its result.
unfoldable pub acquire :
    Host → List Key → List ℕ → Text → ℕ → ℕ → Registry → Registry × List LeaseRecord
unfolding new_records
acquire host keys ids holder pid now g =
    let records = new_records host g.boot keys ids holder pid now in
    (record g { table = g.table ++ records }, records)

-- Whether a row's id is among those given.
abbrev pub listed : List ℕ → LeaseRecord → Bool
listed ids r = some_of (λ i. i == r.id) ids

unfoldable pub release : List ℕ → Registry → Registry × ℕ
release ids g =
    let left = keep (λ r. not (listed ids r)) g.table in
    (record g { table = left }, length g.table - length left)

unfoldable pub release_process : ℕ → Registry → Registry × ℕ
release_process pid g =
    let left = keep (λ r. not (r.pid == pid && r.boot_id == g.boot)) g.table in
    (record g { table = left }, length g.table - length left)

-- `SELECT * FROM leases ORDER BY acquired_at`
unfoldable pub all : Registry → List LeaseRecord
unfolding sort_by
all g = sort_by (λ r. r.acquired_at) g.table

abbrev pub ids_of : List LeaseRecord → List ℕ
ids_of = map (λ r. r.id)

unfoldable pub reap : Host → Registry → Registry × ℕ
unfolding all release
reap host g = release (ids_of (keep (λ r. not (alive host g.boot r)) (all g))) g

unfoldable pub live : Host → Registry → Registry × List LeaseRecord
unfolding reap all
live host g = let g' = (reap host g).0 in (g', keep (alive host g'.boot) (all g'))

unfoldable pub live_for : Host → Key → Registry → Registry × List LeaseRecord
unfolding release Key-discrete
live_for host key g =
    let rows = keep (λ r. same r.key key) g.table in
    let dead = keep (λ r. not (alive host g.boot r)) rows in
    ((if is_nil dead then g else (release (ids_of dead) g).0), keep (alive host g.boot) rows)
