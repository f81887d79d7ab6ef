-- ===== src/Examples/Leases.antt =====
-- nawat/leases.py on a host with one running process and one that has gone.
use nawat.Prelude.{
  ℕ, ◌≡◌, ◌≢◌, ◌↔◌, ◌⊎◌, inl, refl, true, [], ◌∷◌, none, some, In, arith, if◌then◌else◌, ◌==◌,
}
use nawat.Prelude.Text.{text}
use nawat.Keys.{Key}
use nawat.Process.{Host, at, fields, no_process}
use nawat.Leases.{LeaseRecord, Registry, alive, acquire, live, live_for}
use nawat.Leases.Alive.{acquire-held}
use nawat.Leases.Reaping.{UniqueIds, live-held, live_for-held}

abbrev model : Key
model = record { kind = text "models"; path = text "a" }

abbrev host : Host
host = record {
  boot = 7;
  stat_file = λ pid. if pid == 100 then some (fields b'S' 55) else none;
  signal_zero = λ pid. no_process;
}

abbrev lease : ℕ → ℕ → LeaseRecord
lease id pid = record {
  id = id;
  key = model;
  pid = pid;
  boot_id = 7;
  proc_start = at 55;
  holder = text "run";
  acquired_at = id;
}

abbrev registry : Registry
registry = record { boot = 7; table = lease 1 100 ∷ lease 2 200 ∷ [] }

unique : UniqueIds registry.table
unique a b ha hb e = ground arith

acquire-held_example :
    (r : LeaseRecord) × In r
      (acquire host (model ∷ []) (3 ∷ []) (text "run") 100 9 registry).0.table
    × (r.key ≡ model)
    × (alive host 7 r ≡ true)
acquire-held_example =
    acquire-held host registry (model ∷ []) (3 ∷ []) (text "run") 100 9 model b'S' 55 (omega arith)
      (inl refl) refl (omega arith) (omega arith)

live-held_example :
    (In (lease 1 100) (live host registry).1
      ↔ (In (lease 1 100) registry.table × (alive host 7 (lease 1 100) ≡ true)))
    × (In (lease 1 100) (live host registry).0.table
        ↔ (In (lease 1 100) registry.table × (alive host 7 (lease 1 100) ≡ true)))
live-held_example = live-held host registry unique (lease 1 100)

live_for-held_example :
    (In (lease 2 200) (live_for host model registry).1
      ↔ (In (lease 2 200) registry.table × (model ≡ model) × (alive host 7 (lease 2 200) ≡ true)))
    × (In (lease 2 200) (live_for host model registry).0.table ↔ (
        In (lease 2 200) registry.table × ((alive host 7 (lease 2 200) ≡ true) ⊎ (model ≢ model))))
live_for-held_example = live_for-held host registry unique model (lease 2 200)
