-- ===== src/Examples/GpuLock.antt =====
-- nawat/gpulock.py on a workspace without any lock file.
use nawat.Prelude.{◌≡◌, refl, true, none, some, [], ◌∷◌}
use nawat.Prelude.Text.{text}
use nawat.Prelude.Dict
use nawat.GpuLock.{
  World, gpu_lock_path, owner_path, try_lock, lock_file, open_file, is_held, claim, claimed, rename,
  write, owner_state, waiting, gone, exit_process, Place-discrete,
}
use nawat.GpuLock.Exclusion.{try_lock-Excludes, claim-owner_state}

abbrev empty : World
empty = record { files = []; held = []; notes = []; fresh = 7 }

abbrev locked : World
locked = record { files = (gpu_lock_path, 7) ∷ []; held = (7, 100) ∷ []; notes = []; fresh = 8 }

try_lock-Excludes_example :
    (is_held gpu_lock_path locked ≡ true) × ((try_lock 200 gpu_lock_path locked).0 ≡ none)
unfolding try_lock lock_file open_file Dict.get Dict.put
try_lock-Excludes_example =
    try_lock-Excludes 100 200 gpu_lock_path empty locked
      (record { path = gpu_lock_path; handle = some 7 }) refl

abbrev owned : World
owned = record {
  files = (owner_path 3, 7) ∷ [];
  held = (7, 100) ∷ [];
  notes = (7, text "100") ∷ [];
  fresh = 8;
}

claim-owner_state_example :
    (owner_state 3 owned ≡ waiting) × (owner_state 3 (exit_process 100 owned) ≡ gone)
unfolding claim claimed rename write try_lock lock_file open_file Dict.get Dict.put Dict.remove
    Place-discrete
claim-owner_state_example =
    claim-owner_state 3 100 (text "100") empty owned
      (record { path = owner_path 3; handle = some 7 }) refl
