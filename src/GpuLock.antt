-- ===== src/GpuLock.antt =====
-- nawat/gpulock.py: locks on files, which the kernel drops when their holder exits.
pub mod Exclusion
use nawat.Prelude.{
  ℕ, suc, ◌+◌, ◌≡◌, refl, Bool, true, false, List, [], ◌∷◌, Option, none, some, ◌==◌, if◌then◌else◌,
  Eq, same, ℕ_discrete,
}
use nawat.Prelude.Text.{Text, nat_eq}
use nawat.Prelude.Dict
use nawat.Prelude.Dict.{Dict}
use nawat.Errors.{Error, nawat_error, Result, ok, err}

-- The files that the locks are on: `gpu_lock_path`, `worker_lock_path`, and in a run's directory its owner file and a process's temporary one. A path is its kind, the directory and the process.
pub record Place : Type 0 where
  pub kind : ℕ
  pub directory : ℕ
  pub process : ℕ

unfoldable pub Place-discrete : Discrete Place
unfolding ℕ_discrete
Place-discrete = hlevel ℕ_discrete

instance abbrev pub place_eq : Eq Place
place_eq = record { discrete = Place-discrete }

abbrev pub gpu_lock_path : Place
gpu_lock_path = record { kind = 0; directory = 0; process = 0 }

abbrev pub worker_lock_path : Place
worker_lock_path = record { kind = 1; directory = 0; process = 0 }

abbrev pub owner_path : ℕ → Place
owner_path directory = record { kind = 2; directory = directory; process = 0 }

abbrev pub temporary_path : ℕ → ℕ → Place
temporary_path directory pid = record { kind = 3; directory = directory; process = pid }

-- The files by path, each a number; which process holds the lock of a file; and what its holder wrote.
pub record World : Type 0 where
  pub files : Dict Place ℕ
  pub held : Dict ℕ ℕ
  pub notes : Dict ℕ Text
  pub fresh : ℕ

pub record FileLock : Type 0 where
  pub path : Place
  pub handle : Option ℕ

-- `open(path, "a+")`: the file, created when it is not there.
unfoldable pub open_file : Place → World → ℕ × World
open_file path w = elim (Dict.get path w.files) [
  | some file ↦ (file, w)
  | none ↦ (
    w.fresh,
    record {
      files = Dict.put path w.fresh w.files;
      held = w.held;
      notes = w.notes;
      fresh = w.fresh + 1;
    },
  )
]

-- `flock(…, LOCK_EX | LOCK_NB)` by a process.
unfoldable pub lock_file : ℕ → Place → ℕ → World → Option FileLock × World
lock_file pid path file w = elim (Dict.get file w.held) [
  | some other ↦ (none, w)
  | none ↦ (
    some (record { path = path; handle = some file }),
    record { files = w.files; held = Dict.put file pid w.held; notes = w.notes; fresh = w.fresh },
  )
]

unfoldable pub try_lock : ℕ → Place → World → Option FileLock × World
try_lock pid path w = lock_file pid path (open_file path w).0 (open_file path w).1

-- `FileLock.held`
unfoldable pub is_mine : FileLock → Bool
is_mine l = elim l.handle [ none ↦ false | some file ↦ true ]

-- `FileLock.write`
unfoldable pub write : FileLock → Text → World → World
write l info w = elim l.handle [
  | none ↦ w
  | some file ↦ record {
    files = w.files;
    held = w.held;
    notes = Dict.put file info w.notes;
    fresh = w.fresh;
  }
]

-- `FileLock.release`
unfoldable pub release : FileLock → World → FileLock × World
release l w = elim l.handle [
  | none ↦ (l, w)
  | some file ↦ (
    record { path = l.path; handle = none },
    record { files = w.files; held = Dict.remove file w.held; notes = w.notes; fresh = w.fresh },
  )
]

unfoldable pub drop_held : ℕ → Dict ℕ ℕ → Dict ℕ ℕ
drop_held pid [] = []
drop_held pid ((file, owner) ∷ rest) =
    let others = drop_held pid rest in if owner == pid then others else (file, owner) ∷ others

-- What the kernel does when a process exits, however it exits.
unfoldable pub exit_process : ℕ → World → World
exit_process pid w = record {
  files = w.files;
  held = drop_held pid w.held;
  notes = w.notes;
  fresh = w.fresh;
}

unfoldable pub is_held : Place → World → Bool
is_held path w = elim (Dict.get path w.files) [
  | none ↦ false
  | some file ↦ elim (Dict.get file w.held) [ none ↦ false | some pid ↦ true ]
]

-- The note of the holder, `{}` as an empty text when it cannot be read.
unfoldable pub holder : Place → World → Option Text
holder path w = if is_held path w then some (note (Dict.get path w.files)) else none
  where
    read_note : Option Text → Text
    read_note none = []
    read_note (some info) = info

    note : Option ℕ → Text
    note none = []
    note (some file) = read_note (Dict.get file w.notes)

abbrev pub taken : Text → Option FileLock × World → Option FileLock × World
taken info (none, w) = (none, w)
taken info (some l, w) = (some l, write l info w)

unfoldable pub take_gpu : ℕ → Text → World → Option FileLock × World
take_gpu pid info w = taken info (try_lock pid gpu_lock_path w)

unfoldable pub gpu_holder : World → Option Text
gpu_holder w = holder gpu_lock_path w

-- `temporary.replace(path)`
unfoldable pub rename : Place → Place → World → World
rename from to w = elim (Dict.get from w.files) [
  | none ↦ w
  | some file ↦ record {
    files = Dict.put to file (Dict.remove from w.files);
    held = w.held;
    notes = w.notes;
    fresh = w.fresh;
  }
]

-- The end of `claim`, once the temporary file is locked.
unfoldable pub claimed : ℕ → ℕ → Text → Option FileLock × World → Result FileLock × World
claimed directory pid info (none, w) = (err nawat_error, w)
claimed directory pid info (some l, w) = (
  ok (record { path = owner_path directory; handle = l.handle }),
  rename (temporary_path directory pid) (owner_path directory) (write l info w),
)

-- `claim`; the `RuntimeError` when the temporary file is locked is `nawat_error` here.
unfoldable pub claim : ℕ → ℕ → Text → World → Result FileLock × World
claim directory pid info w =
    claimed directory pid info (try_lock pid (temporary_path directory pid) w)

pub data Owner : Type 0 where
  waiting queue gone : Owner

unfoldable pub owner_state : ℕ → World → Owner
owner_state directory w = elim (Dict.get (owner_path directory) w.files) [
  | none ↦ queue
  | some file ↦ if is_held (owner_path directory) w then waiting else gone
]
