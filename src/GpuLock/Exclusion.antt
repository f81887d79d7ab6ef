-- ===== src/GpuLock/Exclusion.antt =====
-- nawat/gpulock.py: one holder of a lock at a time, and the life of an owner file.
use nawat.Prelude.{
  ◌≡◌, refl, sym, ap, subst, ◌∙◌, ℕ, [], ◌∷◌, Option, none, some, Option-cases, true, false, arith,
  inl, inr,
}
use nawat.Prelude.Text.{Text, nat_eq}
use nawat.Prelude.Dict
use nawat.Prelude.Dict.{Dict}
use nawat.Errors.{ok}
use nawat.GpuLock.{
  Place, place_eq, World, FileLock, open_file, lock_file, try_lock, is_held, Place-discrete, write,
  claim, claimed, rename, owner_path, temporary_path, owner_state, waiting, gone, exit_process,
  drop_held, release, taken, take_gpu, gpu_lock_path,
}

get-open_file :
    (path : Place) (w : World)
    → Dict.get path (open_file path w).1.files ≡ some (open_file path w).0
unfolding open_file Place-discrete
get-open_file path w = elim (Option-cases (Dict.get path w.files)) [
  | inl e ↦ ground (arith, e, Dict.get-put path path w.fresh w.files)
  | inr (file, e) ↦ ground (arith, e)
]

-- What holds after a process took the lock of a file.
record Took (pid file : ℕ) (w w' : World) (l : FileLock) : Type 0 where
  pub files : w'.files ≡ w.files
  pub free : Dict.get file w.held ≡ none
  pub held : w'.held ≡ Dict.put file pid w.held
  pub handle : l.handle ≡ some file

lock_file-Took :
    (pid : ℕ) (path : Place) (file : ℕ) (w w' : World) (l : FileLock)
    → lock_file pid path file w ≡ (some l, w')
    → Took pid file w w' l
unfolding lock_file
lock_file-Took pid path file w w' l h = elim (Option-cases (Dict.get file w.held)) [
  | inr (owner, e) ↦ absurd (ground (arith, h, e))
  | inl e ↦ record {
    files = ground (arith, h, e);
    free = e;
    held = ground (arith, h, e);
    handle = ground (arith, h, e);
  }
]

get-Took :
    (pid file : ℕ) (w w' : World) (l : FileLock)
    → Took pid file w w' l
    → Dict.get file w'.held ≡ some pid
get-Took pid file w w' l t =
    ap (Dict.get file) t.held ∙ ground (arith, Dict.get-put file file pid w.held)

locked :
    (path : Place) (file owner other : ℕ) (w : World)
    → Dict.get path w.files ≡ some file
    → Dict.get file w.held ≡ some owner
    → (is_held path w ≡ true) × ((try_lock other path w).0 ≡ none)
unfolding is_held try_lock lock_file open_file
locked path file owner other w f h = ground (arith, f, h)

-- When `try_lock` takes the lock of a path, the lock is held, and no `try_lock` of that path succeeds on the files and locks that it leaves.
pub try_lock-Excludes :
    (pid other : ℕ) (path : Place) (w w' : World) (l : FileLock)
    → try_lock pid path w ≡ (some l, w')
    → (is_held path w' ≡ true) × ((try_lock other path w').0 ≡ none)
unfolding try_lock
try_lock-Excludes pid other path w w' l h =
    let t = lock_file-Took pid path (open_file path w).0 (open_file path w).1 w' l h in
    locked path (open_file path w).0 pid other w'
      (ap (Dict.get path) t.files ∙ get-open_file path w)
      (get-Took pid (open_file path w).0 (open_file path w).1 w' l t)

get-drop_held :
    (pid file : ℕ) (held : Dict ℕ ℕ)
    → Dict.get file held ≡ none
    → Dict.get file (drop_held pid (Dict.put file pid held)) ≡ none
unfolding drop_held Dict.get Dict.put
get-drop_held pid file [] h = ground arith
get-drop_held pid file ((i, owner) ∷ held) h = ground (arith, get-drop_held pid file held)

owner_waiting :
    (directory file owner : ℕ) (w : World)
    → Dict.get (owner_path directory) w.files ≡ some file
    → Dict.get file w.held ≡ some owner
    → owner_state directory w ≡ waiting
unfolding owner_state is_held
owner_waiting directory file owner w f h = ground (arith, f, h)

owner_gone :
    (directory file : ℕ) (w : World)
    → Dict.get (owner_path directory) w.files ≡ some file
    → Dict.get file w.held ≡ none
    → owner_state directory w ≡ gone
unfolding owner_state is_held
owner_gone directory file w f h = ground (arith, f, h)

-- Renaming moves the file to the new path, and leaves the locks alone.
rename-files :
    (from to : Place) (file : ℕ) (w : World)
    → Dict.get from w.files ≡ some file
    → (Dict.get to (rename from to w).files ≡ some file) × ((rename from to w).held ≡ w.held)
unfolding rename Place-discrete
rename-files from to file w e =
    ground (arith, e, Dict.get-put to to file (Dict.remove from w.files))

write_held :
    (l : FileLock) (info : Text) (w : World)
    → ((write l info w).files ≡ w.files) × ((write l info w).held ≡ w.held)
unfolding write
write_held l info w = elim (Option-cases l.handle) [
  | inl e ↦ ground (arith, e)
  | inr (file, e) ↦ ground (arith, e)
]

claimed_ok :
    (directory pid : ℕ) (info : Text) (t : Option FileLock × World) (w' : World) (l : FileLock)
    → claimed directory pid info t ≡ (ok l, w')
    → (l₀ : FileLock) × (t.0 ≡ some l₀)
      × (w' ≡ rename (temporary_path directory pid) (owner_path directory) (write l₀ info t.1))
unfolding claimed
claimed_ok directory pid info (none, w) w' l h = absurd (ground (arith, h))
claimed_ok directory pid info (some l₀, w) w' l h = (l₀, refl, sym (ap (λ x. x.1) h))

-- The world after a claim: the owner file is the locked one, and its lock is the only change to the locks.
claim-Took :
    (directory pid : ℕ) (info : Text) (w w' : World) (l : FileLock)
    → claim directory pid info w ≡ (ok l, w')
    → (file : ℕ) × (held : Dict ℕ ℕ) × (Dict.get (owner_path directory) w'.files ≡ some file)
      × (Dict.get file held ≡ none)
      × (w'.held ≡ Dict.put file pid held)
unfolding claim try_lock
claim-Took directory pid info w w' l h =
    let temporary : Place = temporary_path directory pid in
    let opened : ℕ × World = open_file temporary w in
    let t : Option FileLock × World = lock_file pid temporary opened.0 opened.1 in
    let (l₀, e, moved) = claimed_ok directory pid info t w' l h in
    let took = lock_file-Took pid temporary opened.0 opened.1 t.1 l₀ (ap (λ o. (o, t.1)) e) in
    let (files, held) = write_held l₀ info t.1 in
    let (there, kept) =
      rename-files temporary (owner_path directory) opened.0 (write l₀ info t.1)
        (ap (Dict.get temporary) (files ∙ took.files) ∙ get-open_file temporary w) in
    (
      opened.0,
      opened.1.held,
      ap (λ v. Dict.get (owner_path directory) v.files) moved ∙ there,
      took.free,
      ap (λ v. v.held) moved ∙ kept ∙ held ∙ took.held,
    )

-- After `claim` succeeds, the owner of the run's directory is waiting; once the process that claimed it exits, it is gone.
pub claim-owner_state :
    (directory pid : ℕ) (info : Text) (w w' : World) (l : FileLock)
    → claim directory pid info w ≡ (ok l, w')
    → (owner_state directory w' ≡ waiting) × (owner_state directory (exit_process pid w') ≡ gone)
unfolding exit_process
claim-owner_state directory pid info w w' l h =
    let (file, held, there, free, now) = claim-Took directory pid info w w' l h in
    let mine : Dict.get file w'.held ≡ some pid =
      ap (Dict.get file) now ∙ ground (arith, Dict.get-put file file pid held) in
    (
      owner_waiting directory file pid w' there mine,
      owner_gone directory file (exit_process pid w') there
          (ap (λ d. Dict.get file (drop_held pid d)) now ∙ get-drop_held pid file held free),
    )

-- A lock that is held through the file that is at its path.
pub record Holding (l : FileLock) (w : World) : Type 0 where
  pub file : ℕ
  pub owner : ℕ
  pub there : Dict.get l.path w.files ≡ some file
  pub handle : l.handle ≡ some file
  pub held : Dict.get file w.held ≡ some owner

pub Holding-excludes :
    (l : FileLock) (other : ℕ) (w : World)
    → Holding l w
    → (is_held l.path w ≡ true) × ((try_lock other l.path w).0 ≡ none)
Holding-excludes l other w h = locked l.path h.file h.owner other w h.there h.held

lock_file-path :
    (pid : ℕ) (path : Place) (file : ℕ) (w w' : World) (l : FileLock)
    → lock_file pid path file w ≡ (some l, w')
    → l.path ≡ path
unfolding lock_file
lock_file-path pid path file w w' l h = elim (Option-cases (Dict.get file w.held)) [
  | inr (owner, e) ↦ absurd (ground (arith, h, e))
  | inl e ↦ ground (arith, h, e)
]

pub try_lock-Holding :
    (pid : ℕ) (path : Place) (w w' : World) (l : FileLock)
    → try_lock pid path w ≡ (some l, w')
    → Holding l w' × (l.path ≡ path)
unfolding try_lock
try_lock-Holding pid path w w' l h =
    let opened : ℕ × World = open_file path w in
    let t = lock_file-Took pid path opened.0 opened.1 w' l h in
    let e = lock_file-path pid path opened.0 opened.1 w' l h in
    let there : Dict.get path w'.files ≡ some opened.0 =
      ap (Dict.get path) t.files ∙ get-open_file path w in
    (
      record {
        file = opened.0;
        owner = pid;
        there = ap (λ p. Dict.get p w'.files) e ∙ there;
        handle = t.handle;
        held = get-Took pid opened.0 opened.1 w' l t;
      },
      e,
    )

-- Writing a note changes no lock.
pub write-Holding :
    (l : FileLock) (info : Text) (w : World) → Holding l w → Holding l (write l info w)
write-Holding l info w h =
    let (files, held) = write_held l info w in
    record {
      file = h.file;
      owner = h.owner;
      there = ap (Dict.get l.path) files ∙ h.there;
      handle = h.handle;
      held = ap (Dict.get h.file) held ∙ h.held;
    }

-- What `release` leaves is not held.
pub release-is_held :
    (l : FileLock) (w : World) → Holding l w → is_held l.path (release l w).1 ≡ false
unfolding release is_held
release-is_held l w h = ground (arith, h.there, h.handle, Dict.get-remove h.file h.file w.held)

taken_ok :
    (info : Text) (o : Option FileLock × World) (l : FileLock) (w' : World)
    → taken info o ≡ (some l, w')
    → (o.0 ≡ some l) × (write l info o.1 ≡ w')
taken_ok info (none, w) l w' h = absurd (ground (arith, h))
taken_ok info (some l₀, w) l w' h =
    let e : l₀ ≡ l = ground (arith, h) in
    (ap some e, ap (λ x. write x info w) (sym e) ∙ ap (λ x. x.1) h)

pub take_gpu-Holding :
    (pid : ℕ) (info : Text) (w w' : World) (l : FileLock)
    → take_gpu pid info w ≡ (some l, w')
    → Holding l w' × (l.path ≡ gpu_lock_path)
unfolding take_gpu
take_gpu-Holding pid info w w' l h =
    let o : Option FileLock × World = try_lock pid gpu_lock_path w in
    let (e, f) = taken_ok info o l w' h in
    let (k, p) = try_lock-Holding pid gpu_lock_path w o.1 l (ap (λ x. (x, o.1)) e) in
    (subst (Holding l) f (write-Holding l info o.1 k), p)
