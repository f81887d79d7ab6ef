-- ===== src/Checkpoints.antt =====
-- nawat/checkpoints.py: what is on disk for a run that trains, and the rule for when it is removed.
pub mod Bytes
pub mod Names
pub mod Newest
pub mod Settle
pub mod Pruned
use nawat.Prelude.{
  ℕ, ◌+◌, ◌-◌, ◌*◌, ◌≡◌, refl, Bool, true, false, not, ◌&&◌, List, [], ◌∷◌, map, Option, none, some,
  ltb, ◌==◌, if◌then◌else◌, same, some_of, keep, length, is_nil,
}
use nawat.Prelude.Text.{Text, text, text_eq, Text-discrete, starts_with}
use nawat.Prelude.Sort.{sort_by}
use nawat.Checkpoints.Bytes.{
  Entry, file, folder, closed, other, Entries, nil, cons, tree_bytes, directory_bytes,
}

pub record CheckpointPolicy : Type 0 where
  pub lineage : Text
  pub resume : Bool
  pub keep : Bool
  pub publish : Bool

abbrev pub default_policy : CheckpointPolicy
default_policy = record { lineage = []; resume = true; keep = false; publish = true }

-- The value of `global_step` in `trainer_state.json`: not there, one that `int` reads, one that it refuses, or an infinite one, for which its `OverflowError` is not caught.
pub data GlobalStep : Type 0 where
  no_step bad_step infinite_step : GlobalStep
  step_at : ℕ → GlobalStep

-- `trainer_state.json`: one that cannot be read or parsed, one that is a number, a Boolean or null, one that is a list or a text, or an object with its time of writing (none when the file is gone again by then).
pub data StateFile : Type 0 where
  unreadable scalar sequence : StateFile
  object : GlobalStep → Option ℕ → StateFile

-- One name in a lineage's directory, with the `trainer_state.json` under it.
pub record Item : Type 0 where
  pub name : Text
  pub entry : Entry
  pub mtime : Option ℕ
  pub state : StateFile

pub data Directory : Type 0 where
  missing sealed : Directory
  listing : List Item → Directory

-- The host's `shutil.rmtree(…, ignore_errors=True)`, which leaves what it cannot remove, and the value of a decimal digit, as `\d` and `int` read it.
pub record Os : Type 0 where
  pub rmtree : Item → Option Item
  pub rmtree_root : Directory → Directory
  pub digit : ℕ → Option ℕ

-- Times are whole clock ticks; steps are not negative.
pub record Checkpoint : Type 0 where
  pub name : Text
  pub step : ℕ
  pub written_at : ℕ
  pub bytes : ℕ
  pub complete : Bool

pub record Lineage : Type 0 where
  pub name : Text
  pub checkpoints : List Checkpoint
  pub run_id : Option Text
  pub updated_at : Option ℕ

abbrev pub prefix : Text
prefix = text "checkpoint-"

abbrev pub temp_prefix : Text
temp_prefix = text "tmp-checkpoint-"

-- The last element, `xs[-1] if xs else None`.
unfoldable pub last_of {ℓ} : {A : Type ℓ} → List A → Option A
last_of [] = none
last_of (a ∷ rest) = elim (last_of rest) [ none ↦ some a | some b ↦ some b ]

unfoldable pub after_prefix : Text → Text → Option Text
after_prefix [] s = some s
after_prefix (c ∷ p) [] = none
after_prefix (c ∷ p) (d ∷ s) = let rest = after_prefix p s in if c == d then rest else none

abbrev or_else : Option ℕ → ℕ → ℕ
or_else none n = n
or_else (some m) n = m

unfoldable pub is_dir : Entry → Bool
is_dir (file n) = false
is_dir other = false
is_dir (closed es) = true
is_dir (folder es) = true

-- `sorted(found, key=lambda c: (c.step, c.written_at))`: the sort is stable, so it is one by the time and then one by the step.
unfoldable pub in_order : List Checkpoint → List Checkpoint
in_order cs = sort_by (λ (c : Checkpoint). c.step) (sort_by (λ (c : Checkpoint). c.written_at) cs)

abbrev pub usable : List Checkpoint → List Checkpoint
usable cs = keep (λ (c : Checkpoint). c.complete) cs

unfoldable pub latest_of : Lineage → Option Checkpoint
latest_of l = last_of (usable l.checkpoints)

unfoldable pub partial : Lineage → List Checkpoint
partial l = keep (λ (c : Checkpoint). not c.complete) l.checkpoints

abbrev pub change : (List Item → List Item) → Directory → Directory
change f missing = missing
change f sealed = sealed
change f (listing items) = listing (f items)

-- `xs[-n:] if n else ()`
unfoldable pub last_few : ℕ → List Checkpoint → List Checkpoint
last_few n [] = []
last_few n (c ∷ rest) = let few = last_few n rest in if ltb (length rest) n then c ∷ rest else few

abbrev entries_of : List Item → Entries
entries_of [] = nil
entries_of (i ∷ items) = cons i.entry (entries_of items)

-- One more checkpoint, unless reading it or the others raised.
abbrev pub add_read : Option Checkpoint → Option (List Checkpoint) → Option (List Checkpoint)
add_read none more = none
add_read (some c) none = none
add_read (some c) (some cs) = some (c ∷ cs)

module _ (os : Os) where
  -- The number that a text of digits writes, with a final newline allowed as `$` does.
  unfoldable pub number_from : ℕ → Text → Option ℕ
  number_from n [] = some n
  number_from n (c ∷ []) = elim (os.digit c) [
    | none ↦ if c == 10 then some n else none
    | some d ↦ some (n * 10 + d)
  ]
  number_from n (c ∷ d ∷ rest) = elim (os.digit c) [
    | none ↦ none
    | some v ↦ number_from (n * 10 + v) (d ∷ rest)
  ]

  unfoldable pub number : Text → Option ℕ
  unfolding number_from
  number [] = none
  number (c ∷ rest) = elim (os.digit c) [ none ↦ none | some d ↦ number_from d rest ]

  unfoldable pub step_from_name : Text → ℕ
  unfolding after_prefix number
  step_from_name name = elim (after_prefix prefix name) [
    | none ↦ 0
    | some digits ↦ elim (number digits) [ none ↦ 0 | some n ↦ n ]
  ]

  -- What `_read_one` takes from the state file: the step, the time and whether it can be resumed; none when an exception is raised that is not caught: `data.get` is missing, or the step is infinite.
  unfoldable pub from_state : StateFile → ℕ → ℕ → Option (ℕ × ℕ × Bool)
  from_state unreadable step written = some (step, written, false)
  from_state scalar step written = some (step, written, false)
  from_state sequence step written = none
  from_state (object no_step mtime) step written = some (step, or_else mtime written, false)
  from_state (object bad_step mtime) step written = some (step, written, true)
  from_state (object infinite_step mtime) step written = none
  from_state (object (step_at n) mtime) step written = some (n, or_else mtime written, true)

  unfoldable pub read_one : Item → Option Checkpoint
  unfolding from_state step_from_name tree_bytes
  read_one i = elim (from_state i.state (step_from_name i.name) (or_else i.mtime 0)) [
    | none ↦ none
    | some s ↦ some (record {
      name = i.name;
      step = s.0;
      written_at = s.1;
      bytes = tree_bytes i.entry;
      complete = s.2;
    })
  ]

  -- The loop of `read` over the directory's entries.
  unfoldable pub read_items : List Item → Option (List Checkpoint)
  unfolding is_dir starts_with
  read_items [] = some []
  read_items (i ∷ rest) =
      let more = read_items rest in
      if is_dir i.entry && starts_with prefix i.name then add_read (read_one i) more else more

  unfoldable pub read : Directory → Option (List Checkpoint)
  read missing = some []
  read sealed = some []
  read (listing items) = elim (read_items items) [ none ↦ none | some cs ↦ some (in_order cs) ]

  unfoldable pub latest : Directory → Option (Option Checkpoint)
  latest d = elim (read d) [ none ↦ none | some cs ↦ some (last_of (usable cs)) ]

  -- Each item that passes the test goes through `rmtree`.
  unfoldable pub remove_where : (Item → Bool) → List Item → List Item
  remove_where p [] = []
  remove_where p (i ∷ rest) =
      let left = remove_where p rest in
      if p i then elim (os.rmtree i) [ none ↦ left | some i' ↦ i' ∷ left ] else i ∷ left

  -- `_remove` of each of the checkpoints, found again by their paths.
  unfoldable pub remove_all : List Checkpoint → Directory → Directory
  unfolding Text-discrete
  remove_all cs = change (remove_where λ i. some_of (λ (c : Checkpoint). same c.name i.name) cs)

  unfoldable pub remove_temporaries : Directory → Directory
  unfolding is_dir starts_with
  remove_temporaries = change (remove_where λ i. is_dir i.entry && starts_with temp_prefix i.name)

  -- `sweep_partial`, once the directory is read.
  unfoldable pub sweep_found :
      Directory → Option (List Checkpoint) → Directory × Option (List Checkpoint)
  sweep_found d none = (d, none)
  sweep_found d (some found) =
      let removed = keep (λ (c : Checkpoint). not c.complete) found in
      if some_of (λ (c : Checkpoint). c.complete) found
      then (remove_temporaries (remove_all removed d), some removed)
      else (d, some [])

  unfoldable pub sweep_partial : Directory → Directory × Option (List Checkpoint)
  sweep_partial d = sweep_found d (read d)

  abbrev pub spare : List Checkpoint → List Checkpoint → List Checkpoint
  spare keeping found =
      keep (λ (c : Checkpoint). not (some_of (λ (k : Checkpoint). same c.name k.name) keeping))
        found

  -- `prune`, once the directory is read; a negative number to keep counts as none.
  unfoldable pub prune_found :
      ℕ → Directory → Option (List Checkpoint) → Directory × Option (List Checkpoint)
  unfolding last_few Text-discrete
  prune_found n d none = (d, none)
  prune_found n d (some found) =
      let keeping = last_few n (usable found) in
      let removed = spare keeping found in
      if not (n == 0) && is_nil keeping
      then (d, some [])
      else if is_nil keeping
      then (remove_all removed d, some removed)
      else (remove_temporaries (remove_all removed d), some removed)

  unfoldable pub prune : ℕ → Directory → Directory × Option (List Checkpoint)
  prune n d = prune_found n d (read d)

  -- What is left of the directory, and the bytes that were in it.
  unfoldable pub discard : Directory → Directory × ℕ
  discard missing = (missing, 0)
  discard sealed = (os.rmtree_root sealed, directory_bytes none)
  discard (listing items) =
      (os.rmtree_root (listing items), directory_bytes (some (entries_of items)))

  -- The end of `settle`, from the newest checkpoint.
  unfoldable pub conclude :
      Bool → Bool → Directory → Option (Option Checkpoint) → Directory × Option (Option Checkpoint)
  conclude succeeded keeping d none = (d, none)
  conclude succeeded keeping d (some newest) =
      if succeeded && not keeping then ((discard d).0, some none) else (d, some newest)

  unfoldable pub after_sweep :
      Bool → Bool → Directory × Option (List Checkpoint) → Directory × Option (Option Checkpoint)
  after_sweep succeeded keeping (d, none) = (d, none)
  after_sweep succeeded keeping (d, some removed) = conclude succeeded keeping d (latest d)

  unfoldable pub settle : Bool → Bool → Directory → Directory × Option (Option Checkpoint)
  settle succeeded keeping d = after_sweep succeeded keeping (sweep_partial d)
