-- ===== src/Runs.antt =====
-- nawat/runs.py: the records of runs, their states, and the queue.
pub mod Queue
pub mod Reconcile
pub mod Rows
pub mod History
pub mod Rebuild
pub mod Updates
use nawat.Prelude.{
  ℕ, ◌≡◌, refl, Bool, true, false, not, ◌&&◌, ◌||◌, List, [], ◌∷◌, ◌++◌, map, Option, none, some,
  ltb, ◌==◌, if◌then◌else◌, same, some_of, keep, is_nil,
}
use nawat.Prelude.Text.{Text, text, text_eq, Text-discrete, text_le, strip, is_space}
use nawat.Prelude.Dict
use nawat.Prelude.Dict.{Dict}
use nawat.Errors.{Error, invalid_key, not_found, Result, ok, err, ◌>>=◌, ◌▷◌}
use nawat.Keys.{Key, key_eq, Key-discrete, slash}
use nawat.Keys
use nawat.Checkpoints.{CheckpointPolicy}
use nawat.Checkpoints.Names.{matches_name, validate, lineage_name}

pub data RunState : Type 0 where
  queued staging running publishing succeeded failed cancelled : RunState

unfoldable pub terminal : RunState → Bool
terminal queued = false
terminal staging = false
terminal running = false
terminal publishing = false
terminal succeeded = true
terminal failed = true
terminal cancelled = true

unfoldable pub active : RunState → Bool
active queued = false
active staging = true
active running = true
active publishing = true
active succeeded = false
active failed = false
active cancelled = false

unfoldable pub is_queued : RunState → Bool
is_queued queued = true
is_queued staging = false
is_queued running = false
is_queued publishing = false
is_queued succeeded = false
is_queued failed = false
is_queued cancelled = false

-- `^[A-Za-z0-9][A-Za-z0-9._-]{0,63}$`
unfoldable pub validate_run_id : Text → Result Text
validate_run_id run_id = if matches_name 63 run_id then ok run_id else err invalid_key

unfoldable pub validate_run_name : Text → Result Text
validate_run_name name =
    let cleaned = strip (λ c. c == slash) (strip is_space name) in
    if is_nil cleaned
    then err invalid_key
    else (Keys.parse (text "runs/" ++ cleaned) >>= λ key. ok cleaned)

-- What was submitted.
pub record RunSpec : Type 0 where
  pub script : Text
  pub model : Option Key
  pub datasets : List Key
  pub inputs : List Key
  pub params : Dict Text Text
  pub notes : Text
  pub checkpoints : CheckpointPolicy

-- The loop of `staged_keys`: each key that is not there yet is added at the end.
unfoldable pub add_new : List Key → List Key → List Key
unfolding Key-discrete
add_new ordered [] = ordered
add_new ordered (key ∷ rest) =
    add_new (if some_of (λ (k : Key). same k key) ordered then ordered else ordered ++ key ∷ [])
      rest

abbrev pub given : Option Key → List Key
given none = []
given (some key) = key ∷ []

unfoldable pub staged_keys : RunSpec → List Key
staged_keys spec = add_new [] (given spec.model ++ spec.datasets ++ spec.inputs)

-- `checkpoint_lineage`, over the SHA-256 of a text in hexadecimal and the stem and name of a path.
unfoldable pub checkpoint_lineage :
    (Text → Text) → (Text → Text) → (Text → Text) → RunSpec → Result Text
checkpoint_lineage hexdigest stem name spec =
    if is_nil spec.checkpoints.lineage
    then lineage_name hexdigest (stem spec.script) (name spec.script)
        (map Keys.str (staged_keys spec))
    else validate spec.checkpoints.lineage

pub record RunRecord : Type 0 where
  pub id : Text
  pub spec : RunSpec
  pub state : RunState
  pub submitted_at : ℕ
  pub started_at : Option ℕ
  pub finished_at : Option ℕ
  pub exit_code : Option ℕ
  pub pid : Option ℕ
  pub error : Option Text
  pub artifacts : List Key
  pub description : Option Text
  pub checkpoint : Option Text
  pub name : Option Text

unfoldable pub publish_prefix : RunRecord → Text
publish_prefix r = elim r.name [ none ↦ r.id | some n ↦ if is_nil n then r.id else n ]

unfoldable pub run_key : RunRecord → Result Key
run_key r = Keys.parse (text "runs/" ++ publish_prefix r)

-- `RunStore`: the rows of the table, in the order in which they were inserted, and the `run.json` of each run that has one.
pub record Store : Type 0 where
  pub rows : List RunRecord
  pub files : Dict Text RunRecord

unfoldable pub find_row : Text → List RunRecord → Option RunRecord
unfolding Text-discrete
find_row run_id [] = none
find_row run_id (r ∷ rest) =
    let more = find_row run_id rest in if same r.id run_id then some r else more

unfoldable pub find : Text → Store → Option RunRecord
find run_id s = find_row run_id s.rows

unfoldable pub get : Text → Store → Result RunRecord
get run_id s = elim (find run_id s) [ none ↦ err not_found | some r ↦ ok r ]

-- `_write_record_file`; the id is validated again for the directory's path.
unfoldable pub write_record_file : RunRecord → Store → Store × Result (Unit {0})
write_record_file r s = elim (validate_run_id r.id) [
  | err e ↦ (s, err e)
  | ok run_id ↦ (record { rows = s.rows; files = Dict.put run_id r s.files }, ok tt)
]

-- A name that is given, and not empty, is validated.
unfoldable pub checked_name : Option Text → Result (Option Text)
checked_name none = ok none
checked_name (some n) =
    if is_nil n then ok none else (validate_run_name n >>= λ cleaned. ok (some cleaned))

abbrev pub new_record : Text → RunSpec → ℕ → Option Text → RunRecord
new_record run_id spec now name = record {
  id = run_id;
  spec = spec;
  state = queued;
  submitted_at = now;
  started_at = none;
  finished_at = none;
  exit_code = none;
  pid = none;
  error = none;
  artifacts = [];
  description = none;
  checkpoint = none;
  name = name;
}

-- An operation of the store, followed by the value that it returns.
abbrev pub returning {ℓ} : {A : Type ℓ} → A → Store × Result (Unit {0}) → Store × Result A
returning a (s, ok u) = (s, ok a)
returning a (s, err e) = (s, err e)

-- The row is inserted, and then the file is written.
unfoldable pub insert : RunRecord → Store → Store × Result RunRecord
insert r s = returning r (write_record_file r (record { rows = s.rows ++ r ∷ []; files = s.files }))

unfoldable pub create_checked : Text → RunSpec → ℕ → Option Text → Store → Store × Result RunRecord
create_checked run_id spec now name s = elim (checked_name name) [
  | err e ↦ (s, err e)
  | ok n ↦ insert (new_record run_id spec now n) s
]

-- The id that the caller chose, or the one that `new_run_id` made, which is not validated.
unfoldable pub chosen_id : Text → Option Text → Result Text
chosen_id generated none = ok generated
chosen_id generated (some i) = if is_nil i then ok generated else validate_run_id i

unfoldable pub create_with : Text → RunSpec → ℕ → Option Text → Store → Store × Result RunRecord
create_with run_id spec now name s = elim (find run_id s) [
  | some r ↦ (s, err invalid_key)
  | none ↦ create_checked run_id spec now name s
]

-- `create` at the time `now`.
unfoldable pub create :
    Text → Option Text → RunSpec → ℕ → Option Text → Store → Store × Result RunRecord
create generated chosen spec now name s = elim (chosen_id generated chosen) [
  | err e ↦ (s, err e)
  | ok run_id ↦ create_with run_id spec now name s
]

-- The changes that callers of `update` pass by keyword: none where the keyword is left out.
pub record Changes : Type 0 where
  pub state : Option RunState
  pub started_at : Option (Option ℕ)
  pub finished_at : Option (Option ℕ)
  pub exit_code : Option (Option ℕ)
  pub pid : Option (Option ℕ)
  pub error : Option (Option Text)
  pub artifacts : Option (List Text)
  pub description : Option (Option Text)
  pub checkpoint : Option (Option Text)
  pub name : Option (Option Text)

abbrev pub changed {ℓ} : {A : Type ℓ} → Option A → A → A
changed none old = old
changed (some new) old = new

unfoldable pub parse_all : List Text → Result (List Key)
parse_all [] = ok []
parse_all (t ∷ rest) =
    let more = parse_all rest in (Keys.parse t >>= λ key. more >>= λ keys. ok (key ∷ keys))

unfoldable pub changed_artifacts : Option (List Text) → List Key → Result (List Key)
changed_artifacts none old = ok old
changed_artifacts (some texts) old = parse_all texts

unfoldable pub changed_name : Option (Option Text) → Option Text → Result (Option Text)
changed_name none old = ok old
changed_name (some none) old = ok none
changed_name (some (some n)) old =
    if is_nil n then ok (some n) else (validate_run_name n >>= λ cleaned. ok (some cleaned))

-- `replace(record, **changes)`, after the conversions.
unfoldable pub apply : Changes → RunRecord → Result RunRecord
apply changes r = changed_artifacts changes.artifacts r.artifacts >>= λ artifacts.
    changed_name changes.name r.name >>= λ name. ok (record {
      id = r.id;
      spec = r.spec;
      state = changed changes.state r.state;
      submitted_at = r.submitted_at;
      started_at = changed changes.started_at r.started_at;
      finished_at = changed changes.finished_at r.finished_at;
      exit_code = changed changes.exit_code r.exit_code;
      pid = changed changes.pid r.pid;
      error = changed changes.error r.error;
      artifacts = artifacts;
      description = changed changes.description r.description;
      checkpoint = changed changes.checkpoint r.checkpoint;
      name = name;
    })

-- `UPDATE runs SET … WHERE id = ?`
unfoldable pub put_row : RunRecord → List RunRecord → List RunRecord
unfolding Text-discrete
put_row r [] = []
put_row r (x ∷ rest) = let more = put_row r rest in if same x.id r.id then r ∷ more else x ∷ more

unfoldable pub write_update : RunRecord → Store → Store × Result RunRecord
write_update r s =
    returning r (write_record_file r (record { rows = put_row r s.rows; files = s.files }))

unfoldable pub update : Text → Changes → Store → Store × Result RunRecord
update run_id changes s = elim (get run_id s >>= apply changes) [
  | err e ↦ (s, err e)
  | ok r ↦ write_update r s
]
