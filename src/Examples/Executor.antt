-- ===== src/Examples/Executor.antt =====
-- nawat/executor.py on a table with one queued run, and parts that answer at once.
use nawat.Prelude.{
  All, keep, same, ℕ, ◌+◌, ◌≡◌, refl, true, [], ◌∷◌, In, none, some, if◌then◌else◌, ◌==◌,
}
use nawat.Prelude.Text.{text, text_eq}
use nawat.Errors.{ok}
use nawat.Errors.Post.{Post}
use nawat.Keys.{is_alnum}
use nawat.Process.{Host, fields, no_process, at}
use nawat.Leases.{LeaseRecord}
use nawat.Checkpoints.{default_policy}
use nawat.Checkpoints.Names.{is_word, matches_upto, matches_name}
use nawat.Runs.{queued, terminal, RunRecord, find, find_row, validate_run_id}
use nawat.Executor.World.{World, Parts}
use nawat.Executor.Run.{execute_}
use nawat.Executor.Rows.{At, Has}
use nawat.Executor.Terminal.{execute_-terminal}
use nawat.Executor.Released.{execute_-released}

abbrev pub run : RunRecord
run = record {
  id = text "a";
  spec = record {
    script = text "run.py";
    model = none;
    datasets = [];
    inputs = [];
    params = [];
    notes = [];
    checkpoints = default_policy;
  };
  state = queued;
  submitted_at = 5;
  started_at = none;
  finished_at = none;
  exit_code = none;
  pid = none;
  error = none;
  artifacts = [];
  description = none;
  checkpoint = none;
  name = none;
}

abbrev pub host : Host
host = record {
  boot = 7;
  stat_file = λ pid. if pid == 100 then some (fields b'S' 55) else none;
  signal_zero = λ pid. no_process;
}

abbrev old_lease : LeaseRecord
old_lease = record {
  id = 1;
  key = record { kind = text "models"; path = text "m" };
  pid = 100;
  boot_id = 7;
  proc_start = at 55;
  holder = text "run a";
  acquired_at = 1;
}

-- The rest is the clock, which each call moves on.
abbrev pub parts : Parts ℕ
parts = record {
  host = host;
  pid = 100;
  time = λ now. now;
  require_experiment = λ script now. ok tt;
  resolve_script = λ script now. ok script;
  resolve = λ key now. (now + 1, ok (text "/cache"));
  make_output_dir = λ id now. (now + 1, ok (text "/out"));
  lineage_dir = λ spec. ok (text "/lineage");
  discard = λ directory now. now + 1;
  note_owner = λ directory r now. (now + 1, ok tt);
  latest = λ directory now. ok none;
  settle = λ directory succeeded keep now. (now + 1, ok none);
  start = λ r p now. (now + 1, ok 200);
  wait = λ id pid w. (w, 0);
  artifact_classes = λ p now. (now + 1, ok (text "model" ∷ []));
  publish = λ name key now. (now + 1, ok tt);
  replicate = λ path key now. (now + 1, ok tt);
  publish_record = λ r now. (now + 1, ok tt);
  finalize = λ id now. now + 1;
}

abbrev pub world : World ℕ
world = record {
  runs = record { rows = run ∷ []; files = [] };
  cancels = [];
  leases = record { boot = 7; table = old_lease ∷ [] };
  uuid = 2;
  rest = 10;
}

-- What the theorems need of this table.
pub program : Unit {0}
unfolding find find_row validate_run_id matches_name matches_upto is_word is_alnum
program = tt

pub valid : validate_run_id run.id ≡ ok run.id
unfolding program
valid = refl

pub found : At run.id run world
unfolding program
found = refl

pub has : Has run.id world
has = (run, found)

execute_-terminal_example :
    Post
      (λ r w'. (find run.id w'.runs ≡ some r) × (terminal r.state ≡ true))
      (λ w'. (r : RunRecord) × ((find run.id w'.runs ≡ some r) × (terminal r.state ≡ true)))
      (execute_ parts run.id world)
execute_-terminal_example = execute_-terminal run.id valid parts (λ pid w h. h) world has

execute_-released_example :
    All
      (λ x. In x world.leases.table)
      (keep (λ x. same x.holder (text "run a")) (execute_ parts run.id world).0.leases.table)
execute_-released_example = execute_-released parts (text "run a") run.id world (λ i pid v x m e. m)
