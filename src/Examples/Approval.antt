-- ===== src/Examples/Approval.antt =====
-- The approval of one experiment, with hashes that are easy to read.
use nawat.Prelude.{◌≡◌, refl, true, false, [], ◌∷◌, none, some}
use nawat.Prelude.Text.{text, Text-discrete, strip, lstrip, rstrip, is_space}
use nawat.Prelude.Dict
use nawat.Checkpoints.Names
use nawat.Errors.{ok, err, approval_required}
use nawat.Approval.{
  Experiment, Approval, Hashes, Site, Moment, hash_plan, unchanged, check_entries, recompute_hash,
  signed_of, sign, compare_signature, approval_state, state_gate, approval_gate, plan_gate,
  require_approved, approve, approve_hashed, write_approval,
}
use nawat.Approval.Required.{Approved, require_approved-Approved}
use nawat.Approval.Given.{approve-refused, approve-require_approved}

abbrev hashes : Hashes
hashes = record {
  sha256 = λ content. content;
  digest = λ m. text "ABCDEF9";
  mac = λ key s. b'm' ∷ key;
  upper = λ s. s;
}

abbrev experiment : Experiment
experiment = record {
  backbone = record { name = text "b"; code = text "code/b.py"; sha256 = text "x = 1" };
  blocks = [];
  support = none;
  params = [];
  inputs = [];
  plan_hash = text "ABCDEF9";
}

abbrev site : Site
site = record {
  files = (text "code/b.py", text "x = 1") ∷ [];
  approval = none;
  key = none;
  sandbox = false;
  host_verified = none;
}

abbrev now : Moment
now = record { time = text "5"; user = text "u"; host = text "h"; token = text "k" }

abbrev signed : Approval
signed = record {
  plan_hash = some (text "ABCDEF9");
  approved_at = some (text "5");
  approved_by = some (text "u");
  host = some (text "h");
  signature = some (text "mk");
}

abbrev approved : Site
approved = record site { approval = some signed; key = some (text "k") }

run : Unit {0}
unfolding hash_plan unchanged check_entries recompute_hash signed_of sign compare_signature
    approval_state state_gate approval_gate plan_gate require_approved approve approve_hashed
    write_approval Names.take strip lstrip rstrip is_space Text-discrete Dict.get
run = tt

passed : require_approved hashes experiment true approved ≡ ok tt
unfolding run
passed = refl

require_approved-Approved_example : Approved hashes experiment true approved
require_approved-Approved_example = require_approved-Approved hashes experiment true approved passed

right_code : (approve hashes now experiment (text " ABCDEF ") true site).1 ≡ ok signed
unfolding run
right_code = refl

wrong_code : (approve hashes now experiment (text "ABC") true site).1 ≡ err approval_required
unfolding run
wrong_code = refl

planned : hash_plan hashes experiment ≡ experiment.plan_hash
unfolding hash_plan
planned = refl

approve-refused_example : (approve hashes now experiment (text "ABC") true site).0 ≡ site
approve-refused_example =
    approve-refused hashes now experiment (text "ABC") true site approval_required wrong_code

approve-require_approved_example :
    require_approved hashes experiment true
      (approve hashes now experiment (text " ABCDEF ") true site).0
    ≡ ok tt
approve-require_approved_example =
    approve-require_approved hashes (λ key s. refl) now experiment (text " ABCDEF ") true site
      signed planned right_code
