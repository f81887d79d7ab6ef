-- ===== src/Approval.antt =====
-- The approval of experiments in nawat/lab/experiment.py: what is run is what a person approved.
pub mod Required
pub mod Given
use nawat.Prelude.{
  ℕ, ◌≡◌, Bool, true, false, not, ◌&&◌, List, [], ◌∷◌, ◌++◌, map, Option, none, some, if◌then◌else◌,
  same, is_nil,
}
use nawat.Prelude.Text.{Text, text, text_eq, Text-discrete, strip, is_space, text_le}
use nawat.Prelude.Dict
use nawat.Prelude.Dict.{Dict}
use nawat.Checkpoints.Names.{take}
use nawat.Errors.{Error, protected, approval_required, value_error, Result, ok, err, ◌>>=◌, ◌>>◌}

-- An entry of a block in `experiment.json`: its name, its file of code, and the hash of that when it was planned.
pub record Entry : Type 0 where
  pub name : Text
  pub code : Text
  pub sha256 : Text

-- What `experiment.json` holds, as far as the approval reads it.
pub record Experiment : Type 0 where
  pub backbone : Entry
  pub blocks : Dict Text (List Entry)
  pub support : Option Entry
  pub params : Dict Text Text
  pub inputs : Dict Text Text
  pub plan_hash : Text

-- What `plan_hash` hashes.
pub record Material : Type 0 where
  pub backbone : Text × Text
  pub support : Option Text
  pub blocks : Dict Text (List (Text × Text))
  pub params : Dict Text Text
  pub inputs : Dict Text Text

-- What `sign` signs.
pub record Signed : Type 0 where
  pub plan_hash : Text
  pub approved_at : Text
  pub approved_by : Text
  pub host : Text

-- `approval.json`, whose fields may be missing; each is its text.
pub record Approval : Type 0 where
  pub plan_hash : Option Text
  pub approved_at : Option Text
  pub approved_by : Option Text
  pub host : Option Text
  pub signature : Option Text

-- The functions of Python that the approval calls: the SHA-256 of a file's content, that of the JSON text of what a plan fixes, the HMAC of the JSON text of an approval, and `str.upper`.
pub record Hashes : Type 0 where
  pub sha256 : Text → Text
  pub digest : Material → Text
  pub mac : Text → Signed → Text
  pub upper : Text → Text

-- What the approval reads and writes: the files of code by path, `approval.json`, the key of the host, and the environment.
pub record Site : Type 0 where
  pub files : Dict Text Text
  pub approval : Option Approval
  pub key : Option Text
  pub sandbox : Bool
  pub host_verified : Option Text

-- What a new approval records of its time and place, and the bytes of a new key.
pub record Moment : Type 0 where
  pub time : Text
  pub user : Text
  pub host : Text
  pub token : Text

abbrev concat_blocks : Dict Text (List Entry) → List Entry
concat_blocks [] = []
concat_blocks ((slot, entries) ∷ rest) = entries ++ concat_blocks rest

abbrev support_entries : Option Entry → List Entry
support_entries none = []
support_entries (some e) = e ∷ []

-- The files that `recompute_hash` compares.
abbrev pub entries_of : Experiment → List Entry
entries_of x = x.backbone ∷ (concat_blocks x.blocks ++ support_entries x.support)

abbrev pub hashed : Entry → Text × Text
hashed e = (e.name, e.sha256)

abbrev insert_slot :
    Text × List (Text × Text) → Dict Text (List (Text × Text)) → Dict Text (List (Text × Text))
insert_slot s [] = s ∷ []
insert_slot s (t ∷ rest) = if text_le s.0 t.0 then s ∷ t ∷ rest else t ∷ insert_slot s rest

abbrev hashed_blocks : Dict Text (List Entry) → Dict Text (List (Text × Text))
hashed_blocks [] = []
hashed_blocks ((slot, entries) ∷ rest) = insert_slot (slot, map hashed entries) (hashed_blocks rest)

abbrev sha_of : Option Entry → Option Text
sha_of none = none
sha_of (some e) = some e.sha256

unfoldable pub material : Experiment → Material
material x = record {
  backbone = hashed x.backbone;
  support = sha_of x.support;
  blocks = hashed_blocks x.blocks;
  params = x.params;
  inputs = x.inputs;
}

-- What `approval_state` says of an approval that is there.
pub data State : Type 0 where
  verified unverified forged : State

module _ (hashes : Hashes) where
  -- The function `plan_hash`.
  unfoldable pub hash_plan : Experiment → Text
  hash_plan x = hashes.digest (material x)

  unfoldable pub unchanged : Site → Entry → Bool
  unfolding Text-discrete
  unchanged w e = elim (Dict.get e.code w.files) [
    | none ↦ false
    | some content ↦ same (hashes.sha256 content) e.sha256
  ]

  -- The loop of `recompute_hash`.
  unfoldable pub check_entries : Site → List Entry → Result (Unit {0})
  check_entries w [] = ok tt
  check_entries w (e ∷ rest) =
      let more = check_entries w rest in if unchanged w e then more else err protected

  unfoldable pub recompute_hash : Experiment → Site → Result Text
  recompute_hash x w = check_entries w (entries_of x) >> ok (hash_plan x)

  -- What `sign` signs of an approval; a KeyError when a field is missing is `value_error`.
  unfoldable pub signed_of : Approval → Result Signed
  signed_of a = elim a.plan_hash [
    | none ↦ err value_error
    | some h ↦ elim a.approved_at [
      | none ↦ err value_error
      | some t ↦ elim a.approved_by [
        | none ↦ err value_error
        | some u ↦ elim a.host [
          | none ↦ err value_error
          | some host ↦ ok (record { plan_hash = h; approved_at = t; approved_by = u; host = host })
        ]
      ]
    ]
  ]

  unfoldable pub sign : Text → Approval → Result Text
  sign key a = signed_of a >>= λ s. ok (hashes.mac key s)

  unfoldable pub compare_signature : Text → Approval → Option Text → Result State
  unfolding Text-discrete
  compare_signature key a none = ok forged
  compare_signature key a (some signature) =
      if is_nil signature
      then ok forged
      else (sign key a >>= λ right. ok (if same signature right then verified else forged))

  -- `approval_state` of an approval, with a configuration; without one there is no key.
  unfoldable pub approval_state : Option Text → Approval → Result State
  approval_state none a = ok unverified
  approval_state (some key) a = compare_signature key a a.signature

  abbrev pub says : Option Text → Text → Bool
  says none h = false
  says (some g) h = same g h

  abbrev pub key_of : Bool → Site → Option Text
  key_of config w = if config then w.key else none

  unfoldable pub state_gate : Text → Site → State → Result (Unit {0})
  unfolding Text-discrete
  state_gate current w verified = ok tt
  state_gate current w unverified =
      if w.sandbox && not (says w.host_verified current) then err approval_required else ok tt
  state_gate current w forged = err approval_required

  unfoldable pub approval_gate : Text → Bool → Site → Option Approval → Result (Unit {0})
  unfolding Text-discrete
  approval_gate current config w none = err approval_required
  approval_gate current config w (some a) =
      if says a.plan_hash current
      then (approval_state (key_of config w) a >>= state_gate current w)
      else err approval_required

  unfoldable pub plan_gate : Experiment → Bool → Site → Text → Result (Unit {0})
  unfolding Text-discrete
  plan_gate x config w current =
      if same current x.plan_hash then approval_gate current config w w.approval else err protected

  -- `require_approved`, with or without a configuration.
  unfoldable pub require_approved : Experiment → Bool → Site → Result (Unit {0})
  require_approved x config w = recompute_hash x w >>= plan_gate x config w

  abbrev pub key_or : Moment → Option Text → Text
  key_or now none = now.token
  key_or now (some key) = key

  abbrev pub signed_now : Moment → Text → Signed
  signed_now now current = record {
    plan_hash = current;
    approved_at = now.time;
    approved_by = now.user;
    host = now.host;
  }

  abbrev pub new_approval : Moment → Text → Option Text → Approval
  new_approval now current signature = record {
    plan_hash = some current;
    approved_at = some now.time;
    approved_by = some now.user;
    host = some now.host;
    signature = signature;
  }

  -- Signing the approval, where a missing key is made, and writing it.
  unfoldable pub write_approval : Moment → Bool → Text → Site → Site × Approval
  write_approval now false current w =
      let a = new_approval now current none in (record w { approval = some a }, a)
  write_approval now true current w =
      let key = key_or now w.key in
      let a = new_approval now current (some (hashes.mac key (signed_now now current))) in
      (record w { approval = some a; key = some key }, a)

  abbrev pub code_matches : Text → Text → Bool
  code_matches typed current =
      same (hashes.upper (strip is_space typed)) (hashes.upper (take 6 current))

  unfoldable pub approve_hashed : Moment → Text → Bool → Site → Result Text → Site × Result Approval
  unfolding Text-discrete take
  approve_hashed now typed config w (err e) = (w, err e)
  approve_hashed now typed config w (ok current) =
      if code_matches typed current
      then ((write_approval now config current w).0, ok (write_approval now config current w).1)
      else (w, err approval_required)

  -- `approve`
  unfoldable pub approve : Moment → Experiment → Text → Bool → Site → Site × Result Approval
  approve now x typed config w =
      if w.sandbox
      then (w, err protected)
      else approve_hashed now typed config w (recompute_hash x w)
