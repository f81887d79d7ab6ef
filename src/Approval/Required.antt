-- ===== src/Approval/Required.antt =====
-- What `require_approved` of nawat/lab/experiment.py lets through.
use nawat.Prelude.{
  ◌≡◌, refl, ap, ◌∙◌, subst, Bool, true, false, List, [], ◌∷◌, Option, none, some, ◌⊎◌, inl, inr,
  All, Option-cases, Bool-cases, if◌then◌else◌, same, same→eq, is_nil, arith,
}
use nawat.Prelude.Text.{Text, text_eq}
use nawat.Prelude.Dict
use nawat.Errors.{ok, ◌>>=◌, bind_ok}
use nawat.Approval.{
  Entry, Experiment, Approval, Signed, Hashes, Site, entries_of, hash_plan, unchanged,
  check_entries, recompute_hash, signed_of, sign, State, verified, unverified, forged,
  compare_signature, approval_state, says, key_of, state_gate, approval_gate, plan_gate,
  require_approved,
}

module _ (hashes : Hashes) where
  -- The file of an entry is what it was when it was planned.
  abbrev pub Frozen : Site → Entry → Type 0
  Frozen w e =
      (content : Text) × (Dict.get e.code w.files ≡ some content)
      × (hashes.sha256 content ≡ e.sha256)

  -- The approval is signed with the key of the host; where there is no key, this is the host, or the host has verified it.
  pub data Genuine (w : Site) (a : Approval) (current : Text) : Option Text → Type 0 where
    with_key :
        (key : Text) (s : Signed)
        → signed_of hashes a ≡ ok s
        → a.signature ≡ some (hashes.mac key s)
        → Genuine w a current (some key)
    without_key : (w.sandbox ≡ false) ⊎ (w.host_verified ≡ some current) → Genuine w a current none

  -- What a person approved: the code on disk, the plan, and the approval of it.
  pub record Approved (x : Experiment) (config : Bool) (w : Site) : Type 0 where
    pub approval : Approval
    pub code : All (Frozen w) (entries_of x)
    pub plan : hash_plan hashes x ≡ x.plan_hash
    pub there : w.approval ≡ some approval
    pub approves : approval.plan_hash ≡ some x.plan_hash
    pub genuine : Genuine w approval x.plan_hash (key_of hashes config w)

  unchanged-Frozen : (w : Site) (e : Entry) → unchanged hashes w e ≡ true → Frozen w e
  unfolding unchanged
  unchanged-Frozen w e h = elim (Option-cases (Dict.get e.code w.files)) [
    | inl g ↦ absurd (ground (arith, h, g))
    | inr (content, g) ↦
        (content, g, same→eq (hashes.sha256 content) e.sha256 (ground (arith, h, g)))
  ]

  check_entries-Frozen :
      (w : Site) (entries : List Entry)
      → check_entries hashes w entries ≡ ok tt
      → All (Frozen w) entries
  unfolding check_entries
  check_entries-Frozen w [] h = tt
  check_entries-Frozen w (e ∷ rest) h = elim (Bool-cases (unchanged hashes w e)) [
    | inr n ↦ absurd (ground (arith, h, n))
    | inl y ↦ (unchanged-Frozen w e y, check_entries-Frozen w rest (ground (arith, h, y)))
  ]

  says-eq : (o : Option Text) (h : Text) → says hashes o h ≡ true → o ≡ some h
  says-eq none h e = absurd (ground (arith, e))
  says-eq (some g) h e = ap some (same→eq g h e)

  unverified-Genuine :
      (w : Site) (a : Approval) (current : Text)
      → state_gate hashes current w unverified ≡ ok tt
      → Genuine w a current none
  unfolding state_gate
  unverified-Genuine w a current h = elim (Bool-cases w.sandbox) [
    | inr n ↦ without_key (inl n)
    | inl y ↦ elim (Bool-cases (says hashes w.host_verified current)) [
      | inl v ↦ without_key (inr (says-eq w.host_verified current v))
      | inr v ↦ absurd (ground (arith, h, y, v))
    ]
  ]

  forged_stops :
      (w : Site) (current : Text) (s : State)
      → ok forged ≡ ok s
      → state_gate hashes current w s ≡ ok tt
      → ⊥
  unfolding state_gate
  forged_stops w current verified c g = absurd (ground (arith, c))
  forged_stops w current unverified c g = absurd (ground (arith, c))
  forged_stops w current forged c g = absurd (ground (arith, g))

  signature-Genuine :
      (w : Site) (a : Approval) (current key : Text) (o : Option Text) (s : State)
      → a.signature ≡ o
      → compare_signature hashes key a o ≡ ok s
      → state_gate hashes current w s ≡ ok tt
      → Genuine w a current (some key)
  unfolding compare_signature sign
  signature-Genuine w a current key none s e c g = absurd (forged_stops w current s c g)
  signature-Genuine w a current key (some signature) s e c g =
      elim (Bool-cases (is_nil signature)) [
        | inl n ↦ absurd (forged_stops w current s (ground (arith, c, n)) g)
        | inr n ↦
            let (right, signs, f) =
              bind_ok (sign hashes key a)
                (λ right. ok (if same signature right then verified else forged)) s
                (ground (arith, c, n)) in
            let (fields, read, macs) =
              bind_ok (signed_of hashes a) (λ s. ok (hashes.mac key s)) right signs in
            elim (Bool-cases (same signature right)) [
              | inl y ↦
                  with_key key fields read
                    (e ∙ ap some (same→eq signature right y ∙ ground (arith, macs)))
              | inr d ↦ absurd (forged_stops w current s (ground (arith, f, d)) g)
            ]
      ]

  approval_state-Genuine :
      (w : Site) (a : Approval) (current : Text) (key : Option Text)
      → (approval_state hashes key a >>= state_gate hashes current w) ≡ ok tt
      → Genuine w a current key
  unfolding approval_state
  approval_state-Genuine w a current none h = unverified-Genuine w a current h
  approval_state-Genuine w a current (some key) h =
      let (s, c, g) =
        bind_ok (compare_signature hashes key a a.signature) (state_gate hashes current w) tt h in
      signature-Genuine w a current key a.signature s refl c g

  approval_gate-Approved :
      (x : Experiment) (config : Bool) (w : Site) (o : Option Approval)
      → w.approval ≡ o
      → All (Frozen w) (entries_of x)
      → hash_plan hashes x ≡ x.plan_hash
      → approval_gate hashes x.plan_hash config w o ≡ ok tt
      → Approved x config w
  unfolding approval_gate
  approval_gate-Approved x config w none e code plan h = absurd (ground (arith, h))
  approval_gate-Approved x config w (some a) e code plan h =
      elim (Bool-cases (says hashes a.plan_hash x.plan_hash)) [
        | inr n ↦ absurd (ground (arith, h, n))
        | inl y ↦ record {
          approval = a;
          code = code;
          plan = plan;
          there = e;
          approves = says-eq a.plan_hash x.plan_hash y;
          genuine =
              approval_state-Genuine w a x.plan_hash (key_of hashes config w)
                (ground (arith, h, y));
        }
      ]

  pub recompute_hash_ok :
      (x : Experiment) (w : Site) (current : Text)
      → recompute_hash hashes x w ≡ ok current
      → All (Frozen w) (entries_of x) × (hash_plan hashes x ≡ current)
  unfolding recompute_hash
  recompute_hash_ok x w current h =
      let (u, e, f) =
        bind_ok (check_entries hashes w (entries_of x)) (λ u. ok (hash_plan hashes x)) current h in
      (check_entries-Frozen w (entries_of x) e, ground (arith, f))

  -- If `require_approved` lets an experiment through: every file of its code is on disk as it was when the plan was made, what the plan fixes still has the plan's hash, and there is an approval of just that hash; if it was given a configuration and the host has a key, the approval is signed with the key; otherwise no signature is checked, and this is not the sandbox, or the host has verified that plan.
  pub require_approved-Approved :
      (x : Experiment) (config : Bool) (w : Site)
      → require_approved hashes x config w ≡ ok tt
      → Approved x config w
  unfolding require_approved plan_gate
  require_approved-Approved x config w h =
      let (current, e, g) =
        bind_ok (recompute_hash hashes x w) (plan_gate hashes x config w) tt h in
      let (code, plan) = recompute_hash_ok x w current e in
      elim (Bool-cases (same current x.plan_hash)) [
        | inr n ↦ absurd (ground (arith, g, n))
        | inl y ↦
            let p : current ≡ x.plan_hash = same→eq current x.plan_hash y in
            approval_gate-Approved x config w w.approval refl code (plan ∙ p) (
              subst (λ t. approval_gate hashes t config w w.approval ≡ ok tt) p
                (ground (arith, g, y)))
      ]
