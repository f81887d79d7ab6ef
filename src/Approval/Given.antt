-- ===== src/Approval/Given.antt =====
-- What `approve` of nawat/lab/experiment.py writes, and when it writes nothing.
use nawat.Prelude.{
  ◌≡◌, refl, sym, ap, ◌∙◌, subst, Bool, true, false, List, [], ◌∷◌, inl, inr, if_ind, Bool-cases,
  if◌then◌else◌, same, same_refl, is_nil, arith,
}
use nawat.Prelude.Text.{Text, text_eq}
use nawat.Errors.{Error, protected, approval_required, Result, Result-cases, ok, err, ◌>>◌}
use nawat.Approval.{
  Entry, Experiment, Approval, Signed, Hashes, Site, Moment, entries_of, hash_plan, unchanged,
  check_entries, recompute_hash, signed_of, sign, compare_signature, approval_state, state_gate,
  approval_gate, plan_gate, require_approved, approve, approve_hashed, write_approval, code_matches,
  key_or, signed_now,
}
use nawat.Approval.Required.{recompute_hash_ok}

module _ (hashes : Hashes) where
  -- The outcome of `approve` after the environment is read: it writes an approval if the code typed is that of the plan, and else nothing.
  data Outcome (now : Moment) (typed : Text) (config : Bool) (w : Site)
      : Site × Result Approval → Type 0 where
    wrote :
        (current : Text)
        → code_matches hashes typed current ≡ true
        → Outcome now typed config w (
          (write_approval hashes now config current w).0,
          ok (write_approval hashes now config current w).1,
        )
    refused : (e : Error) → Outcome now typed config w (w, err e)

  approve_hashed-Outcome :
      (now : Moment) (typed : Text) (config : Bool) (w : Site) (r : Result Text)
      → Outcome now typed config w (approve_hashed hashes now typed config w r)
  unfolding approve_hashed
  approve_hashed-Outcome now typed config w (err e) = refused e
  approve_hashed-Outcome now typed config w (ok current) =
      if_ind (Outcome now typed config w) (code_matches hashes typed current) (λ y. wrote current y)
        (λ n. refused approval_required)

  Outcome-refused :
      (now : Moment) (typed : Text) (config : Bool) (w : Site) (m : Site × Result Approval)
      (e : Error)
      → Outcome now typed config w m
      → m.1 ≡ err e
      → m.0 ≡ w
  Outcome-refused now typed config w (v, r) e (wrote current y) h = absurd (ground (arith, h))
  Outcome-refused now typed config w (v, r) e (refused f) h = refl

  -- An approval that is refused, in the sandbox, because the code on disk has changed or because the code typed is another, writes nothing: neither an approval nor a key.
  pub approve-refused :
      (now : Moment) (x : Experiment) (typed : Text) (config : Bool) (w : Site) (e : Error)
      → (approve hashes now x typed config w).1 ≡ err e
      → (approve hashes now x typed config w).0 ≡ w
  unfolding approve
  approve-refused now x typed config w e h =
      Outcome-refused now typed config w (approve hashes now x typed config w) e
        (if_ind (Outcome now typed config w) w.sandbox (λ y. refused protected)
          (λ n. approve_hashed-Outcome now typed config w (recompute_hash hashes x w)))
        h

  unchanged-files :
      (w v : Site) (x : Entry) → v.files ≡ w.files → unchanged hashes v x ≡ unchanged hashes w x
  unfolding unchanged
  unchanged-files w v x e = rw e refl

  check_entries-files :
      (w v : Site) (entries : List Entry)
      → v.files ≡ w.files
      → check_entries hashes v entries ≡ check_entries hashes w entries
  unfolding check_entries
  check_entries-files w v [] e = refl
  check_entries-files w v (x ∷ rest) e =
      ap (λ more. if unchanged hashes v x then more else err protected)
        (check_entries-files w v rest e)
      ∙ ap (λ b. if b then check_entries hashes w rest else err protected) (unchanged-files w v x e)

  write_approval-files :
      (now : Moment) (config : Bool) (current : Text) (w : Site)
      → (write_approval hashes now config current w).0.files ≡ w.files
  unfolding write_approval
  write_approval-files now true current w = refl
  write_approval-files now false current w = refl

  module _ (full : (key : Text) (s : Signed) → is_nil (hashes.mac key s) ≡ false) where
    written-passes :
        (now : Moment) (config : Bool) (current : Text) (w : Site)
        → w.sandbox ≡ false
        → approval_gate hashes current config
            (write_approval hashes now config current w).0
            (write_approval hashes now config current w).0.approval
          ≡ ok tt
    unfolding approval_gate write_approval approval_state state_gate compare_signature sign
        signed_of
    written-passes now true current w n =
        let key = key_or hashes now w.key in
        let s = signed_now hashes now current in
        ground (arith, same_refl current, full key s, same_refl (hashes.mac key s))
    written-passes now false current w n = ground (arith, n, same_refl current)

    -- When `approve` returns, this is not the sandbox, and it wrote the approval of the hash of what is on disk.
    approve_ok :
        (now : Moment) (x : Experiment) (typed : Text) (config : Bool) (w : Site) (a : Approval)
        → (approve hashes now x typed config w).1 ≡ ok a
        → (w.sandbox ≡ false)
          × ((current : Text) × (recompute_hash hashes x w ≡ ok current)
              × ((approve hashes now x typed config w).0
                  ≡ (write_approval hashes now config current w).0))
    unfolding approve approve_hashed
    approve_ok now x typed config w a h = elim (Bool-cases w.sandbox) [
      | inl y ↦ absurd (ground (arith, h, y))
      | inr n ↦ elim (Result-cases (recompute_hash hashes x w)) [
        | inr (e, r) ↦ absurd (ground (arith, h, n, r))
        | inl (current, r) ↦ elim (Bool-cases (code_matches hashes typed current)) [
          | inr d ↦ absurd (ground (arith, h, n, r, d))
          | inl y ↦ (n, (current, r, ground (arith, n, r, y)))
        ]
      ]
    ]

    passes :
        (now : Moment) (x : Experiment) (config : Bool) (current : Text) (w : Site)
        → w.sandbox ≡ false
        → recompute_hash hashes x w ≡ ok current
        → hash_plan hashes x ≡ x.plan_hash
        → require_approved hashes x config (write_approval hashes now config current w).0 ≡ ok tt
    unfolding require_approved recompute_hash plan_gate
    passes now x config current w n r plan =
        let v = (write_approval hashes now config current w).0 in
        let again : recompute_hash hashes x v ≡ ok current =
          ap (λ c. c >> ok (hash_plan hashes x))
            (check_entries-files w v (entries_of x) (write_approval-files now config current w))
          ∙ r in
        let p : current ≡ x.plan_hash = sym (recompute_hash_ok hashes x w current r).1 ∙ plan in
        let equal : same current x.plan_hash ≡ true =
          subst (λ t. same current t ≡ true) p (same_refl current) in
        ground (arith, again, equal, written-passes now config current w n)

    -- An experiment whose record still has the hash of its plan, once `approve` has approved it, passes `require_approved`. The condition is that no signature is empty.
    pub approve-require_approved :
        (now : Moment) (x : Experiment) (typed : Text) (config : Bool) (w : Site) (a : Approval)
        → hash_plan hashes x ≡ x.plan_hash
        → (approve hashes now x typed config w).1 ≡ ok a
        → require_approved hashes x config (approve hashes now x typed config w).0 ≡ ok tt
    approve-require_approved now x typed config w a plan h =
        let (n, (current, r, e)) = approve_ok now x typed config w a h in
        ap (require_approved hashes x config) e ∙ passes now x config current w n r plan
