-- ===== src/Runs/Updates.antt =====
-- `update` of nawat/runs.py, seen through `find`.
use nawat.Prelude.{
  ◌≡◌, refl, sym, ap, ◌∙◌, subst, false, List, [], ◌∷◌, none, some, Option-cases, Bool-cases, inl,
  inr, same, same→eq, same_refl, arith,
}
use nawat.Prelude.Text.{Text, text_eq, Text-discrete}
use nawat.Prelude.Dict
use nawat.Errors.{Error, Result-cases, ok, err, ◌>>=◌}
use nawat.Errors.Post.{Post, returned, raised}
use nawat.Runs.{
  RunRecord, Store, Changes, changed, find, find_row, get, apply, put_row, update, write_update,
  write_record_file, validate_run_id, changed_artifacts, changed_name,
}

pub find_row-id :
    (i : Text) (rows : List RunRecord) (x : RunRecord) → find_row i rows ≡ some x → x.id ≡ i
unfolding find_row Text-discrete
find_row-id i [] x h = absurd (ground (arith, h))
find_row-id i (y ∷ rows) x h = elim (Bool-cases (same y.id i)) [
  | inl e ↦ let one : y ≡ x = ground (arith, h, e) in ap (λ z. z.id) (sym one) ∙ same→eq y.id i e
  | inr e ↦ find_row-id i rows x (ground (arith, h, e))
]

find_row-put_row :
    (u x : RunRecord) (rows : List RunRecord)
    → find_row u.id rows ≡ some x
    → find_row u.id (put_row u rows) ≡ some u
unfolding find_row put_row
find_row-put_row u x [] h = absurd (ground (arith, h))
find_row-put_row u x (y ∷ rows) h = elim (Bool-cases (same y.id u.id)) [
  | inl e ↦ ground (arith, e, same_refl u.id)
  | inr e ↦ ground (arith, e, find_row-put_row u x rows (ground (arith, h, e)))
]

pub find_row-put_row_other :
    (u : RunRecord) (i : Text) (rows : List RunRecord)
    → same u.id i ≡ false
    → find_row i (put_row u rows) ≡ find_row i rows
unfolding find_row put_row
find_row-put_row_other u i [] d = refl
find_row-put_row_other u i (y ∷ rows) d = elim (Bool-cases (same y.id u.id)) [
  | inl e ↦
      let d' : same y.id i ≡ false = subst (λ t. same t i ≡ false) (sym (same→eq y.id u.id e)) d in
      ground (arith, e, d, d', find_row-put_row_other u i rows d)
  | inr e ↦ ground (arith, e, find_row-put_row_other u i rows d)
]

pub find-id : (i : Text) (s : Store) (x : RunRecord) → find i s ≡ some x → x.id ≡ i
unfolding find
find-id i s x f = find_row-id i s.rows x f

-- What `apply` keeps and changes.
record Applied (changes : Changes) (x u : RunRecord) : Type 0 where
  pub id : u.id ≡ x.id
  pub state : u.state ≡ changed changes.state x.state

apply-Applied : (changes : Changes) (x u : RunRecord) → apply changes x ≡ ok u → Applied changes x u
unfolding apply
apply-Applied changes x u h =
    elim (Result-cases (changed_artifacts changes.artifacts x.artifacts)) [
      | inr (e, p) ↦ absurd (ground (arith, h, p))
      | inl (keys, p) ↦ elim (Result-cases (changed_name changes.name x.name)) [
        | inr (e, q) ↦ absurd (ground (arith, h, p, q))
        | inl (name, q) ↦ record { id = ground (arith, h, p, q); state = ground (arith, h, p, q) }
      ]
    ]

written : RunRecord → Store → Store
written u s = record { rows = put_row u s.rows; files = Dict.put u.id u s.files }

write_update_ok :
    (u : RunRecord) (s : Store)
    → validate_run_id u.id ≡ ok u.id
    → write_update u s ≡ (written u s, ok u)
unfolding write_update write_record_file written
write_update_ok u s v = ground (arith, v)

find-written :
    (u x : RunRecord) (s : Store) → find u.id s ≡ some x → find u.id (written u s) ≡ some u
unfolding find written
find-written u x s f = find_row-put_row u x s.rows f

update_none :
    (i : Text) (changes : Changes) (s : Store) (x : RunRecord) (e : Error)
    → find i s ≡ some x
    → apply changes x ≡ err e
    → update i changes s ≡ (s, err e)
unfolding update get
update_none i changes s x e f a = ground (arith, f, a)

update_ok :
    (i : Text) (changes : Changes) (s : Store) (x u : RunRecord)
    → find i s ≡ some x
    → apply changes x ≡ ok u
    → update i changes s ≡ write_update u s
unfolding update get
update_ok i changes s x u f a = ground (arith, f, a)

abbrev Updated : Text → Changes → RunRecord → RunRecord → Store → Type 0
Updated i changes x r s' = (find i s' ≡ some r) × (r.state ≡ changed changes.state x.state)

updated :
    (Q : Store → Type 0) (i : Text) (changes : Changes) (s : Store) (x u : RunRecord)
    → validate_run_id i ≡ ok i
    → find i s ≡ some x
    → apply changes x ≡ ok u
    → Post (Updated i changes x) Q (update i changes s)
updated Q i changes s x u v f a =
    let k = apply-Applied changes x u a in
    let same_id : i ≡ u.id = sym (find-id i s x f) ∙ sym k.id in
    let fine : validate_run_id u.id ≡ ok u.id = subst (λ t. validate_run_id t ≡ ok t) same_id v in
    subst (Post (Updated i changes x) Q)
      (sym (update_ok i changes s x u f a ∙ write_update_ok u s fine))
      (returned (
        subst (λ t. find t (written u s) ≡ some u) (sym same_id)
            (find-written u x s (subst (λ t. find t s ≡ some x) same_id f)),
        k.state,
      ))

-- The update of a run that is found, under a valid id: if it returns, it returns the row that is found then, with the new state or the old; if it raises, nothing has changed.
pub update-Post :
    (i : Text) (changes : Changes) (s : Store) (x : RunRecord)
    → validate_run_id i ≡ ok i
    → find i s ≡ some x
    → Post
        (λ r s'. (find i s' ≡ some r) × (r.state ≡ changed changes.state x.state))
        (λ s'. s' ≡ s)
        (update i changes s)
update-Post i changes s x v f = elim (Result-cases (apply changes x)) [
  | inr (e, a) ↦
      subst (Post (Updated i changes x) (λ s'. s' ≡ s)) (sym (update_none i changes s x e f a))
        (raised refl)
  | inl (u, a) ↦ updated (λ s'. s' ≡ s) i changes s x u v f a
]

apply_plain :
    (changes : Changes) (x : RunRecord)
    → changes.artifacts ≡ none
    → changes.name ≡ none
    → (u : RunRecord) × (apply changes x ≡ ok u)
unfolding apply changed_artifacts changed_name
apply_plain changes x a n = elim (Result-cases (apply changes x)) [
  | inl p ↦ p
  | inr (e, p) ↦ absurd (ground (arith, p, a, n))
]

-- Such an update does not raise if it sets neither artifacts nor a name.
pub update_plain :
    (i : Text) (changes : Changes) (s : Store) (x : RunRecord)
    → validate_run_id i ≡ ok i
    → find i s ≡ some x
    → changes.artifacts ≡ none
    → changes.name ≡ none
    → Post
        (λ r s'. (find i s' ≡ some r) × (r.state ≡ changed changes.state x.state))
        (λ s'. ⊥)
        (update i changes s)
update_plain i changes s x v f a n =
    let (u, p) = apply_plain changes x a n in updated (λ s'. ⊥) i changes s x u v f p

find_row-put_row_kept :
    (u : RunRecord) (i : Text) (rows : List RunRecord) (x : RunRecord)
    → find_row i rows ≡ some x
    → (y : RunRecord) × (find_row i (put_row u rows) ≡ some y)
find_row-put_row_kept u i rows x f = elim (Bool-cases (same u.id i)) [
  | inl e ↦
      let there : find_row u.id rows ≡ some x =
        subst (λ j. find_row j rows ≡ some x) (sym (same→eq u.id i e)) f in
      (
        u,
        subst (λ j. find_row j (put_row u rows) ≡ some u) (same→eq u.id i e)
            (find_row-put_row u x rows there),
      )
  | inr e ↦ (x, find_row-put_row_other u i rows e ∙ f)
]

write_update-rows : (u : RunRecord) (s : Store) → (write_update u s).0.rows ≡ put_row u s.rows
unfolding write_update write_record_file
write_update-rows u s = elim (Result-cases (validate_run_id u.id)) [
  | inl (i, e) ↦ ground (arith, e)
  | inr (i, e) ↦ ground (arith, e)
]

-- No update, of whatever run, loses the row of a run.
pub update-kept :
    (i j : Text) (changes : Changes) (s : Store) (x : RunRecord)
    → find j s ≡ some x
    → (y : RunRecord) × (find j (update i changes s).0 ≡ some y)
unfolding update find
update-kept i j changes s x f = elim (Result-cases (get i s >>= apply changes)) [
  | inr (e, p) ↦ (x, ground (arith, p, f))
  | inl (u, p) ↦
      let (y, k) = find_row-put_row_kept u j s.rows x f in
      (y, ground (arith, p, k, write_update-rows u s))
]

-- An update of one run leaves the row of another.
pub update-other :
    (i j : Text) (changes : Changes) (s : Store)
    → same i j ≡ false
    → find j (update i changes s).0 ≡ find j s
unfolding update find get
update-other i j changes s d = elim (Option-cases (find i s)) [
  | inl f ↦ ground (arith, f)
  | inr (x, f) ↦ elim (Result-cases (apply changes x)) [
    | inr (e, p) ↦ ground (arith, f, p)
    | inl (u, p) ↦
        let id : u.id ≡ i = (apply-Applied changes x u p).id ∙ find-id i s x f in
        ap (λ m. find_row j m.0.rows) (update_ok i changes s x u f p)
        ∙ ap (find_row j) (write_update-rows u s)
        ∙ find_row-put_row_other u j s.rows (subst (λ t. same t j ≡ false) (sym id) d)
  ]
]
