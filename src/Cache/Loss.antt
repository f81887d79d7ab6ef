-- ===== src/Cache/Loss.antt =====
-- What an operation of nawat/cache.py may take off the disk, and what a verification establishes.
use nawat.Prelude.{
  ◌≡◌, refl, sym, ◌∙◌, ap, subst, ◌⊎◌, true, false, [], ◌∷◌, ◌++◌, Option, none, some,
  if◌then◌else◌, arith, if_ind, Bool-cases, inl, inr, Option-cases,
}
use nawat.Prelude.Text.{Text, text_eq, starts_with}
use nawat.Prelude.Dict
use nawat.Prelude.Dict.{Dict}
use nawat.Errors.{Error, Result, ok, err}
use nawat.Keys.{Key, key_eq, slash, str, object_prefix}
use nawat.Store.{ObjectStat, Manifest, is_internal, VerificationResult, verified, verify_manifests}
use nawat.Store.Backend.{ObjectStore}
use nawat.Store.Verify.{Holds, verified_iff}
use nawat.Store.Local.{listing, without_prefix, get-under, listing_plain, longer, prefix_lem}
use nawat.Cache.{Env, Cache, path_exists, forget}
use nawat.Cache.Reclaim.{
  Reason, compare_with, record_outcome, verify, gate, verify_for_eviction, delete_local,
}
use nawat.Cache.Frame.{SameData, SameData-refl, update_row-SameData}

-- A path of a file is not the path of a directory.
abbrev pub IsTree : Dict Text ObjectStat → Type 0
IsTree files =
    (name rel : Text) (stat : ObjectStat)
    → Dict.get name files ≡ some stat
    → Dict.get ((name ++ slash ∷ []) ++ rel) files ≡ none

-- A file of an artifact that object storage has at the same size, or that is no part of one: the
-- platform's own files, partial transfers and bytecode.
abbrev pub Backed : (Key → Manifest) → Text → ObjectStat → Type 0
Backed contents name stat =
    (k : Key) × (rel : Text) × (name ≡ object_prefix k ++ rel)
    × ((is_internal rel ≡ true)
        ⊎ ((there : ObjectStat) × (Dict.get rel (contents k) ≡ some there)
            × (there.size ≡ stat.size)))

-- One file is a tree.
pub IsTree-singleton : (n : Text) (stat : ObjectStat) → IsTree ((n, stat) ∷ [])
unfolding Dict.get
IsTree-singleton n st name rel stat h = ground (arith, longer name slash rel)

pub get-without_prefix :
    (p name : Text) (files : Dict Text ObjectStat)
    → Dict.get name (without_prefix p files)
      ≡ (if starts_with p name then none else Dict.get name files)
unfolding without_prefix Dict.get
get-without_prefix p name [] = ground arith
get-without_prefix p name ((n, stat) ∷ rest) = ground (arith, get-without_prefix p name rest)

starts_with_some : (p s : Text) → starts_with p s ≡ true → (rel : Text) × (s ≡ p ++ rel)
unfolding starts_with
starts_with_some [] s h = (s, refl)
starts_with_some (c ∷ p) [] h = cc
starts_with_some (c ∷ p) (d ∷ s) h =
    let (rel, e) = starts_with_some p s (ground arith) in (rel, ground arith)

get-listing :
    (files : Dict Text ObjectStat) (k : Key) (rel : Text) (stat : ObjectStat)
    → IsTree files
    → is_internal rel ≡ false
    → Dict.get (object_prefix k ++ rel) files ≡ some stat
    → Dict.get rel (listing files k) ≡ some stat
get-listing files k rel stat tree plain h = elim (Option-cases (Dict.get (str k) files)) [
  | inl e ↦
      ap (Dict.get rel) (listing_plain k files e) ∙ get-under (object_prefix k) rel files plain ∙ h
  | inr (there, e) ↦
      absurd (cc (h, ap (λ t. Dict.get (t ++ rel) files) (prefix_lem k), tree (str k) rel there e))
]

module _ (store : ObjectStore) where
  open store use {State, contents, list_prefix, list-ok, contents-list}

  -- From `c` to `c'` no file has gone that object storage does not hold, and object storage holds
  -- what it held.
  pub record LosesNothing (c c' : Cache State) : Type 0 where
    pub same_store : contents c'.remote ≡ contents c.remote
    pub no_loss :
        (name : Text) (stat : ObjectStat)
        → Dict.get name c.disk.files ≡ some stat
        → (Dict.get name c'.disk.files ≡ some stat) ⊎ Backed (contents c.remote) name stat
    pub tree : IsTree c'.disk.files

  pub loses_refl : (c : Cache State) → IsTree c.disk.files → LosesNothing c c
  loses_refl c t = record { same_store = refl; no_loss = λ name stat h. inl h; tree = t }

  pub loses-SameData :
      {c c' : Cache State} → IsTree c.disk.files → SameData c c' → LosesNothing c c'
  loses-SameData t d = record {
    same_store = ap contents d.remote;
    no_loss = λ name stat h. inl (rw d.files h);
    tree = rw d.files t;
  }

  pub loses_trans : {a b c : Cache State} → LosesNothing a b → LosesNothing b c → LosesNothing a c
  loses_trans {a} {b} p q = record {
    same_store = q.same_store ∙ p.same_store;
    no_loss = λ name stat h. elim (p.no_loss name stat h) [
      | inr gone ↦ inr gone
      | inl there ↦ elim (q.no_loss name stat there) [
        | inl still ↦ inl still
        | inr gone ↦ inr (subst (λ k. Backed k name stat) p.same_store gone)
      ]
    ];
    tree = q.tree;
  }

  -- A deletion after a verification that passed.
  pub delete-loses :
      (key : Key) (c : Cache State)
      → IsTree c.disk.files
      → Holds (contents c.remote key) (listing c.disk.files key)
      → LosesNothing c (delete_local store key c)
  unfolding delete_local forget
  delete-loses key c t held = record {
    same_store = refl;
    no_loss = λ name stat h. elim (Bool-cases (starts_with (object_prefix key) name)) [
      | inl inside ↦ inr (backed name stat h (starts_with_some (object_prefix key) name inside))
      | inr outside ↦ inl (get-without_prefix (object_prefix key) name c.disk.files ∙ rw outside h)
    ];
    tree = λ name rel stat h. gone name rel (t name rel stat (before name stat h));
  }
    where
      backed :
          (name : Text) (stat : ObjectStat)
          → Dict.get name c.disk.files ≡ some stat
          → (rel : Text) × (name ≡ object_prefix key ++ rel)
          → Backed (contents c.remote) name stat
      backed name stat h (rel, e) = (
        key,
        rel,
        e,
        elim (Bool-cases (is_internal rel)) [
          | inl i ↦ inl i
          | inr i ↦ inr (held rel stat (get-listing c.disk.files key rel stat t i (rw e at h)))
        ],
      )

      before :
          (name : Text) (stat : ObjectStat)
          → Dict.get name (without_prefix (object_prefix key) c.disk.files) ≡ some stat
          → Dict.get name c.disk.files ≡ some stat
      before name stat h = ground (arith, get-without_prefix (object_prefix key) name c.disk.files)

      gone :
          (name rel : Text)
          → Dict.get ((name ++ slash ∷ []) ++ rel) c.disk.files ≡ none
          → Dict.get ((name ++ slash ∷ []) ++ rel) (without_prefix (object_prefix key) c.disk.files)
            ≡ none
      gone name rel h =
          ground (
            arith,
            get-without_prefix (object_prefix key) ((name ++ slash ∷ []) ++ rel) c.disk.files,
          )

  -- What a verification leaves alone, and what it has established when it passes.
  pub record Checked (key : Key) (c c' : Cache State) (answer : Result (Option Reason))
      : Type 0 where
    pub files : c'.disk.files ≡ c.disk.files
    pub same_store : contents c'.remote ≡ contents c.remote
    pub held : answer ≡ ok none → Holds (contents c.remote key) (listing c.disk.files key)

  gate_passed :
      (r : Result VerificationResult)
      → gate store r ≡ ok none
      → (v : VerificationResult) × (r ≡ ok v) × (verified v ≡ true)
  gate_passed (ok v) h = (v, refl, ground arith)
  gate_passed (err e) h = absurd (refused e h)
    where
      refused : (x : Error) → gate store (err x) ≡ ok none → ⊥
      refused x e = ground arith

  compared :
      (key : Key) (files : Dict Text ObjectStat) (s : State) (r : Result Manifest)
      → r ≡ (list_prefix key s).0
      → gate store (compare_with store key files r) ≡ ok none
      → Holds (contents s key) (listing files key)
  compared key files s (err e) l h = absurd (unlisted e h)
    where
      unlisted : (x : Error) → gate store (err x) ≡ ok none → ⊥
      unlisted x e = ground arith
  compared key files s (ok m) l h =
      let (v, same_result, passed) =
        gate_passed (ok (verify_manifests key (listing files key) m)) h in
      subst (λ remote. Holds remote (listing files key)) (list-ok key s m (sym l))
        ((verified_iff key (listing files key) m).0 (cc (same_result, passed)))

  recorded :
      (env : Env) (key : Key) (r : Result VerificationResult) (c : Cache State)
      → SameData c (record_outcome store env key r c)
  recorded env key (ok v) c = update_row-SameData key _ c
  recorded env key (err e) c = SameData-refl c

  pub verify-Checked :
      (env : Env) (key : Key) (c : Cache State)
      → Checked key c
          (verify_for_eviction store env key c).0
          (verify_for_eviction store env key c).1
  unfolding verify_for_eviction verify
  verify-Checked env key c =
      if_ind (λ (o : Cache State × Result VerificationResult). Checked key c o.0 (gate store o.1))
        (path_exists c.disk key) (λ _. answered)
        (λ _. record { files = refl; same_store = refl; held = λ h. absurd (cc h) })
    where
      listed : Cache State
      listed = record c { remote = (list_prefix key c.remote).1 }

      result : Result VerificationResult
      result = compare_with store key c.disk.files (list_prefix key c.remote).0

      answered : Checked key c (record_outcome store env key result listed) (gate store result)
      answered =
          let d = recorded env key result listed in
          record {
            files = d.files;
            same_store = ap contents d.remote ∙ contents-list key c.remote;
            held = compared key c.disk.files c.remote (list_prefix key c.remote).0 refl;
          }

  pub loses-Checked :
      {key : Key} {c c' : Cache State} {answer : Result (Option Reason)}
      → IsTree c.disk.files
      → Checked key c c' answer
      → LosesNothing c c'
  loses-Checked t k = record {
    same_store = k.same_store;
    no_loss = λ name stat h. inl (rw k.files h);
    tree = rw k.files t;
  }
