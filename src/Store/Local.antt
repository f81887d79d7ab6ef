-- ===== src/Store/Local.antt =====
-- nawat/store.py: `LocalObjectStore`, a directory tree that stands in for the object store.
use mathlib.Core.List.{append_cancel_left, append_assoc}
use nawat.Prelude.{
  ℕ, ◌≡◌, ◌≢◌, refl, ap, sym, ◌∙◌, Bool, true, false, ◌||◌, List, [], ◌∷◌, ◌++◌, Option, none, some,
  if◌then◌else◌, length, arith, ◌==◌, Bool-cases, inl, inr, Option-cases,
}
use nawat.Prelude.Text.{Text, text_eq, starts_with}
use nawat.Prelude.Dict
use nawat.Prelude.Dict.{Dict}
use nawat.Errors.{os_error, Result, ok, err}
use nawat.Keys.{Key, slash, str, object_prefix, segments}
use nawat.Store.{ObjectStat, Manifest, is_internal, file_stat}
use nawat.Store.Backend.{ObjectStore}

-- The files below the store's root by their relative paths, and the clock that stamps them.
pub record Disk : Type 0 where
  pub files : Dict Text ObjectStat
  pub clock : ℕ

-- What follows a prefix.
unfoldable pub after : Text → Text → Option Text
after [] name = some name
after (c ∷ p) [] = none
after (c ∷ p) (d ∷ name) = if c == d then after p name else none

-- `scan_local` of the directory whose paths begin with a prefix.
unfoldable pub under : Text → Dict Text ObjectStat → Manifest
under p [] = []
under p ((name, stat) ∷ rest) = elim (after p name) [
  | none ↦ under p rest
  | some rel ↦ if is_internal rel then under p rest else (rel, stat) ∷ under p rest
]

unfoldable pub last_segment : List Text → Text
last_segment [] = []
last_segment (p ∷ []) = p
last_segment (p ∷ q ∷ ps) = last_segment (q ∷ ps)

-- `scan_local(self._dir(key))`: a file that has the key's path is listed by its name.
unfoldable pub listing : Dict Text ObjectStat → Key → Manifest
listing files key = elim (Dict.get (str key) files) [
  | some stat ↦ (last_segment (segments key), stat) ∷ []
  | none ↦ under (object_prefix key) files
]

-- Whether a path runs through a file, or names a directory: it can then hold no file.
unfoldable pub blocked : Text → Dict Text ObjectStat → Bool
blocked target [] = false
blocked target ((name, stat) ∷ rest) =
    starts_with (name ++ slash ∷ []) target
    || starts_with (target ++ slash ∷ []) name
    || blocked target rest

unfoldable pub put_file : Key → Text → ObjectStat → Disk → Result (Unit {0}) × Disk
put_file key rel stat disk =
    let target = object_prefix key ++ rel in
    if blocked target disk.files then (err os_error, disk) else (
      ok tt,
      record disk { files = Dict.put target (file_stat stat.size disk.clock) disk.files },
    )

-- `shutil.rmtree(directory, ignore_errors=True)`: of a path that is a file it removes nothing.
unfoldable pub without_prefix : Text → Dict Text ObjectStat → Dict Text ObjectStat
without_prefix p [] = []
without_prefix p ((name, stat) ∷ rest) =
    if starts_with p name then without_prefix p rest else (name, stat) ∷ without_prefix p rest

unfoldable pub delete_files : Key → Disk → Result ℕ × Disk
delete_files key disk = (
  ok (length (listing disk.files key)),
  record disk { files = without_prefix (object_prefix key) disk.files },
)

after-append : (p rel : Text) → after p (p ++ rel) ≡ some rel
unfolding after
after-append [] rel = refl
after-append (c ∷ p) rel = ground (arith, after-append p rel)

after-some : (p name rel : Text) → after p name ≡ some rel → name ≡ p ++ rel
unfolding after
after-some [] name rel h = ground arith
after-some (c ∷ p) [] rel h = cc
after-some (c ∷ p) (d ∷ name) rel h = ground (arith, after-some p name rel)

-- A listing shows an ordinary file exactly as the disk has it.
pub get-under :
    (p rel : Text) (files : Dict Text ObjectStat)
    → is_internal rel ≡ false
    → Dict.get rel (under p files) ≡ Dict.get (p ++ rel) files
unfolding under Dict.get
get-under p rel [] h = refl
get-under p rel ((name, stat) ∷ rest) h = elim (Option-cases (after p name)) [
  | inl e ↦
      let other = λ (q : name ≡ p ++ rel). misses q e in
      ground (arith, get-under p rel rest h, other)
  | inr (r, e) ↦
      let named : name ≡ p ++ r = after-some p name r e in
      let cancel = append_cancel_left p r rel in
      let extend = λ (q : r ≡ rel). ap (λ t. p ++ t) q in
      ground (arith, get-under p rel rest h, named, cancel, extend)
]
  where
    misses : name ≡ p ++ rel → after p name ≡ none → ⊥
    misses q e = cc (ap (after p) q ∙ after-append p rel)

starts_with-append : (p s : Text) → starts_with p (p ++ s) ≡ true
unfolding starts_with
starts_with-append [] s = refl
starts_with-append (c ∷ p) s = ground (arith, starts_with-append p s)

-- The path of a file blocks every path below it.
blocked-below :
    (name rest : Text) (stat : ObjectStat) (files : Dict Text ObjectStat)
    → Dict.get name files ≡ some stat
    → blocked ((name ++ slash ∷ []) ++ rest) files ≡ true
unfolding blocked Dict.get
blocked-below name rest stat [] h = cc
blocked-below name rest stat ((n, st) ∷ files) h =
    ground (arith, blocked-below name rest stat files, starts_with-append (name ++ slash ∷ []) rest)

pub prefix_lem : (k : Key) → object_prefix k ≡ str k ++ slash ∷ []
unfolding object_prefix str
prefix_lem k = sym (append_assoc k.kind (slash ∷ k.path) (slash ∷ []))

not-blocked :
    (k : Key) (rel : Text) (files : Dict Text ObjectStat)
    → blocked (object_prefix k ++ rel) files ≡ false
    → Dict.get (str k) files ≡ none
not-blocked k rel files h = elim (Option-cases (Dict.get (str k) files)) [
  | inl e ↦ e
  | inr (stat, e) ↦ absurd (
      cc (
        h,
        ap (λ t. blocked (t ++ rel) files) (prefix_lem k),
        blocked-below (str k) rel stat files e,
      ))
]

pub longer : (s : Text) (c : ℕ) (r : Text) → (s ++ c ∷ []) ++ r ≢ s
longer [] c r e = cc
longer (d ∷ s) c r e = longer s c r (cc)

target_ne : (k : Key) (rel : Text) → object_prefix k ++ rel ≢ str k
target_ne k rel e = longer (str k) slash rel (ap (λ t. t ++ rel) (sym (prefix_lem k)) ∙ e)

module _ (k : Key) (rel : Text) (stat : ObjectStat) (disk : Disk) where
  put_lem :
      blocked (object_prefix k ++ rel) disk.files ≡ false
      → listing (put_file k rel stat disk).1.files k
        ≡ under
            (object_prefix k)
            (Dict.put (object_prefix k ++ rel) (file_stat stat.size disk.clock) disk.files)
  unfolding put_file listing
  put_lem free =
      let target = object_prefix k ++ rel in
      let old = not-blocked k rel disk.files free in
      let new = Dict.get-put target (str k) (file_stat stat.size disk.clock) disk.files in
      let other = target_ne k rel in rw free (ground (arith, old, new, other))

  pub put_file_ok :
      is_internal rel ≡ false
      → (put_file k rel stat disk).0 ≡ ok tt
      → (there : ObjectStat) × (Dict.get rel (listing (put_file k rel stat disk).1.files k)
          ≡ some there)
        × (there.size ≡ stat.size)
  put_file_ok plain h =
      let free = written h in
      let target = object_prefix k ++ rel in
      let stored = file_stat stat.size disk.clock in
      (
        stored,
        ap (Dict.get rel) (put_lem free)
            ∙ get-under (object_prefix k) rel (Dict.put target stored disk.files) plain
            ∙ Dict.get-put target target stored disk.files
            ∙ ground arith,
        refl,
      )
    where
      written :
          (put_file k rel stat disk).0 ≡ ok tt → blocked (object_prefix k ++ rel) disk.files ≡ false
      written e = unfold put_file in ground arith

get-under_internal :
    (p rel : Text) (files : Dict Text ObjectStat)
    → is_internal rel ≡ true
    → Dict.get rel (under p files) ≡ none
unfolding under Dict.get
get-under_internal p rel [] h = refl
get-under_internal p rel ((name, stat) ∷ rest) h = ground (arith, get-under_internal p rel rest h)

same_listing :
    (p target rel : Text) (stat : ObjectStat) (files : Dict Text ObjectStat)
    → p ++ rel ≢ target
    → Dict.get rel (under p (Dict.put target stat files)) ≡ Dict.get rel (under p files)
same_listing p target rel stat files n = elim (Bool-cases (is_internal rel)) [
  | inl i ↦ get-under_internal p rel _ i ∙ sym (get-under_internal p rel files i)
  | inr i ↦
      get-under p rel _ i
      ∙ Dict.get-put target (p ++ rel) stat files
      ∙ ground arith
      ∙ sym (get-under p rel files i)
]

-- A key whose path is no file lists what lies under its prefix.
pub listing_plain :
    (k : Key) (files : Dict Text ObjectStat)
    → Dict.get (str k) files ≡ none
    → listing files k ≡ under (object_prefix k) files
unfolding listing
listing_plain k files e = ground arith

pub put_file-other :
    (k : Key) (rel other : Text) (stat : ObjectStat) (disk : Disk)
    → rel ≢ other
    → Dict.get other (listing (put_file k rel stat disk).1.files k)
      ≡ Dict.get other (listing disk.files k)
put_file-other k rel other stat disk n =
    elim (Bool-cases (blocked (object_prefix k ++ rel) disk.files)) [
      | inl b ↦ unfold put_file in rw b
      | inr free ↦
          ap (Dict.get other) (put_lem k rel stat disk free)
          ∙ same_listing (object_prefix k) (object_prefix k ++ rel) other _ disk.files
              (λ e. n (sym (append_cancel_left (object_prefix k) other rel e)))
          ∙ ap (Dict.get other)
              (sym (listing_plain k disk.files (not-blocked k rel disk.files free)))
    ]

pub listed_is :
    (s : Disk) (k : Key) (m : Manifest) → ok (listing s.files k) ≡ ok m → m ≡ listing s.files k
listed_is s k m h = cc

-- The directory tree keeps what the shared methods rely on.
abbrev pub local_store : ObjectStore
local_store = record {
  State = Disk;
  contents = λ s k. listing s.files k;
  list_prefix = λ k s. (ok (listing s.files k), s);
  put = put_file;
  delete_prefix = delete_files;
  list-ok = λ k s m h. listed_is s k m h;
  contents-list = λ k s. refl;
  put-ok = put_file_ok;
  put-other = put_file-other;
}
