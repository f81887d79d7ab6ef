-- ===== src/Store.antt =====
-- nawat/store.py: manifests, their comparison, and what every object store does with them.
pub mod Backend
pub mod Verify
pub mod Publish
pub mod Local
use nawat.Prelude.{
  ℕ, ◌+◌, ◌≡◌, refl, Bool, true, false, not, ◌&&◌, ◌||◌, List, [], ◌∷◌, ◌++◌, map, Option, none,
  some, ltb, leb, ◌==◌, if◌then◌else◌, Eq, same, some_of, keep, is_nil, length, sum_of, zero, suc,
}
use nawat.Prelude.Text.{
  Text, text, text_eq, Text-discrete, split, starts_with, ends_with, sort_texts,
}
use nawat.Prelude.Dict
use nawat.Prelude.Dict.{Dict}
use nawat.Errors.{Error, not_found, verification_failed, store_unavailable, Result, ok, err}
use nawat.Keys.{Key, slash}

pub record ObjectStat : Type 0 where
  pub size : ℕ
  pub etag : Option Text
  pub modified : Option ℕ

-- Relative path -> stat, for one artifact.
abbrev pub Manifest : Type 0
Manifest = Dict Text ObjectStat

abbrev pub internal_prefix : Text
internal_prefix = text ".nawat"

abbrev pub part_suffix : Text
part_suffix = text ".nawat-part"

abbrev pub bytecode_dir : Text
bytecode_dir = text "__pycache__"

-- `Path(rel).parts` of a relative path: empty components and `.` are dropped.
abbrev path_parts : Text → List Text
path_parts rel = keep (λ p. not (is_nil p || same p (text "."))) (split slash rel)

unfoldable pub is_internal : Text → Bool
unfolding split starts_with ends_with Text-discrete
is_internal rel =
    some_of (λ p. starts_with internal_prefix p || same p bytecode_dir) (path_parts rel)
    || ends_with part_suffix rel

-- What a directory holds, as `sorted(root.rglob("*"))` lists it.
pub data Node : Type 0 where
  file : ℕ → ℕ → Node
  symlink : Node
  folder : Node

-- A path on local disk.
pub data Place : Type 0 where
  absent : Place
  single : Text → ℕ → ℕ → Place
  tree : Dict Text Node → Place

abbrev pub file_stat : ℕ → ℕ → ObjectStat
file_stat size modified = record { size = size; etag = none; modified = some modified }

unfoldable pub scan_tree : Dict Text Node → Manifest
scan_tree [] = []
scan_tree ((rel, file size modified) ∷ rest) =
    if is_internal rel then scan_tree rest else (rel, file_stat size modified) ∷ scan_tree rest
scan_tree ((rel, symlink) ∷ rest) = scan_tree rest
scan_tree ((rel, folder) ∷ rest) = scan_tree rest

unfoldable pub scan_local : Place → Manifest
unfolding scan_tree
scan_local absent = []
scan_local (single name size modified) = (name, file_stat size modified) ∷ []
scan_local (tree nodes) = scan_tree nodes

unfoldable pub manifest_bytes : Manifest → ℕ
manifest_bytes [] = 0
manifest_bytes ((rel, stat) ∷ rest) = stat.size + manifest_bytes rest

pub record VerificationResult : Type 0 where
  pub key : Key
  pub missing : List Text
  pub size_mismatch : List Text
  pub remote_only : List Text
  pub local_files : ℕ
  pub local_bytes : ℕ

-- `result.ok`
unfoldable pub verified : VerificationResult → Bool
verified r = is_nil r.missing && is_nil r.size_mismatch

abbrev pub has : Manifest → Text → Bool
has m rel = elim (Dict.get rel m) [ none ↦ false | some _ ↦ true ]

-- `rel in remote and remote[rel].size != local[rel].size`
abbrev pub differs : Manifest → Manifest → Text → Bool
differs local remote rel = elim (Dict.get rel remote) [
  | none ↦ false
  | some there ↦ elim (Dict.get rel local) [
    | none ↦ false
    | some here ↦ not (there.size == here.size)
  ]
]

unfoldable pub verify_manifests : Key → Manifest → Manifest → VerificationResult
verify_manifests key local remote = record {
  key = key;
  missing = sort_texts (keep (λ rel. not (has remote rel)) (Dict.keys local));
  size_mismatch = sort_texts (keep (differs local remote) (Dict.keys local));
  remote_only = sort_texts (keep (λ rel. not (has local rel)) (Dict.keys remote));
  local_files = length local;
  local_bytes = manifest_bytes local;
}
