-- ===== src/Examples/Stores.antt =====
-- nawat/store.py on a directory with two files, one of them the platform's own.
use nawat.Prelude.{◌≡◌, ◌↔◌, refl, true, false, [], ◌∷◌}
use nawat.Prelude.Text.{text, text_eq, sort_texts}
use nawat.Prelude.Dict
use nawat.Errors.{ok}
use nawat.Keys.{Key, object_prefix, str, segments}
use nawat.Store.{
  Manifest, Place, tree, file, folder, file_stat, scan_local, is_internal, manifest_bytes,
  VerificationResult, verified, verify_manifests,
}
use nawat.Store.Backend.{send_all, upload, verify, confirm, publish}
use nawat.Store.Verify.{Holds, verified_iff}
use nawat.Store.Publish.{publish-Holds, publish-succeeds}
use nawat.Store.Local.{Disk, local_store, put_file, blocked, listing, under, after}
use nawat.Examples.Bucket.{bucket, Files, put_object_always}

abbrev model : Key
model = record { kind = text "models"; path = text "a" }

abbrev directory : Place
directory = tree (
    (text ".nawat-artifact.json", file 90 1)
    ∷ (text "sub", folder)
    ∷ (text "sub/weights", file 16 2)
    ∷ [])

abbrev weights : Manifest
weights = (text "sub/weights", file_stat 16 2) ∷ []

program : Unit {0}
unfolding scan_local is_internal manifest_bytes verified verify_manifests sort_texts send_all upload
    verify confirm publish put_file blocked listing under after object_prefix str segments Dict.get
    Dict.put
program = tt

scan_directory : scan_local directory ≡ weights
unfolding program
scan_directory = refl

abbrev empty : Disk
empty = record { files = []; clock = 5 }

abbrev expected : VerificationResult
expected = record {
  key = model;
  missing = [];
  size_mismatch = [];
  remote_only = [];
  local_files = 1;
  local_bytes = 16;
}

publish-directory : (publish local_store (λ _. false) directory model empty).0 ≡ ok expected
unfolding program
publish-directory = refl

publish-Holds_example :
    Holds
      (local_store.contents (publish local_store (λ _. false) directory model empty).1 model)
      (scan_local directory)
    × (expected.local_bytes ≡ manifest_bytes (scan_local directory))
publish-Holds_example =
    publish-Holds local_store (λ _. false) directory model empty expected publish-directory

verified_iff_example : (verified (verify_manifests model weights []) ≡ true) ↔ Holds [] weights
verified_iff_example = verified_iff model weights []

abbrev nothing : Files
nothing k = []

scanned : Unit {0}
unfolding scan_local is_internal
scanned = tt

publish-succeeds_example :
    (result : VerificationResult) × ((publish bucket (λ _. false) directory model nothing).0
      ≡ ok result)
    × Holds
        (bucket.contents (publish bucket (λ _. false) directory model nothing).1 model)
        (scan_local directory)
unfolding scanned
publish-succeeds_example =
    publish-succeeds bucket put_object_always (λ k s. (s k, refl)) (λ _. false) model directory
      nothing refl (λ m. m, refl, tt)
