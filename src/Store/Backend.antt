-- ===== src/Store/Backend.antt =====
-- nawat/store.py: the class `ObjectStore`. A backend's primitives are the operations of a record;
-- what the other methods rely on are its laws.
use nawat.Prelude.{ℕ, ◌≡◌, ◌≢◌, Bool, false, not, [], ◌∷◌, some, if◌then◌else◌, is_nil}
use nawat.Prelude.Text.{Text, text_eq}
use nawat.Prelude.Dict
use nawat.Errors.{not_found, verification_failed, Result, ok, err}
use nawat.Keys.{Key}
use nawat.Store.{
  ObjectStat, Manifest, Place, scan_local, manifest_bytes, VerificationResult, verified,
  verify_manifests, is_internal,
}

-- `contents` is what the store holds of a key, whether or not it answers at the moment.
pub record ObjectStore : Type 1 where
  pub State : Type 0
  pub contents : State → Key → Manifest
  pub list_prefix : Key → State → Result Manifest × State
  pub put : Key → Text → ObjectStat → State → Result (Unit {0}) × State
  pub delete_prefix : Key → State → Result ℕ × State
  -- A listing that succeeds is what the store holds; listing changes nothing.
  pub list-ok : (k : Key) (s : State) (m : Manifest) → (list_prefix k s).0 ≡ ok m → m ≡ contents s k
  pub contents-list : (k : Key) (s : State) → contents (list_prefix k s).1 ≡ contents s
  -- A put that succeeds has stored the file at its size.
  pub put-ok :
      (k : Key) (rel : Text) (stat : ObjectStat) (s : State)
      → is_internal rel ≡ false
      → (put k rel stat s).0 ≡ ok tt
      → (there : ObjectStat) × (Dict.get rel (contents (put k rel stat s).1 k) ≡ some there)
        × (there.size ≡ stat.size)
  -- A put, failing or not, touches no other file of its key.
  pub put-other :
      (k : Key) (rel other : Text) (stat : ObjectStat) (s : State)
      → rel ≢ other
      → Dict.get other (contents (put k rel stat s).1 k) ≡ Dict.get other (contents s k)

-- A verification that fails is an error of the publication.
abbrev pub accept : Result VerificationResult → Result VerificationResult
accept (ok result) = if verified result then ok result else err verification_failed
accept (err e) = err e

module _ (store : ObjectStore) where
  open store use {State, contents, list_prefix, put}

  unfoldable pub exists : Key → State → Result Bool × State
  exists key s =
      let (r, s') = list_prefix key s in (elim r [ ok m ↦ ok (not (is_nil m)) | err e ↦ err e ], s')

  unfoldable pub total_size : Key → State → Result ℕ × State
  total_size key s =
      let (r, s') = list_prefix key s in
      (elim r [ ok m ↦ ok (manifest_bytes m) | err e ↦ err e ], s')

  -- After a failed transfer the pool cancels what no worker has `started`; what one has, is sent.
  unfoldable pub drain : (Text → Bool) → Key → Manifest → State → State
  drain started key [] s = s
  drain started key ((rel, stat) ∷ rest) s =
      drain started key rest (if started rel then (put key rel stat s).1 else s)

  unfoldable pub send_all : (Text → Bool) → Key → Manifest → State → Result (Unit {0}) × State
  send_all started key [] s = (ok tt, s)
  send_all started key ((rel, stat) ∷ rest) s =
      let (r, s') = put key rel stat s in
      elim r [ ok _ ↦ send_all started key rest s' | err e ↦ (err e, drain started key rest s') ]

  -- Publish a local directory under `key`. Returns the local manifest sent.
  unfoldable pub upload : (Text → Bool) → Place → Key → State → Result Manifest × State
  upload started source key s =
      let local = scan_local source in
      if is_nil local
      then (err not_found, s)
      else let (r, s') = send_all started key local s in
        (elim r [ ok _ ↦ ok local | err e ↦ err e ], s')

  unfoldable pub verify : Place → Key → State → Result VerificationResult × State
  verify source key s =
      let (r, s') = list_prefix key s in
      (
        elim r [ ok remote ↦ ok (verify_manifests key (scan_local source) remote) | err e ↦ err e ],
        s',
      )

  -- `publish` once `upload` is over: verify, and raise on a mismatch.
  unfoldable pub confirm : Place → Key → Result Manifest → State → Result VerificationResult × State
  confirm source key (ok _) s = let (v, s') = verify source key s in (accept v, s')
  confirm source key (err e) s = (err e, s)

  unfoldable pub publish : (Text → Bool) → Place → Key → State → Result VerificationResult × State
  publish started source key s =
      let (r, s') = upload started source key s in confirm source key r s'
