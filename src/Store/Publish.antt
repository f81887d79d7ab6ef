-- ===== src/Store/Publish.antt =====
-- What a publication of nawat/store.py has done when it succeeds, and when it has to succeed.
use nawat.Prelude.{
  ◌≡◌, refl, ap, sym, subst, ◌∙◌, Bool, true, false, [], ◌∷◌, is_nil, In, inl, inr, arith,
}
use nawat.Prelude.Text.{Text, text_eq}
use nawat.Prelude.Dict
use nawat.Errors.{Result, ok, err}
use nawat.Keys.{Key}
use nawat.Store.{
  ObjectStat, Manifest, Place, scan_local, manifest_bytes, VerificationResult, verified,
  verify_manifests, is_internal,
}
use nawat.Store.Backend.{ObjectStore, send_all, drain, upload, verify, confirm, publish, accept}
use nawat.Store.Verify.{Holds, verified_iff}

accept_ok :
    (r : Result VerificationResult) (result : VerificationResult)
    → accept r ≡ ok result
    → (r ≡ ok result) × (verified result ≡ true)
accept_ok (ok v) result h = ground arith
accept_ok (err x) result h = cc

-- No two files of one name, and none that listings leave out.
abbrev pub Publishable : Manifest → Type 0
Publishable [] = Unit
Publishable ((rel, stat) ∷ rest) =
    (¬ In rel (Dict.keys rest)) × (is_internal rel ≡ false) × Publishable rest

module _ (store : ObjectStore) where
  open store use {State, contents, list_prefix, put, list-ok, contents-list, put-ok, put-other}

  -- A verification that answers compares the local copy with what the store holds.
  pub verify-compares :
      (source : Place) (key : Key) (s : State) (result : VerificationResult)
      → (verify store source key s).0 ≡ ok result
      → result ≡ verify_manifests key (scan_local source) (contents s key)
  unfolding verify
  verify-compares source key s result h = compared (list_prefix key s).0 (λ m. list-ok key s m) h
    where
      compared :
          (r : Result Manifest)
          → ((m : Manifest) → r ≡ ok m → m ≡ contents s key)
          → (elim r [ ok m ↦ ok (verify_manifests key (scan_local source) m) | err e ↦ err e ])
            ≡ ok result
          → result ≡ verify_manifests key (scan_local source) (contents s key)
      compared (ok m) same_as e = cc (same_as m refl)
      compared (err x) same_as e = cc

  pub contents-verify :
      (source : Place) (key : Key) (s : State) → contents (verify store source key s).1 ≡ contents s
  unfolding verify
  contents-verify source key s = contents-list key s

  confirm-Holds :
      (source : Place) (key : Key) (r : Result Manifest) (s : State) (result : VerificationResult)
      → (confirm store source key r s).0 ≡ ok result
      → Holds (contents (confirm store source key r s).1 key) (scan_local source)
        × (result.local_bytes ≡ manifest_bytes (scan_local source))
  unfolding confirm
  confirm-Holds source key (err e) s result h = absurd (cc)
  confirm-Holds source key (ok m) s result h =
      let (answered, passed) = accept_ok (verify store source key s).0 result h in
      let compared = verify-compares source key s result answered in
      (
        subst (λ (c : Key → Manifest). Holds (c key) (scan_local source))
            (sym (contents-verify source key s))
            ((verified_iff key (scan_local source) (contents s key)).0
              (subst (λ v. verified v ≡ true) compared passed)),
        unfold verify_manifests in ap (λ (v : VerificationResult). v.local_bytes) compared,
      )

  -- A publication that succeeds has left every file of the source in object storage at its size,
  -- and reports the size of the source.
  pub publish-Holds :
      (started : Text → Bool) (source : Place) (key : Key) (s : State) (result : VerificationResult)
      → (publish store started source key s).0 ≡ ok result
      → Holds (contents (publish store started source key s).1 key) (scan_local source)
        × (result.local_bytes ≡ manifest_bytes (scan_local source))
  unfolding publish
  publish-Holds started source key s result h =
      confirm-Holds source key (upload store started source key s).0
        (upload store started source key s).1 result h

  module _
      (puts : (k : Key) (rel : Text) (stat : ObjectStat) (s : State) → (put k rel stat s).0 ≡ ok tt)
      (lists : (k : Key) (s : State) → (m : Manifest) × ((list_prefix k s).0 ≡ ok m))
      (started : Text → Bool) (key : Key) where
    send_all_step :
        (rel : Text) (stat : ObjectStat) (rest : Manifest) (s : State)
        → send_all store started key ((rel, stat) ∷ rest) s
          ≡ send_all store started key rest (put key rel stat s).1
    unfolding send_all
    send_all_step rel stat rest s =
        ap
          (λ (r : Result (Unit {0})). elim r as (λ _. Result (Unit {0}) × State) [
            | ok _ ↦ send_all store started key rest (put key rel stat s).1
            | err e ↦ (err e, drain store started key rest (put key rel stat s).1)
          ])
          (puts key rel stat s)

    send_all-keeps :
        (files : Manifest) (s : State) (rel : Text)
        → ¬ In rel (Dict.keys files)
        → Dict.get rel (contents (send_all store started key files s).1 key)
          ≡ Dict.get rel (contents s key)
    send_all-keeps [] s rel n = unfold send_all in refl
    send_all-keeps ((name, stat) ∷ rest) s rel n = rw (send_all_step name stat rest s) (
        send_all-keeps rest (put key name stat s).1 rel (λ m. n (inr m))
        ∙ put-other key name rel stat s (λ e. n (inl (sym e))))

    send_all-sends :
        (files : Manifest) (s : State)
        → Publishable files
        → Holds (contents (send_all store started key files s).1 key) files
    send_all-sends [] s u rel here h = unfold Dict.get in absurd (cc)
    send_all-sends ((name, stat) ∷ rest) s u rel here h =
        rw (send_all_step name stat rest s) (elim (Dict.get-cons rel name here stat rest h) [
          | inl (e, f) ↦
              let (there, found, size) = put-ok key name stat s u.1 (puts key name stat s) in
              (
                there,
                rw e (send_all-keeps rest (put key name stat s).1 name u.0 ∙ found),
                size ∙ ap (λ (o : ObjectStat). o.size) f,
              )
          | inr later ↦ send_all-sends rest (put key name stat s).1 u.2 rel here later
        ])

    send_all_ok : (files : Manifest) (s : State) → (send_all store started key files s).0 ≡ ok tt
    send_all_ok [] s = unfold send_all in refl
    send_all_ok ((name, stat) ∷ rest) s =
        rw (send_all_step name stat rest s) (send_all_ok rest (put key name stat s).1)

    upload_lem :
        (source : Place) (s : State)
        → is_nil (scan_local source) ≡ false
        → upload store started source key s
          ≡ (ok (scan_local source), (send_all store started key (scan_local source) s).1)
    unfolding upload
    upload_lem source s n = rw (n, send_all_ok (scan_local source) s)

    confirm_ok :
        (source : Place) (m : Manifest) (s : State)
        → Holds (contents s key) (scan_local source)
        → (confirm store source key (ok m) s).0
          ≡ ok (verify_manifests key (scan_local source) (contents s key))
    unfolding confirm verify
    confirm_ok source m s h =
        let (remote, answered) = lists key s in
        let passed = (verified_iff key (scan_local source) (contents s key)).1 h in
        rw (answered, list-ok key s remote answered, passed)

    -- On a store that answers every request, publishing files of distinct ordinary names succeeds.
    pub publish-succeeds :
        (source : Place) (s : State)
        → is_nil (scan_local source) ≡ false
        → Publishable (scan_local source)
        → (result : VerificationResult) × ((publish store started source key s).0 ≡ ok result)
          × Holds (contents (publish store started source key s).1 key) (scan_local source)
    unfolding publish
    publish-succeeds source s n u =
        let after = (send_all store started key (scan_local source) s).1 in
        let held = send_all-sends (scan_local source) s u in
        let result = verify_manifests key (scan_local source) (contents after key) in
        let sent = upload_lem source s n in
        let answer =
          ap (λ (o : Result Manifest × State). (confirm store source key o.0 o.1).0) sent
          ∙ confirm_ok source (scan_local source) after held in
        (result, answer, (publish-Holds started source key s result answer).0)
