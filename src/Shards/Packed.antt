-- ===== src/Shards/Packed.antt =====
-- What `pack` of nawat/shards.py writes, and that `verify` accepts it.
use nawat.Prelude.{
  ℕ, ◌≤◌, ◌≡◌, refl, sym, ap, ◌∙◌, subst, List, [], ◌∷◌, ◌++◌, append-nil, none, some, length,
  length-append, All, In, In-append_left, In-append_right, some_of, Bool, false, ◌⊎◌, inl, inr,
  arith,
}
use nawat.Prelude.Text.{nat_eq}
use nawat.Prelude.Dict.{Dict}
use nawat.Errors.{Result, ok, err}
use nawat.Shards.{
  File, Shard, Packing, close_current, finish, empty_index, pack_files, pack, regular,
  verify_shards, verify,
}
use nawat.Shards.Progress.{
  contents, Honest, members_of, Packs, Packs-close_writer, Packs-pack_files,
}

-- None of the files is stored as a link to another of them.
abbrev pub Unlinked : (File → File → Bool) → List File → Type 0
Unlinked links fs = (f g : File) → In f fs → In g fs → links f g ≡ false

unlinked_some :
    (links : File → File → Bool) (g : File) (before : List File)
    → ((f : File) → In f before → links f g ≡ false)
    → some_of (λ f. links f g) before ≡ false
unlinked_some links g [] h = refl
unlinked_some links g (f ∷ before) h =
    ground (arith, h f (inl refl), unlinked_some links g before (λ x m. h x (inr m)))

regular_all :
    (links : File → File → Bool) (before fs : List File)
    → ((f g : File) → In f before ⊎ In f fs → In g fs → links f g ≡ false)
    → regular links before fs ≡ fs
unfolding regular
regular_all links before [] h = refl
regular_all links before (g ∷ fs) h =
    rw (unlinked_some links g before (λ f m. h f g (inl m) (inl refl)))
      (ap (λ t. g ∷ t) (regular_all links (g ∷ before) fs (λ f x m n. h f x (earlier f m) (inr n))))
  where
    earlier : (f : File) → In f (g ∷ before) ⊎ In f fs → In f before ⊎ In f (g ∷ fs)
    earlier f m = ground arith

module _ (tar_bytes : List File → ℕ) (links : File → File → Bool) where
  verify_shards-Honest :
      (limit n : ℕ) (tars : Dict ℕ (List File)) (es : List Shard)
      → Unlinked links (contents es tars)
      → All (Honest tar_bytes limit n tars) es
      → verify_shards tar_bytes links es tars ≡ ok (length (contents es tars))
  unfolding verify_shards contents
  verify_shards-Honest limit n tars [] k h = refl
  verify_shards-Honest limit n tars (e ∷ es) k h =
      let plain : Unlinked links (h.0.members ++ contents es tars) =
        subst (λ o. Unlinked links (elim o [ none ↦ [] | some ms ↦ ms ] ++ contents es tars))
          h.0.there k in
      let files : regular links [] h.0.members ≡ h.0.members =
        regular_all links [] h.0.members (λ f g m w.
          plain f g
            (In-append_left f h.0.members (contents es tars)
              (elim m [ inl x ↦ absurd x | inr x ↦ x ]))
            (In-append_left g h.0.members (contents es tars) w)) in
      ground (
        arith,
        files,
        h.0.there,
        h.0.bytes,
        h.0.files,
        verify_shards-Honest limit n tars es
            (λ f g m w.
              plain f g (In-append_right f h.0.members (contents es tars) m)
                (In-append_right g h.0.members (contents es tars) w))
            h.1,
        length-append h.0.members (contents es tars),
      )

  finish_ok :
      (st : Packing × Result (Unit {0}))
      → st.1 ≡ ok tt
      → finish tar_bytes st
        ≡ (close_current tar_bytes st.0, ok (close_current tar_bytes st.0).index)
  finish_ok (p, ok u) h = refl
  finish_ok (p, err e) h = absurd (ground arith)

  contents-Packs :
      (limit : ℕ) (done : List File) (p : Packing)
      → Packs tar_bytes limit done p
      → p.writer ≡ none
      → contents p.index.shards p.tars ≡ done
  contents-Packs limit done p k e =
      sym (append-nil (contents p.index.shards p.tars))
      ∙ subst (λ w. contents p.index.shards p.tars ++ members_of tar_bytes w ≡ done) e k.order

  verify-Packs :
      (limit : ℕ) (done : List File) (p : Packing)
      → Unlinked links done
      → Packs tar_bytes limit done p
      → p.writer ≡ none
      → verify tar_bytes links (some p.index) p.tars ≡ ok p.index
  unfolding verify
  verify-Packs limit done p plain k e = ground (
    arith,
    verify_shards-Honest limit (length p.index.shards) p.tars p.index.shards
        (subst (Unlinked links) (sym (contents-Packs limit done p k e)) plain) k.honest,
    ap length (contents-Packs limit done p k e),
    k.total,
  )

  -- If no file is larger than the shard size and none is stored in a tar file as a link to another, `pack` of a corpus that has files returns the index; the tar files that the index lists hold the files of the corpus, in order and each once; each entry has the number of files and the size of its tar file, whose files are no larger together than the shard size; and `verify` accepts the index.
  pub pack-Honest :
      (limit : ℕ) (f : File) (files : List File) (tars : Dict ℕ (List File))
      → All (λ g. g.size ≤ limit) (f ∷ files)
      → Unlinked links (f ∷ files)
      → (p : Packing) × (pack tar_bytes limit (some (f ∷ files)) tars ≡ (p, ok p.index))
        × (contents p.index.shards p.tars ≡ f ∷ files)
        × All (Honest tar_bytes limit (length p.index.shards) p.tars) p.index.shards
        × (verify tar_bytes links (some p.index) p.tars ≡ ok p.index)
  unfolding pack contents close_current
  pack-Honest limit f files tars h plain =
      let start : Packing = record {
        index = empty_index tar_bytes limit;
        writer = none;
        tars = tars;
      } in
      let (returns, packs) = Packs-pack_files tar_bytes limit [] (f ∷ files) start h (record {
        size = refl;
        honest = tt;
        order = refl;
        total = refl;
        bytes = refl;
        counts = tt;
      }) in
      let st : Packing × Result (Unit {0}) = pack_files tar_bytes (f ∷ files) start in
      let (closed, none_open) =
        Packs-close_writer tar_bytes limit (f ∷ files) st.0.writer st.0 refl packs in
      (
        close_current tar_bytes st.0,
        finish_ok st returns,
        contents-Packs limit (f ∷ files) (close_current tar_bytes st.0) closed none_open,
        closed.honest,
        verify-Packs limit (f ∷ files) (close_current tar_bytes st.0) plain closed none_open,
      )
