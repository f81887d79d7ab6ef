-- ===== src/Shards/Progress.antt =====
-- What holds while `pack` of nawat/shards.py goes through the files.
use nawat.Prelude.{
  ℕ, ◌+◌, ◌≤◌, ◌<◌, ◌≡◌, refl, sym, ap, ◌∙◌, subst, false, List, [], ◌∷◌, ◌++◌, append-nil,
  append_assoc, Option, none, some, ltb, if_ind, length, length-append, sum_of, sum_of-append, All,
  arith,
}
use nawat.Prelude.Text.{nat_eq}
use nawat.Prelude.Dict
use nawat.Prelude.Dict.{Dict}
use nawat.Errors.{ok}
use nawat.Shards.{
  File, Shard, Current, Packing, close_writer, close_current, open_next, add_to, add_file,
  pack_files,
}

-- The files in the tar files of some shards, in order.
unfoldable pub contents : List Shard → Dict ℕ (List File) → List File
contents [] tars = []
contents (e ∷ rest) tars =
    elim (Dict.get e.number tars) [ none ↦ [] | some members ↦ members ] ++ contents rest tars

module _ (tar_bytes : List File → ℕ) where
  -- An entry that tells the truth about its tar file, which is not too large, and whose number is below a bound.
  pub record Honest (limit bound : ℕ) (tars : Dict ℕ (List File)) (e : Shard) : Type 0 where
    pub members : List File
    pub there : Dict.get e.number tars ≡ some members
    pub files : length members ≡ e.files
    pub bytes : tar_bytes members ≡ e.bytes
    pub content : sum_of (λ (f : File). f.size) members ≤ limit
    pub below : e.number < bound

  other :
      (n m : ℕ) (ms : List File) (tars : Dict ℕ (List File))
      → m < n
      → Dict.get m (Dict.put n ms tars) ≡ Dict.get m tars
  other n m ms tars h = ground (arith, Dict.get-put n m ms tars)

  Honest-put :
      (limit n m : ℕ) (ms : List File) (tars : Dict ℕ (List File)) (es : List Shard)
      → n ≤ m
      → All (Honest limit n tars) es
      → All (Honest limit (m + 1) (Dict.put m ms tars)) es
        × (contents es (Dict.put m ms tars) ≡ contents es tars)
  unfolding contents
  Honest-put limit n m ms tars [] l h = (tt, refl)
  Honest-put limit n m ms tars (e ∷ es) l h =
      let old : Dict.get e.number (Dict.put m ms tars) ≡ Dict.get e.number tars =
        other m e.number ms tars (omega (arith, h.0.below, l)) in
      let (more, same_rest) = Honest-put limit n m ms tars es l h.1 in
      (
        (
          record {
            members = h.0.members;
            there = old ∙ h.0.there;
            files = h.0.files;
            bytes = h.0.bytes;
            content = h.0.content;
            below = omega (arith, h.0.below, l);
          },
          more,
        ),
        rw (old, same_rest) refl,
      )

  contents-append :
      (es : List Shard) (e : Shard) (ms : List File) (tars : Dict ℕ (List File))
      → Dict.get e.number tars ≡ some ms
      → contents (es ++ e ∷ []) tars ≡ contents es tars ++ ms
  unfolding contents
  contents-append [] e ms tars h = rw h (append-nil ms)
  contents-append (x ∷ es) e ms tars h =
      rw (contents-append es e ms tars h) (sym (append_assoc _ (contents es tars) ms))

  All-append :
      (limit n : ℕ) (tars : Dict ℕ (List File)) (es : List Shard) (e : Shard)
      → All (Honest limit n tars) es
      → Honest limit n tars e
      → All (Honest limit n tars) (es ++ e ∷ [])
  All-append limit n tars [] e h k = (k, tt)
  All-append limit n tars (x ∷ es) e h k = (h.0, All-append limit n tars es e h.1 k)

  abbrev pub members_of : Option Current → List File
  members_of none = []
  members_of (some c) = c.members

  -- The counts of the open tar file are right, and it is not too large.
  abbrev Counts : ℕ → ℕ → Option Current → Type 0
  Counts limit n none = Unit
  Counts limit n (some c) =
      (c.number ≡ n)
      × (c.files ≡ length c.members)
      × (c.content_bytes ≡ sum_of (λ (f : File). f.size) c.members)
      × (c.content_bytes ≤ limit)

  -- What holds of the state of `pack` after some of the files.
  pub record Packs (limit : ℕ) (done : List File) (p : Packing) : Type 0 where
    pub size : p.index.shard_size ≡ limit
    pub honest : All (Honest limit (length p.index.shards) p.tars) p.index.shards
    pub order : contents p.index.shards p.tars ++ members_of p.writer ≡ done
    pub total : p.index.total_files ≡ length done
    pub bytes : p.index.total_bytes ≡ sum_of (λ (f : File). f.size) done
    pub counts : Counts limit (length p.index.shards) p.writer

  pub Packs-close_writer :
      (limit : ℕ) (done : List File) (w : Option Current) (p : Packing)
      → p.writer ≡ w
      → Packs limit done p
      → Packs limit done (close_writer tar_bytes w p) × ((close_writer tar_bytes w p).writer ≡ none)
  unfolding close_writer
  Packs-close_writer limit done none p e k = (k, e)
  Packs-close_writer limit done (some c) p e k =
      let counts : Counts limit (length p.index.shards) (some c) =
        subst (Counts limit (length p.index.shards)) e k.counts in
      let order : contents p.index.shards p.tars ++ c.members ≡ done =
        subst (λ w. contents p.index.shards p.tars ++ members_of w ≡ done) e k.order in
      let (kept, same_files) =
        Honest-put limit (length p.index.shards) c.number c.members p.tars p.index.shards
          (omega (arith, counts.0)) k.honest in
      let there : Dict.get c.number (Dict.put c.number c.members p.tars) ≡ some c.members =
        ground (arith, Dict.get-put c.number c.number c.members p.tars) in
      let long : c.number + 1 ≡ length (p.index.shards ++ entry ∷ []) =
        omega (arith, counts.0, length-append p.index.shards (entry ∷ [])) in
      (
        record {
          size = k.size;
          honest =
              subst
                (λ n.
                  All (Honest limit n (Dict.put c.number c.members p.tars))
                    (p.index.shards ++ entry ∷ []))
                long
                (All-append limit (c.number + 1) (Dict.put c.number c.members p.tars) p.index.shards
                  entry kept
                  (record {
                    members = c.members;
                    there = there;
                    files = sym counts.1;
                    bytes = refl;
                    content = omega (arith, counts.2, counts.3);
                    below = omega arith;
                  }));
          order =
              append-nil _
              ∙ contents-append p.index.shards entry c.members (Dict.put c.number c.members p.tars)
                  there
              ∙ ap (λ xs. xs ++ c.members) same_files
              ∙ order;
          total = k.total;
          bytes = k.bytes;
          counts = tt;
        },
        refl,
      )
    where
      entry : Shard
      entry = record {
        number = c.number;
        files = c.files;
        content_bytes = c.content_bytes;
        bytes = tar_bytes c.members;
      }

  Packs-add_to :
      (limit : ℕ) (done : List File) (c : Current) (f : File) (p : Packing)
      → p.index.shard_size ≡ limit
      → All (Honest limit (length p.index.shards) p.tars) p.index.shards
      → contents p.index.shards p.tars ++ c.members ≡ done
      → p.index.total_files ≡ length done
      → p.index.total_bytes ≡ sum_of (λ (g : File). g.size) done
      → Counts limit (length p.index.shards) (some c)
      → c.content_bytes + f.size ≤ limit
      → Packs limit (done ++ f ∷ []) (add_to tar_bytes c f p)
  unfolding add_to
  Packs-add_to limit done c f p size honest order total bytes counts fits = record {
    size = size;
    honest = honest;
    order =
        sym (append_assoc (contents p.index.shards p.tars) c.members (f ∷ []))
        ∙ ap (λ xs. xs ++ f ∷ []) order;
    total = omega (arith, total, length-append done (f ∷ []));
    bytes = omega (arith, bytes, sum_of-append (λ (g : File). g.size) done (f ∷ []));
    counts = (
      counts.0,
      omega (arith, counts.1, length-append c.members (f ∷ [])),
      omega (arith, counts.2, sum_of-append (λ (g : File). g.size) c.members (f ∷ [])),
      fits,
    );
  }

  Packs-add_file :
      (limit : ℕ) (done : List File) (f : File) (w : Option Current) (p : Packing)
      → p.writer ≡ w
      → f.size ≤ limit
      → Packs limit done p
      → Packs limit (done ++ f ∷ []) (add_file tar_bytes w f p)
  unfolding add_file open_next close_current
  Packs-add_file limit done f none p e h k =
      Packs-add_to limit done (open_next tar_bytes p) f p k.size k.honest
        (subst (λ w. contents p.index.shards p.tars ++ members_of w ≡ done) e k.order) k.total
        k.bytes (refl, refl, refl, omega arith) (omega (arith, h))
  Packs-add_file limit done f (some c) p e h k =
      if_ind (Packs limit (done ++ f ∷ [])) (ltb p.index.shard_size (c.content_bytes + f.size))
        (λ t. full) (λ t. room t)
    where
      closed :
          Packs limit done (close_current tar_bytes p) × ((close_current tar_bytes p).writer ≡ none)
      closed = Packs-close_writer limit done p.writer p refl k

      full : Packs limit (done ++ f ∷ []) (
          add_to tar_bytes
            (open_next tar_bytes (close_current tar_bytes p))
            f
            (close_current tar_bytes p))
      full =
          Packs-add_to limit done (open_next tar_bytes (close_current tar_bytes p)) f
            (close_current tar_bytes p) closed.0.size closed.0.honest
            (subst
              (λ w.
                contents (close_current tar_bytes p).index.shards (close_current tar_bytes p).tars
                  ++ members_of w
                ≡ done)
              closed.1 closed.0.order)
            closed.0.total closed.0.bytes (refl, refl, refl, omega arith) (omega (arith, h))

      room :
          ltb p.index.shard_size (c.content_bytes + f.size) ≡ false
          → Packs limit (done ++ f ∷ []) (add_to tar_bytes c f p)
      room t =
          Packs-add_to limit done c f p k.size k.honest
            (subst (λ w. contents p.index.shards p.tars ++ members_of w ≡ done) e k.order) k.total
            k.bytes (subst (Counts limit (length p.index.shards)) e k.counts)
            (ground (arith, t, k.size))

  pub Packs-pack_files :
      (limit : ℕ) (done files : List File) (p : Packing)
      → All (λ f. f.size ≤ limit) files
      → Packs limit done p
      → ((pack_files tar_bytes files p).1 ≡ ok tt)
        × Packs limit (done ++ files) (pack_files tar_bytes files p).0
  unfolding pack_files
  Packs-pack_files limit done [] p h k =
      (refl, subst (λ xs. Packs limit xs p) (sym (append-nil done)) k)
  Packs-pack_files limit done (f ∷ files) p h k =
      let small : ltb p.index.shard_size f.size ≡ false = ground (arith, h.0, k.size) in
      let (returns, packs) =
        Packs-pack_files limit (done ++ f ∷ []) files (add_file tar_bytes p.writer f p) h.1
          (Packs-add_file limit done f p.writer p refl h.0 k) in
      rw small (
        returns,
        subst
            (λ xs. Packs limit xs (pack_files tar_bytes files (add_file tar_bytes p.writer f p)).0)
            (append_assoc done (f ∷ []) files) packs,
      )
