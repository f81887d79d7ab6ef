-- ===== src/Checkpoints/Settle.antt =====
-- `sweep_partial` and `settle` of nawat/checkpoints.py: what they leave on disk.
use nawat.Prelude.{
  ◌≡◌, refl, ◌∙◌, sym, ap, subst, Bool, true, false, not, ◌&&◌, List, [], ◌∷◌, Option, none, some,
  same, inl, inr, ◌⊎◌, if_ind, Option-cases, same→eq, some_of, keep, In, In-keep, Bool-cases, arith,
}
use nawat.Prelude.Text.{Text, text_eq, Text-discrete, starts_with}
use nawat.Prelude.Sort.{In-some_of}
use nawat.Checkpoints.{
  Item, Directory, missing, sealed, listing, Os, Checkpoint, is_dir, prefix, temp_prefix, read_one,
  read_items, read, remove_where, remove_all, remove_temporaries, sweep_partial, latest, conclude,
  add_read, sweep_found, after_sweep, settle, in_order,
}
use nawat.Checkpoints.Newest.{In-in_order}

-- No two entries of a directory have one name.
abbrev pub UniqueNames : List Item → Type 0
UniqueNames items = (i j : Item) → In i items → In j items → i.name ≡ j.name → i ≡ j

abbrev pub Swept : Type 0
Swept = Directory × Option (List Checkpoint)

unfoldable pub Has : Item → Directory → Type 0
Has i missing = ⊥
Has i sealed = ⊥
Has i (listing items) = In i items

module _ (os : Os) where
  -- A checkpoint's directory, and the checkpoint that is read from it.
  pub record Reads (i : Item) (c : Checkpoint) : Type 0 where
    pub directory : is_dir i.entry ≡ true
    pub prefixed : starts_with prefix i.name ≡ true
    pub read : read_one os i ≡ some c

  pub read_one-name : (i : Item) (c : Checkpoint) → read_one os i ≡ some c → c.name ≡ i.name
  unfolding read_one
  read_one-name i c h = ground arith

  add_read-some :
      (r : Option Checkpoint) (more : Option (List Checkpoint)) (cs : List Checkpoint)
      → add_read r more ≡ some cs
      → (c : Checkpoint) × (rest : List Checkpoint) × (r ≡ some c)
        × (more ≡ some rest)
        × (cs ≡ c ∷ rest)
  add_read-some none more cs h = cc
  add_read-some (some c) none cs h = cc
  add_read-some (some c) (some rest) cs h = (c, rest, refl, refl, ground arith)

  first_or_rest :
      (i : Item) (rest : List Item) (cs : List Checkpoint) (c : Checkpoint)
      → is_dir i.entry && starts_with prefix i.name ≡ true
      → add_read (read_one os i) (read_items os rest) ≡ some cs
      → In c cs
      → Reads i c ⊎ ((more : List Checkpoint) × (read_items os rest ≡ some more) × In c more)
  first_or_rest i rest cs c e h m =
      let (c₀, more, first, others, both) =
        add_read-some (read_one os i) (read_items os rest) cs h in
      elim (subst (λ x. In c x) both m) [
        | inl p ↦ inl (record {
          directory = ground (arith, e);
          prefixed = ground (arith, e);
          read = first ∙ ap (λ x. some x) (sym p);
        })
        | inr n ↦ inr (more, others, n)
      ]

  read_items-Reads :
      (items : List Item) (cs : List Checkpoint) (c : Checkpoint)
      → read_items os items ≡ some cs
      → In c cs
      → (i : Item) × In i items × Reads i c
  unfolding read_items
  read_items-Reads [] cs c h m = ground arith
  read_items-Reads (i ∷ rest) cs c h m =
      elim (Bool-cases (is_dir i.entry && starts_with prefix i.name)) [
        | inl e ↦ elim (first_or_rest i rest cs c e (ground (arith, h, e)) m) [
          | inl r ↦ (i, inl refl, r)
          | inr (more, k, n) ↦ let (j, a, r) = read_items-Reads rest more c k n in (j, inr a, r)
        ]
        | inr e ↦
            let (j, a, r) = read_items-Reads rest cs c (ground (arith, h, e)) m in (j, inr a, r)
      ]

  no_temporary : (n : Text) → starts_with prefix n ≡ true → starts_with temp_prefix n ≡ false
  unfolding starts_with
  no_temporary [] h = refl
  no_temporary (c ∷ n) h = ground arith

  In-remove_where :
      (p : Item → Bool) (i : Item) (items : List Item)
      → In i items
      → p i ≡ false
      → In i (remove_where os p items)
  unfolding remove_where
  In-remove_where p i [] m h = absurd m
  In-remove_where p i (j ∷ rest) (inl e) h = ground arith
  In-remove_where p i (j ∷ rest) (inr m) h = ground (arith, In-remove_where p i rest m h)

  -- The checkpoint of an item is in what `read` returns.
  pub read-In :
      (i : Item) (c : Checkpoint) (items : List Item) (cs : List Checkpoint)
      → Reads i c
      → In i items
      → read_items os items ≡ some cs
      → In c cs
  unfolding read_items
  read-In i c [] cs r m h = absurd m
  read-In i c (j ∷ rest) cs r (inl e) h =
      let r' : Reads j c = subst (λ x. Reads x c) e r in
      let (c₀, more, first, others, both) =
        add_read-some (read_one os j) (read_items os rest) cs
          (ground (arith, h, r'.directory, r'.prefixed)) in
      let one : c ≡ c₀ = ground (arith, r'.read, first) in subst (λ x. In c x) (sym both) (inl one)
  read-In i c (j ∷ rest) cs r (inr m) h =
      elim (Bool-cases (is_dir j.entry && starts_with prefix j.name)) [
        | inl e ↦
            let (c₀, more, first, others, both) =
              add_read-some (read_one os j) (read_items os rest) cs (ground (arith, h, e)) in
            subst (λ x. In c x) (sym both) (inr (read-In i c rest more r m others))
        | inr e ↦ read-In i c rest cs r m (ground (arith, h, e))
      ]

  -- An item that is a checkpoint stays when the removed checkpoints are all of other names.
  pub Has-removed :
      (i : Item) (c : Checkpoint) (d : Directory) (removed : List Checkpoint)
      → Has i d
      → Reads i c
      → ((k : Checkpoint) → In k removed → k.name ≡ i.name → ⊥)
      → Has i (remove_temporaries os (remove_all os removed d)) × Has i (remove_all os removed d)
  unfolding remove_temporaries remove_all Has Text-discrete
  Has-removed i c missing removed m r other = absurd m
  Has-removed i c sealed removed m r other = absurd m
  Has-removed i c (listing items) removed m r other =
      let kept : In i (
          remove_where os (λ (j : Item). some_of (λ (k : Checkpoint). same k.name j.name) removed)
            items) =
        In-remove_where (λ (j : Item). some_of (λ (k : Checkpoint). same k.name j.name) removed) i
          items m spared in
      (
        In-remove_where (λ (j : Item). is_dir j.entry && starts_with temp_prefix j.name) i _ kept
            (ground (arith, no_temporary i.name r.prefixed)),
        kept,
      )
    where
      spared : some_of (λ (k : Checkpoint). same k.name i.name) removed ≡ false
      spared = elim (Bool-cases (some_of (λ (k : Checkpoint). same k.name i.name) removed)) [
        | inr e ↦ e
        | inl e ↦
            let (k, n, t) = In-some_of (λ (k : Checkpoint). same k.name i.name) removed e in
            absurd (other k n (same→eq k.name i.name t))
      ]

  pub read_listing :
      (items : List Item) (found : List Checkpoint)
      → read os (listing items) ≡ some found
      → (cs : List Checkpoint) × (read_items os items ≡ some cs) × (found ≡ in_order cs)
  unfolding read
  read_listing items found h = elim (Option-cases (read_items os items)) [
    | inl e ↦ absurd (ground (arith, h, e))
    | inr (cs, e) ↦ (cs, e, ground (arith, h, e))
  ]

  -- Two checkpoints that are read from items of one name are the same.
  one_name :
      (i : Item) (c k : Checkpoint) (items : List Item) (found : List Checkpoint)
      → UniqueNames items
      → In i items
      → Reads i c
      → read os (listing items) ≡ some found
      → In k found
      → k.name ≡ i.name
      → k ≡ c
  one_name i c k items found unique m r h n same_name =
      let (cs, e, sorted) = read_listing items found h in
      let (j, mj, rj) =
        read_items-Reads items cs k e (In-in_order k cs (subst (λ x. In k x) sorted n)) in
      let same_item : i ≡ j = unique i j m mj (sym same_name ∙ read_one-name j k rj.read) in
      ground (arith, r.read, ap (read_one os) same_item, rj.read)

  sweep_found-Has :
      (i : Item) (c : Checkpoint) (items : List Item) (o : Option (List Checkpoint))
      → read os (listing items) ≡ o
      → UniqueNames items
      → In i items
      → Reads i c
      → c.complete ≡ true
      → Has i (sweep_found os (listing items) o).0
  unfolding sweep_found Has
  sweep_found-Has i c items none e unique m r complete = m
  sweep_found-Has i c items (some found) e unique m r complete =
      if_ind (λ (x : Swept). Has i x.0) (some_of (λ (k : Checkpoint). k.complete) found)
        (λ h. (Has-removed i c (listing items) _ m r others).0) (λ h. m)
    where
      others :
          (k : Checkpoint)
          → In k (keep (λ (x : Checkpoint). not x.complete) found)
          → k.name ≡ i.name
          → ⊥
      others k n p =
          let (listed, partial) = In-keep (λ (x : Checkpoint). not x.complete) k found n in
          let one : k ≡ c = one_name i c k items found unique m r e listed p in
          ground (arith, partial, complete, ap (λ x. x.complete) one)

  after_sweep-keeps :
      (succeeded keeping : Bool) (swept : Directory × Option (List Checkpoint))
      → succeeded && not keeping ≡ false
      → (swept.1 ≡ none → latest os swept.0 ≡ none)
      → ((after_sweep os succeeded keeping swept).0 ≡ swept.0)
        × ((after_sweep os succeeded keeping swept).1 ≡ latest os swept.0)
  unfolding after_sweep conclude
  after_sweep-keeps succeeded keeping (d, none) h f = (refl, sym (f refl))
  after_sweep-keeps succeeded keeping (d, some removed) h f = concluded (latest os d)
    where
      concluded :
          (o : Option (Option Checkpoint))
          → ((conclude os succeeded keeping d o).0 ≡ d)
            × ((conclude os succeeded keeping d o).1 ≡ o)
      concluded none = (refl, refl)
      concluded (some newest) = rw h (refl, refl)

  sweep_found-none :
      (d : Directory) (o : Option (List Checkpoint))
      → read os d ≡ o
      → (sweep_found os d o).1 ≡ none
      → latest os (sweep_found os d o).0 ≡ none
  unfolding sweep_found latest read
  sweep_found-none d none e h = rw e refl
  sweep_found-none d (some found) e h = ground arith

  -- When the run failed, or asked for its checkpoints to be kept, and no two names of the directory are the same: a checkpoint of the directory that can be resumed from is still there after `settle`, as it was; and what `settle` returns, or that it raises, is what `latest` does on the directory that it leaves.
  pub settle-Has :
      (succeeded keeping : Bool) (items : List Item) (i : Item) (c : Checkpoint)
      → succeeded && not keeping ≡ false
      → UniqueNames items
      → In i items
      → Reads i c
      → c.complete ≡ true
      → Has i (settle os succeeded keeping (listing items)).0
        × ((settle os succeeded keeping (listing items)).1
            ≡ latest os (settle os succeeded keeping (listing items)).0)
  unfolding settle sweep_partial
  settle-Has succeeded keeping items i c h unique m r complete =
      let o : Option (List Checkpoint) = read os (listing items) in
      let (stays, answer) =
        after_sweep-keeps succeeded keeping (sweep_found os (listing items) o) h
          (sweep_found-none (listing items) o refl) in
      (
        subst (Has i) (sym stays) (sweep_found-Has i c items o refl unique m r complete),
        answer ∙ ap (latest os) (sym stays),
      )
