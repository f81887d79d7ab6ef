-- ===== src/Checkpoints/Pruned.antt =====
-- `prune` of nawat/checkpoints.py: what it leaves on disk.
use nawat.Prelude.{
  ℕ, ◌≤◌, ◌≡◌, ◌∙◌, sym, ap, subst, Bool, true, false, not, ◌&&◌, ◌||◌, List, [], ◌∷◌, some, same,
  ◌==◌, ltb, inl, inr, if_ind, same_refl, some_of, some_of_In, keep, length, In, In-keep,
  In-keep_of, Bool-cases, arith, is_nil, refl,
}
use nawat.Prelude.Text.{text_eq, Text-discrete}
use nawat.Checkpoints.{
  Item, listing, Os, Checkpoint, read, remove_all, remove_temporaries, spare, prune_found, prune,
  last_few, usable,
}
use nawat.Checkpoints.Newest.{Before, Ordered, Ordered-keep, read-Ordered, In-in_order_of}
use nawat.Checkpoints.Settle.{Has, Reads, Swept, read_one-name, read-In, read_listing, Has-removed}

-- The first has the smaller step, or the same step and the earlier time.
unfoldable pub older : Checkpoint → Checkpoint → Bool
older a b = ltb a.step b.step || (a.step == b.step && ltb a.written_at b.written_at)

-- The checkpoints that can be resumed from and are not older than the given one.
unfoldable pub not_older : Checkpoint → List Checkpoint → List Checkpoint
not_older c found = keep (λ (k : Checkpoint). k.complete && not (older k c)) found

Before-older : (a b : Checkpoint) → Before a b → older b a ≡ false
unfolding older
Before-older a b h = ground arith

older_self : (a : Checkpoint) → older a a ≡ false
unfolding older
older_self a = ground arith

keep_later :
    (c : Checkpoint) (cs : List Checkpoint)
    → ((d : Checkpoint) → In d cs → older d c ≡ false)
    → keep (λ (k : Checkpoint). not (older k c)) cs ≡ cs
keep_later c [] h = refl
keep_later c (d ∷ cs) h = ground (arith, h d (inl refl), keep_later c cs (λ e m. h e (inr m)))

last_few-In :
    (n : ℕ) (c : Checkpoint) (cs : List Checkpoint)
    → Ordered cs
    → In c cs
    → length (keep (λ (k : Checkpoint). not (older k c)) cs) ≤ n
    → In c (last_few n cs)
unfolding last_few Ordered
last_few-In n c [] o m h = absurd m
last_few-In n c (x ∷ rest) o m h = elim (Bool-cases (ltb (length rest) n)) [
  | inl e ↦ rw e m
  | inr e ↦ rw e (left m e (last_few-In n c rest o.1))
]
  where
    left :
        In c (x ∷ rest)
        → ltb (length rest) n ≡ false
        → (In c rest
            → length (keep (λ (k : Checkpoint). not (older k c)) rest) ≤ n
            → In c (last_few n rest))
        → In c (last_few n rest)
    left (inl p) e again =
        let all_later : keep (λ (k : Checkpoint). not (older k c)) rest ≡ rest =
          keep_later c rest
            (λ d k. Before-older c d (subst (λ (y : Checkpoint). Before y d) (sym p) (o.0 d k))) in
        let itself : older x c ≡ false =
          subst (λ (y : Checkpoint). older y c ≡ false) p (older_self c) in
        absurd (ground (arith, h, e, itself, ap length all_later))
    left (inr k) e again = again k (ground (arith, h))

keep-keep :
    (c : Checkpoint) (cs : List Checkpoint)
    → keep (λ (k : Checkpoint). not (older k c)) (usable cs) ≡ not_older c cs
unfolding not_older
keep-keep c [] = refl
keep-keep c (x ∷ cs) = ground (arith, keep-keep c cs)

module _ (os : Os) where
  prune_found-Has :
      (n : ℕ) (items : List Item) (found : List Checkpoint) (i : Item) (c : Checkpoint)
      → In i items
      → Reads os i c
      → In c (last_few n (usable found))
      → Has i (prune_found os n (listing items) (some found)).0
  unfolding prune_found Has Text-discrete
  prune_found-Has n items found i c m r k =
      if_ind (λ (x : Swept). Has i x.0) (not (n == 0) && is_nil keeping) (λ h. m)
        (λ h. if_ind (λ (x : Swept). Has i x.0) (is_nil keeping) (λ g. gone.1) (λ g. gone.0))
    where
      keeping : List Checkpoint
      keeping = last_few n (usable found)

      is_kept : (x : Checkpoint) → x.name ≡ i.name → same x.name c.name ≡ true
      is_kept x p =
          subst (λ t. same x.name t ≡ true) (p ∙ sym (read_one-name os i c r.read))
            (same_refl x.name)

      others : (x : Checkpoint) → In x (spare os keeping found) → x.name ≡ i.name → ⊥
      others x a p =
          let (listed, unkept) =
            In-keep
              (λ (y : Checkpoint). not (some_of (λ (z : Checkpoint). same y.name z.name) keeping)) x
              found a in
          let kept =
            some_of_In (λ (z : Checkpoint). same x.name z.name) c keeping k (is_kept x p) in
          ground (arith, unkept, kept)

      gone :
          Has i (remove_temporaries os (remove_all os (spare os keeping found) (listing items)))
          × Has i (remove_all os (spare os keeping found) (listing items))
      gone = Has-removed os i c (listing items) (spare os keeping found) m r others

  -- A checkpoint that can be resumed from is still there after `prune`, as it was, if the directory could be read and the checkpoints in it that can be resumed from and do not have a smaller step, or the same step and an earlier time, are, with it, no more than `prune` is asked to keep.
  pub prune-Has :
      (n : ℕ) (items : List Item) (found : List Checkpoint) (i : Item) (c : Checkpoint)
      → read os (listing items) ≡ some found
      → In i items
      → Reads os i c
      → c.complete ≡ true
      → length (not_older c found) ≤ n
      → Has i (prune os n (listing items)).0
  unfolding prune
  prune-Has n items found i c e m r complete few =
      let (cs, listed, sorted) = read_listing os items found e in
      let there : In c found =
        subst (λ x. In c x) (sym sorted)
          (In-in_order_of c cs (read-In os i c items cs r m listed)) in
      let kept : In c (last_few n (usable found)) =
        last_few-In n c (usable found)
          (Ordered-keep (λ k. k.complete) found (read-Ordered os (listing items) found e))
          (In-keep_of (λ (k : Checkpoint). k.complete) c found there complete)
          (subst (λ x. length x ≤ n) (sym (keep-keep c found)) few) in
      subst (λ o. Has i (prune_found os n (listing items) o).0) (sym e)
        (prune_found-Has n items found i c m r kept)
