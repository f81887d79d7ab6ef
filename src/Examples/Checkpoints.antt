-- ===== src/Examples/Checkpoints.antt =====
-- nawat/checkpoints.py on a directory with two checkpoints, one of them interrupted.
use nawat.Prelude.{
  ◌≡◌, ◌⊎◌, inl, inr, refl, sym, ap, ◌∙◌, true, false, List, [], ◌∷◌, ◌++◌, none, some, In, arith,
  leb, ◌&&◌, ◌-◌, if◌then◌else◌,
}
use nawat.Prelude.Text.{text, starts_with, strip, lstrip, rstrip}
use nawat.Prelude.Sort.{insert_by, sort_by}
use nawat.Keys.{is_alnum}
use nawat.Errors.{ok}
use nawat.Checkpoints.{
  Item, listing, missing, Os, Checkpoint, step_at, object, unreadable, read, latest, settle, prune,
  last_few, step_from_name, number, number_from, after_prefix, read_one, read_items, from_state,
  in_order, is_dir, last_of,
}
use nawat.Checkpoints.Bytes.{
  Entries, file, folder, closed, nil, cons, walk, scan, directory_bytes, walk-total, entries_bytes,
  entry_bytes, tree_bytes, entries_folders, entry_folders, all_bytes, stored_bytes, all_hidden,
  hidden_bytes,
}
use nawat.Checkpoints.Names.{is_word, replace_unsafe, take, sanitize, lineage_name, lineage_name-ok}
use nawat.Checkpoints.Newest.{Before, latest-IsNewest}
use nawat.Checkpoints.Settle.{UniqueNames, Has, Reads, settle-Has}
use nawat.Checkpoints.Pruned.{older, not_older, prune-Has}

abbrev host : Os
host = record {
  rmtree = λ i. none;
  rmtree_root = λ d. missing;
  digit = λ c. if leb b'0' c && leb c b'9' then some (c - b'0') else none;
}

abbrev tree : Entries
tree = cons (file 30) (cons (folder (cons (file 12) nil)) (cons (closed (cons (file 9) nil)) nil))

abbrev first : Item
first = record {
  name = text "checkpoint-100";
  entry = folder tree;
  mtime = some 5;
  state = object (step_at 100) (some 6);
}

abbrev broken : Item
broken = record {
  name = text "checkpoint-200";
  entry = folder nil;
  mtime = some 9;
  state = unreadable;
}

abbrev items : List Item
items = first ∷ broken ∷ []

abbrev saved : Checkpoint
saved = record {
  name = text "checkpoint-100";
  step = 100;
  written_at = 6;
  bytes = 42;
  complete = true;
}

abbrev interrupted : Checkpoint
interrupted = record {
  name = text "checkpoint-200";
  step = 200;
  written_at = 9;
  bytes = 0;
  complete = false;
}

program : Unit {0}
unfolding step_from_name number number_from after_prefix read_one read_items from_state in_order
    is_dir last_of read latest directory_bytes walk scan entries_bytes entry_bytes tree_bytes
    entries_folders entry_folders all_bytes stored_bytes all_hidden hidden_bytes last_few
    starts_with insert_by sort_by is_word is_alnum sanitize older not_older take strip lstrip rstrip
    replace_unsafe
program = tt

differ : first.name ≡ broken.name → ⊥
unfolding program
differ h = not_both (ap (starts_with (text "checkpoint-1")) h)
  where
    not_both : true ≡ false → ⊥
    not_both e = ground arith

unique : UniqueNames items
unique i j (inl p) (inl q) e = p ∙ sym q
unique i j (inl p) (inr (inl q)) e =
    absurd (differ (sym (ap (λ x. x.name) p) ∙ e ∙ ap (λ x. x.name) q))
unique i j (inr (inl p)) (inl q) e =
    absurd (differ (sym (ap (λ x. x.name) q) ∙ sym e ∙ ap (λ x. x.name) p))
unique i j (inl p) (inr (inr x)) e = absurd x
unique i j (inr (inl p)) (inr (inr x)) e = absurd x
unique i j (inr (inr x)) b e = absurd x
unique i j (inr (inl p)) (inr (inl q)) e = p ∙ sym q

saved-Reads : Reads host first saved
unfolding program
saved-Reads = record { directory = refl; prefixed = refl; read = refl }

walk-total_example : walk 3 (some tree ∷ []) 7 ≡ 49
unfolding program
walk-total_example = walk-total 3 (some tree ∷ []) 7 (omega arith)

latest-IsNewest_example :
    In saved (saved ∷ interrupted ∷ []) × (true ≡ true) × ((saved ≡ saved) ⊎ Before saved saved)
unfolding program
latest-IsNewest_example =
    latest-IsNewest host (listing items) saved saved (saved ∷ interrupted ∷ []) refl refl (inl refl)
      refl

settle-Has_example :
    Has first (settle host false false (listing items)).0
    × ((settle host false false (listing items)).1
        ≡ latest host (settle host false false (listing items)).0)
unfolding program
settle-Has_example =
    settle-Has host false false items first saved refl unique (inl refl) saved-Reads refl

prune-Has_example : Has first (prune host 1 (listing items)).0
unfolding program
prune-Has_example =
    prune-Has host 1 items (saved ∷ interrupted ∷ []) first saved refl (inl refl) saved-Reads refl
      (omega arith)

lineage_name-ok_example :
    lineage_name (λ t. text "0123456789") (text "my train!") (text "my train!.py") []
    ≡ ok (sanitize (text "my train!") ++ b'-' ∷ take 8 (text "0123456789"))
unfolding program
lineage_name-ok_example =
    lineage_name-ok (λ t. text "0123456789") (λ t. refl) (text "my train!") (text "my train!.py") []

sanitize-my_train : sanitize (text "my train!") ≡ text "my-train"
unfolding program
sanitize-my_train = refl
