-- ===== src/Examples/Shards.antt =====
-- nawat/shards.py on three files and a shard size that holds two of them.
use nawat.Prelude.{
  ℕ, ◌+◌, ◌≡◌, List, [], ◌∷◌, some, All, sum_of, length, arith, ◌≤◌, Bool, false, ◌&&◌, same, inl,
  inr,
}
use nawat.Prelude.Text.{text, text_eq, Text-discrete}
use nawat.Errors.{ok}
use nawat.Shards.{File, Packing, pack, verify}
use nawat.Shards.Progress.{contents, Honest}
use nawat.Shards.Packed.{Unlinked, pack-Honest}

abbrev tar_size : List File → ℕ
tar_size members = 512 + sum_of (λ (f : File). f.size) members

abbrev first : File
first = record { path = text "a.png"; size = 4 }

abbrev others : List File
others = record { path = text "a.txt"; size = 5 } ∷ record { path = text "b.png"; size = 7 } ∷ []

small : All (λ f. f.size ≤ 10) (first ∷ others)
small = (omega arith, (omega arith, (omega arith, tt)))

-- On this disk one file has the names `a.png` and `c.png`.
abbrev links : File → File → Bool
links f g = same f.path (text "a.png") && same g.path (text "c.png")

and_false : (b : Bool) → b && false ≡ false
and_false b = ground arith

unlinked : Unlinked links (first ∷ others)
unfolding Text-discrete
unlinked f g m (inl p) = rw p (and_false (same f.path (text "a.png")))
unlinked f g m (inr (inl p)) = rw p (and_false (same f.path (text "a.png")))
unlinked f g m (inr (inr (inl p))) = rw p (and_false (same f.path (text "a.png")))
unlinked f g m (inr (inr (inr x))) = absurd x

pack-Honest_example :
    (p : Packing) × (pack tar_size 10 (some (first ∷ others)) [] ≡ (p, ok p.index))
    × (contents p.index.shards p.tars ≡ first ∷ others)
    × All (Honest tar_size 10 (length p.index.shards) p.tars) p.index.shards
    × (verify tar_size links (some p.index) p.tars ≡ ok p.index)
pack-Honest_example = pack-Honest tar_size links 10 first others [] small unlinked
