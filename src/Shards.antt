-- ===== src/Shards.antt =====
-- nawat/shards.py: many small files packed into few tar files, with an index.
pub mod Progress
pub mod Packed
use nawat.Prelude.{
  ℕ, ◌+◌, ◌≡◌, refl, Bool, true, false, not, ◌||◌, List, [], ◌∷◌, ◌++◌, Option, none, some, ltb,
  ◌==◌, if◌then◌else◌, length, sum_of, some_of,
}
use nawat.Prelude.Text.{Text, nat_eq}
use nawat.Prelude.Dict
use nawat.Prelude.Dict.{Dict}
use nawat.Errors.{Error, nawat_error, not_found, Result, ok, err, ◌>>=◌}

-- A file of the corpus, by its path below the source.
pub record File : Type 0 where
  pub path : Text
  pub size : ℕ

-- An entry of `shards` in the index; the shard's name is `shard-` and its number.
pub record Shard : Type 0 where
  pub number : ℕ
  pub files : ℕ
  pub content_bytes : ℕ
  pub bytes : ℕ

pub record ShardIndex : Type 0 where
  pub shard_size : ℕ
  pub total_files : ℕ
  pub total_bytes : ℕ
  pub shards : List Shard

-- The tar file that is being written, `writer` and `current`.
pub record Current : Type 0 where
  pub number : ℕ
  pub files : ℕ
  pub content_bytes : ℕ
  pub members : List File

-- The state of `pack`: the index, the open tar file, and the finished ones in the destination, by number.
pub record Packing : Type 0 where
  pub index : ShardIndex
  pub writer : Option Current
  pub tars : Dict ℕ (List File)

-- The size of a tar file with these members, as the tar format has it, is `tar_bytes`.
module _ (tar_bytes : List File → ℕ) where
  unfoldable pub close_writer : Option Current → Packing → Packing
  close_writer none p = p
  close_writer (some c) p = record {
    index = record {
      shard_size = p.index.shard_size;
      total_files = p.index.total_files;
      total_bytes = p.index.total_bytes;
      shards =
          p.index.shards
          ++ record {
            number = c.number;
            files = c.files;
            content_bytes = c.content_bytes;
            bytes = tar_bytes c.members;
          }
            ∷ [];
    };
    writer = none;
    tars = Dict.put c.number c.members p.tars;
  }

  unfoldable pub close_current : Packing → Packing
  close_current p = close_writer p.writer p

  unfoldable pub open_next : Packing → Current
  open_next p = record {
    number = length p.index.shards;
    files = 0;
    content_bytes = 0;
    members = [];
  }

  -- `writer.add` and the counts after it.
  unfoldable pub add_to : Current → File → Packing → Packing
  add_to c f p = record {
    index = record {
      shard_size = p.index.shard_size;
      total_files = p.index.total_files + 1;
      total_bytes = p.index.total_bytes + f.size;
      shards = p.index.shards;
    };
    writer = some (record {
      number = c.number;
      files = c.files + 1;
      content_bytes = c.content_bytes + f.size;
      members = c.members ++ f ∷ [];
    });
    tars = p.tars;
  }

  -- A file goes to the open shard, or to a new one when there is none or it is too full.
  unfoldable pub add_file : Option Current → File → Packing → Packing
  add_file none f p = add_to (open_next p) f p
  add_file (some c) f p =
      if ltb p.index.shard_size (c.content_bytes + f.size)
      then add_to (open_next (close_current p)) f (close_current p)
      else add_to c f p

  -- The loop of `pack`.
  unfoldable pub pack_files : List File → Packing → Packing × Result (Unit {0})
  pack_files [] p = (p, ok tt)
  pack_files (f ∷ rest) p =
      let more = pack_files rest (add_file p.writer f p) in
      if ltb p.index.shard_size f.size then (p, err nawat_error) else more

  abbrev pub empty_index : ℕ → ShardIndex
  empty_index shard_size = record {
    shard_size = shard_size;
    total_files = 0;
    total_bytes = 0;
    shards = [];
  }

  abbrev finish : Packing × Result (Unit {0}) → Packing × Result ShardIndex
  finish (p, ok u) = (close_current p, ok (close_current p).index)
  finish (p, err e) = (p, err e)

  -- `pack` of the sorted files of a corpus, or none when the source is no directory, into a destination that holds some tar files.
  unfoldable pub pack : ℕ → Option (List File) → Dict ℕ (List File) → Packing × Result ShardIndex
  pack shard_size none tars =
      (record { index = empty_index shard_size; writer = none; tars = tars }, err not_found)
  pack shard_size (some []) tars =
      (record { index = empty_index shard_size; writer = none; tars = tars }, err not_found)
  pack shard_size (some (f ∷ rest)) tars = finish (
      pack_files (f ∷ rest) (record { index = empty_index shard_size; writer = none; tars = tars }))

-- The members of a tar file that are regular files, from the files that were added to it, in order: `links f g` says that the tar format stores `g` as a link to `f`, which it already holds, as for two names of one file on disk. The first list is of the members before.
unfoldable pub regular : (File → File → Bool) → List File → List File → List File
regular links before [] = []
regular links before (g ∷ rest) =
    let more = regular links (g ∷ before) rest in
    if some_of (λ f. links f g) before then more else g ∷ more

module _ (tar_bytes : List File → ℕ) (links : File → File → Bool) where
  -- The loop of `verify`: the number of files that it counted.
  unfoldable pub verify_shards : List Shard → Dict ℕ (List File) → Result ℕ
  verify_shards [] tars = ok 0
  verify_shards (e ∷ rest) tars =
      let more = verify_shards rest tars in
      elim (Dict.get e.number tars) [
        | none ↦ err nawat_error
        | some members ↦
            let files = regular links [] members in
            if not (tar_bytes members == e.bytes) || not (length files == e.files)
            then err nawat_error
            else (more >>= λ n. ok (length files + n))
      ]

  -- `verify` of a destination, from the index that it holds.
  unfoldable pub verify : Option ShardIndex → Dict ℕ (List File) → Result ShardIndex
  verify none tars = err not_found
  verify (some index) tars = verify_shards index.shards tars >>= λ counted.
      if counted == index.total_files then ok index else err nawat_error
