-- ===== src/Checkpoints/Bytes.antt =====
-- `directory_bytes` of nawat/checkpoints.py: the walk over a tree of files with a stack.
use nawat.Prelude.{
  ℕ, zero, suc, ◌+◌, ◌≤◌, ◌≡◌, refl, List, [], ◌∷◌, Option, none, some, sum_of, arith,
}

-- A regular file and its size, a folder, one that has contents but cannot be listed, and anything else (a link, or a file that is gone when it is looked at).
mutual
  pub data Entry : Type 0 where
    file : ℕ → Entry
    other : Entry
    folder closed : Entries → Entry

  pub data Entries : Type 0 where
    nil : Entries
    cons : Entry → Entries → Entries

-- The bytes of the regular files that can be reached by listing folders.
unfoldable mutual
  pub entry_bytes : Entry → ℕ
  entry_bytes (file n) = n
  entry_bytes other = 0
  entry_bytes (closed es) = 0
  entry_bytes (folder es) = entries_bytes es

  pub entries_bytes : Entries → ℕ
  entries_bytes nil = 0
  entries_bytes (cons e es) = entry_bytes e + entries_bytes es

-- The folders below, each of which is listed once.
unfoldable mutual
  pub entry_folders : Entry → ℕ
  entry_folders (file n) = 0
  entry_folders other = 0
  entry_folders (closed es) = 1
  entry_folders (folder es) = 1 + entries_folders es

  pub entries_folders : Entries → ℕ
  entries_folders nil = 0
  entries_folders (cons e es) = entry_folders e + entries_folders es

-- A folder on the stack: what it lists, or none when that fails.
abbrev pub Stack : Type 0
Stack = List (Option Entries)

-- The inner loop: folders are pushed, sizes are added.
unfoldable pub scan : Entries → Stack → ℕ → Stack × ℕ
scan nil stack total = (stack, total)
scan (cons (file n) es) stack total = scan es stack (total + n)
scan (cons other es) stack total = scan es stack total
scan (cons (closed inner) es) stack total = scan es (none ∷ stack) total
scan (cons (folder inner) es) stack total = scan es (some inner ∷ stack) total

unfoldable pub walk : ℕ → Stack → ℕ → ℕ
unfolding scan
walk zero stack total = total
walk (suc fuel) [] total = total
walk (suc fuel) (none ∷ stack) total = walk fuel stack total
walk (suc fuel) (some es ∷ stack) total = walk fuel (scan es stack total).0 (scan es stack total).1

abbrev pub listed_folders : Option Entries → ℕ
listed_folders none = 1
listed_folders (some es) = 1 + entries_folders es

abbrev pub listed_bytes : Option Entries → ℕ
listed_bytes none = 0
listed_bytes (some es) = entries_bytes es

-- The walk from one folder; a turn of the loop lists one folder.
unfoldable pub directory_bytes : Option Entries → ℕ
unfolding walk
directory_bytes d = walk (listed_folders d) (d ∷ []) 0

-- `usage_bytes` of the checkpoint root, if it is a directory.
unfoldable pub usage_bytes : Option (Option Entries) → ℕ
unfolding directory_bytes
usage_bytes none = 0
usage_bytes (some d) = directory_bytes d

unfoldable pub tree_bytes : Entry → ℕ
unfolding directory_bytes
tree_bytes (file n) = 0
tree_bytes other = 0
tree_bytes (closed es) = directory_bytes none
tree_bytes (folder es) = directory_bytes (some es)

scan_sums :
    (es : Entries) (stack : Stack) (total : ℕ)
    → (sum_of listed_bytes (scan es stack total).0 + (scan es stack total).1
        ≡ sum_of listed_bytes stack + entries_bytes es + total)
      × (sum_of listed_folders (scan es stack total).0
          ≡ sum_of listed_folders stack + entries_folders es)
unfolding scan entries_bytes entries_folders entry_bytes entry_folders
scan_sums nil stack total = omega arith
scan_sums (cons (file n) es) stack total = omega (arith, scan_sums es stack (total + n))
scan_sums (cons other es) stack total = omega (arith, scan_sums es stack total)
scan_sums (cons (closed inner) es) stack total = omega (arith, scan_sums es (none ∷ stack) total)
scan_sums (cons (folder inner) es) stack total =
    omega (arith, scan_sums es (some inner ∷ stack) total)

-- If the fuel is at least the number of folders on and below the stack, the loop ends with the total so far and the bytes of every regular file below the stack.
pub walk-total :
    (fuel : ℕ) (stack : Stack) (total : ℕ)
    → sum_of listed_folders stack ≤ fuel
    → walk fuel stack total ≡ total + sum_of listed_bytes stack
unfolding walk
walk-total zero [] total h = omega arith
walk-total zero (none ∷ stack) total h = omega arith
walk-total zero (some es ∷ stack) total h = omega arith
walk-total (suc fuel) [] total h = omega arith
walk-total (suc fuel) (none ∷ stack) total h = omega (arith, walk-total fuel stack total)
walk-total (suc fuel) (some es ∷ stack) total h = omega (
  arith,
  scan_sums es stack total,
  walk-total fuel (scan es stack total).0 (scan es stack total).1,
)

-- The bytes of every regular file below.
unfoldable mutual
  pub stored_bytes : Entry → ℕ
  stored_bytes (file n) = n
  stored_bytes other = 0
  stored_bytes (folder es) = all_bytes es
  stored_bytes (closed es) = all_bytes es

  pub all_bytes : Entries → ℕ
  all_bytes nil = 0
  all_bytes (cons e es) = stored_bytes e + all_bytes es

-- The bytes of the regular files below a folder that cannot be listed.
unfoldable mutual
  pub hidden_bytes : Entry → ℕ
  hidden_bytes (file n) = 0
  hidden_bytes other = 0
  hidden_bytes (folder es) = all_hidden es
  hidden_bytes (closed es) = all_bytes es

  pub all_hidden : Entries → ℕ
  all_hidden nil = 0
  all_hidden (cons e es) = hidden_bytes e + all_hidden es

mutual
  unfolding entry_bytes entries_bytes hidden_bytes all_hidden stored_bytes all_bytes

  entry_sums : (e : Entry) → entry_bytes e + hidden_bytes e ≡ stored_bytes e
  entry_sums (file n) = omega arith
  entry_sums other = refl
  entry_sums (folder es) = entries_sums es
  entry_sums (closed es) = omega arith

  entries_sums : (es : Entries) → entries_bytes es + all_hidden es ≡ all_bytes es
  entries_sums nil = refl
  entries_sums (cons e es) = omega (arith, entry_sums e, entries_sums es)
