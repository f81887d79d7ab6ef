-- ===== src/Keys.antt =====
-- nawat/keys.py: artifact keys, their syntax and the places that they name.
pub mod Shape
pub mod RoundTrip
pub mod Safety
pub mod Prefix
use nawat.Prelude.{
  ℕ, ◌≡◌, refl, Bool, true, false, not, ◌&&◌, ◌||◌, List, [], ◌∷◌, ◌++◌, Option, none, some, ltb,
  leb, ◌==◌, if◌then◌else◌, Eq, same, length, some_of, is_nil, keep, ℕ_discrete,
}
use nawat.Prelude.Text.{Text, text, text_eq, Text-discrete, is_space, strip, split, join, contains}
use nawat.Errors.{Error, invalid_key, protected, Result, ok, err, ◌>>=◌, ◌>>◌}

pub record Key : Type 0 where
  pub kind : Text
  pub path : Text

unfoldable pub Key-discrete : Discrete Key
unfolding ℕ_discrete
Key-discrete = hlevel ℕ_discrete

instance abbrev pub key_eq : Eq Key
key_eq = record { discrete = Key-discrete }

abbrev pub kinds : List Text
kinds = text "models" ∷ text "datasets" ∷ text "runs" ∷ text "exports" ∷ []

abbrev pub hub_kinds : List Text
hub_kinds = text "models" ∷ text "datasets" ∷ []

abbrev pub max_length : ℕ
max_length = 512

abbrev pub slash : ℕ
slash = b'/'

unfoldable pub is_alnum : ℕ → Bool
is_alnum c = (leb b'A' c && leb c b'Z') || (leb b'a' c && leb c b'z') || (leb b'0' c && leb c b'9')

-- `[A-Za-z0-9._@+-]`
unfoldable pub is_name_char : ℕ → Bool
unfolding is_alnum
is_name_char c = is_alnum c || c == b'.' || c == b'_' || c == b'@' || c == b'+' || c == b'-'

-- `[...]*$`: `$` also matches before a newline that ends the text.
unfoldable pub matches_rest : Text → Bool
unfolding is_name_char
matches_rest [] = true
matches_rest (c ∷ []) = is_name_char c || c == 10
matches_rest (c ∷ d ∷ s) = is_name_char c && matches_rest (d ∷ s)

-- `_SEGMENT.match(segment)`
unfoldable pub matches_segment : Text → Bool
unfolding is_alnum matches_rest
matches_segment [] = false
matches_segment (c ∷ s) = is_alnum c && matches_rest s

-- The body of the loop over the segments.
unfoldable pub is_segment : Text → Bool
unfolding matches_segment Text-discrete
is_segment s = not (is_nil s) && not (same s (text ".") || same s (text "..")) && matches_segment s

unfoldable pub check_segments : List Text → Result (Unit {0})
unfolding is_segment
check_segments [] = ok tt
check_segments (s ∷ rest) =
    let more = check_segments rest in if is_segment s then more else err invalid_key

-- `Key(kind, path)`, with the checks of `__post_init__`.
unfoldable pub make : Text → Text → Result Key
unfolding Text-discrete
make kind path =
    if some_of (same kind) kinds && not (is_nil path)
    then ok (record { kind = kind; path = path })
    else err invalid_key

-- The end of `parse`, once the segments are known to be well formed.
unfoldable pub from_segments : List Text → Result Key
unfolding make join
from_segments [] = err invalid_key
from_segments (kind ∷ []) = err invalid_key
from_segments (kind ∷ s ∷ rest) = make kind (join slash (s ∷ rest))

abbrev pub stripped : Text → Text
stripped raw = strip (λ c. c == slash) (strip is_space raw)

-- The checks of `parse` on the stripped text, and the key that it names.
unfoldable pub parse_stripped : Text → Result Key
parse_stripped t =
    if is_nil t || ltb max_length (length t) || contains b'\\' t
    then err invalid_key
    else check_segments (split slash t) >> from_segments (split slash t)

-- `Key.parse` of a text; of a `Key` it is the identity.
unfoldable pub parse : Text → Result Key
parse raw = parse_stripped (stripped raw)

unfoldable pub str : Key → Text
str k = k.kind ++ slash ∷ k.path

unfoldable pub segments : Key → List Text
unfolding split
segments k = k.kind ∷ split slash k.path

unfoldable pub object_prefix : Key → Text
object_prefix k = k.kind ++ slash ∷ (k.path ++ slash ∷ [])

unfoldable pub hub_repo_id : Key → Option Text
unfolding Text-discrete
hub_repo_id k = if some_of (same k.kind) hub_kinds then some k.path else none

-- What `Path.joinpath` takes from a segment: it drops empty ones and `.`.
unfoldable pub is_step : Text → Bool
unfolding Text-discrete
is_step s = not (is_nil s || same s (text "."))

-- A path is its components from the file system's root.
unfoldable pub local_path : List Text → Key → List Text
unfolding segments is_step
local_path root k = root ++ keep is_step (segments k)

unfoldable pub child : Key → List Text → Result Key
unfolding str join parse
child k parts = parse (join slash (str k ∷ parts))

unfoldable pub require_not_experiment_output : Key → Result Key
unfolding Text-discrete
require_not_experiment_output k = if same k.kind (text "runs") then err protected else ok k

parse_plain :
    parse (text " /models/unsloth/Qwen2.5/ ")
    ≡ ok (record { kind = text "models"; path = text "unsloth/Qwen2.5" })
unfolding parse parse_stripped check_segments from_segments strip split contains
parse_plain = refl

parse_relative : parse (text "models/../x") ≡ err invalid_key
unfolding parse parse_stripped check_segments from_segments strip split contains
parse_relative = refl
