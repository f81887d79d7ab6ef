-- ===== src/Examples/Keys.antt =====
-- nawat/keys.py on concrete keys.
use nawat.Prelude.{◌≡◌, ◌↔◌, refl, false, List, [], ◌∷◌, ◌++◌}
use nawat.Prelude.Text.{Text, text, strip, split, ends_in, join, contains}
use nawat.Errors.{ok, err, invalid_key}
use nawat.Keys.{
  Key, parse, parse_stripped, check_segments, from_segments, str, segments, object_prefix,
  local_path, child,
}
use nawat.Keys.Safety.{IsSafe, parse-IsSafe}
use nawat.Keys.RoundTrip.{parse-str, is_newline}
use nawat.Keys.Prefix.{object_prefix-nested, local_path-injective}

abbrev model : Key
model = record { kind = text "models"; path = text "unsloth/Qwen" }

abbrev adapter : Key
adapter = record { kind = text "models"; path = text "unsloth/Qwen/adapter" }

program : Unit {0}
unfolding parse parse_stripped check_segments from_segments strip split contains str segments
    object_prefix local_path child ends_in join
program = tt

parse-model : parse (text " models/unsloth/Qwen/ ") ≡ ok model
unfolding program
parse-model = refl

parse-adapter : parse (text "models/unsloth/Qwen/adapter") ≡ ok adapter
unfolding program
parse-adapter = refl

parse_relative : parse (text "models/../x") ≡ err invalid_key
unfolding program
parse_relative = refl

child-adapter : child model (text "adapter" ∷ []) ≡ ok adapter
unfolding program
child-adapter = refl

parse-IsSafe_example : IsSafe model
parse-IsSafe_example = parse-IsSafe (text " models/unsloth/Qwen/ ") model parse-model

parse-str_example : (parse (str model) ≡ ok model) ↔ (ends_in is_newline (str model) ≡ false)
parse-str_example = parse-str (text " models/unsloth/Qwen/ ") model parse-model

-- A key whose last segment ends in a newline: it parses, and its own text gives another key.
parse_newline :
    parse (text "models/a" ++ 10 ∷ text "/")
    ≡ ok (record { kind = text "models"; path = text "a" ++ 10 ∷ [] })
unfolding program
parse_newline = refl

prefix_nested : object_prefix model ++ text "adapter/" ≡ object_prefix adapter
unfolding program
prefix_nested = refl

object_prefix-nested_example : (more : List Text) × (segments adapter ≡ segments model ++ more)
object_prefix-nested_example =
    object_prefix-nested model adapter (text "adapter/")
      (parse-IsSafe (text " models/unsloth/Qwen/ ") model parse-model)
      (parse-IsSafe (text "models/unsloth/Qwen/adapter") adapter parse-adapter) prefix_nested

local_path-injective_example : model ≡ model
local_path-injective_example =
    local_path-injective (text "srv" ∷ text "cache" ∷ []) model model
      (parse-IsSafe (text " models/unsloth/Qwen/ ") model parse-model)
      (parse-IsSafe (text " models/unsloth/Qwen/ ") model parse-model) refl
