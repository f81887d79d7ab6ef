-- ===== src/Sweep.antt =====
-- nawat/lab/sweep.py: several values for the parameters of a preset, and one approval for all of them.
pub mod Values
pub mod Grid
use nawat.Prelude.{
  ℕ, ◌+◌, ◌≡◌, Bool, true, false, not, ◌&&◌, ◌||◌, List, [], ◌∷◌, ◌++◌, map, Option, none, some,
  if◌then◌else◌, ◌==◌, keep, is_nil,
}
use nawat.Prelude.Text.{Text, text, strip, is_space, sort_texts}

-- The variables of `split_values`; `depth` is the number of brackets opened less that of brackets closed.
pub record Splitting : Type 0 where
  pub out : List Text
  pub opened : ℕ
  pub closed : ℕ
  pub quote : Option ℕ
  pub current : Text

abbrev pub is_quote : ℕ → Bool
is_quote c = c == b'"' || c == b'\''

abbrev pub opens : ℕ → Bool
opens c = c == b'[' || c == b'{'

abbrev pub closes : ℕ → Bool
closes c = c == b']' || c == b'}'

abbrev pub put : ℕ → Splitting → Splitting
put c s = record s { current = s.current ++ c ∷ [] }

-- One character outside quotes.
unfoldable pub take_plain : ℕ → Splitting → Splitting
take_plain c s =
    if is_quote c
    then put c (record s { quote = some c })
    else (if opens c
        then put c (record s { opened = s.opened + 1 })
        else (if closes c
            then put c (record s { closed = s.closed + 1 })
            else (if c == b',' && s.opened == s.closed
                then record s { out = s.out ++ strip is_space s.current ∷ []; current = [] }
                else put c s)))

unfoldable pub take_char : ℕ → Splitting → Option ℕ → Splitting
take_char c s none = take_plain c s
take_char c s (some q) = put c (record s { quote = if c == q then none else some q })

-- The loop of `split_values`.
unfoldable pub take_chars : Text → Splitting → Splitting
take_chars [] s = s
take_chars (c ∷ rest) s = take_chars rest (take_char c s s.quote)

abbrev pub nothing_split : Splitting
nothing_split = record { out = []; opened = 0; closed = 0; quote = none; current = [] }

abbrev pub values_of : Splitting → List Text
values_of s = if is_nil s.current then s.out else s.out ++ strip is_space s.current ∷ []

unfoldable pub split_values : Text → List Text
split_values s = keep (λ v. not (is_nil v)) (values_of (take_chars s nothing_split))

module _ {ℓ} {A : Type ℓ} where
  unfoldable pub with_each : List A → List (List A) → List (List A)
  with_each [] rests = []
  with_each (v ∷ axis) rests = map (λ c. v ∷ c) rests ++ with_each axis rests

  -- `itertools.product`, which gives the combinations of the axes in order.
  unfoldable pub product : List (List A) → List (List A)
  product [] = [] ∷ []
  product (axis ∷ axes) = with_each axis (product axes)

-- `combined_hash`, with the digest of the JSON text of a list as a parameter.
unfoldable pub combined_hash : (List Text → Text) → List Text → Text
combined_hash digest hashes = digest (sort_texts hashes)
