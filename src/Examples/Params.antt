-- ===== src/Examples/Params.antt =====
-- nawat/lab/params.py on a block with two parameters; floats are whole numbers here.
use nawat.Prelude.{ℕ, ◌≡◌, refl, true, List, [], ◌∷◌, All, Option, none, some, if◌then◌else◌, ◌==◌}
use nawat.Prelude.Text.{Text, text, text_eq, Text-discrete, strip, lstrip, rstrip, is_space}
use nawat.Prelude.Dict
use nawat.Prelude.Dict.{Dict}
use nawat.Errors.{ok}
use nawat.Params.{
  Value, whole, str, pos, Python, P, Resolved, coerce, kind, convert, check_choices, parse_text,
  set, set_defaults, override, apply_overrides, apply_layers, resolve,
}
use nawat.Params.Kinds.{Coerced, coerce-Coerced}
use nawat.Params.Layers.{Shown, resolve-Shown, resolve-declared}

abbrev digits : Text → Option (Value ℕ)
digits [] = none
digits (c ∷ s) = if c == b'8' then some (whole (pos 8)) else none

abbrev python : Python ℕ
python = record {
  truncate = λ x. ok (some (pos x));
  float = λ n. ok 1;
  zero_one = λ x. none;
  lower = λ s. s;
  loads = digits;
  show = λ v. text "value";
  equal = λ a b. true;
}

abbrev epochs : P ℕ
epochs = record { default = whole (pos 1); choices = none; type = none }

abbrev schedule : P ℕ
schedule = record {
  default = str (text "linear");
  choices = some (str (text "linear") ∷ str (text "cosine") ∷ []);
  type = none;
}

abbrev declared : Dict Text (P ℕ)
declared = (text "epochs", epochs) ∷ (text "schedule", schedule) ∷ []

abbrev layers : List (Text × Dict Text (Value ℕ))
layers =
    (text "preset", (text "epochs", whole (pos 3)) ∷ [])
    ∷ (text "--set", (text "epochs", str (text "8")) ∷ [])
    ∷ []

abbrev out : Resolved python
out = record {
  values = (text "epochs", whole (pos 8)) ∷ (text "schedule", str (text "linear")) ∷ [];
  sources = (text "epochs", text "--set") ∷ (text "schedule", text "default") ∷ [];
}

resolved : resolve python declared layers ≡ ok out
unfolding resolve set_defaults set apply_layers apply_overrides override coerce kind convert
    check_choices parse_text strip lstrip rstrip is_space Text-discrete Dict.get Dict.put
resolved = refl

found : Dict.get (text "epochs") declared ≡ some epochs
unfolding Dict.get Text-discrete
found = refl

apart : Dict.get (text "epochs") ((text "schedule", schedule) ∷ []) ≡ none
unfolding Dict.get Text-discrete
apart = refl

alone : Dict.get {V = P ℕ} (text "schedule") [] ≡ none
unfolding Dict.get
alone = refl

coerce-Coerced_example : Coerced python epochs (coerce python epochs (str (text "8")))
coerce-Coerced_example = coerce-Coerced python epochs (str (text "8"))

resolve-Shown_example :
    Shown python declared (text "epochs") epochs (some (text "--set", str (text "8"))) out
unfolding Text-discrete
resolve-Shown_example =
    resolve-Shown python declared layers out (text "epochs") epochs (apart, (alone, tt)) resolved
      found

resolve-declared_example :
    All
      (λ (l : Text × Dict Text (Value ℕ)).
        All (λ (o : Text × Value ℕ). (p : P ℕ) × (Dict.get o.0 declared ≡ some p)) l.1)
      layers
resolve-declared_example = resolve-declared python declared layers out resolved
