-- ===== src/Params.antt =====
-- nawat/lab/params.py: declared parameters, and the values that layers of overrides give them.
pub mod Kinds
pub mod Layers
use nawat.Prelude.{
  ℕ, ◌+◌, ◌≡◌, Bool, true, false, not, ◌&&◌, ◌||◌, List, [], ◌∷◌, ◌++◌, Option, none, some,
  if◌then◌else◌, ◌==◌, same, some_of,
}
use nawat.Prelude.Text.{Text, text, text_eq, Text-discrete, strip, is_space, starts_with}
use nawat.Prelude.Dict
use nawat.Prelude.Dict.{Dict}
use nawat.Errors.{Error, param_error, value_error, Result, ok, err, ◌>>=◌}

pub data ℤ : Type 0 where
  pos : ℕ → ℤ
  negsuc : ℕ → ℤ

-- A value of Python that TOML, JSON or the command line gives. A tuple is a `seq`, as a list is; `F` is the type of floats.
mutual
  pub data Value (F : Type 0) : Type 0 where
    null : Value F
    boolean : Bool → Value F
    whole : ℤ → Value F
    real : F → Value F
    str : Text → Value F
    seq : Values F → Value F
    table : Fields F → Value F

  pub data Values (F : Type 0) : Type 0 where
    no_values : Values F
    value : Value F → Values F → Values F

  pub data Fields (F : Type 0) : Type 0 where
    no_fields : Fields F
    field : Text → Value F → Fields F → Fields F

-- What Python does with floats and texts: `int(x)` if it is equal to `x`, where it may raise; `float(n)`, which may too; `x in (0, 1)` with the Boolean that it is; `str.lower`; `json.loads`, nothing if it raises ValueError; `str(value)` of a value that is not a text; and `==`.
pub record Python (F : Type 0) : Type 0 where
  pub truncate : F → Result (Option ℤ)
  pub float : ℤ → Result F
  pub zero_one : F → Option Bool
  pub lower : Text → Text
  pub loads : Text → Option (Value F)
  pub show : Value F → Text
  pub equal : Value F → Value F → Bool

-- The types that a parameter is declared with; `any` for none of them.
pub data Kind : Type 0 where
  any_kind bool_kind int_kind float_kind str_kind list_kind dict_kind : Kind

-- `P`, without its line of help.
pub record P (F : Type 0) : Type 0 where
  pub default : Value F
  pub choices : Option (List (Value F))
  pub type : Option Kind

abbrev pub type_of : {F : Type 0} → Value F → Kind
type_of null = any_kind
type_of (boolean b) = bool_kind
type_of (whole n) = int_kind
type_of (real x) = float_kind
type_of (str s) = str_kind
type_of (seq vs) = list_kind
type_of (table d) = dict_kind

abbrev pub is_null : {F : Type 0} → Value F → Bool
is_null null = true
is_null _ = false

-- `P.kind`
unfoldable pub kind : {F : Type 0} → P F → Kind
kind p = elim p.type [ some k ↦ k | none ↦ type_of p.default ]

-- `0` and `1` as Booleans.
abbrev pub bit : ℤ → Option Bool
bit (pos n) = if n == 0 then some false else (if n == 1 then some true else none)
bit (negsuc n) = none

module _ {F : Type 0} (python : Python F) where
  -- `_parse_text`
  unfoldable pub parse_text : Text → Value F
  unfolding Text-discrete
  parse_text s =
      let stripped = strip is_space s in
      let lowered = python.lower stripped in
      if some_of (same lowered) (text "true" ∷ text "yes" ∷ text "on" ∷ [])
      then boolean true
      else (if some_of (same lowered) (text "false" ∷ text "no" ∷ text "off" ∷ [])
          then boolean false
          else (if some_of (same lowered) (text "none" ∷ text "null" ∷ [])
              then null
              else elim (python.loads stripped) [ some v ↦ v | none ↦ str stripped ]))

  abbrev pub is_str_kind : Kind → Bool
  is_str_kind str_kind = true
  is_str_kind _ = false

  -- A text for a parameter that is not one is read as a value.
  abbrev pub read_text : Kind → Value F → Value F
  read_text k (str s) = if is_str_kind k then str s else parse_text s
  read_text k v = v

  abbrev pub boolean_or : Option Bool → Result (Value F)
  boolean_or (some b) = ok (boolean b)
  boolean_or none = err param_error

  abbrev pub whole_or : Option ℤ → Result (Value F)
  whole_or (some n) = ok (whole n)
  whole_or none = err param_error

  abbrev pub to_bool : Value F → Result (Value F)
  to_bool (boolean b) = ok (boolean b)
  to_bool (whole n) = boolean_or (bit n)
  to_bool (real x) = boolean_or (python.zero_one x)
  to_bool _ = err param_error

  abbrev pub to_int : Value F → Result (Value F)
  to_int (whole n) = ok (whole n)
  to_int (real x) = python.truncate x >>= whole_or
  to_int _ = err param_error

  abbrev pub to_float : Value F → Result (Value F)
  to_float (whole n) = python.float n >>= λ x. ok (real x)
  to_float (real x) = ok (real x)
  to_float _ = err param_error

  abbrev pub to_str : Value F → Value F
  to_str (str s) = str s
  to_str v = str (python.show v)

  abbrev pub to_list : Value F → Value F
  to_list (seq vs) = seq vs
  to_list v = seq (value v no_values)

  abbrev pub to_dict : Value F → Result (Value F)
  to_dict (table d) = ok (table d)
  to_dict _ = err param_error

  -- A value that is not `None`, by the declared type.
  unfoldable pub convert : Kind → Value F → Result (Value F)
  convert any_kind v = ok v
  convert bool_kind v = to_bool v
  convert int_kind v = to_int v
  convert float_kind v = to_float v
  convert str_kind v = ok (to_str v)
  convert list_kind v = ok (to_list v)
  convert dict_kind v = to_dict v

  unfoldable pub check_choices : Option (List (Value F)) → Value F → Result (Value F)
  check_choices none v = ok v
  check_choices (some choices) v =
      if some_of (python.equal v) choices then ok v else err param_error

  abbrev pub coerce_read : P F → Value F → Result (Value F)
  coerce_read p v = if is_null v then ok null else (convert (kind p) v >>= check_choices p.choices)

  -- `P.coerce`
  unfoldable pub coerce : P F → Value F → Result (Value F)
  coerce p v = coerce_read p (read_text (kind p) v)

  -- `Resolved`
  pub record Resolved : Type 0 where
    pub values : Dict Text (Value F)
    pub sources : Dict Text Text

  unfoldable pub set : Text → Text → Resolved → Value F → Resolved
  set name source out v = record {
    values = Dict.put name v out.values;
    sources = Dict.put name source out.sources;
  }

  abbrev pub coerce_default : P F → Value F → Result (Value F)
  coerce_default p v = if is_null v then ok null else coerce p v

  -- The loop of `resolve` over the declared parameters.
  unfoldable pub set_defaults : Dict Text (P F) → Resolved → Result Resolved
  set_defaults [] out = ok out
  set_defaults ((name, p) ∷ rest) out =
      coerce_default p p.default >>= λ v. set_defaults rest (set name (text "default") out v)

  unfoldable pub override : Text → Text → Value F → Resolved → Option (P F) → Result Resolved
  override source name v out none = err param_error
  override source name v out (some p) = coerce p v >>= λ w. ok (set name source out w)

  -- The loop over the overrides of a layer.
  unfoldable pub apply_overrides :
      Dict Text (P F) → Text → Dict Text (Value F) → Resolved → Result Resolved
  apply_overrides declared source [] out = ok out
  apply_overrides declared source ((name, v) ∷ rest) out =
      override source name v out (Dict.get name declared) >>= apply_overrides declared source rest

  unfoldable pub apply_layers :
      Dict Text (P F) → List (Text × Dict Text (Value F)) → Resolved → Result Resolved
  apply_layers declared [] out = ok out
  apply_layers declared ((source, overrides) ∷ rest) out =
      apply_overrides declared source overrides out >>= apply_layers declared rest

  unfoldable pub resolve : Dict Text (P F) → List (Text × Dict Text (Value F)) → Result Resolved
  resolve declared layers =
      set_defaults declared (record { values = []; sources = [] }) >>= apply_layers declared layers

  -- Reading a parameter of `Params`: `p.name` and `p[name]`; the AttributeError for a name that begins with `__` is `value_error`.
  unfoldable pub read : Text → Dict Text (Value F) → Result (Value F)
  read name values = elim (Dict.get name values) [
    | some v ↦ ok v
    | none ↦ if starts_with (text "__") name then err value_error else err param_error
  ]
