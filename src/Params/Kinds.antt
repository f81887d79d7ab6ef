-- ===== src/Params/Kinds.antt =====
-- What `coerce` of nawat/lab/params.py returns and raises.
use nawat.Prelude.{
  ◌≡◌, refl, sym, subst, Bool, true, false, List, Option, none, some, ◌⊎◌, inl, inr, Bool-cases,
  if_ind, some_of, arith,
}
use nawat.Errors.{Error, param_error, Result, ok, err, ◌>>=◌}
use nawat.Params.{
  ℤ, Value, null, boolean, whole, real, str, seq, table, Python, P, Kind, any_kind, bool_kind,
  int_kind, float_kind, str_kind, list_kind, dict_kind, kind, bit, convert, check_choices, coerce,
  boolean_or, whole_or, is_null, read_text,
}

-- Whether a value is of a declared type.
abbrev pub fits : {F : Type 0} → Kind → Value F → Bool
fits any_kind v = true
fits bool_kind (boolean b) = true
fits int_kind (whole n) = true
fits float_kind (real x) = true
fits str_kind (str s) = true
fits list_kind (seq vs) = true
fits dict_kind (table d) = true
fits _ _ = false

module _ {F : Type 0} (python : Python F) where
  -- Whether a value is one of the declared choices, if there are any.
  abbrev pub is_choice : Option (List (Value F)) → Value F → Bool
  is_choice none v = true
  is_choice (some choices) v = some_of (python.equal v) choices

  -- What can come of a conversion: a value of the type, an error of the parameter, or what Python itself raised.
  pub data Converted (k : Kind) : Result (Value F) → Type 0 where
    good : {v : Value F} → fits k v ≡ true → Converted k (ok v)
    refused : Converted k (err param_error)
    truncating : {e : Error} (x : F) → python.truncate x ≡ err e → Converted k (err e)
    floating : {e : Error} (n : ℤ) → python.float n ≡ err e → Converted k (err e)

  boolean_or-Converted : (o : Option Bool) → Converted bool_kind (boolean_or python o)
  boolean_or-Converted none = refused
  boolean_or-Converted (some b) = good refl

  whole_or-Converted :
      (x : F) (r : Result (Option ℤ))
      → python.truncate x ≡ r
      → Converted int_kind (r >>= whole_or python)
  whole_or-Converted x (err e) h = truncating x h
  whole_or-Converted x (ok none) h = refused
  whole_or-Converted x (ok (some n)) h = good refl

  float_of-Converted :
      (n : ℤ) (r : Result F) → python.float n ≡ r → Converted float_kind (r >>= λ x. ok (real x))
  float_of-Converted n (err e) h = floating n h
  float_of-Converted n (ok x) h = good refl

  convert-Converted : (k : Kind) (v : Value F) → Converted k (convert python k v)
  unfolding convert
  convert-Converted any_kind v = good refl
  convert-Converted bool_kind (boolean b) = good refl
  convert-Converted bool_kind (whole n) = boolean_or-Converted (bit n)
  convert-Converted bool_kind (real x) = boolean_or-Converted (python.zero_one x)
  convert-Converted bool_kind _ = refused
  convert-Converted int_kind (whole n) = good refl
  convert-Converted int_kind (real x) = whole_or-Converted x (python.truncate x) refl
  convert-Converted int_kind _ = refused
  convert-Converted float_kind (whole n) = float_of-Converted n (python.float n) refl
  convert-Converted float_kind (real x) = good refl
  convert-Converted float_kind _ = refused
  convert-Converted str_kind (str s) = good refl
  convert-Converted str_kind _ = good refl
  convert-Converted list_kind (seq vs) = good refl
  convert-Converted list_kind _ = good refl
  convert-Converted dict_kind (table d) = good refl
  convert-Converted dict_kind _ = refused

  -- What `coerce` can come to: `None`; a value of the declared type and among the declared choices; an error of the parameter; or what `int()` or `float()` raises.
  pub data Coerced (p : P F) : Result (Value F) → Type 0 where
    is_none : Coerced p (ok null)
    is_good :
        {v : Value F} → fits (kind p) v ≡ true → is_choice p.choices v ≡ true → Coerced p (ok v)
    is_refused : Coerced p (err param_error)
    is_truncating : {e : Error} (x : F) → python.truncate x ≡ err e → Coerced p (err e)
    is_floating : {e : Error} (n : ℤ) → python.float n ≡ err e → Coerced p (err e)

  check_choices_lem :
      (o : Option (List (Value F))) (v : Value F)
      → (check_choices python o v ≡ ok v) × (is_choice o v ≡ true)
        ⊎ (check_choices python o v ≡ err param_error)
  unfolding check_choices
  check_choices_lem none v = inl (refl, refl)
  check_choices_lem (some choices) v = elim (Bool-cases (some_of (python.equal v) choices)) [
    | inl e ↦ inl (ground (arith, e), e)
    | inr e ↦ inr (ground (arith, e))
  ]

  chosen-Coerced :
      (p : P F) (r : Result (Value F))
      → Converted (kind p) r
      → Coerced p (r >>= check_choices python p.choices)
  chosen-Coerced p (ok v) (good f) = elim (check_choices_lem p.choices v) [
    | inl (e, c) ↦ subst (Coerced p) (sym e) (is_good f c)
    | inr e ↦ subst (Coerced p) (sym e) is_refused
  ]
  chosen-Coerced p (err e) refused = is_refused
  chosen-Coerced p (err e) (truncating x h) = is_truncating x h
  chosen-Coerced p (err e) (floating n h) = is_floating n h

  -- Whatever value `coerce` is given: it returns `None`, or a value that is of the declared type and, if choices are declared, among them; or it raises the error of the parameter, or what `int` or `float` raises for a float or a whole number.
  pub coerce-Coerced : (p : P F) (v : Value F) → Coerced p (coerce python p v)
  unfolding coerce
  coerce-Coerced p v =
      if_ind (Coerced p) (is_null (read_text python (kind p) v)) (λ e. is_none)
        (λ e. chosen-Coerced p _ (convert-Converted (kind p) (read_text python (kind p) v)))
