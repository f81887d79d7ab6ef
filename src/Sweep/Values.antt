-- ===== src/Sweep/Values.antt =====
-- `split_values` of nawat/lab/sweep.py on a text without quotes and brackets.
use nawat.Prelude.{
  ℕ, ◌≡◌, ◌≢◌, refl, sym, ap, ◌∙◌, Bool, true, false, not, ◌||◌, List, [], ◌∷◌, ◌++◌, map,
  append-nil, append_assoc, none, if◌then◌else◌, ◌==◌, keep, keep-append, is_nil, some_of,
  Bool-cases, inl, inr, arith,
}
use nawat.Prelude.Text.{Text, strip, lstrip, rstrip, is_space, split, split-ne-nil, cons_head}
use nawat.Sweep.{
  Splitting, is_quote, opens, closes, take_plain, take_char, take_chars, nothing_split, values_of,
  split_values,
}

-- Whether a character is a quote or a bracket.
abbrev pub special : ℕ → Bool
special c = is_quote c || (opens c || closes c)

-- The state between two characters of a text without them.
abbrev between : List Text → Text → Splitting
between out current = record { out = out; opened = 0; closed = 0; quote = none; current = current }

-- The first part continues the text at hand.
abbrev onto : Text → List Text → List Text
onto current [] = current ∷ []
onto current (p ∷ ps) = (current ++ p) ∷ ps

take_plain_comma :
    (c : ℕ) (out : List Text) (current : Text)
    → special c ≡ false
    → (c == b',') ≡ true
    → take_plain c (between out current) ≡ between (out ++ strip is_space current ∷ []) []
unfolding take_plain
take_plain_comma c out current h k = ground (arith, h, k)

split_comma : (c : ℕ) (s : Text) → (c == b',') ≡ true → split b',' (c ∷ s) ≡ [] ∷ split b',' s
unfolding split
split_comma c s k = ground (arith, k)

split_other :
    (c : ℕ) (s : Text) → (c == b',') ≡ false → split b',' (c ∷ s) ≡ cons_head c (split b',' s)
unfolding split
split_other c s k = ground (arith, k)

take_plain_other :
    (c : ℕ) (out : List Text) (current : Text)
    → special c ≡ false
    → (c == b',') ≡ false
    → take_plain c (between out current) ≡ between out (current ++ c ∷ [])
unfolding take_plain
take_plain_other c out current h k = ground (arith, h, k)

onto-cons_head :
    (current : Text) (c : ℕ) (ps : List Text)
    → onto (current ++ c ∷ []) ps ≡ onto current (cons_head c ps)
onto-cons_head current c [] = refl
onto-cons_head current c (p ∷ ps) = ap (λ t. t ∷ ps) (append_assoc current (c ∷ []) p)

onto_nil : (ps : List Text) → ps ≢ [] → onto [] ps ≡ ps
onto_nil [] h = absurd (h refl)
onto_nil (p ∷ ps) h = refl

abbrev all_values : Splitting → List Text
all_values s = s.out ++ strip is_space s.current ∷ []

onto_comma :
    (out : List Text) (current s : Text)
    → (out ++ strip is_space current ∷ []) ++ map (strip is_space) (onto [] (split b',' s))
      ≡ out ++ map (strip is_space) (onto current ([] ∷ split b',' s))
onto_comma out current s =
    ap (λ ps. (out ++ strip is_space current ∷ []) ++ map (strip is_space) ps)
      (onto_nil (split b',' s) (split-ne-nil b',' s))
    ∙ append_assoc out (strip is_space current ∷ []) (map (strip is_space) (split b',' s))
    ∙ ap (λ t. out ++ strip is_space t ∷ map (strip is_space) (split b',' s))
        (sym (append-nil current))

take_chars-split :
    (s : Text) (out : List Text) (current : Text)
    → some_of special s ≡ false
    → all_values (take_chars s (between out current))
      ≡ out ++ map (strip is_space) (onto current (split b',' s))
unfolding take_chars take_char split
take_chars-split [] out current h =
    ap (λ t. out ++ strip is_space t ∷ []) (sym (append-nil current))
take_chars-split (c ∷ s) out current h =
    let plain : special c ≡ false = ground (arith, h) in
    let rest : some_of special s ≡ false = ground (arith, h) in
    elim (Bool-cases (c == b',')) [
      | inl e ↦
          ap (λ t. all_values (take_chars s t)) (take_plain_comma c out current plain e)
          ∙ take_chars-split s (out ++ strip is_space current ∷ []) [] rest
          ∙ onto_comma out current s
          ∙ ap (λ ps. out ++ map (strip is_space) (onto current ps)) (sym (split_comma c s e))
      | inr e ↦
          ap (λ t. all_values (take_chars s t)) (take_plain_other c out current plain e)
          ∙ take_chars-split s out (current ++ c ∷ []) rest
          ∙ ap (λ ps. out ++ map (strip is_space) ps) (onto-cons_head current c (split b',' s))
          ∙ ap (λ ps. out ++ map (strip is_space) (onto current ps)) (sym (split_other c s e))
    ]

abbrev pub non_empty : Text → Bool
non_empty v = not (is_nil v)

keep-values_of : (s : Splitting) → keep non_empty (values_of s) ≡ keep non_empty (all_values s)
unfolding strip lstrip rstrip
keep-values_of s = ends s.current
  where
    ends :
        (t : Text)
        → keep non_empty (if is_nil t then s.out else s.out ++ strip is_space t ∷ [])
          ≡ keep non_empty (s.out ++ strip is_space t ∷ [])
    ends [] =
        ap (keep non_empty) (sym (append-nil s.out))
        ∙ keep-append non_empty s.out []
        ∙ sym (keep-append non_empty s.out ([] ∷ []))
    ends (c ∷ t) = refl

-- Of a text without quotes and brackets, `split_values` gives the parts between commas, each stripped, without the empty ones.
pub split_values-split :
    (s : Text)
    → some_of special s ≡ false
    → split_values s ≡ keep non_empty (map (strip is_space) (split b',' s))
unfolding split_values
split_values-split s h =
    keep-values_of (take_chars s nothing_split)
    ∙ ap (keep non_empty) (take_chars-split s [] [] h)
    ∙ ap (λ ps. keep non_empty (map (strip is_space) ps))
        (onto_nil (split b',' s) (split-ne-nil b',' s))
