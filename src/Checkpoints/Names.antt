-- ===== src/Checkpoints/Names.antt =====
-- The names of lineages: `sanitize`, `validate` and `lineage_name` of nawat/checkpoints.py.
use nawat.Prelude.{
  ℕ, zero, suc, ◌≤◌, ◌≡◌, refl, Bool, true, false, ◌&&◌, ◌||◌, List, [], ◌∷◌, ◌++◌, ◌==◌,
  if◌then◌else◌, length, length-append, all_of, if_ind, arith,
}
use nawat.Prelude.Text.{Text, text, lstrip, rstrip, rstrip_cons, strip, join, sort_texts, starts_in}
use nawat.Errors.{invalid_key, Result, ok, err, ◌>>=◌}
use nawat.Keys.{is_alnum}

-- `[A-Za-z0-9._-]`
unfoldable pub is_word : ℕ → Bool
unfolding is_alnum
is_word c = is_alnum c || c == b'.' || c == b'_' || c == b'-'

-- `[A-Za-z0-9._-]{0,n}$`: `$` also matches before a newline that ends the text.
unfoldable pub matches_upto : ℕ → Text → Bool
matches_upto n [] = true
matches_upto zero (c ∷ []) = c == 10
matches_upto zero (c ∷ d ∷ s) = false
matches_upto (suc n) (c ∷ []) = is_word c || c == 10
matches_upto (suc n) (c ∷ d ∷ s) = is_word c && matches_upto n (d ∷ s)

-- `^[A-Za-z0-9][A-Za-z0-9._-]{0,n}$`
unfoldable pub matches_name : ℕ → Text → Bool
matches_name n [] = false
matches_name n (c ∷ s) = is_alnum c && matches_upto n s

unfoldable pub validate : Text → Result Text
validate name = if matches_name 95 name then ok name else err invalid_key

-- `_UNSAFE.sub("-", text)`: a dash for each run of other characters; the flag says that one has begun.
unfoldable pub replace_unsafe : Bool → Text → Text
replace_unsafe inside [] = []
replace_unsafe inside (c ∷ s) =
    let out = replace_unsafe true s in
    let on = replace_unsafe false s in
    if is_word c then c ∷ on else if inside then out else b'-' ∷ out

unfoldable pub take {ℓ} : {A : Type ℓ} → ℕ → List A → List A
take zero xs = []
take (suc n) [] = []
take (suc n) (x ∷ xs) = x ∷ take n xs

abbrev is_trimmed : ℕ → Bool
is_trimmed c = c == b'-' || c == b'.' || c == b'_'

abbrev or_run : Text → Text
or_run [] = text "run"
or_run (c ∷ s) = c ∷ s

unfoldable pub sanitize : Text → Text
sanitize t = or_run (take 64 (strip is_trimmed (replace_unsafe false t)))

-- `lineage_name(script, inputs)`, of the script's stem and name and the texts of its inputs; `hexdigest` is the SHA-256 of a text in hexadecimal.
unfoldable pub lineage_name : (Text → Text) → Text → Text → List Text → Result Text
lineage_name hexdigest stem name inputs =
    let material = join 10 (sort_texts inputs) in
    validate (sanitize stem ++ b'-' ∷ take 8 (hexdigest (name ++ 10 ∷ material)))

-- A path is its components.
unfoldable pub lineage_path : List Text → Text → Result (List Text)
lineage_path root name = validate name >>= λ valid. ok (root ++ valid ∷ [])

-- The checkpoint root is the one of the configuration.
unfoldable pub lineage_dir : List Text → Text → Result (List Text)
lineage_dir checkpoint_root name = lineage_path checkpoint_root name

matches_upto_lem :
    (n : ℕ) (s : Text) → all_of is_word s ≡ true → length s ≤ n → matches_upto n s ≡ true
unfolding matches_upto
matches_upto_lem n [] w h = refl
matches_upto_lem zero (c ∷ s) w h = ground arith
matches_upto_lem (suc n) (c ∷ []) w h = ground arith
matches_upto_lem (suc n) (c ∷ d ∷ s) w h = ground (arith, matches_upto_lem n (d ∷ s))

all_of-append :
    (s t : Text)
    → all_of is_word s ≡ true
    → all_of is_word t ≡ true
    → all_of is_word (s ++ t) ≡ true
all_of-append [] t a b = b
all_of-append (c ∷ s) t a b = ground (arith, all_of-append s t)

all_of-take : (n : ℕ) (s : Text) → all_of is_word s ≡ true → all_of is_word (take n s) ≡ true
unfolding take
all_of-take zero s a = refl
all_of-take (suc n) [] a = refl
all_of-take (suc n) (c ∷ s) a = ground (arith, all_of-take n s)

length-take-le : (n : ℕ) (s : Text) → length (take n s) ≤ n
unfolding take
length-take-le zero s = omega arith
length-take-le (suc n) [] = omega arith
length-take-le (suc n) (c ∷ s) = omega (arith, length-take-le n s)

dash_word : is_word b'-' ≡ true
unfolding is_word is_alnum
dash_word = refl

all_of-cons :
    (c : ℕ) (s : Text) → is_word c ≡ true → all_of is_word s ≡ true → all_of is_word (c ∷ s) ≡ true
all_of-cons c s h w = ground (arith, h, w)

all_of-replace_unsafe : (b : Bool) (s : Text) → all_of is_word (replace_unsafe b s) ≡ true
unfolding replace_unsafe
all_of-replace_unsafe b [] = refl
all_of-replace_unsafe b (c ∷ s) =
    if_ind (λ r. all_of is_word r ≡ true) (is_word c)
      (λ h. ground (arith, h, all_of-replace_unsafe false s))
      (λ h.
        if_ind (λ r. all_of is_word r ≡ true) b (λ g. all_of-replace_unsafe true s)
          (λ g. all_of-cons b'-' (replace_unsafe true s) dash_word (all_of-replace_unsafe true s)))

all_of-lstrip :
    (p : ℕ → Bool) (s : Text) → all_of is_word s ≡ true → all_of is_word (lstrip p s) ≡ true
unfolding lstrip
all_of-lstrip p [] a = refl
all_of-lstrip p (c ∷ s) a = ground (arith, all_of-lstrip p s)

starts_in-lstrip : (p : ℕ → Bool) (s : Text) → starts_in p (lstrip p s) ≡ false
unfolding lstrip starts_in
starts_in-lstrip p [] = refl
starts_in-lstrip p (c ∷ s) = ground (arith, starts_in-lstrip p s)

-- A text of name characters that starts with none of those that are trimmed.
abbrev IsName : Text → Type 0
IsName s = (all_of is_word s ≡ true) × (starts_in is_trimmed s ≡ false)

all_of-rstrip :
    (p : ℕ → Bool) (s : Text) → all_of is_word s ≡ true → all_of is_word (rstrip p s) ≡ true
unfolding rstrip
all_of-rstrip p [] a = refl
all_of-rstrip p (c ∷ s) a = go (rstrip p s) (all_of-rstrip p s (ground (arith, a)))
  where
    go : (r : Text) → all_of is_word r ≡ true → all_of is_word (rstrip_cons p c r) ≡ true
    go [] w = ground (arith, a)
    go (d ∷ r) w = ground (arith, a, w)

IsName-rstrip : (p : ℕ → Bool) (s : Text) → IsName s → IsName (rstrip p s)
unfolding rstrip starts_in
IsName-rstrip p [] h = h
IsName-rstrip p (c ∷ s) h = go (rstrip p s) (all_of-rstrip p s (ground (arith, h.0)))
  where
    go : (r : Text) → all_of is_word r ≡ true → IsName (rstrip_cons p c r)
    go [] w = ground (arith, h)
    go (d ∷ r) w = ground (arith, h, w)

IsName-take : (n : ℕ) (s : Text) → IsName s → IsName (take n s)
unfolding take starts_in
IsName-take zero s h = (refl, refl)
IsName-take (suc n) [] h = h
IsName-take (suc n) (c ∷ s) h = ground (arith, all_of-take n s)

alnum_first : (c : ℕ) → is_word c ≡ true → is_trimmed c ≡ false → is_alnum c ≡ true
unfolding is_word
alnum_first c h t = ground arith

shape :
    (r : Text)
    → IsName r
    → length r ≤ 64
    → (c : ℕ) × (s : Text) × (or_run r ≡ c ∷ s)
      × (is_alnum c ≡ true)
      × (all_of is_word s ≡ true)
      × (length s ≤ 63)
unfolding is_alnum starts_in is_word
shape [] h l = (b'r', text "un", refl, refl, refl, omega arith)
shape (c ∷ s) h l =
    (c, s, refl, alnum_first c (ground (arith, h.0)) h.1, ground (arith, h), omega (arith, l))

-- What `sanitize` returns: a letter or digit and up to 63 name characters.
sanitize-shape :
    (t : Text)
    → (c : ℕ) × (s : Text) × (sanitize t ≡ c ∷ s)
      × (is_alnum c ≡ true)
      × (all_of is_word s ≡ true)
      × (length s ≤ 63)
unfolding sanitize strip
sanitize-shape t =
    shape (take 64 (rstrip is_trimmed (lstrip is_trimmed (replace_unsafe false t))))
      (IsName-take 64 _ (
        IsName-rstrip is_trimmed _ (
          all_of-lstrip is_trimmed _ (all_of-replace_unsafe false t),
          starts_in-lstrip is_trimmed (replace_unsafe false t),
        )))
      (length-take-le 64 _)

joined :
    (c : ℕ) (s d : Text)
    → is_alnum c ≡ true
    → all_of is_word s ≡ true
    → length s ≤ 63
    → all_of is_word d ≡ true
    → matches_name 95 (c ∷ s ++ b'-' ∷ take 8 d) ≡ true
unfolding matches_name
joined c s d first w l h =
    let tail : all_of is_word (b'-' ∷ take 8 d) ≡ true =
      all_of-cons b'-' (take 8 d) dash_word (all_of-take 8 d h) in
    let long = length-append s (b'-' ∷ take 8 d) in
    ground (
      arith,
      first,
      matches_upto_lem 95 (s ++ b'-' ∷ take 8 d) (all_of-append s (b'-' ∷ take 8 d) w tail)
          (omega (arith, long, l, length-take-le 8 d)),
    )

-- The name that `lineage_name` forms always passes `validate`: it returns the sanitized stem, a dash and the first eight characters of the digest, if the digest is of name characters.
pub lineage_name-ok :
    (hexdigest : Text → Text)
    → ((t : Text) → all_of is_word (hexdigest t) ≡ true)
    → (stem name : Text) (inputs : List Text)
    → lineage_name hexdigest stem name inputs
      ≡ ok (sanitize stem ++ b'-' ∷ take 8 (hexdigest (name ++ 10 ∷ join 10 (sort_texts inputs))))
unfolding lineage_name validate
lineage_name-ok hexdigest hex stem name inputs = rw matched refl
  where
    matched :
        matches_name 95
          (sanitize stem ++ b'-' ∷ take 8 (hexdigest (name ++ 10 ∷ join 10 (sort_texts inputs))))
        ≡ true
    matched =
        let (c, s, e, first, w, l) = sanitize-shape stem in
        rw e (
          joined c s (hexdigest (name ++ 10 ∷ join 10 (sort_texts inputs))) first w l
            (hex (name ++ 10 ∷ join 10 (sort_texts inputs))))
