-- ===== src/Prelude/Text.antt =====
-- Text as a list of code points: the equality and the methods of Python's `str` that are used.
use nawat.Prelude.Tests.{ltb, leb, ◌==◌, if◌then◌else◌, Eq, Bool-cases}
use nawat.Prelude.Lists.{length, some_of, is_nil, All}
use Prim.Native.Nat.{ℕ, suc, ◌≤◌}
use Prim.Native.Char.{code}
use Prim.Native.String.{String}
use mathlib.Core.Path.{◌≡◌, refl, ap, ◌∙◌, subst}
use mathlib.Core.Logic.{◌≢◌, inl, inr}
use mathlib.Core.Bool.{Bool, true, false, ◌&&◌, ◌||◌}
use mathlib.Core.List.{List, [], ◌∷◌, ◌++◌, reverse}
use native.Mathlib.Omega.{arith}
use native.Mathlib.Decide.{ℕ_discrete}

abbrev pub Text : Type 0
Text = List ℕ

-- The code points of a literal.
abbrev pub text : String → Text
text String.[] = []
text (String.◌∷◌ c s) = code c ∷ text s

unfoldable pub Text-discrete : Discrete Text
unfolding ℕ_discrete
Text-discrete = hlevel ℕ_discrete

instance abbrev pub text_eq : Eq Text
text_eq = record { discrete = Text-discrete }

instance abbrev pub nat_eq : Eq ℕ
nat_eq = record { discrete = ℕ_discrete }

-- `str.isspace` of one character.
unfoldable pub is_space : ℕ → Bool
is_space c =
    (leb 9 c && leb c 13)
    || (leb 28 c && leb c 32)
    || c == 133
    || c == 160
    || c == 5760
    || (leb 8192 c && leb c 8202)
    || c == 8232
    || c == 8233
    || c == 8239
    || c == 8287
    || c == 12288

-- `s.lstrip()`, `s.rstrip()` and `s.strip()` of the characters that pass a test.
unfoldable pub lstrip : (ℕ → Bool) → Text → Text
lstrip p [] = []
lstrip p (c ∷ s) = let rest = lstrip p s in if p c then rest else c ∷ s

abbrev pub rstrip_cons : (ℕ → Bool) → ℕ → Text → Text
rstrip_cons p c [] = if p c then [] else c ∷ []
rstrip_cons p c (d ∷ r) = c ∷ d ∷ r

unfoldable pub rstrip : (ℕ → Bool) → Text → Text
rstrip p [] = []
rstrip p (c ∷ s) = rstrip_cons p c (rstrip p s)

unfoldable pub strip : (ℕ → Bool) → Text → Text
unfolding lstrip rstrip is_space
strip p s = rstrip p (lstrip p s)

-- `s.split(sep)` and `sep.join(parts)` for a separator of one character.
abbrev pub cons_head : ℕ → List Text → List Text
cons_head c [] = (c ∷ []) ∷ []
cons_head c (p ∷ ps) = (c ∷ p) ∷ ps

unfoldable pub split : ℕ → Text → List Text
split sep [] = [] ∷ []
split sep (c ∷ s) = if c == sep then [] ∷ split sep s else cons_head c (split sep s)

unfoldable pub join : ℕ → List Text → Text
join sep [] = []
join sep (p ∷ []) = p
join sep (p ∷ q ∷ ps) = p ++ sep ∷ join sep (q ∷ ps)

-- `c in s`
unfoldable pub contains : ℕ → Text → Bool
contains c s = some_of (λ d. d == c) s

-- `s.startswith(prefix)`, `s.endswith(suffix)`
unfoldable pub starts_with : Text → Text → Bool
starts_with [] s = true
starts_with (c ∷ p) [] = false
starts_with (c ∷ p) (d ∷ s) = c == d && starts_with p s

unfoldable pub ends_with : Text → Text → Bool
unfolding starts_with
ends_with suffix s = starts_with (reverse suffix) (reverse s)

-- `a <= b` on text: by the first character that differs.
unfoldable pub text_le : Text → Text → Bool
text_le [] b = true
text_le (c ∷ a) [] = false
text_le (c ∷ a) (d ∷ b) = ltb c d || (c == d && text_le a b)

unfoldable pub insert_text : Text → List Text → List Text
unfolding text_le
insert_text t [] = t ∷ []
insert_text t (x ∷ xs) = if text_le t x then t ∷ x ∷ xs else x ∷ insert_text t xs

-- `sorted(texts)`
unfoldable pub sort_texts : List Text → List Text
unfolding insert_text
sort_texts [] = []
sort_texts (x ∷ xs) = insert_text x (sort_texts xs)

insert_text_ne : (t : Text) (xs : List Text) → is_nil (insert_text t xs) ≡ false
unfolding insert_text
insert_text_ne t [] = refl
insert_text_ne t (x ∷ xs) = ground arith

pub is_nil-sort_texts : (xs : List Text) → is_nil (sort_texts xs) ≡ is_nil xs
unfolding sort_texts
is_nil-sort_texts [] = refl
is_nil-sort_texts (x ∷ xs) = insert_text_ne x (sort_texts xs)

-- Whether the first, or the last, character passes a test.
unfoldable pub starts_in : (ℕ → Bool) → Text → Bool
starts_in p [] = false
starts_in p (c ∷ s) = p c

unfoldable pub ends_in : (ℕ → Bool) → Text → Bool
ends_in p [] = false
ends_in p (c ∷ []) = p c
ends_in p (c ∷ d ∷ s) = ends_in p (d ∷ s)

lstrip_id : (p : ℕ → Bool) (s : Text) → starts_in p s ≡ false → lstrip p s ≡ s
unfolding lstrip starts_in
lstrip_id p [] h = refl
lstrip_id p (c ∷ s) h = ground arith

rstrip_id : (p : ℕ → Bool) (s : Text) → ends_in p s ≡ false → rstrip p s ≡ s
unfolding rstrip ends_in
rstrip_id p [] h = refl
rstrip_id p (c ∷ []) h = ground arith
rstrip_id p (c ∷ d ∷ s) h = rw (rstrip_id p (d ∷ s) h)

-- Stripping leaves a text alone exactly when neither end passes the test.
pub strip_id :
    (p : ℕ → Bool) (s : Text) → starts_in p s ≡ false → ends_in p s ≡ false → strip p s ≡ s
unfolding strip
strip_id p s a b = rw (lstrip_id p s a) (rstrip_id p s b)

pub rstrip-ends : (p : ℕ → Bool) (s : Text) → ends_in p (rstrip p s) ≡ false
unfolding rstrip ends_in
rstrip-ends p [] = refl
rstrip-ends p (c ∷ s) = go (rstrip p s) (rstrip-ends p s)
  where
    go : (r : Text) → ends_in p r ≡ false → ends_in p (rstrip_cons p c r) ≡ false
    go [] h = ground arith
    go (d ∷ r) h = h

pub ends_in-strip : (p : ℕ → Bool) (s : Text) → ends_in p (strip p s) ≡ false
unfolding strip
ends_in-strip p s = rstrip-ends p (lstrip p s)

pub ends_in-append :
    (p : ℕ → Bool) (s : Text) (c : ℕ) (r : Text) → ends_in p (s ++ c ∷ r) ≡ ends_in p (c ∷ r)
unfolding ends_in
ends_in-append p [] c r = refl
ends_in-append p (d ∷ []) c r = refl
ends_in-append p (d ∷ e ∷ s) c r = ends_in-append p (e ∷ s) c r

pub join-cons_ne :
    (sep : ℕ) (p : Text) (ps : List Text) → ps ≢ [] → join sep (p ∷ ps) ≡ p ++ sep ∷ join sep ps
unfolding join
join-cons_ne sep p [] h = absurd (h refl)
join-cons_ne sep p (q ∷ ps) h = refl

pub split-ne-nil : (sep : ℕ) (s : Text) → split sep s ≢ []
unfolding split
split-ne-nil sep [] h = cc
split-ne-nil sep (c ∷ s) h = ground (arith, split-ne-nil sep s)

join-cons_head :
    (sep c : ℕ) (ps : List Text) → ps ≢ [] → join sep (cons_head c ps) ≡ c ∷ join sep ps
unfolding join
join-cons_head sep c [] h = absurd (h refl)
join-cons_head sep c (p ∷ []) h = refl
join-cons_head sep c (p ∷ q ∷ ps) h = refl

-- Splitting loses nothing.
pub join-split : (sep : ℕ) (s : Text) → join sep (split sep s) ≡ s
unfolding split join
join-split sep [] = refl
join-split sep (c ∷ s) = elim (Bool-cases (c == sep)) [
  | inl e ↦
      rw e
        (join-cons_ne sep [] (split sep s) (split-ne-nil sep s) ∙ ground (arith, join-split sep s))
  | inr e ↦
      rw e (
        join-cons_head sep c (split sep s) (split-ne-nil sep s)
        ∙ ap (λ t. c ∷ t) (join-split sep s))
]

cons_head-append :
    (c : ℕ) (ps qs : List Text) → ps ≢ [] → cons_head c (ps ++ qs) ≡ cons_head c ps ++ qs
cons_head-append c [] qs h = absurd (h refl)
cons_head-append c (p ∷ ps) qs h = refl

-- A separator splits a text in two, whatever the two parts hold.
pub split-sep : (sep : ℕ) (s r : Text) → split sep (s ++ sep ∷ r) ≡ split sep s ++ split sep r
unfolding split
split-sep sep [] r = ground arith
split-sep sep (c ∷ s) r = elim (Bool-cases (c == sep)) [
  | inl e ↦ rw e (ap (λ t. [] ∷ t) (split-sep sep s r))
  | inr e ↦
      rw (e, split-sep sep s r)
        (cons_head-append c (split sep s) (split sep r) (split-ne-nil sep s))
]

-- Text with no separator in it is one part, and a separator ends a part.
pub split-append :
    (sep : ℕ) (p s : Text) → contains sep p ≡ false → split sep (p ++ sep ∷ s) ≡ p ∷ split sep s
unfolding split contains
split-append sep [] s h = ground arith
split-append sep (c ∷ p) s h = ground (arith, split-append sep p s)

pub split_single : (sep : ℕ) (p : Text) → contains sep p ≡ false → split sep p ≡ p ∷ []
unfolding split contains
split_single sep [] h = refl
split_single sep (c ∷ p) h = ground (arith, split_single sep p)

pub split-join :
    (sep : ℕ) (p : Text) (ps : List Text)
    → All (λ q. contains sep q ≡ false) (p ∷ ps)
    → split sep (join sep (p ∷ ps)) ≡ p ∷ ps
unfolding join
split-join sep p [] h = split_single sep p h.0
split-join sep p (q ∷ ps) h =
    split-append sep p (join sep (q ∷ ps)) h.0 ∙ ap (λ t. p ∷ t) (split-join sep q ps h.1)

cons_head-All :
    (sep c : ℕ) (ps : List Text)
    → (c == sep) ≡ false
    → All (λ q. contains sep q ≡ false) ps
    → All (λ q. contains sep q ≡ false) (cons_head c ps)
unfolding contains
cons_head-All sep c [] e h = ground arith
cons_head-All sep c (p ∷ ps) e h = (ground arith, h.1)

-- The parts of a split hold no separator.
pub split-All : (sep : ℕ) (s : Text) → All (λ q. contains sep q ≡ false) (split sep s)
unfolding split contains
split-All sep [] = (refl, tt)
split-All sep (c ∷ s) = elim (Bool-cases (c == sep)) [
  | inl e ↦ rw e (refl, split-All sep s)
  | inr e ↦ rw e (cons_head-All sep c (split sep s) e (split-All sep s))
]

length-lstrip-le : (p : ℕ → Bool) (s : Text) → length (lstrip p s) ≤ length s
unfolding lstrip
length-lstrip-le p [] = omega arith
length-lstrip-le p (c ∷ s) = ground (arith, length-lstrip-le p s)

length-rstrip-le : (p : ℕ → Bool) (s : Text) → length (rstrip p s) ≤ length s
unfolding rstrip
length-rstrip-le p [] = omega arith
length-rstrip-le p (c ∷ s) = go (rstrip p s) (length-rstrip-le p s)
  where
    go : (r : Text) → length r ≤ length s → length (rstrip_cons p c r) ≤ suc (length s)
    go [] h = ground arith
    go (d ∷ r) h = omega arith

pub length-strip-le : (p : ℕ → Bool) (s : Text) → length (strip p s) ≤ length s
unfolding strip
length-strip-le p s = omega (arith, length-rstrip-le p (lstrip p s), length-lstrip-le p s)

-- A text that a strip leaves alone does not end in what is stripped.
pub strip_id-ends : (p : ℕ → Bool) (s : Text) → strip p s ≡ s → ends_in p s ≡ false
strip_id-ends p s e = subst (λ t. ends_in p t ≡ false) e (ends_in-strip p s)

lstrip_whole : (p : ℕ → Bool) (s : Text) → length s ≤ length (lstrip p s) → lstrip p s ≡ s
unfolding lstrip
lstrip_whole p [] h = refl
lstrip_whole p (c ∷ s) h = ground (arith, length-lstrip-le p s)

rstrip_whole : (p : ℕ → Bool) (s : Text) → length s ≤ length (rstrip p s) → rstrip p s ≡ s
unfolding rstrip
rstrip_whole p [] h = refl
rstrip_whole p (c ∷ s) h = go (rstrip p s) (rstrip_whole p s) (length-rstrip-le p s) h
  where
    go :
        (r : Text)
        → (length s ≤ length r → r ≡ s)
        → length r ≤ length s
        → suc (length s) ≤ length (rstrip_cons p c r)
        → rstrip_cons p c r ≡ c ∷ s
    go [] e l h = ground (arith, e)
    go (d ∷ r) e l h = ap (λ t. c ∷ t) (e (omega arith))

-- A strip that takes nothing off changes nothing.
pub strip_whole : (p : ℕ → Bool) (s : Text) → length s ≤ length (strip p s) → strip p s ≡ s
unfolding strip
strip_whole p s h =
    let left : lstrip p s ≡ s =
      lstrip_whole p s (omega (arith, length-rstrip-le p (lstrip p s), length-lstrip-le p s)) in
    rw left (rstrip_whole p s (subst (λ t. length s ≤ length (rstrip p t)) left h))
