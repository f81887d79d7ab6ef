-- ===== src/Keys/Safety.antt =====
-- Every key that `Key.parse` of nawat/keys.py accepts names a place below the cache root.
use nawat.Prelude.{
  ℕ, ◌≡◌, ◌≢◌, refl, ◌≤◌, Bool, true, false, ◌&&◌, ◌||◌, List, [], ◌∷◌, ◌==◌, same, length, some_of,
  All, arith,
}
use nawat.Prelude.Text.{Text, text, text_eq, split, contains, split-All}
use nawat.Errors.{ok}
use nawat.Keys.{
  Key, kinds, slash, is_alnum, is_name_char, matches_rest, is_segment, parse, str, segments,
  max_length,
}
use nawat.Keys.Shape.{parse-Parsed, segment_cons}

-- One component of a path: it names an entry, and neither the directory nor its parent.
pub record IsEntry (s : Text) : Type 0 where
  pub not_empty : s ≢ []
  pub not_here : s ≢ text "."
  pub not_parent : s ≢ text ".."
  pub no_slash : contains slash s ≡ false
  pub no_backslash : contains b'\\' s ≡ false

pub record IsSafe (k : Key) : Type 0 where
  pub known : some_of (same k.kind) kinds ≡ true
  pub entries : All IsEntry (segments k)
  pub fits : length (str k) ≤ max_length

name_char_plain : (c : ℕ) → is_name_char c ≡ true → (c == b'\\') ≡ false
unfolding is_name_char is_alnum
name_char_plain c h = ground arith

alnum_plain : (c : ℕ) → is_alnum c ≡ true → (c == b'\\') ≡ false
unfolding is_alnum
alnum_plain c h = ground arith

newline_plain : (c : ℕ) → (c == 10) ≡ true → (c == b'\\') ≡ false
newline_plain c h = ground arith

either_plain : (c : ℕ) → (is_name_char c || c == 10) ≡ true → (c == b'\\') ≡ false
either_plain c h = ground (arith, name_char_plain c, newline_plain c)

rest_cons :
    (c : ℕ) (s : Text)
    → matches_rest (c ∷ s) ≡ true
    → ((c == b'\\') ≡ false) × (matches_rest s ≡ true)
rest_cons c [] h = (either_plain c (unfold matches_rest in h), unfold matches_rest in refl)
rest_cons c (d ∷ s) h = rest_cons_more c (matches_rest (d ∷ s)) (unfold matches_rest in h)
  where
    rest_cons_more :
        (e : ℕ) (m : Bool) → (is_name_char e && m) ≡ true → ((e == b'\\') ≡ false) × (m ≡ true)
    rest_cons_more e m t = ground (arith, name_char_plain e)

rest_plain : (s : Text) → matches_rest s ≡ true → contains b'\\' s ≡ false
unfolding contains
rest_plain [] h = refl
rest_plain (c ∷ s) h = let (here, there) = rest_cons c s h in rw (here, rest_plain s there)

segment_plain : (s : Text) → is_segment s ≡ true → contains b'\\' s ≡ false
unfolding contains
segment_plain [] h = refl
segment_plain (c ∷ s) h =
    let (here, there) = segment_cons c s h in rw (alnum_plain c here, rest_plain s there)

-- The loop's explicit tests, on top of the pattern.
segment_named : (s : Text) → is_segment s ≡ true → (s ≢ text ".") × (s ≢ text "..") × (s ≢ [])
unfolding is_segment
segment_named s h = ground arith

segment-IsEntry : (s : Text) → is_segment s ≡ true → contains slash s ≡ false → IsEntry s
segment-IsEntry s h n = record {
  not_empty = (segment_named s h).2;
  not_here = (segment_named s h).0;
  not_parent = (segment_named s h).1;
  no_slash = n;
  no_backslash = segment_plain s h;
}

segments-IsEntry :
    (ps : List Text)
    → All (λ s. is_segment s ≡ true) ps
    → All (λ s. contains slash s ≡ false) ps
    → All IsEntry ps
segments-IsEntry [] h n = tt
segments-IsEntry (p ∷ ps) h n = (segment-IsEntry p h.0 n.0, segments-IsEntry ps h.1 n.1)

-- The known kinds hold no separator.
known_plain : (kind : Text) → some_of (same kind) kinds ≡ true → contains slash kind ≡ false
unfolding contains
known_plain kind h = ground arith

pub parse-IsSafe : (raw : Text) (k : Key) → parse raw ≡ ok k → IsSafe k
unfolding segments
parse-IsSafe raw k h =
    let q = parse-Parsed raw k h in
    record {
      known = q.known;
      entries = (
        segment-IsEntry k.kind q.kind_segment (known_plain k.kind q.known),
        segments-IsEntry (split slash k.path) q.rest_segments (split-All slash k.path),
      );
      fits = rw q.text_is q.fits;
    }
