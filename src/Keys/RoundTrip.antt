-- ===== src/Keys/RoundTrip.antt =====
-- Reading back the text of a key (nawat/keys.py, `Key.__str__` and `Key.parse`).
use nawat.Prelude.{
  ℕ, ◌≡◌, ◌≢◌, ◌↔◌, refl, ap, sym, subst, ◌∙◌, Bool, true, false, ◌||◌, List, [], ◌∷◌, ◌++◌, ◌==◌,
  length, is_nil, All, arith,
}
use nawat.Prelude.Text.{
  Text, text_eq, is_space, strip, split, join, starts_in, ends_in, strip_whole, strip_id,
  strip_id-ends, ends_in-append, length-strip-le, split-ne-nil, join-split,
}
use nawat.Errors.{ok}
use nawat.Keys.{Key, slash, is_alnum, is_name_char, matches_rest, is_segment, stripped, parse, str}
use nawat.Keys.Shape.{parse-Parsed, segment_cons}

abbrev pub is_newline : ℕ → Bool
is_newline c = c == 10

-- What one of the two strips of `parse` takes off.
is_edge : ℕ → Bool
is_edge c = is_space c || c == slash

name_char-not-edge : (c : ℕ) → is_name_char c ≡ true → is_edge c ≡ false
unfolding is_name_char is_edge is_space
name_char-not-edge c h = ground arith

alnum-not-edge : (c : ℕ) → is_alnum c ≡ true → is_edge c ≡ false
unfolding is_alnum is_edge is_space
alnum-not-edge c h = ground arith

rest-ends :
    (s : Text) → matches_rest s ≡ true → ends_in is_newline s ≡ false → ends_in is_edge s ≡ false
unfolding matches_rest ends_in
rest-ends [] h n = refl
rest-ends (c ∷ []) h n = ground (arith, name_char-not-edge c)
rest-ends (c ∷ d ∷ s) h n = ground (arith, rest-ends (d ∷ s))

-- A text that is not empty, and ends in what a strip takes off only if it ends in a newline.
abbrev EndsWell : Text → Type 0
EndsWell s = (is_nil s ≡ false) × (ends_in is_newline s ≡ false → ends_in is_edge s ≡ false)

cons-ends :
    (c : ℕ) (s : Text)
    → is_alnum c ≡ true
    → matches_rest s ≡ true
    → ends_in is_newline (c ∷ s) ≡ false
    → ends_in is_edge (c ∷ s) ≡ false
unfolding ends_in
cons-ends c [] a m n = alnum-not-edge c a
cons-ends c (d ∷ s) a m n = rest-ends (d ∷ s) m n

segment-EndsWell : (s : Text) → is_segment s ≡ true → EndsWell s
segment-EndsWell [] h = unfold is_segment in cc
segment-EndsWell (c ∷ s) h = let (a, m) = segment_cons c s h in (refl, λ n. cons-ends c s a m n)

append-EndsWell : (s r : Text) → EndsWell r → EndsWell (s ++ slash ∷ r)
append-EndsWell s [] h = absurd (cc h.0)
append-EndsWell [] (c ∷ r) h = (refl, unfold ends_in in h.1)
append-EndsWell (d ∷ s) (c ∷ r) h = (
  refl,
  rw (ends_in-append is_newline (d ∷ s) slash (c ∷ r), ends_in-append is_edge (d ∷ s) slash (c ∷ r))
      (unfold ends_in in h.1),
)

join-EndsWell :
    (p : Text) (ps : List Text)
    → All (λ s. is_segment s ≡ true) (p ∷ ps)
    → EndsWell (join slash (p ∷ ps))
unfolding join
join-EndsWell p [] h = segment-EndsWell p h.0
join-EndsWell p (q ∷ ps) h = append-EndsWell p (join slash (q ∷ ps)) (join-EndsWell q ps h.1)

split-EndsWell :
    (s : Text) (ps : List Text)
    → All (λ p. is_segment p ≡ true) ps
    → ps ≢ []
    → join slash ps ≡ s
    → EndsWell s
split-EndsWell s [] h n e = absurd (n refl)
split-EndsWell s (p ∷ ps) h n e = subst EndsWell e (join-EndsWell p ps h)

starts_plain : (p : Text) (r : Text) → is_segment p ≡ true → starts_in is_edge (p ++ r) ≡ false
starts_plain [] r h = unfold is_segment in cc
starts_plain (c ∷ s) r h = unfold starts_in in alnum-not-edge c (segment_cons c s h).0

-- The two strips of `parse` are no stronger than one strip of the edges.
edge_space : (s : Text) → starts_in is_edge s ≡ false → starts_in is_space s ≡ false
unfolding starts_in is_edge
edge_space [] h = refl
edge_space (c ∷ s) h = ground arith

edge_slash : (s : Text) → starts_in is_edge s ≡ false → starts_in (λ c. c == slash) s ≡ false
unfolding starts_in is_edge
edge_slash [] h = refl
edge_slash (c ∷ s) h = ground arith

ends_space : (s : Text) → ends_in is_edge s ≡ false → ends_in is_space s ≡ false
unfolding ends_in is_edge
ends_space [] h = refl
ends_space (c ∷ []) h = ground arith
ends_space (c ∷ d ∷ s) h = ends_space (d ∷ s) h

ends_slash : (s : Text) → ends_in is_edge s ≡ false → ends_in (λ c. c == slash) s ≡ false
unfolding ends_in is_edge
ends_slash [] h = refl
ends_slash (c ∷ []) h = ground arith
ends_slash (c ∷ d ∷ s) h = ends_slash (d ∷ s) h

stripped_id : (s : Text) → starts_in is_edge s ≡ false → ends_in is_edge s ≡ false → stripped s ≡ s
stripped_id s a b =
    rw (strip_id is_space s (edge_space s a) (ends_space s b))
      (strip_id (λ c. c == slash) s (edge_slash s a) (ends_slash s b))

module _ (raw : Text) (k : Key) (h : parse raw ≡ ok k) where
  str-EndsWell : EndsWell (str k)
  str-EndsWell =
      let q = parse-Parsed raw k h in
      unfold str in
      append-EndsWell k.kind k.path (
        split-EndsWell k.path (split slash k.path) q.rest_segments (split-ne-nil slash k.path)
          (join-split slash k.path))

  stripped-str : ends_in is_newline (str k) ≡ false → stripped (str k) ≡ str k
  stripped-str n =
      stripped_id (str k)
        (unfold str in starts_plain k.kind (slash ∷ k.path) (parse-Parsed raw k h).kind_segment)
        (str-EndsWell.1 n)

newline_space : (s : Text) → ends_in is_space s ≡ false → ends_in is_newline s ≡ false
unfolding ends_in is_space
newline_space [] h = refl
newline_space (c ∷ []) h = ground arith
newline_space (c ∷ d ∷ s) h = newline_space (d ∷ s) h

stripped_id-ends : (s : Text) → stripped s ≡ s → ends_in is_newline s ≡ false
stripped_id-ends s e =
    let inner = strip is_space s in
    newline_space s (
      strip_id-ends is_space s (
        strip_whole is_space s
          (omega (arith, length-strip-le (λ c. c == slash) inner, ap (length {A = ℕ}) e))))

-- A key read from a text is read back from its own text exactly when that text does not end in a
-- newline.
pub parse-str :
    (raw : Text) (k : Key)
    → parse raw ≡ ok k
    → (parse (str k) ≡ ok k) ↔ (ends_in is_newline (str k) ≡ false)
parse-str raw k h = (
  λ back. stripped_id-ends (str k) (sym (parse-Parsed (str k) k back).text_is),
  λ plain.
      unfold parse in
      rw (stripped-str raw k h plain ∙ (parse-Parsed raw k h).text_is) (unfold parse in h),
)
