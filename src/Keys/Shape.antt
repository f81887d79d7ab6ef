-- ===== src/Keys/Shape.antt =====
-- What `Key.parse` of nawat/keys.py accepts.
use nawat.Prelude.{
  ℕ, ◌≡◌, ◌≤◌, Bool, true, false, ◌||◌, List, [], ◌∷◌, ltb, if◌then◌else◌, same, length, some_of,
  is_nil, All, arith,
}
use nawat.Prelude.Text.{Text, text_eq, split, join, contains, join-split, split-All, split-join}
use nawat.Errors.{invalid_key, err, ok, Result, ◌>>◌}
use nawat.Keys.{
  Key, kinds, slash, is_alnum, matches_rest, matches_segment, is_segment, check_segments, make,
  from_segments, stripped, parse, parse_stripped, str, max_length,
}

check_segments-All :
    (ps : List Text) → check_segments ps ≡ ok tt → All (λ s. is_segment s ≡ true) ps
unfolding check_segments
check_segments-All [] h = tt
check_segments-All (s ∷ rest) h = ground (arith, check_segments-All rest)

not_longer : (n : ℕ) → ltb max_length n ≡ false → n ≤ max_length
not_longer n h = ground arith

make_inv :
    (kind path : Text) (k : Key)
    → make kind path ≡ ok k
    → (some_of (same kind) kinds ≡ true)
      × (is_nil path ≡ false)
      × (k ≡ record { kind = kind; path = path })
unfolding make
make_inv kind path k h = ground arith

pub segment_cons :
    (c : ℕ) (s : Text) → is_segment (c ∷ s) ≡ true → (is_alnum c ≡ true) × (matches_rest s ≡ true)
unfolding is_segment matches_segment
segment_cons c s h = ground arith

-- What a successful parse has gone through.
pub record Parsed (raw : Text) (k : Key) : Type 0 where
  pub kind_segment : is_segment k.kind ≡ true
  pub known : some_of (same k.kind) kinds ≡ true
  pub rest_segments : All (λ s. is_segment s ≡ true) (split slash k.path)
  pub fits : length (stripped raw) ≤ max_length
  pub no_backslash : contains b'\\' (stripped raw) ≡ false
  pub text_is : str k ≡ stripped raw

from_segments-Parsed :
    (raw : Text) (k : Key) (ps : List Text)
    → length (stripped raw) ≤ max_length
    → contains b'\\' (stripped raw) ≡ false
    → join slash ps ≡ stripped raw
    → All (λ q. contains slash q ≡ false) ps
    → check_segments ps ≡ ok tt
    → from_segments ps ≡ ok k
    → Parsed raw k
unfolding from_segments
from_segments-Parsed raw k [] a b j n c f = cc
from_segments-Parsed raw k (p ∷ []) a b j n c f = cc
from_segments-Parsed raw k (p ∷ q ∷ ps) a b j n c f =
    let (known, _, e) = make_inv p (join slash (q ∷ ps)) k f in
    let good = check_segments-All (p ∷ q ∷ ps) c in
    rw e (record {
      kind_segment = good.0;
      known = known;
      rest_segments = rw (split-join slash q ps n.1) good.1;
      fits = a;
      no_backslash = b;
      text_is = unfold str join in j;
    })

test_cases :
    (a b c : Bool) (m : Result (Unit {0})) (f : Result Key) (k : Key)
    → (if a || b || c then err invalid_key else m >> f) ≡ ok k
    → (b ≡ false) × (c ≡ false) × (m ≡ ok tt) × (f ≡ ok k)
test_cases a b c m f k h = ground arith

pub parse-Parsed : (raw : Text) (k : Key) → parse raw ≡ ok k → Parsed raw k
parse-Parsed raw k h =
    let t = stripped raw in
    let parts = split slash t in
    let (short, plain, checked, made) =
      test_cases (is_nil t) (ltb max_length (length t)) (contains b'\\' t) (check_segments parts)
        (from_segments parts) k (unfold parse parse_stripped in h) in
    from_segments-Parsed raw k parts (not_longer (length t) short) plain (join-split slash t)
      (split-All slash t) checked made
