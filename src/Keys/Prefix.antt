-- ===== src/Keys/Prefix.antt =====
-- A key's prefix in object storage and its directory (nawat/keys.py, `object_prefix`, `local_path`).
use mathlib.Core.List.{append_cancel_left}
use nawat.Prelude.{
  ◌≡◌, ◌≢◌, refl, ap, sym, ◌∙◌, false, List, [], ◌∷◌, ◌++◌, append-nil, append_assoc, true, keep,
  All, arith,
}
use nawat.Prelude.Text.{
  Text, split, join, contains, split-sep, split-ne-nil, split_single, join-split,
}
use nawat.Keys.{Key, slash, segments, object_prefix, is_step, local_path}
use nawat.Keys.Safety.{IsEntry, IsSafe}

split-object_prefix :
    (k : Key) (r : Text)
    → contains slash k.kind ≡ false
    → split slash (object_prefix k ++ r) ≡ segments k ++ split slash r
unfolding object_prefix segments
split-object_prefix k r h =
    ap (split slash) (
      append_assoc k.kind (slash ∷ (k.path ++ slash ∷ [])) r
      ∙ ap (λ t. k.kind ++ slash ∷ t) (append_assoc k.path (slash ∷ []) r))
    ∙ split-sep slash k.kind (k.path ++ slash ∷ r)
    ∙ ap (λ t. t ++ split slash (k.path ++ slash ∷ r)) (split_single slash k.kind h)
    ∙ ap (λ t. k.kind ∷ t) (split-sep slash k.path r)

split-nil : split slash [] ≡ [] ∷ []
unfolding split
split-nil = refl

-- All but the last of `xs ++ z ∷ []` goes on beyond `ys`, where more follows `ys`.
extends :
    (ys xs zs : List Text) (z : Text)
    → zs ≢ []
    → xs ++ z ∷ [] ≡ ys ++ zs
    → (more : List Text) × (xs ≡ ys ++ more)
extends [] xs zs z n e = (xs, refl)
extends (y ∷ []) [] zs z n e = absurd (n (cc))
extends (y ∷ w ∷ ys) [] zs z n e = absurd (cc)
extends (y ∷ ys) (x ∷ xs) zs z n e = let (more, rest) = extends ys xs zs z n (cc) in (more, cc)

-- What lies under the prefix of `a` in object storage lies inside `a`: the listing of a key never
-- shows a sibling whose name only begins alike.
pub object_prefix-nested :
    (a b : Key) (r : Text)
    → IsSafe a
    → IsSafe b
    → object_prefix a ++ r ≡ object_prefix b
    → (more : List Text) × (segments b ≡ segments a ++ more)
unfolding segments
object_prefix-nested a b r sa sb e =
    extends (segments a) (segments b) (split slash r) [] (split-ne-nil slash r) (
      ap (λ t. segments b ++ t) (sym split-nil)
      ∙ sym (split-object_prefix b [] (plain sb))
      ∙ ap (split slash) (append-nil (object_prefix b) ∙ sym e)
      ∙ split-object_prefix a r (plain sa))
  where
    plain : {k : Key} → IsSafe k → contains slash k.kind ≡ false
    plain s = s.entries.0.no_slash

segments-injective : (a b : Key) → segments a ≡ segments b → a ≡ b
unfolding segments
segments-injective a b e =
    let paths : a.path ≡ b.path =
      sym (join-split slash a.path) ∙ ap (join slash) (cc) ∙ join-split slash b.path in
    let kinds : a.kind ≡ b.kind = cc in λ i. record { kind = kinds i; path = paths i }

entry_step : (s : Text) → IsEntry s → is_step s ≡ true
unfolding is_step
entry_step s h = ground (arith, h.not_empty, h.not_here)

keep_steps : (ps : List Text) → All IsEntry ps → keep is_step ps ≡ ps
keep_steps [] h = refl
keep_steps (p ∷ ps) h = ground (arith, entry_step p h.0, keep_steps ps h.1)

-- Two keys whose segments each name an entry of a directory, as those of every key that `Key.parse` returns do, never share a directory below one cache root.
pub local_path-injective :
    (root : List Text) (a b : Key)
    → IsSafe a
    → IsSafe b
    → local_path root a ≡ local_path root b
    → a ≡ b
unfolding local_path
local_path-injective root a b sa sb e =
    let same_steps : keep is_step (segments a) ≡ keep is_step (segments b) =
      append_cancel_left root (keep is_step (segments a)) (keep is_step (segments b)) e in
    segments-injective a b
      (sym (keep_steps (segments a) sa.entries) ∙ same_steps ∙ keep_steps (segments b) sb.entries)
