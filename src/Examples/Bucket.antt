-- ===== src/Examples/Bucket.antt =====
-- An object store that answers every request: a bucket as a function from keys to manifests.
use nawat.Prelude.{◌≡◌, ◌≢◌, refl, false, [], some, arith, same, if◌then◌else◌, length}
use nawat.Prelude.Text.{Text, text_eq}
use nawat.Prelude.Dict
use nawat.Errors.{ok, Result}
use nawat.Keys.{Key, key_eq}
use nawat.Store.{ObjectStat, Manifest, is_internal}
use nawat.Store.Backend.{ObjectStore}

abbrev pub Files : Type 0
Files = Key → Manifest

unfoldable pub put_object : Key → Text → ObjectStat → Files → Result (Unit {0}) × Files
put_object k rel stat s = (ok tt, λ j. if same k j then Dict.put rel stat (s j) else s j)

pub put_object_ok :
    (k : Key) (rel : Text) (stat : ObjectStat) (s : Files)
    → is_internal rel ≡ false
    → (put_object k rel stat s).0 ≡ ok tt
    → (there : ObjectStat) × (Dict.get rel ((put_object k rel stat s).1 k) ≡ some there)
      × (there.size ≡ stat.size)
unfolding put_object
put_object_ok k rel stat s p h = (stat, ground (arith, Dict.get-put rel rel stat (s k)), refl)

pub put_object-other :
    (k : Key) (rel other : Text) (stat : ObjectStat) (s : Files)
    → rel ≢ other
    → Dict.get other ((put_object k rel stat s).1 k) ≡ Dict.get other (s k)
unfolding put_object
put_object-other k rel other stat s n = ground (arith, Dict.get-put rel other stat (s k))

pub listed_is : (s : Files) (k : Key) (m : Manifest) → ok (s k) ≡ ok m → m ≡ s k
listed_is s k m h = cc

abbrev pub bucket : ObjectStore
bucket = record {
  State = Files;
  contents = λ s. s;
  list_prefix = λ k s. (ok (s k), s);
  put = put_object;
  delete_prefix = λ k s. (ok (length (s k)), λ j. if same k j then [] else s j);
  list-ok = λ k s m h. listed_is s k m h;
  contents-list = λ k s. refl;
  put-ok = put_object_ok;
  put-other = put_object-other;
}

pub put_object_always :
    (k : Key) (rel : Text) (stat : ObjectStat) (s : Files) → (put_object k rel stat s).0 ≡ ok tt
unfolding put_object
put_object_always k rel stat s = refl
