-- ===== src/Cache/Frame.antt =====
-- What the bookkeeping operations of nawat/cache.py leave alone: the files on local disk and the
-- object store.
use nawat.Prelude.{◌≡◌, refl, ◌∙◌, Bool, List, [], ◌∷◌, if◌then◌else◌, arith}
use nawat.Prelude.Text.{Text}
use nawat.Prelude.Dict
use nawat.Prelude.Dict.{Dict}
use nawat.Leases
use nawat.Errors.{Result, ok, ◌▷◌}
use nawat.Keys.{Key, key_eq}
use nawat.Cache.{
  Config, Env, Cache, Marker, unreadable, untyped, names, Row, update_row, register, forget,
  forget_missing, recover_one, recover, sweep_staging, reconcile, list, get, path_exists, read_back,
  walk_markers,
}

-- The same files on disk, and the same object store.
pub record SameData {S : Type 0} (c c' : Cache S) : Type 0 where
  pub files : c'.disk.files ≡ c.disk.files
  pub remote : c'.remote ≡ c.remote

module _ {S : Type 0} where
  pub SameData-refl : (c : Cache S) → SameData c c
  SameData-refl c = record { files = refl; remote = refl }

  pub SameData-trans : {a b c : Cache S} → SameData a b → SameData b c → SameData a c
  SameData-trans p q = record { files = q.files ∙ p.files; remote = q.remote ∙ p.remote }

  pub update_row-SameData :
      (key : Key) (f : Row → Row) (c : Cache S) → SameData c (update_row key f c)
  update_row-SameData key f c = ground arith

  forget_missing-SameData : (ks : List Key) (c : Cache S) → SameData c (forget_missing ks c)
  unfolding forget_missing forget
  forget_missing-SameData [] c = SameData-refl c
  forget_missing-SameData (key ∷ rest) c =
      SameData-trans (forgotten (path_exists c.disk (read_back key))) (
        forget_missing-SameData rest
          (if path_exists c.disk (read_back key) then c else forget (read_back key) c))
    where
      forgotten : (b : Bool) → SameData c (if b then c else forget (read_back key) c)
      forgotten b = ground arith

  recover_one-SameData :
      (env : Env) (known : List Key) (dir : List Text) (m : Marker) (c : Cache S)
      → SameData c (recover_one env known dir m c).0
  unfolding recover_one register
  recover_one-SameData env known dir unreadable c = SameData-refl c
  recover_one-SameData env known dir untyped c = SameData-refl c
  recover_one-SameData env known dir (names name t r) c = ground arith

  recover-SameData :
      (env : Env) (known : List Key) (ms : Dict (List Text) Marker) (c : Cache S)
      → SameData c (recover env known ms c).0
  unfolding recover
  recover-SameData env known [] c = SameData-refl c
  recover-SameData env known ((dir, m) ∷ rest) c = ground (
    arith,
    recover_one-SameData env known dir m c,
    recover-SameData env known rest (recover_one env known dir m c).0,
  )

  pub reconcile-SameData :
      (config : Config) (env : Env) (c : Cache S) → SameData c (reconcile config env c).0
  unfolding reconcile sweep_staging
  reconcile-SameData config env c =
      let reaped = record c { registry = (Leases.reap env.host c.registry).0 } in
      let known = Dict.keys c.rows in
      let markers = walk_markers config c.disk.markers in
      let present = forget_missing known reaped in
      let marked = recover-SameData env known markers present in
      let parts =
        SameData-trans {a = c} {b = present}
          (record {
            files = (forget_missing-SameData known reaped).files;
            remote = (forget_missing-SameData known reaped).remote;
          })
          marked in
      swept (recover env known markers present).1 (recover env known markers present).0 parts
    where
      swept :
          (r : Result (Unit {0})) (c' : Cache S)
          → SameData c c'
          → SameData c ((c', r) ▷ λ _ d. (sweep_staging env d, ok tt)).0
      swept r c' h = ground (arith, h.files, h.remote)

  pub list-SameData : (env : Env) (c : Cache S) → SameData c (list env c).0
  unfolding list
  list-SameData env c = record { files = refl; remote = refl }

  pub get-SameData : (env : Env) (key : Key) (c : Cache S) → SameData c (get env key c).0
  unfolding get
  get-SameData env key c = ground arith
