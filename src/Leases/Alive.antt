-- ===== src/Leases/Alive.antt =====
-- When a lease counts as held (nawat/leases.py, `LeaseRecord.alive`).
use nawat.Prelude.{
  ℕ, ◌≡◌, ◌≢◌, ◌↔◌, inl, inr, refl, true, ◌∷◌, [], some, arith, sym, ◌∙◌, List, length, In,
  In-append_right, ◌≤◌,
}
use nawat.Prelude.Text.{Text}
use nawat.Keys.{Key}
use nawat.Process.{Host, at, fields, read_stat, process_start_time, process_alive, is_dead_state}
use nawat.Leases.{LeaseRecord, alive, start_matches, recorded_start, acquire, new_records, Registry}

-- A lease that records a start time is held exactly while the process of that pid, started at
-- that time in this boot, is there and is neither a zombie nor dead.
alive_at_iff :
    (host : Host) (boot : ℕ) (r : LeaseRecord) (start state now : ℕ)
    → r.proc_start ≡ at start
    → host.stat_file r.pid ≡ some (fields state now)
    → (alive host boot r ≡ true)
      ↔ ((r.boot_id ≡ boot) × (state ≢ b'Z') × (state ≢ b'X') × (now ≡ start))
unfolding alive process_alive process_start_time read_stat is_dead_state start_matches
alive_at_iff host boot r start state now e s = ground arith

new_records-In :
    (host : Host) (boot : ℕ) (keys : List Key) (ids : List ℕ) (holder : Text) (pid now : ℕ)
    (k : Key)
    → length keys ≤ length ids
    → In k keys
    → (r : LeaseRecord) × In r (new_records host boot keys ids holder pid now)
      × (r.key ≡ k)
      × (r.pid ≡ pid)
      × (r.boot_id ≡ boot)
      × (r.proc_start ≡ recorded_start host pid)
unfolding new_records
new_records-In host boot [] ids holder pid now k l m = absurd m
new_records-In host boot (j ∷ ks) [] holder pid now k l m = absurd (omega arith)
new_records-In host boot (j ∷ ks) (i ∷ ids) holder pid now k l (inl e) =
    (_, inl refl, sym e, refl, refl, refl)
new_records-In host boot (j ∷ ks) (i ∷ ids) holder pid now k l (inr m) =
    let (r, there, a, b, c, d) = new_records-In host boot ks ids holder pid now k (omega arith) m in
    (r, inr there, a, b, c, d)

-- A running process that acquires keys holds each of them: the table then has a lease of the key
-- that counts as alive.
pub acquire-held :
    (host : Host) (g : Registry) (keys : List Key) (ids : List ℕ) (holder : Text) (pid now : ℕ)
    (k : Key) (state start : ℕ)
    → length keys ≤ length ids
    → In k keys
    → host.stat_file pid ≡ some (fields state start)
    → state ≢ b'Z'
    → state ≢ b'X'
    → (r : LeaseRecord) × In r (acquire host keys ids holder pid now g).0.table
      × (r.key ≡ k)
      × (alive host g.boot r ≡ true)
unfolding acquire
acquire-held host g keys ids holder pid now k state start l m s z x =
    let (r, there, a, b, c, d) = new_records-In host g.boot keys ids holder pid now k l m in
    let recorded : recorded_start host pid ≡ at start =
      unfold recorded_start process_start_time read_stat in ground arith in
    (
      r,
      In-append_right r g.table _ there,
      a,
      (alive_at_iff host g.boot r start state start (d ∙ recorded) (rw b s)).1 (c, z, x, refl),
    )
