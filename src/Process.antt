-- ===== src/Process.antt =====
-- nawat/process.py: process liveness, and stopping a process group.
use nawat.Prelude.{
  ℕ, Bool, true, false, not, ◌||◌, List, [], ◌∷◌, Option, none, some, ◌==◌, if◌then◌else◌,
}

-- A process's start time in clock ticks; `unknown` is `UNKNOWN_START`.
pub data Start : Type 0 where
  unknown : Start
  at : ℕ → Start

-- /proc/<pid>/stat: state letter and start time, or text that cannot be read that way.
pub data StatFile : Type 0 where
  fields : ℕ → ℕ → StatFile
  garbled : StatFile

-- What a call that signals a process, or asks for its group, comes back with.
pub data Outcome : Type 0 where
  done no_process not_permitted os_error : Outcome

-- The operating system as the program sees it at one moment.
pub record Host : Type 0 where
  pub boot : ℕ
  pub stat_file : ℕ → Option StatFile
  pub signal_zero : ℕ → Outcome

pub record Stat : Type 0 where
  pub state : ℕ
  pub start : Start

unfoldable pub read_stat : Host → ℕ → Option Stat
read_stat host pid = elim (host.stat_file pid) [
  | none ↦ none
  | some (fields state start) ↦ some (record { state = state; start = at start })
  | some garbled ↦ some (record { state = b'?'; start = unknown })
]

unfoldable pub process_start_time : Host → ℕ → Option Start
unfolding read_stat
process_start_time host pid = elim (read_stat host pid) [
  | none ↦ none
  | some stat ↦ some stat.start
]

unfoldable pub is_dead_state : ℕ → Bool
is_dead_state state = state == b'Z' || state == b'X'

unfoldable pub is_zombie : Host → ℕ → Bool
unfolding read_stat is_dead_state
is_zombie host pid = elim (read_stat host pid) [
  | none ↦ false
  | some stat ↦ is_dead_state stat.state
]

unfoldable pub process_alive : Host → ℕ → Bool
unfolding read_stat is_dead_state
process_alive host pid = elim (read_stat host pid) [
  | none ↦ elim (host.signal_zero pid) [
    | done ↦ true
    | no_process ↦ false
    | not_permitted ↦ true
    | os_error ↦ false
  ]
  | some stat ↦ not (is_dead_state stat.state)
]

pub data Signal : Type 0 where
  term kill : Signal

-- The answers that one call of `terminate_group` meets: those of the three system calls, and
-- what `process_alive` says at each turn of the two waiting loops and after them.
pub record Stop : Type 0 where
  pub getpgid : Outcome
  pub term_sent : Outcome
  pub grace_polls : List Bool
  pub kill_sent : Outcome
  pub kill_polls : List Bool
  pub alive_at_end : Bool

-- `while time.monotonic() < deadline`: whether some turn finds the process gone.
unfoldable pub gone_within : List Bool → Bool
gone_within [] = false
gone_within (alive ∷ rest) = not alive || gone_within rest

-- After the grace period: SIGKILL, and a second wait.
unfoldable pub insist : Stop → Bool × List Signal
unfolding gone_within
insist s = elim s.kill_sent [
  | no_process ↦ (true, term ∷ kill ∷ [])
  | not_permitted ↦ (true, term ∷ kill ∷ [])
  | _ ↦ (gone_within s.kill_polls || not s.alive_at_end, term ∷ kill ∷ [])
]

-- The answer, and the signals that were sent.
unfoldable pub terminate_group : Stop → Bool × List Signal
unfolding insist gone_within
terminate_group s = elim s.getpgid [
  | no_process ↦ (true, [])
  | not_permitted ↦ (true, [])
  | _ ↦ elim s.term_sent [
    | no_process ↦ (true, term ∷ [])
    | not_permitted ↦ (false, term ∷ [])
    | _ ↦ if gone_within s.grace_polls then (true, term ∷ []) else insist s
  ]
]
