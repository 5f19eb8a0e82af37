-- ===== src/Xray/Runner.antt =====
-- internal/backend/xray/runner.go: the process of xray, the goroutine that waits for its end, and the
-- channel of exits. `mu` is held through all of Start, and by others for one step each, so they take
-- that step while no Start is under way.
pub mod Inv
pub mod Startup
mod Tests
use nde.Prelude.{
  ℕ, ◌+◌, Bool, true, false, Option, none, some, ◌==◌, ◌≡◌, ◌≢◌, number_key, if◌then◌else◌, update,
  ◌⊎◌, ◌≤◌,
}

-- The goroutine of `wait` for a process: there is none, `cmd.Wait` runs, it has returned, the exit
-- is to be sent, it has ended.
pub data Waiter : Type 0 where
  absent : Waiter
  waiting : Waiter
  exited : Waiter
  sending : Waiter
  ended : Waiter

-- Processes are told apart by their numbers. `exit_ch` is the element of the channel, with the
-- process whose end it tells; `starting` is the process of the Start that holds `mu`.
pub record Runner : Type 0 where
  pub cmd : Option ℕ
  pub exit_ch : Option ℕ
  pub spawned : ℕ
  pub waiter : ℕ → Waiter
  pub starting : Option ℕ

unfoldable pub new_runner : Runner
new_runner = record {
  cmd = none;
  exit_ch = none;
  spawned = 0;
  waiter = λ p. absent;
  starting = none;
}

-- `cmd.ProcessState` is nil until `cmd.Wait` has returned.
unfoldable pub is_waiting : Waiter → Bool
is_waiting waiting = true
is_waiting _ = false

-- `runningLocked`
unfoldable pub running_locked : Runner → Bool
unfolding is_waiting
running_locked r = elim r.cmd [ none ↦ false | some p ↦ is_waiting (r.waiter p) ]

-- Start up to waitStartup; the channel is drained first.
unfoldable pub spawn : Runner → Runner
unfolding update
spawn r =
    let p = r.spawned + 1 in
    record {
      cmd = some p;
      exit_ch = none;
      spawned = p;
      waiter = update r.waiter p waiting;
      starting = some p;
    }

-- The configuration cannot be written: the process is killed, and nobody waits for it.
unfoldable pub spawn_unfed : Runner → Runner
spawn_unfed r = record r { exit_ch = none; spawned = r.spawned + 1 }

-- `wait` under `mu`, for a process that has ended.
unfoldable pub clear : Runner → ℕ → Runner
unfolding update
clear r p = elim r.cmd [
  | none ↦ record r { waiter = update r.waiter p ended }
  | some current ↦
      if current == p
      then record r { cmd = none; waiter = update r.waiter p sending }
      else record r { waiter = update r.waiter p ended }
]

-- The send of `wait`, which drops the exit when the channel is full.
unfoldable pub send_exit : Runner → ℕ → Runner
unfolding update
send_exit r p = record r {
  exit_ch = elim r.exit_ch [ none ↦ some p | some q ↦ some q ];
  waiter = update r.waiter p ended;
}

pub data Step : Runner → Runner → Type 0 where
  starts : (r : Runner) → r.starting ≡ none → running_locked r ≡ false → Step r (spawn r)
  starts_unfed :
      (r : Runner) → r.starting ≡ none → running_locked r ≡ false → Step r (spawn_unfed r)
  -- waitStartup returns nil
  has_started : (r : Runner) (p : ℕ) → r.starting ≡ some p → Step r (record r { starting = none })
  -- waitStartup returns "xray exited during startup"
  reports_exit :
      (r : Runner) (p q : ℕ)
      → r.starting ≡ some p
      → r.exit_ch ≡ some q
      → Step r (record r { starting = none; exit_ch = none })
  -- the process ends, by itself or by a signal, and `cmd.Wait` returns
  exits :
      (r : Runner) (p : ℕ)
      → r.waiter p ≡ waiting
      → Step r (record r { waiter = update r.waiter p exited })
  clears : (r : Runner) (p : ℕ) → r.starting ≡ none → r.waiter p ≡ exited → Step r (clear r p)
  sends : (r : Runner) (p : ℕ) → r.waiter p ≡ sending → Step r (send_exit r p)
  -- Stop, or the backend's monitorFailures
  receives : (r : Runner) (q : ℕ) → r.exit_ch ≡ some q → Step r (record r { exit_ch = none })

pub data Reach (r : Runner) : Runner → Type 0 where
  here : Reach r r
  later : {s t : Runner} → Reach r s → Step s t → Reach r t
