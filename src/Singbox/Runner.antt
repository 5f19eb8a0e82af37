-- ===== src/Singbox/Runner.antt =====
-- internal/backend/singbox/runner.go: the process of sing-box, the goroutine that waits for its end, and
-- the channel of exits. Start holds `mu` throughout, so it is one step.
pub mod Exits
mod Tests
use nde.Prelude.{
  ℕ, ◌+◌, Bool, true, false, Option, none, some, ◌==◌, ◌≡◌, number_key, if◌then◌else◌, update,
}
use nde.Backend.{Error, failed}
use nde.Xray.Runner.{Waiter, absent, waiting, exited, sending, ended, is_waiting}

-- Processes are told apart by their numbers. `exit_ch` is the element of the channel, with the
-- process whose end it tells. The goroutine of `wait` for a process is as that of the xray runner.
pub record Runner : Type 0 where
  pub cmd : Option ℕ
  pub exit_ch : Option ℕ
  pub spawned : ℕ
  pub waiter : ℕ → Waiter

unfoldable pub new_runner : Runner
new_runner = record { cmd = none; exit_ch = none; spawned = 0; waiter = λ p. absent }

-- `runningLocked`; `cmd.ProcessState` is nil until `cmd.Wait` has returned.
unfoldable pub running_locked : Runner → Bool
unfolding is_waiting
running_locked r = elim r.cmd [ none ↦ false | some p ↦ is_waiting (r.waiter p) ]

-- Start from where the process is started; the channel is drained.
unfoldable pub spawn : Runner → Runner
unfolding update
spawn r =
    let p = r.spawned + 1 in
    record { cmd = some p; exit_ch = none; spawned = p; waiter = update r.waiter p waiting }

-- `Start`, with the error of a pipe or of `cmd.Start` if there is one.
unfoldable pub start : Runner → Option Error → Option Error × Runner
unfolding running_locked spawn
start r err =
    if running_locked r
    then (some (failed "sing-box already running"), r)
    else elim err [ some e ↦ (some e, r) | none ↦ (none, spawn r) ]

-- The runner's `cmd` is this process.
unfoldable pub is_current : Runner → ℕ → Bool
is_current r p = elim r.cmd [ none ↦ false | some c ↦ c == p ]

-- `wait` under `mu`, for a process that has ended.
unfoldable pub clear : Runner → ℕ → Runner
unfolding update is_current
clear r p =
    if is_current r p
    then record r { cmd = none; waiter = update r.waiter p sending }
    else record r { waiter = update r.waiter p ended }

-- The send of `wait`, which drops the exit when the channel is full.
unfoldable pub send_exit : Runner → ℕ → Runner
unfolding update
send_exit r p = record r {
  exit_ch = elim r.exit_ch [ none ↦ some p | some q ↦ some q ];
  waiter = update r.waiter p ended;
}

-- What happens while nobody starts a process or takes an exit out of the channel: a process ends, by
-- itself or by the signals of Stop, and its goroutine goes on.
pub data Quiet : Runner → Runner → Type 0 where
  exits :
      (r : Runner) (p : ℕ)
      → r.waiter p ≡ waiting
      → Quiet r (record r { waiter = update r.waiter p exited })
  clears : (r : Runner) (p : ℕ) → r.waiter p ≡ exited → Quiet r (clear r p)
  sends : (r : Runner) (p : ℕ) → r.waiter p ≡ sending → Quiet r (send_exit r p)

pub data Step : Runner → Runner → Type 0 where
  starts : (r : Runner) (err : Option Error) → Step r (start r err).1
  quiet : {r s : Runner} → Quiet r s → Step r s
  -- Stop, or the backend's monitorFailures
  receives : (r : Runner) (q : ℕ) → r.exit_ch ≡ some q → Step r (record r { exit_ch = none })

pub data Reach (r : Runner) : Runner → Type 0 where
  here : Reach r r
  later : {s t : Runner} → Reach r s → Step s t → Reach r t

pub data Quietly (r : Runner) : Runner → Type 0 where
  still : Quietly r r
  then_quiet : {s t : Runner} → Quietly r s → Quiet s t → Quietly r t
