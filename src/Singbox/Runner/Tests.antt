-- ===== src/Singbox/Runner/Tests.antt =====
-- Concrete steps of internal/backend/singbox/runner.go.
use nde.Prelude.{ℕ, true, none, some, ◌≡◌, refl, number_key, update}
use nde.Xray.Runner.{waiting, exited, ended}
use nde.Singbox.Runner.{
  Runner, new_runner, running_locked, spawn, start, is_current, clear, send_exit, exits, clears,
  sends, starts, Reach, here, later, Quietly, still, then_quiet,
}
use nde.Singbox.Runner.Exits.{exit_sent}

abbrev one : ℕ
one = 1

abbrev running : Runner
running = (start new_runner none).1

running-Reach : Reach new_runner running
running-Reach = later here (starts new_runner none)

abbrev over : Runner
over = record running { waiter = update running.waiter one exited }

abbrev cleared : Runner
cleared = clear over one

abbrev told : Runner
told = send_exit cleared one

told-Quietly : Quietly running told
unfolding start new_runner spawn running_locked update clear is_current
told-Quietly =
    then_quiet (then_quiet (then_quiet still (exits running one refl)) (clears over one refl))
      (sends cleared one refl)

-- A Start between the end of one process and the send: the exit in the channel is not that of the
-- process that runs.
stale_exit : (send_exit (spawn cleared) one).exit_ch ≡ some one
unfolding start new_runner spawn running_locked update clear is_current send_exit
stale_exit = refl

running_at : running.waiter one ≡ waiting
unfolding start new_runner
running_at = refl

exit_sent_example :
    (running_locked running ≡ true)
    × ((q : ℕ) → running.waiter q ≡ waiting → one ≡ q)
    × (told.waiter one ≡ ended → (q : ℕ) × (told.exit_ch ≡ some q))
exit_sent_example = exit_sent running told one running-Reach running_at told-Quietly
