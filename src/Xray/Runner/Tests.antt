-- ===== src/Xray/Runner/Tests.antt =====
-- Concrete steps of internal/backend/xray/runner.go.
use nde.Prelude.{ℕ, true, none, ◌≡◌, refl, number_key, update}
use nde.Xray.Runner.{
  waiting, exited, Runner, new_runner, running_locked, spawn, clear, send_exit, Reach, here, later,
  starts, has_started, exits, clears, sends,
}
use nde.Xray.Runner.Startup.{waiting_unique}

abbrev one : ℕ
one = 1

abbrev running : Runner
running = spawn new_runner

running-Reach : Reach new_runner running
unfolding new_runner running_locked
running-Reach = later here (starts new_runner refl refl)

-- The first process has ended, and its goroutine is about to send the exit.
abbrev returned : Runner
returned = record running { starting = none }

abbrev over : Runner
over = record returned { waiter = update returned.waiter one exited }

abbrev cleared : Runner
cleared = clear over one

-- The second Start is under way when the exit of the first process is sent.
abbrev restarted : Runner
restarted = send_exit (spawn cleared) one

restarted-Reach : Reach new_runner restarted
unfolding spawn new_runner update clear running_locked
restarted-Reach =
    later
      (later
        (later
          (later (later running-Reach (has_started running one refl)) (exits returned one refl))
          (clears over one refl refl))
        (starts cleared refl refl))
      (sends (spawn cleared) one refl)

waiting_unique_example : (running_locked running ≡ true) × (running.waiter 2 ≡ waiting → one ≡ 2)
unfolding spawn new_runner update
waiting_unique_example = waiting_unique running one 2 running-Reach refl
