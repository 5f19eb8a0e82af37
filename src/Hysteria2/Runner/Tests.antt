-- ===== src/Hysteria2/Runner/Tests.antt =====
-- Concrete steps of internal/backend/hysteria2/runner.go.
use nde.Prelude.{ℕ, true, some, ◌≡◌, refl, number_key, update}
use nde.Hysteria2.Runner.{
  exited, removing, starting, Runner, new_runner, create, note, read_path, clear, Reach, here,
  later, starts, notes, reads, is_current,
}
use nde.Hysteria2.Runner.Files.{is_alive, config_there}

abbrev one : ℕ
one = 1

abbrev running : Runner
running = read_path (note (create new_runner starting) one) one

-- A second Start is under way, while the first process runs.
abbrev crowded : Runner
crowded = note (create running starting) 2

crowded-Reach : Reach new_runner crowded
unfolding new_runner create note read_path update is_current
crowded-Reach =
    later
      (later
        (later
          (later (later here (starts new_runner)) (notes (create new_runner starting) one refl))
          (reads (note (create new_runner starting) one) one refl))
        (starts running))
      (notes (create running starting) 2 refl)

config_there_example :
    (is_alive (crowded.waiter one) ≡ true → crowded.files one ≡ true)
    × ((f : ℕ)
        → crowded.waiter one ≡ exited (some f)
        → (clear crowded one (some f)).waiter one ≡ removing (some one))
    × ((f : ℕ) → crowded.waiter one ≡ removing (some f) → f ≡ one)
config_there_example = config_there crowded one crowded-Reach
