-- ===== src/Xray/Runner/Startup.antt =====
-- internal/backend/xray/runner.go: one process at a time, and whose exit a Start reports.
use nde.Prelude.{ℕ, ◌<◌, true, some, ◌≡◌, refl, arith, number_key, ◌⊎◌}
use nde.Xray.Runner.{
  waiting, exited, Runner, new_runner, is_waiting, running_locked, Step, starts, starts_unfed,
  has_started, reports_exit, exits, clears, sends, receives, Reach, here, later,
}
use nde.Xray.Runner.Inv.{
  Inv, new_runner-Inv, spawn-Inv, spawn_unfed-Inv, exits-Inv, clear-Inv, send_exit-Inv,
}

step-Inv : {r t : Runner} → Step r t → Inv r → Inv t
step-Inv (starts r free off) inv = spawn-Inv r inv off
step-Inv (starts_unfed r free off) inv = spawn_unfed-Inv r inv free
step-Inv (has_started r p at) inv = record {
  current = inv.current;
  fresh = inv.fresh;
  held = λ q h. absurd (ground (arith, h));
  sent = inv.sent;
  last = inv.last;
}
step-Inv (reports_exit r p q at full) inv = record {
  current = inv.current;
  fresh = inv.fresh;
  held = λ q h. absurd (ground (arith, h));
  sent = λ q h. absurd (ground (arith, h));
  last = inv.last;
}
step-Inv (exits r p at) inv = exits-Inv r p inv at
step-Inv (clears r p free at) inv = clear-Inv r p inv free at
step-Inv (sends r p at) inv = send_exit-Inv r p inv at
step-Inv (receives r q full) inv = record {
  current = inv.current;
  fresh = inv.fresh;
  held = inv.held;
  sent = λ q h. absurd (ground (arith, h));
  last = inv.last;
}

reach-Inv : (r : Runner) → Reach new_runner r → Inv r
reach-Inv r here = new_runner-Inv
reach-Inv r (later {s} past step) = step-Inv step (reach-Inv s past)

-- Of the processes that were given their configuration at most one has not ended, and while it has
-- not, the runner says that xray runs, so Start refuses.
pub waiting_unique :
    (r : Runner) (p q : ℕ)
    → Reach new_runner r
    → r.waiter p ≡ waiting
    → (running_locked r ≡ true) × (r.waiter q ≡ waiting → p ≡ q)
unfolding running_locked is_waiting
waiting_unique r p q past at =
    let inv = reach-Inv r past in
    (rw (inv.current p at, at) refl, λ other. ground (arith, inv.current p at, inv.current q other))

-- While a Start waits for its process, an exit in the channel, which it would report as the exit of
-- its process, is that of an earlier one: its own process can end, but the goroutine that would say
-- so waits for the Start.
pub reported_exit_older :
    (r : Runner) (p q : ℕ)
    → Reach new_runner r
    → r.starting ≡ some p
    → r.exit_ch ≡ some q
    → (q < p) × ((r.waiter p ≡ waiting) ⊎ (r.waiter p ≡ exited))
reported_exit_older r p q past at full =
    let inv = reach-Inv r past in
    let own = inv.held p at in (ground (arith, own, inv.sent q full, inv.fresh q), own.1)
