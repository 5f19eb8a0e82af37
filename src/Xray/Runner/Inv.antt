-- ===== src/Xray/Runner/Inv.antt =====
-- internal/backend/xray/runner.go: the invariant of the runner.
use nde.Prelude.{
  ℕ, ◌+◌, ◌≤◌, ◌<◌, true, false, Option, none, some, ◌==◌, ◌≡◌, ◌≢◌, refl, arith, number_key,
  update, ◌⊎◌, inl, inr, sym, ==_iff, Bool-cases, Option-cases,
}
use nde.Xray.Runner.{
  Waiter, absent, waiting, exited, sending, ended, Runner, new_runner, is_waiting, running_locked,
  spawn, spawn_unfed, clear, send_exit,
}

pub record Inv (r : Runner) : Type 0 where
  -- a process that runs is the one that the runner has
  pub current : (p : ℕ) → r.waiter p ≡ waiting → r.cmd ≡ some p
  pub fresh : (p : ℕ) → r.spawned < p → r.waiter p ≡ absent
  -- the goroutine for the process of a Start cannot go on before the Start returns
  pub held :
      (p : ℕ)
      → r.starting ≡ some p
      → (p ≡ r.spawned) × ((r.waiter p ≡ waiting) ⊎ (r.waiter p ≡ exited))
  -- an exit in the channel was sent by a goroutine that has ended
  pub sent : (q : ℕ) → r.exit_ch ≡ some q → r.waiter q ≡ ended
  pub last : (p : ℕ) → r.cmd ≡ some p → p ≤ r.spawned

pub new_runner-Inv : Inv new_runner
unfolding new_runner
new_runner-Inv = record {
  current = λ p h. absurd (ground (arith, h));
  fresh = λ p h. refl;
  held = λ p h. absurd (ground (arith, h));
  sent = λ q h. absurd (ground (arith, h));
  last = λ p h. absurd (ground (arith, h));
}

-- No process runs where runningLocked says so.
idle_none : (r : Runner) (p : ℕ) → Inv r → running_locked r ≡ false → r.waiter p ≢ waiting
unfolding running_locked is_waiting
idle_none r p inv off h =
    let seen : running_locked r ≡ true = rw (inv.current p h, h) refl in ground (arith, off, seen)

pub spawn-Inv : (r : Runner) → Inv r → running_locked r ≡ false → Inv (spawn r)
unfolding spawn update
spawn-Inv r inv off = record {
  current = λ p h. ground (arith, h, idle_none r p inv off, ==_iff (r.spawned + 1) p);
  fresh = λ p h. ground (arith, h, inv.fresh p, ==_iff (r.spawned + 1) p);
  held = λ p h. ground (arith, h, ==_iff (r.spawned + 1) p);
  sent = λ q h. absurd (ground (arith, h));
  last = λ p h. ground (arith, h);
}

pub spawn_unfed-Inv : (r : Runner) → Inv r → r.starting ≡ none → Inv (spawn_unfed r)
unfolding spawn_unfed
spawn_unfed-Inv r inv free = record {
  current = inv.current;
  fresh = λ p h. inv.fresh p (omega (arith, h));
  held = λ p h. absurd (ground (arith, h, free));
  sent = λ q h. absurd (ground (arith, h));
  last = λ p h. omega (arith, inv.last p h);
}

-- The goroutine of a process goes on, and what else changes keeps the invariant.
moves-Inv :
    (r : Runner) (p : ℕ) (to : Waiter) (cmd exit_ch : Option ℕ)
    → Inv r
    → r.waiter p ≢ absent
    → to ≢ waiting
    → ((q : ℕ) → p ≢ q → r.waiter q ≡ waiting → cmd ≡ some q)
    → ((q : ℕ) → r.starting ≡ some q → p ≡ q → to ≡ exited)
    → ((q : ℕ) → exit_ch ≡ some q → (p ≡ q → to ≡ ended) × (p ≢ q → r.waiter q ≡ ended))
    → ((q : ℕ) → cmd ≡ some q → q ≤ r.spawned)
    → Inv (record r { cmd = cmd; exit_ch = exit_ch; waiter = update r.waiter p to })
unfolding update
moves-Inv r p to cmd exit_ch inv there stopped current held sent last = record {
  current = λ q h. ground (arith, h, stopped, current q, ==_iff p q);
  fresh = λ q h. ground (arith, h, inv.fresh q, there, ==_iff p q);
  held = λ q h. ground (arith, h, inv.held q, held q, ==_iff p q);
  sent = λ q h. ground (arith, h, sent q, ==_iff p q);
  last = last;
}

pub exits-Inv :
    (r : Runner) (p : ℕ)
    → Inv r
    → r.waiter p ≡ waiting
    → Inv (record r { waiter = update r.waiter p exited })
exits-Inv r p inv at =
    moves-Inv r p exited r.cmd r.exit_ch inv (λ h. ground (arith, at, h)) (λ h. ground (arith, h))
      (λ q other h. inv.current q h) (λ q h e. refl)
      (λ q h. (λ e. ground (arith, e, inv.sent q h, at), λ other. inv.sent q h)) inv.last

-- The goroutine of a process that has ended goes on, while no Start is under way; the runner may
-- drop this process, and no other.
cleared :
    (r : Runner) (p : ℕ) (to : Waiter) (cmd : Option ℕ)
    → Inv r
    → r.starting ≡ none
    → r.waiter p ≡ exited
    → to ≢ waiting
    → (cmd ≡ r.cmd) ⊎ ((cmd ≡ none) × (r.cmd ≡ some p))
    → Inv (record r { cmd = cmd; waiter = update r.waiter p to })
cleared r p to cmd inv free at stopped kept =
    moves-Inv r p to cmd r.exit_ch inv (λ h. ground (arith, at, h)) stopped
      (λ q other h. ground (arith, other, kept, inv.current q h))
      (λ q h e. absurd (ground (arith, h, free)))
      (λ q h. (λ e. absurd (ground (arith, e, inv.sent q h, at)), λ other. inv.sent q h))
      (λ q h. ground (arith, h, kept, inv.last q))

pub clear-Inv :
    (r : Runner) (p : ℕ) → Inv r → r.starting ≡ none → r.waiter p ≡ exited → Inv (clear r p)
unfolding clear
clear-Inv r p inv free at = elim (Option-cases r.cmd) [
  | inl off ↦ rw off (cleared r p ended none inv free at (λ h. ground (arith, h)) (inl (sym off)))
  | inr (c, on) ↦ elim (Bool-cases (c == p)) [
    | inl mine ↦
        let it : r.cmd ≡ some p = ground (arith, on, mine, ==_iff c p) in
        rw (on, mine)
          (cleared r p sending none inv free at (λ h. ground (arith, h)) (inr (refl, it)))
    | inr other ↦
        rw (on, other)
          (cleared r p ended (some c) inv free at (λ h. ground (arith, h)) (inl (sym on)))
  ]
]

pub send_exit-Inv : (r : Runner) (p : ℕ) → Inv r → r.waiter p ≡ sending → Inv (send_exit r p)
unfolding send_exit
send_exit-Inv r p inv at =
    let full : Option ℕ = elim r.exit_ch [ none ↦ some p | some q ↦ some q ] in
    let either : (q : ℕ) → full ≡ some q → (q ≡ p) ⊎ (r.exit_ch ≡ some q) = λ q h.
      elim (Option-cases r.exit_ch) [
        | inl empty ↦ ground (arith, h, empty)
        | inr (c, one) ↦ ground (arith, h, one)
      ] in
    moves-Inv r p ended r.cmd full inv (λ h. ground (arith, at, h)) (λ h. ground (arith, h))
      (λ q other h. inv.current q h) (λ q h e. ground (arith, inv.held q h, at, e))
      (λ q h. (λ e. refl, λ other. ground (arith, either q h, inv.sent q, other))) inv.last
