-- ===== src/Singbox/Runner/Exits.antt =====
-- internal/backend/singbox/runner.go: one process at a time, and the exit that is sent for it.
use nde.Prelude.{
  ℕ, ◌+◌, ◌<◌, true, false, Option, none, some, ◌==◌, ◌≡◌, ◌≢◌, refl, arith, number_key, update,
  ◌⊎◌, inl, inr, ==_iff, Bool-cases, Option-cases,
}
use nde.Backend.{Error}
use nde.Xray.Runner.{Waiter, absent, waiting, exited, sending, ended, is_waiting}
use nde.Singbox.Runner.{
  Runner, new_runner, running_locked, spawn, start, is_current, clear, send_exit, Quiet, exits,
  clears, sends, Step, starts, quiet, receives, Reach, here, later, Quietly, still, then_quiet,
}

-- A process that runs is the one that the runner has.
record Inv (r : Runner) : Type 0 where
  current : (p : ℕ) → r.waiter p ≡ waiting → r.cmd ≡ some p
  fresh : (p : ℕ) → r.spawned < p → r.waiter p ≡ absent

new_runner-Inv : Inv new_runner
unfolding new_runner
new_runner-Inv = record { current = λ p h. absurd (ground (arith, h)); fresh = λ p h. refl }

is_current-cmd : (r : Runner) (p : ℕ) → is_current r p ≡ true → r.cmd ≡ some p
unfolding is_current
is_current-cmd r p h = elim (Option-cases r.cmd) [
  | inl off ↦ absurd (ground (arith, h, off))
  | inr (c, on) ↦ ground (arith, h, on, ==_iff c p)
]

cmd-is_current : (r : Runner) (p : ℕ) → r.cmd ≡ some p → is_current r p ≡ true
unfolding is_current
cmd-is_current r p h = rw h ((==_iff p p).1 refl)

-- No process runs where runningLocked says so.
idle_none : (r : Runner) (p : ℕ) → Inv r → running_locked r ≡ false → r.waiter p ≢ waiting
unfolding running_locked is_waiting
idle_none r p inv off h =
    let seen : running_locked r ≡ true = rw (inv.current p h, h) refl in ground (arith, off, seen)

spawn-Inv : (r : Runner) → Inv r → running_locked r ≡ false → Inv (spawn r)
unfolding spawn update
spawn-Inv r inv off = record {
  current = λ p h. ground (arith, h, idle_none r p inv off, ==_iff (r.spawned + 1) p);
  fresh = λ p h. ground (arith, h, inv.fresh p, ==_iff (r.spawned + 1) p);
}

start-Inv : (r : Runner) (err : Option Error) → Inv r → Inv (start r err).1
unfolding start
start-Inv r (some e) inv = elim (Bool-cases (running_locked r)) [
  | inl on ↦ rw (on) inv
  | inr off ↦ rw (off) inv
]
start-Inv r none inv = elim (Bool-cases (running_locked r)) [
  | inl on ↦ rw (on) inv
  | inr off ↦ rw (off) (spawn-Inv r inv off)
]

-- The goroutine of a process that is there goes on.
moves-Inv :
    (r : Runner) (p : ℕ) (to : Waiter) (cmd exit_ch : Option ℕ)
    → Inv r
    → r.waiter p ≢ absent
    → to ≢ waiting
    → ((q : ℕ) → p ≢ q → r.waiter q ≡ waiting → cmd ≡ some q)
    → Inv (record r { cmd = cmd; exit_ch = exit_ch; waiter = update r.waiter p to })
unfolding update
moves-Inv r p to cmd exit_ch inv there stopped current = record {
  current = λ q h. ground (arith, h, stopped, current q, ==_iff p q);
  fresh = λ q h. ground (arith, h, inv.fresh q, there, ==_iff p q);
}

clear-Inv : (r : Runner) (p : ℕ) → Inv r → r.waiter p ≡ exited → Inv (clear r p)
unfolding clear
clear-Inv r p inv at = elim (Bool-cases (is_current r p)) [
  | inl mine ↦ rw (mine) (
      moves-Inv r p sending none r.exit_ch inv (λ h. ground (arith, at, h)) (λ h. ground (arith, h))
        (λ q other h. absurd (ground (arith, other, inv.current q h, is_current-cmd r p mine))))
  | inr other ↦ rw (other) (
      moves-Inv r p ended r.cmd r.exit_ch inv (λ h. ground (arith, at, h)) (λ h. ground (arith, h))
        (λ q apart h. inv.current q h))
]

Quiet-Inv : {r t : Runner} → Quiet r t → Inv r → Inv t
unfolding send_exit
Quiet-Inv (exits r p at) inv =
    moves-Inv r p exited r.cmd r.exit_ch inv (λ h. ground (arith, at, h)) (λ h. ground (arith, h))
      (λ q apart h. inv.current q h)
Quiet-Inv (clears r p at) inv = clear-Inv r p inv at
Quiet-Inv (sends r p at) inv =
    moves-Inv r p ended r.cmd (elim r.exit_ch [ none ↦ some p | some q ↦ some q ]) inv
      (λ h. ground (arith, at, h)) (λ h. ground (arith, h)) (λ q apart h. inv.current q h)

step-Inv : {r t : Runner} → Step r t → Inv r → Inv t
step-Inv (starts r err) inv = start-Inv r err inv
step-Inv (quiet step) inv = Quiet-Inv step inv
step-Inv (receives r q full) inv = record { current = inv.current; fresh = inv.fresh }

reach-Inv : (r : Runner) → Reach new_runner r → Inv r
reach-Inv r here = new_runner-Inv
reach-Inv r (later {s} past step) = step-Inv step (reach-Inv s past)

-- A process that ends while nobody else acts: its exit is on its way into the channel, or there is one.
data Follows (p : ℕ) (s : Runner) : Type 0 where
  not_yet : (s.waiter p ≡ waiting) ⊎ (s.waiter p ≡ exited) → s.cmd ≡ some p → Follows p s
  on_its_way : s.waiter p ≡ sending → Follows p s
  arrived : s.waiter p ≡ ended → (q : ℕ) → s.exit_ch ≡ some q → Follows p s

dropped-Follows :
    (r : Runner) (p q : ℕ)
    → r.waiter q ≡ exited
    → r.cmd ≡ some q
    → Follows p r
    → Follows p (record r { cmd = none; waiter = update r.waiter q sending })
unfolding update
dropped-Follows r p q at now (not_yet before mine) =
    on_its_way (ground (arith, now, mine, ==_iff q p))
dropped-Follows r p q at now (on_its_way there) = on_its_way (ground (arith, at, there, ==_iff q p))
dropped-Follows r p q at now (arrived over t full) =
    arrived (ground (arith, at, over, ==_iff q p)) t full

passed-Follows :
    (r : Runner) (p q : ℕ)
    → r.waiter q ≡ exited
    → r.cmd ≢ some q
    → Follows p r
    → Follows p (record r { waiter = update r.waiter q ended })
unfolding update
passed-Follows r p q at apart (not_yet before mine) =
    not_yet (ground (arith, before, apart, mine, ==_iff q p)) mine
passed-Follows r p q at apart (on_its_way there) =
    on_its_way (ground (arith, at, there, ==_iff q p))
passed-Follows r p q at apart (arrived over t full) =
    arrived (ground (arith, at, over, ==_iff q p)) t full

clear-Follows : (r : Runner) (p q : ℕ) → r.waiter q ≡ exited → Follows p r → Follows p (clear r q)
unfolding clear
clear-Follows r p q at follows = elim (Bool-cases (is_current r q)) [
  | inl mine ↦ rw (mine) (dropped-Follows r p q at (is_current-cmd r q mine) follows)
  | inr other ↦
      rw (other)
        (passed-Follows r p q at (λ h. ground (arith, other, cmd-is_current r q h)) follows)
]

-- What is in the channel after a send.
sent_lem :
    (e : Option ℕ) (q : ℕ) → (t : ℕ) × ((elim e [ none ↦ some q | some t ↦ some t ]) ≡ some t)
sent_lem none q = (q, refl)
sent_lem (some t) q = (t, refl)

send_exit-Follows :
    (r : Runner) (p q : ℕ) → r.waiter q ≡ sending → Follows p r → Follows p (send_exit r q)
unfolding send_exit update
send_exit-Follows r p q at (not_yet before mine) =
    not_yet (ground (arith, at, before, ==_iff q p)) mine
send_exit-Follows r p q at (on_its_way there) = elim (Bool-cases (q == p)) [
  | inl same ↦ let (t, full) = sent_lem r.exit_ch q in arrived (ground (arith, same)) t full
  | inr other ↦ on_its_way (ground (arith, other, there))
]
send_exit-Follows r p q at (arrived over t full) = arrived (ground (arith, over)) t (rw (full) refl)

Quiet-Follows : {r t : Runner} (p : ℕ) → Quiet r t → Follows p r → Follows p t
unfolding update
Quiet-Follows p (exits r q at) (not_yet before mine) =
    not_yet (ground (arith, before, ==_iff q p)) mine
Quiet-Follows p (exits r q at) (on_its_way there) =
    on_its_way (ground (arith, at, there, ==_iff q p))
Quiet-Follows p (exits r q at) (arrived over t full) =
    arrived (ground (arith, at, over, ==_iff q p)) t full
Quiet-Follows p (clears r q at) follows = clear-Follows r p q at follows
Quiet-Follows p (sends r q at) follows = send_exit-Follows r p q at follows

Quietly-Follows : {r s : Runner} (p : ℕ) → Quietly r s → Follows p r → Follows p s
Quietly-Follows p still follows = follows
Quietly-Follows p (then_quiet past step) follows =
    Quiet-Follows p step (Quietly-Follows p past follows)

ended-Follows :
    (p : ℕ) (s : Runner) → Follows p s → s.waiter p ≡ ended → (q : ℕ) × (s.exit_ch ≡ some q)
ended-Follows p s (not_yet before mine) over = absurd (ground (arith, before, over))
ended-Follows p s (on_its_way there) over = absurd (ground (arith, there, over))
ended-Follows p s (arrived at t full) over = (t, full)

-- While a process of sing-box has not ended, the runner says that sing-box runs, so that Start refuses,
-- and no other process runs. When it ends, with no Start and no receiver in between, there is an exit in
-- the channel as soon as the goroutine that waited for the process has ended.
pub exit_sent :
    (r s : Runner) (p : ℕ)
    → Reach new_runner r
    → r.waiter p ≡ waiting
    → Quietly r s
    → (running_locked r ≡ true)
      × ((q : ℕ) → r.waiter q ≡ waiting → p ≡ q)
      × (s.waiter p ≡ ended → (q : ℕ) × (s.exit_ch ≡ some q))
unfolding running_locked is_waiting
exit_sent r s p past at later_on =
    let inv = reach-Inv r past in
    let mine = inv.current p at in
    (
      rw (mine, at) refl,
      λ q other. ground (arith, mine, inv.current q other),
      ended-Follows p s (Quietly-Follows p later_on (not_yet (inl at) mine)),
    )
