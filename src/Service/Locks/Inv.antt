-- ===== src/Service/Locks/Inv.antt =====
-- internal/service/service.go, lockUser: the invariant of the locks, and the steps that lock and
-- unlock a user's mutex.
use nde.Prelude.{
  update, ℕ, ◌≤◌, ◌<◌, true, false, some, List, [], ◌∷◌, ◌≡◌, sym, number_key, if◌then◌else◌, arith,
  inl, inr, subst, ◌≢◌,
}
use nde.Prelude.Dict.{get}
use nde.Service.Locks.Threads.{
  Phase, idle, waiting, holding, unlocked, phase_at, set_phase, phase_at-set_phase_cases, total,
  total-set_phase, refers, owns, Concerns,
}
use nde.Service.Locks.{Locks, System}

pub record Inv (s : System) : Type 0 where
  -- `refs` counts the goroutines that have a reference
  pub counted : (k : ℕ) → s.locks.refs k ≡ total (refers k) s.threads
  -- `mu` is locked if and only if one goroutine is in its section, and then by that one alone
  pub owned : (k : ℕ) → total (owns k) s.threads ≡ (if s.locks.locked k then 1 else 0)
  -- a goroutine's lock is the one that the map has for its user
  pub mapped :
      (i uid k : ℕ) (p : Phase)
      → phase_at s.threads i ≡ some p
      → Concerns p uid k
      → get uid s.locks.user_locks ≡ some k
  pub used : (uid k : ℕ) → get uid s.locks.user_locks ≡ some k → 0 < s.locks.refs k
  pub apart :
      (u v k : ℕ) → get u s.locks.user_locks ≡ some k → get v s.locks.user_locks ≡ some k → u ≡ v
  pub fresh : (k : ℕ) → s.locks.next ≤ k → s.locks.refs k ≡ 0

owns-le : (k : ℕ) (p : Phase) → owns k p ≤ refers k p
unfolding owns refers
owns-le k idle = omega arith
owns-le k (waiting u m) = omega arith
owns-le k (holding u m) = omega arith
owns-le k (unlocked u m) = omega arith

pub total-owns-le : (ps : List Phase) (k : ℕ) → total (owns k) ps ≤ total (refers k) ps
unfolding total
total-owns-le [] k = omega arith
total-owns-le (p ∷ ps) k = omega (arith, owns-le k p, total-owns-le ps k)

-- The goroutine that moves, and the others.
pub mapped-set_phase :
    (s : System) (i u k : ℕ) (p q : Phase) (locks : Locks)
    → phase_at s.threads i ≡ some p
    → Inv s
    → ((v m : ℕ) → Concerns q v m → get v locks.user_locks ≡ some m)
    → ((j : ℕ) (r : Phase)
        → i ≢ j
        → phase_at s.threads j ≡ some r
        → Concerns r u k
        → get u locks.user_locks ≡ some k)
    → (j : ℕ) (r : Phase) → phase_at (set_phase s.threads i q) j ≡ some r
    → Concerns r u k
    → get u locks.user_locks ≡ some k
mapped-set_phase s i u k p q locks at inv mine others j r here con =
    elim (phase_at-set_phase_cases s.threads i j p q r at here) [
      | inl (_, same) ↦ mine u k (subst (λ x. Concerns x u k) (sym same) con)
      | inr (other, there) ↦ others j r other there con
    ]

module _ (s : System) (i uid lk : ℕ) (inv : Inv s) where
  pub acquires-Inv :
      phase_at s.threads i ≡ some (waiting uid lk)
      → s.locks.locked lk ≡ false
      → Inv (record {
        locks = record s.locks { locked = update s.locks.locked lk true };
        threads = set_phase s.threads i (holding uid lk);
      })
  unfolding update refers owns
  acquires-Inv at free = record {
    counted = λ k.
        let moved = total-set_phase (refers k) s.threads i (waiting uid lk) (holding uid lk) at in
        ground (arith, moved, inv.counted k);
    owned = λ k.
        let moved = total-set_phase (owns k) s.threads i (waiting uid lk) (holding uid lk) at in
        ground (arith, moved, inv.owned k, free);
    mapped = λ j u k r.
        mapped-set_phase s i u k (waiting uid lk) (holding uid lk) s.locks at inv
          (λ v m con. inv.mapped i v m (waiting uid lk) at con)
          (λ j r other there con. inv.mapped j u k r there con) j r;
    used = inv.used;
    apart = inv.apart;
    fresh = inv.fresh;
  }

  pub releases-Inv :
      phase_at s.threads i ≡ some (holding uid lk)
      → Inv (record {
        locks = record s.locks { locked = update s.locks.locked lk false };
        threads = set_phase s.threads i (unlocked uid lk);
      })
  unfolding update refers owns
  releases-Inv at = record {
    counted = λ k.
        let moved = total-set_phase (refers k) s.threads i (holding uid lk) (unlocked uid lk) at in
        ground (arith, moved, inv.counted k);
    owned = λ k.
        let moved = total-set_phase (owns k) s.threads i (holding uid lk) (unlocked uid lk) at in
        ground (arith, moved, inv.owned k);
    mapped = λ j u k r.
        mapped-set_phase s i u k (holding uid lk) (unlocked uid lk) s.locks at inv
          (λ v m con. inv.mapped i v m (holding uid lk) at con)
          (λ j r other there con. inv.mapped j u k r there con) j r;
    used = inv.used;
    apart = inv.apart;
    fresh = inv.fresh;
  }
