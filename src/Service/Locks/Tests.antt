-- ===== src/Service/Locks/Tests.antt =====
-- Concrete runs of lockUser of internal/service/service.go: three goroutines, two for user 5.
use nde.Prelude.{
  update, ℕ, true, false, none, some, List, [], ◌∷◌, ◌≡◌, refl, zero, suc, ◌≢◌, arith, number_key,
}
use nde.Prelude.Dict.{get, put}
use nde.Service.Locks.{
  System, registers, acquires, releases, drops, Reach, here, later, no_locks, register_lock,
  drop_lock,
}
use nde.Service.Locks.Threads.{Phase, idle, waiting, holding, unlocked, phase_at, set_phase}
use nde.Service.Locks.Safety.{AllIdle, start, mutual_exclusion, no_lock_leaks, waiter_proceeds}

abbrev three : List Phase
three = idle ∷ idle ∷ idle ∷ []

three_idle : AllIdle three
unfolding phase_at
three_idle zero p e = cc
three_idle (suc zero) p e = cc
three_idle (suc (suc zero)) p e = cc
three_idle (suc (suc (suc i))) p e = cc

abbrev registering : System → ℕ → ℕ → System
registering s i uid = record {
  locks = (register_lock s.locks uid).0;
  threads = set_phase s.threads i (waiting uid (register_lock s.locks uid).1);
}

abbrev acquiring : System → ℕ → ℕ → ℕ → System
acquiring s i uid lk = record {
  locks = record s.locks { locked = update s.locks.locked lk true };
  threads = set_phase s.threads i (holding uid lk);
}

abbrev releasing : System → ℕ → ℕ → ℕ → System
releasing s i uid lk = record {
  locks = record s.locks { locked = update s.locks.locked lk false };
  threads = set_phase s.threads i (unlocked uid lk);
}

abbrev dropping : System → ℕ → ℕ → ℕ → System
dropping s i uid lk = record {
  locks = drop_lock s.locks uid lk;
  threads = set_phase s.threads i idle;
}

-- Goroutine 0 is in the section of user 5, and goroutine 1 waits for it.
abbrev busy : System
busy = acquiring (registering (registering (start three) 0 5) 1 5) 0 5 0

start-busy : Reach (start three) busy
unfolding phase_at set_phase register_lock update no_locks get put
start-busy =
    later
      (later (later here (registers (start three) 0 5 refl))
        (registers (registering (start three) 0 5) 1 5 refl))
      (acquires (registering (registering (start three) 0 5) 1 5) 0 5 0 refl refl)

abbrev handed_over : System
handed_over = releasing busy 0 5 0

start-handed_over : Reach (start three) handed_over
unfolding phase_at set_phase register_lock update no_locks get put
start-handed_over = later start-busy (releases busy 0 5 0 refl)

abbrev entered : System
entered = acquiring (dropping handed_over 0 5 0) 1 5 0

start-entered : Reach (start three) entered
unfolding phase_at set_phase register_lock drop_lock update no_locks get put
start-entered =
    later (later start-handed_over (drops handed_over 0 5 0 refl))
      (acquires (dropping handed_over 0 5 0) 1 5 0 refl refl)

abbrev over : System
over = dropping (releasing entered 1 5 0) 1 5 0

start-over : Reach (start three) over
unfolding phase_at set_phase register_lock drop_lock update no_locks get put
start-over =
    later (later start-entered (releases entered 1 5 0 refl))
      (drops (releasing entered 1 5 0) 1 5 0 refl)

over_idle : AllIdle over.threads
unfolding phase_at set_phase register_lock drop_lock update no_locks get put
over_idle zero p e = cc
over_idle (suc zero) p e = cc
over_idle (suc (suc zero)) p e = cc
over_idle (suc (suc (suc i))) p e = cc

mutual_exclusion_example : phase_at entered.threads 0 ≢ some (holding 5 0)
unfolding phase_at set_phase register_lock drop_lock update no_locks get put
mutual_exclusion_example =
    mutual_exclusion three three_idle start-entered 1 0 5 0 0 refl (λ e. omega (arith, e))

no_lock_leaks_example : get 5 over.locks.user_locks ≡ none
no_lock_leaks_example = no_lock_leaks three three_idle start-over over_idle 5

section_is_free : (j m : ℕ) → phase_at handed_over.threads j ≢ some (holding 5 m)
unfolding phase_at set_phase register_lock update no_locks get put
section_is_free zero m e = cc
section_is_free (suc zero) m e = cc
section_is_free (suc (suc zero)) m e = cc
section_is_free (suc (suc (suc i))) m e = cc

waiter_proceeds_example : handed_over.locks.locked 0 ≡ false
unfolding phase_at set_phase register_lock update no_locks get put
waiter_proceeds_example =
    waiter_proceeds three three_idle start-handed_over 1 5 0 refl section_is_free
