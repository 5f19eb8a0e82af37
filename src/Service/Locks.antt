-- ===== src/Service/Locks.antt =====
-- internal/service/service.go, lockUser and the unlock that it returns: one mutex for each user,
-- counted and dropped from the map when the last goroutine lets go. The map is guarded by `lockMu`,
-- so each part of the code between two locks is one step; goroutines interleave between steps.
pub mod Threads
pub mod Inv
mod Register
mod Drop
pub mod Safety
mod Tests
use nde.Prelude.{
  update, ℕ, suc, ◌+◌, ◌-◌, Bool, true, false, Option, none, some, List, [], ◌∷◌, ◌==◌, ◌≡◌,
  number_key, if◌then◌else◌, leb,
}
use nde.Prelude.Dict.{Dict, get, put, delete}
use Threads.{Phase, idle, waiting, holding, unlocked, phase_at, set_phase}

-- `userLocks`, and the fields of the lock objects by their addresses: `refs`, and whether `mu` is
-- locked. Addresses from `next` on are not in use.
pub record Locks : Type 0 where
  pub user_locks : Dict ℕ ℕ
  pub refs : ℕ → ℕ
  pub locked : ℕ → Bool
  pub next : ℕ

unfoldable pub no_locks : Locks
no_locks = record { user_locks = []; refs = λ lk. 0; locked = λ lk. false; next = 0 }

-- The part of lockUser under `lockMu`: the user's lock, new if it has none, with one more
-- reference.
unfoldable pub register_lock : Locks → ℕ → Locks × ℕ
register_lock l uid = elim (get uid l.user_locks) [
  | some lk ↦ (record l { refs = update l.refs lk (l.refs lk + 1) }, lk)
  | none ↦ (
    record {
      user_locks = put uid l.next l.user_locks;
      refs = update l.refs l.next (0 + 1);
      locked = update l.locked l.next false;
      next = l.next + 1;
    },
    l.next,
  )
]

-- The part of the unlock under `lockMu`.
unfoldable pub drop_lock : Locks → ℕ → ℕ → Locks
drop_lock l uid lk =
    let left = l.refs lk - 1 in
    let l' : Locks = record l { refs = update l.refs lk left } in
    if leb left 0
    then elim (get uid l.user_locks) [
      | none ↦ l'
      | some current ↦
          if current == lk then record l' { user_locks = delete uid l.user_locks } else l'
    ]
    else l'

-- The goroutines of the service, each with the place where it is.
pub record System : Type 0 where
  pub locks : Locks
  pub threads : List Phase

pub data Step : System → System → Type 0 where
  registers :
      (s : System) (i uid : ℕ)
      → phase_at s.threads i ≡ some idle
      → Step s (record {
        locks = (register_lock s.locks uid).0;
        threads = set_phase s.threads i (waiting uid (register_lock s.locks uid).1);
      })
  acquires :
      (s : System) (i uid lk : ℕ)
      → phase_at s.threads i ≡ some (waiting uid lk)
      → s.locks.locked lk ≡ false
      → Step s (record {
        locks = record s.locks { locked = update s.locks.locked lk true };
        threads = set_phase s.threads i (holding uid lk);
      })
  releases :
      (s : System) (i uid lk : ℕ)
      → phase_at s.threads i ≡ some (holding uid lk)
      → Step s (record {
        locks = record s.locks { locked = update s.locks.locked lk false };
        threads = set_phase s.threads i (unlocked uid lk);
      })
  drops :
      (s : System) (i uid lk : ℕ)
      → phase_at s.threads i ≡ some (unlocked uid lk)
      → Step s (record { locks = drop_lock s.locks uid lk; threads = set_phase s.threads i idle })

pub data Reach (s : System) : System → Type 0 where
  here : Reach s s
  later : {t u : System} → Reach s t → Step t u → Reach s u
