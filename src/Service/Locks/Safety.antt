-- ===== src/Service/Locks/Safety.antt =====
-- internal/service/service.go, lockUser: what holds in every state that the goroutines can reach.
use nde.Prelude.{
  ℕ, false, none, some, List, ◌≡◌, refl, sym, ◌∙◌, number_key, arith, Option-cases, Bool-cases, inl,
  inr, subst, ◌≢◌, ap,
}
use nde.Prelude.Dict.{get}
use nde.Service.Locks.Threads.{
  Phase, idle, waiting, holding, phase_at, total, total_ge_two, refers, owns, Concerns,
  total-eq-zero, total_pos, owns-pos,
}
use nde.Service.Locks.{
  no_locks, System, Step, registers, acquires, releases, drops, Reach, here, later,
}
use nde.Service.Locks.Inv.{Inv, acquires-Inv, releases-Inv}
use nde.Service.Locks.Register.{registers-Inv}
use nde.Service.Locks.Drop.{drops-Inv}

-- Every step of any goroutine keeps the invariant.
pub Step-Inv : {s t : System} → Step s t → Inv s → Inv t
Step-Inv (registers s i uid at) inv = registers-Inv s i uid inv at
Step-Inv (acquires s i uid lk at free) inv = acquires-Inv s i uid lk inv at free
Step-Inv (releases s i uid lk at) inv = releases-Inv s i uid lk inv at
Step-Inv (drops s i uid lk at) inv = drops-Inv s i uid lk inv at

abbrev pub AllIdle : List Phase → Type 0
AllIdle ps = (i : ℕ) (p : Phase) → phase_at ps i ≡ some p → p ≡ idle

abbrev pub start : List Phase → System
start ps = record { locks = no_locks; threads = ps }

idle-zero : (ps : List Phase) (w : Phase → ℕ) → w idle ≡ 0 → AllIdle ps → total w ps ≡ 0
idle-zero ps w z h = total-eq-zero w ps (λ i p e. rw (h i p e) z)

start-Inv : (ps : List Phase) → AllIdle ps → Inv (start ps)
unfolding no_locks get
start-Inv ps h = record {
  counted = λ k. sym (idle-zero ps (refers k) (unfold refers in refl) h);
  owned = λ k. idle-zero ps (owns k) (unfold owns in refl) h;
  mapped = λ i uid k p e con. absurd (subst (λ q. Concerns q uid k) (h i p e) con);
  used = λ uid k e. cc;
  apart = λ u v k e f. cc;
  fresh = λ k e. refl;
}

pub Reach-Inv : (ps : List Phase) {s : System} → AllIdle ps → Reach (start ps) s → Inv s
Reach-Inv ps h here = start-Inv ps h
Reach-Inv ps h (later r st) = Step-Inv st (Reach-Inv ps h r)

module _ {s : System} (ps : List Phase) (all_idle : AllIdle ps) (reach : Reach (start ps) s) where
  abbrev invariant : Inv s
  invariant = Reach-Inv ps all_idle reach

  -- However the goroutines interleave, while one of them is in the section of a user no other is.
  pub mutual_exclusion :
      (i j uid k m : ℕ)
      → phase_at s.threads i ≡ some (holding uid k)
      → i ≢ j
      → phase_at s.threads j ≢ some (holding uid m)
  unfolding owns
  mutual_exclusion i j uid k m at_i other at_j = ground (
    arith,
    invariant.mapped i uid k (holding uid k) at_i (refl, refl),
    invariant.mapped j uid m (holding uid m) at_j (refl, refl),
    invariant.owned k,
    total_ge_two (owns k) s.threads i j (holding uid k) (holding uid m) other at_i at_j,
  )

  -- When no goroutine is in lockUser, in a section or in an unlock, no lock is left in the map.
  pub no_lock_leaks : AllIdle s.threads → (uid : ℕ) → get uid s.locks.user_locks ≡ none
  no_lock_leaks quiet uid = elim (Option-cases (get uid s.locks.user_locks)) [
    | inl missing ↦ missing
    | inr (k, found) ↦ absurd (
        omega (
          arith,
          invariant.used uid k found,
          invariant.counted k,
          idle-zero s.threads (refers k) (unfold refers in refl) quiet,
        ))
  ]

  -- A goroutine that waits for a user's lock can take it at once unless some goroutine is in that
  -- user's section.
  pub waiter_proceeds :
      (i uid k : ℕ)
      → phase_at s.threads i ≡ some (waiting uid k)
      → ((j m : ℕ) → phase_at s.threads j ≢ some (holding uid m))
      → s.locks.locked k ≡ false
  waiter_proceeds i uid k at free = elim (Bool-cases (s.locks.locked k)) [
    | inr open_lock ↦ open_lock
    | inl taken ↦
        let (j, p, at_j, pos) =
          total_pos (owns k) s.threads (ground (arith, invariant.owned k, taken)) in
        let (u, held) = owns-pos k p pos in
        let at_u : phase_at s.threads j ≡ some (holding u k) = at_j ∙ ap some held in
        let same : u ≡ uid =
          invariant.apart u uid k (invariant.mapped j u k (holding u k) at_u (refl, refl))
            (invariant.mapped i uid k (waiting uid k) at (refl, refl)) in
        absurd (free j k (at_u ∙ ap (λ v. some (holding v k)) same))
  ]
