-- ===== src/Service/Locks/Drop.antt =====
-- internal/service/service.go, lockUser: the part of the unlock under `lockMu` keeps the invariant.
use nde.Prelude.{
  update, ℕ, ◌-◌, ◌<◌, some, ◌≡◌, refl, sym, ◌∙◌, number_key, leb, arith, Bool-cases, inl, inr,
  ==_iff, ==_refl,
}
use nde.Prelude.Dict.{get, delete, get-delete}
use nde.Service.Locks.Threads.{
  idle, unlocked, phase_at, set_phase, total-set_phase, total_ge_two, refers, owns, Concerns-refers,
}
use nde.Service.Locks.{drop_lock, System}
use nde.Service.Locks.Inv.{Inv, mapped-set_phase}

module _ (s : System) (i uid lk : ℕ) (inv : Inv s) where
  abbrev without_ref : (ℕ → ℕ) → ℕ → ℕ
  without_ref refs = update refs lk (refs lk - 1)

  -- The last reference goes, and with it the user's entry.
  drops-Inv_last :
      phase_at s.threads i ≡ some (unlocked uid lk)
      → get uid s.locks.user_locks ≡ some lk
      → s.locks.refs lk ≡ 1
      → Inv (record {
        locks = record s.locks {
          refs = without_ref s.locks.refs;
          user_locks = delete uid s.locks.user_locks;
        };
        threads = set_phase s.threads i idle;
      })
  unfolding update refers owns
  drops-Inv_last at found last = record {
    counted = λ k.
        let moved = total-set_phase (refers k) s.threads i (unlocked uid lk) idle at in
        ground (arith, moved, inv.counted k);
    owned = λ k.
        let moved = total-set_phase (owns k) s.threads i (unlocked uid lk) idle at in
        ground (arith, moved, inv.owned k);
    mapped = λ j u k r.
        mapped-set_phase s i u k (unlocked uid lk) idle
          (record s.locks { user_locks = delete uid s.locks.user_locks }) at inv
          (λ v m con. absurd con)
          (λ j r other there con. rw get-delete (
            ground (
              arith,
              found,
              last,
              ==_iff uid u,
              inv.mapped j u k r there con,
              inv.counted k,
              Concerns-refers r u k con,
              total_ge_two (refers k) s.threads i j (unlocked uid lk) r other at there,
            )))
          j r;
    used = λ u k h.
        let h' = sym (get-delete uid u s.locks.user_locks) ∙ h in
        ground (arith, inv.used u k, inv.apart u uid k, found, ==_iff uid u, h');
    apart = λ u v k h g.
        let h' = sym (get-delete uid u s.locks.user_locks) ∙ h in
        let g' = sym (get-delete uid v s.locks.user_locks) ∙ g in
        ground (arith, inv.apart u v k, h', g');
    fresh = λ k h. ground (arith, inv.fresh k h);
  }

  drops-Inv_more :
      phase_at s.threads i ≡ some (unlocked uid lk)
      → 1 < s.locks.refs lk
      → Inv (record {
        locks = record s.locks { refs = without_ref s.locks.refs };
        threads = set_phase s.threads i idle;
      })
  unfolding update refers owns
  drops-Inv_more at more = record {
    counted = λ k.
        let moved = total-set_phase (refers k) s.threads i (unlocked uid lk) idle at in
        ground (arith, moved, inv.counted k);
    owned = λ k.
        let moved = total-set_phase (owns k) s.threads i (unlocked uid lk) idle at in
        ground (arith, moved, inv.owned k);
    mapped = λ j u k r.
        mapped-set_phase s i u k (unlocked uid lk) idle s.locks at inv (λ v m con. absurd con)
          (λ j r other there con. inv.mapped j u k r there con) j r;
    used = λ u k h. ground (arith, inv.used u k h);
    apart = inv.apart;
    fresh = λ k h. ground (arith, inv.fresh k h);
  }

  pub drops-Inv :
      phase_at s.threads i ≡ some (unlocked uid lk)
      → Inv (record { locks = drop_lock s.locks uid lk; threads = set_phase s.threads i idle })
  unfolding drop_lock
  drops-Inv at =
      let found = inv.mapped i uid lk (unlocked uid lk) at (refl, refl) in
      let some_ref = inv.used uid lk found in
      elim (Bool-cases (leb (s.locks.refs lk - 1) 0)) [
        | inl last ↦ rw (last, found, ==_refl lk) (drops-Inv_last at found (ground arith))
        | inr more ↦ rw more (drops-Inv_more at (ground arith))
      ]
