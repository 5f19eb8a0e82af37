-- ===== src/Service/Locks/Register.antt =====
-- internal/service/service.go, lockUser: the part under `lockMu` keeps the invariant.
use nde.Prelude.{
  update, ℕ, ◌+◌, false, none, some, ◌≡◌, refl, sym, ◌∙◌, number_key, arith, Option-cases, inl, inr,
  ==_iff,
}
use nde.Prelude.Dict.{get, put, get-put}
use nde.Service.Locks.Threads.{idle, waiting, phase_at, set_phase, total-set_phase, refers, owns}
use nde.Service.Locks.{register_lock, System}
use nde.Service.Locks.Inv.{Inv, total-owns-le, mapped-set_phase}

module _ (s : System) (i uid lk : ℕ) (inv : Inv s) where
  -- A lock that the map has.
  registers-Inv_old :
      phase_at s.threads i ≡ some idle
      → get uid s.locks.user_locks ≡ some lk
      → Inv (record {
        locks = record s.locks { refs = update s.locks.refs lk (s.locks.refs lk + 1) };
        threads = set_phase s.threads i (waiting uid lk);
      })
  unfolding update refers owns
  registers-Inv_old at found = record {
    counted = λ k.
        let moved = total-set_phase (refers k) s.threads i idle (waiting uid lk) at in
        ground (arith, moved, inv.counted k);
    owned = λ k.
        let moved = total-set_phase (owns k) s.threads i idle (waiting uid lk) at in
        ground (arith, moved, inv.owned k);
    mapped = λ j u k r.
        mapped-set_phase s i u k idle (waiting uid lk) s.locks at inv
          (λ v m con. ground (arith, con.0, con.1, found))
          (λ j r other there con. inv.mapped j u k r there con) j r;
    used = λ u k h. ground (arith, inv.used u k h);
    apart = inv.apart;
    fresh = λ k h. ground (arith, inv.fresh k h, inv.used uid lk found);
  }

  -- A new lock.
  registers-Inv_new :
      phase_at s.threads i ≡ some idle
      → get uid s.locks.user_locks ≡ none
      → lk ≡ s.locks.next
      → Inv (record {
        locks = record {
          user_locks = put uid lk s.locks.user_locks;
          refs = update s.locks.refs lk (0 + 1);
          locked = update s.locks.locked lk false;
          next = lk + 1;
        };
        threads = set_phase s.threads i (waiting uid lk);
      })
  unfolding update refers owns
  registers-Inv_new at missing new = record {
    counted = λ k.
        let moved = total-set_phase (refers k) s.threads i idle (waiting uid lk) at in
        ground (arith, moved, inv.counted k, inv.fresh lk (ground arith));
    owned = λ k.
        let moved = total-set_phase (owns k) s.threads i idle (waiting uid lk) at in
        ground (
          arith,
          moved,
          inv.owned k,
          inv.counted k,
          inv.fresh lk (ground arith),
          total-owns-le s.threads k,
        );
    mapped = λ j u k r.
        mapped-set_phase s i u k idle (waiting uid lk)
          (record {
            user_locks = put uid lk s.locks.user_locks;
            refs = s.locks.refs;
            locked = s.locks.locked;
            next = s.locks.next;
          })
          at inv (λ v m con. rw get-put (ground (arith, con.0, con.1)))
          (λ j r other there con.
            rw get-put (ground (arith, missing, inv.mapped j u k r there con, ==_iff uid u)))
          j r;
    used = λ u k h.
        let h' = sym (get-put uid u lk s.locks.user_locks) ∙ h in
        ground (arith, inv.used u k, ==_iff uid u, h');
    apart = λ u v k h g.
        let h' = sym (get-put uid u lk s.locks.user_locks) ∙ h in
        let g' = sym (get-put uid v lk s.locks.user_locks) ∙ g in
        ground (
          arith,
          inv.apart u v k,
          inv.used u k,
          inv.used v k,
          inv.fresh lk (ground arith),
          ==_iff uid u,
          ==_iff uid v,
          h',
          g',
        );
    fresh = λ k h. ground (arith, inv.fresh k);
  }

pub registers-Inv :
    (s : System) (i uid : ℕ)
    → Inv s
    → phase_at s.threads i ≡ some idle
    → Inv (record {
      locks = (register_lock s.locks uid).0;
      threads = set_phase s.threads i (waiting uid (register_lock s.locks uid).1);
    })
unfolding register_lock
registers-Inv s i uid inv at = elim (Option-cases (get uid s.locks.user_locks)) [
  | inl missing ↦
      rw (missing, register_lock) (registers-Inv_new s i uid s.locks.next inv at missing refl)
  | inr (lk, found) ↦ rw (found, register_lock) (registers-Inv_old s i uid lk inv at found)
]
