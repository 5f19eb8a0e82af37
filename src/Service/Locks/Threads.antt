-- ===== src/Service/Locks/Threads.antt =====
-- internal/service/service.go, lockUser: where a goroutine is, and counts over all goroutines.
use nde.Prelude.{
  ℕ, zero, suc, ◌+◌, ◌≤◌, ◌<◌, Option, none, some, List, [], ◌∷◌, ◌==◌, ◌≡◌, ◌≢◌, refl, arith,
  number_key, if◌then◌else◌, ap, ◌⊎◌, inl, inr, sym, ◌∙◌, Bool-cases, leb,
}

-- Before lockUser; waiting for `lk.mu`, which it has a reference to; between lockUser and the
-- unlock; and in the unlock, with `lk.mu` released and the reference still counted.
pub data Phase : Type 0 where
  idle : Phase
  waiting : ℕ → ℕ → Phase
  holding : ℕ → ℕ → Phase
  unlocked : ℕ → ℕ → Phase

unfoldable pub phase_at : List Phase → ℕ → Option Phase
phase_at [] i = none
phase_at (p ∷ ps) zero = some p
phase_at (p ∷ ps) (suc i) = phase_at ps i

unfoldable pub set_phase : List Phase → ℕ → Phase → List Phase
set_phase [] i q = []
set_phase (p ∷ ps) zero q = q ∷ ps
set_phase (p ∷ ps) (suc i) q = p ∷ set_phase ps i q

pub phase_at-set_phase :
    (ps : List Phase) (i j : ℕ) (p q : Phase)
    → phase_at ps i ≡ some p
    → phase_at (set_phase ps i q) j ≡ (if i == j then some q else phase_at ps j)
unfolding phase_at set_phase
phase_at-set_phase [] i j p q h = cc
phase_at-set_phase (x ∷ ps) zero zero p q h = refl
phase_at-set_phase (x ∷ ps) zero (suc j) p q h = ground arith
phase_at-set_phase (x ∷ ps) (suc i) zero p q h = ground arith
phase_at-set_phase (x ∷ ps) (suc i) (suc j) p q h = ground (arith, phase_at-set_phase ps i j p q h)

pub phase_at-set_phase_cases :
    (ps : List Phase) (i j : ℕ) (p q r : Phase)
    → phase_at ps i ≡ some p
    → phase_at (set_phase ps i q) j ≡ some r
    → ((i ≡ j) × (q ≡ r)) ⊎ ((i ≢ j) × (phase_at ps j ≡ some r))
phase_at-set_phase_cases ps i j p q r h e =
    let found : (if i == j then some q else phase_at ps j) ≡ some r =
      sym (phase_at-set_phase ps i j p q h) ∙ e in
    elim (Bool-cases (i == j)) [
      | inl hit ↦ let same : some q ≡ some r = rw hit at found in inl (ground arith, cc)
      | inr miss ↦ inr ((λ e. ground (arith, e)), rw miss at found)
    ]

-- A sum over the goroutines.
unfoldable pub total : (Phase → ℕ) → List Phase → ℕ
total w [] = 0
total w (p ∷ ps) = w p + total w ps

pub total-set_phase :
    (w : Phase → ℕ) (ps : List Phase) (i : ℕ) (p q : Phase)
    → phase_at ps i ≡ some p
    → total w (set_phase ps i q) + w p ≡ total w ps + w q
unfolding phase_at set_phase total
total-set_phase w [] i p q h = cc
total-set_phase w (x ∷ ps) zero p q h = ground arith
total-set_phase w (x ∷ ps) (suc i) p q h = omega (arith, total-set_phase w ps i p q h)

pub total_ge :
    (w : Phase → ℕ) (ps : List Phase) (i : ℕ) (p : Phase)
    → phase_at ps i ≡ some p
    → w p ≤ total w ps
unfolding phase_at total
total_ge w [] i p h = cc
total_ge w (x ∷ ps) zero p h = ground arith
total_ge w (x ∷ ps) (suc i) p h = omega (arith, total_ge w ps i p h)

-- Two goroutines contribute both.
pub total_ge_two :
    (w : Phase → ℕ) (ps : List Phase) (i j : ℕ) (p q : Phase)
    → i ≢ j
    → phase_at ps i ≡ some p
    → phase_at ps j ≡ some q
    → w p + w q ≤ total w ps
unfolding phase_at total
total_ge_two w [] i j p q d h k = cc
total_ge_two w (x ∷ ps) zero zero p q d h k = absurd (d refl)
total_ge_two w (x ∷ ps) zero (suc j) p q d h k = ground (arith, total_ge w ps j q k)
total_ge_two w (x ∷ ps) (suc i) zero p q d h k = ground (arith, total_ge w ps i p h)
total_ge_two w (x ∷ ps) (suc i) (suc j) p q d h k =
    omega (arith, total_ge_two w ps i j p q (λ e. d (ap suc e)) h k)

pub total-eq-zero :
    (w : Phase → ℕ) (ps : List Phase)
    → ((i : ℕ) (p : Phase) → phase_at ps i ≡ some p → w p ≡ 0)
    → total w ps ≡ 0
unfolding phase_at total
total-eq-zero w [] h = refl
total-eq-zero w (x ∷ ps) h = omega (arith, h 0 x refl, total-eq-zero w ps (λ i p e. h (suc i) p e))

-- The goroutine has a reference to this lock; it has locked it.
unfoldable pub refers : ℕ → Phase → ℕ
refers lk idle = 0
refers lk (waiting uid k) = if k == lk then 1 else 0
refers lk (holding uid k) = if k == lk then 1 else 0
refers lk (unlocked uid k) = if k == lk then 1 else 0

unfoldable pub owns : ℕ → Phase → ℕ
owns lk (holding uid k) = if k == lk then 1 else 0
owns lk _ = 0

-- The user and the lock that a goroutine is concerned with.
abbrev pub Concerns : Phase → ℕ → ℕ → Type 0
Concerns idle uid lk = ⊥
Concerns (waiting u k) uid lk = (u ≡ uid) × (k ≡ lk)
Concerns (holding u k) uid lk = (u ≡ uid) × (k ≡ lk)
Concerns (unlocked u k) uid lk = (u ≡ uid) × (k ≡ lk)

pub Concerns-refers : (p : Phase) (uid lk : ℕ) → Concerns p uid lk → refers lk p ≡ 1
unfolding refers
Concerns-refers idle uid lk con = absurd con
Concerns-refers (waiting u k) uid lk con = ground (arith, con.1)
Concerns-refers (holding u k) uid lk con = ground (arith, con.1)
Concerns-refers (unlocked u k) uid lk con = ground (arith, con.1)

pub total_pos :
    (w : Phase → ℕ) (ps : List Phase)
    → 0 < total w ps
    → (j : ℕ) × (p : Phase) × (phase_at ps j ≡ some p) × (0 < w p)
unfolding phase_at total
total_pos w [] h = absurd (omega arith)
total_pos w (x ∷ ps) h = elim (Bool-cases (leb (w x) 0)) [
  | inr pos ↦ (0, x, refl, ground arith)
  | inl none_here ↦ let (j, p, at_j, pos) = total_pos w ps (ground arith) in (suc j, p, at_j, pos)
]

-- Only a goroutine in a section owns a lock, and it is the lock of its user.
pub owns-pos : (k : ℕ) (p : Phase) → 0 < owns k p → (uid : ℕ) × (p ≡ holding uid k)
unfolding owns
owns-pos k idle h = absurd (omega arith)
owns-pos k (waiting u m) h = absurd (omega arith)
owns-pos k (holding u m) h = (u, ground arith)
owns-pos k (unlocked u m) h = absurd (omega arith)
