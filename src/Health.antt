-- ===== src/Health.antt =====
-- monitorHealth of the three backends: a loop on a ticker that counts failed checks and restarts
-- the proxy. What the three have in common, for any loop whose ticks count in this way.
mod Tests
use nde.Prelude.{
  ℕ, zero, suc, ◌+◌, ◌≤◌, ◌<◌, Bool, true, false, ◌||◌, ◌&&◌, List, [], ◌∷◌, ◌≡◌, refl, arith,
  if◌then◌else◌, ltb, leb, Bool-cases, inl, inr, ap, ◌∙◌, sym,
}

-- `maxFailures` of a setting, where 0 stands for all that are not positive.
unfoldable pub max_failures : ℕ → ℕ
max_failures n = if leb n 0 then 3 else n

pub max_failures-pos : (n : ℕ) → 0 < max_failures n
unfolding max_failures
max_failures-pos n = ground arith

-- A tick takes the count of failures and what it sees, and gives the new count and whether it
-- calls Restart. A history has its newest tick first.
module _ {Seen : Type 0} (tick : ℕ → Seen → ℕ × Bool) where
  unfoldable pub failures : List Seen → ℕ
  failures [] = 0
  failures (s ∷ older) = (tick (failures older) s).0

  -- The newest tick calls Restart.
  unfoldable pub restarts : List Seen → Bool
  unfolding failures
  restarts [] = false
  restarts (s ∷ older) = (tick (failures older) s).1

  -- One of the newest ticks, this many, calls Restart.
  unfoldable pub restarts_within : ℕ → List Seen → Bool
  unfolding restarts
  restarts_within zero h = false
  restarts_within (suc k) [] = false
  restarts_within (suc k) (s ∷ older) = restarts (s ∷ older) || restarts_within k older

-- The newest ticks, this many, are there and all have this property.
unfoldable pub all_newest {ℓ} : {Seen : Type ℓ} → (Seen → Bool) → ℕ → List Seen → Bool
all_newest p zero h = true
all_newest p (suc k) [] = false
all_newest p (suc k) (s ∷ older) = p s && all_newest p k older

-- A failed check counts; the one that reaches the maximum starts over, and restarts if it may.
abbrev pub counted {ℓ} : {Seen : Type ℓ} → (Seen → Bool) → (Seen → Bool) → ℕ → ℕ → Seen → ℕ × Bool
counted failed may most n s =
    if failed s then if ltb (suc n) most then (suc n, false) else (0, may s) else (0, false)

module _ {Seen : Type 0} (tick : ℕ → Seen → ℕ × Bool) (failed may : Seen → Bool) (most : ℕ)
    (pos : 0 < most) (counts : (n : ℕ) (s : Seen) → tick n s ≡ counted failed may most n s) where
  failures-lt : (h : List Seen) → failures tick h < most
  unfolding failures
  failures-lt [] = pos
  failures-lt (s ∷ older) = ground (arith, counts (failures tick older) s, failures-lt older)

  all_newest-failures : (h : List Seen) → all_newest failed (failures tick h) h ≡ true
  unfolding failures all_newest
  all_newest-failures [] = refl
  all_newest-failures (s ∷ older) =
      ground (arith, counts (failures tick older) s, all_newest-failures older)

  -- A restart comes only after as many failed checks in a row as the setting says.
  pub all_newest-restarts :
      (h : List Seen) → restarts tick h ≡ true → all_newest failed most h ≡ true
  unfolding restarts all_newest
  all_newest-restarts [] e = cc
  all_newest-restarts (s ∷ older) e =
      ground
        (arith, counts (failures tick older) s, all_newest-failures older, failures-lt older, e)

  -- And only where it may.
  pub may-restarts : (h : List Seen) → restarts tick h ≡ true → all_newest may 1 h ≡ true
  unfolding restarts all_newest
  may-restarts [] e = cc
  may-restarts (s ∷ older) e = ground (arith, counts (failures tick older) s, e)

  failures_or_restart :
      (k : ℕ) (h : List Seen)
      → all_newest (λ s. failed s && may s) k h ≡ true
      → restarts_within tick k h ≡ false
      → k ≤ failures tick h
  unfolding restarts_within restarts all_newest failures
  failures_or_restart zero h bad quiet = omega arith
  failures_or_restart (suc k) [] bad quiet = cc
  failures_or_restart (suc k) (s ∷ older) bad quiet =
      ground (arith, counts (failures tick older) s, failures_or_restart k older, bad, quiet)

  -- So many failed checks in a row, with a restart allowed at each, are not left without one.
  pub restarts_within-all_newest :
      (h : List Seen)
      → all_newest (λ s. failed s && may s) most h ≡ true
      → restarts_within tick most h ≡ true
  restarts_within-all_newest h bad = elim (Bool-cases (restarts_within tick most h)) [
    | inl hit ↦ hit
    | inr quiet ↦ absurd (omega (arith, failures_or_restart most h bad quiet, failures-lt h))
  ]
