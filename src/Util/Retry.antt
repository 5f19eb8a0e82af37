-- ===== src/Util/Retry.antt =====
-- internal/util/retry.go: attempts at a call, with a delay between them that doubles.
mod Tests
use nde.Prelude.{
  ℕ, zero, suc, ◌+◌, ◌*◌, ◌%◌, ◌<◌, ◌⊎◌, inl, inr, Bool, true, false, ◌||◌, Option, none, some,
  ◌==◌, ◌≡◌, refl, arith, number_key, if◌then◌else◌, leb, Option-cases, ap, ◌∙◌,
}
use nde.Backend.{Error, join}

-- `delay *= 2` on an int64, as a word of 64 bits in two's complement.
unfoldable pub double : ℕ → ℕ
double d = (d * 2) % 18446744073709551616

-- A delay that is zero or negative becomes 100 ms.
unfoldable pub first_delay : ℕ → ℕ
first_delay d = if d == 0 || leb 9223372036854775808 d then 100 * 1000000 else d

-- An attempt count of 0 stands for all that are not positive.
unfoldable pub attempt_count : ℕ → ℕ
attempt_count n = if leb n 0 then 1 else n

-- `call` is fn. `wait` is the timer against the context: nil when the timer fires first, the context's
-- error if not.
module _ {W : Type 0} (call : W → Option Error × W) (wait : W → ℕ → Option Error × W) where
  unfoldable pub retry_from : ℕ → Option Error → ℕ → W → Option Error × W
  unfolding double
  retry_from zero last_err delay w = (last_err, w)
  retry_from (suc left) last_err delay w =
      let (err, w1) = call w in
      elim err [
        | none ↦ (none, w1)
        | some e ↦
            let (cancelled, w2) = wait w1 delay in
            let again = retry_from left (some e) (double delay) w2 in
            if leb left 0
            then (some e, w1)
            else elim cancelled [ none ↦ again | some c ↦ (some (join e c), w2) ]
      ]

  unfoldable pub retry : ℕ → ℕ → W → Option Error × W
  unfolding retry_from attempt_count first_delay
  retry attempts initial_delay w =
      retry_from (attempt_count attempts) none (first_delay initial_delay) w

  -- The state in which attempt `k` is made, counted from 0, and the delay after it.
  unfoldable pub before : ℕ → ℕ → W → W
  before zero d w = w
  before (suc k) d w = before k (double d) (wait (call w).1 d).1

  unfoldable pub delay_after : ℕ → ℕ → ℕ
  delay_after zero d = d
  delay_after (suc k) d = delay_after k (double d)

  -- The first `k` attempts fail, and after each of them the timer fires.
  abbrev pub AllFail : ℕ → ℕ → W → Type 0
  AllFail zero d w = Unit
  AllFail (suc k) d w =
      ((e : Error) × ((call w).0 ≡ some e))
      × ((wait (call w).1 d).0 ≡ none)
      × AllFail k (double d) (wait (call w).1 d).1

  -- With `n` attempts, attempt `k` is the last one: it succeeds, or none is left, or the context ends
  -- during the delay.
  abbrev pub EndsAt : ℕ → ℕ → ℕ → W → Option Error × W → Type 0
  EndsAt n k d w result =
      (((call (before k d w)).0 ≡ none) × (result ≡ (none, (call (before k d w)).1)))
      ⊎ ((e : Error) × ((call (before k d w)).0 ≡ some e)
          × (((suc k ≡ n) × (result ≡ (some e, (call (before k d w)).1)))
              ⊎ ((c : Error) × ((wait (call (before k d w)).1 (delay_after k d)).0 ≡ some c)
                  × (result
                      ≡ (some (join e c), (wait (call (before k d w)).1 (delay_after k d)).1)))))

  -- One more failed attempt in front.
  EndsAt-suc :
      (n k d : ℕ) (w : W) (again result : Option Error × W)
      → result ≡ again
      → EndsAt n k (double d) (wait (call w).1 d).1 again
      → EndsAt (suc n) (suc k) d w result
  unfolding before delay_after
  EndsAt-suc n k d w again result same (inl (done, r)) = inl (done, same ∙ r)
  EndsAt-suc n k d w again result same (inr (e, failed, inl (last, r))) =
      inr (e, failed, inl (ap suc last, same ∙ r))
  EndsAt-suc n k d w again result same (inr (e, failed, inr (c, ended, r))) =
      inr (e, failed, inr (c, ended, same ∙ r))

  retry_from-first :
      (n d : ℕ) (w : W) (result : Option Error × W)
      → EndsAt (suc n) 0 d w result
      → (k : ℕ) × (k < suc n) × AllFail k d w × EndsAt (suc n) k d w result
  retry_from-first n d w result ends = (0, omega arith, tt, ends)

  retry_from-EndsAt :
      (left : ℕ) (last_err : Option Error) (d : ℕ) (w : W)
      → (k : ℕ) × (k < suc left)
        × AllFail k d w
        × EndsAt (suc left) k d w (retry_from (suc left) last_err d w)
  unfolding retry_from before delay_after
  retry_from-EndsAt zero last_err d w = retry_from-first 0 d w _ (elim (Option-cases (call w).0) [
    | inl done ↦ inl (done, rw (done, retry_from) refl)
    | inr (e, failed) ↦ inr (e, failed, inl (refl, rw (failed, retry_from) refl))
  ])
  retry_from-EndsAt (suc left) last_err d w = elim (Option-cases (call w).0) [
    | inl done ↦ retry_from-first (suc left) d w _ (inl (done, rw (done, retry_from) refl))
    | inr (e, failed) ↦
        let w2 = (wait (call w).1 d).1 in
        elim (Option-cases (wait (call w).1 d).0) [
          | inl fired ↦
              let (k, early, fails, ends) = retry_from-EndsAt left (some e) (double d) w2 in
              (
                suc k,
                omega (arith, early),
                ((e, failed), fired, fails),
                EndsAt-suc (suc left) k d w (retry_from (suc left) (some e) (double d) w2) _
                    (rw (failed, fired, retry_from) (ground arith)) ends,
              )
          | inr (c, ended) ↦
              retry_from-first (suc left) d w _
                (inr (e, failed, inr (c, ended, rw (failed, ended, retry_from) (ground arith))))
        ]
  ]

  retry-EndsAt_of :
      (n d : ℕ) (w : W)
      → 0 < n
      → (k : ℕ) × (k < n) × AllFail k d w × EndsAt n k d w (retry_from n none d w)
  retry-EndsAt_of zero d w pos = absurd (omega arith)
  retry-EndsAt_of (suc n) d w pos = retry_from-EndsAt n none d w

  -- Retry makes some number of attempts that fail, with the timer fired after each of them and each
  -- delay twice the one before, fewer than the attempts it has; and then a last one, which succeeds,
  -- or is the last that it has, or after which the context ends the delay. The result is nil in the
  -- first case only, the last error in the second, and both errors joined in the third.
  pub retry-EndsAt :
      (attempts initial_delay : ℕ) (w : W)
      → (k : ℕ) × (k < attempt_count attempts)
        × AllFail k (first_delay initial_delay) w
        × EndsAt
            (attempt_count attempts)
            k
            (first_delay initial_delay)
            w
            (retry attempts initial_delay w)
  unfolding retry
  retry-EndsAt attempts initial_delay w =
      retry-EndsAt_of (attempt_count attempts) (first_delay initial_delay) w
        (unfold attempt_count in ground arith)
