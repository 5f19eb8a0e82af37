-- ===== src/Service/Retry/Outcome.antt =====
-- internal/service/service.go, applyUserDataWithRetry: what any number of attempts leaves behind.
use nde.Prelude.{ℕ, zero, suc, Bool, Option, none, ◌≡◌, refl, arith, leb, Bool-cases, inl, inr, ◌<◌}
use nde.Backend.{Backends, Error}
use nde.Service.{Service, Settings, UserData}
use nde.Storage.IsWell.{IsWell}
use nde.Service.Apply.{
  outcome, unless_error, store-apply_user_data, unless_error-case, outcome-IsWell,
}
use nde.Service.Retry.{
  apply_user_data_with_timeout, wait_with_context, retry_loop, apply_user_data_with_retry,
}

module _ (B : Backends) where
  store-apply_user_data_with_timeout :
      (s : Service B) (msg : UserData) (timeout : ℕ) (force : Bool)
      → (apply_user_data_with_timeout B s msg timeout force).1.store
        ≡ unless_error
            (apply_user_data_with_timeout B s msg timeout force).0
            s.store
            (outcome s.store msg)
  unfolding apply_user_data_with_timeout
  store-apply_user_data_with_timeout s msg zero force = store-apply_user_data B s msg force
  store-apply_user_data_with_timeout s msg (suc n) force =
      store-apply_user_data B (record s { world = B.with_timeout s.world (suc n) }) msg force

  store-wait_with_context :
      (s : Service B) (delay : ℕ) → (wait_with_context B s delay).1.store ≡ s.store
  unfolding wait_with_context
  store-wait_with_context s zero = refl
  store-wait_with_context s (suc d) = refl

  store-retry_loop :
      (left : ℕ) (last_err : Option Error) (c : Settings) (s : Service B) (msg : UserData)
      (timeout : ℕ) (force : Bool)
      → (retry_loop B (suc left) last_err c s msg timeout force).1.store
        ≡ unless_error
            (retry_loop B (suc left) last_err c s msg timeout force).0
            s.store
            (outcome s.store msg)
  unfolding retry_loop
  store-retry_loop zero last_err c s msg timeout force = ground (
    arith,
    store-apply_user_data_with_timeout s msg timeout force,
    store-wait_with_context (apply_user_data_with_timeout B s msg timeout force).1 c.retry_delay,
  )
  store-retry_loop (suc left) last_err c s msg timeout force =
      let tried = (apply_user_data_with_timeout B s msg timeout force).1 in
      let waited = (wait_with_context B tried c.retry_delay).1 in
      ground (
        arith,
        store-apply_user_data_with_timeout s msg timeout force,
        store-wait_with_context tried c.retry_delay,
        store-retry_loop left (apply_user_data_with_timeout B s msg timeout force).0 c waited msg
            timeout force,
      )

  store-retry_loop_of_pos :
      (left : ℕ) (c : Settings) (s : Service B) (msg : UserData) (timeout : ℕ) (force : Bool)
      → 0 < left
      → (retry_loop B left none c s msg timeout force).1.store
        ≡ unless_error
            (retry_loop B left none c s msg timeout force).0
            s.store
            (outcome s.store msg)
  store-retry_loop_of_pos zero c s msg timeout force pos = absurd (omega arith)
  store-retry_loop_of_pos (suc left) c s msg timeout force pos =
      store-retry_loop left none c s msg timeout force

  -- However many attempts it takes, and whatever they do to the backends, the stored users are as
  -- before if the last attempt reports an error, and as after one update that succeeds if not.
  pub store-apply_user_data_with_retry :
      (c : Settings) (s : Service B) (msg : UserData) (timeout : ℕ) (force : Bool)
      → (apply_user_data_with_retry B c s msg timeout force).1.store
        ≡ unless_error
            (apply_user_data_with_retry B c s msg timeout force).0
            s.store
            (outcome s.store msg)
  unfolding apply_user_data_with_retry
  store-apply_user_data_with_retry c s msg timeout force = elim (Bool-cases (leb c.retries 1)) [
    | inl once ↦ rw once (store-apply_user_data_with_timeout s msg timeout force)
    | inr more ↦ rw more (store-retry_loop_of_pos c.retries c s msg timeout force (ground arith))
  ]

  -- An attempt that succeeds at once is the only one.
  retry_loop-first :
      (left : ℕ) (c : Settings) (s : Service B) (msg : UserData) (timeout : ℕ) (force : Bool)
      → 0 < left
      → (apply_user_data_with_timeout B s msg timeout force).0 ≡ none
      → retry_loop B left none c s msg timeout force
        ≡ (none, (apply_user_data_with_timeout B s msg timeout force).1)
  unfolding retry_loop
  retry_loop-first zero c s msg timeout force pos done = absurd (omega arith)
  retry_loop-first (suc left) c s msg timeout force pos done = ground arith

  pub retry-first :
      (c : Settings) (s : Service B) (msg : UserData) (timeout : ℕ) (force : Bool)
      → (apply_user_data_with_timeout B s msg timeout force).0 ≡ none
      → apply_user_data_with_retry B c s msg timeout force
        ≡ (none, (apply_user_data_with_timeout B s msg timeout force).1)
  unfolding apply_user_data_with_retry
  retry-first c s msg timeout force done = elim (Bool-cases (leb c.retries 1)) [
    | inl once ↦ rw once (ground arith)
    | inr more ↦ rw more (retry_loop-first c.retries c s msg timeout force (ground arith) done)
  ]

  pub with_retry-IsWell :
      (c : Settings) (s : Service B) (msg : UserData) (timeout : ℕ) (force : Bool)
      → IsWell s.store
      → IsWell (apply_user_data_with_retry B c s msg timeout force).1.store
  with_retry-IsWell c s msg timeout force w =
      rw (store-apply_user_data_with_retry c s msg timeout force)
        (unless_error-case IsWell _ s.store _ w (outcome-IsWell s.store msg w))
