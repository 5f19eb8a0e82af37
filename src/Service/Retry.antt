-- ===== src/Service/Retry.antt =====
-- internal/service/service.go: applyUserDataWithRetry, applyUserDataWithTimeout, waitWithContext.
pub mod Outcome
use nde.Prelude.{
  ℕ, zero, suc, Bool, Option, none, some, ◌≡◌, refl, arith, leb, if◌then◌else◌, is_some, Bool-cases,
  Option-cases, inl, inr, List, ◌∙◌,
}
use nde.Backend.{Backends, Error, join}
use nde.Storage.{Memory}
use nde.Storage.IsWell.{IsWell}
use nde.Service.{Service, Settings, UserData, apply_user_data}

module _ (B : Backends) where
  -- A timeout of 0 stands for all that are not positive.
  unfoldable pub apply_user_data_with_timeout :
      Service B → UserData → ℕ → Bool → Option Error × Service B
  apply_user_data_with_timeout s msg zero force = apply_user_data B s msg force
  apply_user_data_with_timeout s msg (suc n) force =
      let (err, s') =
        apply_user_data B (record s { world = B.with_timeout s.world (suc n) }) msg force in
      (err, record s' { world = B.end_timeout s'.world })

  pub wait_with_context : Service B → ℕ → Option Error × Service B
  wait_with_context s zero = (none, s)
  wait_with_context s (suc d) =
      let (err, w) = B.wait s.world (suc d) in (err, record s { world = w })

  -- The loop with this many attempts left, and the error of the one before.
  unfoldable pub retry_loop :
      ℕ → Option Error → Settings → Service B → UserData → ℕ → Bool → Option Error × Service B
  retry_loop zero last_err c s msg timeout force = (last_err, s)
  retry_loop (suc left) last_err c s msg timeout force =
      let (err, s') = apply_user_data_with_timeout s msg timeout force in
      elim err [
        | none ↦ (none, s')
        | some e ↦
            let (cancelled, s'') = wait_with_context s' c.retry_delay in
            let again = retry_loop left (some e) c s'' msg timeout force in
            if is_some (B.ctx_err s'.world)
            then (some e, s')
            else if leb left 0
            then (some e, s')
            else elim cancelled [ none ↦ again | some e' ↦ (some (join e e'), s'') ]
      ]

  unfoldable pub apply_user_data_with_retry :
      Settings → Service B → UserData → ℕ → Bool → Option Error × Service B
  apply_user_data_with_retry c s msg timeout force =
      if leb c.retries 1
      then apply_user_data_with_timeout s msg timeout force
      else retry_loop c.retries none c s msg timeout force
