-- ===== src/Util/Retry/Tests.antt =====
-- A concrete run of internal/util/retry.go: the third of four attempts succeeds.
use nde.Prelude.{ℕ, ◌+◌, Option, none, some, ◌<◌, ◌==◌, number_key, if◌then◌else◌}
use nde.Backend.{Error, failed}
use nde.Util.Retry.{retry, attempt_count, first_delay, AllFail, EndsAt, retry-EndsAt}

-- The world is the number of calls.
abbrev call : ℕ → Option Error × ℕ
call n = (if n == 2 then none else some (failed "refused"), n + 1)

abbrev wait : ℕ → ℕ → Option Error × ℕ
wait n delay = (none, n)

retry-EndsAt_example :
    (k : ℕ) × (k < 4)
    × AllFail call wait k 100000000 0
    × EndsAt call wait 4 k 100000000 0 (retry call wait 4 0 0)
unfolding attempt_count first_delay
retry-EndsAt_example = retry-EndsAt call wait 4 0 0
