-- ===== src/Backend.antt =====
-- internal/backend/backend.go: what the service asks of the proxy backends, and the errors.
use nde.Prelude.{String, ℕ, Bool, Option, none, some, List, [], ◌∷◌}
use nde.Prelude.Dict.{Dict}
use nde.Models.{User, Inbound}

-- An `error` that is not nil. `failed` is one that a process, a call or a context gave; `at_tag` is
-- `fmt.Errorf("tag=%s: %w", …)`, `wrapped` is `fmt.Errorf("…: %w", …)`, and `join` is `errors.Join` of two.
pub data Error : Type 0 where
  failed : String → Error
  at_tag : String → Error → Error
  wrapped : String → Error → Error
  join : Error → Error → Error

-- `errors.Join(errs...)`: nil if there are none.
unfoldable pub join_errors : List Error → Option Error
join_errors [] = none
join_errors (e ∷ rest) = some (elim (join_errors rest) [ none ↦ e | some later ↦ join e later ])

-- The backends of a node by their names, as the service calls them. `World` is all that their
-- answers depend on and all that they change: processes, configurations, the request's context.
-- `range` is the order in which a `range` over the map of backends visits them now.
pub record Backends : Type 1 where
  pub World : Type 0
  pub range : World → List String
  pub contains_tag : World → String → String → Bool
  pub add_user : World → String → User → Inbound → Option Error × World
  pub remove_user : World → String → User → Inbound → Option Error × World
  -- nil and the usages, or none for an error
  pub get_usages : World → String → Bool → Option (Dict ℕ ℕ) × World
  pub ctx_err : World → Option Error
  -- waits for a delay: nil when the timer fired, the context's error when that came first
  pub wait : World → ℕ → Option Error × World
  -- calls below run under a context with this timeout, until `end_timeout` cancels it
  pub with_timeout : World → ℕ → World
  pub end_timeout : World → World
