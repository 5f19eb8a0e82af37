-- ===== src/Service/Queries.antt =====
-- internal/service/service.go: FetchBackendConfig, RestartBackend and GetBackendStats.
use nde.Prelude.{
  ℕ, String, Bool, false, ◌⊎◌, ◌↔◌, inl, inr, Option, none, some, List, ◌≡◌, arith, text_key,
  contains, Bool-cases, if◌then◌else◌,
}
use nde.Backend.{Error}

-- The error of a gRPC call: its code, and the error that its message carries.
pub data Status : Type 0 where
  not_found : Status
  internal : Error → Status
  unavailable : Error → Status

pub record BackendConfig : Type 0 where
  pub configuration : String
  pub config_format : ℕ

-- The methods of a backend that these handlers call, by its name in the map of backends.
pub record Proxies : Type 1 where
  pub World : Type 0
  pub names : List String
  pub get_config : World → String → Error ⊎ String
  pub config_format : String → ℕ
  pub restart : World → String → String → Option Error × World
  pub running : World → String → Bool

module _ (B : Proxies) where
  unfoldable pub fetch_backend_config : B.World → String → Status ⊎ BackendConfig
  unfolding contains
  fetch_backend_config w name =
      if contains name B.names
      then elim (B.get_config w name) [
        | inl e ↦ inl (internal e)
        | inr cfg ↦ inr (record { configuration = cfg; config_format = B.config_format name })
      ]
      else inl not_found

  -- Without a configuration in the request the text is empty.
  unfoldable pub restart_backend : B.World → String → Option String → Option Status × B.World
  unfolding contains
  restart_backend w name config =
      let cfg : String = elim config [ none ↦ "" | some text ↦ text ] in
      let (err, w') = B.restart w name cfg in
      if contains name B.names
      then elim err [ none ↦ (none, w') | some e ↦ (some (unavailable e), w') ]
      else (some not_found, w)

  unfoldable pub get_backend_stats : B.World → String → Status ⊎ Bool
  unfolding contains
  get_backend_stats w name = if contains name B.names then inr (B.running w name) else inl not_found

  -- The three handlers answer NotFound for the names that are not in the map and for no others, and a
  -- restart under such a name changes nothing.
  pub not_found_iff :
      (w : B.World) (name : String) (config : Option String)
      → ((fetch_backend_config w name ≡ inl not_found) ↔ (contains name B.names ≡ false))
        × ((restart_backend w name config ≡ (some not_found, w)) ↔ (contains name B.names ≡ false))
        × ((get_backend_stats w name ≡ inl not_found) ↔ (contains name B.names ≡ false))
  unfolding fetch_backend_config restart_backend get_backend_stats
  not_found_iff w name config = elim (Bool-cases (contains name B.names)) [
    | inl known ↦ rw known (ground arith, ground arith, ground arith)
    | inr unknown ↦ rw unknown (ground arith, ground arith, ground arith)
  ]
