-- ===== src/Singbox/Stats.antt =====
-- internal/backend/singbox/stats.go: the client of sing-box's statistics, and the traffic of the users.
mod Tests
use nde.Prelude.{
  ℕ, ◌%◌, ◌<◌, String, Bool, true, false, ◌⊎◌, inl, inr, Option, none, some, List, [], ◌∷◌, map,
  ◌==◌, ◌≡◌, refl, ap, ◌∙◌, sym, arith, text_key, if◌then◌else◌, Bool-cases,
}
use nde.Prelude.Dict.{Dict}
use nde.Models.{ℤ}
use nde.Backend.{Error}
use nde.Auth.{user_identifier}
use nde.Auth.Identifier.{
  second_part-user_identifier, cut_text-user_identifier, cut_text-front,
  scan_uint32-user_identifier,
}
use nde.Text.{cut_text, second_part}
use nde.Text.Decimal.{scan_uint32, decimal}
use nde.Text.Integer.{decimal-some_text}
use nde.Xray.Api.Usages.{
  count_usage, usage_of, Traffic, as_stat, total, AllUint32, usages_from-as_stat,
}
use nde.Xray.Api.Usages

-- The user's id stands in front of the first dot, which is not the first character.
count_named : String × Option String → ℤ → Dict ℕ ℕ → Dict ℕ ℕ
unfolding scan_uint32 count_usage
count_named (before, none) value out = out
count_named (before, some behind) value out =
    if before == "" then out else count_usage (scan_uint32 before) value out

count_ident : Option String → ℤ → Dict ℕ ℕ → Dict ℕ ℕ
unfolding cut_text count_named
count_ident none value out = out
count_ident (some ident) value out = count_named (cut_text "." ident) value out

-- One turn of the loop.
unfoldable pub count_stat : String → ℤ → Dict ℕ ℕ → Dict ℕ ℕ
unfolding second_part count_ident
count_stat name value out = count_ident (second_part ">>>" name) value out

unfoldable pub usages_from : Dict ℕ ℕ → List (String × ℤ) → Dict ℕ ℕ
unfolding count_stat
usages_from out [] = out
usages_from out ((name, value) ∷ rest) = usages_from (count_stat name value out) rest

-- What the calls ask of gRPC and of the sing-box behind it.
pub record Server : Type 1 where
  pub World : Type 0
  pub dial : World → Option Error × World
  pub query_stats : World → String → Bool → (Error ⊎ List (String × ℤ)) × World
  pub get_sys_stats : World → Option Error × World

-- `StatsClient`: whether there is a connection.
pub record StatsClient : Type 0 where
  pub connected : Bool

module _ (X : Server) where
  abbrev pub Result : Type 0 → Type 0
  Result A = (Error ⊎ A) × StatsClient × X.World

  dialed_with :
      {A : Type 0}
      → StatsClient
      → (StatsClient → X.World → Result A)
      → Option Error × X.World
      → Result A
  dialed_with c use_it (some e, w) = (inl e, c, w)
  dialed_with c use_it (none, w) = use_it (record { connected = true }) w

  -- `connect`, and what follows with a connection.
  with_connection :
      {A : Type 0} → StatsClient → X.World → (StatsClient → X.World → Result A) → Result A
  unfolding dialed_with
  with_connection c w use_it = if c.connected then use_it c w else dialed_with c use_it (X.dial w)

  -- `reset`, and `Close`
  unfoldable pub reset : StatsClient → StatsClient
  reset c = record c { connected = false }

  usages_answer : StatsClient → (Error ⊎ List (String × ℤ)) × X.World → Result (Dict ℕ ℕ)
  unfolding reset usages_from
  usages_answer c (inl e, w) = (inl e, reset c, w)
  usages_answer c (inr stats, w) = (inr (usages_from [] stats), c, w)

  -- `UserUsages`
  unfoldable pub user_usages : StatsClient → X.World → Bool → Result (Dict ℕ ℕ)
  unfolding with_connection usages_answer
  user_usages c w with_reset =
      with_connection c w (λ c' w'. usages_answer c' (X.query_stats w' "user>>>" with_reset))

  sys_answer : StatsClient → Option Error × X.World → Result (Unit {0})
  unfolding reset
  sys_answer c (some e, w) = (inl e, reset c, w)
  sys_answer c (none, w) = (inr tt, c, w)

  -- `SysStats`
  unfoldable pub sys_stats : StatsClient → X.World → Result (Unit {0})
  unfolding with_connection sys_answer
  sys_stats c w = with_connection c w (λ c' w'. sys_answer c' (X.get_sys_stats w'))

count_named-count_usage :
    (front : String) (behind : String) (uid : ℕ) (value : ℤ) (out : Dict ℕ ℕ)
    → (front == "") ≡ false
    → scan_uint32 front ≡ uid
    → count_named (front, some behind) value out ≡ count_usage uid value out
unfolding count_named
count_named-count_usage front behind uid value out named number = rw (named, number) refl

count_stat-count_usage :
    (t : Traffic) (out : Dict ℕ ℕ)
    → t.uid < 4294967296
    → count_stat (as_stat t).0 (as_stat t).1 out ≡ count_usage t.uid t.value out
unfolding count_stat as_stat count_ident
count_stat-count_usage t out small =
    let found = second_part-user_identifier t.uid t.username in
    let front = (cut_text "." (user_identifier t.uid found.0)).0 in
    ap (λ ident. count_ident ident t.value out) found.1
    ∙ ap (λ behind. count_named (front, behind) t.value out)
        (cut_text-user_identifier t.uid found.0)
    ∙ count_named-count_usage front found.0 t.uid t.value out
        (ap (λ s. s == "") (cut_text-front t.uid found.0) ∙ decimal-some_text t.uid)
        (scan_uint32-user_identifier t.uid found.0 small)

-- What sing-box reports for its users is counted as what xray reports for them.
pub usages_from-as_stat_same :
    (ts : List Traffic) (out : Dict ℕ ℕ)
    → AllUint32 ts
    → usages_from out (map as_stat ts) ≡ Usages.usages_from out (map as_stat ts)
unfolding usages_from Usages.usages_from
usages_from-as_stat_same [] out small = refl
usages_from-as_stat_same (t ∷ ts) out small =
    ap (λ o. usages_from o (map as_stat ts)) (count_stat-count_usage t out small.0)
    ∙ usages_from-as_stat_same ts (count_usage t.uid t.value out) small.1
    ∙ ap (λ o. Usages.usages_from o (map as_stat ts))
        (sym (Usages.count_stat-as_stat t out small.0))

module _ (X : Server) where
  served :
      (on : Bool) (w w1 w2 : X.World) (with_reset : Bool) (stats : List (String × ℤ))
      → X.dial w ≡ (none, w1)
      → X.query_stats (if on then w else w1) "user>>>" with_reset ≡ (inr stats, w2)
      → user_usages X (record { connected = on }) w with_reset
        ≡ (inr (usages_from [] stats), record { connected = true }, w2)
  unfolding user_usages with_connection usages_answer
  served true w w1 w2 with_reset stats dialed answered =
      ap (usages_answer X (record { connected = true })) answered
  served false w w1 w2 with_reset stats dialed answered =
      ap
        (dialed_with X (record { connected = false })
          (λ c' w'. usages_answer X c' (X.query_stats w' "user>>>" with_reset)))
        dialed
      ∙ ap (usages_answer X (record { connected = true })) answered

  -- The usages of users as the client gives them: with a sing-box that answers with counters of its
  -- users, the sum of the counters of a user's id, modulo 2^64; the client stays connected.
  pub user_usages-total :
      (c : StatsClient) (w w1 w2 : X.World) (with_reset : Bool) (ts : List Traffic) (uid : ℕ)
      → X.dial w ≡ (none, w1)
      → X.query_stats (if c.connected then w else w1) "user>>>" with_reset
        ≡ (inr (map as_stat ts), w2)
      → AllUint32 ts
      → (out : Dict ℕ ℕ) × (user_usages X c w with_reset
          ≡ (inr out, record { connected = true }, w2))
        × (usage_of uid out ≡ total uid ts % 18446744073709551616)
  user_usages-total c w w1 w2 with_reset ts uid dialed answered small = (
    usages_from [] (map as_stat ts),
    served c.connected w w1 w2 with_reset (map as_stat ts) dialed answered,
    ap (usage_of uid) (usages_from-as_stat_same ts [] small) ∙ usages_from-as_stat ts uid small,
  )
