-- ===== src/Service/Stats.antt =====
-- internal/service/service.go, FetchUsersStats: the usages of all backends added up in uint64.
use nde.Prelude.{
  ℕ, String, ◌+◌, ◌%◌, ◌<◌, true, none, some, List, [], ◌∷◌, ◌==◌, ◌≡◌, ◌∙◌, arith, number_key,
  if◌then◌else◌, Option-cases, inl, inr, ap, ==_iff,
}
use nde.Prelude.Dict.{Dict, get, put, get-put}
use nde.Backend.{Backends}
use nde.Service.{Service}

abbrev wrap64 : ℕ → ℕ
wrap64 n = n % 18446744073709551616

-- `all[uid]`, zero where it is missing.
unfoldable pub usage_of : ℕ → Dict ℕ ℕ → ℕ
unfolding get
usage_of uid all = elim (get uid all) [ none ↦ 0 | some usage ↦ usage ]

unfoldable pub add_usages : Dict ℕ ℕ → Dict ℕ ℕ → Dict ℕ ℕ
unfolding usage_of put
add_usages all [] = all
add_usages all ((uid, usage) ∷ rest) =
    add_usages (put uid (wrap64 (usage_of uid all + usage)) all) rest

module _ (B : Backends) where
  unfoldable pub fetch_each : Dict ℕ ℕ → B.World → List String → Dict ℕ ℕ × B.World
  unfolding add_usages
  fetch_each all w [] = (all, w)
  fetch_each all w (name ∷ names) =
      let (stats, w') = B.get_usages w name true in
      elim stats [
        | none ↦ fetch_each all w' names
        | some usages ↦ fetch_each (add_usages all usages) w' names
      ]

  unfoldable pub fetch_users_stats : Service B → Dict ℕ ℕ × Service B
  fetch_users_stats s =
      let (all, w) = fetch_each [] s.world (B.range s.world) in (all, record s { world = w })

-- What the backends report of a user, without a bound; a backend that fails reports nothing.
unfoldable pub reported_in : ℕ → Dict ℕ ℕ → ℕ
reported_in uid [] = 0
reported_in uid ((k, usage) ∷ rest) = (if k == uid then usage else 0) + reported_in uid rest

usage_of-put :
    (uid k n : ℕ) (all : Dict ℕ ℕ)
    → usage_of uid (put k n all) ≡ (if k == uid then n else usage_of uid all)
unfolding usage_of
usage_of-put uid k n all = ground (arith, get-put k uid n all)

usage_of-add_usages :
    (uid : ℕ) (all d : Dict ℕ ℕ)
    → wrap64 (usage_of uid (add_usages all d)) ≡ wrap64 (usage_of uid all + reported_in uid d)
unfolding add_usages reported_in
usage_of-add_usages uid all [] = ap wrap64 (omega arith)
usage_of-add_usages uid all ((k, n) ∷ rest) = ground (
  arith,
  usage_of-add_usages uid (put k (wrap64 (usage_of k all + n)) all) rest,
  usage_of-put uid k (wrap64 (usage_of k all + n)) all,
  ==_iff k uid,
)

-- No entry is more than a uint64.
add_usages-lt :
    (uid : ℕ) (all d : Dict ℕ ℕ)
    → ((k : ℕ) → usage_of k all < 18446744073709551616)
    → usage_of uid (add_usages all d) < 18446744073709551616
unfolding add_usages
add_usages-lt uid all [] h = h uid
add_usages-lt uid all ((k, n) ∷ rest) h =
    add_usages-lt uid (put k (wrap64 (usage_of k all + n)) all) rest
      (λ j. ground (arith, h j, usage_of-put j k (wrap64 (usage_of k all + n)) all))

module _ (B : Backends) where
  unfoldable pub reported : ℕ → B.World → List String → ℕ
  unfolding reported_in
  reported uid w [] = 0
  reported uid w (name ∷ names) =
      let (stats, w') = B.get_usages w name true in
      elim stats [ none ↦ 0 | some usages ↦ reported_in uid usages ] + reported uid w' names

  fetch_each-lem :
      (uid : ℕ) (all : Dict ℕ ℕ) (w : B.World) (names : List String)
      → ((k : ℕ) → usage_of k all < 18446744073709551616)
      → usage_of uid (fetch_each B all w names).0 ≡ wrap64 (usage_of uid all + reported uid w names)
  unfolding fetch_each reported
  fetch_each-lem uid all w [] h = omega (arith, h uid)
  fetch_each-lem uid all w (name ∷ names) h = elim (Option-cases (B.get_usages w name true).0) [
    | inl failed ↦
        rw (failed, fetch_each, reported)
          (fetch_each-lem uid all (B.get_usages w name true).1 names h ∙ ap wrap64 (omega arith))
    | inr (usages, found) ↦
        rw (found, fetch_each, reported)
          (fetch_each-lem uid (add_usages all usages) (B.get_usages w name true).1 names
              (λ k. add_usages-lt k all usages h)
            ∙ omega (arith, usage_of-add_usages uid all usages))
  ]

  -- The usage of each user is the sum of what the backends that answer report of it, modulo 2^64; a
  -- backend that fails leaves the others' reports alone.
  pub usage_of-fetch_users_stats :
      (s : Service B) (uid : ℕ)
      → usage_of uid (fetch_users_stats B s).0
        ≡ reported uid s.world (B.range s.world) % 18446744073709551616
  unfolding fetch_users_stats usage_of get
  usage_of-fetch_users_stats s uid =
      fetch_each-lem uid [] s.world (B.range s.world) (λ k. omega arith) ∙ ap wrap64 (omega arith)
