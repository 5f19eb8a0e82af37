-- ===== src/Xray/Api/Usages.antt =====
-- internal/backend/xray/api.go, UserUsages: the traffic of users from the answer to QueryStats.
use nde.Prelude.{
  ℕ, ◌+◌, ◌-◌, ◌%◌, ◌<◌, String, Option, none, some, List, [], ◌∷◌, map, ◌==◌, ◌≡◌, ◌∙◌, ap, refl,
  arith, text_key, number_key, if◌then◌else◌, ==_iff, true, false,
}
use nde.Prelude.Dict.{Dict, get, put, get-put}
use nde.Models.{ℤ, pos, negsuc}
use nde.Auth.{user_identifier}
use nde.Auth.Identifier.{
  scan_uint32-user_identifier, second_part-user_identifier, cut_text-user_identifier,
}
use nde.Text.{cut_text, second_part, ◌then_text◌}
use nde.Text.Decimal.{scan_uint32}

-- `uint64` of an int64
unfoldable pub to_uint64 : ℤ → ℕ
to_uint64 (pos n) = n % 18446744073709551616
to_uint64 (negsuc n) = 18446744073709551615 - n % 18446744073709551616

abbrev or_zero : Option ℕ → ℕ
or_zero none = 0
or_zero (some n) = n

-- `out[uid]`, 0 for a missing key
unfoldable pub usage_of : ℕ → Dict ℕ ℕ → ℕ
unfolding get
usage_of uid out = or_zero (get uid out)

unfoldable pub count_usage : ℕ → ℤ → Dict ℕ ℕ → Dict ℕ ℕ
unfolding usage_of put to_uint64
count_usage uid value out =
    put uid ((usage_of uid out + to_uint64 value) % 18446744073709551616) out

-- The user's id stands in front of the first dot.
count_named : String × Option String → ℤ → Dict ℕ ℕ → Dict ℕ ℕ
unfolding scan_uint32 count_usage
count_named (before, none) value out = out
count_named (before, some behind) value out = count_usage (scan_uint32 before) value out

count_ident : Option String → ℤ → Dict ℕ ℕ → Dict ℕ ℕ
unfolding cut_text count_named
count_ident none value out = out
count_ident (some ident) value out = count_named (cut_text "." ident) value out

-- One turn of the loop.
unfoldable pub count_stat : String → ℤ → Dict ℕ ℕ → Dict ℕ ℕ
unfolding second_part count_ident
count_stat name value out = count_ident (second_part ">>>" name) value out

unfoldable pub usages_from : Dict ℕ ℕ → List (String × ℤ) → Dict ℕ ℕ
unfolding count_stat
usages_from out [] = out
usages_from out ((name, value) ∷ rest) = usages_from (count_stat name value out) rest

-- What xray counts for a user: the statistic's name goes on behind the user's name.
pub record Traffic : Type 0 where
  pub uid : ℕ
  pub username : String
  pub value : ℤ

unfoldable pub as_stat : Traffic → String × ℤ
unfolding ◌then_text◌ user_identifier
as_stat t = ("user>>>" then_text user_identifier t.uid t.username, t.value)

-- The sum that is wanted.
unfoldable pub total : ℕ → List Traffic → ℕ
unfolding to_uint64
total uid [] = 0
total uid (t ∷ rest) =
    let later = total uid rest in if t.uid == uid then to_uint64 t.value + later else later

abbrev pub AllUint32 : List Traffic → Type 0
AllUint32 [] = Unit
AllUint32 (t ∷ rest) = (t.uid < 4294967296) × AllUint32 rest

pub count_stat-as_stat :
    (t : Traffic) (out : Dict ℕ ℕ)
    → t.uid < 4294967296
    → count_stat (as_stat t).0 (as_stat t).1 out ≡ count_usage t.uid t.value out
unfolding count_stat as_stat count_ident
count_stat-as_stat t out h =
    let found = second_part-user_identifier t.uid t.username in
    ap (λ ident. count_ident ident t.value out) found.1
    ∙ ap
        (λ behind.
          count_named ((cut_text "." (user_identifier t.uid found.0)).0, behind) t.value out)
        (cut_text-user_identifier t.uid found.0)
    ∙ unfold count_named in
      ap (λ n. count_usage n t.value out) (scan_uint32-user_identifier t.uid found.0 h)

usage_of-count_usage :
    (uid k : ℕ) (value : ℤ) (out : Dict ℕ ℕ)
    → usage_of uid (count_usage k value out) ≡ (
        if k == uid
        then (usage_of k out + to_uint64 value) % 18446744073709551616
        else usage_of uid out)
unfolding usage_of count_usage
usage_of-count_usage uid k value out =
    let new = (usage_of k out + to_uint64 value) % 18446744073709551616 in
    ap or_zero (get-put k uid new out)
    ∙ elim (k == uid)
        as (λ b.
          or_zero (if b then some new else get uid out) ≡ (if b then new else usage_of uid out)) [
            | true ↦ refl
            | false ↦ refl
          ]

sums_up :
    (ts : List Traffic) (uid : ℕ) (out : Dict ℕ ℕ)
    → AllUint32 ts
    → usage_of uid out < 18446744073709551616
    → usage_of uid (usages_from out (map as_stat ts))
      ≡ (usage_of uid out + total uid ts) % 18446744073709551616
unfolding usages_from total
sums_up [] uid out small h = omega (arith, h)
sums_up (t ∷ ts) uid out small h =
    let out' = count_usage t.uid t.value out in
    let one = usage_of-count_usage uid t.uid t.value out in
    let less : usage_of uid out' < 18446744073709551616 = ground (arith, one, h) in
    ap (λ o. usage_of uid (usages_from o (map as_stat ts))) (count_stat-as_stat t out small.0)
    ∙ (sums_up ts uid out' small.1 less ∙ ground (arith, one, h, ==_iff t.uid uid))

-- Whatever the users' names are, dots and the separator ">>>" in them included, what UserUsages
-- gives for a user's id is the sum of the counters of all users with this id, modulo 2^64.
pub usages_from-as_stat :
    (ts : List Traffic) (uid : ℕ)
    → AllUint32 ts
    → usage_of uid (usages_from [] (map as_stat ts)) ≡ total uid ts % 18446744073709551616
unfolding usage_of get
usages_from-as_stat ts uid small = sums_up ts uid [] small (omega arith) ∙ omega arith
