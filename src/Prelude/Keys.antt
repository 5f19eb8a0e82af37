-- ===== src/Prelude/Keys.antt =====
-- Types with Go's `==`: the keys of maps. Sets of keys (`map[K]struct{}`) are lists.
use Prim.Native.Nat.{ℕ}
use Prim.Native.String.{String}
use mathlib.Core.Path.{◌≡◌, refl}
use mathlib.Core.Logic.{◌↔◌}
use mathlib.Core.Bool.{Bool, true, false, ◌||◌}
use mathlib.Core.List.{List, [], ◌∷◌, ◌++◌}
use native.Mathlib.Omega.{arith}
use text.Mathlib.Text.{◌==◌ as text_beq}
use text.Mathlib.TextEquality.{eq_iff}
use nde.Prelude.Tests.{nat_beq, nat_beq_iff, if◌then◌else◌}

pub record Key {ℓ} (K : Type ℓ) : Type ℓ where
  pub same : K → K → Bool
  pub same_iff : (a b : K) → (same a b ≡ true) ↔ (a ≡ b)

instance abbrev pub number_key : Key ℕ
number_key = record { same = nat_beq; same_iff = nat_beq_iff }

instance abbrev pub text_key : Key String
text_key = record { same = text_beq; same_iff = eq_iff }

infix 50 ◌==◌
abbrev pub ◌==◌ {ℓ} : {K : Type ℓ} ⦃e : Key K⦄ → K → K → Bool
◌==◌ ⦃e⦄ = e.same

module _ {ℓ} {K : Type ℓ} ⦃e : Key K⦄ where
  pub ==_iff : (a b : K) → ((a == b) ≡ true) ↔ (a ≡ b)
  ==_iff a b = e.same_iff a b

  pub ==_refl : (a : K) → (a == a) ≡ true
  ==_refl a = (e.same_iff a a).1 refl

  pub ==_comm : (a b : K) → (a == b) ≡ (b == a)
  ==_comm a b = ground (arith, e.same_iff a b, e.same_iff b a)

  unfoldable pub contains : K → List K → Bool
  contains k [] = false
  contains k (x ∷ xs) = x == k || contains k xs

  pub contains-append :
      (k : K) (xs ys : List K) → contains k (xs ++ ys) ≡ (contains k xs || contains k ys)
  unfolding contains
  contains-append k [] ys = refl
  contains-append k (x ∷ xs) ys = ground (arith, contains-append k xs ys)

  -- `set[k] = struct{}{}`
  unfoldable pub insert : K → List K → List K
  insert k xs = if contains k xs then xs else xs ++ k ∷ []

  pub contains-insert :
      (j k : K) (xs : List K) → contains j (insert k xs) ≡ (k == j || contains j xs)
  unfolding insert contains
  contains-insert j k xs = ground (arith, contains-append j xs (k ∷ []), e.same_iff k j)

-- A function with another value at one key: the memory of objects by their addresses.
unfoldable pub update {ℓ κ} : {K : Type κ} → {A : Type ℓ} ⦃e : Key K⦄ → (K → A) → K → A → K → A
update f k a j = if k == j then a else f j
