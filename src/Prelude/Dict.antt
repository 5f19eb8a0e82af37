-- ===== src/Prelude/Dict.antt =====
-- Go's `map[K]V` as an association list. A `range` over a map visits the entries in list order.
use mathlib.Core.Path.{◌≡◌, refl, subst}
use mathlib.Core.Bool.{true, false}
use mathlib.Core.Logic.{inl, inr}
use mathlib.Core.Option.{Option, none, some}
use mathlib.Core.List.{List, [], ◌∷◌}
use native.Mathlib.Omega.{arith}
use nde.Prelude.Tests.{if◌then◌else◌, Bool-cases}
use nde.Prelude.Keys.{Key, ◌==◌}

abbrev pub Dict {ℓ κ} : Type ℓ → Type κ → Type (ℓ ⊔ κ)
Dict K V = List (K × V)

module _ {ℓ κ} {K : Type ℓ} {V : Type κ} ⦃e : Key K⦄ where
  unfoldable pub get : K → Dict K V → Option V
  get k [] = none
  get k ((j, v) ∷ m) = if j == k then some v else get k m

  unfoldable pub put : K → V → Dict K V → Dict K V
  put k v [] = (k, v) ∷ []
  put k v ((j, w) ∷ m) = if j == k then (k, v) ∷ m else (j, w) ∷ put k v m

  unfoldable pub delete : K → Dict K V → Dict K V
  delete k [] = []
  delete k ((j, v) ∷ m) = let rest = delete k m in if j == k then rest else (j, v) ∷ rest

  pub get-put :
      (k j : K) (v : V) (m : Dict K V) → get j (put k v m) ≡ (if k == j then some v else get j m)
  unfolding get put
  get-put k j v [] = refl
  get-put k j v ((i, w) ∷ m) =
      ground (arith, e.same_iff k j, e.same_iff i k, e.same_iff i j, get-put k j v m)

  pub get-delete :
      (k j : K) (m : Dict K V) → get j (delete k m) ≡ (if k == j then none else get j m)
  unfolding get delete
  get-delete k j [] = ground arith
  get-delete k j ((i, w) ∷ m) =
      ground (arith, e.same_iff k j, e.same_iff i k, e.same_iff i j, get-delete k j m)

  -- No key has two entries.
  abbrev pub IsMap : Dict K V → Type κ
  IsMap [] = Unit
  IsMap ((k, v) ∷ m) = (get k m ≡ none) × IsMap m

  pub put-IsMap : (k : K) (v : V) (m : Dict K V) → IsMap m → IsMap (put k v m)
  unfolding get put
  put-IsMap k v [] h = (refl, tt)
  put-IsMap k v ((j, w) ∷ m) h =
      ground (arith, e.same_iff j k, e.same_iff k j, get-put k j v m, put-IsMap k v m h.1)

  pub delete-IsMap : (k : K) (m : Dict K V) → IsMap m → IsMap (delete k m)
  unfolding get delete
  delete-IsMap k [] h = tt
  delete-IsMap k ((j, w) ∷ m) h =
      ground (arith, e.same_iff j k, e.same_iff k j, get-delete k j m, delete-IsMap k m h.1)

  -- A property of every entry.
  abbrev pub Each {μ} : (K → V → Type μ) → Dict K V → Type μ
  Each P [] = Unit
  Each P ((k, v) ∷ m) = P k v × Each P m

  pub put-Each {μ} :
      (P : K → V → Type μ) (k : K) (v : V) (m : Dict K V) → P k v → Each P m → Each P (put k v m)
  unfolding put
  put-Each P k v [] p h = (p, tt)
  put-Each P k v ((j, w) ∷ m) p h =
      elim (j == k) as (λ b. Each P (if b then (k, v) ∷ m else (j, w) ∷ put k v m)) [
        | true ↦ (p, h.1)
        | false ↦ (h.0, put-Each P k v m p h.1)
      ]

  pub delete-Each {μ} : (P : K → V → Type μ) (k : K) (m : Dict K V) → Each P m → Each P (delete k m)
  unfolding delete
  delete-Each P k [] h = tt
  delete-Each P k ((j, w) ∷ m) h =
      elim (j == k) as (λ b. Each P (if b then delete k m else (j, w) ∷ delete k m)) [
        | true ↦ delete-Each P k m h.1
        | false ↦ (h.0, delete-Each P k m h.1)
      ]

  pub get-Each {μ} :
      (P : K → V → Type μ) (k : K) (v : V) (m : Dict K V) → Each P m → get k m ≡ some v → P k v
  unfolding get
  get-Each P k v [] h q = cc
  get-Each P k v ((j, w) ∷ m) h q = elim (Bool-cases (j == k)) [
    | inl hit ↦
        let found : some w ≡ some v = rw hit at q in
        let value : w ≡ v = cc in
        subst (λ i. P i v) ((e.same_iff j k).0 hit) (subst (P j) value h.0)
    | inr miss ↦ get-Each P k v m h.1 (rw miss at q)
  ]
