-- ===== src/Models.antt =====
-- internal/models/models.go, and Go's `any` as the configuration code builds and reads it.
pub mod Objects
pub mod Named
use nde.Prelude.{ℕ, String, Bool, List, [], ◌∷◌, ◌≡◌, refl, ap}

-- Go's `int`: `negsuc n` is -(n + 1).
pub data ℤ : Type 0 where
  pos : ℕ → ℤ
  negsuc : ℕ → ℤ

-- The dynamic types that the program stores in an `any`: `float` has the 64 bits of a float64,
-- `strs` is a []string, `slice` a []any and `obj` a map[string]any.
mutual
  pub data Any : Type 0 where
    null : Any
    bool : Bool → Any
    int : ℤ → Any
    float : ℕ → Any
    str : String → Any
    strs : List String → Any
    slice : Items → Any
    obj : Fields → Any

  pub data Items : Type 0 where
    nil : Items
    cons : Any → Items → Items

  pub data Fields : Type 0 where
    end : Fields
    field : String → Any → Fields → Fields

pub record Inbound : Type 0 where
  pub tag : String
  pub protocol : String
  pub config : Fields

pub record User : Type 0 where
  pub id : ℕ
  pub username : String
  pub key : String
  pub inbounds : List Inbound

-- `make` and `copy`: a new slice with the same elements.
unfoldable pub clone_inbounds : List Inbound → List Inbound
clone_inbounds [] = []
clone_inbounds (inb ∷ rest) = inb ∷ clone_inbounds rest

pub clone_inbounds_lem : (inbounds : List Inbound) → clone_inbounds inbounds ≡ inbounds
unfolding clone_inbounds
clone_inbounds_lem [] = refl
clone_inbounds_lem (inb ∷ rest) = ap (◌∷◌ inb) (clone_inbounds_lem rest)
