-- ===== src/Models/Named.antt =====
-- The settings of an inbound, as they are filled in: what keeps its tag and its protocol there.
use nde.Prelude.{
  String, Bool, true, false, Option, none, some, List, [], ◌∷◌, ◌==◌, ◌≡◌, ◌∙◌, refl, arith,
  text_key, if◌then◌else◌, ==_iff, contains,
}
use nde.Models.{Any, str, Fields, Inbound}
use nde.Models.Objects.{field_at, set_field, field_at-set_field}

-- The settings still name the inbound as they did.
pub record Same (a b : Fields) : Type 0 where
  pub same_tag : field_at "tag" a ≡ field_at "tag" b
  pub same_protocol : field_at "protocol" a ≡ field_at "protocol" b

pub same : {a : Fields} → Same a a
same = record { same_tag = refl; same_protocol = refl }

pub Same-trans : {a b c : Fields} → Same a b → Same b c → Same a c
Same-trans p q = record {
  same_tag = p.same_tag ∙ q.same_tag;
  same_protocol = p.same_protocol ∙ q.same_protocol;
}

pub Same-if : {a b c : Fields} (test : Bool) → Same a c → Same b c → Same (if test then a else b) c
Same-if true p q = p
Same-if false p q = q

pub Same-set_field :
    (key : String) (v : Any) {a b : Fields}
    → contains key ("tag" ∷ "protocol" ∷ []) ≡ false
    → Same a b
    → Same (set_field key v a) b
unfolding contains
Same-set_field key v {a} {b} other kept = record {
  same_tag = ground (
    arith,
    other,
    kept.same_tag,
    field_at-set_field key "tag" v a,
    ==_iff key "tag",
    ==_iff key "protocol",
  );
  same_protocol = ground (
    arith,
    other,
    kept.same_protocol,
    field_at-set_field key "protocol" v a,
    ==_iff key "tag",
    ==_iff key "protocol",
  );
}

pub Same-elim :
    {a b : Fields} {f : String → Fields} (found : Option String)
    → Same a b
    → ((x : String) → Same (f x) b)
    → Same (elim found [ none ↦ a | some x ↦ f x ]) b
Same-elim none p q = p
Same-elim (some x) p q = q x

-- The inbound can be told from others, its protocol is one of those allowed, and the panel reads in
-- its settings what the node knows it by.
abbrev pub IsOffered : (String → Bool) → Inbound → Type 0
IsOffered allowed inb =
    ((inb.tag == "") ≡ false)
    × ((allowed inb.protocol ≡ true)
        × ((field_at "tag" inb.config ≡ str inb.tag)
            × (field_at "protocol" inb.config ≡ str inb.protocol)))

abbrev pub AllOffered : (String → Bool) → List Inbound → Type 0
AllOffered allowed [] = Unit
AllOffered allowed (inb ∷ rest) = IsOffered allowed inb × AllOffered allowed rest

abbrev pub MaybeOffered : (String → Bool) → Option Inbound → Type 0
MaybeOffered allowed none = Unit
MaybeOffered allowed (some inb) = IsOffered allowed inb

-- The two guards of the loops.
pub accepted :
    (allowed : String → Bool) (passes empty : Bool) (inb : Inbound)
    → (passes ≡ true → empty ≡ false → IsOffered allowed inb)
    → MaybeOffered allowed (if passes then (if empty then none else some inb) else none)
accepted allowed false empty inb offered = tt
accepted allowed true true inb offered = tt
accepted allowed true false inb offered = offered refl refl

pub kept_or_left :
    (allowed : String → Bool) (found : Option Inbound) (later : List Inbound)
    → MaybeOffered allowed found
    → AllOffered allowed later
    → AllOffered allowed (elim found [ none ↦ later | some inb ↦ inb ∷ later ])
kept_or_left allowed none later one rest = rest
kept_or_left allowed (some inb) later one rest = (one, rest)
