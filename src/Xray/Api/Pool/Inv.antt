-- ===== src/Xray/Api/Pool/Inv.antt =====
-- internal/backend/xray/api.go: the invariant of the connection and the semaphore.
use nde.Prelude.{ℕ, ◌+◌, ◌%◌, ◌≤◌, Option, none, some, List, [], ◌∷◌, ◌≡◌, arith, number_key}
use nde.Xray.Api.Pool.{
  Api, Phase, entering, connecting, calling, failing, returning, finished, Moves, first, next,
  System,
}

-- 1 for a call that has a place in the semaphore.
abbrev pub takes : Phase → ℕ
takes entering = 0
takes connecting = 1
takes (calling c gen) = 1
takes (failing c gen) = 1
takes returning = 1
takes finished = 0

abbrev pub in_flight : List Phase → ℕ
in_flight [] = 0
in_flight (p ∷ ps) = takes p + in_flight ps

-- A call's generation is that of its connection, which was dialed.
abbrev pub IsKnown : ℕ → Phase → Type 0
IsKnown dialed entering = Unit
IsKnown dialed connecting = Unit
IsKnown dialed (calling c gen) = (c ≤ dialed) × (gen ≡ c % 18446744073709551616)
IsKnown dialed (failing c gen) = (c ≤ dialed) × (gen ≡ c % 18446744073709551616)
IsKnown dialed returning = Unit
IsKnown dialed finished = Unit

abbrev pub AllKnown : ℕ → List Phase → Type 0
AllKnown dialed [] = Unit
AllKnown dialed (p ∷ ps) = IsKnown dialed p × AllKnown dialed ps

-- The open connection is the one that was dialed last.
abbrev pub IsLast : ℕ → Option ℕ → Type 0
IsLast dialed none = Unit
IsLast dialed (some c) = c ≡ dialed

pub record IsSound (a : Api) : Type 0 where
  pub last : IsLast a.dialed a.conn
  pub counted : a.conn_gen ≡ a.dialed % 18446744073709551616

pub record Inv (s : System) : Type 0 where
  pub sound : IsSound s.api
  pub slots : in_flight s.calls ≡ s.api.slots
  pub bounded : s.api.slots ≤ 8
  pub known : AllKnown s.api.dialed s.calls

pub in_flight-Moves :
    {p q : Phase} {xs ys : List Phase}
    → Moves p q xs ys
    → in_flight ys + takes p ≡ in_flight xs + takes q
in_flight-Moves (first rest) = omega arith
in_flight-Moves (next r m) = omega (arith, in_flight-Moves m)

IsKnown-later : (d e : ℕ) (p : Phase) → d ≤ e → IsKnown d p → IsKnown e p
IsKnown-later d e entering le h = tt
IsKnown-later d e connecting le h = tt
IsKnown-later d e (calling c gen) le h = (omega (arith, h.0), h.1)
IsKnown-later d e (failing c gen) le h = (omega (arith, h.0), h.1)
IsKnown-later d e returning le h = tt
IsKnown-later d e finished le h = tt

pub AllKnown-later : (d e : ℕ) (ps : List Phase) → d ≤ e → AllKnown d ps → AllKnown e ps
AllKnown-later d e [] le h = tt
AllKnown-later d e (p ∷ ps) le h = (IsKnown-later d e p le h.0, AllKnown-later d e ps le h.1)

pub AllKnown-Moves :
    (d : ℕ) {p q : Phase} {xs ys : List Phase}
    → Moves p q xs ys
    → IsKnown d q
    → AllKnown d xs
    → AllKnown d ys
AllKnown-Moves d (first rest) one h = (one, h.1)
AllKnown-Moves d (next r m) one h = (h.0, AllKnown-Moves d m one h.1)

pub Moves-IsKnown :
    (d : ℕ) {p q : Phase} {xs ys : List Phase} → Moves p q xs ys → AllKnown d xs → IsKnown d p
Moves-IsKnown d (first rest) h = h.0
Moves-IsKnown d (next r m) h = Moves-IsKnown d m h.1
