-- ===== src/Xray/Api/Pool.antt =====
-- internal/backend/xray/api.go: the one connection that all calls to xray share, and the semaphore
-- that bounds them. Each part of a call between two locks or waits is one step; calls interleave
-- between steps.
pub mod Inv
pub mod Safety
use nde.Prelude.{
  ℕ, ◌+◌, ◌-◌, ◌%◌, Bool, Option, none, some, List, [], ◌∷◌, ◌==◌, ◌≡◌, number_key, if◌then◌else◌,
  ltb,
}

-- `API`. Connections are told apart by the number of the dial that made them; `dialed` counts the
-- dials. `slots` is the number of elements in the channel `sem`.
pub record Api : Type 0 where
  pub conn : Option ℕ
  pub conn_gen : ℕ
  pub dialed : ℕ
  pub slots : ℕ

abbrev pub api_max_concurrent : ℕ
api_max_concurrent = 8

unfoldable pub new_api : Api
new_api = record { conn = none; conn_gen = 0; dialed = 0; slots = 0 }

-- The send of acquireSem; none where it blocks.
unfoldable pub acquire_sem : Api → Option Api
acquire_sem a =
    if ltb a.slots api_max_concurrent then some (record a { slots = a.slots + 1 }) else none

-- The receive of releaseSem; none where it blocks.
unfoldable pub release_sem : Api → Option Api
release_sem a = if a.slots == 0 then none else some (record a { slots = a.slots - 1 })

-- `connect`, for a dial that succeeds or not: the connection and its generation, none for an error.
unfoldable pub connect : Api → Bool → Option (ℕ × ℕ) × Api
connect a dial_ok = elim a.conn [
  | some c ↦ (some (c, a.conn_gen), a)
  | none ↦
      (let gen = (a.conn_gen + 1) % 18446744073709551616 in
        let made = a.dialed + 1 in
        if dial_ok
        then (some (made, gen), record a { conn = some made; conn_gen = gen; dialed = made })
        else (none, a))
]

unfoldable pub reset_if_gen : Api → ℕ → Api
reset_if_gen a gen = elim a.conn [
  | none ↦ a
  | some c ↦ if a.conn_gen == gen then record a { conn = none } else a
]

-- `Close`
unfoldable pub close_api : Api → Api
close_api a = record a { conn = none }

-- Where a goroutine is in AddUser, RemoveUser, UserUsages or SysStats; `calling` and `failing` have
-- the connection and the generation that `connect` gave.
pub data Phase : Type 0 where
  entering : Phase
  connecting : Phase
  calling : ℕ → ℕ → Phase
  failing : ℕ → ℕ → Phase
  returning : Phase
  finished : Phase

-- One goroutine goes on from a phase to another, the others stay.
pub data Moves (p q : Phase) : List Phase → List Phase → Type 0 where
  first : (rest : List Phase) → Moves p q (p ∷ rest) (q ∷ rest)
  next : (r : Phase) {xs ys : List Phase} → Moves p q xs ys → Moves p q (r ∷ xs) (r ∷ ys)

pub record System : Type 0 where
  pub api : Api
  pub calls : List Phase

pub data Step : System → System → Type 0 where
  begins : (s : System) → Step s (record s { calls = entering ∷ s.calls })
  admits :
      (a b : Api) {xs ys : List Phase}
      → acquire_sem a ≡ some b
      → Moves entering connecting xs ys
      → Step (record { api = a; calls = xs }) (record { api = b; calls = ys })
  -- the context ended first
  gives_up :
      (a : Api) {xs ys : List Phase}
      → Moves entering finished xs ys
      → Step (record { api = a; calls = xs }) (record { api = a; calls = ys })
  connects :
      (a b : Api) (dial_ok : Bool) (c gen : ℕ) {xs ys : List Phase}
      → connect a dial_ok ≡ (some (c, gen), b)
      → Moves connecting (calling c gen) xs ys
      → Step (record { api = a; calls = xs }) (record { api = b; calls = ys })
  fails_to_connect :
      (a b : Api) (dial_ok : Bool) {xs ys : List Phase}
      → connect a dial_ok ≡ (none, b)
      → Moves connecting returning xs ys
      → Step (record { api = a; calls = xs }) (record { api = b; calls = ys })
  -- nil, or an error that is not of the connection
  answers :
      (a : Api) (c gen : ℕ) {xs ys : List Phase}
      → Moves (calling c gen) returning xs ys
      → Step (record { api = a; calls = xs }) (record { api = a; calls = ys })
  -- isConnectionLevelError
  fails :
      (a : Api) (c gen : ℕ) {xs ys : List Phase}
      → Moves (calling c gen) (failing c gen) xs ys
      → Step (record { api = a; calls = xs }) (record { api = a; calls = ys })
  resets :
      (a : Api) (c gen : ℕ) {xs ys : List Phase}
      → Moves (failing c gen) returning xs ys
      → Step (record { api = a; calls = xs }) (record { api = reset_if_gen a gen; calls = ys })
  leaves :
      (a b : Api) {xs ys : List Phase}
      → release_sem a ≡ some b
      → Moves returning finished xs ys
      → Step (record { api = a; calls = xs }) (record { api = b; calls = ys })
  -- the backend's Stop
  closes : (s : System) → Step s (record s { api = close_api s.api })

unfoldable pub started : System
started = record { api = new_api; calls = [] }

pub data Reach (s : System) : System → Type 0 where
  here : Reach s s
  later : {t u : System} → Reach s t → Step t u → Reach s u
