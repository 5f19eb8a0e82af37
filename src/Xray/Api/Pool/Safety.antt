-- ===== src/Xray/Api/Pool/Safety.antt =====
-- internal/backend/xray/api.go: no more calls at once than the semaphore has places, and no call
-- closes a connection that another one made since.
use nde.Prelude.{
  ℕ, ◌+◌, ◌-◌, ◌%◌, ◌≤◌, ◌<◌, Bool, true, false, Option, none, some, List, ◌==◌, ◌≡◌, refl, arith,
  number_key, if◌then◌else◌, sym, ap, subst, ◌∙◌, ◌⊎◌, inl, inr, Bool-cases,
}
use nde.Xray.Api.Pool.{
  Api, Phase, entering, connecting, failing, returning, finished, Moves, System, Step, begins,
  admits, gives_up, connects, fails_to_connect, answers, fails, resets, leaves, closes, started,
  Reach, here, later, acquire_sem, release_sem, connect, reset_if_gen, close_api, new_api,
}
use nde.Xray.Api.Pool.Inv.{
  takes, in_flight, IsKnown, AllKnown, IsSound, Inv, in_flight-Moves, AllKnown-later,
  AllKnown-Moves, Moves-IsKnown,
}

-- What `connect` gives.
abbrev IsConnected : ℕ → Option (ℕ × ℕ) → Type 0
IsConnected dialed none = Unit
IsConnected dialed (some (c, gen)) = (c ≤ dialed) × (gen ≡ c % 18446744073709551616)

record After (a : Api) (r : Option (ℕ × ℕ) × Api) : Type 0 where
  sound : IsSound r.1
  dialed : a.dialed ≤ r.1.dialed
  slots : r.1.slots ≡ a.slots
  given : IsConnected r.1.dialed r.0

connect-After_of :
    (conn : Option ℕ) (gen dialed slots : ℕ) (dial_ok : Bool)
    → let a : Api = record { conn = conn; conn_gen = gen; dialed = dialed; slots = slots } in
      IsSound a → After a (connect a dial_ok)
unfolding connect
connect-After_of none gen dialed slots true sound = record {
  sound = record { last = refl; counted = omega (arith, sound.counted) };
  dialed = omega arith;
  slots = refl;
  given = (omega arith, omega (arith, sound.counted));
}
connect-After_of none gen dialed slots false sound = record {
  sound = sound;
  dialed = omega arith;
  slots = refl;
  given = tt;
}
connect-After_of (some c) gen dialed slots dial_ok sound = record {
  sound = sound;
  dialed = omega arith;
  slots = refl;
  given = (
    omega (arith, sound.last),
    sound.counted ∙ ap (λ n. n % 18446744073709551616) (sym sound.last),
  );
}

connect-After :
    (a : Api) (dial_ok : Bool) (r : Option (ℕ × ℕ) × Api)
    → connect a dial_ok ≡ r
    → IsSound a
    → After a r
connect-After a dial_ok r e sound =
    subst (λ x. After a x) e (connect-After_of a.conn a.conn_gen a.dialed a.slots dial_ok sound)

reset_if_gen-IsSound_of :
    (conn : Option ℕ) (g dialed slots gen : ℕ)
    → let a : Api = record { conn = conn; conn_gen = g; dialed = dialed; slots = slots } in
      IsSound a
      → IsSound (reset_if_gen a gen)
        × ((reset_if_gen a gen).slots ≡ slots)
        × ((reset_if_gen a gen).dialed ≡ dialed)
unfolding reset_if_gen
reset_if_gen-IsSound_of none g dialed slots gen sound = (sound, refl, refl)
reset_if_gen-IsSound_of (some c) g dialed slots gen sound =
    elim (g == gen)
      as (λ b.
        let a : Api = record { conn = some c; conn_gen = g; dialed = dialed; slots = slots } in
        let a' : Api = if b then record a { conn = none } else a in
        IsSound a' × (a'.slots ≡ slots) × (a'.dialed ≡ dialed)) [
          | true ↦ (record { last = tt; counted = sound.counted }, refl, refl)
          | false ↦ (sound, refl, refl)
        ]

reset_if_gen-IsSound :
    (a : Api) (gen : ℕ)
    → IsSound a
    → IsSound (reset_if_gen a gen)
      × ((reset_if_gen a gen).slots ≡ a.slots)
      × ((reset_if_gen a gen).dialed ≡ a.dialed)
reset_if_gen-IsSound a gen = reset_if_gen-IsSound_of a.conn a.conn_gen a.dialed a.slots gen

-- A goroutine that goes on while the connection and the semaphore stay.
stays :
    (a : Api) {p q : Phase} {xs ys : List Phase}
    → Moves p q xs ys
    → takes p ≡ takes q
    → IsKnown a.dialed q
    → Inv (record { api = a; calls = xs })
    → Inv (record { api = a; calls = ys })
stays a m same one inv = record {
  sound = inv.sound;
  slots = omega (arith, in_flight-Moves m, inv.slots, same);
  bounded = inv.bounded;
  known = AllKnown-Moves a.dialed m one inv.known;
}

acquire_sem-slots :
    (a b : Api) → acquire_sem a ≡ some b → (b ≡ record a { slots = a.slots + 1 }) × (a.slots < 8)
unfolding acquire_sem
acquire_sem-slots a b e = ground (arith, e)

release_sem-slots :
    (a b : Api) → release_sem a ≡ some b → (b ≡ record a { slots = a.slots - 1 }) × (0 < a.slots)
unfolding release_sem
release_sem-slots a b e = ground (arith, e)

admitted :
    (a b : Api) {xs ys : List Phase}
    → acquire_sem a ≡ some b
    → Moves entering connecting xs ys
    → Inv (record { api = a; calls = xs })
    → Inv (record { api = b; calls = ys })
admitted a b {xs} {ys} e m inv =
    let got = acquire_sem-slots a b e in
    subst (λ x. Inv (record { api = x; calls = ys })) (sym got.0)
      (record {
        sound = record { last = inv.sound.last; counted = inv.sound.counted };
        slots = omega (arith, in_flight-Moves m, inv.slots);
        bounded = omega (arith, got.1);
        known = AllKnown-Moves a.dialed m tt inv.known;
      })

left :
    (a b : Api) {xs ys : List Phase}
    → release_sem a ≡ some b
    → Moves returning finished xs ys
    → Inv (record { api = a; calls = xs })
    → Inv (record { api = b; calls = ys })
left a b {xs} {ys} e m inv =
    let got = release_sem-slots a b e in
    subst (λ x. Inv (record { api = x; calls = ys })) (sym got.0)
      (record {
        sound = record { last = inv.sound.last; counted = inv.sound.counted };
        slots = omega (arith, in_flight-Moves m, inv.slots, got.1);
        bounded = omega (arith, inv.bounded);
        known = AllKnown-Moves a.dialed m tt inv.known;
      })

connected :
    (a b : Api) {p q : Phase} {xs ys : List Phase} (given : Option (ℕ × ℕ))
    → After a (given, b)
    → Moves p q xs ys
    → takes p ≡ takes q
    → IsKnown b.dialed q
    → Inv (record { api = a; calls = xs })
    → Inv (record { api = b; calls = ys })
connected a b {p} {q} {xs} {ys} given after m same one inv = record {
  sound = after.sound;
  slots = omega (arith, in_flight-Moves m, inv.slots, same, after.slots);
  bounded = omega (arith, inv.bounded, after.slots);
  known =
      AllKnown-Moves b.dialed m one (AllKnown-later a.dialed b.dialed xs after.dialed inv.known);
}

was_reset :
    (a : Api) (gen : ℕ) {p q : Phase} {xs ys : List Phase}
    → Moves p q xs ys
    → takes p ≡ takes q
    → IsKnown (reset_if_gen a gen).dialed q
    → Inv (record { api = a; calls = xs })
    → Inv (record { api = reset_if_gen a gen; calls = ys })
was_reset a gen {p} {q} {xs} {ys} m same one inv =
    let after = reset_if_gen-IsSound a gen inv.sound in
    record {
      sound = after.0;
      slots = omega (arith, in_flight-Moves m, inv.slots, same, after.1);
      bounded = omega (arith, inv.bounded, after.1);
      known =
          AllKnown-Moves (reset_if_gen a gen).dialed m one
            (subst (λ d. AllKnown d xs) (sym after.2) inv.known);
    }

step-Inv : {s t : System} → Step s t → Inv s → Inv t
unfolding close_api
step-Inv (begins s) inv = record {
  sound = inv.sound;
  slots = omega (arith, inv.slots);
  bounded = inv.bounded;
  known = (tt, inv.known);
}
step-Inv (admits a b e m) inv = admitted a b e m inv
step-Inv (gives_up a m) inv = stays a m refl tt inv
step-Inv (connects a b ok c gen e m) inv =
    let after = connect-After a ok (some (c, gen), b) e inv.sound in
    connected a b (some (c, gen)) after m refl after.given inv
step-Inv (fails_to_connect a b ok e m) inv =
    connected a b none (connect-After a ok (none, b) e inv.sound) m refl tt inv
step-Inv (answers a c gen m) inv = stays a m refl tt inv
step-Inv (fails a c gen m) inv = stays a m refl (Moves-IsKnown a.dialed m inv.known) inv
step-Inv (resets a c gen m) inv = was_reset a gen m refl tt inv
step-Inv (leaves a b e m) inv = left a b e m inv
step-Inv (closes s) inv = record {
  sound = record { last = tt; counted = inv.sound.counted };
  slots = inv.slots;
  bounded = inv.bounded;
  known = inv.known;
}

reach-Inv : (s : System) → Reach started s → Inv s
unfolding started new_api
reach-Inv s here = record {
  sound = record { last = tt; counted = refl };
  slots = refl;
  bounded = omega arith;
  known = tt;
}
reach-Inv s (later {t} r step) = step-Inv step (reach-Inv t r)

-- However the calls interleave, those between acquireSem and releaseSem are as many as the channel
-- has elements, and never more than 8; so releaseSem never waits.
pub in_flight_bounded :
    (s : System) → Reach started s → (in_flight s.calls ≡ s.api.slots) × (in_flight s.calls ≤ 8)
in_flight_bounded s r =
    let inv = reach-Inv s r in (inv.slots, omega (arith, inv.slots, inv.bounded))

reset_if_gen-conn_of :
    (conn : Option ℕ) (g dialed slots gen c : ℕ)
    → let a : Api = record { conn = conn; conn_gen = g; dialed = dialed; slots = slots } in
      IsSound a
      → dialed < 18446744073709551616
      → c ≤ dialed
      → gen ≡ c % 18446744073709551616
      → ((reset_if_gen a gen).conn ≡ conn) ⊎ (conn ≡ some c)
unfolding reset_if_gen
reset_if_gen-conn_of none g dialed slots gen c sound few le e = inl refl
reset_if_gen-conn_of (some k) g dialed slots gen c sound few le e = elim (Bool-cases (g == gen)) [
  | inr other ↦ inl (rw other refl)
  | inl same ↦ inr (ap (λ n. some n) (ground (arith, same, sound.last, sound.counted, few, le, e)))
]

-- As long as fewer than 2^64 connections were dialed, a call that resets the connection after an
-- error leaves it as it is unless it is the very connection that the call used: one that another
-- call dialed since stays open.
pub reset_if_gen-conn :
    (s : System) (c gen : ℕ) (later_calls : List Phase)
    → Reach started s
    → s.api.dialed < 18446744073709551616
    → Moves (failing c gen) returning s.calls later_calls
    → ((reset_if_gen s.api gen).conn ≡ s.api.conn) ⊎ (s.api.conn ≡ some c)
reset_if_gen-conn s c gen later_calls r few m =
    let inv = reach-Inv s r in
    let known = Moves-IsKnown s.api.dialed m inv.known in
    reset_if_gen-conn_of s.api.conn s.api.conn_gen s.api.dialed s.api.slots gen c inv.sound few
      known.0 known.1
