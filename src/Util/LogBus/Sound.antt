-- ===== src/Util/LogBus/Sound.antt =====
-- internal/util/logbus.go: every call keeps the bus sound and panics in no sound bus.
use nde.Prelude.{
  ℕ, String, true, false, some, List, [], ◌∷◌, ◌++◌, ◌==◌, ◌≡◌, refl, sym, ◌∙◌, subst, arith,
  number_key, if◌then◌else◌, ltb, length, contains, contains-append, update, ◌&&◌, not,
  length-append, length-drop, Bool-cases, inl, inr, ==_iff, ==_refl,
}
use nde.Util.LogBus.{
  Channel, LogBus, push, offer, offer_each, publish, subscribe, removed, unsubscribe, receive,
}
use nde.Util.LogBus.Runs.{
  BusCall, publishes, subscribes, unsubscribes, receives, bus_step, NoTwice, IsSound,
}

-- A channel after an offer of a line, open and with the rest of its state.
abbrev pub offered : Channel → String → Channel
offered c line =
    if ltb (length c.queued) 256 then record c { queued = c.queued ++ line ∷ [] } else c

offer-open : (c : Channel) (line : String) → c.closed ≡ false → offer c line ≡ some (offered c line)
unfolding offer
offer-open c line h = ground arith

-- Open subscribers, each once, are all offered the line, and nothing else changes.
pub offer_each-open :
    (channels : ℕ → Channel) (subs : List ℕ) (line : String)
    → ((ch : ℕ) → contains ch subs ≡ true → (channels ch).closed ≡ false)
    → NoTwice subs
    → (after : ℕ → Channel) × (offer_each channels subs line ≡ some after)
      × ((ch : ℕ)
          → after ch ≡ (if contains ch subs then offered (channels ch) line else channels ch))
unfolding offer_each contains update
offer_each-open channels [] line open_subs distinct = (channels, refl, λ ch. refl)
offer_each-open channels (x ∷ rest) line open_subs distinct =
    let first : offer (channels x) line ≡ some (offered (channels x) line) =
      offer-open (channels x) line (open_subs x (rw (==_refl x) refl)) in
    let channels' = update channels x (offered (channels x) line) in
    let (after, done, each) =
      offer_each-open channels' rest line
        (λ ch e. ground (arith, open_subs ch, ==_iff x ch, distinct.0)) distinct.1 in
    (after, rw (first, offer_each) done, λ ch. ground (arith, each ch, ==_iff x ch, distinct.0))

abbrev pub buffer_after : LogBus → BusCall → List String
buffer_after b (publishes line) = push b.max_lines b.buffer line
buffer_after b _ = b.buffer

-- The call does not panic, and leaves a sound bus.
abbrev pub Proceeds : LogBus → BusCall → Type 0
Proceeds b c =
    (after : LogBus) × (bus_step b c ≡ some after)
    × IsSound after
    × (after.buffer ≡ buffer_after b c)
    × (after.max_lines ≡ b.max_lines)

-- A line on a sound bus.
pub publish-open :
    (b : LogBus) (line : String)
    → IsSound b
    → (channels : ℕ → Channel) × (publish b line
        ≡ some (record b { buffer = push b.max_lines b.buffer line; channels = channels }))
      × ((ch : ℕ)
          → channels ch
            ≡ (if contains ch b.subs then offered (b.channels ch) line else b.channels ch))
unfolding publish
publish-open b line w =
    let (channels, done, each) = offer_each-open b.channels b.subs line w.opened w.distinct in
    (channels, rw (done, publish) refl, each)

publish-Proceeds : (b : LogBus) (line : String) → IsSound b → Proceeds b (publishes line)
unfolding bus_step
publish-Proceeds b line w =
    let (channels, done, each) = publish-open b line w in
    (
      record b { buffer = push b.max_lines b.buffer line; channels = channels },
      done,
      record {
        opened = λ ch e. ground (arith, each ch, w.opened ch);
        below = w.below;
        distinct = w.distinct;
        room = λ ch.
            ground (arith, each ch, w.room ch, length-append (b.channels ch).queued (line ∷ []));
      },
      refl,
      refl,
    )

NoTwice-append : (xs : List ℕ) (y : ℕ) → contains y xs ≡ false → NoTwice xs → NoTwice (xs ++ y ∷ [])
unfolding contains
NoTwice-append [] y out d = (refl, tt)
NoTwice-append (x ∷ xs) y out d = (
  ground (arith, contains-append x xs (y ∷ []), d.0, ==_iff x y, ==_iff y x),
  NoTwice-append xs y (ground arith) d.1,
)

subscribe-Proceeds : (b : LogBus) → IsSound b → Proceeds b subscribes
unfolding bus_step subscribe update contains
subscribe-Proceeds b w = (
  (subscribe b).1,
  refl,
  record {
    opened = λ ch e. ground (arith, w.opened ch, contains-append ch b.subs (b.next ∷ []));
    below = λ ch e.
        ground (arith, w.below ch, contains-append ch b.subs (b.next ∷ []), ==_iff b.next ch);
    distinct = NoTwice-append b.subs b.next (ground (arith, w.below b.next)) w.distinct;
    room = λ ch. ground (arith, w.room ch);
  },
  refl,
  refl,
)

pub contains-removed :
    (k ch : ℕ) (xs : List ℕ) → contains k (removed ch xs) ≡ (contains k xs && not (k == ch))
unfolding removed contains
contains-removed k ch [] = refl
contains-removed k ch (x ∷ xs) =
    ground (arith, contains-removed k ch xs, ==_iff x k, ==_iff x ch, ==_iff k ch)

NoTwice-removed : (ch : ℕ) (xs : List ℕ) → NoTwice xs → NoTwice (removed ch xs)
unfolding removed contains
NoTwice-removed ch [] d = tt
NoTwice-removed ch (x ∷ xs) d = elim (Bool-cases (x == ch)) [
  | inl hit ↦ rw hit (NoTwice-removed ch xs d.1)
  | inr miss ↦ rw miss (ground (arith, contains-removed x ch xs, d.0), NoTwice-removed ch xs d.1)
]

unsubscribe-Proceeds : (b : LogBus) (ch : ℕ) → IsSound b → Proceeds b (unsubscribes ch)
unfolding bus_step unsubscribe update
unsubscribe-Proceeds b ch w = elim (Bool-cases (contains ch b.subs)) [
  | inr out ↦ (b, rw out refl, w, refl, refl)
  | inl found ↦ (
    record b {
      subs = removed ch b.subs;
      channels = update b.channels ch (record (b.channels ch) { closed = true });
    },
    rw (found, w.opened ch found) refl,
    record {
      opened =
          λ k e. ground (arith, w.opened k, contains-removed k ch b.subs, ==_iff k ch, ==_iff ch k);
      below = λ k e. w.below k (ground (arith, contains-removed k ch b.subs));
      distinct = NoTwice-removed ch b.subs w.distinct;
      room = λ k. ground (arith, w.room k, w.room ch);
    },
    refl,
    refl,
  )
]

receive-Proceeds : (b : LogBus) (ch : ℕ) → IsSound b → Proceeds b (receives ch)
unfolding bus_step receive update
receive-Proceeds b ch w = (
  receive b ch,
  refl,
  record {
    opened = λ k e. ground (arith, w.opened k, ==_iff ch k);
    below = w.below;
    distinct = w.distinct;
    room = λ k. ground (arith, w.room k, w.room ch, length-drop 1 (b.channels ch).queued);
  },
  refl,
  refl,
)

pub step-Proceeds : (b : LogBus) (c : BusCall) → IsSound b → Proceeds b c
step-Proceeds b (publishes line) w = publish-Proceeds b line w
step-Proceeds b subscribes w = subscribe-Proceeds b w
step-Proceeds b (unsubscribes ch) w = unsubscribe-Proceeds b ch w
step-Proceeds b (receives ch) w = receive-Proceeds b ch w

pub some-injective : {a b : LogBus} → some a ≡ some b → a ≡ b
some-injective e = cc

-- Every call on a sound bus leaves a sound bus.
pub step-IsSound :
    (b after : LogBus) (c : BusCall) → IsSound b → bus_step b c ≡ some after → IsSound after
step-IsSound b after c w e =
    let (b', done, w', buf, same) = step-Proceeds b c w in
    subst IsSound (some-injective (sym done ∙ e)) w'
