-- ===== src/Util/LogBus/Delivery.antt =====
-- internal/util/logbus.go: what a reader of the buffer and a subscriber get.
use mathlib.Core.List.{append_assoc, append-nil}
use nde.Prelude.{
  ℕ, String, false, some, List, [], ◌∷◌, ◌++◌, ◌≡◌, refl, sym, ◌∙◌, ap, subst, arith, number_key,
  if◌then◌else◌, contains, Bool-cases, inl, inr, ==_refl,
}
use nde.Util.LogBus.{LogBus, lines_limit, new_log_bus, push, publish, unsubscribe, snapshot}
use nde.Util.LogBus.Runs.{
  BusCall, publishes, subscribes, unsubscribes, receives, bus_run, published, IsSound,
  new_log_bus-IsSound,
}
use nde.Util.LogBus.Latest.{latest, push-latest, latest-nil}
use nde.Util.LogBus.Sound.{
  step-Proceeds, buffer_after, offered, publish-open, some-injective, contains-removed,
}

buffer_after-latest :
    (b : LogBus) (c : BusCall) (lines : List String)
    → b.buffer ≡ latest b.max_lines lines
    → buffer_after b c ≡ latest b.max_lines (lines ++ published (c ∷ []))
unfolding published
buffer_after-latest b (publishes line) lines h = rw h (push-latest b.max_lines lines line)
buffer_after-latest b subscribes lines h = rw append-nil h
buffer_after-latest b (unsubscribes ch) lines h = rw append-nil h
buffer_after-latest b (receives ch) lines h = rw append-nil h

published-cons :
    (c : BusCall) (cs : List BusCall) → published (c ∷ cs) ≡ published (c ∷ []) ++ published cs
unfolding published
published-cons (publishes line) cs = refl
published-cons subscribes cs = refl
published-cons (unsubscribes ch) cs = refl
published-cons (receives ch) cs = refl

run_from :
    (b : LogBus) (cs : List BusCall) (lines : List String)
    → IsSound b
    → b.buffer ≡ latest b.max_lines lines
    → (after : LogBus) × (bus_run b cs ≡ some after)
      × IsSound after
      × (after.buffer ≡ latest b.max_lines (lines ++ published cs))
unfolding bus_run published
run_from b [] lines w h = (b, refl, w, rw append-nil h)
run_from b (c ∷ cs) lines w h =
    let (b', done, w', buf, same) = step-Proceeds b c w in
    let (after, ran, sound, last) = run_from b' cs (lines ++ published (c ∷ [])) w' (
      buf
      ∙ buffer_after-latest b c lines h
      ∙ ap (λ n. latest n (lines ++ published (c ∷ []))) (sym same)) in
    (
      after,
      rw (done, bus_run) ran,
      sound,
      last
          ∙ ap (λ n. latest n ((lines ++ published (c ∷ [])) ++ published cs)) same
          ∙ ap (latest b.max_lines) (
              append_assoc lines (published (c ∷ [])) (published cs)
              ∙ ap (λ z. lines ++ z) (sym (published-cons c cs))),
    )

-- No sequence of calls on a new bus panics. After it the snapshot is the last lines of those that
-- were published, as many as the bus keeps, and the bus is sound.
pub run-latest :
    (n : ℕ) (cs : List BusCall)
    → (after : LogBus) × (bus_run (new_log_bus n) cs ≡ some after)
      × IsSound after
      × (snapshot after ≡ latest (lines_limit n) (published cs))
unfolding new_log_bus latest snapshot
run-latest n cs =
    run_from (new_log_bus n) cs [] (new_log_bus-IsSound n) (sym (latest-nil (lines_limit n)))

-- A line that is published on a sound bus goes to each subscriber that has room, behind what it has
-- not read yet; all other channels stay as they are.
pub publish-delivers :
    (b : LogBus) (line : String)
    → IsSound b
    → (after : LogBus) × (publish b line ≡ some after)
      × ((ch : ℕ)
          → after.channels ch
            ≡ (if contains ch b.subs then offered (b.channels ch) line else b.channels ch))
publish-delivers b line w =
    let (channels, done, each) = publish-open b line w in
    (record b { buffer = push b.max_lines b.buffer line; channels = channels }, done, each)

unsubscribed :
    (b after : LogBus) (ch : ℕ)
    → IsSound b
    → unsubscribe b ch ≡ some after
    → contains ch after.subs ≡ false
unfolding unsubscribe
unsubscribed b after ch w = elim (Bool-cases (contains ch b.subs)) [
  | inr out ↦ rw out λ e. subst (λ (z : LogBus). contains ch z.subs ≡ false) (some-injective e) out
  | inl found ↦
      rw (found, w.opened ch found)
        λ e.
          subst (λ (z : LogBus). contains ch z.subs ≡ false) (some-injective e)
            (ground (arith, contains-removed ch ch b.subs, ==_refl ch))
]

-- To unsubscribe a second time changes nothing, and does not panic.
pub unsubscribe-twice :
    (b after : LogBus) (ch : ℕ)
    → IsSound b
    → unsubscribe b ch ≡ some after
    → unsubscribe after ch ≡ some after
unfolding unsubscribe
unsubscribe-twice b after ch w e = rw (unsubscribed b after ch w e, unsubscribe) refl
