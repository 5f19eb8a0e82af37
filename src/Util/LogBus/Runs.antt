-- ===== src/Util/LogBus/Runs.antt =====
-- internal/util/logbus.go: all sequences of calls, and what no call can do.
use nde.Prelude.{
  ℕ, String, ◌≤◌, ◌<◌, true, false, Option, none, some, List, [], ◌∷◌, ◌≡◌, arith, number_key,
  length, contains,
}
use nde.Util.LogBus.{LogBus, new_log_bus, publish, subscribe, unsubscribe, receive}

pub data BusCall : Type 0 where
  publishes : String → BusCall
  subscribes : BusCall
  unsubscribes : ℕ → BusCall
  receives : ℕ → BusCall

-- none: the call panics.
unfoldable pub bus_step : LogBus → BusCall → Option LogBus
unfolding publish subscribe unsubscribe receive
bus_step b (publishes line) = publish b line
bus_step b subscribes = some (subscribe b).1
bus_step b (unsubscribes ch) = unsubscribe b ch
bus_step b (receives ch) = some (receive b ch)

unfoldable pub bus_run : LogBus → List BusCall → Option LogBus
unfolding bus_step
bus_run b [] = some b
bus_run b (c ∷ cs) = elim (bus_step b c) [ none ↦ none | some b' ↦ bus_run b' cs ]

-- The lines that were published, in their order.
unfoldable pub published : List BusCall → List String
published [] = []
published (publishes line ∷ cs) = line ∷ published cs
published (_ ∷ cs) = published cs

abbrev pub NoTwice : List ℕ → Type 0
NoTwice [] = Unit
NoTwice (ch ∷ rest) = (contains ch rest ≡ false) × NoTwice rest

-- The subscribers are open, new addresses are new, and no queue is longer than its channel.
pub record IsSound (b : LogBus) : Type 0 where
  pub opened : (ch : ℕ) → contains ch b.subs ≡ true → (b.channels ch).closed ≡ false
  pub below : (ch : ℕ) → contains ch b.subs ≡ true → ch < b.next
  pub distinct : NoTwice b.subs
  pub room : (ch : ℕ) → length (b.channels ch).queued ≤ 256

pub new_log_bus-IsSound : (n : ℕ) → IsSound (new_log_bus n)
unfolding new_log_bus contains
new_log_bus-IsSound n = record {
  opened = λ ch e. cc;
  below = λ ch e. cc;
  distinct = tt;
  room = λ ch. omega arith;
}
