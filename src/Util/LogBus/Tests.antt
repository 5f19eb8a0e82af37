-- ===== src/Util/LogBus/Tests.antt =====
-- Concrete runs of internal/util/logbus.go.
use nde.Prelude.{some, List, [], ◌∷◌, ◌≡◌, refl, number_key}
use nde.Util.LogBus.{LogBus, lines_limit, new_log_bus, subscribe, snapshot}
use nde.Util.LogBus.Runs.{
  BusCall, publishes, subscribes, unsubscribes, bus_run, bus_step, published, IsSound,
  new_log_bus-IsSound,
}
use nde.Util.LogBus.Latest.{latest}
use nde.Util.LogBus.Sound.{step-IsSound}
use nde.Util.LogBus.Delivery.{run-latest}

abbrev calls : List BusCall
calls =
    subscribes
    ∷ publishes "x"
    ∷ publishes "y"
    ∷ unsubscribes 0
    ∷ unsubscribes 0
    ∷ publishes "z"
    ∷ []

run-latest_example :
    (after : LogBus) × (bus_run (new_log_bus 2) calls ≡ some after)
    × IsSound after
    × (snapshot after ≡ "y" ∷ "z" ∷ [])
unfolding latest lines_limit published
run-latest_example = run-latest 2 calls

-- A new bus with one subscriber.
abbrev subscribed : LogBus
subscribed = (subscribe (new_log_bus 2)).1

subscribed-IsSound : IsSound subscribed
unfolding bus_step
subscribed-IsSound = step-IsSound (new_log_bus 2) subscribed subscribes (new_log_bus-IsSound 2) refl
