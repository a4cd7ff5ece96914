-- ===== src/Events/Examples.antt =====
-- The theorem on the event broker, applied to three events for a history of two and a buffer of one.
use sing_box_webui.Prelude.{List, [], ◌∷◌, ok}
use sing_box_webui.Prelude.Int.{pos}
use sing_box_webui.Events.{at_least_one, new_broker, Call, publishes, subscribes, takes, run}
use sing_box_webui.Events.Refines.{log_of, Refines, broker-Refines_log}

abbrev calls : List Call
calls =
    publishes (pos 1) "test" (ok "1")
    ∷ subscribes
    ∷ publishes (pos 2) "test" (ok "2")
    ∷ publishes (pos 3) "test" (ok "3")
    ∷ takes 1
    ∷ []

-- Tests

broker-Refines_log_example :
    Refines
      (at_least_one (pos 2))
      (at_least_one (pos 1))
      (log_of 0 calls)
      (run calls (new_broker (pos 2) (pos 1)))
broker-Refines_log_example = broker-Refines_log (pos 2) (pos 1) calls
