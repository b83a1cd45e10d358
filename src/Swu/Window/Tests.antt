-- ===== src/Swu/Window/Tests.antt =====
-- window.go: a run, and the theorems at concrete inputs.
use swu_go.Prelude.{◌+◌, ◌*◌, ◌≤◌, ◌≡◌, refl, true, List, [], ◌∷◌}
use swu_go.Swu.Window.{
  RetryConfig, sent, delivered, closed, Call, enqueues, responds, ticks, stops, put, get, delete,
  new_task_manager, send, activate_message, enqueue_request, pump, handle_response, next_timeout,
  retry, sweep, after_sweep, check_timeouts, close_all, shut_down, step, run,
}
use swu_go.Swu.Window.Invariant.{Inv, run-new_task_manager-Inv}
use swu_go.Swu.Window.Accounting.{enqueued, sends, settled}
use swu_go.Swu.Window.Accounting.Sends.{sends-le}
use swu_go.Swu.Window.Accounting.Settled.{Fresh, held, settled-held}

-- Two retries, after 10, and then after 20, but at most after 15.
abbrev config : RetryConfig
config = record { max_retries = 2; initial_timeout = 10; max_timeout = 15; backoff = λ t. t + t }

-- Three requests over a window of 1: the first is answered, the second is sent again and gives up, and
-- the third is under way when the manager stops.
abbrev history : List Call
history =
    enqueues 0 1 []
    ∷ enqueues 0 2 []
    ∷ enqueues 0 3 []
    ∷ responds 5 1 (7 ∷ [])
    ∷ responds 5 1 (7 ∷ [])
    ∷ ticks 14
    ∷ ticks 15
    ∷ ticks 30
    ∷ ticks 44
    ∷ ticks 45
    ∷ stops
    ∷ []

history_events :
    (run history (new_task_manager config 1 true)).1
    ≡ sent 1 []
      ∷ delivered 1 (7 ∷ [])
      ∷ sent 2 []
      ∷ sent 2 []
      ∷ sent 2 []
      ∷ closed 2
      ∷ sent 3 []
      ∷ closed 3
      ∷ []
unfolding run step new_task_manager enqueue_request activate_message handle_response check_timeouts
    sweep after_sweep retry next_timeout send pump put get delete shut_down close_all
history_events = refl

run-new_task_manager-Inv_example : Inv (run history (new_task_manager config 1 true)).0
run-new_task_manager-Inv_example = run-new_task_manager-Inv config 1 true history

sends-le_example :
    sends 2 (run history (new_task_manager config 1 true)).1
    ≤ enqueued 2 history * (1 + config.max_retries)
sends-le_example = sends-le config 1 true history 2

history-Fresh : Fresh history (new_task_manager config 1 true)
unfolding run step new_task_manager enqueue_request activate_message handle_response check_timeouts
    sweep after_sweep retry next_timeout send pump put get delete shut_down close_all
history-Fresh = (refl, (refl, (refl, tt)))

settled-held_example :
    settled 3 (run history (new_task_manager config 1 true)).1
      + held 3 (run history (new_task_manager config 1 true)).0
    ≡ enqueued 3 history
settled-held_example = settled-held config 1 true history 3 history-Fresh
