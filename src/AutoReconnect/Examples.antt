-- ===== src/AutoReconnect/Examples.antt =====
-- The theorems on AutoReconnect at a wrapper that has just been started.
use amqp_cpp_asio.Base.{true, false, none, some, List, [], ◌∷◌, ◌≡◌, refl}
use amqp_cpp_asio.Connector.{normal, broker_connect_error, amqp_error}
use amqp_cpp_asio.AutoReconnect.{
  original, restarts, async_start_connector, stop_connector, wait_second, cancel_timer, Link,
  AutoReconnect, new, Event, starts, stops, connected, exited, timer, handle_event, run_events,
  start, stop, on_started, restart,
}
use amqp_cpp_asio.AutoReconnect.Sessions.{IsValid, Returns, Bounded, MayRun, run_events-Bounded}
use amqp_cpp_asio.AutoReconnect.Restoring.{
  Restored, GivenBack, attempts, attempt_calls, ending, lost-Restored, stop-restores, start-again,
}

abbrev link : Link
link = record { connection_handler_ready = false; exit_cb = some (original 7) }

abbrev fresh : AutoReconnect
fresh = new link

abbrev running : AutoReconnect
running = record {
  connector = record { connection_handler_ready = false; exit_cb = some restarts };
  started = true;
  need_stop = false;
  rerun = false;
  backup_exit_callback = some (original 7);
  started_callback = some 1;
  calls = async_start_connector ∷ [];
}

start-running : start (some 1) fresh ≡ running
unfolding start
start-running = refl

fresh-IsValid : IsValid fresh
fresh-IsValid = record { backup_original = _; watched = λ e. cc }

running-IsValid : IsValid running
running-IsValid = record { backup_original = _; watched = λ e. refl }

abbrev events : List Event
events =
    starts (some 1)
    ∷ exited broker_connect_error
    ∷ timer false
    ∷ connected
    ∷ exited amqp_error
    ∷ timer false
    ∷ connected
    ∷ stops
    ∷ exited normal
    ∷ starts (some 2)
    ∷ connected
    ∷ []

events-MayRun : MayRun 1 events fresh
unfolding handle_event start stop on_started restart
events-MayRun =
    (refl, (refl, (refl, (refl, (refl, (refl, (refl, (refl, (refl, (refl, (refl, _)))))))))))

run_events-Bounded_example : Returns (Bounded 2) (run_events 1 events fresh)
run_events-Bounded_example = run_events-Bounded 0 events fresh events-MayRun fresh-IsValid

lost-Restored_example :
    Returns
      (Restored
        (some (original 7))
        (some 1)
        (attempt_calls 2 (wait_second ∷ async_start_connector ∷ [])))
      (run_events 1 (exited broker_connect_error ∷ attempts 2) running)
lost-Restored_example = lost-Restored 0 2 broker_connect_error running (λ e. cc) (refl, refl, refl)

stop-restores_example :
    Returns
      (GivenBack
        (some (original 7))
        normal
        (stop_connector ∷ cancel_timer ∷ async_start_connector ∷ []))
      (run_events 1 (stops ∷ ending false true normal) running)
stop-restores_example = stop-restores 0 true normal running running-IsValid refl

start-again_example : run_events 9 (stops ∷ starts (some 2) ∷ exited normal ∷ []) running ≡ none
start-again_example = start-again 9 (some 2) running refl refl
