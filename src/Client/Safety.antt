-- ===== src/Client/Safety.antt =====
-- No call of a client (src/AutoReconnect.cpp, src/AmqpConnector.cpp) follows a null pointer.
use amqp_cpp_asio.Base.{String, refl, Bool, false, none, some, List, [], ◌∷◌, ℕ}
use amqp_cpp_asio.Connector.{ExitCode}
use amqp_cpp_asio.Connector.Machine.{Connector, connect}
use amqp_cpp_asio.Connector.Service.{Delivery, run, posted}
use amqp_cpp_asio.Connector.Service.Leading.{MayCome}
use amqp_cpp_asio.Connector.Service.Leading.Looping.{run-Led, posted-Led}
use amqp_cpp_asio.AutoReconnect.{
  AutoReconnect, call_exit, run_connector, started_callback as told_started,
}
use amqp_cpp_asio.AutoReconnect as AutoReconnect
use amqp_cpp_asio.Client.{
  Client, Result, returns, and_then, silent, run_link, stop_link, run_again, tell_started, started,
  connected, finish, start, second_passed, Event, starts, stops, connects, finishes, shuts, timer,
  handle_event, run_events,
}
use amqp_cpp_asio.Client.Keeping.{
  Keeps, Keeps-and_then, Keeps-if, HasLink, IsSafe, start-HasLink, second_passed-HasLink,
  stop_link-Keeps, stop-Keeps, shut-Keeps, after_loop-Keeps, silent-IsLinked,
}

module _ (loop : Connector → Delivery) (lines : ExitCode → List String) (k : ℕ) where
  module _ (comes : MayCome loop) where
    pub run_link-Keeps : IsSafe k (run_link loop lines)
    run_link-Keeps s v =
        after_loop-Keeps loop lines k s (run loop (silent s)) v
          (run-Led loop comes (silent s) (silent-IsLinked loop lines k s v))

    run_again-Keeps : IsSafe k (run_again loop lines)
    run_again-Keeps s v =
        let t : Client = record s {
          wrapper = record s.wrapper {
            started_callback = none;
            rerun = false;
            calls = run_connector ∷ s.wrapper.calls;
          };
        } in
        let u : Client = record s { wrapper = record s.wrapper { started_callback = none } } in
        Keeps-if (HasLink k) s.wrapper.rerun (run_link loop lines t) (returns u)
          (λ e. run_link-Keeps t v) (λ e. v)

    module _ (on_started : Client → Result) (safe : IsSafe k on_started) where
      tell_started-Keeps : IsSafe k (tell_started loop lines on_started)
      tell_started-Keeps s v =
          elim s.wrapper.started_callback
            as (λ o. Keeps (HasLink k) (elim o [
              | none ↦ returns s
              | some callback ↦
                  on_started
                    (record s { wrapper = AutoReconnect.call s.wrapper (told_started callback) })
            ])) [
              | none ↦ v
              | some callback ↦
                  safe (record s { wrapper = AutoReconnect.call s.wrapper (told_started callback) })
                    v
            ]

      started-Keeps : IsSafe k (started loop lines on_started)
      unfolding started
      started-Keeps s v =
          let t : Client = record s {
            wrapper =
                AutoReconnect.call (record s.wrapper { need_stop = false })
                  AutoReconnect.stop_connector;
          } in
          Keeps-if (HasLink k) s.wrapper.need_stop (stop_link loop lines t)
            (and_then (run_again loop lines) (tell_started loop lines on_started s))
            (λ e. stop_link-Keeps loop lines k t v)
            (λ e.
              Keeps-and_then (HasLink k) (HasLink k) (run_again loop lines)
                (tell_started loop lines on_started s) run_again-Keeps (tell_started-Keeps s v))

      connected-Keeps : IsSafe k (connected loop lines on_started)
      unfolding connected connect
      connected-Keeps s v =
          let t : Client = record s { connector = connect s.connector } in
          let w : HasLink k t = (record { valid = v.0.valid; linked = refl }, v.1) in
          Keeps-if (HasLink k) s.connector.on_started (started loop lines on_started t) (returns t)
            (λ e. started-Keeps t w) (λ e. w)

      module _ (handler_stopped : Connector → Bool) where
        finish-Keeps : IsSafe k (finish loop lines on_started handler_stopped)
        unfolding finish
        finish-Keeps s v =
            after_loop-Keeps loop lines k s (posted loop handler_stopped (silent s)) v
              (posted-Led loop comes handler_stopped (silent s) (silent-IsLinked loop lines k s v))

        handle_event-Keeps :
            (e : Event) → IsSafe k (handle_event loop lines on_started handler_stopped e)
        unfolding handle_event start second_passed
        handle_event-Keeps starts s v = start-HasLink k s v
        handle_event-Keeps stops s v = stop-Keeps loop lines k s v
        handle_event-Keeps connects s v = connected-Keeps s v
        handle_event-Keeps finishes s v = finish-Keeps s v
        handle_event-Keeps (shuts error) s v = shut-Keeps loop lines k error s v
        handle_event-Keeps (timer aborted) s v = second_passed-HasLink k aborted s v

        -- If the event loop, where it is run, delivers a reply only where it may come, then over
        -- any run of calls and events, AutoReconnect and the Connector that it wraps follow no
        -- null pointer, as long as no wait takes more than eleven deliveries for each
        -- transceiver, and wherever the run returns the connector has as many transceivers as
        -- before, all of them valid, and a connection exactly while it is ready; the started
        -- callback is any function over both that keeps this, and may call both back
        pub run_events-Keeps :
            (es : List Event) → IsSafe k (run_events loop lines on_started handler_stopped es)
        unfolding run_events
        run_events-Keeps [] s v = v
        run_events-Keeps (e ∷ es) s v =
            Keeps-and_then (HasLink k) (HasLink k)
              (run_events loop lines on_started handler_stopped es)
              (handle_event loop lines on_started handler_stopped e s) (run_events-Keeps es)
              (handle_event-Keeps e s v)
