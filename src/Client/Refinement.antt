-- ===== src/Client/Refinement.antt =====
-- The wrapper of a client with a whole connector (src/AutoReconnect.cpp, src/AmqpConnector.cpp) against the
-- wrapper over the members that it sees.
use amqp_cpp_asio.Base.{
  true_ne, String, ◌≡◌, refl, sym, subst, Bool, true, false, none, some, List, [], ◌∷◌, ◌++◌, arith,
  if◌then◌else◌, not,
}
use amqp_cpp_asio.Connector.{ExitCode}
use amqp_cpp_asio.Connector.Machine.{Connector, connect}
use amqp_cpp_asio.Connector.Service.{Delivery}
use amqp_cpp_asio.Connector.Service.Leading.{MayCome}
use amqp_cpp_asio.AutoReconnect.{AutoReconnect, run_connector}
use amqp_cpp_asio.AutoReconnect as AutoReconnect
use amqp_cpp_asio.Client.{
  Client, returns, and_then, seen, run_link, stop_link, stop, run_again, started, connected, start,
  second_passed, tell_started, Event, starts, stops, connects, finishes, shuts, timer, handle_event,
  run_events,
}
use amqp_cpp_asio.Client.Keeping.{Keeps, Keeps-if, Keeps-map, Keeps-and_then}
use amqp_cpp_asio.Client.Hearing.{exits, Follows-append, Follows, IsBound}
use amqp_cpp_asio.Client.Simulating.{
  Simulated, stop_link-Simulated, shut-Simulated, run_link-Simulated, finish-Simulated,
}

-- An event of the client, as the wrapper over the members that it sees takes it. What the connector
-- does by itself it hears by the exit callback only.
abbrev pub view : Event → List AutoReconnect.Event
view starts = AutoReconnect.starts (some 0) ∷ []
view stops = AutoReconnect.stops ∷ []
view connects = AutoReconnect.connected ∷ []
view finishes = []
view (shuts error) = []
view (timer aborted) = AutoReconnect.timer aborted ∷ []

-- One event.
Once :
    (e : AutoReconnect.Event) (a b : AutoReconnect)
    → AutoReconnect.handle_event 1 e a ≡ some b
    → Follows a (e ∷ []) b
Once e a b q = (a, refl, q)

start-Simulated :
    (s : Client)
    → IsBound s
    → Keeps (Simulated (AutoReconnect.starts (some 0) ∷ []) (seen s)) (returns (start s))
unfolding start AutoReconnect.start AutoReconnect.handle_event
start-Simulated s b = (
  ground arith,
  [],
  Once (AutoReconnect.starts (some 0)) (seen s) (seen (start s)) (ground arith),
)

timer-Simulated :
    (aborted : Bool) (s : Client)
    → IsBound s
    → Keeps
        (Simulated (AutoReconnect.timer aborted ∷ []) (seen s))
        (returns (second_passed aborted s))
unfolding second_passed AutoReconnect.handle_event
timer-Simulated true s b = (b, [], Once (AutoReconnect.timer true) (seen s) (seen s) refl)
timer-Simulated false s b = (
  ground arith,
  [],
  Once (AutoReconnect.timer false) (seen s) (seen (second_passed false s)) (ground arith),
)

module _ (loop : Connector → Delivery) (lines : ExitCode → List String) where
  stop-Simulated :
      (s : Client)
      → IsBound s
      → Keeps (Simulated (AutoReconnect.stops ∷ []) (seen s)) (stop loop lines s)
  unfolding stop AutoReconnect.stop AutoReconnect.handle_event
  stop-Simulated s b =
      let t : Client = record s { wrapper = AutoReconnect.stop (seen s) } in
      let es : List AutoReconnect.Event = AutoReconnect.stops ∷ [] in
      let c : IsBound t = ground arith in
      let f : Follows (seen s) es (seen t) =
        Once AutoReconnect.stops (seen s) (seen t) (ground arith) in
      Keeps-if (Simulated es (seen s)) (not s.wrapper.started) (returns s)
        (if s.connector.connection_handler_ready then stop_link loop lines t else returns t)
        (λ e. (b, [], Once AutoReconnect.stops (seen s) (seen s) (ground arith)))
        (λ e.
          Keeps-if (Simulated es (seen s)) s.connector.connection_handler_ready
            (stop_link loop lines t) (returns t)
            (λ r. stop_link-Simulated loop lines es (seen s) t c f) (λ r. (c, [], f)))

  -- The started callback, which does not call back.
  tell_started-returns :
      (s : Client)
      → tell_started loop lines returns s
        ≡ returns (record s {
          wrapper = record s.wrapper { calls = AutoReconnect.tell_started s.wrapper };
        })
  tell_started-returns s = ground arith

  module _ (comes : MayCome loop) where
    -- The members once the connection is made.
    abbrev linked : Client → Client
    linked s = record s { connector = connect s.connector }

    again-Simulated :
        (s : Client)
        → IsBound s
        → s.wrapper.need_stop ≡ false
        → Keeps
            (Simulated (AutoReconnect.connected ∷ []) (seen s))
            (and_then (run_again loop lines) (tell_started loop lines returns (linked s)))
    unfolding connect AutoReconnect.on_started AutoReconnect.handle_event
    again-Simulated s b n =
        let t : Client = record (linked s) {
          wrapper = record s.wrapper { calls = AutoReconnect.tell_started s.wrapper };
        } in
        let runs : Client = record t {
          wrapper = record t.wrapper {
            started_callback = none;
            rerun = false;
            calls = run_connector ∷ t.wrapper.calls;
          };
        } in
        let rests : Client = record t { wrapper = record t.wrapper { started_callback = none } } in
        let es : List AutoReconnect.Event = AutoReconnect.connected ∷ [] in
        subst (λ o. Keeps (Simulated es (seen s)) (and_then (run_again loop lines) o))
          (sym (tell_started-returns (linked s)))
          (Keeps-if (Simulated es (seen s)) s.wrapper.rerun (run_link loop lines runs)
            (returns rests)
            (λ r.
              run_link-Simulated loop lines es (seen s) runs
                (record {
                  linked = record { valid = b.linked.valid; linked = refl };
                  telling = b.telling;
                  starting = b.starting;
                })
                (Once AutoReconnect.connected (seen s) (seen runs) (ground arith)) comes)
            (λ r. (
              record {
                linked = record { valid = b.linked.valid; linked = refl };
                telling = b.telling;
                starting = b.starting;
              },
              [],
              Once AutoReconnect.connected (seen s) (seen rests) (ground arith),
            )))

    connected-Simulated :
        (s : Client)
        → IsBound s
        → Keeps (Simulated (AutoReconnect.connected ∷ []) (seen s)) (connected loop lines returns s)
    unfolding connected started connect AutoReconnect.on_started AutoReconnect.handle_event
    connected-Simulated s b =
        let es : List AutoReconnect.Event = AutoReconnect.connected ∷ [] in
        let t : Client = record (linked s) {
          wrapper =
              AutoReconnect.call (record s.wrapper { need_stop = false })
                AutoReconnect.stop_connector;
        } in
        Keeps-if (Simulated es (seen s)) s.connector.on_started
          (started loop lines returns (linked s)) (returns (linked s))
          (λ e.
            Keeps-if (Simulated es (seen s)) s.wrapper.need_stop (stop_link loop lines t)
              (and_then (run_again loop lines) (tell_started loop lines returns (linked s)))
              (λ n.
                stop_link-Simulated loop lines es (seen s) t
                  (record {
                    linked = record { valid = b.linked.valid; linked = refl };
                    telling = b.telling;
                    starting = b.starting;
                  })
                  (Once AutoReconnect.connected (seen s) (seen t) (ground arith)))
              (again-Simulated s b))
          (λ e. absurd (true_ne s.connector.on_started b.starting e))

    pub handle_event-Simulated :
        (handler_stopped : Connector → Bool) (e : Event) (s : Client)
        → IsBound s
        → Keeps (Simulated (view e) (seen s)) (handle_event loop lines returns handler_stopped e s)
    unfolding handle_event
    handle_event-Simulated handler_stopped starts s b = start-Simulated s b
    handle_event-Simulated handler_stopped stops s b = stop-Simulated s b
    handle_event-Simulated handler_stopped connects s b = connected-Simulated s b
    handle_event-Simulated handler_stopped finishes s b =
        finish-Simulated loop lines [] (seen s) s b refl comes handler_stopped
    handle_event-Simulated handler_stopped (shuts error) s b =
        shut-Simulated loop lines [] (seen s) s b refl error
    handle_event-Simulated handler_stopped (timer aborted) s b = timer-Simulated aborted s b

-- The events of the client as its wrapper takes them, the newest first, with the ends of the connection
-- that it hears of after each.
abbrev pub Woven : List Event → List AutoReconnect.Event → Type 0
Woven [] ws = ws ≡ []
Woven (e ∷ es) ws =
    (codes : List ExitCode) × (vs : List AutoReconnect.Event) × (ws ≡ vs ++ (exits codes ++ view e))
    × Woven es vs

-- What holds after the events.
abbrev pub Refines : List Event → AutoReconnect → Client → Type 0
Refines es a u = IsBound u × (ws : List AutoReconnect.Event) × Woven es ws × Follows a ws (seen u)

module _ (loop : Connector → Delivery) (lines : ExitCode → List String)
    (handler_stopped : Connector → Bool) (comes : MayCome loop) where
  -- If the event loop, where it is run, delivers a reply only where it may come, and the started
  -- callback does not call back, then over any run of calls and events, wherever it returns,
  -- AutoReconnect with the whole Connector has gone, in the members that AutoReconnect sees,
  -- through the steps of the model over these members only, for the same events with the ends of
  -- the connection, of which it hears by the exit callback, put in after each; its view of the
  -- exit callback and of the connection agrees with the connector before and after
  pub run_events-Refines :
      (es : List Event) (s : Client)
      → IsBound s
      → Keeps (Refines es (seen s)) (run_events loop lines returns handler_stopped es s)
  unfolding run_events
  run_events-Refines [] s b = (b, [], refl, refl)
  run_events-Refines (e ∷ es) s b =
      Keeps-and_then (Simulated (view e) (seen s)) (Refines (e ∷ es) (seen s))
        (run_events loop lines returns handler_stopped es)
        (handle_event loop lines returns handler_stopped e s)
        (λ t (c, codes, f).
          Keeps-map (Refines es (seen t)) (Refines (e ∷ es) (seen s))
            (λ u (d, vs, w, g). (
              d,
              vs ++ (exits codes ++ view e),
              (codes, vs, refl, w),
              Follows-append (seen s) (seen t) (seen u) (exits codes ++ view e) vs f g,
            ))
            (run_events loop lines returns handler_stopped es t) (run_events-Refines es t c))
        (handle_event-Simulated loop lines comes handler_stopped e s b)
