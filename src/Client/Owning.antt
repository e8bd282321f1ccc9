-- ===== src/Client/Owning.antt =====
-- The exit callback that the application has set on the connector (src/AmqpConnector.cpp), while the
-- wrapper (src/AutoReconnect.cpp) puts its own in its place and back.
use amqp_cpp_asio.Base.{
  String, ◌≡◌, refl, Bool, true, false, none, some, Option, All, List, [], ◌∷◌, arith,
}
use amqp_cpp_asio.Connector.{ExitCode}
use amqp_cpp_asio.Connector.Machine.{Connector, connect}
use amqp_cpp_asio.Connector.Service.{Delivery}
use amqp_cpp_asio.Connector.Service.Leading.{MayCome}
use amqp_cpp_asio.AutoReconnect.{
  AutoReconnect, ExitCallback, run_connector, started_callback as told_started,
}
use amqp_cpp_asio.AutoReconnect as AutoReconnect
use amqp_cpp_asio.Client.{
  Client, Result, returns, crashes, exhausted, and_then, seen, run_link, stop_link, run_again,
  started, connected, tell_started, Event, starts, stops, connects, finishes, shuts, timer,
  handle_event, run_events,
}
use amqp_cpp_asio.Client.Keeping.{Keeps, Keeps-if, Keeps-and_then}
use amqp_cpp_asio.Client.Simulating.{shut-Simulated, finish-Simulated}
use amqp_cpp_asio.Client.Backing.{
  Owns, IsOwner, may_start, Simulated-Owns, start-Owns, second_passed-Owns, stop_link-Owns,
  stop-Owns, run_link-Owns,
}

-- Wherever a call returns.
abbrev pub Continues : (Client → Type 0) → Result → Type 0
Continues P (returns s) = P s
Continues P _ = Unit {0}

Continues-all : (P : Client → Type 0) (o : Result) → ((s : Client) → P s) → Continues P o
Continues-all P (returns s) p = p s
Continues-all P crashes p = tt
Continues-all P exhausted p = tt

-- Not a start.
abbrev pub IsLater : Event → Type 0
IsLater starts = ⊥
IsLater _ = Unit {0}

module _ (loop : Connector → Delivery) (lines : ExitCode → List String)
    (on_started : Client → Result) (handler_stopped : Connector → Bool) where
  -- Each `start` that is accepted may come where it comes.
  abbrev pub MayRun : List Event → Client → Type 0
  MayRun [] s = Unit {0}
  MayRun (e ∷ es) s =
      (may_start e s ≡ true)
      × Continues (MayRun es) (handle_event loop lines on_started handler_stopped e s)

  -- Without a start any run may come.
  pub later-MayRun : (es : List Event) → All IsLater es → (s : Client) → MayRun es s
  later-MayRun [] l s = tt
  later-MayRun (starts ∷ es) (l, ls) s = absurd l
  later-MayRun (stops ∷ es) (l, ls) s = (refl, Continues-all (MayRun es) _ (later-MayRun es ls))
  later-MayRun (connects ∷ es) (l, ls) s = (refl, Continues-all (MayRun es) _ (later-MayRun es ls))
  later-MayRun (finishes ∷ es) (l, ls) s = (refl, Continues-all (MayRun es) _ (later-MayRun es ls))
  later-MayRun (shuts error ∷ es) (l, ls) s =
      (refl, Continues-all (MayRun es) _ (later-MayRun es ls))
  later-MayRun (timer aborted ∷ es) (l, ls) s =
      (refl, Continues-all (MayRun es) _ (later-MayRun es ls))

module _ (loop : Connector → Delivery) (lines : ExitCode → List String)
    (callback : Option ExitCallback) where
  module _ (comes : MayCome loop) where
    linked-Owns :
        (s : Client)
        → Owns callback s
        → Owns callback (record s { connector = connect s.connector })
    unfolding connect
    linked-Owns s (b, k) = (
      record {
        linked = record { valid = b.linked.valid; linked = refl };
        telling = b.telling;
        starting = b.starting;
      },
      ground arith,
    )

    run_again-Owns : IsOwner callback (run_again loop lines)
    run_again-Owns s o =
        let t : Client = record s {
          wrapper = record s.wrapper {
            started_callback = none;
            rerun = false;
            calls = run_connector ∷ s.wrapper.calls;
          };
        } in
        let u : Client = record s { wrapper = record s.wrapper { started_callback = none } } in
        Keeps-if (Owns callback) s.wrapper.rerun (run_link loop lines t) (returns u)
          (λ e. run_link-Owns loop lines callback comes t (ground arith)) (λ e. ground arith)

    module _ (on_started : Client → Result) (owner : IsOwner callback on_started) where
      tell_started-Owns : IsOwner callback (tell_started loop lines on_started)
      tell_started-Owns s o =
          elim s.wrapper.started_callback
            as (λ x. Keeps (Owns callback) (elim x [
              | none ↦ returns s
              | some c ↦
                  on_started (record s { wrapper = AutoReconnect.call s.wrapper (told_started c) })
            ])) [
              | none ↦ o
              | some c ↦
                  owner (record s { wrapper = AutoReconnect.call s.wrapper (told_started c) })
                    (ground arith)
            ]

      started-Owns : IsOwner callback (started loop lines on_started)
      unfolding started
      started-Owns s o =
          let t : Client = record s {
            wrapper =
                AutoReconnect.call (record s.wrapper { need_stop = false })
                  AutoReconnect.stop_connector;
          } in
          Keeps-if (Owns callback) s.wrapper.need_stop (stop_link loop lines t)
            (and_then (run_again loop lines) (tell_started loop lines on_started s))
            (λ e. stop_link-Owns loop lines callback t (ground arith))
            (λ e.
              Keeps-and_then (Owns callback) (Owns callback) (run_again loop lines)
                (tell_started loop lines on_started s) run_again-Owns (tell_started-Owns s o))

      connected-Owns : IsOwner callback (connected loop lines on_started)
      unfolding connected
      connected-Owns s o =
          let t : Client = record s { connector = connect s.connector } in
          Keeps-if (Owns callback) s.connector.on_started (started loop lines on_started t)
            (returns t) (λ e. started-Owns t (linked-Owns s o)) (λ e. linked-Owns s o)

      module _ (handler_stopped : Connector → Bool) where
        handle_event-Owns :
            (e : Event) (s : Client)
            → may_start e s ≡ true
            → Owns callback s
            → Keeps (Owns callback) (handle_event loop lines on_started handler_stopped e s)
        unfolding handle_event
        handle_event-Owns starts s m o = start-Owns callback s m o
        handle_event-Owns stops s m o = stop-Owns loop lines callback s o
        handle_event-Owns connects s m o = connected-Owns s o
        handle_event-Owns finishes s m (b, k) =
            Simulated-Owns callback s k _
              (finish-Simulated loop lines [] (seen s) s b refl comes handler_stopped)
        handle_event-Owns (shuts error) s m (b, k) =
            Simulated-Owns callback s k _ (shut-Simulated loop lines [] (seen s) s b refl error)
        handle_event-Owns (timer aborted) s m o = second_passed-Owns callback aborted s o

        and_then-Owns :
            (es : List Event) (o : Result)
            → ((s : Client)
                → MayRun loop lines on_started handler_stopped es s
                → Owns callback s
                → Keeps (Owns callback) (run_events loop lines on_started handler_stopped es s))
            → Continues (MayRun loop lines on_started handler_stopped es) o
            → Keeps (Owns callback) o
            → Keeps
                (Owns callback)
                (and_then (run_events loop lines on_started handler_stopped es) o)
        and_then-Owns es (returns s) next m o = next s m o
        and_then-Owns es crashes next m o = o
        and_then-Owns es exhausted next m o = o

        -- If the event loop, where it is run, delivers a reply only where it may come, then over
        -- any run of calls and events of AutoReconnect with the whole Connector, in which a
        -- start that is accepted comes only after the last session has given the exit callback
        -- back, wherever the run returns the connector has an exit callback exactly where the
        -- wrapper has set one, which is restart while the wrapper is started, and the exit
        -- callback of the application, or the backup that stands for it, is the same as before
        -- and never restart itself; the started callback is any function over both that keeps
        -- this, and may call both back
        pub run_events-Owns :
            (es : List Event) (s : Client)
            → MayRun loop lines on_started handler_stopped es s
            → Owns callback s
            → Keeps (Owns callback) (run_events loop lines on_started handler_stopped es s)
        unfolding run_events
        run_events-Owns [] s m o = o
        run_events-Owns (e ∷ es) s (m, r) o =
            and_then-Owns es (handle_event loop lines on_started handler_stopped e s)
              (run_events-Owns es) r (handle_event-Owns e s m o)
