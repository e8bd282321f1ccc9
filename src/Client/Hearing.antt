-- ===== src/Client/Hearing.antt =====
-- What the wrapper of a client (src/AutoReconnect.cpp) hears of its connector (src/AmqpConnector.cpp).
use amqp_cpp_asio.Base.{
  String, ◌≡◌, refl, subst, true, false, some, List, [], ◌∷◌, ◌++◌, arith, is_set,
}
use amqp_cpp_asio.Connector.{ExitCode, normal, broker_connect_error, amqp_error}
use amqp_cpp_asio.Connector.Machine.{
  Connector, Call, start_handler, stop_handler, post_stop, started_callback, exit_callback,
}
use amqp_cpp_asio.Connector.Shutdown.{IsLinked}
use amqp_cpp_asio.Connector.Service.{Delivery}
use amqp_cpp_asio.Connector.Service.Leading.{codes_of}
use amqp_cpp_asio.AutoReconnect.{
  AutoReconnect, call_exit, connection_ended, restart, run_connector, exited, original, restarts,
}
use amqp_cpp_asio.AutoReconnect as AutoReconnect
use amqp_cpp_asio.Client.{Client, returns, seen, told_exit, call_exit_cb, call_all}
use amqp_cpp_asio.Client.Keeping.{Keeps, Keeps-map, Keeps-and_then}

-- The wrapper goes from `a` to `b` by these events, the newest first.
abbrev pub Follows : AutoReconnect → List AutoReconnect.Event → AutoReconnect → Type 0
Follows a [] b = a ≡ b
Follows a (e ∷ es) b =
    (m : AutoReconnect) × Follows a es m × (AutoReconnect.handle_event 1 e m ≡ some b)

pub Follows-append :
    (a b c : AutoReconnect) (es fs : List AutoReconnect.Event)
    → Follows a es b
    → Follows b fs c
    → Follows a (fs ++ es) c
Follows-append a b c es [] p q = subst (Follows a es) q p
Follows-append a b c es (f ∷ fs) p (m, q, e) = (m, Follows-append a b m es fs p q, e)

-- The connector has an exit callback exactly if the wrapper has set one, and calls `started`.
pub record IsBound (s : Client) : Type 0 where
  pub linked : IsLinked s.connector
  pub telling : s.connector.on_exit ≡ is_set s.wrapper.connector.exit_cb
  pub starting : s.connector.on_started ≡ true

abbrev pub exits : List ExitCode → List AutoReconnect.Event
exits [] = []
exits (code ∷ codes) = exited code ∷ exits codes

-- What the end of the connection makes of the wrapper.
abbrev pub down : AutoReconnect → AutoReconnect
down a = record a { connector = record a.connector { connection_handler_ready = false } }

module _ (lines : ExitCode → List String) where
  -- One exit callback.
  abbrev Told : ExitCode → Client → Client → Type 0
  Told code s t =
      (AutoReconnect.handle_event 1 (exited code) (seen s) ≡ some (seen t))
      × (t.connector.connection_handler_ready ≡ false)
      × (IsBound s → IsBound t)

  told_exit-Told :
      (code : ExitCode) (s : Client)
      → s.connector.connection_handler_ready ≡ false
      → Keeps (Told code s) (told_exit lines s (call_exit 1 code (record (seen s) { calls = [] })))
  unfolding AutoReconnect.handle_event restart
  told_exit-Told normal s k = ground arith
  told_exit-Told broker_connect_error s k = ground arith
  told_exit-Told amqp_error s k = ground arith

  module _ (loop : Connector → Delivery) where
    -- The exit callbacks of a call, the newest first.
    abbrev pub AllTold : List ExitCode → Client → Client → Type 0
    AllTold codes s t =
        Follows (seen s) (exits codes) (seen t)
        × (t.connector.connection_handler_ready ≡ false)
        × (IsBound s → IsBound t)

    pub call_all-Told :
        (cs : List Call) (s : Client)
        → s.connector.connection_handler_ready ≡ false
        → Keeps (AllTold (codes_of cs) s) (call_all loop lines cs s)
    unfolding call_all call_exit_cb
    call_all-Told [] s k = (refl, k, λ b. b)
    call_all-Told (exit_callback code ∷ cs) s k =
        Keeps-and_then (AllTold (codes_of cs) s) (AllTold (code ∷ codes_of cs) s)
          (call_exit_cb loop lines code) (call_all loop lines cs s)
          (λ t (f, l, b).
            Keeps-map (Told code t) (AllTold (code ∷ codes_of cs) s)
              (λ u (e, m, c). ((seen t, f, e), m, λ x. c (b x)))
              (told_exit lines t (call_exit 1 code (record (seen t) { calls = [] })))
              (told_exit-Told code t l))
          (call_all-Told cs s k)
    call_all-Told (start_handler ∷ cs) s k = call_all-Told cs s k
    call_all-Told (stop_handler ∷ cs) s k = call_all-Told cs s k
    call_all-Told (post_stop ∷ cs) s k = call_all-Told cs s k
    call_all-Told (started_callback ∷ cs) s k = call_all-Told cs s k

    -- Where no exit callback was made.
    pub call_all-silent :
        (cs : List Call) (s : Client) → codes_of cs ≡ [] → call_all loop lines cs s ≡ returns s
    unfolding call_all
    call_all-silent [] s e = refl
    call_all-silent (exit_callback code ∷ cs) s e = cc
    call_all-silent (start_handler ∷ cs) s e = call_all-silent cs s e
    call_all-silent (stop_handler ∷ cs) s e = call_all-silent cs s e
    call_all-silent (post_stop ∷ cs) s e = call_all-silent cs s e
    call_all-silent (started_callback ∷ cs) s e = call_all-silent cs s e
