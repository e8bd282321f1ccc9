-- ===== src/Client/Backing.antt =====
-- Which calls of a client (src/AutoReconnect.cpp, src/AmqpConnector.cpp) leave the application's exit
-- callback as it was.
use amqp_cpp_asio.Base.{
  String, ◌≡◌, refl, subst, Bool, true, some, Option, List, [], ◌∷◌, ◌++◌, arith, if◌then◌else◌,
  not,
}
use amqp_cpp_asio.Connector.{ExitCode}
use amqp_cpp_asio.Connector.Machine.{Connector}
use amqp_cpp_asio.Connector.Service.{Delivery}
use amqp_cpp_asio.Connector.Service.Leading.{MayCome}
use amqp_cpp_asio.AutoReconnect.{
  AutoReconnect, ExitCallback, run_connector, started_callback as told_started,
}
use amqp_cpp_asio.AutoReconnect as AutoReconnect
use amqp_cpp_asio.AutoReconnect.Sessions.{
  Kept, application_callback, handle_event-Kept, may_come, Returns,
}
use amqp_cpp_asio.Client.{
  Client, Result, returns, seen, run_link, stop_link, stop, start, second_passed, Event, starts,
}
use amqp_cpp_asio.Client.Keeping.{Keeps, Keeps-if, Keeps-map}
use amqp_cpp_asio.Client.Hearing.{Follows, IsBound, exits}
use amqp_cpp_asio.Client.Simulating.{Simulated, stop_link-Simulated, run_link-Simulated}

-- The wrapper is bound to its connector, and `callback` is the application's.
abbrev pub Owns : Option ExitCallback → Client → Type 0
Owns callback s = IsBound s × Kept callback (seen s)

abbrev pub IsOwner : Option ExitCallback → (Client → Result) → Type 0
IsOwner callback f = (s : Client) → Owns callback s → Keeps (Owns callback) (f s)

-- A `start` that is accepted comes after the last session has given the exit callback back.
abbrev pub may_start : Event → Client → Bool
may_start starts s = may_come (AutoReconnect.starts (some 0)) (seen s)
may_start _ s = true

Returns-some :
    (P : AutoReconnect → Type 0) (o : Option AutoReconnect) (b : AutoReconnect)
    → o ≡ some b
    → Returns P o
    → P b
Returns-some P o b e p = subst (Returns P) e p

-- What the ends of the connection keep.
exits-Kept :
    (callback : Option ExitCallback) (codes : List ExitCode) (a b : AutoReconnect)
    → Follows a (exits codes ++ []) b
    → Kept callback a
    → Kept callback b
exits-Kept callback [] a b f k = subst (Kept callback) f k
exits-Kept callback (code ∷ codes) a b (m, f, e) k =
    let (v, q) = exits-Kept callback codes a m f k in
    subst (λ c. Kept c b) q
      (Returns-some (Kept (application_callback m)) _ b e
        (handle_event-Kept 0 (AutoReconnect.exited code) m refl v))

pub Simulated-Owns :
    (callback : Option ExitCallback) (s : Client)
    → Kept callback (seen s)
    → (o : Result) → Keeps (Simulated [] (seen s)) o
    → Keeps (Owns callback) o
Simulated-Owns callback s k =
    Keeps-map (Simulated [] (seen s)) (Owns callback)
      (λ u (b, codes, f). (b, exits-Kept callback codes (seen s) (seen u) f k))

pub start-Owns :
    (callback : Option ExitCallback) (s : Client)
    → may_start starts s ≡ true
    → Owns callback s
    → Owns callback (start s)
unfolding start AutoReconnect.start
start-Owns callback s m (b, k) = ground arith

pub second_passed-Owns :
    (callback : Option ExitCallback) (aborted : Bool) (s : Client)
    → Owns callback s
    → Owns callback (second_passed aborted s)
unfolding second_passed
second_passed-Owns callback aborted s (b, k) = ground arith

module _ (loop : Connector → Delivery) (lines : ExitCode → List String)
    (callback : Option ExitCallback) where
  pub stop_link-Owns : IsOwner callback (stop_link loop lines)
  stop_link-Owns s (b, k) =
      Simulated-Owns callback s k (stop_link loop lines s)
        (stop_link-Simulated loop lines [] (seen s) s b refl)

  stopped-Owns :
      (s : Client)
      → Owns callback s
      → Owns callback (record s { wrapper = AutoReconnect.stop (seen s) })
  unfolding AutoReconnect.stop
  stopped-Owns s (b, k) = ground arith

  pub stop-Owns : IsOwner callback (stop loop lines)
  unfolding stop
  stop-Owns s o =
      let t : Client = record s { wrapper = AutoReconnect.stop (seen s) } in
      Keeps-if (Owns callback) (not s.wrapper.started) (returns s)
        (if s.connector.connection_handler_ready then stop_link loop lines t else returns t)
        (λ e. o)
        (λ e.
          Keeps-if (Owns callback) s.connector.connection_handler_ready (stop_link loop lines t)
            (returns t) (λ r. stop_link-Owns t (stopped-Owns s o)) (λ r. stopped-Owns s o))

  module _ (comes : MayCome loop) where
    pub run_link-Owns : IsOwner callback (run_link loop lines)
    run_link-Owns s (b, k) =
        Simulated-Owns callback s k (run_link loop lines s)
          (run_link-Simulated loop lines [] (seen s) s b refl comes)
