-- ===== src/Client/Callbacks.antt =====
-- What a call of the connector by its wrapper leaves, with the callbacks that it makes
-- (src/AutoReconnect.cpp, src/AmqpConnector.cpp).
use amqp_cpp_asio.Base.{
  String, ◌≡◌, ◌≢◌, refl, ◌∙◌, ap, true, false, Option, none, some, List, [], ◌∷◌, ◌++◌, arith,
  Bool-cases, ◌⊎◌, inl, inr,
}
use amqp_cpp_asio.Connector.{ExitCode, normal, broker_connect_error, amqp_error}
use amqp_cpp_asio.Connector.Machine.{Connector, exit_callback}
use amqp_cpp_asio.Connector.Shutdown.{Gives}
use amqp_cpp_asio.Connector.Service.{Delivery, run}
use amqp_cpp_asio.Connector.Service as Service
use amqp_cpp_asio.Connector.Service.Returning as Returning
use amqp_cpp_asio.Connector.Service.Settling.{IsServed}
use amqp_cpp_asio.AutoReconnect.{AutoReconnect, restarts, wait_second, restart}
use amqp_cpp_asio.Client.{
  Client, Result, returns, crashes, exhausted, and_then, seen, call_exit_cb, call_all, after,
  after_call, after_loop,
}

-- `restart` stands in the place of the exit callback of a session.
pub record IsWatched (a : AutoReconnect) : Type 0 where
  pub is_started : a.started ≡ true
  pub watched : a.connector.exit_cb ≡ some restarts

abbrev pub Returns : (Client → Type 0) → Result → Type 0
Returns P (returns s) = P s
Returns P crashes = ⊥
Returns P exhausted = ⊥

pub Returns-map :
    (P Q : Client → Type 0) → ((s : Client) → P s → Q s) → (r : Result) → Returns P r → Returns Q r
Returns-map P Q f (returns s) p = f s p
Returns-map P Q f crashes p = p
Returns-map P Q f exhausted p = p

pub Returns-and_then :
    (P Q : Client → Type 0) (f : Client → Result) (r : Result)
    → ((s : Client) → P s → Returns Q (f s))
    → Returns P r
    → Returns Q (and_then f r)
Returns-and_then P Q f (returns s) g p = g s p
Returns-and_then P Q f crashes g p = p
Returns-and_then P Q f exhausted g p = p

-- The members once `restart` has set the timer.
abbrev pub retrying : Client → Client
retrying s = record s {
  wrapper = record (seen s) { rerun = true; calls = wait_second ∷ s.wrapper.calls };
  connector = record s.connector { on_exit = true };
}

module _ (loop : Connector → Delivery) (lines : ExitCode → List String) where
  call_exit_cb-retrying :
      (code : ExitCode) (s : Client)
      → code ≢ normal
      → IsWatched s.wrapper
      → call_exit_cb loop lines code s ≡ returns (retrying s)
  unfolding call_exit_cb restart
  call_exit_cb-retrying normal s n v = absurd (n refl)
  call_exit_cb-retrying broker_connect_error s n v = ground arith
  call_exit_cb-retrying amqp_error s n v = ground arith

  -- With the members that a call of the connector leaves.
  abbrev pub joined : Client → Connector → Client
  joined s u = record s { connector = record u { calls = u.calls ++ s.connector.calls } }

  -- The connector has ended and told the wrapper so.
  pub after-retrying :
      (code : ExitCode) (s : Client) (u : Connector)
      → code ≢ normal
      → IsWatched s.wrapper
      → u.calls ≡ exit_callback code ∷ []
      → after loop lines s u ≡ returns (retrying (joined s u))
  unfolding call_all
  after-retrying code s u n v e =
      ap (λ cs. call_all loop lines cs (joined s u)) e ∙ call_exit_cb-retrying code (joined s u) n v

  -- What `run` since `c` has done to the connection, and how the wrapper takes it.
  pub after-cases :
      (s : Client) (c u : Connector)
      → IsWatched s.wrapper
      → c.calls ≡ []
      → c.on_exit ≡ true
      → IsServed c u
      → ((u.connection_handler_ready ≡ true) × (after loop lines s u ≡ returns (joined s u)))
        ⊎ ((u.connection_handler_ready ≡ false)
            × (after loop lines s u ≡ returns (retrying (joined s u))))
  unfolding call_all
  after-cases s c u v e x w = elim (Bool-cases u.connection_handler_ready) [
    | inl y ↦
        let q : u.calls ≡ [] = w.accounted.1 ∙ rw y e in
        inl (y, ap (λ cs. call_all loop lines cs (joined s u)) q)
    | inr k ↦
        let q : u.calls ≡ exit_callback amqp_error ∷ [] = w.accounted.1 ∙ rw (k, x, e) refl in
        inr (k, after-retrying amqp_error s u (λ n. cc) v q)
  ]

  pub after_loop-Returns :
      (P : Connector → Type 0) (Q : Client → Type 0) (s : Client) (o : Service.Result)
      → ((u : Connector) → P u → Returns Q (after loop lines s u))
      → Returning.Returns P o
      → Returns Q (after_loop loop lines s o)
  after_loop-Returns P Q s (Service.returns u) f p = f u p
  after_loop-Returns P Q s Service.crashes f p = p
  after_loop-Returns P Q s Service.exhausted f p = p

  pub after_call-Returns :
      (P : Connector → Type 0) (Q : Client → Type 0) (s : Client) (o : Option Connector)
      → ((u : Connector) → P u → Returns Q (after loop lines s u))
      → Gives P o
      → Returns Q (after_call loop lines s o)
  after_call-Returns P Q s none f p = p
  after_call-Returns P Q s (some u) f p = f u p
