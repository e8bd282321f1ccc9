-- ===== src/Client/First.antt =====
-- The first connection of a client (src/AutoReconnect.cpp, src/AmqpConnector.cpp), whose started callback
-- is still due.
use amqp_cpp_asio.Base.{
  ℕ, String, ◌≡◌, refl, sym, ◌∙◌, subst, ap, true, false, some, List, [], All, arith, ◌⊎◌, inl, inr,
  length,
}
use amqp_cpp_asio.Transceiver.{Transceiver, is_running}
use amqp_cpp_asio.Transceiver.Invariant.{IsValid}
use amqp_cpp_asio.Connector.{ExitCode}
use amqp_cpp_asio.Connector.Machine.{Connector, connect}
use amqp_cpp_asio.Connector.Shutdown.{IsLinked}
use amqp_cpp_asio.Connector.Waiting.{Opened}
use amqp_cpp_asio.Connector.Service.{Delivery, run}
use amqp_cpp_asio.Connector.Service.Rounds.{Serves}
use amqp_cpp_asio.Connector.Service.Settling.{IsServed, served-ended}
use amqp_cpp_asio.Connector.Service.Resting.{Steady, is_fresh, Opens, run-Opens, run-idle}
use amqp_cpp_asio.AutoReconnect.{restarts, started_callback, run_connector}
use amqp_cpp_asio.AutoReconnect as AutoReconnect
use amqp_cpp_asio.Client.{
  Client, Result, returns, and_then, silent, call_all, after, after_loop, run_link, run_again,
  started, connected,
}
use amqp_cpp_asio.Client.Callbacks.{IsWatched, Returns, after-cases, after_loop-Returns}

-- The connection is being made.
pub record IsFirst (s : Client) : Type 0 where
  pub watching : IsWatched s.wrapper
  pub wanted : s.wrapper.need_stop ≡ false
  pub callback : ℕ
  pub due : s.wrapper.started_callback ≡ some callback
  pub staying : s.connector.exiting ≡ false
  pub telling : s.connector.on_exit ≡ true
  pub telling_started : s.connector.on_started ≡ true

-- The members when the application's callback is called.
abbrev pub due_client : Client → ℕ → Client
due_client s callback = record s {
  wrapper = AutoReconnect.call s.wrapper (started_callback callback);
  connector = connect s.connector;
}

-- The connection is lost, and no transceiver runs.
pub record IsCut (s : Client) : Type 0 where
  pub down : s.connector.connection_handler_ready ≡ false
  pub telling : s.connector.on_exit ≡ true
  pub linked : IsLinked s.connector
  pub ended : All (λ t. is_running t ≡ false) s.connector.transceivers

-- What `run` leaves of `s`.
pub record Ran (Q : Transceiver → Type 0) (s u : Client) : Type 0 where
  pub kept : All (λ t. (IsValid t × Opened t) × Q t) u.connector.transceivers
  pub count : length u.connector.transceivers ≡ length s.connector.transceivers
  pub watching : IsWatched u.wrapper
  pub wanted : u.wrapper.need_stop ≡ s.wrapper.need_stop
  pub called : u.wrapper.started_callback ≡ s.wrapper.started_callback
  pub printed : u.output ≡ s.output
  pub staying : u.connector.exiting ≡ false
  pub telling : u.connector.on_exit ≡ true
  pub linked : IsLinked u.connector
  pub outcome :
      ((u.connector.connection_handler_ready ≡ true) × (u.wrapper.rerun ≡ s.wrapper.rerun))
      ⊎ (IsCut u × (u.wrapper.rerun ≡ true))

module _ (loop : Connector → Delivery) (lines : ExitCode → List String) where
  pub connected_due :
      (f : Client → Result) (s : Client) (d : IsFirst s)
      → and_then (run_again loop lines) (f (due_client s d.callback)) ≡ connected loop lines f s
  unfolding connected started connect
  connected_due f s d = ground (arith, d.wanted, d.due, d.telling_started)

  pub run_link-idle :
      (s : Client)
      → s.connector.connection_handler_ready ≡ false
      → returns s ≡ run_link loop lines s
  unfolding call_all
  run_link-idle s k = sym (ap (after_loop loop lines s) (run-idle loop (silent s) k))

  module _ (Q : Transceiver → Type 0) (q : Steady Q) (serves : Serves loop) where
    -- What a call of `run` makes of a client.
    ran :
        (s : Client) (c u : Connector)
        → IsWatched s.wrapper
        → c.calls ≡ []
        → c.on_exit ≡ true
        → IsServed c u
        → All (λ t. (IsValid t × Opened t) × Q t) u.transceivers
        → length u.transceivers ≡ length s.connector.transceivers
        → Returns (Ran Q s) (after loop lines s u)
    ran s c u v e x w a n = elim (after-cases loop lines s c u v e x w) [
      | inl (y, p) ↦ subst (Returns (Ran Q s)) (sym p) (record {
        kept = a;
        count = n;
        watching = v;
        wanted = refl;
        called = refl;
        printed = refl;
        staying = w.staying;
        telling = w.accounted.0 ∙ x;
        linked = record { valid = w.linked.valid; linked = w.linked.linked };
        outcome = inl (y, refl);
      })
      | inr (k, p) ↦ subst (Returns (Ran Q s)) (sym p) (record {
        kept = a;
        count = n;
        watching = record { is_started = v.is_started; watched = v.watched };
        wanted = refl;
        called = refl;
        printed = refl;
        staying = w.staying;
        telling = refl;
        linked = record { valid = w.linked.valid; linked = w.linked.linked };
        outcome = inr (
          record {
            down = k;
            telling = refl;
            linked = record { valid = w.linked.valid; linked = w.linked.linked };
            ended = served-ended c u w k;
          },
          refl,
        );
      })
    ]

    pub run_link-Ran :
        (s : Client)
        → IsWatched s.wrapper
        → s.connector.on_exit ≡ true
        → s.connector.exiting ≡ false
        → s.connector.connection_handler_ready ≡ true
        → IsLinked s.connector
        → All (λ t. (is_fresh t ≡ true) × Q t) s.connector.transceivers
        → Returns (Ran Q s) (run_link loop lines s)
    run_link-Ran s v x e y l f =
        let c : Connector = silent s in
        after_loop-Returns loop lines (Opens Q q loop serves c (length s.connector.transceivers))
          (Ran Q s) s (run loop c) (λ u (z, (b, n)). ran s c u v refl x z b n)
          (run-Opens Q q loop serves c (record { valid = l.valid; linked = l.linked }) y e f)
