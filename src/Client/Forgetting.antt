-- ===== src/Client/Forgetting.antt =====
-- A connection that is lost while the started callback runs the connector (src/AutoReconnect.cpp).
use amqp_cpp_asio.Base.{
  String, ◌≡◌, refl, sym, subst, Bool, true, false, none, List, [], ◌∷◌, All, arith,
}
use amqp_cpp_asio.Transceiver.{is_running}
use amqp_cpp_asio.Connector.{ExitCode}
use amqp_cpp_asio.Connector.Machine.{Connector, connect, async_start}
use amqp_cpp_asio.Connector.Service.{Delivery}
use amqp_cpp_asio.Client.{
  Client, Result, returns, second_passed, connected, started, timer, connects, handle_event,
  run_events,
}
use amqp_cpp_asio.Client.Callbacks.{Returns}
use amqp_cpp_asio.Client.Waiting.{IsSession, transceivers-async_start}
use amqp_cpp_asio.Client.First.{IsCut}

-- The connection is there, but no transceiver runs, and the wrapper will not run the connector.
pub record IsDeaf (s : Client) : Type 0 where
  pub session : IsSession s.wrapper
  pub up : s.connector.connection_handler_ready ≡ true
  pub resting : s.wrapper.rerun ≡ false
  pub ended : All (λ t. is_running t ≡ false) s.connector.transceivers

module _ (loop : Connector → Delivery) (lines : ExitCode → List String)
    (on_started : Client → Result) (handler_stopped : Connector → Bool) where
  -- The next connection, a second later.
  abbrev pub reconnects : Client → Result
  reconnects = run_events loop lines on_started handler_stopped (timer false ∷ connects ∷ [])

  abbrev deaf : Client → Client
  deaf s = record (second_passed false s) {
    wrapper = record (second_passed false s).wrapper { started_callback = none };
    connector = connect (async_start true s.connector);
  }

  reconnects-deaf :
      (s : Client)
      → IsSession s.wrapper
      → s.wrapper.rerun ≡ false
      → s.connector.connection_handler_ready ≡ false
      → reconnects s ≡ returns (deaf s)
  unfolding run_events handle_event second_passed connected started
  reconnects-deaf s v r k = ground (arith, v.wanted, v.called)

  pub reconnects-IsDeaf :
      (s : Client)
      → IsSession s.wrapper
      → s.wrapper.rerun ≡ false
      → IsCut s
      → Returns IsDeaf (reconnects s)
  unfolding second_passed connect
  reconnects-IsDeaf s v r c = subst (Returns IsDeaf) (sym (reconnects-deaf s v r c.down)) (record {
    session = record {
      is_started = v.is_started;
      wanted = v.wanted;
      watched = v.watched;
      called = refl;
    };
    up = refl;
    resting = r;
    ended =
        subst (All (λ t. is_running t ≡ false)) (transceivers-async_start true s.connector) c.ended;
  })
