-- ===== src/Client/Waiting.antt =====
-- A client whose connection is lost (src/AutoReconnect.cpp, src/AmqpConnector.cpp), and the attempts to
-- connect again.
use amqp_cpp_asio.Base.{
  String, ◌≡◌, ◌≢◌, refl, sym, ◌∙◌, ap, subst, Bool, true, false, none, some, List, [], ◌∷◌, All,
  All-map, arith,
}
use amqp_cpp_asio.Transceiver.{Transceiver}
use amqp_cpp_asio.Transceiver.Invariant.{IsValid}
use amqp_cpp_asio.Connector.{ExitCode, normal, broker_connect_error, amqp_error}
use amqp_cpp_asio.Connector.Machine.{
  Connector, exit_callback, disconnect, disconnected, async_start,
}
use amqp_cpp_asio.Connector.Shutdown.{
  IsLinked, Gives, Left, Ended, code_of, told, disconnected-Left,
}
use amqp_cpp_asio.Connector.Service.{Delivery}
use amqp_cpp_asio.Connector.Service.Resting.{is_fresh}
use amqp_cpp_asio.AutoReconnect.{AutoReconnect, restarts}
use amqp_cpp_asio.Client.{Client, silent, after, after_call, shut, second_passed}
use amqp_cpp_asio.Client.Callbacks.{
  IsWatched, Returns, retrying, joined, after-retrying, after_call-Returns,
}

-- A session that no `stop` has touched, whose started callback has been called.
pub record IsSession (a : AutoReconnect) : Type 0 where
  pub is_started : a.started ≡ true
  pub wanted : a.need_stop ≡ false
  pub watched : a.connector.exit_cb ≡ some restarts
  pub called : a.started_callback ≡ none

pub session-IsWatched : (a : AutoReconnect) → IsSession a → IsWatched a
session-IsWatched a v = record { is_started = v.is_started; watched = v.watched }

-- The connection is lost, and the wrapper waits for the second to pass.
pub record IsWaiting (s : Client) : Type 0 where
  pub session : IsSession s.wrapper
  pub again : s.wrapper.rerun ≡ true
  pub down : s.connector.connection_handler_ready ≡ false
  pub telling : s.connector.on_exit ≡ true
  pub linked : IsLinked s.connector
  pub idle : All (λ t. is_fresh t ≡ true) s.connector.transceivers

-- The second has passed, and the connection is being made.
pub record IsTrying (s : Client) : Type 0 where
  pub waiting : IsWaiting s
  pub staying : s.connector.exiting ≡ false
  pub telling_started : s.connector.on_started ≡ true

pub transceivers-async_start :
    (callback : Bool) (c : Connector) → c.transceivers ≡ (async_start callback c).transceivers
transceivers-async_start callback c = ground arith

pub trying : (s : Client) → IsWaiting s → IsTrying (second_passed false s)
unfolding second_passed
trying s w = record {
  waiting = record {
    session = record {
      is_started = w.session.is_started;
      wanted = w.session.wanted;
      watched = w.session.watched;
      called = w.session.called;
    };
    again = w.again;
    down = ground arith;
    telling = ground arith;
    linked = record {
      valid = subst (All IsValid) (transceivers-async_start true s.connector) w.linked.valid;
      linked = ground arith;
    };
    idle = subst (All (λ t. is_fresh t ≡ true)) (transceivers-async_start true s.connector) w.idle;
  };
  staying = ground arith;
  telling_started = ground arith;
}

pub retrying-IsSession : (s : Client) → IsSession s.wrapper → IsSession (retrying s).wrapper
retrying-IsSession s v = record {
  is_started = v.is_started;
  wanted = v.wanted;
  watched = v.watched;
  called = v.called;
}

module _ (loop : Connector → Delivery) (lines : ExitCode → List String) where
  after-IsWaiting :
      (code : ExitCode) (s : Client) (u : Connector)
      → code ≢ normal
      → IsSession s.wrapper
      → u.calls ≡ exit_callback code ∷ []
      → u.connection_handler_ready ≡ false
      → IsLinked u
      → All (λ t. is_fresh t ≡ true) u.transceivers
      → Returns IsWaiting (after loop lines s u)
  after-IsWaiting code s u n v e d l f =
      subst (Returns IsWaiting)
        (sym (after-retrying loop lines code s u n (session-IsWatched s.wrapper v) e))
        (record {
          session = retrying-IsSession (joined loop lines s u) v;
          again = refl;
          down = d;
          telling = refl;
          linked = record { valid = l.valid; linked = l.linked };
          idle = f;
        })

  Ended-fresh : (ts : List Transceiver) → All Ended ts → All (λ t. is_fresh t ≡ true) ts
  Ended-fresh ts a = All-map Ended (λ t. is_fresh t ≡ true) (λ t (v, e). ground arith) ts a

  -- The connection of a connector that works is lost.
  pub shut-IsWaiting :
      (s : Client)
      → IsSession s.wrapper
      → IsLinked s.connector
      → s.connector.connection_handler_ready ≡ true
      → s.connector.exiting ≡ false
      → s.connector.on_exit ≡ true
      → Returns IsWaiting (shut loop lines true s)
  unfolding shut
  shut-IsWaiting s v l y e x =
      let c : Connector = silent s in
      let q : code_of c.exiting c.connection_handler_ready true ≡ some amqp_error =
        rw (y, e) refl in
      after_call-Returns loop lines (λ u. IsLinked u × Left c (some amqp_error) u) IsWaiting s
        (disconnected true c)
        (λ u (k, (d, w, z, a)).
          after-IsWaiting amqp_error s u (λ n. cc) v (z ∙ ap (λ b. told b amqp_error []) x) d k
            (Ended-fresh u.transceivers (a refl)))
        (subst (λ code. Gives (λ u. IsLinked u × Left c code u) (disconnected true c)) q
          (disconnected-Left true c (record { valid = l.valid; linked = l.linked })))

  -- The connection is refused.
  pub refused :
      (error : Bool) (s : Client) → IsTrying s → Returns IsWaiting (shut loop lines error s)
  unfolding shut disconnected
  refused error s w =
      let c : Connector = silent s in
      let u : Connector = disconnect broker_connect_error c in
      let q : disconnected error c ≡ some u = rw (w.staying, w.waiting.down) refl in
      subst (λ o. Returns IsWaiting (after_call loop lines s o)) (sym q)
        (after-IsWaiting broker_connect_error s u (λ n. cc) w.waiting.session
          (ap (λ b. told b broker_connect_error []) w.waiting.telling) w.waiting.down
          (record { valid = w.waiting.linked.valid; linked = sym w.waiting.down }) w.waiting.idle)
