-- ===== src/Client.antt =====
-- Class AutoReconnect (src/AutoReconnect.cpp) with the whole Connector that it wraps
-- (src/AmqpConnector.cpp), and an application whose functions may call both back.
pub mod Callbacks
pub mod Waiting
pub mod Restoring
pub mod First
pub mod Refusing
pub mod Forgetting
pub mod Keeping
pub mod Safety
pub mod Hearing
pub mod Simulating
pub mod Refinement
pub mod Backing
pub mod Owning
pub mod Halting
pub mod Ending
mod Examples
use amqp_cpp_asio.Base.{
  ℕ, String, Bool, true, false, Option, none, some, List, [], ◌∷◌, ◌++◌, is_set, not, if◌then◌else◌,
}
use amqp_cpp_asio.Connector.{ExitCode}
use amqp_cpp_asio.Connector.Machine.{
  Connector, Call, exit_callback, async_start, connect, stop_connector, disconnected,
}
use amqp_cpp_asio.Connector.Service.{Delivery, run, posted}
use amqp_cpp_asio.Connector.Service as Service
use amqp_cpp_asio.AutoReconnect.{
  AutoReconnect, async_start_connector, run_connector, started_callback, call, call_exit, on_timer,
}
use amqp_cpp_asio.AutoReconnect as AutoReconnect

-- The wrapper, its connector, and the lines that the application has printed, the newest first.
pub record Client : Type 0 where
  pub wrapper : AutoReconnect
  pub connector : Connector
  pub output : List String

-- A call returns, or follows a null pointer. `exhausted` is for the fuel of the model.
pub data Result : Type 0 where
  returns : Client → Result
  crashes exhausted : Result

abbrev pub and_then : (Client → Result) → Result → Result
and_then f (returns s) = f s
and_then f crashes = crashes
and_then f exhausted = exhausted

-- The wrapper, with the flag that `ready` reads.
abbrev pub seen : Client → AutoReconnect
seen s = record s.wrapper {
  connector = record s.wrapper.connector {
    connection_handler_ready = s.connector.connection_handler_ready;
  };
}

-- The connector before a call, whose callbacks are those in `calls` afterwards.
abbrev pub silent : Client → Connector
silent s = record s.connector { calls = [] }

abbrev pub exit_lines : (ExitCode → List String) → List AutoReconnect.Call → List String
exit_lines lines [] = []
exit_lines lines (AutoReconnect.exit_callback callback code ∷ cs) =
    lines code ++ exit_lines lines cs
exit_lines lines (c ∷ cs) = exit_lines lines cs

-- The members after `m_exitCb` was called: the connector has the exit callback that the wrapper has
-- set, and what the application was told is printed.
abbrev pub told_exit : (ExitCode → List String) → Client → Option AutoReconnect → Result
told_exit lines s none = exhausted
told_exit lines s (some b) = returns (record s {
  wrapper = record b { calls = b.calls ++ s.wrapper.calls };
  connector = record s.connector { on_exit = is_set b.connector.exit_cb };
  output = exit_lines lines b.calls ++ s.output;
})

-- `AutoReconnect::start`, with the application's callback.
unfoldable pub start : Client → Client
start s = if s.wrapper.started then s else record s {
  wrapper = AutoReconnect.start (some 0) (seen s);
  connector = async_start true (record s.connector { on_exit = true });
}

-- The lambda of `async_wait`.
pub second_passed : Bool → Client → Client
second_passed aborted s =
    if aborted
    then s
    else record s { wrapper = on_timer false s.wrapper; connector = async_start true s.connector }

-- The calls of the application, and the handlers that the event loop calls.
pub data Event : Type 0 where
  starts stops connects finishes : Event
  shuts timer : Bool → Event

module _ (loop : Connector → Delivery) (lines : ExitCode → List String) where
  -- `m_exitCb(code)`, which is `restart` or the application's; `restart` calls no other `restart`.
  pub call_exit_cb : ExitCode → Client → Result
  call_exit_cb code s = told_exit lines s (call_exit 1 code (record (seen s) { calls = [] }))

  -- The exit callbacks among the calls, the oldest one first.
  unfoldable pub call_all : List Call → Client → Result
  unfolding call_exit_cb
  call_all [] s = returns s
  call_all (exit_callback code ∷ cs) s = and_then (call_exit_cb code) (call_all cs s)
  call_all (c ∷ cs) s = call_all cs s

  -- After a call of the connector.
  abbrev pub after : Client → Connector → Result
  after s u =
      call_all u.calls (record s { connector = record u { calls = u.calls ++ s.connector.calls } })

  abbrev pub after_call : Client → Option Connector → Result
  after_call s none = crashes
  after_call s (some u) = after s u

  abbrev pub after_loop : Client → Service.Result → Result
  after_loop s (Service.returns u) = after s u
  after_loop s Service.crashes = crashes
  after_loop s Service.exhausted = exhausted

  -- `m_connector->run()`.
  abbrev pub run_link : Client → Result
  run_link s = after_loop s (run loop (silent s))

  -- `m_connector->stop()`.
  abbrev pub stop_link : Client → Result
  stop_link s = after_call s (stop_connector (silent s))

  -- `AutoReconnect::stop`.
  unfoldable pub stop : Client → Result
  stop s =
      let t = record s { wrapper = AutoReconnect.stop (seen s) } in
      if not s.wrapper.started
      then returns s
      else if s.connector.connection_handler_ready
      then stop_link t
      else returns t

  -- The rest of `AutoReconnect::started`.
  abbrev pub run_again : Client → Result
  run_again s =
      if s.wrapper.rerun
      then run_link (record s {
        wrapper = record s.wrapper {
          started_callback = none;
          rerun = false;
          calls = run_connector ∷ s.wrapper.calls;
        };
      })
      else returns (record s { wrapper = record s.wrapper { started_callback = none } })

  -- `Connector::onShutdown`.
  pub shut : Bool → Client → Result
  unfolding call_all
  shut error s = after_call s (disconnected error (silent s))

  -- `on_started` is the function that the application gives to `start`.
  module _ (on_started : Client → Result) where
    -- `if (m_startedCallback) m_startedCallback()`.
    abbrev pub tell_started : Client → Result
    tell_started s = elim s.wrapper.started_callback [
      | none ↦ returns s
      | some callback ↦
          on_started (record s { wrapper = call s.wrapper (started_callback callback) })
    ]

    -- `AutoReconnect::started`.
    unfoldable pub started : Client → Result
    started s =
        if s.wrapper.need_stop
        then stop_link (record s {
          wrapper = call (record s.wrapper { need_stop = false }) AutoReconnect.stop_connector;
        })
        else and_then run_again (tell_started s)

    -- `Connector::onConnected`; its callback, if it has one, is `started`.
    unfoldable pub connected : Client → Result
    unfolding started
    connected s =
        let t = record s { connector = connect s.connector } in
        if s.connector.on_started then started t else returns t

    -- `handler_stopped` is `stopped()` of the connection handler.
    module _ (handler_stopped : Connector → Bool) where
      -- The function that `Connector::stop` posts.
      pub finish : Client → Result
      unfolding call_all
      finish s = after_loop s (posted loop handler_stopped (silent s))

      pub handle_event : Event → Client → Result
      unfolding start stop connected shut second_passed finish
      handle_event starts s = returns (start s)
      handle_event stops s = stop s
      handle_event connects s = connected s
      handle_event finishes s = finish s
      handle_event (shuts error) s = shut error s
      handle_event (timer aborted) s = returns (second_passed aborted s)

      pub run_events : List Event → Client → Result
      unfolding handle_event
      run_events [] s = returns s
      run_events (e ∷ es) s = and_then (run_events es) (handle_event e s)
