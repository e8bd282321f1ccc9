-- ===== src/AutoReconnect.antt =====
-- Class AutoReconnect (src/AutoReconnect.hpp, src/AutoReconnect.cpp), with what it uses of class
-- Connector (src/AmqpConnector.hpp, src/AmqpConnector.cpp).
pub mod Sessions
pub mod Restoring
mod Examples
use amqp_cpp_asio.Base.{
  ℕ, zero, suc, Bool, true, false, Option, none, some, List, [], ◌∷◌, ◌≡◌, not, if◌then◌else◌,
}
use amqp_cpp_asio.Connector.{ExitCode, normal, broker_connect_error, amqp_error}

-- A function given to `Connector::onExit`: one of the application's, or `AutoReconnect::restart`.
pub data ExitCallback : Type 0 where
  original : ℕ → ExitCallback
  restarts : ExitCallback

-- What the code asks of the connector, of the timer and of the application.
pub data Call : Type 0 where
  async_start_connector run_connector stop_connector : Call
  wait_second cancel_timer : Call
  started_callback : ℕ → Call
  exit_callback : ℕ → ExitCode → Call

-- The members of Connector that are seen through `ready`, `onExit` and `getOnExit`.
pub record Link : Type 0 where
  pub connection_handler_ready : Bool
  pub exit_cb : Option ExitCallback

pub record AutoReconnect : Type 0 where
  pub connector : Link
  pub started : Bool
  pub need_stop : Bool
  pub rerun : Bool
  pub backup_exit_callback : Option ExitCallback
  pub started_callback : Option ℕ
  pub calls : List Call

-- `AutoReconnect::AutoReconnect`.
abbrev pub new : Link → AutoReconnect
new connector = record {
  connector = connector;
  started = false;
  need_stop = false;
  rerun = false;
  backup_exit_callback = none;
  started_callback = none;
  calls = [];
}

abbrev pub call : AutoReconnect → Call → AutoReconnect
call a c = record a { calls = c ∷ a.calls }

-- `Connector::onExit`.
abbrev pub on_exit : Option ExitCallback → AutoReconnect → AutoReconnect
on_exit callback a = record a { connector = record a.connector { exit_cb = callback } }

-- `Connector::ready`.
abbrev pub is_ready : AutoReconnect → Bool
is_ready a = a.connector.connection_handler_ready

unfoldable pub start : Option ℕ → AutoReconnect → AutoReconnect
start callback a = if a.started then a else record a {
  need_stop = false;
  rerun = false;
  backup_exit_callback = a.connector.exit_cb;
  started_callback = callback;
  connector = record a.connector { exit_cb = some restarts };
  started = true;
  calls = async_start_connector ∷ a.calls;
}

unfoldable pub stop : AutoReconnect → AutoReconnect
stop a =
    if not a.started
    then a
    else if is_ready a
    then record a { started = false; calls = stop_connector ∷ cancel_timer ∷ a.calls }
    else record a { started = false; need_stop = true; calls = cancel_timer ∷ a.calls }

-- `if (m_startedCallback) m_startedCallback()`.
abbrev pub tell_started : AutoReconnect → List Call
tell_started a = elim a.started_callback [
  | none ↦ a.calls
  | some callback ↦ started_callback callback ∷ a.calls
]

-- `AutoReconnect::started`.
unfoldable pub on_started : AutoReconnect → AutoReconnect
on_started a =
    if a.need_stop
    then record a { need_stop = false; calls = stop_connector ∷ a.calls }
    else if a.rerun
    then record a { started_callback = none; rerun = false; calls = run_connector ∷ tell_started a }
    else record a { started_callback = none; calls = tell_started a }

-- `m_backupExitCallback = nullptr`.
abbrev pub drop_backup : Option AutoReconnect → Option AutoReconnect
drop_backup none = none
drop_backup (some a) = some (record a { backup_exit_callback = none })

-- Gives the connector its exit callback back and calls it; `again` is a call of `restart`.
abbrev pub give_back :
    (AutoReconnect → Option AutoReconnect) → ExitCode → AutoReconnect → Option AutoReconnect
give_back again code a = elim a.backup_exit_callback [
  | none ↦ drop_backup (some (on_exit none a))
  | some (original callback) ↦
      drop_backup (some (call (on_exit (some (original callback)) a) (exit_callback callback code)))
  | some restarts ↦ drop_backup (again (on_exit (some restarts) a))
]

-- The two branches for a lost connection, which differ in what they log.
abbrev pub wait_and_retry : AutoReconnect → AutoReconnect
wait_and_retry a = record a { rerun = true; calls = wait_second ∷ a.calls }

-- `none` is a call that has not returned with this fuel.
unfoldable pub restart : ℕ → ExitCode → AutoReconnect → Option AutoReconnect
restart zero code a = none
restart (suc n) code a = elim a.started [
  | false ↦ give_back (restart n code) code a
  | true ↦ elim code [
    | normal ↦ give_back (restart n normal) normal (record a { started = false })
    | broker_connect_error ↦ some (wait_and_retry a)
    | amqp_error ↦ some (wait_and_retry a)
  ]
]

-- The lambda of `async_wait`; the flag says whether the timer was cancelled.
abbrev pub on_timer : Bool → AutoReconnect → AutoReconnect
on_timer aborted a = if aborted then a else call a async_start_connector

-- `if (m_exitCb) m_exitCb(code)` of Connector.
abbrev pub call_exit : ℕ → ExitCode → AutoReconnect → Option AutoReconnect
call_exit n code a = elim a.connector.exit_cb [
  | none ↦ some a
  | some (original callback) ↦ some (call a (exit_callback callback code))
  | some restarts ↦ restart n code a
]

-- The flag that `Connector::onConnected` sets before it calls `started`.
abbrev pub connection_made : AutoReconnect → AutoReconnect
connection_made a =
    on_started (record a { connector = record a.connector { connection_handler_ready = true } })

-- The flag that `Connector::stop` and `Connector::onShutdown` clear before the exit callback.
abbrev pub connection_ended : ℕ → ExitCode → AutoReconnect → Option AutoReconnect
connection_ended n code a =
    call_exit n code
      (record a { connector = record a.connector { connection_handler_ready = false } })

-- The calls of the application, and the handlers that the event loop and the connector call.
pub data Event : Type 0 where
  starts : Option ℕ → Event
  stops connected : Event
  exited : ExitCode → Event
  timer : Bool → Event

-- An event, with fuel for `restart`.
unfoldable pub handle_event : ℕ → Event → AutoReconnect → Option AutoReconnect
handle_event n (starts callback) a = some (start callback a)
handle_event n stops a = some (stop a)
handle_event n connected a = some (connection_made a)
handle_event n (exited code) a = connection_ended n code a
handle_event n (timer aborted) a = some (on_timer aborted a)

abbrev pub and_then :
    (AutoReconnect → Option AutoReconnect) → Option AutoReconnect → Option AutoReconnect
and_then next none = none
and_then next (some a) = next a

pub run_events : ℕ → List Event → AutoReconnect → Option AutoReconnect
run_events n [] a = some a
run_events n (e ∷ es) a = and_then (run_events n es) (handle_event n e a)
