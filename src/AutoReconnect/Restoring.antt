-- ===== src/AutoReconnect/Restoring.antt =====
-- How AutoReconnect restores a lost connection and how it stops (src/AutoReconnect.cpp).
use amqp_cpp_asio.Base.{
  ℕ, zero, suc, Bool, true, false, Option, none, some, List, [], ◌∷◌, ◌≡◌, refl, sym, ap, subst,
  ◌∙◌, ◌≢◌, ◌||◌, arith, if◌then◌else◌,
}
use amqp_cpp_asio.Connector.{ExitCode, normal, broker_connect_error, amqp_error}
use amqp_cpp_asio.AutoReconnect.{
  ExitCallback, original, restarts, Call, async_start_connector, run_connector, stop_connector,
  wait_second, cancel_timer, started_callback, exit_callback, AutoReconnect, start, stop,
  on_started, restart, is_ready, Event, starts, stops, connected, exited, timer, handle_event,
  and_then, run_events, drop_backup, on_exit,
}
use amqp_cpp_asio.AutoReconnect.Sessions.{application_callback, IsValid, Returns}

-- A session that no `stop` has touched.
abbrev pub IsRunning : AutoReconnect → Type 0
IsRunning a = (a.started ≡ true) × (a.need_stop ≡ false) × (a.connector.exit_cb ≡ some restarts)

-- A number of attempts that fail, each when the second has passed, and one that succeeds.
abbrev pub attempts : ℕ → List Event
attempts zero = timer false ∷ connected ∷ []
attempts (suc k) = timer false ∷ exited broker_connect_error ∷ attempts k

-- The calls of the attempts, the newest first.
abbrev pub attempt_calls : ℕ → List Call → List Call
attempt_calls zero cs = async_start_connector ∷ cs
attempt_calls (suc k) cs = attempt_calls k (wait_second ∷ async_start_connector ∷ cs)

abbrev pub told : Option ℕ → List Call → List Call
told none cs = cs
told (some c) cs = started_callback c ∷ cs

-- What a connection that is there again leaves.
abbrev pub Restored : Option ExitCallback → Option ℕ → List Call → AutoReconnect → Type 0
Restored backup callback cs b =
    IsRunning b
    × (is_ready b ≡ true)
    × (b.backup_exit_callback ≡ backup)
    × (b.calls ≡ run_connector ∷ told callback cs)

-- The wrapper after a lost connection, while it waits.
abbrev waiting : AutoReconnect → AutoReconnect
waiting a = record a {
  connector = record a.connector { connection_handler_ready = false };
  rerun = true;
  calls = wait_second ∷ a.calls;
}

exited-waiting :
    (n : ℕ) (code : ExitCode) (a : AutoReconnect)
    → code ≢ normal
    → IsRunning a
    → handle_event (suc n) (exited code) a ≡ some (waiting a)
unfolding handle_event restart
exited-waiting n normal a c r = absurd (c refl)
exited-waiting n broker_connect_error a c r = ground arith
exited-waiting n amqp_error a c r = ground arith

-- A run that begins with a lost connection.
run-exited :
    (n : ℕ) (code : ExitCode) (es : List Event) (P : AutoReconnect → Type 0) (a : AutoReconnect)
    → code ≢ normal
    → IsRunning a
    → Returns P (run_events (suc n) es (waiting a))
    → Returns P (run_events (suc n) (exited code ∷ es) a)
unfolding run_events
run-exited n code es P a c r q =
    subst (λ o. Returns P (and_then (run_events (suc n) es) o)) (sym (exited-waiting n code a c r))
      q

attempts-Restored :
    (n k : ℕ) (a : AutoReconnect)
    → IsRunning a
    → a.rerun ≡ true
    → Returns
        (Restored a.backup_exit_callback a.started_callback (attempt_calls k a.calls))
        (run_events (suc n) (attempts k) a)
unfolding run_events handle_event on_started
attempts-Restored n zero a (s, q, w) r = ground arith
attempts-Restored n (suc k) a v r =
    let b : AutoReconnect = record a { calls = async_start_connector ∷ a.calls } in
    run-exited n broker_connect_error (attempts k)
      (Restored a.backup_exit_callback a.started_callback (attempt_calls (suc k) a.calls)) b
      (λ e. cc) v (attempts-Restored n k (waiting b) v refl)

-- After the connection of a session that was not asked to stop is lost or cannot be made, with a
-- code that is not eNormal, any number of attempts that fail and one that succeeds, each a
-- second after the last, lead back to a session in which the connector is ready and was run, the
-- started callback was called if it was still due, and the exit callback of the application was
-- not called
pub lost-Restored :
    (n k : ℕ) (code : ExitCode) (a : AutoReconnect)
    → code ≢ normal
    → IsRunning a
    → Returns
        (Restored a.backup_exit_callback a.started_callback
          (attempt_calls k (wait_second ∷ a.calls)))
        (run_events (suc n) (exited code ∷ attempts k) a)
lost-Restored n k code a c r =
    run-exited n code (attempts k)
      (Restored a.backup_exit_callback a.started_callback (attempt_calls k (wait_second ∷ a.calls)))
      a c r (attempts-Restored n k (waiting a) r refl)

-- The events of a session that ends: the connection, if it was still being made and is made, and
-- its end. The flags say whether the connector was ready and whether the connection is made.
abbrev pub ending : Bool → Bool → ExitCode → List Event
ending false true code = connected ∷ exited code ∷ []
ending _ _ code = exited code ∷ []

abbrev pub told_exit : Option ExitCallback → ExitCode → List Call → List Call
told_exit (some (original c)) code cs = exit_callback c code ∷ cs
told_exit _ code cs = cs

-- What a session that has ended leaves.
abbrev pub GivenBack : Option ExitCallback → ExitCode → List Call → AutoReconnect → Type 0
GivenBack callback code cs b =
    (b.connector.exit_cb ≡ callback)
    × (b.backup_exit_callback ≡ none)
    × (b.started ≡ false)
    × (b.calls ≡ told_exit callback code cs)

-- After stop of a started, valid wrapper and the end of the connection with any code, before
-- which a connection that was still being made may be made, the connector has the exit callback
-- of the application again, which was called once with that code, and the connector was told to
-- stop if it was ready or became ready
pub stop-restores :
    (n : ℕ) (made : Bool) (code : ExitCode) (a : AutoReconnect)
    → IsValid a
    → a.started ≡ true
    → Returns
        (GivenBack (application_callback a) code (
          if is_ready a || made
          then stop_connector ∷ cancel_timer ∷ a.calls
          else cancel_timer ∷ a.calls))
        (run_events (suc n) (stops ∷ ending (is_ready a) made code) a)
unfolding run_events handle_event stop on_started restart
stop-restores n made code a v s = ground arith

-- `give_back` calls `restart` again where the backup is `restart` itself.
restart-suc :
    (n : ℕ) (code : ExitCode) (a : AutoReconnect)
    → a.backup_exit_callback ≡ some restarts
    → (a.started ≡ true → code ≡ normal)
    → restart (suc n) code a
      ≡ drop_backup (restart n code (on_exit (some restarts) (record a { started = false })))
unfolding restart
restart-suc n code a b c = ground (arith, c)

restart-never :
    (n : ℕ) (code : ExitCode) (a : AutoReconnect)
    → a.backup_exit_callback ≡ some restarts
    → (a.started ≡ true → code ≡ normal)
    → restart n code a ≡ none
unfolding restart
restart-never zero code a b c = refl
restart-never (suc n) code a b c =
    restart-suc n code a b c
    ∙ ap drop_backup
        (restart-never n code (on_exit (some restarts) (record a { started = false })) b (λ e. cc))

-- If a started wrapper that watches its connector is stopped and started again before the
-- connector ends, the call of restart for the end of the connector with eNormal does not return,
-- whatever the fuel
pub start-again :
    (n : ℕ) (callback : Option ℕ) (a : AutoReconnect)
    → a.started ≡ true
    → a.connector.exit_cb ≡ some restarts
    → run_events n (stops ∷ starts callback ∷ exited normal ∷ []) a ≡ none
unfolding run_events handle_event start stop
start-again n callback a s w =
    let b : AutoReconnect = start callback (stop a) in
    let c : AutoReconnect = record b {
      connector = record b.connector { connection_handler_ready = false };
    } in
    let r : restart n normal c ≡ none = restart-never n normal c (ground arith) (λ e. refl) in
    ground (arith, r)
