-- ===== src/Client/Halting.antt =====
-- The exit callback at the end of a session (src/AutoReconnect.cpp), as the connector (src/AmqpConnector.cpp)
-- brings it about.
use amqp_cpp_asio.Base.{
  ℕ, String, ◌≡◌, ◌∙◌, refl, sym, subst, ap, Bool, true, false, none, some, List, [], ◌∷◌, arith,
  Bool-cases, inl, inr, ◌⊎◌,
}
use amqp_cpp_asio.Connector.{ExitCode, normal, amqp_error}
use amqp_cpp_asio.Connector.Machine.{
  Connector, Call, leave, stop_handler, exit_callback, finish_stop, disconnected,
}
use amqp_cpp_asio.Connector.Service.{Delivery}
use amqp_cpp_asio.Connector.Service.Settling.{IsServed}
use amqp_cpp_asio.Connector.Service.Closing.{AreEnded, newest, finish_stop-ready, finish_stop-left}
use amqp_cpp_asio.AutoReconnect.{
  AutoReconnect, call_exit, restarts, restart, original, cancel_timer,
}
use amqp_cpp_asio.AutoReconnect as AutoReconnect
use amqp_cpp_asio.Client.{
  Client, Result, after_call, seen, silent, call_exit_cb, call_all, told_exit, after, shut,
}
use amqp_cpp_asio.Client.Callbacks.{Returns, Returns-map, joined}

-- The calls that `stop` makes.
abbrev pub stopping : Client → List AutoReconnect.Call
stopping s = AutoReconnect.stop_connector ∷ cancel_timer ∷ s.wrapper.calls

-- The session that was `s` is over.
pub record IsOver (callback : ℕ) (s u : Client) : Type 0 where
  pub stopped : u.wrapper.started ≡ false
  pub returned : u.wrapper.connector.exit_cb ≡ some (original callback)
  pub released : u.wrapper.backup_exit_callback ≡ none
  pub told :
      (code : ExitCode) × (u.wrapper.calls ≡ AutoReconnect.exit_callback callback code ∷ stopping s)
  pub down : u.connector.connection_handler_ready ≡ false
  pub ended : AreEnded u.connector.transceivers

-- The session is stopped, but the exit callback was not called yet.
pub record IsHalted (callback : ℕ) (s : Client) (a : AutoReconnect) : Type 0 where
  pub stopped : a.started ≡ false
  pub watched : a.connector.exit_cb ≡ some restarts
  pub backup : a.backup_exit_callback ≡ some (original callback)
  pub called : a.calls ≡ stopping s

call_exit-back :
    (callback : ℕ) (code : ExitCode) (a : AutoReconnect)
    → a.started ≡ false
    → a.connector.exit_cb ≡ some restarts
    → a.backup_exit_callback ≡ some (original callback)
    → call_exit 1 code a
      ≡ some (record a {
        connector = record a.connector { exit_cb = some (original callback) };
        backup_exit_callback = none;
        calls = AutoReconnect.exit_callback callback code ∷ a.calls;
      })
unfolding restart
call_exit-back callback code a e w b = ground arith

disconnected-exiting :
    (error : Bool) (c : Connector) → c.exiting ≡ true → some (leave normal c) ≡ disconnected error c
unfolding disconnected
disconnected-exiting error c x = rw x refl

leave-calls :
    (x : Connector)
    → x.on_exit ≡ true
    → x.calls ≡ []
    → (leave normal x).calls ≡ exit_callback normal ∷ []
leave-calls x e q = rw (e, q) refl

module _ (loop : Connector → Delivery) (lines : ExitCode → List String) (callback : ℕ)
    (s : Client) where
  -- The exit callback of the application is called.
  told_exit-IsOver :
      (code : ExitCode) (t : Client)
      → IsHalted callback s t.wrapper
      → t.connector.connection_handler_ready ≡ false
      → AreEnded t.connector.transceivers
      → Returns (IsOver callback s) (call_exit_cb loop lines code t)
  unfolding call_exit_cb
  told_exit-IsOver code t h d o =
      subst (λ x. Returns (IsOver callback s) (told_exit lines t x))
        (sym (
          call_exit-back callback code (record (seen t) { calls = [] }) h.stopped h.watched
            h.backup))
        (record {
          stopped = h.stopped;
          returned = refl;
          released = refl;
          told = (code, ap (◌∷◌ (AutoReconnect.exit_callback callback code)) h.called);
          down = d;
          ended = o;
        })

  -- What the calls of the connector come to, with one exit callback among them.
  abbrev Tells : List Call → Type 0
  Tells cs =
      (t : Client)
      → IsHalted callback s t.wrapper
      → t.connector.connection_handler_ready ≡ false
      → AreEnded t.connector.transceivers
      → Returns (IsOver callback s) (call_all loop lines cs t)

  last-Tells : (code : ExitCode) → Tells (exit_callback code ∷ [])
  unfolding call_all
  last-Tells code t h d o = told_exit-IsOver code t h d o

  stop_handler-Tells : (code : ExitCode) → Tells (stop_handler ∷ exit_callback code ∷ [])
  unfolding call_all
  stop_handler-Tells code t h d o = told_exit-IsOver code t h d o

  after-IsOver :
      (t : Client) (u : Connector) (cs : List Call)
      → Tells cs
      → IsHalted callback s t.wrapper
      → u.calls ≡ cs
      → u.connection_handler_ready ≡ false
      → AreEnded u.transceivers
      → Returns (IsOver callback s) (after loop lines t u)
  after-IsOver t u cs f h e d o =
      subst (λ ds. Returns (IsOver callback s) (call_all loop lines ds (joined loop lines t u)))
        (sym e) (f (joined loop lines t u) h d o)

  -- The connection handler was told to stop, and the end of the connection ends the session.
  abbrev pub Waits : Client → Type 0
  Waits u =
      (newest u.connector.calls ≡ some stop_handler)
      × ((error : Bool) → Returns (IsOver callback s) (shut loop lines error u))

  abbrev pub IsEnding : Client → Type 0
  IsEnding u = IsOver callback s u ⊎ Waits u

  shut-IsOver :
      (error : Bool) (u : Client)
      → IsHalted callback s u.wrapper
      → u.connector.exiting ≡ true
      → u.connector.on_exit ≡ true
      → AreEnded u.connector.transceivers
      → Returns (IsOver callback s) (shut loop lines error u)
  unfolding shut
  shut-IsOver error u h x t o =
      subst (λ c. Returns (IsOver callback s) (after_call loop lines u c))
        (disconnected-exiting error (silent u) x)
        (after-IsOver u (leave normal (silent u)) (exit_callback normal ∷ []) (last-Tells normal) h
          (leave-calls (silent u) t refl) refl o)

  -- The connection handler is told to stop.
  stopping-IsEnding :
      (t : Client) (x : Connector)
      → IsHalted callback s t.wrapper
      → x.on_exit ≡ true
      → x.calls ≡ []
      → AreEnded x.transceivers
      → Returns IsEnding
          (after loop lines t (record x { exiting = true; calls = stop_handler ∷ x.calls }))
  unfolding call_all
  stopping-IsEnding t x h e q o =
      let u : Client =
        joined loop lines t (record x { exiting = true; calls = stop_handler ∷ x.calls }) in
      subst (λ cs. Returns IsEnding (call_all loop lines (stop_handler ∷ cs) u)) (sym q)
        (inr (refl, λ error. shut-IsOver error u h refl e o))

  over : (o : Result) → Returns (IsOver callback s) o → Returns IsEnding o
  over o p = Returns-map (IsOver callback s) IsEnding (λ u x. inl x) o p

  pub finished-IsEnding :
      (stopped : Bool) (t : Client) (x : Connector)
      → IsHalted callback s t.wrapper
      → t.connector.on_exit ≡ true
      → IsServed (silent t) x
      → AreEnded x.transceivers
      → Returns IsEnding (after loop lines t (finish_stop stopped x))
  unfolding finish_stop
  finished-IsEnding stopped t x h e w o = elim (Bool-cases x.connection_handler_ready) [
    | inl y ↦ let q : x.calls ≡ [] = w.accounted.1 ∙ rw y refl in ready stopped y q
    | inr k ↦
        let q : x.calls ≡ exit_callback amqp_error ∷ [] = w.accounted.1 ∙ rw (k, e) refl in
        lost stopped k q
  ]
    where
      lost :
          (b : Bool)
          → x.connection_handler_ready ≡ false
          → x.calls ≡ exit_callback amqp_error ∷ []
          → Returns IsEnding (after loop lines t (finish_stop b x))
      lost true k q =
          subst (λ u. Returns IsEnding (after loop lines t u)) (finish_stop-left x k)
            (over _
              (after-IsOver t x (exit_callback amqp_error ∷ []) (last-Tells amqp_error) h q k o))
      lost false k q = over _ (
          after-IsOver t (record x { exiting = true; calls = stop_handler ∷ x.calls })
            (stop_handler ∷ exit_callback amqp_error ∷ []) (stop_handler-Tells amqp_error) h
            (ap (◌∷◌ stop_handler) q) k o)

      ready :
          (b : Bool)
          → x.connection_handler_ready ≡ true
          → x.calls ≡ []
          → Returns IsEnding (after loop lines t (finish_stop b x))
      ready true y q =
          subst (λ u. Returns IsEnding (after loop lines t u)) (finish_stop-ready x y).1
            (over _ (
              after-IsOver t (leave normal x) (exit_callback normal ∷ []) (last-Tells normal) h
                (leave-calls x (w.accounted.0 ∙ e) q) refl o))
      ready false y q = stopping-IsEnding t x h (w.accounted.0 ∙ e) q o
