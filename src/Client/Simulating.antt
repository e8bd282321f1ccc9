-- ===== src/Client/Simulating.antt =====
-- Each call of the connector (src/AmqpConnector.cpp) as its wrapper (src/AutoReconnect.cpp) hears it.
use mathlib.Core.List.{append-nil}
use amqp_cpp_asio.Base.{
  String, ◌≡◌, ◌∙◌, refl, sym, subst, ap, Bool, true, false, none, some, Option, List, [], ◌∷◌,
  ◌++◌, arith, Bool-cases, inl, inr, is_set,
}
use amqp_cpp_asio.Connector.{ExitCode}
use amqp_cpp_asio.Connector.Machine.{Connector, stop_connector, disconnected}
use amqp_cpp_asio.Connector.Shutdown.{IsLinked, Gives}
use amqp_cpp_asio.Connector.Service.{Delivery, run, posted}
use amqp_cpp_asio.Connector.Service as Service
use amqp_cpp_asio.Connector.Service.Leading.{
  MayCome, Leads, Led, codes_of, heard, stop_connector-Leads, disconnected-Leads,
}
use amqp_cpp_asio.Connector.Service.Leading.Looping.{run-Led, posted-Led}
use amqp_cpp_asio.Connector.Service.Leading as Leading
use amqp_cpp_asio.AutoReconnect.{
  AutoReconnect, call_exit, connection_ended, restart, run_connector, exited, original, restarts,
}
use amqp_cpp_asio.AutoReconnect as AutoReconnect
use amqp_cpp_asio.Client.{
  Client, returns, seen, silent, after, after_call, after_loop, run_link, stop_link, shut, finish,
}
use amqp_cpp_asio.Client.Callbacks.{joined}
use amqp_cpp_asio.Client.Keeping.{Keeps, Keeps-map}
use amqp_cpp_asio.Client.Hearing.{
  Follows, Follows-append, IsBound, exits, down, call_all-Told, call_all-silent, AllTold,
}

-- The first exit callback clears the flag.
Follows-down :
    (a b : AutoReconnect) (code : ExitCode) (codes : List ExitCode)
    → Follows (down a) (exits (code ∷ codes)) b
    → Follows a (exits (code ∷ codes)) b
unfolding AutoReconnect.handle_event
Follows-down a b code [] (m, p, e) =
    (a, refl, subst (λ x. connection_ended 1 code x ≡ some b) (sym p) e)
Follows-down a b code (k ∷ codes) (m, p, e) = (m, Follows-down a m k codes p, e)

-- Without an exit callback the wrapper hears nothing.
unheard :
    (a : AutoReconnect) (code : ExitCode) (codes : List ExitCode)
    → a.connector.exit_cb ≡ none
    → Follows a (exits (code ∷ codes)) (down a)
unfolding AutoReconnect.handle_event
unheard a code [] e = (a, refl, ground arith)
unheard a code (k ∷ codes) e = (down a, unheard a k codes e, ground arith)

is_set-none {ℓ} : {A : Type ℓ} (o : Option A) → is_set o ≡ false → o ≡ none
is_set-none none e = refl
is_set-none (some a) e = cc

heard-nil : (b : Bool) → heard b [] [] ≡ []
heard-nil true = refl
heard-nil false = refl

-- The wrapper has gone by these events, the newest first, and then by the ends of the connection; what
-- binds it to its connector still holds.
abbrev pub Simulated : List AutoReconnect.Event → AutoReconnect → Client → Type 0
Simulated es a u = IsBound u × (codes : List ExitCode) × Follows a (exits codes ++ es) (seen u)

module _ (loop : Connector → Delivery) (lines : ExitCode → List String) where
  module _ (es : List AutoReconnect.Event) (a : AutoReconnect) (s : Client) (b : IsBound s)
      (f : Follows a es (seen s)) where
    joined-IsBound :
        (codes : List ExitCode) (u : Connector)
        → Leads (silent s) codes u
        → IsBound (joined loop lines s u)
    joined-IsBound codes u x = record {
      linked = record { valid = x.linked.valid; linked = x.linked.linked };
      telling = x.same ∙ b.telling;
      starting = x.starting ∙ b.starting;
    }

    -- The wrapper once the connector has its new flag.
    abbrev flagged : Bool → AutoReconnect
    flagged ready = record s.wrapper {
      connector = record s.wrapper.connector { connection_handler_ready = ready };
    }

    none-Simulated :
        (u : Connector) → Leads (silent s) [] u → Keeps (Simulated es a) (after loop lines s u)
    none-Simulated u x =
        subst (Keeps (Simulated es a))
          (sym (
            call_all-silent lines loop u.calls (joined loop lines s u)
              (x.told ∙ heard-nil s.connector.on_exit)))
          (joined-IsBound [] u x, [], subst (Follows a es) (ap flagged (sym x.flag)) f)

    some-Simulated :
        (code : ExitCode) (codes : List ExitCode) (u : Connector)
        → Leads (silent s) (code ∷ codes) u
        → Keeps (Simulated es a) (after loop lines s u)
    some-Simulated code codes u x = elim (Bool-cases s.connector.on_exit) [
      | inl y ↦
          let q : codes_of u.calls ≡ code ∷ codes =
            x.told ∙ ap (λ b. heard b (code ∷ codes) []) y ∙ append-nil (code ∷ codes) in
          Keeps-map (AllTold lines loop (codes_of u.calls) (joined loop lines s u)) (Simulated es a)
            (λ t (g, l, c). (
              c (joined-IsBound (code ∷ codes) u x),
              code ∷ codes,
              Follows-append a (seen s) (seen t) es (exits (code ∷ codes)) f (
                  Follows-down (seen s) (seen t) code codes (
                    subst (λ ks. Follows (flagged false) (exits ks) (seen t)) q
                      (subst (λ r. Follows (flagged r) (exits (codes_of u.calls)) (seen t)) x.flag
                        g))),
            ))
            (after loop lines s u) (call_all-Told lines loop u.calls (joined loop lines s u) x.flag)
      | inr n ↦
          let q : codes_of u.calls ≡ [] = x.told ∙ ap (λ b. heard b (code ∷ codes) []) n in
          subst (Keeps (Simulated es a))
            (sym (call_all-silent lines loop u.calls (joined loop lines s u) q))
            (
              joined-IsBound (code ∷ codes) u x,
              code ∷ codes,
              Follows-append a (seen s) (flagged u.connection_handler_ready) es
                  (exits (code ∷ codes)) f
                  (subst (λ r. Follows (seen s) (exits (code ∷ codes)) (flagged r)) (sym x.flag)
                    (unheard (seen s) code codes
                      (is_set-none s.wrapper.connector.exit_cb (sym b.telling ∙ n)))),
            )
    ]

    after-Simulated :
        (codes : List ExitCode) (u : Connector)
        → Leads (silent s) codes u
        → Keeps (Simulated es a) (after loop lines s u)
    after-Simulated [] u x = none-Simulated u x
    after-Simulated (code ∷ codes) u x = some-Simulated code codes u x

    pub after_loop-Simulated :
        (o : Service.Result)
        → Leading.Keeps (Led (silent s)) o
        → Keeps (Simulated es a) (after_loop loop lines s o)
    after_loop-Simulated (Service.returns u) (codes, x) = after-Simulated codes u x
    after_loop-Simulated Service.crashes x = x
    after_loop-Simulated Service.exhausted x = x

    pub after_call-Simulated :
        (codes : List ExitCode) (o : Option Connector)
        → Gives (Leads (silent s) codes) o
        → Keeps (Simulated es a) (after_call loop lines s o)
    after_call-Simulated codes none x = x
    after_call-Simulated codes (some u) x = after-Simulated codes u x

    silent_linked : IsLinked (silent s)
    silent_linked = record { valid = b.linked.valid; linked = b.linked.linked }

    pub stop_link-Simulated : Keeps (Simulated es a) (stop_link loop lines s)
    stop_link-Simulated =
        after_call-Simulated [] (stop_connector (silent s))
          (stop_connector-Leads (silent s) silent_linked)

    pub shut-Simulated : (error : Bool) → Keeps (Simulated es a) (shut loop lines error s)
    unfolding shut
    shut-Simulated error =
        after_call-Simulated _ (disconnected error (silent s))
          (disconnected-Leads error (silent s) silent_linked)

    pub returns-Simulated : Keeps (Simulated es a) (returns s)
    returns-Simulated = (b, [], f)

    module _ (comes : MayCome loop) where
      pub run_link-Simulated : Keeps (Simulated es a) (run_link loop lines s)
      run_link-Simulated =
          after_loop-Simulated (run loop (silent s)) (run-Led loop comes (silent s) silent_linked)

      pub finish-Simulated :
          (handler_stopped : Connector → Bool)
          → Keeps (Simulated es a) (finish loop lines returns handler_stopped s)
      unfolding finish
      finish-Simulated handler_stopped =
          after_loop-Simulated (posted loop handler_stopped (silent s))
            (posted-Led loop comes handler_stopped (silent s) silent_linked)
