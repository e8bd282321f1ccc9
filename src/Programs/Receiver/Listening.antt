-- ===== src/Programs/Receiver/Listening.antt =====
-- What examples/receiver.cpp does once its connection is made.
use amqp_cpp_asio.Base.{
  true_ne, ◌≡◌, refl, sym, ◌∙◌, subst, ap, Bool, true, false, none, List, [], ◌∷◌, All, arith, ◌⊎◌,
  inl, inr, Bool-cases, All-map, if◌then◌else◌,
}
use amqp_cpp_asio.Transceiver.{Transceiver, is_running}
use amqp_cpp_asio.Transceiver.Invariant.{IsValid}
use amqp_cpp_asio.Transceiver.Receiving.{Hears, answers-Hears, drop-Hears, start-Hears}
use amqp_cpp_asio.Connector.Machine.{Connector, connect}
use amqp_cpp_asio.Connector.Waiting.{Opened}
use amqp_cpp_asio.Connector.Service.{Delivery}
use amqp_cpp_asio.Connector.Service.Rounds.{Serves}
use amqp_cpp_asio.Connector.Service.Resting.{Steady, is_fresh}
use amqp_cpp_asio.AutoReconnect as AutoReconnect
use amqp_cpp_asio.AutoReconnect.{run_connector}
use amqp_cpp_asio.Client.{
  Client, Result, returns, crashes, exhausted, and_then, run_link, run_again, connected,
}
use amqp_cpp_asio.Client.Callbacks.{Returns-map, Returns, Returns-and_then}
use amqp_cpp_asio.Client.Waiting.{IsSession, IsWaiting}
use amqp_cpp_asio.Client.Refusing.{Awaits}
use amqp_cpp_asio.Client.First.{Ran, due_client, connected_due, run_link-idle, run_link-Ran}
use amqp_cpp_asio.Client.Forgetting.{IsDeaf, reconnects, reconnects-IsDeaf}
use amqp_cpp_asio.Programs.{finished, print}
use amqp_cpp_asio.Programs.Receiver.{on_started}

Hears-Steady : Steady Hears
Hears-Steady = record { on_reply = answers-Hears; on_drop = drop-Hears; on_start = start-Hears }

-- The connection is there, each transceiver is ready and reports no error, or it has ended and reports
-- an error, and it has the callback of the program.
abbrev pub Listens : Client → Type 0
Listens s =
    (s.connector.connection_handler_ready ≡ true)
    × All (λ t. (IsValid t × Opened t) × Hears t) s.connector.transceivers

-- What the program prints in its started callback, and what becomes of it.
abbrev print_started : Client → Client
print_started s = print "AMQP client started" s

-- The program goes on, and has printed that it was started.
abbrev pub Started : Client → Type 0
Started s = IsSession s.wrapper × (s.output ≡ "AMQP client started" ∷ [])

module _ (loop : Connector → Delivery) (handler_stopped : Connector → Bool) where
  -- The callback is over.
  abbrev pub Called : Client → Type 0
  Called s =
      Started s
      × (Listens s
          ⊎ (IsWaiting s
              ⊎ ((s.connector.connection_handler_ready ≡ false)
                  × Returns IsDeaf (reconnects loop finished (on_started loop) handler_stopped s))))

  and_then-print :
      (r : Result)
      → and_then (λ t. run_again loop finished (print "AMQP client started" t)) r
        ≡ and_then
            (run_again loop finished)
            (and_then (λ t. returns (print "AMQP client started" t)) r)
  and_then-print (returns s) = refl
  and_then-print crashes = refl
  and_then-print exhausted = refl

  -- From the connection that is awaited on.
  module _ (s : Client) (d : Awaits Hears [] s) where
    -- The members when the program's callback is called.
    abbrev called : Client
    called = due_client s d.first.callback

    over-Started :
        (u : Client)
        → Ran Hears called u
        → (again : Bool) (cs : List AutoReconnect.Call)
        → Started (record (print_started u) {
          wrapper = record u.wrapper { started_callback = none; rerun = again; calls = cs };
        })
    over-Started u x again cs = (
      record {
        is_started = x.watching.is_started;
        wanted = x.wanted ∙ d.first.wanted;
        watched = x.watching.watched;
        called = refl;
      },
      ap (λ out. "AMQP client started" ∷ out) (x.printed ∙ d.printed),
    )

    -- The members when the rest of `AutoReconnect::started` calls `run`.
    abbrev runs : Client → Client
    runs u = record (print_started u) {
      wrapper = record u.wrapper {
        started_callback = none;
        rerun = false;
        calls = run_connector ∷ u.wrapper.calls;
      };
    }

    -- After the second call of `run`, of a connector that was ready.
    twice-Called :
        (u : Client) → Ran Hears called u → (x : Client) → Ran Hears (runs u) x → Called x
    twice-Called u r x y =
        let (v, o) = over-Started u r false (run_connector ∷ u.wrapper.calls) in
        let w : IsSession x.wrapper = record {
          is_started = y.watching.is_started;
          wanted = y.wanted ∙ v.wanted;
          watched = y.watching.watched;
          called = y.called;
        } in
        (
          (w, y.printed ∙ o),
          elim y.outcome [
            | inl (e, k) ↦ inl (e, y.kept)
            | inr (c, k) ↦ inr (
                inl (record {
                  session = w;
                  again = k;
                  down = c.down;
                  telling = c.telling;
                  linked = c.linked;
                  idle =
                      All-map (λ t. is_running t ≡ false) (λ t. is_fresh t ≡ true)
                        (λ t e. ground arith) x.connector.transceivers c.ended;
                }))
          ],
        )

    Opened-fresh :
        (t : Transceiver) → (IsValid t × Opened t) × Hears t → (is_fresh t ≡ true) × Hears t
    Opened-fresh t ((v, inl o), h) = (ground arith, h)
    Opened-fresh t ((v, inr o), h) = (ground arith, h)

    again-Called :
        Serves loop
        → (u : Client) → Ran Hears called u
        → Returns Called (run_again loop finished (print_started u))
    again-Called serves u x = elim (Bool-cases u.wrapper.rerun) [
      | inl y ↦
          subst
            (λ b.
              Returns Called (if b then run_link loop finished (runs u) else returns (closed u)))
            (sym y)
            (elim x.outcome [
              | inl (e, r) ↦
                  Returns-map (Ran Hears (runs u)) Called (twice-Called u x)
                    (run_link loop finished (runs u))
                    (run_link-Ran loop finished Hears Hears-Steady serves (runs u)
                      (record { is_started = x.watching.is_started; watched = x.watching.watched })
                      x.telling x.staying e
                      (record { valid = x.linked.valid; linked = x.linked.linked })
                      (All-map (λ t. (IsValid t × Opened t) × Hears t)
                        (λ t. (is_fresh t ≡ true) × Hears t) Opened-fresh u.connector.transceivers
                        x.kept))
              | inr (c, r) ↦ subst (Returns Called) (run_link-idle loop finished (runs u) c.down) (
                over-Started u x false (run_connector ∷ u.wrapper.calls),
                inr (
                    inr (
                      c.down,
                      reconnects-IsDeaf loop finished (on_started loop) handler_stopped (runs u)
                          (over-Started u x false (run_connector ∷ u.wrapper.calls)).0 refl
                          (record {
                            down = c.down;
                            telling = c.telling;
                            linked = c.linked;
                            ended = c.ended;
                          }),
                    )),
              )
            ])
      | inr n ↦
          subst
            (λ b.
              Returns Called (if b then run_link loop finished (runs u) else returns (closed u)))
            (sym n)
            (
              over-Started u x u.wrapper.rerun u.wrapper.calls,
              elim x.outcome [
                | inl (e, r) ↦ inl (e, x.kept)
                | inr (c, r) ↦ absurd (true_ne u.wrapper.rerun r n)
              ],
            )
    ]
      where
        closed : Client → Client
        closed u = record (print_started u) {
          wrapper = record u.wrapper { started_callback = none };
        }

    called-Ran : Serves loop → Returns (Ran Hears called) (run_link loop finished called)
    unfolding connect
    called-Ran serves =
        run_link-Ran loop finished Hears Hears-Steady serves called
          (record { is_started = d.first.watching.is_started; watched = d.first.watching.watched })
          d.first.telling d.first.staying refl (record { valid = d.valid; linked = refl }) d.fresh

    pub connected-Called :
        Serves loop → Returns Called (connected loop finished (on_started loop) s)
    unfolding on_started
    connected-Called serves =
        subst (Returns Called)
          (and_then-print (run_link loop finished called)
            ∙ connected_due loop finished (on_started loop) s d.first)
          (Returns-and_then (Ran Hears called) Called
            (λ t. run_again loop finished (print_started t)) (run_link loop finished called)
            (again-Called serves) (called-Ran serves))
