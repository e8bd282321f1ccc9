-- ===== src/Programs/Sender/Stopping.antt =====
-- How examples/sender.cpp stops.
use amqp_cpp_asio.Base.{
  String, ◌≡◌, refl, sym, ◌∙◌, ap, subst, Bool, true, false, some, [], ◌∷◌, ◌++◌, List, All,
  All-map, arith, ◌⊎◌, inl, inr, Bool-cases,
}
use amqp_cpp_asio.Transceiver.{Transceiver, Call, After, After-map}
use amqp_cpp_asio.Transceiver.Control.{stop as stop_transceiver}
use amqp_cpp_asio.Transceiver.Invariant.{IsValid}
use amqp_cpp_asio.Transceiver.Publishing.{publishes, stop-Unsent}
use amqp_cpp_asio.Connector.Machine.{Connector, post_stop, stop_connector, for_each}
use amqp_cpp_asio.Connector.Shutdown.{for_each-All, Gives, with_all-Gives}
use amqp_cpp_asio.Connector.Service.{Delivery}
use amqp_cpp_asio.Client.{Client, returns, silent, seen, after, call_all, stop, stop_link}
use amqp_cpp_asio.AutoReconnect as AutoReconnect
use amqp_cpp_asio.Connector.Service.Closing.{newest}
use amqp_cpp_asio.Client.Callbacks.{Returns, joined, after_call-Returns}
use amqp_cpp_asio.Programs.{finished}
use amqp_cpp_asio.Programs.Sender.Sending.{Has}

-- Stopped: what was printed and published stays, and the connector is stopping or has no connection.
pub record Stopped (out : List String) (ps : List Call) (s : Client) : Type 0 where
  pub printed : s.output ≡ out
  pub sent : All (λ t. publishes t.calls ≡ ps) s.connector.transceivers
  pub ended : s.wrapper.started ≡ false
  pub stopping :
      (s.connector.connection_handler_ready ≡ false) ⊎ (newest s.connector.calls ≡ some post_stop)

-- The same, before the rest of `AutoReconnect::started`.
abbrev pub Halted : List String → List Call → Client → Type 0
Halted out ps s =
    Stopped out ps s × ((s.wrapper.rerun ≡ false) ⊎ (s.connector.connection_handler_ready ≡ false))

-- What each transceiver has published.
abbrev pub Kept : List Call → Transceiver → Type 0
Kept ps t = publishes t.calls ≡ ps

stop-Kept :
    (ps : List Call) (t : Transceiver)
    → Kept ps t × IsValid t
    → After (Kept ps) (stop_transceiver t)
stop-Kept ps t (e, v) =
    After-map (λ u. (publishes u.calls ≡ publishes t.calls) × (u.exchange ≡ t.exchange)) (Kept ps)
      (λ u (x, y). x ∙ e) (stop_transceiver t) (stop-Unsent t v)

-- A ready connector is told to stop.
stop_connector-Kept :
    (ps : List Call) (c : Connector)
    → All (λ t. Kept ps t × IsValid t) c.transceivers
    → c.connection_handler_ready ≡ true
    → Gives
        (λ u.
          All (Kept ps) u.transceivers
          × (u.connection_handler_ready ≡ true)
          × (u.calls ≡ post_stop ∷ c.calls))
        (stop_connector c)
unfolding stop_connector
stop_connector-Kept ps c k r = ground (
  arith,
  with_all-Gives (λ u. record u { calls = post_stop ∷ u.calls })
      (λ u.
        All (Kept ps) u.transceivers
        × (u.connection_handler_ready ≡ true)
        × (u.calls ≡ post_stop ∷ c.calls))
      (All (Kept ps)) c (for_each stop_transceiver c.transceivers) (λ ts w. (w, r, refl))
      (for_each-All stop_transceiver (λ t. Kept ps t × IsValid t) (Kept ps) (stop-Kept ps)
        c.transceivers k),
)

-- The wrapper after its `stop`.
abbrev stopped_wrapper : Client → Client
stopped_wrapper s = record s { wrapper = AutoReconnect.stop (seen s) }

stopped_wrapper_lem :
    (s : Client)
    → s.wrapper.started ≡ true
    → ((stopped_wrapper s).wrapper.started ≡ false)
      × ((stopped_wrapper s).wrapper.rerun ≡ s.wrapper.rerun)
unfolding AutoReconnect.stop
stopped_wrapper_lem s e = (ground arith, ground arith)

module _ (loop : Connector → Delivery) (up : Bool) (out : List String) (ps : List Call) where
  stop_ready :
      (s : Client)
      → s.wrapper.started ≡ true
      → s.connector.connection_handler_ready ≡ true
      → stop_link loop finished (stopped_wrapper s) ≡ stop loop finished s
  unfolding stop
  stop_ready s e y = ground arith

  stop_down :
      (s : Client)
      → s.wrapper.started ≡ true
      → s.connector.connection_handler_ready ≡ false
      → returns (stopped_wrapper s) ≡ stop loop finished s
  unfolding stop
  stop_down s e y = ground arith

  quiet :
      (s : Client)
      → Has up out ps s
      → s.connector.connection_handler_ready ≡ true
      → s.wrapper.rerun ≡ false
  quiet s h y = elim h.calm [ inl e ↦ e | inr k ↦ cc ]

  kept : (s : Client) → Has up out ps s → All (λ t. Kept ps t × IsValid t) s.connector.transceivers
  kept s h = subst (All (λ t. Kept ps t × IsValid t)) (sym h.alone) ((h.sent, h.valid), tt)

  -- After the call of the connector.
  stop_link-Halted :
      (s : Client) (u : Connector)
      → Has up out ps s
      → s.connector.connection_handler_ready ≡ true
      → All (Kept ps) u.transceivers
        × (u.connection_handler_ready ≡ true)
        × (u.calls ≡ post_stop ∷ [])
      → Returns (Halted out ps) (after loop finished (stopped_wrapper s) u)
  unfolding call_all
  stop_link-Halted s u h y (k, r, e) =
      let (d, n) = stopped_wrapper_lem s h.watching in
      subst
        (λ cs.
          Returns (Halted out ps)
            (call_all loop finished cs (joined loop finished (stopped_wrapper s) u)))
        (sym e)
        (
          record {
            printed = h.printed;
            sent = k;
            ended = d;
            stopping = inr (ap (λ cs. newest (cs ++ s.connector.calls)) e);
          },
          inl (n ∙ quiet s h y),
        )

  pub stop-Halted : (s : Client) → Has up out ps s → Returns (Halted out ps) (stop loop finished s)
  stop-Halted s h = elim (Bool-cases s.connector.connection_handler_ready) [
    | inl y ↦ subst (Returns (Halted out ps)) (stop_ready s h.watching y) (
        after_call-Returns loop finished
          (λ u.
            All (Kept ps) u.transceivers
            × (u.connection_handler_ready ≡ true)
            × (u.calls ≡ post_stop ∷ []))
          (Halted out ps) (stopped_wrapper s) (stop_connector (silent s))
          (λ u k. stop_link-Halted s u h y k) (stop_connector-Kept ps (silent s) (kept s h) y))
    | inr k ↦ subst (Returns (Halted out ps)) (stop_down s h.watching k) (
      record {
        printed = h.printed;
        sent =
            All-map (λ t. Kept ps t × IsValid t) (Kept ps) (λ t x. x.0) s.connector.transceivers
              (kept s h);
        ended = (stopped_wrapper_lem s h.watching).0;
        stopping = inl k;
      },
      inr k,
    )
  ]
