-- ===== src/Programs/Sender/Running.antt =====
-- What the programs may count on after `Connector::run`, called while `onConnected` runs.
use amqp_cpp_asio.Base.{
  String, ◌≡◌, refl, sym, ◌∙◌, ap, subst, Bool, true, false, [], ◌∷◌, List, All, arith, is_set, ◌⊎◌,
  inl, inr, length,
}
use amqp_cpp_asio.Transceiver.{Transceiver, Call, After-map, is_ready}
use amqp_cpp_asio.Transceiver.Control.{start, drop}
use amqp_cpp_asio.Transceiver.Replies.{handle}
use amqp_cpp_asio.Transceiver.Invariant.{IsValid}
use amqp_cpp_asio.Transceiver.Publishing.{publishes, answers-Unsent, drop-Unsent, start-Unsent}
use amqp_cpp_asio.Connector.Machine.{Connector}
use amqp_cpp_asio.Connector.Service.{Delivery}
use amqp_cpp_asio.Connector.Service.Rounds.{Serves}
use amqp_cpp_asio.Connector.Service.Resting.{Steady, is_fresh}
use amqp_cpp_asio.Client.{Client, Result, run_link}
use amqp_cpp_asio.Client.Callbacks.{IsWatched, Returns, Returns-map}
use amqp_cpp_asio.Client.First.{Ran, run_link-Ran}
use amqp_cpp_asio.Programs.{finished, exchange_name}
use amqp_cpp_asio.Connector.Waiting.{Opened}
use amqp_cpp_asio.Programs.Sender.Sending.{Has}

-- What a transceiver keeps while it is opened: what it has published, and its exchange.
abbrev pub Outbox : List Call → Transceiver → Type 0
Outbox ps t = (publishes t.calls ≡ ps) × (t.exchange ≡ exchange_name)

Outbox-Steady : (ps : List Call) → Steady (Outbox ps)
Outbox-Steady ps = record {
  on_reply = λ r t v a (p, q).
      After-map (λ u. (publishes u.calls ≡ publishes t.calls) × (u.exchange ≡ t.exchange))
        (Outbox ps) (λ u (x, y). (x ∙ p, y ∙ q)) (handle r t) (answers-Unsent r t v a);
  on_drop = λ t v (p, q).
      After-map (λ u. (publishes u.calls ≡ publishes t.calls) × (u.exchange ≡ t.exchange))
        (Outbox ps) (λ u (x, y). (x ∙ p, y ∙ q)) (drop t) (drop-Unsent t v);
  on_start = λ c t v (p, q).
      After-map (λ u. (publishes u.calls ≡ publishes t.calls) × (u.exchange ≡ t.exchange))
        (Outbox ps) (λ u (x, y). (x ∙ p, y ∙ q)) (start c t) (start-Unsent c t v);
}

singleton :
    (P : Transceiver → Type 0) (us : List Transceiver)
    → length us ≡ 1
    → All P us
    → (t : Transceiver) × (us ≡ t ∷ []) × P t
singleton P [] e a = absurd (omega arith)
singleton P (t ∷ []) e (p, a) = (t, refl, p)
singleton P (t ∷ u ∷ us) e a = absurd (omega arith)

-- Ready or not.
abbrev pub Either : (Bool → Client → Type 0) → Client → Type 0
Either P x = P true x ⊎ P false x

pub Returns-Either :
    (P Q : Bool → Client → Type 0) (f : Client → Result)
    → ((up : Bool) (s : Client) → P up s → Returns (Q up) (f s))
    → (s : Client) → Either P s
    → Returns (Either Q) (f s)
Returns-Either P Q f g s (inl p) = Returns-map (Q true) (Either Q) (λ t q. inl q) (f s) (g true s p)
Returns-Either P Q f g s (inr p) =
    Returns-map (Q false) (Either Q) (λ t q. inr q) (f s) (g false s p)

Opened-ready : (t : Transceiver) → Opened t → (is_ready t ≡ true) ⊎ (is_ready t ≡ false)
Opened-ready t (inl (y, e)) = inl y
Opened-ready t (inr (k, e)) = inr (ground arith)

module _ (loop : Connector → Delivery) (serves : Serves loop) (ps : List Call) where
  -- The program after `run` has left the connector so.
  found :
      (up : Bool) (x : Client) (out : List String) (t : Transceiver)
      → is_ready t ≡ up
      → x.connector.transceivers ≡ t ∷ []
      → IsValid t × Outbox ps t
      → x.output ≡ out
      → is_set x.connector.amqp_connection ≡ x.connector.connection_handler_ready
      → x.wrapper.started ≡ true
      → (x.wrapper.rerun ≡ false) ⊎ (x.connector.connection_handler_ready ≡ false)
      → Has up out ps x
  found up x out t y a (v, (p, q)) o l w c = record {
    only = t;
    alone = a;
    valid = v;
    is_up = y;
    sent = p;
    named = q;
    printed = o;
    linked = l;
    watching = w;
    calm = c;
  }

  found-Either :
      (x : Client) (out : List String) (t : Transceiver)
      → (is_ready t ≡ true) ⊎ (is_ready t ≡ false)
      → x.connector.transceivers ≡ t ∷ []
      → IsValid t × Outbox ps t
      → x.output ≡ out
      → is_set x.connector.amqp_connection ≡ x.connector.connection_handler_ready
      → x.wrapper.started ≡ true
      → (x.wrapper.rerun ≡ false) ⊎ (x.connector.connection_handler_ready ≡ false)
      → Either (λ up. Has up out ps) x
  found-Either x out t (inl y) a v o l w c = inl (found true x out t y a v o l w c)
  found-Either x out t (inr k) a v o l w c = inr (found false x out t k a v o l w c)

  Ran-calm :
      (s u : Client)
      → s.wrapper.rerun ≡ false
      → Ran (Outbox ps) s u
      → (u.wrapper.rerun ≡ false) ⊎ (u.connector.connection_handler_ready ≡ false)
  Ran-calm s u r k = elim k.outcome [ inl (y, e) ↦ inl (e ∙ r) | inr (c, e) ↦ inr c.down ]

  -- What `run` leaves for the program.
  pub run_link-Has :
      (s : Client)
      → IsWatched s.wrapper
      → s.wrapper.rerun ≡ false
      → s.connector.on_exit ≡ true
      → s.connector.exiting ≡ false
      → s.connector.connection_handler_ready ≡ true
      → is_set s.connector.amqp_connection ≡ true
      → (t : Transceiver) → s.connector.transceivers ≡ t ∷ []
      → IsValid t × ((is_fresh t ≡ true) × Outbox ps t)
      → Returns (Either (λ up. Has up s.output ps)) (run_link loop finished s)
  run_link-Has s v r x e y l t a (w, f) =
      Returns-map (Ran (Outbox ps) s) (Either (λ up. Has up s.output ps))
        (λ u k.
          let (t', e', ((w', o), q)) =
            singleton (λ t. (IsValid t × Opened t) × Outbox ps t) u.connector.transceivers
              (k.count ∙ ap length a) k.kept in
          found-Either u s.output t' (Opened-ready t' o) e' (w', q) k.printed k.linked.linked
            k.watching.is_started (Ran-calm s u r k))
        (run_link loop finished s)
        (run_link-Ran loop finished (Outbox ps) (Outbox-Steady ps) serves s v x e y
          (record { valid = subst (All IsValid) (sym a) (w, tt); linked = l ∙ sym y })
          (subst (All (λ t. (is_fresh t ≡ true) × Outbox ps t)) (sym a) (f, tt)))
