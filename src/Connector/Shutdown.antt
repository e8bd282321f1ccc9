-- ===== src/Connector/Shutdown.antt =====
-- How class Connector takes the end of its connection (src/AmqpConnector.cpp).
use amqp_cpp_asio.Base.{
  ℕ, suc, length, ◌+◌, Bool, true, false, Option, none, some, List, [], ◌∷◌, ◌≡◌, refl, not, is_set,
  All, arith, if◌then◌else◌,
}
use amqp_cpp_asio.Transceiver.{Transceiver, Outcome, done, fault, After, is_running}
use amqp_cpp_asio.Transceiver.Control.{stop, drop}
use amqp_cpp_asio.Transceiver.Invariant.{IsValid, stop-IsValid}
use amqp_cpp_asio.Connector.{ExitCode, normal, broker_connect_error, amqp_error}
use amqp_cpp_asio.Connector.Machine.{
  Connector, Call, exit_callback, post_stop, prepend, for_each, with_all, stop_connector, leave,
  disconnected,
}

-- The transceivers are valid, and there is a connection exactly while the connector is ready.
pub record IsLinked (c : Connector) : Type 0 where
  pub valid : All IsValid c.transceivers
  pub linked : is_set c.amqp_connection ≡ c.connection_handler_ready

abbrev pub Gives {ℓ} : {A : Type ℓ} → (A → Type 0) → Option A → Type 0
Gives P none = ⊥
Gives P (some a) = P a

prepend-All :
    (P : Transceiver → Type 0) (o : Outcome) (ts : Option (List Transceiver))
    → After P o
    → Gives (All P) ts
    → Gives (All P) (prepend o ts)
prepend-All P (done t) (some ts) p q = (p, q)
prepend-All P (done t) none p q = q
prepend-All P fault ts p q = absurd p

module _ (f : Transceiver → Outcome) (V P : Transceiver → Type 0)
    (each : (t : Transceiver) → V t → After P (f t)) where
  pub for_each-All : (ts : List Transceiver) → All V ts → Gives (All P) (for_each f ts)
  for_each-All [] v = tt
  for_each-All (t ∷ ts) (v, w) = prepend-All P (f t) (for_each f ts) (each t v) (for_each-All ts w)

-- As many transceivers are left, with `P` of each.
abbrev pub Each : (Transceiver → Type 0) → ℕ → List Transceiver → Type 0
Each P k us = All P us × (length us ≡ k)

pub prepend-Each :
    (P : Transceiver → Type 0) (k : ℕ) (o : Outcome) (us : Option (List Transceiver))
    → After P o
    → Gives (Each P k) us
    → Gives (Each P (suc k)) (prepend o us)
prepend-Each P k (done t) (some us) v (a, b) = ((v, a), omega arith)
prepend-Each P k (done t) none v a = a
prepend-Each P k fault us v a = absurd v

module _ (f : Transceiver → Outcome) (V P : Transceiver → Type 0)
    (each : (t : Transceiver) → V t → After P (f t)) where
  pub for_each-Each :
      (ts : List Transceiver) → All V ts → Gives (Each P (length ts)) (for_each f ts)
  for_each-Each [] v = (tt, refl)
  for_each-Each (t ∷ ts) (v, vs) =
      prepend-Each P (length ts) (f t) (for_each f ts) (each t v) (for_each-Each ts vs)

pub with_all-Gives :
    (next : Connector → Connector) (P : Connector → Type 0) (R : List Transceiver → Type 0)
    (c : Connector) (o : Option (List Transceiver))
    → ((ts : List Transceiver) → R ts → P (next (record c { transceivers = ts })))
    → Gives R o
    → Gives P (with_all next c o)
with_all-Gives next P R c none h q = absurd q
with_all-Gives next P R c (some ts) h q = h ts q

pub Gives-map :
    (P Q : Connector → Type 0)
    → ((c : Connector) → P c → Q c)
    → (o : Option Connector) → Gives P o
    → Gives Q o
Gives-map P Q f none p = p
Gives-map P Q f (some c) p = f c p

-- Valid and ended.
abbrev pub Ended : Transceiver → Type 0
Ended t = IsValid t × (is_running t ≡ false)

pub All-first : (ts : List Transceiver) → All Ended ts → All IsValid ts
All-first [] w = tt
All-first (t ∷ ts) ((v, e), w) = (v, All-first ts w)

pub drop-Ended : (t : Transceiver) → IsValid t → After Ended (drop t)
unfolding drop
drop-Ended t v = ground arith

-- The exit code with which a connector takes the end of its connection, if it does not stop first.
abbrev pub code_of : Bool → Bool → Bool → Option ExitCode
code_of exiting ready error =
    if exiting
    then some normal
    else if not ready
    then some broker_connect_error
    else if error
    then some amqp_error
    else none

abbrev pub told : Bool → ExitCode → List Call → List Call
told on_exit code cs = if on_exit then exit_callback code ∷ cs else cs

-- The exit callbacks that were made.
abbrev pub exits : List Call → ℕ
exits [] = 0
exits (exit_callback code ∷ cs) = exits cs + 1
exits (c ∷ cs) = exits cs

-- The exit callback is still to come while the connector is ready, if it is set.
abbrev pub owed : Connector → ℕ
owed c = if c.connection_handler_ready then (if c.on_exit then 1 else 0) else 0

abbrev pub ending : Connector → ℕ
ending c = exits c.calls + owed c

-- Since `begun`, which was ready, nothing was called but the exit callback, if the connection was lost
-- by an error of AMQP-CPP.
abbrev pub Accounts : Connector → Connector → Type 0
Accounts begun c =
    (c.on_exit ≡ begun.on_exit)
    × (c.calls ≡ (
        if c.connection_handler_ready
        then begun.calls
        else told begun.on_exit amqp_error begun.calls))

pub Accounts-ending :
    (begun c : Connector)
    → begun.connection_handler_ready ≡ true
    → Accounts begun c
    → ending c ≡ ending begun
Accounts-ending begun c y a = ground arith

-- What the end of the connection leaves.
abbrev pub Left : Connector → Option ExitCode → Connector → Type 0
Left c none u =
    (u.connection_handler_ready ≡ true) × (u.on_exit ≡ c.on_exit) × (u.calls ≡ post_stop ∷ c.calls)
Left c (some code) u =
    (u.connection_handler_ready ≡ false)
    × (u.work ≡ false)
    × (u.calls ≡ told c.on_exit code c.calls)
    × (code ≡ amqp_error → All Ended u.transceivers)

pub stop_connector-Left :
    (c : Connector)
    → IsLinked c
    → c.connection_handler_ready ≡ true
    → Gives (λ u. IsLinked u × Left c none u) (stop_connector c)
unfolding stop_connector
stop_connector-Left c v r = ground (
  arith,
  with_all-Gives (λ u. record u { calls = post_stop ∷ u.calls }) (λ u. IsLinked u × Left c none u)
      (All IsValid) c (for_each stop c.transceivers)
      (λ ts w. (record { valid = w; linked = v.linked }, (r, refl, refl)))
      (for_each-All stop IsValid IsValid stop-IsValid c.transceivers v.valid),
)

drop_all-Left :
    (c : Connector)
    → IsLinked c
    → Gives
        (λ u. IsLinked u × Left c (some amqp_error) u)
        (with_all (leave amqp_error) c (for_each drop c.transceivers))
drop_all-Left c v =
    with_all-Gives (leave amqp_error) (λ u. IsLinked u × Left c (some amqp_error) u) (All Ended) c
      (for_each drop c.transceivers)
      (λ ts w. (record { valid = All-first ts w; linked = refl }, (refl, refl, refl, λ e. w)))
      (for_each-All drop IsValid Ended drop-Ended c.transceivers v.valid)

-- When the connection of a connector with valid transceivers and linked flags ends, onShutdown
-- follows no null pointer and, in this order of tests, ends with eNormal while exiting, with
-- eBrokerConnectError while not ready, and with eAmqpError after an error of AMQP-CPP: the
-- connection is released and the exit callback is called once if it is set, and after eAmqpError
-- every transceiver has ended; otherwise the connector stays ready and posts the rest of its
-- stop
pub disconnected-Left :
    (error : Bool) (c : Connector)
    → IsLinked c
    → Gives
        (λ u. IsLinked u × Left c (code_of c.exiting c.connection_handler_ready error) u)
        (disconnected error c)
unfolding disconnected
disconnected-Left error c v = ground (arith, drop_all-Left c v, stop_connector-Left c v)
