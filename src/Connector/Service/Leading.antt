-- ===== src/Connector/Service/Leading.antt =====
-- What class Connector (src/AmqpConnector.cpp) tells of the end of its connection, whatever the event
-- loop delivers meanwhile.
pub mod Looping
use amqp_cpp_asio.Base.{
  ℕ, zero, suc, ◌*◌, ◌≡◌, refl, ◌∙◌, sym, ap, subst, Bool, true, false, Option, none, some, List,
  [], ◌∷◌, ◌++◌, All, arith, length, not, Bool-cases, inl, inr, if◌then◌else◌,
}
use mathlib.Core.List.{append_assoc}
use amqp_cpp_asio.Transceiver.{Transceiver, done, After, is_running}
use amqp_cpp_asio.Transceiver.Replies.{Reply, handle}
use amqp_cpp_asio.Transceiver.Control.{stop, drop}
use amqp_cpp_asio.Transceiver.Progress.{is_waiting}
use amqp_cpp_asio.Transceiver.Invariant.{
  IsValid, Timely, handle-IsValid, start-IsValid, stop-IsValid, drop-IsValid,
}
use amqp_cpp_asio.Connector.{ExitCode, amqp_error, normal}
use amqp_cpp_asio.Connector.Machine.{
  Connector, Call, exit_callback, post_stop, for_each, with_all, stop_connector, leave,
  disconnected, finish_stop,
}
use amqp_cpp_asio.Connector.Shutdown.{
  Gives-map, IsLinked, Gives, code_of, for_each-Each, prepend-Each, Each, with_all-Gives,
}
use amqp_cpp_asio.Connector.Service.Resting.{run-idle}
use amqp_cpp_asio.Connector.Service.{
  Delivery, replies, loses, Result, returns, crashes, exhausted, then_run, and_run, update_at,
  run_one, waits_at, wait_at, wait_each, start_idle, run, posted,
}

-- A reply that may come for the transceiver at a place.
abbrev pub TimelyAt : ℕ → Reply → List Transceiver → Type 0
TimelyAt i r [] = Unit {0}
TimelyAt zero r (t ∷ ts) = Timely r t
TimelyAt (suc i) r (t ∷ ts) = TimelyAt i r ts

abbrev pub Comes : Delivery → List Transceiver → Type 0
Comes (replies i r) ts = TimelyAt i r ts
Comes (loses error) ts = Unit {0}

-- What the event loop is relied on for: it delivers a reply only where it may come.
abbrev pub MayCome : (Connector → Delivery) → Type 0
MayCome loop = (c : Connector) → IsLinked c → Comes (loop c) c.transceivers

-- The codes that the application was told, the newest first.
abbrev pub codes_of : List Call → List ExitCode
codes_of [] = []
codes_of (exit_callback code ∷ cs) = code ∷ codes_of cs
codes_of (c ∷ cs) = codes_of cs

abbrev pub flag_after : Bool → List ExitCode → Bool
flag_after ready [] = ready
flag_after ready (code ∷ codes) = false

abbrev pub heard : Bool → List ExitCode → List ExitCode → List ExitCode
heard on_exit codes before = if on_exit then codes ++ before else before

-- From `c` to `u` the connection has ended with these codes, the newest first, and no transceiver was added
-- or removed.
pub record Leads (c : Connector) (codes : List ExitCode) (u : Connector) : Type 0 where
  pub linked : IsLinked u
  pub same : u.on_exit ≡ c.on_exit
  pub starting : u.on_started ≡ c.on_started
  pub flag : u.connection_handler_ready ≡ flag_after c.connection_handler_ready codes
  pub kept : length u.transceivers ≡ length c.transceivers
  pub told : codes_of u.calls ≡ heard c.on_exit codes (codes_of c.calls)

abbrev pub Led : Connector → Connector → Type 0
Led c u = (codes : List ExitCode) × Leads c codes u

-- A call may still wait for the event loop, but it follows no null pointer.
abbrev pub Keeps : (Connector → Type 0) → Result → Type 0
Keeps P (returns c) = P c
Keeps P crashes = ⊥
Keeps P exhausted = Unit {0}

pub Leads-refl : (c : Connector) → IsLinked c → Leads c [] c
Leads-refl c v = ground arith

flag_after-append :
    (b : Bool) (ks ls : List ExitCode) → flag_after (flag_after b ks) ls ≡ flag_after b (ls ++ ks)
flag_after-append b ks [] = refl
flag_after-append b ks (l ∷ ls) = refl

heard-append :
    (b : Bool) (ks ls cs : List ExitCode) → heard b ls (heard b ks cs) ≡ heard b (ls ++ ks) cs
heard-append true ks ls cs = sym (append_assoc ls ks cs)
heard-append false ks ls cs = refl

pub Leads-trans :
    (c u w : Connector) (ks ls : List ExitCode) → Leads c ks u → Leads u ls w → Leads c (ls ++ ks) w
Leads-trans c u w ks ls x y = record {
  linked = y.linked;
  same = y.same ∙ x.same;
  starting = y.starting ∙ x.starting;
  kept = y.kept ∙ x.kept;
  flag =
      y.flag
      ∙ ap (λ b. flag_after b ls) x.flag
      ∙ flag_after-append c.connection_handler_ready ks ls;
  told =
      y.told
      ∙ ap (λ b. heard b ls (codes_of u.calls)) x.same
      ∙ ap (heard c.on_exit ls) x.told
      ∙ heard-append c.on_exit ks ls (codes_of c.calls);
}

abbrev codes_at : Option ExitCode → List ExitCode
codes_at none = []
codes_at (some code) = code ∷ []

stop_all-Leads :
    (c : Connector)
    → IsLinked c
    → Gives
        (Leads c [])
        (with_all (λ u. record u { calls = post_stop ∷ u.calls }) c (for_each stop c.transceivers))
stop_all-Leads c v =
    with_all-Gives (λ u. record u { calls = post_stop ∷ u.calls }) (Leads c [])
      (Each IsValid (length c.transceivers)) c (for_each stop c.transceivers)
      (λ ts w. record {
        linked = record { valid = w.0; linked = v.linked };
        same = refl;
        starting = refl;
        flag = refl;
        kept = w.1;
        told = ground arith;
      })
      (for_each-Each stop IsValid IsValid stop-IsValid c.transceivers v.valid)

drop_all-Leads :
    (c : Connector)
    → IsLinked c
    → Gives
        (Leads c (amqp_error ∷ []))
        (with_all (leave amqp_error) c (for_each drop c.transceivers))
drop_all-Leads c v =
    with_all-Gives (leave amqp_error) (Leads c (amqp_error ∷ []))
      (Each IsValid (length c.transceivers)) c (for_each drop c.transceivers)
      (λ ts w. record {
        linked = record { valid = w.0; linked = refl };
        same = refl;
        starting = refl;
        flag = refl;
        kept = w.1;
        told = ground arith;
      })
      (for_each-Each drop IsValid IsValid drop-IsValid c.transceivers v.valid)

pub stop_connector-Leads : (c : Connector) → IsLinked c → Gives (Leads c []) (stop_connector c)
unfolding stop_connector
stop_connector-Leads c v = ground (arith, stop_all-Leads c v)

pub disconnected-Leads :
    (error : Bool) (c : Connector)
    → IsLinked c
    → Gives
        (Leads c (codes_at (code_of c.exiting c.connection_handler_ready error)))
        (disconnected error c)
unfolding disconnected
disconnected-Leads error c v = ground (arith, drop_all-Leads c v, stop_connector-Leads c v)

update_at-IsValid :
    (i : ℕ) (r : Reply) (ts : List Transceiver)
    → TimelyAt i r ts
    → All IsValid ts
    → Gives (Each IsValid (length ts)) (update_at (handle r) i ts)
update_at-IsValid i r [] h v = (tt, refl)
update_at-IsValid zero r (t ∷ ts) h (v, vs) =
    prepend-Each IsValid (length ts) (handle r t) (some ts) (handle-IsValid r t h v) (vs, refl)
update_at-IsValid (suc i) r (t ∷ ts) h (v, vs) =
    prepend-Each IsValid (length ts) (done t) (update_at (handle r) i ts) v
      (update_at-IsValid i r ts h vs)

pub run_one-Led :
    (d : Delivery) (c : Connector)
    → IsLinked c
    → Comes d c.transceivers
    → Gives (Led c) (run_one d c)
unfolding run_one
run_one-Led (replies i r) c v h =
    with_all-Gives (λ u. u) (Led c) (Each IsValid (length c.transceivers)) c
      (update_at (handle r) i c.transceivers)
      (λ ts w. (
        [],
        record {
          linked = record { valid = w.0; linked = v.linked };
          same = refl;
          starting = refl;
          flag = refl;
          kept = w.1;
          told = ground arith;
        },
      ))
      (update_at-IsValid i r c.transceivers h v.valid)
run_one-Led (loses error) c v h =
    Gives-map (Leads c (codes_at (code_of c.exiting c.connection_handler_ready error))) (Led c)
      (λ u x. (codes_at (code_of c.exiting c.connection_handler_ready error), x))
      (disconnected error c) (disconnected-Leads error c v)
