-- ===== src/Connector/Service/Leading/Looping.antt =====
-- What the loops of class Connector (src/AmqpConnector.cpp) tell of the end of its connection.
use amqp_cpp_asio.Base.{
  ℕ, zero, suc, ◌*◌, refl, sym, subst, Bool, true, false, Option, none, some, [], ◌∷◌, ◌++◌, arith,
  length, not, Bool-cases, inl, inr, if◌then◌else◌,
}
use amqp_cpp_asio.Transceiver.{Transceiver, After, is_running}
use amqp_cpp_asio.Transceiver.Progress.{is_waiting}
use amqp_cpp_asio.Transceiver.Invariant.{IsValid, start-IsValid}
use amqp_cpp_asio.Connector.{normal}
use amqp_cpp_asio.Connector.Machine.{Connector, for_each, with_all, leave, finish_stop}
use amqp_cpp_asio.Connector.Shutdown.{IsLinked, Gives, for_each-Each, Each, with_all-Gives}
use amqp_cpp_asio.Connector.Service.Resting.{run-idle}
use amqp_cpp_asio.Connector.Service.{
  Delivery, Result, returns, crashes, exhausted, then_run, and_run, run_one, waits_at, wait_at,
  wait_each, start_idle, run, posted,
}
use amqp_cpp_asio.Connector.Service.Leading.{
  MayCome, Led, Keeps, Leads-refl, Leads-trans, run_one-Led,
}

-- Two calls, one after the other.
Led-trans : (c u w : Connector) → Led c u → Led u w → Led c w
Led-trans c u w (ks, x) (ls, y) = (ls ++ ks, Leads-trans c u w ks ls x y)

pub Keeps-map :
    (P Q : Connector → Type 0)
    → ((c : Connector) → P c → Q c)
    → (o : Result) → Keeps P o
    → Keeps Q o
Keeps-map P Q f (returns c) p = f c p
Keeps-map P Q f crashes p = p
Keeps-map P Q f exhausted p = p

then_run-Led :
    (c : Connector) (f : Connector → Result) (o : Option Connector)
    → ((u : Connector) → IsLinked u → Keeps (Led u) (f u))
    → Gives (Led c) o
    → Keeps (Led c) (then_run f o)
then_run-Led c f none g x = x
then_run-Led c f (some u) g (ks, x) =
    Keeps-map (Led u) (Led c) (λ w y. Led-trans c u w (ks, x) y) (f u) (g u x.linked)

and_run-Led :
    (c : Connector) (f : Connector → Result) (o : Result)
    → ((u : Connector) → IsLinked u → Keeps (Led u) (f u))
    → Keeps (Led c) o
    → Keeps (Led c) (and_run f o)
and_run-Led c f (returns u) g (ks, x) =
    Keeps-map (Led u) (Led c) (λ w y. Led-trans c u w (ks, x) y) (f u) (g u x.linked)
and_run-Led c f crashes g x = x
and_run-Led c f exhausted g x = x

start_idle-IsValid :
    (connection : Option ℕ) (t : Transceiver) → IsValid t → After IsValid (start_idle connection t)
start_idle-IsValid connection t v = ground (arith, start-IsValid connection t v)

finish_stop-Led : (stopped : Bool) (c : Connector) → IsLinked c → Led c (finish_stop stopped c)
unfolding finish_stop
finish_stop-Led false c v = ([], ground arith)
finish_stop-Led true c v = elim (Bool-cases c.connection_handler_ready) [
  | inl y ↦ subst (λ b. Led c (if b then leave normal c else c)) (sym y) (normal ∷ [], ground arith)
  | inr k ↦ subst (λ b. Led c (if b then leave normal c else c)) (sym k) ([], Leads-refl c v)
]

module _ (loop : Connector → Delivery) (comes : MayCome loop) where
  wait_at-Led :
      (p : Transceiver → Bool) (i n : ℕ) (c : Connector)
      → IsLinked c
      → Keeps (Led c) (wait_at p loop i n c)
  unfolding wait_at
  wait_at-Led p i zero c v = elim (Bool-cases (waits_at p i c.transceivers)) [
    | inl y ↦ rw y tt
    | inr k ↦ rw k ([], Leads-refl c v)
  ]
  wait_at-Led p i (suc n) c v = elim (Bool-cases (waits_at p i c.transceivers)) [
    | inl y ↦
        rw (y, wait_at)
          (then_run-Led c (wait_at p loop i n) (run_one (loop c) c) (wait_at-Led p i n)
            (run_one-Led (loop c) c v (comes c v)))
    | inr k ↦ rw (k, wait_at) ([], Leads-refl c v)
  ]

  wait_each-Led :
      (p : Transceiver → Bool) (k i : ℕ) (c : Connector)
      → IsLinked c
      → Keeps (Led c) (wait_each p loop k i c)
  unfolding wait_each
  wait_each-Led p zero i c v = ([], Leads-refl c v)
  wait_each-Led p (suc k) i c v =
      and_run-Led c (wait_each p loop k (suc i)) (wait_at p loop i (11 * length c.transceivers) c)
        (wait_each-Led p k (suc i)) (wait_at-Led p i (11 * length c.transceivers) c v)

  pub run-Led : (c : Connector) → IsLinked c → Keeps (Led c) (run loop c)
  unfolding run
  run-Led c v = elim (Bool-cases c.connection_handler_ready) [
    | inl y ↦
        subst
          (λ b. Keeps (Led c) (
            if not b
            then returns c
            else then_run (λ u. wait_each is_waiting loop (length u.transceivers) 0 u)
                (with_all (λ u. u) (record c { work = true })
                  (for_each (start_idle c.amqp_connection) c.transceivers))))
          (sym y)
          (then_run-Led c (λ u. wait_each is_waiting loop (length u.transceivers) 0 u)
            (with_all (λ u. u) (record c { work = true })
              (for_each (start_idle c.amqp_connection) c.transceivers))
            (λ u w. wait_each-Led is_waiting (length u.transceivers) 0 u w)
            (with_all-Gives (λ u. u) (Led c) (Each IsValid (length c.transceivers))
              (record c { work = true }) (for_each (start_idle c.amqp_connection) c.transceivers)
              (λ ts w. (
                [],
                record {
                  linked = record { valid = w.0; linked = v.linked };
                  same = refl;
                  starting = refl;
                  flag = refl;
                  kept = w.1;
                  told = ground arith;
                },
              ))
              (for_each-Each (start_idle c.amqp_connection) IsValid IsValid
                (start_idle-IsValid c.amqp_connection) c.transceivers v.valid)))
    | inr k ↦ subst (Keeps (Led c)) (sym (run-idle loop c k)) ([], Leads-refl c v)
  ]

  pub posted-Led :
      (handler_stopped : Connector → Bool) (c : Connector)
      → IsLinked c
      → Keeps (Led c) (posted loop handler_stopped c)
  unfolding posted
  posted-Led handler_stopped c v =
      and_run-Led c (λ u. returns (finish_stop (handler_stopped u) u))
        (wait_each is_running loop (length c.transceivers) 0 c)
        (λ u w. finish_stop-Led (handler_stopped u) u w)
        (wait_each-Led is_running (length c.transceivers) 0 c v)
