-- ===== src/Connector/Service/Resting.antt =====
-- What `run` of class Connector (src/AmqpConnector.cpp) leads to, for all its transceivers.
use amqp_cpp_asio.Base.{
  ℕ, ◌≡◌, refl, subst, Bool, true, false, ◌||◌, not, Option, All, All-and, All-map, arith, length,
  Bool-cases, inl, inr,
}
use amqp_cpp_asio.Transceiver.{Transceiver, After, After-and, After-map, is_running}
use amqp_cpp_asio.Transceiver.Replies.{Reply, handle}
use amqp_cpp_asio.Transceiver.Control.{is_starting, start, drop}
use amqp_cpp_asio.Transceiver.Invariant.{IsValid, start-IsValid, drop-IsValid}
use amqp_cpp_asio.Transceiver.Progress.{
  is_waiting, is_blamed, answers, answers-IsValid, answers-blamed, answers-waiting,
}
use amqp_cpp_asio.Connector.Machine.{Connector, with_all, for_each}
use amqp_cpp_asio.Connector.Shutdown.{IsLinked, Each, for_each-Each, with_all-Gives}
use amqp_cpp_asio.Connector.Waiting.{Opened, rests-Opened, start-blamed}
use amqp_cpp_asio.Connector.Service.{Delivery, returns, wait_each, start_idle, run}
use amqp_cpp_asio.Connector.Service.Rounds.{Serves, Wait}
use amqp_cpp_asio.Connector.Service.Returning.{Returns, Returns-map, then_run-Returns}
use amqp_cpp_asio.Connector.Service.Settling.{IsServed}
use amqp_cpp_asio.Connector.Service.Places.{AllRest, wait_each-AllRest}

-- `run` of a connector that is not ready.
pub run-idle :
    (loop : Connector → Delivery) (c : Connector)
    → c.connection_handler_ready ≡ false
    → run loop c ≡ returns c
unfolding run
run-idle loop c r = rw r refl

-- Valid, and past its start only with an error on record.
abbrev Blamed : Transceiver → Type 0
Blamed t = IsValid t × (is_blamed t ≡ true)

drop-Blamed : (t : Transceiver) → Blamed t → After (λ u. Blamed u × (is_running u ≡ false)) (drop t)
unfolding drop
drop-Blamed t (v, b) = ground arith

-- What a transceiver keeps while it is opened and answered.
pub record Steady (Q : Transceiver → Type 0) : Type 0 where
  pub on_reply :
      (r : Reply) (t : Transceiver) → IsValid t → answers t r ≡ true → Q t → After Q (handle r t)
  pub on_drop : (t : Transceiver) → IsValid t → Q t → After Q (drop t)
  pub on_start :
      (connection : Option ℕ) (t : Transceiver) → IsValid t → Q t → After Q (start connection t)

-- Not running, or on the way to be ready.
abbrev pub is_fresh : Transceiver → Bool
is_fresh t = not (is_running t) || is_starting t.state

module _ (Q : Transceiver → Type 0) (q : Steady Q) where
  -- What the loops keep of each transceiver.
  abbrev Kept : Transceiver → Type 0
  Kept t = Blamed t × Q t

  handle-Kept :
      (r : Reply) (t : Transceiver) → Kept t → answers t r ≡ true → After Kept (handle r t)
  handle-Kept r t ((v, b), x) a =
      After-and Blamed Q (handle r t)
        (After-and IsValid (λ u. is_blamed u ≡ true) (handle r t) (answers-IsValid r t v a)
          (answers-blamed r t v a b))
        (q.on_reply r t v a x)

  drop-Kept : (t : Transceiver) → Kept t → After (λ u. Kept u × (is_running u ≡ false)) (drop t)
  drop-Kept t (b, x) =
      After-map (λ u. (Blamed u × (is_running u ≡ false)) × Q u)
        (λ u. Kept u × (is_running u ≡ false)) (λ u ((c, e), y). ((c, y), e)) (drop t)
        (After-and (λ u. Blamed u × (is_running u ≡ false)) Q (drop t) (drop-Blamed t b)
          (q.on_drop t b.0 x))

  opening : Wait is_waiting Kept
  opening = record {
    valid = λ t v. v.0.0;
    answered = answers-waiting;
    ended = λ t e. ground arith;
    waiting = λ t v y. y;
    keep = handle-Kept;
    keep_drop = drop-Kept;
  }

  start_idle-Kept :
      (connection : Option ℕ) (t : Transceiver)
      → IsValid t × ((is_fresh t ≡ true) × Q t)
      → After Kept (start_idle connection t)
  start_idle-Kept connection t (v, (f, x)) = elim (Bool-cases (is_running t)) [
    | inl y ↦ rw y ((v, ground arith), x)
    | inr k ↦ rw k (
        After-and Blamed Q (start connection t)
          (After-and IsValid (λ u. is_blamed u ≡ true) (start connection t)
            (start-IsValid connection t v) (start-blamed connection t v k))
          (q.on_start connection t v x))
  ]

  module _ (loop : Connector → Delivery) (serves : Serves loop) where
    -- What a loop over all transceivers starts from.
    abbrev Begun : Connector → ℕ → Connector → Type 0
    Begun begun k u = IsServed begun u × Each Kept k u.transceivers

    -- Each transceiver is ready and reports no error, or it has ended and reports an error.
    abbrev pub Opens : Connector → ℕ → Connector → Type 0
    Opens begun k u = IsServed begun u × Each (λ t. (IsValid t × Opened t) × Q t) k u.transceivers

    rests-Opens :
        (c : Connector) (k : ℕ) (x : Connector)
        → AllRest c is_waiting Kept opening loop serves k x
        → Opens c k x
    rests-Opens c k x (s, (a, l)) = (
      s,
      (
        All-map (λ t. Kept t × (is_waiting t ≡ false)) (λ t. (IsValid t × Opened t) × Q t)
            (λ t (((v, b), x), y). (rests-Opened t (v, b, y), x)) x.transceivers a,
        l,
      ),
    )

    pub run-Opens :
        (c : Connector)
        → IsLinked c
        → c.connection_handler_ready ≡ true
        → c.exiting ≡ false
        → All (λ t. (is_fresh t ≡ true) × Q t) c.transceivers
        → Returns (Opens c (length c.transceivers)) (run loop c)
    unfolding run
    run-Opens c v r e f =
        let k : ℕ = length c.transceivers in
        ground (
          arith,
          then_run-Returns (Begun c k) (Opens c k)
              (λ u. wait_each is_waiting loop (length u.transceivers) 0 u)
              (with_all (λ u. u) (record c { work = true })
                (for_each (start_idle c.amqp_connection) c.transceivers))
              (λ u (s, (b, l)).
                Returns-map (AllRest c is_waiting Kept opening loop serves k) (Opens c k)
                  (rests-Opens c k) (wait_each is_waiting loop (length u.transceivers) 0 u)
                  (subst
                    (λ n.
                      Returns (AllRest c is_waiting Kept opening loop serves n)
                        (wait_each is_waiting loop (length u.transceivers) 0 u))
                    l
                    (wait_each-AllRest c is_waiting Kept opening loop serves (length u.transceivers)
                      0 u (omega arith) s b tt)))
              (with_all-Gives (λ u. u) (Begun c k) (Each Kept k) (record c { work = true })
                (for_each (start_idle c.amqp_connection) c.transceivers)
                (λ us (b, l). (
                  record {
                    linked = record {
                      valid = All-map Kept IsValid (λ t x. x.0.0) us b;
                      linked = v.linked;
                    };
                    staying = e;
                    serving = λ _. r;
                    accounted = (refl, rw r refl);
                  },
                  (b, l),
                ))
                (for_each-Each (start_idle c.amqp_connection)
                  (λ t. IsValid t × ((is_fresh t ≡ true) × Q t)) Kept
                  (start_idle-Kept c.amqp_connection) c.transceivers
                  (All-and IsValid (λ t. (is_fresh t ≡ true) × Q t) c.transceivers v.valid f))),
        )

-- What any transceiver keeps.
nothing : Steady (λ t. Unit {0})
nothing = record {
  on_reply = λ r t v a x.
      After-map IsValid (λ u. Unit {0}) (λ u w. tt) (handle r t) (answers-IsValid r t v a);
  on_drop = λ t v x. After-map IsValid (λ u. Unit {0}) (λ u w. tt) (drop t) (drop-IsValid t v);
  on_start =
      λ c t v x. After-map IsValid (λ u. Unit {0}) (λ u w. tt) (start c t) (start-IsValid c t v);
}

-- If the event loop, while a transceiver waits, delivers an answer to a request that one of them
-- waits for, or the end of the connection by an error of AMQP-CPP, then Connector::run of a
-- ready connector that is not exiting, with valid transceivers that do not run or are on their
-- way to be ready, returns: each transceiver is then ready and reports no error, or it has ended
-- and reports an error; the flags of the connector still hold together, a connector that is not
-- ready has no transceiver that runs, and nothing was called since but, if the connection was
-- lost and an exit callback is set, this one once with eAmqpError
pub run-Opened :
    (loop : Connector → Delivery)
    → Serves loop
    → (c : Connector) → IsLinked c
    → c.connection_handler_ready ≡ true
    → c.exiting ≡ false
    → All (λ t. is_fresh t ≡ true) c.transceivers
    → Returns (λ u. IsServed c u × All (λ t. IsValid t × Opened t) u.transceivers) (run loop c)
run-Opened loop serves c v r e f =
    Returns-map (Opens (λ t. Unit {0}) nothing loop serves c (length c.transceivers))
      (λ u. IsServed c u × All (λ t. IsValid t × Opened t) u.transceivers)
      (λ u (s, (a, l)). (
        s,
        All-map (λ t. (IsValid t × Opened t) × Unit {0}) (λ t. IsValid t × Opened t) (λ t x. x.0)
            u.transceivers a,
      ))
      (run loop c)
      (run-Opens (λ t. Unit {0}) nothing loop serves c v r e
        (All-map (λ t. is_fresh t ≡ true) (λ t. (is_fresh t ≡ true) × Unit {0}) (λ t x. (x, tt))
          c.transceivers f))
