-- ===== src/Connector/Service/Closing.antt =====
-- What `stop` of class Connector (src/AmqpConnector.cpp) leads to, for all its transceivers.
use amqp_cpp_asio.Base.{
  ℕ, ◌∙◌, ◌≡◌, ◌≢◌, refl, subst, Bool, true, false, Option, none, some, List, [], ◌∷◌, All, All-and,
  All-map, arith, length, Bool-cases, inl, inr, ◌⊎◌,
}
use amqp_cpp_asio.Transceiver.{Transceiver, recreate_channel, After, After-and, is_running}
use amqp_cpp_asio.Transceiver.Replies.{handle}
use amqp_cpp_asio.Transceiver.Control.{is_starting, drop, stop as stop_transceiver}
use amqp_cpp_asio.Transceiver.Invariant.{IsValid, stop-IsValid}
use amqp_cpp_asio.Transceiver.Progress.{
  is_waiting, answers-IsValid, answers-stopping, answers-waiting,
}
use amqp_cpp_asio.Connector.{normal}
use amqp_cpp_asio.Connector.Machine.{
  Connector, Call, leave, post_stop, stop_handler, disconnected, stop_connector, finish_stop,
  with_all, for_each,
}
use amqp_cpp_asio.Connector.Shutdown.{
  IsLinked, ending, Accounts-ending, exits, Gives, for_each-All, with_all-Gives,
}
use amqp_cpp_asio.Connector.Waiting.{stop-stopping, stopping-waiting}
use amqp_cpp_asio.Connector.Service.{Delivery, returns, wait_each, posted, stop}
use amqp_cpp_asio.Connector.Service.Rounds.{Serves, Wait}
use amqp_cpp_asio.Connector.Service.Returning.{Returns, and_run-Returns, then_run-Returns}
use amqp_cpp_asio.Connector.Service.Settling.{IsServed}
use amqp_cpp_asio.Connector.Service.Places.{AllRest, wait_each-AllRest}

-- Valid, and past its start for good.
abbrev pub Stopping : Transceiver → Type 0
Stopping t = IsValid t × (is_starting t.state ≡ false)

drop-Stopping :
    (t : Transceiver) → Stopping t → After (λ u. Stopping u × (is_running u ≡ false)) (drop t)
unfolding drop
drop-Stopping t (v, b) = ground arith

waiting-running : (t : Transceiver) → is_waiting t ≡ true → is_running t ≡ true
waiting-running t h = ground arith

closing : Wait is_running Stopping
closing = record {
  valid = λ t v. v.0;
  answered = λ r t a. waiting-running t (answers-waiting r t a);
  ended = λ t e. e;
  waiting = λ t v y. stopping-waiting t v.1 y;
  keep = λ r t (v, b) a.
      After-and IsValid (λ u. is_starting u.state ≡ false) (handle r t) (answers-IsValid r t v a)
        (answers-stopping r t v a b);
  keep_drop = drop-Stopping;
}

pub stop-Stopping :
    (t : Transceiver)
    → IsValid t × (t.state ≢ recreate_channel)
    → After Stopping (stop_transceiver t)
stop-Stopping t (v, n) =
    After-and IsValid (λ u. is_starting u.state ≡ false) (stop_transceiver t) (stop-IsValid t v)
      (stop-stopping t v n)

abbrev pub newest : List Call → Option Call
newest [] = none
newest (c ∷ cs) = some c

-- The connector is disconnected and all the exit callbacks were made, or it has told its handler to
-- stop, and this is so after the end of the connection, with or without an error of AMQP-CPP.
abbrev pub IsLeaving : ℕ → Bool → Connector → Type 0
IsLeaving owing error u =
    ((u.connection_handler_ready ≡ false) × (exits u.calls ≡ owing))
    ⊎ ((newest u.calls ≡ some stop_handler)
        × Gives (λ x. (x.connection_handler_ready ≡ false) × (exits x.calls ≡ owing))
            (disconnected error u))

abbrev pub Goodbye : ℕ → Bool → Connector → Type 0
Goodbye owing error u =
    IsLinked u
    × IsLeaving owing error u
    × All (λ t. IsValid t × (is_running t ≡ false)) u.transceivers

exits-left :
    (owing : ℕ) (u : Connector)
    → u.connection_handler_ready ≡ false
    → ending u ≡ owing
    → exits u.calls ≡ owing
exits-left owing u k e = ground arith

leave-Gives :
    (owing : ℕ) (error : Bool) (u : Connector)
    → u.connection_handler_ready ≡ true
    → ending u ≡ owing
    → Gives
        (λ x. (x.connection_handler_ready ≡ false) × (exits x.calls ≡ owing))
        (disconnected error (finish_stop false u))
unfolding finish_stop disconnected
leave-Gives owing error u y e = ground arith

pub finish_stop-ready :
    (u : Connector)
    → u.connection_handler_ready ≡ true
    → (exits (leave normal u).calls ≡ ending u) × (leave normal u ≡ finish_stop true u)
unfolding finish_stop
finish_stop-ready u y = (ground arith, ground arith)

pub finish_stop-left : (u : Connector) → u.connection_handler_ready ≡ false → u ≡ finish_stop true u
unfolding finish_stop
finish_stop-left u y = ground arith

abbrev pub AreEnded : List Transceiver → Type 0
AreEnded = All (λ t. IsValid t × (is_running t ≡ false))

module _ (begun : Connector) (loop : Connector → Delivery) (serves : Serves loop) where
  -- The posted function comes to its end.
  pub posted-Returns :
      (P : Connector → Type 0) (handler_stopped : Connector → Bool) (u : Connector)
      → IsServed begun u
      → All Stopping u.transceivers
      → ((x : Connector)
          → IsServed begun x
          → AreEnded x.transceivers
          → P (finish_stop (handler_stopped x) x))
      → Returns P (posted loop handler_stopped u)
  unfolding posted
  posted-Returns P handler_stopped u s a f =
      and_run-Returns
        (AllRest begun is_running Stopping closing loop serves (length u.transceivers)) P
        (λ x. returns (finish_stop (handler_stopped x) x))
        (wait_each is_running loop (length u.transceivers) 0 u)
        (λ x (v, (b, l)). f x v (
          All-map (λ t. Stopping t × (is_running t ≡ false))
            (λ t. IsValid t × (is_running t ≡ false)) (λ t ((y, z), e). (y, e)) x.transceivers b))
        (wait_each-AllRest begun is_running Stopping closing loop serves (length u.transceivers) 0 u
          (omega arith) s a tt)

module _ (begun : Connector) (up : begun.connection_handler_ready ≡ true) (error : Bool) where
  finish_stop-Goodbye :
      (stopped : Bool) (u : Connector)
      → IsServed begun u
      → AreEnded u.transceivers
      → Goodbye (ending begun) error (finish_stop stopped u)
  unfolding finish_stop
  finish_stop-Goodbye false u s a = (
    record { valid = s.linked.valid; linked = s.linked.linked },
    elim (Bool-cases u.connection_handler_ready) [
      | inl y ↦
          inr (refl, leave-Gives (ending begun) error u y (Accounts-ending begun u up s.accounted))
      | inr k ↦ inl (k, exits-left (ending begun) u k (Accounts-ending begun u up s.accounted))
    ],
    a,
  )
  finish_stop-Goodbye true u s a = elim (Bool-cases u.connection_handler_ready) [
    | inl y ↦
        let (e, q) = finish_stop-ready u y in
        subst (Goodbye (ending begun) error) q (
          record { valid = s.linked.valid; linked = refl },
          inl (refl, e ∙ Accounts-ending begun u up s.accounted),
          a,
        )
    | inr k ↦ subst (Goodbye (ending begun) error) (finish_stop-left u k) (
      s.linked,
      inl (k, exits-left (ending begun) u k (Accounts-ending begun u up s.accounted)),
      a,
    )
  ]

module _ (loop : Connector → Delivery) (serves : Serves loop) where
  -- If the event loop, while a transceiver waits, delivers an answer to a request that one of
  -- them waits for, or the end of the connection by an error of AMQP-CPP, then Connector::stop
  -- of a ready connector that is not exiting, with valid transceivers none of which is in
  -- recreate_channel, together with the function that it posts returns: every transceiver has
  -- ended, the flags of the connector hold together, and it is disconnected, at once or, where
  -- it has told its connection handler to stop, by the end of the connection, whether or not
  -- AMQP-CPP reports an error; the exit callbacks made are then those made before, plus one if
  -- the callback is set
  pub stop-Goodbye :
      (handler_stopped : Connector → Bool) (error : Bool) (c : Connector)
      → IsLinked c
      → c.connection_handler_ready ≡ true
      → c.exiting ≡ false
      → All (λ t. t.state ≢ recreate_channel) c.transceivers
      → Returns (Goodbye (ending c) error) (stop loop handler_stopped c)
  unfolding stop stop_connector
  stop-Goodbye handler_stopped error c v r e n = ground (
    arith,
    then_run-Returns
        (λ u. IsServed (record c { calls = post_stop ∷ c.calls }) u × All Stopping u.transceivers)
        (Goodbye (ending c) error) (posted loop handler_stopped)
        (with_all (λ u. record u { calls = post_stop ∷ u.calls }) c
          (for_each stop_transceiver c.transceivers))
        (λ u (s, b).
          let begun : Connector = record c { calls = post_stop ∷ c.calls } in
          posted-Returns begun loop serves (Goodbye (ending c) error) handler_stopped u s b
            (λ x w e. finish_stop-Goodbye begun r error (handler_stopped x) x w e))
        (with_all-Gives (λ u. record u { calls = post_stop ∷ u.calls })
          (λ u. IsServed (record c { calls = post_stop ∷ c.calls }) u × All Stopping u.transceivers)
          (All Stopping) c (for_each stop_transceiver c.transceivers)
          (λ us b. (
            record {
              linked = record {
                valid = All-map Stopping IsValid (λ t x. x.0) us b;
                linked = v.linked;
              };
              staying = e;
              serving = λ _. r;
              accounted = (refl, rw r refl);
            },
            b,
          ))
          (for_each-All stop_transceiver (λ t. IsValid t × (t.state ≢ recreate_channel)) Stopping
            stop-Stopping c.transceivers
            (All-and IsValid (λ t. t.state ≢ recreate_channel) c.transceivers v.valid n))),
  )
