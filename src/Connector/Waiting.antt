-- ===== src/Connector/Waiting.antt =====
-- What `Connector::open` and `Connector::close` lead to (src/AmqpConnector.cpp).
use amqp_cpp_asio.Base.{
  ℕ, zero, suc, ◌≡◌, ◌≢◌, ◌≤◌, ◌<◌, Bool, true, false, Option, none, some, arith, ◌⊎◌, Bool-cases,
  inl, inr,
}
use amqp_cpp_asio.Transceiver.{
  recreate_channel, Transceiver, Outcome, done, fault, After, After-map, no_error, is_running,
  is_ready,
}
use amqp_cpp_asio.Transceiver.Replies.{Reply, handle}
use amqp_cpp_asio.Transceiver.Control.{is_starting, start, stop}
use amqp_cpp_asio.Transceiver.Invariant.{IsValid, handle-IsValid, start-IsValid, stop-IsValid}
use amqp_cpp_asio.Transceiver.Progress.{
  answers, is_waiting, rank, is_error, is_blamed, agrees, waiting-rank, answers-Timely,
  answers-rank, answers-blamed, answers-starting, answers-stopping, rank-le,
}
use amqp_cpp_asio.Connector.Loops.{await, and_await, open_transceiver, close_transceiver}

-- The call returns, and leaves members of which `P` holds.
abbrev pub Returns : (Transceiver → Type 0) → Option Outcome → Type 0
Returns P none = ⊥
Returns P (some o) = After P o

-- What the event loop is relied on for: while a request is waited for, it delivers an answer.
abbrev pub Serves : (Transceiver → Reply) → Type 0
Serves broker = (t : Transceiver) → IsValid t → is_waiting t ≡ true → answers t (broker t) ≡ true

module _ (waits : Transceiver → Bool) (broker : Transceiver → Reply) (serves : Serves broker)
    (P : Transceiver → Type 0)
    (waiting : (t : Transceiver) → IsValid t → P t → waits t ≡ true → is_waiting t ≡ true)
    (keep : (t : Transceiver)
      → IsValid t
      → answers t (broker t) ≡ true
      → P t
      → After P (handle (broker t) t)) where
  -- The loop is over, the members are valid, and of them `P` holds.
  abbrev Rests : Transceiver → Type 0
  Rests u = IsValid u × P u × (waits u ≡ false)

  abbrev go_on : ℕ → Outcome → Option Outcome
  go_on n o = elim o [ done u ↦ await waits broker n u | fault ↦ some fault ]

  -- A round of the loop, from what holds of the reply that was handled.
  round :
      (n k : ℕ) (o : Outcome)
      → ((u : Transceiver) → rank u ≤ n → IsValid u → P u → Returns Rests (await waits broker n u))
      → k ≤ suc n
      → After IsValid o
      → After (λ u. rank u < k) o
      → After P o
      → Returns Rests (go_on n o)
  round n k (done u) rest le v lt p = rest u (omega arith) v p
  round n k fault rest le v lt p = v

  await-Rests :
      (n : ℕ) (t : Transceiver)
      → rank t ≤ n
      → IsValid t
      → P t
      → Returns Rests (await waits broker n t)
  unfolding await
  await-Rests zero t le v p = elim (Bool-cases (waits t)) [
    | inl y ↦ absurd (omega (arith, waiting-rank t v (waiting t v p y)))
    | inr k ↦ rw k (v, p, k)
  ]
  await-Rests (suc n) t le v p = elim (Bool-cases (waits t)) [
    | inl y ↦
        let a : answers t (broker t) ≡ true = serves t v (waiting t v p y) in
        rw (y, await)
          (round n (rank t) (handle (broker t) t) (await-Rests n) le
            (handle-IsValid (broker t) t (answers-Timely (broker t) t v a) v)
            (answers-rank (broker t) t v a) (keep t v a p))
    | inr k ↦ rw (k, await) (v, p, k)
  ]

  and_await-Rests :
      (o : Outcome) → After IsValid o → After P o → Returns Rests (and_await waits broker o)
  and_await-Rests (done t) v p = await-Rests 11 t (rank-le t) v p
  and_await-Rests fault v p = v

Returns-map :
    (P Q : Transceiver → Type 0)
    → ((t : Transceiver) → P t → Q t)
    → (o : Option Outcome) → Returns P o
    → Returns Q o
Returns-map P Q f none h = absurd h
Returns-map P Q f (some o) h = After-map P Q f o h

-- Open with no error recorded, or ended with one.
abbrev pub Opened : Transceiver → Type 0
Opened t =
    ((is_ready t ≡ true) × (t.ec ≡ no_error)) ⊎ ((is_running t ≡ false) × (is_error t.ec ≡ true))

pub rests-Opened :
    (t : Transceiver)
    → IsValid t × (is_blamed t ≡ true) × (is_waiting t ≡ false)
    → IsValid t × Opened t
rests-Opened t (v, b, w) = (v, ground arith)

pub start-blamed :
    (c : Option ℕ) (t : Transceiver)
    → IsValid t
    → is_running t ≡ false
    → After (λ u. is_blamed u ≡ true) (start c t)
unfolding start
start-blamed c t v e = ground arith

pub stop-stopping :
    (t : Transceiver)
    → IsValid t
    → t.state ≢ recreate_channel
    → After (λ u. is_starting u.state ≡ false) (stop t)
unfolding stop
stop-stopping t v h = ground arith

stop-starting :
    (t : Transceiver)
    → IsValid t
    → t.state ≡ recreate_channel
    → After (λ u. is_starting u.state ≡ true) (stop t)
unfolding stop
stop-starting t v h = ground arith

abbrev pub Agrees : (Transceiver → Reply) → Type 0
Agrees broker = (t : Transceiver) → agrees (broker t) ≡ true

start-starting :
    (c : ℕ) (t : Transceiver)
    → IsValid t
    → is_running t ≡ false
    → After (λ u. is_starting u.state ≡ true) (start (some c) t)
unfolding start
start-starting c t v e = ground arith

rests-ready :
    (t : Transceiver)
    → IsValid t × (is_starting t.state ≡ true) × (is_waiting t ≡ false)
    → IsValid t × (is_ready t ≡ true) × (t.ec ≡ no_error)
rests-ready t (v, b, w) = (v, ground arith, ground arith)

rests-ended :
    (t : Transceiver)
    → IsValid t × (is_starting t.state ≡ false) × (is_running t ≡ false)
    → IsValid t × (is_running t ≡ false)
rests-ended t (v, b, w) = (v, w)

pub stopping-waiting :
    (t : Transceiver) → is_starting t.state ≡ false → is_running t ≡ true → is_waiting t ≡ true
stopping-waiting t b w = ground arith

module _ (broker : Transceiver → Reply) (serves : Serves broker) where
  -- If the event loop delivers an answer to each request that is waited for, Connector::open of
  -- a valid transceiver that does not run returns, on a connected connector and whatever the
  -- answers are: the transceiver is then ready and reports no error, or it has ended and reports
  -- an error
  pub open-Opened :
      (c : Option ℕ) (t : Transceiver)
      → IsValid t
      → is_running t ≡ false
      → Returns (λ u. IsValid u × Opened u) (open_transceiver true c broker t)
  unfolding open_transceiver
  open-Opened c t v e = rw e (
      Returns-map _ (λ u. IsValid u × Opened u) rests-Opened
        (and_await is_waiting broker (start c t))
        (and_await-Rests is_waiting broker serves (λ u. is_blamed u ≡ true) (λ u _ _ w. w)
          (λ u v' a b. answers-blamed (broker u) u v' a b) (start c t) (start-IsValid c t v)
          (start-blamed c t v e)))

  -- If the event loop delivers an answer to each request that is waited for and the broker
  -- refuses none, Connector::open of a valid transceiver that does not run returns, on a
  -- connected connector, with the transceiver ready and no error recorded
  pub open-ready :
      Agrees broker
      → (c : ℕ) (t : Transceiver) → IsValid t
      → is_running t ≡ false
      → Returns
          (λ u. IsValid u × (is_ready u ≡ true) × (u.ec ≡ no_error))
          (open_transceiver true (some c) broker t)
  unfolding open_transceiver
  open-ready agree c t v e = rw e (
      Returns-map _ (λ u. IsValid u × (is_ready u ≡ true) × (u.ec ≡ no_error)) rests-ready
        (and_await is_waiting broker (start (some c) t))
        (and_await-Rests is_waiting broker serves (λ u. is_starting u.state ≡ true) (λ u _ _ w. w)
          (λ u v' a b. answers-starting (broker u) u v' a (agree u) b) (start (some c) t)
          (start-IsValid (some c) t v) (start-starting c t v e)))

  -- If the event loop delivers an answer to each request that is waited for, Connector::close of
  -- a valid transceiver returns with the transceiver ended, whatever the answers are, unless the
  -- transceiver is in recreate_channel
  pub close-ended :
      (t : Transceiver)
      → IsValid t
      → t.state ≢ recreate_channel
      → Returns (λ u. IsValid u × (is_running u ≡ false)) (close_transceiver broker t)
  unfolding close_transceiver
  close-ended t v n = elim (Bool-cases (is_running t)) [
    | inr k ↦ rw k (v, k)
    | inl y ↦ rw y (
        Returns-map _ (λ u. IsValid u × (is_running u ≡ false)) rests-ended
          (and_await is_running broker (stop t))
          (and_await-Rests is_running broker serves (λ u. is_starting u.state ≡ false)
            (λ u _ p w. stopping-waiting u p w) (λ u v' a b. answers-stopping (broker u) u v' a b)
            (stop t) (stop-IsValid t v) (stop-stopping t v n)))
  ]

  -- Stop in the state recreate_channel starts the machine again: if the event loop delivers an
  -- answer to each request that is waited for and the broker refuses none, a valid transceiver
  -- that is stopped there comes to be ready
  pub stop-recreate_channel :
      Agrees broker
      → (t : Transceiver) → IsValid t
      → t.state ≡ recreate_channel
      → Returns
          (λ u. IsValid u × (is_ready u ≡ true) × (u.ec ≡ no_error))
          (and_await is_waiting broker (stop t))
  stop-recreate_channel agree t v e =
      Returns-map _ (λ u. IsValid u × (is_ready u ≡ true) × (u.ec ≡ no_error)) rests-ready
        (and_await is_waiting broker (stop t))
        (and_await-Rests is_waiting broker serves (λ u. is_starting u.state ≡ true) (λ u _ _ w. w)
          (λ u v' a b. answers-starting (broker u) u v' a (agree u) b) (stop t) (stop-IsValid t v)
          (stop-starting t v e))
