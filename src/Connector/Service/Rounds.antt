-- ===== src/Connector/Service/Rounds.antt =====
-- One round of the event loop that class Connector runs for its transceivers (src/AmqpConnector.cpp).
use amqp_cpp_asio.Base.{
  true_ne, ℕ, zero, suc, ◌+◌, ◌*◌, ◌≤◌, ◌<◌, ◌≡◌, refl, Bool, true, false, ◌||◌, Option, none, some,
  List, [], ◌∷◌, All, arith, length,
}
use amqp_cpp_asio.Transceiver.{Transceiver, Outcome, done, fault, After, is_running}
use amqp_cpp_asio.Transceiver.Replies.{Reply, handle}
use amqp_cpp_asio.Transceiver.Control.{drop}
use amqp_cpp_asio.Transceiver.Invariant.{IsValid}
use amqp_cpp_asio.Transceiver.Progress.{answers, is_waiting, rank, rank-le, answers-rank}
use amqp_cpp_asio.Connector.Machine.{Connector, prepend, for_each}
use amqp_cpp_asio.Connector.Shutdown.{IsLinked, Gives, Each, for_each-Each}
use amqp_cpp_asio.Connector.Service.{Delivery, replies, loses, update_at}

-- The replies that the transceivers may still wait for, at most.
abbrev pub total : List Transceiver → ℕ
total [] = 0
total (t ∷ ts) = rank t + total ts

pub total-le : (ts : List Transceiver) → total ts ≤ 11 * length ts
total-le [] = omega arith
total-le (t ∷ ts) = omega (arith, rank-le t, total-le ts)

abbrev pub any : (Transceiver → Bool) → List Transceiver → Bool
any p [] = false
any p (t ∷ ts) = p t || any p ts

pub waiting-running : (ts : List Transceiver) → any is_waiting ts ≡ true → any is_running ts ≡ true
waiting-running [] e = e
waiting-running (t ∷ ts) e = ground (arith, waiting-running ts)

pub idle-ended :
    (ts : List Transceiver) → any is_running ts ≡ false → All (λ t. is_running t ≡ false) ts
idle-ended [] e = tt
idle-ended (t ∷ ts) e = (ground arith, idle-ended ts (ground arith))

-- The reply answers the request that the transceiver at this place has made last.
abbrev pub answers_at : ℕ → Reply → List Transceiver → Bool
answers_at i r [] = false
answers_at zero r (t ∷ ts) = answers t r
answers_at (suc i) r (t ∷ ts) = answers_at i r ts

-- A delivery that may be waited for: an answer, or the end of the connection by an error of AMQP-CPP.
abbrev pub is_apt : Delivery → List Transceiver → Bool
is_apt (replies i r) ts = answers_at i r ts
is_apt (loses error) ts = error

-- What the event loop is relied on for: while a transceiver waits for a reply, it delivers one of these.
abbrev pub Serves : (Connector → Delivery) → Type 0
Serves loop =
    (c : Connector)
    → IsLinked c
    → any is_waiting c.transceivers ≡ true
    → is_apt (loop c) c.transceivers ≡ true

-- None of the transceivers before a place is waited for.
abbrev pub Settled : (Transceiver → Bool) → ℕ → List Transceiver → Type 0
Settled p zero ts = Unit {0}
Settled p (suc i) [] = Unit {0}
Settled p (suc i) (t ∷ ts) = (p t ≡ false) × Settled p i ts

ended-rank : (t : Transceiver) → is_running t ≡ false → rank t ≡ 0
ended-rank t e = ground arith

-- What a loop waits for, and what it keeps of each transceiver.
pub record Wait (p : Transceiver → Bool) (V : Transceiver → Type 0) : Type 0 where
  pub valid : (t : Transceiver) → V t → IsValid t
  pub answered : (r : Reply) (t : Transceiver) → answers t r ≡ true → p t ≡ true
  pub ended : (t : Transceiver) → is_running t ≡ false → p t ≡ false
  pub waiting : (t : Transceiver) → V t → p t ≡ true → is_waiting t ≡ true
  pub keep : (r : Reply) (t : Transceiver) → V t → answers t r ≡ true → After V (handle r t)
  pub keep_drop : (t : Transceiver) → V t → After (λ u. V u × (is_running u ≡ false)) (drop t)

Settled-nil : (p : Transceiver → Bool) (i : ℕ) → Settled p i []
Settled-nil p zero = tt
Settled-nil p (suc i) = tt

abbrev pred : ℕ → ℕ
pred zero = zero
pred (suc n) = n

module _ (p : Transceiver → Bool) (V : Transceiver → Type 0) (w : Wait p V) where
  -- After a delivery: fewer replies are to come than `n`, and there are `k` transceivers.
  abbrev pub Kept : ℕ → ℕ → ℕ → List Transceiver → Type 0
  Kept i n k us = All V us × (total us < n) × Settled p i us × (length us ≡ k)

  prepend_front :
      (t : Transceiver) (ts : List Transceiver) (o : Outcome)
      → All V ts
      → After V o
      → After (λ u. rank u < rank t) o
      → Gives (Kept 0 (rank t + total ts) (suc (length ts))) (prepend o (some ts))
  prepend_front t ts (done u) v a b = ((a, v), omega arith, tt, refl)
  prepend_front t ts fault v a b = absurd a

  prepend_rest :
      (i : ℕ) (t : Transceiver) (n k : ℕ) (o : Option (List Transceiver))
      → V t
      → Settled p i (t ∷ [])
      → Gives (Kept (pred i) n k) o
      → Gives (Kept i (rank t + n) (suc k)) (prepend (done t) o)
  prepend_rest i t n k none v e g = absurd g
  prepend_rest zero t n k (some us) v e (a, b, c, d) = ((v, a), omega arith, tt, omega arith)
  prepend_rest (suc i) t n k (some us) v (e, f) (a, b, c, d) =
      ((v, a), omega arith, (e, c), omega arith)

  pub update_at-Kept :
      (i j : ℕ) (r : Reply) (ts : List Transceiver)
      → answers_at j r ts ≡ true
      → All V ts
      → Settled p i ts
      → Gives (Kept i (total ts) (length ts)) (update_at (handle r) j ts)
  update_at-Kept i j r [] a v s = cc
  update_at-Kept zero zero r (t ∷ ts) a (x, v) s =
      prepend_front t ts (handle r t) v (w.keep r t x a) (answers-rank r t (w.valid t x) a)
  update_at-Kept (suc i) zero r (t ∷ ts) a v (s, z) = absurd (true_ne (p t) (w.answered r t a) s)
  update_at-Kept zero (suc j) r (t ∷ ts) a (x, v) s =
      prepend_rest zero t (total ts) (length ts) (update_at (handle r) j ts) x tt
        (update_at-Kept zero j r ts a v tt)
  update_at-Kept (suc i) (suc j) r (t ∷ ts) a (x, v) (s, z) =
      prepend_rest (suc i) t (total ts) (length ts) (update_at (handle r) j ts) x
        (s, Settled-nil p i) (update_at-Kept i j r ts a v z)

  -- What a shutdown by an error of AMQP-CPP leaves of the transceivers.
  abbrev pub Dropped : ℕ → List Transceiver → Type 0
  Dropped = Each (λ u. V u × (is_running u ≡ false))

  pub for_each-Dropped :
      (ts : List Transceiver) → All V ts → Gives (Dropped (length ts)) (for_each drop ts)
  for_each-Dropped = for_each-Each drop V (λ u. V u × (is_running u ≡ false)) w.keep_drop

  pub Dropped-Kept : (i n k : ℕ) (us : List Transceiver) → 0 < n → Dropped k us → Kept i n k us
  Dropped-Kept i n k us lt (a, b) = (firsts us a, omega (arith, nothing us a), settled i us a, b)
    where
      firsts : (us : List Transceiver) → All (λ u. V u × (is_running u ≡ false)) us → All V us
      firsts [] a = tt
      firsts (u ∷ us) ((v, e), a) = (v, firsts us a)

      nothing : (us : List Transceiver) → All (λ u. V u × (is_running u ≡ false)) us → total us ≡ 0
      nothing [] a = refl
      nothing (u ∷ us) ((v, e), a) = omega (arith, ended-rank u e, nothing us a)

      settled :
          (i : ℕ) (us : List Transceiver)
          → All (λ u. V u × (is_running u ≡ false)) us
          → Settled p i us
      settled zero us a = tt
      settled (suc i) [] a = tt
      settled (suc i) (u ∷ us) ((v, e), a) = (w.ended u e, settled i us a)

  pub Dropped-idle : (k : ℕ) (us : List Transceiver) → Dropped k us → any is_running us ≡ false
  Dropped-idle k us (a, b) = idle us a
    where
      idle :
          (us : List Transceiver)
          → All (λ u. V u × (is_running u ≡ false)) us
          → any is_running us ≡ false
      idle [] a = refl
      idle (u ∷ us) ((v, e), a) = ground (arith, idle us a)
