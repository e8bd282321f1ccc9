-- ===== src/Connector/Service/Settling.antt =====
-- The loops in which class Connector waits for its transceivers (src/AmqpConnector.cpp) end, and leave
-- each of them settled.
use amqp_cpp_asio.Base.{
  true_ne, ℕ, zero, suc, ◌≤◌, ◌<◌, ◌≡◌, refl, subst, Bool, true, false, Option, none, some, List,
  [], ◌∷◌, All, arith, length, Bool-cases, inl, inr,
}
use amqp_cpp_asio.Transceiver.{Transceiver, is_running}
use amqp_cpp_asio.Transceiver.Replies.{handle}
use amqp_cpp_asio.Transceiver.Control.{drop}
use amqp_cpp_asio.Transceiver.Invariant.{IsValid}
use amqp_cpp_asio.Transceiver.Progress.{is_waiting, waiting-rank}
use amqp_cpp_asio.Connector.{amqp_error}
use amqp_cpp_asio.Connector.Machine.{Connector, for_each, with_all, leave, disconnected}
use amqp_cpp_asio.Connector.Shutdown.{IsLinked, Gives, Accounts, with_all-Gives}
use amqp_cpp_asio.Connector.Service.{
  Delivery, replies, loses, update_at, run_one, waits_at, wait_at, then_run,
}
use amqp_cpp_asio.Connector.Service.Returning.{Returns}
use amqp_cpp_asio.Connector.Service.Rounds.{
  total, any, is_apt, Serves, Settled, Wait, Kept, Dropped, update_at-Kept, for_each-Dropped,
  Dropped-Kept, Dropped-idle, waiting-running, idle-ended,
}

-- The flags hold together, no shutdown has been asked of the connection handler, while a transceiver
-- runs there is a connection, and since `begun` only the loss of the connection was reported.
pub record IsServed (begun c : Connector) : Type 0 where
  pub linked : IsLinked c
  pub staying : c.exiting ≡ false
  pub serving : any is_running c.transceivers ≡ true → c.connection_handler_ready ≡ true
  pub accounted : Accounts begun c

-- No transceiver runs once the connection is lost.
pub served-ended :
    (begun c : Connector)
    → IsServed begun c
    → c.connection_handler_ready ≡ false
    → All (λ t. is_running t ≡ false) c.transceivers
served-ended begun c s k =
    idle-ended c.transceivers (elim (Bool-cases (any is_running c.transceivers)) [
      | inl y ↦ absurd (true_ne c.connection_handler_ready (s.serving y) k)
      | inr n ↦ n
    ])

left_Accounts :
    (begun c : Connector)
    → c.connection_handler_ready ≡ true
    → Accounts begun c
    → Accounts begun (leave amqp_error c)
left_Accounts begun c y a = ground arith

module _ (begun : Connector) (p : Transceiver → Bool) (V : Transceiver → Type 0)
    (w : Wait p V) where
  waits_at-any :
      (i : ℕ) (ts : List Transceiver)
      → All V ts
      → waits_at p i ts ≡ true
      → (any is_waiting ts ≡ true) × (0 < total ts)
  waits_at-any i [] v e = cc
  waits_at-any zero (t ∷ ts) (v, vs) e =
      let y : is_waiting t ≡ true = w.waiting t v e in
      (rw y refl, omega (arith, waiting-rank t (w.valid t v) y))
  waits_at-any (suc i) (t ∷ ts) (v, vs) e =
      let (a, b) = waits_at-any i ts vs e in (ground (arith, a), omega (arith, b))

  All-IsValid : (ts : List Transceiver) → All V ts → All IsValid ts
  All-IsValid [] v = tt
  All-IsValid (t ∷ ts) (v, vs) = (w.valid t v, All-IsValid ts vs)

  -- What a round leaves, with `n` the replies that were still to come.
  abbrev Round : ℕ → ℕ → ℕ → Connector → Type 0
  Round i n k u = IsServed begun u × Kept p V w i n k u.transceivers

  -- An error of AMQP-CPP drops all the transceivers.
  loss :
      (i : ℕ) (c : Connector)
      → IsServed begun c
      → c.connection_handler_ready ≡ true
      → All V c.transceivers
      → 0 < total c.transceivers
      → Gives
          (Round i (total c.transceivers) (length c.transceivers))
          (with_all (leave amqp_error) c (for_each drop c.transceivers))
  loss i c s y v lt =
      with_all-Gives (leave amqp_error) (Round i (total c.transceivers) (length c.transceivers))
        (Dropped p V w (length c.transceivers)) c (for_each drop c.transceivers)
        (λ us k.
          let kept : Kept p V w i (total c.transceivers) (length c.transceivers) us =
            Dropped-Kept p V w i (total c.transceivers) (length c.transceivers) us lt k in
          (
            record {
              linked = record { valid = All-IsValid us kept.0; linked = refl };
              staying = s.staying;
              serving = λ e.
                  absurd (
                    true_ne (any is_running us) e
                      (Dropped-idle p V w (length c.transceivers) us k));
              accounted = left_Accounts begun c y s.accounted;
            },
            kept,
          ))
        (for_each-Dropped p V w c.transceivers v)

  run_one-Round :
      (i : ℕ) (d : Delivery) (c : Connector)
      → IsServed begun c
      → c.connection_handler_ready ≡ true
      → All V c.transceivers
      → Settled p i c.transceivers
      → 0 < total c.transceivers
      → is_apt d c.transceivers ≡ true
      → Gives (Round i (total c.transceivers) (length c.transceivers)) (run_one d c)
  unfolding run_one disconnected
  run_one-Round i (replies j r) c s y v z lt a =
      with_all-Gives (λ u. u) (Round i (total c.transceivers) (length c.transceivers))
        (Kept p V w i (total c.transceivers) (length c.transceivers)) c
        (update_at (handle r) j c.transceivers)
        (λ us k. (
          record {
            linked = record { valid = All-IsValid us k.0; linked = s.linked.linked };
            staying = s.staying;
            serving = λ _. y;
            accounted = s.accounted;
          },
          k,
        ))
        (update_at-Kept p V w i j r c.transceivers a v z)
  run_one-Round i (loses error) c s y v z lt a = ground (arith, loss i c s y v lt)

  -- The loop is over, and as many transceivers are there.
  abbrev pub Rested : ℕ → ℕ → Connector → Type 0
  Rested i k u =
      IsServed begun u
      × All V u.transceivers
      × Settled p i u.transceivers
      × (length u.transceivers ≡ k)

  module _ (loop : Connector → Delivery) (serves : Serves loop) where
    next-Round :
        (i n k m : ℕ) (o : Option Connector)
        → ((u : Connector)
            → IsServed begun u
            → All V u.transceivers
            → Settled p i u.transceivers
            → total u.transceivers ≤ n
            → Returns
                (λ x. Rested i (length u.transceivers) x × (waits_at p i x.transceivers ≡ false))
                (wait_at p loop i n u))
        → m ≤ suc n
        → Gives (Round i m k) o
        → Returns
            (λ x. Rested i k x × (waits_at p i x.transceivers ≡ false))
            (then_run (wait_at p loop i n) o)
    next-Round i n k m none rest le g = absurd g
    next-Round i n k m (some u) rest le (s, (v, lt, z, e)) =
        subst
          (λ l.
            Returns (λ x. Rested i l x × (waits_at p i x.transceivers ≡ false))
              (wait_at p loop i n u))
          e (rest u s v z (omega arith))

    pub wait_at-Rested :
        (i n : ℕ) (c : Connector)
        → IsServed begun c
        → All V c.transceivers
        → Settled p i c.transceivers
        → total c.transceivers ≤ n
        → Returns
            (λ x. Rested i (length c.transceivers) x × (waits_at p i x.transceivers ≡ false))
            (wait_at p loop i n c)
    unfolding wait_at
    wait_at-Rested i zero c s v z le = elim (Bool-cases (waits_at p i c.transceivers)) [
      | inl y ↦ absurd (omega (arith, (waits_at-any i c.transceivers v y).1))
      | inr k ↦ rw k ((s, v, z, refl), k)
    ]
    wait_at-Rested i (suc n) c s v z le = elim (Bool-cases (waits_at p i c.transceivers)) [
      | inl y ↦
          let (a, lt) = waits_at-any i c.transceivers v y in
          rw (y, wait_at)
            (next-Round i n (length c.transceivers) (total c.transceivers) (run_one (loop c) c)
              (wait_at-Rested i n) le
              (run_one-Round i (loop c) c s (s.serving (waiting-running c.transceivers a)) v z lt
                (serves c s.linked a)))
      | inr k ↦ rw (k, wait_at) ((s, v, z, refl), k)
    ]
