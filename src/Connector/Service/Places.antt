-- ===== src/Connector/Service/Places.antt =====
-- The loops of class Connector that wait for one transceiver after the other (src/AmqpConnector.cpp).
use amqp_cpp_asio.Base.{
  ℕ, zero, suc, ◌+◌, ◌*◌, ◌≡◌, refl, subst, Bool, false, List, [], ◌∷◌, All, arith, length,
}
use amqp_cpp_asio.Transceiver.{Transceiver}
use amqp_cpp_asio.Connector.Machine.{Connector}
use amqp_cpp_asio.Connector.Service.{
  Delivery, waits_at, Result, returns, crashes, exhausted, wait_at, wait_each, and_run,
}
use amqp_cpp_asio.Connector.Service.Returning.{Returns}
use amqp_cpp_asio.Connector.Service.Rounds.{total-le, Serves, Settled, Wait}
use amqp_cpp_asio.Connector.Shutdown.{Each}
use amqp_cpp_asio.Connector.Service.Settling.{IsServed, Rested, wait_at-Rested}

module _ (begun : Connector) (p : Transceiver → Bool) (V : Transceiver → Type 0) (w : Wait p V)
    (loop : Connector → Delivery) (serves : Serves loop) where
  Settled-suc :
      (i : ℕ) (ts : List Transceiver)
      → Settled p i ts
      → waits_at p i ts ≡ false
      → Settled p (suc i) ts
  Settled-suc i [] z e = tt
  Settled-suc zero (t ∷ ts) z e = (e, tt)
  Settled-suc (suc i) (t ∷ ts) (a, z) e = (a, Settled-suc i ts z e)

  -- All of the transceivers are at rest, and valid.
  abbrev pub AllRest : ℕ → Connector → Type 0
  AllRest k x = IsServed begun x × Each (λ t. V t × (p t ≡ false)) k x.transceivers

  Settled-All :
      (ts : List Transceiver)
      → All V ts
      → Settled p (length ts) ts
      → All (λ t. V t × (p t ≡ false)) ts
  Settled-All [] v z = tt
  Settled-All (t ∷ ts) (v, vs) (e, z) = ((v, e), Settled-All ts vs z)

  next_place :
      (i l : ℕ) (o : Result) (f : Connector → Result)
      → ((u : Connector)
          → IsServed begun u
          → All V u.transceivers
          → Settled p (suc i) u.transceivers
          → length u.transceivers ≡ l
          → Returns (AllRest l) (f u))
      → Returns (λ x. Rested begun p V w i l x × (waits_at p i x.transceivers ≡ false)) o
      → Returns (AllRest l) (and_run f o)
  next_place i l (returns u) f rest ((s, v, z, e), y) =
      rest u s v (Settled-suc i u.transceivers z y) e
  next_place i l crashes f rest g = g
  next_place i l exhausted f rest g = g

  pub wait_each-AllRest :
      (k i : ℕ) (c : Connector)
      → i + k ≡ length c.transceivers
      → IsServed begun c
      → All V c.transceivers
      → Settled p i c.transceivers
      → Returns (AllRest (length c.transceivers)) (wait_each p loop k i c)
  unfolding wait_each
  wait_each-AllRest zero i c e s v z =
      let i' : i ≡ length c.transceivers = omega arith in
      (s, (Settled-All c.transceivers v (subst (λ j. Settled p j c.transceivers) i' z), refl))
  wait_each-AllRest (suc k) i c e s v z =
      next_place i (length c.transceivers) (wait_at p loop i (11 * length c.transceivers) c)
        (wait_each p loop k (suc i))
        (λ u s' v' z' l.
          subst (λ n. Returns (AllRest n) (wait_each p loop k (suc i) u)) l
            (wait_each-AllRest k (suc i) u (omega arith) s' v' z'))
        (wait_at-Rested begun p V w loop serves i (11 * length c.transceivers) c s v z
          (total-le c.transceivers))
