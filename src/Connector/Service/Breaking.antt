-- ===== src/Connector/Service/Breaking.antt =====
-- How class Connector (src/AmqpConnector.cpp) ends where the TCP connection breaks without an error of
-- AMQP-CPP and no transceiver has a channel yet.
use amqp_cpp_asio.Base.{
  ℕ, zero, suc, ◌*◌, ◌≡◌, ◌∙◌, refl, sym, subst, ap, Bool, true, false, not, List, [], ◌∷◌, All,
  All-and, arith, length,
}
use amqp_cpp_asio.Transceiver.{create_channel, Transceiver, After, is_running}
use amqp_cpp_asio.Transceiver.Control.{stop}
use amqp_cpp_asio.Transceiver.Invariant.{IsValid}
use amqp_cpp_asio.Connector.{normal}
use amqp_cpp_asio.Connector.Machine.{
  Connector, post_stop, for_each, stop_connector, disconnected, finish_stop,
}
use amqp_cpp_asio.Connector.Shutdown.{
  IsLinked, Gives, told, Ended, All-first, for_each-All, with_all-Gives,
}
use amqp_cpp_asio.Connector.Service.{
  Delivery, returns, and_run, waits_at, wait_at, wait_each, posted,
}
use amqp_cpp_asio.Connector.Service.Closing.{finish_stop-ready}
use amqp_cpp_asio.Connector.Service.Returning.{Returns}

-- The transceiver does not run, or waits for its first channel.
abbrev pub is_early : Transceiver → Bool
is_early t = elim t.state [ create_channel ↦ true | s ↦ not (is_running t) ]

stop-Ended : (t : Transceiver) → IsValid t × (is_early t ≡ true) → After Ended (stop t)
unfolding stop
stop-Ended t (v, e) = ground arith

waits_at-Ended : (i : ℕ) (ts : List Transceiver) → All Ended ts → waits_at is_running i ts ≡ false
waits_at-Ended i [] a = refl
waits_at-Ended zero (t ∷ ts) ((v, e), a) = e
waits_at-Ended (suc i) (t ∷ ts) (x, a) = waits_at-Ended i ts a

module _ (loop : Connector → Delivery) where
  wait_at-Ended :
      (i n : ℕ) (c : Connector)
      → All Ended c.transceivers
      → wait_at is_running loop i n c ≡ returns c
  unfolding wait_at
  wait_at-Ended i zero c a = rw (waits_at-Ended i c.transceivers a) refl
  wait_at-Ended i (suc n) c a = rw (waits_at-Ended i c.transceivers a, wait_at) refl

  wait_each-Ended :
      (k i : ℕ) (c : Connector)
      → All Ended c.transceivers
      → wait_each is_running loop k i c ≡ returns c
  unfolding wait_each
  wait_each-Ended zero i c a = refl
  wait_each-Ended (suc k) i c a =
      ap (and_run (wait_each is_running loop k (suc i)))
        (wait_at-Ended i (11 * length c.transceivers) c a)
      ∙ wait_each-Ended k (suc i) c a

  -- The connector has ended with `eNormal`.
  abbrev pub Closed : Connector → Connector → Type 0
  Closed c u =
      IsLinked u
      × (u.connection_handler_ready ≡ false)
      × (u.calls ≡ told c.on_exit normal (post_stop ∷ c.calls))
      × All Ended u.transceivers

  posted-Closed :
      (c u : Connector)
      → u.connection_handler_ready ≡ true
      → u.on_exit ≡ c.on_exit
      → u.calls ≡ post_stop ∷ c.calls
      → All Ended u.transceivers
      → Returns (Closed c) (posted loop (λ x. true) u)
  unfolding posted
  posted-Closed c u r x q a =
      subst (λ o. Returns (Closed c) (and_run (λ w. returns (finish_stop true w)) o))
        (sym (wait_each-Ended (length u.transceivers) 0 u a))
        (subst (Closed c) (finish_stop-ready u r).1
          (record { valid = All-first u.transceivers a; linked = refl }, refl, rw (x, q) refl, a))

  -- If the connection of a ready connector that is not exiting ends without an error of AMQP-CPP
  -- while each of its valid transceivers does not run or waits for its first channel, then
  -- onShutdown and the whole function that it posts return, whatever the event loop would
  -- deliver, where the connection handler counts as stopped: every transceiver has ended, the
  -- connector is not ready, its flags hold together, and the exit callback, if it is set, was
  -- called once and with eNormal
  pub lost-normal :
      (c : Connector)
      → IsLinked c
      → c.connection_handler_ready ≡ true
      → c.exiting ≡ false
      → All (λ t. is_early t ≡ true) c.transceivers
      → Gives (λ u. Returns (Closed c) (posted loop (λ x. true) u)) (disconnected false c)
  unfolding disconnected stop_connector
  lost-normal c v r e n = ground (
    arith,
    with_all-Gives (λ u. record u { calls = post_stop ∷ u.calls })
        (λ u. Returns (Closed c) (posted loop (λ x. true) u)) (All Ended) c
        (for_each stop c.transceivers)
        (λ us a.
          posted-Closed c (record c { transceivers = us; calls = post_stop ∷ c.calls }) r refl refl
            a)
        (for_each-All stop (λ t. IsValid t × (is_early t ≡ true)) Ended stop-Ended c.transceivers
          (All-and IsValid (λ t. is_early t ≡ true) c.transceivers v.valid n)),
  )
