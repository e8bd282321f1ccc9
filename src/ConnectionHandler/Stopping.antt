-- ===== src/ConnectionHandler/Stopping.antt =====
-- What `StateMachine()` leaves in the state `eShutdown`, and that its loop ends.
use amqp_cpp_asio.Base.{
  ℕ, zero, suc, ◌≡◌, ◌-◌, ◌≤◌, ◌<◌, String, Bool, true, false, none, some, List, [], ◌∷◌, ◌++◌,
  arith, length, All, Bool-cases, inl, inr, sym, subst, if◌then◌else◌,
}
use amqp_cpp_asio.ConnectionHandler.{
  State, not_connected, shutdown, socket_shutdown, socket_close, shutdown_callback, Call,
  Completion, received, written, Handler, is_connected, stopped, Result, returns, Parser,
}
use amqp_cpp_asio.ConnectionHandler.Machine.{call, stop, on_write, enter_not_connected}
use amqp_cpp_asio.ConnectionHandler.Input.{deliver, on_read}
use amqp_cpp_asio.ConnectionHandler.Shutdown.{
  is_pending, run_one, drain, clear, shut_down, state_machine,
}
use amqp_cpp_asio.ConnectionHandler.Fuel.{
  IsSane, UnlessOut, Within, Serves, UnlessOut-map, UnlessOut-and_then, Within-mono,
}
use amqp_cpp_asio.ConnectionHandler.Totality.{deliver-Within}

-- Nothing of a connection is left.
pub record IsCleared (h : Handler) : Type 0 where
  pub closed : h.state ≡ not_connected
  pub detached : h.connection ≡ none
  pub no_input : h.in_buf ≡ []
  pub no_output : h.out_bufs ≡ []
  pub no_read : h.read_req ≡ false
  pub no_write : h.write_req ≡ false
  pub no_error : h.last_error ≡ ""
  pub released : h.sentinel ≡ false

run_one-Within :
    (d : ℕ) (sm : Handler → Result)
    → Serves d sm
    → (n : ℕ) (cs : List Completion) (h : Handler) → n ≤ d
    → (length cs ≤ n) × All IsSane cs
    → UnlessOut (λ u. Within (n - 1) u × (0 < n)) (run_one sm cs h)
run_one-Within d sm serves n [] h le w = tt
run_one-Within d sm serves n (c ∷ cs) h le (l, s) =
    UnlessOut-map (Within (n - 1)) (λ u. Within (n - 1) u × (0 < n)) (λ u a. (a, omega arith))
      (deliver sm c (record h { incoming = cs }))
      (deliver-Within d sm serves (n - 1) (omega arith) c (record h { incoming = cs }) s.0
        (omega arith, s.1))

-- Nothing is pending any more.
abbrev Drained : ℕ → Handler → Type 0
Drained n u = Within n u × (is_pending u ≡ false)

-- The loop runs until nothing is pending.
drain-Drained :
    (d : ℕ) (sm : Handler → Result)
    → Serves d sm
    → (m n : ℕ) (h : Handler) → n < m
    → n ≤ d
    → Within n h
    → UnlessOut (Drained n) (drain sm m h)
unfolding drain
drain-Drained d sm serves zero n h lt le w = absurd (omega arith)
drain-Drained d sm serves (suc m) n h lt le w = elim (Bool-cases (is_pending h)) [
  | inr k ↦ rw (k, drain) (w, k)
  | inl y ↦
      rw (y, drain)
        (UnlessOut-and_then (λ u. Within (n - 1) u × (0 < n)) (Drained n) (drain sm m)
          (λ u (a, p).
            UnlessOut-map (Drained (n - 1)) (Drained n)
              (λ v (b, e). (Within-mono {m = n - 1} {n = n} v (omega arith) b, e)) (drain sm m u)
              (drain-Drained d sm serves m (n - 1) u (omega arith) (omega arith) a))
          (run_one sm h.incoming h) (run_one-Within d sm serves n h.incoming h le w))
]

-- Nothing of a connection is left, and at most `n` handlers are still to be called.
abbrev Cleared : ℕ → Handler → Type 0
Cleared n u = Within n u × IsCleared u

clear-Cleared : (n : ℕ) (peer : Bool) (u : Handler) → Drained n u → Cleared n (clear peer u)
unfolding enter_not_connected
clear-Cleared n peer u (w, e) = (w, ground arith)

IsCleared-disconnected : (u : Handler) → IsCleared u → is_connected u.state ≡ false
IsCleared-disconnected u c = ground arith

module _ (has_peer : Handler → Bool) where
  shut_down_deeper :
      (d n : ℕ) (h : Handler)
      → Serves d (shut_down has_peer d)
      → n < suc d
      → Within n h
      → UnlessOut (Cleared n) (shut_down has_peer (suc d) h)
  unfolding shut_down
  shut_down_deeper d n h served lt w =
      UnlessOut-and_then (Drained n) (Cleared n) (λ u. returns (clear (has_peer h) u))
        (λ u a. clear-Cleared n (has_peer h) u a)
        (drain (shut_down has_peer d) (suc (length h.incoming)) entered)
        (UnlessOut-map (Drained (length h.incoming)) (Drained n)
          (λ u (a, e). (Within-mono {m = length h.incoming} {n = n} u (omega arith) a, e)) _
          (drain-Drained d (shut_down has_peer d) served (suc (length h.incoming))
            (length h.incoming) entered (omega arith) (omega arith) (entered-Within (has_peer h))))
    where
      entered : Handler
      entered = if has_peer h then call h socket_shutdown else h

      entered-Within :
          (b : Bool) → Within (length h.incoming) (if b then call h socket_shutdown else h)
      entered-Within true = (omega arith, w.1)
      entered-Within false = (omega arith, w.1)

  shut_down-Cleared :
      (d n : ℕ) (h : Handler) → n < d → Within n h → UnlessOut (Cleared n) (shut_down has_peer d h)
  shut_down-Cleared zero n h lt w = absurd (omega arith)
  shut_down-Cleared (suc d) n h lt w =
      shut_down_deeper d n h
        (λ k u l a.
          UnlessOut-map (Cleared k) (λ v. Within k v × (is_connected v.state ≡ false))
            (λ v (b, c). (b, IsCleared-disconnected v c)) (shut_down has_peer d u)
            (shut_down-Cleared d k u l a))
        lt w

  -- If AMQP-CPP uses up no more bytes than it is given, the shutdown of a connection never runs
  -- out of the model's fuel, whatever handlers the event loop calls meanwhile and however deep
  -- these shut down themselves, and wherever it returns the state is not_connected, no operation
  -- is pending, and the buffers, the connection, the last error and the sentinel are cleared
  pub state_machine-IsCleared :
      (h : Handler) → All IsSane h.incoming → UnlessOut IsCleared (state_machine has_peer h)
  unfolding state_machine
  state_machine-IsCleared h s =
      UnlessOut-map (Cleared (length h.incoming)) IsCleared (λ u (a, c). c)
        (state_machine has_peer h)
        (shut_down-Cleared (suc (length h.incoming)) (length h.incoming) h (omega arith)
          (omega arith, s))

-- The handlers that boost::asio calls for the pending operations once the socket is shut down: each
-- with an error, the read first or the write first.
abbrev pub aborted : Bool → Bool → Bool → String → Parser → ℕ → List Completion
aborted read write read_first message p n =
    let reads = if read then received (some message) [] p ∷ [] else [] in
    let writes = if write then written (some message) n ∷ [] else [] in
    if read_first then reads ++ writes else writes ++ reads

abbrev pub Returned : (Handler → Type 0) → Result → Type 0
Returned P (returns h) = P h
Returned P _ = ⊥

-- The calls of a shutdown: the socket is closed on both sides if the other side is there, and the
-- owner is told once, with no error.
abbrev pub farewell : Bool → Handler → List Call
farewell peer h =
    let closing = if peer then socket_close ∷ socket_shutdown ∷ h.calls else h.calls in
    if h.shutdown_cb then shutdown_callback "" ∷ closing else closing

abbrev pub Stopped : Bool → Handler → List Completion → Handler → Type 0
Stopped peer h rest u = IsCleared u × (u.incoming ≡ rest) × (u.calls ≡ farewell peer h)

pub connected-stopped : (s : State) → is_connected s ≡ true → stopped s ≡ false
connected-stopped s c = ground arith

module _ (has_peer : Handler → Bool) (h : Handler) (message : String) (p : Parser) (n : ℕ)
    (rest : List Completion) where
  abbrev stopping : Bool → Bool → List Completion → Handler
  stopping read write cs = record h {
    state = shutdown;
    last_error = "";
    read_req = read;
    write_req = write;
    incoming = cs;
  }

  state_machine-Stopped :
      (read write read_first : Bool)
      → let g = stopping read write (aborted read write read_first message p n ++ rest) in
        Returned (Stopped (has_peer g) h rest) (state_machine has_peer g)
  unfolding state_machine shut_down drain deliver on_read on_write
  state_machine-Stopped false false true = ground arith
  state_machine-Stopped false false false = ground arith
  state_machine-Stopped true false true = ground arith
  state_machine-Stopped true false false = ground arith
  state_machine-Stopped false true true = ground arith
  state_machine-Stopped false true false = ground arith
  state_machine-Stopped true true true = ground arith
  state_machine-Stopped true true false = ground arith

  -- If the event loop delivers the pending read and write with an error, in either order, stop
  -- of a connected handler returns with the connection cleared, the deliveries after those left
  -- for later, the socket closed if the other side is there, and the owner told once, with no
  -- error
  pub stop-Stopped :
      (read_first : Bool)
      → is_connected h.state ≡ true
      → h.incoming ≡ aborted h.read_req h.write_req read_first message p n ++ rest
      → Returned
          (Stopped (has_peer (record h { state = shutdown; last_error = "" })) h rest)
          (stop (state_machine has_peer) h)
  unfolding stop
  stop-Stopped read_first c e = rw (connected-stopped h.state c) (
      subst
        (λ cs.
          let g = stopping h.read_req h.write_req cs in
          Returned (Stopped (has_peer g) h rest) (state_machine has_peer g))
        (sym e) (state_machine-Stopped h.read_req h.write_req read_first))
