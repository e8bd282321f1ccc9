-- ===== src/ConnectionHandler/Diagram/Parsing.antt =====
-- What AMQP-CPP and the shutdowns that it brings about do to the state of class ConnectionHandler
-- (src/AmqpConnectionHandler.cpp).
use amqp_cpp_asio.Base.{
  ℕ, zero, suc, String, ◌≡◌, ◌≢◌, subst, Bool, true, false, some, List, [], ◌∷◌, arith, Bool-cases,
  inl, inr, length, drop,
}
use amqp_cpp_asio.ConnectionHandler.{
  State, not_connected, resolving, connecting, Reaction, out, failed, closed, Parsed, Parser,
  Completion, resolved, connected, received, written, Handler, is_connected, is_ready, Result,
}
use amqp_cpp_asio.ConnectionHandler.Machine.{on_error, on_closed, stop_by, next_write, is_shutdown}
use amqp_cpp_asio.ConnectionHandler.Input.{react, react_all, parse_loop, parsed_then, on_bytes}
use amqp_cpp_asio.ConnectionHandler.Returning.{WhenReturns, WhenReturns-map, WhenReturns-and_then}
use amqp_cpp_asio.ConnectionHandler.Diagram.{
  Cause, first_data, give_up, Brings, down, Follows, Follows-join, stays, after_data-Follows,
  state-on_data,
}

-- `StateMachine()` in `eShutdown` comes back, if it does, in `eNotConnected`.
abbrev pub Stops : (Handler → Result) → Type 0
Stops sm = (u : Handler) → WhenReturns (λ v. not_connected ≡ v.state) (sm u)

-- Where a handler is called that must leave the state.
abbrev pub leaves : Completion → State → Bool
leaves (resolved ec) resolving = true
leaves (connected ec) connecting = true
leaves (received (some m) bytes p) s = is_ready s
leaves (written (some m) n) s = is_ready s
leaves _ s = false

-- By edges that the handler brings about, and away from where it may not stay.
abbrev pub Moves : Completion → State → Handler → Type 0
Moves c s u = Follows (Brings c) s u.state × (leaves c s ≡ true → u.state ≢ s)

ready-connected : (s : State) → is_ready s ≡ true → not_connected ≢ s
ready-connected s y e = ground arith

shutdown-ready : (s : State) → is_shutdown s ≡ true → is_ready s ≡ true → s ≢ s
shutdown-ready s e y = ground arith

pub ready-unconnected : (s : State) → is_ready s ≡ true → is_connected s ≡ false → ⊥
ready-unconnected s y k = ground arith

-- What is left of the connection, by the state.
abbrev pub At : (Cause → Type 0) → State → Handler → Type 0
At B s v = Follows B s v.state

-- Given up where it is in use.
abbrev pub GivenUp : (Cause → Type 0) → State → Handler → Type 0
GivenUp B s v = At B s v × (is_ready s ≡ true → v.state ≢ s)

module _ (sm : Handler → Result) (stops : Stops sm) (B : Cause → Type 0) where
  shut-GivenUp :
      (s : State) (u : Handler)
      → B give_up
      → is_connected s ≡ true
      → WhenReturns (GivenUp B s) (sm u)
  shut-GivenUp s u b c =
      WhenReturns-map (λ v. not_connected ≡ v.state) (GivenUp B s)
        (λ v e.
          subst (λ t. Follows B s t × (is_ready s ≡ true → t ≢ s)) e
            (down B s b c, λ y. ready-connected s y))
        (sm u) (stops u)

  pub stop_by-GivenUp :
      (message : String) (h : Handler)
      → B give_up
      → is_connected h.state ≡ true
      → WhenReturns (GivenUp B h.state) (stop_by sm message h)
  stop_by-GivenUp message h b y = elim (Bool-cases (is_shutdown h.state)) [
    | inl e ↦ rw e (stays B h.state, λ c. shutdown-ready h.state e c)
    | inr k ↦ rw k (shut-GivenUp h.state _ b y)
  ]

  module _ (bad : B give_up) (out_ok : B first_data) where
    shut-At : (s : State) (u : Handler) → is_connected s ≡ true → WhenReturns (At B s) (sm u)
    shut-At s u c =
        WhenReturns-map (GivenUp B s) (At B s) (λ v p. p.0) (sm u) (shut-GivenUp s u bad c)

    react-At : (r : Reaction) (h : Handler) → WhenReturns (At B h.state) (react sm r h)
    unfolding react
    react-At (out c buffer) h =
        subst (λ t. Follows B h.state t) (state-on_data c buffer h)
          (after_data-Follows B h.state out_ok)
    react-At (failed c message) h = elim (Bool-cases (is_connected h.state)) [
      | inl y ↦ rw (y, on_error) (shut-At h.state _ y)
      | inr k ↦ rw (k, on_error) (stays B h.state)
    ]
    react-At (closed c) h = elim (Bool-cases (is_connected h.state)) [
      | inl y ↦ rw (y, on_closed) (shut-At h.state _ y)
      | inr k ↦ rw (k, on_closed) (stays B h.state)
    ]

    react_all-At :
        (rs : List Reaction) (h : Handler) → WhenReturns (At B h.state) (react_all sm rs h)
    unfolding react_all
    react_all-At [] h = stays B h.state
    react_all-At (r ∷ rs) h =
        WhenReturns-and_then (At B h.state) (At B h.state) (react_all sm rs)
          (λ u p.
            WhenReturns-map (At B u.state) (At B h.state)
              (λ v q. Follows-join B h.state u.state v.state p q) (react_all sm rs u)
              (react_all-At rs u))
          (react sm r h) (react-At r h)

    parsed_then-At :
        (again : Handler → Result) (r : Parsed) (u : Handler)
        → ((v : Handler) → WhenReturns (At B v.state) (again v))
        → WhenReturns (At B u.state) (parsed_then again r u)
    parsed_then-At again r u rec =
        ground (arith, rec (record u { in_buf = drop r.consumed u.in_buf }), stays B u.state)

    parse_loop-At :
        (p : Parser) (m : ℕ) (h : Handler) → WhenReturns (At B h.state) (parse_loop sm p m h)
    unfolding parse_loop
    parse_loop-At p zero h = tt
    parse_loop-At p (suc m) h =
        WhenReturns-and_then (At B h.state) (At B h.state)
          (parsed_then (parse_loop sm p m) (p.parse h.in_buf))
          (λ u q.
            WhenReturns-map (At B u.state) (At B h.state)
              (λ v q'. Follows-join B h.state u.state v.state q q')
              (parsed_then (parse_loop sm p m) (p.parse h.in_buf) u)
              (parsed_then-At (parse_loop sm p m) (p.parse h.in_buf) u (parse_loop-At p m)))
          (react_all sm (p.parse h.in_buf).reactions h)
          (react_all-At (p.parse h.in_buf).reactions h)

    pub on_bytes-At : (p : Parser) (h : Handler) → WhenReturns (At B h.state) (on_bytes sm p h)
    on_bytes-At p h = ground (arith, parse_loop-At p (suc (length h.in_buf)) h, stays B h.state)

  pub next_write-At :
      (bs : List (List ℕ)) (h : Handler) → WhenReturns (At B h.state) (next_write bs h)
  next_write-At [] h = tt
  next_write-At ([] ∷ bs) h = ground (arith, stays B h.state)
  next_write-At ((x ∷ b) ∷ bs) h = ground (arith, stays B h.state)
