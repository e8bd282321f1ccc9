-- ===== src/ConnectionHandler/Totality.antt =====
-- The loops of class ConnectionHandler end: the fuel of the model is never used up.
use Prim.Native.String.{◌++◌ as str_append}
use amqp_cpp_asio.Base.{
  ℕ, zero, suc, ◌≡◌, refl, ◌∙◌, ◌≤◌, ◌<◌, true, false, Option, none, some, List, [], ◌∷◌, ◌++◌,
  arith, String, length, drop, length-drop, Bool-cases, inl, inr,
}
use amqp_cpp_asio.ConnectionHandler.{
  Reaction, out, failed, closed, Parsed, Parser, Completion, resolved, connected, received, written,
  Handler, is_connected, Result,
}
use amqp_cpp_asio.ConnectionHandler.Machine.{
  on_error, on_closed, on_write, on_resolved, on_connected, is_shutdown, stop_by, next_write,
  send_front,
}
use amqp_cpp_asio.ConnectionHandler.Input.{
  react, react_all, parse_loop, on_read, deliver, parsed_then, read_again, on_bytes,
}
use amqp_cpp_asio.ConnectionHandler.Fuel.{
  IsSane, UnlessOut, Within, Serves, Reacts, UnlessOut-map, UnlessOut-and_then,
}

on_resolved-Within :
    {n : ℕ} (ec : Option String) (h : Handler) → Within n h → Within n (on_resolved ec h)
unfolding on_resolved
on_resolved-Within ec h w = ground arith

on_connected-Within :
    {n : ℕ} (ec : Option String) (h : Handler) → Within n h → Within n (on_connected ec h)
unfolding on_connected
on_connected-Within ec h w = ground arith

module _ (d : ℕ) (sm : Handler → Result) (serves : Serves d sm) (n : ℕ) (lt : n < d) where
  sm-Within : (u : Handler) → Within n u → UnlessOut (Within n) (sm u)
  sm-Within u w =
      UnlessOut-map (λ v. Within n v × (is_connected v.state ≡ false)) (Within n) (λ v (a, b). a)
        (sm u) (serves n u lt w)

  sm-Reacts : (h u : Handler) → Within n u → UnlessOut (Reacts n h) (sm u)
  sm-Reacts h u w =
      UnlessOut-map (λ v. Within n v × (is_connected v.state ≡ false)) (Reacts n h)
        (λ v (a, b). (a, λ c. absurd (cc))) (sm u) (serves n u lt w)

  react-Reacts : (r : Reaction) (h : Handler) → Within n h → UnlessOut (Reacts n h) (react sm r h)
  unfolding react
  react-Reacts (out c buffer) h w = ground arith
  react-Reacts (failed c message) h w = elim (Bool-cases (is_connected h.state)) [
    | inl y ↦ rw (y, on_error) (sm-Reacts h _ w)
    | inr k ↦ rw (k, on_error) (w, λ y. (y, refl))
  ]
  react-Reacts (closed c) h w = elim (Bool-cases (is_connected h.state)) [
    | inl y ↦ rw (y, on_closed) (sm-Reacts h _ w)
    | inr k ↦ rw (k, on_closed) (w, λ y. (y, refl))
  ]

  react_all-Reacts :
      (rs : List Reaction) (h : Handler) → Within n h → UnlessOut (Reacts n h) (react_all sm rs h)
  unfolding react_all
  react_all-Reacts [] h w = (w, λ y. (y, refl))
  react_all-Reacts (r ∷ rs) h w =
      UnlessOut-and_then (Reacts n h) (Reacts n h) (react_all sm rs)
        (λ u (a, b).
          UnlessOut-map (Reacts n u) (Reacts n h)
            (λ v (c, e). (c, λ y. let (y', f) = e y in let (y'', g) = b y' in (y'', f ∙ g)))
            (react_all sm rs u) (react_all-Reacts rs u a))
        (react sm r h) (react-Reacts r h w)

  -- A pass of the loop goes on with less input.
  parsed_then-Within :
      (m : ℕ) (again : Handler → Result) (r : Parsed) (u : Handler)
      → ((v : Handler) → Within n v → length v.in_buf < m → UnlessOut (Within n) (again v))
      → (is_connected u.state ≡ true → (r.consumed ≤ length u.in_buf) × (length u.in_buf ≤ m))
      → Within n u
      → UnlessOut (Within n) (parsed_then again r u)
  parsed_then-Within m again r u rec le w = ground (
    arith,
    rec (record u { in_buf = drop r.consumed u.in_buf }) w,
    length-drop r.consumed u.in_buf,
  )

  parse_loop-Within :
      (p : Parser) (m : ℕ) (h : Handler)
      → ((xs : List ℕ) → (p.parse xs).consumed ≤ length xs)
      → length h.in_buf < m
      → Within n h
      → UnlessOut (Within n) (parse_loop sm p m h)
  unfolding parse_loop
  parse_loop-Within p zero h sane le w = absurd (omega arith)
  parse_loop-Within p (suc m) h sane le w =
      UnlessOut-and_then (Reacts n h) (Within n)
        (parsed_then (parse_loop sm p m) (p.parse h.in_buf))
        (λ u (a, b).
          parsed_then-Within m (parse_loop sm p m) (p.parse h.in_buf) u
            (λ v c l. parse_loop-Within p m v sane l c)
            (λ y. let (_, e) = b y in rw e (sane h.in_buf, omega arith)) a)
        (react_all sm (p.parse h.in_buf).reactions h)
        (react_all-Reacts (p.parse h.in_buf).reactions h w)

  stop_by-Within :
      (message : String) (h : Handler) → Within n h → UnlessOut (Within n) (stop_by sm message h)
  stop_by-Within message h w = elim (Bool-cases (is_shutdown h.state)) [
    | inl y ↦ rw y w
    | inr k ↦ rw k (sm-Within _ w)
  ]

  read_again-Within : (h : Handler) → Within n h → UnlessOut (Within n) (read_again h)
  read_again-Within h w = ground arith

  on_bytes-Within :
      (p : Parser) (h : Handler)
      → ((xs : List ℕ) → (p.parse xs).consumed ≤ length xs)
      → Within n h
      → UnlessOut (Within n) (on_bytes sm p h)
  on_bytes-Within p h sane w = ground (
    arith,
    parse_loop-Within p (suc (length h.in_buf)) h sane (omega arith) w,
    read_again-Within h w,
  )

  on_read-Within :
      (ec : Option String) (bytes : List ℕ) (p : Parser) (h : Handler)
      → ((xs : List ℕ) → (p.parse xs).consumed ≤ length xs)
      → Within n h
      → UnlessOut (Within n) (on_read sm ec bytes p h)
  unfolding on_read
  on_read-Within ec bytes p h sane w = elim (Bool-cases (is_connected h.state)) [
    | inl y ↦ rw (y, on_read) (read_in ec)
    | inr k ↦ rw (k, on_read) w
  ]
    where
      read_in :
          (e : Option String)
          → UnlessOut (Within n) (elim e [
            | none ↦ on_bytes sm p (record h { read_req = false; in_buf = h.in_buf ++ bytes })
            | some m ↦ stop_by sm (str_append "read error: " m) (record h { read_req = false })
          ])
      read_in none = on_bytes-Within p _ sane w
      read_in (some m) = stop_by-Within _ _ w

  next_write-Within :
      (bs : List (List ℕ)) (h : Handler) → Within n h → UnlessOut (Within n) (next_write bs h)
  next_write-Within [] h w = tt
  next_write-Within ([] ∷ bs) h w = ground arith
  next_write-Within ((x ∷ b) ∷ bs) h w = ground arith

  on_write-Within :
      (ec : Option String) (bytes : ℕ) (h : Handler)
      → Within n h
      → UnlessOut (Within n) (on_write sm ec bytes h)
  unfolding on_write
  on_write-Within ec bytes h w = elim (Bool-cases (is_connected h.state)) [
    | inl y ↦ rw (y, on_write) (write_in ec)
    | inr k ↦ rw (k, on_write) w
  ]
    where
      write_in :
          (e : Option String)
          → UnlessOut (Within n) (elim e [
            | none ↦
                next_write
                  (send_front bytes h.out_bufs)
                  (record h { write_req = false; out_bufs = send_front bytes h.out_bufs })
            | some m ↦
                stop_by sm
                  (str_append "write error: " m)
                  (record h { write_req = false; out_bufs = send_front bytes h.out_bufs })
          ])
      write_in none = next_write-Within (send_front bytes h.out_bufs) _ w
      write_in (some m) = stop_by-Within _ _ w

  -- Whatever handler the event loop calls, no fuel runs out, and no handler is added.
  pub deliver-Within :
      (c : Completion) (h : Handler) → IsSane c → Within n h → UnlessOut (Within n) (deliver sm c h)
  unfolding deliver
  deliver-Within (resolved ec) h s w = on_resolved-Within ec h w
  deliver-Within (connected ec) h s w = on_connected-Within ec h w
  deliver-Within (received ec bytes p) h s w = on_read-Within ec bytes p h s w
  deliver-Within (written ec k) h s w = on_write-Within ec k h w
