-- ===== src/ConnectionHandler/Stream.antt =====
-- The input of class ConnectionHandler (`onRead`, src/AmqpConnectionHandler.cpp) seen as a stream of bytes.
use mathlib.Core.List.{append_assoc}
use amqp_cpp_asio.Base.{
  ℕ, zero, suc, ◌≡◌, refl, sym, ◌∙◌, ap, subst, ◌≤◌, ◌<◌, Bool, true, false, not, ◌&&◌, none,
  is_set, leb, ◌==◌, length, length-drop, List, [], ◌∷◌, ◌++◌, arith, take, drop, take-append-drop,
  All, Bool-cases, inl, inr, if◌then◌else◌,
}
use amqp_cpp_asio.ConnectionHandler.{
  Handler, is_connected, read_some, Result, returns, Reaction, out, failed, closed, Parsed, Parser,
}
use amqp_cpp_asio.ConnectionHandler.Machine.{on_data}
use amqp_cpp_asio.ConnectionHandler.Input.{react, react_all, parse_loop, parsed_then, on_read}
use amqp_cpp_asio.ConnectionHandler.Returning.{Returns, Returns-map, Returns-and_then}

-- A reaction that does not end the connection.
abbrev pub is_out : Reaction → Bool
is_out (out c buffer) = true
is_out _ = false

-- The parser asks for no end of the connection, and uses up no more than it is given.
pub record IsQuiet (p : Parser) : Type 0 where
  pub outs : (xs : List ℕ) → All (λ r. is_out r ≡ true) (p.parse xs).reactions
  pub within : (xs : List ℕ) → (p.parse xs).consumed ≤ length xs

-- The bytes that are parsed, each time as many as AMQP-CPP uses up, while it has used some and
-- enough are left for a frame.
abbrev pub parsed : Parser → ℕ → List ℕ → List ℕ
parsed p zero xs = []
parsed p (suc n) xs =
    let r = p.parse xs in
    let rest = drop r.consumed xs in
    let more = take r.consumed xs ++ parsed p n rest in
    if leb r.expected (length rest) && not (r.consumed == 0) then more else take r.consumed xs

-- What one call of `onRead` has AMQP-CPP parse of the bytes that are there.
abbrev pub parsed_of : Parser → List ℕ → List ℕ
parsed_of p xs = if leb p.expected (length xs) then parsed p (suc (length xs)) xs else []

-- Connected, with the AMQP connection.
pub record IsOnline (h : Handler) : Type 0 where
  pub on_line : is_connected h.state ≡ true
  pub attached : is_set h.connection ≡ true

module _ (sm : Handler → Result) where
  react-keeps :
      (r : Reaction) (h : Handler)
      → is_out r ≡ true
      → IsOnline h
      → Returns (λ u. IsOnline u × (u.in_buf ≡ h.in_buf)) (react sm r h)
  unfolding react on_data
  react-keeps (out c buffer) h o v = ground arith
  react-keeps (failed c m) h o v = cc
  react-keeps (closed c) h o v = cc

  react_all-keeps :
      (xs : List ℕ) (rs : List Reaction) (h : Handler)
      → All (λ r. is_out r ≡ true) rs
      → IsOnline h
      → h.in_buf ≡ xs
      → Returns (λ u. IsOnline u × (u.in_buf ≡ xs)) (react_all sm rs h)
  unfolding react_all
  react_all-keeps xs [] h o v e = (v, e)
  react_all-keeps xs (r ∷ rs) h (o, os) v e =
      Returns-and_then (λ u. IsOnline u × (u.in_buf ≡ h.in_buf)) (λ u. IsOnline u × (u.in_buf ≡ xs))
        (react_all sm rs) (λ u (v', e'). react_all-keeps xs rs u os v' (e' ∙ e)) (react sm r h)
        (react-keeps r h o v)

  -- A read is under way again, and what was parsed followed by what is left is what was there.
  abbrev pub Reading : List ℕ → List ℕ → Handler → Type 0
  Reading used xs u = IsOnline u × (u.read_req ≡ true) × (used ++ u.in_buf ≡ xs)

  module _ (p : Parser) (q : IsQuiet p) where
    -- Whether there is more to parse.
    abbrev is_more : List ℕ → Bool
    is_more xs =
        let r = p.parse xs in leb r.expected (length (drop r.consumed xs)) && not (r.consumed == 0)

    abbrev rest : Handler → Handler
    rest u = record u { in_buf = drop (p.parse u.in_buf).consumed u.in_buf }

    parsed_then_lem :
        (again : Handler → Result) (u : Handler)
        → IsOnline u
        → (if is_more u.in_buf
            then again (rest u)
            else returns (record (rest u) { read_req = true; calls = read_some ∷ u.calls }))
          ≡ parsed_then again (p.parse u.in_buf) u
    parsed_then_lem again u v = ground arith

    length-rest : (u : Handler) → is_more u.in_buf ≡ true → length (rest u).in_buf < length u.in_buf
    length-rest u y =
        let r : Parsed = p.parse u.in_buf in
        ground (arith, length-drop r.consumed u.in_buf, q.within u.in_buf)

    parsed_then-Reading :
        (n : ℕ) (u : Handler)
        → ((v : Handler)
            → IsOnline v
            → length v.in_buf < n
            → Returns (Reading (parsed p n v.in_buf) v.in_buf) (parse_loop sm p n v))
        → length u.in_buf < suc n
        → IsOnline u
        → Returns
            (Reading (parsed p (suc n) u.in_buf) u.in_buf)
            (parsed_then (parse_loop sm p n) (p.parse u.in_buf) u)
    parsed_then-Reading n u rec lt v =
        subst (Returns (Reading (parsed p (suc n) u.in_buf) u.in_buf))
          (parsed_then_lem (parse_loop sm p n) u v)
          (elim (Bool-cases (is_more u.in_buf)) [
            | inl y ↦ rw y (again y)
            | inr k ↦ rw k (
              record { on_line = v.on_line; attached = v.attached },
              refl,
              take-append-drop (p.parse u.in_buf).consumed u.in_buf,
            )
          ])
      where
        again :
            is_more u.in_buf ≡ true
            → Returns
                (Reading
                  (take (p.parse u.in_buf).consumed u.in_buf ++ parsed p n (rest u).in_buf)
                  u.in_buf)
                (parse_loop sm p n (rest u))
        again y =
            Returns-map (Reading (parsed p n (rest u).in_buf) (rest u).in_buf) _
              (λ x (o, z, e). (
                o,
                z,
                append_assoc (take (p.parse u.in_buf).consumed u.in_buf)
                      (parsed p n (rest u).in_buf) x.in_buf
                    ∙ ap (◌++◌ (take (p.parse u.in_buf).consumed u.in_buf)) e
                    ∙ take-append-drop (p.parse u.in_buf).consumed u.in_buf,
              ))
              (parse_loop sm p n (rest u))
              (rec (rest u) (record { on_line = v.on_line; attached = v.attached })
                (omega (arith, length-rest u y)))

    parse_loop-Reading :
        (n : ℕ) (h : Handler)
        → IsOnline h
        → length h.in_buf < n
        → Returns (Reading (parsed p n h.in_buf) h.in_buf) (parse_loop sm p n h)
    unfolding parse_loop
    parse_loop-Reading zero h v lt = absurd (omega arith)
    parse_loop-Reading (suc n) h v lt =
        Returns-and_then (λ u. IsOnline u × (u.in_buf ≡ h.in_buf))
          (Reading (parsed p (suc n) h.in_buf) h.in_buf)
          (parsed_then (parse_loop sm p n) (p.parse h.in_buf))
          (λ u (v', e).
            subst
              (λ xs.
                Returns (Reading (parsed p (suc n) xs) xs)
                  (parsed_then (parse_loop sm p n) (p.parse xs) u))
              e
              (parsed_then-Reading n u (parse_loop-Reading n)
                (subst (λ xs. length xs < suc n) (sym e) lt) v'))
          (react_all sm (p.parse h.in_buf).reactions h)
          (react_all-keeps h.in_buf (p.parse h.in_buf).reactions h (q.outs h.in_buf) v refl)

    abbrev arrived : List ℕ → Handler → Handler
    arrived bytes h = record h { read_req = false; in_buf = h.in_buf ++ bytes }

    on_read_lem :
        (bytes : List ℕ) (h : Handler)
        → IsOnline h
        → (if leb p.expected (length (h.in_buf ++ bytes))
            then parse_loop sm p (suc (length (h.in_buf ++ bytes))) (arrived bytes h)
            else returns
                (record (arrived bytes h) { read_req = true; calls = read_some ∷ h.calls }))
          ≡ on_read sm none bytes p h
    unfolding on_read
    on_read_lem bytes h v = ground arith

    -- If AMQP-CPP uses up no more bytes than it is given and does not end the connection
    -- meanwhile, onRead without an error on a connection that AMQP-CPP is attached to returns, a
    -- read is under way again, the connection is still there, and the bytes that were parsed,
    -- followed by those that are left, are those that were left before followed by those that
    -- have come
    pub on_read-Reading :
        (bytes : List ℕ) (h : Handler)
        → IsOnline h
        → Returns
            (Reading (parsed_of p (h.in_buf ++ bytes)) (h.in_buf ++ bytes))
            (on_read sm none bytes p h)
    on_read-Reading bytes h v =
        subst (Returns (Reading (parsed_of p (h.in_buf ++ bytes)) (h.in_buf ++ bytes)))
          (on_read_lem bytes h v)
          (elim (Bool-cases (leb p.expected (length (h.in_buf ++ bytes)))) [
            | inl y ↦ rw y (
                parse_loop-Reading (suc (length (h.in_buf ++ bytes))) (arrived bytes h) online
                  (omega arith))
            | inr k ↦ rw k (record { on_line = v.on_line; attached = v.attached }, refl, refl)
          ])
      where
        online : IsOnline (arrived bytes h)
        online = record { on_line = v.on_line; attached = v.attached }
