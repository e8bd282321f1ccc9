-- ===== src/ConnectionHandler/Output.antt =====
-- The queue of outgoing buffers (`onData` and `onWrite`, src/AmqpConnectionHandler.cpp) seen as a stream
-- of bytes.
use mathlib.Core.List.{append-nil, append_assoc}
use amqp_cpp_asio.Base.{
  ℕ, ◌≡◌, refl, sym, ◌∙◌, ap, subst, Bool, true, false, not, none, List, [], ◌∷◌, ◌++◌, arith, take,
  drop, take-append-drop,
}
use amqp_cpp_asio.ConnectionHandler.{Handler, is_connected, Result, returns}
use amqp_cpp_asio.ConnectionHandler.Returning.{Returns}
use amqp_cpp_asio.ConnectionHandler.Machine.{on_data, on_write, send_front}

abbrev is_nil : List (List ℕ) → Bool
is_nil [] = true
is_nil (b ∷ bs) = false

-- The bytes that wait, in the order in which they are to be sent.
abbrev pub flat : List (List ℕ) → List ℕ
flat [] = []
flat (b ∷ bs) = b ++ flat bs

-- The bytes that a write of `n` bytes takes from the front buffer.
abbrev pub front_bytes : ℕ → List (List ℕ) → List ℕ
front_bytes n [] = []
front_bytes n (b ∷ bs) = take n b

-- A connection is there, and a write is pending exactly while a buffer waits.
pub record IsSending (h : Handler) : Type 0 where
  pub on_line : is_connected h.state ≡ true
  pub busy : h.write_req ≡ not (is_nil h.out_bufs)

flat-append : (bs : List (List ℕ)) (b : List ℕ) → flat (bs ++ b ∷ []) ≡ flat bs ++ b
flat-append [] b = append-nil b
flat-append (a ∷ bs) b = ap (◌++◌ a) (flat-append bs b) ∙ sym (append_assoc a (flat bs) b)

flat-send_front :
    (n : ℕ) (bs : List (List ℕ)) → front_bytes n bs ++ flat (send_front n bs) ≡ flat bs
flat-send_front n [] = refl
flat-send_front n (b ∷ bs) =
    sym (append_assoc (take n b) (drop n b) (flat bs))
    ∙ ap (λ xs. xs ++ flat bs) (take-append-drop n b)

out_bufs-on_data :
    (c : ℕ) (buffer : List ℕ) (h : Handler)
    → is_connected h.state ≡ true
    → (on_data c buffer h).out_bufs ≡ h.out_bufs ++ buffer ∷ []
unfolding on_data
out_bufs-on_data c buffer h l = ground arith

on_data-IsSending :
    (c : ℕ) (buffer : List ℕ) (h : Handler) → IsSending h → IsSending (on_data c buffer h)
unfolding on_data
on_data-IsSending c buffer h v = ground arith

on_write-IsSending :
    (sm : Handler → Result) (n : ℕ) (h : Handler)
    → IsSending h
    → h.write_req ≡ true
    → Returns
        (λ u. IsSending u × (flat u.out_bufs ≡ flat (send_front n h.out_bufs)))
        (on_write sm none n h)
unfolding on_write
on_write-IsSending sm n h v w = ground arith

module _ (sm : Handler → Result) where
  -- What happens to the queue while the connection holds: AMQP-CPP gives a buffer, or the pending write
  -- ends after some bytes of the front buffer. The lists are the bytes given and sent so far.
  pub data Sends (h : Handler) : List ℕ → List ℕ → Handler → Type 0 where
    here : Sends h [] [] h
    gave :
        {given sent : List ℕ} {u : Handler} (c : ℕ) (buffer : List ℕ)
        → Sends h given sent u
        → Sends h (given ++ buffer) sent (on_data c buffer u)
    wrote :
        {given sent : List ℕ} {u w : Handler} (n : ℕ)
        → Sends h given sent u
        → u.write_req ≡ true
        → on_write sm none n u ≡ returns w
        → Sends h given (sent ++ front_bytes n u.out_bufs) w

  abbrev Streams : Handler → List ℕ → List ℕ → Handler → Type 0
  Streams h given sent u = IsSending u × (sent ++ flat u.out_bufs ≡ flat h.out_bufs ++ given)

  on_write-Streams :
      (h u w : Handler) (given sent : List ℕ) (n : ℕ)
      → Streams h given sent u
      → u.write_req ≡ true
      → on_write sm none n u ≡ returns w
      → Streams h given (sent ++ front_bytes n u.out_bufs) w
  on_write-Streams h u w given sent n (v, e) p q =
      let (v', f) =
        subst (Returns (λ x. IsSending x × (flat x.out_bufs ≡ flat (send_front n u.out_bufs)))) q
          (on_write-IsSending sm n u v p) in
      (
        v',
        append_assoc sent (front_bytes n u.out_bufs) (flat w.out_bufs)
            ∙ ap (λ xs. sent ++ (front_bytes n u.out_bufs ++ xs)) f
            ∙ ap (◌++◌ sent) (flat-send_front n u.out_bufs)
            ∙ e,
      )

  on_data-Streams :
      (h u : Handler) (given sent buffer : List ℕ) (c : ℕ)
      → Streams h given sent u
      → Streams h (given ++ buffer) sent (on_data c buffer u)
  on_data-Streams h u given sent buffer c (v, e) = (
    on_data-IsSending c buffer u v,
    ap (λ bs. sent ++ flat bs) (out_bufs-on_data c buffer u v.on_line)
        ∙ ap (◌++◌ sent) (flat-append u.out_bufs buffer)
        ∙ sym (append_assoc sent (flat u.out_bufs) buffer)
        ∙ ap (λ xs. xs ++ buffer) e
        ∙ append_assoc (flat h.out_bufs) given buffer,
  )

  -- From a state in which a write is pending exactly while a buffer waits, after any sequence of
  -- onData and of writes that end without an error after any number of bytes, the bytes sent
  -- followed by the bytes still queued are the bytes queued at first followed by those given
  -- since, and a write is again pending exactly while a buffer waits
  pub Sends-flat :
      (h u : Handler) (given sent : List ℕ)
      → IsSending h
      → Sends h given sent u
      → IsSending u × (sent ++ flat u.out_bufs ≡ flat h.out_bufs ++ given)
  Sends-flat h u given sent v s = go s
    where
      go : {given sent : List ℕ} {u : Handler} → Sends h given sent u → Streams h given sent u
      go here = (v, sym (append-nil (flat h.out_bufs)))
      go (gave {given = g} {sent = s} {u = x} c buffer r) = on_data-Streams h x g s buffer c (go r)
      go (wrote {given = g} {sent = s} {u = x} {w = y} n r p q) =
          on_write-Streams h x y g s n (go r) p q

  -- While a write is pending exactly while a buffer waits, the end of the pending write without
  -- an error, after any number of bytes, returns without asking an empty queue for its front,
  -- and again a write is pending exactly while a buffer waits
  pub on_write-Returns :
      (n : ℕ) (h : Handler)
      → IsSending h
      → h.write_req ≡ true
      → Returns IsSending (on_write sm none n h)
  unfolding on_write
  on_write-Returns n h v w = ground arith
