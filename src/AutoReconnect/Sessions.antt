-- ===== src/AutoReconnect/Sessions.antt =====
-- Sessions of AutoReconnect, from `start` to the exit callback of the application
-- (src/AutoReconnect.cpp).
use amqp_cpp_asio.Base.{
  ℕ, suc, Bool, true, Option, none, some, List, [], ◌∷◌, ◌≡◌, refl, subst, ◌+◌, ◌≤◌, arith,
}
use amqp_cpp_asio.Connector.{normal, broker_connect_error, amqp_error}
use amqp_cpp_asio.AutoReconnect.{
  ExitCallback, restarts, Call, started_callback, AutoReconnect, start, stop, on_started, restart,
  Event, starts, stops, connected, exited, timer, handle_event, and_then, run_events,
}

-- The exit callback that the application has set: the backup, while `restart` stands in its place.
abbrev pub application_callback : AutoReconnect → Option ExitCallback
application_callback a = elim a.connector.exit_cb [
  | some restarts ↦ a.backup_exit_callback
  | callback ↦ callback
]

-- A callback, if there is one, that is the application's.
abbrev pub IsOriginal : Option ExitCallback → Type 0
IsOriginal (some restarts) = ⊥
IsOriginal _ = Unit {0}

-- `restart` is never its own backup, and stands in the connector while the wrapper is started.
pub record IsValid (a : AutoReconnect) : Type 0 where
  pub backup_original : IsOriginal a.backup_exit_callback
  pub watched : a.started ≡ true → a.connector.exit_cb ≡ some restarts

abbrev pub Returns : (AutoReconnect → Type 0) → Option AutoReconnect → Type 0
Returns P none = ⊥
Returns P (some a) = P a

-- A `start` that is accepted comes after the last session has given the exit callback back.
abbrev pub may_come : Event → AutoReconnect → Bool
may_come (starts c) a = elim a.connector.exit_cb [ some restarts ↦ a.started | _ ↦ true ]
may_come _ a = true

abbrev pub Kept : Option ExitCallback → AutoReconnect → Type 0
Kept callback a = IsValid a × (application_callback a ≡ callback)

pub handle_event-Kept :
    (n : ℕ) (e : Event) (a : AutoReconnect)
    → may_come e a ≡ true
    → IsValid a
    → Returns (Kept (application_callback a)) (handle_event (suc n) e a)
unfolding handle_event start stop on_started restart
handle_event-Kept n (starts c) a m v = ground arith
handle_event-Kept n stops a m v = ground arith
handle_event-Kept n connected a m v = ground arith
handle_event-Kept n (exited normal) a m v = ground arith
handle_event-Kept n (exited broker_connect_error) a m v = ground arith
handle_event-Kept n (exited amqp_error) a m v = ground arith
handle_event-Kept n (timer b) a m v = ground arith

abbrev pub Continues : (AutoReconnect → Type 0) → Option AutoReconnect → Type 0
Continues P none = Unit {0}
Continues P (some a) = P a

-- Each event may come where it comes.
abbrev pub MayRun : ℕ → List Event → AutoReconnect → Type 0
MayRun n [] a = Unit {0}
MayRun n (e ∷ es) a = (may_come e a ≡ true) × Continues (MayRun n es) (handle_event n e a)

abbrev fold_events {ℓ} : {I : Type ℓ} → (Event → I → I) → I → List Event → I
fold_events next i [] = i
fold_events next i (e ∷ es) = fold_events next (next e i) es

-- What each event keeps, a run keeps.
module _ {ℓ} {I : Type ℓ} (P : I → AutoReconnect → Type 0) (next : Event → I → I) (n : ℕ)
    (each : (e : Event) (i : I) (a : AutoReconnect)
      → may_come e a ≡ true
      → P i a
      → Returns (P (next e i)) (handle_event n e a)) where
  and_then_keeps :
      (es : List Event) (i : I) (o : Option AutoReconnect)
      → ((a : AutoReconnect)
          → MayRun n es a
          → P i a
          → Returns (P (fold_events next i es)) (run_events n es a))
      → Continues (MayRun n es) o
      → Returns (P i) o
      → Returns (P (fold_events next i es)) (and_then (run_events n es) o)
  and_then_keeps es i none rest m p = absurd p
  and_then_keeps es i (some a) rest m p = rest a m p

  run_events_keeps :
      (es : List Event) (i : I) (a : AutoReconnect)
      → MayRun n es a
      → P i a
      → Returns (P (fold_events next i es)) (run_events n es a)
  unfolding run_events
  run_events_keeps [] i a m p = p
  run_events_keeps (e ∷ es) i a (m, r) p =
      and_then_keeps es (next e i) (handle_event n e a) (run_events_keeps es (next e i)) r
        (each e i a m p)

abbrev same {ℓ} : {I : Type ℓ} → Event → I → I
same e i = i

fold_same {ℓ} : {I : Type ℓ} (i : I) (es : List Event) → fold_events same i es ≡ i
fold_same i [] = refl
fold_same i (e ∷ es) = fold_same i es

-- The calls of started callbacks.
abbrev pub started_calls : List Call → ℕ
started_calls [] = 0
started_calls (started_callback c ∷ cs) = started_calls cs + 1
started_calls (c ∷ cs) = started_calls cs

abbrev pub one_if_set {ℓ} : {A : Type ℓ} → Option A → ℕ
one_if_set none = 0
one_if_set (some a) = 1

abbrev pub Bounded : ℕ → AutoReconnect → Type 0
Bounded k a = IsValid a × (started_calls a.calls + one_if_set a.started_callback ≤ k)

-- The started callbacks that an event brings.
abbrev given : Event → ℕ → ℕ
given (starts c) k = k + one_if_set c
given _ k = k

handle_event-Bounded :
    (n : ℕ) (e : Event) (k : ℕ) (a : AutoReconnect)
    → may_come e a ≡ true
    → Bounded k a
    → Returns (Bounded (given e k)) (handle_event (suc n) e a)
unfolding handle_event start stop on_started restart
handle_event-Bounded n (starts c) k a m v = ground arith
handle_event-Bounded n stops k a m v = ground arith
handle_event-Bounded n connected k a m v = ground arith
handle_event-Bounded n (exited normal) k a m v = ground arith
handle_event-Bounded n (exited broker_connect_error) k a m v = ground arith
handle_event-Bounded n (exited amqp_error) k a m v = ground arith
handle_event-Bounded n (timer b) k a m v = ground arith

-- Over any run of calls and events in which a start that is accepted comes only after the last
-- session has given the exit callback back, every call of restart returns with fuel for one
-- call, the wrapper stays valid, and the exit callback that the application has set on the
-- connector, or the backup that stands for it, stays the same
pub run_events-Kept :
    (n : ℕ) (es : List Event) (a : AutoReconnect)
    → MayRun (suc n) es a
    → IsValid a
    → Returns (Kept (application_callback a)) (run_events (suc n) es a)
run_events-Kept n es a m v =
    subst (λ c. Returns (Kept c) (run_events (suc n) es a)) (fold_same (application_callback a) es)
      (run_events_keeps Kept same (suc n)
        (λ e c b m k.
          subst (λ d. Returns (Kept d) (handle_event (suc n) e b)) k.1
            (handle_event-Kept n e b m k.0))
        es (application_callback a) a m (v, refl))

-- How many started callbacks the events of a run bring.
abbrev pub callbacks_given : List Event → ℕ
callbacks_given [] = 0
callbacks_given (starts c ∷ es) = one_if_set c + callbacks_given es
callbacks_given (e ∷ es) = callbacks_given es

fold_given : (k : ℕ) (es : List Event) → fold_events given k es ≡ k + callbacks_given es
fold_given k [] = omega arith
fold_given k (starts c ∷ es) = omega (arith, fold_given (k + one_if_set c) es)
fold_given k (stops ∷ es) = fold_given k es
fold_given k (connected ∷ es) = fold_given k es
fold_given k (exited code ∷ es) = fold_given k es
fold_given k (timer b ∷ es) = fold_given k es

-- Over any run of calls and events in which a start that is accepted comes only after the last
-- session has given the exit callback back, the started callbacks that are called, plus the one
-- that is still due, are at most those there were at first plus those given to the starts
pub run_events-Bounded :
    (n : ℕ) (es : List Event) (a : AutoReconnect)
    → MayRun (suc n) es a
    → IsValid a
    → Returns
        (Bounded (started_calls a.calls + one_if_set a.started_callback + callbacks_given es))
        (run_events (suc n) es a)
run_events-Bounded n es a m v =
    subst (λ k. Returns (Bounded k) (run_events (suc n) es a))
      (fold_given (started_calls a.calls + one_if_set a.started_callback) es)
      (run_events_keeps Bounded given (suc n) (handle_event-Bounded n) es
        (started_calls a.calls + one_if_set a.started_callback) a m (v, omega arith))
