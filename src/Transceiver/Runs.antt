-- ===== src/Transceiver/Runs.antt =====
-- Sequences of events at a Transceiver: the validity of every state that is reached, and how often
-- the exit callback is called.
use amqp_cpp_asio.Base.{
  ℕ, String, ◌≡◌, refl, subst, ◌+◌, not, ◌&&◌, Bool, List, [], ◌∷◌, arith, if◌then◌else◌,
}
use native.Mathlib.Nat.{add_assoc}
use amqp_cpp_asio.Transceiver.{
  Call, exit_callback, Transceiver, new, is_running, Outcome, done, fault, After,
}
use amqp_cpp_asio.Transceiver.Replies.{channel_ready}
use amqp_cpp_asio.Transceiver.Control.{
  on_exit, Event, starts, stops, drops, replies, step, run, and_then,
}
use amqp_cpp_asio.Transceiver.Invariant.{
  IsValid, Timely, new-IsValid, start-IsValid, stop-IsValid, drop-IsValid, handle-IsValid,
}

-- A reply comes while it is awaited; the owner's calls may come at any time.
abbrev pub Admissible : Event → Transceiver → Type 0
Admissible (replies r) t = Timely r t
Admissible _ t = Unit {0}

-- No event that may come is fatal, and each leaves the members valid.
pub step-IsValid :
    (e : Event) (t : Transceiver) → Admissible e t → IsValid t → After IsValid (step e t)
unfolding step
step-IsValid (starts c) t h v = start-IsValid c t v
step-IsValid stops t h v = stop-IsValid t v
step-IsValid drops t h v = drop-IsValid t v
step-IsValid (replies r) t h v = handle-IsValid r t h v

-- What is reached by events that may come.
pub data Reach (t : Transceiver) : Transceiver → Type 0 where
  here : Reach t t
  next :
      {u w : Transceiver} (e : Event) → Reach t u → Admissible e u → step e u ≡ done w → Reach t w

pub Reach-IsValid : {t u : Transceiver} → IsValid t → Reach t u → IsValid u
Reach-IsValid v here = v
Reach-IsValid v (next {u} {w} e r a q) =
    subst (After IsValid) q (step-IsValid e u a (Reach-IsValid v r))

on_exit-IsValid : (exit : Bool) {t : Transceiver} → IsValid t → IsValid (on_exit exit t)
unfolding on_exit
on_exit-IsValid exit v = ground arith

-- From the constructor on, after any starts, stops, drops and replies, where a reply comes only
-- while it is awaited, a transceiver's members satisfy the invariant IsValid, and whatever event
-- may come next neither follows a null pointer nor breaks the invariant
pub Reach-safe :
    (exchange queue route : String) (listener exit : Bool) {t : Transceiver} (e : Event)
    → Reach (on_exit exit (new exchange queue route listener)) t
    → Admissible e t
    → IsValid t × After IsValid (step e t)
unfolding on_exit
Reach-safe exchange queue route listener exit {t} e r a =
    let v : IsValid t =
      Reach-IsValid (on_exit-IsValid exit (new-IsValid exchange queue route listener)) r in
    (v, step-IsValid e t a v)

abbrev pub exits : List Call → ℕ
exits [] = 0
exits (exit_callback ec ∷ cs) = exits cs + 1
exits (c ∷ cs) = exits cs

abbrev pub one_if : Bool → ℕ
one_if b = if b then 1 else 0

-- The exit callbacks that a run of the machine still owes.
abbrev pub owed : Transceiver → ℕ
owed t = one_if (t.on_exit && is_running t)

abbrev pub accepted : Event → Transceiver → ℕ
accepted (starts c) t = one_if (t.on_exit && not (is_running t))
accepted _ t = 0

abbrev pub Accounted : ℕ → Bool → Transceiver → Type 0
Accounted n exit t = (exits t.calls + owed t ≡ n) × (t.on_exit ≡ exit)

step-Accounted :
    (e : Event) (t : Transceiver)
    → Admissible e t
    → IsValid t
    → After (Accounted (exits t.calls + owed t + accepted e t) t.on_exit) (step e t)
unfolding step
step-Accounted (starts c) t h v = ground arith
step-Accounted stops t h v = ground arith
step-Accounted drops t h v = ground arith
step-Accounted (replies channel_ready) t h v = ground arith
step-Accounted (replies r) t h v = ground arith

abbrev pub AfterRun : (Transceiver → Type 0) → Outcome → Type 0
AfterRun P (done t) = P t
AfterRun P fault = Unit {0}

-- Each event may come where it comes.
abbrev pub AdmissibleRun : List Event → Transceiver → Type 0
AdmissibleRun [] t = Unit {0}
AdmissibleRun (e ∷ es) t = Admissible e t × AfterRun (AdmissibleRun es) (step e t)

abbrev pub count_next : (Transceiver → ℕ) → Outcome → ℕ
count_next f (done t) = f t
count_next f fault = 0

-- How many starts of a run owe an exit callback.
abbrev pub accepted_in : List Event → Transceiver → ℕ
accepted_in [] t = 0
accepted_in (e ∷ es) t = accepted e t + count_next (accepted_in es) (step e t)

run_on :
    (es : List Event) (o : Outcome) (n : ℕ) (exit : Bool)
    → ((t : Transceiver)
        → AdmissibleRun es t
        → IsValid t
        → After (Accounted (exits t.calls + owed t + accepted_in es t) t.on_exit) (run es t))
    → AfterRun (AdmissibleRun es) o
    → After IsValid o
    → After (Accounted n exit) o
    → After (Accounted (n + count_next (accepted_in es) o) exit) (and_then o (run es))
run_on es (done t) n exit rest a v (c, x) =
    subst (λ b. After (Accounted (n + accepted_in es t) b) (run es t)) x
      (subst (λ k. After (Accounted (k + accepted_in es t) t.on_exit) (run es t)) c (rest t a v))
run_on es fault n exit rest a v c = absurd v

-- Over any run of events that may come, from a valid transceiver, the exit callbacks made, plus
-- one if a callback is set and the machine still runs, are those there were at first plus one
-- for each start that was accepted while a callback is set
pub run-Accounted :
    (es : List Event) (t : Transceiver)
    → AdmissibleRun es t
    → IsValid t
    → After (Accounted (exits t.calls + owed t + accepted_in es t) t.on_exit) (run es t)
unfolding run
run-Accounted [] t a v = (omega arith, refl)
run-Accounted (e ∷ es) t (a, b) v =
    subst (λ n. After (Accounted n t.on_exit) (run (e ∷ es) t))
      (add_assoc (exits t.calls + owed t) (accepted e t) (count_next (accepted_in es) (step e t)))
      (run_on es (step e t) _ t.on_exit (run-Accounted es) b (step-IsValid e t a v)
        (step-Accounted e t a v))
