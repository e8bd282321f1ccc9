-- ===== src/Client/Keeping.antt =====
-- Which calls of a client (src/AutoReconnect.cpp, src/AmqpConnector.cpp) keep its connector as it should be.
use amqp_cpp_asio.Base.{
  String, ◌≡◌, ◌∙◌, refl, Bool, true, false, none, some, Option, List, [], ◌∷◌, ◌++◌, arith, ℕ,
  length, is_set, if◌then◌else◌, not,
}
use amqp_cpp_asio.Connector.{ExitCode}
use amqp_cpp_asio.Connector.Machine.{
  Connector, Call, start_handler, stop_handler, post_stop, started_callback, exit_callback,
  async_start, stop_connector, disconnected,
}
use amqp_cpp_asio.Connector.Shutdown.{IsLinked, Gives}
use amqp_cpp_asio.Connector.Service.{Delivery, run, posted}
use amqp_cpp_asio.Connector.Service as Service
use amqp_cpp_asio.Connector.Service.Leading.{
  MayCome, Leads, Led, stop_connector-Leads, disconnected-Leads,
}
use amqp_cpp_asio.Connector.Service.Leading as Leading
use amqp_cpp_asio.AutoReconnect.{
  AutoReconnect, call_exit, run_connector, started_callback as told_started,
}
use amqp_cpp_asio.AutoReconnect as AutoReconnect
use amqp_cpp_asio.Client.{
  Client, Result, returns, crashes, exhausted, and_then, seen, silent, told_exit, call_exit_cb,
  call_all, after, after_call, after_loop, stop_link, stop, shut, start, second_passed,
}

-- A call may still wait for the event loop, but it follows no null pointer.
abbrev pub Keeps : (Client → Type 0) → Result → Type 0
Keeps P (returns s) = P s
Keeps P crashes = ⊥
Keeps P exhausted = Unit {0}

pub Keeps-and_then :
    (P Q : Client → Type 0) (f : Client → Result) (o : Result)
    → ((s : Client) → P s → Keeps Q (f s))
    → Keeps P o
    → Keeps Q (and_then f o)
Keeps-and_then P Q f (returns s) g p = g s p
Keeps-and_then P Q f crashes g p = p
Keeps-and_then P Q f exhausted g p = p

pub Keeps-map :
    (P Q : Client → Type 0) → ((s : Client) → P s → Q s) → (o : Result) → Keeps P o → Keeps Q o
Keeps-map P Q f (returns s) p = f s p
Keeps-map P Q f crashes p = p
Keeps-map P Q f exhausted p = p

pub Keeps-if :
    (P : Client → Type 0) (b : Bool) (x y : Result)
    → (b ≡ true → Keeps P x)
    → (b ≡ false → Keeps P y)
    → Keeps P (if b then x else y)
Keeps-if P true x y p q = p refl
Keeps-if P false x y p q = q refl

-- The flags of the connector hold together, and it has so many transceivers, all valid.
abbrev pub HasLinked : ℕ → Connector → Type 0
HasLinked k c = IsLinked c × (length c.transceivers ≡ k)

abbrev pub HasLink : ℕ → Client → Type 0
HasLink k s = HasLinked k s.connector

abbrev pub IsSafe : ℕ → (Client → Result) → Type 0
IsSafe k f = (s : Client) → HasLink k s → Keeps (HasLink k) (f s)

async_start-HasLinked :
    (k : ℕ) (callback : Bool) (c : Connector) → HasLinked k c → HasLinked k (async_start callback c)
async_start-HasLinked k callback c v = ground arith

-- Only what does not matter here is another.
relinked :
    (k : ℕ) (on_exit : Bool) (calls : List Call) (c : Connector)
    → HasLinked k c
    → HasLinked k (record c { on_exit = on_exit; calls = calls })
relinked k on_exit calls c (v, n) = (record { valid = v.valid; linked = v.linked }, n)

if-HasLink :
    (k : ℕ) (b : Bool) (x y : Client) → HasLink k x → HasLink k y → HasLink k (if b then x else y)
if-HasLink k true x y p q = p
if-HasLink k false x y p q = q

pub start-HasLink : (k : ℕ) (s : Client) → HasLink k s → HasLink k (start s)
unfolding start
start-HasLink k s v = if-HasLink k s.wrapper.started s t v (
    async_start-HasLinked k true (record s.connector { on_exit = true })
      (relinked k true s.connector.calls s.connector v))
  where
    t : Client
    t = record s {
      wrapper = AutoReconnect.start (some 0) (seen s);
      connector = async_start true (record s.connector { on_exit = true });
    }

pub second_passed-HasLink :
    (k : ℕ) (aborted : Bool) (s : Client) → HasLink k s → HasLink k (second_passed aborted s)
unfolding second_passed
second_passed-HasLink k true s v = v
second_passed-HasLink k false s v = async_start-HasLinked k true s.connector v

module _ (loop : Connector → Delivery) (lines : ExitCode → List String) (k : ℕ) where
  told_exit-Keeps :
      (s : Client) (o : Option AutoReconnect)
      → HasLink k s
      → Keeps (HasLink k) (told_exit lines s o)
  told_exit-Keeps s none v = tt
  told_exit-Keeps s (some b) v =
      relinked k (is_set b.connector.exit_cb) s.connector.calls s.connector v

  call_all-Keeps :
      (cs : List Call) (s : Client) → HasLink k s → Keeps (HasLink k) (call_all loop lines cs s)
  unfolding call_all call_exit_cb
  call_all-Keeps [] s v = v
  call_all-Keeps (exit_callback code ∷ cs) s v =
      Keeps-and_then (HasLink k) (HasLink k) (call_exit_cb loop lines code)
        (call_all loop lines cs s)
        (λ t w. told_exit-Keeps t (call_exit 1 code (record (seen t) { calls = [] })) w)
        (call_all-Keeps cs s v)
  call_all-Keeps (start_handler ∷ cs) s v = call_all-Keeps cs s v
  call_all-Keeps (stop_handler ∷ cs) s v = call_all-Keeps cs s v
  call_all-Keeps (post_stop ∷ cs) s v = call_all-Keeps cs s v
  call_all-Keeps (started_callback ∷ cs) s v = call_all-Keeps cs s v

  after-Keeps :
      (s : Client) (u : Connector) → HasLinked k u → Keeps (HasLink k) (after loop lines s u)
  after-Keeps s u w =
      call_all-Keeps u.calls
        (record s { connector = record u { calls = u.calls ++ s.connector.calls } })
        (relinked k u.on_exit (u.calls ++ s.connector.calls) u w)

  -- After a call of the connector.
  Led-HasLinked :
      (s : Client) (codes : List ExitCode) (u : Connector)
      → HasLink k s
      → Leads (silent s) codes u
      → HasLinked k u
  Led-HasLinked s codes u v x = (x.linked, x.kept ∙ v.1)

  pub after_loop-Keeps :
      (s : Client) (o : Service.Result)
      → HasLink k s
      → Leading.Keeps (Led (silent s)) o
      → Keeps (HasLink k) (after_loop loop lines s o)
  after_loop-Keeps s (Service.returns u) v (ks, x) = after-Keeps s u (Led-HasLinked s ks u v x)
  after_loop-Keeps s Service.crashes v x = x
  after_loop-Keeps s Service.exhausted v x = x

  after_call-Keeps :
      (s : Client) (codes : List ExitCode) (o : Option Connector)
      → HasLink k s
      → Gives (Leads (silent s) codes) o
      → Keeps (HasLink k) (after_call loop lines s o)
  after_call-Keeps s codes none v x = x
  after_call-Keeps s codes (some u) v x = after-Keeps s u (Led-HasLinked s codes u v x)

  pub silent-IsLinked : (s : Client) → HasLink k s → IsLinked (silent s)
  silent-IsLinked s v = (relinked k s.connector.on_exit [] s.connector v).0

  pub stop_link-Keeps : IsSafe k (stop_link loop lines)
  stop_link-Keeps s v =
      after_call-Keeps s [] (stop_connector (silent s)) v
        (stop_connector-Leads (silent s) (silent-IsLinked s v))

  pub stop-Keeps : IsSafe k (stop loop lines)
  unfolding stop
  stop-Keeps s v =
      let t : Client = record s { wrapper = AutoReconnect.stop (seen s) } in
      Keeps-if (HasLink k) (not s.wrapper.started) (returns s)
        (if s.connector.connection_handler_ready then stop_link loop lines t else returns t)
        (λ e. v)
        (λ e.
          Keeps-if (HasLink k) s.connector.connection_handler_ready (stop_link loop lines t)
            (returns t) (λ e. stop_link-Keeps t v) (λ e. v))

  pub shut-Keeps : (error : Bool) → IsSafe k (shut loop lines error)
  unfolding shut
  shut-Keeps error s v =
      after_call-Keeps s _ (disconnected error (silent s)) v
        (disconnected-Leads error (silent s) (silent-IsLinked s v))
