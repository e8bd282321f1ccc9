-- ===== src/Programs/Sender/Sending.antt =====
-- The calls of `send` in examples/sender.cpp, and the lines that report them.
use amqp_cpp_asio.Base.{
  String, ◌≡◌, refl, sym, ◌∙◌, ap, subst, Bool, true, false, some, Option, [], ◌∷◌, List, arith,
  is_set, ◌⊎◌, if◌then◌else◌,
}
use amqp_cpp_asio.Transceiver.{Transceiver, Envelope, Call, publish, is_ready}
use amqp_cpp_asio.Transceiver.Machine.{call}
use amqp_cpp_asio.Transceiver.Control.{send_envelope}
use amqp_cpp_asio.Transceiver.Invariant.{IsValid}
use amqp_cpp_asio.Transceiver.Sending.{send_envelope-ready}
use amqp_cpp_asio.Transceiver.Publishing.{publishes}
use amqp_cpp_asio.Client.{Client, Result}
use amqp_cpp_asio.Client.Callbacks.{Returns}
use amqp_cpp_asio.Programs.{print, route_name, exchange_name}
use amqp_cpp_asio.Programs.Sender.{put_back, send_first, report_sent}

-- One transceiver, which is ready or not, and has published `ps`; `out` was printed.
pub record Has (up : Bool) (out : List String) (ps : List Call) (s : Client) : Type 0 where
  pub only : Transceiver
  pub alone : s.connector.transceivers ≡ only ∷ []
  pub valid : IsValid only
  pub is_up : is_ready only ≡ up
  pub sent : publishes only.calls ≡ ps
  pub named : only.exchange ≡ exchange_name
  pub printed : s.output ≡ out
  pub linked : is_set s.connector.amqp_connection ≡ s.connector.connection_handler_ready
  pub watching : s.wrapper.started ≡ true
  pub calm : (s.wrapper.rerun ≡ false) ⊎ (s.connector.connection_handler_ready ≡ false)

pub print-Has :
    (up : Bool) (out : List String) (ps : List Call) (line : String) (s : Client)
    → Has up out ps s
    → Has up (line ∷ out) ps (print line s)
print-Has up out ps line s h = record {
  only = h.only;
  alone = h.alone;
  valid = h.valid;
  is_up = h.is_up;
  sent = h.sent;
  named = h.named;
  printed = ap (◌∷◌ line) h.printed;
  linked = h.linked;
  watching = h.watching;
  calm = h.calm;
}

call-IsValid : (t : Transceiver) (c : Call) → IsValid t → IsValid (call t c)
call-IsValid t c v = ground arith

-- The calls of `publish` after one message was sent, if the transceiver was ready.
abbrev pub with_message : Bool → Envelope → List Call → List Call
with_message up m ps = if up then publish exchange_name route_name m [] ∷ ps else ps

module _ (m : Envelope) (yes_line no_line : String) (out : List String) (ps : List Call)
    (s : Client) where
  -- What sending a message by the only transceiver leaves.
  abbrev Sent : Bool → Result → Type 0
  Sent up r = Returns (Has up ((if up then yes_line else no_line) ∷ out) (with_message up m ps)) r

  abbrev sending : Option (List Transceiver × Bool)
  sending = send_first (send_envelope m route_name false) s.connector.transceivers

  -- The transceiver, and what `send` returns.
  abbrev answer : Transceiver → Bool → Transceiver × Bool
  answer t up = if up then (call t (publish t.exchange route_name m []), true) else (t, false)

  sending_lem : (up : Bool) (h : Has up out ps s) → sending ≡ put_back [] (some (answer h.only up))
  sending_lem up h =
      ap (send_first (send_envelope m route_name false)) h.alone
      ∙ ap (put_back []) (
          send_envelope-ready m route_name false h.only h.valid
          ∙ ap (λ b. some (answer h.only b)) h.is_up)

  pub report_sent-Has :
      (up : Bool) → Has up out ps s → Sent up (report_sent yes_line no_line s sending)
  report_sent-Has true h =
      subst (λ o. Sent true (report_sent yes_line no_line s o)) (sym (sending_lem true h))
        (record {
          only = call h.only (publish h.only.exchange route_name m []);
          alone = refl;
          valid = call-IsValid h.only (publish h.only.exchange route_name m []) h.valid;
          is_up = h.is_up;
          sent =
              ap (λ e. publish e route_name m [] ∷ publishes h.only.calls) h.named
              ∙ ap (◌∷◌ (publish exchange_name route_name m [])) h.sent;
          named = h.named;
          printed = ap (◌∷◌ yes_line) h.printed;
          linked = h.linked;
          watching = h.watching;
          calm = h.calm;
        })
  report_sent-Has false h =
      subst (λ o. Sent false (report_sent yes_line no_line s o)) (sym (sending_lem false h))
        (record {
          only = h.only;
          alone = refl;
          valid = h.valid;
          is_up = h.is_up;
          sent = h.sent;
          named = h.named;
          printed = ap (◌∷◌ no_line) h.printed;
          linked = h.linked;
          watching = h.watching;
          calm = h.calm;
        })
