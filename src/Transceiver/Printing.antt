-- ===== src/Transceiver/Printing.antt =====
-- The names by which the states of a Transceiver are printed (src/AmqpTransceiver.hpp).
use text.Mathlib.Text.{◌==◌ as str_eq}
use amqp_cpp_asio.Base.{
  String, ◌≡◌, ◌∙◌, refl, sym, ap, Bool, false, Option, none, some, List, [], ◌∷◌, get_elem?,
  if◌then◌else◌,
}
use amqp_cpp_asio.Transceiver.{
  State, index, create_channel, check_queue, recreate_channel, create_exchange, create_queue,
  bind_queue, create_consumer, ready, shutdown, unbind_queue, remove_queue, close_channel, end, max,
}

-- The array `str`.
abbrev pub state_names : List String
state_names =
    "eCreateChannel" ∷ "eCheckQueue" ∷ "eRecreateChannel" ∷ "eCreateExchange" ∷ "eCreateQueue"
    ∷ "eBindQueue" ∷ "eCreateConsumer" ∷ "eReady" ∷ "eShutdown" ∷ "eUnbindQueue" ∷ "eRemoveQueue"
    ∷ "eCloseChannel" ∷ "eEnd" ∷ "eMax" ∷ []

-- `operator<<`: what is printed, or `none` for an index out of the array.
abbrev pub print_state : State → Option String
print_state s = get_elem? state_names (index s)

-- The state of a list that is printed so.
abbrev reads : Option String → State → Bool
reads none s = false
reads (some text) s = elim (print_state s) [ none ↦ false | some name ↦ str_eq name text ]

abbrev find_state : List State → Option String → Option State
find_state [] text = none
find_state (s ∷ ss) text = if reads text s then some s else find_state ss text

abbrev all_states : List State
all_states =
    create_channel ∷ check_queue ∷ recreate_channel ∷ create_exchange ∷ create_queue ∷ bind_queue
    ∷ create_consumer ∷ ready ∷ shutdown ∷ unbind_queue ∷ remove_queue ∷ close_channel ∷ end ∷ max
    ∷ []

find_state-print_state : (s : State) → find_state all_states (print_state s) ≡ some s
find_state-print_state create_channel = refl
find_state-print_state _ = refl

some_injective : (s t : State) → some s ≡ some t → s ≡ t
some_injective s t e = cc

-- The index of every state is in the array.
print_state-some : (s : State) → (text : String) × (print_state s ≡ some text)
print_state-some create_channel = ("eCreateChannel", refl)
print_state-some check_queue = ("eCheckQueue", refl)
print_state-some recreate_channel = ("eRecreateChannel", refl)
print_state-some create_exchange = ("eCreateExchange", refl)
print_state-some create_queue = ("eCreateQueue", refl)
print_state-some bind_queue = ("eBindQueue", refl)
print_state-some create_consumer = ("eCreateConsumer", refl)
print_state-some ready = ("eReady", refl)
print_state-some shutdown = ("eShutdown", refl)
print_state-some unbind_queue = ("eUnbindQueue", refl)
print_state-some remove_queue = ("eRemoveQueue", refl)
print_state-some close_channel = ("eCloseChannel", refl)
print_state-some end = ("eEnd", refl)
print_state-some max = ("eMax", refl)

print_state-injective : (s t : State) → print_state s ≡ print_state t → s ≡ t
print_state-injective s t e =
    some_injective s t
      (sym (find_state-print_state s) ∙ ap (find_state all_states) e ∙ find_state-print_state t)

-- Each state has a name in the array, and no other state has the same
pub print_state-distinct :
    (s : State)
    → (text : String) × (print_state s ≡ some text)
      × ((t : State) → print_state t ≡ some text → t ≡ s)
print_state-distinct s =
    let (text, e) = print_state-some s in (text, e, λ t e'. print_state-injective t s (e' ∙ sym e))
