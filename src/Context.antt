-- ===== src/Context.antt =====
-- `Context_` of libwebsocket/private/websocket.cc, and what a call on a connection works with: the
-- context, the input buffer, and the calls that it has made to the callback handler, in order.
use libwebsocket_component.Prelude.{
  ℕ, Bool, true, false, List, [], ◌∷◌, ◌++◌, Option, some, ◌==◌, Outcome, assert,
}
use libwebsocket_component.Buffer.{Buffer}
use libwebsocket_component.Frame.{
  OpcodeE, text_message, close_message, StepE, read_frame_header, read_extended_payloadlen_u16,
  read_extended_payloadlen_i64, read_maskingkey, read_payload_data, read_extended_payload_data_u16,
  read_extended_payload_data_i64, StateE, closed, ExtendedHeader, zero_extended_header,
}
use libwebsocket_component.Message.{Message, new_message, reset_message}

-- The calls of `ICallbackHandler` (libwebsocket/ICallback.h). The handler reads a buffer that it is
-- handed and does not change it.
pub data Event : Type 0 where
  on_message_callback : Buffer → OpcodeE → Event
  on_closed_callback : Buffer → Event
  on_connected_callback : List ℕ → Event
  send_message : List ℕ → Event
  shutdown : Event
  force_close : Event

abbrev step_code : StepE → ℕ
step_code read_frame_header = 0
step_code read_extended_payloadlen_u16 = 1
step_code read_extended_payloadlen_i64 = 2
step_code read_maskingkey = 3
step_code read_payload_data = 4
step_code read_extended_payload_data_u16 = 5
step_code read_extended_payload_data_i64 = 6

abbrev pub is_step : StepE → StepE → Bool
is_step a b = step_code a == step_code b

-- `H` is the type of the HTTP contexts; `none` is the null pointer.
pub record Context (H : Type 0) : Type 0 where
  pub step : StepE
  pub state : StateE
  pub header : ExtendedHeader
  pub data_message : Message
  pub control_message : Message
  pub http_context : Option H
  pub has_handler : Bool

pub record Connection (H : Type 0) : Type 0 where
  pub context : Context H
  pub buf : Buffer
  pub events : List Event

module _ {H : Type 0} where
  -- `create` with the handler, the HTTP context and the two buffers; each must be there.
  unfoldable pub create : H → Buffer → Buffer → Context H
  create http data_buffer control_buffer = record {
    step = read_frame_header;
    state = closed;
    header = zero_extended_header;
    data_message = new_message text_message data_buffer;
    control_message = new_message close_message control_buffer;
    http_context = some http;
    has_handler = true;
  }

  -- `getCallbackHandler` asserts that the handler is there.
  abbrev pub get_callback_handler : Connection H → Outcome (Unit {0})
  get_callback_handler s = assert s.context.has_handler

  abbrev pub set_step : StepE → Connection H → Connection H
  set_step t s = record s { context = record s.context { step = t } }

  abbrev pub set_header : ExtendedHeader → Connection H → Connection H
  set_header e s = record s { context = record s.context { header = e } }

  abbrev pub set_data_message : Message → Connection H → Connection H
  set_data_message m s = record s { context = record s.context { data_message = m } }

  abbrev pub set_control_message : Message → Connection H → Connection H
  set_control_message m s = record s { context = record s.context { control_message = m } }

  abbrev pub set_state : StateE → Connection H → Connection H
  set_state t s = record s { context = record s.context { state = t } }

  abbrev pub call : Event → Connection H → Connection H
  call e s = record s { events = s.events ++ (e ∷ []) }

  -- The end of every payload handler: `resetExtendedHeader` and `setWebsocketStep`.
  abbrev pub next_frame : Connection H → Connection H
  next_frame s = set_step read_frame_header (set_header zero_extended_header s)

  -- `resetAll`, of the destructor and of `free`.
  unfoldable pub reset_all : Context H → Context H
  reset_all c = record c {
    header = zero_extended_header;
    data_message = reset_message c.data_message;
    control_message = reset_message c.control_message;
    step = read_frame_header;
    state = closed;
    has_handler = false;
  }
