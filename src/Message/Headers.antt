-- ===== src/Message/Headers.antt =====
-- `addFrameHeader` and `testValidate` of websocket.cc: the headers that a message collects.
pub mod Adding
use libwebsocket_component.Prelude.{
  Bool, true, false, ◌||◌, List, [], ◌∷◌, ◌++◌, Outcome, done, aborted, assert, ◌>>=◌, ◌>>◌,
}
use libwebsocket_component.Frame.{
  FinE, frame_continue, frame_finished, OpcodeE, segment_message, text_message, binary_message,
  close_message, ping_message, pong_message, reserved, FrameControlE, control_frame,
  un_control_frame, MessageFrameE, unknown_frame, head_frame, middle_frame, tail_frame,
  head_tail_frame, ExtendedHeader, fin_of, opcode_of,
}
use libwebsocket_component.Message.{FrameHeader, make_frame_header, MessageHeader}

-- Equality of enumerators, as `==` in the asserts.
abbrev is_message_frame : MessageFrameE → MessageFrameE → Bool
is_message_frame head_frame head_frame = true
is_message_frame middle_frame middle_frame = true
is_message_frame tail_frame tail_frame = true
is_message_frame head_tail_frame head_tail_frame = true
is_message_frame unknown_frame unknown_frame = true
is_message_frame _ _ = false

abbrev pub is_un_control : FrameControlE → Bool
is_un_control un_control_frame = true
is_un_control _ = false

abbrev is_control : FrameControlE → Bool
is_control control_frame = true
is_control _ = false

abbrev is_message_type : OpcodeE → OpcodeE → Bool
is_message_type text_message text_message = true
is_message_type binary_message binary_message = true
is_message_type close_message close_message = true
is_message_type ping_message ping_message = true
is_message_type pong_message pong_message = true
is_message_type _ _ = false

-- The asserts of `testValidate`, by opcode and FIN.
validate_kind : OpcodeE → FinE → MessageFrameE → FrameControlE → Outcome (Unit {0})
validate_kind segment_message frame_continue m c =
    assert (is_message_frame m middle_frame) >> assert (is_un_control c)
validate_kind segment_message frame_finished m c =
    assert (is_message_frame m tail_frame) >> assert (is_un_control c)
validate_kind text_message frame_continue m c =
    assert (is_message_frame m head_frame) >> assert (is_un_control c)
validate_kind text_message frame_finished m c =
    assert (is_message_frame m head_tail_frame) >> assert (is_un_control c)
validate_kind binary_message frame_continue m c =
    assert (is_message_frame m head_frame) >> assert (is_un_control c)
validate_kind binary_message frame_finished m c =
    assert (is_message_frame m head_tail_frame) >> assert (is_un_control c)
validate_kind close_message frame_continue m c = aborted
validate_kind close_message frame_finished m c = assert (is_control c)
validate_kind ping_message frame_continue m c = aborted
validate_kind ping_message frame_finished m c =
    assert (is_message_frame m head_tail_frame) >> assert (is_control c)
validate_kind pong_message frame_continue m c = aborted
validate_kind pong_message frame_finished m c =
    assert (is_message_frame m head_tail_frame) >> assert (is_control c)
validate_kind reserved f m c = aborted

unfoldable pub test_validate : FrameHeader → Outcome (Unit {0})
unfolding validate_kind
test_validate f =
    validate_kind (opcode_of f.header.header.opcode) (fin_of f.header.header.fin)
      f.message_frame_type f.frame_control_type

-- The first switch of `addFrameHeader`: the kind of the frame, with the assert on the message type.
add_kind : OpcodeE → OpcodeE → FinE → Outcome (FrameControlE × MessageFrameE)
add_kind t segment_message frame_continue = do
  assert (is_message_type t text_message || is_message_type t binary_message)
  done (un_control_frame, middle_frame)
add_kind t segment_message frame_finished = do
  assert (is_message_type t text_message || is_message_type t binary_message)
  done (un_control_frame, tail_frame)
add_kind t text_message frame_continue = do
  assert (is_message_type t text_message)
  done (un_control_frame, head_frame)
add_kind t text_message frame_finished = do
  assert (is_message_type t text_message)
  done (un_control_frame, head_tail_frame)
add_kind t binary_message frame_continue = do
  assert (is_message_type t binary_message)
  done (un_control_frame, head_frame)
add_kind t binary_message frame_finished = do
  assert (is_message_type t binary_message)
  done (un_control_frame, head_tail_frame)
add_kind t close_message frame_continue = aborted
add_kind t close_message frame_finished = do
  assert (is_message_type t close_message)
  done (control_frame, head_tail_frame)
add_kind t ping_message frame_continue = aborted
add_kind t ping_message frame_finished = do
  assert (is_message_type t ping_message)
  done (control_frame, head_tail_frame)
add_kind t pong_message frame_continue = aborted
add_kind t pong_message frame_finished = do
  assert (is_message_type t pong_message)
  done (control_frame, head_tail_frame)
add_kind t reserved f = aborted

-- The loop of asserts over the headers that are there.
all_un_control : List FrameHeader → Outcome (Unit {0})
all_un_control [] = done tt
all_un_control (f ∷ fs) = assert (is_un_control f.frame_control_type) >> all_un_control fs

unfoldable pub add_frame_header :
    ExtendedHeader → MessageHeader → Outcome (MessageFrameE × MessageHeader)
unfolding add_kind all_un_control make_frame_header test_validate
add_frame_header e m = do
  (c, k) ← add_kind m.message_type (opcode_of e.header.opcode) (fin_of e.header.fin)
  all_un_control m.frame_headers
  f ← make_frame_header c k e
  test_validate f
  done (k, record m { frame_headers = m.frame_headers ++ f ∷ [] })
