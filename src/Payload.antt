-- ===== src/Payload.antt =====
-- The six handlers of websocket.cc that take a frame's payload once it is complete.
use libwebsocket_component.Prelude.{
  ℕ, Bool, true, false, not, ◌++◌, ltb, ◌==◌, if◌then◌else◌, take, Outcome, done, aborted, assert,
  ◌>>=◌, ◌>>◌,
}
use libwebsocket_component.Buffer.{Buffer, readable_bytes, retrieve}
use libwebsocket_component.Frame.{
  FinE, frame_continue, frame_finished, OpcodeE, segment_message, text_message, binary_message,
  close_message, ping_message, pong_message, read_payload_data, read_extended_payload_data_u16,
  read_extended_payload_data_i64, closed, fin_of, opcode_of, get_extended_payloadlen_u16,
  get_extended_payloadlen_i64, ExtendedHeader,
}
use libwebsocket_component.Message.{Message, reset_message, unmask_payload_data}
use libwebsocket_component.Context.{
  on_message_callback, on_closed_callback, force_close, is_step, Connection, get_callback_handler,
  set_data_message, set_control_message, set_state, call, next_frame,
}

-- `append` of the frame's payload to the message, and `unMaskPayloadData` with the frame's key.
unfoldable pub take_payload : ℕ → ExtendedHeader → Buffer → Message → Message
take_payload n e buf m =
    (unmask_payload_data (not (e.header.mask == 0)) e.masking_key
      (record m { message_buffer = m.message_buffer ++ take n buf })).1

abbrev is_data : OpcodeE → Bool
is_data segment_message = true
is_data text_message = true
is_data binary_message = true
is_data _ = false

module _ {H : Type 0} where
  -- The switch on FIN and opcode of the three data frame handlers.
  unfoldable pub deliver_data : OpcodeE → FinE → Connection H → Outcome (Connection H)
  deliver_data op frame_continue s = done s
  deliver_data op frame_finished s = do
    assert (is_data op)
    let m = s.context.data_message
    let told = call (on_message_callback m.message_buffer m.message_header.message_type) s
    done (set_data_message (reset_message m) told)

  -- What the three data frame handlers share; `n` is the length of the payload.
  unfoldable pub read_data : ℕ → Connection H → Outcome (Bool × Connection H)
  read_data n s = if ltb (readable_bytes s.buf) n then done (false, s) else do
    rest ← retrieve n s.buf
    let m = take_payload n s.context.header s.buf s.context.data_message
    let h = s.context.header.header
    told ←
        deliver_data (opcode_of h.opcode) (fin_of h.fin)
          (set_data_message m (record s { buf = rest }))
    done (true, next_frame told)

  unfoldable pub parse_uncontrol_frame_read_payload_data :
      Connection H → Outcome (Bool × Connection H)
  parse_uncontrol_frame_read_payload_data s = do
    get_callback_handler s
    assert (ltb s.context.header.header.payloadlen 126)
    assert (is_step s.context.step read_payload_data)
    read_data s.context.header.header.payloadlen s

  unfoldable pub parse_uncontrol_frame_read_extended_payload_data_u16 :
      Connection H → Outcome (Bool × Connection H)
  parse_uncontrol_frame_read_extended_payload_data_u16 s = do
    get_callback_handler s
    assert (s.context.header.header.payloadlen == 126)
    assert (is_step s.context.step read_extended_payload_data_u16)
    read_data (get_extended_payloadlen_u16 s.context.header) s

  unfoldable pub parse_uncontrol_frame_read_extended_payload_data_i64 :
      Connection H → Outcome (Bool × Connection H)
  parse_uncontrol_frame_read_extended_payload_data_i64 s = do
    get_callback_handler s
    assert (s.context.header.header.payloadlen == 127)
    assert (is_step s.context.step read_extended_payload_data_i64)
    read_data (get_extended_payloadlen_i64 s.context.header) s

  -- The switch on the opcode of a final control frame.
  unfoldable pub tell_control : OpcodeE → Connection H → Outcome (Connection H)
  unfolding reset_message
  tell_control close_message s =
      let told =
        call force_close (call (on_closed_callback s.context.control_message.message_buffer) s) in
      done (set_state closed (set_data_message (reset_message s.context.data_message) told))
  tell_control ping_message s =
      let m = s.context.control_message in
      done (call (on_message_callback m.message_buffer m.message_header.message_type) s)
  tell_control pong_message s =
      let m = s.context.control_message in
      done (call (on_message_callback m.message_buffer m.message_header.message_type) s)
  tell_control _ s = aborted

  unfoldable pub deliver_control : OpcodeE → FinE → Connection H → Outcome (Connection H)
  unfolding tell_control
  deliver_control op frame_continue s = done s
  deliver_control op frame_finished s = do
    told ← tell_control op s
    done (set_control_message (reset_message told.context.control_message) told)

  -- What the three control frame handlers share.
  unfoldable pub read_control : ℕ → Connection H → Outcome (Bool × Connection H)
  read_control n s = if ltb (readable_bytes s.buf) n then done (false, s) else do
    rest ← retrieve n s.buf
    let m = take_payload n s.context.header s.buf s.context.control_message
    let h = s.context.header.header
    told ←
        deliver_control (opcode_of h.opcode) (fin_of h.fin)
          (set_control_message m (record s { buf = rest }))
    done (true, next_frame told)

  unfoldable pub parse_control_frame_read_payload_data :
      Connection H → Outcome (Bool × Connection H)
  parse_control_frame_read_payload_data s = do
    get_callback_handler s
    assert (ltb s.context.header.header.payloadlen 126)
    assert (is_step s.context.step read_payload_data)
    read_control s.context.header.header.payloadlen s

  -- The step that this handler asserts is that of a short payload, as in the source.
  unfoldable pub parse_control_frame_read_extended_payload_data_u16 :
      Connection H → Outcome (Bool × Connection H)
  parse_control_frame_read_extended_payload_data_u16 s = do
    get_callback_handler s
    assert (s.context.header.header.payloadlen == 126)
    assert (is_step s.context.step read_payload_data)
    read_control (get_extended_payloadlen_u16 s.context.header) s

  unfoldable pub parse_control_frame_read_extended_payload_data_i64 :
      Connection H → Outcome (Bool × Connection H)
  parse_control_frame_read_extended_payload_data_i64 s = do
    get_callback_handler s
    assert (s.context.header.header.payloadlen == 127)
    assert (is_step s.context.step read_extended_payload_data_i64)
    read_control (get_extended_payloadlen_i64 s.context.header) s
