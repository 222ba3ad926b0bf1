-- ===== src/Parser.antt =====
-- The steps of `parse_frame` in libwebsocket/private/websocket.cc that read the header of a frame,
-- and its loop over the input buffer.
pub mod Progress
pub mod Loop
use libwebsocket_component.Prelude.{
  ℕ, zero, suc, ◌+◌, ◌*◌, Bool, true, false, ◌&&◌, ◌||◌, List, [], ◌∷◌, ltb, ◌==◌, if◌then◌else◌,
  get_or, take, Outcome, done, aborted, unfinished, assert, ◌>>=◌, ◌>>◌,
}
use libwebsocket_component.Endian.{network_to_host16, network_to_host64}
use libwebsocket_component.Buffer.{Buffer, readable_bytes, retrieve, read_int16, read_int64}
use libwebsocket_component.Frame.{
  OpcodeE, segment_message, text_message, binary_message, close_message, ping_message, pong_message,
  reserved, FrameControlE, un_control_frame, StepE, read_frame_header, read_extended_payloadlen_u16,
  read_extended_payloadlen_i64, read_maskingkey, read_payload_data, read_extended_payload_data_u16,
  read_extended_payload_data_i64, Header, header_of_bytes, opcode_of, header_len, maskingkey_len,
  extended_payloadlen_u16, extended_payloadlen_i64, set_extended_payloadlen_u16,
  set_extended_payloadlen_i64, set_maskingkey, by_payloadlen,
}
use libwebsocket_component.Frame.Kind.{get_frame_control_message_type}
use libwebsocket_component.Message.{Message, set_message_type}
use libwebsocket_component.Message.Headers.{is_un_control}
use libwebsocket_component.Context.{
  is_step, Connection, get_callback_handler, set_step, set_header, set_data_message,
  set_control_message,
}
use libwebsocket_component.Payload.{
  parse_uncontrol_frame_read_payload_data, parse_uncontrol_frame_read_extended_payload_data_u16,
  parse_uncontrol_frame_read_extended_payload_data_i64, parse_control_frame_read_payload_data,
  parse_control_frame_read_extended_payload_data_u16,
  parse_control_frame_read_extended_payload_data_i64,
}

-- `parse_frame_header`: the two octets are copied over the bit fields.
unfoldable pub parse_frame_header : Buffer → Outcome (Header × Buffer)
parse_frame_header buf = do
  rest ← retrieve header_len buf
  done (header_of_bytes (get_or buf 0 0) (get_or buf 1 0), rest)

abbrev is_data_type : OpcodeE → Bool
is_data_type text_message = true
is_data_type binary_message = true
is_data_type _ = false

module _ {H : Type 0} where
  -- A message begins with an empty buffer and gets its type; a continuation wants a data type.
  -- With LIBWEBSOCKET_DEBUG the code also asserts the number of the frame headers, which is not here.
  unfoldable pub validate_message_frame : OpcodeE → Connection H → Outcome (Connection H)
  validate_message_frame segment_message s = do
    assert (is_data_type s.context.data_message.message_header.message_type)
    done s
  validate_message_frame text_message s = do
    assert (readable_bytes s.context.data_message.message_buffer == 0)
    done (set_data_message (set_message_type text_message s.context.data_message) s)
  validate_message_frame binary_message s = do
    assert (readable_bytes s.context.data_message.message_buffer == 0)
    done (set_data_message (set_message_type binary_message s.context.data_message) s)
  validate_message_frame close_message s = do
    assert (readable_bytes s.context.control_message.message_buffer == 0)
    done (set_control_message (set_message_type close_message s.context.control_message) s)
  validate_message_frame ping_message s = do
    assert (readable_bytes s.context.control_message.message_buffer == 0)
    done (set_control_message (set_message_type ping_message s.context.control_message) s)
  validate_message_frame pong_message s = do
    assert (readable_bytes s.context.control_message.message_buffer == 0)
    done (set_control_message (set_message_type pong_message s.context.control_message) s)
  validate_message_frame reserved s = done s

  unfoldable pub parse_frame_read_extended_payloadlen_u16 :
      Connection H → Outcome (Bool × Connection H)
  parse_frame_read_extended_payloadlen_u16 s = do
    assert (s.context.header.header.payloadlen == 126)
    assert (is_step s.context.step read_extended_payloadlen_u16)
    if ltb (readable_bytes s.buf) extended_payloadlen_u16 then done (false, s) else do
      (n, rest) ← read_int16 s.buf
      let e = set_extended_payloadlen_u16 (network_to_host16 n) s.context.header
      let to = if e.header.mask == 1 then read_maskingkey else read_extended_payload_data_u16
      done (true, set_step to (set_header e (record s { buf = rest })))

  unfoldable pub parse_frame_read_extended_payloadlen_i64 :
      Connection H → Outcome (Bool × Connection H)
  parse_frame_read_extended_payloadlen_i64 s = do
    assert (s.context.header.header.payloadlen == 127)
    assert (is_step s.context.step read_extended_payloadlen_i64)
    if ltb (readable_bytes s.buf) extended_payloadlen_i64 then done (false, s) else do
      (n, rest) ← read_int64 s.buf
      let e = set_extended_payloadlen_i64 (network_to_host64 n) s.context.header
      let to = if e.header.mask == 1 then read_maskingkey else read_extended_payload_data_i64
      done (true, set_step to (set_header e (record s { buf = rest })))

  -- The three steps that read a payload, each for a data or a control frame.
  unfoldable pub parse_payload_data : FrameControlE → Connection H → Outcome (Bool × Connection H)
  parse_payload_data ty s =
      if is_un_control ty
      then parse_uncontrol_frame_read_payload_data s
      else parse_control_frame_read_payload_data s

  unfoldable pub parse_extended_payload_data_u16 :
      FrameControlE → Connection H → Outcome (Bool × Connection H)
  parse_extended_payload_data_u16 ty s =
      if is_un_control ty
      then parse_uncontrol_frame_read_extended_payload_data_u16 s
      else parse_control_frame_read_extended_payload_data_u16 s

  unfoldable pub parse_extended_payload_data_i64 :
      FrameControlE → Connection H → Outcome (Bool × Connection H)
  parse_extended_payload_data_i64 ty s =
      if is_un_control ty
      then parse_uncontrol_frame_read_extended_payload_data_i64 s
      else parse_control_frame_read_extended_payload_data_i64 s

  -- The switch at the end of `parse_frame_ReadMaskingkey`, at the kind of the frame just read.
  unfoldable pub parse_masked_payload : Connection H → Outcome (Bool × Connection H)
  parse_masked_payload s = do
    (ty, place) ← get_frame_control_message_type s.context.header.header
    by_payloadlen s.context.header.header
        (parse_extended_payload_data_u16 ty (set_step read_extended_payload_data_u16 s))
        (parse_extended_payload_data_i64 ty (set_step read_extended_payload_data_i64 s))
        (do
          assert (ltb s.context.header.header.payloadlen 126)
          parse_payload_data ty (set_step read_payload_data s))

  unfoldable pub parse_frame_read_maskingkey : Connection H → Outcome (Bool × Connection H)
  parse_frame_read_maskingkey s = do
    assert (s.context.header.header.mask == 1)
    assert (is_step s.context.step read_maskingkey)
    if ltb (readable_bytes s.buf) maskingkey_len then done (false, s) else do
      e ← set_maskingkey (take maskingkey_len s.buf) maskingkey_len s.context.header
      rest ← retrieve maskingkey_len s.buf
      parse_masked_payload (set_header e (record s { buf = rest }))

  -- The result of the step that it calls is dropped. The last branch calls the handler of control
  -- frames for every frame with no mask, as the source does.
  unfoldable pub update_frame_body_parse_step : Connection H → Outcome (Bool × Connection H)
  update_frame_body_parse_step s = do
    assert (is_step s.context.step read_frame_header)
    by_payloadlen s.context.header.header
        (parse_frame_read_extended_payloadlen_u16 (set_step read_extended_payloadlen_u16 s))
        (parse_frame_read_extended_payloadlen_i64 (set_step read_extended_payloadlen_i64 s))
        (do
          assert (ltb s.context.header.header.payloadlen 126)
          if s.context.header.header.mask == 1
              then parse_frame_read_maskingkey (set_step read_maskingkey s)
              else parse_control_frame_read_payload_data (set_step read_payload_data s))

  unfoldable pub parse_frame_read_frame_header : Connection H → Outcome (Bool × Connection H)
  parse_frame_read_frame_header s = do
    assert (is_step s.context.step read_frame_header)
    if ltb (readable_bytes s.buf) header_len then done (false, s) else do
      (h, rest) ← parse_frame_header s.buf
      let read = set_header (record s.context.header { header = h }) (record s { buf = rest })
      valid ← validate_message_frame (opcode_of h.opcode) read
      (enough, updated) ← update_frame_body_parse_step valid
      done (true, updated)

  -- One round of the loop; `ty` is the kind of the header at the call of `parse_frame`.
  unfoldable pub parse_step : FrameControlE → StepE → Connection H → Outcome (Bool × Connection H)
  parse_step ty read_frame_header s = parse_frame_read_frame_header s
  parse_step ty read_extended_payloadlen_u16 s = parse_frame_read_extended_payloadlen_u16 s
  parse_step ty read_extended_payloadlen_i64 s = parse_frame_read_extended_payloadlen_i64 s
  parse_step ty read_maskingkey s = parse_frame_read_maskingkey s
  parse_step ty read_payload_data s = parse_payload_data ty s
  parse_step ty read_extended_payload_data_u16 s = parse_extended_payload_data_u16 ty s
  parse_step ty read_extended_payload_data_i64 s = parse_extended_payload_data_i64 ty s

  -- `while (enough && buf->readableBytes() > 0)`, with fuel.
  unfoldable pub parse_loop : ℕ → FrameControlE → Bool → Connection H → Outcome (Connection H)
  parse_loop zero ty enough s = unfinished
  parse_loop (suc fuel) ty enough s = elim (enough && ltb 0 (readable_bytes s.buf)) [
    | false ↦ done s
    | true ↦ parse_step ty s.context.step s >>= λ (e, s'). parse_loop fuel ty e s'
  ]

  -- A round takes an octet or ends a frame, so twice the octets are rounds enough.
  unfoldable pub parse_frame : Connection H → Outcome (Connection H)
  parse_frame s = do
    get_callback_handler s
    (ty, place) ← get_frame_control_message_type s.context.header.header
    parse_loop (2 * readable_bytes s.buf + 2) ty true s
