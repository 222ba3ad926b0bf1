-- ===== src/Parser/Progress.antt =====
-- Every step of `parse_frame` takes octets or ends a frame, so its loop ends.
use libwebsocket_component.Prelude.{
  ℕ, ◌+◌, ◌*◌, ◌≤◌, ◌<◌, ◌≡◌, refl, ap, arith, Bool, true, false, inl, inr, ltb, leb, if◌then◌else◌,
  length, get_or, take, drop, length-drop, Bool-cases, Outcome, done, aborted, unfinished, ◌>>=◌,
}
use libwebsocket_component.Buffer.{Buffer, readable_bytes, retrieve, read_int16, read_int64}
use libwebsocket_component.Frame.{
  FinE, frame_continue, frame_finished, OpcodeE, segment_message, text_message, binary_message,
  close_message, ping_message, pong_message, reserved, FrameControlE, StepE, read_frame_header,
  read_extended_payloadlen_u16, read_extended_payloadlen_i64, read_maskingkey, read_payload_data,
  read_extended_payload_data_u16, read_extended_payload_data_i64, set_maskingkey,
  get_extended_payloadlen_u16, get_extended_payloadlen_i64, header_of_bytes,
}
use libwebsocket_component.Frame.Kind.{get_frame_control_message_type_cases}
use libwebsocket_component.Context.{is_step, Connection, next_frame, set_step, set_header}
use libwebsocket_component.Payload.{
  deliver_data, deliver_control, read_data, read_control, parse_uncontrol_frame_read_payload_data,
  parse_uncontrol_frame_read_extended_payload_data_u16,
  parse_uncontrol_frame_read_extended_payload_data_i64, parse_control_frame_read_payload_data,
  parse_control_frame_read_extended_payload_data_u16,
  parse_control_frame_read_extended_payload_data_i64,
}
use libwebsocket_component.Parser.{
  parse_frame_header, validate_message_frame, parse_frame_read_extended_payloadlen_u16,
  parse_frame_read_extended_payloadlen_i64, parse_payload_data, parse_extended_payload_data_u16,
  parse_extended_payload_data_i64, parse_masked_payload, parse_frame_read_maskingkey,
  update_frame_body_parse_step, parse_frame_read_frame_header, parse_step,
}

module _ {H : Type 0} where
  -- Octets count twice, and a frame that is begun once more.
  abbrev pub measure : Connection H → ℕ
  measure s = 2 * readable_bytes s.buf + (if is_step s.context.step read_frame_header then 0 else 1)

  -- What a step from `s` may give: it ends, with no octet more, and if it asks for the next round
  -- the measure is smaller.
  abbrev pub Advances : Connection H → Outcome (Bool × Connection H) → Type 0
  Advances s (done (true, s')) =
      (readable_bytes s'.buf ≤ readable_bytes s.buf) × (measure s' < measure s)
  Advances s (done (false, s')) = readable_bytes s'.buf ≤ readable_bytes s.buf
  Advances s aborted = Unit {0}
  Advances s unfinished = ⊥

  -- The delivery of a message ends and leaves the input buffer alone.
  abbrev KeepsBuf : Connection H → Outcome (Connection H) → Type 0
  KeepsBuf s (done t) = t.buf ≡ s.buf
  KeepsBuf s aborted = Unit {0}
  KeepsBuf s unfinished = ⊥

  deliver_data-KeepsBuf :
      (op : OpcodeE) (f : FinE) (s : Connection H) → KeepsBuf s (deliver_data op f s)
  unfolding deliver_data
  deliver_data-KeepsBuf op frame_continue s = refl
  deliver_data-KeepsBuf segment_message frame_finished s = refl
  deliver_data-KeepsBuf text_message frame_finished s = refl
  deliver_data-KeepsBuf binary_message frame_finished s = refl
  deliver_data-KeepsBuf _ frame_finished s = tt

  deliver_control-KeepsBuf :
      (op : OpcodeE) (f : FinE) (s : Connection H) → KeepsBuf s (deliver_control op f s)
  unfolding deliver_control
  deliver_control-KeepsBuf op frame_continue s = refl
  deliver_control-KeepsBuf close_message frame_finished s = refl
  deliver_control-KeepsBuf ping_message frame_finished s = refl
  deliver_control-KeepsBuf pong_message frame_finished s = refl
  deliver_control-KeepsBuf _ frame_finished s = tt

  validate_message_frame-KeepsBuf :
      (op : OpcodeE) (s : Connection H) → KeepsBuf s (validate_message_frame op s)
  unfolding validate_message_frame
  validate_message_frame-KeepsBuf segment_message s = ground arith
  validate_message_frame-KeepsBuf text_message s = ground arith
  validate_message_frame-KeepsBuf binary_message s = ground arith
  validate_message_frame-KeepsBuf close_message s = ground arith
  validate_message_frame-KeepsBuf ping_message s = ground arith
  validate_message_frame-KeepsBuf pong_message s = ground arith
  validate_message_frame-KeepsBuf reserved s = refl

  -- The octets of a payload are taken, a message is delivered, and the frame is at its end.
  delivered-Advances :
      (n : ℕ) (s : Connection H) (deliver : Buffer → Outcome (Connection H))
      → is_step s.context.step read_frame_header ≡ false
      → ((rest : Buffer) → KeepsBuf (record s { buf = rest }) (deliver rest))
      → Advances s
          (retrieve n s.buf >>= λ rest. deliver rest >>= λ told. done (true, next_frame told))
  unfolding retrieve
  delivered-Advances n s deliver h keeps = elim (Bool-cases (leb n (length s.buf))) [
    | inl fits ↦ rw fits (ended (deliver (drop n s.buf)) (keeps (drop n s.buf)))
    | inr short ↦ rw short tt
  ]
    where
      ended :
          (r : Outcome (Connection H))
          → KeepsBuf (record s { buf = drop n s.buf }) r
          → Advances s (r >>= λ told. done (true, next_frame told))
      ended (done t) k = rw h (omega (arith, ap readable_bytes k, length-drop n s.buf))
      ended aborted k = tt
      ended unfinished k = k

  read_data-Advances :
      (n : ℕ) (s : Connection H)
      → is_step s.context.step read_frame_header ≡ false
      → Advances s (read_data n s)
  unfolding read_data
  read_data-Advances n s h = elim (Bool-cases (ltb (readable_bytes s.buf) n)) [
    | inl short ↦ rw short (omega arith)
    | inr enough ↦ rw enough (delivered-Advances n s _ h (λ rest. deliver_data-KeepsBuf _ _ _))
  ]

  read_control-Advances :
      (n : ℕ) (s : Connection H)
      → is_step s.context.step read_frame_header ≡ false
      → Advances s (read_control n s)
  unfolding read_control
  read_control-Advances n s h = elim (Bool-cases (ltb (readable_bytes s.buf) n)) [
    | inl short ↦ rw short (omega arith)
    | inr enough ↦ rw enough (delivered-Advances n s _ h (λ rest. deliver_control-KeepsBuf _ _ _))
  ]

  parse_payload_data-Advances :
      (ty : FrameControlE) (s : Connection H) → Advances s (parse_payload_data ty s)
  unfolding parse_payload_data parse_uncontrol_frame_read_payload_data
      parse_control_frame_read_payload_data
  parse_payload_data-Advances ty s = ground (
    arith,
    read_data-Advances s.context.header.header.payloadlen s,
    read_control-Advances s.context.header.header.payloadlen s,
  )

  parse_control_frame_read_payload_data-Advances :
      (s : Connection H) → Advances s (parse_control_frame_read_payload_data s)
  unfolding parse_control_frame_read_payload_data
  parse_control_frame_read_payload_data-Advances s =
      ground (arith, read_control-Advances s.context.header.header.payloadlen s)

  parse_extended_payload_data_u16-Advances :
      (ty : FrameControlE) (s : Connection H) → Advances s (parse_extended_payload_data_u16 ty s)
  unfolding parse_extended_payload_data_u16 parse_uncontrol_frame_read_extended_payload_data_u16
      parse_control_frame_read_extended_payload_data_u16
  parse_extended_payload_data_u16-Advances ty s = ground (
    arith,
    read_data-Advances (get_extended_payloadlen_u16 s.context.header) s,
    read_control-Advances (get_extended_payloadlen_u16 s.context.header) s,
  )

  parse_extended_payload_data_i64-Advances :
      (ty : FrameControlE) (s : Connection H) → Advances s (parse_extended_payload_data_i64 ty s)
  unfolding parse_extended_payload_data_i64 parse_uncontrol_frame_read_extended_payload_data_i64
      parse_control_frame_read_extended_payload_data_i64
  parse_extended_payload_data_i64-Advances ty s = ground (
    arith,
    read_data-Advances (get_extended_payloadlen_i64 s.context.header) s,
    read_control-Advances (get_extended_payloadlen_i64 s.context.header) s,
  )

  parse_frame_read_extended_payloadlen_u16-Advances :
      (s : Connection H) → Advances s (parse_frame_read_extended_payloadlen_u16 s)
  unfolding parse_frame_read_extended_payloadlen_u16 read_int16 retrieve
  parse_frame_read_extended_payloadlen_u16-Advances s = ground (arith, length-drop 2 s.buf)

  parse_frame_read_extended_payloadlen_i64-Advances :
      (s : Connection H) → Advances s (parse_frame_read_extended_payloadlen_i64 s)
  unfolding parse_frame_read_extended_payloadlen_i64 read_int64 retrieve
  parse_frame_read_extended_payloadlen_i64-Advances s = ground (arith, length-drop 8 s.buf)

  parse_masked_payload-Advances :
      (s : Connection H) → Advances (set_step read_maskingkey s) (parse_masked_payload s)
  unfolding parse_masked_payload
  parse_masked_payload-Advances s =
      elim (get_frame_control_message_type_cases s.context.header.header) [
        | inl ((ty, place), e) ↦ rw e (
            ground (
              arith,
              parse_payload_data-Advances ty (set_step read_payload_data s),
              parse_extended_payload_data_u16-Advances ty
                  (set_step read_extended_payload_data_u16 s),
              parse_extended_payload_data_i64-Advances ty
                  (set_step read_extended_payload_data_i64 s),
            ))
        | inr e ↦ rw e tt
      ]

  parse_frame_read_maskingkey-Advances :
      (s : Connection H) → Advances s (parse_frame_read_maskingkey s)
  unfolding parse_frame_read_maskingkey set_maskingkey retrieve
  parse_frame_read_maskingkey-Advances s = ground (
    arith,
    length-drop 4 s.buf,
    parse_masked_payload-Advances (
        set_header (record s.context.header { masking_key = take 4 (take 4 s.buf) })
          (record s { buf = drop 4 s.buf })),
  )

  -- The steps that the header's step calls leave no octet more.
  update_frame_body_parse_step-Shrinks :
      (s : Connection H) → Advances (set_step read_maskingkey s) (update_frame_body_parse_step s)
  unfolding update_frame_body_parse_step
  update_frame_body_parse_step-Shrinks s = ground (
    arith,
    parse_frame_read_extended_payloadlen_u16-Advances (set_step read_extended_payloadlen_u16 s),
    parse_frame_read_extended_payloadlen_i64-Advances (set_step read_extended_payloadlen_i64 s),
    parse_frame_read_maskingkey-Advances (set_step read_maskingkey s),
    parse_control_frame_read_payload_data-Advances (set_step read_payload_data s),
  )

  -- After the two octets of a header the rest of the step cannot undo the progress.
  dropped-Advances :
      (s v : Connection H) (r : Outcome (Bool × Connection H))
      → readable_bytes v.buf + 2 ≤ readable_bytes s.buf
      → Advances (set_step read_maskingkey v) r
      → Advances s (r >>= λ (enough, u). done (true, u))
  dropped-Advances s v (done (true, u)) h a = ground arith
  dropped-Advances s v (done (false, u)) h a = ground arith
  dropped-Advances s v aborted h a = tt
  dropped-Advances s v unfinished h a = a

  begun-Advances :
      (s v : Connection H) (r : Outcome (Connection H))
      → readable_bytes v.buf + 2 ≤ readable_bytes s.buf
      → KeepsBuf v r
      → Advances s
          (r >>= λ valid. update_frame_body_parse_step valid >>= λ (enough, u). done (true, u))
  begun-Advances s v (done t) h k =
      dropped-Advances s t (update_frame_body_parse_step t) (omega (arith, ap readable_bytes k))
        (update_frame_body_parse_step-Shrinks t)
  begun-Advances s v aborted h k = tt
  begun-Advances s v unfinished h k = k

  -- The connection after `parse_frame_header`.
  abbrev header_read : Connection H → Connection H
  header_read s =
      set_header
        (record s.context.header { header = header_of_bytes (get_or s.buf 0 0) (get_or s.buf 1 0) })
        (record s { buf = drop 2 s.buf })

  parse_frame_read_frame_header-Advances :
      (s : Connection H) → Advances s (parse_frame_read_frame_header s)
  unfolding parse_frame_read_frame_header parse_frame_header retrieve
  parse_frame_read_frame_header-Advances s =
      elim (Bool-cases (is_step s.context.step read_frame_header)) [
        | inr other ↦ rw other tt
        | inl at_header ↦ rw at_header (elim (Bool-cases (ltb (readable_bytes s.buf) 2)) [
          | inl short ↦ rw short (omega arith)
          | inr enough ↦
              rw (enough, fits enough)
                (begun-Advances s (header_read s) _ (ground (arith, length-drop 2 s.buf))
                  (validate_message_frame-KeepsBuf _ _))
        ])
      ]
    where
      fits : ltb (readable_bytes s.buf) 2 ≡ false → leb 2 (readable_bytes s.buf) ≡ true
      fits e = ground arith

  pub parse_step-Advances :
      (ty : FrameControlE) (t : StepE) (s : Connection H) → Advances s (parse_step ty t s)
  unfolding parse_step
  parse_step-Advances ty read_frame_header s = parse_frame_read_frame_header-Advances s
  parse_step-Advances ty read_extended_payloadlen_u16 s =
      parse_frame_read_extended_payloadlen_u16-Advances s
  parse_step-Advances ty read_extended_payloadlen_i64 s =
      parse_frame_read_extended_payloadlen_i64-Advances s
  parse_step-Advances ty read_maskingkey s = parse_frame_read_maskingkey-Advances s
  parse_step-Advances ty read_payload_data s = parse_payload_data-Advances ty s
  parse_step-Advances ty read_extended_payload_data_u16 s =
      parse_extended_payload_data_u16-Advances ty s
  parse_step-Advances ty read_extended_payload_data_i64 s =
      parse_extended_payload_data_i64-Advances ty s
