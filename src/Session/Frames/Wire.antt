-- ===== src/Session/Frames/Wire.antt =====
-- The first step of the parser on a client's frame, for each of the three forms of the length.
use libwebsocket_component.Prelude.{
  ℕ, suc, ◌+◌, ◌*◌, ◌^◌, ◌≤◌, ◌<◌, ◌≡◌, refl, ◌∙◌, arith, Bool, true, false, inl, List, [], ◌∷◌,
  ◌++◌, ltb, leb, lt→ltb, le→not-ltb, ◌==◌, length, Option, done, ◌>>=◌,
}
use libwebsocket_component.Endian.{octet_at}
use libwebsocket_component.Buffer.{retrieve}
use libwebsocket_component.Frame.{
  FinE, OpcodeE, segment_message, text_message, binary_message, close_message, ping_message,
  pong_message, reserved, read_frame_header, read_maskingkey, opcode_of, opcode_code, fin_code,
}
use libwebsocket_component.Context.{Connection}
use libwebsocket_component.Message.{xor_from}
use libwebsocket_component.Parser.{
  parse_frame_header, update_frame_body_parse_step, parse_frame_read_frame_header,
  parse_frame_read_maskingkey,
}
use libwebsocket_component.Session.{
  ClientFrame, key, wire, wire_body, Session, receive_read, Fits, FitsAs, connection_at, connection,
}
use libwebsocket_component.Session.Headers.{
  client_header, header_of_bytes-client, parse_frame_read_maskingkey-key,
  parse_frame_read_extended_payloadlen_u16-length, parse_frame_read_extended_payloadlen_i64-length,
}
use libwebsocket_component.Session.Frames.{
  begin, client_extended, validate_message_frame-Fits, masked_frame, LengthOf,
}

abbrev pub no_key : List ℕ
no_key = 0 ∷ 0 ∷ 0 ∷ 0 ∷ []

fitting_code :
    (op : OpcodeE) (fin : FinE) (n : ℕ) (σ : Session)
    → FitsAs op fin n σ
    → opcode_of (opcode_code op) ≡ op
fitting_code segment_message fin n σ h = refl
fitting_code text_message fin n σ h = refl
fitting_code binary_message fin n σ h = refl
fitting_code close_message fin n σ h = refl
fitting_code ping_message fin n σ h = refl
fitting_code pong_message fin n σ h = refl
fitting_code reserved fin n σ h = absurd h

module _ {H : Type 0} (http : Option H) where
  -- The two octets of the header are read and the message frame is valid.
  pub read_header :
      (op : OpcodeE) (fin : FinE) (m n : ℕ) (σ : Session) (rest : List ℕ)
      → m < 128
      → FitsAs op fin n σ
      → parse_frame_read_frame_header
          (connection http σ ((opcode_code op + 128 * fin_code fin) ∷ (128 + m) ∷ rest))
        ≡ ◌>>=◌ {B = Bool × Connection H}
            (update_frame_body_parse_step (
              connection_at http read_frame_header
                (client_extended op fin no_key m 0)
                (begin op σ)
                rest))
            (λ (e, u). done (true, u))
  unfolding parse_frame_read_frame_header parse_frame_header retrieve
  read_header op fin m n σ rest hm hf = rw (
    enough,
    fits,
    header_of_bytes-client op fin m hm,
    fitting_code op fin n σ hf,
    validate_message_frame-Fits http read_frame_header (client_extended op fin no_key m 0) op fin n
        σ rest hf,
  )
    where
      enough : ltb (suc (suc (length rest))) 2 ≡ false
      enough = le→not-ltb _ _ (omega arith)

      fits : leb 2 (suc (suc (length rest))) ≡ true
      fits = ground arith

  short_body :
      (f : ClientFrame) (σ : Session) (rest : List ℕ)
      → Fits f σ
      → length f.payload < 126
      → update_frame_body_parse_step (
          connection_at http read_frame_header
            (client_extended f.opcode f.fin no_key (length f.payload) 0)
            (begin f.opcode σ)
            (wire_body f rest))
        ≡ done (true, connection http (receive_read f σ) rest)
  unfolding update_frame_body_parse_step
  short_body f σ rest (octets, h) hn =
      rw (lt→ltb _ _ hn, other 126 hn (omega arith), other 127 hn (omega arith))
        (parse_frame_read_maskingkey-key http
            (client_extended f.opcode f.fin no_key (length f.payload) 0) (begin f.opcode σ) f.key0
            f.key1 f.key2 f.key3 (xor_from 0 (key f) f.payload ++ rest) refl
          ∙ masked_frame http f.opcode f.fin (key f) f.payload (length f.payload) 0 σ rest octets.0
              octets.1 h (inl (hn, refl)) (λ _. refl))
    where
      other : (k : ℕ) {n : ℕ} → n < 126 → 126 ≤ k → (n == k) ≡ false
      other k h hk = ground arith

  u16_body :
      (f : ClientFrame) (σ : Session) (rest : List ℕ)
      → length f.payload < 65536
      → update_frame_body_parse_step (
          connection_at http read_frame_header
            (client_extended f.opcode f.fin no_key 126 0)
            (begin f.opcode σ)
            (octet_at 1 (length f.payload) ∷ octet_at 0 (length f.payload) ∷ wire_body f rest))
        ≡ done (
          true,
          connection_at http read_maskingkey
              (client_extended f.opcode f.fin no_key 126 (length f.payload))
              (begin f.opcode σ)
              (wire_body f rest),
        )
  unfolding update_frame_body_parse_step
  u16_body f σ rest hn =
      parse_frame_read_extended_payloadlen_u16-length http (client_header f.opcode f.fin 126)
        (begin f.opcode σ) (length f.payload) (wire_body f rest) refl refl hn

  i64_body :
      (f : ClientFrame) (σ : Session) (rest : List ℕ)
      → length f.payload < 2 ^ 64
      → update_frame_body_parse_step (
          connection_at http read_frame_header
            (client_extended f.opcode f.fin no_key 127 0)
            (begin f.opcode σ)
            (octet_at 7 (length f.payload)
              ∷ octet_at 6 (length f.payload)
              ∷ octet_at 5 (length f.payload)
              ∷ octet_at 4 (length f.payload)
              ∷ octet_at 3 (length f.payload)
              ∷ octet_at 2 (length f.payload)
              ∷ octet_at 1 (length f.payload)
              ∷ octet_at 0 (length f.payload)
              ∷ wire_body f rest))
        ≡ done (
          true,
          connection_at http read_maskingkey
              (client_extended f.opcode f.fin no_key 127 (length f.payload))
              (begin f.opcode σ)
              (wire_body f rest),
        )
  unfolding update_frame_body_parse_step
  i64_body f σ rest hn =
      parse_frame_read_extended_payloadlen_i64-length http (client_header f.opcode f.fin 127)
        (begin f.opcode σ) (length f.payload) (wire_body f rest) refl refl hn

  -- A frame of at most 125 octets is parsed in one step.
  pub short_frame :
      (f : ClientFrame) (σ : Session) (rest : List ℕ)
      → Fits f σ
      → length f.payload < 126
      → parse_frame_read_frame_header (connection http σ (wire f rest))
        ≡ done (true, connection http (receive_read f σ) rest)
  short_frame f σ rest h hn = rw (lt→ltb _ _ hn) (
      read_header f.opcode f.fin (length f.payload) (length f.payload) σ (wire_body f rest)
        (omega arith) h.1
      ∙ rw (short_body f σ rest h hn) refl)

  -- A longer one is parsed up to its length first; `m` is 126 or 127.
  abbrev pub AtKey : ClientFrame → Session → List ℕ → ℕ → Connection H
  AtKey f σ rest m =
      connection_at http read_maskingkey
        (client_extended f.opcode f.fin no_key m (length f.payload)) (begin f.opcode σ)
        (wire_body f rest)

  pub u16_frame :
      (f : ClientFrame) (σ : Session) (rest : List ℕ)
      → Fits f σ
      → 126 ≤ length f.payload
      → length f.payload < 65536
      → parse_frame_read_frame_header (connection http σ (wire f rest))
        ≡ done (true, AtKey f σ rest 126)
  u16_frame f σ rest h lo hi =
      rw (le→not-ltb _ _ lo, lt→ltb _ _ hi)
        (read_header f.opcode f.fin 126 (length f.payload) σ _ (omega arith) h.1
          ∙ rw (u16_body f σ rest hi) refl)

  pub i64_frame :
      (f : ClientFrame) (σ : Session) (rest : List ℕ)
      → Fits f σ
      → 65536 ≤ length f.payload
      → parse_frame_read_frame_header (connection http σ (wire f rest))
        ≡ done (true, AtKey f σ rest 127)
  i64_frame f σ rest h lo =
      rw (le→not-ltb (length f.payload) 126 (omega arith), le→not-ltb _ _ lo)
        (read_header f.opcode f.fin 127 (length f.payload) σ _ (omega arith) h.1
          ∙ rw (i64_body f σ rest (big (h.0).2)) refl)
    where
      big : length f.payload < 2 ^ 63 → length f.payload < 2 ^ 64
      big q = omega arith

  -- The second step takes the key and the payload.
  pub long_frame :
      (f : ClientFrame) (σ : Session) (rest : List ℕ) (m : ℕ)
      → Fits f σ
      → LengthOf m (length f.payload) (length f.payload)
      → 126 ≤ length f.payload
      → parse_frame_read_maskingkey (AtKey f σ rest m)
        ≡ done (true, connection http (receive_read f σ) rest)
  long_frame f σ rest m (octets, h) hl lo =
      parse_frame_read_maskingkey-key http
        (client_extended f.opcode f.fin no_key m (length f.payload)) (begin f.opcode σ) f.key0
        f.key1 f.key2 f.key3 (xor_from 0 (key f) f.payload ++ rest) refl
      ∙ masked_frame http f.opcode f.fin (key f) f.payload m (length f.payload) σ rest octets.0
          octets.1 h hl (λ hn. absurd (omega arith))
