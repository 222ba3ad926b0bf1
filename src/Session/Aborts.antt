-- ===== src/Session/Aborts.antt =====
-- Frames that a client must not send, or need not, and that the parser answers with a failed assert.
use libwebsocket_component.Prelude.{
  ℕ, suc, ◌+◌, ◌*◌, ◌≤◌, ◌<◌, ◌≡◌, refl, ◌∙◌, arith, true, false, List, ◌∷◌, ◌++◌, ltb, leb, lt→ltb,
  le→not-ltb, ◌==◌, length, length-append, Option, done, aborted,
}
use libwebsocket_component.Endian.{octet_at}
use libwebsocket_component.Buffer.{retrieve}
use libwebsocket_component.Frame.{
  frame_finished, OpcodeE, FrameControlE, un_control_frame, read_frame_header, read_maskingkey,
  read_payload_data, opcode_code, header_of_bytes, ExtendedHeader, opcode_of,
}
use libwebsocket_component.Frame.Kind.{get_frame_control_message_type}
use libwebsocket_component.Context.{Connection}
use libwebsocket_component.Payload.{
  read_control, deliver_control, tell_control, parse_control_frame_read_payload_data,
  parse_control_frame_read_extended_payload_data_u16,
}
use libwebsocket_component.Parser.{
  parse_frame_header, parse_extended_payload_data_u16, parse_masked_payload,
  update_frame_body_parse_step, parse_frame_read_frame_header, parse_step, parse_loop, parse_frame,
}
use libwebsocket_component.Parser.Loop.{parse_loop_round}
use libwebsocket_component.Session.{Session, FitsAs, connection_at, connection}
use libwebsocket_component.Session.Headers.{
  client_header, parse_frame_read_extended_payloadlen_u16-length, parse_frame_read_maskingkey-key,
}
use libwebsocket_component.Session.Frames.{
  begin, client_extended, IsData, IsControl, validate_message_frame-Fits,
}
use libwebsocket_component.Session.Frames.Wire.{no_key, read_header}
use libwebsocket_component.Session.Refinement.{parse_frame-connection}

abbrev unmasked : OpcodeE → ℕ → ExtendedHeader
unmasked op n = record (client_extended op frame_finished no_key n 0) {
  header = record (client_header op frame_finished n) { mask = 0 };
}

module _ {H : Type 0} (http : Option H) where
  -- A round that aborts ends the call.
  aborting :
      (fuel : ℕ) (ty : FrameControlE) (s : Connection H)
      → ltb 0 (length s.buf) ≡ true
      → parse_step ty s.context.step s ≡ aborted
      → parse_loop (suc fuel) ty true s ≡ aborted
  aborting fuel ty s h e = parse_loop_round fuel ty true s h ∙ rw e refl

  control_length :
      (op : OpcodeE) (n a b c d : ℕ) (σ : Session) (rest : List ℕ)
      → IsControl op
      → 126 ≤ n
      → n < 65536
      → parse_step un_control_frame read_maskingkey (
          connection_at http read_maskingkey
            (client_extended op frame_finished no_key 126 n)
            σ
            (a ∷ b ∷ c ∷ d ∷ rest))
        ≡ aborted
  unfolding parse_step parse_masked_payload parse_extended_payload_data_u16
      parse_control_frame_read_extended_payload_data_u16 get_frame_control_message_type
  control_length op n a b c d σ rest ho lo hi =
      parse_frame_read_maskingkey-key http (client_extended op frame_finished no_key 126 n) σ a b c
        d rest refl
      ∙ ground arith

  control_FitsAs : (op : OpcodeE) (σ : Session) → IsControl op → FitsAs op frame_finished 0 σ
  control_FitsAs op σ h = ground arith

  control_header :
      (op : OpcodeE) (n : ℕ) (σ : Session) (rest : List ℕ)
      → IsControl op
      → n < 65536
      → parse_step un_control_frame read_frame_header
          (connection http σ ((opcode_code op + 128) ∷ 254 ∷ octet_at 1 n ∷ octet_at 0 n ∷ rest))
        ≡ done (
          true,
          connection_at http read_maskingkey
              (client_extended op frame_finished no_key 126 n)
              (begin op σ)
              rest,
        )
  unfolding parse_step update_frame_body_parse_step
  control_header op n σ rest ho hi =
      read_header http op frame_finished 126 0 σ (octet_at 1 n ∷ octet_at 0 n ∷ rest) (omega arith)
        (control_FitsAs op σ ho)
      ∙ rw
          (parse_frame_read_extended_payloadlen_u16-length http
            (client_header op frame_finished 126) (begin op σ) n rest refl refl hi)
          refl

  -- A masked final control frame with a length of 126 to 65535 octets aborts the call as soon as its
  -- key is there.
  pub parse_frame-long_control_aborts :
      (op : OpcodeE) (n a b c d : ℕ) (σ : Session) (rest : List ℕ)
      → IsControl op
      → 126 ≤ n
      → n < 65536
      → parse_frame (
          connection http σ
            ((opcode_code op + 128) ∷ 254 ∷ octet_at 1 n ∷ octet_at 0 n ∷ a ∷ b ∷ c ∷ d ∷ rest))
        ≡ aborted
  parse_frame-long_control_aborts op n a b c d σ rest ho lo hi =
      let buf : List ℕ =
        (opcode_code op + 128) ∷ 254 ∷ octet_at 1 n ∷ octet_at 0 n ∷ a ∷ b ∷ c ∷ d ∷ rest in
      parse_frame-connection http (suc (suc (2 * length buf))) σ buf (omega arith)
      ∙ parse_loop_round (suc (2 * length buf)) un_control_frame true (connection http σ buf)
          (lt→ltb _ _ (omega arith))
      ∙ rw (control_header op n σ (a ∷ b ∷ c ∷ d ∷ rest) ho hi) (
          aborting (2 * length buf) un_control_frame _ (lt→ltb _ _ (omega arith))
            (control_length op n a b c d (begin op σ) rest ho lo hi))

  unmasked_header :
      (op : OpcodeE) (n : ℕ)
      → IsData op
      → n < 126
      → header_of_bytes (opcode_code op + 128) n
        ≡ record (client_header op frame_finished n) { mask = 0 }
  unfolding header_of_bytes
  unmasked_header op n ho h = ground arith

  unmasked_payload :
      (op : OpcodeE) (p rest : List ℕ) (σ : Session)
      → IsData op
      → length p < 126
      → parse_control_frame_read_payload_data
          (connection_at http read_payload_data (unmasked op (length p)) σ (p ++ rest))
        ≡ aborted
  unfolding parse_control_frame_read_payload_data read_control retrieve deliver_control tell_control
  unmasked_payload op p rest σ ho h = ground (arith, length-append p rest)

  -- A final data frame without a mask, of at most 125 octets, that may come in the session and is all
  -- there aborts the call.
  pub parse_frame-unmasked_aborts :
      (op : OpcodeE) (p rest : List ℕ) (σ : Session)
      → IsData op
      → FitsAs op frame_finished (length p) σ
      → length p < 126
      → parse_frame (connection http σ ((opcode_code op + 128) ∷ length p ∷ (p ++ rest))) ≡ aborted
  unfolding parse_step parse_frame_read_frame_header parse_frame_header retrieve
      update_frame_body_parse_step
  parse_frame-unmasked_aborts op p rest σ ho hf h =
      let buf : List ℕ = (opcode_code op + 128) ∷ length p ∷ (p ++ rest) in
      parse_frame-connection http (suc (2 * length buf)) σ buf (omega arith)
      ∙ aborting (2 * length buf) un_control_frame (connection http σ buf)
          (lt→ltb _ _ (omega arith))
          (rw
            (
              le→not-ltb (suc (suc (length (p ++ rest)))) 2 (omega arith),
              the_two (p ++ rest),
              unmasked_header op (length p) ho h,
              data_code op ho,
              validate_message_frame-Fits http read_frame_header (unmasked op (length p)) op
                  frame_finished (length p) σ (p ++ rest) hf,
              lt→ltb _ _ h,
              other 126 h (omega arith),
              other 127 h (omega arith),
              unmasked_payload op p rest (begin op σ) ho h,
            )
            refl)
    where
      other : (k : ℕ) {n : ℕ} → n < 126 → 126 ≤ k → (n == k) ≡ false
      other k h hk = ground arith

      the_two : (rest : List ℕ) → leb 2 (suc (suc (length rest))) ≡ true
      the_two rest = ground arith

      data_code : (op : OpcodeE) → IsData op → opcode_of (opcode_code op) ≡ op
      data_code op h = ground arith
