-- ===== src/Session/Frames.antt =====
-- One frame of a client, from the first octet of its header to the last of its payload.
pub mod Wire
use libwebsocket_component.Prelude.{
  ℕ, zero, suc, ◌+◌, ◌-◌, ◌*◌, ◌/◌, ◌%◌, ◌^◌, ◌≤◌, ◌<◌, ◌≡◌, ◌⊎◌, refl, sym, ap, ◌∙◌, arith, Bool,
  true, false, inl, inr, List, [], ◌∷◌, ◌++◌, ltb, leb, lt→ltb, le→not-ltb, ◌==◌, if◌then◌else◌,
  length, All, Option, Outcome, done, assert, ◌>>=◌, ◌>>◌,
}
use libwebsocket_component.Prelude.Octets.{IsOctet}
use libwebsocket_component.Frame.{
  FinE, frame_continue, frame_finished, OpcodeE, segment_message, text_message, binary_message,
  close_message, ping_message, pong_message, reserved, FrameControlE, control_frame,
  un_control_frame, StepE, read_frame_header, read_maskingkey, read_payload_data,
  read_extended_payload_data_u16, read_extended_payload_data_i64, Header, ExtendedHeader,
  zero_extended_header, opcode_of, fin_of, opcode_code, fin_code, get_extended_payloadlen_u16,
  get_extended_payloadlen_i64,
}
use libwebsocket_component.Frame.Kind.{get_frame_control_message_type}
use libwebsocket_component.Message.{xor_from}
use libwebsocket_component.Message.Masking.{length-xor_from, unmask_aligned}
use libwebsocket_component.Payload.{
  read_data, read_control, parse_uncontrol_frame_read_payload_data,
  parse_uncontrol_frame_read_extended_payload_data_u16,
  parse_uncontrol_frame_read_extended_payload_data_i64, parse_control_frame_read_payload_data,
  parse_control_frame_read_extended_payload_data_u16,
  parse_control_frame_read_extended_payload_data_i64,
}
use libwebsocket_component.Parser.{
  validate_message_frame, parse_payload_data, parse_extended_payload_data_u16,
  parse_extended_payload_data_i64, parse_masked_payload,
}
use libwebsocket_component.Session.{
  ClientFrame, key, Session, receive_data, receive_control, receive, receive_as, as_read, Fits,
  FitsAs, IsOctets, connection_at, connection,
}
use libwebsocket_component.Session.Payloads.{read_data_complete, read_control_complete}
use libwebsocket_component.Session.Headers.{client_header}

-- The type that a first frame gives to its message.
abbrev pub begin : OpcodeE → Session → Session
begin text_message σ = record σ { data_type = text_message }
begin binary_message σ = record σ { data_type = binary_message }
begin close_message σ = record σ { control_type = close_message }
begin ping_message σ = record σ { control_type = ping_message }
begin pong_message σ = record σ { control_type = pong_message }
begin _ σ = σ

-- The three forms of the length in a header: the 7 bits `m` and the extended length `l` give `n`.
abbrev pub LengthOf : ℕ → ℕ → ℕ → Type 0
LengthOf m l n = ((m < 126) × (m ≡ n)) ⊎ ((m ≡ 126) × (l ≡ n) × (n < 65536)) ⊎ ((m ≡ 127) × (l ≡ n))

abbrev pub IsData : OpcodeE → Type 0
IsData op = (op ≡ segment_message) ⊎ (op ≡ text_message) ⊎ (op ≡ binary_message)

abbrev pub IsControl : OpcodeE → Type 0
IsControl op = (op ≡ close_message) ⊎ (op ≡ ping_message) ⊎ (op ≡ pong_message)

abbrev pub client_extended : OpcodeE → FinE → List ℕ → ℕ → ℕ → ExtendedHeader
client_extended op fin k m l = record {
  header = client_header op fin m;
  masking_key = k;
  extended_payloadlen = l;
}

fin_of-fin_code : (fin : FinE) → fin_of (fin_code fin) ≡ fin
fin_of-fin_code frame_continue = refl
fin_of-fin_code frame_finished = refl

IsData-code : (op : OpcodeE) → IsData op → IsData (opcode_of (opcode_code op))
IsData-code op h = ground arith

control_code : (op : OpcodeE) → IsControl op → opcode_of (opcode_code op) ≡ op
control_code op h = ground arith

module _ {H : Type 0} (http : Option H) where
  pub validate_message_frame-Fits :
      (st : StepE) (e : ExtendedHeader) (op : OpcodeE) (fin : FinE) (n : ℕ) (σ : Session)
      (buf : List ℕ)
      → FitsAs op fin n σ
      → validate_message_frame op (connection_at http st e σ buf)
        ≡ done (connection_at http st e (begin op σ) buf)
  unfolding validate_message_frame
  validate_message_frame-Fits st e segment_message fin n σ buf (inl t) = rw t
  validate_message_frame-Fits st e segment_message fin n σ buf (inr t) = rw t
  validate_message_frame-Fits st e text_message fin n σ buf h = rw h
  validate_message_frame-Fits st e binary_message fin n σ buf h = rw h
  validate_message_frame-Fits st e close_message fin n σ buf h = refl
  validate_message_frame-Fits st e ping_message fin n σ buf h = refl
  validate_message_frame-Fits st e pong_message fin n σ buf h = refl
  validate_message_frame-Fits st e reserved fin n σ buf h = absurd h

  -- Each of the three payload steps comes to the handler with the length `n`.
  masked_data :
      (op : OpcodeE) (fin : FinE) (k : List ℕ) (m l n : ℕ) (σ : Session) (buf : List ℕ)
      → IsData op
      → LengthOf m l n
      → (st : StepE) × (parse_masked_payload
            (connection_at http read_maskingkey (client_extended op fin k m l) σ buf)
          ≡ read_data n (connection_at http st (client_extended op fin k m l) σ buf))
  unfolding parse_masked_payload parse_payload_data parse_extended_payload_data_u16
      parse_extended_payload_data_i64 parse_uncontrol_frame_read_payload_data
      parse_uncontrol_frame_read_extended_payload_data_u16
      parse_uncontrol_frame_read_extended_payload_data_i64 get_frame_control_message_type
      get_extended_payloadlen_u16 get_extended_payloadlen_i64
  masked_data op fin k m l n σ buf hd (inl h) = (read_payload_data, ground arith)
  masked_data op fin k m l n σ buf hd (inr (inl h)) = (read_extended_payload_data_u16, ground arith)
  masked_data op fin k m l n σ buf hd (inr (inr h)) = (read_extended_payload_data_i64, ground arith)

  masked_control :
      (op : OpcodeE) (k : List ℕ) (l n : ℕ) (σ : Session) (buf : List ℕ)
      → IsControl op
      → n < 126
      → parse_masked_payload
          (connection_at http read_maskingkey (client_extended op frame_finished k n l) σ buf)
        ≡ read_control n
            (connection_at http read_payload_data (client_extended op frame_finished k n l) σ buf)
  unfolding parse_masked_payload parse_payload_data parse_control_frame_read_payload_data
      get_frame_control_message_type
  masked_control op k l n σ buf hc h = ground arith

  -- A data frame whose payload is all there.
  data_frame :
      (op : OpcodeE) (fin : FinE) (k p : List ℕ) (m l : ℕ) (σ : Session) (rest : List ℕ)
      → IsData op
      → LengthOf m l (length p)
      → parse_masked_payload (
          connection_at http read_maskingkey
            (client_extended op fin k m l)
            σ
            (xor_from 0 k p ++ rest))
        ≡ done (
          true,
          connection http
              (receive_data fin (xor_from (length σ.pending) k (xor_from 0 k p)) σ)
              rest,
        )
  data_frame op fin k p m l σ rest hd hl =
      let q : List ℕ = xor_from 0 k p in
      let (st, handled) =
        masked_data op fin k m l (length q) σ (q ++ rest) hd (rw (length-xor_from 0 k p) hl) in
      handled
      ∙ read_data_complete http st (client_extended op fin k m l) σ fin q rest refl
          (fin_of-fin_code fin) (IsData-code op hd)

  -- The first frame of a message.
  first_frame :
      (op : OpcodeE) (fin : FinE) (k p : List ℕ) (m l : ℕ) (σ : Session) (rest : List ℕ)
      → IsData op
      → All IsOctet k
      → All IsOctet p
      → σ.pending ≡ []
      → LengthOf m l (length p)
      → parse_masked_payload (
          connection_at http read_maskingkey
            (client_extended op fin k m l)
            σ
            (xor_from 0 k p ++ rest))
        ≡ done (true, connection http (receive_data fin p σ) rest)
  first_frame op fin k p m l σ rest hd hk hp he hl =
      data_frame op fin k p m l σ rest hd hl
      ∙ ap (λ t. done (true, connection http (receive_data fin t σ) rest))
          (unmask_aligned k p σ.pending hk hp (rw he refl))

  control_frame_lem :
      (op : OpcodeE) (k p : List ℕ) (l : ℕ) (σ : Session) (rest : List ℕ)
      → IsControl op
      → All IsOctet k
      → All IsOctet p
      → length p < 126
      → parse_masked_payload (
          connection_at http read_maskingkey
            (client_extended op frame_finished k (length p) l)
            (record σ { control_type = op })
            (xor_from 0 k p ++ rest))
        ≡ done (true, connection http (receive_control op p σ) rest)
  control_frame_lem op k p l σ rest hc hk hp h =
      let q : List ℕ = xor_from 0 k p in
      rw (← length-xor_from 0 k p) (
        masked_control op k l (length q) (record σ { control_type = op }) (q ++ rest) hc
          (rw (length-xor_from 0 k p) h))
      ∙ read_control_complete http read_payload_data
          (client_extended op frame_finished k (length q) l) σ op q rest refl refl
          (control_code op hc) hc
      ∙ ap (λ t. done (true, connection http (receive_control op t σ) rest))
          (unmask_aligned k p [] hk hp refl)

  -- From the octet after the key on, for every opcode.
  pub masked_frame :
      (op : OpcodeE) (fin : FinE) (k p : List ℕ) (m l : ℕ) (σ : Session) (rest : List ℕ)
      → All IsOctet k
      → All IsOctet p
      → FitsAs op fin (length p) σ
      → LengthOf m l (length p)
      → (length p < 126 → m ≡ length p)
      → parse_masked_payload (
          connection_at http read_maskingkey
            (client_extended op fin k m l)
            (begin op σ)
            (xor_from 0 k p ++ rest))
        ≡ done (true, connection http (receive_as op fin (as_read op k p σ) σ) rest)
  masked_frame segment_message fin k p m l σ rest hk hp h hl hm =
      data_frame segment_message fin k p m l σ rest (inl refl) hl
  masked_frame text_message fin k p m l σ rest hk hp h hl hm =
      first_frame text_message fin k p m l (begin text_message σ) rest (inr (inl refl)) hk hp h hl
  masked_frame binary_message fin k p m l σ rest hk hp h hl hm =
      first_frame binary_message fin k p m l (begin binary_message σ) rest (inr (inr refl)) hk hp h
        hl
  masked_frame close_message fin k p m l σ rest hk hp (hf, hn) hl hm =
      rw (hf, hm hn) (control_frame_lem close_message k p l σ rest (inl refl) hk hp hn)
  masked_frame ping_message fin k p m l σ rest hk hp (hf, hn) hl hm =
      rw (hf, hm hn) (control_frame_lem ping_message k p l σ rest (inr (inl refl)) hk hp hn)
  masked_frame pong_message fin k p m l σ rest hk hp (hf, hn) hl hm =
      rw (hf, hm hn) (control_frame_lem pong_message k p l σ rest (inr (inr refl)) hk hp hn)
  masked_frame reserved fin k p m l σ rest hk hp h hl hm = absurd h
