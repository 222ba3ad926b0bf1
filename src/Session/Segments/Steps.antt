-- ===== src/Session/Segments/Steps.antt =====
-- The steps of the parser at each place inside a frame, with enough input and without.
use libwebsocket_component.Prelude.{
  ℕ, ◌<◌, ◌≡◌, ◌⊎◌, refl, sym, ap, ◌∙◌, arith, Bool, true, false, inl, inr, List, ◌++◌, length,
  append-split, Option, Outcome, done,
}
use native.Mathlib.Decide.{dec_lt}
use libwebsocket_component.Frame.{
  FrameControlE, read_maskingkey, get_extended_payloadlen_u16, get_extended_payloadlen_i64,
}
use libwebsocket_component.Frame.Kind.{get_frame_control_message_type}
use libwebsocket_component.Context.{Connection}
use libwebsocket_component.Payload.{
  read_data, read_control, parse_uncontrol_frame_read_payload_data,
  parse_uncontrol_frame_read_extended_payload_data_u16,
  parse_uncontrol_frame_read_extended_payload_data_i64, parse_control_frame_read_payload_data,
  parse_control_frame_read_extended_payload_data_u16,
  parse_control_frame_read_extended_payload_data_i64,
}
use libwebsocket_component.Parser.{
  parse_frame_read_extended_payloadlen_u16, parse_frame_read_extended_payloadlen_i64,
  parse_payload_data, parse_extended_payload_data_u16, parse_extended_payload_data_i64,
  parse_masked_payload, parse_frame_read_maskingkey, parse_step,
}
use libwebsocket_component.Session.{
  ClientFrame, key, wire_all, Session, receive, receive_as, AlignedAs, Fits, FitsAs, connection_at,
  connection,
}
use libwebsocket_component.Session.Frames.{begin, LengthOf, masked_frame}
use libwebsocket_component.Session.Headers.{parse_frame_read_maskingkey-key}
use libwebsocket_component.Session.Refinement.{read_aligned}
use libwebsocket_component.Message.{xor_from}
use libwebsocket_component.Message.Masking.{length-xor_from}
use libwebsocket_component.Session.Segments.{
  Place, at_u16, at_i64, at_key, at_payload, step_at, header_at, left, need, HasPlace, kind, Safe,
  payload_step, short_length, long_length, within,
}

module _ {H : Type 0} (http : Option H) where
  -- With the input broken off, the step asks for no further round and changes nothing.
  pub parse_step-waits :
      (ty : FrameControlE) (pl : Place) (f : ClientFrame) (σ : Session) (a : List ℕ)
      → HasPlace pl (length f.payload)
      → Safe ty pl (length f.payload)
      → length a < need pl f
      → parse_step ty (step_at pl f) (within http pl f σ a) ≡ done (false, within http pl f σ a)
  unfolding parse_step parse_frame_read_extended_payloadlen_u16
      parse_frame_read_extended_payloadlen_i64 parse_frame_read_maskingkey parse_payload_data
      parse_extended_payload_data_u16 parse_extended_payload_data_i64
      parse_uncontrol_frame_read_payload_data parse_uncontrol_frame_read_extended_payload_data_u16
      parse_uncontrol_frame_read_extended_payload_data_i64 parse_control_frame_read_payload_data
      parse_control_frame_read_extended_payload_data_u16
      parse_control_frame_read_extended_payload_data_i64 read_data read_control
      get_extended_payloadlen_u16 get_extended_payloadlen_i64
  parse_step-waits ty at_u16 f σ a hp hs h = ground arith
  parse_step-waits ty at_i64 f σ a hp hs h = ground arith
  parse_step-waits ty at_key f σ a hp hs h = ground arith
  parse_step-waits ty at_payload f σ a hp hs h = ground arith

  -- The payload step that follows the key is that of the loop, at the kind of the frame.
  pub parse_masked_payload-step :
      (f : ClientFrame) (σ : Session) (a : List ℕ)
      → FitsAs f.opcode f.fin (length f.payload) σ
      → parse_masked_payload
          (connection_at http read_maskingkey (header_at at_payload f) (begin f.opcode σ) a)
        ≡ parse_step
            (kind f.opcode)
            (payload_step (length f.payload))
            (within http at_payload f σ a)
  unfolding parse_step parse_masked_payload get_frame_control_message_type
  parse_masked_payload-step f σ a h = ground arith

  -- A step inside a frame has waited, or has ended the frame; `c` is still to come.
  abbrev pub Handled :
      ClientFrame → Session → List ClientFrame → List ℕ → Outcome (Bool × Connection H) → Type 0
  Handled f σ fs c r =
      ((pl : Place) × (a : List ℕ) × (r ≡ done (false, within http pl f σ a))
        × HasPlace pl (length f.payload)
        × (length a < need pl f)
        × (a ++ c ≡ left pl f (wire_all fs)))
      ⊎ ((rest : List ℕ) × (r ≡ done (true, connection http (receive f σ) rest))
          × (rest ++ c ≡ wire_all fs))

  pub Safe-kind :
      (pl : Place) (f : ClientFrame) (σ : Session)
      → Fits f σ
      → Safe (kind f.opcode) pl (length f.payload)
  Safe-kind pl f σ (o, h) = ground arith

  LengthOf-short_length : (n : ℕ) → LengthOf (short_length n) (long_length n) n
  LengthOf-short_length n = ground arith

  payload_complete :
      (f : ClientFrame) (σ : Session) (rest : List ℕ)
      → Fits f σ
      → AlignedAs f.opcode σ
      → parse_step
          (kind f.opcode)
          (payload_step (length f.payload))
          (within http at_payload f σ (xor_from 0 (key f) f.payload ++ rest))
        ≡ done (true, connection http (receive f σ) rest)
  payload_complete f σ rest (o, h) ha =
      sym (parse_masked_payload-step f σ (xor_from 0 (key f) f.payload ++ rest) h)
      ∙ masked_frame http f.opcode f.fin (key f) f.payload (short_length (length f.payload))
          (long_length (length f.payload)) σ rest o.0 o.1 h
          (LengthOf-short_length (length f.payload)) (λ q. ground arith)
      ∙ ap (λ t. done (true, connection http (receive_as f.opcode f.fin t σ) rest))
          (read_aligned http f.opcode (key f) f.payload σ o.0 o.1 ha)

  pub payload-Handled :
      (f : ClientFrame) (σ : Session) (fs : List ClientFrame) (a c : List ℕ)
      → Fits f σ
      → AlignedAs f.opcode σ
      → a ++ c ≡ left at_payload f (wire_all fs)
      → Handled f σ fs c (
          parse_step
            (kind f.opcode)
            (payload_step (length f.payload))
            (within http at_payload f σ a))
  payload-Handled f σ fs a c h ha e = elim (dec_lt (length a) (length f.payload)) [
    | yes few ↦ inl (
      at_payload,
      a,
      parse_step-waits (kind f.opcode) at_payload f σ a (omega arith) (Safe-kind at_payload f σ h)
          few,
      omega arith,
      few,
      e,
    )
    | no enough ↦
        (let (rest, ea, er) =
            append-split (xor_from 0 (key f) f.payload) a c (wire_all fs) e
              (omega (arith, length-xor_from 0 (key f) f.payload)) in
          rw ea (inr (rest, payload_complete f σ rest h ha, er)))
  ]

  key_complete :
      (f : ClientFrame) (σ : Session) (a : List ℕ)
      → Fits f σ
      → parse_frame_read_maskingkey (within http at_key f σ (key f ++ a))
        ≡ parse_step
            (kind f.opcode)
            (payload_step (length f.payload))
            (within http at_payload f σ a)
  key_complete f σ a (o, h) =
      parse_frame_read_maskingkey-key http (header_at at_key f) (begin f.opcode σ) f.key0 f.key1
        f.key2 f.key3 a refl
      ∙ parse_masked_payload-step f σ a h

  pub key-Handled :
      (f : ClientFrame) (σ : Session) (fs : List ClientFrame) (a c : List ℕ)
      → Fits f σ
      → AlignedAs f.opcode σ
      → a ++ c ≡ left at_key f (wire_all fs)
      → Handled f σ fs c (parse_frame_read_maskingkey (within http at_key f σ a))
  unfolding parse_step
  key-Handled f σ fs a c h ha e = elim (dec_lt (length a) 4) [
    | yes few ↦ inl (at_key, a, parse_step-waits (kind f.opcode) at_key f σ a tt tt few, tt, few, e)
    | no enough ↦
        (let (rest, ea, er) =
            append-split (key f) a c (xor_from 0 (key f) f.payload ++ wire_all fs) e
              (omega arith) in
          rw (ea, key_complete f σ rest h) (payload-Handled f σ fs rest c h ha er))
  ]
