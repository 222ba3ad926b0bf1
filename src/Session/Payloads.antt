-- ===== src/Session/Payloads.antt =====
-- The payload handlers on a complete masked payload, in the words of the session.
use libwebsocket_component.Prelude.{
  ℕ, ◌≡◌, ◌⊎◌, refl, arith, Bool, true, false, inl, inr, List, [], ◌++◌, ltb, le→not-ltb, length,
  length-append, take-length-append, drop-length-append, Option, done, ◌>>=◌,
}
use libwebsocket_component.Buffer.{retrieve}
use libwebsocket_component.Frame.{
  FinE, frame_continue, frame_finished, OpcodeE, segment_message, text_message, binary_message,
  close_message, ping_message, pong_message, StepE, ExtendedHeader, opcode_of, fin_of,
}
use libwebsocket_component.Message.{xor_from, reset_message}
use libwebsocket_component.Message.Masking.{message_of, unmask_payload_data-append}
use libwebsocket_component.Context.{Connection, set_data_message, set_control_message, next_frame}
use libwebsocket_component.Payload.{
  take_payload, deliver_data, deliver_control, read_data, read_control,
}
use libwebsocket_component.Session.{
  Session, receive_data, receive_control, connection_at, connection,
}

retrieve-append : (q rest : List ℕ) → retrieve (length q) (q ++ rest) ≡ done rest
unfolding retrieve
retrieve-append q rest = ground (arith, length-append q rest, drop-length-append q rest)

take_payload-append :
    (e : ExtendedHeader) (q rest acc : List ℕ) (t : OpcodeE)
    → e.header.mask ≡ 1
    → take_payload (length q) e (q ++ rest) (message_of t acc)
      ≡ message_of t (acc ++ xor_from (length acc) e.masking_key q)
unfolding take_payload
take_payload-append e q rest acc t h =
    rw (take-length-append, h, take_payload) (unmask_payload_data-append e.masking_key q acc t)

module _ {H : Type 0} (http : Option H) where
  -- A masked payload of a data frame is all there.
  pub read_data_complete :
      (st : StepE) (e : ExtendedHeader) (σ : Session) (fin : FinE) (q rest : List ℕ)
      → e.header.mask ≡ 1
      → fin_of e.header.fin ≡ fin
      → ((opcode_of e.header.opcode ≡ segment_message)
          ⊎ (opcode_of e.header.opcode ≡ text_message)
          ⊎ (opcode_of e.header.opcode ≡ binary_message))
      → read_data (length q) (connection_at http st e σ (q ++ rest))
        ≡ done (
          true,
          connection http (receive_data fin (xor_from (length σ.pending) e.masking_key q) σ) rest,
        )
  unfolding read_data
  read_data_complete st e σ fin q rest hm hf ho =
      rw (enough, retrieve-append, take_payload-append e q rest σ.pending σ.data_type hm, hf)
        (told fin ho)
    where
      enough : ltb (length (q ++ rest)) (length q) ≡ false
      enough = le→not-ltb _ _ (omega (arith, length-append q rest))

      told :
          (fin : FinE)
          → ((opcode_of e.header.opcode ≡ segment_message)
              ⊎ (opcode_of e.header.opcode ≡ text_message)
              ⊎ (opcode_of e.header.opcode ≡ binary_message))
          → ◌>>=◌ {B = Bool × Connection H}
              (deliver_data (opcode_of e.header.opcode) fin (
                set_data_message
                  (message_of σ.data_type
                    (σ.pending ++ xor_from (length σ.pending) e.masking_key q))
                  (connection_at http st e σ rest)))
              (λ t. done (true, next_frame t))
            ≡ done (
              true,
              connection http
                  (receive_data fin (xor_from (length σ.pending) e.masking_key q) σ)
                  rest,
            )
      told frame_continue ho = unfold deliver_data in refl
      told frame_finished (inl o) = rw o (unfold deliver_data reset_message in refl)
      told frame_finished (inr (inl o)) = rw o (unfold deliver_data reset_message in refl)
      told frame_finished (inr (inr o)) = rw o (unfold deliver_data reset_message in refl)

  -- A masked payload of a final control frame is all there; its type has been set.
  pub read_control_complete :
      (st : StepE) (e : ExtendedHeader) (σ : Session) (op : OpcodeE) (q rest : List ℕ)
      → e.header.mask ≡ 1
      → fin_of e.header.fin ≡ frame_finished
      → opcode_of e.header.opcode ≡ op
      → (op ≡ close_message) ⊎ (op ≡ ping_message) ⊎ (op ≡ pong_message)
      → read_control
          (length q)
          (connection_at http st e (record σ { control_type = op }) (q ++ rest))
        ≡ done (true, connection http (receive_control op (xor_from 0 e.masking_key q) σ) rest)
  unfolding read_control
  read_control_complete st e σ op q rest hm hf ho hk =
      rw (enough, retrieve-append, take_payload-append e q rest [] op hm, hf, ho) (told op hk)
    where
      enough : ltb (length (q ++ rest)) (length q) ≡ false
      enough = le→not-ltb _ _ (omega (arith, length-append q rest))

      told :
          (op : OpcodeE)
          → (op ≡ close_message) ⊎ (op ≡ ping_message) ⊎ (op ≡ pong_message)
          → ◌>>=◌ {B = Bool × Connection H}
              (deliver_control op frame_finished (
                set_control_message
                  (message_of op (xor_from 0 e.masking_key q))
                  (connection_at http st e (record σ { control_type = op }) rest)))
              (λ t. done (true, next_frame t))
            ≡ done (true, connection http (receive_control op (xor_from 0 e.masking_key q) σ) rest)
      told close_message h = unfold deliver_control reset_message in refl
      told ping_message h = unfold deliver_control reset_message in refl
      told pong_message h = unfold deliver_control reset_message in refl
      told op h = absurd (ground arith)
