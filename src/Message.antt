-- ===== src/Message.antt =====
-- `frame_header_t`, `message_header_t` and `Message` of libwebsocket/private/websocket.cc: a message
-- with the headers of its frames, its payload so far, and the unmasking of that payload.
pub mod Headers
pub mod Masking
use libwebsocket_component.Prelude.{
  ℕ, zero, suc, ◌-◌, ◌%◌, Bool, true, false, ◌&&◌, List, [], ◌∷◌, ◌++◌, Option, none, some, ltb,
  ◌==◌, if◌then◌else◌, length, get_or, take, drop, bit_xor, Outcome, done, aborted, assert, ◌>>=◌,
  ◌>>◌,
}
use libwebsocket_component.Buffer.{Buffer, readable_bytes}
use libwebsocket_component.Frame.{
  FinE, frame_continue, frame_finished, OpcodeE, segment_message, text_message, binary_message,
  close_message, ping_message, pong_message, reserved, FrameControlE, frame_invalid, control_frame,
  un_control_frame, MessageFrameE, unknown_frame, head_frame, middle_frame, tail_frame,
  head_tail_frame, ExtendedHeader, zero_extended_header, maskingkey_len, fin_of, opcode_of,
  set_extended_payloadlen_i64, set_maskingkey, get_extended_payloadlen_i64,
}

pub record FrameHeader : Type 0 where
  pub frame_control_type : FrameControlE
  pub message_frame_type : MessageFrameE
  pub header : ExtendedHeader

-- The constructor from an extended header, which it copies field by field.
unfoldable pub make_frame_header :
    FrameControlE → MessageFrameE → ExtendedHeader → Outcome FrameHeader
unfolding set_extended_payloadlen_i64 set_maskingkey get_extended_payloadlen_i64
make_frame_header c m e = do
  let header = record zero_extended_header { header = e.header }
  let sized = set_extended_payloadlen_i64 (get_extended_payloadlen_i64 e) header
  keyed ← set_maskingkey e.masking_key maskingkey_len sized
  done (record { frame_control_type = c; message_frame_type = m; header = keyed })

pub record MessageHeader : Type 0 where
  pub message_type : OpcodeE
  pub frame_headers : List FrameHeader

-- `getFrameHeader(i)`: past the end it is the last one.
frame_header_at : List FrameHeader → ℕ → Option FrameHeader
frame_header_at [] i = none
frame_header_at (f ∷ []) i = some f
frame_header_at (f ∷ g ∷ fs) zero = some f
frame_header_at (f ∷ g ∷ fs) (suc i) = frame_header_at (g ∷ fs) i

unfoldable pub get_frame_header : MessageHeader → ℕ → Option FrameHeader
unfolding frame_header_at
get_frame_header m i = frame_header_at m.frame_headers i

-- `Message`. Its buffer is never null, since `setMessageBuffer` asserts it.
pub record Message : Type 0 where
  pub message_header : MessageHeader
  pub message_buffer : Buffer
  pub segment_offset : ℕ

abbrev pub new_message : OpcodeE → Buffer → Message
new_message t b = record {
  message_header = record { message_type = t; frame_headers = [] };
  message_buffer = b;
  segment_offset = 0;
}

abbrev pub set_message_type : OpcodeE → Message → Message
set_message_type t m = record m { message_header = record m.message_header { message_type = t } }

-- `resetMessage` keeps the type.
unfoldable pub reset_message : Message → Message
reset_message m = record {
  message_header = record m.message_header { frame_headers = [] };
  message_buffer = [];
  segment_offset = 0;
}

-- The loop of `unMaskPayloadData` from index `i` of the buffer on.
unfoldable pub xor_from : ℕ → List ℕ → List ℕ → List ℕ
xor_from i key [] = []
xor_from i key (b ∷ bs) = bit_xor b (get_or key (i % maskingkey_len) 0) ∷ xor_from (suc i) key bs

-- `unMaskPayloadData`: the octets from `segmentOffset_` on; the key octet is chosen by the index in
-- the whole buffer.
unfoldable pub unmask_payload_data : Bool → List ℕ → Message → Bool × Message
unmask_payload_data unmask key m =
    if unmask
      && ltb 0 (readable_bytes m.message_buffer)
      && ltb m.segment_offset (readable_bytes m.message_buffer)
    then (
      true,
      record m {
        message_buffer =
            take m.segment_offset m.message_buffer
            ++ xor_from m.segment_offset key (drop m.segment_offset m.message_buffer);
        segment_offset = readable_bytes m.message_buffer;
      },
    )
    else (false, m)
