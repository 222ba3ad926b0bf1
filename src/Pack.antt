-- ===== src/Pack.antt =====
-- The packing of frames that the server sends, in libwebsocket/private/websocket.cc. A buffer is
-- appended to; the data and its length are one list.
pub mod Decode
pub mod Single
pub mod Chunks
use libwebsocket_component.Prelude.{
  ℕ, zero, suc, ◌+◌, ◌-◌, ◌*◌, ◌%◌, ◌^◌, Bool, true, false, ◌&&◌, ◌||◌, List, [], ◌∷◌, ◌++◌, ltb,
  leb, ◌==◌, if◌then◌else◌, length, take, drop, Outcome, done, aborted, unfinished, assert, ◌>>=◌,
  ◌>>◌,
}
use libwebsocket_component.Buffer.{Buffer}
use libwebsocket_component.Endian.{host_to_network16, host_to_network64, memory16, memory64}
use libwebsocket_component.Frame.{
  FinE, frame_continue, frame_finished, OpcodeE, segment_message, text_message, binary_message,
  close_message, ping_message, pong_message, Header, zero_header, header_bytes, opcode_code,
  fin_code,
}

-- The header of `pack_unmask_uncontrol_frame_header` and of the other one: the fields as their
-- widths take them, and no mask.
abbrev pub packed_header : OpcodeE → FinE → ℕ → Header
packed_header opcode fin payloadlen = record zero_header {
  opcode = opcode_code opcode % 16;
  fin = fin_code fin % 2;
  payloadlen = payloadlen % 128;
  mask = 0;
}

unfoldable pub validate_uncontrol_frame_header : Header → Outcome (Unit {0})
validate_uncontrol_frame_header h = assert (leb 0 h.opcode && leb h.opcode 2)

unfoldable pub validate_control_frame_header : Header → Outcome (Unit {0})
validate_control_frame_header h = do
  assert (leb h.payloadlen 126)
  assert (h.fin == 1)
  assert (leb 8 h.opcode && leb h.opcode 10)

unfoldable pub pack_unmask_uncontrol_frame_header :
    Buffer → OpcodeE → FinE → ℕ → Outcome (Header × Buffer)
pack_unmask_uncontrol_frame_header buf opcode fin payloadlen = do
  assert (leb payloadlen 127)
  let header = packed_header opcode fin payloadlen
  validate_uncontrol_frame_header header
  done (header, buf ++ header_bytes header)

unfoldable pub pack_unmask_control_frame_header :
    Buffer → OpcodeE → FinE → ℕ → Outcome (Header × Buffer)
pack_unmask_control_frame_header buf opcode fin payloadlen = do
  assert (leb payloadlen 127)
  let header = packed_header opcode fin payloadlen
  validate_control_frame_header header
  done (header, buf ++ header_bytes header)

-- `(int16_t)` of a 64-bit number, widened again to the 64 bits of the variable.
unfoldable pub int16_cast : ℕ → ℕ
int16_cast x = if ltb (x % 65536) 32768 then x % 65536 else 2 ^ 64 - 65536 + x % 65536

-- The 7 bits of the length, and the octets of the extended length in the host's memory.
abbrev pub payloadlen_of : ℕ → ℕ
payloadlen_of len = if ltb len 126 then len else if leb len 65535 then 126 else 127

abbrev pub extended_payloadlen_of : ℕ → List ℕ
extended_payloadlen_of len =
    if ltb len 126
    then []
    else if leb len 65535
    then memory16 (host_to_network16 (len % 65536))
    else memory64 (int16_cast (host_to_network64 (len % 2 ^ 64)))

abbrev masking_key_of : Header → List ℕ
masking_key_of h = if h.mask == 1 then 0 ∷ 0 ∷ 0 ∷ 0 ∷ [] else []

unfoldable pub pack_unmask_uncontrol_frame :
    Buffer → List ℕ → OpcodeE → FinE → Outcome (Header × Buffer)
pack_unmask_uncontrol_frame buf octets opcode fin = do
  let len = length octets
  (header, begun) ← pack_unmask_uncontrol_frame_header buf opcode fin (payloadlen_of len)
  done (header, ((begun ++ extended_payloadlen_of len) ++ masking_key_of header) ++ octets)

-- A length that takes eight octets fails an assert.
unfoldable pub pack_unmask_control_frame :
    Buffer → List ℕ → OpcodeE → FinE → Outcome (Header × Buffer)
pack_unmask_control_frame buf octets opcode fin = do
  let len = length octets
  (header, begun) ← pack_unmask_control_frame_header buf opcode fin (payloadlen_of len)
  assert (leb (payloadlen_of len) 126)
  done (header, ((begun ++ extended_payloadlen_of len) ++ masking_key_of header) ++ octets)

abbrev is_message_type : OpcodeE → Bool
is_message_type text_message = true
is_message_type binary_message = true
is_message_type _ = false

-- `while (left > 0)`, with fuel; `left` is what is not packed yet.
unfoldable pub chunk_loop : ℕ → Buffer → List ℕ → ℕ → Outcome Buffer
chunk_loop zero buf left chunksz = unfinished
chunk_loop (suc fuel) buf left chunksz = elim (ltb 0 (length left)) [
  | false ↦ done buf
  | true ↦ elim (ltb chunksz (length left)) [
    | true ↦
        pack_unmask_uncontrol_frame buf (take chunksz left) segment_message frame_continue
        >>= λ (header, buf'). chunk_loop fuel buf' (drop chunksz left) chunksz
    | false ↦
        pack_unmask_uncontrol_frame buf left segment_message frame_finished >>= λ (header, buf').
        done buf'
  ]
]

unfoldable pub pack_unmask_data_frame_chunk : Buffer → List ℕ → OpcodeE → ℕ → Outcome Buffer
pack_unmask_data_frame_chunk buf octets message_type chunksz = do
  assert (ltb chunksz (length octets))
  assert (is_message_type message_type)
  (header, buf') ← pack_unmask_uncontrol_frame buf (take chunksz octets) message_type frame_continue
  chunk_loop (suc (length octets)) buf' (drop chunksz octets) chunksz

-- `MessageT` of libwebsocket/websocket.h.
pub data MessageT : Type 0 where
  ty_text_message ty_binary_message : MessageT

abbrev pub message_type_of : MessageT → OpcodeE
message_type_of ty_text_message = text_message
message_type_of ty_binary_message = binary_message

abbrev pub chunksz : ℕ
chunksz = 1024

unfoldable pub pack_unmask_data_frame : Buffer → List ℕ → MessageT → Bool → Outcome Buffer
pack_unmask_data_frame buf octets type chunk =
    if chunk && ltb chunksz (length octets)
    then pack_unmask_data_frame_chunk buf octets (message_type_of type) chunksz
    else (pack_unmask_uncontrol_frame buf octets (message_type_of type) frame_finished
        >>= λ (header, buf'). done buf')

unfoldable pub pack_unmask_close_frame : Buffer → List ℕ → Outcome Buffer
pack_unmask_close_frame buf octets =
    pack_unmask_control_frame buf octets close_message frame_finished >>= λ (header, buf').
    done buf'

unfoldable pub pack_unmask_ping_frame : Buffer → List ℕ → Outcome Buffer
pack_unmask_ping_frame buf octets =
    pack_unmask_control_frame buf octets ping_message frame_finished >>= λ (header, buf'). done buf'

unfoldable pub pack_unmask_pong_frame : Buffer → List ℕ → Outcome Buffer
pack_unmask_pong_frame buf octets =
    pack_unmask_control_frame buf octets pong_message frame_finished >>= λ (header, buf'). done buf'
