-- ===== src/Frame.antt =====
-- The frame header of libwebsocket/private/websocket.cc: its enums, `header_t` with its memory
-- layout on a little-endian host, and `extended_header_t` with the getters of both.
pub mod Kind
pub mod Layout
use libwebsocket_component.Prelude.{
  ℕ, ◌+◌, ◌-◌, ◌*◌, ◌/◌, ◌%◌, ◌<◌, Bool, true, false, List, [], ◌∷◌, ◌==◌, if◌then◌else◌, take,
  get_or, Outcome, done, aborted, assert, ◌>>=◌, ◌>>◌,
}

-- `FinE`, the values of the FIN bit.
pub data FinE : Type 0 where
  frame_continue frame_finished : FinE

-- `OpcodeE`, also under its name `MessageE`. One constructor stands for the ten reserved values.
pub data OpcodeE : Type 0 where
  segment_message text_message binary_message close_message ping_message pong_message reserved :
      OpcodeE

pub data FrameControlE : Type 0 where
  frame_invalid control_frame un_control_frame : FrameControlE

pub data MessageFrameE : Type 0 where
  unknown_frame head_frame middle_frame tail_frame head_tail_frame : MessageFrameE

pub data StepE : Type 0 where
  read_frame_header read_extended_payloadlen_u16 read_extended_payloadlen_i64 read_maskingkey
        read_payload_data read_extended_payload_data_u16 read_extended_payload_data_i64 :
      StepE

pub data StateE : Type 0 where
  connected closed : StateE

-- How a `switch` reads the bit fields.
abbrev pub fin_of : ℕ → FinE
fin_of n = if n == 0 then frame_continue else frame_finished

abbrev pub opcode_of : ℕ → OpcodeE
opcode_of n =
    if n == 0
    then segment_message
    else if n == 1
    then text_message
    else if n == 2
    then binary_message
    else if n == 8
    then close_message
    else if n == 9
    then ping_message
    else if n == 10
    then pong_message
    else reserved

-- The numbers of the enumerators.
abbrev pub fin_code : FinE → ℕ
fin_code frame_continue = 0
fin_code frame_finished = 1

abbrev pub opcode_code : OpcodeE → ℕ
opcode_code segment_message = 0
opcode_code text_message = 1
opcode_code binary_message = 2
opcode_code close_message = 8
opcode_code ping_message = 9
opcode_code pong_message = 10
opcode_code reserved = 3

-- `header_t`: 16 bits of fields.
pub record Header : Type 0 where
  pub opcode : ℕ
  pub rsv3 : ℕ
  pub rsv2 : ℕ
  pub rsv1 : ℕ
  pub fin : ℕ
  pub payloadlen : ℕ
  pub mask : ℕ

-- `header = { 0 }`
abbrev pub zero_header : Header
zero_header = record { opcode = 0; rsv3 = 0; rsv2 = 0; rsv1 = 0; fin = 0; payloadlen = 0; mask = 0 }

abbrev pub header_len : ℕ
header_len = 2

abbrev pub maskingkey_len : ℕ
maskingkey_len = 4

abbrev pub extended_payloadlen_u16 : ℕ
extended_payloadlen_u16 = 2

abbrev pub extended_payloadlen_i64 : ℕ
extended_payloadlen_i64 = 8

-- The two octets of a `header_t` in memory, the first field in the lowest bits.
unfoldable pub header_bytes : Header → List ℕ
header_bytes h =
    (h.opcode + 16 * h.rsv3 + 32 * h.rsv2 + 64 * h.rsv1 + 128 * h.fin)
    ∷ (h.payloadlen + 128 * h.mask)
    ∷ []

-- The header that two octets in memory are.
unfoldable pub header_of_bytes : ℕ → ℕ → Header
header_of_bytes c d = record {
  opcode = c % 16;
  rsv3 = c / 16 % 2;
  rsv2 = c / 32 % 2;
  rsv1 = c / 64 % 2;
  fin = c / 128 % 2;
  payloadlen = d % 128;
  mask = d / 128 % 2;
}

-- `get_frame_RSV123`, with the shifts of the source as products.
unfoldable pub get_frame_rsv123 : Header → ℕ
get_frame_rsv123 h = h.rsv1 * 4 + h.rsv2 * 2 + h.rsv3

-- `extended_header_t`. The union is the bit pattern of its 64 bits, below 2 ^ 64; its member `u16`
-- is the low 16 bits.
pub record ExtendedHeader : Type 0 where
  pub header : Header
  pub masking_key : List ℕ
  pub extended_payloadlen : ℕ

abbrev pub zero_extended_header : ExtendedHeader
zero_extended_header = record {
  header = zero_header;
  masking_key = 0 ∷ 0 ∷ 0 ∷ 0 ∷ [];
  extended_payloadlen = 0;
}

-- `setExtendedPayloadlen(uint16_t)` writes the low 16 bits only.
unfoldable pub set_extended_payloadlen_u16 : ℕ → ExtendedHeader → ExtendedHeader
set_extended_payloadlen_u16 n e = record e {
  extended_payloadlen = e.extended_payloadlen - e.extended_payloadlen % 65536 + n;
}

unfoldable pub set_extended_payloadlen_i64 : ℕ → ExtendedHeader → ExtendedHeader
set_extended_payloadlen_i64 n e = record e { extended_payloadlen = n }

-- The switches on 126 and 127.
abbrev pub by_payloadlen {ℓ} : {A : Type ℓ} → Header → A → A → A → A
by_payloadlen h u16 i64 other =
    if h.payloadlen == 126 then u16 else if h.payloadlen == 127 then i64 else other

unfoldable pub get_extended_payloadlen_u16 : ExtendedHeader → ℕ
get_extended_payloadlen_u16 e =
    by_payloadlen e.header (e.extended_payloadlen % 65536) (e.extended_payloadlen % 65536) 0

unfoldable pub get_extended_payloadlen_i64 : ExtendedHeader → ℕ
get_extended_payloadlen_i64 e =
    by_payloadlen e.header (e.extended_payloadlen % 65536) e.extended_payloadlen 0

unfoldable pub exist_extended_payloadlen : ExtendedHeader → Bool
exist_extended_payloadlen e = by_payloadlen e.header true true false

unfoldable pub get_real_datalen : ExtendedHeader → ℕ
get_real_datalen e =
    by_payloadlen e.header (e.extended_payloadlen % 65536) e.extended_payloadlen e.header.payloadlen

-- `setMaskingkey` copies four octets.
unfoldable pub set_maskingkey : List ℕ → ℕ → ExtendedHeader → Outcome ExtendedHeader
set_maskingkey key size e = do
  assert (size == maskingkey_len)
  done (record e { masking_key = take maskingkey_len key })

unfoldable pub exist_maskingkey : ExtendedHeader → Outcome Bool
exist_maskingkey e =
    if e.header.mask == 1
    then done true
    else if e.header.mask == 0
    then (do assert (get_or e.masking_key 0 0 == 0); done false)
    else aborted

-- The ranges of the bit fields.
pub record IsHeader (h : Header) : Type 0 where
  pub opcode_fits : h.opcode < 16
  pub rsv3_fits : h.rsv3 < 2
  pub rsv2_fits : h.rsv2 < 2
  pub rsv1_fits : h.rsv1 < 2
  pub fin_fits : h.fin < 2
  pub payloadlen_fits : h.payloadlen < 128
  pub mask_fits : h.mask < 2
