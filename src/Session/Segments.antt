-- ===== src/Session/Segments.antt =====
-- Where the parser stands when the input breaks off inside a frame, and what is still to come.
pub mod Steps
pub mod Lengths
pub mod Rounds
pub mod Frames
pub mod Drains
pub mod Streams
use libwebsocket_component.Prelude.{
  ℕ, ◌≤◌, ◌<◌, ◌≡◌, ◌⊎◌, List, [], ◌∷◌, ◌++◌, ltb, if◌then◌else◌, length, All, Option,
}
use libwebsocket_component.Endian.{octet_at}
use libwebsocket_component.Frame.{
  OpcodeE, segment_message, text_message, binary_message, close_message, ping_message, pong_message,
  reserved, FrameControlE, control_frame, un_control_frame, StepE, read_extended_payloadlen_u16,
  read_extended_payloadlen_i64, read_maskingkey, read_payload_data, read_extended_payload_data_u16,
  read_extended_payload_data_i64, ExtendedHeader,
}
use libwebsocket_component.Message.{xor_from}
use libwebsocket_component.Context.{Connection}
use libwebsocket_component.Session.{
  ClientFrame, key, wire_body, wire_all, Session, receive, receive_all, Fits, AlignedAs, FitsAll,
  connection_at, connection,
}
use libwebsocket_component.Session.Frames.{begin, client_extended, IsData}
use libwebsocket_component.Session.Frames.Wire.{no_key}

-- The 7 bits of the length, and the extended length as the header keeps it.
abbrev pub short_length : ℕ → ℕ
short_length n = if ltb n 126 then n else if ltb n 65536 then 126 else 127

abbrev pub long_length : ℕ → ℕ
long_length n = if ltb n 126 then 0 else n

abbrev pub payload_step : ℕ → StepE
payload_step n =
    if ltb n 126
    then read_payload_data
    else if ltb n 65536
    then read_extended_payload_data_u16
    else read_extended_payload_data_i64

-- What is expected next inside a frame.
pub data Place : Type 0 where
  at_u16 at_i64 at_key at_payload : Place

abbrev pub step_at : Place → ClientFrame → StepE
step_at at_u16 f = read_extended_payloadlen_u16
step_at at_i64 f = read_extended_payloadlen_i64
step_at at_key f = read_maskingkey
step_at at_payload f = payload_step (length f.payload)

abbrev pub header_at : Place → ClientFrame → ExtendedHeader
header_at at_u16 f = client_extended f.opcode f.fin no_key 126 0
header_at at_i64 f = client_extended f.opcode f.fin no_key 127 0
header_at at_key f =
    client_extended f.opcode f.fin no_key (short_length (length f.payload))
      (long_length (length f.payload))
header_at at_payload f =
    client_extended f.opcode f.fin (key f) (short_length (length f.payload))
      (long_length (length f.payload))

-- The octets from the place on, up to the end of the input.
abbrev pub left : Place → ClientFrame → List ℕ → List ℕ
left at_u16 f rest =
    octet_at 1 (length f.payload) ∷ octet_at 0 (length f.payload) ∷ wire_body f rest
left at_i64 f rest =
    octet_at 7 (length f.payload)
    ∷ octet_at 6 (length f.payload)
    ∷ octet_at 5 (length f.payload)
    ∷ octet_at 4 (length f.payload)
    ∷ octet_at 3 (length f.payload)
    ∷ octet_at 2 (length f.payload)
    ∷ octet_at 1 (length f.payload)
    ∷ octet_at 0 (length f.payload)
    ∷ wire_body f rest
left at_key f rest = wire_body f rest
left at_payload f rest = xor_from 0 (key f) f.payload ++ rest

abbrev pub need : Place → ClientFrame → ℕ
need at_u16 f = 2
need at_i64 f = 8
need at_key f = 4
need at_payload f = length f.payload

-- The places that a frame of that length has.
abbrev pub HasPlace : Place → ℕ → Type 0
HasPlace at_u16 n = (126 ≤ n) × (n < 65536)
HasPlace at_i64 n = 65536 ≤ n
HasPlace at_key n = Unit {0}
HasPlace at_payload n = 0 < n

abbrev pub kind : OpcodeE → FrameControlE
kind close_message = control_frame
kind ping_message = control_frame
kind pong_message = control_frame
kind _ = un_control_frame

-- The kind that the loop is given may be that of an earlier frame. That makes no difference to a
-- short payload that is not complete.
abbrev pub Safe : FrameControlE → Place → ℕ → Type 0
Safe ty at_payload n = (ty ≡ un_control_frame) ⊎ (n < 126)
Safe ty _ n = Unit {0}

-- A point of the input: between two frames, or inside one, with the frames that follow.
pub data Point : Type 0 where
  between : Session → List ClientFrame → Point
  inside : Place → ClientFrame → Session → List ClientFrame → Point

abbrev pub left_at : Point → List ℕ
left_at (between σ fs) = wire_all fs
left_at (inside pl f σ fs) = left pl f (wire_all fs)

-- The session when all frames have been received.
abbrev pub final : Point → Session
final (between σ fs) = receive_all fs σ
final (inside pl f σ fs) = receive_all fs (receive f σ)

abbrev pub Sound : Point → Type 0
Sound (between σ fs) = FitsAll fs σ
Sound (inside pl f σ fs) = HasPlace pl (length f.payload) × FitsAll (f ∷ fs) σ

-- The input has broken off.
abbrev pub Waits : Point → List ℕ → Type 0
Waits (between σ fs) a = length a < 2
Waits (inside pl f σ fs) a = length a < need pl f

abbrev pub kind_at : Point → FrameControlE
kind_at (between σ fs) = un_control_frame
kind_at (inside pl f σ fs) = kind f.opcode

module _ {H : Type 0} (http : Option H) where
  abbrev pub within : Place → ClientFrame → Session → List ℕ → Connection H
  within pl f σ a = connection_at http (step_at pl f) (header_at pl f) (begin f.opcode σ) a

  abbrev pub point_at : Point → List ℕ → Connection H
  point_at (between σ fs) a = connection http σ a
  point_at (inside pl f σ fs) a = within pl f σ a
