-- ===== src/Message/Headers/Adding.antt =====
-- What `addFrameHeader` of websocket.cc adds to the headers of a message.
use libwebsocket_component.Prelude.{◌≡◌, refl, ◌⊎◌, arith, List, [], ◌∷◌, ◌++◌, All, done}
use libwebsocket_component.Frame.{
  FinE, OpcodeE, segment_message, text_message, binary_message, FrameControlE, un_control_frame,
  MessageFrameE, ExtendedHeader, opcode_of, fin_of, set_maskingkey,
}
use libwebsocket_component.Frame.Kind.{get_frame_control_message_type, kind_of}
use libwebsocket_component.Message.{FrameHeader, make_frame_header, MessageHeader}
use libwebsocket_component.Message.Headers.{
  add_kind, all_un_control, test_validate, validate_kind, add_frame_header,
}

-- The type of a message that a frame may be part of.
abbrev pub HasType : OpcodeE → OpcodeE → Type 0
HasType segment_message t = (t ≡ text_message) ⊎ (t ≡ binary_message)
HasType op t = t ≡ op

abbrev pub IsDataHeader : FrameHeader → Type 0
IsDataHeader f = f.frame_control_type ≡ un_control_frame

add_kind-kind_of :
    (t op : OpcodeE) (fin : FinE) (c : FrameControlE) (k : MessageFrameE)
    → HasType op t
    → kind_of op fin ≡ done (c, k)
    → add_kind t op fin ≡ done (c, k)
unfolding add_kind kind_of
add_kind-kind_of t op fin c k h e = ground arith

all_un_control_data : (fs : List FrameHeader) → All IsDataHeader fs → all_un_control fs ≡ done tt
unfolding all_un_control
all_un_control_data [] h = refl
all_un_control_data (f ∷ fs) (h, hs) = rw h (all_un_control_data fs hs)

validate_kind-kind_of :
    (op : OpcodeE) (fin : FinE) (c : FrameControlE) (k : MessageFrameE)
    → kind_of op fin ≡ done (c, k)
    → validate_kind op fin k c ≡ done tt
unfolding validate_kind kind_of
validate_kind-kind_of op fin c k e = ground arith

-- A frame of a valid kind that may be part of the message, with only data frames before it: its
-- header is added at the end, with the kind that `get_frame_control_message_type` gives it, and the
-- place of the frame in its message is returned.
pub add_frame_header-get_frame_control_message_type :
    (e : ExtendedHeader) (m : MessageHeader) (c : FrameControlE) (k : MessageFrameE)
    → get_frame_control_message_type e.header ≡ done (c, k)
    → HasType (opcode_of e.header.opcode) m.message_type
    → All IsDataHeader m.frame_headers
    → (f : FrameHeader) × (add_frame_header e m
        ≡ done (k, record m { frame_headers = m.frame_headers ++ (f ∷ []) }))
      × (f.frame_control_type ≡ c)
      × (f.message_frame_type ≡ k)
      × (f.header.header ≡ e.header)
unfolding add_frame_header make_frame_header test_validate get_frame_control_message_type
    set_maskingkey
add_frame_header-get_frame_control_message_type e m c k hk ht hd =
    rw
      (
        add_kind-kind_of m.message_type (opcode_of e.header.opcode) (fin_of e.header.fin) c k ht hk,
        all_un_control_data m.frame_headers hd,
        validate_kind-kind_of (opcode_of e.header.opcode) (fin_of e.header.fin) c k hk,
      )
      (_, refl, refl, refl, refl)
