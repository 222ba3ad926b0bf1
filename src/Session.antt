-- ===== src/Session.antt =====
-- The frames of a client after RFC 6455, stated without the parser: the octets of a frame, and what a
-- frame does to the message that is being put together, on all that the code takes.
pub mod Payloads
pub mod Headers
pub mod Frames
pub mod Conformity
pub mod Refinement
pub mod Segments
pub mod Aborts
use libwebsocket_component.Prelude.{
  ℕ, ◌+◌, ◌*◌, ◌/◌, ◌%◌, ◌^◌, ◌≤◌, ◌<◌, ◌≡◌, ◌⊎◌, List, [], ◌∷◌, ◌++◌, ltb, if◌then◌else◌, length,
  All, Option, some, none, true,
}
use libwebsocket_component.Prelude.Octets.{IsOctet}
use libwebsocket_component.Endian.{octet_at}
use libwebsocket_component.Frame.{
  FinE, frame_continue, frame_finished, OpcodeE, segment_message, text_message, binary_message,
  close_message, ping_message, pong_message, reserved, StepE, read_frame_header, StateE, connected,
  closed, ExtendedHeader, zero_extended_header, opcode_code, fin_code,
}
use libwebsocket_component.Message.{xor_from, new_message}
use libwebsocket_component.Message.Masking.{message_of}
use libwebsocket_component.Context.{
  Event, on_message_callback, on_closed_callback, force_close, Context, Connection,
}

-- A frame as the client means it; its key is four octets.
pub record ClientFrame : Type 0 where
  pub opcode : OpcodeE
  pub fin : FinE
  pub key0 : ℕ
  pub key1 : ℕ
  pub key2 : ℕ
  pub key3 : ℕ
  pub payload : List ℕ

abbrev pub key : ClientFrame → List ℕ
key f = f.key0 ∷ f.key1 ∷ f.key2 ∷ f.key3 ∷ []

-- The 7, 7 + 16 or 7 + 64 bits of the length, with the bit that says that a key follows.
abbrev pub wire_length : ℕ → List ℕ
wire_length n =
    if ltb n 126
    then (128 + n) ∷ []
    else if ltb n 65536
    then 254 ∷ octet_at 1 n ∷ octet_at 0 n ∷ []
    else 255
      ∷ octet_at 7 n
      ∷ octet_at 6 n
      ∷ octet_at 5 n
      ∷ octet_at 4 n
      ∷ octet_at 3 n
      ∷ octet_at 2 n
      ∷ octet_at 1 n
      ∷ octet_at 0 n
      ∷ []

-- The key and the masked payload, and before them the first octet and the length.
abbrev pub wire_body : ClientFrame → List ℕ → List ℕ
wire_body f rest = f.key0 ∷ f.key1 ∷ f.key2 ∷ f.key3 ∷ (xor_from 0 (key f) f.payload ++ rest)

abbrev pub wire : ClientFrame → List ℕ → List ℕ
wire f rest =
    (opcode_code f.opcode + 128 * fin_code f.fin)
    ∷ (wire_length (length f.payload) ++ wire_body f rest)

abbrev pub wire_all : List ClientFrame → List ℕ
wire_all [] = []
wire_all (f ∷ fs) = wire f (wire_all fs)

-- A connection between two frames: the type and the octets of the message in progress, the type of
-- the last control frame, and what the handler has been told.
pub record Session : Type 0 where
  pub data_type : OpcodeE
  pub pending : List ℕ
  pub control_type : OpcodeE
  pub state : StateE
  pub events : List Event

-- What the session tells of a complete data message, and of a control frame.
abbrev pub receive_data : FinE → List ℕ → Session → Session
receive_data frame_continue p σ = record σ { pending = σ.pending ++ p }
receive_data frame_finished p σ = record σ {
  pending = [];
  events = σ.events ++ (on_message_callback (σ.pending ++ p) σ.data_type ∷ []);
}

abbrev pub receive_control : OpcodeE → List ℕ → Session → Session
receive_control close_message p σ = record σ {
  pending = [];
  control_type = close_message;
  state = closed;
  events = (σ.events ++ (on_closed_callback p ∷ [])) ++ (force_close ∷ []);
}
receive_control op p σ = record σ {
  control_type = op;
  events = σ.events ++ (on_message_callback p op ∷ []);
}

-- The effect of a frame: a text or binary frame names the type of a message, a continuation goes
-- on with it, and a control frame may come between.
abbrev pub receive_as : OpcodeE → FinE → List ℕ → Session → Session
receive_as segment_message fin p σ = receive_data fin p σ
receive_as text_message fin p σ = receive_data fin p (record σ { data_type = text_message })
receive_as binary_message fin p σ = receive_data fin p (record σ { data_type = binary_message })
receive_as close_message fin p σ = receive_control close_message p σ
receive_as ping_message fin p σ = receive_control ping_message p σ
receive_as pong_message fin p σ = receive_control pong_message p σ
receive_as reserved fin p σ = σ

abbrev pub receive : ClientFrame → Session → Session
receive f σ = receive_as f.opcode f.fin f.payload σ

abbrev pub receive_all : List ClientFrame → Session → Session
receive_all [] σ = σ
receive_all (f ∷ fs) σ = receive_all fs (receive f σ)

-- The frames that the session takes: a message starts when nothing is pending, a continuation goes
-- on with what is pending, which may be nothing, a control frame is final and short. That is what the
-- code takes without LIBWEBSOCKET_DEBUG, and more than a client may send: a continuation needs no
-- message in progress, and frames may come after a Close frame. What a client may send is
-- `Conformity.IsStream`.
abbrev pub FitsAs : OpcodeE → FinE → ℕ → Session → Type 0
FitsAs segment_message fin n σ = (σ.data_type ≡ text_message) ⊎ (σ.data_type ≡ binary_message)
FitsAs text_message fin n σ = σ.pending ≡ []
FitsAs binary_message fin n σ = σ.pending ≡ []
FitsAs reserved fin n σ = ⊥
FitsAs _ fin n σ = (fin ≡ frame_finished) × (n < 126)

abbrev pub IsOctets : ClientFrame → Type 0
IsOctets f = All IsOctet (key f) × All IsOctet f.payload × (length f.payload < 2 ^ 63)

abbrev pub Fits : ClientFrame → Session → Type 0
Fits f σ = IsOctets f × FitsAs f.opcode f.fin (length f.payload) σ

-- A continuation stands at a multiple of four octets of its message.
abbrev pub AlignedAs : OpcodeE → Session → Type 0
AlignedAs segment_message σ = length σ.pending % 4 ≡ 0
AlignedAs _ σ = Unit {0}

abbrev pub FitsAll : List ClientFrame → Session → Type 0
FitsAll [] σ = Unit {0}
FitsAll (f ∷ fs) σ = Fits f σ × AlignedAs f.opcode σ × FitsAll fs (receive f σ)

-- What the code makes of a payload: it combines a continuation with the key from the index on at
-- which it stands in the message, and not from the first octet of the key.
abbrev pub as_read : OpcodeE → List ℕ → List ℕ → Session → List ℕ
as_read segment_message k p σ = xor_from (length σ.pending) k (xor_from 0 k p)
as_read _ k p σ = p

abbrev pub receive_read : ClientFrame → Session → Session
receive_read f σ = receive_as f.opcode f.fin (as_read f.opcode (key f) f.payload σ) σ

-- The connection of the program in that session, at a step of the parser and with its input.
module _ {H : Type 0} (http : Option H) where
  abbrev pub connection_at : StepE → ExtendedHeader → Session → List ℕ → Connection H
  connection_at step header σ buf = record {
    context = record {
      step = step;
      state = σ.state;
      header = header;
      data_message = message_of σ.data_type σ.pending;
      control_message = message_of σ.control_type [];
      http_context = http;
      has_handler = true;
    };
    buf = buf;
    events = σ.events;
  }

  abbrev pub connection : Session → List ℕ → Connection H
  connection σ buf = connection_at read_frame_header zero_extended_header σ buf
