-- ===== src/Tests/Frames.antt =====
-- A client's frames, and the parser on them.
use libwebsocket_component.Prelude.{
  ℕ, ◌≡◌, ◌≢◌, ◌<◌, ◌^◌, refl, arith, List, [], ◌∷◌, ◌++◌, All, none, inl, inr, codes, done,
  aborted, unfinished, take, drop, ◌+◌, length, length,
}
use libwebsocket_component.Prelude.Octets.{IsOctet}
use libwebsocket_component.Frame.{
  opcode_code, frame_continue, frame_finished, segment_message, text_message, ping_message,
  close_message, connected,
}
use libwebsocket_component.Message.{xor_from}
use libwebsocket_component.Context.{on_message_callback, Connection}
use libwebsocket_component.Session.Conformity.{IsStream}
use libwebsocket_component.Session.Segments.Streams.{feed, parse_frame-segments}
use libwebsocket_component.Session.Aborts.{
  parse_frame-long_control_aborts, parse_frame-unmasked_aborts,
}
use libwebsocket_component.Endian.{octet_at}
use libwebsocket_component.Parser.{parse_frame}
use libwebsocket_component.Parser.Loop.{parse_frame-ne-unfinished}
use libwebsocket_component.Session.{
  ClientFrame, key, wire, wire_all, Session, receive_all, receive_read, FitsAll, connection,
}
use libwebsocket_component.Session.Refinement.{
  parse_frame-wire_all, parse_frame-wire_read, parse_frame-misaligned, first_fragment,
  last_fragment,
}

-- A text message in two fragments with a Ping between them.
abbrev pub head : ClientFrame
head = record {
  opcode = text_message;
  fin = frame_continue;
  key0 = 1;
  key1 = 2;
  key2 = 3;
  key3 = 255;
  payload = codes "Hell";
}

abbrev pub ping : ClientFrame
ping = record {
  opcode = ping_message;
  fin = frame_finished;
  key0 = 9;
  key1 = 9;
  key2 = 0;
  key3 = 200;
  payload = codes "p";
}

abbrev pub tail : ClientFrame
tail = record {
  opcode = segment_message;
  fin = frame_finished;
  key0 = 55;
  key1 = 250;
  key2 = 33;
  key3 = 61;
  payload = codes "o!";
}

abbrev pub start : Session
start = record {
  data_type = text_message;
  pending = [];
  control_type = close_message;
  state = connected;
  events = [];
}

octets_head : All IsOctet (key head) × All IsOctet head.payload × (length head.payload < 2 ^ 63)
octets_head = ground arith

abbrev pub frames : List ClientFrame
frames = head ∷ ping ∷ tail ∷ []

pub frames_fit : FitsAll frames start
frames_fit = ground arith

pub frames_conform : IsStream none frames
frames_conform = ground arith

parse_frame-wire_all_example :
    parse_frame (connection {H = Unit {0}} none start (wire_all frames))
    ≡ done (connection none (receive_all frames start) [])
parse_frame-wire_all_example = parse_frame-wire_all {H = Unit {0}} none frames start frames_fit

-- The handler is told the Ping first and the message after it.
frames_told :
    (receive_all frames start).events
    ≡ on_message_callback (codes "p") ping_message
      ∷ on_message_callback (codes "Hello!") text_message
      ∷ []
frames_told = refl

parse_frame-wire_read_example :
    parse_frame (connection {H = Unit {0}} none start (wire head (1 ∷ [])))
    ≡ parse_frame (connection none (receive_read head start) (1 ∷ []))
parse_frame-wire_read_example =
    parse_frame-wire_read {H = Unit {0}} none head start (1 ∷ []) (octets_head, refl)

-- Three octets are pending, so the fragment begins with the last octet of its key.
abbrev short_head : ClientFrame
short_head = record head { payload = codes "Hel" }

parse_frame-misaligned_example :
    (t : Connection (Unit {0})) × (m : List ℕ) × (parse_frame (
        connection none
          (record start { pending = [] })
          (wire (first_fragment short_head) (wire (last_fragment tail (codes "lo")) [])))
      ≡ done t)
    × (t.events ≡ [] ++ (on_message_callback (codes "Hel" ++ m) text_message ∷ []))
    × (m ≢ codes "lo")
parse_frame-misaligned_example =
    parse_frame-misaligned {H = Unit {0}} none short_head tail 108 (111 ∷ []) start (ground arith)
      (ground arith) (ground arith)

parse_frame-ne-unfinished_example :
    parse_frame (connection {H = Unit {0}} none start (129 ∷ 255 ∷ 7 ∷ [])) ≢ unfinished
parse_frame-ne-unfinished_example =
    parse_frame-ne-unfinished {H = Unit {0}} (connection none start (129 ∷ 255 ∷ 7 ∷ []))

-- The same octets in four segments: inside the key of the first frame, inside the payload of the
-- Ping, and after one octet of the last header.
abbrev pub segments : List (List ℕ)
segments =
    take 4 (wire_all frames)
    ∷ take 12 (drop 4 (wire_all frames))
    ∷ take 2 (drop 16 (wire_all frames))
    ∷ drop 18 (wire_all frames)
    ∷ []

parse_frame-segments_example :
    feed (connection {H = Unit {0}} none start []) segments
    ≡ done (connection none (receive_all frames start) [])
unfolding xor_from
parse_frame-segments_example =
    parse_frame-segments {H = Unit {0}} none frames start segments refl frames_conform refl

parse_frame-long_control_aborts_example :
    parse_frame (
      connection {H = Unit {0}} none start (
        (opcode_code ping_message + 128)
        ∷ 254
        ∷ octet_at 1 200
        ∷ octet_at 0 200
        ∷ 1
        ∷ 2
        ∷ 3
        ∷ 4
        ∷ []))
    ≡ aborted
parse_frame-long_control_aborts_example =
    parse_frame-long_control_aborts {H = Unit {0}} none ping_message 200 1 2 3 4 start []
      (inr (inl refl)) (ground arith) (ground arith)

parse_frame-unmasked_aborts_example :
    parse_frame (
      connection {H = Unit {0}} none start
        ((opcode_code text_message + 128) ∷ length (codes "hi") ∷ (codes "hi" ++ [])))
    ≡ aborted
parse_frame-unmasked_aborts_example =
    parse_frame-unmasked_aborts {H = Unit {0}} none text_message (codes "hi") [] start
      (inr (inl refl)) refl (ground arith)
