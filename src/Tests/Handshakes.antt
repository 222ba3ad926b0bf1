-- ===== src/Tests/Handshakes.antt =====
-- The handshake with an HTTP context that takes any input as one complete request.
use libwebsocket_component.Prelude.{
  ℕ, suc, ◌≡◌, refl, arith, true, List, [], ◌∷◌, ◌++◌, none, some, codes, done, aborted, ltb,
}
use libwebsocket_component.Frame.{frame_finished, close_message}
use libwebsocket_component.Context.{Connection, create}
use libwebsocket_component.Session.{ClientFrame, wire_all, receive_all, FitsAll, connection}
use libwebsocket_component.Handshake.{
  HttpEnv, Errno, ws_error_want_more, find_crlfcrlf, crlf, parse_message_frame, accepted,
  get_http_context, reset_http_context, fail_handshake, answer_handshake, do_handshake,
  parse_on_state,
}
use libwebsocket_component.Handshake.Address.{
  client_address, split, remove_spaces, first_public, IsSplit,
}
use libwebsocket_component.Handshake.Forwarded.{Despaced, IsFirstKept, client_address-forwarded}
use libwebsocket_component.Handshake.Outcomes.{
  Ends, parse_message_frame-handshake, parse_message_frame-retry,
}
use libwebsocket_component.Handshake.Returns.{parse_message_frame-returns}
use libwebsocket_component.Handshake.Sessions.{opened, parse_message_frame-after_close}
use libwebsocket_component.Handshake.Streams.{feed_message, parse_message_frame-segments}
use libwebsocket_component.Message.{xor_from}
use libwebsocket_component.Tests.Frames.{start, frames, segments}

-- The HTTP context counts the requests; there is no header.
abbrev pub plain : HttpEnv ℕ
plain = record {
  parse_request_ptr = λ h buf. (true, suc h, []);
  got_all = λ h. ltb 0 h;
  get_header = λ h name. [];
  sha1 = λ text. codes "01234567890123456789";
  webtime_now = codes "Sat, 29 Feb 2020 07:07:34 GMT";
  peer_ip_addr = codes "8.8.8.8";
}

abbrev pub request : List ℕ
request = codes "GET / HTTP/1.1" ++ crlf ++ crlf

pub is_request : find_crlfcrlf request ≡ true
unfolding find_crlfcrlf
is_request = refl

opened_fit : FitsAll frames (opened plain 1)
opened_fit = ground arith

parse_message_frame-segments_example :
    feed_message plain (accepted 0 []) (request ∷ segments)
    ≡ done (none, some (connection none (receive_all frames (opened plain 1)) []))
unfolding xor_from
parse_message_frame-segments_example =
    parse_message_frame-segments plain 0 1 request frames segments (ground arith) (ground arith)
      is_request refl refl opened_fit refl refl

-- A request of which two octets have come in.
abbrev begun : Connection ℕ
begun = accepted 0 (codes "GE")

abbrev failed : Connection ℕ
failed = record begun { context = record begun.context { http_context = none } }

begun_fails : parse_message_frame plain (some begun) ≡ done (some ws_error_want_more, some failed)
unfolding parse_message_frame parse_on_state do_handshake fail_handshake reset_http_context
    get_http_context answer_handshake create
begun_fails = refl

parse_message_frame-handshake_example : Ends plain 0 begun (some ws_error_want_more) failed
unfolding create
parse_message_frame-handshake_example =
    parse_message_frame-handshake plain begun 0 (some ws_error_want_more) failed refl refl
      begun_fails

parse_message_frame-retry_example :
    parse_message_frame plain (some (record failed { buf = failed.buf ++ codes "T / HTTP/1.1" }))
    ≡ aborted
unfolding create
parse_message_frame-retry_example =
    parse_message_frame-retry plain begun 0 ws_error_want_more failed (codes "T / HTTP/1.1") refl
      refl begun_fails

abbrev pub goodbye : ClientFrame
goodbye = record {
  opcode = close_message;
  fin = frame_finished;
  key0 = 1;
  key1 = 2;
  key2 = 3;
  key3 = 4;
  payload = 3 ∷ 232 ∷ [];
}

goodbye_fits : FitsAll (goodbye ∷ []) start
goodbye_fits = ground arith

parse_message_frame-after_close_example :
    (t : Connection ℕ) × (parse_message_frame plain
        (some (connection none start (wire_all (goodbye ∷ []))))
      ≡ done (none, some t))
    × (parse_message_frame plain (some (record t { buf = 1 ∷ [] })) ≡ aborted)
parse_message_frame-after_close_example =
    parse_message_frame-after_close plain start (goodbye ∷ []) (1 ∷ []) refl goodbye_fits refl

abbrev forwarded : List ℕ
forwarded = codes "10.0.0.7, , 203.0.113.5,8.8.8.8"

forwarded_address : client_address (codes "9.9.9.9") forwarded ≡ codes "203.0.113.5"
unfolding client_address first_public split remove_spaces
forwarded_address = refl

client_address-forwarded_example :
    (text : List ℕ) × (ps : List (List ℕ)) × Despaced forwarded text
    × IsSplit text ps
    × IsFirstKept ps (client_address (codes "9.9.9.9") forwarded)
client_address-forwarded_example =
    client_address-forwarded (codes "9.9.9.9") b'1' (codes "0.0.0.7, , 203.0.113.5,8.8.8.8")

parse_message_frame-returns_example :
    (e : Errno) × (t : Connection ℕ) × (parse_message_frame plain (some begun) ≡ done (e, some t))
    × Ends plain 0 begun e t
unfolding create
parse_message_frame-returns_example =
    parse_message_frame-returns plain begun 0 refl refl refl (λ a b c d. (refl, refl))
