-- ===== src/Handshake.antt =====
-- The handshake of libwebsocket/private/websocket.cc: `do_handshake`, the entry point
-- `parse_message_frame`, and `create` and `free` of a context.
pub mod Address
pub mod Forwarded
pub mod Outcomes
pub mod Returns
pub mod Sessions
pub mod Streams
use libwebsocket_component.Prelude.{
  ℕ, Bool, true, false, ◌&&◌, ◌||◌, not, List, [], ◌∷◌, ◌++◌, Option, none, some, ltb, leb, ◌==◌,
  if◌then◌else◌, codes, Outcome, done, aborted, assert, ◌>>=◌, ◌>>◌,
}
use libwebsocket_component.Buffer.{Buffer, readable_bytes}
use libwebsocket_component.Frame.{StateE, connected, closed}
use libwebsocket_component.Context.{
  Event, on_connected_callback, send_message, shutdown, Context, Connection, get_callback_handler,
  set_state, call, create, reset_all,
}
use libwebsocket_component.Parser.{parse_frame}
use libwebsocket_component.Base64.{encode}
use libwebsocket_component.Handshake.Address.{has_prefix, client_address}

pub data HandShakeE : Type 0 where
  ws_error_want_more : HandShakeE
  ws_error_parse : HandShakeE
  ws_error_packsz : HandShakeE
  ws_error_crlfcrlf : HandShakeE
  ws_error_context : HandShakeE

-- `saveErrno`: none is 0.
abbrev pub Errno : Type 0
Errno = Option HandShakeE

-- What the handshake calls and the repository takes from elsewhere: the HTTP context
-- (libwebsocket/IHttpContext.h), SHA-1, the date, and the address of the peer.
pub record HttpEnv (H : Type 0) : Type 0 where
  pub parse_request_ptr : H → Buffer → Bool × H × Buffer
  pub got_all : H → Bool
  pub get_header : H → List ℕ → List ℕ
  pub sha1 : List ℕ → List ℕ
  pub webtime_now : List ℕ
  pub peer_ip_addr : List ℕ

abbrev pub crlf : List ℕ
crlf = 13 ∷ 10 ∷ []

-- `findCRLFCRLF`, of which the handshake uses only whether it finds something.
unfoldable pub find_crlfcrlf : Buffer → Bool
find_crlfcrlf [] = false
find_crlfcrlf (c ∷ cs) = has_prefix (crlf ++ crlf) (c ∷ cs) || find_crlfcrlf cs

abbrev pub websocket_guid : List ℕ
websocket_guid = codes "258EAFA5-E914-47DA-95CA-C5AB0DC85B11"

abbrev pub bad_request : List ℕ
bad_request = codes "HTTP/1.1 400 Bad Request" ++ crlf ++ crlf

module _ {H : Type 0} where
  -- `getHttpContext` asserts that the HTTP context is there.
  unfoldable pub get_http_context : Connection H → Outcome H
  get_http_context s = elim s.context.http_context [ none ↦ aborted | some h ↦ done h ]

  abbrev pub set_http_context : Option H → Connection H → Connection H
  set_http_context h s = record s { context = record s.context { http_context = h } }

  -- `context.getHttpContext().reset()`.
  unfoldable pub reset_http_context : Connection H → Outcome (Connection H)
  reset_http_context s = do h ← get_http_context s; done (set_http_context none s)

  -- The end of `do_handshake` on every path that does not connect.
  unfoldable pub fail_handshake : Errno → Connection H → Outcome (Bool × Errno × Connection H)
  fail_handshake e s = do t ← reset_http_context s; done (false, e, t)

  -- The switch on `saveErrno` after `do_handshake`.
  unfoldable pub answer_handshake : Bool × Errno × Connection H → Outcome (Errno × Connection H)
  answer_handshake (ok, none, s) = do assert ok; done (none, s)
  answer_handshake (ok, some ws_error_parse, s) = do
    get_callback_handler s
    done (some ws_error_parse, call shutdown (call (send_message bad_request) s))
  answer_handshake (ok, some ws_error_packsz, s) = do
    get_callback_handler s
    done (some ws_error_packsz, call shutdown (call (send_message bad_request) s))
  answer_handshake (ok, some e, s) = done (some e, s)

module _ {H : Type 0} (env : HttpEnv H) where
  unfoldable pub get_accept_key : List ℕ → List ℕ
  get_accept_key k = encode (env.sha1 (k ++ websocket_guid))

  unfoldable pub create_websocket_response : H → List ℕ
  create_websocket_response req =
      codes "HTTP/1.1 101 Switching Protocols"
      ++ crlf
      ++ codes "Connection: Upgrade"
      ++ crlf
      ++ codes "Content-Type: application/octet-stream"
      ++ crlf
      ++ codes "Upgrade: websocket"
      ++ crlf
      ++ codes "Sec-WebSocket-Version: 13"
      ++ crlf
      ++ codes "Sec-WebSocket-Accept: "
      ++ get_accept_key (env.get_header req (codes "Sec-WebSocket-Key"))
      ++ crlf
      ++ codes "Server: TXQP"
      ++ crlf
      ++ codes "Timing-Allow-Origin: *"
      ++ crlf
      ++ codes "Date: "
      ++ env.webtime_now
      ++ crlf
      ++ crlf

  -- A complete request: `retrieveAll` leaves the buffer empty.
  unfoldable pub accept_handshake : H → Connection H → Outcome (Bool × Errno × Connection H)
  accept_handshake http s = do
    let rsp = create_websocket_response http
    let ip = client_address env.peer_ip_addr (env.get_header http (codes "X-Forwarded-For"))
    assert (readable_bytes s.buf == 0)
    let open_state = set_state connected (record s { buf = [] })
    t ← reset_http_context (call (on_connected_callback ip) (call (send_message rsp) open_state))
    done (true, none, t)

  -- `parseRequestPtr` and what follows it.
  unfoldable pub parse_handshake : H → Connection H → Outcome (Bool × Errno × Connection H)
  parse_handshake http s =
      let (parsed, next, rest) = env.parse_request_ptr http s.buf in
      let t = set_http_context (some next) (record s { buf = rest }) in
      if not parsed
      then fail_handshake (some ws_error_parse) t
      else if env.got_all next
      then accept_handshake next t
      else fail_handshake none t

  unfoldable pub do_handshake : Connection H → Outcome (Bool × Errno × Connection H)
  do_handshake s = do
    get_callback_handler s
    if leb (readable_bytes s.buf) 4
        then fail_handshake (some ws_error_want_more) s
        else if ltb 1024 (readable_bytes s.buf)
        then fail_handshake (some ws_error_packsz) s
        else if not (find_crlfcrlf s.buf)
        then fail_handshake (some ws_error_crlfcrlf) s
        else do http ← get_http_context s; parse_handshake http s

  -- A connection that is not closed is connected: the assert of the last branch always holds.
  unfoldable pub parse_on_state : StateE → Connection H → Outcome (Errno × Connection H)
  parse_on_state closed s = do r ← do_handshake s; answer_handshake r
  parse_on_state connected s = do t ← parse_frame s; done (none, t)

  -- With no context there is nothing to work on.
  unfoldable pub parse_message_frame :
      Option (Connection H) → Outcome (Errno × Option (Connection H))
  parse_message_frame none = done (some ws_error_context, none)
  parse_message_frame (some s) = do (e, t) ← parse_on_state s.context.state s; done (e, some t)

-- A connection whose context has just been created, with empty message buffers.
module _ {H : Type 0} where
  abbrev pub accepted : H → Buffer → Connection H
  accepted http buf = record { context = create http [] []; buf = buf; events = [] }

  -- `free`: the context as it is when its destructor ends.
  unfoldable pub free : Option (Context H) → Outcome (Context H)
  free none = aborted
  free (some c) = done (reset_all (reset_all c))
