-- ===== src/WsServer/Talk.antt =====
-- A connection from the hook on, whose frames come in segments.
use libwebsocket_component.Prelude.{
  ℕ, ◌≤◌, ◌<◌, ◌≡◌, refl, true, List, [], ◌∷◌, ◌++◌, none, some, length, concat,
}
use libwebsocket_component.Frame.{connected}
use libwebsocket_component.Session.{ClientFrame, wire_all, receive_all}
use libwebsocket_component.Session.Conformity.{IsStream, IsStream-FitsAll}
use libwebsocket_component.Handshake.{HttpEnv, find_crlfcrlf, create_websocket_response}
use libwebsocket_component.WsServer.{Effect, sends, ws_connected, TcpConnection, hook}
use libwebsocket_component.WsServer.Conversation.{
  first_session, address_of, opened_context, on_message-accepted,
}
use libwebsocket_component.WsServer.Segments.{feed_connection, Received, feed_connection-segments}

module _ {H : Type 0} where
  -- What the handshake has done.
  abbrev pub greeting : HttpEnv H → H → TcpConnection H → List Effect
  greeting env next c =
      sends (create_websocket_response env next) ∷ ws_connected (address_of env next c) ∷ []

  -- A connection that is there is hooked, with both callbacks. It gets a request of 5 to 1024 octets
  -- with an empty line in it, which the HTTP context takes as complete with nothing left, and then,
  -- in any number of calls and cut anywhere, frames that leave the session open: a sequence that a
  -- client may send by RFC 6455, section 5.4 (a continuation only within a message, a text or binary
  -- frame only outside one, control frames final and of fewer than 126 octets, payloads below 2 ^ 63
  -- octets), in which every
  -- continuation stands at a multiple of four octets of its message. All calls return with the input
  -- used up.
  -- The server has sent the response and nothing else, the user has been told the address and then
  -- the messages of the session in order, and the context is that of the session.
  pub feed_connection-hook :
      (env : HttpEnv H) (http next : H) (req : List ℕ) (fs : List ClientFrame) (cs : List (List ℕ))
      (c : TcpConnection H)
      → c.locks ≡ true
      → 4 < length req
      → length req ≤ 1024
      → find_crlfcrlf req ≡ true
      → env.parse_request_ptr http req ≡ (true, next, [])
      → env.got_all next ≡ true
      → IsStream none fs
      → (receive_all fs first_session).state ≡ connected
      → concat cs ≡ wire_all fs
      → Received
          (c.effects ++ greeting env next c)
          (receive_all fs first_session)
          opened_context
          (feed_connection env (hook http true true c) [] (req ∷ cs))
  feed_connection-hook env http next req fs cs c hl lo hi hf hp hg h hs e =
      rw (on_message-accepted env http next req c hl lo hi hf hp hg) (
        feed_connection-segments env fs first_session cs opened_context
          (record c {
            effects = c.effects ++ greeting env next c;
            ws_context = some opened_context;
          })
          (IsStream-FitsAll fs first_session refl h) hs e (hl, refl, refl, refl))
