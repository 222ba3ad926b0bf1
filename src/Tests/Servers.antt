-- ===== src/Tests/Servers.antt =====
-- A connection of the server glue that is greeted, gets two messages and a Close frame.
use libwebsocket_component.Prelude.{ℕ, ◌≡◌, refl, arith, true, [], ◌∷◌, ◌++◌, none, codes}
use libwebsocket_component.Frame.{text_message, ping_message}
use libwebsocket_component.Session.{receive_all}
use libwebsocket_component.WsServer.{ws_message, TcpConnection, hook}
use libwebsocket_component.WsServer.Closing.{told}
use libwebsocket_component.WsServer.Conversation.{first_session, opened_context}
use libwebsocket_component.Tests.Frames.{frames, frames_conform, segments}
use libwebsocket_component.Message.{xor_from}
use libwebsocket_component.WsServer.Segments.{feed_connection, Received}
use libwebsocket_component.WsServer.Talk.{greeting, feed_connection-hook}
use libwebsocket_component.Tests.Handshakes.{plain, request, is_request}

abbrev caller : TcpConnection ℕ
caller = record { locks = true; peer_address = codes "8.8.4.4"; ws_context = none; effects = [] }

talk_told :
    told (receive_all frames first_session).events
    ≡ ws_message (codes "p") ping_message ∷ ws_message (codes "Hello!") text_message ∷ []
talk_told = refl

feed_connection-hook_example :
    Received
      (caller.effects ++ greeting plain 1 caller)
      (receive_all frames first_session)
      opened_context
      (feed_connection plain (hook 0 true true caller) [] (request ∷ segments))
unfolding xor_from
feed_connection-hook_example =
    feed_connection-hook plain 0 1 request frames segments caller refl (ground arith) (ground arith)
      is_request refl refl frames_conform refl refl
