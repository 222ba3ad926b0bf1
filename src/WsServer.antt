-- ===== src/WsServer.antt =====
-- The server glue, muduo-vip/muduo/net/libwebsocket/server.cc and context.cc: a TCP connection of
-- muduo with a WebSocket context, whose callbacks come to calls of the connection and of the user.
pub mod Closing
pub mod Ending
pub mod Quiet
pub mod Segments
pub mod Conversation
pub mod Talk
use libwebsocket_component.Prelude.{
  Bool, true, false, List, [], ◌∷◌, ◌++◌, Option, none, some, if◌then◌else◌, codes, Outcome, done,
  aborted, ◌>>=◌, ℕ,
}
use libwebsocket_component.Buffer.{Buffer}
use libwebsocket_component.Frame.{OpcodeE}
use libwebsocket_component.Context.{
  Event, on_message_callback, on_closed_callback, on_connected_callback, send_message, shutdown,
  force_close, Context, Connection, create,
}
use libwebsocket_component.Handshake.{HttpEnv, Errno, parse_message_frame}
use libwebsocket_component.Pack.{ty_binary_message, pack_unmask_data_frame, pack_unmask_close_frame}

-- What a connection of muduo is asked to do, and what the callbacks of the user are told.
pub data Effect : Type 0 where
  sends : List ℕ → Effect
  shuts_down : Effect
  closes_by_force : Effect
  ws_connected : List ℕ → Effect
  ws_message : Buffer → OpcodeE → Effect

-- `websocket::Context`: its holder, and which of its callbacks are set.
pub record WsContext (H : Type 0) : Type 0 where
  pub holder : Context H
  pub has_connected_callback : Bool
  pub has_message_callback : Bool
  pub has_closed_callback : Bool

-- A connection; `locks` says that a weak pointer to it can still be locked.
pub record TcpConnection (H : Type 0) : Type 0 where
  pub locks : Bool
  pub peer_address : List ℕ
  pub ws_context : Option (WsContext H)
  pub effects : List Effect

module _ {H : Type 0} where
  abbrev pub add_effect : Effect → TcpConnection H → TcpConnection H
  add_effect x c = record c { effects = c.effects ++ (x ∷ []) }

  -- `conn->send` of the answer to a Close frame: one with the same payload.
  unfoldable pub on_closed : Buffer → TcpConnection H → Outcome (TcpConnection H)
  on_closed buf c = do rspdata ← pack_unmask_close_frame [] buf; done (add_effect (sends rspdata) c)

  -- The callbacks of a context whose connection is there.
  unfoldable pub call_back : WsContext H → Event → TcpConnection H → Outcome (TcpConnection H)
  call_back w (on_connected_callback ip) c =
      done (if w.has_connected_callback then add_effect (ws_connected ip) c else c)
  call_back w (on_message_callback buf op) c =
      done (if w.has_message_callback then add_effect (ws_message buf op) c else c)
  call_back w (on_closed_callback buf) c = if w.has_closed_callback then on_closed buf c else done c
  call_back w (send_message message) c = done (add_effect (sends message) c)
  call_back w shutdown c = done (add_effect shuts_down c)
  call_back w force_close c = done (add_effect closes_by_force c)

  -- Each callback locks the connection and does nothing if it is gone.
  unfoldable pub notify : WsContext H → Event → TcpConnection H → Outcome (TcpConnection H)
  notify w e c = elim c.locks [ true ↦ call_back w e c | false ↦ done c ]

  unfoldable pub notify_all : WsContext H → List Event → TcpConnection H → Outcome (TcpConnection H)
  notify_all w [] c = done c
  notify_all w (e ∷ es) c = notify w e c >>= λ d. notify_all w es d

  abbrev pub peer_ip_addr_to_string : TcpConnection H → List ℕ
  peer_ip_addr_to_string c = if c.locks then c.peer_address else codes "0.0.0.0"

  abbrev pub env_of : HttpEnv H → TcpConnection H → HttpEnv H
  env_of env c = record env { peer_ip_addr = peer_ip_addr_to_string c }

  -- What a call has done to the context, and the callbacks that it has made, in order.
  unfoldable pub take_result :
      WsContext H
      → TcpConnection H
      → Errno × Option (Connection H)
      → Outcome (TcpConnection H × Buffer)
  take_result w c (e, none) = aborted
  take_result w c (e, some t) = do
    d ← notify_all w t.events c
    done (record d { ws_context = some (record w { holder = t.context }) }, t.buf)

  -- The context must be there. The result of the call is dropped.
  unfoldable pub on_message :
      HttpEnv H → Buffer → TcpConnection H → Outcome (TcpConnection H × Buffer)
  on_message env buf c = elim c.ws_context [
    | none ↦ aborted
    | some w ↦
        parse_message_frame (env_of env c)
          (some (record { context = w.holder; buf = buf; events = [] }))
        >>= take_result w c
  ]

  -- `hook` with a new HTTP context and which callbacks the user gives, and `reset` of it.
  unfoldable pub hook : H → Bool → Bool → TcpConnection H → TcpConnection H
  hook http ccb mcb c = record c {
    ws_context = some (record {
      holder = create http [] [];
      has_connected_callback = ccb;
      has_message_callback = mcb;
      has_closed_callback = true;
    });
  }

  unfoldable pub reset_ws : TcpConnection H → TcpConnection H
  reset_ws c = record c { ws_context = none }

  -- A message of the user, as one binary frame.
  unfoldable pub send : List ℕ → TcpConnection H → Outcome (TcpConnection H)
  send octets c = do
    rspdata ← pack_unmask_data_frame [] octets ty_binary_message false
    done (add_effect (sends rspdata) c)
