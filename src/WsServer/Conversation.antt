-- ===== src/WsServer/Conversation.antt =====
-- A connection from the hook to the Close frame, as the network and the user see it.
use libwebsocket_component.Prelude.{
  ℕ, ◌≤◌, ◌<◌, ◌≡◌, refl, sym, ap, ◌∙◌, true, List, [], ◌∷◌, ◌++◌, append-nil, append_assoc, none,
  some, length, Outcome, done, codes, inr,
}
use libwebsocket_component.Buffer.{Buffer}
use libwebsocket_component.Frame.{
  text_message, binary_message, close_message, frame_finished, connected,
}
use libwebsocket_component.Session.{Session, connection}
use libwebsocket_component.Handshake.{
  HttpEnv, find_crlfcrlf, create_websocket_response, get_accept_key,
}
use libwebsocket_component.Handshake.Address.{client_address}
use libwebsocket_component.Handshake.Sessions.{parse_message_frame-accepted}
use libwebsocket_component.Pack.Decode.{decode_frame}
use libwebsocket_component.Pack.Single.{server_frame, decode_frame-pack_unmask_uncontrol_frame}
use libwebsocket_component.Pack.{pack_unmask_data_frame}
use libwebsocket_component.WsServer.{
  Effect, sends, ws_connected, WsContext, TcpConnection, notify, notify_all, call_back, env_of,
  take_result, on_message, hook, send,
}

-- The session of a connection right after its handshake.
abbrev pub first_session : Session
first_session = record {
  data_type = text_message;
  pending = [];
  control_type = close_message;
  state = connected;
  events = [];
}

module _ {H : Type 0} where
  -- The context after the handshake, with the callbacks of the hook.
  abbrev pub opened_context : WsContext H
  opened_context = record {
    holder = (connection {H = H} none first_session []).context;
    has_connected_callback = true;
    has_message_callback = true;
    has_closed_callback = true;
  }

  abbrev pub address_of : HttpEnv H → H → TcpConnection H → List ℕ
  address_of env next c =
      client_address c.peer_address (env.get_header next (codes "X-Forwarded-For"))

  -- The response does not depend on the address of the peer.
  response-env_of :
      (env : HttpEnv H) (next : H) (c : TcpConnection H)
      → create_websocket_response (env_of env c) next ≡ create_websocket_response env next
  unfolding create_websocket_response get_accept_key
  response-env_of env next c = refl

  pub on_message-accepted :
      (env : HttpEnv H) (http next : H) (req : List ℕ) (c : TcpConnection H)
      → c.locks ≡ true
      → 4 < length req
      → length req ≤ 1024
      → find_crlfcrlf req ≡ true
      → env.parse_request_ptr http req ≡ (true, next, [])
      → env.got_all next ≡ true
      → on_message env req (hook http true true c)
        ≡ done (
          record c {
            effects =
                c.effects
                ++ (sends (create_websocket_response env next)
                    ∷ ws_connected (address_of env next c)
                    ∷ []);
            ws_context = some opened_context;
          },
          [],
        )
  unfolding hook on_message take_result notify_all notify call_back
  on_message-accepted env http next req c hl lo hi hf hp hg =
      let parsed =
        parse_message_frame-accepted (env_of env (hook http true true c)) http next req lo hi hf hp
          hg in
      let told_by : List Effect → Outcome (TcpConnection H × Buffer) =
        λ xs. done (record c { effects = xs; ws_context = some opened_context }, []) in
      let response = sends (create_websocket_response env next) ∷ [] in
      let address = ws_connected (address_of env next c) ∷ [] in
      let step : on_message env req (hook http true true c)
          ≡ told_by ((c.effects ++ response) ++ address) =
        rw (parsed, response-env_of env next (hook http true true c), hl) refl in
      step ∙ ap told_by (append_assoc c.effects response address)

  -- A message of up to 65535 octets is sent as one frame, which a client decodes as a final binary
  -- frame with these octets.
  pub decode_frame-send :
      (octets : List ℕ) (c : TcpConnection H)
      → length octets ≤ 65535
      → (out : List ℕ) × (send octets c
          ≡ done (record c { effects = c.effects ++ (sends out ∷ []) }))
        × (decode_frame out ≡ some (server_frame binary_message frame_finished octets, []))
  unfolding send pack_unmask_data_frame
  decode_frame-send octets c n =
      let (h, out, packed, read) =
        decode_frame-pack_unmask_uncontrol_frame [] octets [] binary_message frame_finished
          (inr (inr refl)) n in
      (out, rw packed refl, ap decode_frame (sym (append-nil out)) ∙ read)
