-- ===== src/Handshake/Sessions.antt =====
-- A connection from its creation on: the handshake, the frames after it, and the end.
use libwebsocket_component.Prelude.{
  ℕ, ◌≤◌, ◌<◌, ◌≡◌, refl, ap, ◌∙◌, true, false, List, [], ◌++◌, none, some, length, ltb, leb, done,
  aborted, ◌>>=◌, All, arith,
}
use libwebsocket_component.Prelude.Octets.{IsOctet}
use libwebsocket_component.Frame.{text_message, close_message, StateE, connected, closed}
use libwebsocket_component.Context.{Connection, create}
use libwebsocket_component.Session.{
  ClientFrame, wire_all, Session, receive_all, FitsAll, connection,
}
use libwebsocket_component.Session.Refinement.{parse_frame-wire_all}
use libwebsocket_component.Base64.{decode}
use libwebsocket_component.Base64.RoundTrip.{decode-encode}
use libwebsocket_component.Handshake.{
  HttpEnv, find_crlfcrlf, get_accept_key, websocket_guid, reset_http_context, get_http_context,
  accept_handshake, parse_handshake, do_handshake, answer_handshake, parse_on_state,
  parse_message_frame, accepted,
}
use libwebsocket_component.Handshake.Outcomes.{welcome, parse_message_frame-no_context}

module _ {H : Type 0} (env : HttpEnv H) where
  -- The session right after the handshake.
  abbrev pub opened : H → Session
  opened http = record {
    data_type = text_message;
    pending = [];
    control_type = close_message;
    state = connected;
    events = welcome env http;
  }

  pub parse_message_frame-accepted :
      (http next : H) (req : List ℕ)
      → 4 < length req
      → length req ≤ 1024
      → find_crlfcrlf req ≡ true
      → env.parse_request_ptr http req ≡ (true, next, [])
      → env.got_all next ≡ true
      → parse_message_frame env (some (accepted http req))
        ≡ done (none, some (connection none (opened next) []))
  unfolding parse_message_frame parse_on_state do_handshake parse_handshake accept_handshake
      reset_http_context get_http_context create answer_handshake
  parse_message_frame-accepted http next req lo hi hf hp hg =
      let small : leb (length req) 4 ≡ false = ground arith in
      let large : ltb 1024 (length req) ≡ false = ground arith in rw (small, large, hf, hp, hg) refl

  pub parse_message_frame-frames :
      (σ : Session) (fs : List ClientFrame)
      → σ.state ≡ connected
      → FitsAll fs σ
      → parse_message_frame env (some (connection none σ (wire_all fs)))
        ≡ done (none, some (connection none (receive_all fs σ) []))
  unfolding parse_message_frame parse_on_state
  parse_message_frame-frames σ fs hs h =
      ap
        (λ (st : StateE).
          parse_on_state env st (connection none σ (wire_all fs)) >>= λ r. done (r.0, some (r.1)))
        hs
      ∙ rw (parse_frame-wire_all none fs σ h) refl

  -- A new connection gets a request of 5 to 1024 octets with an empty line in it, which the HTTP
  -- context takes as complete with nothing left: it is connected, and the handler has been sent the
  -- response and told the address. The frames that come next, if they may come, have the effect that
  -- the session states.
  pub parse_message_frame-session :
      (http next : H) (req : List ℕ) (fs : List ClientFrame)
      → 4 < length req
      → length req ≤ 1024
      → find_crlfcrlf req ≡ true
      → env.parse_request_ptr http req ≡ (true, next, [])
      → env.got_all next ≡ true
      → FitsAll fs (opened next)
      → (u : Connection H) × (parse_message_frame env (some (accepted http req))
          ≡ done (none, some u))
        × (u.context.state ≡ connected)
        × (u.events ≡ welcome env next)
        × (parse_message_frame env (some (record u { buf = wire_all fs }))
            ≡ done (none, some (connection none (receive_all fs (opened next)) [])))
  parse_message_frame-session http next req fs lo hi hf hp hg h = (
    connection none (opened next) [],
    parse_message_frame-accepted http next req lo hi hf hp hg,
    refl,
    refl,
    parse_message_frame-frames (opened next) fs refl h,
  )

  -- Frames that may come in a connected session and leave it closed: the call returns, and the next
  -- call on the connection aborts, whatever its input.
  pub parse_message_frame-after_close :
      (σ : Session) (fs : List ClientFrame) (more : List ℕ)
      → σ.state ≡ connected
      → FitsAll fs σ
      → (receive_all fs σ).state ≡ closed
      → (t : Connection H) × (parse_message_frame env (some (connection none σ (wire_all fs)))
          ≡ done (none, some t))
        × (parse_message_frame env (some (record t { buf = more })) ≡ aborted)
  parse_message_frame-after_close σ fs more hs h hc = (
    connection none (receive_all fs σ) [],
    parse_message_frame-frames σ fs hs h,
    parse_message_frame-no_context env (connection none (receive_all fs σ) more) hc refl,
  )

  -- The accept key decodes to the digest of the client's key followed by the text of the protocol,
  -- for a digest of octets.
  pub decode-get_accept_key :
      (k : List ℕ)
      → All IsOctet (env.sha1 (k ++ websocket_guid))
      → decode (get_accept_key env k) ≡ env.sha1 (k ++ websocket_guid)
  unfolding get_accept_key
  decode-get_accept_key k h = decode-encode (env.sha1 (k ++ websocket_guid)) h
