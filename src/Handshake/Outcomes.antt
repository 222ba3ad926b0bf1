-- ===== src/Handshake/Outcomes.antt =====
-- What a call of `parse_message_frame` on a closed connection comes to, and what it leaves for the
-- calls after it.
use libwebsocket_component.Prelude.{
  ℕ, ◌≤◌, ◌<◌, ◌≡◌, refl, ap, ◌∙◌, ◌≢◌, Bool, true, List, [], ◌∷◌, ◌++◌, Option, none, some, length,
  codes, Outcome, done, aborted, ◌>>=◌, arith, append-nil, append_assoc,
}
use libwebsocket_component.Buffer.{Buffer}
use libwebsocket_component.Frame.{connected, closed, StateE}
use libwebsocket_component.Context.{
  Event, on_connected_callback, send_message, shutdown, Connection,
}
use libwebsocket_component.Handshake.{
  HandShakeE, ws_error_want_more, ws_error_parse, ws_error_packsz, ws_error_crlfcrlf, Errno,
  HttpEnv, find_crlfcrlf, bad_request, create_websocket_response, get_http_context,
  set_http_context, reset_http_context, fail_handshake, accept_handshake, parse_handshake,
  do_handshake, answer_handshake, parse_on_state, parse_message_frame,
}
use libwebsocket_component.Handshake.Address.{client_address}

-- What the handler is told when the handshake ends with that error.
abbrev pub told : HandShakeE → List Event
told ws_error_parse = send_message bad_request ∷ shutdown ∷ []
told ws_error_packsz = send_message bad_request ∷ shutdown ∷ []
told _ = []

module _ {H : Type 0} (env : HttpEnv H) where
  abbrev pub welcome : H → List Event
  welcome http =
      send_message (create_websocket_response env http)
      ∷ on_connected_callback
          (client_address env.peer_ip_addr (env.get_header http (codes "X-Forwarded-For")))
      ∷ []

  abbrev pub answer :
      Outcome (Bool × Errno × Connection H) → Outcome (Errno × Option (Connection H))
  answer m = (m >>= answer_handshake) >>= λ r. done (r.0, some (r.1))

  -- With no HTTP context, `do_handshake` has no path that does not abort.
  do_handshake-no_context :
      (s : Connection H) → s.context.http_context ≡ none → do_handshake env s ≡ aborted
  unfolding do_handshake fail_handshake reset_http_context get_http_context
  do_handshake-no_context s h = ground arith

  pub parse_message_frame-closed :
      (s : Connection H)
      → s.context.state ≡ closed
      → parse_message_frame env (some s) ≡ answer (do_handshake env s)
  unfolding parse_message_frame parse_on_state
  parse_message_frame-closed s hs =
      ap (λ (st : StateE). parse_on_state env st s >>= λ r. done (r.0, some (r.1))) hs

  -- A closed connection that has lost its HTTP context cannot be read from: the call aborts.
  pub parse_message_frame-no_context :
      (s : Connection H)
      → s.context.state ≡ closed
      → s.context.http_context ≡ none
      → parse_message_frame env (some s) ≡ aborted
  parse_message_frame-no_context s hs hn =
      parse_message_frame-closed s hs ∙ ap answer (do_handshake-no_context s hn)

  -- The end of a handshake: what the context, the buffer and the handler have come to.
  abbrev Failed : HandShakeE → Connection H → Connection H → Type 0
  Failed e s t =
      (t.context ≡ record s.context { http_context = none }) × (t.events ≡ s.events ++ told e)

  abbrev Greeted : H → Connection H → Connection H → Type 0
  Greeted http s t =
      (t.context ≡ record s.context { state = connected; http_context = none })
      × (t.buf ≡ [])
      × (t.events ≡ s.events ++ welcome http)

  fail-Failed :
      (e₀ : HandShakeE) (s : Connection H) (http : H) (e : Errno) (t : Connection H)
      → s.context.http_context ≡ some http
      → answer (fail_handshake (some e₀) s) ≡ done (e, some t)
      → (e ≡ some e₀) × Failed e₀ s t
  unfolding fail_handshake reset_http_context get_http_context answer_handshake
  fail-Failed ws_error_parse s http e t hh h =
      ground (arith, append_assoc s.events (send_message bad_request ∷ []) (shutdown ∷ []))
  fail-Failed ws_error_packsz s http e t hh h =
      ground (arith, append_assoc s.events (send_message bad_request ∷ []) (shutdown ∷ []))
  fail-Failed _ s http e t hh h = ground (arith, append-nil s.events)

  abbrev pub Ends : H → Connection H → Errno → Connection H → Type 0
  Ends http s (some e) t = Failed e s t
  Ends http s none t =
      Greeted (env.parse_request_ptr http s.buf).1 s t
      × (4 < length s.buf)
      × (length s.buf ≤ 1024)
      × (find_crlfcrlf s.buf ≡ true)
      × ((env.parse_request_ptr http s.buf).0 ≡ true)
      × (env.got_all (env.parse_request_ptr http s.buf).1 ≡ true)

  accept-Greeted :
      (s : Connection H) (http next : H) (e : Errno) (t : Connection H)
      → s.context.http_context ≡ some http
      → answer (accept_handshake env next s) ≡ done (e, some t)
      → (e ≡ none) × Greeted next s t
  unfolding accept_handshake reset_http_context get_http_context answer_handshake
  accept-Greeted s http next e t hh h = ground (
    arith,
    append_assoc s.events (send_message (create_websocket_response env next) ∷ []) (
        on_connected_callback
          (client_address env.peer_ip_addr (env.get_header next (codes "X-Forwarded-For")))
        ∷ []),
  )

  not-fail_none :
      (s : Connection H) (e : Errno) (t : Connection H)
      → answer (fail_handshake none s) ≢ done (e, some t)
  unfolding fail_handshake reset_http_context get_http_context answer_handshake
  not-fail_none s e t = λ h. ground arith

  parsed-Ends :
      (s : Connection H) (http next : H) (rest : Buffer) (b g : Bool) (e : Errno) (t : Connection H)
      → 4 < length s.buf
      → length s.buf ≤ 1024
      → find_crlfcrlf s.buf ≡ true
      → env.parse_request_ptr http s.buf ≡ (b, next, rest)
      → env.got_all next ≡ g
      → answer (parse_handshake env http s) ≡ done (e, some t)
      → Ends http s e t
  unfolding parse_handshake
  parsed-Ends s http next rest b g e t lo hi hf hp hg h =
      let u = set_http_context (some next) (record s { buf = rest }) in
      ground (
        arith,
        fail-Failed ws_error_parse u next e t refl,
        accept-Greeted u next next e t refl,
        not-fail_none u e t,
      )

  -- A call on a closed connection with an HTTP context, if it returns. Without an error: the buffer held a request of 5
  -- to 1024 octets with an empty line, which the HTTP context took as complete, the buffer is empty,
  -- the connection is connected, and the handler has been sent the response and told the address of the client. With
  -- an error: the connection is still closed, and the handler has been sent an answer and told to
  -- shut down if the request did not parse or is too long. In both cases the HTTP context is gone
  -- and the rest of the context is as before.
  pub parse_message_frame-handshake :
      (s : Connection H) (http : H) (e : Errno) (t : Connection H)
      → s.context.state ≡ closed
      → s.context.http_context ≡ some http
      → parse_message_frame env (some s) ≡ done (e, some t)
      → Ends http s e t
  unfolding do_handshake get_http_context
  parse_message_frame-handshake s http e t hs hh h = ground (
    arith,
    parse_message_frame-closed s hs,
    fail-Failed ws_error_want_more s http e t hh,
    fail-Failed ws_error_packsz s http e t hh,
    fail-Failed ws_error_crlfcrlf s http e t hh,
    parsed-Ends s http (env.parse_request_ptr http s.buf).1 (env.parse_request_ptr http s.buf).2
        (env.parse_request_ptr http s.buf).0 (env.got_all (env.parse_request_ptr http s.buf).1) e t,
  )

  -- After a call on a closed connection that ends with an error, be it only that the request is not
  -- complete yet, the next call on the connection aborts, whatever has come in.
  pub parse_message_frame-retry :
      (s : Connection H) (http : H) (e : HandShakeE) (t : Connection H) (more : List ℕ)
      → s.context.state ≡ closed
      → s.context.http_context ≡ some http
      → parse_message_frame env (some s) ≡ done (some e, some t)
      → parse_message_frame env (some (record t { buf = t.buf ++ more })) ≡ aborted
  parse_message_frame-retry s http e t more hs hh h =
      let left = (parse_message_frame-handshake s http (some e) t hs hh h).0 in
      parse_message_frame-no_context (record t { buf = t.buf ++ more })
        (ap (λ c. c.state) left ∙ hs) (ap (λ c. c.http_context) left)
