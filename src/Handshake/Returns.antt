-- ===== src/Handshake/Returns.antt =====
-- When a call on a closed connection returns.
use libwebsocket_component.Prelude.{
  ◌≤◌, ◌<◌, ◌≡◌, refl, ◌∙◌, inl, inr, Bool, true, false, [], Option, none, some, ltb, leb, length,
  Outcome, done, aborted, assert, ◌>>=◌, Bool-cases, arith,
}
use libwebsocket_component.Frame.{closed}
use libwebsocket_component.Context.{send_message, shutdown, Connection, call}
use libwebsocket_component.Handshake.{
  HandShakeE, ws_error_want_more, ws_error_parse, ws_error_packsz, ws_error_crlfcrlf, Errno,
  HttpEnv, find_crlfcrlf, bad_request, get_http_context, set_http_context, reset_http_context,
  fail_handshake, accept_handshake, parse_handshake, do_handshake, answer_handshake,
  parse_message_frame,
}
use libwebsocket_component.Handshake.Outcomes.{
  answer, Ends, parse_message_frame-closed, parse_message_frame-handshake,
}

module _ {H : Type 0} (env : HttpEnv H) where
  -- A failed handshake with the context and the handler in place.
  failing :
      (e₀ : HandShakeE) (s : Connection H) (http : H)
      → s.context.has_handler ≡ true
      → s.context.http_context ≡ some http
      → (t : Connection H) × (answer env (fail_handshake (some e₀) s) ≡ done (some e₀, some t))
  unfolding fail_handshake reset_http_context get_http_context answer_handshake
  failing ws_error_parse s http hb hh =
      (call shutdown (call (send_message bad_request) (set_http_context none s)), ground arith)
  failing ws_error_packsz s http hb hh =
      (call shutdown (call (send_message bad_request) (set_http_context none s)), ground arith)
  failing _ s http hb hh = (set_http_context none s, ground arith)

  Returns : Outcome (Errno × Option (Connection H)) → Type 0
  Returns r = (e : Errno) × (t : Connection H) × (r ≡ done (e, some t))

  failing-Returns :
      (e₀ : HandShakeE) (s : Connection H) (http : H)
      → s.context.has_handler ≡ true
      → s.context.http_context ≡ some http
      → Returns (answer env (fail_handshake (some e₀) s))
  unfolding Returns
  failing-Returns e₀ s http hb hh = let (t, e) = failing e₀ s http hb hh in (some e₀, t, e)

  accept-Returns :
      (s : Connection H) (next : H)
      → s.context.http_context ≡ some next
      → s.buf ≡ []
      → Returns (answer env (accept_handshake env next s))
  unfolding Returns accept_handshake reset_http_context get_http_context answer_handshake
  accept-Returns s next hh he = rw (he, hh) (none, _, refl)

  parsed-Returns :
      (s : Connection H) (http : H)
      → s.context.has_handler ≡ true
      → ((env.parse_request_ptr http s.buf).0 ≡ true
          → (env.got_all (env.parse_request_ptr http s.buf).1 ≡ true)
            × ((env.parse_request_ptr http s.buf).2 ≡ []))
      → Returns (answer env (parse_handshake env http s))
  unfolding parse_handshake
  parsed-Returns s http hb k = elim (Bool-cases (env.parse_request_ptr http s.buf).0) [
    | inl parsed ↦ rw (parsed, (k parsed).0) (accept-Returns _ _ refl (k parsed).1)
    | inr failed ↦ rw failed (failing-Returns ws_error_parse _ _ hb refl)
  ]

  asserted :
      (b : Bool) (r : Outcome (Bool × Errno × Connection H))
      → b ≡ true
      → Returns (answer env r)
      → Returns (answer env (assert b >>= λ u. r))
  asserted true r e h = h
  asserted false r e h = cc

  in_context :
      (o : Option H) (http : H) (r : H → Outcome (Bool × Errno × Connection H))
      → o ≡ some http
      → Returns (answer env (r http))
      → Returns (answer env ((elim o [ none ↦ aborted | some h ↦ done h ]) >>= r))
  in_context none http r e h = cc
  in_context (some h') http r e h = rw (the_same h' http e) h
    where
      the_same : (h' http : H) → some h' ≡ some http → h' ≡ http
      the_same h' http e = cc

  do_handshake-Returns :
      (s : Connection H) (http : H)
      → s.context.has_handler ≡ true
      → s.context.http_context ≡ some http
      → (4 < length s.buf
          → length s.buf ≤ 1024
          → find_crlfcrlf s.buf ≡ true
          → (env.parse_request_ptr http s.buf).0 ≡ true
          → (env.got_all (env.parse_request_ptr http s.buf).1 ≡ true)
            × ((env.parse_request_ptr http s.buf).2 ≡ []))
      → Returns (answer env (do_handshake env s))
  unfolding do_handshake get_http_context
  do_handshake-Returns s http hb hh k = asserted _ _ hb (elim (Bool-cases (leb (length s.buf) 4)) [
    | inl small ↦ rw small (failing-Returns ws_error_want_more s http hb hh)
    | inr more ↦ rw more (elim (Bool-cases (ltb 1024 (length s.buf))) [
      | inl large ↦ rw large (failing-Returns ws_error_packsz s http hb hh)
      | inr fits ↦ rw fits (elim (Bool-cases (find_crlfcrlf s.buf)) [
        | inr no_end ↦ rw no_end (failing-Returns ws_error_crlfcrlf s http hb hh)
        | inl found ↦ rw found (
            in_context s.context.http_context http (λ h. parse_handshake env h s) hh
              (parsed-Returns s http hb (k (ground arith) (ground arith) found)))
      ])
    ])
  ])

  -- A call on a closed connection, with its HTTP context and a handler in place, returns, unless
  -- the buffer holds 5 to 1024 octets with an empty line that the HTTP context parses without taking
  -- them as complete or without using them up. What it has done is what its error says.
  pub parse_message_frame-returns :
      (s : Connection H) (http : H)
      → s.context.state ≡ closed
      → s.context.has_handler ≡ true
      → s.context.http_context ≡ some http
      → (4 < length s.buf
          → length s.buf ≤ 1024
          → find_crlfcrlf s.buf ≡ true
          → (env.parse_request_ptr http s.buf).0 ≡ true
          → (env.got_all (env.parse_request_ptr http s.buf).1 ≡ true)
            × ((env.parse_request_ptr http s.buf).2 ≡ []))
      → (e : Errno) × (t : Connection H) × (parse_message_frame env (some s) ≡ done (e, some t))
        × Ends env http s e t
  unfolding Returns
  parse_message_frame-returns s http hs hb hh k =
      let (e, t, r) = do_handshake-Returns s http hb hh k in
      let run = parse_message_frame-closed env s hs ∙ r in
      (e, t, run, parse_message_frame-handshake env s http e t hs hh run)
