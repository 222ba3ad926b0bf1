-- ===== src/Https/Service/Counting.antt =====
-- What a message on a connection with a context comes to.
use libwebsocket_component.Prelude.{
  ℕ, ◌+◌, ◌%◌, ◌^◌, ◌<◌, ◌≡◌, refl, ◌∙◌, ◌⊎◌, inl, inr, true, ◌&&◌, not, [], ◌∷◌, ◌++◌, Option,
  none, some, lt→ltb, codes, Outcome, done, Bool-cases,
}
use libwebsocket_component.Buffer.{Buffer}
use libwebsocket_component.Https.Buckets.{alive, replace, update_bucket}
use libwebsocket_component.Https.Query.{Text}
use libwebsocket_component.Https.Visits.{is_open, is_ip_allowed, request_ip}
use libwebsocket_component.Https.Service.{
  HttpRequests, ConnContext, Server, closes, react, count_bad, enqueue, check_visit, refuse,
  handle_message, on_http_message,
}

module _ {H : Type 0} where
  -- One task more, for the worker of the connection, and no bad request more; or the other way.
  abbrev pub IsCounted : ℕ → ConnContext H → Server H → Server H → Type 0
  IsCounted c x s t =
      ((t.tasks ≡ s.tasks ++ ((x.worker_index, c) ∷ []))
        × (t.num_total_bad_req ≡ s.num_total_bad_req)
        × (alive c s.wheel ≡ true)
        × (t.wheel ≡ update_bucket c s.wheel))
      ⊎ ((t.tasks ≡ s.tasks)
          × (t.num_total_bad_req ≡ (s.num_total_bad_req + 1) % 2 ^ 64)
          × (t.wheel ≡ s.wheel))

  enqueue-IsCounted :
      (c : ℕ) (x : ConnContext H) (s : Server H)
      → s.loop.index < s.buckets
      → x.worker_index < s.workers
      → (t : Server H) × (enqueue c x s ≡ done t) × IsCounted c x s t
  unfolding enqueue
  enqueue-IsCounted c x s hb hw = elim (Bool-cases (alive c s.wheel)) [
    | inl e ↦ (
      record s { wheel = update_bucket c s.wheel; tasks = s.tasks ++ ((x.worker_index, c) ∷ []) },
      rw (e, lt→ltb s.loop.index s.buckets hb, lt→ltb x.worker_index s.workers hw) refl,
      inl (refl, refl, e, refl),
    )
    | inr e ↦ (count_bad s, rw e refl, inr (refl, refl, refl))
  ]

  check_visit-IsCounted :
      (req : HttpRequests H) (peer : Text) (c : ℕ) (x : ConnContext H) (s : Server H)
      → s.loop.index < s.buckets
      → x.worker_index < s.workers
      → (t : Server H) × (check_visit req peer c x s ≡ done t) × IsCounted c x s t
  unfolding check_visit
  check_visit-IsCounted req peer c x s hb hw =
      elim (Bool-cases (
        is_open s.api.white_list_control
        && not (
            is_ip_allowed s.api.admin_list s.api.white_list (
              req.ip_of_text
                (request_ip peer (req.get_header x.http (codes "X-Forwarded-For"))))))) [
                  | inl e ↦ (count_bad (react (closes c) s), rw e refl, inr (refl, refl, refl))
                  | inr e ↦ rw e (enqueue-IsCounted c x s hb hw)
                ]

  handle_message-IsCounted :
      (req : HttpRequests H) (peer : Text) (c : ℕ) (buf : Buffer) (x : ConnContext H) (s : Server H)
      → s.loop.index < s.buckets
      → x.worker_index < s.workers
      → (t : Server H) × (rest : Buffer) × (handle_message req peer c buf x s ≡ done (t, rest))
        × IsCounted c x s t
  unfolding handle_message refuse
  handle_message-IsCounted req peer c buf x s hb hw =
      let http : H = (req.parse_request x.http buf).1 in
      let y : ConnContext H = record x { http = http } in
      let v : Server H = record s { context = replace s.context c (some y) } in
      elim (Bool-cases ((req.parse_request x.http buf).0 && req.got_all http)) [
        | inl e ↦
            (let (t, et, k) = check_visit-IsCounted req peer c y v hb hw in
              (t, (req.parse_request x.http buf).2, rw (e, et) refl, k))
        | inr e ↦
            (refuse req c y v, (req.parse_request x.http buf).2, rw e refl, inr (refl, refl, refl))
      ]

  -- A message on a connection that has been admitted, by a loop with a wheel of its own and a worker
  -- that there is: the call returns, and either there is one task more, for the worker of the
  -- connection, whose entry is alive and has been put into the newest bucket, or one bad request
  -- more, with the wheel as it was; never both, and never neither.
  pub on_http_message-IsCounted :
      (req : HttpRequests H) (peer : Text) (c : ℕ) (buf : Buffer) (x : ConnContext H) (s : Server H)
      → s.context c ≡ some x
      → s.loop.index < s.buckets
      → x.worker_index < s.workers
      → (t : Server H) × (rest : Buffer) × (on_http_message req peer c buf s ≡ done (t, rest))
        × IsCounted c x s t
  unfolding on_http_message
  on_http_message-IsCounted req peer c buf x s e hb hw =
      let (t, rest, r, k) = handle_message-IsCounted req peer c buf x s hb hw in
      (t, rest, on_context (s.context c) e ∙ r, k)
    where
      on_context :
          (o : Option (ConnContext H))
          → o ≡ some x
          → (elim o as (λ z. Outcome (Server H × Buffer)) [
            | none ↦ done (s, buf)
            | some y ↦ handle_message req peer c buf y s
          ])
            ≡ handle_message req peer c buf x s
      on_context none h = cc
      on_context (some y) h = let same : y ≡ x = cc in rw same refl
