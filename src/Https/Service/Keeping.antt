-- ===== src/Https/Service/Keeping.antt =====
-- What a message and an answer leave of the count of connections and of who has a context.
use libwebsocket_component.Prelude.{
  ℕ, ◌≡◌, refl, ap, ◌∙◌, ◌⊎◌, inl, inr, Bool, true, false, ◌&&◌, not, Option, none, some, ltb, ◌==◌,
  ==_iff, codes, Outcome, done, aborted, assert, >>=-eq-done, Bool-cases,
}
use libwebsocket_component.Buffer.{Buffer}
use libwebsocket_component.Https.Buckets.{replace, alive, lock_entry}
use libwebsocket_component.Https.Query.{Text}
use libwebsocket_component.Https.Orders.{OrderEnv}
use libwebsocket_component.Https.Requests.{process_http_request}
use libwebsocket_component.Https.Visits.{is_open, is_ip_allowed, request_ip}
use libwebsocket_component.Https.Service.{
  HttpRequests, ConnContext, Server, closes, react, count_bad, enqueue, check_visit, refuse,
  handle_message, on_http_message, answer_request, answer_connection, async_http_handler,
}

abbrev pub is_some {ℓ} : {A : Type ℓ} → Option A → Bool
is_some none = false
is_some (some a) = true

pub done-injective {ℓ} : {A : Type ℓ} {a b : A} → done a ≡ done b → a ≡ b
done-injective e = cc

module _ {H : Type 0} where
  -- What a call leaves that is not about a connection that comes or goes.
  abbrev pub Keeps : Server H → Server H → Type 0
  Keeps s t =
      (t.num_connected ≡ s.num_connected)
      × (t.max_connections ≡ s.max_connections)
      × ((d : ℕ) → is_some (t.context d) ≡ is_some (s.context d))

  Keeps-refl : (s t : Server H) → done s ≡ done t → Keeps s t
  Keeps-refl s t e = let same : s ≡ t = done-injective e in rw (← same) (refl, refl, λ d. refl)

  enqueue-Keeps : (c : ℕ) (x : ConnContext H) (s t : Server H) → enqueue c x s ≡ done t → Keeps s t
  unfolding enqueue
  enqueue-Keeps c x s t e = elim (Bool-cases (alive c s.wheel)) [
    | inl a ↦ elim (Bool-cases (ltb s.loop.index s.buckets)) [
      | inl i ↦ elim (Bool-cases (ltb x.worker_index s.workers)) [
        | inl j ↦ Keeps-refl _ t (rw (a, i, j) at e)
        | inr j ↦ (let no_result = rw (a, i, j) at e in cc)
      ]
      | inr i ↦ (let no_result = rw (a, i) at e in cc)
    ]
    | inr a ↦ Keeps-refl (count_bad s) t (rw a at e)
  ]

  Keeps-trans : (s t u : Server H) → Keeps s t → Keeps t u → Keeps s u
  Keeps-trans s t u (a, b, f) (a', b', f') = (a' ∙ a, b' ∙ b, λ d. f' d ∙ f d)

  check_visit-Keeps :
      (req : HttpRequests H) (peer : Text) (c : ℕ) (x : ConnContext H) (s t : Server H)
      → check_visit req peer c x s ≡ done t
      → Keeps s t
  unfolding check_visit
  check_visit-Keeps req peer c x s t e =
      elim (Bool-cases (
        is_open s.api.white_list_control
        && not (
            is_ip_allowed s.api.admin_list s.api.white_list (
              req.ip_of_text
                (request_ip peer (req.get_header x.http (codes "X-Forwarded-For"))))))) [
                  | inl a ↦ Keeps-refl (count_bad (react (closes c) s)) t (rw a at e)
                  | inr a ↦ enqueue-Keeps c x s t (rw a at e)
                ]

  is_some-replace :
      (f : ℕ → Option (ConnContext H)) (c : ℕ) (x y : ConnContext H)
      → f c ≡ some x
      → (d : ℕ) → is_some (replace f c (some y) d) ≡ is_some (f d)
  is_some-replace f c x y e d = elim (Bool-cases (d == c)) [
    | inl s ↦
        (let same : d ≡ c = (==_iff d c).0 s in
          let there : is_some (f d) ≡ true = ap (λ k. is_some (f k)) same ∙ ap is_some e in
          rw (s, there) refl)
    | inr s ↦ rw s refl
  ]

  handle_message-Keeps :
      (req : HttpRequests H) (peer : Text) (c : ℕ) (buf rest : Buffer) (x : ConnContext H)
      (s t : Server H)
      → s.context c ≡ some x
      → handle_message req peer c buf x s ≡ done (t, rest)
      → Keeps s t
  unfolding handle_message refuse
  handle_message-Keeps req peer c buf rest x s t ec e =
      let http : H = (req.parse_request x.http buf).1 in
      let y : ConnContext H = record x { http = http } in
      let v : Server H = record s { context = replace s.context c (some y) } in
      let z : ConnContext H = record y { http = req.reset http } in
      let kv : Keeps s v = (refl, refl, is_some-replace s.context c x y ec) in
      elim (Bool-cases ((req.parse_request x.http buf).0 && req.got_all http)) [
        | inl a ↦
            (let (u, eu, er) = >>=-eq-done (check_visit req peer c y v) _ (rw a at e) in
              let same : u ≡ t = ap (λ (p : Server H × Buffer). p.0) (done-injective er) in
              rw (← same) (Keeps-trans s v u kv (check_visit-Keeps req peer c y v u eu)))
        | inr a ↦
            (let same : refuse req c y v ≡ t =
                ap (λ (p : Server H × Buffer). p.0) (done-injective (rw a at e)) in
              rw (← same) (
                Keeps-trans s v (refuse req c y v) kv
                  (refl, refl, is_some-replace v.context c y z (replaced s.context c y))))
      ]
    where
      replaced :
          (f : ℕ → Option (ConnContext H)) (c : ℕ) (y : ConnContext H)
          → replace f c (some y) c ≡ some y
      replaced f c y = let same : (c == c) ≡ true = (==_iff c c).1 refl in rw same refl

  pub option_cases :
      (o : Option (ConnContext H)) → (o ≡ none) ⊎ ((x : ConnContext H) × (o ≡ some x))
  option_cases none = inl refl
  option_cases (some x) = inr (x, refl)

  pub on_http_message-Keeps :
      (req : HttpRequests H) (peer : Text) (c : ℕ) (buf rest : Buffer) (s t : Server H)
      → on_http_message req peer c buf s ≡ done (t, rest)
      → Keeps s t
  unfolding on_http_message
  on_http_message-Keeps req peer c buf rest s t e = go (s.context c) refl e
    where
      go :
          (o : Option (ConnContext H))
          → s.context c ≡ o
          → (elim o as (λ z. Outcome (Server H × Buffer)) [
            | none ↦ done (s, buf)
            | some y ↦ handle_message req peer c buf y s
          ])
            ≡ done (t, rest)
          → Keeps s t
      go none ec h =
          let same : s ≡ t = ap (λ (p : Server H × Buffer). p.0) (done-injective h) in
          rw (← same) (refl, refl, λ d. refl)
      go (some x) ec h = handle_message-Keeps req peer c buf rest x s t ec h

  answer_request-Keeps :
      (req : HttpRequests H) (env : OrderEnv) (c peer : ℕ) (x : ConnContext H) (s t : Server H)
      → s.context c ≡ some x
      → answer_request req env peer c x s ≡ done t
      → Keeps s t
  unfolding answer_request
  answer_request-Keeps req env c peer x s t ec e =
      let (u, eu, er) = >>=-eq-done (assert (req.got_all x.http)) _ e in
      let ((rsp, api, os), ea, el) =
        >>=-eq-done (process_http_request env (req.path x.http) (req.query x.http) peer s.api) _
          er in
      let same = done-injective el in
      rw (← same)
        (refl, refl, is_some-replace s.context c x (record x { http = req.reset x.http }) ec)

  answer_connection-Keeps :
      (req : HttpRequests H) (env : OrderEnv) (c peer : ℕ) (s t : Server H)
      → answer_connection req env peer c s ≡ done t
      → Keeps s t
  unfolding answer_connection
  answer_connection-Keeps req env c peer s t e = elim (Bool-cases (s.wheel.conn c)) [
    | inl a ↦ go (s.context c) refl (rw a at e)
    | inr a ↦ Keeps-refl (count_bad s) t (rw a at e)
  ]
    where
      go :
          (o : Option (ConnContext H))
          → s.context c ≡ o
          → (elim o as (λ z. Outcome (Server H)) [
            | none ↦ aborted
            | some x ↦ answer_request req env peer c x s
          ])
            ≡ done t
          → Keeps s t
      go none ec h = cc
      go (some x) ec h = answer_request-Keeps req env c peer x s t ec h

  pub async_http_handler-Keeps :
      (req : HttpRequests H) (env : OrderEnv) (c peer : ℕ) (s t : Server H)
      → async_http_handler req env peer c s ≡ done t
      → Keeps s t
  unfolding async_http_handler
  async_http_handler-Keeps req env c peer s t e = elim (Bool-cases (alive c s.wheel)) [
    | inl a ↦
        (let (u, eu, er) =
            >>=-eq-done
              (answer_connection req env peer c (record s { wheel = lock_entry c s.wheel })) _
              (rw a at e) in
          let same = done-injective er in
          rw (← same) (
            answer_connection-Keeps req env c peer (record s { wheel = lock_entry c s.wheel }) u
              eu))
    | inr a ↦ Keeps-refl (count_bad s) t (rw a at e)
  ]
