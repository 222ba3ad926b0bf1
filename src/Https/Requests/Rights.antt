-- ===== src/Https/Requests/Rights.antt =====
-- Who may change the server.
use libwebsocket_component.Prelude.{
  Outcome, aborted, is_empty, ℕ, ◌≡◌, refl, ◌⊎◌, inl, inr, true, false, ◌||◌, List, [], codes, done,
  Bool-cases,
}
use libwebsocket_component.Https.Query.{Text, text_eq}
use libwebsocket_component.Https.Numbers.{atol, to_int, is_below_zero, equals}
use libwebsocket_component.Https.Orders.{OrderEnv, Order}
use libwebsocket_component.Https.Orders.Executions.{order_process-Judged}
use libwebsocket_component.Https.Visits.{find_visit, is_listed}
use libwebsocket_component.Https.Orders.Judgement.{Misread}
use libwebsocket_component.Https.Requests.{
  Answer, ServiceState, service_repairing, service_running, Api, HttpResponse, is_repairing,
  repair_status, compare_and_swap, game_handle, is_admin_path, process_http_request,
  set_failed_response, no_permission, first_response, not_found, echo, in_repair, application_json,
  order_json,
}

running : (s : ServiceState) → is_repairing s ≡ false → s ≡ service_running
running service_repairing h = cc
running service_running h = refl

module _ (env : OrderEnv) where
  -- An order is executed only on its path and while the service runs.
  abbrev pub IsOrdered : Text → Api → List Order → Type 0
  IsOrdered path api os =
      (os ≡ [])
      ⊎ ((text_eq path (codes "/GameHandle") ≡ true) × (api.server_state ≡ service_running))

  -- The reason for which an order may abort: it is one, the service runs, and what it has encrypted
  -- is read past its end.
  abbrev pub Misordered : Text → Text → Api → Type 0
  Misordered path query api =
      (text_eq path (codes "/GameHandle") ≡ true)
      × (api.server_state ≡ service_running)
      × Misread env api.agent_info api.isdecrypt query

  -- A call that answers and leaves the server as it was, or aborts for the given reason.
  abbrev pub Answered : Type 0 → Api → (List Order → Type 0) → Outcome Answer → Type 0
  Answered Reason api P m =
      ((rsp : HttpResponse) × (os : List Order) × (m ≡ done (rsp, api, os)) × P os)
      ⊎ (Reason × (m ≡ aborted))

  game_handle-Answered :
      (path query : Text) (api : Api)
      → text_eq path (codes "/GameHandle") ≡ true
      → Answered
          (Misordered path query api)
          api
          (λ os. IsOrdered path api os)
          (game_handle env path query api)
  unfolding game_handle
  game_handle-Answered path query api h = elim (Bool-cases (is_repairing api.server_state)) [
    | inl e ↦
        inl
          (echo path query (set_failed_response in_repair first_response), [], rw e refl, inl refl)
    | inr e ↦ elim (order_process-Judged env api.agent_info api.isdecrypt query) [
      | inl (r, er, j) ↦ inl (
        echo path query
            (record first_response { content_type = application_json; body = order_json }),
        r.executed,
        rw (e, er) refl,
        inr (h, running api.server_state e),
      )
      | inr (u, er) ↦ inr ((h, running api.server_state e, u), rw (e, er) refl)
    ]
  ]

  -- A request from an address that is not an administrator's returns and leaves the server as it
  -- was, whatever its path and its query, with one exception: on the path for orders, while the
  -- service runs and with encrypted parameters, where the agent is known and not disabled and the
  -- key is right, it aborts if the decoding of their paraValue does, at a read past its end. It
  -- executes an order only on the path for orders and while the service runs.
  pub process_http_request-no_rights :
      (path query : Text) (peer : ℕ) (api : Api)
      → is_listed (find_visit peer api.admin_list) ≡ false
      → Answered
          (Misordered path query api)
          api
          (λ os. IsOrdered path api os)
          (process_http_request env path query peer api)
  unfolding process_http_request
  process_http_request-no_rights path query peer api h =
      elim (Bool-cases (text_eq path (codes "/GameHandle"))) [
        | inl g ↦ elim (game_handle-Answered path query api g) [
          | inl (rsp, os, e, o) ↦ inl (rsp, os, rw g e, o)
          | inr ((w, on, u), e) ↦ inr ((g, on, u), rw g e)
        ]
        | inr g ↦ elim (Bool-cases (is_admin_path path)) [
          | inl a ↦
              inl
                (set_failed_response no_permission first_response, [], rw (g, a, h) refl, inl refl)
          | inr a ↦ inl (set_failed_response not_found first_response, [], rw (g, a) refl, inl refl)
        ]
      ]

-- A request to repair the service or to end the repair: it is granted exactly when its text is the
-- number 0 or 1, and the service is then in the state that the number says; else it is as it was.
pub repair_status_lem :
    (text : Text) (s : ServiceState)
    → (((repair_status text s).0 ≡ false) × ((repair_status text s).1 ≡ s))
      ⊎ (((repair_status text s).0 ≡ true)
          × (equals (to_int (atol text)) 0 ≡ true)
          × ((repair_status text s).1 ≡ service_repairing))
      ⊎ (((repair_status text s).0 ≡ true)
          × (equals (to_int (atol text)) 1 ≡ true)
          × ((repair_status text s).1 ≡ service_running))
unfolding repair_status
repair_status_lem text s = elim (Bool-cases (is_empty text || is_below_zero (to_int (atol text)))) [
  | inl e ↦ rw e (inl (refl, refl))
  | inr e ↦ elim (Bool-cases (equals (to_int (atol text)) 0)) [
    | inl f ↦ rw (e, f) (inr (inl (refl, refl, repairs s)))
    | inr f ↦ elim (Bool-cases (equals (to_int (atol text)) 1)) [
      | inl g ↦ rw (e, f, g) (inr (inr (refl, refl, runs s)))
      | inr g ↦ rw (e, f, g) (inl (refl, refl))
    ]
  ]
]
  where
    repairs :
        (s : ServiceState)
        → compare_and_swap service_running service_repairing s ≡ service_repairing
    repairs service_running = refl
    repairs service_repairing = refl

    runs :
        (s : ServiceState) → compare_and_swap service_repairing service_running s ≡ service_running
    runs service_running = refl
    runs service_repairing = refl
