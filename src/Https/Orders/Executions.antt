-- ===== src/Https/Orders/Executions.antt =====
-- Which orders are executed.
use libwebsocket_component.Prelude.{
  is_empty, ◌≡◌, refl, ap, ◌∙◌, inl, inr, arith, Bool, true, false, ◌&&◌, ◌||◌, not, [], Option,
  if◌then◌else◌, codes, done, Bool-cases,
}
use libwebsocket_component.Https.Query.{Text, HttpParams}
use libwebsocket_component.Https.Query.Ends.{parse_query-done}
use libwebsocket_component.Https.Numbers.{ℤ, is_at_most_zero, equals, atol}
use libwebsocket_component.Https.Orders.{
  params_error, operation_type_error, is_error, AgentInfo, OrderEnv, param, no_request, fail,
  add_failure, read_op_type, bad_op_type, bad_op_value, read_agent_id, bad_agent_id,
}
use libwebsocket_component.Https.Orders.Handlers.{
  Req, do_order_execute, with_agent, read_type, plain_order, check_key, encrypted_values,
  encrypted_order, order_process,
}
use libwebsocket_component.Https.Orders.Judgement.{
  agent_of, Unreadable, Misread, because, Returned, do_order_execute-Judged, with_agent-Returned,
  ordered-Returned,
}
use libwebsocket_component.Https.Orders.Decryption.{check_key-Returned}

module _ (env : OrderEnv) (agent_info : ℤ → Option AgentInfo) where
  open env use {Double, zero_score, atof, int_of_hundredfold}

  -- The type: a fault is told, or the operation is one of the two.
  abbrev TypeRead : Req env → Type 0
  TypeRead q = (q.executed ≡ []) × (is_error q.errcode ≡ false → bad_op_value q ≡ false)

  read_op_type-executed :
      (ps : HttpParams) (q : Req env)
      → ((read_op_type ps q).executed ≡ q.executed) × ((read_op_type ps q).errcode ≡ q.errcode)
  read_op_type-executed ps q = elim (Bool-cases (is_empty (param (codes "type") ps))) [
    | inl e ↦ rw e (refl, refl)
    | inr e ↦ rw e (refl, refl)
  ]

  type_value-TypeRead :
      (p : Req env)
      → p.executed ≡ []
      → TypeRead
          (if bad_op_value p then add_failure operation_type_error (codes "type value ") p else p)
  type_value-TypeRead p h = go (bad_op_value p) refl
    where
      go :
          (b : Bool)
          → bad_op_value p ≡ b
          → TypeRead (if b then add_failure operation_type_error (codes "type value ") p else p)
      go true e = (h, λ x. cc)
      go false e = (h, λ x. e)

  read_type-TypeRead : (ps : HttpParams) → TypeRead (read_type env ps (no_request zero_score))
  unfolding read_type
  read_type-TypeRead ps =
      let q : Req env = read_op_type ps (no_request zero_score) in
      let (e, f) = read_op_type-executed ps (no_request zero_score) in
      elim (Bool-cases (bad_op_type ps q)) [
        | inl b ↦ rw b (type_value-TypeRead (add_failure operation_type_error (codes "type ") q) e)
        | inr b ↦ rw b (type_value-TypeRead q e)
      ]

  read_agent_id-TypeRead :
      (ps : HttpParams) (q : Req env) → TypeRead q → TypeRead (read_agent_id ps q)
  read_agent_id-TypeRead ps q h = elim (Bool-cases (is_empty (param (codes "agentid") ps))) [
    | inl e ↦ rw e h
    | inr e ↦ rw e h
  ]

  agent_above :
      (ps : HttpParams) (q : Req env)
      → bad_agent_id ps q ≡ false
      → is_at_most_zero q.agent_id ≡ false
  agent_above ps q h = ground arith

  agent_named :
      (ps : HttpParams) (q : Req env)
      → bad_agent_id ps (read_agent_id ps q) ≡ false
      → (read_agent_id ps q).agent_id ≡ agent_of ps
  agent_named ps q h = elim (Bool-cases (is_empty (param (codes "agentid") ps))) [
    | inl e ↦ absurd (ground arith)
    | inr e ↦ rw e refl
  ]

  plain_order-Returned :
      (R : Type 0) (ps : HttpParams) → Returned env agent_info R (plain_order env agent_info ps)
  unfolding plain_order
  plain_order-Returned R ps =
      let q : Req env = read_agent_id ps (read_type env ps (no_request zero_score)) in
      let (he, ho) =
        read_agent_id-TypeRead ps (read_type env ps (no_request zero_score))
          (read_type-TypeRead ps) in
      elim (Bool-cases (bad_agent_id ps q)) [
        | inl b ↦ inl (add_failure params_error (codes "agentid ") q, rw b refl, inl (he, refl))
        | inr b ↦ rw b (
            ordered-Returned env agent_info R ps q
              (λ r. with_agent env agent_info r (λ info. done (do_order_execute env r))) he ho
              λ r la ready.
                with_agent-Returned env agent_info R r (λ info. done (do_order_execute env r))
                  ready.0
                  λ info ei es. inl (
                    do_order_execute env r,
                    refl,
                    do_order_execute-Judged env agent_info r ready
                        (ap is_at_most_zero la ∙ agent_above ps q b, (info, ei, es)),
                  ))
      ]

  encrypted_values-Returned :
      (ps : HttpParams) (q : Req env)
      → q.executed ≡ []
      → bad_op_value q ≡ false
      → is_at_most_zero q.agent_id ≡ false
      → q.agent_id ≡ agent_of ps
      → Returned env agent_info
          (Unreadable env agent_info ps)
          (encrypted_values env agent_info ps q)
  unfolding encrypted_values
  encrypted_values-Returned ps q he ho ha ea =
      elim (Bool-cases (
        is_empty (param (codes "timestamp") ps)
        || is_at_most_zero (atol (param (codes "timestamp") ps)))) [
          | inl e ↦ inl (fail params_error (codes "timestamp invalid") q, rw e refl, inl (he, refl))
          | inr e ↦ elim (Bool-cases (is_empty (param (codes "paraValue") ps))) [
            | inl f ↦
                inl
                  (fail params_error (codes "paraValue invalid") q, rw (e, f) refl, inl (he, refl))
            | inr f ↦ elim (Bool-cases (is_empty (param (codes "key") ps))) [
              | inl g ↦
                  inl (fail params_error (codes "key invalid") q, rw (e, f, g) refl, inl (he, refl))
              | inr g ↦
                  rw (e, f, g)
                    (with_agent-Returned env agent_info (Unreadable env agent_info ps) q
                      (check_key env (param (codes "timestamp") ps) (param (codes "paraValue") ps)
                        (param (codes "key") ps) q)
                      he
                      λ info ei es.
                        because env agent_info _ (Unreadable env agent_info ps) _
                          (λ (m, u). (info, rw (← ea) ei, es, rw (← ea) m, u))
                          (check_key-Returned env agent_info (param (codes "timestamp") ps)
                            (param (codes "paraValue") ps) (param (codes "key") ps) q info he ho
                            (ha, (info, ei, es))))
            ]
          ]
        ]

  read_agent_id-same :
      (ps : HttpParams) (q : Req env)
      → ((read_agent_id ps q).executed ≡ q.executed) × ((read_agent_id ps q).op_type ≡ q.op_type)
  read_agent_id-same ps q = elim (Bool-cases (is_empty (param (codes "agentid") ps))) [
    | inl e ↦ rw e (refl, refl)
    | inr e ↦ rw e (refl, refl)
  ]

  encrypted_order-Returned :
      (ps : HttpParams)
      → Returned env agent_info (Unreadable env agent_info ps) (encrypted_order env agent_info ps)
  unfolding encrypted_order
  encrypted_order-Returned ps =
      let q : Req env = read_op_type ps (no_request zero_score) in
      let p : Req env = read_agent_id ps q in
      let (he, hc) = read_op_type-executed ps (no_request zero_score) in
      let (ke, ko) = read_agent_id-same ps q in
      elim (Bool-cases (bad_op_type ps q)) [
        | inl a ↦
            inl (fail operation_type_error (codes "type invalid") q, rw a refl, inl (he, refl))
        | inr a ↦ elim (Bool-cases (bad_op_value q)) [
          | inl b ↦ inl (
            fail operation_type_error (codes "type value invalid") q,
            rw (a, b) refl,
            inl (he, refl),
          )
          | inr b ↦ elim (Bool-cases (bad_agent_id ps p)) [
            | inl c ↦ inl (
              fail params_error (codes "agentid invalid") p,
              rw (a, b, c) refl,
              inl (ke ∙ he, refl),
            )
            | inr c ↦
                rw (a, b, c)
                  (encrypted_values-Returned ps p (ke ∙ he)
                    (ap (λ op. not (equals op 2) && not (equals op 3)) ko ∙ b) (agent_above ps p c)
                    (agent_named ps q c))
          ]
        ]
      ]

  -- The handler returns on every query, with one exception: with encrypted parameters, where the
  -- query is parsed to parameters whose agent is known and not disabled and whose key is right, it
  -- aborts if the decoding of their paraValue, or the second decoding where the first cannot be
  -- decrypted, aborts at a read past the end. When it returns, either it has executed no order
  -- and tells an error, or it has executed one order and tells what that gave, and then: the operation
  -- is one of the two, the order has an account and a number, its agent is known and not disabled,
  -- and its score is the hundredfold of a text that has the form of a number and passes the tests
  -- on it.
  pub order_process-Judged :
      (isdecrypt : Bool) (query : Text)
      → Returned env agent_info
          (Misread env agent_info isdecrypt query)
          (order_process env isdecrypt agent_info query)
  unfolding order_process
  order_process-Judged true query =
      let (ps, e) = parse_query-done query in
      rw (e, order_process)
        (because env agent_info (Unreadable env agent_info ps) _ _ (λ u. (refl, (ps, refl, u)))
          (encrypted_order-Returned ps))
  order_process-Judged false query =
      let (ps, e) = parse_query-done query in rw e (plain_order-Returned _ ps)
