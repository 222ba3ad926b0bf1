-- ===== src/Https/Orders/Handlers.antt =====
-- The checks of `ApiServer::OrderProcess` in their order, of https/ApiServer.cpp.
use libwebsocket_component.Prelude.{
  is_empty, min, length, Bool, true, ◌||◌, not, [], ◌∷◌, ◌++◌, Option, none, some, if◌then◌else◌,
  codes, Outcome, done, ◌>>=◌,
}
use libwebsocket_component.Https.Query.{Text, HttpParams, parse_query}
use libwebsocket_component.Https.Numbers.{ℤ, is_at_most_zero, equals, atol}
use libwebsocket_component.Https.Urls.{multiple_decode}
use libwebsocket_component.Https.Scores.{rate100, floors_text, is_digital_str}
use libwebsocket_component.Https.Orders.{
  execute, proxy_id_error, proxy_md5_code_error, proxy_des_code_error, params_error,
  operation_type_error, is_error, AgentInfo, add_score, sub_score, Order, OrderEnv, Request, param,
  to_string, same_nocase, remove_lines, no_request, fail, add_failure, read_op_type, bad_op_type,
  bad_op_value, read_agent_id, bad_agent_id,
}

module _ (env : OrderEnv) where
  open env use {
    Double, zero_score, atof, at_most_zero, not_score, int_of_hundredfold, md5_encode32,
    html_decode, aes_ecb_decrypt,
  }

  abbrev pub Req : Type 0
  Req = Request Double

  -- The score is read only if its text has the form of a number.
  unfoldable pub read_score : Text → Req → Req
  read_score s r =
      if is_empty s || not (is_digital_str s) then r else record r { score = atof (floors_text s) }

  unfoldable pub bad_score : Text → Outcome Bool
  bad_score s =
      if is_empty s || not (is_digital_str s)
      then done true
      else if at_most_zero (atof (floors_text s)) || not_score (atof (floors_text s))
      then done true
      else (do cents ← rate100 s; done (is_at_most_zero cents))

  -- The account, the order and the score; every fault is told.
  unfoldable pub read_account : HttpParams → Req → Req
  read_account ps r =
      if is_empty (param (codes "account") ps)
      then add_failure params_error (codes "account ") r
      else record r { account = param (codes "account") ps }

  unfoldable pub read_order_id : HttpParams → Req → Req
  read_order_id ps r =
      if is_empty (param (codes "orderid") ps)
      then add_failure params_error (codes "orderid ") r
      else record r { order_id = param (codes "orderid") ps }

  unfoldable pub read_order : HttpParams → Req → Outcome Req
  read_order ps r = do
    let q = read_score (param (codes "score") ps) (read_order_id ps (read_account ps r))
    bad ← bad_score (param (codes "score") ps)
    done (if bad then add_failure params_error (codes "score ") q else q)

  -- `doOrderExecute`.
  unfoldable pub do_order_execute : Req → Req
  do_order_execute r =
      let order : Order = record {
        kind = if equals r.op_type 2 then add_score else sub_score;
        account = r.account;
        cents = int_of_hundredfold r.score;
        agent_id = r.agent_id;
        order_id = r.order_id;
      } in
      record r { errcode = execute order; executed = r.executed ++ (order ∷ []) }

  -- With a fault told, that is all.
  unfoldable pub unless_error : Req → Outcome Req → Outcome Req
  unless_error r k =
      if is_error r.errcode then done (record r { errmsg = r.errmsg ++ codes "invalid" }) else k

  -- Faults of the type do not end the reading, one of the agent does.
  unfoldable pub read_type : HttpParams → Req → Req
  read_type ps r =
      let q = read_op_type ps r in
      let p = if bad_op_type ps q then add_failure operation_type_error (codes "type ") q else q in
      if bad_op_value p then add_failure operation_type_error (codes "type value ") p else p

  -- The key is compared over its own length, up to 32.
  unfoldable pub key_matches : ℤ → Text → Text → Text → Bool
  key_matches agent_id timestamp md5code key =
      same_nocase (min 32 (length key))
        (md5_encode32 ((to_string agent_id ++ timestamp) ++ md5code)) key

  -- Decoded once, and once more if that cannot be decrypted.
  unfoldable pub decrypt_again : Text → Text → Outcome Text
  decrypt_again descode once = do
    twice ← multiple_decode once
    done (aes_ecb_decrypt (remove_lines twice) descode)

  unfoldable pub decrypt_value : Text → Text → Outcome Text
  decrypt_value descode para_value = do
    decoded ← multiple_decode (html_decode para_value)
    let once = remove_lines decoded
    if is_empty (aes_ecb_decrypt once descode)
        then decrypt_again descode once
        else done (aes_ecb_decrypt once descode)

  -- The parameters within the encrypted value.
  unfoldable pub decrypted_order : Text → Req → Outcome Req
  decrypted_order text q =
      if is_empty text
      then done (fail proxy_des_code_error (codes "DESDecrypt failed, AES_set_decrypt_key error") q)
      else (do
        inner ← parse_query text
        r ← read_order inner q
        unless_error r (done (do_order_execute r)))

  unfoldable pub check_key : Text → Text → Text → Req → AgentInfo → Outcome Req
  check_key timestamp para_value key q info =
      if key_matches q.agent_id timestamp info.md5code key
      then (do text ← decrypt_value info.descode para_value; decrypted_order text q)
      else done (fail proxy_md5_code_error (codes "md5 check error") q)

module _ (env : OrderEnv) (agent_info : ℤ → Option AgentInfo) where
  open env use {Double, zero_score}

  -- What goes on with an agent that is known and not disabled.
  unfoldable pub with_agent : Req env → (AgentInfo → Outcome (Req env)) → Outcome (Req env)
  with_agent r k = elim (agent_info r.agent_id) [
    | none ↦ done (fail proxy_id_error (codes "agent_info not found") r)
    | some info ↦
        if equals info.status 1
        then done (fail proxy_id_error (codes "agent.status error") r)
        else k info
  ]

  unfoldable pub plain_order : HttpParams → Outcome (Req env)
  plain_order ps =
      let q = read_agent_id ps (read_type env ps (no_request zero_score)) in
      if bad_agent_id ps q then done (add_failure params_error (codes "agentid ") q) else (do
        r ← read_order env ps q
        unless_error env r (with_agent r (λ info. done (do_order_execute env r))))

  unfoldable pub encrypted_values : HttpParams → Req env → Outcome (Req env)
  encrypted_values ps q =
      let timestamp = param (codes "timestamp") ps in
      let para_value = param (codes "paraValue") ps in
      let key = param (codes "key") ps in
      if is_empty timestamp || is_at_most_zero (atol timestamp)
      then done (fail params_error (codes "timestamp invalid") q)
      else if is_empty para_value
      then done (fail params_error (codes "paraValue invalid") q)
      else if is_empty key
      then done (fail params_error (codes "key invalid") q)
      else with_agent q (check_key env timestamp para_value key q)

  unfoldable pub encrypted_order : HttpParams → Outcome (Req env)
  encrypted_order ps =
      let q = read_op_type ps (no_request zero_score) in
      let p = read_agent_id ps q in
      if bad_op_type ps q
      then done (fail operation_type_error (codes "type invalid") q)
      else if bad_op_value q
      then done (fail operation_type_error (codes "type value invalid") q)
      else if bad_agent_id ps p
      then done (fail params_error (codes "agentid invalid") p)
      else encrypted_values ps p

module _ (env : OrderEnv) (isdecrypt : Bool) (agent_info : ℤ → Option AgentInfo) where
  unfoldable pub order_process : Text → Outcome (Req env)
  order_process query = do
    ps ← parse_query query
    if isdecrypt then encrypted_order env agent_info ps else plain_order env agent_info ps
