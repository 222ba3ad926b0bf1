-- ===== src/Https/Orders/Judgement.antt =====
-- What it means that an order has passed the checks, and the steps that lead to it.
use libwebsocket_component.Prelude.{
  aborted, is_empty, ◌≡◌, refl, sym, ap, ◌∙◌, ◌⊎◌, inl, inr, arith, Bool, true, false, ◌&&◌, not,
  [], ◌∷◌, ◌++◌, Option, none, some, if◌then◌else◌, codes, Outcome, done, ◌>>=◌, Bool-cases,
}
use libwebsocket_component.Https.Query.{Text, HttpParams, parse_query}
use libwebsocket_component.Https.Numbers.{ℤ, is_at_most_zero, equals, atol, to_int}
use libwebsocket_component.Https.Scores.{floors_text}
use libwebsocket_component.Https.Urls.{multiple_decode}
use libwebsocket_component.Https.Orders.{
  execute, ErrorCode, proxy_id_error, is_error, AgentInfo, OrderKind, add_score, sub_score, Order,
  OrderEnv, param, fail, bad_op_value, remove_lines,
}
use libwebsocket_component.Https.Orders.Handlers.{
  Req, read_order, do_order_execute, with_agent, unless_error, key_matches,
}
use libwebsocket_component.Https.Orders.Checks.{IsScore, ReadsOrder, read_order-ReadsOrder}

-- The number of the agent that a query names.
abbrev pub agent_of : HttpParams → ℤ
agent_of ps = to_int (atol (param (codes "agentid") ps))

module _ (env : OrderEnv) (agent_info : ℤ → Option AgentInfo) where
  open env use {Double, zero_score, atof, int_of_hundredfold, html_decode, aes_ecb_decrypt}

  -- The operation is one of the two that there are.
  abbrev pub IsKind : ℤ → OrderKind → Type 0
  IsKind op kind =
      ((equals op 2 ≡ true) × (kind ≡ add_score)) ⊎ ((equals op 3 ≡ true) × (kind ≡ sub_score))

  -- The agent is known and not disabled.
  abbrev pub IsActive : ℤ → Type 0
  IsActive id =
      (is_at_most_zero id ≡ false)
      × ((info : AgentInfo) × (agent_info id ≡ some info) × (equals info.status 1 ≡ false))

  abbrev pub IsChecked : ℤ → Order → Type 0
  IsChecked op o =
      (is_empty o.account ≡ false)
      × (is_empty o.order_id ≡ false)
      × IsActive o.agent_id
      × IsKind op o.kind
      × ((s : Text) × IsScore env s × (o.cents ≡ int_of_hundredfold (atof (floors_text s))))

  -- No order and an error, or one order that has passed the checks, and what the database says.
  abbrev pub Judged : Req env → Type 0
  Judged r =
      ((r.executed ≡ []) × (is_error r.errcode ≡ true))
      ⊎ ((o : Order) × (r.executed ≡ o ∷ []) × (r.errcode ≡ execute o) × IsChecked r.op_type o)

  -- A call that returns with that, or aborts for the given reason.
  abbrev pub Returned : Type 0 → Outcome (Req env) → Type 0
  Returned Reason m = ((r : Req env) × (m ≡ done r) × Judged r) ⊎ (Reason × (m ≡ aborted))

  -- The value is read past its end: as it is decoded once, or, when that cannot be decrypted, as
  -- what has been decoded is decoded again.
  abbrev pub Undecodable : Text → Text → Type 0
  Undecodable descode para_value =
      (multiple_decode (html_decode para_value) ≡ aborted)
      ⊎ ((once : Text) × (multiple_decode (html_decode para_value) ≡ done once)
          × (is_empty (aes_ecb_decrypt (remove_lines once) descode) ≡ true)
          × (multiple_decode (remove_lines once) ≡ aborted))

  -- The agent of the parameters is known and not disabled, their key is its, and the value that they
  -- have for it to decrypt is read past its end.
  abbrev pub Unreadable : HttpParams → Type 0
  Unreadable ps =
      (info : AgentInfo) × (agent_info (agent_of ps) ≡ some info)
      × (equals info.status 1 ≡ false)
      × (key_matches env (agent_of ps) (param (codes "timestamp") ps) info.md5code
            (param (codes "key") ps)
          ≡ true)
      × Undecodable info.descode (param (codes "paraValue") ps)

  -- That is so for the parameters of a query, which are encrypted.
  abbrev pub Misread : Bool → Text → Type 0
  Misread isdecrypt query =
      (isdecrypt ≡ true) × ((ps : HttpParams) × (parse_query query ≡ done ps) × Unreadable ps)

  pub because : (R S : Type 0) (m : Outcome (Req env)) → (R → S) → Returned R m → Returned S m
  because R S m f (inl h) = inl h
  because R S m f (inr (h, e)) = inr (f h, e)

  -- What must hold before an order is executed.
  abbrev pub Ready : Req env → Type 0
  Ready r =
      (r.executed ≡ [])
      × (is_empty r.account ≡ false)
      × (is_empty r.order_id ≡ false)
      × (bad_op_value r ≡ false)
      × ((s : Text) × IsScore env s × (r.score ≡ atof (floors_text s)))

  op-IsKind :
      (r : Req env)
      → bad_op_value r ≡ false
      → IsKind r.op_type (if equals r.op_type 2 then add_score else sub_score)
  op-IsKind r h = elim (Bool-cases (equals r.op_type 2)) [
    | inl e ↦ inl (e, rw e refl)
    | inr e ↦ inr (ground arith, rw e refl)
  ]

  pub do_order_execute-Judged :
      (r : Req env) → Ready r → IsActive r.agent_id → Judged (do_order_execute env r)
  unfolding do_order_execute
  do_order_execute-Judged r (he, ha, ho, hk, (s, hs, ec)) active = inr (
    record {
      kind = if equals r.op_type 2 then add_score else sub_score;
      account = r.account;
      cents = int_of_hundredfold r.score;
      agent_id = r.agent_id;
      order_id = r.order_id;
    },
    ap
        (λ xs.
          xs
          ++ (record {
            kind = if equals r.op_type 2 then add_score else sub_score;
            account = r.account;
            cents = int_of_hundredfold r.score;
            agent_id = r.agent_id;
            order_id = r.order_id;
          }
              ∷ []))
        he,
    refl,
    (ha, ho, active, op-IsKind r hk, (s, hs, ap int_of_hundredfold ec)),
  )

  Option-cases : (o : Option AgentInfo) → (o ≡ none) ⊎ ((info : AgentInfo) × (o ≡ some info))
  Option-cases none = inl refl
  Option-cases (some info) = inr (info, refl)

  pub with_agent-Returned :
      (R : Type 0) (r : Req env) (k : AgentInfo → Outcome (Req env))
      → r.executed ≡ []
      → ((info : AgentInfo)
          → agent_info r.agent_id ≡ some info
          → equals info.status 1 ≡ false
          → Returned R (k info))
      → Returned R (with_agent env agent_info r k)
  unfolding with_agent
  with_agent-Returned R r k he h = elim (Option-cases (agent_info r.agent_id)) [
    | inl e ↦ inl (
      fail proxy_id_error (codes "agent_info not found") r,
      rw (e, with_agent) refl,
      inl (he, refl),
    )
    | inr (info, e) ↦ elim (Bool-cases (equals info.status 1)) [
      | inl f ↦ inl (
        fail proxy_id_error (codes "agent.status error") r,
        rw (e, f, with_agent) refl,
        inl (he, refl),
      )
      | inr f ↦ rw (e, f, with_agent) (h info e f)
    ]
  ]

  -- The reading of an order, and then either its fault or what comes next.
  pub ordered-Returned :
      (R : Type 0) (ps : HttpParams) (q : Req env) (k : Req env → Outcome (Req env))
      → q.executed ≡ []
      → (is_error q.errcode ≡ false → bad_op_value q ≡ false)
      → ((r : Req env) → r.agent_id ≡ q.agent_id → Ready r → Returned R (k r))
      → Returned R (read_order env ps q >>= λ r. unless_error env r (k r))
  unfolding unless_error
  ordered-Returned R ps q k he ho h =
      let (r, e, (le, lo, la), f) = read_order-ReadsOrder env ps q in
      rw e (judge r le lo la f (is_error r.errcode) refl)
    where
      judge :
          (r : Req env)
          → r.executed ≡ q.executed
          → r.op_type ≡ q.op_type
          → r.agent_id ≡ q.agent_id
          → ReadsOrder env ps q r
          → (b : Bool) → is_error r.errcode ≡ b
          → Returned R (if b then done (record r { errmsg = r.errmsg ++ codes "invalid" }) else k r)
      judge r le lo la f true eb =
          inl (record r { errmsg = r.errmsg ++ codes "invalid" }, refl, inl (le ∙ he, eb))
      judge r le lo la (inl f) false eb = cc
      judge r le lo la (inr (fe, fa, fo, ea, eo, es, hs)) false eb = h r la (
        le ∙ he,
        fa,
        fo,
        ap (λ op. not (equals op 2) && not (equals op 3)) lo
            ∙ ho (ap (λ (x : ErrorCode). is_error x) (sym fe) ∙ eb),
        (param (codes "score") ps, hs, es),
      )
