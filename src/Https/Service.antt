-- ===== src/Https/Service.antt =====
-- `ApiServer::onHttpConnection`, `onHttpMessage` and `asyncHttpHandler` of https/ApiServer.cpp, for
-- the connections of one loop.
pub mod Counting
pub mod Keeping
pub mod Limit
pub mod Reachable
use libwebsocket_component.Prelude.{
  ℕ, zero, suc, ◌+◌, ◌-◌, ◌%◌, ◌^◌, Bool, true, false, ◌&&◌, ◌||◌, not, List, [], ◌∷◌, ◌++◌, Option,
  none, some, ltb, leb, ◌==◌, if◌then◌else◌, codes, Outcome, done, aborted, assert, ◌>>=◌, ◌>>◌,
}
use libwebsocket_component.Buffer.{Buffer}
use libwebsocket_component.Https.Buckets.{
  Wheel, http_ty, replace, alive, new_entry, update_bucket, lock_entry, unlock_entry, conn_gone,
}
use libwebsocket_component.Https.Workers.{LoopContext, is_negative, alloc_worker_index}
use libwebsocket_component.Https.Query.{Text, text_eq}
use libwebsocket_component.Https.Orders.{OrderEnv, Order}
use libwebsocket_component.Https.Requests.{
  Api, HttpResponse, Body, process_http_request, set_failed_response, first_response,
}
use libwebsocket_component.Https.Visits.{
  WhiteListControl, is_open, VisitList, is_ip_allowed, request_ip,
}

-- The HTTP context of muduo: what `parseRequest` does with the buffer, and what the request says.
pub record HttpRequests (H : Type 0) : Type 0 where
  pub parse_request : H → Buffer → Bool × H × Buffer
  pub got_all : H → Bool
  pub reset : H → H
  pub fresh : H
  pub get_header : H → Text → Text
  pub path : H → Text
  pub query : H → Text
  -- `InetAddress` of a text, and of a peer.
  pub ip_of_text : Text → ℕ

-- `ApiServer::Context` of a connection.
pub record ConnContext (H : Type 0) : Type 0 where
  pub worker_index : ℕ
  pub http : H

-- What the server does to a connection.
pub data Reaction : Type 0 where
  too_many : ℕ → Reaction
  refuses : ℕ → Reaction
  closes : ℕ → Reaction
  responds : ℕ → HttpResponse → Reaction

-- `num_connected` is an `int32_t`, the two counts are `int64_t`, as bit patterns. A task is the
-- number of a worker and a connection.
pub record Server (H : Type 0) : Type 0 where
  pub num_connected : ℕ
  pub num_total_req : ℕ
  pub num_total_bad_req : ℕ
  pub max_connections : ℕ
  pub workers : ℕ
  pub buckets : ℕ
  pub loop : LoopContext
  pub wheel : Wheel
  pub context : ℕ → Option (ConnContext H)
  pub tasks : List (ℕ × ℕ)
  pub reactions : List Reaction
  pub api : Api

-- `num > kMaxConnections_`, of a number of 32 bits with a sign.
abbrev pub exceeds : ℕ → ℕ → Bool
exceeds num bound = not (is_negative num) && ltb bound num

module _ {H : Type 0} where
  abbrev pub react : Reaction → Server H → Server H
  react x s = record s { reactions = x ∷ s.reactions }

  abbrev pub count_bad : Server H → Server H
  count_bad s = record s { num_total_bad_req = (s.num_total_bad_req + 1) % 2 ^ 64 }

  -- A connection comes: one more, and one more request; it is given its context, a worker and a
  -- place in the wheel, unless there are too many.
  unfoldable pub admit : HttpRequests H → ℕ → Server H → Outcome (Server H)
  admit req c s = do
    (i, next) ← alloc_worker_index s.loop
    assert (ltb i s.workers)
    assert (ltb s.loop.index s.buckets)
    done (record s {
      loop = next;
      context = replace s.context c (some (record { worker_index = i; http = req.fresh }));
      wheel = new_entry c http_ty s.wheel;
    })

  unfoldable pub connection_up : HttpRequests H → ℕ → Server H → Outcome (Server H)
  connection_up req c s =
      let num = (s.num_connected + 1) % 2 ^ 32 in
      let t : Server H = record s {
        num_connected = num;
        num_total_req = (s.num_total_req + 1) % 2 ^ 64;
      } in
      if exceeds num s.max_connections
      then done (count_bad (react (too_many c) t))
      else admit req c t

  -- A connection goes: one less. Its context goes with it.
  unfoldable pub connection_down : ℕ → Server H → Server H
  connection_down c s = record s {
    num_connected = (s.num_connected + (2 ^ 32 - 1)) % 2 ^ 32;
    context = replace s.context c none;
    wheel = conn_gone c s.wheel;
  }

  -- A request that is complete and allowed: a task for the worker of the connection, if its entry is
  -- still there.
  unfoldable pub enqueue : ℕ → ConnContext H → Server H → Outcome (Server H)
  enqueue c x s =
      if alive c s.wheel
      then (do
        assert (ltb s.loop.index s.buckets)
        assert (ltb x.worker_index s.workers)
        done (record s {
          wheel = update_bucket c s.wheel;
          tasks = s.tasks ++ ((x.worker_index, c) ∷ []);
        }))
      else done (count_bad s)

  unfoldable pub check_visit :
      HttpRequests H → Text → ℕ → ConnContext H → Server H → Outcome (Server H)
  check_visit req peer c x s =
      let ip = req.ip_of_text (request_ip peer (req.get_header x.http (codes "X-Forwarded-For"))) in
      if is_open s.api.white_list_control
        && not (is_ip_allowed s.api.admin_list s.api.white_list ip)
      then done (count_bad (react (closes c) s))
      else enqueue c x s

  -- A request that is wrong, and also one that is not complete.
  unfoldable pub refuse : HttpRequests H → ℕ → ConnContext H → Server H → Server H
  refuse req c x s = count_bad (
      react (refuses c)
        (record s { context = replace s.context c (some (record x { http = req.reset x.http })) }))

  unfoldable pub handle_message :
      HttpRequests H → Text → ℕ → Buffer → ConnContext H → Server H → Outcome (Server H × Buffer)
  handle_message req peer c buf x s =
      let (ok, http, rest) = req.parse_request x.http buf in
      let y : ConnContext H = record x { http = http } in
      let t : Server H = record s { context = replace s.context c (some y) } in
      if ok && req.got_all http
      then (do u ← check_visit req peer c y t; done (u, rest))
      else done (refuse req c y t, rest)

  unfoldable pub on_http_message :
      HttpRequests H → Text → ℕ → Buffer → Server H → Outcome (Server H × Buffer)
  on_http_message req peer c buf s = elim (s.context c) [
    | none ↦ done (s, buf)
    | some x ↦ handle_message req peer c buf x s
  ]

  -- The worker holds the entry while it answers.
  unfoldable pub answer_request :
      HttpRequests H → OrderEnv → ℕ → ℕ → ConnContext H → Server H → Outcome (Server H)
  answer_request req env peer c x s = do
    assert (req.got_all x.http)
    (rsp, api, orders) ← process_http_request env (req.path x.http) (req.query x.http) peer s.api
    done (
        react (responds c rsp) (record s {
          api = api;
          context = replace s.context c (some (record x { http = req.reset x.http }));
        }))

  unfoldable pub answer_connection :
      HttpRequests H → OrderEnv → ℕ → ℕ → Server H → Outcome (Server H)
  answer_connection req env peer c s =
      if s.wheel.conn c
      then elim (s.context c) [ none ↦ aborted | some x ↦ answer_request req env peer c x s ]
      else done (count_bad s)

  unfoldable pub async_http_handler :
      HttpRequests H → OrderEnv → ℕ → ℕ → Server H → Outcome (Server H)
  async_http_handler req env peer c s =
      if alive c s.wheel
      then (do
        t ← answer_connection req env peer c (record s { wheel = lock_entry c s.wheel })
        done (record t { wheel = unlock_entry c t.wheel }))
      else done (count_bad s)

  -- A response has been written.
  unfoldable pub on_write_complete : ℕ → Server H → Server H
  on_write_complete c s = react (closes c) s
