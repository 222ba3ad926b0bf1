-- ===== src/Tests/Services.antt =====
-- A service whose database always agrees, with one agent and one administrator.
use libwebsocket_component.Prelude.{
  ℕ, ◌%◌, ◌<◌, ◌≡◌, refl, arith, true, false, List, [], ◌∷◌, Option, none, some, ◌==◌,
  if◌then◌else◌, length, codes, done, aborted,
}
use libwebsocket_component.Buffer.{Buffer}
use libwebsocket_component.Https.Buckets.{Wheel, http_ty, on_timer}
use libwebsocket_component.Https.Workers.{LoopContext, alloc_worker_index, share_workers}
use libwebsocket_component.Https.Workers.Allocation.{
  no_workers, loop_of, alloc_worker_index-share_workers, alloc_worker_index-starved,
}
use libwebsocket_component.Https.Query.{Text, HttpParams, parse_query}
use libwebsocket_component.Https.Query.RoundTrip.{set_all, parse_query-print_params}
use libwebsocket_component.Https.Numbers.{ℤ, pos}
use libwebsocket_component.Https.Scores.{rate100}
use libwebsocket_component.Https.Scores.Cents.{rate100-decimal}
use libwebsocket_component.Https.Orders.{OrderEnv, AgentInfo}
use libwebsocket_component.Https.Orders.Handlers.{key_matches, order_process}
use libwebsocket_component.Https.Orders.Judgement.{Returned, Misread}
use libwebsocket_component.Https.Orders.Executions.{order_process-Judged}
use libwebsocket_component.Https.Orders.Keys.{key_matches-front}
use libwebsocket_component.Https.Requests.{Api, service_running, process_http_request}
use libwebsocket_component.Https.Requests.Rights.{
  Misordered, Answered, IsOrdered, process_http_request-no_rights,
}
use libwebsocket_component.Https.Visits.{open_ctrl, enable, find_visit, is_listed}
use libwebsocket_component.Https.Service.{HttpRequests, ConnContext, Server, on_http_message}
use libwebsocket_component.Https.Service.Counting.{IsCounted, on_http_message-IsCounted}
use libwebsocket_component.Https.Service.Limit.{World, here, next, tick, IsLimited}
use libwebsocket_component.Https.Service.Reachable.{Reach-IsLimited}

-- Two loops, and three workers.
abbrev loops : List LoopContext
loops = no_workers ∷ no_workers ∷ []

alloc_worker_index-share_workers_example :
    (i : ℕ) × (c : LoopContext) × (alloc_worker_index
        (record (loop_of 1 (share_workers 3 loops)) { next_pool = 4294967295 })
      ≡ done (i, c))
    × (i < 3)
    × (i % 2 ≡ 1)
    × (c.pool ≡ (loop_of 1 (share_workers 3 loops)).pool)
alloc_worker_index-share_workers_example =
    alloc_worker_index-share_workers 3 1 4294967295 loops (omega arith) (omega arith) (omega arith)
      (refl, (refl, tt))

alloc_worker_index-starved_example :
    alloc_worker_index (record (loop_of 1 (share_workers 1 loops)) { next_pool = 0 }) ≡ aborted
alloc_worker_index-starved_example =
    alloc_worker_index-starved 1 1 0 loops (omega arith) (omega arith) (refl, (refl, tt))

abbrev two_params : HttpParams
two_params = (codes "type", codes "2") ∷ (codes "score", codes "a=b") ∷ []

parse_query-print_params_example :
    parse_query (codes "/x?type=2&score=a=b") ≡ done (set_all two_params [])
parse_query-print_params_example =
    parse_query-print_params (codes "/x") two_params (ground arith) (ground arith)

rate100-decimal_example : rate100 (codes "12.345") ≡ done (pos 1234)
rate100-decimal_example =
    rate100-decimal b'1' (codes "2") (codes "345") (ground arith) (ground arith)

abbrev agreeing : OrderEnv
agreeing = record {
  Double = Text;
  zero_score = [];
  atof = λ s. s;
  at_most_zero = λ s. false;
  not_score = λ s. false;
  int_of_hundredfold = λ s. pos (length s);
  md5_encode32 = λ s. codes "0123456789abcdef0123456789abcdef";
  html_decode = λ s. s;
  aes_ecb_decrypt = λ s key. s;
}

abbrev one_agent : ℤ → Option AgentInfo
one_agent id = some (record { status = pos 0; descode = []; md5code = [] })

order_process-Judged_example :
    Returned agreeing one_agent
      (Misread agreeing one_agent false
        (codes "/GameHandle?type=2&agentid=7&account=x&orderid=1&score=1.5"))
      (order_process agreeing false one_agent
        (codes "/GameHandle?type=2&agentid=7&account=x&orderid=1&score=1.5"))
order_process-Judged_example =
    order_process-Judged agreeing one_agent false
      (codes "/GameHandle?type=2&agentid=7&account=x&orderid=1&score=1.5")

key_matches-front_example : key_matches agreeing (pos 7) [] [] (codes "0") ≡ true
key_matches-front_example =
    key_matches-front agreeing (pos 7) [] [] (codes "0") (codes "123456789abcdef0123456789abcdef")
      (omega arith) refl

abbrev api : Api
api = record {
  server_state = service_running;
  agent_info = one_agent;
  white_list = [];
  admin_list = (1, enable) ∷ [];
  white_list_control = open_ctrl;
  isdecrypt = false;
}

no_admin : is_listed (find_visit 9 api.admin_list) ≡ false
unfolding find_visit
no_admin = refl

process_http_request-no_rights_example :
    Answered agreeing
      (Misordered agreeing (codes "/repairApiServer") (codes "?status=0") api)
      api
      (λ os. IsOrdered agreeing (codes "/repairApiServer") api os)
      (process_http_request agreeing (codes "/repairApiServer") (codes "?status=0") 9 api)
process_http_request-no_rights_example =
    process_http_request-no_rights agreeing (codes "/repairApiServer") (codes "?status=0") 9 api
      no_admin

-- The HTTP context has the request when it has any input.
abbrev simple_http : HttpRequests ℕ
simple_http = record {
  parse_request = λ h buf. (true, length buf, []);
  got_all = λ h. true;
  reset = λ h. 0;
  fresh = 0;
  get_header = λ h name. [];
  path = λ h. codes "/help";
  query = λ h. [];
  ip_of_text = λ s. 1;
}

abbrev at_worker : ConnContext ℕ
at_worker = record { worker_index = 0; http = 0 }

abbrev wheel : Wheel
wheel = record {
  buckets = [] ∷ (5 ∷ []) ∷ [];
  entry = λ c. record { ty = http_ty; locked = false };
  held = λ c. 0;
  conn = λ c. c == 5;
  closings = [];
}

abbrev server : Server ℕ
server = record {
  num_connected = 1;
  num_total_req = 1;
  num_total_bad_req = 0;
  max_connections = 15000;
  workers = 1;
  buckets = 1;
  loop = record { index = 0; pool = 0 ∷ []; next_pool = 1 };
  wheel = wheel;
  context = λ c. if c == 5 then some at_worker else none;
  tasks = [];
  reactions = [];
  api = api;
}

on_http_message-IsCounted_example :
    (t : Server ℕ) × (rest : Buffer) × (on_http_message simple_http
        (codes "9.9.9.9")
        5
        (1 ∷ [])
        server
      ≡ done (t, rest))
    × IsCounted 5 at_worker server t
on_http_message-IsCounted_example =
    on_http_message-IsCounted simple_http (codes "9.9.9.9") 5 (1 ∷ []) at_worker server refl
      (omega arith) (omega arith)

abbrev one_up : World ℕ
one_up = record { ups = 5 ∷ []; server = server }

one_up-IsLimited : IsLimited 15000 one_up
one_up-IsLimited = record {
  counted = refl;
  bounded = omega arith;
  limit = refl;
  few = omega arith;
  none_else = λ d h. ground arith;
}

Reach-IsLimited_example :
    IsLimited 15000 (record { ups = 5 ∷ []; server = record server { wheel = on_timer wheel } })
Reach-IsLimited_example =
    Reach-IsLimited simple_http agreeing 15000 one_up
      (record { ups = 5 ∷ []; server = record server { wheel = on_timer wheel } }) one_up-IsLimited
      (next here (tick (5 ∷ []) server))
