-- ===== src/Https/Requests.antt =====
-- `ApiServer::processHttpRequest` of https/ApiServer.cpp with what it calls: the repair of the
-- service and the refresh of the lists.
pub mod Rights
use libwebsocket_component.Prelude.{
  is_empty, ℕ, Bool, true, false, ◌||◌, List, [], ◌∷◌, Option, none, some, ◌==◌, if◌then◌else◌,
  codes, Outcome, done, ◌>>=◌, ◌>>◌,
}
use libwebsocket_component.Https.Query.{Text, text_eq, parse_query}
use libwebsocket_component.Https.Numbers.{ℤ, atol, to_int, is_below_zero, equals}
use libwebsocket_component.Https.Orders.{AgentInfo, OrderEnv, Order, Request, param}
use libwebsocket_component.Https.Orders.Handlers.{Req, order_process}
use libwebsocket_component.Https.Visits.{
  WhiteListControl, open_accept, open_ctrl, close_ctrl, VisitList, find_visit, is_listed,
}

pub data ServiceState : Type 0 where
  service_repairing service_running : ServiceState

-- What `processHttpRequest` reads and changes of the server.
pub record Api : Type 0 where
  pub server_state : ServiceState
  pub agent_info : ℤ → Option AgentInfo
  pub white_list : VisitList
  pub admin_list : VisitList
  pub white_list_control : WhiteListControl
  pub isdecrypt : Bool

pub data StatusCode : Type 0 where
  k200_ok k404_not_found : StatusCode

pub data ContentType : Type 0 where
  no_type text_plain application_json application_xml text_html : ContentType

-- The bodies, by what they say: the failures of `setFailedResponse`, the answer to an order, the
-- request itself as XML (`getRequestStr`, of its path and query), and the three short pages.
pub data Body : Type 0 where
  empty_body not_found in_repair no_permission success_body failed_body help_page : Body
  order_json : Body
  request_xml : Text → Text → Body

pub record HttpResponse : Type 0 where
  pub status_code : StatusCode
  pub close_connection : Bool
  pub content_type : ContentType
  pub body : Body

unfoldable pub set_failed_response : Body → HttpResponse → HttpResponse
set_failed_response msg rsp = record rsp {
  status_code = k404_not_found;
  content_type = text_plain;
  body = msg;
}

-- `__sync_val_compare_and_swap(&server_state_, old, new)`.
abbrev pub compare_and_swap : ServiceState → ServiceState → ServiceState → ServiceState
compare_and_swap service_running new service_running = new
compare_and_swap service_repairing new service_repairing = new
compare_and_swap _ new s = s

-- Text that is empty or a number below 0 is refused, and so is any number but 0 and 1.
unfoldable pub repair_status : Text → ServiceState → Bool × ServiceState
repair_status text s =
    let status = to_int (atol text) in
    if is_empty text || is_below_zero status
    then (false, s)
    else if equals status 0
    then (true, compare_and_swap service_running service_repairing s)
    else if equals status 1
    then (true, compare_and_swap service_repairing service_running s)
    else (false, s)

unfoldable pub repair_api_server : Text → ServiceState → Outcome (Bool × ServiceState)
repair_api_server query s = do
  params ← parse_query query
  done (repair_status (param (codes "status") params) s)

unfoldable pub repair_api_server_notify : Text → ServiceState → ServiceState
repair_api_server_notify msg s = (repair_status msg s).1

unfoldable pub refresh_agent_info : Api → Bool × Api
refresh_agent_info api = (true, record api { agent_info = λ id. none })

-- In the loop of the server or at once, the list is cleared.
unfoldable pub refresh_white_list : Api → Api
refresh_white_list api = elim api.white_list_control [
  | close_ctrl ↦ api
  | open_ctrl ↦ record api { white_list = [] }
  | open_accept ↦ record api { white_list = [] }
]

abbrev pub is_repairing : ServiceState → Bool
is_repairing service_repairing = true
is_repairing service_running = false

abbrev pub first_response : HttpResponse
first_response = record {
  status_code = k200_ok;
  close_connection = true;
  content_type = no_type;
  body = empty_body;
}

abbrev pub echo : Text → Text → HttpResponse → HttpResponse
echo path query rsp = record rsp { content_type = application_xml; body = request_xml path query }

-- The response, the server, and the orders that have been executed.
abbrev pub Answer : Type 0
Answer = HttpResponse × Api × List Order

abbrev pub page : Body → ContentType → HttpResponse
page b ty = record first_response { content_type = ty; body = b }

abbrev pub refused : Api → Outcome Answer
refused api = done (set_failed_response no_permission first_response, api, [])

unfoldable pub admin_request : Text → Text → Api → Outcome Answer
admin_request path query api =
    if text_eq path (codes "/refreshAgentInfo")
    then done (
      page (if (refresh_agent_info api).0 then success_body else failed_body) text_plain,
      (refresh_agent_info api).1,
      [],
    )
    else if text_eq path (codes "/refreshWhiteList")
    then done (page success_body text_plain, refresh_white_list api, [])
    else if text_eq path (codes "/repairApiServer")
    then (do
      r ← repair_api_server query api.server_state
      done (
        page (if r.0 then success_body else failed_body) text_plain,
        record api { server_state = r.1 },
        [],
      ))
    else done (page help_page text_html, api, [])

abbrev pub is_admin_path : Text → Bool
is_admin_path path =
    text_eq path (codes "/refreshAgentInfo")
    || text_eq path (codes "/refreshWhiteList")
    || text_eq path (codes "/repairApiServer")
    || text_eq path (codes "/help")

module _ (env : OrderEnv) where
  -- Whatever the branch has answered, the request itself is sent back.
  unfoldable pub game_handle : Text → Text → Api → Outcome Answer
  game_handle path query api =
      if is_repairing api.server_state
      then done (echo path query (set_failed_response in_repair first_response), api, [])
      else (do
        r ← order_process env api.isdecrypt api.agent_info query
        done (
          echo path query
              (record first_response { content_type = application_json; body = order_json }),
          api,
          r.executed,
        ))

  -- The four pages for administrators make the same check, each for itself.
  unfoldable pub process_http_request : Text → Text → ℕ → Api → Outcome Answer
  process_http_request path query peer api =
      if text_eq path (codes "/GameHandle")
      then game_handle path query api
      else if is_admin_path path
      then if is_listed (find_visit peer api.admin_list)
        then admin_request path query api
        else refused api
      else done (set_failed_response not_found first_response, api, [])
