-- ===== src/Https/Orders.antt =====
-- `ApiServer::OrderProcess` and `doOrderExecute` of https/ApiServer.cpp.
pub mod Handlers
pub mod Checks
pub mod Judgement
pub mod Decryption
pub mod Executions
pub mod Keys
use libwebsocket_component.Prelude.{
  is_empty, ℕ, zero, suc, ◌+◌, ◌/◌, ◌%◌, min, length, ltb, leb, Bool, true, false, ◌&&◌, ◌||◌, not,
  List, [], ◌∷◌, ◌++◌, Option, none, some, ◌==◌, if◌then◌else◌, codes, Outcome, done, ◌>>=◌, ◌>>◌,
}
use libwebsocket_component.Https.Query.{Text, HttpParams, find_param, parse_query}
use libwebsocket_component.Https.Numbers.{
  ℤ, pos, negsuc, is_below_zero, is_at_most_zero, equals, atol, to_int,
}
use libwebsocket_component.Https.Scores.{rate100, floors_text, is_digital_str}

-- The codes of `eApiErrorCode` that these functions give.
pub data ErrorCode : Type 0 where
  no_error proxy_id_error proxy_md5_code_error proxy_des_code_error params_error
        operation_type_error :
      ErrorCode

abbrev pub is_error : ErrorCode → Bool
is_error no_error = false
is_error _ = true

-- `agent_info_t`; `agent_id` is the key of its map.
pub record AgentInfo : Type 0 where
  pub status : ℤ
  pub descode : Text
  pub md5code : Text

-- A call of `AddOrderScore` or `SubOrderScore`.
pub data OrderKind : Type 0 where
  add_score sub_score : OrderKind

pub record Order : Type 0 where
  pub kind : OrderKind
  pub account : Text
  pub cents : ℤ
  pub agent_id : ℤ
  pub order_id : Text

-- Both write nothing to a database and return 0.
abbrev pub add_order_score : Order → ErrorCode
add_order_score o = no_error

abbrev pub sub_order_score : Order → ErrorCode
sub_order_score o = no_error

unfoldable pub execute : Order → ErrorCode
execute o = elim o.kind [ add_score ↦ add_order_score o | sub_score ↦ sub_order_score o ]

-- What the code calls: `double` with `atof`, the tests `<= 0` and `NotScore`, and the conversion of
-- `score * 100`; and the decoders of https but that of URLs.
pub record OrderEnv : Type 1 where
  pub Double : Type 0
  pub zero_score : Double
  pub atof : Text → Double
  pub at_most_zero : Double → Bool
  pub not_score : Double → Bool
  pub int_of_hundredfold : Double → ℤ
  pub md5_encode32 : Text → Text
  pub html_decode : Text → Text
  pub aes_ecb_decrypt : Text → Text → Text

-- The parameters of the handler as they are filled in, and the orders that have been executed.
pub record Request (D : Type 0) : Type 0 where
  pub op_type : ℤ
  pub agent_id : ℤ
  pub account : Text
  pub order_id : Text
  pub score : D
  pub errcode : ErrorCode
  pub errmsg : Text
  pub executed : List Order

abbrev pub value_of : Option Text → Text
value_of none = []
value_of (some v) = v

-- The value of a parameter, empty if it is not there: the code treats both alike.
abbrev pub param : Text → HttpParams → Text
param k ps = value_of (find_param k ps)

-- `std::to_string` of an `int` above zero, which has ten digits at most.
unfoldable pub show_digits : ℕ → ℕ → Text
show_digits zero n = []
show_digits (suc digits) n =
    let front = show_digits digits (n / 10) in
    if ltb n 10 then (n + b'0') ∷ [] else front ++ ((n % 10 + b'0') ∷ [])

abbrev pub to_string : ℤ → Text
to_string (pos n) = show_digits 10 n
to_string (negsuc n) = b'-' ∷ show_digits 10 (n + 1)

abbrev pub lower : ℕ → ℕ
lower c = if leb b'A' c && leb c b'Z' then c + 32 else c

-- `strncasecmp(s, r, n) == 0`.
unfoldable pub same_nocase : ℕ → Text → Text → Bool
same_nocase zero s r = true
same_nocase (suc n) [] [] = true
same_nocase (suc n) [] (d ∷ r) = false
same_nocase (suc n) (c ∷ s) [] = false
same_nocase (suc n) (c ∷ s) (d ∷ r) = lower c == lower d && same_nocase n s r

-- `boost::replace_all` of a line end by nothing, for "\r\n", "\r" and "\n".
unfoldable pub remove_lines : Text → Text
remove_lines [] = []
remove_lines (c ∷ cs) = let rest = remove_lines cs in if c == 13 || c == 10 then rest else c ∷ rest

module _ {D : Type 0} where
  abbrev pub no_request : D → Request D
  no_request zero_score = record {
    op_type = pos 0;
    agent_id = pos 0;
    account = [];
    order_id = [];
    score = zero_score;
    errcode = no_error;
    errmsg = [];
    executed = [];
  }

  -- `errcode = e; errmsg = m;` and `errcode = e; errmsg += m;`.
  abbrev pub fail : ErrorCode → Text → Request D → Request D
  fail e m r = record r { errcode = e; errmsg = m }

  abbrev pub add_failure : ErrorCode → Text → Request D → Request D
  add_failure e m r = record r { errcode = e; errmsg = r.errmsg ++ m }

  -- `opType` keeps what has been read of it; an empty one leaves it.
  abbrev pub read_op_type : HttpParams → Request D → Request D
  read_op_type ps r =
      if is_empty (param (codes "type") ps)
      then r
      else record r { op_type = to_int (atol (param (codes "type") ps)) }

  abbrev pub bad_op_type : HttpParams → Request D → Bool
  bad_op_type ps r = is_empty (param (codes "type") ps) || is_below_zero r.op_type

  abbrev pub bad_op_value : Request D → Bool
  bad_op_value r = not (equals r.op_type 2) && not (equals r.op_type 3)

  abbrev pub read_agent_id : HttpParams → Request D → Request D
  read_agent_id ps r =
      if is_empty (param (codes "agentid") ps)
      then r
      else record r { agent_id = to_int (atol (param (codes "agentid") ps)) }

  abbrev pub bad_agent_id : HttpParams → Request D → Bool
  bad_agent_id ps r = is_empty (param (codes "agentid") ps) || is_at_most_zero r.agent_id
