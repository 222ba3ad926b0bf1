-- ===== src/Https/Query.antt =====
-- `ApiServer::parseQuery` of https/ApiServer.cpp.
pub mod RoundTrip
pub mod Ends
use libwebsocket_component.Prelude.{
  is_empty, ℕ, zero, suc, ◌+◌, ◌-◌, Bool, true, false, ◌&&◌, List, [], ◌∷◌, ◌++◌, Option, none,
  some, ltb, ◌==◌, if◌then◌else◌, length, take, drop, Outcome, done, unfinished,
}

abbrev pub Text : Type 0
Text = List ℕ

abbrev pub text_eq : Text → Text → Bool
text_eq [] [] = true
text_eq [] (d ∷ ds) = false
text_eq (c ∷ cs) [] = false
text_eq (c ∷ cs) (d ∷ ds) = c == d && text_eq cs ds

-- `std::map<std::string, std::string>`.
abbrev pub HttpParams : Type 0
HttpParams = List (Text × Text)

-- `params[key] = val`.
unfoldable pub set_param : Text → Text → HttpParams → HttpParams
set_param k v [] = (k, v) ∷ []
set_param k v ((j, w) ∷ ps) = if text_eq j k then (j, v) ∷ ps else (j, w) ∷ set_param k v ps

-- `params.find(key)`.
unfoldable pub find_param : Text → HttpParams → Option Text
find_param k [] = none
find_param k ((j, w) ∷ ps) = if text_eq j k then some w else find_param k ps

abbrev pub shift : Option ℕ → Option ℕ
shift none = none
shift (some i) = some (suc i)

unfoldable pub find_first_of : ℕ → Text → Option ℕ
find_first_of c [] = none
find_first_of c (d ∷ ds) = if d == c then some 0 else shift (find_first_of c ds)

-- What is after the first `?`, or all.
unfoldable pub query_part : Text → Text
query_part s = elim (find_first_of b'?' s) [ none ↦ s | some n ↦ drop (n + 1) s ]

-- The inner loop, with fuel. A part before the next `&` that has no `=` ends it.
unfoldable pub query_loop : ℕ → Text → HttpParams → Outcome HttpParams
query_loop zero s params = unfinished
query_loop (suc fuel) s params = elim (find_first_of b'=' s) [
  | none ↦ done params
  | some k ↦ elim (find_first_of b'&' s) [
    | none ↦ done (set_param (take k s) (drop (k + 1) s) params)
    | some n ↦ elim (ltb k n) [
      | true ↦
          query_loop fuel (drop (n + 1) s)
            (set_param (take k s) (take (n - k - 1) (drop (k + 1) s)) params)
      | false ↦ done params
    ]
  ]
]

-- The call always returns true; it gives the parameters.
unfoldable pub parse_query : Text → Outcome HttpParams
parse_query s =
    if is_empty (query_part s)
    then done []
    else query_loop (suc (length (query_part s))) (query_part s) []
