-- ===== src/Https/Visits.antt =====
-- Which addresses may ask: `onHttpCondition` and the check of `onHttpMessage` in
-- https/ApiServer.cpp, with the lists of https/ApiServer.h.
use libwebsocket_component.Prelude.{
  is_empty, ℕ, Bool, true, false, ◌&&◌, ◌||◌, not, List, [], ◌∷◌, Option, none, some, leb, ◌==◌,
  if◌then◌else◌, length, codes, Outcome, done, assert, ◌>>◌,
}
use libwebsocket_component.Handshake.Address.{remove_spaces, has_prefix}
use libwebsocket_component.Https.Query.{Text}
use libwebsocket_component.Https.Numbers.{read_digits}
use libwebsocket_component.Https.Scores.{all_digits}

pub data WhiteListControl : Type 0 where
  close_ctrl open_ctrl open_accept : WhiteListControl

-- `eApiVisit`.
pub data Visit : Type 0 where
  enable disable : Visit

-- `std::map<in_addr_t, eApiVisit>`.
abbrev pub VisitList : Type 0
VisitList = List (ℕ × Visit)

unfoldable pub find_visit : ℕ → VisitList → Option Visit
find_visit ip [] = none
find_visit ip ((jp, v) ∷ vs) = if jp == ip then some v else find_visit ip vs

abbrev pub is_listed : Option Visit → Bool
is_listed none = false
is_listed (some v) = true

abbrev pub is_enabled : Option Visit → Bool
is_enabled (some enable) = true
is_enabled _ = false

-- An administrator, or an address that the white list allows.
unfoldable pub is_ip_allowed : VisitList → VisitList → ℕ → Bool
is_ip_allowed admin_list white_list ip =
    is_listed (find_visit ip admin_list) || is_enabled (find_visit ip white_list)

abbrev pub is_open_accept : WhiteListControl → Bool
is_open_accept open_accept = true
is_open_accept _ = false

abbrev pub is_open : WhiteListControl → Bool
is_open open_ctrl = true
is_open _ = false

unfoldable pub on_http_condition : WhiteListControl → VisitList → VisitList → ℕ → Outcome Bool
on_http_condition control admin_list white_list ip = do
  assert (is_open_accept control)
  done (is_ip_allowed admin_list white_list ip)

-- `boost::algorithm::split` at a character.
abbrev pub grow_part : ℕ → List Text → List Text
grow_part c [] = (c ∷ []) ∷ []
grow_part c (p ∷ ps) = (c ∷ p) ∷ ps

unfoldable pub split_at : ℕ → Text → List Text
split_at sep [] = [] ∷ []
split_at sep (c ∷ cs) =
    let rest = split_at sep cs in if c == sep then [] ∷ rest else grow_part c rest

-- `1\d{2}|2[0-4]\d|25[0-5]|[1-9]\d|\d`: a number up to 255 with no zero in front.
abbrev pub starts_with_zero : Text → Bool
starts_with_zero [] = false
starts_with_zero (c ∷ cs) = c == b'0'

abbrev pub is_octet_text : Text → Bool
is_octet_text s =
    not (is_empty s)
    && leb (length s) 3
    && all_digits s
    && leb (read_digits 0 s) 255
    && (not (starts_with_zero s) || length s == 1)

-- The regular expression of an address: four such numbers, the first one not 0.
unfoldable pub is_ip_text : List Text → Bool
is_ip_text (a ∷ b ∷ c ∷ d ∷ []) =
    is_octet_text a
    && not (starts_with_zero a)
    && is_octet_text b
    && is_octet_text c
    && is_octet_text d
is_ip_text _ = false

abbrev pub is_public_ip : Text → Bool
is_public_ip s =
    is_ip_text (split_at b'.' s)
    && not (has_prefix (codes "10.") s)
    && not (has_prefix (codes "192.168") s)
    && not (has_prefix (codes "172.16.") s)

unfoldable pub first_public_ip : List Text → Text
first_public_ip [] = []
first_public_ip (a ∷ more) = let rest = first_public_ip more in if is_public_ip a then a else rest

-- The address of a request: that of the peer, or the first public one that it was forwarded for.
unfoldable pub request_ip : Text → Text → Text
request_ip peer [] = peer
request_ip peer (c ∷ cs) = first_public_ip (split_at b',' (remove_spaces (c ∷ cs)))
