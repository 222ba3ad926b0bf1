-- ===== src/Https/Query/RoundTrip.antt =====
-- What `parseQuery` reads of a query that is well formed.
use libwebsocket_component.Prelude.{
  ℕ, zero, suc, ◌+◌, ◌-◌, ◌≤◌, ◌<◌, ◌≡◌, refl, ap, ◌∙◌, arith, true, false, [], ◌∷◌, ◌++◌,
  append_assoc, none, some, ltb, ◌==◌, ==_iff, length, take, drop, length-append,
  take-length-append, done, All,
}
use libwebsocket_component.Https.Query.{
  Text, HttpParams, set_param, find_first_of, query_part, query_loop, parse_query,
}

abbrev pub Lacks : ℕ → Text → Type 0
Lacks c s = All (λ d. (d == c) ≡ false) s

pub find_first_of-none : (c : ℕ) (s : Text) → Lacks c s → find_first_of c s ≡ none
unfolding find_first_of
find_first_of-none c [] h = refl
find_first_of-none c (d ∷ s) (h, hs) = rw (h, find_first_of-none c s hs) refl

pub find_first_of-some :
    (c : ℕ) (s r : Text) → Lacks c s → find_first_of c (s ++ (c ∷ r)) ≡ some (length s)
unfolding find_first_of
find_first_of-some c [] r h = let same : (c == c) ≡ true = (==_iff c c).1 refl in rw same refl
find_first_of-some c (d ∷ s) r (h, hs) = rw (h, find_first_of-some c s r hs) refl

pub drop_suc : (s r : Text) (c : ℕ) → drop (length s + 1) (s ++ (c ∷ r)) ≡ r
drop_suc s r c = rw (plus_one (length s)) (go s)
  where
    plus_one : (n : ℕ) → n + 1 ≡ suc n
    plus_one n = omega arith

    go : (s : Text) → drop (suc (length s)) (s ++ (c ∷ r)) ≡ r
    go [] = refl
    go (d ∷ s) = go s

-- A query: `key=value`, with `&` between.
abbrev pub print_param : Text × Text → Text
print_param (k, v) = k ++ (b'=' ∷ v)

abbrev pub print_params : HttpParams → Text
print_params [] = []
print_params (p ∷ []) = print_param p
print_params (p ∷ q ∷ ps) = print_param p ++ (b'&' ∷ print_params (q ∷ ps))

-- A key has neither sign, a value no `&`.
abbrev pub IsParam : Text × Text → Type 0
IsParam (k, v) = Lacks b'=' k × Lacks b'&' k × Lacks b'&' v

-- Each parameter in its turn; a later one replaces an earlier one with the same key.
abbrev pub set_all : HttpParams → HttpParams → HttpParams
set_all [] params = params
set_all ((k, v) ∷ ps) params = set_all ps (set_param k v params)

Lacks-append : (c : ℕ) (s r : Text) → Lacks c s → Lacks c r → Lacks c (s ++ r)
Lacks-append c [] r h k = k
Lacks-append c (d ∷ s) r (h, hs) k = (h, Lacks-append c s r hs k)

Lacks-param : (k v : Text) → IsParam (k, v) → Lacks b'&' (print_param (k, v))
Lacks-param k v (he, ha, hv) = Lacks-append b'&' k (b'=' ∷ v) ha (ground arith, hv)

take_value :
    (k v r : Text)
    → take
        (length (print_param (k, v)) - length k - 1)
        (drop (length k + 1) (k ++ (b'=' ∷ (v ++ r))))
      ≡ v
take_value k v r =
    let n : length (print_param (k, v)) - length k - 1 ≡ length v =
      omega (arith, length-append k (b'=' ∷ v)) in
    rw (n, drop_suc k (v ++ r) b'=') (take-length-append v r)

query_loop-last :
    (fuel : ℕ) (k v : Text) (params : HttpParams)
    → IsParam (k, v)
    → query_loop (suc fuel) (print_param (k, v)) params ≡ done (set_param k v params)
unfolding query_loop
query_loop-last fuel k v params h =
    rw
      (
        find_first_of-some b'=' k v h.0,
        find_first_of-none b'&' (print_param (k, v)) (Lacks-param k v h),
        take-length-append k (b'=' ∷ v),
        drop_suc k v b'=',
        query_loop,
      )
      refl

query_loop-more :
    (fuel : ℕ) (k v r : Text) (params : HttpParams)
    → IsParam (k, v)
    → query_loop (suc fuel) (print_param (k, v) ++ (b'&' ∷ r)) params
      ≡ query_loop fuel r (set_param k v params)
unfolding query_loop
query_loop-more fuel k v r params h =
    let regroup : print_param (k, v) ++ (b'&' ∷ r) ≡ k ++ (b'=' ∷ (v ++ (b'&' ∷ r))) =
      append_assoc k (b'=' ∷ v) (b'&' ∷ r) in
    let at_equals =
      ap (find_first_of b'=') regroup ∙ find_first_of-some b'=' k (v ++ (b'&' ∷ r)) h.0 in
    let at_and = find_first_of-some b'&' (print_param (k, v)) r (Lacks-param k v h) in
    let before : ltb (length k) (length (print_param (k, v))) ≡ true =
      ground (arith, length-append k (b'=' ∷ v)) in
    let rest = drop_suc (print_param (k, v)) r b'&' in
    let key : take (length k) (print_param (k, v) ++ (b'&' ∷ r)) ≡ k =
      ap (take (length k)) regroup ∙ take-length-append k (b'=' ∷ (v ++ (b'&' ∷ r))) in
    let value : take (length (print_param (k, v)) - length k - 1)
          (drop (length k + 1) (print_param (k, v) ++ (b'&' ∷ r)))
        ≡ v =
      ap (λ s. take (length (print_param (k, v)) - length k - 1) (drop (length k + 1) s)) regroup
      ∙ take_value k v (b'&' ∷ r) in
    rw (at_equals, at_and, before, rest, key, value, query_loop) refl

length-le-print : (ps : HttpParams) → length ps ≤ length (print_params ps)
length-le-print [] = omega arith
length-le-print ((k, v) ∷ []) = omega (arith, length-append k (b'=' ∷ v))
length-le-print ((k, v) ∷ q ∷ ps) = omega (
  arith,
  length-le-print (q ∷ ps),
  length-append (print_param (k, v)) (b'&' ∷ print_params (q ∷ ps)),
)

query_loop-print :
    (ps : HttpParams) (fuel : ℕ) (k v : Text) (params : HttpParams)
    → All IsParam ((k, v) ∷ ps)
    → length ps < fuel
    → query_loop fuel (print_params ((k, v) ∷ ps)) params ≡ done (set_all ((k, v) ∷ ps) params)
query_loop-print ps zero k v params h n = absurd (omega arith)
query_loop-print [] (suc fuel) k v params (h, hs) n = query_loop-last fuel k v params h
query_loop-print ((j, w) ∷ ps) (suc fuel) k v params (h, hs) n =
    query_loop-more fuel k v (print_params ((j, w) ∷ ps)) params h
    ∙ query_loop-print ps fuel j w (set_param k v params) hs (omega arith)

query_part-print : (path q : Text) → Lacks b'?' path → query_part (path ++ (b'?' ∷ q)) ≡ q
unfolding query_part
query_part-print path q h = rw (find_first_of-some b'?' path q h, query_part) (drop_suc path q b'?')

print_param-cons : (k v : Text) → (c : ℕ) × (s : Text) × (print_param (k, v) ≡ c ∷ s)
print_param-cons [] v = (b'=', v, refl)
print_param-cons (c ∷ k) v = (c, k ++ (b'=' ∷ v), refl)

print_params-cons :
    (k v : Text) (ps : HttpParams) → (c : ℕ) × (s : Text) × (print_params ((k, v) ∷ ps) ≡ c ∷ s)
print_params-cons k v [] = print_param-cons k v
print_params-cons k v (p ∷ ps) =
    let (c, s, e) = print_param-cons k v in
    (c, s ++ (b'&' ∷ print_params (p ∷ ps)), ap (λ t. t ++ (b'&' ∷ print_params (p ∷ ps))) e)

-- Parameters behind the first `?` of a text, with no `=` or `&` in a key and no `&` in a value, are
-- read back in their order, a later one in place of an earlier one with the same key.
pub parse_query-print_params :
    (path : Text) (ps : HttpParams)
    → Lacks b'?' path
    → All IsParam ps
    → parse_query (path ++ (b'?' ∷ print_params ps)) ≡ done (set_all ps [])
unfolding parse_query
parse_query-print_params path [] hp h = rw (query_part-print path [] hp) refl
parse_query-print_params path ((k, v) ∷ ps) hp h =
    let (c, s, e) = print_params-cons k v ps in
    let r =
      query_loop-print ps (suc (length (print_params ((k, v) ∷ ps)))) k v [] h
        (omega (arith, length-le-print ((k, v) ∷ ps))) in
    rw (query_part-print path (print_params ((k, v) ∷ ps)) hp, e) (rw e at r)
