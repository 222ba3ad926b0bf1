-- ===== src/Https/Query/Ends.antt =====
-- The loop of `parseQuery` and its fuel.
use libwebsocket_component.Prelude.{
  is_empty, ℕ, zero, suc, ◌+◌, ◌-◌, ◌<◌, ◌≡◌, refl, ◌⊎◌, inl, inr, arith, [], ◌∷◌, Option, none,
  some, ltb, ◌==◌, length, take, drop, length-drop, done, Bool-cases,
}
use libwebsocket_component.Https.Query.{
  Text, HttpParams, set_param, shift, find_first_of, query_part, query_loop, parse_query,
}

shift-some : (o : Option ℕ) (n : ℕ) → shift o ≡ some n → (m : ℕ) × (o ≡ some m) × (n ≡ suc m)
shift-some none n h = cc
shift-some (some m) n h = (m, refl, cc)

find_first_of-lt : (c n : ℕ) (s : Text) → find_first_of c s ≡ some n → n < length s
unfolding find_first_of
find_first_of-lt c n [] h = cc
find_first_of-lt c n (d ∷ s) h = elim (Bool-cases (d == c)) [
  | inl e ↦ (let z : some 0 ≡ some n = rw e at h in ground arith)
  | inr e ↦
      (let (m, em, en) = shift-some (find_first_of c s) n (rw e at h) in
        omega (arith, find_first_of-lt c m s em))
]

pub Option-cases : (o : Option ℕ) → (o ≡ none) ⊎ ((n : ℕ) × (o ≡ some n))
Option-cases none = inl refl
Option-cases (some n) = inr (n, refl)

query_loop-done :
    (fuel : ℕ) (s : Text) (params : HttpParams)
    → length s < fuel
    → (ps : HttpParams) × (query_loop fuel s params ≡ done ps)
unfolding query_loop
query_loop-done zero s params h = absurd (omega arith)
query_loop-done (suc fuel) s params h = elim (Option-cases (find_first_of b'=' s)) [
  | inl e ↦ (params, rw (e, query_loop) refl)
  | inr (k, e) ↦ elim (Option-cases (find_first_of b'&' s)) [
    | inl f ↦ (set_param (take k s) (drop (k + 1) s) params, rw (e, f, query_loop) refl)
    | inr (n, f) ↦ elim (Bool-cases (ltb k n)) [
      | inl b ↦
          (let (ps, r) =
              query_loop-done fuel (drop (n + 1) s)
                (set_param (take k s) (take (n - k - 1) (drop (k + 1) s)) params)
                (omega (arith, length-drop (n + 1) s, find_first_of-lt b'&' n s f)) in
            (ps, rw (e, f, b, query_loop) r))
      | inr b ↦ (params, rw (e, f, b, query_loop) refl)
    ]
  ]
]

-- The call ends on every text.
pub parse_query-done : (s : Text) → (ps : HttpParams) × (parse_query s ≡ done ps)
unfolding parse_query
parse_query-done s = elim (Bool-cases (is_empty (query_part s))) [
  | inl e ↦ ([], rw e refl)
  | inr e ↦
      (let (ps, r) =
          query_loop-done (suc (length (query_part s))) (query_part s) [] (omega arith) in
        (ps, rw e r))
]
