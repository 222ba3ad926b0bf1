-- ===== src/Https/Orders/Checks.antt =====
-- What the reading of the fields of an order comes to.
use libwebsocket_component.Prelude.{
  is_empty, ◌+◌, ◌≡◌, refl, ◌∙◌, ◌⊎◌, inl, inr, arith, Bool, true, false, ◌&&◌, ◌||◌, not, [], ◌∷◌,
  codes, done, take, drop, Bool-cases,
}
use libwebsocket_component.Https.Query.{Text, HttpParams, find_first_of}
use libwebsocket_component.Https.Query.Ends.{Option-cases}
use libwebsocket_component.Https.Numbers.{ℤ, is_at_most_zero}
use libwebsocket_component.Https.Scores.{rate100, floors_text, is_digital_str, some_digits}
use libwebsocket_component.Https.Scores.Cents.{rate100-none, rate100-some}
use libwebsocket_component.Https.Orders.{
  params_error, is_error, OrderEnv, Request, param, add_failure,
}
use libwebsocket_component.Https.Orders.Handlers.{
  read_score, bad_score, read_account, read_order_id, read_order,
}

some_digits-not_empty : (s : Text) → some_digits s ≡ true → is_empty s ≡ false
some_digits-not_empty [] h = cc
some_digits-not_empty (c ∷ s) h = refl

-- A text of the form of a number does not fail the assertion of `rate100`.
rate100-done : (s : Text) → is_digital_str s ≡ true → (z : ℤ) × (rate100 s ≡ done z)
unfolding is_digital_str
rate100-done s h = elim (Option-cases (find_first_of b'.' s)) [
  | inl e ↦ (_, rate100-none s e)
  | inr (n, e) ↦
      (let parts : (some_digits (take n s) && some_digits (drop (n + 1) s)) ≡ true =
          rw (e, is_digital_str) at h in
        let behind : is_empty (drop (n + 1) s) ≡ false =
          some_digits-not_empty (drop (n + 1) s) (ground arith) in
        (_, rate100-some s (take n s) (drop (n + 1) s) n e refl refl behind))
]

module _ (env : OrderEnv) where
  open env use {Double, zero_score, atof, at_most_zero, not_score, int_of_hundredfold}

  abbrev pub Req : Type 0
  Req = Request Double

  -- A text that is taken for a score.
  abbrev pub IsScore : Text → Type 0
  IsScore s =
      (is_empty s ≡ false)
      × (is_digital_str s ≡ true)
      × (at_most_zero (atof (floors_text s)) ≡ false)
      × (not_score (atof (floors_text s)) ≡ false)
      × ((z : ℤ) × (rate100 s ≡ done z) × (is_at_most_zero z ≡ false))

  bad_score-cases : (s : Text) → (b : Bool) × (bad_score env s ≡ done b) × (b ≡ false → IsScore s)
  unfolding bad_score
  bad_score-cases s = elim (Bool-cases (is_empty s || not (is_digital_str s))) [
    | inl e ↦ (true, rw e refl, λ h. cc)
    | inr e ↦
        elim (Bool-cases
          (at_most_zero (atof (floors_text s)) || not_score (atof (floors_text s)))) [
            | inl f ↦ (true, rw (e, f) refl, λ h. cc)
            | inr f ↦
                (let digits : is_digital_str s ≡ true = ground arith in
                  let (z, ez) = rate100-done s digits in
                  (
                    is_at_most_zero z,
                    rw (e, f, ez) refl,
                    λ h. (ground arith, digits, ground arith, ground arith, (z, ez, h)),
                  ))
          ]
  ]

  -- The fields that the reading of an order leaves.
  abbrev pub Leaves : Req → Req → Type 0
  Leaves q r = (r.executed ≡ q.executed) × (r.op_type ≡ q.op_type) × (r.agent_id ≡ q.agent_id)

  -- What it has found if it tells no fault.
  abbrev pub ReadsOrder : HttpParams → Req → Req → Type 0
  ReadsOrder ps q r =
      (is_error r.errcode ≡ true)
      ⊎ ((r.errcode ≡ q.errcode)
          × (is_empty r.account ≡ false)
          × (is_empty r.order_id ≡ false)
          × (r.account ≡ param (codes "account") ps)
          × (r.order_id ≡ param (codes "orderid") ps)
          × (r.score ≡ atof (floors_text (param (codes "score") ps)))
          × IsScore (param (codes "score") ps))

  read_account-Leaves : (ps : HttpParams) (q : Req) → Leaves q (read_account env ps q)
  unfolding read_account
  read_account-Leaves ps q = elim (Bool-cases (is_empty (param (codes "account") ps))) [
    | inl e ↦ rw e (refl, refl, refl)
    | inr e ↦ rw e (refl, refl, refl)
  ]

  read_order_id-Leaves : (ps : HttpParams) (q : Req) → Leaves q (read_order_id env ps q)
  unfolding read_order_id
  read_order_id-Leaves ps q = elim (Bool-cases (is_empty (param (codes "orderid") ps))) [
    | inl e ↦ rw e (refl, refl, refl)
    | inr e ↦ rw e (refl, refl, refl)
  ]

  read_score-Leaves : (s : Text) (q : Req) → Leaves q (read_score env s q)
  unfolding read_score
  read_score-Leaves s q = elim (Bool-cases (is_empty s || not (is_digital_str s))) [
    | inl e ↦ rw e (refl, refl, refl)
    | inr e ↦ rw e (refl, refl, refl)
  ]

  Leaves-trans : (p q r : Req) → Leaves p q → Leaves q r → Leaves p r
  Leaves-trans p q r (a, b, c) (a', b', c') = (a' ∙ a, b' ∙ b, c' ∙ c)

  -- The three readings one after the other.
  abbrev read_all : HttpParams → Req → Req
  read_all ps q =
      read_score env (param (codes "score") ps) (read_order_id env ps (read_account env ps q))

  read_all-Leaves : (ps : HttpParams) (q : Req) → Leaves q (read_all ps q)
  read_all-Leaves ps q =
      Leaves-trans q (read_account env ps q) (read_all ps q) (read_account-Leaves ps q) (
        Leaves-trans (read_account env ps q) (read_order_id env ps (read_account env ps q))
          (read_all ps q) (read_order_id-Leaves ps (read_account env ps q))
          (read_score-Leaves (param (codes "score") ps)
            (read_order_id env ps (read_account env ps q))))

  read_all-ReadsOrder :
      (ps : HttpParams) (q : Req)
      → IsScore (param (codes "score") ps)
      → ReadsOrder ps q (read_all ps q)
  unfolding read_account read_order_id read_score
  read_all-ReadsOrder ps q h =
      let e : (is_empty (param (codes "score") ps)
            || not (is_digital_str (param (codes "score") ps)))
          ≡ false =
        rw (h.0, h.1) refl in
      elim (Bool-cases (is_empty (param (codes "account") ps))) [
        | inl f ↦ elim (Bool-cases (is_empty (param (codes "orderid") ps))) [
          | inl g ↦ rw (e, f, g) (inl refl)
          | inr g ↦ rw (e, f, g) (inl refl)
        ]
        | inr f ↦ elim (Bool-cases (is_empty (param (codes "orderid") ps))) [
          | inl g ↦ rw (e, f, g) (inl refl)
          | inr g ↦ rw (e, f, g) (inr (refl, f, g, refl, refl, refl, h))
        ]
      ]

  pub read_order-ReadsOrder :
      (ps : HttpParams) (q : Req)
      → (r : Req) × (read_order env ps q ≡ done r) × Leaves q r × ReadsOrder ps q r
  unfolding read_order
  read_order-ReadsOrder ps q =
      let (b, e, ok) = bad_score-cases (param (codes "score") ps) in go b e ok
    where
      go :
          (b : Bool)
          → bad_score env (param (codes "score") ps) ≡ done b
          → (b ≡ false → IsScore (param (codes "score") ps))
          → (r : Req) × (read_order env ps q ≡ done r) × Leaves q r × ReadsOrder ps q r
      go true e ok = (
        add_failure params_error (codes "score ") (read_all ps q),
        rw e refl,
        read_all-Leaves ps q,
        inl refl,
      )
      go false e ok =
          (read_all ps q, rw e refl, read_all-Leaves ps q, read_all-ReadsOrder ps q (ok refl))
