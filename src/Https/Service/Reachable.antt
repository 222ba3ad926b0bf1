-- ===== src/Https/Service/Reachable.antt =====
-- What holds of the connections after any steps.
use libwebsocket_component.Prelude.{
  ℕ, ◌+◌, ◌%◌, ◌^◌, ◌≤◌, ◌<◌, ◌≡◌, refl, ap, ◌∙◌, ◌⊎◌, inl, inr, arith, true, false, List, [], ◌∷◌,
  Option, none, some, ltb, ◌==◌, ==_iff, length, done, assert, >>=-eq-done, Bool-cases,
}
use libwebsocket_component.Https.Buckets.{holds, replace, on_timer}
use libwebsocket_component.Https.Workers.{alloc_worker_index}
use libwebsocket_component.Https.Orders.{OrderEnv}
use libwebsocket_component.Https.Service.{
  HttpRequests, ConnContext, Server, react, too_many, count_bad, exceeds, admit, connection_up,
  connection_down, on_write_complete,
}
use libwebsocket_component.Https.Service.Keeping.{
  is_some, done-injective, Keeps, on_http_message-Keeps, async_http_handler-Keeps,
}
use libwebsocket_component.Https.Service.Limit.{
  remove, World, admitted, Step, up, down, message, handler, written, tick, Reach, here, next,
  IsLimited,
}

length-remove : (c : ℕ) (cs : List ℕ) → holds c cs ≡ true → length (remove c cs) + 1 ≡ length cs
length-remove c [] h = cc
length-remove c (d ∷ cs) h = ground (arith, length-remove c cs)

holds-remove :
    (c d : ℕ) (cs : List ℕ) → (d == c) ≡ false → holds d (remove c cs) ≡ false → holds d cs ≡ false
holds-remove c d [] h k = refl
holds-remove c d (e ∷ cs) h k = ground (arith, holds-remove c d cs)

module _ {H : Type 0} where
  -- A connection that comes is one more; it has a context only within the limit.
  abbrev CameUp : ℕ → Server H → Server H → Type 0
  CameUp c s t =
      (t.num_connected ≡ (s.num_connected + 1) % 2 ^ 32)
      × (t.max_connections ≡ s.max_connections)
      × ((t.context ≡ s.context)
          ⊎ ((exceeds ((s.num_connected + 1) % 2 ^ 32) s.max_connections ≡ false)
              × ((x : ConnContext H) × (t.context ≡ replace s.context c (some x)))))

  connection_up-CameUp :
      (req : HttpRequests H) (c : ℕ) (s t : Server H)
      → connection_up req c s ≡ done t
      → CameUp c s t
  unfolding connection_up admit
  connection_up-CameUp req c s t e =
      let num = (s.num_connected + 1) % 2 ^ 32 in
      let v : Server H = record s {
        num_connected = num;
        num_total_req = (s.num_total_req + 1) % 2 ^ 64;
      } in
      elim (Bool-cases (exceeds num s.max_connections)) [
        | inl a ↦
            (let same : count_bad (react (too_many c) v) ≡ t = done-injective (rw a at e) in
              rw (← same) (refl, refl, inl refl))
        | inr a ↦
            (let ((i, k), ei, er) = >>=-eq-done (alloc_worker_index s.loop) _ (rw a at e) in
              let (u, eu, es) = >>=-eq-done (assert (ltb i s.workers)) _ er in
              let (u', eu', et) = >>=-eq-done (assert (ltb s.loop.index s.buckets)) _ es in
              let same = done-injective et in
              rw (← same)
                (refl, refl, inr (a, (record { worker_index = i; http = req.fresh }, refl))))
      ]

  admitted-le : (f : ℕ → Option (ConnContext H)) (cs : List ℕ) → admitted f cs ≤ length cs
  admitted-le f [] = omega arith
  admitted-le f (c ∷ cs) = ground (arith, admitted-le f cs)

  admitted-ext :
      (f g : ℕ → Option (ConnContext H)) (cs : List ℕ)
      → ((d : ℕ) → is_some (g d) ≡ is_some (f d))
      → admitted g cs ≡ admitted f cs
  admitted-ext f g [] h = refl
  admitted-ext f g (c ∷ cs) h = rw (h c, admitted-ext f g cs h) refl

  admitted-replace :
      (f : ℕ → Option (ConnContext H)) (c : ℕ) (o : Option (ConnContext H)) (cs : List ℕ)
      → holds c cs ≡ false
      → admitted (replace f c o) cs ≡ admitted f cs
  admitted-replace f c o [] h = refl
  admitted-replace f c o (d ∷ cs) h =
      let other : (d == c) ≡ false = ground arith in
      let rest : holds c cs ≡ false = ground arith in
      rw (other, admitted-replace f c o cs rest) refl

  admitted-less :
      (f : ℕ → Option (ConnContext H)) (c : ℕ) (cs : List ℕ)
      → admitted (replace f c none) cs ≤ admitted f cs
  admitted-less f c [] = omega arith
  admitted-less f c (d ∷ cs) = elim (Bool-cases (d == c)) [
    | inl e ↦ elim (Bool-cases (is_some (f d))) [
      | inl g ↦ rw (e, g) (omega (arith, admitted-less f c cs))
      | inr g ↦ rw (e, g) (admitted-less f c cs)
    ]
    | inr e ↦ elim (Bool-cases (is_some (f d))) [
      | inl g ↦ rw (e, g) (omega (arith, admitted-less f c cs))
      | inr g ↦ rw (e, g) (admitted-less f c cs)
    ]
  ]

  admitted-remove :
      (f : ℕ → Option (ConnContext H)) (c : ℕ) (cs : List ℕ)
      → admitted f (remove c cs) ≤ admitted f cs
  admitted-remove f c [] = omega arith
  admitted-remove f c (d ∷ cs) = ground (arith, admitted-remove f c cs)

  up-IsLimited :
      (req : HttpRequests H) (bound c : ℕ) (cs : List ℕ) (s t : Server H)
      → holds c cs ≡ false
      → length cs + 1 < 2 ^ 31
      → connection_up req c s ≡ done t
      → IsLimited bound (record { ups = cs; server = s })
      → IsLimited bound (record { ups = c ∷ cs; server = t })
  up-IsLimited req bound c cs s t hc hl e v =
      let (en, em, ec) = connection_up-CameUp req c s t e in go en em ec
    where
      open v use {counted, bounded, limit, few, none_else}

      go :
          t.num_connected ≡ (s.num_connected + 1) % 2 ^ 32
          → t.max_connections ≡ s.max_connections
          → (t.context ≡ s.context)
            ⊎ ((exceeds ((s.num_connected + 1) % 2 ^ 32) s.max_connections ≡ false)
                × ((x : ConnContext H) × (t.context ≡ replace s.context c (some x))))
          → IsLimited bound (record { ups = c ∷ cs; server = t })
      go en em (inl ec) = record {
        counted = omega (arith, en, counted);
        bounded = omega arith;
        limit = em ∙ limit;
        few =
            (let empty : is_some (s.context c) ≡ false = none_else c hc in
              let same = ap (λ (f : ℕ → Option (ConnContext H)). admitted f (c ∷ cs)) ec in
              rw same (rw empty few));
        none_else = λ d h. rw ec (none_else d (ground arith));
      }
      go en em (inr (ex, (x, ec))) = record {
        counted = omega (arith, en, counted);
        bounded = omega arith;
        limit = em ∙ limit;
        few =
            (let same : (c == c) ≡ true = (==_iff c c).1 refl in
              let now = ap (λ (f : ℕ → Option (ConnContext H)). admitted f (c ∷ cs)) ec in
              rw now (
                rw (same, admitted-replace s.context c (some x) cs hc)
                  (ground (arith, admitted-le s.context cs, ex, counted, limit))));
        none_else = λ d h.
            (let other : (d == c) ≡ false = ground arith in
              rw (ec, other) (none_else d (ground arith)));
      }

  down-IsLimited :
      (bound c : ℕ) (cs : List ℕ) (s : Server H)
      → holds c cs ≡ true
      → IsLimited bound (record { ups = cs; server = s })
      → IsLimited bound (record { ups = remove c cs; server = connection_down c s })
  unfolding connection_down
  down-IsLimited bound c cs s hc v = record {
    counted = omega (arith, counted, length-remove c cs hc);
    bounded = omega (arith, length-remove c cs hc);
    limit = limit;
    few =
        omega (arith, few, admitted-less s.context c (remove c cs), admitted-remove s.context c cs);
    none_else = λ d h. elim (Bool-cases (d == c)) [
      | inl e ↦ rw e refl
      | inr e ↦ rw e (none_else d (holds-remove c d cs e h))
    ];
  }
    where
      open v use {counted, bounded, limit, few, none_else}

  Keeps-IsLimited :
      (bound : ℕ) (cs : List ℕ) (s t : Server H)
      → Keeps s t
      → IsLimited bound (record { ups = cs; server = s })
      → IsLimited bound (record { ups = cs; server = t })
  Keeps-IsLimited bound cs s t (en, em, ec) v = record {
    counted = en ∙ counted;
    bounded = bounded;
    limit = em ∙ limit;
    few = rw (admitted-ext s.context t.context cs ec) few;
    none_else = λ d h. ec d ∙ none_else d h;
  }
    where
      open v use {counted, bounded, limit, few, none_else}

  Step-IsLimited :
      {req : HttpRequests H} {env : OrderEnv} {w u : World H} (bound : ℕ)
      → Step req env w u
      → IsLimited bound w
      → IsLimited bound u
  unfolding on_write_complete
  Step-IsLimited {req} bound (up c cs s t hc hl e) v = up-IsLimited req bound c cs s t hc hl e v
  Step-IsLimited bound (down c cs s hc) v = down-IsLimited bound c cs s hc v
  Step-IsLimited {req} bound (message c peer buf rest cs s t e) v =
      Keeps-IsLimited bound cs s t (on_http_message-Keeps req peer c buf rest s t e) v
  Step-IsLimited {req} {env} bound (handler c peer cs s t e) v =
      Keeps-IsLimited bound cs s t (async_http_handler-Keeps req env c peer s t e) v
  Step-IsLimited bound (written c cs s) v =
      Keeps-IsLimited bound cs s (on_write_complete c s) (refl, refl, λ d. refl) v
  Step-IsLimited bound (tick cs s) v =
      Keeps-IsLimited bound cs s (record s { wheel = on_timer s.wheel }) (refl, refl, λ d. refl) v

  -- However connections come and go, and whatever messages, answers and ticks there are: the count
  -- of connections is that of the open ones, at most as many of them as the limit have been admitted
  -- and have a context, and one that is not open has none, if this was so at the start.
  pub Reach-IsLimited :
      (req : HttpRequests H) (env : OrderEnv) (bound : ℕ) (w u : World H)
      → IsLimited bound w
      → Reach req env w u
      → IsLimited bound u
  Reach-IsLimited req env bound w u v here = v
  Reach-IsLimited req env bound w u v (next {v = m} r s) =
      Step-IsLimited bound s (Reach-IsLimited req env bound w m v r)
