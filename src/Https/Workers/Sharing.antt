-- ===== src/Https/Workers/Sharing.antt =====
-- Which loop has which workers, and which worker a new connection gets.
use libwebsocket_component.Prelude.{
  ℕ, zero, suc, ◌+◌, ◌%◌, ◌^◌, ◌<◌, ◌≡◌, refl, sym, ap, ◌∙◌, inl, inr, arith, Bool, true, false,
  List, [], ◌∷◌, ◌++◌, ltb, leb, ◌==◌, if◌then◌else◌, length, get_or, done, Bool-cases,
}
use native.Mathlib.Nat.{mod-add-mod, mod_self, mod-eq_of_lt}
use libwebsocket_component.Https.Workers.{
  LoopContext, is_negative, add_worker_index, worker_cursor, alloc_worker_index, give, next_loop,
  share_loop,
}

-- A counter that has not gone past the largest `int32_t`.
pub cursor_small :
    (c : LoopContext)
    → 0 < length c.pool
    → c.next_pool < 2 ^ 31
    → length c.pool < 2 ^ 31
    → worker_cursor c ≡ c.next_pool % length c.pool
unfolding worker_cursor
cursor_small c p n s = grind arith

pub cursor_bound :
    (c : LoopContext) → 0 < length c.pool → length c.pool < 2 ^ 31 → worker_cursor c < length c.pool
unfolding worker_cursor
cursor_bound c p s = grind arith

-- A loop with a worker, and not more than an `int` counts: the call returns on every state of the
-- counter, also after it has gone past the largest `int32_t`, with a worker of the pool.
pub alloc_worker_index_lem :
    (c : LoopContext)
    → 0 < length c.pool
    → length c.pool < 2 ^ 31
    → (i : ℕ) × (i < length c.pool)
      × (alloc_worker_index c
          ≡ done (get_or c.pool i 0, record c { next_pool = (c.next_pool + 1) % 2 ^ 32 }))
unfolding alloc_worker_index
alloc_worker_index_lem c p s =
    let b = cursor_bound c p s in
    let some_worker : leb (length c.pool) 0 ≡ false = ground arith in
    let not_negative : is_negative (worker_cursor c) ≡ false = ground arith in
    let in_range : ltb (worker_cursor c) (length c.pool) ≡ true = ground arith in
    (worker_cursor c, b, rw (some_worker, not_negative) (rw (not_negative, in_range) refl))

-- The pool of a loop.
abbrev pub pool_of : ℕ → List LoopContext → List ℕ
pool_of l [] = []
pool_of zero (c ∷ cs) = c.pool
pool_of (suc l) (c ∷ cs) = pool_of l cs

abbrev pub has : ℕ → List ℕ → Bool
has i [] = false
has i (j ∷ js) = if j == i then true else has i js

pub length-give : (next i : ℕ) (cs : List LoopContext) → length (give next i cs) ≡ length cs
unfolding give
length-give next i [] = refl
length-give zero i (c ∷ cs) = refl
length-give (suc next) i (c ∷ cs) = ap suc (length-give next i cs)

pub pool_of-give :
    (next i l : ℕ) (cs : List LoopContext)
    → next < length cs
    → pool_of l (give next i cs) ≡ (if l == next then pool_of l cs ++ (i ∷ []) else pool_of l cs)
unfolding give add_worker_index
pool_of-give next i l [] h = absurd (omega arith)
pool_of-give zero i zero (c ∷ cs) h = refl
pool_of-give zero i (suc l) (c ∷ cs) h = ground arith
pool_of-give (suc next) i zero (c ∷ cs) h = ground arith
pool_of-give (suc next) i (suc l) (c ∷ cs) h = ground (arith, pool_of-give next i l cs)

has-append : (i j : ℕ) (js : List ℕ) → has i (js ++ (j ∷ [])) ≡ (if j == i then true else has i js)
has-append i j [] = refl
has-append i j (k ∷ js) = ground (arith, has-append i j js)

-- The loop of the next worker is the number of the worker modulo the loops.
pub next_loop-mod :
    (loops i next : ℕ)
    → next < loops
    → i % loops ≡ next
    → (next_loop loops next < loops) × ((i + 1) % loops ≡ next_loop loops next)
unfolding next_loop
next_loop-mod loops i next h e =
    let step : (i + 1) % loops ≡ (next + 1) % loops =
      sym (mod-add-mod i loops 1) ∙ ap (λ k. (k + 1) % loops) e in
    elim (Bool-cases (leb loops (next + 1))) [
      | inl b ↦
          (let whole : next + 1 ≡ loops = ground arith in
            rw b (omega arith, step ∙ ap (λ k. k % loops) whole ∙ mod_self loops))
      | inr b ↦ rw b (ground arith, step ∙ mod-eq_of_lt (ground arith))
    ]

abbrev pub in_share : ℕ → ℕ → ℕ → ℕ → ℕ → Bool
in_share loops l i left j =
    if leb i j then if ltb j (i + left) then j % loops == l else false else false

in_share-suc :
    (loops l i left j next : ℕ)
    → i % loops ≡ next
    → in_share loops l i (suc left) j
      ≡ (if i == j then l == next else in_share loops l (i + 1) left j)
in_share-suc loops l i left j next e = elim (Bool-cases (i == j)) [
  | inl b ↦
      (let same : i ≡ j = ground arith in
        let at : j % loops ≡ next = ap (λ k. k % loops) (sym same) ∙ e in rw (b, at) (ground arith))
  | inr b ↦ rw b (ground arith)
]

pub length-share_loop :
    (left i next : ℕ) (cs : List LoopContext) → length (share_loop left i next cs) ≡ length cs
unfolding share_loop
length-share_loop zero i next cs = refl
length-share_loop (suc left) i next cs =
    length-share_loop left (i + 1) (next_loop (length cs) next) (give next i cs)
    ∙ length-give next i cs

has-give :
    (next i l j : ℕ) (cs : List LoopContext)
    → next < length cs
    → has j (pool_of l (give next i cs))
      ≡ (if has j (pool_of l cs) then true else if i == j then l == next else false)
has-give next i l j cs h = ground (arith, pool_of-give next i l cs h, has-append j i (pool_of l cs))

pub has-share_loop :
    (left i next l j : ℕ) (cs : List LoopContext)
    → next < length cs
    → i % length cs ≡ next
    → has j (pool_of l (share_loop left i next cs))
      ≡ (if has j (pool_of l cs) then true else in_share (length cs) l i left j)
unfolding share_loop
has-share_loop zero i next l j cs h e = ground arith
has-share_loop (suc left) i next l j cs h e =
    let (h', e') = next_loop-mod (length cs) i next h e in
    let n = length-give next i cs in
    let rest =
      has-share_loop left (i + 1) (next_loop (length cs) next) l j (give next i cs) (rw n h')
        (rw n e') in
    rest
    ∙ rw (n, has-give next i l j cs h, in_share-suc (length cs) l i left j next e) (ground arith)
