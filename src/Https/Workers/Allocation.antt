-- ===== src/Https/Workers/Allocation.antt =====
-- The worker that a new connection gets, after the workers have been shared out.
use libwebsocket_component.Prelude.{
  ℕ, zero, suc, ◌+◌, ◌%◌, ◌^◌, ◌≤◌, ◌<◌, ◌≡◌, refl, sym, ap, ◌∙◌, inl, inr, arith, true, false,
  List, [], ◌∷◌, ltb, leb, ◌==◌, if◌then◌else◌, length, length-append, get_or, done, aborted, All,
  Bool-cases,
}
use native.Mathlib.Nat.{mod-eq_of_lt, mod-le}
use libwebsocket_component.Https.Workers.{
  LoopContext, alloc_worker_index, give, next_loop, share_loop, share_workers,
}
use libwebsocket_component.Https.Workers.Sharing.{
  pool_of, has, has-share_loop, pool_of-give, length-give, next_loop-mod, alloc_worker_index_lem,
}

-- A loop before it has a worker, and a loop by its number.
abbrev pub no_workers : LoopContext
no_workers = record { index = 0; pool = []; next_pool = 0 }

abbrev pub loop_of : ℕ → List LoopContext → LoopContext
loop_of l [] = no_workers
loop_of zero (c ∷ cs) = c
loop_of (suc l) (c ∷ cs) = loop_of l cs

abbrev pub HasNone : List LoopContext → Type 0
HasNone cs = All (λ (c : LoopContext). c.pool ≡ []) cs

loop_of-pool : (l : ℕ) (cs : List LoopContext) → (loop_of l cs).pool ≡ pool_of l cs
loop_of-pool l [] = refl
loop_of-pool zero (c ∷ cs) = refl
loop_of-pool (suc l) (c ∷ cs) = loop_of-pool l cs

pool_of-HasNone : (l : ℕ) (cs : List LoopContext) → HasNone cs → pool_of l cs ≡ []
pool_of-HasNone l [] h = refl
pool_of-HasNone zero (c ∷ cs) h = h.0
pool_of-HasNone (suc l) (c ∷ cs) h = pool_of-HasNone l cs h.1

has-get_or : (i : ℕ) (js : List ℕ) → i < length js → has (get_or js i 0) js ≡ true
has-get_or i [] h = absurd (omega arith)
has-get_or zero (j ∷ js) h = ground arith
has-get_or (suc i) (j ∷ js) h = ground (arith, has-get_or i js)

length-has : (i : ℕ) (js : List ℕ) → has i js ≡ true → 0 < length js
length-has i [] h = cc
length-has i (j ∷ js) h = omega arith

has-head : (j : ℕ) (js : List ℕ) → has j (j ∷ js) ≡ true
has-head j js = ground arith

length-pool_of-give :
    (next i l : ℕ) (cs : List LoopContext)
    → next < length cs
    → length (pool_of l (give next i cs)) ≤ suc (length (pool_of l cs))
length-pool_of-give next i l cs h =
    ground (arith, pool_of-give next i l cs h, length-append (pool_of l cs) (i ∷ []))

length-pool_of_share :
    (left i next l : ℕ) (cs : List LoopContext)
    → next < length cs
    → i % length cs ≡ next
    → length (pool_of l (share_loop left i next cs)) ≤ length (pool_of l cs) + left
unfolding share_loop
length-pool_of_share zero i next l cs h e = omega arith
length-pool_of_share (suc left) i next l cs h e =
    let (h', e') = next_loop-mod (length cs) i next h e in
    let n = length-give next i cs in
    omega (
      arith,
      length-pool_of_share left (i + 1) (next_loop (length cs) next) l (give next i cs) (rw n h')
          (rw n e'),
      length-pool_of-give next i l cs h,
    )

-- The workers are shared out: loop number `l` has those whose number is `l` modulo the loops.
pub has-share_workers :
    (workers l j : ℕ) (cs : List LoopContext)
    → 0 < length cs
    → HasNone cs
    → has j (pool_of l (share_workers workers cs))
      ≡ (if ltb j workers then j % length cs == l else false)
unfolding share_workers
has-share_workers workers l j cs p h =
    has-share_loop workers 0 0 l j cs p (mod-eq_of_lt p)
    ∙ rw (pool_of-HasNone l cs h) (ground arith)

-- Loops that have no worker yet get theirs. If there are as many workers as loops, a new connection
-- on any loop, whatever the state of its counter, is given a worker: it is one of the workers, and
-- its number is that of the loop, modulo the number of loops. No assertion fails.
pub alloc_worker_index-share_workers :
    (workers l next : ℕ) (cs : List LoopContext)
    → l < length cs
    → length cs ≤ workers
    → workers < 2 ^ 31
    → HasNone cs
    → (i : ℕ) × (c : LoopContext) × (alloc_worker_index
          (record (loop_of l (share_workers workers cs)) { next_pool = next })
        ≡ done (i, c))
      × (i < workers)
      × (i % length cs ≡ l)
      × (c.pool ≡ (loop_of l (share_workers workers cs)).pool)
alloc_worker_index-share_workers workers l next cs lo hi small none_yet =
    let p : 0 < length cs = omega arith in
    let k : LoopContext = loop_of l (share_workers workers cs) in
    let kp : k.pool ≡ pool_of l (share_workers workers cs) =
      loop_of-pool l (share_workers workers cs) in
    let mine : l % length cs ≡ l = mod-eq_of_lt lo in
    let first : has l k.pool ≡ true =
      (ap (has l) kp ∙ has-share_workers workers l l cs p none_yet ∙ ground arith) in
    let few : length k.pool ≤ workers =
      (omega (arith, ap length kp, shared_few workers l cs p none_yet)) in
    let (i, b, e) =
      alloc_worker_index_lem (record k { next_pool = next }) (length-has l k.pool first)
        (omega arith) in
    let at = ap (has (get_or k.pool i 0)) (sym kp) in
    let its : has (get_or k.pool i 0) (pool_of l (share_workers workers cs)) ≡ true =
      at ∙ has-get_or i k.pool b in
    let is = sym (has-share_workers workers l (get_or k.pool i 0) cs p none_yet) ∙ its in
    (get_or k.pool i 0, _, e, ground arith, ground arith, refl)
  where
    shared_few :
        (workers l : ℕ) (cs : List LoopContext)
        → 0 < length cs
        → HasNone cs
        → length (pool_of l (share_workers workers cs)) ≤ workers
    shared_few workers l cs p h =
        let q = length-pool_of_share workers 0 0 l cs p (mod-eq_of_lt p) in
        unfold share_workers in omega (arith, q, ap length (pool_of-HasNone l cs h))

empty_of_has : (js : List ℕ) → ((j : ℕ) → has j js ≡ false) → js ≡ []
empty_of_has [] h = refl
empty_of_has (j ∷ js) h = let here = has-head j js in let none_here = h j in cc

alloc_worker_index-empty : (c : LoopContext) → c.pool ≡ [] → alloc_worker_index c ≡ aborted
unfolding alloc_worker_index
alloc_worker_index-empty c e =
    let none_left : leb (length c.pool) 0 ≡ true = ap (λ (p : List ℕ). leb (length p) 0) e in
    rw none_left refl

not_shared :
    (workers loops l j : ℕ)
    → 0 < loops
    → workers ≤ l
    → (if ltb j workers then j % loops == l else false) ≡ false
not_shared workers loops l j p h = elim (Bool-cases (ltb j workers)) [
  | inl e ↦ (let m : j % loops ≤ j = mod-le j loops in rw e (ground arith))
  | inr e ↦ rw e refl
]

-- With fewer workers than loops, the loops past the number of the workers have none, and the first
-- connection on such a loop takes the server down: a division by zero.
pub alloc_worker_index-starved :
    (workers l next : ℕ) (cs : List LoopContext)
    → l < length cs
    → workers ≤ l
    → HasNone cs
    → alloc_worker_index (record (loop_of l (share_workers workers cs)) { next_pool = next })
      ≡ aborted
alloc_worker_index-starved workers l next cs lo few none_yet =
    alloc_worker_index-empty (record (loop_of l (share_workers workers cs)) { next_pool = next })
      (loop_of-pool l (share_workers workers cs)
        ∙ empty_of_has (pool_of l (share_workers workers cs)) λ j.
          has-share_workers workers l j cs (omega arith) none_yet
          ∙ not_shared workers (length cs) l j (omega arith) few)
