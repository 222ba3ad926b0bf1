-- ===== src/Https/Workers.antt =====
-- `ApiServer::EventLoopContext` of https/ApiServer.h and the loop of `ApiServer::start`, in
-- https/ApiServer.cpp, that gives the workers to the loops.
pub mod Sharing
pub mod Allocation
use libwebsocket_component.Prelude.{
  ℕ, zero, suc, ◌+◌, ◌-◌, ◌%◌, ◌^◌, Bool, true, false, List, [], ◌∷◌, ◌++◌, ltb, leb, if◌then◌else◌,
  length, get_or, Outcome, done, aborted, assert, ◌>>=◌, ◌>>◌,
}

-- `index_` is the number of the bucket; `next_pool` is an `int32_t` as its bit pattern.
pub record LoopContext : Type 0 where
  pub index : ℕ
  pub pool : List ℕ
  pub next_pool : ℕ

-- A signed number of 32 bits: is it negative, and as a `size_t`.
abbrev pub is_negative : ℕ → Bool
is_negative x = leb (2 ^ 31) x

abbrev pub as_size : ℕ → ℕ
as_size x = if is_negative x then x + (2 ^ 64 - 2 ^ 32) else x

unfoldable pub new_loop_context : ℕ → Outcome LoopContext
new_loop_context index = do
  assert (ltb index (2 ^ 31))
  done (record { index = index; pool = []; next_pool = 0 })

unfoldable pub add_worker_index : ℕ → LoopContext → LoopContext
add_worker_index i c = record c { pool = c.pool ++ (i ∷ []) }

-- `getAndAdd(1)` wraps at 32 bits. A pool with no worker is a division by zero.
unfoldable pub worker_cursor : LoopContext → ℕ
worker_cursor c = (as_size c.next_pool % length c.pool) % 2 ^ 32

unfoldable pub alloc_worker_index : LoopContext → Outcome (ℕ × LoopContext)
alloc_worker_index c =
    if leb (length c.pool) 0
    then aborted
    else (let wraps = is_negative (worker_cursor c) in
        let index = if wraps then 0 else worker_cursor c in
        let next = if wraps then 0 else (c.next_pool + 1) % 2 ^ 32 in
        assert (ltb (as_size index) (length c.pool))
        >> done (get_or c.pool index 0, record c { next_pool = next }))

-- One worker more for loop number `next`, of `loops`.
unfoldable pub give : ℕ → ℕ → List LoopContext → List LoopContext
give next i [] = []
give zero i (c ∷ cs) = add_worker_index i c ∷ cs
give (suc next) i (c ∷ cs) = c ∷ give next i cs

-- `if (++next >= loops.size())`.
unfoldable pub next_loop : ℕ → ℕ → ℕ
next_loop loops next = if leb loops (next + 1) then 0 else next + 1

-- The rounds that are left, the number of the worker and the loop that it goes to.
unfoldable pub share_loop : ℕ → ℕ → ℕ → List LoopContext → List LoopContext
share_loop zero i next cs = cs
share_loop (suc left) i next cs =
    share_loop left (i + 1) (next_loop (length cs) next) (give next i cs)

unfoldable pub share_workers : ℕ → List LoopContext → List LoopContext
share_workers workers cs = share_loop workers 0 0 cs
