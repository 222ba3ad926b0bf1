-- ===== src/SocketIo.antt =====
-- `IBytesBuffer::readFull` and `writeFull` of libwebsocket/private/IBytesBuffer.cc: the loops over
-- read(2) and write(2) on a socket that does not block.
pub mod Writing
pub mod Reading
use libwebsocket_component.Prelude.{
  ℕ, zero, suc, ◌+◌, ◌-◌, Bool, true, false, List, [], ◌∷◌, ◌++◌, ltb, leb, ◌==◌, if◌then◌else◌,
  length, take, drop, Outcome, done, unfinished, assert, ◌>>=◌, ◌>>◌,
}
use libwebsocket_component.Buffer.{Buffer}

-- The result of a system call: a number that is not negative, or -1.
pub data Rc : Type 0 where
  count : ℕ → Rc
  minus_one : Rc

-- What `writeFull` returns and saves, and the octets that the kernel has taken.
pub record Written : Type 0 where
  pub n : ℕ
  pub saved_errno : Rc
  pub sent : List ℕ

-- `write k octets` is the result of call number `k`.
module _ (write : ℕ → List ℕ → Rc) where
  -- `while (left > 0)`, with fuel; `left` is the data that is not written yet.
  unfoldable pub write_loop : ℕ → ℕ → List ℕ → Written → Outcome Written
  write_loop zero call left w = unfinished
  write_loop (suc fuel) call left w = elim (ltb 0 (length left)) [
    | false ↦ done w
    | true ↦ elim (write call left) [
      | minus_one ↦ done (record w { saved_errno = minus_one })
      | count rc ↦ elim (ltb 0 rc) [
        | false ↦ done (record w { saved_errno = count rc })
        | true ↦
            write_loop fuel (suc call) (drop rc left)
              (record { n = w.n + rc; saved_errno = count rc; sent = w.sent ++ take rc left })
      ]
    ]
  ]

  -- Every round takes an octet of the data.
  unfoldable pub write_full : List ℕ → Rc → Outcome Written
  write_full octets saved =
      write_loop (suc (length octets)) 0 octets (record { n = 0; saved_errno = saved; sent = [] })

-- What read(2) has put into the buffer; no octets are the end of the input.
pub data Received : Type 0 where
  received : List ℕ → Received
  read_fails : Received

-- A buffer with the room behind its octets.
pub record Space : Type 0 where
  pub readable : Buffer
  pub writable : ℕ

pub record ReadState : Type 0 where
  pub n : ℕ
  pub saved_errno : Rc
  pub space : Space

-- `read k room` is the result of call number `k`, and `ensure_writable_bytes` the room that the
-- buffer makes.
module _ (read : ℕ → ℕ → Received) (ensure_writable_bytes : ℕ → Space → ℕ) where
  unfoldable pub writable_space : Space → ℕ
  writable_space s = if s.writable == 0 then ensure_writable_bytes 4096 s else s.writable

  -- The loop, with fuel; `hasWritten` asserts that the octets fit.
  unfoldable pub read_loop : ℕ → ℕ → ReadState → Outcome ReadState
  read_loop zero call s = unfinished
  read_loop (suc fuel) call s = elim (read call (writable_space s.space)) [
    | read_fails ↦ done (record s {
      saved_errno = minus_one;
      space = record s.space { writable = writable_space s.space };
    })
    | received octets ↦ elim (ltb 0 (length octets)) [
      | false ↦ done (record s {
        saved_errno = count 0;
        space = record s.space { writable = writable_space s.space };
      })
      | true ↦
          assert (leb (length octets) (writable_space s.space))
          >> read_loop fuel (suc call) (record {
            n = s.n + length octets;
            saved_errno = count (length octets);
            space = record {
              readable = s.space.readable ++ octets;
              writable = writable_space s.space - length octets;
            };
          })
    ]
  ]

  unfoldable pub read_full : ℕ → Space → Rc → Outcome ReadState
  read_full fuel space saved =
      read_loop fuel 0 (record { n = 0; saved_errno = saved; space = space })
