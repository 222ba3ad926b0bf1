-- ===== src/SslIo.antt =====
-- `SSL_read` and `SSL_write` of libwebsocket/ssl/ssl_iorw.cc: the loops over the calls of OpenSSL.
pub mod Writing
pub mod Reading
use libwebsocket_component.Prelude.{
  ℕ, zero, suc, ◌+◌, ◌-◌, Bool, true, false, List, [], ◌∷◌, ◌++◌, Option, none, some, ltb, leb,
  ◌==◌, if◌then◌else◌, length, take, drop, Outcome, done, unfinished, assert, ◌>>=◌, ◌>>◌,
}
use libwebsocket_component.SocketIo.{Rc, count, minus_one, Received, received, read_fails, Space}

-- What is returned, what is saved if it is, and the octets that OpenSSL has taken.
pub record SslWritten : Type 0 where
  pub n : ℕ
  pub saved_errno : Option ℕ
  pub sent : List ℕ

-- `write k octets` is the result of call number `k` and what `SSL_get_error` says of it.
module _ (write : ℕ → List ℕ → Rc × ℕ) where
  -- `while (left > 0)`, with fuel. Every branch of the two switches saves the error as it is.
  unfoldable pub ssl_write_loop : ℕ → ℕ → List ℕ → SslWritten → Outcome SslWritten
  ssl_write_loop zero call left w = unfinished
  ssl_write_loop (suc fuel) call left w = elim (ltb 0 (length left)) [
    | false ↦ done w
    | true ↦ elim ((write call left).0) [
      | minus_one ↦ done (record w { saved_errno = some (write call left).1 })
      | count rc ↦ elim (ltb 0 rc) [
        | false ↦ done (record w { saved_errno = some (write call left).1 })
        | true ↦
            assert ((write call left).1 == 0)
            >> ssl_write_loop fuel (suc call) (drop rc left)
                (record w { n = w.n + rc; sent = w.sent ++ take rc left })
      ]
    ]
  ]

  unfoldable pub ssl_write : List ℕ → Outcome SslWritten
  ssl_write octets =
      ssl_write_loop (suc (length octets)) 0 octets
        (record { n = 0; saved_errno = none; sent = [] })

pub record SslReadState : Type 0 where
  pub n : ℕ
  pub saved_errno : Option ℕ
  pub space : Space

-- What a call of OpenSSL gives: its octets, `SSL_get_error`, and `SSL_pending` after it.
pub record SslResult : Type 0 where
  pub result : Received
  pub error : ℕ
  pub pending : ℕ

module _ (read : ℕ → ℕ → SslResult) (ensure_writable_bytes : ℕ → Space → ℕ) where
  -- At the head of a round there is room, and for what is pending if that is more.
  unfoldable pub room_for : ℕ → Space → ℕ
  room_for least s = if ltb s.writable least then ensure_writable_bytes least s else s.writable

  unfoldable pub head_room : Space → ℕ
  head_room s = if s.writable == 0 then ensure_writable_bytes 4096 s else s.writable

  -- The octets of a call are in the buffer: `hasWritten` asserts that they fit.
  unfoldable pub took : List ℕ → ℕ → SslReadState → SslReadState
  took octets room s = record s {
    n = s.n + length octets;
    space = record { readable = s.space.readable ++ octets; writable = room - length octets };
  }

  unfoldable pub save : ℕ → ℕ → SslReadState → SslReadState
  save error room s = record s {
    saved_errno = some error;
    space = record s.space { writable = room };
  }

  -- The buffer has room for what is pending.
  unfoldable pub make_room : ℕ → SslReadState → SslReadState
  make_room pending s = record s { space = record s.space { writable = room_for pending s.space } }

  unfoldable pub ssl_read_loop : ℕ → ℕ → SslReadState → Outcome SslReadState
  ssl_read_loop zero call s = unfinished
  ssl_read_loop (suc fuel) call s =
      let room = head_room s.space in
      let r = read call room in
      elim r.result [
        | read_fails ↦ done (save r.error room s)
        | received octets ↦ elim (ltb 0 (length octets)) [
          | false ↦ assert (r.pending == 0) >> done (save r.error room s)
          | true ↦
              assert (r.error == 0)
              >> (assert (leb (length octets) room) >> elim (ltb 0 r.pending) [
                | true ↦ ssl_read_loop fuel (suc call) (make_room r.pending (took octets room s))
                | false ↦ done (took octets room s)
              ])
        ]
      ]

  unfoldable pub ssl_read : ℕ → Space → Outcome SslReadState
  ssl_read fuel space = ssl_read_loop fuel 0 (record { n = 0; saved_errno = none; space = space })
