-- ===== src/Tests/Tls.antt =====
-- An OpenSSL that takes three octets and then wants to wait, and one that gives five octets in two
-- calls.
use libwebsocket_component.Prelude.{
  ℕ, zero, suc, ◌≡◌, refl, inl, arith, List, ◌++◌, length, concat, length-take, ap, take, codes,
  done, some,
}
use libwebsocket_component.SocketIo.{Rc, count, minus_one, received, read_fails, Space}
use libwebsocket_component.SslIo.{
  ssl_write_loop, SslWritten, ssl_write, SslReadState, SslResult, ssl_read,
}
use libwebsocket_component.SslIo.Writing.{Keeps, Reported, ssl_write-Reported}
use libwebsocket_component.SslIo.Reading.{Orderly, Drained, SslReads, ssl_read-SslReads}

-- `SSL_ERROR_WANT_WRITE` and `SSL_ERROR_WANT_READ`.
abbrev want_write : ℕ
want_write = 3

abbrev want_read : ℕ
want_read = 2

abbrev slow_ssl : ℕ → List ℕ → Rc × ℕ
slow_ssl zero octets = (count (length (take 3 octets)), 0)
slow_ssl (suc k) octets = (minus_one, want_write)

slow_ssl-Keeps : Keeps slow_ssl
slow_ssl-Keeps zero octets rc e = (ground (arith, length-take 3 octets), λ _. refl)
slow_ssl-Keeps (suc k) octets rc e = cc

slow_ssl_run :
    ssl_write slow_ssl (codes "hello")
    ≡ done (record { n = 3; saved_errno = some want_write; sent = codes "hel" })
unfolding ssl_write ssl_write_loop
slow_ssl_run = refl

ssl_write-Reported_example :
    (v : SslWritten) × (rest : List ℕ) × (ssl_write slow_ssl (codes "hello") ≡ done v)
    × (v.sent ++ rest ≡ codes "hello")
    × (v.n ≡ length v.sent)
    × Reported slow_ssl rest v.saved_errno
ssl_write-Reported_example = ssl_write-Reported slow_ssl (codes "hello") slow_ssl-Keeps

received_same : {xs ys : List ℕ} → received xs ≡ received ys → xs ≡ ys
received_same e = cc

-- The first call gives what the buffer has room for of two octets.
abbrev two_calls : ℕ → ℕ → SslResult
two_calls zero room = record { result = received (take room (codes "he")); error = 0; pending = 0 }
two_calls (suc k) room = record { result = read_fails; error = want_read; pending = 0 }

abbrev as_asked : ℕ → Space → ℕ
as_asked n s = n

two_calls-Orderly : Orderly two_calls as_asked
two_calls-Orderly zero room octets e = (
  ground (arith, length-take room (codes "he"), ap length (received_same e)),
  (λ _. refl),
  λ _. refl,
)
two_calls-Orderly (suc k) room octets e = cc

two_calls-Drained : Drained two_calls as_asked 1
two_calls-Drained room = inl refl

ssl_read-SslReads_example :
    (t : SslReadState) × (parts : List (List ℕ)) × (ssl_read two_calls as_asked 2
        (record { readable = codes "> "; writable = 0 })
      ≡ done t)
    × (t.space.readable ≡ codes "> " ++ concat parts)
    × (t.n ≡ length (concat parts))
    × SslReads two_calls as_asked 0 parts
        (record { readable = codes "> "; writable = 0 })
        t.saved_errno
ssl_read-SslReads_example =
    ssl_read-SslReads two_calls as_asked 1 (record { readable = codes "> "; writable = 0 })
      two_calls-Orderly two_calls-Drained
