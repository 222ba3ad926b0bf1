-- ===== src/Buffer.antt =====
-- `IBytesBuffer` (libwebsocket/IBytesBuffer.h) as its readable octets, with the operations that the
-- websocket code calls, as muduo-vip/muduo/net/Buffer.h implements them on a little-endian host.
use libwebsocket_component.Prelude.{
  ℕ, ◌+◌, ◌*◌, List, leb, length, get_or, drop, Outcome, done, assert, ◌>>=◌, ◌>>◌,
}

abbrev pub Buffer : Type 0
Buffer = List ℕ

abbrev pub readable_bytes : Buffer → ℕ
readable_bytes b = length b

-- `assert(len <= readableBytes())`, then the octets are gone.
unfoldable pub retrieve : ℕ → Buffer → Outcome Buffer
retrieve n b = do assert (leb n (readable_bytes b)); done (drop n b)

-- `peekInt16` and `retrieveInt16`: the octets as they lie in memory, with no change of byte order.
unfoldable pub read_int16 : Buffer → Outcome (ℕ × Buffer)
read_int16 b = do
  assert (leb 2 (readable_bytes b))
  rest ← retrieve 2 b
  done (get_or b 0 0 + 256 * get_or b 1 0, rest)

unfoldable pub read_int64 : Buffer → Outcome (ℕ × Buffer)
read_int64 b = do
  assert (leb 8 (readable_bytes b))
  rest ← retrieve 8 b
  done (
    get_or b 0 0
        + 256 * get_or b 1 0
        + 65536 * get_or b 2 0
        + 16777216 * get_or b 3 0
        + 4294967296 * get_or b 4 0
        + 1099511627776 * get_or b 5 0
        + 281474976710656 * get_or b 6 0
        + 72057594037927936 * get_or b 7 0,
    rest,
  )
