-- ===== src/Tests/Sockets.antt =====
-- A socket that takes at most three octets a call and then no more, and one that has five octets.
use libwebsocket_component.Prelude.{
  ℕ, zero, suc, ◌≡◌, refl, inl, arith, List, [], ◌++◌, length, concat, length-take, ap, take, codes,
  done,
}
use libwebsocket_component.Frame.{
  ExtendedHeader, zero_extended_header, zero_header, un_control_frame, middle_frame, text_message,
}
use libwebsocket_component.Message.{MessageHeader}
use libwebsocket_component.Frame.Kind.{get_frame_control_message_type}
use libwebsocket_component.SocketIo.{
  Rc, count, minus_one, Written, write_full, Received, received, read_fails, Space, ReadState,
  read_full,
}
use libwebsocket_component.SocketIo.Writing.{Writes, Honest, write_full-Writes}
use libwebsocket_component.SocketIo.Reading.{Fitting, Dry, Reads, read_full-Reads}

abbrev slow_write : ℕ → List ℕ → Rc
slow_write zero octets = count (length (take 3 octets))
slow_write (suc k) octets = minus_one

slow_write-Honest : Honest slow_write
slow_write-Honest zero octets rc e = ground (arith, length-take 3 octets)
slow_write-Honest (suc k) octets rc e = cc

write_full-Writes_example :
    (v : Written) × (parts : List (List ℕ)) × (rest : List ℕ) × (write_full slow_write
        (codes "hello")
        (count 0)
      ≡ done v)
    × (concat parts ++ rest ≡ codes "hello")
    × (v.sent ≡ concat parts)
    × (v.n ≡ length (concat parts))
    × Writes slow_write 0 parts rest (count 0) v.saved_errno
write_full-Writes_example = write_full-Writes slow_write (codes "hello") (count 0) slow_write-Honest

injected : {xs ys : List ℕ} → received xs ≡ received ys → xs ≡ ys
injected e = cc

abbrev small_read : ℕ → ℕ → Received
small_read zero room = received (take room (codes "hello"))
small_read (suc k) room = read_fails

abbrev more_room : ℕ → Space → ℕ
more_room n s = n

small_read-Fitting : Fitting small_read more_room
small_read-Fitting zero room octets e =
    ground (arith, length-take room (codes "hello"), ap length (injected e))
small_read-Fitting (suc k) room octets e = cc

small_read-Dry : Dry small_read more_room 1
small_read-Dry room = inl refl

read_full-Reads_example :
    (t : ReadState) × (parts : List (List ℕ)) × (read_full small_read more_room 2
        (record { readable = codes "> "; writable = 0 })
        (count 0)
      ≡ done t)
    × (t.space.readable ≡ codes "> " ++ concat parts)
    × (t.n ≡ length (concat parts))
    × Reads small_read more_room 0 parts
        (record { readable = codes "> "; writable = 0 })
        t.saved_errno
read_full-Reads_example =
    read_full-Reads small_read more_room 1 (record { readable = codes "> "; writable = 0 })
      (count 0) small_read-Fitting small_read-Dry

-- A continuation in the middle of a text message.
abbrev middle : ExtendedHeader
middle = record zero_extended_header { header = record zero_header { payloadlen = 5 } }

abbrev text : MessageHeader
text = record { message_type = text_message; frame_headers = [] }

middle_kind : get_frame_control_message_type middle.header ≡ done (un_control_frame, middle_frame)
unfolding get_frame_control_message_type
middle_kind = refl
