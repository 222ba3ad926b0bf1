-- ===== src/Lib.antt =====
-- libwebsocket-component: the WebSocket protocol of a server, on top of a byte buffer, a callback
-- handler and an HTTP context that its user supplies (libwebsocket/, and its copy of muduo's buffer);
-- and the HTTPS service of the same repository (https/), which is a user of the network library.
--
-- A connection has a context. `create` starts it closed, with the HTTP context. Every read calls
-- `parse_message_frame`: while the context is closed the input is taken for the request of the
-- handshake (`do_handshake`), and once it is connected for frames (`parse_frame`). `parse_frame` is
-- a loop over a step that the context keeps: the two octets of the header, the extended length, the
-- masking key, the payload. A payload goes to the data message or to the control message, is
-- unmasked there, and at the end of a message the handler is called. Answers are packed by the
-- `pack_unmask_*` functions and sent by the user.
--
-- The HTTPS service has a few network loops, each with a time wheel and with workers of its own. A new
-- connection is counted, given a worker and put into the wheel (`connection_up`); a message puts it
-- there again and queues a task for its worker (`on_http_message`); the worker locks its entry in the
-- wheel and answers (`async_http_handler`), which comes to `process_http_request` and for an order to
-- `order_process`. A tick of the wheel lets the oldest bucket go, and a connection that is in no
-- other one and is not locked is timed out.
--
-- The files and the code that they are about:
--   Endian       libwebsocket/private/Endian.h: byte order, 16 and 64 bits, on a little-endian host
--   Buffer       muduo-vip/muduo/net/Buffer.h: the readable octets of an IBytesBuffer
--   Frame        libwebsocket/private/websocket.cc, the enumerations, header_t and
--                extended_header_t; Frame/Kind get_frame_control_message_type; Frame/Layout the
--                octets of header_t
--   Message      the same file, frame_header_t, message_header_t, Message and unMaskPayloadData;
--                Message/Headers addFrameHeader and testValidate, Message/Headers/Adding what it
--                adds; Message/Masking its laws
--   Context      Context_ and the calls of ICallback (libwebsocket/ICallback.h)
--   Payload      the six parse_*_ReadPayloadData, ReadExtendedPayloadDataU16 and I64 handlers
--   Parser       the steps before the payload and parse_frame; Parser/Progress and Parser/Loop the
--                measure of the loop and its end
--   Session      no code: the frames of a client and their effect after RFC 6455, on what the code
--                takes, which is more than a client may send. Session/Payloads,
--                Headers, Frames and Refinement: the parser on complete frames. Session/Conformity:
--                what a client may send by section 5.4 of it. Session/Segments:
--                the parser on input that breaks off inside a frame. Session/Aborts: input that
--                fails an assert
--   Pack         the pack_unmask_* functions; Pack/Decode a client's decoder after RFC 6455 (no
--                code); Pack/Single and Pack/Chunks one frame and a chunked message
--   Base64       libwebsocket/private/base64.cc
--   Handshake    do_handshake, parse_message_frame, free, the response and the accept key;
--                Handshake/Address and Forwarded the choice of the client's address;
--                Handshake/Outcomes, Returns, Sessions and Streams what calls come to
--   SocketIo     libwebsocket/private/IBytesBuffer.cc: readFull and writeFull, with read(2), write(2) and
--                the growth of the buffer as parameters
--   SslIo        libwebsocket/ssl/ssl_iorw.cc: SSL_read and SSL_write, with the calls of OpenSSL and
--                the growth of the buffer as parameters
--   WsServer     muduo-vip/muduo/net/libwebsocket/server.cc and context.cc: a TCP connection of muduo with
--                a context, as the list of what the network and the user get; WsServer/Closing and
--                Ending a Close frame, WsServer/Quiet and Segments input that is cut anywhere,
--                WsServer/Conversation and Talk whole connections
--   Https        https/ApiServer.h and https/ApiServer.cpp. Https/Buckets Entry, ConnBucket and ~Entry,
--                with the life of an entry in Keeping, Updates, Others, Expiry, Timeouts, Locked and
--                Shape; Https/Workers EventLoopContext and the share of the workers in start;
--                Https/Query parseQuery; Https/Numbers atol; Https/Scores rate100, floors and
--                IsDigitalStr; Https/Orders and Orders/Handlers OrderProcess and doOrderExecute, with
--                Checks, Judgement, Decryption, Executions and Keys on what it does; Https/Urls
--                https/urlcodec.cpp; Https/Visits onHttpCondition and the address of a request;
--                Https/Requests processHttpRequest and the operations of an administrator;
--                Https/Service onHttpConnection, onHttpMessage,
--                asyncHttpHandler and onWriteComplete, with Service/Limit the system of all steps of
--                a loop
--   Tests        runs on concrete input
--   Prelude      shared names; Prelude/Asserts the outcome of code with asserts
--
-- How the model reads the code. A name of the code is written in lower case with underscores
-- (parse_frame_ReadMaskingkey is `parse_frame_read_maskingkey`), a constant of an enumeration
-- without its case (FinE::FrameContinue is `frame_continue`). Asserts are live: a failed one is the
-- outcome `aborted`. An octet is a number; where the source keeps a number in a few bits, the model
-- writes the remainder. A call that changes the context, the input buffer or what the handler has
-- been told takes a `Connection` and returns the next one; the calls of the handler are its list of
-- events, in order. The handler does not change a buffer that it is handed. Output that only
-- `LIBWEBSOCKET_DEBUG` makes, and the calls of addFrameHeader that it adds, are left out, and so are
-- its asserts on the number of frame headers (getFrameHeaderSize, in validate_message_frame for one:
-- there is none for a control message, and one at least for the data message of a continuation). The two
-- message buffers and the handler are there, as `create` asserts.
--
-- In WsServer the callbacks of a call are made after it, in their order: the parser reads nothing that
-- they change. The callbacks of the user leave the connection alone.
--
-- Fuel. `parse_frame` runs its loop with twice the octets of the input and two rounds more; every
-- step takes an octet or ends a frame, so that is enough, and the result does not depend on it. The
-- loop of `pack_unmask_data_frame_chunk` has one round for each octet, and so have `write_full`
-- and `ssl_write`. The loops of `read_full` and `ssl_read` go on as long as there are octets to read, so
-- their fuel is an argument. The loop of `parse_query` has one round more than there are octets, and
-- `to_string` ten digits, enough for an `int`; a pass of `multiple_decode` has one round for each octet,
-- and there is one pass more than there are octets, since each makes the text shorter. What has
-- run out of fuel would be the outcome `unfinished`. Behaviour that C++ leaves undefined, a read past
-- the end of a text or a shift by more than the width of an int, is the outcome `aborted`.
--
-- In https, connections are numbers. The shared pointers to an entry are the buckets that have it and
-- a count of the handlers that hold it; an entry ends when neither is left. The handlers of one loop
-- are steps one after the other, and a worker's handler is one step, too; the locks are left out.
-- A container is a list or a function, `double` is a parameter with the operations that the code uses,
-- and the body of a response is the name of what it says. Preprocessor switches are as the sources set
-- them: _STAT_ORDER_QPS_ and _NO_LOGIC_PROCESS_ are off. The file names IsDigitalStr also IsDigitStr and
-- the class also OrderServer; each pair is taken for one.
--
-- Not modelled: the setup of OpenSSL in libwebsocket/ssl/ssl.cc; SHA-1 (libwebsocket/private/sha1.cc,
-- taken from elsewhere), HTTP parsing,
-- the date and the address of the peer, which are the fields of `HttpEnv`; names and printing for debug
-- output; the copy of muduo, and the demo. In https: the start of the program,
-- the coding functions (MD5, AES, HTML) and the HTTP context, which are the fields of `OrderEnv` and
-- `HttpRequests`; the JSON and XML texts of responses and of the monitor; floorx and roundx, which
-- nothing calls.
pub mod Prelude
pub mod Endian
pub mod Buffer
pub mod Frame
pub mod Message
pub mod Context
pub mod Payload
pub mod Parser
pub mod Session
pub mod Pack
pub mod Base64
pub mod Handshake
pub mod SocketIo
pub mod SslIo
pub mod WsServer
pub mod Https
pub mod Tests
