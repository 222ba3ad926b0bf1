-- ===== src/Tests.antt =====
-- Concrete runs, and the theorems at concrete inputs.
mod Frames
mod Replies
mod Handshakes
mod Sockets
mod Tls
mod Wheels
mod Services
mod Servers
mod Urls
