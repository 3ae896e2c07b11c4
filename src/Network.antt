-- ===== src/Network.antt =====
-- network_client.hpp and network_server.hpp: which connections the two interfaces keep, and how the
-- mains connect. What asio decides, whether an address resolves, a connection is made or a socket is
-- open, is given with each call.
pub mod Client
mod Connecting
pub mod Server
mod Accepting
mod Sending
mod Tests
