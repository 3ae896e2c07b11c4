-- ===== src/Network/Server.antt =====
-- `server_interface` of network_server.hpp: the accepted connections and what is sent to them. The
-- class of rm_server.hpp overrides none of its virtual functions. A pointer that was reset is
-- `none`, and its use a fault.
use ab_prototype.Prelude.{
  false, true, ℕ, ◌+◌, ◌%◌, ◌^◌, Bool, Option, none, some, List, [], ◌∷◌, ◌++◌, get_elem?, set?,
  if◌then◌else◌, ◌>>=◌,
}
use ab_prototype.Message.{Message}
use ab_prototype.Connection.{Link, connected_link, send_message}

-- The connection object of a server.
pub record Peer : Type 0 where
  pub id : ℕ
  pub open_socket : Bool
  pub link : Link

pub record Host : Type 0 where
  pub my_connections : List (Option Peer)
  pub id_counter : ℕ
  pub context_running : Bool

unfoldable pub server_interface : Host
server_interface = record { my_connections = []; id_counter = 10000; context_running = false }

-- `start`: `wait_for_connection` may throw; otherwise the thread of the context runs.
unfoldable pub start_server : Bool → Host → Bool × Host
start_server throws h = if throws then (false, h) else (true, record h { context_running = true })

-- `stop`: no handler runs after it.
unfoldable pub stop_server : Host → Host
stop_server h = record h { context_running = false }

-- With which error, or with which socket, `async_accept` calls its handler.
pub data Accepted : Type 0 where
  accept_error : Accepted
  accept_socket : Bool → Accepted

unfoldable pub new_peer : Message → Bool → Peer
new_peer temp open_socket = record { id = 0; open_socket = open_socket; link = connected_link temp }

unfoldable pub upon_connection : Peer → Bool
upon_connection client = client.open_socket

-- `connection::connect_to_client`, of an owner that is a server.
unfoldable pub connect_to_client : ℕ → Peer → Peer
connect_to_client uid p = if p.open_socket then record p { id = uid } else p

-- The handler of `wait_for_connection`.
unfoldable pub on_accept : Message → Accepted → Host → Host
unfolding new_peer upon_connection connect_to_client
on_accept temp accept_error h = h
on_accept temp (accept_socket open_socket) h =
    let newconn = new_peer temp open_socket in
    if upon_connection newconn
    then record h {
      my_connections = h.my_connections ++ (some (connect_to_client h.id_counter newconn) ∷ []);
      id_counter = (h.id_counter + 1) % 2 ^ 32;
    }
    else h

-- The handlers that run one after the other, while the context runs.
unfoldable pub accept_all : Message → List Accepted → Host → Host
accept_all temp [] h = h
accept_all temp (a ∷ accepted) h =
    let later = accept_all temp accepted (on_accept temp a h) in
    if h.context_running then later else h

-- A message to a connection that is up.
unfoldable pub sent_to : Message → Peer → Peer
sent_to msg p = record p { link = send_message msg (p.link) }

-- `erase(remove(begin, end, client))` where client has been reset.
unfoldable pub remove_reset : List (Option Peer) → List (Option Peer)
remove_reset [] = []
remove_reset (none ∷ connections) = remove_reset connections
remove_reset (some p ∷ connections) = some p ∷ remove_reset connections

-- `client` is a copy of the pointer at an index: resetting it leaves the one in the queue.
unfoldable pub send_message_to_client : ℕ → Message → Host → Option Host
unfolding sent_to remove_reset
send_message_to_client index msg h = do
  client ← get_elem? h.my_connections index
  p ← client
  sent ← set? h.my_connections index (some (sent_to msg p))
  some (
      if p.open_socket
      then record h { my_connections = sent }
      else record h { my_connections = remove_reset h.my_connections })

-- The loop over the connections, by reference: those that are not up are reset.
unfoldable pub send_to_each : Message → List (Option Peer) → Option (List (Option Peer))
unfolding sent_to
send_to_each msg [] = some []
send_to_each msg (none ∷ connections) = none
send_to_each msg (some p ∷ connections) = do
  rest ← send_to_each msg connections
  some ((if p.open_socket then some (sent_to msg p) else none) ∷ rest)

-- `invalidClientExists` stays false, so that nothing is erased.
unfoldable pub send_message_to_all_clients : Message → Host → Option Host
unfolding send_to_each
send_message_to_all_clients msg h = do
  connections ← send_to_each msg h.my_connections
  some (record h { my_connections = connections })
