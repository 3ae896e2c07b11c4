-- ===== src/Network/Client.antt =====
-- `client_interface` of network_client.hpp, and the loops of the two mains that connect it. The
-- party identifiers are `none` for -1.
use ab_prototype.Prelude.{
  ℕ, suc, ◌-◌, ◌+◌, Bool, true, false, Option, none, some, List, [], ◌∷◌, ◌==◌, if◌then◌else◌,
  replicate, ◌>>=◌,
}
use ab_prototype.Message.{Message}
use ab_prototype.Connection.{Link, connected_link, send_message}

-- The connection object of a client: the socket, and the link to the other end.
pub record ClientConnection : Type 0 where
  pub socket_open : Bool
  pub local_party : Option ℕ
  pub remote_party : Option ℕ
  pub link : Link

pub record ClientInterface : Type 0 where
  pub local_party_id : Option ℕ
  pub remote_party_id : Option ℕ
  pub my_connection : Option ClientConnection
  pub context_running : Bool

unfoldable pub client_interface : ClientInterface
client_interface = record {
  local_party_id = none;
  remote_party_id = none;
  my_connection = none;
  context_running = false;
}

-- What asio does of an attempt to connect: `resolve` throws, `connect` throws, or the connection is
-- made. A `connect` that throws may have opened the socket, and does not close it: the argument says
-- whether the socket is left open.
pub data Attempt : Type 0 where
  resolve_throws : Attempt
  connect_throws : Bool → Attempt
  connects : Attempt

-- The connection object with its party identifiers. `temp` is the message variable, which is not
-- initialised.
unfoldable pub new_connection : Message → Bool → ClientInterface → ClientConnection
new_connection temp socket_open c = record {
  socket_open = socket_open;
  local_party = c.local_party_id;
  remote_party = c.remote_party_id;
  link = connected_link temp;
}

-- Whether the connection was made, and the client.
unfoldable pub connect : Message → Attempt → ClientInterface → Bool × ClientInterface
unfolding new_connection
connect temp resolve_throws c = (false, c)
connect temp (connect_throws socket_open) c =
    (false, record c { my_connection = some (new_connection temp socket_open c) })
connect temp connects c =
    (true, record c { my_connection = some (new_connection temp true c); context_running = true })

-- Whether the socket is open, which it may be also without a connection.
unfoldable pub is_connected : ClientInterface → Bool
is_connected c = elim c.my_connection [ none ↦ false | some conn ↦ conn.socket_open ]

-- What is sent while there is no connection is dropped.
unfoldable pub client_send_message : Message → ClientInterface → ClientInterface
client_send_message msg c = elim c.my_connection [
  | none ↦ c
  | some conn ↦
      if conn.socket_open
      then record c { my_connection = some (record conn { link = send_message msg (conn.link) }) }
      else c
]

-- `connection::disconnect`: the closing of the socket is posted to the context, and runs or not.
unfoldable pub close_connection : Bool → ClientConnection → ClientConnection
close_connection close_runs conn =
    if conn.socket_open
    then (if close_runs then record conn { socket_open = false } else conn)
    else conn

-- The context is stopped after the closing is posted, which may keep it from running.
unfoldable pub disconnect : Bool → ClientInterface → ClientInterface
unfolding close_connection
disconnect close_runs c =
    let closed : Option ClientConnection = elim c.my_connection [
      | none ↦ none
      | some conn ↦ some (close_connection close_runs conn)
    ] in
    record c { my_connection = closed; context_running = false }

-- A client after its attempts up to one that succeeds, and the attempts that are left; `none` where
-- the attempts end before that.
unfoldable pub connect_until :
    Message → List Attempt → ClientInterface → Option (ClientInterface × List Attempt)
unfolding connect
connect_until temp [] c = none
connect_until temp (attempt ∷ attempts) c =
    let (established, c') = connect temp attempt c in
    let later = connect_until temp attempts c' in if established then some (c', attempts) else later

-- The loop over the clients from client i on. A client whose index is `skipped`, the server's own,
-- is not connected.
unfoldable pub connect_clients :
    Message → ℕ → Option ℕ → ℕ → List Attempt → List ClientInterface → Option (List ClientInterface)
unfolding connect_until
connect_clients temp local skipped i attempts [] = some []
connect_clients temp local skipped i attempts (c ∷ clients) =
    let c' = record c { local_party_id = some local; remote_party_id = some (i + 1) } in
    let skip = (do
      clients' ← connect_clients temp local skipped (suc i) attempts clients
      some (c' ∷ clients')) in
    let dial = (do
      (connected, rest) ← connect_until temp attempts c'
      clients' ← connect_clients temp local skipped (suc i) rest clients
      some (connected ∷ clients')) in
    elim skipped [ none ↦ dial | some own ↦ if i == own then skip else dial ]

-- A server connects to all others (`server_id - 1` is no index for 0), the client program to all servers.
unfoldable pub connect_server : Message → ℕ → ℕ → List Attempt → Option (List ClientInterface)
unfolding connect_clients client_interface
connect_server temp server_id n attempts =
    connect_clients temp server_id (if server_id == 0 then none else some (server_id - 1)) 0
      attempts (replicate n client_interface)

unfoldable pub connect_client : Message → ℕ → List Attempt → Option (List ClientInterface)
unfolding connect_clients client_interface
connect_client temp n attempts =
    connect_clients temp 1 none 0 attempts (replicate n client_interface)
