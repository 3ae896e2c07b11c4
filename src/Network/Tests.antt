-- ===== src/Network/Tests.antt =====
-- The two interfaces at small inputs.
use ab_prototype.Prelude.{
  ℕ, get_elem?, ◌<◌, ◌≡◌, refl, true, false, none, some, List, [], ◌∷◌, ◌++◌, map, length,
  count_from, arith,
}
use ab_prototype.Message.{Message}
use ab_prototype.Queue.{front, push_back, is_empty, pop_front}
use ab_prototype.Connection.{
  on_event, on_header_written, on_body_written, on_header_read, on_body_read, write_header,
  send_message, finish_message, write_body, add_to_incoming_queue, connected_link, posted_runs,
  header_written, body_written, header_read, body_read, message_taken,
}
use ab_prototype.Connection.Samples.{plain, first, second, empty}
use ab_prototype.Network.Client.{
  ClientInterface, ClientConnection, client_interface, Attempt, resolve_throws, connect_throws,
  connects, connect, new_connection, client_send_message, connect_client, connect_server,
}
use ab_prototype.Network.Connecting.{successes, AllDialled, connect-AllDialled}
use ab_prototype.Network.Server.{
  Peer, Host, server_interface, start_server, accept_error, accept_socket, Accepted, new_peer,
  accept_all, sent_to, send_message_to_all_clients,
}
use ab_prototype.Network.Accepting.{
  open_sockets, accepted_peer, accept_all-start_server, closed_peers,
  send_message_to_all_clients-twice,
}
use ab_prototype.Network.Sending.{
  Action, client_sends, link_moves, own_read_fails, messages_of, closes_socket, client_read_fails,
  link_event, run_client, run_client-connect,
}

abbrev attempts : List Attempt
attempts = connects ∷ resolve_throws ∷ connect_throws true ∷ connects ∷ connects ∷ []

connect-AllDialled_example :
    ((clients : List ClientInterface) × (connect_client empty 3 attempts ≡ some clients)
      × (length clients ≡ 3)
      × AllDialled empty 1 none 0 clients)
    × ((clients : List ClientInterface) × (connect_server empty 2 3 attempts ≡ some clients)
        × (length clients ≡ 3)
        × AllDialled empty 2 (some 1) 0 clients)
unfolding successes
connect-AllDialled_example = connect-AllDialled empty 2 3 attempts (omega arith)

abbrev accepted : List Accepted
accepted = accept_socket true ∷ accept_error ∷ accept_socket false ∷ accept_socket true ∷ []

accept_all-start_server_example :
    let h = accept_all empty accepted (start_server false server_interface).1 in
    (h.my_connections ≡ map (accepted_peer empty) (count_from 2 10000)) × (h.id_counter ≡ 10002)
unfolding open_sockets
accept_all-start_server_example = accept_all-start_server empty accepted (omega arith)

abbrev two_peers : List Peer
two_peers = new_peer empty true ∷ new_peer empty false ∷ []

abbrev host : Host
host = record { my_connections = map some two_peers; id_counter = 10002; context_running = true }

send_message_to_all_clients-twice_example :
    (h' : Host) × (send_message_to_all_clients first host ≡ some h')
    × ((i : ℕ) (p : Peer)
        → get_elem? two_peers i ≡ some p
        → (p.open_socket ≡ true → get_elem? h'.my_connections i ≡ some (some (sent_to first p)))
          × (p.open_socket ≡ false → get_elem? h'.my_connections i ≡ some none))
    × (closed_peers host.my_connections ≡ 0
        → send_message_to_all_clients second h'
          ≡ some (record host {
            my_connections = map (λ p. some (sent_to second (sent_to first p))) two_peers;
          }))
    × (0 < closed_peers host.my_connections → send_message_to_all_clients second h' ≡ none)
send_message_to_all_clients-twice_example =
    send_message_to_all_clients-twice first second host two_peers refl

one_closed : 0 < closed_peers host.my_connections
unfolding closed_peers new_peer
one_closed = omega arith

abbrev actions : List Action
actions =
    client_sends first
    ∷ link_moves posted_runs
    ∷ link_moves header_written
    ∷ client_sends second
    ∷ link_moves body_written
    ∷ link_moves header_read
    ∷ link_moves body_read
    ∷ own_read_fails
    ∷ client_sends first
    ∷ link_moves message_taken
    ∷ []

abbrev client_after : ClientInterface
client_after = elim (run_client actions (connect empty connects client_interface).1) [
  | none ↦ client_interface
  | some c ↦ c
]

run_client-connect_example :
    (conn : ClientConnection) × (rest : List Message) × (client_after.my_connection ≡ some conn)
    × ((first ∷ second ∷ first ∷ [])
        ≡ (conn.link.taken ++ conn.link.incoming_queue.deq_queue) ++ rest)
unfolding run_client link_event client_read_fails closes_socket messages_of connect new_connection
    client_interface client_send_message on_event on_header_written on_body_written on_header_read
    on_body_read write_header send_message finish_message write_body add_to_incoming_queue
    connected_link front push_back is_empty pop_front
run_client-connect_example = run_client-connect empty actions client_interface client_after refl (
  record { size_lem = refl; positive = omega arith },
  (
    record { size_lem = refl; positive = omega arith },
    (record { size_lem = refl; positive = omega arith }, tt),
  ),
)
