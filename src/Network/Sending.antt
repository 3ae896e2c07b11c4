-- ===== src/Network/Sending.antt =====
-- What a client that is connected sends is what the other end of its connection takes.
use mathlib.Core.Option
use ab_prototype.Prelude.{
  ◌≡◌, refl, sym, ap, ◌∙◌, subst, true, Option, none, some, List, [], ◌∷◌, ◌++◌, append_assoc,
  append-nil, ◌>>=◌, >>=-eq-some, AllOf, AllOf-append_left, Bool, false, Bool-cases, inl, inr,
  if◌then◌else◌,
}
use ab_prototype.Message.{Message}
use ab_prototype.Connection.{
  Link, HeaderBytes, send_message, Event, write_fails, on_event, Reach, fresh, sends_message, moves,
}
use ab_prototype.Connection.Frames.{IsFramed}
use ab_prototype.Connection.Received.{taken-incoming_queue}
use ab_prototype.Network.Client.{
  ClientInterface, ClientConnection, connects, connect, new_connection, client_send_message,
}

-- The events of a link are those of its writing end, here the client, and of its reading end, the
-- server. The handler with an error closes the socket of its own end: of the client's, those of the
-- writes do.
unfoldable pub closes_socket : Event → Bool
closes_socket (write_fails sent) = true
closes_socket e = false

-- The client's own read of a header or of a body fails: its handler closes the client's socket.
unfoldable pub client_read_fails : ClientInterface → ClientInterface
client_read_fails c = elim c.my_connection [
  | none ↦ c
  | some conn ↦ record c { my_connection = some (record conn { socket_open = false }) }
]

module _ ⦃b : HeaderBytes⦄ where
  -- An event at one of the ends of a client's connection; `none` where it cannot happen.
  unfoldable pub link_event : Event → ClientInterface → Option ClientInterface
  unfolding closes_socket
  link_event e c = elim c.my_connection [
    | none ↦ none
    | some conn ↦ do
      l ← on_event e conn.link
      let socket = if closes_socket e then false else conn.socket_open
      some (record c { my_connection = some (record conn { link = l; socket_open = socket }) })
  ]

-- What happens at a client: it sends, there is an event of the link on which it sends, or the read of
-- what comes from the server fails.
pub data Action : Type 0 where
  client_sends : Message → Action
  link_moves : Event → Action
  own_read_fails : Action

unfoldable pub messages_of : List Action → List Message
messages_of [] = []
messages_of (client_sends msg ∷ actions) = msg ∷ messages_of actions
messages_of (link_moves e ∷ actions) = messages_of actions
messages_of (own_read_fails ∷ actions) = messages_of actions

module _ ⦃b : HeaderBytes⦄ where
  unfoldable pub run_client : List Action → ClientInterface → Option ClientInterface
  unfolding link_event client_read_fails
  run_client [] c = some c
  run_client (client_sends msg ∷ actions) c = run_client actions (client_send_message msg c)
  run_client (link_moves e ∷ actions) c = do c' ← link_event e c; run_client actions c'
  run_client (own_read_fails ∷ actions) c = run_client actions (client_read_fails c)

  -- A client with a connection, which has sent a first part of some messages: all of them, if the
  -- socket is still open.
  record HasSent (msgs : List Message) (c : ClientInterface) : Type 0 where
    conn : ClientConnection
    sent : List Message
    dropped : List Message
    split : msgs ≡ sent ++ dropped
    is_conn : c.my_connection ≡ some conn
    all_sent : conn.socket_open ≡ true → dropped ≡ []
    reached : Reach sent conn.link

  client_send_message-HasSent :
      (msg : Message) (msgs : List Message) (c : ClientInterface)
      → HasSent msgs c
      → HasSent (msgs ++ (msg ∷ [])) (client_send_message msg c)
  unfolding client_send_message
  client_send_message-HasSent msg msgs c h = elim (Bool-cases h.conn.socket_open) [
    | inl up ↦ record {
      conn = record (h.conn) { link = send_message msg (h.conn.link) };
      sent = h.sent ++ (msg ∷ []);
      dropped = [];
      split =
          let none_dropped : h.dropped ≡ [] = h.all_sent up in
          let split' : msgs ≡ h.sent ++ [] = rw none_dropped at h.split in
          ap (λ ms. ms ++ (msg ∷ [])) (split' ∙ append-nil h.sent)
          ∙ sym (append-nil (h.sent ++ (msg ∷ [])));
      is_conn = rw (h.is_conn, up) refl;
      all_sent = λ e. refl;
      reached = sends_message msg h.reached;
    }
    | inr down ↦ record {
      conn = h.conn;
      sent = h.sent;
      dropped = h.dropped ++ (msg ∷ []);
      split = ap (λ ms. ms ++ (msg ∷ [])) h.split ∙ append_assoc h.sent h.dropped (msg ∷ []);
      is_conn = rw (h.is_conn, down) refl;
      all_sent = λ e. let no : false ≡ true = sym down ∙ e in cc;
      reached = h.reached;
    }
  ]

  link_event-HasSent :
      (e : Event) (msgs : List Message) (c c' : ClientInterface)
      → HasSent msgs c
      → link_event e c ≡ some c'
      → HasSent msgs c'
  unfolding link_event
  link_event-HasSent e msgs c c' h step =
      let (l, moved, eq) = >>=-eq-some (on_event e h.conn.link) moved_to (rw (h.is_conn) at step) in
      subst (HasSent msgs) (Option.some-injective _ _ eq) (record {
        conn = moved_conn l;
        sent = h.sent;
        dropped = h.dropped;
        split = h.split;
        is_conn = refl;
        all_sent = λ up. h.all_sent (stays (closes_socket e) up);
        reached = moves e h.reached moved;
      })
    where
      moved_conn : Link → ClientConnection
      moved_conn l = record (h.conn) {
        link = l;
        socket_open = if closes_socket e then false else h.conn.socket_open;
      }

      moved_to : Link → Option ClientInterface
      moved_to l = some (record c { my_connection = some (moved_conn l) })

      stays :
          (closes : Bool)
          → (if closes then false else h.conn.socket_open) ≡ true
          → h.conn.socket_open ≡ true
      stays true up = cc
      stays false up = up

  client_read_fails-HasSent :
      (msgs : List Message) (c : ClientInterface)
      → HasSent msgs c
      → HasSent msgs (client_read_fails c)
  unfolding client_read_fails
  client_read_fails-HasSent msgs c h = record {
    conn = record (h.conn) { socket_open = false };
    sent = h.sent;
    dropped = h.dropped;
    split = h.split;
    is_conn = rw (h.is_conn) refl;
    all_sent = λ up. cc;
    reached = h.reached;
  }

  run_client-HasSent :
      (actions : List Action) (msgs : List Message) (c c' : ClientInterface)
      → HasSent msgs c
      → run_client actions c ≡ some c'
      → HasSent (msgs ++ messages_of actions) c'
  unfolding run_client messages_of
  run_client-HasSent [] msgs c c' h run =
      subst (λ ms. HasSent ms c') (sym (append-nil msgs))
        (subst (HasSent msgs) (Option.some-injective _ _ run) h)
  run_client-HasSent (client_sends msg ∷ actions) msgs c c' h run =
      subst (λ ms. HasSent ms c') (append_assoc msgs (msg ∷ []) (messages_of actions))
        (run_client-HasSent actions (msgs ++ (msg ∷ [])) (client_send_message msg c) c'
          (client_send_message-HasSent msg msgs c h) run)
  run_client-HasSent (link_moves e ∷ actions) msgs c c' h run =
      let (c1, step, run') = >>=-eq-some (link_event e c) _ run in
      run_client-HasSent actions msgs c1 c' (link_event-HasSent e msgs c c1 h step) run'
  run_client-HasSent (own_read_fails ∷ actions) msgs c c' h run =
      run_client-HasSent actions msgs (client_read_fails c) c' (client_read_fails-HasSent msgs c h)
        run

  -- After a client has connected, and whatever it sends and whatever happens at the two ends of its
  -- connection, in any order: the messages that the server took, and then those in its incoming queue,
  -- are the first ones that the client sent, in their order, if each has the size of its body in its
  -- header and a body that is not empty. This holds also if a write or a read of the client fails, or a
  -- read of the server.
  pub run_client-connect :
      (temp : Message) (actions : List Action) (c c' : ClientInterface)
      → run_client actions (connect temp connects c).1 ≡ some c'
      → AllOf IsFramed (messages_of actions)
      → (conn : ClientConnection) × (rest : List Message) × (c'.my_connection ≡ some conn)
        × (messages_of actions ≡ (conn.link.taken ++ conn.link.incoming_queue.deq_queue) ++ rest)
  unfolding connect new_connection
  run_client-connect temp actions c c' run framed =
      let start : HasSent [] (connect temp connects c).1 = record {
        conn = new_connection temp true c;
        sent = [];
        dropped = [];
        split = refl;
        is_conn = refl;
        all_sent = λ e. refl;
        reached = fresh temp;
      } in
      let h = run_client-HasSent actions [] (connect temp connects c).1 c' start run in
      let framed' : AllOf IsFramed (h.sent ++ h.dropped) = subst (AllOf IsFramed) h.split framed in
      let (rest, split) =
        taken-incoming_queue h.reached (AllOf-append_left IsFramed h.sent h.dropped framed') in
      (
        h.conn,
        rest ++ h.dropped,
        h.is_conn,
        h.split
            ∙ ap (λ ms. ms ++ h.dropped) split
            ∙ append_assoc (h.conn.link.taken ++ h.conn.link.incoming_queue.deq_queue) rest
                h.dropped,
      )
